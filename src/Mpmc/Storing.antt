-- ===== src/Mpmc/Storing.antt =====
-- A producer that stores its payload and publishes it keeps the invariant.
use lw_ipc.Base.{
  ℕ, suc, ◌+◌, ◌≤◌, ◌<◌, ◌≡◌, ◌≢◌, sym, ap, ◌∙◌, subst, arith, some, true, false, ℕ_discrete,
}
use lw_ipc.Base.Words.{add64}
use lw_ipc.Ring.{IsCapacity, index, update, store_sequence, store_item}
use lw_ipc.Ring.Concurrent.{Payload}
use lw_ipc.Mpmc.{
  Pusher, idle, loaded, trying, stale, claimed, Popper, waiting, looking, taking, behind, reading,
  delivered, Memory, seq_at, set_slots,
}
use lw_ipc.Mpmc.Invariant.{
  item_at, Prefix, Positions, Slots, Pushing, Popping, pushes_at, window, not_read, apart_slots,
  apart_unused,
}

module _ {B : Type 0} {capacity words : ℕ} (c : IsCapacity capacity) (m : Memory B)
    (o : Positions capacity words m) (sl : Slots capacity words m) where
  -- A producer at work on `pos`.
  module _ (pos : ℕ) (x : Payload B) (done : ℕ)
      (mine : Pushing capacity words m (claimed pos x done)) where
    near : m.ring.write_pos ≤ pos + capacity
    near = window o pos (not_read o pos (ground (arith, o.read_written pos, mine.1)))

    -- The slots of the other positions in the window are others.
    other_slot :
        (p : ℕ)
        → p < m.ring.write_pos
        → m.ring.write_pos ≤ p + capacity
        → p ≢ pos
        → index capacity pos ≢ index capacity p
    other_slot p h k ne = apart_slots c m.ring.write_pos pos p mine.0 near h k ne

    other_unused :
        (p : ℕ) → m.ring.write_pos ≤ p → p < capacity → index capacity pos ≢ index capacity p
    other_unused p h k = apart_unused c m.ring.write_pos pos p mine.0 h k

    -- It copies a word.
    abbrev pub copied : Memory B
    copied = set_slots capacity words m (
        store_item m.ring.slots (index capacity pos)
          (update (m.ring.slots (index capacity pos)).item done (x done)))

    copied-seq : (p : ℕ) → seq_at capacity words copied p ≡ seq_at capacity words m p
    copied-seq p = ground arith

    copied-item :
        (p : ℕ)
        → index capacity pos ≢ index capacity p
        → item_at capacity words copied p ≡ item_at capacity words m p
    copied-item p ne = ground arith

    pub copied-Positions : Positions capacity words copied
    copied-Positions = record {
      order = o.order;
      small = o.small;
      written_lt = o.written_lt;
      released_lt = o.released_lt;
      read_written = o.read_written;
      free = o.free;
    }

    pub copied-Slots : Slots capacity words copied
    copied-Slots = record {
      unused = λ p h k. copied-seq p ∙ sl.unused p h k;
      busy = λ p h k. copied-seq p ∙ sl.busy p h k;
      stored = λ p h k l.
          let old = sl.stored p h k l in
          (
            copied-seq p ∙ old.0,
            subst (λ t. Prefix words t (m.pushed p))
                (sym (copied-item p (other_slot p h (window o p l) (written_ne p k)))) old.1,
          );
      reusable = λ p h near k. copied-seq p ∙ sl.reusable p h near k;
    }
      where
        written_ne : (p : ℕ) → m.written p ≡ true → p ≢ pos
        written_ne p k e = ground (arith, ap m.written e, mine.1, k)

    pub copied-Pushing :
        (q : Pusher B)
        → pushes_at q ≢ some pos
        → Pushing capacity words m q
        → Pushing capacity words copied q
    copied-Pushing idle ne h = tt
    copied-Pushing (stale y) ne h = tt
    copied-Pushing (loaded p y) ne h = h
    copied-Pushing (trying p y) ne h = h
    copied-Pushing (claimed p y n) ne h = (
      h.0,
      h.1,
      h.2,
      subst (λ t. Prefix n t (m.pushed p))
          (sym (
            copied-item p (
              other_slot p h.0 (window o p (not_read o p (ground (arith, o.read_written p, h.1))))
                (λ e. ne (ap some e)))))
          h.3,
    )

    pub copied-Popping :
        (q : Popper B) → Popping capacity words m q → Popping capacity words copied q
    copied-Popping waiting h = tt
    copied-Popping behind h = tt
    copied-Popping (looking p) h = h
    copied-Popping (taking p) h = h
    copied-Popping (reading p n out) h = h
    copied-Popping (delivered p out) h = h

    pub copied-claimed : Pushing capacity words copied (claimed pos x (suc done))
    copied-claimed = (mine.0, mine.1, mine.2, λ k l. word k l)
      where
        word : (k : ℕ) → k < suc done → item_at capacity words copied pos k ≡ m.pushed pos k
        word k l = elim (ℕ_discrete done k) [
          | yes e ↦ ground (arith, mine.2 k, ap x e)
          | no ne ↦ ground (arith, mine.3 k (omega arith))
        ]

    -- It stores the sequence number.
    abbrev pub published : Memory B
    published =
        record (set_slots capacity words m
          (store_sequence m.ring.slots (index capacity pos) (add64 pos 1))) {
            written = update m.written pos true;
          }

    published-seq :
        (p : ℕ)
        → index capacity pos ≢ index capacity p
        → seq_at capacity words published p ≡ seq_at capacity words m p
    published-seq p ne = ground arith

    published-item : (p : ℕ) → item_at capacity words published p ≡ item_at capacity words m p
    published-item p = ground arith

    -- What is marked as written by then.
    unwritten : (p : ℕ) → published.written p ≡ false → (p ≢ pos) × (m.written p ≡ false)
    unwritten p h = ground (arith, h)

    written_old : (p : ℕ) → p ≢ pos → published.written p ≡ m.written p
    written_old p ne = ground arith

    module _ (whole : words ≤ done) where
      pub published-Positions : Positions capacity words published
      published-Positions = record {
        order = o.order;
        small = o.small;
        written_lt = λ p h. ground (arith, mine.0, o.written_lt p, h);
        released_lt = o.released_lt;
        read_written = λ p h. ground (arith, o.read_written p h);
        free = o.free;
      }

      pub published-Slots : Slots capacity words published
      published-Slots = record {
        unused = λ p h k. published-seq p (other_unused p h k) ∙ sl.unused p h k;
        busy = λ p h k.
            let (ne, old) = unwritten p k in
            published-seq p (
              other_slot p h (window o p (not_read o p (ground (arith, o.read_written p, old)))) ne)
            ∙ sl.busy p h old;
        stored = λ p h k l. elim (ℕ_discrete p pos) [
          | yes e ↦ subst Stored (sym e) here_stored
          | no ne ↦
              let old = sl.stored p h (sym (written_old p ne) ∙ k) l in
              (
                published-seq p (other_slot p h (window o p l) ne) ∙ old.0,
                subst (λ t. Prefix words t (m.pushed p)) (sym (published-item p)) old.1,
              )
        ];
        reusable = λ p h near_p k.
            published-seq p (
              other_slot p h near_p (λ e. ground (
                arith,
                ap m.released e,
                k,
                not_read o pos (ground (arith, o.read_written pos, mine.1)),
              )))
            ∙ sl.reusable p h near_p k;
      }
        where
          Stored : ℕ → Type 0
          Stored p =
              (seq_at capacity words published p ≡ p + 1)
              × Prefix words (item_at capacity words published p) (m.pushed p)

          here_stored : Stored pos
          here_stored = (
            ground (arith, o.small, mine.0),
            λ k l. ap (λ f. f k) (published-item pos) ∙ mine.3 k (omega arith),
          )

      pub published-Pushing :
          (q : Pusher B)
          → pushes_at q ≢ some pos
          → Pushing capacity words m q
          → Pushing capacity words published q
      published-Pushing idle ne h = tt
      published-Pushing (stale y) ne h = tt
      published-Pushing (loaded p y) ne h = h
      published-Pushing (trying p y) ne h = h
      published-Pushing (claimed p y n) ne h = (
        h.0,
        written_old p (λ e. ne (ap some e)) ∙ h.1,
        h.2,
        subst (λ t. Prefix n t (m.pushed p)) (sym (published-item p)) h.3,
      )

      pub published-Popping :
          (q : Popper B) → Popping capacity words m q → Popping capacity words published q
      published-Popping waiting h = tt
      published-Popping behind h = tt
      published-Popping (looking p) h = h
      published-Popping (taking p) h = (h.0, ground (arith, h.1))
      published-Popping (reading p n out) h = h
      published-Popping (delivered p out) h = h

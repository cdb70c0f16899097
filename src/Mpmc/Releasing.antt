-- ===== src/Mpmc/Releasing.antt =====
-- A consumer that copies a payload and frees its slot keeps the invariant.
use lw_ipc.Base.{
  ℕ, suc, ◌+◌, ◌-◌, ◌≤◌, ◌<◌, ◌≡◌, ◌≢◌, inl, inr, sym, ap, ◌∙◌, subst, arith, some, true, false,
  ℕ_discrete,
}
use lw_ipc.Base.Words.{add64}
use lw_ipc.Ring.{IsCapacity, index, update, store_sequence}
use lw_ipc.Ring.Concurrent.{Payload}
use lw_ipc.Mpmc.{
  max_positions, Pusher, idle, loaded, trying, stale, claimed, Popper, waiting, looking, taking,
  behind, reading, delivered, Memory, seq_at, set_slots,
}
use lw_ipc.Mpmc.Invariant.{
  item_at, Free, Prefix, Positions, Slots, Pushing, Popping, pops_at, window, not_read, apart_slots,
  apart_unused,
}

module _ {B : Type 0} {capacity words : ℕ} (c : IsCapacity capacity) (m : Memory B)
    (o : Positions capacity words m) (sl : Slots capacity words m) where
  -- A consumer at work on `pos`.
  module _ (pos done : ℕ) (out : Payload B)
      (mine : Popping capacity words m (reading pos done out)) where
    whole_item : Prefix words (item_at capacity words m pos) (m.pushed pos)
    whole_item =
        (sl.stored pos (omega (arith, mine.0, o.order)) (o.read_written pos mine.0) mine.1).1

    -- It copies a word.
    pub copied_out :
        done < words
        → Popping capacity words m
            (reading pos (suc done) (update out done (item_at capacity words m pos done)))
    copied_out more = (mine.0, mine.1, λ k l. word k l)
      where
        word :
            (k : ℕ)
            → k < suc done
            → update out done (item_at capacity words m pos done) k ≡ m.pushed pos k
        word k l = elim (ℕ_discrete done k) [
          | yes e ↦ ground (arith, whole_item done more, ap (m.pushed pos) e)
          | no ne ↦ ground (arith, mine.2 k (omega arith))
        ]

    -- It stores the sequence number.
    abbrev pub freed : Memory B
    freed =
        record (set_slots capacity words m
          (store_sequence m.ring.slots (index capacity pos) (add64 pos capacity))) {
            released = update m.released pos true;
          }

    in_ring : pos < m.ring.write_pos
    in_ring = omega (arith, mine.0, o.order)

    freed-seq :
        (p : ℕ)
        → index capacity pos ≢ index capacity p
        → seq_at capacity words freed p ≡ seq_at capacity words m p
    freed-seq p ne = ground arith

    freed-item : (p : ℕ) → item_at capacity words freed p ≡ item_at capacity words m p
    freed-item p = ground arith

    unreleased : (p : ℕ) → freed.released p ≡ false → (p ≢ pos) × (m.released p ≡ false)
    unreleased p h = ground (arith, h)

    released_old : (p : ℕ) → p ≢ pos → freed.released p ≡ m.released p
    released_old p ne = ground arith

    released_still : (p : ℕ) → m.released p ≡ true → freed.released p ≡ true
    released_still p h = ground (arith, h)

    other_slot :
        (p : ℕ)
        → p < m.ring.write_pos
        → m.ring.write_pos ≤ p + capacity
        → p ≢ pos
        → index capacity pos ≢ index capacity p
    other_slot p h k ne = apart_slots c m.ring.write_pos pos p in_ring (window o pos mine.1) h k ne

    freed-Free : (p : ℕ) → Free capacity words m p → Free capacity words freed p
    freed-Free p (inl first) = inl first
    freed-Free p (inr (lap, h)) = inr (lap, released_still (p - capacity) h)

    pub freed-Positions : Positions capacity words freed
    freed-Positions = record {
      order = o.order;
      small = o.small;
      written_lt = o.written_lt;
      released_lt = λ p h. ground (arith, mine.0, o.released_lt p, h);
      read_written = o.read_written;
      free = λ p h. freed-Free p (o.free p h);
    }

    pub freed-Slots : capacity ≤ max_positions → Slots capacity words freed
    freed-Slots fits = record {
      unused = λ p h k.
          freed-seq p (apart_unused c m.ring.write_pos pos p in_ring h k) ∙ sl.unused p h k;
      busy = λ p h k.
          freed-seq p (
            other_slot p h (window o p (not_read o p (ground (arith, o.read_written p, k))))
              (λ e. ground (arith, ap m.written e, k, o.read_written pos mine.0)))
          ∙ sl.busy p h k;
      stored = λ p h k l.
          let (ne, old) = unreleased p l in
          let before = sl.stored p h k old in
          (
            freed-seq p (other_slot p h (window o p old) ne) ∙ before.0,
            subst (λ t. Prefix words t (m.pushed p)) (sym (freed-item p)) before.1,
          );
      reusable = λ p h near k. elim (ℕ_discrete p pos) [
        | yes e ↦ subst (λ t. seq_at capacity words freed t ≡ t + capacity) (sym e) lap_on
        | no ne ↦
            freed-seq p (other_slot p h near ne)
            ∙ sl.reusable p h near (sym (released_old p ne) ∙ k)
      ];
    }
      where
        lap_on : seq_at capacity words freed pos ≡ pos + capacity
        lap_on = ground (arith, o.small, in_ring, fits)

    pub freed-Pushing : (q : Pusher B) → Pushing capacity words m q → Pushing capacity words freed q
    freed-Pushing idle h = tt
    freed-Pushing (stale y) h = tt
    freed-Pushing (loaded p y) h = h
    freed-Pushing (trying p y) h = (h.0, freed-Free p h.1)
    freed-Pushing (claimed p y n) h =
        (h.0, h.1, h.2, subst (λ t. Prefix n t (m.pushed p)) (sym (freed-item p)) h.3)

    pub freed-Popping :
        (q : Popper B)
        → pops_at q ≢ some pos
        → Popping capacity words m q
        → Popping capacity words freed q
    freed-Popping waiting ne h = tt
    freed-Popping behind ne h = tt
    freed-Popping (looking p) ne h = h
    freed-Popping (taking p) ne h = h
    freed-Popping (reading p n y) ne h = (h.0, released_old p (λ e. ne (ap some e)) ∙ h.1, h.2)
    freed-Popping (delivered p y) ne h = (h.0, released_still p h.1, h.2)

    pub freed-delivered : words ≤ done → Popping capacity words freed (delivered pos out)
    freed-delivered whole = (mine.0, ground arith, λ k l. mine.2 k (omega arith))

-- ===== src/Mpmc/Pushing.antt =====
-- A producer that takes a position keeps the invariant.
use lw_ipc.Base.{
  ℕ, ◌+◌, ◌-◌, ◌≤◌, ◌<◌, ◌≡◌, inl, inr, sym, ap, ◌∙◌, subst, arith, dec_lt, ℕ_discrete,
}
use lw_ipc.Base.Words.{add64}
use lw_ipc.Ring.{IsCapacity, update}
use lw_ipc.Ring.Index.{capacity_pos, two-le-capacity}
use lw_ipc.Ring.Concurrent.{Payload}
use lw_ipc.Mpmc.{
  max_positions, Pusher, idle, loaded, trying, stale, claimed, Popper, waiting, looking, taking,
  behind, reading, delivered, Memory, seq_at,
}
use lw_ipc.Mpmc.Invariant.{
  item_at, Free, Prefix, Positions, Slots, Pushing, Popping, index-lap, not_written,
}

module _ {B : Type 0} {capacity words : ℕ} (c : IsCapacity capacity) (m : Memory B)
    (o : Positions capacity words m) (sl : Slots capacity words m) where
  pub same_slot :
      (pos : ℕ)
      → capacity ≤ pos
      → seq_at capacity words m pos ≡ seq_at capacity words m (pos - capacity)
  same_slot pos h = ap (λ i. (m.ring.slots i).sequence) (index-lap c pos h)

  -- A producer that finds its position's number in the slot may take it.
  pub found-Free :
      (pos : ℕ)
      → pos ≤ m.ring.write_pos
      → seq_at capacity words m pos ≡ pos
      → Free capacity words m pos
  found-Free pos le e = elim (dec_lt pos m.ring.write_pos) [
    | yes old ↦ o.free pos old
    | no new ↦ elim (dec_lt pos capacity) [
      | yes first ↦ inl first
      | no lap ↦ ground (
        arith,
        e,
        same_slot pos (omega arith),
        sl.busy (pos - capacity) (omega (arith, cap)),
        sl.stored (pos - capacity) (omega (arith, cap)),
        cap,
      )
    ]
  ]
    where
      cap : 2 ≤ capacity
      cap = two-le-capacity c

  -- The compare-exchange succeeds.
  module _ (pos : ℕ) (x : Payload B) (at : m.ring.write_pos ≡ pos) (room : pos < max_positions)
      (fr : Free capacity words m pos) where
    abbrev pub won : Memory B
    won = record m {
      ring = record m.ring { write_pos = add64 pos 1 };
      pushed = update m.pushed pos x;
    }

    end : won.ring.write_pos ≡ pos + 1
    end = omega arith

    pub won-Positions : Positions capacity words won
    won-Positions = record {
      order = omega (arith, o.order);
      small = omega arith;
      written_lt = λ p h. omega (arith, o.written_lt p h);
      released_lt = o.released_lt;
      read_written = o.read_written;
      free = λ p h. elim (ℕ_discrete p pos) [
        | yes e ↦ subst (Free capacity words m) (sym e) fr
        | no ne ↦ o.free p (omega arith)
      ];
    }

    pushed_old : (p : ℕ) → p < m.ring.write_pos → won.pushed p ≡ m.pushed p
    pushed_old p h = ground arith

    free_slot : seq_at capacity words m pos ≡ pos
    free_slot = elim fr [
      | inl first ↦ sl.unused pos (omega arith) first
      | inr (lap, done) ↦ omega (
        arith,
        same_slot pos lap,
        sl.reusable (pos - capacity) (omega (arith, capacity_pos c)) (omega arith) done,
      )
    ]

    pub won-Slots : Slots capacity words won
    won-Slots = record {
      unused = λ p h k. sl.unused p (omega arith) k;
      busy = λ p h k. elim (ℕ_discrete p pos) [
        | yes e ↦ subst (λ t. seq_at capacity words m t ≡ t) (sym e) free_slot
        | no ne ↦ sl.busy p (omega arith) k
      ];
      stored = λ p h k l.
          subst
            (λ t. (seq_at capacity words m p ≡ p + 1) × Prefix words (item_at capacity words m p) t)
            (sym (pushed_old p (o.written_lt p k))) (sl.stored p (o.written_lt p k) k l);
      reusable =
          λ p h near k. sl.reusable p (omega (arith, o.released_lt p k, o.order)) (omega arith) k;
    }

    -- Nobody else is disturbed.
    won-Free : (p : ℕ) → Free capacity words m p → Free capacity words won p
    won-Free p h = h

    pub won-Pushing : (q : Pusher B) → Pushing capacity words m q → Pushing capacity words won q
    won-Pushing idle h = tt
    won-Pushing (stale y) h = tt
    won-Pushing (loaded p y) h = omega arith
    won-Pushing (trying p y) h = (omega arith, h.1)
    won-Pushing (claimed p y done) h = (
      omega arith,
      h.1,
      λ k. h.2 k ∙ sym (ap (λ f. f k) (pushed_old p h.0)),
      λ k l. h.3 k l ∙ sym (ap (λ f. f k) (pushed_old p h.0)),
    )

    pub won-Popping : (q : Popper B) → Popping capacity words m q → Popping capacity words won q
    won-Popping waiting h = tt
    won-Popping behind h = tt
    won-Popping (looking p) h = h
    won-Popping (taking p) h = h
    won-Popping (reading p done out) h =
        (h.0, h.1, λ k l. h.2 k l ∙ sym (ap (λ f. f k) (pushed_old p (omega (arith, o.order)))))
    won-Popping (delivered p out) h =
        (h.0, h.1, λ k l. h.2 k l ∙ sym (ap (λ f. f k) (pushed_old p (omega (arith, o.order)))))

    pub won-claimed : Pushing capacity words won (claimed pos x 0)
    won-claimed = (
      omega arith,
      not_written o pos (omega arith),
      λ k. sym (ap (λ f. f k) pushed_new),
      λ k l. absurd (omega arith),
    )
      where
        pushed_new : won.pushed pos ≡ x
        pushed_new = ground arith

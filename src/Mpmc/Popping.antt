-- ===== src/Mpmc/Popping.antt =====
-- A consumer that takes a position keeps the invariant.
use lw_ipc.Base.{ℕ, ◌-◌, ◌≤◌, ◌≡◌, ap, ◌∙◌, arith, true, dec_lt, ℕ_discrete}
use lw_ipc.Base.Words.{add64}
use lw_ipc.Ring.{IsCapacity}
use lw_ipc.Ring.Index.{two-le-capacity}
use lw_ipc.Ring.Concurrent.{Payload}
use lw_ipc.Mpmc.{
  Pusher, idle, loaded, trying, stale, claimed, Popper, waiting, looking, taking, behind, reading,
  delivered, Memory, seq_at,
}
use lw_ipc.Mpmc.Invariant.{Positions, Slots, Pushing, Popping, not_read}
use lw_ipc.Mpmc.Pushing.{same_slot}

module _ {B : Type 0} {capacity words : ℕ} (c : IsCapacity capacity) (m : Memory B)
    (o : Positions capacity words m) (sl : Slots capacity words m) where
  -- A consumer that finds its position's ready number in the slot may read it.
  pub found-written :
      (pos : ℕ)
      → pos ≤ m.ring.read_pos
      → seq_at capacity words m pos ≡ add64 pos 1
      → m.written pos ≡ true
  found-written pos le e = elim (dec_lt pos m.ring.read_pos) [
    | yes old ↦ o.read_written pos old
    | no new ↦ elim (dec_lt pos m.ring.write_pos) [
      | yes pushed ↦ ground (arith, e, o.small, sl.busy pos pushed)
      | no end ↦ elim (dec_lt pos capacity) [
        | yes first ↦ absurd (omega (arith, e, o.small, o.order, sl.unused pos (omega arith) first))
        | no lap ↦ ground (
          arith,
          e,
          same_slot c m o sl pos (omega arith),
          o.order,
          o.small,
          sl.busy (pos - capacity) (omega (arith, o.order, cap)),
          sl.stored (pos - capacity) (omega (arith, o.order, cap)),
          sl.reusable (pos - capacity) (omega (arith, o.order, cap)) (omega (arith, o.order)),
          cap,
        )
      ]
    ]
  ]
    where
      cap : 2 ≤ capacity
      cap = two-le-capacity c

  -- The compare-exchange succeeds.
  module _ (pos : ℕ) (at : m.ring.read_pos ≡ pos) (wr : m.written pos ≡ true) where
    abbrev pub drawn : Memory B
    drawn = record m { ring = record m.ring { read_pos = add64 pos 1 } }

    pub drawn-Positions : Positions capacity words drawn
    drawn-Positions = record {
      order = omega (arith, o.written_lt pos wr, o.small);
      small = o.small;
      written_lt = o.written_lt;
      released_lt = λ p h. omega (arith, o.released_lt p h, o.written_lt pos wr, o.small);
      read_written = λ p h. elim (ℕ_discrete p pos) [
        | yes e ↦ ap m.written e ∙ wr
        | no ne ↦ o.read_written p (omega (arith, o.written_lt pos wr, o.small))
      ];
      free = o.free;
    }

    pub drawn-Slots : Slots capacity words drawn
    drawn-Slots = record {
      unused = sl.unused;
      busy = sl.busy;
      stored = sl.stored;
      reusable = sl.reusable;
    }

    pub drawn-Pushing : (q : Pusher B) → Pushing capacity words m q → Pushing capacity words drawn q
    drawn-Pushing idle h = tt
    drawn-Pushing (stale y) h = tt
    drawn-Pushing (loaded p y) h = h
    drawn-Pushing (trying p y) h = h
    drawn-Pushing (claimed p y n) h = h

    step_up : m.ring.read_pos ≤ drawn.ring.read_pos
    step_up = omega (arith, o.written_lt pos wr, o.small)

    pub drawn-Popping : (q : Popper B) → Popping capacity words m q → Popping capacity words drawn q
    drawn-Popping waiting h = tt
    drawn-Popping behind h = tt
    drawn-Popping (looking p) h = omega (arith, step_up)
    drawn-Popping (taking p) h = (omega (arith, step_up), h.1)
    drawn-Popping (reading p n out) h = (omega (arith, step_up), h.1, h.2)
    drawn-Popping (delivered p out) h = (omega (arith, step_up), h.1, h.2)

    pub drawn-reading : (out : Payload B) → Popping capacity words drawn (reading pos 0 out)
    drawn-reading out = (
      omega (arith, o.written_lt pos wr, o.small),
      not_read o pos (omega arith),
      λ k l. absurd (omega arith),
    )

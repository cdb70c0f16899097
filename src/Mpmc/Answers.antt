-- ===== src/Mpmc/Answers.antt =====
-- What `push` and `pop` answer when they refuse, and what `approx_size` can return.
use lw_ipc.Base.{
  ℕ, zero, suc, ◌+◌, ◌-◌, ◌≤◌, ◌<◌, ◌≡◌, ◌≢◌, inl, inr, ap, ◌∙◌, subst, arith, true, false, dec_lt,
  Bool-cases,
}
use lw_ipc.Ring.{IsCapacity}
use lw_ipc.Ring.Index.{capacity_pos}
use lw_ipc.Ring.Concurrent.{Payload}
use lw_ipc.Mpmc.{
  max_positions, loaded, idle, looking, waiting, Push, full, Pop, empty, Memory, System, seq_at,
  approx_size, Reach, Onward,
}
use lw_ipc.Mpmc.Invariant.{Pushing, Popping, Positions, Slots, not_read}
use lw_ipc.Mpmc.Pushing.{same_slot}
use lw_ipc.Mpmc.Runs.{Reach-Inv}
use lw_ipc.Mpmc.Delivery.{Onward-le}

module _ {B : Type 0} {capacity words : ℕ} (c : IsCapacity capacity) (m : Memory B)
    (o : Positions capacity words m) (sl : Slots capacity words m) where
  -- Where a slot's number lies.
  abbrev Within : ℕ → Type 0
  Within p =
      (p ≤ seq_at capacity words m p) × (seq_at capacity words m p < m.ring.write_pos + capacity)

  recent : (p : ℕ) → p < m.ring.write_pos → m.ring.write_pos ≤ p + capacity → Within p
  recent p h near = elim (Bool-cases (m.written p)) [
    | inl w ↦ elim (Bool-cases (m.released p)) [
      | inl d ↦ (omega (arith, sl.reusable p h near d), omega (arith, sl.reusable p h near d))
      | inr d ↦ (omega (arith, sl.stored p h w d), omega (arith, sl.stored p h w d, capacity_pos c))
    ]
    | inr w ↦ (omega (arith, sl.busy p h w), omega (arith, sl.busy p h w))
  ]

  lap_back : (p : ℕ) → p + capacity - capacity ≡ p
  lap_back p = omega arith

  next_lap : (p : ℕ) → seq_at capacity words m (p + capacity) ≡ seq_at capacity words m p
  next_lap p =
      same_slot c m o sl (p + capacity) (omega arith) ∙ ap (seq_at capacity words m) (lap_back p)

  -- The slot of an older position is that of a recent one.
  catch_up : (n p : ℕ) → m.ring.write_pos ≤ p + n → p < m.ring.write_pos → Within p
  catch_up zero p far h = absurd (omega arith)
  catch_up (suc n) p far h = elim (dec_lt (p + capacity) m.ring.write_pos) [
    | yes old ↦
        let later = catch_up n (p + capacity) (omega (arith, capacity_pos c)) old in
        (omega (arith, later.0, next_lap p), omega (arith, later.1, next_lap p))
    | no near ↦ recent p h (omega arith)
  ]

  within : (p : ℕ) → p < m.ring.write_pos → Within p
  within p h = catch_up m.ring.write_pos p (omega arith) h

  -- The slot of a position that was read is past its ready number, if not at it.
  not_empty : (p : ℕ) → p < m.ring.read_pos → p + 1 ≤ seq_at capacity words m p
  not_empty p h = elim (dec_lt (p + capacity) m.ring.write_pos) [
    | yes old ↦ omega (arith, (within (p + capacity) old).0, capacity_pos c, next_lap p)
    | no near ↦ elim (Bool-cases (m.released p)) [
      | inl d ↦
          omega (arith, sl.reusable p (omega (arith, o.order)) (omega arith) d, capacity_pos c)
      | inr d ↦ omega (arith, sl.stored p (omega (arith, o.order)) (o.read_written p h) d)
    ]
  ]

  -- At most a lap lies between the two positions.
  pub write_pos-le : m.ring.write_pos ≤ m.ring.read_pos + capacity
  write_pos-le = elim (dec_lt (m.ring.read_pos + capacity) m.ring.write_pos) [
    | yes far ↦ ground (
      arith,
      o.free (m.ring.read_pos + capacity) far,
      ap m.released (lap_back m.ring.read_pos),
      not_read o m.ring.read_pos (omega arith),
    )
    | no near ↦ omega arith
  ]

  -- A refusal for a full ring.
  refused :
      {pos : ℕ} {m' : Memory B} {x : Payload B}
      → capacity ≤ max_positions
      → pos ≤ m.ring.write_pos
      → Push capacity words m (loaded pos x) m' idle
      → (pos ≡ m.ring.write_pos) × (capacity ≤ pos) × (m.released (pos - capacity) ≡ false)
  refused {pos} fits le (full ne lt) = elim (dec_lt pos m.ring.write_pos) [
    | yes old ↦ ground (arith, lt, (within pos old).0, (within pos old).1, o.small)
    | no new ↦ elim (dec_lt pos capacity) [
      | yes first ↦ absurd (ne (sl.unused pos (omega arith) first))
      | no lap ↦ (omega arith, omega arith, ground (arith, before (omega arith)))
    ]
  ]
    where
      before : capacity ≤ pos → m.ring.write_pos ≤ pos → m.released (pos - capacity) ≢ true
      before lap end d = ne (
          omega (
            arith,
            same_slot c m o sl pos lap,
            sl.reusable (pos - capacity) (omega (arith, capacity_pos c)) (omega arith) d,
          ))

  -- A refusal for an empty one.
  nothing :
      {pos : ℕ} {m' : Memory B}
      → capacity ≤ max_positions
      → pos ≤ m.ring.read_pos
      → Pop capacity words m (looking pos) m' waiting
      → (pos ≡ m.ring.read_pos) × (m.written pos ≡ false)
  nothing {pos} fits le (empty ne lt) = elim (dec_lt pos m.ring.read_pos) [
    | yes old ↦
        ground
          (arith, lt, not_empty pos old, (within pos (omega (arith, o.order))).1, o.small, o.order)
    | no new ↦ (omega arith, ground (arith, unready (omega arith)))
  ]
    where
      unready : m.ring.read_pos ≤ pos → m.written pos ≢ true
      unready end w = ne (
          omega (
            arith,
            o.small,
            o.written_lt pos w,
            sl.stored pos (o.written_lt pos w) w (not_read o pos end),
          ))

module _ {B : Type 0} {capacity words : ℕ} (c : IsCapacity capacity)
    (fits : capacity ≤ max_positions) where
  -- In a reachable state, `push` returns false only at the position that is `write_pos` in that
  -- very state, and only if the position a lap before it, whose slot it would take, is not given
  -- back yet. The capacity is a power of two, at most `max_positions`.
  pub full_lem :
      {blank : Payload B} {s : System B} {m : Memory B} (i : ℕ) {pos : ℕ} {x : Payload B}
      → Reach capacity words blank s
      → s.pushers i ≡ loaded pos x
      → Push capacity words s.mem (loaded pos x) m idle
      → (pos ≡ s.mem.ring.write_pos) × (capacity ≤ pos) × (s.mem.released (pos - capacity) ≡ false)
  full_lem {s = s} i r e st =
      let inv = Reach-Inv c fits r in
      refused c s.mem inv.positions inv.slots fits
        (subst (Pushing capacity words s.mem) e (inv.pushing i)) st

  -- In a reachable state, `pop` returns false only at the position that is `read_pos` in that very
  -- state, and only if no `push` has stored its payload yet. The capacity is a power of two, at
  -- most `max_positions`.
  pub empty_lem :
      {blank : Payload B} {s : System B} {m : Memory B} (i : ℕ) {pos : ℕ}
      → Reach capacity words blank s
      → s.poppers i ≡ looking pos
      → Pop capacity words s.mem (looking pos) m waiting
      → (pos ≡ s.mem.ring.read_pos) × (s.mem.written pos ≡ false)
  empty_lem {s = s} i r e st =
      let inv = Reach-Inv c fits r in
      nothing c s.mem inv.positions inv.slots fits
        (subst (Popping capacity words s.mem) e (inv.popping i)) st

  -- `approx_size`, which loads `write_pos` in one reachable state and `read_pos` in a later one,
  -- returns at most the capacity, a power of two that is at most `max_positions`.
  pub approx_size-le :
      {blank : Payload B} {s t : System B}
      → Reach capacity words blank s
      → Onward capacity words s t
      → approx_size s.mem.ring.write_pos t.mem.ring.read_pos ≤ capacity
  unfolding approx_size
  approx_size-le {s = s} r o =
      let inv = Reach-Inv c fits r in
      ground (arith, (Onward-le c fits r o).1, write_pos-le c s.mem inv.positions inv.slots)

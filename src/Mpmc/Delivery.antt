-- ===== src/Mpmc/Delivery.antt =====
-- What the consumers are given: whole payloads, each to one of them.
use lw_ipc.Base.{ℕ, ◌≤◌, ◌<◌, ◌≡◌, refl, ap, subst, arith, true}
use lw_ipc.Ring.{IsCapacity}
use lw_ipc.Ring.Concurrent.{Payload}
use lw_ipc.Mpmc.{
  max_positions, Pusher, Popper, reading, delivered, Memory, System, Push, Pop, win, win_pop,
  copy_in, publish, call, load_pos, free, full, ahead, lose, call_pop, load_read, ready, empty,
  taken, lose_pop, copy_out, release, give_back, Step, pushes, pops, Reach, later, Onward, still,
  onward,
}
use lw_ipc.Mpmc.Invariant.{pops_at, Popping, Inv}
use lw_ipc.Mpmc.Runs.{Reach-Inv, pops_at-lt}

module _ {B : Type 0} {capacity words : ℕ} (c : IsCapacity capacity)
    (fits : capacity ≤ max_positions) where
  -- In a reachable state, a consumer that `pop` gave an item has every word of the payload of the
  -- one `push` that claimed the item's position, and that `push` had stored all of it. The
  -- capacity is a power of two, at most `max_positions`.
  pub delivered_lem :
      {blank : Payload B} {s : System B} (i : ℕ) {pos : ℕ} {out : Payload B}
      → Reach capacity words blank s
      → s.poppers i ≡ delivered pos out
      → (k : ℕ) → k < words
      → (s.mem.written pos ≡ true) × (out k ≡ s.mem.pushed pos k)
  delivered_lem {s = s} i r e k l =
      let inv = Reach-Inv c fits r in
      let h = subst (Popping capacity words s.mem) e (inv.popping i) in
      (inv.positions.read_written _ h.0, h.2 k l)

  pub Reach-Onward :
      {blank : Payload B} {s t : System B}
      → Reach capacity words blank s
      → Onward capacity words s t
      → Reach capacity words blank t
  Reach-Onward r still = r
  Reach-Onward r (onward o st) = later (Reach-Onward r o) st

  Push-le :
      {m m' : Memory B} {p p' : Pusher B}
      → Push capacity words m p m' p'
      → m.ring.write_pos ≤ m'.ring.write_pos
  Push-le (call x) = omega arith
  Push-le load_pos = omega arith
  Push-le (free e) = omega arith
  Push-le (full d l) = omega arith
  Push-le (ahead d l) = omega arith
  Push-le lose = omega arith
  Push-le (win at room) = omega arith
  Push-le (copy_in more) = omega arith
  Push-le (publish whole) = omega arith

  Pop-le :
      {m m' : Memory B} {p p' : Popper B}
      → m.ring.read_pos ≤ max_positions
      → Pop capacity words m p m' p'
      → m.ring.read_pos ≤ m'.ring.read_pos
  Pop-le small call_pop = omega arith
  Pop-le small load_read = omega arith
  Pop-le small (ready e) = omega arith
  Pop-le small (empty d l) = omega arith
  Pop-le small (taken d l) = omega arith
  Pop-le small (win_pop out at) = omega arith
  Pop-le small lose_pop = omega arith
  Pop-le small (copy_out more) = omega arith
  Pop-le small (release whole) = omega arith
  Pop-le small give_back = omega arith

  Push-read_pos :
      {m m' : Memory B} {p p' : Pusher B}
      → Push capacity words m p m' p'
      → m'.ring.read_pos ≡ m.ring.read_pos
  Push-read_pos (call x) = refl
  Push-read_pos load_pos = refl
  Push-read_pos (free e) = refl
  Push-read_pos (full d l) = refl
  Push-read_pos (ahead d l) = refl
  Push-read_pos lose = refl
  Push-read_pos (win at room) = refl
  Push-read_pos (copy_in more) = refl
  Push-read_pos (publish whole) = refl

  Pop-write_pos :
      {m m' : Memory B} {p p' : Popper B}
      → Pop capacity words m p m' p'
      → m'.ring.write_pos ≡ m.ring.write_pos
  Pop-write_pos call_pop = refl
  Pop-write_pos load_read = refl
  Pop-write_pos (ready e) = refl
  Pop-write_pos (empty d l) = refl
  Pop-write_pos (taken d l) = refl
  Pop-write_pos (win_pop out at) = refl
  Pop-write_pos lose_pop = refl
  Pop-write_pos (copy_out more) = refl
  Pop-write_pos (release whole) = refl
  Pop-write_pos give_back = refl

  -- The two positions only grow.
  Step-le :
      {s t : System B}
      → Inv capacity words s
      → Step capacity words s t
      → (s.mem.ring.write_pos ≤ t.mem.ring.write_pos) × (s.mem.ring.read_pos ≤ t.mem.ring.read_pos)
  Step-le inv (pushes i st) = (Push-le st, omega (arith, Push-read_pos st))
  Step-le inv (pops i st) = (
    omega (arith, Pop-write_pos st),
    Pop-le (omega (arith, inv.positions.order, inv.positions.small)) st,
  )

  pub Onward-le :
      {blank : Payload B} {s t : System B}
      → Reach capacity words blank s
      → Onward capacity words s t
      → (s.mem.ring.write_pos ≤ t.mem.ring.write_pos) × (s.mem.ring.read_pos ≤ t.mem.ring.read_pos)
  Onward-le r still = (omega arith, omega arith)
  Onward-le r (onward o st) =
      let before = Onward-le r o in
      let last = Step-le (Reach-Inv c fits (Reach-Onward r o)) st in
      (omega (arith, before.0, last.0), omega (arith, before.1, last.1))

  -- A consumer takes what `read_pos` is.
  Pop-takes :
      {m m' : Memory B} {p : Popper B} {q : ℕ} {out : Payload B}
      → Pop capacity words m p m' (reading q 0 out)
      → m.ring.read_pos ≡ q
  Pop-takes (win_pop out at) = at

  -- Once a consumer has taken a position in a reachable state, every compare-exchange of a consumer
  -- that succeeds later, whatever steps come between, takes a position beyond it. The capacity is a
  -- power of two, at most `max_positions`.
  pub taken_once :
      {blank : Payload B} {s t : System B} {m : Memory B} (i j : ℕ) {pos done q : ℕ}
      {out out' : Payload B}
      → Reach capacity words blank s
      → s.poppers i ≡ reading pos done out
      → Onward capacity words s t
      → Pop capacity words t.mem (t.poppers j) m (reading q 0 out')
      → pos < q
  taken_once {s = s} i j {pos = pos} r e o st = omega (
    arith,
    Pop-takes st,
    (Onward-le r o).1,
    pops_at-lt capacity words s.mem (s.poppers i) pos (ap pops_at e)
        ((Reach-Inv c fits r).popping i),
  )

-- ===== src/Mpmc/Tests.antt =====
-- Runs of two producers and two consumers over a ring of two slots, with payloads of two words.
use lw_ipc.Base.{ℕ, ◌+◌, ◌<◌, ◌≤◌, ◌≡◌, true, false, refl, arith}
use lw_ipc.Ring.{IsCapacity}
use lw_ipc.Ring.Concurrent.{Payload}
use lw_ipc.Mpmc.{
  max_positions, System, call, load_pos, free, full, win, lose, copy_in, publish, call_pop,
  load_read, ready, empty, win_pop, copy_out, release, pushes, pops, Reach, here, later, Onward,
  still, onward, approx_size,
}
use lw_ipc.Mpmc.Delivery.{delivered_lem, taken_once}
use lw_ipc.Mpmc.Answers.{full_lem, empty_lem, approx_size-le}

two-IsCapacity : IsCapacity 2
two-IsCapacity = record { log2 = 1; pos = omega arith; power = refl }

abbrev blank : Payload ℕ
blank k = 0

-- The payload with words `a` and `a + 1`.
abbrev pair : ℕ → Payload ℕ
pair a k = a + k

abbrev Run : System ℕ → Type 0
Run s = Reach 2 2 blank s

-- Producers 0 and 1 both see position 0; producer 1 takes it.
abbrev raced : (s : System ℕ) × Run s
raced = (
  _,
  later
      (later
        (later
          (later (later (later (here) (pushes 0 (call (pair 20)))) (pushes 0 load_pos))
            (pushes 1 (call (pair 30))))
          (pushes 1 load_pos))
        (pushes 1 (free {pos = 0} refl)))
      (pushes 1 (win refl (omega arith))),
)

-- Producer 0 loses its compare-exchange, takes position 1 and stores its payload first.
abbrev stored : (s : System ℕ) × Run s
stored = (
  _,
  later
      (later
        (later
          (later
            (later (later (later (raced.1) (pushes 0 (free {pos = 0} refl))) (pushes 0 lose))
              (pushes 0 (free {pos = 1} refl)))
            (pushes 0 (win refl (omega arith))))
          (pushes 0 (copy_in (omega arith))))
        (pushes 0 (copy_in (omega arith))))
      (pushes 0 (publish (omega arith))),
)

-- Consumer 0 looks for position 0 meanwhile.
abbrev unready : (s : System ℕ) × Run s
unready = (_, later (later (stored.1) (pops 0 call_pop)) (pops 0 load_read))

-- Producer 1 stores its payload, and producer 0 calls `push` again.
abbrev both : (s : System ℕ) × Run s
both = (
  _,
  later
      (later
        (later
          (later (later (unready.1) (pushes 1 (copy_in (omega arith))))
            (pushes 1 (copy_in (omega arith))))
          (pushes 1 (publish (omega arith))))
        (pushes 0 (call (pair 40))))
      (pushes 0 load_pos),
)

-- Consumer 0 takes position 0.
abbrev taken_zero : (s : System ℕ) × Run s
taken_zero =
    (_, later (later (both.1) (pops 0 (ready {pos = 0} refl))) (pops 0 (win_pop blank refl)))

-- It copies the payload and frees the slot.
abbrev given : (s : System ℕ) × Run s
given = (
  _,
  later
      (later (later (taken_zero.1) (pops 0 (copy_out (omega arith))))
        (pops 0 (copy_out (omega arith))))
      (pops 0 (release (omega arith))),
)

-- Consumer 1 comes to position 1.
abbrev going_on : (s : System ℕ) × Onward 2 2 taken_zero.0 s
going_on = (
  _,
  onward
      (onward (onward (onward (still) (pops 0 (copy_out (omega arith)))) (pops 1 call_pop))
        (pops 1 load_read))
      (pops 1 (ready {pos = 1} refl)),
)

fits : 2 ≤ max_positions
fits = omega arith

delivered_lem_example : (true ≡ true) × (◌≡◌ {A = ℕ} 31 31)
delivered_lem_example = delivered_lem two-IsCapacity fits 0 given.1 refl 1 (omega arith)

taken_once_example : 0 < 1
taken_once_example =
    taken_once two-IsCapacity fits 0 1 taken_zero.1 refl going_on.1 (win_pop {pos = 1} blank refl)

full_lem_example : (◌≡◌ {A = ℕ} 2 2) × (2 ≤ 2) × (false ≡ false)
full_lem_example = full_lem two-IsCapacity fits 0 both.1 refl (full {pos = 2} (omega arith) refl)

empty_lem_example : (◌≡◌ {A = ℕ} 0 0) × (false ≡ false)
empty_lem_example =
    empty_lem two-IsCapacity fits 0 unready.1 refl (empty {pos = 0} (omega arith) refl)

approx_size-le_example : approx_size 2 1 ≤ 2
approx_size-le_example = approx_size-le two-IsCapacity fits taken_zero.1 going_on.1

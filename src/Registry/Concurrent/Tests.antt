-- ===== src/Registry/Concurrent/Tests.antt =====
-- Caller 0 registers "/a" while caller 1 waits for the lock; then caller 2 asks for "/a" and
-- caller 3 touches it.
use lw_ipc.Base.{
  ℕ, zero, suc, ◌≤◌, ◌<◌, ◌≡◌, ◌≢◌, refl, sym, ap, ◌∙◌, subst, arith, true, false, List, [], ◌∷◌,
}
use lw_ipc.Message.{imu}
use lw_ipc.Ring.{update}
use lw_ipc.Registry.{
  ChannelEntry, k_max_channels, blank_entry, beat, matches, active, strncpy, strncmp_equal,
  c_string,
}
use lw_ipc.Registry.Table.{IsNamed}
use lw_ipc.Registry.Distinct.{Distinct}
use lw_ipc.Registry.Concurrent.{
  Args, Op, registering, idle, scanning, reading, answered, Move, call, acquire, spin, next,
  contains_call, unknown, free, fill, filled_all, leave, touch_call, touch_found, touch_beats,
  contains_found, System, moves, Reach, here, later,
}
use lw_ipc.Registry.Concurrent.Entries.{entries}
use lw_ipc.Registry.Concurrent.Calls.{registry_of}
use lw_ipc.Registry.Concurrent.Invariant.{Sequential, Agree}
use lw_ipc.Registry.Concurrent.Linear.{mutual_exclusion, linear_lem, distinct_lem}
use lw_ipc.Registry.Concurrent.Progress.{GoesOn, Held, begins, own, other, held_lem}
use lw_ipc.Registry.Concurrent.Reading.{During, asks, goes_on, contains_lem}

abbrev name_a : List ℕ
name_a = 47 ∷ 97 ∷ []

name_a-IsNamed : IsNamed name_a
unfolding c_string
name_a-IsNamed e = ground arith

abbrev args : Args
args = record { name = name_a; msg_type = imu; sensor_id = 7; pid = 100 }

abbrev op : Op
op = registering args

-- Caller 0 has the lock, and caller 1 spins.
abbrev entered : (s : System) × Reach s
entered = (
  _,
  later
      (later (later (later here (moves 0 (call op))) (moves 0 (acquire refl))) (moves 1 (call op)))
      (moves 1 spin),
)

mutual_exclusion_example : ◌≡◌ {A = ℕ} 0 0
mutual_exclusion_example = mutual_exclusion (entered.1) 0 0 refl refl

-- Caller 0 looks at the first `n` entries.
abbrev scanned : System → ℕ → System
scanned s zero = s
scanned s (suc n) = record (scanned s n) {
  callers = update (scanned s n).callers 0 (scanning op (suc n));
}

scanned-mem : (s : System) (n : ℕ) → (scanned s n).mem ≡ s.mem
scanned-mem s zero = refl
scanned-mem s (suc n) = scanned-mem s n

scanned-caller :
    (s : System) (n : ℕ) → s.callers 0 ≡ scanning op 0 → (scanned s n).callers 0 ≡ scanning op n
scanned-caller s zero e = e
scanned-caller s (suc n) e = refl

scanned-Reach :
    (s : System) (n : ℕ)
    → s.callers 0 ≡ scanning op 0
    → ((i : ℕ) → matches name_a (s.mem.table i) ≡ false)
    → n ≤ k_max_channels
    → Reach s
    → Reach (scanned s n)
scanned-Reach s zero e off le r = r
scanned-Reach s (suc n) e off le r = later (scanned-Reach s n e off (omega arith) r) (
    moves 0 (
      subst (λ c. Move (scanned s n).mem c (scanned s n).mem (scanning op (suc n)))
        (sym (scanned-caller s n e))
        (next (omega arith) (ap (λ m. matches name_a (m.table n)) (scanned-mem s n) ∙ off n))))

blank : (i : ℕ) → matches name_a (entered.0.mem.table i) ≡ false
unfolding matches active
blank i = refl

abbrev searched : (s : System) × Reach s
searched =
    (scanned (entered.0) 64, scanned-Reach (entered.0) 64 refl blank (omega arith) (entered.1))

first_free : active blank_entry ≡ false
unfolding active
first_free = refl

-- Caller 0 fills the first entry.
abbrev added : (s : System) × Reach s
added = (
  _,
  later
      (later
        (later
          (later
            (later
              (later
                (later
                  (later
                    (later (later (searched.1) (moves 0 unknown))
                      (moves 0 (free (omega arith) first_free)))
                    (moves 0 (fill 1000 (omega arith))))
                  (moves 0 (fill 1000 (omega arith))))
                (moves 0 (fill 1000 (omega arith))))
              (moves 0 (fill 1000 (omega arith))))
            (moves 0 (fill 1000 (omega arith))))
          (moves 0 (fill 1001 (omega arith))))
        (moves 0 filled_all))
      (moves 0 leave),
)

linear_lem_example :
    (spec : ℕ → ChannelEntry) × Sequential ((op, true, 1000) ∷ []) (registry_of spec)
    × Agree (added.0.mem.table) spec
linear_lem_example = linear_lem (added.1) refl

distinct_lem_example : Distinct (entries (added.0.mem.table) 0 k_max_channels)
distinct_lem_example = distinct_lem (added.1) refl (name_a-IsNamed, tt)

there : matches name_a (added.0.mem.table 0) ≡ true
unfolding matches active strncpy strncmp_equal
there = refl

still_there : matches name_a (beat 2000 (added.0.mem.table 0)) ≡ true
unfolding matches active strncpy strncmp_equal
still_there = refl

reading_busy : reading name_a 0 ≢ idle
reading_busy e = ground (arith, e)

answered_busy : answered true ≢ idle
answered_busy e = ground (arith, e)

-- Caller 3 touches the channel before caller 2 looks at it.
abbrev asked : (s : System) × During 2 name_a 0 s
asked = (
  _,
  goes_on
      (goes_on
        (goes_on
          (goes_on (asks (added.0) 0 refl (contains_call name_a) there)
            (moves 3 (touch_call name_a)) reading_busy there)
          (moves 3 (touch_found (omega arith) there)) reading_busy there)
        (moves 3 (touch_beats 2000)) reading_busy still_there)
      (moves 2 (contains_found (omega arith) still_there)) answered_busy still_there,
)

contains_lem_example : asked.0.callers 2 ≢ answered false
contains_lem_example = contains_lem 2 name_a 0 (omega arith) (asked.1)

one_ne : ◌≢◌ {A = ℕ} 1 0
one_ne e = omega (arith, e)

-- Caller 1 spins between two steps of caller 0.
abbrev between : (s : System) × Held 0 (entered.0) 2 s
between = (
  _,
  own (other 1 (own begins (next (omega arith) (blank 0)) refl) one_ne spin)
      (next (omega arith) (blank 1)) refl,
)

held_lem_example :
    (2 < 140) × ((between.0.mem).lock ≡ 1) × GoesOn (between.0.mem) (between.0.callers 0)
held_lem_example = held_lem (entered.0) 0 (entered.1) refl 2 (between.0) (between.1)

-- ===== src/Registry/Concurrent/Able.antt =====
-- A caller that has the lock can always take a step.
use lw_ipc.Base.{
  ℕ, suc, ◌≤◌, ◌<◌, ◌≡◌, inl, inr, sym, subst, arith, true, false, ℕ_discrete, Bool-cases, dec_lt,
}
use lw_ipc.Registry.{k_max_channels, active, matches}
use lw_ipc.Registry.Concurrent.{
  Args, Op, registering, unregistering, Caller, idle, spinning, scanning, beating, seeking, filling,
  clearing, leaving, touching, touched, reading, answered, Memory, Move, call, acquire, spin, next,
  known, beats, unknown, used, free, fill, filled_all, full, found, clear, missing, leave,
  touch_call, touch_next, touch_found, touch_beats, touch_missing, contains_call, contains_next,
  contains_found, contains_missing, answer, System, moves, Reach, here, later,
}
use lw_ipc.Registry.Concurrent.Invariant.{holds}
use lw_ipc.Registry.Concurrent.Runs.{updated, kept}

-- The searches stay within the table, and an entry gets six values.
abbrev pub Placed : Caller → Type 0
Placed (scanning op i) = i ≤ k_max_channels
Placed (seeking a i) = i ≤ k_max_channels
Placed (filling a i k now) = k ≤ 6
Placed _ = Unit

pub Move-Placed : {m m' : Memory} {c c' : Caller} → Move m c m' c' → Placed c → Placed c'
Move-Placed (call op) h = tt
Move-Placed (acquire e) h = omega arith
Move-Placed spin h = tt
Move-Placed (next lt e) h = omega arith
Move-Placed (known lt e) h = tt
Move-Placed (beats now) h = tt
Move-Placed unknown h = omega arith
Move-Placed (used lt e) h = omega arith
Move-Placed (free lt e) h = omega arith
Move-Placed (fill t lt) h = omega arith
Move-Placed filled_all h = tt
Move-Placed full h = tt
Move-Placed (found lt e) h = tt
Move-Placed clear h = tt
Move-Placed missing h = tt
Move-Placed leave h = tt
Move-Placed (touch_call name) h = tt
Move-Placed (touch_next lt e) h = tt
Move-Placed (touch_found lt e) h = tt
Move-Placed (touch_beats now) h = tt
Move-Placed touch_missing h = tt
Move-Placed (contains_call name) h = tt
Move-Placed (contains_next lt e) h = tt
Move-Placed (contains_found lt e) h = tt
Move-Placed contains_missing h = tt
Move-Placed answer h = tt

pub Reach-Placed : {s : System} → Reach s → (a : ℕ) → Placed (s.callers a)
Reach-Placed here a = tt
Reach-Placed (later {s = s} r (moves b {m = m} {c = c} st)) a = elim (ℕ_discrete b a) [
  | yes e ↦ subst Placed (sym (updated s.callers b c a e)) (Move-Placed st (Reach-Placed r b))
  | no ne ↦ subst Placed (sym (kept s.callers b c a ne)) (Reach-Placed r a)
]

-- What a caller can do next.
pub record Able (m : Memory) (c : Caller) : Type 0 where
  pub mem : Memory
  pub caller : Caller
  pub move : Move m c mem caller

at_end : (i : ℕ) → i ≤ k_max_channels → ¬ (i < k_max_channels) → k_max_channels ≡ i
at_end i le no_more = omega arith

scanning-Able : (m : Memory) (op : Op) (i : ℕ) → i ≤ k_max_channels → Able m (scanning op i)
scanning-Able m (registering a) i le = elim (dec_lt i k_max_channels) [
  | yes lt ↦ elim (Bool-cases (matches a.name (m.table i))) [
    | inl e ↦ record { mem = m; caller = beating a i; move = known lt e }
    | inr e ↦ record { mem = m; caller = scanning (registering a) (suc i); move = next lt e }
  ]
  | no stop ↦ record {
    mem = m;
    caller = seeking a 0;
    move =
        subst (λ j. Move m (scanning (registering a) j) m (seeking a 0)) (at_end i le stop) unknown;
  }
]
scanning-Able m (unregistering name) i le = elim (dec_lt i k_max_channels) [
  | yes lt ↦ elim (Bool-cases (matches name (m.table i))) [
    | inl e ↦ record { mem = m; caller = clearing name i; move = found lt e }
    | inr e ↦ record { mem = m; caller = scanning (unregistering name) (suc i); move = next lt e }
  ]
  | no stop ↦ record {
    mem = m;
    caller = leaving (unregistering name) true 0;
    move =
        subst
          (λ j. Move m (scanning (unregistering name) j) m (leaving (unregistering name) true 0))
          (at_end i le stop) missing;
  }
]

seeking-Able : (m : Memory) (a : Args) (i : ℕ) → i ≤ k_max_channels → Able m (seeking a i)
seeking-Able m a i le = elim (dec_lt i k_max_channels) [
  | yes lt ↦ elim (Bool-cases (active (m.table i))) [
    | inl e ↦ record { mem = m; caller = seeking a (suc i); move = used lt e }
    | inr e ↦ record { mem = m; caller = filling a i 0 0; move = free lt e }
  ]
  | no stop ↦ record {
    mem = m;
    caller = leaving (registering a) false 0;
    move =
        subst (λ j. Move m (seeking a j) m (leaving (registering a) false 0)) (at_end i le stop)
          full;
  }
]

filling-Able : (m : Memory) (a : Args) (i k now : ℕ) → k ≤ 6 → Able m (filling a i k now)
filling-Able m a i k now le = elim (dec_lt k 6) [
  | yes lt ↦ record { mem = _; caller = _; move = fill 0 lt }
  | no stop ↦ record {
    mem = m;
    caller = leaving (registering a) true now;
    move =
        subst (λ j. Move m (filling a i j now) m (leaving (registering a) true now)) (omega arith)
          filled_all;
  }
]

pub holds-Able : (m : Memory) (c : Caller) → Placed c → holds c ≡ true → Able m c
holds-Able m idle h k = absurd (ground (arith, k))
holds-Able m (spinning op) h k = absurd (ground (arith, k))
holds-Able m (scanning op i) h k = scanning-Able m op i h
holds-Able m (beating a i) h k = record { mem = _; caller = _; move = beats 0 }
holds-Able m (seeking a i) h k = seeking-Able m a i h
holds-Able m (filling a i j now) h k = filling-Able m a i j now h
holds-Able m (clearing name i) h k = record { mem = _; caller = _; move = clear }
holds-Able m (leaving op result now) h k = record { mem = _; caller = _; move = leave }
holds-Able m (touching name i) h k = absurd (ground (arith, k))
holds-Able m (touched i) h k = absurd (ground (arith, k))
holds-Able m (reading name i) h k = absurd (ground (arith, k))
holds-Able m (answered result) h k = absurd (ground (arith, k))

-- ===== src/Registry/Concurrent/Progress.antt =====
-- How long a caller keeps the lock.
use lw_ipc.Base.{ℕ, suc, ◌+◌, ◌-◌, ◌≤◌, ◌<◌, ◌≡◌, ◌≢◌, ◌⊎◌, inl, inr, refl, sym, subst, arith, true}
use lw_ipc.Ring.{update}
use lw_ipc.Registry.{k_max_channels}
use lw_ipc.Registry.Concurrent.{
  Caller, idle, spinning, scanning, beating, seeking, filling, clearing, leaving, touching, touched,
  reading, answered, Memory, Move, call, acquire, spin, next, known, beats, unknown, used, free,
  fill, filled_all, full, found, clear, missing, leave, touch_call, touch_next, touch_found,
  touch_beats, touch_missing, contains_call, contains_next, contains_found, contains_missing,
  answer, System, moves, Reach, later,
}
use lw_ipc.Registry.Concurrent.Invariant.{holds}
use lw_ipc.Registry.Concurrent.Able.{Placed, Move-Placed, Reach-Placed, Able, holds-Able}
use lw_ipc.Registry.Concurrent.Effects.{Effect, outside, enters, inside, leaves, Move-Effect}
use lw_ipc.Registry.Concurrent.Runs.{updated, kept, Reach-Inv}

-- The steps that are left under the lock, at most.
abbrev left : Caller → ℕ
left (scanning op i) = (k_max_channels - i) + 76
left (beating a i) = 2
left (seeking a i) = (k_max_channels - i) + 10
left (filling a i k now) = (6 - k) + 2
left (clearing name i) = 2
left (leaving op result now) = 1
left _ = 0

-- Each step under the lock leaves fewer.
Move-left :
    {m m' : Memory} {c c' : Caller}
    → Move m c m' c'
    → holds c ≡ true
    → holds c' ≡ true
    → left c' < left c
Move-left (next lt e) h k = omega arith
Move-left (known lt e) h k = omega arith
Move-left (beats now) h k = omega arith
Move-left unknown h k = omega arith
Move-left (used lt e) h k = omega arith
Move-left (free lt e) h k = omega arith
Move-left (fill t lt) h k = omega arith
Move-left filled_all h k = omega arith
Move-left full h k = omega arith
Move-left (found lt e) h k = omega arith
Move-left clear h k = omega arith
Move-left missing h k = omega arith
Move-left leave h k = absurd (ground (arith, k))
Move-left (call op) h k = absurd (ground (arith, h))
Move-left (acquire e) h k = absurd (ground (arith, h))
Move-left spin h k = absurd (ground (arith, h))
Move-left (touch_call name) h k = absurd (ground (arith, h))
Move-left (touch_next lt e) h k = absurd (ground (arith, h))
Move-left (touch_found lt e) h k = absurd (ground (arith, h))
Move-left (touch_beats now) h k = absurd (ground (arith, h))
Move-left touch_missing h k = absurd (ground (arith, h))
Move-left (contains_call name) h k = absurd (ground (arith, h))
Move-left (contains_next lt e) h k = absurd (ground (arith, h))
Move-left (contains_found lt e) h k = absurd (ground (arith, h))
Move-left contains_missing h k = absurd (ground (arith, h))
Move-left answer h k = absurd (ground (arith, h))

left-bounds : (c : Caller) → holds c ≡ true → (0 < left c) × (left c ≤ 140)
left-bounds (scanning op i) k = (omega arith, omega arith)
left-bounds (beating a i) k = (omega arith, omega arith)
left-bounds (seeking a i) k = (omega arith, omega arith)
left-bounds (filling a i j now) k = (omega arith, omega arith)
left-bounds (clearing name i) k = (omega arith, omega arith)
left-bounds (leaving op result now) k = (omega arith, omega arith)
left-bounds idle k = absurd (ground (arith, k))
left-bounds (spinning op) k = absurd (ground (arith, k))
left-bounds (touching name i) k = absurd (ground (arith, k))
left-bounds (touched i) k = absurd (ground (arith, k))
left-bounds (reading name i) k = absurd (ground (arith, k))
left-bounds (answered result) k = absurd (ground (arith, k))

-- A step that a caller can take, and that keeps the lock or frees it.
pub record GoesOn (m : Memory) (c : Caller) : Type 0 where
  pub able : Able m c
  pub keeps_or_frees : (holds able.caller ≡ true) ⊎ (able.mem.lock ≡ 0)

able_frees :
    {m m' : Memory} {c c' : Caller}
    → holds c ≡ true
    → Effect m c m' c'
    → (holds c' ≡ true) ⊎ (m'.lock ≡ 0)
able_frees on (outside off off' lock calls keep) = absurd (ground (arith, on, off))
able_frees on (enters off on' open_lock lock calls keep) = inl on'
able_frees on (inside on' still_on lock calls keep) = inl still_on
able_frees on (leaves on' off' lock keep) = inr lock

-- What happens while caller `a` has the lock, with the number of its own steps.
pub data Held (a : ℕ) (s : System) : ℕ → System → Type 0 where
  begins : Held a s 0 s
  own :
      {n : ℕ} {t : System} {m : Memory} {c : Caller}
      → Held a s n t
      → Move t.mem (t.callers a) m c
      → holds c ≡ true
      → Held a s (suc n) (record t { mem = m; callers = update t.callers a c })
  other :
      {n : ℕ} {t : System} {m : Memory} {c : Caller} (b : ℕ)
      → Held a s n t
      → b ≢ a
      → Move t.mem (t.callers b) m c
      → Held a s n (record t { mem = m; callers = update t.callers b c })

-- What holds of caller `a` after `n` of its steps.
record Keeps (s : System) (a n : ℕ) (c : Caller) : Type 0 where
  holding : holds c ≡ true
  placed : Placed c
  spent : n + left c ≤ left (s.callers a)

module _ (s : System) (a : ℕ) (r : Reach s) (h : holds (s.callers a) ≡ true) where
  Held-Keeps : {n : ℕ} {t : System} → Held a s n t → Keeps s a n (t.callers a)
  Held-Keeps begins = record { holding = h; placed = Reach-Placed r a; spent = omega arith }
  Held-Keeps (own {n = n} {t = t} {c = c} held mv on) =
      let k = Held-Keeps held in
      subst (Keeps s a (suc n)) (sym (updated t.callers a c a refl)) (record {
        holding = on;
        placed = Move-Placed mv k.placed;
        spent = omega (arith, k.spent, Move-left mv k.holding on);
      })
  Held-Keeps (other {n = n} {t = t} {c = c} b held ne mv) =
      subst (Keeps s a n) (sym (kept t.callers b c a ne)) (Held-Keeps held)

  Held-Reach : {n : ℕ} {t : System} → Held a s n t → Reach t
  Held-Reach begins = r
  Held-Reach (own held mv on) = later (Held-Reach held) (moves a mv)
  Held-Reach (other b held ne mv) = later (Held-Reach held) (moves b mv)

  -- A caller that is between taking and releasing the lock in a reachable state makes fewer than
  -- 140 steps there, whatever the others do. All that time the lock's word is 1, and the caller
  -- can take a step, which leads on within the call under the lock or sets the word to 0: it never
  -- waits for another.
  pub held_lem :
      (n : ℕ) (t : System)
      → Held a s n t
      → (n < 140) × (t.mem.lock ≡ 1) × GoesOn t.mem (t.callers a)
  held_lem n t held =
      let k = Held-Keeps held in
      let inv = Reach-Inv (Held-Reach held) in
      let next = holds-Able t.mem (t.callers a) k.placed k.holding in
      (
        omega (
          arith,
          k.spent,
          (left-bounds (t.callers a) k.holding).0,
          (left-bounds (s.callers a) h).1,
        ),
        (inv.owned a (inv.holders a k.holding)).1,
        record { able = next; keeps_or_frees = able_frees k.holding (Move-Effect next.move) },
      )

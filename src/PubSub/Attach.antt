-- ===== src/PubSub/Attach.antt =====
-- `Subscriber::try_attach` of include/lwipc/subscriber.hpp, over the calls of POSIX and of the
-- clock.
mod Tests
use lw_ipc.Base.{
  ℕ, zero, suc, ◌+◌, ◌*◌, ◌≤◌, ◌<◌, ◌≡◌, refl, sym, ◌∙◌, subst, arith, Bool, true, false, Option,
  none, some, ltb, if◌then◌else◌, ap, dec_lt,
}
use lw_ipc.Ring.Segment.{Posix, Handle, Built, built, threw, shm_exists, construct}

-- `steady_clock::now` and `sleep_for`, in milliseconds.
pub record Clock (W : Type 0) : Type 0 where
  pub now : W → ℕ × W
  pub sleep_for : ℕ → W → W

module _ {W : Type 0} (os : Posix W) where
  -- `std::make_unique<Subscriber>` within `try`: `none` if it threw.
  unfoldable pub attempt : W → Option Handle × W
  attempt w =
      let (r, w') = construct os false w in elim r [ built h ↦ (some h, w') | threw h ↦ (none, w') ]

module _ {W : Type 0} (os : Posix W) (clock : Clock W) where
  -- The loop, in `fuel` rounds at most: `none` if they do not suffice, otherwise what is returned,
  -- where `none` is `nullptr`.
  unfoldable pub attach_loop : ℕ → ℕ → ℕ → W → Option (Option Handle) × W
  attach_loop zero deadline backoff w = (none, w)
  attach_loop (suc fuel) deadline backoff w =
      let (t, w₁) = clock.now w in
      let (there, w₂) = shm_exists os w₁ in
      let (got, w₃) = attempt os w₂ in
      let missing = attach_loop fuel deadline backoff (clock.sleep_for backoff w₂) in
      let vanished = attach_loop fuel deadline backoff (clock.sleep_for backoff w₃) in
      if ltb t deadline
      then (if there then elim got [ none ↦ vanished | some h ↦ (some (some h), w₃) ] else missing)
      else (some none, w₁)

  unfoldable pub try_attach : ℕ → ℕ → ℕ → W → Option (Option Handle) × W
  try_attach fuel timeout backoff w =
      let (t, w₁) = clock.now w in attach_loop fuel (t + timeout) backoff w₁

-- The documented behaviour of the clock: it does not go back, neither during the system's calls,
-- and `sleep_for` lasts at least as long as it is told.
pub record Steady {W : Type 0} (os : Posix W) (clock : Clock W) (time : W → ℕ) : Type 0 where
  pub reads : (w : W) → (time w ≤ (clock.now w).0) × ((clock.now w).0 ≤ time (clock.now w).1)
  pub sleeps : (d : ℕ) (w : W) → time w + d ≤ time (clock.sleep_for d w)
  pub probes : (w : W) → time w ≤ time (shm_exists os w).1
  pub constructs : (w : W) → time w ≤ time (construct os false w).1

-- How a call ended: with `nullptr` after the deadline, or with a subscriber that the constructor
-- built.
pub data Ended {W : Type 0} (os : Posix W) (time : W → ℕ) (deadline : ℕ)
    (r : Option (Option Handle) × W) : Type 0 where
  timed_out : (w' : W) → r ≡ (some none, w') → deadline ≤ time w' → Ended os time deadline r
  attached :
      (h : Handle) (w w' : W)
      → r ≡ (some (some h), w')
      → construct os false w ≡ (built h, w')
      → Ended os time deadline r

module _ {W : Type 0} (os : Posix W) where
  attempt-built :
      (w w' : W) (h : Handle) → construct os false w ≡ (built h, w') → attempt os w ≡ (some h, w')
  unfolding attempt
  attempt-built w w' h e = ground (arith, e)

  attempt-threw :
      (w w' : W) (h : Handle) → construct os false w ≡ (threw h, w') → attempt os w ≡ (none, w')
  unfolding attempt
  attempt-threw w w' h e = ground (arith, e)

module _ {W : Type 0} (os : Posix W) (clock : Clock W) (fuel deadline backoff : ℕ) (w : W) where
  loop-over :
      deadline ≤ (clock.now w).0
      → attach_loop os clock (suc fuel) deadline backoff w ≡ (some none, (clock.now w).1)
  unfolding attach_loop
  loop-over h = ground arith

  module _ (early : (clock.now w).0 < deadline) (w₂ : W) where
    loop-missing :
        shm_exists os (clock.now w).1 ≡ (false, w₂)
        → attach_loop os clock (suc fuel) deadline backoff w
          ≡ attach_loop os clock fuel deadline backoff (clock.sleep_for backoff w₂)
    unfolding attach_loop
    loop-missing e = ground (arith, e)

    loop-vanished :
        (w₃ : W)
        → shm_exists os (clock.now w).1 ≡ (true, w₂)
        → attempt os w₂ ≡ (none, w₃)
        → attach_loop os clock (suc fuel) deadline backoff w
          ≡ attach_loop os clock fuel deadline backoff (clock.sleep_for backoff w₃)
    unfolding attach_loop
    loop-vanished w₃ e g = ground (arith, e, g)

    loop-attached :
        (w₃ : W) (h : Handle)
        → shm_exists os (clock.now w).1 ≡ (true, w₂)
        → attempt os w₂ ≡ (some h, w₃)
        → attach_loop os clock (suc fuel) deadline backoff w ≡ (some (some h), w₃)
    unfolding attach_loop
    loop-attached w₃ h e g = ground (arith, e, g)

module _ {W : Type 0} (os : Posix W) (clock : Clock W) (time : W → ℕ) (c : Steady os clock time)
    (deadline backoff : ℕ) where
  -- What the rounds after this one do, each of them at least `backoff` later.
  abbrev Goes : ℕ → W → Type 0
  Goes n w =
      (w' : W)
      → time w + backoff ≤ time w'
      → Ended os time deadline (attach_loop os clock n deadline backoff w')

  module _ (n : ℕ) (w : W) (early : (clock.now w).0 < deadline) (next : Goes n w) where
    abbrev Round : Type 0
    Round = Ended os time deadline (attach_loop os clock (suc n) deadline backoff w)

    -- The segment is there.
    tried :
        (w₂ : W)
        → shm_exists os (clock.now w).1 ≡ (true, w₂)
        → time w ≤ time w₂
        → (r : Built × W) → construct os false w₂ ≡ r
        → Round
    tried w₂ e le (built h, w₃) g =
        attached h w₂ w₃
          (loop-attached os clock n deadline backoff w early w₂ w₃ h e (attempt-built os w₂ w₃ h g))
          g
    tried w₂ e le (threw h, w₃) g =
        subst (Ended os time deadline)
          (sym (
            loop-vanished os clock n deadline backoff w early w₂ w₃ e (attempt-threw os w₂ w₃ h g)))
          (next (clock.sleep_for backoff w₃)
            (omega (arith, le, c.constructs w₂, ap (λ x. time x.1) g, c.sleeps backoff w₃)))

    round_lem : (r : Bool × W) → shm_exists os (clock.now w).1 ≡ r → Round
    round_lem (false, w₂) e =
        subst (Ended os time deadline) (sym (loop-missing os clock n deadline backoff w early w₂ e))
          (next (clock.sleep_for backoff w₂) (
            omega (
              arith,
              c.reads w,
              c.probes (clock.now w).1,
              ap (λ x. time x.1) e,
              c.sleeps backoff w₂,
            )))
    round_lem (true, w₂) e =
        tried w₂ e (omega (arith, c.reads w, c.probes (clock.now w).1, ap (λ x. time x.1) e))
          (construct os false w₂) refl

  loop_lem :
      (n : ℕ) (w : W)
      → deadline ≤ time w + n * backoff
      → Ended os time deadline (attach_loop os clock (suc n) deadline backoff w)
  loop_lem zero w near =
      timed_out (clock.now w).1
        (loop-over os clock zero deadline backoff w (omega (arith, c.reads w, near)))
        (omega (arith, c.reads w, near))
  loop_lem (suc n) w near = elim (dec_lt (clock.now w).0 deadline) [
    | yes early ↦
        round_lem (suc n) w early (λ w' le. loop_lem n w' (grind arith))
          (shm_exists os (clock.now w).1) refl
    | no late ↦
        timed_out (clock.now w).1 (loop-over os clock (suc n) deadline backoff w (omega arith))
          (omega (arith, c.reads w))
  ]

Ended-le :
    {W : Type 0} (os : Posix W) (time : W → ℕ) (early late : ℕ) (r : Option (Option Handle) × W)
    → early ≤ late
    → Ended os time late r
    → Ended os time early r
Ended-le os time early late r le (timed_out w' e h) = timed_out w' e (omega arith)
Ended-le os time early late r le (attached h w w' e g) = attached h w w' e g

-- `try_attach` returns: one round more than it takes the sleeps to fill the timeout is enough. It
-- returns `nullptr` only once the timeout has passed, and otherwise a subscriber that the
-- constructor built. The clock behaves as `Steady` says, and the calls of POSIX may do anything.
pub try_attach_lem :
    {W : Type 0} (os : Posix W) (clock : Clock W) (time : W → ℕ)
    → Steady os clock time
    → (rounds timeout backoff : ℕ) (w : W) → timeout ≤ rounds * backoff
    → Ended os time (time w + timeout) (try_attach os clock (suc rounds) timeout backoff w)
unfolding try_attach
try_attach_lem os clock time c rounds timeout backoff w enough =
    Ended-le os time (time w + timeout) ((clock.now w).0 + timeout) _ (omega (arith, c.reads w)) (
      loop_lem os clock time c ((clock.now w).0 + timeout) backoff rounds (clock.now w).1
        (omega (arith, c.reads w)))

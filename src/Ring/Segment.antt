-- ===== src/Ring/Segment.antt =====
-- How a `ShmRingBuffer` of include/lwipc/shm_ring_buffer.hpp opens and gives up its segment: the
-- constructor with `open_shm`, the destructor, and `shm_exists`. The calls of POSIX are
-- parameters. What a created segment holds at first is `open_create` of Ring.Shm.
pub mod Resources
pub mod Opening
pub mod Sample
mod Tests
use lw_ipc.Base.{ℕ, Bool, true, false, Option, none, some, if◌then◌else◌}

-- The calls on the segment's name, over states `W` of the system. A failure is `none` or `false`.
pub record Posix (W : Type 0) : Type 0 where
  pub shm_open : (create : Bool) → W → Option ℕ × W
  pub shm_probe : W → Option ℕ × W
  pub ftruncate : ℕ → W → Bool × W
  pub mmap : ℕ → W → Option ℕ × W
  pub munmap : ℕ → W → W
  pub close : ℕ → W → W
  pub shm_unlink : W → W

-- `is_owner_`, and `fd_` and `ctrl_` where they are not -1 and null.
pub record Handle : Type 0 where
  pub is_owner : Bool
  pub fd : Option ℕ
  pub ctrl : Option ℕ

-- The constructor returned or threw; a member that it threw from is not destroyed.
pub data Built : Type 0 where
  built : (h : Handle) → Built
  threw : (h : Handle) → Built

-- A call on a member that is set.
abbrev pub if_set : {W : Type 0} → Option ℕ → (ℕ → W → W) → W → W
if_set none f w = w
if_set (some n) f w = f n w

module _ {W : Type 0} (os : Posix W) where
  -- `shm_exists`.
  unfoldable pub shm_exists : W → Bool × W
  shm_exists w =
      let (fd, w₁) = os.shm_probe w in
      elim fd [ none ↦ (false, w₁) | some n ↦ (true, os.close n w₁) ]

  -- `open_shm` from `mmap` on.
  unfoldable pub map_segment : Bool → ℕ → W → Built × W
  map_segment create fd w =
      let (mem, w₁) = os.mmap fd w in
      elim mem [
        | none ↦ (threw (record { is_owner = create; fd = some fd; ctrl = none }), w₁)
        | some a ↦ (built (record { is_owner = create; fd = some fd; ctrl = some a }), w₁)
      ]

  -- `open_shm` from `ftruncate` on, which only a creator calls.
  unfoldable pub size_segment : Bool → ℕ → W → Built × W
  size_segment create fd w =
      if create
      then (let (sized, w₁) = os.ftruncate fd w in
          if sized
          then map_segment create fd w₁
          else (threw (record { is_owner = create; fd = some fd; ctrl = none }), w₁))
      else map_segment create fd w

  -- The constructor, which calls `open_shm`.
  unfoldable pub construct : Bool → W → Built × W
  construct create w =
      let (fd, w₁) = os.shm_open create (if create then os.shm_unlink w else w) in
      elim fd [
        | none ↦ (threw (record { is_owner = create; fd = none; ctrl = none }), w₁)
        | some n ↦ size_segment create n w₁
      ]

  -- The destructor.
  unfoldable pub destroy : Handle → W → W
  destroy h w =
      let w' = if_set h.fd os.close (if_set h.ctrl os.munmap w) in
      if h.is_owner then os.shm_unlink w' else w'

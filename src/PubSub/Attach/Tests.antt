-- ===== src/PubSub/Attach/Tests.antt =====
-- A segment that a producer creates after some milliseconds, and a subscriber that waits for it.
use lw_ipc.Base.{ℕ, ◌+◌, ◌≡◌, refl, arith, true, false, Option, none, some, ltb, if◌then◌else◌}
use lw_ipc.Ring.Segment.{Posix, shm_exists, construct, size_segment, map_segment}
use lw_ipc.PubSub.Attach.{Clock, Steady, Ended, attempt, attach_loop, try_attach, try_attach_lem}

-- The state is the time; the segment is there from `born` on.
abbrev probe : ℕ → ℕ → Option ℕ × ℕ
probe born w = if ltb w born then (none, w) else (some 3, w)

abbrev system : ℕ → Posix ℕ
system born = record {
  shm_open = λ create w. probe born w;
  shm_probe = probe born;
  ftruncate = λ n w. (true, w);
  mmap = λ n w. (some 4096, w);
  munmap = λ a w. w;
  close = λ n w. w;
  shm_unlink = λ w. w;
}

abbrev wall : Clock ℕ
wall = record { now = λ w. (w, w); sleep_for = λ d w. w + d }

system-Steady : (born : ℕ) → Steady (system born) wall (λ w. w)
unfolding shm_exists construct size_segment map_segment
system-Steady born = record {
  reads = λ w. (omega arith, omega arith);
  sleeps = λ d w. omega arith;
  probes = λ w. ground arith;
  constructs = λ w. ground arith;
}

-- It attaches after 30 ms, and gives up after 50 if there is nothing.
attaches :
    try_attach (system 25) wall 6 50 10 0
    ≡ (some (some (record { is_owner = false; fd = some 3; ctrl = some 4096 })), 30)
unfolding try_attach attach_loop attempt shm_exists construct size_segment map_segment
attaches = refl

gives_up : try_attach (system 90) wall 6 50 10 0 ≡ (some none, 50)
unfolding try_attach attach_loop attempt shm_exists construct size_segment map_segment
gives_up = refl

try_attach_lem_example : Ended (system 90) (λ w. w) 50 (try_attach (system 90) wall 6 50 10 0)
try_attach_lem_example =
    try_attach_lem (system 90) wall (λ w. w) (system-Steady 90) 5 50 10 0 (omega arith)

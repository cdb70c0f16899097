-- ===== src/Ring/Buffered/Tests.antt =====
-- A `push` of two words of which one store has not reached the memory when a consumer looks.
use lw_ipc.Base.{ℕ, ◌+◌, ◌≡◌, refl, arith, [], ◌∷◌}
use lw_ipc.Ring.{ready_seq}
use lw_ipc.Ring.Concurrent.{Payload, something_new, not_ready}
use lw_ipc.Ring.Buffered.{
  store_seq, mark, copy_in, publish, System, fetch_add, emit, reach, consume, Reach, here, later,
}
use lw_ipc.Ring.Buffered.Refine.{Explained, Reach-Explained}

abbrev blank : Payload ℕ
blank k = 0

-- The payload with words 20 and 21.
abbrev pair : Payload ℕ
pair k = 20 + k

-- The producer has made its stores up to the sequence number, and three of the four have reached
-- the memory.
abbrev waiting : (s : System ℕ) × Reach 2 2 blank s
waiting = (
  _,
  later
      (later
        (later
          (later
            (later
              (later (later (later here (fetch_add pair refl refl (omega arith))) (emit mark))
                (emit (copy_in (omega arith))))
              (reach refl))
            (emit (copy_in (omega arith))))
          (emit (publish (omega arith))))
        (reach refl))
      (reach refl),
)

one_waits_here : waiting.0.pending ≡ store_seq 0 (ready_seq 0) ∷ []
one_waits_here = refl

-- A consumer finds the slot not ready.
abbrev looked : (s : System ℕ) × Reach 2 2 blank s
looked = (
  _,
  later (later (waiting.1) (consume 0 (something_new (omega arith))))
      (consume 0 (not_ready (λ e. omega (arith, e)))),
)

Reach-Explained_example : Explained 2 2 blank (looked.0)
Reach-Explained_example = Reach-Explained 2 2 blank (looked.1)

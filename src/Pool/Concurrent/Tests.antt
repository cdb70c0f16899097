-- ===== src/Pool/Concurrent/Tests.antt =====
-- A pool of two slots and three callers, one of which meets the same head index again (ABA).
use lw_ipc.Base.{ℕ, zero, suc, ◌<◌, ◌≡◌, ◌≢◌, ◌↔◌, none, List, [], refl, arith}
use lw_ipc.Pool.{pack, index_of, tag_of, new_pool, available}
use lw_ipc.Pool.Owns.{Owns}
use lw_ipc.Pool.Concurrent.{
  idle, loaded, linking, Move, slot_of, load_head, load_next, acquired, acquire_fails, give_back,
  reload_head, store_next, released, System, moves, Reach, here, later,
}
use lw_ipc.Pool.Concurrent.Lending.{AllLent, lent_once, at_rest, exhausted_lem}

-- Caller 0 has loaded the head and the pointer behind it.
abbrev paused : (s : System ℕ) × Reach 2 0 s
unfolding pack index_of tag_of new_pool
paused = (_, later (later (here) (moves 0 load_head)) (moves 0 (load_next (omega arith))))

-- Callers 1 and 2 take both slots and caller 1 brings slot 0 back: the head's index is 0 again.
abbrev again : (s : System ℕ) × Reach 2 0 s
unfolding pack index_of tag_of new_pool
again = (
  _,
  later
      (later
        (later
          (later
            (later
              (later
                (later
                  (later
                    (later (later (paused.1) (moves 1 load_head))
                      (moves 1 (load_next (omega arith))))
                    (moves 1 (acquired refl (omega arith))))
                  (moves 2 load_head))
                (moves 2 (load_next (omega arith))))
              (moves 2 (acquired refl (omega arith))))
            (moves 1 give_back))
          (moves 1 reload_head))
        (moves 1 store_next))
      (moves 1 (released refl (omega arith))),
)

-- The head has another tag, so that caller 0 cannot take slot 0 with its old pointer to slot 1.
no_aba : again.0.pool.head ≢ paused.0.pool.head
unfolding pack index_of tag_of new_pool
no_aba = omega arith

-- Caller 0 goes round its loop and takes slot 0.
abbrev both : (s : System ℕ) × Reach 2 0 s
unfolding pack index_of tag_of new_pool
both = (
  _,
  later (later (later (again.1) (moves 0 acquire_fails)) (moves 0 (load_next (omega arith))))
      (moves 0 (acquired refl (omega arith))),
)

-- Both bring their slots back, in the other order.
abbrev back : (s : System ℕ) × Reach 2 0 s
unfolding pack index_of tag_of new_pool
back = (
  _,
  later
      (later
        (later
          (later
            (later
              (later (later (later (both.1) (moves 2 give_back)) (moves 2 reload_head))
                (moves 2 store_next))
              (moves 2 (released refl (omega arith))))
            (moves 0 give_back))
          (moves 0 reload_head))
        (moves 0 store_next))
      (moves 0 (released refl (omega arith))),
)

all_idle : (a : ℕ) → slot_of (back.0.callers a) ≡ none
unfolding pack index_of tag_of new_pool
all_idle zero = refl
all_idle (suc zero) = refl
all_idle (suc (suc zero)) = refl
all_idle (suc (suc (suc n))) = ground arith

lent_once_example : (1 < 2) × (◌≡◌ {A = ℕ} 2 2)
unfolding pack index_of tag_of new_pool
lent_once_example = lent_once (omega arith) (omega arith) both.1 2 2 1 refl refl

exhausted_lem_example :
    (Move (both.0.pool) (loaded (both.0.pool.head)) (both.0.pool) idle ↔ AllLent 2 (both.0))
    × (¬ Move (both.0.pool) (linking 0 1) (both.0.pool) idle)
exhausted_lem_example =
    exhausted_lem (omega arith) (omega arith) both.1 (both.0.pool) (both.0.pool) 0 1

at_rest_example : (free : List ℕ) × Owns 2 back.0.pool free [] × (available 2 back.0.pool ≡ 2)
unfolding pack index_of tag_of new_pool
at_rest_example = at_rest (omega arith) (omega arith) back.1 all_idle

-- ===== src/Pool/Tests.antt =====
-- A pool of four slots, and the theorems at it.
use lw_ipc.Base.{ℕ, ◌<◌, ◌≡◌, ◌⊎◌, refl, true, none, some, List, [], ◌∷◌, arith}
use lw_ipc.Pool.{Pool, pack, index_of, tag_of, new_pool, acquire, release, count_loop, available}
use lw_ipc.Pool.Chain.{count}
use lw_ipc.Pool.Owns.{Owns, new_pool-Owns, acquire-cons, acquire_lem}
use lw_ipc.Pool.Loan.{do_release, destroy, move, loan_scope}

abbrev fresh : Pool ℕ
fresh = new_pool 4 0

fresh-Owns : Owns 4 fresh (0 ∷ 1 ∷ 2 ∷ 3 ∷ []) []
fresh-Owns = new_pool-Owns 4 0 (omega arith) (omega arith)

abbrev loan_one : Pool ℕ
loan_one = (acquire fresh).1

loan_one-Owns : Owns 4 loan_one (1 ∷ 2 ∷ 3 ∷ []) (0 ∷ [])
loan_one-Owns = (acquire-cons 0 (1 ∷ 2 ∷ 3 ∷ []) fresh-Owns).1

abbrev loan_two : Pool ℕ
loan_two = (acquire loan_one).1

loan_two-Owns : Owns 4 loan_two (2 ∷ 3 ∷ []) (1 ∷ 0 ∷ [])
loan_two-Owns = (acquire-cons 1 (2 ∷ 3 ∷ []) loan_one-Owns).1

-- Slot 0 comes back before slot 1, and is the next to go out.
released_first_out : (acquire (release 0 loan_two)).0 ≡ some 0
unfolding new_pool acquire release index_of tag_of pack
released_first_out = refl

acquire_lem_example :
    ((x : ℕ) × (xs : List ℕ) × (◌≡◌ {A = List ℕ} (1 ∷ 2 ∷ 3 ∷ []) (x ∷ xs))
      × ((acquire loan_one).0 ≡ some x)
      × (count x (0 ∷ []) ≡ 0)
      × (x < 4)
      × Owns 4 (acquire loan_one).1 xs (x ∷ 0 ∷ []))
    ⊎ ((◌≡◌ {A = List ℕ} (1 ∷ 2 ∷ 3 ∷ []) []) × (acquire loan_one ≡ (none, loan_one)))
acquire_lem_example = acquire_lem (1 ∷ 2 ∷ 3 ∷ []) loan_one-Owns

-- A slot released twice makes the free list a cycle; the count stops behind the capacity.
double_release : available 4 (release 0 (release 0 loan_two)) ≡ 5
unfolding available count_loop new_pool acquire release index_of tag_of pack
double_release = refl

loan_scope_example :
    let (got, p₁) = acquire loan_one in
    let (target, source) = move (record { ptr = got; pool = true }) in
    let (spent, p₂) = do_release target p₁ in
    (got ≡ some 1) × Owns 4 (destroy source (destroy spent p₂)) (1 ∷ 2 ∷ 3 ∷ []) (0 ∷ [])
loan_scope_example = loan_scope 1 (2 ∷ 3 ∷ []) loan_one-Owns

-- ===== src/Pool/Chain.antt =====
-- Free lists as chains of indices, and how often an index stands in a list.
use lw_ipc.Base.{
  ℕ, zero, suc, ◌+◌, ◌≤◌, ◌<◌, ◌≡◌, refl, ap, subst, List, [], ◌∷◌, ◌++◌, arith, length, ltb, leb,
  ◌&&◌, ◌==◌, if◌then◌else◌,
}
use lw_ipc.Ring.{update}
use lw_ipc.Pool.{k_null_index, count_loop}

abbrev pub count : ℕ → List ℕ → ℕ
count i [] = 0
count i (x ∷ xs) = (if x == i then 1 else 0) + count i xs

pub count-append : (i : ℕ) (xs ys : List ℕ) → count i (xs ++ ys) ≡ count i xs + count i ys
count-append i [] ys = omega arith
count-append i (x ∷ xs) ys = omega (arith, count-append i xs ys)

-- From `idx` the pointers lead through the indices of the list to the null index.
abbrev pub Chain : (ℕ → ℕ) → ℕ → List ℕ → Type 0
Chain next idx [] = idx ≡ k_null_index
Chain next idx (x ∷ xs) = (idx ≡ x) × (x < k_null_index) × Chain next (next x) xs

-- A write to the pointer of a slot that is not in the list leaves the chain alone.
pub Chain-update :
    (next : ℕ → ℕ) (j v idx : ℕ) (xs : List ℕ)
    → count j xs ≡ 0
    → Chain next idx xs
    → Chain (update next j v) idx xs
Chain-update next j v idx [] h c = c
Chain-update next j v idx (x ∷ xs) h c =
    (c.0, c.1, rewrite_next (Chain-update next j v (next x) xs (ground arith) c.2))
  where
    rewrite_next :
        Chain (update next j v) (next x) xs → Chain (update next j v) (update next j v x) xs
    rewrite_next d = subst (λ t. Chain (update next j v) t xs) (ground arith) d

-- The indices `a`, `a + 1`, …, `n` of them.
abbrev pub run_of : ℕ → ℕ → List ℕ
run_of a zero = []
run_of a (suc n) = a ∷ run_of (suc a) n

pub length-run_of : (a n : ℕ) → length (run_of a n) ≡ n
length-run_of a zero = refl
length-run_of a (suc n) = ap suc (length-run_of (suc a) n)

pub count-run_of : (i a n : ℕ) → count i (run_of a n) ≡ (if leb a i && ltb i (a + n) then 1 else 0)
count-run_of i a zero = ground arith
count-run_of i a (suc n) = ground (arith, count-run_of i (suc a) n)

-- The loop of `available` counts a chain whose length is within the capacity, and never goes past
-- the capacity by more than one.
pub count_loop-Chain :
    (fuel capacity : ℕ) (next : ℕ → ℕ) (n idx : ℕ) (xs : List ℕ)
    → Chain next idx xs
    → n + length xs ≤ capacity
    → capacity + 1 < fuel + n
    → count_loop fuel capacity next n idx ≡ n + length xs
unfolding count_loop
count_loop-Chain zero capacity next n idx xs c fits enough = absurd (omega arith)
count_loop-Chain (suc fuel) capacity next n idx [] c fits enough = ground arith
count_loop-Chain (suc fuel) capacity next n idx (x ∷ xs) c fits enough =
    ground (arith, c.0, c.1, ap next c.0, count_loop-Chain fuel capacity next (n + 1) (next idx) xs)

pub count_loop-le :
    (fuel capacity : ℕ) (next : ℕ → ℕ) (n idx : ℕ)
    → n ≤ capacity + 1
    → count_loop fuel capacity next n idx ≤ capacity + 1
unfolding count_loop
count_loop-le zero capacity next n idx h = h
count_loop-le (suc fuel) capacity next n idx h =
    ground (arith, count_loop-le fuel capacity next (n + 1) (next idx))

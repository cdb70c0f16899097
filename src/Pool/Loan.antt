-- ===== src/Pool/Loan.antt =====
-- `LoanedSample` of include/lwipc/loaned_sample.hpp: a guard that returns its slot to the pool
-- once. One pool is at hand, so the back-pointer is only null or not.
use lw_ipc.Base.{
  ℕ, ◌≡◌, refl, ◌<◌, sym, subst, Bool, true, false, Option, none, some, List, ◌∷◌, arith,
  if◌then◌else◌,
}
use lw_ipc.Pool.{Pool, acquire, release}
use lw_ipc.Pool.Chain.{count}
use lw_ipc.Pool.Owns.{Owns, remove, acquire-cons, release_lem}

-- `ptr_` and whether `pool_` is set.
pub record LoanedSample : Type 0 where
  pub ptr : Option ℕ
  pub pool : Bool

-- The default constructor, and a moved-from loan.
abbrev pub empty_loan : LoanedSample
empty_loan = record { ptr = none; pool = false }

-- `operator bool`
abbrev pub holds : LoanedSample → Bool
holds l = elim l.ptr [ none ↦ false | some i ↦ true ]

give_back : {A : Type 0} → Option ℕ → Bool → Pool A → Pool A
give_back none b p = p
give_back (some i) b p = if b then release i p else p

module _ {A : Type 0} where
  -- `do_release`, which `reset` and the destructor call: the loan becomes empty.
  unfoldable pub do_release : LoanedSample → Pool A → LoanedSample × Pool A
  unfolding give_back
  do_release l p = (empty_loan, give_back l.ptr l.pool p)

  -- The destructor's effect on the pool.
  unfoldable pub destroy : LoanedSample → Pool A → Pool A
  unfolding do_release
  destroy l p = (do_release l p).1

  -- `operator=(LoanedSample&&)`; `same` says that both sides are one object. The results are the
  -- left side, the right side and the pool.
  unfoldable pub move_assign :
      Bool → LoanedSample → LoanedSample → Pool A → LoanedSample × LoanedSample × Pool A
  unfolding do_release
  move_assign same self other p =
      if same then (self, other, p) else (other, empty_loan, (do_release self p).1)

-- The move constructor: the new loan, and what is left of the old one.
unfoldable pub move : LoanedSample → LoanedSample × LoanedSample
move other = (other, empty_loan)

-- `release_raw`: the pointer, and the loan behind it.
unfoldable pub release_raw : LoanedSample → Option ℕ × LoanedSample
release_raw l = (l.ptr, empty_loan)

-- The loan of a slot.
abbrev pub loan_of : ℕ → LoanedSample
loan_of x = record { ptr = some x; pool = true }

module _ {A : Type 0} where
  -- A loan that is taken from the pool, moved, reset and destroyed, and its source destroyed too,
  -- gives the slot back once: the pool owns its slots as before, in the same order.
  pub loan_scope :
      {capacity : ℕ} {p : Pool A} (x : ℕ) (xs : List ℕ) {loaned : List ℕ}
      → Owns capacity p (x ∷ xs) loaned
      → let (got, p₁) = acquire p in
        let (target, source) = move (record { ptr = got; pool = true }) in
        let (spent, p₂) = do_release target p₁ in
        (got ≡ some x) × Owns capacity (destroy source (destroy spent p₂)) (x ∷ xs) loaned
  unfolding destroy move
  loan_scope {capacity} {p} x xs {loaned} o =
      let (got, taken) = acquire-cons x xs o in
      (
        got,
        subst (λ t. Owns capacity (give_back t true (acquire p).1) (x ∷ xs) loaned) (sym got)
            (subst (λ t. Owns capacity (release x (acquire p).1) (x ∷ xs) t) (first x)
              (release_lem x taken (ground arith))),
      )
    where
      first : (i : ℕ) → remove i (i ∷ loaned) ≡ loaned
      first i = ground arith

  -- Assigning the loan of slot `y` to the loan of slot `x` gives `x` back at once, keeps `y` on
  -- loan to the left side and leaves the right side empty. Assigning a loan to itself changes
  -- nothing.
  pub move_assign-Owns :
      {capacity : ℕ} {p : Pool A} {free loaned : List ℕ} (x y : ℕ)
      → Owns capacity p free loaned
      → 0 < count x loaned
      → let (l, r, p') = move_assign false (loan_of x) (loan_of y) p in
        (l ≡ loan_of y)
        × (holds r ≡ false)
        × Owns capacity p' (x ∷ free) (remove x loaned)
        × (move_assign true (loan_of x) (loan_of x) p ≡ (loan_of x, loan_of x, p))
  unfolding move_assign
  move_assign-Owns x y o held = (refl, refl, release_lem x o held, refl)

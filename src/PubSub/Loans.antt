-- ===== src/PubSub/Loans.antt =====
-- The zero-copy path of `Publisher`: `loan`, the caller's write through the guard, and `publish` of
-- the loan.
use lw_ipc.Base.{
  ℕ, ◌^◌, ◌<◌, ◌≡◌, ◌⊎◌, inl, inr, refl, sym, subst, none, some, List, [], ◌∷◌, ◌++◌, arith, length,
}
use lw_ipc.Base.Words.{add64}
use lw_ipc.Ring.{IsCapacity, update}
use lw_ipc.Ring.Log.{max_positions}
use lw_ipc.Pool.{acquire}
use lw_ipc.Pool.Chain.{count}
use lw_ipc.Pool.Owns.{Owns, remove, acquire-cons, acquire_lem, release_lem}
use lw_ipc.Pool.Loan.{LoanedSample, empty_loan, loan_of, do_release}
use lw_ipc.PubSub.{Sample, Publisher, publish, loan, fill, publish_loan}
use lw_ipc.PubSub.Stream.{IsStream, next_sample, publish-IsStream}

loan-some :
    (p : Publisher) (x : ℕ)
    → (acquire p.pool).0 ≡ some x
    → loan p ≡ (loan_of x, record p { pool = (acquire p.pool).1 })
unfolding loan
loan-some p x h = ground (arith, h)

loan-none :
    (p : Publisher)
    → acquire p.pool ≡ (none, p.pool)
    → loan p ≡ (empty_loan, record p { pool_exhaustions = add64 p.pool_exhaustions 1 })
unfolding loan
loan-none p h = ground (arith, h)

-- The publisher after the caller wrote `item` to the object in slot `x`, which was lent.
abbrev filled : Publisher → ℕ → List ℕ → Publisher
filled p x item =
    let pool = (acquire p.pool).1 in
    record p { pool = record pool { storage = update pool.storage x item } }

module _ (capacity : ℕ) (c : IsCapacity capacity) (gap : List ℕ) (log : List Sample)
    (timestamp now : ℕ) (room : length log < max_positions) where
  -- Publishing the loan of slot `x` appends the object in that slot to the stream, leaves the loan
  -- empty and gives the slot back to the pool.
  pub publish_loan_lem :
      (p : Publisher) {free loaned : List ℕ} (x : ℕ)
      → IsStream capacity p log
      → Owns capacity p.pool free loaned
      → 0 < count x loaned
      → length (p.pool.storage x) < 2 ^ 32
      → let (spent, p') = publish_loan capacity gap (loan_of x) p timestamp now in
        (spent ≡ empty_loan)
        × Owns capacity p'.pool (x ∷ free) (remove x loaned)
        × (p'.pool_exhaustions ≡ p.pool_exhaustions)
        × IsStream capacity p'
            (log ++ (next_sample gap p (p.pool.storage x) timestamp (length log) ∷ []))
  unfolding publish_loan publish do_release
  publish_loan_lem p x o owns held fits = (
    refl,
    release_lem x owns held,
    refl,
    record { held = sent.held; counted = sent.counted; each = sent.each },
  )
    where
      sent :
          IsStream capacity
            (publish capacity gap p (p.pool.storage x) timestamp now)
            (log ++ (next_sample gap p (p.pool.storage x) timestamp (length log) ∷ []))
      sent = publish-IsStream capacity c gap p log o (p.pool.storage x) timestamp now fits room

  -- The outcomes of a round that starts with this loan and this publisher.
  abbrev pub Round : Publisher → List ℕ → List ℕ → List ℕ → LoanedSample × Publisher → Type 0
  Round p item free loaned (l, lent) =
      let (spent, p') = publish_loan capacity gap l (fill l item lent) timestamp now in
      ((x : ℕ) × (xs : List ℕ) × (free ≡ x ∷ xs)
        × (l ≡ loan_of x)
        × (spent ≡ empty_loan)
        × IsStream capacity p' (log ++ (next_sample gap p item timestamp (length log) ∷ []))
        × Owns capacity p'.pool free loaned
        × (p'.pool_exhaustions ≡ p.pool_exhaustions))
      ⊎ ((free ≡ [])
          × (l ≡ empty_loan)
          × (spent ≡ empty_loan)
          × (p' ≡ record p { pool_exhaustions = add64 p.pool_exhaustions 1 }))

  module _ (p : Publisher) (item : List ℕ) (o : IsStream capacity p log) where
    Round-none :
        {loaned : List ℕ} → acquire p.pool ≡ (none, p.pool) → Round p item [] loaned (loan p)
    unfolding fill publish_loan
    Round-none {loaned} taken =
        subst (Round p item [] loaned) (sym (loan-none p taken)) (inr (refl, refl, refl, refl))

    Round-some :
        (x : ℕ) (xs : List ℕ) {loaned : List ℕ}
        → length item < 2 ^ 32
        → (acquire p.pool).0 ≡ some x
        → Owns capacity (acquire p.pool).1 xs (x ∷ loaned)
        → Round p item (x ∷ xs) loaned (loan p)
    unfolding fill
    Round-some x xs {loaned} fits got owns =
        subst (Round p item (x ∷ xs) loaned) (sym (loan-some p x got)) (
          inl (
            x,
            xs,
            refl,
            refl,
            sent.0,
            subst
                (λ t.
                  IsStream capacity after
                    (log ++ (next_sample gap p t timestamp (length log) ∷ [])))
                written sent.3,
            subst (Owns capacity after.pool (x ∷ xs)) (back loaned) sent.1,
            sent.2,
          ))
      where
        written : (filled p x item).pool.storage x ≡ item
        written = ground arith

        back : (held : List ℕ) → remove x (x ∷ held) ≡ held
        back held = ground arith

        after : Publisher
        after = (publish_loan capacity gap (loan_of x) (filled p x item) timestamp now).1

        sent :
            ((publish_loan capacity gap (loan_of x) (filled p x item) timestamp now).0 ≡ empty_loan)
            × Owns capacity after.pool (x ∷ xs) (remove x (x ∷ loaned))
            × (after.pool_exhaustions ≡ p.pool_exhaustions)
            × IsStream capacity after (
                log
                ++ (next_sample gap p ((filled p x item).pool.storage x) timestamp (length log)
                    ∷ []))
        sent =
            publish_loan_lem (filled p x item) {loaned = x ∷ loaned} x
              (record { held = o.held; counted = o.counted; each = o.each })
              (record {
                small = owns.small;
                chain = owns.chain;
                exact = owns.exact;
                total = owns.total;
              })
              (ground arith) (subst (λ t. length t < 2 ^ 32) (sym written) fits)

  -- One round of the zero-copy path, in both cases. If the pool has a free slot `x`, then the
  -- caller gets the loan of `x`; when it has written an item there and published the loan, the
  -- stream has one sample more, which holds that item, the loan is empty and the pool owns its
  -- slots as before. If the pool has none, then the loan is empty, only the count of exhaustions
  -- changes, and writing and publishing the empty loan do nothing. The item is shorter than 2^32
  -- bytes and fewer than `max_positions` samples were published.
  pub loan-publish_loan :
      (p : Publisher) (free : List ℕ) {loaned : List ℕ} (item : List ℕ)
      → IsStream capacity p log
      → Owns capacity p.pool free loaned
      → length item < 2 ^ 32
      → Round p item free loaned (loan p)
  loan-publish_loan p [] {loaned} item o owns fits = elim (acquire_lem [] owns) [
    | inl (x, xs, e, _, _, _, _) ↦ absurd (ground arith)
    | inr (_, taken) ↦ Round-none p item o taken
  ]
  loan-publish_loan p (x ∷ xs) item o owns fits =
      let (got, taken) = acquire-cons x xs owns in Round-some p item o x xs fits got taken

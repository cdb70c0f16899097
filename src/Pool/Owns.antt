-- ===== src/Pool/Owns.antt =====
-- Every slot is free or on loan, never both: what `acquire`, `release` and `available` do to that.
use lw_ipc.Base.{
  ℕ, zero, suc, ◌+◌, ◌^◌, ◌≤◌, ◌<◌, ◌≡◌, ◌⊎◌, inl, inr, refl, sym, ap, subst, ◌∙◌, none, some, List,
  [], ◌∷◌, arith, length, ltb, ◌==◌, if◌then◌else◌,
}
use lw_ipc.Base.Words.{add64}
use lw_ipc.Ring.{update}
use lw_ipc.Pool.{k_null_index, pack, index_of, tag_of, Pool, new_pool, acquire, release, available}
use lw_ipc.Pool.Word.{index_of-pack}
use lw_ipc.Pool.Chain.{
  count, Chain, Chain-update, run_of, length-run_of, count-run_of, count_loop-Chain, count_loop-le,
}

-- The pointers of a chain fit 16 bits.
Chain-lt : (next : ℕ → ℕ) (idx : ℕ) (xs : List ℕ) → Chain next idx xs → idx < 2 ^ 16
Chain-lt next idx [] c = omega arith
Chain-lt next idx (x ∷ xs) c = omega (arith, c.0, c.1)

-- A list without the first occurrence of an index.
abbrev pub remove : ℕ → List ℕ → List ℕ
remove i [] = []
remove i (x ∷ xs) = if x == i then xs else x ∷ remove i xs

pub count-remove :
    (i j : ℕ) (xs : List ℕ)
    → 0 < count i xs
    → count j (remove i xs) + (if i == j then 1 else 0) ≡ count j xs
count-remove i j [] h = absurd (omega arith)
count-remove i j (x ∷ xs) h = ground (arith, count-remove i j xs)

pub length-remove : (i : ℕ) (xs : List ℕ) → 0 < count i xs → length (remove i xs) + 1 ≡ length xs
length-remove i [] h = absurd (omega arith)
length-remove i (x ∷ xs) h = ground (arith, length-remove i xs)

module _ {A : Type 0} where
  -- The free list in order, and the slots on loan: each index below the capacity stands once in one
  -- of them, and no other index in either.
  pub record Owns (capacity : ℕ) (p : Pool A) (free loaned : List ℕ) : Type 0 where
    pub small : capacity ≤ 65535
    pub chain : Chain p.next (index_of p.head) free
    pub exact : (i : ℕ) → count i free + count i loaned ≡ (if ltb i capacity then 1 else 0)
    pub total : length free + length loaned ≡ capacity

  new_pool-Chain :
      (capacity a n : ℕ) (zeroed : A)
      → capacity ≤ 65535
      → 0 < n
      → a + n ≡ capacity
      → Chain (new_pool capacity zeroed).next a (run_of a n)
  unfolding new_pool
  new_pool-Chain capacity a zero zeroed small pos e = absurd (omega arith)
  new_pool-Chain capacity a (suc zero) zeroed small pos e = ground arith
  new_pool-Chain capacity a (suc (suc n)) zeroed small pos e = (
    refl,
    omega arith,
    subst (λ t. Chain (new_pool capacity zeroed).next t (run_of (suc a) (suc n))) next_is
        (new_pool-Chain capacity (suc a) (suc n) zeroed small (omega arith) (omega arith)),
  )
    where
      next_is : suc a ≡ (new_pool capacity zeroed).next a
      next_is = ground arith

  -- A new pool has every slot in its free list, in order.
  pub new_pool-Owns :
      (capacity : ℕ) (zeroed : A)
      → 0 < capacity
      → capacity ≤ 65535
      → Owns capacity (new_pool capacity zeroed) (run_of 0 capacity) []
  unfolding new_pool
  new_pool-Owns capacity zeroed pos small = record {
    small = small;
    chain =
        subst (λ t. Chain (new_pool capacity zeroed).next t (run_of 0 capacity)) (sym head_is)
          (new_pool-Chain capacity 0 capacity zeroed small pos (omega arith));
    exact = λ i. ground (arith, count-run_of i 0 capacity);
    total = omega (arith, length-run_of 0 capacity);
  }
    where
      head_is : index_of (new_pool capacity zeroed).head ≡ 0
      head_is = index_of-pack 0 0 (omega arith)

  acquire-some :
      (p : Pool A) (x : ℕ)
      → index_of p.head ≡ x
      → x < k_null_index
      → acquire p
        ≡ (some x, record p { head = pack (p.next (index_of p.head)) (add64 (tag_of p.head) 1) })
  unfolding acquire
  acquire-some p x e h = ground arith

  -- A free slot is acquired: the pointer is to the first slot of the free list, which goes on loan.
  pub acquire-cons :
      {capacity : ℕ} {p : Pool A} {loaned : List ℕ} (x : ℕ) (xs : List ℕ)
      → Owns capacity p (x ∷ xs) loaned
      → ((acquire p).0 ≡ some x) × Owns capacity (acquire p).1 xs (x ∷ loaned)
  acquire-cons {capacity} {p} {loaned} x xs o = (
    ap (λ t. t.0) taken,
    subst (λ t. Owns capacity t xs (x ∷ loaned)) (sym (ap (λ t. t.1) taken)) owns,
  )
    where
      after : Pool A
      after = record p { head = pack (p.next (index_of p.head)) (add64 (tag_of p.head) 1) }

      taken : acquire p ≡ (some x, after)
      taken = acquire-some p x o.chain.0 o.chain.1

      owns : Owns capacity after xs (x ∷ loaned)
      owns = record {
        small = o.small;
        chain = subst (λ t. Chain p.next t xs) (sym next_head) o.chain.2;
        exact = λ i. omega (arith, o.exact i);
        total = omega (arith, o.total);
      }
        where
          next_head : index_of after.head ≡ p.next x
          next_head =
              index_of-pack (p.next (index_of p.head)) _ (omega (arith, fits, ap p.next o.chain.0))
              ∙ ap p.next o.chain.0
            where
              fits : p.next x < 2 ^ 16
              fits = Chain-lt p.next (p.next x) xs o.chain.2

  acquire-nil :
      {capacity : ℕ} {p : Pool A} {loaned : List ℕ}
      → Owns capacity p [] loaned
      → acquire p ≡ (none, p)
  unfolding acquire
  acquire-nil o = ground (arith, o.chain)

  -- While a slot is free, `acquire` hands out one that is on loan to nobody, and that is then on
  -- loan; when none is free it returns null and changes nothing.
  pub acquire_lem :
      {capacity : ℕ} {p : Pool A} (free : List ℕ) {loaned : List ℕ}
      → Owns capacity p free loaned
      → ((x : ℕ) × (xs : List ℕ) × (free ≡ x ∷ xs)
          × ((acquire p).0 ≡ some x)
          × (count x loaned ≡ 0)
          × (x < capacity)
          × Owns capacity (acquire p).1 xs (x ∷ loaned))
        ⊎ ((free ≡ []) × (acquire p ≡ (none, p)))
  acquire_lem [] o = inr (refl, acquire-nil o)
  acquire_lem {capacity} (x ∷ xs) {loaned} o =
      let (got, after) = acquire-cons x xs o in
      inl (x, xs, refl, got, ground (arith, o.exact x), ground (arith, o.exact x), after)

  -- A slot on loan that is released stands first in the free list, and is on loan no more.
  pub release_lem :
      {capacity : ℕ} {p : Pool A} {free loaned : List ℕ} (x : ℕ)
      → Owns capacity p free loaned
      → 0 < count x loaned
      → Owns capacity (release x p) (x ∷ free) (remove x loaned)
  unfolding release
  release_lem {capacity} {p} {free} {loaned} x o held = record {
    small = o.small;
    chain = (
      index_of-pack x _ (omega (arith, below)),
      omega (arith, below, o.small),
      subst (λ t. Chain (update p.next x (index_of p.head)) t free) (sym points)
          (Chain-update p.next x (index_of p.head) (index_of p.head) free not_free o.chain),
    );
    exact = λ i. ground (arith, o.exact i, count-remove x i loaned);
    total = omega (arith, o.total, length-remove x loaned held);
  }
    where
      below : x < capacity
      below = ground (arith, o.exact x)

      points : update p.next x (index_of p.head) x ≡ index_of p.head
      points = ground arith

      not_free : count x free ≡ 0
      not_free = ground (arith, o.exact x)

  -- `available` is the number of free slots, and with those on loan they make up the capacity.
  pub available_lem :
      {capacity : ℕ} {p : Pool A} {free loaned : List ℕ}
      → Owns capacity p free loaned
      → (available capacity p ≡ length free) × (available capacity p + length loaned ≡ capacity)
  unfolding available
  available_lem {capacity} {p} {free} o = omega (arith, counted, o.total)
    where
      counted : available capacity p ≡ length free
      counted =
          count_loop-Chain (capacity + 2) capacity p.next 0 (index_of p.head) free o.chain
            (omega (arith, o.total)) (omega arith)
          ∙ omega arith

  -- The loop of `available` ends in every state of the pool, corrupt ones included, and counts at
  -- most one more than the capacity.
  pub available-le : (capacity : ℕ) (p : Pool A) → available capacity p ≤ capacity + 1
  unfolding available
  available-le capacity p =
      count_loop-le (capacity + 2) capacity p.next 0 (index_of p.head) (omega arith)

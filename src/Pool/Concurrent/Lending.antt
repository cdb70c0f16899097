-- ===== src/Pool/Concurrent/Lending.antt =====
-- What callers that run at the same time can rely on.
use lw_ipc.Base.{
  ℕ, zero, suc, ◌≤◌, ◌<◌, ◌≡◌, refl, sym, ◌∙◌, arith, none, some, List, [], ◌∷◌, length, ltb,
  if◌then◌else◌, inl, inr, Option-cases, dec_lt, dec_le, ◌⊎◌, ◌↔◌,
}
use lw_ipc.Pool.{Pool, k_null_index, index_of, available}
use lw_ipc.Pool.Chain.{count, Chain}
use lw_ipc.Pool.Owns.{Owns, remove, count-remove, length-remove, available_lem}
use lw_ipc.Pool.Concurrent.{idle, loaded, linking, slot_of, Move, exhausted, System, Reach}
use lw_ipc.Pool.Concurrent.Invariant.{Inv}
use lw_ipc.Pool.Concurrent.Runs.{Reach-Inv, some_inj}

-- A list in which each number below `n` stands once, and no other, has `n` members.
length-exact :
    (n : ℕ) (xs : List ℕ) → ((i : ℕ) → count i xs ≡ (if ltb i n then 1 else 0)) → length xs ≡ n
length-exact zero [] h = refl
length-exact zero (x ∷ xs) h = absurd (ground (arith, h x))
length-exact (suc n) xs h = omega (
  arith,
  length-remove n xs (has n (omega arith)),
  length-exact n (remove n xs)
      (λ i. ground (arith, count-remove n i xs (has n (omega arith)), h i)),
)
  where
    has : (i : ℕ) → i < suc n → 0 < count i xs
    has i l = ground (arith, h i)

-- No index stands in the chain from the null index.
nothing_free :
    (i : ℕ) (next : ℕ → ℕ) (idx : ℕ) (xs : List ℕ)
    → Chain next idx xs
    → idx ≡ k_null_index
    → count i xs ≡ 0
nothing_free i next idx [] c e = refl
nothing_free i next idx (x ∷ xs) c e = absurd (omega (arith, c.0, c.1))

-- Every slot is with some caller.
pub record AllLent {A : Type 0} (capacity : ℕ) (s : System A) : Type 0 where
  pub each : (i : ℕ) → (capacity ≤ i) ⊎ ((a : ℕ) × (slot_of (s.callers a) ≡ some i))

-- A null answer comes from a head with the null index.
null_answer :
    {A : Type 0} {p q : Pool A} {word : ℕ}
    → Move p (loaded word) q idle
    → index_of word ≡ k_null_index
null_answer (exhausted e) = e

no_late_null :
    {A : Type 0} {p : Pool A} {word next_idx : ℕ} {q : Pool A}
    → ¬ Move p (linking word next_idx) q idle
no_late_null = elim [ ]

module _ {A : Type 0} {capacity : ℕ} {zeroed : A} {s : System A} (pos : 0 < capacity)
    (fits : capacity ≤ k_null_index) (r : Reach capacity zeroed s) where
  -- However callers are interleaved: a slot that `acquire` gave out is within the pool, and no two
  -- callers have the same. The pool has 1 to 65535 slots.
  pub lent_once :
      (a b i : ℕ)
      → slot_of (s.callers a) ≡ some i
      → slot_of (s.callers b) ≡ some i
      → (i < capacity) × (a ≡ b)
  lent_once a b i h k =
      let inv = Reach-Inv pos fits r in
      (
        (inv.now.held i a (inv.held_by i a h)).0,
        some_inj a b (sym (inv.held_by i a h) ∙ inv.held_by i b k),
      )

  -- No slot is lost: when no caller has one any more, whatever steps they took and in which order,
  -- the pool owns all its slots, and `available` counts as many as it was built with. The pool has
  -- 1 to 65535 slots.
  pub at_rest :
      ((a : ℕ) → slot_of (s.callers a) ≡ none)
      → (free : List ℕ) × Owns capacity s.pool free [] × (available capacity s.pool ≡ capacity)
  at_rest idle_all = (inv.free, o, omega (arith, available_lem o))
    where
      inv : Inv capacity s
      inv = Reach-Inv pos fits r

      nobody : (i : ℕ) → inv.holder i ≡ none
      nobody i = elim (Option-cases (inv.holder i)) [
        | inl e ↦ e
        | inr (a, e) ↦ absurd (ground (arith, idle_all a, inv.holds i a e))
      ]

      o : Owns capacity s.pool inv.free []
      o = record {
        small = fits;
        chain = inv.now.chain;
        exact = λ i. omega (arith, inv.now.unheld i (nobody i));
        total = omega (arith, length-exact capacity inv.free (λ i. inv.now.unheld i (nobody i)));
      }

  lent-null :
      index_of s.pool.head ≡ k_null_index
      → (i : ℕ) → i < capacity
      → (a : ℕ) × (slot_of (s.callers a) ≡ some i)
  lent-null e i lt =
      let inv = Reach-Inv pos fits r in
      elim (Option-cases (inv.holder i)) [
        | inl free ↦ absurd (
            ground (
              arith,
              inv.now.unheld i free,
              lt,
              nothing_free i s.pool.next (index_of s.pool.head) inv.free inv.now.chain e,
            ))
        | inr (a, h) ↦ (a, inv.holds i a h)
      ]

  AllLent-null : AllLent capacity s → index_of s.pool.head ≡ k_null_index
  AllLent-null all = by_free inv.free inv.now.chain free_none
    where
      inv : Inv capacity s
      inv = Reach-Inv pos fits r

      by_lent :
          (i : ℕ)
          → i < capacity
          → (capacity ≤ i) ⊎ ((a : ℕ) × (slot_of (s.callers a) ≡ some i))
          → count i inv.free ≡ 0
      by_lent i lt (inl out) = absurd (omega arith)
      by_lent i lt (inr (a, h)) = (inv.now.held i a (inv.held_by i a h)).1

      free_none : (i : ℕ) → count i inv.free ≡ 0
      free_none i = elim (dec_lt i capacity) [
        | yes lt ↦ by_lent i lt (all.each i)
        | no out ↦ elim (Option-cases (inv.holder i)) [
          | inl free ↦ ground (arith, inv.now.unheld i free, out)
          | inr (a, h) ↦ (inv.now.held i a h).1
        ]
      ]

      by_free :
          (xs : List ℕ)
          → Chain s.pool.next (index_of s.pool.head) xs
          → ((i : ℕ) → count i xs ≡ 0)
          → index_of s.pool.head ≡ k_null_index
      by_free [] c h = c
      by_free (x ∷ xs) c h = absurd (ground (arith, h x))

  -- An `acquire` that loads the head in a reachable state, at its start or when its
  -- compare-exchange failed, can answer null, whatever the pool is by then, exactly if each slot
  -- was with some caller when it loaded. Past the test of the head it does not answer null. The
  -- pool has 1 to 65535 slots.
  pub exhausted_lem :
      (p q : Pool A) (word next_idx : ℕ)
      → (Move p (loaded s.pool.head) p idle ↔ AllLent capacity s)
        × (¬ Move p (linking word next_idx) q idle)
  exhausted_lem p q word next_idx = (
    (
      λ m. record {
        each = λ i. elim (dec_le capacity i) [
          | yes out ↦ inl out
          | no within ↦ inr (lent-null (null_answer m) i (omega arith))
        ];
      },
      λ all. exhausted (AllLent-null all),
    ),
    no_late_null,
  )

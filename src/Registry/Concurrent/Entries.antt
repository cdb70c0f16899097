-- ===== src/Registry/Concurrent/Entries.antt =====
-- Tables as families of entries, and what the sequential loops do to them.
use lw_ipc.Base.{
  ℕ, zero, suc, ◌+◌, ◌≤◌, ◌<◌, ◌≡◌, refl, ap, arith, Bool, true, false, List, [], ◌∷◌, replicate,
  ℕ_discrete,
}
use lw_ipc.Ring.{update}
use lw_ipc.Registry.{ChannelEntry, change_first, blank_entry}

-- The entries from index `a` on, `n` of them.
unfoldable pub entries : (ℕ → ChannelEntry) → ℕ → ℕ → List ChannelEntry
entries f a zero = []
entries f a (suc n) = f a ∷ entries f (suc a) n

-- An update before them does not matter.
entries-update :
    (f : ℕ → ChannelEntry) (i : ℕ) (x : ChannelEntry) (a n : ℕ)
    → i < a
    → entries (update f i x) a n ≡ entries f a n
unfolding entries
entries-update f i x a zero h = refl
entries-update f i x a (suc n) h = ground (arith, entries-update f i x (suc a) n)

module _ (test : ChannelEntry → Bool) (change : ChannelEntry → ChannelEntry)
    (f : ℕ → ChannelEntry) where
  -- The loop stops at the first entry that passes the test.
  pub change_first-entries :
      (n a i : ℕ)
      → a ≤ i
      → i < a + n
      → ((j : ℕ) → a ≤ j → j < i → test (f j) ≡ false)
      → test (f i) ≡ true
      → change_first test change (entries f a n) ≡ (true, entries (update f i (change (f i))) a n)
  unfolding entries change_first
  change_first-entries zero a i le lt before h = absurd (omega arith)
  change_first-entries (suc n) a i le lt before h = elim (ℕ_discrete a i) [
    | yes e ↦ ground (arith, e, h, ap f e, entries-update f i (change (f i)) (suc a) n)
    | no ne ↦ ground (
      arith,
      ne,
      before a,
      change_first-entries n (suc a) i (omega arith) (omega arith)
          (λ j k l. before j (omega arith) l) h,
    )
  ]

  pub change_first-none :
      (n a : ℕ)
      → ((j : ℕ) → a ≤ j → j < a + n → test (f j) ≡ false)
      → change_first test change (entries f a n) ≡ (false, entries f a n)
  unfolding entries change_first
  change_first-none zero a before = refl
  change_first-none (suc n) a before = ground (
    arith,
    before a (omega arith) (omega arith),
    change_first-none n (suc a) (λ j k l. before j (omega arith) (omega arith)),
  )

pub entries-blank : (a n : ℕ) → entries (λ i. blank_entry) a n ≡ replicate n blank_entry
unfolding entries
entries-blank a zero = refl
entries-blank a (suc n) = ap (λ t. blank_entry ∷ t) (entries-blank (suc a) n)

-- ===== src/Pool/Concurrent/Invariant.antt =====
-- What holds between the steps: every slot stands once in the free list or has one holder, and a
-- caller whose word is the head's still knows the slot behind it.
use lw_ipc.Base.{
  ℕ, ◌+◌, ◌≤◌, ◌<◌, ◌≡◌, ◌≢◌, ◌⊎◌, arith, Option, none, some, List, [], ◌∷◌, ltb, if◌then◌else◌,
}
use lw_ipc.Base.Words.{add64}
use lw_ipc.Pool.{k_null_index, pack, index_of, tag_of, Pool}
use lw_ipc.Pool.Word.{index_of-pack, tag_of-pack}
use lw_ipc.Pool.Chain.{count, Chain}
use lw_ipc.Pool.Concurrent.{
  Caller, idle, loaded, linking, holding, returning, reloaded, linked, slot_of, max_tag, System,
}

module _ {A : Type 0} where
  -- A word that was the head: since then the tag has grown, or it is the head still.
  abbrev pub Seen : Pool A → ℕ → Type 0
  Seen p word = (tag_of word < tag_of p.head) ⊎ (p.head ≡ word)

  abbrev pub Calling : Pool A → Caller → Type 0
  Calling p idle = Unit
  Calling p (loaded old_head) = Seen p old_head
  Calling p (linking old_head next_idx) =
      (index_of old_head ≢ k_null_index)
      × ((tag_of old_head < tag_of p.head)
          ⊎ ((p.head ≡ old_head) × (next_idx ≡ p.next (index_of old_head))))
  Calling p (holding idx) = Unit
  Calling p (returning idx) = Unit
  Calling p (reloaded idx old_head) = Unit
  Calling p (linked idx old_head) = p.next idx ≡ index_of old_head

  -- What holds of the pool, its free list and the holders of the slots.
  pub record Held (capacity : ℕ) (p : Pool A) (free : List ℕ) (holder : ℕ → Option ℕ) : Type 0 where
    pub fits : capacity ≤ k_null_index
    pub small : tag_of p.head < max_tag
    pub chain : Chain p.next (index_of p.head) free
    pub unheld : (i : ℕ) → holder i ≡ none → count i free ≡ (if ltb i capacity then 1 else 0)
    pub held : (i a : ℕ) → holder i ≡ some a → (i < capacity) × (count i free ≡ 0)

pub record Inv {A : Type 0} (capacity : ℕ) (s : System A) : Type 0 where
  pub free : List ℕ
  pub holder : ℕ → Option ℕ
  pub now : Held capacity s.pool free holder
  pub holds : (i a : ℕ) → holder i ≡ some a → slot_of (s.callers a) ≡ some i
  pub held_by : (i a : ℕ) → slot_of (s.callers a) ≡ some i → holder i ≡ some a
  pub calling : (a : ℕ) → Calling s.pool (s.callers a)

module _ {A : Type 0} {capacity : ℕ} {p : Pool A} {free : List ℕ} {holder : ℕ → Option ℕ}
    (h : Held capacity p free holder) where
  -- The head is a free slot, unless the list is at its end.
  pub head_free : index_of p.head ≢ k_null_index → 0 < count (index_of p.head) free
  head_free ne = free_head free h.chain
    where
      free_head : (xs : List ℕ) → Chain p.next (index_of p.head) xs → 0 < count (index_of p.head) xs
      free_head [] c = absurd (ne c)
      free_head (x ∷ xs) c = ground (arith, c.0)

  -- A word of the next tag.
  module _ (idx : ℕ) (lt : idx ≤ k_null_index) (room : tag_of p.head + 1 < max_tag) where
    abbrev pub bumped : ℕ
    bumped = pack idx (add64 (tag_of p.head) 1)

    pub bumped-index : index_of bumped ≡ idx
    bumped-index = index_of-pack idx (add64 (tag_of p.head) 1) (omega arith)

    pub bumped-tag : tag_of bumped ≡ tag_of p.head + 1
    bumped-tag = omega (arith, tag_of-pack idx (add64 (tag_of p.head) 1) (omega arith))

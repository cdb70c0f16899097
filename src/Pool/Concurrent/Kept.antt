-- ===== src/Pool/Concurrent/Kept.antt =====
-- What the steps that change the pool keep: a slot is taken, is given back, or gets its pointer.
use lw_ipc.Base.{
  ℕ, ◌+◌, ◌≤◌, ◌<◌, ◌≡◌, ◌≢◌, inl, inr, refl, sym, ap, ◌∙◌, subst, arith, Option, none, some, List,
  [], ◌∷◌, ℕ_discrete, Option-cases,
}
use lw_ipc.Base.Words.{add64}
use lw_ipc.Ring.{update}
use lw_ipc.Pool.{k_null_index, pack, index_of, tag_of, Pool}
use lw_ipc.Pool.Chain.{count, Chain, Chain-update}
use lw_ipc.Pool.Concurrent.{
  Caller, idle, loaded, linking, holding, returning, reloaded, linked, slot_of, max_tag,
}
use lw_ipc.Pool.Concurrent.Invariant.{
  Seen, Calling, Held, head_free, bumped, bumped-index, bumped-tag,
}

-- What a step of caller `a` does to the holders.
pub data Change (a : ℕ) (holder : ℕ → Option ℕ) (c : Caller)
    : (ℕ → Option ℕ) → Caller → Type 0 where
  same : {c' : Caller} → slot_of c' ≡ slot_of c → Change a holder c holder c'
  took :
      {c' : Caller} (i : ℕ)
      → slot_of c ≡ none
      → slot_of c' ≡ some i
      → holder i ≡ none
      → Change a holder c (update holder i (some a)) c'
  gave :
      {c' : Caller} (i : ℕ)
      → slot_of c ≡ some i
      → slot_of c' ≡ none
      → Change a holder c (update holder i none) c'

module _ {A : Type 0} (capacity a : ℕ) (holder : ℕ → Option ℕ) where
  pub record Kept (p : Pool A) (c : Caller) (p' : Pool A) (c' : Caller) : Type 0 where
    pub free' : List ℕ
    pub holder' : ℕ → Option ℕ
    pub now : Held capacity p' free' holder'
    pub own : Calling p' c'
    pub others :
        (d : Caller)
        → ((i : ℕ) → slot_of c ≡ some i → slot_of d ≢ some i)
        → Calling p d
        → Calling p' d
    pub change : Change a holder c holder' c'

module _ {A : Type 0} {capacity : ℕ} {p : Pool A} {free : List ℕ} {holder : ℕ → Option ℕ}
    (h : Held capacity p free holder) where
  -- A new head leaves what the others know.
  module _ (idx : ℕ) (lt : idx ≤ k_null_index) (room : tag_of p.head + 1 < max_tag) where
    abbrev with_head : Pool A
    with_head = record p { head = bumped h idx lt room }

    bumped-Seen : (word : ℕ) → Seen p word → Seen with_head word
    bumped-Seen word (inl lt_word) = inl (omega (arith, bumped-tag h idx lt room))
    bumped-Seen word (inr e) = inl (omega (arith, bumped-tag h idx lt room, ap tag_of e))

    bumped-Calling : (d : Caller) → Calling p d → Calling with_head d
    bumped-Calling idle k = tt
    bumped-Calling (loaded word) k = bumped-Seen word k
    bumped-Calling (linking word next_idx) (ne, inl k) =
        (ne, inl (omega (arith, bumped-tag h idx lt room)))
    bumped-Calling (linking word next_idx) (ne, inr k) =
        (ne, inl (omega (arith, bumped-tag h idx lt room, ap tag_of k.0)))
    bumped-Calling (holding i) k = tt
    bumped-Calling (returning i) k = tt
    bumped-Calling (reloaded i word) k = tt
    bumped-Calling (linked i word) k = k

-- The end of a chain is at most the null index.
Chain-le : (next : ℕ → ℕ) (idx : ℕ) (xs : List ℕ) → Chain next idx xs → idx ≤ k_null_index
Chain-le next idx [] c = omega arith
Chain-le next idx (x ∷ xs) c = omega (arith, c.0, c.1)

module _ {A : Type 0} {capacity : ℕ} {p : Pool A} {holder : ℕ → Option ℕ} where
  -- The first free slot has no holder, and stands in the list once.
  first_free :
      (x : ℕ) (xs : List ℕ)
      → Held capacity p (x ∷ xs) holder
      → (holder x ≡ none) × (x < capacity) × (count x xs ≡ 0)
  first_free x xs h = elim (Option-cases (holder x)) [
    | inl e ↦ (e, ground (arith, h.unheld x e), ground (arith, h.unheld x e))
    | inr (b, e) ↦ absurd (ground (arith, (h.held x b e).1))
  ]

module _ {A : Type 0} {capacity a : ℕ} {p : Pool A} {holder : ℕ → Option ℕ} where
  -- `acquire` takes the first slot of the free list.
  pub acquired-Kept :
      (free : List ℕ) (next_idx : ℕ)
      → Held capacity p free holder
      → index_of p.head ≢ k_null_index
      → tag_of p.head + 1 < max_tag
      → next_idx ≡ p.next (index_of p.head)
      → Kept capacity a holder p
          (linking p.head next_idx)
          (record p { head = pack next_idx (add64 (tag_of p.head) 1) })
          (holding (index_of p.head))
  acquired-Kept [] next_idx h ne room n = absurd (ne h.chain)
  acquired-Kept (x ∷ xs) next_idx h ne room n = record {
    free' = xs;
    holder' = update holder x (some a);
    now = record {
      fits = h.fits;
      small = omega (arith, bumped-tag h next_idx lt room);
      chain =
          subst (λ t. Chain p.next t xs) (sym next_is ∙ sym (bumped-index h next_idx lt room))
            h.chain.2;
      unheld = λ i e. ground (arith, h.unheld i, e);
      held = λ i b e. elim (ℕ_discrete x i) [
        | yes same_slot ↦ ground (arith, same_slot, first_free x xs h)
        | no other ↦ ground (arith, h.held i b, e, other)
      ];
    };
    own = tt;
    others = λ d apart. bumped-Calling h next_idx lt room d;
    change = took x refl (ap some h.chain.0) (first_free x xs h).0;
  }
    where
      next_is : next_idx ≡ p.next x
      next_is = n ∙ ap p.next h.chain.0

      lt : next_idx ≤ k_null_index
      lt = omega (arith, next_is, Chain-le p.next (p.next x) xs h.chain.2)

  -- `release` puts the slot at the front.
  pub released-Kept :
      (free : List ℕ) (idx : ℕ)
      → Held capacity p free holder
      → holder idx ≡ some a
      → p.next idx ≡ index_of p.head
      → tag_of p.head + 1 < max_tag
      → Kept capacity a holder p
          (linked idx p.head)
          (record p { head = pack idx (add64 (tag_of p.head) 1) })
          idle
  released-Kept free idx h mine link room = record {
    free' = idx ∷ free;
    holder' = update holder idx none;
    now = record {
      fits = h.fits;
      small = omega (arith, bumped-tag h idx lt room);
      chain = (
        bumped-index h idx lt room,
        omega (arith, h.fits, (h.held idx a mine).0),
        subst (λ t. Chain p.next t free) (sym link) h.chain,
      );
      unheld = λ i e. elim (ℕ_discrete idx i) [
        | yes same_slot ↦ ground (arith, same_slot, h.held idx a mine)
        | no other ↦ ground (arith, h.unheld i, e, other)
      ];
      held = λ i b e. ground (arith, h.held i b, e);
    };
    own = tt;
    others = λ d apart. bumped-Calling h idx lt room d;
    change = gave idx refl refl;
  }
    where
      lt : idx ≤ k_null_index
      lt = omega (arith, h.fits, (h.held idx a mine).0)

  -- Before that it stores the pointer of its own slot, which is in no chain.
  pub stored-Kept :
      (free : List ℕ) (idx word : ℕ)
      → Held capacity p free holder
      → holder idx ≡ some a
      → Kept capacity a holder p
          (reloaded idx word)
          (record p { next = update p.next idx (index_of word) })
          (linked idx word)
  stored-Kept free idx word h mine = record {
    free' = free;
    holder' = holder;
    now = record {
      fits = h.fits;
      small = h.small;
      chain =
          Chain-update p.next idx (index_of word) (index_of p.head) free (h.held idx a mine).1
            h.chain;
      unheld = h.unheld;
      held = h.held;
    };
    own = ground arith;
    others = λ d apart. kept d (apart idx refl);
    change = same refl;
  }
    where
      elsewhere : (i : ℕ) → idx ≢ i → update p.next idx (index_of word) i ≡ p.next i
      elsewhere i ne = ground (arith, ne)

      not_first : (w : ℕ) → p.head ≡ w → index_of w ≢ k_null_index → idx ≢ index_of w
      not_first w seen ne e = omega (
        arith,
        (h.held idx a mine).1,
        ap (λ t. count t free) (e ∙ sym (ap index_of seen)),
        head_free h (λ z. ne (ap index_of (sym seen) ∙ z)),
      )

      kept :
          (d : Caller)
          → slot_of d ≢ some idx
          → Calling p d
          → Calling (record p { next = update p.next idx (index_of word) }) d
      kept idle ne k = tt
      kept (loaded w) ne k = k
      kept (linking w n) ne (some_slot, inl k) = (some_slot, inl k)
      kept (linking w n) ne (some_slot, inr k) =
          (some_slot, inr (k.0, k.1 ∙ sym (elsewhere (index_of w) (not_first w k.0 some_slot))))
      kept (holding i) ne k = tt
      kept (returning i) ne k = tt
      kept (reloaded i w) ne k = tt
      kept (linked i w) ne k = elsewhere i (λ e. ne (ap some (sym e))) ∙ k

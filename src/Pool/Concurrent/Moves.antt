-- ===== src/Pool/Concurrent/Moves.antt =====
-- What one step of a caller keeps.
use lw_ipc.Base.{ℕ, ◌≡◌, inl, inr, refl, sym, ap, ◌∙◌, subst, arith, Option, some, List}
use lw_ipc.Base.Words.{add64}
use lw_ipc.Pool.{pack, index_of, tag_of, Pool}
use lw_ipc.Pool.Concurrent.{
  Caller, idle, linking, holding, linked, slot_of, Move, load_head, exhausted, load_next, acquired,
  acquire_fails, give_back, reload_head, store_next, released, release_fails,
}
use lw_ipc.Pool.Concurrent.Invariant.{Calling, Held}
use lw_ipc.Pool.Concurrent.Kept.{same, Kept, acquired-Kept, released-Kept, stored-Kept}

module _ {A : Type 0} {capacity a : ℕ} {p : Pool A} {free : List ℕ} {holder : ℕ → Option ℕ}
    (h : Held capacity p free holder) where
  -- A step that changes no shared memory.
  quiet : (c c' : Caller) → Calling p c' → slot_of c' ≡ slot_of c → Kept capacity a holder p c p c'
  quiet c c' own e = record {
    free' = free;
    holder' = holder;
    now = h;
    own = own;
    others = λ d ne k. k;
    change = same e;
  }

module _ {A : Type 0} {capacity a : ℕ} {p : Pool A} {holder : ℕ → Option ℕ} where
  pub Move-Kept :
      {free : List ℕ} {p' : Pool A} {c c' : Caller}
      → Move p c p' c'
      → Held capacity p free holder
      → Calling p c
      → ((i : ℕ) → slot_of c ≡ some i → holder i ≡ some a)
      → Kept capacity a holder p c p' c'
  Move-Kept load_head h k mine = quiet h _ _ (inr refl) refl
  Move-Kept (exhausted e) h k mine = quiet h _ _ tt refl
  Move-Kept (load_next {old_head = word} ne) h (inl lt) mine = quiet h _ _ (ne, inl lt) refl
  Move-Kept (load_next {old_head = word} ne) h (inr e) mine = quiet h _ _ (ne, inr (e, refl)) refl
  Move-Kept acquire_fails h k mine = quiet h _ _ (inr refl) refl
  Move-Kept give_back h k mine = quiet h _ _ tt refl
  Move-Kept reload_head h k mine = quiet h _ _ tt refl
  Move-Kept release_fails h k mine = quiet h _ _ tt refl
  Move-Kept {free} (store_next {idx = idx} {old_head = word}) h k mine =
      stored-Kept free idx word h (mine idx refl)
  Move-Kept (acquired at room) h (ne, inl old) mine = absurd (omega (arith, ap tag_of at))
  Move-Kept {free} (acquired {next_idx = n} at room) h (ne, inr e) mine =
      subst
        (λ w.
          Kept capacity a holder p (linking w n) (record p { head = pack n (add64 (tag_of w) 1) })
            (holding (index_of w)))
        at
        (acquired-Kept free n h (λ z. ne (ap index_of (sym at) ∙ z)) (omega (arith, ap tag_of at))
          (e.1 ∙ ap (λ w. p.next (index_of w)) (sym at)))
  Move-Kept {free} (released {idx = idx} at room) h k mine =
      subst
        (λ w.
          Kept capacity a holder p (linked idx w)
            (record p { head = pack idx (add64 (tag_of w) 1) }) idle)
        at
        (released-Kept free idx h (mine idx refl) (k ∙ ap index_of (sym at))
          (omega (arith, ap tag_of at)))

-- ===== src/Pool/Concurrent/Runs.antt =====
-- What every run of callers guarantees.
use lw_ipc.Base.{ℕ, ◌≤◌, ◌<◌, ◌≡◌, ◌≢◌, sym, ap, ◌∙◌, subst, arith, Option, none, some, ℕ_discrete}
use lw_ipc.Ring.{update}
use lw_ipc.Pool.{k_null_index, new_pool}
use lw_ipc.Pool.Word.{tag_of-pack}
use lw_ipc.Pool.Chain.{run_of}
use lw_ipc.Pool.Owns.{new_pool-Owns}
use lw_ipc.Pool.Concurrent.{Caller, slot_of, System, Step, moves, start, Reach, here, later}
use lw_ipc.Pool.Concurrent.Invariant.{Calling, Inv}
use lw_ipc.Pool.Concurrent.Kept.{Change, same, took, gave}
use lw_ipc.Pool.Concurrent.Moves.{Move-Kept}

-- The holders and the callers agree.
abbrev Holds : (ℕ → Option ℕ) → (ℕ → Caller) → Type 0
Holds holder callers = (i a : ℕ) → holder i ≡ some a → slot_of (callers a) ≡ some i

abbrev HeldBy : (ℕ → Option ℕ) → (ℕ → Caller) → Type 0
HeldBy holder callers = (i a : ℕ) → slot_of (callers a) ≡ some i → holder i ≡ some a

updated : {A : Type 0} (f : ℕ → A) (i : ℕ) (x : A) (n : ℕ) → i ≡ n → update f i x n ≡ x
updated f i x n e = ground (arith, e)

kept : {A : Type 0} (f : ℕ → A) (i : ℕ) (x : A) (n : ℕ) → i ≢ n → update f i x n ≡ f n
kept f i x n ne = ground (arith, ne)

pub some_inj : (a b : ℕ) → ◌≡◌ {A = Option ℕ} (some a) (some b) → a ≡ b
some_inj a b e = ground (arith, e)

module _ (a : ℕ) (holder : ℕ → Option ℕ) (callers : ℕ → Caller) (old : Holds holder callers)
    (back : HeldBy holder callers) (c' : Caller) where
  -- The slot of the caller that stepped, and of another.
  of_mine : (b : ℕ) → a ≡ b → slot_of (update callers a c' b) ≡ slot_of c'
  of_mine b e = ap slot_of (updated callers a c' b e)

  of_other : (b : ℕ) → a ≢ b → slot_of (update callers a c' b) ≡ slot_of (callers b)
  of_other b ne = ap slot_of (kept callers a c' b ne)

  Change-Holds :
      {holder' : ℕ → Option ℕ}
      → Change a holder (callers a) holder' c'
      → Holds holder' (update callers a c')
  Change-Holds (same e) i b h = elim (ℕ_discrete a b) [
    | yes mine ↦ of_mine b mine ∙ e ∙ ap (λ t. slot_of (callers t)) mine ∙ old i b h
    | no other ↦ of_other b other ∙ old i b h
  ]
  Change-Holds (took i₀ before after free) i b h = elim (ℕ_discrete i₀ i) [
    | yes e ↦
        of_mine b (some_inj a b (sym (updated holder i₀ (some a) i e) ∙ h)) ∙ after ∙ ap some e
    | no ne ↦
        let was = old i b (sym (kept holder i₀ (some a) i ne) ∙ h) in
        of_other b (λ e. ground (arith, before, ap (λ t. slot_of (callers t)) e, was)) ∙ was
  ]
  Change-Holds (gave i₀ before after) i b h = elim (ℕ_discrete i₀ i) [
    | yes e ↦ absurd (ground (arith, updated holder i₀ none i e, h))
    | no ne ↦
        let was = old i b (sym (kept holder i₀ none i ne) ∙ h) in
        of_other b (λ e. ne (some_inj i₀ i (sym before ∙ ap (λ t. slot_of (callers t)) e ∙ was)))
        ∙ was
  ]

  Change-HeldBy :
      {holder' : ℕ → Option ℕ}
      → Change a holder (callers a) holder' c'
      → HeldBy holder' (update callers a c')
  Change-HeldBy (same e) i b h = elim (ℕ_discrete a b) [
    | yes mine ↦
        back i b (ap (λ t. slot_of (callers t)) (sym mine) ∙ sym e ∙ sym (of_mine b mine) ∙ h)
    | no other ↦ back i b (sym (of_other b other) ∙ h)
  ]
  Change-HeldBy (took i₀ before after free) i b h = elim (ℕ_discrete a b) [
    | yes mine ↦
        updated holder i₀ (some a) i (some_inj i₀ i (sym after ∙ sym (of_mine b mine) ∙ h))
        ∙ ap some mine
    | no other ↦
        let was = back i b (sym (of_other b other) ∙ h) in
        kept holder i₀ (some a) i (λ e. ground (arith, free, ap holder e, was)) ∙ was
  ]
  Change-HeldBy (gave i₀ before after) i b h = elim (ℕ_discrete a b) [
    | yes mine ↦ absurd (ground (arith, after, of_mine b mine, h))
    | no other ↦
        let was = back i b (sym (of_other b other) ∙ h) in
        kept holder i₀ none i
          (λ e. other (some_inj a b (sym (back i₀ a before) ∙ ap holder e ∙ was)))
        ∙ was
  ]

module _ {A : Type 0} {capacity : ℕ} where
  Step-Inv : {s t : System A} → Step s t → Inv capacity s → Inv capacity t
  Step-Inv {s} (moves a {p = p} {c = c} m) inv =
      let k = Move-Kept {a = a} m inv.now (inv.calling a) (λ i e. inv.held_by i a e) in
      record {
        free = k.free';
        holder = k.holder';
        now = k.now;
        holds = Change-Holds a inv.holder s.callers inv.holds inv.held_by c k.change;
        held_by = Change-HeldBy a inv.holder s.callers inv.holds inv.held_by c k.change;
        calling = λ b. elim (ℕ_discrete a b) [
          | yes mine ↦ subst (Calling p) (sym (updated s.callers a c b mine)) k.own
          | no other ↦
              subst (Calling p) (sym (kept s.callers a c b other))
                (k.others (s.callers b) (apart b other) (inv.calling b))
        ];
      }
    where
      apart :
          (b : ℕ)
          → a ≢ b
          → (i : ℕ) → slot_of (s.callers a) ≡ some i
          → slot_of (s.callers b) ≢ some i
      apart b other i e d = other (some_inj a b (sym (inv.held_by i a e) ∙ inv.held_by i b d))

  start-Inv :
      (zeroed : A) → 0 < capacity → capacity ≤ k_null_index → Inv capacity (start capacity zeroed)
  unfolding new_pool
  start-Inv zeroed pos fits =
      let o = new_pool-Owns capacity zeroed pos fits in
      record {
        free = run_of 0 capacity;
        holder = λ i. none;
        now = record {
          fits = fits;
          small = omega (arith, tag_of-pack 0 0 (omega arith));
          chain = o.chain;
          unheld = λ i e. omega (arith, o.exact i);
          held = λ i a e. absurd (ground (arith, e));
        };
        holds = λ i a e. absurd (ground (arith, e));
        held_by = λ i a e. absurd (ground (arith, e));
        calling = λ a. tt;
      }

  pub Reach-Inv :
      {zeroed : A} {s : System A}
      → 0 < capacity
      → capacity ≤ k_null_index
      → Reach capacity zeroed s
      → Inv capacity s
  Reach-Inv {zeroed} pos fits here = start-Inv zeroed pos fits
  Reach-Inv pos fits (later r st) = Step-Inv st (Reach-Inv pos fits r)

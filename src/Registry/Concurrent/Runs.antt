-- ===== src/Registry/Concurrent/Runs.antt =====
-- Every run keeps what holds between the steps.
use lw_ipc.Base.{
  ℕ, ◌≡◌, ◌≢◌, refl, sym, ap, ◌∙◌, subst, arith, true, false, Option, none, some, [], ℕ_discrete,
  Option-cases, inl, inr,
}
use lw_ipc.Ring.{update}
use lw_ipc.Registry.{blank_entry}
use lw_ipc.Registry.Concurrent.{Caller, Memory, System, Step, moves, start, Reach, here, later}
use lw_ipc.Registry.Concurrent.Calls.{registry_of, registry_of-blank}
use lw_ipc.Registry.Concurrent.Invariant.{Sequential, none_yet, Agree, Working, holds, at_work, Inv}
use lw_ipc.Registry.Concurrent.Effects.{Effect, outside, enters, inside, leaves, Move-Effect}

pub some_inj : (a b : ℕ) → ◌≡◌ {A = Option ℕ} (some a) (some b) → a ≡ b
some_inj a b e = ground (arith, e)

pub updated : {A : Type 0} (f : ℕ → A) (i : ℕ) (x : A) (n : ℕ) → i ≡ n → update f i x n ≡ x
updated f i x n e = ground (arith, e)

pub kept : {A : Type 0} (f : ℕ → A) (i : ℕ) (x : A) (n : ℕ) → i ≢ n → update f i x n ≡ f n
kept f i x n ne = ground (arith, ne)

module _ (s : System) (inv : Inv s) (a : ℕ) (m : Memory) (c : Caller) where
  abbrev after : System
  after = record s { mem = m; callers = update s.callers a c }

  -- Another caller stands where it stood.
  other_holds : (b : ℕ) → a ≢ b → holds (update s.callers a c b) ≡ true → inv.owner ≡ some b
  other_holds b ne h = inv.holders b (ap holds (sym (kept s.callers a c b ne)) ∙ h)

  my_holds : (b : ℕ) → a ≡ b → holds (update s.callers a c b) ≡ true → holds c ≡ true
  my_holds b e h = ap holds (sym (updated s.callers a c b e)) ∙ h

  -- The owner's place after the step.
  at_work-other :
      inv.owner ≢ some a → at_work inv.owner (update s.callers a c) ≡ at_work inv.owner s.callers
  at_work-other ne = elim (Option-cases inv.owner) [
    | inl e ↦ ap (λ o. at_work o (update s.callers a c)) e ∙ ap (λ o. at_work o s.callers) (sym e)
    | inr (b, e) ↦
        ap (λ o. at_work o (update s.callers a c)) e
        ∙ kept s.callers a c b (λ d. ne (e ∙ ap some (sym d)))
        ∙ ap (λ o. at_work o s.callers) (sym e)
  ]

  at_work-mine : inv.owner ≡ some a → at_work inv.owner (update s.callers a c) ≡ c
  at_work-mine e = ap (λ o. at_work o (update s.callers a c)) e ∙ updated s.callers a c a refl

  not_owner : holds (s.callers a) ≡ false → inv.owner ≢ some a
  not_owner off e = ground (arith, off, inv.owned a e)

  -- A step outside the lock.
  outside-Inv :
      holds (s.callers a) ≡ false
      → holds c ≡ false
      → m.lock ≡ s.mem.lock
      → m.calls ≡ s.mem.calls
      → ((g : ℕ → _) (w : Caller) → Working s.mem.table g w → Working m.table g w)
      → Inv after
  outside-Inv off off' lock calls keep = record {
    spec = inv.spec;
    owner = inv.owner;
    sequential = subst (λ t. Sequential t (registry_of inv.spec)) (sym calls) inv.sequential;
    working =
        subst (Working m.table inv.spec) (sym (at_work-other (not_owner off)))
          (keep inv.spec (at_work inv.owner s.callers) inv.working);
    holders = λ b h. elim (ℕ_discrete a b) [
      | yes e ↦ absurd (ground (arith, off', my_holds b e h))
      | no ne ↦ other_holds b ne h
    ];
    owned = λ b e. (
      ap holds (kept s.callers a c b (λ d. not_owner off (e ∙ ap some (sym d))))
          ∙ (inv.owned b e).0,
      lock ∙ (inv.owned b e).1,
    );
    unowned = λ e. lock ∙ inv.unowned e;
  }

  -- A step of the owner within the lock.
  inside-Inv :
      holds (s.callers a) ≡ true
      → holds c ≡ true
      → m.lock ≡ s.mem.lock
      → m.calls ≡ s.mem.calls
      → ((g : ℕ → _) → Working s.mem.table g (s.callers a) → Working m.table g c)
      → Inv after
  inside-Inv on on' lock calls keep =
      let mine = inv.holders a on in
      record {
        spec = inv.spec;
        owner = inv.owner;
        sequential = subst (λ t. Sequential t (registry_of inv.spec)) (sym calls) inv.sequential;
        working = subst (Working m.table inv.spec) (sym (at_work-mine mine)) (
            keep inv.spec (
              subst (Working s.mem.table inv.spec) (ap (λ o. at_work o s.callers) mine)
                inv.working));
        holders =
            λ b h. elim (ℕ_discrete a b) [ yes e ↦ mine ∙ ap some e | no ne ↦ other_holds b ne h ];
        owned = λ b e. (
          ap holds (updated s.callers a c b (some_inj a b (sym mine ∙ e))) ∙ on',
          lock ∙ (inv.owned b e).1,
        );
        unowned = λ e. lock ∙ inv.unowned e;
      }

  -- The lock is taken.
  enters-Inv :
      holds c ≡ true
      → s.mem.lock ≡ 0
      → m.lock ≡ 1
      → m.calls ≡ s.mem.calls
      → ((g : ℕ → _) → Agree s.mem.table g → Working m.table g c)
      → Inv after
  enters-Inv on' open_lock lock calls keep = record {
    spec = inv.spec;
    owner = some a;
    sequential = subst (λ t. Sequential t (registry_of inv.spec)) (sym calls) inv.sequential;
    working = subst (Working m.table inv.spec) (sym (updated s.callers a c a refl)) (
        keep inv.spec (
          subst (Working s.mem.table inv.spec) (ap (λ o. at_work o s.callers) nobody) inv.working));
    holders = λ b h. elim (ℕ_discrete a b) [
      | yes e ↦ ap some e
      | no ne ↦ absurd (ground (arith, nobody, other_holds b ne h))
    ];
    owned = λ b e. (ap holds (updated s.callers a c b (some_inj a b e)) ∙ on', lock);
    unowned = λ e. absurd (ground (arith, e));
  }
    where
      nobody : inv.owner ≡ none
      nobody = elim (Option-cases inv.owner) [
        | inl e ↦ e
        | inr (b, e) ↦ absurd (omega (arith, (inv.owned b e).1, open_lock))
      ]

  -- The lock is given back.
  leaves-Inv :
      holds (s.callers a) ≡ true
      → holds c ≡ false
      → m.lock ≡ 0
      → ((g : ℕ → _)
          → Sequential s.mem.calls (registry_of g)
          → Working s.mem.table g (s.callers a)
          → (g' : ℕ → _) × Sequential m.calls (registry_of g') × Agree m.table g')
      → Inv after
  leaves-Inv on off' lock keep =
      let mine = inv.holders a on in
      let (g', seq, agree) =
        keep inv.spec inv.sequential
          (subst (Working s.mem.table inv.spec) (ap (λ o. at_work o s.callers) mine) inv.working) in
      record {
        spec = g';
        owner = none;
        sequential = seq;
        working = agree;
        holders = λ b h. elim (ℕ_discrete a b) [
          | yes e ↦ absurd (ground (arith, off', my_holds b e h))
          | no ne ↦ absurd (ne (some_inj a b (sym mine ∙ other_holds b ne h)))
        ];
        owned = λ b e. absurd (ground (arith, e));
        unowned = λ e. lock;
      }

Step-Inv : {s t : System} → Step s t → Inv s → Inv t
Step-Inv {s} (moves a {m = m} {c = c} st) inv = by_effect (Move-Effect st)
  where
    by_effect :
        Effect s.mem (s.callers a) m c → Inv (record s { mem = m; callers = update s.callers a c })
    by_effect (outside off off' lock calls keep) = outside-Inv s inv a m c off off' lock calls keep
    by_effect (enters off on' open_lock lock calls keep) =
        enters-Inv s inv a m c on' open_lock lock calls keep
    by_effect (inside on on' lock calls keep) = inside-Inv s inv a m c on on' lock calls keep
    by_effect (leaves on off' lock keep) = leaves-Inv s inv a m c on off' lock keep

start-Inv : Inv start
start-Inv = record {
  spec = λ i. blank_entry;
  owner = none;
  sequential = subst (Sequential []) (sym registry_of-blank) none_yet;
  working = λ j. refl;
  holders = λ b h. absurd (ground (arith, h));
  owned = λ b e. absurd (ground (arith, e));
  unowned = λ e. refl;
}

pub Reach-Inv : {s : System} → Reach s → Inv s
Reach-Inv here = start-Inv
Reach-Inv (later r st) = Step-Inv st (Reach-Inv r)

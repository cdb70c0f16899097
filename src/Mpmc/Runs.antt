-- ===== src/Mpmc/Runs.antt =====
-- Every run of producers and consumers keeps the invariant.
use lw_ipc.Base.{
  ℕ, ◌≤◌, ◌<◌, ◌≡◌, ◌≢◌, inl, inr, sym, ap, ◌∙◌, subst, arith, Option, some, ℕ_discrete,
}
use lw_ipc.Ring.{IsCapacity, update}
use lw_ipc.Ring.Index.{index-eq-mod}
use lw_ipc.Ring.Concurrent.{Payload}
use lw_ipc.Mpmc.{
  max_positions, Pusher, idle, loaded, trying, stale, claimed, Popper, waiting, looking, taking,
  behind, reading, delivered, Memory, Push, Pop, System, Step, pushes, pops, start, Reach, here,
  later,
}
use lw_ipc.Mpmc.Invariant.{Pushing, Popping, pushes_at, pops_at, Apart, Inv}
use lw_ipc.Mpmc.Steps.{Push-PushKept, Pop-PopKept}

-- One of a family's members takes a position that no other has.
Apart-update :
    {A : Type 0} (at : A → Option ℕ) (f : ℕ → A) (i : ℕ) (a : A)
    → Apart (λ j. at (f j))
    → ((j p : ℕ) → i ≢ j → at a ≡ some p → at (f j) ≢ some p)
    → Apart (λ j. at (update f i a j))
Apart-update at f i a old new j k p ne h l = elim (ℕ_discrete i j) [
  | yes e ↦
      new k p (λ d. ne (sym e ∙ d)) (sym (ap at (updated j e)) ∙ h)
        (sym (ap at (kept k (λ d. ne (sym e ∙ d)))) ∙ l)
  | no first ↦ elim (ℕ_discrete i k) [
    | yes e ↦ new j p first (sym (ap at (updated k e)) ∙ l) (sym (ap at (kept j first)) ∙ h)
    | no second ↦ old j k p ne (sym (ap at (kept j first)) ∙ h) (sym (ap at (kept k second)) ∙ l)
  ]
]
  where
    updated : (n : ℕ) → i ≡ n → update f i a n ≡ a
    updated n e = ground (arith, e)

    kept : (n : ℕ) → i ≢ n → update f i a n ≡ f n
    kept n d = ground (arith, d)

-- The members other than the one that stepped, and the one that did.
updated_at :
    {A : Type 0} (P : A → Type 0) (f : ℕ → A) (i : ℕ) (a : A) (j : ℕ)
    → P a
    → (i ≢ j → P (f j))
    → P (update f i a j)
updated_at P f i a j new old = elim (ℕ_discrete i j) [
  | yes e ↦ subst P (sym (same e)) new
  | no ne ↦ subst P (sym (kept ne)) (old ne)
]
  where
    same : i ≡ j → update f i a j ≡ a
    same e = ground (arith, e)

    kept : i ≢ j → update f i a j ≡ f j
    kept ne = ground (arith, ne)

module _ {B : Type 0} (capacity words : ℕ) (m : Memory B) where
  -- What is claimed has been handed out.
  pub pushes_at-lt :
      (q : Pusher B) (pos : ℕ)
      → pushes_at q ≡ some pos
      → Pushing capacity words m q
      → pos < m.ring.write_pos
  pushes_at-lt idle pos e h = absurd (ground (arith, e))
  pushes_at-lt (stale x) pos e h = absurd (ground (arith, e))
  pushes_at-lt (loaded p x) pos e h = absurd (ground (arith, e))
  pushes_at-lt (trying p x) pos e h = absurd (ground (arith, e))
  pushes_at-lt (claimed p x n) pos e h = ground (arith, e, h.0)

  pub pops_at-lt :
      (q : Popper B) (pos : ℕ)
      → pops_at q ≡ some pos
      → Popping capacity words m q
      → pos < m.ring.read_pos
  pops_at-lt waiting pos e h = absurd (ground (arith, e))
  pops_at-lt behind pos e h = absurd (ground (arith, e))
  pops_at-lt (looking p) pos e h = absurd (ground (arith, e))
  pops_at-lt (taking p) pos e h = absurd (ground (arith, e))
  pops_at-lt (reading p n out) pos e h = ground (arith, e, h.0)
  pops_at-lt (delivered p out) pos e h = absurd (ground (arith, e))

module _ {B : Type 0} {capacity words : ℕ} (c : IsCapacity capacity)
    (fits : capacity ≤ max_positions) where
  pushes-Inv :
      (s : System B) (i : ℕ) {m : Memory B} {p : Pusher B}
      → Push capacity words s.mem (s.pushers i) m p
      → Inv capacity words s
      → Inv capacity words (record s { mem = m; pushers = update s.pushers i p })
  pushes-Inv s i {m} {p} st inv =
      let k = Push-PushKept c st inv.positions inv.slots (inv.pushing i) in
      record {
        positions = k.positions;
        slots = k.slots;
        pushing = λ j.
            updated_at (Pushing capacity words m) s.pushers i p j k.own
              (λ ne. k.others (s.pushers j) (λ q e. inv.pushers_apart i j q ne e) (inv.pushing j));
        popping = λ j. k.popping (s.poppers j) (inv.popping j);
        pushers_apart = Apart-update pushes_at s.pushers i p inv.pushers_apart (λ j q ne e.
            elim (k.claim q e) [
              | inl mine ↦ inv.pushers_apart i j q ne mine
              | inr new ↦ λ l. absurd (
                  omega
                    (arith, pushes_at-lt capacity words s.mem (s.pushers j) q l (inv.pushing j)))
            ]);
        poppers_apart = inv.poppers_apart;
      }

  pops-Inv :
      (s : System B) (i : ℕ) {m : Memory B} {p : Popper B}
      → Pop capacity words s.mem (s.poppers i) m p
      → Inv capacity words s
      → Inv capacity words (record s { mem = m; poppers = update s.poppers i p })
  pops-Inv s i {m} {p} st inv =
      let k = Pop-PopKept c fits st inv.positions inv.slots (inv.popping i) in
      record {
        positions = k.positions;
        slots = k.slots;
        pushing = λ j. k.pushing (s.pushers j) (inv.pushing j);
        popping = λ j.
            updated_at (Popping capacity words m) s.poppers i p j k.own
              (λ ne. k.others (s.poppers j) (λ q e. inv.poppers_apart i j q ne e) (inv.popping j));
        pushers_apart = inv.pushers_apart;
        poppers_apart = Apart-update pops_at s.poppers i p inv.poppers_apart (λ j q ne e.
            elim (k.claim q e) [
              | inl mine ↦ inv.poppers_apart i j q ne mine
              | inr new ↦ λ l.
                  absurd (
                    omega
                      (arith, pops_at-lt capacity words s.mem (s.poppers j) q l (inv.popping j)))
            ]);
      }

  Step-Inv :
      {s t : System B} → Step capacity words s t → Inv capacity words s → Inv capacity words t
  Step-Inv {s} (pushes i st) inv = pushes-Inv s i st inv
  Step-Inv {s} (pops i st) inv = pops-Inv s i st inv

  start-Inv : (blank : Payload B) → Inv capacity words (start blank)
  start-Inv blank = record {
    positions = record {
      order = omega arith;
      small = omega arith;
      written_lt = λ p h. absurd (ground (arith, h));
      released_lt = λ p h. absurd (ground (arith, h));
      read_written = λ p h. absurd (omega arith);
      free = λ p h. absurd (omega arith);
    };
    slots = record {
      unused = λ p h k. index-eq-mod c p ∙ grind arith;
      busy = λ p h k. absurd (omega arith);
      stored = λ p h k l. absurd (omega arith);
      reusable = λ p h k l. absurd (omega arith);
    };
    pushing = λ j. tt;
    popping = λ j. tt;
    pushers_apart = λ j k p ne e. absurd (ground (arith, e));
    poppers_apart = λ j k p ne e. absurd (ground (arith, e));
  }

  pub Reach-Inv :
      {blank : Payload B} {s : System B} → Reach capacity words blank s → Inv capacity words s
  Reach-Inv {blank} here = start-Inv blank
  Reach-Inv (later r st) = Step-Inv st (Reach-Inv r)

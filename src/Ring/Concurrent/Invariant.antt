-- ===== src/Ring/Concurrent/Invariant.antt =====
-- What holds between the steps: sequence numbers only grow, a ready slot holds its payload whole,
-- and a consumer that is copying either holds a prefix of the right payload or will find the
-- sequence number changed.
use lw_ipc.Base.{
  ℕ, ◌+◌, ◌*◌, ◌≤◌, ◌<◌, ◌≡◌, ◌≢◌, ◌⊎◌, inl, inr, refl, sym, ◌∙◌, arith, ◌==◌, if◌then◌else◌, true,
  false, ℕ_discrete,
}
use lw_ipc.Ring.{index, update}
use lw_ipc.Ring.Shm.{ShmRing}
use lw_ipc.Ring.Concurrent.{
  max_positions, Payload, Producer, idle, claimed, copying, stored, Reader, between, checking,
  reading, delivered, Write, fetch_add, mark, copy_in, publish, beat, Read, attach, nothing_new,
  something_new, not_ready, is_ready, copy_out, torn, whole, give_back, System, note, Step, produce,
  consume, Reach, here, later,
}

-- What holds of a family's values and of the new one holds after an update.
pub update_cases :
    {A : Type 0} (P : A → Type 0) (f : ℕ → A) (i : ℕ) (a : A) (j : ℕ)
    → P a
    → ((k : ℕ) → P (f k))
    → P (update f i a j)
update_cases P f i a j new old = elim (i == j) as (λ b. P (if b then a else f j)) [
  | true ↦ new
  | false ↦ old j
]

module _ {B : Type 0} (capacity words : ℕ) where
  abbrev pub seq_at : ShmRing (Payload B) → ℕ → ℕ
  seq_at m pos = (m.slots (index capacity pos)).sequence

  -- No sequence number lies beyond the position being written.
  abbrev pub Bound : ShmRing (Payload B) → ℕ → Type 0
  Bound m n = (i : ℕ) → (m.slots i).sequence ≤ 2 * n

  abbrev pub Producing : ShmRing (Payload B) → (ℕ → Payload B) → Producer B → Type 0
  Producing m f idle = Bound m m.write_pos
  Producing m f (claimed pos x) = Bound m pos × (m.write_pos ≡ pos + 1) × ((k : ℕ) → f pos k ≡ x k)
  Producing m f (copying pos x done) =
      Bound m pos
      × (m.write_pos ≡ pos + 1)
      × ((k : ℕ) → f pos k ≡ x k)
      × (seq_at m pos ≡ 2 * pos)
      × ((k : ℕ) → k < done → (m.slots (index capacity pos)).item k ≡ f pos k)
  Producing m f stored = Bound m m.write_pos

  abbrev pub Prefix : (ℕ → Payload B) → ℕ → ℕ → Payload B → Type 0
  Prefix f pos done out = (k : ℕ) → k < done → out k ≡ f pos k

  abbrev pub Consuming : ShmRing (Payload B) → (ℕ → Payload B) → Reader B → Type 0
  Consuming m f (between pos) = pos ≤ m.write_pos
  Consuming m f (checking pos) = pos < m.write_pos
  Consuming m f (reading pos done out) =
      (pos < m.write_pos)
      × (((seq_at m pos ≡ 2 * pos + 1) × Prefix f pos done out) ⊎ (2 * pos + 1 < seq_at m pos))
  Consuming m f (delivered pos out) = (pos < m.write_pos) × Prefix f pos words out

  -- A ready slot holds every word of its position's payload.
  abbrev pub Sound : ShmRing (Payload B) → (ℕ → Payload B) → Type 0
  Sound m f =
      (i p k : ℕ) → (m.slots i).sequence ≡ 2 * p + 1 → k < words → (m.slots i).item k ≡ f p k

  pub record Inv (s : System B) : Type 0 where
    pub small : s.mem.write_pos ≤ max_positions
    pub producing : Producing s.mem s.pushed s.producer
    pub sound : Sound s.mem s.pushed
    pub consuming : (i : ℕ) → Consuming s.mem s.pushed (s.readers i)

  module _ {m : ShmRing (Payload B)} (f : ℕ → Payload B) (small : m.write_pos ≤ max_positions) where
    -- A step of the producer keeps its own part of the invariant.
    Write-Producing :
        {p p' : Producer B} {m' : ShmRing (Payload B)}
        → Write capacity words m p m' p'
        → Producing m f p
        → Producing m' (note p' f) p'
    Write-Producing (fetch_add x room) inv = (inv, omega arith, λ k. ground arith)
    Write-Producing (mark {pos} {x}) inv =
        (λ i. ground (arith, inv.0 i), inv.1, inv.2, ground arith, λ k h. absurd (omega arith))
    Write-Producing (copy_in {pos} {x} {done} h) inv = (
      λ i. ground (arith, inv.0 i),
      inv.1,
      inv.2,
      ground (arith, inv.3),
      λ k below. ground (arith, inv.2 k, inv.4 k),
    )
    Write-Producing (publish {pos} {x} {done} h) inv = λ i. ground (arith, inv.0 i, inv.1)
    Write-Producing (beat now) inv = inv

    Write-Sound :
        {p p' : Producer B} {m' : ShmRing (Payload B)}
        → Write capacity words m p m' p'
        → Producing m f p
        → Sound m f
        → Sound m' (note p' f)
    Write-Sound (fetch_add x room) inv sound i p k e h = ground (arith, inv i, sound i p k)
    Write-Sound (mark {pos} {x}) inv sound i p k e h = ground (arith, inv.1, sound i p k)
    Write-Sound (copy_in {pos} {x} {done} g) inv sound i p k e h =
        ground (arith, inv.3, sound i p k)
    Write-Sound (publish {pos} {x} {done} g) inv sound i p k e h =
        ground (arith, inv.1, inv.3, inv.4 k, sound i p k)
    Write-Sound (beat now) inv sound i p k e h = sound i p k e h

    write_pos-le :
        {p p' : Producer B} {m' : ShmRing (Payload B)}
        → Write capacity words m p m' p'
        → (m.write_pos ≤ m'.write_pos) × (m'.write_pos ≤ max_positions)
    write_pos-le (fetch_add x room) = omega arith
    write_pos-le mark = omega arith
    write_pos-le (copy_in h) = omega arith
    write_pos-le (publish h) = omega arith
    write_pos-le (beat now) = omega arith

    -- The payload of a position that is taken already is not noted again.
    pub note-old :
        {p p' : Producer B} {m' : ShmRing (Payload B)}
        → Write capacity words m p m' p'
        → (pos k : ℕ) → pos < m.write_pos
        → note p' f pos k ≡ f pos k
    note-old (fetch_add x room) pos k h = ground arith
    note-old mark pos k h = refl
    note-old (copy_in g) pos k h = refl
    note-old (publish g) pos k h = refl
    note-old (beat now) pos k h = refl

    -- A slot's sequence number grows, and leaves the ready number of a position for good.
    Write-seq :
        {p p' : Producer B} {m' : ShmRing (Payload B)}
        → Write capacity words m p m' p'
        → Producing m f p
        → (pos : ℕ)
        → (seq_at m' pos ≡ seq_at m pos)
          ⊎ ((seq_at m pos ≤ seq_at m' pos)
              × ((seq_at m pos ≢ 2 * pos + 1) ⊎ (2 * pos + 1 < seq_at m' pos)))
    Write-seq (fetch_add x room) inv pos = inl refl
    Write-seq (mark {pos = q}) inv pos = elim (ℕ_discrete (index capacity q) (index capacity pos)) [
      | yes e ↦ inr (
        ground (arith, inv.0 (index capacity pos), inv.1),
        (elim (ℕ_discrete (seq_at m pos) (2 * pos + 1)) [
          | yes ready ↦ inr (ground (arith, inv.0 (index capacity pos), inv.1))
          | no away ↦ inl away
        ]),
      )
      | no ne ↦ inl (ground arith)
    ]
    Write-seq (copy_in h) inv pos = inl (ground arith)
    Write-seq (publish {pos = q} h) inv pos =
        elim (ℕ_discrete (index capacity q) (index capacity pos)) [
          | yes e ↦ inr (ground (arith, inv.1, inv.3), inl (ground (arith, inv.3)))
          | no ne ↦ inl (ground arith)
        ]
    Write-seq (beat now) inv pos = inl refl

    -- What a producer's step does to a consumer that stands still.
    Write-Consuming :
        {p p' : Producer B} {m' : ShmRing (Payload B)}
        → Write capacity words m p m' p'
        → Producing m f p
        → (r : Reader B) → Consuming m f r
        → Consuming m' (note p' f) r
    Write-Consuming w inv (between pos) c = omega (arith, write_pos-le w)
    Write-Consuming w inv (checking pos) c = omega (arith, write_pos-le w)
    Write-Consuming w inv (reading pos done out) (old, inl (e, prefix)) = (
      omega (arith, write_pos-le w),
      elim (Write-seq w inv pos) [
        | inl same ↦ inl (same ∙ e, λ k h. prefix k h ∙ sym (note-old w pos k old))
        | inr (up, moved) ↦ inr (ground arith)
      ],
    )
    Write-Consuming w inv (reading pos done out) (old, inr gone) = (
      omega (arith, write_pos-le w),
      inr (elim (Write-seq w inv pos) [ inl same ↦ omega arith | inr (up, moved) ↦ omega arith ]),
    )
    Write-Consuming w inv (delivered pos out) c =
        (omega (arith, write_pos-le w), λ k h. c.1 k h ∙ sym (note-old w pos k c.0))

  -- A consumer's step keeps its own part of the invariant.
  Read-Consuming :
      {m : ShmRing (Payload B)} (f : ℕ → Payload B) {r r' : Reader B}
      → 1 ≤ capacity
      → m.write_pos ≤ max_positions
      → Sound m f
      → Read capacity words m r r'
      → Consuming m f r
      → Consuming m f r'
  Read-Consuming f cap small sound attach c = omega arith
  Read-Consuming f cap small sound (nothing_new h) c = omega arith
  Read-Consuming f cap small sound (something_new {pos} h) c = ground arith
  Read-Consuming f cap small sound (not_ready h) c = omega arith
  Read-Consuming f cap small sound (is_ready {pos} out e) c =
      (c, inl (omega arith, λ k h. absurd (omega arith)))
  Read-Consuming {m} f cap small sound (copy_out {pos} {done} {out} h) (old, inl (e, prefix)) =
      (old, inl (e, λ k below. ground (arith, prefix k, sound (index capacity pos) pos k)))
  Read-Consuming f cap small sound (copy_out h) (old, inr gone) = (old, inr gone)
  Read-Consuming f cap small sound (torn g h) c = omega arith
  Read-Consuming f cap small sound (whole {pos} {done} g e) (old, inl (same, prefix)) =
      (old, λ k h. prefix k (omega arith))
  Read-Consuming f cap small sound (whole {pos} g e) (old, inr gone) = absurd (omega arith)
  Read-Consuming f cap small sound give_back c = omega arith

  -- Every step keeps the invariant, and it holds at the start.
  pub Step-Inv : {s t : System B} → 1 ≤ capacity → Step capacity words s t → Inv s → Inv t
  Step-Inv {s} cap (produce {m} {p} w) inv = record {
    small = (write_pos-le s.pushed inv.small w).1;
    producing = Write-Producing s.pushed inv.small w inv.producing;
    sound = Write-Sound s.pushed inv.small w inv.producing inv.sound;
    consuming =
        λ i. Write-Consuming s.pushed inv.small w inv.producing (s.readers i) (inv.consuming i);
  }
  Step-Inv {s} cap (consume i {r} rd) inv = record {
    small = inv.small;
    producing = inv.producing;
    sound = inv.sound;
    consuming = λ j.
        update_cases (Consuming s.mem s.pushed) s.readers i r j
          (Read-Consuming s.pushed cap inv.small inv.sound rd (inv.consuming i)) inv.consuming;
  }

  pub Reach-Inv :
      {blank : Payload B} {s : System B} → 1 ≤ capacity → Reach capacity words blank s → Inv s
  Reach-Inv cap here = record {
    small = omega arith;
    producing = λ i. omega arith;
    sound = λ i p k e h. absurd (omega arith);
    consuming = λ i. omega arith;
  }
  Reach-Inv cap (later r st) = Step-Inv cap st (Reach-Inv cap r)

-- ===== src/Ring/Concurrent/Safety.antt =====
-- What every run of one producer and its consumers guarantees.
use lw_ipc.Base.{ℕ, ◌+◌, ◌*◌, ◌≤◌, ◌<◌, ◌≡◌, refl, ap, arith, subst, ℕ_discrete}
use lw_ipc.Ring.{IsCapacity}
use lw_ipc.Ring.Index.{capacity_pos}
use lw_ipc.Ring.Shm.{ShmRing}
use lw_ipc.Ring.Concurrent.{
  Payload, Reader, between, checking, reading, delivered, Read, attach, nothing_new, something_new,
  not_ready, is_ready, copy_out, torn, whole, give_back, System, Step, produce, consume, Reach,
  max_positions,
}
use lw_ipc.Ring.Concurrent.Invariant.{Inv, Consuming, note-old, Reach-Inv, Step-Inv}

module _ {B : Type 0} {capacity words : ℕ} {blank : Payload B} (c : IsCapacity capacity) where
  -- However producer and consumers are interleaved: when `pop` is about to return true at a
  -- position, that position was claimed by a `push`, and every word copied out is the word of the
  -- payload that was pushed there. No mixture of two payloads is ever delivered.
  pub no_torn_read :
      (s : System B) (i pos : ℕ) (out : Payload B) (k : ℕ)
      → Reach capacity words blank s
      → s.readers i ≡ delivered pos out
      → k < words
      → (pos < s.mem.write_pos) × (out k ≡ s.pushed pos k)
  no_torn_read s i pos out k r at h = (now.0, now.1 k h)
    where
      now : Consuming capacity words s.mem s.pushed (delivered pos out)
      now =
          subst (Consuming capacity words s.mem s.pushed) at
            ((Reach-Inv capacity words (capacity_pos c) r).consuming i)

  -- What was pushed at a position stays the record of that position.
  pub pushed_stable :
      (s t : System B) (pos k : ℕ)
      → Reach capacity words blank s
      → Step capacity words s t
      → pos < s.mem.write_pos
      → t.pushed pos k ≡ s.pushed pos k
  pushed_stable s t pos k r (produce w) h =
      note-old capacity words s.pushed (Reach-Inv capacity words (capacity_pos c) r).small w pos k h
  pushed_stable s t pos k r (consume i rd) h = refl

-- How far a consumer has come: twice its cursor, and one more once the item is copied.
abbrev progress : {B : Type 0} → Reader B → ℕ
progress (between pos) = 2 * pos
progress (checking pos) = 2 * pos
progress (reading pos done out) = 2 * pos
progress (delivered pos out) = 2 * pos + 1

pub data Steps {B : Type 0} (capacity words : ℕ) (s : System B) : System B → Type 0 where
  none_more : Steps capacity words s s
  one_more :
      {t u : System B}
      → Steps capacity words s t
      → Step capacity words t u
      → Steps capacity words s u

module _ {B : Type 0} {capacity words : ℕ} where
  Read-progress :
      {m : ShmRing (Payload B)} (f : ℕ → Payload B) {r r' : Reader B}
      → m.write_pos ≤ max_positions
      → Read capacity words m r r'
      → Consuming capacity words m f r
      → progress r ≤ progress r'
  Read-progress f small attach c = omega arith
  Read-progress f small (nothing_new h) c = omega arith
  Read-progress f small (something_new h) c = ground arith
  Read-progress f small (not_ready h) c = omega arith
  Read-progress f small (is_ready out e) c = omega arith
  Read-progress f small (copy_out h) c = omega arith
  Read-progress f small (torn g h) c = omega arith
  Read-progress f small (whole g e) c = omega arith
  Read-progress f small give_back c = omega arith

  Step-progress :
      {s t : System B}
      → Inv capacity words s
      → Step capacity words s t
      → (i : ℕ) → progress (s.readers i) ≤ progress (t.readers i)
  Step-progress {s} inv (produce w) i = omega arith
  Step-progress {s} inv (consume j {r} rd) i = elim (ℕ_discrete j i) [
    | yes e ↦ ground (arith, ap s.readers e, Read-progress s.pushed inv.small rd (inv.consuming j))
    | no ne ↦ ground arith
  ]

  Steps-Inv :
      {s t : System B}
      → 1 ≤ capacity
      → Inv capacity words s
      → Steps capacity words s t
      → Inv capacity words t
  Steps-Inv cap inv none_more = inv
  Steps-Inv cap inv (one_more r st) = Step-Inv capacity words cap st (Steps-Inv cap inv r)

  Steps-progress :
      {s t : System B}
      → 1 ≤ capacity
      → Inv capacity words s
      → Steps capacity words s t
      → (i : ℕ) → progress (s.readers i) ≤ progress (t.readers i)
  Steps-progress cap inv none_more i = omega arith
  Steps-progress cap inv (one_more r st) i =
      omega (arith, Steps-progress cap inv r i, Step-progress (Steps-Inv cap inv r) st i)

  -- A consumer gets no position twice, and none out of order: what it is given in a later call lies
  -- behind what it was given in an earlier one, whatever the producer and others do in between.
  pub no_redelivery :
      {blank : Payload B} (s t u : System B) (i p q pos : ℕ) (out out' : Payload B)
      → IsCapacity capacity
      → Reach capacity words blank s
      → s.readers i ≡ delivered p out
      → Steps capacity words s t
      → t.readers i ≡ between pos
      → Steps capacity words t u
      → u.readers i ≡ delivered q out'
      → p < q
  no_redelivery s t u i p q pos out out' c r at_p before at_call after at_q = omega (
    arith,
    Steps-progress (capacity_pos c) start before i,
    Steps-progress (capacity_pos c) (Steps-Inv (capacity_pos c) start before) after i,
    ap progress at_p,
    ap progress at_call,
    ap progress at_q,
  )
    where
      start : Inv capacity words s
      start = Reach-Inv capacity words (capacity_pos c) r

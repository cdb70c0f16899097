-- ===== src/Ring/Buffered/Refine.antt =====
-- Store buffers add nothing to what consumers can see.
use lw_ipc.Base.{ℕ, ◌<◌, ◌≡◌, refl, ap, ◌∙◌, subst, arith, List, [], ◌∷◌, ◌++◌, drop}
use lw_ipc.Ring.{IsCapacity}
use lw_ipc.Ring.Shm.{ShmRing}
use lw_ipc.Ring.Concurrent
use lw_ipc.Ring.Concurrent.{
  Payload, Producer, idle, claimed, Reader, delivered, Write, note, produce,
}
use lw_ipc.Ring.Concurrent.Safety.{no_torn_read}
use lw_ipc.Ring.Buffered.{
  Store, reached, Emit, mark, copy_in, publish, beat, System, Step, fetch_add, emit, reach, consume,
  Reach, here, later,
}

module _ {B : Type 0} where
  head_or : Store B → List (Store B) → Store B
  head_or st [] = st
  head_or st (x ∷ xs) = x

  -- The stores lead the producer from one place to another.
  pub data Emits (words : ℕ) : Producer B → List (Store B) → Producer B → Type 0 where
    none_wait : {p : Producer B} → Emits words p [] p
    one_waits :
        {p q r : Producer B} {st : Store B} {pending : List (Store B)}
        → Emit words p st q
        → Emits words q pending r
        → Emits words p (st ∷ pending) r

  -- The system without buffers, with the producer where what has reached the memory leaves it.
  abbrev pub seen : System B → Producer B → Concurrent.System B
  seen s p = record { mem = s.mem; producer = p; readers = s.readers; pushed = s.pushed }

  module _ (words : ℕ) where
    Emits-snoc :
        {p q r : Producer B} {st : Store B} {pending : List (Store B)}
        → Emits words p pending q
        → Emit words q st r
        → Emits words p (pending ++ (st ∷ [])) r
    Emits-snoc none_wait e = one_waits e none_wait
    Emits-snoc (one_waits d ds) e = one_waits d (Emits-snoc ds e)

    -- A store that reaches the memory is a step without buffers.
    Emit-Write :
        {capacity : ℕ} (m : ShmRing (Payload B)) {p q : Producer B} {st : Store B}
        → Emit words p st q
        → Write capacity words m p (reached capacity st m) q
    Emit-Write m mark = Concurrent.mark
    Emit-Write m (copy_in h) = Concurrent.copy_in h
    Emit-Write m (publish h) = Concurrent.publish h
    Emit-Write m (beat now) = Concurrent.beat now

    -- No store claims a position.
    Emit-note :
        {p q : Producer B} {st : Store B} (f : ℕ → Payload B) → Emit words p st q → note q f ≡ f
    Emit-note f mark = refl
    Emit-note f (copy_in h) = refl
    Emit-note f (publish h) = refl
    Emit-note f (beat now) = refl

    Emits-nil :
        {p r : Producer B} {pending : List (Store B)}
        → Emits words p pending r
        → pending ≡ []
        → p ≡ r
    Emits-nil none_wait e = refl
    Emits-nil (one_waits d ds) e = absurd (ground (arith, e))

    Emits-cons :
        {p r : Producer B} {pending rest : List (Store B)} {st : Store B}
        → Emits words p pending r
        → pending ≡ st ∷ rest
        → (q : Producer B) × Emit words p st q × Emits words q rest r
    unfolding head_or
    Emits-cons none_wait e = absurd (ground (arith, e))
    Emits-cons {st = st} (one_waits {p = p} {q = q} {r = r} {st = st'} d ds) e = (
      q,
      subst (λ t. Emit words p t q) (ap (head_or st) e) d,
      subst (λ t. Emits words q t r) (ap (drop 1) e) ds,
    )

-- A run with store buffers is one without, in which the producer stands where the stores that have
-- reached the memory leave it.
pub record Explained {B : Type 0} (capacity words : ℕ) (blank : Payload B) (s : System B)
    : Type 0 where
  pub producer : Producer B
  pub run : Concurrent.Reach capacity words blank (seen s producer)
  pub waiting : Emits words producer s.pending s.producer

module _ {B : Type 0} (capacity words : ℕ) (blank : Payload B) where
  Step-Explained :
      {s t : System B}
      → Step capacity words s t
      → Explained capacity words blank s
      → Explained capacity words blank t
  Step-Explained {s} (fetch_add x empty at room) h = record {
    producer = claimed s.mem.write_pos x;
    run =
        Concurrent.later
          (subst (λ p. Concurrent.Reach capacity words blank (seen s p))
            (Emits-nil words h.waiting empty ∙ at) h.run)
          (produce (Concurrent.fetch_add x room));
    waiting = none_wait;
  }
  Step-Explained (emit e) h = record {
    producer = h.producer;
    run = h.run;
    waiting = Emits-snoc words h.waiting e;
  }
  Step-Explained {s} (reach {st = st} {rest = rest} e) h =
      let (q, d, ds) = Emits-cons words h.waiting e in
      record {
        producer = q;
        run =
            subst
              (λ f. Concurrent.Reach capacity words blank (record {
                mem = reached capacity st s.mem;
                producer = q;
                readers = s.readers;
                pushed = f;
              }))
              (Emit-note words s.pushed d)
              (Concurrent.later h.run (produce (Emit-Write words s.mem d)));
        waiting = ds;
      }
  Step-Explained (consume i rd) h = record {
    producer = h.producer;
    run = Concurrent.later h.run (Concurrent.consume i rd);
    waiting = h.waiting;
  }

  -- With the stores of the producer waiting in a queue and reaching the memory later, in order:
  -- the memory and the consumers are those of a run without a queue, in which the producer is
  -- behind by the stores that wait.
  pub Reach-Explained :
      {s : System B} → Reach capacity words blank s → Explained capacity words blank s
  Reach-Explained here = record { producer = idle; run = Concurrent.here; waiting = none_wait }
  Reach-Explained (later r st) = Step-Explained st (Reach-Explained r)

module _ {B : Type 0} {capacity words : ℕ} {blank : Payload B} (c : IsCapacity capacity) where
  -- Nothing torn is delivered with store buffers either: when `pop` is about to return true at a
  -- position, the position was claimed by a `push`, and every word copied out is the word of the
  -- payload that was pushed there.
  pub no_torn_read_buffered :
      (s : System B) (i pos : ℕ) (out : Payload B) (k : ℕ)
      → Reach capacity words blank s
      → s.readers i ≡ delivered pos out
      → k < words
      → (pos < s.mem.write_pos) × (out k ≡ s.pushed pos k)
  no_torn_read_buffered s i pos out k r at h =
      let e = Reach-Explained capacity words blank r in
      no_torn_read c (seen s e.producer) i pos out k e.run at h

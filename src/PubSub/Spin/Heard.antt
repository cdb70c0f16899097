-- ===== src/PubSub/Spin/Heard.antt =====
-- What the callback of a spinning `Subscriber` has got, and what one call of `try_receive` adds.
use lw_ipc.Base.{
  ℕ, ◌≤◌, ◌<◌, ◌≡◌, sym, ap, ◌∙◌, subst, arith, Option, none, some, List, [], ◌∷◌, ◌++◌, length,
  get_elem?, dec_lt, length-append,
}
use lw_ipc.Ring.{IsCapacity}
use lw_ipc.Ring.Log.{get_elem?-append_left}
use lw_ipc.PubSub.{Sample, Publisher}
use lw_ipc.PubSub.Subscriber.{Doubles, Subscriber}
use lw_ipc.PubSub.Stream.{IsStream}
use lw_ipc.PubSub.Receive.{oldest, oldest-bounds, received_next, received_end}
use lw_ipc.PubSub.Spin.{
  subscriber_channel, Worker, absent, started, testing, polling, calling, ended,
}

-- The samples, the last first, stand in the stream in this order, all before `pos`.
abbrev pub Heard : List Sample → List Sample → ℕ → Type 0
Heard log [] pos = Unit
Heard log (x ∷ older) pos = (i : ℕ) × (get_elem? log i ≡ some x) × (i < pos) × Heard log older i

pub Heard-le :
    (log xs : List Sample) (pos pos' : ℕ) → pos ≤ pos' → Heard log xs pos → Heard log xs pos'
Heard-le log [] pos pos' le h = tt
Heard-le log (x ∷ xs) pos pos' le (i, at, lt, older) = (i, at, omega arith, older)

-- What is published later does not change that.
Heard-append :
    (log more xs : List Sample) (pos : ℕ)
    → pos ≤ length log
    → Heard log xs pos
    → Heard (log ++ more) xs pos
Heard-append log more [] pos le h = tt
Heard-append log more (x ∷ xs) pos le (i, at, lt, older) = (
  i,
  get_elem?-append_left log more i (omega arith) ∙ at,
  lt,
  Heard-append log more xs i (omega arith) older,
)

abbrev pub Listening : List Sample → List Sample → Worker Sample → Type 0
Listening log calls absent = Heard log calls (length log)
Listening log calls started = Heard log calls (length log)
Listening log calls (testing pos) = (pos ≤ length log) × Heard log calls pos
Listening log calls (polling pos) = (pos ≤ length log) × Heard log calls pos
Listening log calls (calling message pos) = (pos ≤ length log) × Heard log (message ∷ calls) pos
Listening log calls ended = Heard log calls (length log)

Heard-append_one :
    (log calls : List Sample) (x : Sample)
    → Heard log calls (length log)
    → Heard (log ++ (x ∷ [])) calls (length (log ++ (x ∷ [])))
Heard-append_one log calls x h =
    Heard-le (log ++ (x ∷ [])) calls (length log) (length (log ++ (x ∷ [])))
      (omega (arith, length-append log (x ∷ [])))
      (Heard-append log (x ∷ []) calls (length log) (omega arith) h)

pub Listening-append :
    (log calls : List Sample) (x : Sample) (w : Worker Sample)
    → Listening log calls w
    → Listening (log ++ (x ∷ [])) calls w
Listening-append log calls x absent h = Heard-append_one log calls x h
Listening-append log calls x started h = Heard-append_one log calls x h
Listening-append log calls x (testing pos) h =
    (omega (arith, h.0, length-append log (x ∷ [])), Heard-append log (x ∷ []) calls pos h.0 h.1)
Listening-append log calls x (polling pos) h =
    (omega (arith, h.0, length-append log (x ∷ [])), Heard-append log (x ∷ []) calls pos h.0 h.1)
Listening-append log calls x (calling message pos) h = (
  omega (arith, h.0, length-append log (x ∷ [])),
  Heard-append log (x ∷ []) (message ∷ calls) pos h.0 h.1,
)
Listening-append log calls x ended h = Heard-append_one log calls x h

module _ {D : Type 0} (doubles : Doubles D) (capacity : ℕ) (c : IsCapacity capacity) (p : Publisher)
    (log : List Sample) (o : IsStream capacity p log) where
  -- The channel's part of what `try_receive` returns.
  abbrev with_ring :
      Option Sample × ℕ × Subscriber D → Option Sample × ℕ × (Publisher × Subscriber D)
  with_ring r = (r.0, r.1, (p, r.2))

  module _ (s : Subscriber D) (calls : List Sample) (pos now : ℕ)
      (h : (pos ≤ length log) × Heard log calls pos) (out : Option Sample) (next : ℕ)
      (channel : Publisher × Subscriber D)
      (e : (subscriber_channel doubles capacity).try_receive (p, s) pos now
        ≡ (out, next, channel)) where
    at_end : length log ≤ pos → with_ring (none, pos, s) ≡ (out, next, channel)
    at_end past = sym (ap with_ring (received_end capacity c p log o doubles s pos now past)) ∙ e

    pub receive-Heard :
        (message : Sample)
        → out ≡ some message
        → (channel.0 ≡ p) × (next ≤ length log) × Heard log (message ∷ calls) next
    receive-Heard message is = elim (dec_lt pos (length log)) [
      | yes more ↦
          let (slot, at, got) = received_next capacity c p log o doubles s pos now more in
          let ahead = oldest-bounds capacity c p log o doubles s pos now more in
          let same = sym (ap with_ring got) ∙ e in
          let end = ap (λ r. r.1) same in
          (
            sym (ap (λ r. r.2.0) same),
            omega (arith, ahead.1, end),
            (
              oldest capacity (length log) pos,
              at ∙ ap (λ r. r.0) same ∙ is,
              omega (arith, end),
              Heard-le log calls pos (oldest capacity (length log) pos) (omega (arith, ahead.0))
                  h.1,
            ),
          )
      | no end ↦ absurd (ground (arith, ap (λ r. r.0) (at_end (omega arith)), is))
    ]

    pub sleep-Heard : out ≡ none → (channel.0 ≡ p) × (next ≤ length log) × Heard log calls next
    sleep-Heard is = elim (dec_lt pos (length log)) [
      | yes more ↦
          let (slot, at, got) = received_next capacity c p log o doubles s pos now more in
          absurd (ground (arith, ap (λ r. r.0) (sym (ap with_ring got) ∙ e), is))
      | no end ↦
          let same = at_end (omega arith) in
          let still = ap (λ r. r.1) same in
          (sym (ap (λ r. r.2.0) same), omega (arith, still, h.0), subst (Heard log calls) still h.1)
    ]

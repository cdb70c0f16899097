-- ===== src/PubSub/Drain.antt =====
-- The loop in which a consumer polls until nothing is left.
use lw_ipc.Base.{
  ℕ, zero, suc, ◌+◌, ◌<◌, ◌≤◌, ◌≡◌, refl, sym, subst, ap, ◌∙◌, none, some, List, [], ◌∷◌, arith,
  length, get_elem?, drop, dec_lt,
}
use lw_ipc.Ring.{IsCapacity}
use lw_ipc.Ring.Index.{capacity_pos}
use lw_ipc.Ring.Shm.{ShmRing}
use lw_ipc.Ring.Log.{max_positions}
use lw_ipc.PubSub.{Sample, Publisher}
use lw_ipc.PubSub.Subscriber.{Doubles, Subscriber, try_receive, count_message, drain}
use lw_ipc.PubSub.Stream.{IsStream}
use lw_ipc.PubSub.Receive.{oldest, oldest-bounds, received_end, received_next, count_message_lem}

drop-get_elem? :
    {A : Type 0} (xs : List A) (i : ℕ) (x : A)
    → get_elem? xs i ≡ some x
    → drop i xs ≡ x ∷ drop (suc i) xs
drop-get_elem? [] i x at = ground arith
drop-get_elem? (y ∷ xs) zero x at = ground arith
drop-get_elem? (y ∷ xs) (suc i) x at = drop-get_elem? xs i x at

drop-length : {A : Type 0} (xs : List A) → drop (length xs) xs ≡ []
drop-length [] = refl
drop-length (x ∷ xs) = drop-length xs

module _ {D : Type 0} (doubles : Doubles D) (fuel capacity : ℕ) (ring : ShmRing Sample)
    (s : Subscriber D) (pos : ℕ) (clock : ℕ → ℕ) where
  drain-end :
      try_receive doubles capacity ring s pos (clock fuel) ≡ (none, pos, s)
      → drain doubles (suc fuel) capacity ring s pos clock ≡ ([], pos, s)
  unfolding drain
  drain-end h = ground (arith, h)

  drain-next :
      (slot : Sample) (next : ℕ) (s' : Subscriber D)
      → try_receive doubles capacity ring s pos (clock fuel) ≡ (some slot, next, s')
      → let (got, last, counted) = drain doubles fuel capacity ring s' next clock in
        drain doubles (suc fuel) capacity ring s pos clock ≡ (slot ∷ got, last, counted)
  unfolding drain
  drain-next slot next s' h = ground (arith, h)

-- All that is still held from the cursor on was received, and the rest counted as dropped; `r` is
-- what was received, the cursor and the subscriber afterwards.
pub record Drained {D : Type 0} (capacity : ℕ) (log : List Sample) (s : Subscriber D) (pos : ℕ)
    (r : List Sample × ℕ × Subscriber D) : Type 0 where
  pub all : r.0 ≡ drop (oldest capacity (length log) pos) log
  pub cursor : r.1 ≡ length log
  pub received : r.2.stats_received ≡ s.stats_received + length r.0
  pub dropped : r.2.stats_dropped + length r.0 + pos ≡ s.stats_dropped + length log

module _ (capacity : ℕ) (c : IsCapacity capacity) (p : Publisher) (log : List Sample)
    (o : IsStream capacity p log) {D : Type 0} (doubles : Doubles D) (clock : ℕ → ℕ) where
  -- After a message at `oldest` the cursor has overtaken nothing.
  oldest-next :
      (pos : ℕ)
      → pos < length log
      → oldest capacity (length log) (oldest capacity (length log) pos + 1)
        ≡ suc (oldest capacity (length log) pos)
  oldest-next pos h = ground (arith, capacity_pos c)

  Drained-cons :
      (s : Subscriber D) (pos : ℕ) (slot : Sample) (s' : Subscriber D)
      (r : List Sample × ℕ × Subscriber D)
      → pos < length log
      → get_elem? log (oldest capacity (length log) pos) ≡ some slot
      → s'.stats_received ≡ s.stats_received + 1
      → s'.stats_dropped + 1 + pos ≡ s.stats_dropped + (oldest capacity (length log) pos + 1)
      → Drained capacity log s' (oldest capacity (length log) pos + 1) r
      → let (got, last, counted) = r in Drained capacity log s pos (slot ∷ got, last, counted)
  Drained-cons s pos slot s' r h at received dropped rest = record {
    all =
        ap (λ t. slot ∷ t) (rest.all ∙ ap (λ t. drop t log) (oldest-next pos h))
        ∙ sym (drop-get_elem? log (oldest capacity (length log) pos) slot at);
    cursor = rest.cursor;
    received = omega (arith, received, rest.received);
    dropped = omega (arith, dropped, rest.dropped);
  }

  -- While nothing is published, a consumer that polls until `try_receive` returns false gets, in
  -- order and each once, the samples from its cursor on that the ring still holds when it starts;
  -- its cursor ends at the end of the stream; every sample that it passes is counted, as received
  -- if it got it and as dropped if not. The loop ends: one round more than the cursor lies behind
  -- is enough. The cursor is not ahead of the stream, and the counters stay below `max_positions`.
  pub drain_lem :
      (fuel : ℕ) (s : Subscriber D) (pos : ℕ)
      → pos ≤ length log
      → length log < pos + fuel
      → s.stats_received + length log < max_positions + pos
      → s.stats_dropped + length log < max_positions + pos
      → Drained capacity log s pos (drain doubles fuel capacity p.ring s pos clock)
  drain_lem zero s pos behind enough received dropped = absurd (omega arith)
  drain_lem (suc fuel) s pos behind enough received dropped = elim (dec_lt pos (length log)) [
    | yes more ↦
        let next = oldest capacity (length log) pos + 1 in
        let (slot, at, got) = received_next capacity c p log o doubles s pos (clock fuel) more in
        let ahead = oldest-bounds capacity c p log o doubles s pos (clock fuel) more in
        let counts =
          count_message_lem capacity c p log o doubles s pos (clock fuel) slot next ahead.0
            (omega (arith, ahead.1, o.held.small)) (omega arith) (omega arith) in
        let s' = count_message doubles s pos next slot (clock fuel) in
        let rest =
          drain_lem fuel s' next ahead.1 (omega (arith, ahead.0)) (omega (arith, counts.0, ahead.0))
            (omega (arith, counts.1, ahead.0)) in
        subst (Drained capacity log s pos)
          (sym (drain-next doubles fuel capacity p.ring s pos clock slot next s' got))
          (Drained-cons s pos slot s' (drain doubles fuel capacity p.ring s' next clock) more at
            counts.0 counts.1 rest)
    | no ended ↦
        subst (Drained capacity log s pos)
          (sym (
            drain-end doubles fuel capacity p.ring s pos clock
              (received_end capacity c p log o doubles s pos (clock fuel) (omega arith))))
          (record {
            all = sym (ap (λ t. drop t log) (at_end ended) ∙ drop-length log);
            cursor = omega arith;
            received = omega arith;
            dropped = omega arith;
          })
  ]
    where
      at_end : ¬ (pos < length log) → oldest capacity (length log) pos ≡ length log
      at_end h = ground arith

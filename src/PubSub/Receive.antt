-- ===== src/PubSub/Receive.antt =====
-- What a subscriber gets from a publisher's stream, and what its counters say.
use lw_ipc.Base.{
  ℕ, zero, suc, ◌+◌, ◌-◌, ◌<◌, ◌≤◌, ◌≡◌, ◌⊎◌, inl, inr, refl, sym, subst, ◌∙◌, Option, none, some,
  List, [], ◌∷◌, arith, length, get_elem?, ltb, if◌then◌else◌, dec_le,
}
use lw_ipc.Ring.{IsCapacity}
use lw_ipc.Ring.Index.{capacity_pos}
use lw_ipc.Ring.Shm.{pop}
use lw_ipc.Ring.Intra.{forget-pop}
use lw_ipc.Ring.Log.{max_positions, read_log, pop-read_log}
use lw_ipc.PubSub.{Sample, Publisher}
use lw_ipc.PubSub.Subscriber.{Doubles, Subscriber, try_receive, count_message}
use lw_ipc.PubSub.Stream.{IsSample, IsStream}

-- The position that the next message is read from: the cursor, or the oldest item still held.
abbrev pub oldest : ℕ → ℕ → ℕ → ℕ
oldest capacity written pos = if ltb capacity (written - pos) then written - capacity else pos

get_elem?-some :
    {A : Type 0} (xs : List A) (i : ℕ) → i < length xs → (x : A) × (get_elem? xs i ≡ some x)
get_elem?-some [] i h = absurd (omega arith)
get_elem?-some (x ∷ xs) zero h = (x, refl)
get_elem?-some (x ∷ xs) (suc i) h = get_elem?-some xs i (omega arith)

-- A sample of this publisher came out of the stream; `r` is what the call returned, the cursor and
-- the subscriber afterwards.
pub record Got {D : Type 0} (capacity : ℕ) (p : Publisher) (log : List Sample) (s : Subscriber D)
    (pos : ℕ) (r : Option Sample × ℕ × Subscriber D) : Type 0 where
  pub slot : Sample
  pub out : r.0 ≡ some slot
  pub at : get_elem? log (oldest capacity (length log) pos) ≡ some slot
  pub sample : IsSample p.msg_type p.sensor_id (oldest capacity (length log) pos) slot
  pub cursor : slot.header.sequence ≡ r.1
  pub ahead : pos < r.1
  pub bounded : r.1 ≤ length log
  pub received : r.2.stats_received ≡ s.stats_received + 1
  pub dropped : r.2.stats_dropped + 1 + pos ≡ s.stats_dropped + r.1

module _ (capacity : ℕ) (c : IsCapacity capacity) (p : Publisher) (log : List Sample)
    (o : IsStream capacity p log) {D : Type 0} (doubles : Doubles D) (s : Subscriber D)
    (pos now : ℕ) where
  pop-stream : pop capacity p.ring pos ≡ read_log capacity log pos
  pop-stream = forget-pop capacity p.ring pos ∙ pop-read_log c o.held pos

  pub received_end :
      length log ≤ pos → try_receive doubles capacity p.ring s pos now ≡ (none, pos, s)
  unfolding try_receive
  received_end h = ground (arith, pop-stream)

  try_receive-pop :
      (slot : Sample) (next : ℕ)
      → pop capacity p.ring pos ≡ (some slot, next)
      → try_receive doubles capacity p.ring s pos now
        ≡ (some slot, next, count_message doubles s pos next slot now)
  unfolding try_receive
  try_receive-pop slot next h = ground (arith, h)

  pub oldest-bounds :
      pos < length log
      → (pos < oldest capacity (length log) pos + 1)
        × (oldest capacity (length log) pos + 1 ≤ length log)
  oldest-bounds h = ground (arith, capacity_pos c)

  pub received_next :
      pos < length log
      → (slot : Sample) × (get_elem? log (oldest capacity (length log) pos) ≡ some slot)
        × (try_receive doubles capacity p.ring s pos now ≡ (
          some slot,
          oldest capacity (length log) pos + 1,
          count_message doubles s pos (oldest capacity (length log) pos + 1) slot now,
        ))
  received_next h = (
    found.0,
    found.1,
    try_receive-pop found.0 (oldest capacity (length log) pos + 1) (pop-stream ∙ read),
  )
    where
      found : (slot : Sample) × (get_elem? log (oldest capacity (length log) pos) ≡ some slot)
      found = get_elem?-some log (oldest capacity (length log) pos) (ground (arith, capacity_pos c))

      read : read_log capacity log pos ≡ (some found.0, oldest capacity (length log) pos + 1)
      read = ground (arith, found.1)

  -- The two counters together move as far as the cursor.
  pub count_message_lem :
      (slot : Sample) (next : ℕ)
      → pos < next
      → next ≤ max_positions
      → s.stats_received < max_positions
      → s.stats_dropped < max_positions
      → let s' = count_message doubles s pos next slot now in
        (s'.stats_received ≡ s.stats_received + 1)
        × (s'.stats_dropped + 1 + pos ≡ s.stats_dropped + next)
  unfolding count_message
  count_message_lem slot next h small received dropped = ground arith

  -- `try_receive` on a publisher's stream, at every cursor. At the end of the stream it returns
  -- nothing and changes nothing. Otherwise it returns a sample of this publisher whose header is
  -- valid and whose length and checksum fit the payload, moves the cursor forward to that sample's
  -- sequence number, and counts it as received and each sample that it skipped as dropped. The
  -- counters start below `max_positions`.
  pub try_receive_lem :
      s.stats_received < max_positions
      → s.stats_dropped < max_positions
      → let r = try_receive doubles capacity p.ring s pos now in
        ((length log ≤ pos) × (r ≡ (none, pos, s))) ⊎ Got capacity p log s pos r
  try_receive_lem received dropped = elim (dec_le (length log) pos) [
    | yes ended ↦ inl (ended, received_end ended)
    | no more ↦
        let (slot, at, got) = received_next (omega arith) in
        let sample = o.each (oldest capacity (length log) pos) slot at in
        let ahead = oldest-bounds (omega arith) in
        let counts =
          count_message_lem slot (oldest capacity (length log) pos + 1) ahead.0
            (omega (arith, ahead.1, o.held.small)) received dropped in
        inr (
          subst (Got capacity p log s pos) (sym got) (record {
            slot = slot;
            out = refl;
            at = at;
            sample = sample;
            cursor = sample.numbered;
            ahead = ahead.0;
            bounded = ahead.1;
            received = counts.0;
            dropped = counts.1;
          }))
  ]

-- ===== src/PubSub/Subscriber.antt =====
-- `Subscriber` of include/lwipc/subscriber.hpp: one call of `try_receive` with its counters, and
-- the loop that a consumer polls in. `ChannelStats` is that of include/lwipc/channel_stats.hpp.
use lw_ipc.Base.{
  ℕ, zero, suc, ◌-◌, ◌&&◌, Option, none, some, List, [], ◌∷◌, ltb, leb, if◌then◌else◌,
}
use lw_ipc.Base.Words.{add64, sub64}
use lw_ipc.Ring.Shm.{ShmRing, pop}
use lw_ipc.PubSub.{Sample, Publisher}

-- The arithmetic of `double`, which the average latency takes.
pub record Doubles (D : Type 0) : Type 0 where
  pub of_u64 : ℕ → D
  pub add : D → D → D
  pub sub : D → D → D
  pub div : D → D → D

-- The counters. The ring is shared, and an argument of the operations.
pub record Subscriber (D : Type 0) : Type 0 where
  pub stats_received : ℕ
  pub stats_dropped : ℕ
  pub avg_latency_us : D

pub record ChannelStats (D : Type 0) : Type 0 where
  pub published : ℕ
  pub received : ℕ
  pub dropped : ℕ
  pub pool_exhaustions : ℕ
  pub avg_latency_us : D

module _ {D : Type 0} (doubles : Doubles D) where
  abbrev pub new_subscriber : Subscriber D
  new_subscriber = record {
    stats_received = 0;
    stats_dropped = 0;
    avg_latency_us = doubles.of_u64 0;
  }

  -- The average after a message with this timestamp.
  unfoldable pub latency : D → ℕ → ℕ → D
  latency prev timestamp_ns now =
      if ltb 0 timestamp_ns && leb timestamp_ns now
      then (let lat_us = doubles.div (doubles.of_u64 (now - timestamp_ns)) (doubles.of_u64 1000) in
          doubles.add prev (doubles.div (doubles.sub lat_us prev) (doubles.of_u64 16)))
      else prev

  -- The counters after a message was copied out: `pre_pos` is the cursor before, `pos` after.
  unfoldable pub count_message : Subscriber D → ℕ → ℕ → Sample → ℕ → Subscriber D
  count_message s pre_pos pos slot now = record {
    stats_received = add64 s.stats_received 1;
    stats_dropped =
        if ltb (add64 pre_pos 1) pos
        then add64 s.stats_dropped (sub64 (sub64 pos pre_pos) 1)
        else s.stats_dropped;
    avg_latency_us = latency s.avg_latency_us slot.header.timestamp_ns now;
  }

  -- `try_receive`: what went through `header` and `payload`, the cursor and the subscriber.
  unfoldable pub try_receive :
      ℕ → ShmRing Sample → Subscriber D → ℕ → ℕ → Option Sample × ℕ × Subscriber D
  try_receive capacity ring s pre_pos now =
      let (out, pos) = pop capacity ring pre_pos in
      elim out [
        | none ↦ (none, pos, s)
        | some slot ↦ (some slot, pos, count_message s pre_pos pos slot now)
      ]

  -- `while (sub.try_receive(cursor, …)) …`, in `fuel` rounds at most, with a clock reading for
  -- each.
  unfoldable pub drain :
      ℕ → ℕ → ShmRing Sample → Subscriber D → ℕ → (ℕ → ℕ) → List Sample × ℕ × Subscriber D
  drain zero capacity ring s pos clock = ([], pos, s)
  drain (suc fuel) capacity ring s pos clock =
      let (out, next, s') = try_receive capacity ring s pos (clock fuel) in
      let (got, last, counted) = drain fuel capacity ring s' next clock in
      elim out [ none ↦ ([], next, s') | some slot ↦ (slot ∷ got, last, counted) ]

  -- `Publisher::stats` and `Subscriber::stats`.
  unfoldable pub publisher_stats : Publisher → ChannelStats D
  publisher_stats p = record {
    published = p.sequence;
    received = 0;
    dropped = 0;
    pool_exhaustions = p.pool_exhaustions;
    avg_latency_us = doubles.of_u64 0;
  }

  unfoldable pub subscriber_stats : Subscriber D → ChannelStats D
  subscriber_stats s = record {
    published = 0;
    received = s.stats_received;
    dropped = s.stats_dropped;
    pool_exhaustions = 0;
    avg_latency_us = s.avg_latency_us;
  }

-- ===== src/PubSub/Spin/Told.antt =====
-- The callback of a spinning `Subscriber` under every interleaving.
use lw_ipc.Base.{ℕ, ◌≡◌, refl, sym, subst, arith, none, some, List, [], ◌∷◌, ◌++◌, length}
use lw_ipc.Ring.{IsCapacity}
use lw_ipc.Ring.Shm.{make_cursor}
use lw_ipc.PubSub.{Sample, Publisher}
use lw_ipc.PubSub.Subscriber.{Doubles, Subscriber}
use lw_ipc.PubSub.Stream.{IsStream, next_sample, publish_at-IsStream}
use lw_ipc.PubSub.Spin.{
  subscriber_channel, Publishes, publishes_at, Worker, absent, started, testing, polling, calling,
  ended, Owner, Shared, Work, begin, go_on, leave, receive, sleep, call_back, Own, start_async,
  start_again, stop_joins, stop_alone, joins, System, works, publishes, Step, serves, owns, Reach,
  here, later,
}
use lw_ipc.PubSub.Spin.Heard.{
  Heard, Heard-le, Listening, Listening-append, receive-Heard, sleep-Heard,
}

-- What is heard is heard by the end of the stream.
Listening-Heard :
    (log calls : List Sample) (w : Worker Sample)
    → Listening log calls w
    → Heard log calls (length log)
Listening-Heard log calls absent h = h
Listening-Heard log calls started h = h
Listening-Heard log calls (testing pos) h = Heard-le log calls pos (length log) h.0 h.1
Listening-Heard log calls (polling pos) h = Heard-le log calls pos (length log) h.0 h.1
Listening-Heard log calls (calling message pos) h =
    Heard-le log calls h.1.0 (length log) (omega (arith, h.0, h.1.2)) h.1.3
Listening-Heard log calls ended h = h

module _ {D : Type 0} (doubles : Doubles D) (capacity : ℕ) (c : IsCapacity capacity) where
  begins_at_end :
      (p : Publisher) (log calls : List Sample) (s : Subscriber D)
      → IsStream capacity p log
      → Heard log calls (length log)
      → Listening log calls (testing ((subscriber_channel doubles capacity).make_cursor (p, s)))
  unfolding make_cursor
  begins_at_end p log calls s o h =
      (omega (arith, o.held.end), subst (Heard log calls) (sym o.held.end) h)

  Work-Listening :
      {x x' : Shared (Publisher × Subscriber D) Sample} {w w' : Worker Sample}
      → Work (subscriber_channel doubles capacity) x w x' w'
      → (log : List Sample) → IsStream capacity x.channel.0 log
      → Listening log x.calls w
      → (x'.channel.0 ≡ x.channel.0) × Listening log x'.calls w'
  Work-Listening {x} begin log o h = (refl, begins_at_end x.channel.0 log x.calls x.channel.1 o h)
  Work-Listening (go_on off) log o h = (refl, h)
  Work-Listening {x} (leave {pos = pos} on) log o h =
      (refl, Heard-le log x.calls pos (length log) h.0 h.1)
  Work-Listening {x} (receive {pos = pos} now next message channel e) log o h =
      let got =
        receive-Heard doubles capacity c x.channel.0 log o x.channel.1 x.calls pos now h
          (some message) next channel e message refl in
      (got.0, (got.1, got.2))
  Work-Listening {x} (sleep {pos = pos} now next channel e) log o h =
      let got =
        sleep-Heard doubles capacity c x.channel.0 log o x.channel.1 x.calls pos now h none next
          channel e refl in
      (got.0, (got.1, got.2))
  Work-Listening call_back log o h = (refl, h)

  Own-Listening :
      {x x' : Shared (Publisher × Subscriber D) Sample} {o o' : Owner} {w w' : Worker Sample}
      → Own x o w x' o' w'
      → (log : List Sample) → Listening log x.calls w
      → (x'.channel.0 ≡ x.channel.0) × Listening log x'.calls w'
  Own-Listening start_async log h = (refl, h)
  Own-Listening (start_again j) log h = (refl, h)
  Own-Listening (stop_joins j) log h = (refl, h)
  Own-Listening stop_alone log h = (refl, h)
  Own-Listening joins log h = (refl, h)

  module _ (gap : List ℕ) where
    -- What holds between the steps.
    record Hears (t : System (Publisher × Subscriber D) Sample) : Type 0 where
      log : List Sample
      stream : IsStream capacity t.shared.channel.0 log
      listening : Listening log t.shared.calls t.worker

    Step-Hears :
        {t u : System (Publisher × Subscriber D) Sample}
        → Step (subscriber_channel doubles capacity) (Publishes capacity gap) t u
        → Hears t
        → Hears u
    Step-Hears (serves (works w)) h =
        let after = Work-Listening w h.log h.stream h.listening in
        record {
          log = h.log;
          stream = subst (λ p. IsStream capacity p h.log) (sym after.0) h.stream;
          listening = after.1;
        }
    Step-Hears {t} (serves (publishes (publishes_at item timestamp now fits room))) h = record {
      log = h.log ++ (next_sample gap t.shared.channel.0 item timestamp (length h.log) ∷ []);
      stream =
          publish_at-IsStream capacity c gap t.shared.channel.0 h.log h.stream item timestamp now
            fits (omega (arith, h.stream.counted));
      listening = Listening-append h.log t.shared.calls _ t.worker h.listening;
    }
    Step-Hears (owns st) h =
        let after = Own-Listening st h.log h.listening in
        record {
          log = h.log;
          stream = subst (λ p. IsStream capacity p h.log) (sym after.0) h.stream;
          listening = after.1;
        }

    -- The callback of `spin` gets samples of the publisher's stream, in the order in which they
    -- were published and none twice, however publishing, the worker, `start_async` and `stop` are
    -- interleaved, and also when the worker is stopped and started again. The subscriber is
    -- attached to a publisher of fewer than `max_positions` samples, whose items are shorter than
    -- 2^32 bytes.
    pub heard_lem :
        {p : Publisher} {s : Subscriber D} {t : System (Publisher × Subscriber D) Sample}
        {log : List Sample}
        → IsStream capacity p log
        → Reach (subscriber_channel doubles capacity) (Publishes capacity gap) (p, s) t
        → (stream : List Sample) × IsStream capacity t.shared.channel.0 stream
          × Heard stream t.shared.calls (length stream)
    heard_lem {p} {s} {log = log} o r =
        let h = Reach-Hears r in (h.log, h.stream, Listening-Heard h.log _ _ h.listening)
      where
        Reach-Hears :
            {u : System (Publisher × Subscriber D) Sample}
            → Reach (subscriber_channel doubles capacity) (Publishes capacity gap) (p, s) u
            → Hears u
        Reach-Hears here = record { log = log; stream = o; listening = tt }
        Reach-Hears (later q st) = Step-Hears st (Reach-Hears q)

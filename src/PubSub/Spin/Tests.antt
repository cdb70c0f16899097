-- ===== src/PubSub/Spin/Tests.antt =====
-- A subscriber that spins on a ring of two slots, and is stopped while its callback runs.
use lw_ipc.Base.{ℕ, ◌+◌, ◌-◌, ◌/◌, ◌≤◌, ◌≡◌, ◌⊎◌, refl, ap, some, List, [], ◌∷◌, length, arith}
use lw_ipc.Message.{imu}
use lw_ipc.Ring.{IsCapacity}
use lw_ipc.Ring.Shm.{make_cursor, open_create}
use lw_ipc.PubSub.{Sample, Publisher, new_publisher, publish_at}
use lw_ipc.PubSub.Subscriber.{Doubles, Subscriber, new_subscriber}
use lw_ipc.PubSub.Stream.{IsStream, next_sample, new_publisher-IsStream, publish_at-IsStream}
use lw_ipc.PubSub.Receive.{received_next}
use lw_ipc.PubSub.Spin.{
  Channel, subscriber_channel, Publishes, publishes_at, Worker, ended, Shared, Work, begin, go_on,
  leave, receive, call_back, start_async, stop_joins, joins, System, works, publishes, serves, owns,
  Reach, here, later,
}
use lw_ipc.PubSub.Spin.Stop.{Run, halted, goes_on, stop_lem}
use lw_ipc.PubSub.Spin.Heard.{Heard}
use lw_ipc.PubSub.Spin.Told.{heard_lem}

abbrev gap : List ℕ
gap = 0 ∷ 0 ∷ 0 ∷ 0 ∷ []

abbrev zeros : List ℕ
zeros = 0 ∷ 0 ∷ 0 ∷ []

two_slots : IsCapacity 2
two_slots = record { log2 = 1; pos = omega arith; power = refl }

-- Averages in whole microseconds, which stand in for `double`.
abbrev whole : Doubles ℕ
whole = record { of_u64 = λ n. n; add = λ a b. a + b; sub = λ a b. a - b; div = λ a b. a / b }

abbrev fresh : Publisher
fresh = new_publisher 2 gap zeros zeros (47 ∷ 97 ∷ []) imu 7

fresh-IsStream : IsStream 2 fresh []
fresh-IsStream = new_publisher-IsStream 2 gap zeros zeros (47 ∷ 97 ∷ []) imu 7

abbrev once : Publisher
once = publish_at 2 gap fresh (1 ∷ 2 ∷ 3 ∷ []) 100 101

abbrev log1 : List Sample
log1 = next_sample gap fresh (1 ∷ 2 ∷ 3 ∷ []) 100 0 ∷ []

once-IsStream : IsStream 2 once log1
once-IsStream =
    publish_at-IsStream 2 two_slots gap fresh [] fresh-IsStream (1 ∷ 2 ∷ 3 ∷ []) 100 101
      (omega arith) (omega arith)

abbrev channel : Channel (Publisher × Subscriber ℕ) Sample
channel = subscriber_channel whole 2

abbrev RunOf : System (Publisher × Subscriber ℕ) Sample → Type 0
RunOf t = Reach channel (Publishes 2 gap) (fresh, new_subscriber whole) t

-- The worker starts, an item is published, and the worker goes on to `try_receive`.
abbrev begun : (t : System (Publisher × Subscriber ℕ) Sample) × RunOf t
unfolding make_cursor new_publisher
begun = (
  _,
  later
      (later (later (later here (owns start_async)) (serves (works begin))) (
        serves (
          publishes (
            publishes_at (1 ∷ 2 ∷ 3 ∷ []) 100 101 (omega arith)
              (omega (arith, fresh-IsStream.counted))))))
      (serves (works (go_on refl))),
)

-- `try_receive` returns the sample.
receives :
    (slot : Sample) × (next : ℕ) × (x : Publisher × Subscriber ℕ) × (channel.try_receive
        (once, new_subscriber whole)
        0
        102
      ≡ (some slot, next, x))
receives =
    let (slot, at, got) =
      received_next 2 two_slots once log1 once-IsStream whole (new_subscriber whole) 0 102
        (omega arith) in
    (slot, _, _, ap (λ r. (r.0, r.1, (once, r.2))) got)

-- The callback runs when `stop` is called.
abbrev stopping : (t : System (Publisher × Subscriber ℕ) Sample) × RunOf t
unfolding make_cursor new_publisher open_create
stopping = (
  _,
  later
      (later begun.1
        (serves (works (receive {pos = 0} 102 receives.1 receives.0 receives.2 receives.3))))
      (owns (stop_joins refl)),
)

-- The worker leaves the loop.
abbrev left_loop :
    (t : System (Publisher × Subscriber ℕ) Sample) × Run channel (Publishes 2 gap) stopping.0 2 t
unfolding make_cursor new_publisher open_create
left_loop = (_, goes_on (goes_on halted (works call_back)) (works (leave refl)))

abbrev joined : (t : System (Publisher × Subscriber ℕ) Sample) × RunOf t
unfolding make_cursor new_publisher open_create
joined = (
  _,
  later (later (later stopping.1 (serves (works call_back))) (serves (works (leave refl))))
      (owns joins),
)

stop_lem_example :
    (2 ≤ 3)
    × ((left_loop.0.worker ≡ ended)
        ⊎ ((x : Shared (Publisher × Subscriber ℕ) Sample) × (w : Worker Sample) × Work channel
              left_loop.0.shared left_loop.0.worker x w))
unfolding stopping left_loop make_cursor new_publisher open_create
stop_lem_example = stop_lem stopping.1 refl left_loop.1

heard_lem_example :
    (stream : List Sample) × IsStream 2 joined.0.shared.channel.0 stream
    × Heard stream (receives.0 ∷ []) (length stream)
unfolding make_cursor new_publisher open_create
heard_lem_example = heard_lem whole 2 two_slots gap fresh-IsStream joined.1

-- ===== src/PubSub/Tests.antt =====
-- A publisher of three-byte items on a ring of two slots, its subscriber, and the theorems at them.
use lw_ipc.Base.{ℕ, ◌+◌, ◌≤◌, ◌-◌, ◌/◌, ◌≡◌, refl, none, some, ◌⊎◌, List, [], ◌∷◌, ◌++◌, arith}
use lw_ipc.Message.{imu}
use lw_ipc.Ring.{IsCapacity, writing_seq, store_sequence}
use lw_ipc.Ring.Shm.{ShmRing, open_create, push, pop, pop_slot}
use lw_ipc.Ring.Log.{max_positions}
use lw_ipc.Pool.{acquire}
use lw_ipc.Pool.Owns.{Owns, new_pool-Owns, acquire-cons}
use lw_ipc.PubSub.{Sample, Publisher, new_publisher, publish_at, loan}
use lw_ipc.PubSub.Subscriber.{Doubles, new_subscriber, count_message, latency, try_receive, drain}
use lw_ipc.PubSub.Stream.{
  IsStream, Published, next_sample, new_publisher-IsStream, publish_at-IsStream, publish_at_lem,
}
use lw_ipc.PubSub.Receive.{Got, try_receive_lem}
use lw_ipc.PubSub.Counts.{Poll, Balance, poll_all, poll_all-Balance}
use lw_ipc.PubSub.Drain.{Drained, drain_lem}
use lw_ipc.PubSub.Loans.{Round, loan-publish_loan}
use lw_ipc.PubSub.Intra
use lw_ipc.PubSub.Intra.{
  IntraPublisher, make_intra_pubsub, publish_all, intra_cursor, publish_all-try_receive,
  publish_loan-publish,
}

abbrev gap : List ℕ
gap = 0 ∷ 0 ∷ 0 ∷ 0 ∷ []

abbrev zeros : List ℕ
zeros = 0 ∷ 0 ∷ 0 ∷ []

two_slots : IsCapacity 2
two_slots = record { log2 = 1; pos = omega arith; power = refl }

-- Averages in whole microseconds, which stand in for `double`.
abbrev whole : Doubles ℕ
whole = record { of_u64 = λ n. n; add = λ a b. a + b; sub = λ a b. a - b; div = λ a b. a / b }

abbrev fresh : Publisher
fresh = new_publisher 2 gap zeros zeros (47 ∷ 97 ∷ []) imu 7

fresh-IsStream : IsStream 2 fresh []
fresh-IsStream = new_publisher-IsStream 2 gap zeros zeros (47 ∷ 97 ∷ []) imu 7

-- One, two and three items published.
abbrev once : Publisher
once = publish_at 2 gap fresh (1 ∷ 2 ∷ 3 ∷ []) 100 101

abbrev twice : Publisher
twice = publish_at 2 gap once (4 ∷ 5 ∷ 6 ∷ []) 200 201

abbrev thrice : Publisher
thrice = publish_at 2 gap twice (7 ∷ 8 ∷ 9 ∷ []) 300 301

abbrev log1 : List Sample
log1 = next_sample gap fresh (1 ∷ 2 ∷ 3 ∷ []) 100 0 ∷ []

abbrev log2 : List Sample
log2 = log1 ++ (next_sample gap once (4 ∷ 5 ∷ 6 ∷ []) 200 1 ∷ [])

abbrev log3 : List Sample
log3 = log2 ++ (next_sample gap twice (7 ∷ 8 ∷ 9 ∷ []) 300 2 ∷ [])

once-IsStream : IsStream 2 once log1
once-IsStream =
    publish_at-IsStream 2 two_slots gap fresh [] fresh-IsStream (1 ∷ 2 ∷ 3 ∷ []) 100 101
      (omega arith) (omega arith)

twice-IsStream : IsStream 2 twice log2
twice-IsStream =
    publish_at-IsStream 2 two_slots gap once log1 once-IsStream (4 ∷ 5 ∷ 6 ∷ []) 200 201
      (omega arith) (omega arith)

thrice-IsStream : IsStream 2 thrice log3
thrice-IsStream =
    publish_at-IsStream 2 two_slots gap twice log2 twice-IsStream (7 ∷ 8 ∷ 9 ∷ []) 300 301
      (omega arith) (omega arith)

publish_at_lem_example :
    (s : Sample) × Published twice (7 ∷ 8 ∷ 9 ∷ []) 300 2 s
    × IsStream 2 (publish_at 2 gap twice (7 ∷ 8 ∷ 9 ∷ []) 300 301) (log2 ++ (s ∷ []))
    × ((publish_at 2 gap twice (7 ∷ 8 ∷ 9 ∷ []) 300 301).sequence ≡ 2 + 1)
publish_at_lem_example =
    publish_at_lem 2 two_slots gap twice log2 twice-IsStream (7 ∷ 8 ∷ 9 ∷ []) 300 301 (omega arith)
      (omega arith)

-- A subscriber that starts at position 0 missed the first of the three.
try_receive_lem_example :
    ((3 ≤ 0)
      × (try_receive whole 2 thrice.ring (new_subscriber whole) 0 400
          ≡ (none, 0, new_subscriber whole)))
    ⊎ Got 2 thrice log3
        (new_subscriber whole)
        0
        (try_receive whole 2 thrice.ring (new_subscriber whole) 0 400)
try_receive_lem_example =
    try_receive_lem 2 two_slots thrice log3 thrice-IsStream whole (new_subscriber whole) 0 400
      (omega arith) (omega arith)

drain_lem_example :
    Drained 2 log3
      (new_subscriber whole)
      0
      (drain whole 4 2 thrice.ring (new_subscriber whole) 0 (λ i. 400))
drain_lem_example =
    drain_lem 2 two_slots thrice log3 thrice-IsStream whole (λ i. 400) 4 (new_subscriber whole) 0
      (omega arith) (omega arith) (omega arith) (omega arith)

-- The first call loads the position of the three items and finds that the slot it then looks at is
-- being written again; the second call is left alone.
abbrev torn : ShmRing Sample
torn = record (thrice.ring) { slots = store_sequence (thrice.ring.slots) 1 (writing_seq 3) }

abbrev polls : List Poll
polls = record { ring = torn; now = 400 } ∷ record { ring = thrice.ring; now = 500 } ∷ []

one_skipped : (poll_all whole 2 polls (new_subscriber whole) 0).2 ≡ 1
unfolding poll_all try_receive pop pop_slot publish_at new_publisher push open_create count_message
    latency
one_skipped = refl

thrice_small : thrice.ring.write_pos ≤ max_positions
thrice_small = omega (arith, thrice-IsStream.held.end)

poll_all-Balance_example :
    Balance (new_subscriber whole) 0 (poll_all whole 2 polls (new_subscriber whole) 0)
poll_all-Balance_example =
    poll_all-Balance whole 2 two_slots polls (new_subscriber whole) 0
      (thrice_small, (thrice_small, tt)) (omega arith) (omega arith)

once-Owns : Owns 2 once.pool (0 ∷ 1 ∷ []) []
unfolding publish_at new_publisher
once-Owns = new_pool-Owns 2 zeros (omega arith) (omega arith)

loan-publish_loan_example :
    Round 2 two_slots gap log1 200 201
      (omega arith)
      once
      (4 ∷ 5 ∷ 6 ∷ [])
      (0 ∷ 1 ∷ [])
      []
      (loan once)
loan-publish_loan_example =
    loan-publish_loan 2 two_slots gap log1 200 201 (omega arith) once (0 ∷ 1 ∷ []) (4 ∷ 5 ∷ 6 ∷ [])
      once-IsStream once-Owns (omega arith)

abbrev pair : IntraPublisher ℕ
pair = make_intra_pubsub 2 0 0 imu 7

publish_all-try_receive_example :
    ((publish_all 2 pair (5 ∷ 6 ∷ 7 ∷ [])).sequence ≡ 3)
    × (intra_cursor (publish_all 2 pair (5 ∷ 6 ∷ 7 ∷ [])).ring ≡ 3)
    × (Intra.try_receive 2 (publish_all 2 pair (5 ∷ 6 ∷ 7 ∷ [])).ring 0 ≡ (some 6, 2))
publish_all-try_receive_example =
    publish_all-try_receive 2 two_slots 0 0 imu 7 (5 ∷ 6 ∷ 7 ∷ []) 0 (omega arith)

-- A publisher whose slot 0 is on loan.
abbrev lent : IntraPublisher ℕ
lent = record pair { pool = (acquire pair.pool).1 }

lent-Owns : Owns 2 lent.pool (1 ∷ []) (0 ∷ [])
unfolding make_intra_pubsub
lent-Owns = (acquire-cons 0 (1 ∷ []) (new_pool-Owns 2 0 (omega arith) (omega arith))).1

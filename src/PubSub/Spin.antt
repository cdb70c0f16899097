-- ===== src/PubSub/Spin.antt =====
-- `spin`, `start_async` and `stop` of `Subscriber` and of `IntraSubscriber` in
-- include/lwipc/subscriber.hpp. The owner's thread, the worker's and whoever changes the channel
-- are interleaved in any order; a load or store of `stop_flag_` and a call of `try_receive` are
-- one step each.
pub mod Stop
pub mod Heard
pub mod Told
mod Tests
use lw_ipc.Base.{ℕ, ◌^◌, ◌<◌, ◌≡◌, Bool, true, false, Option, none, some, List, [], ◌∷◌, length}
use lw_ipc.Ring.Shm
use lw_ipc.Ring.Intra.{IntraRing}
use lw_ipc.Ring.Log.{max_positions}
use lw_ipc.PubSub.{Sample, Publisher, publish_at}
use lw_ipc.PubSub.Subscriber.{Doubles, Subscriber, try_receive}
use lw_ipc.PubSub.Intra

-- `make_cursor` and `try_receive`, the latter with its reading of the clock.
pub record Channel (S M : Type 0) : Type 0 where
  pub make_cursor : S → ℕ
  pub try_receive : S → ℕ → ℕ → Option M × ℕ × S

-- The channel of `Subscriber`: the publisher with its ring, and the subscriber's counters.
abbrev pub subscriber_channel :
    {D : Type 0} → Doubles D → ℕ → Channel (Publisher × Subscriber D) Sample
subscriber_channel doubles capacity = record {
  make_cursor = λ x. Shm.make_cursor x.0.ring;
  try_receive = λ x pos now.
      let (out, next, s) = try_receive doubles capacity x.0.ring x.1 pos now in
      (out, next, (x.0, s));
}

-- The publisher goes on while the subscriber spins.
pub data Publishes {D : Type 0} (capacity : ℕ) (gap : List ℕ) (x : Publisher × Subscriber D)
    : Publisher × Subscriber D → Type 0 where
  publishes_at :
      (item : List ℕ) (timestamp now : ℕ)
      → length item < 2 ^ 32
      → x.0.sequence < max_positions
      → Publishes capacity gap x (publish_at capacity gap x.0 item timestamp now, x.1)

-- The channel of `IntraSubscriber`.
abbrev pub intra_channel : {A : Type 0} → ℕ → Channel (IntraRing A) A
intra_channel capacity = record {
  make_cursor = Intra.intra_cursor;
  try_receive =
      λ ring pos now. let (out, next) = Intra.try_receive capacity ring pos in (out, next, ring);
}

-- `worker_`: no thread, or one that was started, is at the loop's test, before `try_receive`, in
-- the callback, or has returned from `spin`.
pub data Worker (M : Type 0) : Type 0 where
  absent : Worker M
  started : Worker M
  testing : (pos : ℕ) → Worker M
  polling : (pos : ℕ) → Worker M
  calling : (message : M) (pos : ℕ) → Worker M
  ended : Worker M

abbrev pub joinable : {M : Type 0} → Worker M → Bool
joinable absent = false
joinable _ = true

-- The thread that calls `start_async` and `stop`: in neither, in the `join` of `stop`, or ended by
-- `std::terminate`.
pub data Owner : Type 0 where
  between : Owner
  joining : Owner
  terminated : Owner

-- What the threads share, and the messages that the callback got, the last first.
pub record Shared (S M : Type 0) : Type 0 where
  pub channel : S
  pub stop_flag : Bool
  pub calls : List M

module _ {S M : Type 0} (c : Channel S M) where
  -- A step of `spin`.
  pub data Work (x : Shared S M) : Worker M → Shared S M → Worker M → Type 0 where
    begin : Work x started x (testing (c.make_cursor x.channel))
    go_on : {pos : ℕ} → x.stop_flag ≡ false → Work x (testing pos) x (polling pos)
    leave : {pos : ℕ} → x.stop_flag ≡ true → Work x (testing pos) x ended
    receive :
        {pos : ℕ} (now next : ℕ) (message : M) (channel : S)
        → c.try_receive x.channel pos now ≡ (some message, next, channel)
        → Work x (polling pos) (record x { channel = channel }) (calling message next)
    sleep :
        {pos : ℕ} (now next : ℕ) (channel : S)
        → c.try_receive x.channel pos now ≡ (none, next, channel)
        → Work x (polling pos) (record x { channel = channel }) (testing next)
    call_back :
        {message : M} {pos : ℕ}
        → Work x (calling message pos) (record x { calls = message ∷ x.calls }) (testing pos)

-- A step of the owner. A thread that is assigned to a joinable one terminates the program.
pub data Own {S M : Type 0} (x : Shared S M)
    : Owner → Worker M → Shared S M → Owner → Worker M → Type 0 where
  start_async : Own x between absent (record x { stop_flag = false }) between started
  start_again :
      {w : Worker M}
      → joinable w ≡ true
      → Own x between w (record x { stop_flag = false }) terminated w
  stop_joins :
      {w : Worker M} → joinable w ≡ true → Own x between w (record x { stop_flag = true }) joining w
  stop_alone : Own x between absent (record x { stop_flag = true }) between absent
  joins : Own x joining ended x between absent

pub record System (S M : Type 0) : Type 0 where
  pub shared : Shared S M
  pub owner : Owner
  pub worker : Worker M

-- `Publish` is what others do to the channel.
module _ {S M : Type 0} (c : Channel S M) (Publish : S → S → Type 0) where
  -- A step of the worker or of others.
  pub data Serve (s : System S M) : ℕ → System S M → Type 0 where
    works :
        {x : Shared S M} {w : Worker M}
        → Work c s.shared s.worker x w
        → Serve s 1 (record s { shared = x; worker = w })
    publishes :
        {channel : S}
        → Publish s.shared.channel channel
        → Serve s 0 (record s { shared = record s.shared { channel = channel } })

  pub data Step (s : System S M) : System S M → Type 0 where
    serves : {n : ℕ} {t : System S M} → Serve s n t → Step s t
    owns :
        {x : Shared S M} {o : Owner} {w : Worker M}
        → Own s.shared s.owner s.worker x o w
        → Step s (record { shared = x; owner = o; worker = w })

  abbrev pub start : S → System S M
  start channel = record {
    shared = record { channel = channel; stop_flag = false; calls = [] };
    owner = between;
    worker = absent;
  }

  pub data Reach (channel : S) : System S M → Type 0 where
    here : Reach channel (start channel)
    later : {s t : System S M} → Reach channel s → Step s t → Reach channel t

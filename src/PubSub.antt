-- ===== src/PubSub.antt =====
-- `Publisher` of include/lwipc/publisher.hpp, with its ring and its pool. The payload is the
-- object's bytes, `sizeof(T)` of them; `gap` is what the four bytes of padding in a new header
-- hold.
pub mod Subscriber
pub mod Stream
pub mod Receive
pub mod Drain
pub mod Counts
pub mod Loans
pub mod Intra
pub mod Spin
pub mod Attach
mod Tests
use lw_ipc.Base.{ℕ, Option, none, some, List, length}
use lw_ipc.Base.Words.{add64, u32}
use lw_ipc.Crc.{crc32_update}
use lw_ipc.Message.{MsgType, msg_type_value, IpcHeader, new_header}
use lw_ipc.Ring.{update}
use lw_ipc.Ring.Shm.{ShmRing, open_create, push}
use lw_ipc.Pool.{Pool, new_pool, acquire, available}
use lw_ipc.Pool.Loan.{LoanedSample, empty_loan, loan_of, do_release}

-- `Publisher::Slot`
pub record Sample : Type 0 where
  pub header : IpcHeader
  pub payload : List ℕ

-- The name's characters, and the members. Whether the constructor can create the segment is left to
-- the system.
pub record Publisher : Type 0 where
  pub channel_name : List ℕ
  pub msg_type : MsgType
  pub sensor_id : ℕ
  pub sequence : ℕ
  pub ring : ShmRing Sample
  pub pool : Pool (List ℕ)
  pub pool_exhaustions : ℕ

-- The constructor, with the bytes of `T{}` and of `T` zeroed.
unfoldable pub new_publisher : ℕ → List ℕ → List ℕ → List ℕ → List ℕ → MsgType → ℕ → Publisher
new_publisher capacity gap blank zeroed channel_name msg_type sensor_id = record {
  channel_name = channel_name;
  msg_type = msg_type;
  sensor_id = sensor_id;
  sequence = 0;
  ring = open_create (record { header = new_header gap; payload = blank });
  pool = new_pool capacity zeroed;
  pool_exhaustions = 0;
}

-- The slot that `publish` fills, from the bytes of the item; `sequence` is incremented by then.
unfoldable pub sample_of : List ℕ → MsgType → ℕ → List ℕ → ℕ → ℕ → Sample
sample_of gap msg_type sensor_id item timestamp_ns sequence = record {
  header = record (new_header gap) {
    msg_type = msg_type_value msg_type;
    sensor_id = sensor_id;
    timestamp_ns = timestamp_ns;
    sequence = sequence;
    data_length = u32 (length item);
    checksum = crc32_update 0 item;
  };
  payload = item;
}

-- `publish(item, timestamp_ns)`. `now` is the clock reading of the ring's heartbeat.
unfoldable pub publish_at : ℕ → List ℕ → Publisher → List ℕ → ℕ → ℕ → Publisher
publish_at capacity gap p item timestamp_ns now =
    let sequence = add64 p.sequence 1 in
    let s = sample_of gap p.msg_type p.sensor_id item timestamp_ns sequence in
    record p { sequence = sequence; ring = (push capacity p.ring s now).1 }

-- `publish(item)`, which reads the clock for the timestamp, and again for the heartbeat.
unfoldable pub publish : ℕ → List ℕ → Publisher → List ℕ → ℕ → ℕ → Publisher
publish capacity gap p item now_ns now =
    let sequence = add64 p.sequence 1 in
    let s = sample_of gap p.msg_type p.sensor_id item now_ns sequence in
    record p { sequence = sequence; ring = (push capacity p.ring s now).1 }

-- The guard around what the pool gave, and the count of the times that it gave nothing.
unfoldable pub loan : Publisher → LoanedSample × Publisher
loan p = elim (acquire p.pool).0 [
  | none ↦ (
    empty_loan,
    record p { pool = (acquire p.pool).1; pool_exhaustions = add64 p.pool_exhaustions 1 },
  )
  | some i ↦ (loan_of i, record p { pool = (acquire p.pool).1 })
]

-- What the caller does in between: it writes the object through `operator*`.
unfoldable pub fill : LoanedSample → List ℕ → Publisher → Publisher
fill l item p = elim l.ptr [
  | none ↦ p
  | some i ↦ record p { pool = record p.pool { storage = update p.pool.storage i item } }
]

-- `publish(std::move(loan))`: the loan afterwards, and the publisher.
unfoldable pub publish_loan :
    ℕ → List ℕ → LoanedSample → Publisher → ℕ → ℕ → LoanedSample × Publisher
publish_loan capacity gap l p now_ns now = elim l.ptr [
  | none ↦ (l, p)
  | some i ↦
      let sent = publish capacity gap p (p.pool.storage i) now_ns now in
      let (spent, pool) = do_release l sent.pool in (spent, record sent { pool = pool })
]

unfoldable pub pool_available : ℕ → Publisher → ℕ
pool_available capacity p = available capacity p.pool

-- ===== src/Registry/Concurrent.antt =====
-- `ChannelRegistry` of include/lwipc/channel_registry.hpp with several processes: the spinlock,
-- the calls that it guards, and `touch` and `contains`, which run without it. Each look at an
-- entry and each assignment is one step (so is the copy of a name with its terminator), and the
-- steps of all callers are interleaved in any order (sequential consistency). The clearing of an
-- entry is one assignment.
pub mod Entries
pub mod Calls
pub mod Invariant
pub mod Filling
pub mod Effects
pub mod Runs
pub mod Linear
pub mod Reading
pub mod Able
pub mod Progress
mod Tests
use lw_ipc.Base.{
  ℕ, zero, suc, ◌+◌, ◌≤◌, ◌<◌, ◌≡◌, Bool, true, false, List, [], ◌∷◌, ◌++◌, ◌==◌, if◌then◌else◌,
}
use lw_ipc.Message.{MsgType, msg_type_value}
use lw_ipc.Ring.{update}
use lw_ipc.Registry.{
  ChannelEntry, ChannelRegistry, blank_entry, active, matches, strncpy, beat, register_channel,
  unregister_channel, k_max_channels,
}

-- The arguments of `register_channel`, with `getpid()`.
pub record Args : Type 0 where
  pub name : List ℕ
  pub msg_type : MsgType
  pub sensor_id : ℕ
  pub pid : ℕ

-- The calls under the lock.
pub data Op : Type 0 where
  registering : (a : Args) → Op
  unregistering : (name : List ℕ) → Op

abbrev pub name_of : Op → List ℕ
name_of (registering a) = a.name
name_of (unregistering name) = name

-- The `k`-th of the assignments that fill an entry, when the clock shows `now`.
abbrev pub stored : Args → ℕ → ℕ → ChannelEntry → ChannelEntry
stored a now zero e = record e { name = strncpy 63 a.name ++ (0 ∷ []) }
stored a now (suc zero) e = record e { msg_type = msg_type_value a.msg_type }
stored a now (suc (suc zero)) e = record e { sensor_id = a.sensor_id }
stored a now (suc (suc (suc zero))) e = record e { producer_pid = a.pid }
stored a now (suc (suc (suc (suc zero)))) e = record e { created_ns = now }
stored a now (suc (suc (suc (suc (suc k))))) e = record e { heartbeat_ns = e.created_ns }

-- Where a caller stands. `spinning` is the loop of `SpinLockGuard`, `scanning` the search for the
-- name, `seeking` that for a free entry; `leaving` is before the lock is released, with what is
-- returned and the time that was read. `touching` and `touched` are within `touch`, `reading` and
-- `answered` within `contains`.
pub data Caller : Type 0 where
  idle : Caller
  spinning : (op : Op) → Caller
  scanning : (op : Op) (i : ℕ) → Caller
  beating : (a : Args) (i : ℕ) → Caller
  seeking : (a : Args) (i : ℕ) → Caller
  filling : (a : Args) (i k now : ℕ) → Caller
  clearing : (name : List ℕ) (i : ℕ) → Caller
  leaving : (op : Op) (result : Bool) (now : ℕ) → Caller
  touching : (name : List ℕ) (i : ℕ) → Caller
  touched : (i : ℕ) → Caller
  reading : (name : List ℕ) (i : ℕ) → Caller
  answered : (result : Bool) → Caller

-- The segment, and the calls that are over with what they returned, the last first, which is no
-- part of the program.
pub record Memory : Type 0 where
  pub lock : ℕ
  pub table : ℕ → ChannelEntry
  pub calls : List (Op × Bool × ℕ)

-- An entry is assigned to.
abbrev pub set_entry : Memory → ℕ → ChannelEntry → Memory
set_entry m i e = record m { table = update m.table i e }

-- A step of a caller.
pub data Move (m : Memory) : Caller → Memory → Caller → Type 0 where
  call : (op : Op) → Move m idle m (spinning op)
  acquire : {op : Op} → m.lock ≡ 0 → Move m (spinning op) (record m { lock = 1 }) (scanning op 0)
  spin : {op : Op} → Move m (spinning op) m (spinning op)
  next :
      {op : Op} {i : ℕ}
      → i < k_max_channels
      → matches (name_of op) (m.table i) ≡ false
      → Move m (scanning op i) m (scanning op (suc i))
  known :
      {a : Args} {i : ℕ}
      → i < k_max_channels
      → matches a.name (m.table i) ≡ true
      → Move m (scanning (registering a) i) m (beating a i)
  beats :
      {a : Args} {i : ℕ} (now : ℕ)
      → Move m
          (beating a i)
          (set_entry m i (beat now (m.table i)))
          (leaving (registering a) true now)
  unknown : {a : Args} → Move m (scanning (registering a) k_max_channels) m (seeking a 0)
  used :
      {a : Args} {i : ℕ}
      → i < k_max_channels
      → active (m.table i) ≡ true
      → Move m (seeking a i) m (seeking a (suc i))
  free :
      {a : Args} {i : ℕ}
      → i < k_max_channels
      → active (m.table i) ≡ false
      → Move m (seeking a i) m (filling a i 0 0)
  fill :
      {a : Args} {i k now : ℕ} (t : ℕ)
      → k < 6
      → Move m
          (filling a i k now)
          (set_entry m i (stored a t k (m.table i)))
          (filling a i (suc k) (if k == 4 then t else now))
  filled_all :
      {a : Args} {i now : ℕ} → Move m (filling a i 6 now) m (leaving (registering a) true now)
  full : {a : Args} → Move m (seeking a k_max_channels) m (leaving (registering a) false 0)
  found :
      {name : List ℕ} {i : ℕ}
      → i < k_max_channels
      → matches name (m.table i) ≡ true
      → Move m (scanning (unregistering name) i) m (clearing name i)
  clear :
      {name : List ℕ} {i : ℕ}
      → Move m (clearing name i) (set_entry m i blank_entry) (leaving (unregistering name) true 0)
  missing :
      {name : List ℕ}
      → Move m
          (scanning (unregistering name) k_max_channels)
          m
          (leaving (unregistering name) true 0)
  leave :
      {op : Op} {result : Bool} {now : ℕ}
      → Move m
          (leaving op result now)
          (record m { lock = 0; calls = (op, result, now) ∷ m.calls })
          idle
  touch_call : (name : List ℕ) → Move m idle m (touching name 0)
  touch_next :
      {name : List ℕ} {i : ℕ}
      → i < k_max_channels
      → matches name (m.table i) ≡ false
      → Move m (touching name i) m (touching name (suc i))
  touch_found :
      {name : List ℕ} {i : ℕ}
      → i < k_max_channels
      → matches name (m.table i) ≡ true
      → Move m (touching name i) m (touched i)
  touch_beats : {i : ℕ} (now : ℕ) → Move m (touched i) (set_entry m i (beat now (m.table i))) idle
  touch_missing : {name : List ℕ} → Move m (touching name k_max_channels) m idle
  contains_call : (name : List ℕ) → Move m idle m (reading name 0)
  contains_next :
      {name : List ℕ} {i : ℕ}
      → i < k_max_channels
      → matches name (m.table i) ≡ false
      → Move m (reading name i) m (reading name (suc i))
  contains_found :
      {name : List ℕ} {i : ℕ}
      → i < k_max_channels
      → matches name (m.table i) ≡ true
      → Move m (reading name i) m (answered true)
  contains_missing : {name : List ℕ} → Move m (reading name k_max_channels) m (answered false)
  answer : {result : Bool} → Move m (answered result) m idle

pub record System : Type 0 where
  pub mem : Memory
  pub callers : ℕ → Caller

pub data Step (s : System) : System → Type 0 where
  moves :
      (a : ℕ) {m : Memory} {c : Caller}
      → Move s.mem (s.callers a) m c
      → Step s (record s { mem = m; callers = update s.callers a c })

-- A new segment is zeroed.
abbrev pub start : System
start = record {
  mem = record { lock = 0; table = λ i. blank_entry; calls = [] };
  callers = λ a. idle;
}

pub data Reach : System → Type 0 where
  here : Reach start
  later : {s t : System} → Reach s → Step s t → Reach t

-- The calls one after another, without interference.
abbrev pub apply : Op → ℕ → ChannelRegistry → Bool × ChannelRegistry
apply (registering a) now r = register_channel a.name a.msg_type a.sensor_id a.pid now r
apply (unregistering name) now r = (true, unregister_channel name r)

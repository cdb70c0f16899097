-- ===== src/Registry.antt =====
-- `ChannelRegistry` of include/lwipc/channel_registry.hpp: a shared table of channels. The calls
-- that the spinlock guards run one after another. A `char` is a number below 256, and a
-- `std::string` the list of its characters; `strncpy` and `strncmp` are the C library's.
pub mod Names
pub mod Table
pub mod Distinct
pub mod Segment
pub mod Concurrent
mod Tests
use lw_ipc.Base.{
  ℕ, zero, suc, Bool, true, false, ◌&&◌, not, Option, none, some, List, [], ◌∷◌, ◌++◌, map, ◌==◌,
  if◌then◌else◌, replicate, get_or,
}
use lw_ipc.Message.{MsgType, msg_type_value, unknown}

-- `ChannelEntry`, without its padding.
pub record ChannelEntry : Type 0 where
  pub name : List ℕ
  pub msg_type : ℕ
  pub sensor_id : ℕ
  pub producer_pid : ℕ
  pub created_ns : ℕ
  pub heartbeat_ns : ℕ

-- `ChannelEntry{}`
abbrev pub blank_entry : ChannelEntry
blank_entry = record {
  name = replicate 64 0;
  msg_type = msg_type_value unknown;
  sensor_id = 0;
  producer_pid = 0;
  created_ns = 0;
  heartbeat_ns = 0;
}

unfoldable pub active : ChannelEntry → Bool
active e = not (get_or e.name 0 0 == 0)

-- The characters that `strncpy(dst, src, n)` stores: those of `src` up to its end, then zeros.
unfoldable pub strncpy : ℕ → List ℕ → List ℕ
strncpy zero src = []
strncpy (suc n) [] = replicate (suc n) 0
strncpy (suc n) (zero ∷ src) = replicate (suc n) 0
strncpy (suc n) (suc c ∷ src) = suc c ∷ strncpy n src

-- `strncmp(a, b, n) == 0`; the end of a list is the terminating zero.
unfoldable pub strncmp_equal : ℕ → List ℕ → List ℕ → Bool
strncmp_equal zero a b = true
strncmp_equal (suc n) [] [] = true
strncmp_equal (suc n) [] (y ∷ b) = y == 0
strncmp_equal (suc n) (x ∷ a) [] = x == 0
strncmp_equal (suc n) (x ∷ a) (y ∷ b) =
    let rest = strncmp_equal n a b in if x == y then (if x == 0 then true else rest) else false

-- The test in the loops of `register_channel`, `unregister_channel`, `touch` and `contains`.
unfoldable pub matches : List ℕ → ChannelEntry → Bool
matches channel_name e = active e && strncmp_equal 63 e.name channel_name

-- A loop over the table that changes the first entry that passes a test, and stops there: whether
-- there was one, and the table.
unfoldable pub change_first :
    (ChannelEntry → Bool)
    → (ChannelEntry → ChannelEntry)
    → List ChannelEntry
    → Bool × List ChannelEntry
change_first test change [] = (false, [])
change_first test change (e ∷ entries) =
    let (found, changed) = change_first test change entries in
    if test e then (true, change e ∷ entries) else (found, e ∷ changed)

-- Whether the segment could be mapped, and the table.
pub record ChannelRegistry : Type 0 where
  pub header : Bool
  pub table : List ChannelEntry

abbrev pub k_max_channels : ℕ
k_max_channels = 64

-- A new segment is zeroed.
abbrev pub new_registry : ChannelRegistry
new_registry = record { header = true; table = replicate k_max_channels blank_entry }

-- An entry with what `register_channel` writes.
abbrev pub filled : List ℕ → MsgType → ℕ → ℕ → ℕ → ChannelEntry
filled channel_name msg_type sensor_id pid now = record {
  name = strncpy 63 channel_name ++ (0 ∷ []);
  msg_type = msg_type_value msg_type;
  sensor_id = sensor_id;
  producer_pid = pid;
  created_ns = now;
  heartbeat_ns = now;
}

abbrev pub beat : ℕ → ChannelEntry → ChannelEntry
beat now e = record e { heartbeat_ns = now }

-- `register_channel`, with `getpid()` and the clock.
unfoldable pub register_channel :
    List ℕ → MsgType → ℕ → ℕ → ℕ → ChannelRegistry → Bool × ChannelRegistry
register_channel channel_name msg_type sensor_id pid now r =
    let (known, beaten) = change_first (matches channel_name) (beat now) r.table in
    let (free, added) =
      change_first (λ e. not (active e)) (λ e. filled channel_name msg_type sensor_id pid now)
        r.table in
    if r.header
    then (if known
        then (true, record r { table = beaten })
        else if free
        then (true, record r { table = added })
        else (false, r))
    else (false, r)

unfoldable pub unregister_channel : List ℕ → ChannelRegistry → ChannelRegistry
unregister_channel channel_name r =
    let (found, cleared) = change_first (matches channel_name) (λ e. blank_entry) r.table in
    if r.header then record r { table = cleared } else r

unfoldable pub touch : List ℕ → ℕ → ChannelRegistry → ChannelRegistry
touch channel_name now r =
    let (found, beaten) = change_first (matches channel_name) (beat now) r.table in
    if r.header then record r { table = beaten } else r

-- The entries that pass a test, in order.
unfoldable pub keep : (ChannelEntry → Bool) → List ChannelEntry → List ChannelEntry
keep test [] = []
keep test (e ∷ entries) = let rest = keep test entries in if test e then e ∷ rest else rest

-- `list()` and `list(type)`.
unfoldable pub list : ChannelRegistry → List ChannelEntry
list r = if r.header then keep active r.table else []

unfoldable pub list_type : MsgType → ChannelRegistry → List ChannelEntry
list_type type r = keep (λ e. e.msg_type == msg_type_value type) (list r)

unfoldable pub any_matches : List ℕ → List ChannelEntry → Bool
any_matches channel_name [] = false
any_matches channel_name (e ∷ entries) =
    let rest = any_matches channel_name entries in if matches channel_name e then true else rest

unfoldable pub contains : List ℕ → ChannelRegistry → Bool
contains channel_name r = if r.header then any_matches channel_name r.table else false

-- The characters up to the terminating zero.
unfoldable pub c_string : List ℕ → List ℕ
c_string [] = []
c_string (zero ∷ s) = []
c_string (suc c ∷ s) = suc c ∷ c_string s

-- `discover`
unfoldable pub discover : MsgType → ChannelRegistry → List (List ℕ)
discover type r = map (λ e. c_string e.name) (list_type type r)

-- ===== src/Message.antt =====
-- `MsgType`, `IPCHeader` and `IPCMessage` of include/lwipc/ipc_message.hpp. The header's bytes are
-- those of its fields in memory, on a little-endian host, as `memcpy` and `std::copy` move them.
pub mod Codec
pub mod Payload
pub mod Parse
pub mod RoundTrip
pub mod Checksum
mod Tests
use lw_ipc.Base.{
  ℕ, ◌+◌, ◌%◌, ◌^◌, Bool, true, false, ◌&&◌, Option, none, some, List, [], ◌∷◌, ◌++◌, ltb, ◌==◌,
  if◌then◌else◌, length, take, drop, replicate,
}
use lw_ipc.Base.Words.{u32}
use lw_ipc.Base.Bytes.{to_le, from_le, slice, join}
use lw_ipc.Crc.{crc32_update}

pub data MsgType : Type 0 where
  unknown image pointcloud imu tensor control_cmd : MsgType

-- The value of an enumerator. The field of a header holds any `uint16_t`, since it is copied off
-- the wire unchecked.
abbrev pub msg_type_value : MsgType → ℕ
msg_type_value unknown = 0
msg_type_value image = 1
msg_type_value pointcloud = 2
msg_type_value imu = 3
msg_type_value tensor = 4
msg_type_value control_cmd = 5

abbrev pub k_magic : ℕ
k_magic = 0x4C574950

abbrev pub k_version : ℕ
k_version = 1

-- `sizeof(IPCHeader)`
abbrev pub header_size : ℕ
header_size = 64

-- The members in order. `gap` is the four bytes by which `timestamp_ns` is aligned: no member, but
-- part of what is copied.
pub record IpcHeader : Type 0 where
  pub magic : ℕ
  pub version : ℕ
  pub pad0 : List ℕ
  pub msg_type : ℕ
  pub sensor_id : ℕ
  pub gap : List ℕ
  pub timestamp_ns : ℕ
  pub sequence : ℕ
  pub data_length : ℕ
  pub checksum : ℕ
  pub pad1 : List ℕ

-- `IPCHeader{}`. What the gap holds is left open by the language.
abbrev pub new_header : List ℕ → IpcHeader
new_header gap = record {
  magic = k_magic;
  version = k_version;
  pad0 = replicate 3 0;
  msg_type = msg_type_value unknown;
  sensor_id = 0;
  gap = gap;
  timestamp_ns = 0;
  sequence = 0;
  data_length = 0;
  checksum = 0;
  pad1 = replicate 24 0;
}

-- `IPCHeader::valid`
unfoldable pub header_valid : IpcHeader → Bool
header_valid h = (h.magic == k_magic) && (h.version == k_version)

-- The 64 bytes of a header in memory, and the header that 64 bytes are.
abbrev pub segments : IpcHeader → List (List ℕ)
segments h =
    to_le 4 h.magic
    ∷ to_le 1 h.version
    ∷ h.pad0
    ∷ to_le 2 h.msg_type
    ∷ to_le 2 h.sensor_id
    ∷ h.gap
    ∷ to_le 8 h.timestamp_ns
    ∷ to_le 8 h.sequence
    ∷ to_le 4 h.data_length
    ∷ to_le 4 h.checksum
    ∷ h.pad1
    ∷ []

pub header_bytes : IpcHeader → List ℕ
header_bytes h = join (segments h)

pub header_of : List ℕ → IpcHeader
header_of bs = record {
  magic = from_le (slice 0 4 bs);
  version = from_le (slice 4 1 bs);
  pad0 = slice 5 3 bs;
  msg_type = from_le (slice 8 2 bs);
  sensor_id = from_le (slice 10 2 bs);
  gap = slice 12 4 bs;
  timestamp_ns = from_le (slice 16 8 bs);
  sequence = from_le (slice 24 8 bs);
  data_length = from_le (slice 32 4 bs);
  checksum = from_le (slice 36 4 bs);
  pad1 = slice 40 24 bs;
}

-- `data_` and `valid_` are `bytes` and `valid`.
pub record IpcMessage : Type 0 where
  pub header : IpcHeader
  pub bytes : List ℕ
  pub valid : Bool

-- `return {}`: every byte is zeroed before the members take their defaults.
abbrev pub no_message : IpcMessage
no_message = record { header = new_header (replicate 4 0); bytes = []; valid = false }

pub compute_checksum : List ℕ → ℕ
compute_checksum [] = 0
compute_checksum (b ∷ bs) = crc32_update 0 (b ∷ bs)

-- What the constructor copies: `length` bytes from the pointer, unless that is null.
copied : Option (List ℕ) → ℕ → List ℕ
copied none length = []
copied (some payload) length = if ltb 0 length then take length payload else []

-- `IPCMessage(hdr, payload, length)`
unfoldable pub new_message : IpcHeader → Option (List ℕ) → ℕ → IpcMessage
unfolding copied
new_message hdr payload length = record {
  header = record hdr { data_length = length; checksum = compute_checksum bytes };
  bytes = bytes;
  valid = true;
}
  where
    bytes : List ℕ
    bytes = copied payload length

-- `make`: `payload` is the object's bytes, `sizeof(T)` of them.
unfoldable pub make : List ℕ → MsgType → ℕ → ℕ → ℕ → List ℕ → IpcMessage
unfolding new_message
make gap type sensor_id timestamp_ns sequence payload =
    new_message
      (record (new_header gap) {
        msg_type = msg_type_value type;
        sensor_id = sensor_id;
        timestamp_ns = timestamp_ns;
        sequence = sequence;
      })
      (some payload) (u32 (length payload))

-- The part of `from_buffer` behind the check of the header.
pub from_body : IpcHeader → List ℕ → IpcMessage
from_body h buf =
    if ltb 0 h.data_length
    then (if ltb (length buf) (header_size + h.data_length)
        then no_message
        else record { header = h; bytes = slice header_size h.data_length buf; valid = true })
    else record { header = h; bytes = []; valid = true }

unfoldable pub from_buffer : List ℕ → IpcMessage
unfolding header_valid
from_buffer buf =
    if ltb (length buf) header_size
    then no_message
    else if header_valid (header_of buf)
    then from_body (header_of buf) buf
    else no_message

unfoldable pub to_buffer : IpcMessage → List ℕ
unfolding header_bytes
to_buffer m = header_bytes m.header ++ m.bytes

unfoldable pub verify_checksum : IpcMessage → Bool
unfolding compute_checksum
verify_checksum m = m.valid && (m.header.checksum == compute_checksum m.bytes)

-- `as<T>`, with `sizeof(T)`: the object's bytes, or a null pointer.
unfoldable pub view_as : ℕ → IpcMessage → Option (List ℕ)
view_as size m = if ltb (length m.bytes) size then none else some (take size m.bytes)

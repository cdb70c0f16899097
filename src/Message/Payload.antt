-- ===== src/Message/Payload.antt =====
-- The typed payloads of include/lwipc/ipc_message.hpp, with their bytes in memory on a
-- little-endian host. A `float` is its 32 bits, and an array the list of its elements.
pub mod Layout
pub mod Arrival
mod Tests
use lw_ipc.Base.{
  ℕ, zero, suc, ◌+◌, ◌*◌, ◌/◌, ◌<◌, ◌≡◌, ◌^◌, ◌-◌, List, [], ◌∷◌, ◌++◌, length, take, drop,
  replicate,
}
use lw_ipc.Base.Words.{AllBytes}
use lw_ipc.Base.Bytes.{to_le, from_le, slice, join}

pub record PointXyzi : Type 0 where
  pub x : ℕ
  pub y : ℕ
  pub z : ℕ
  pub intensity : ℕ

pub record ImuSample : Type 0 where
  pub accel : List ℕ
  pub gyro : List ℕ
  pub orientation : List ℕ

pub record ControlCmd : Type 0 where
  pub steering : ℕ
  pub throttle : ℕ
  pub brake : ℕ
  pub gear : ℕ
  pub pad : List ℕ

pub data ImageEncoding : Type 0 where
  unknown_encoding gray8 rgb8 bgr8 rgba8 yuv420 : ImageEncoding

-- The value of an enumerator. The member of a frame holds any byte, since it is copied unchecked.
abbrev pub image_encoding_value : ImageEncoding → ℕ
image_encoding_value unknown_encoding = 0
image_encoding_value gray8 = 1
image_encoding_value rgb8 = 2
image_encoding_value bgr8 = 3
image_encoding_value rgba8 = 4
image_encoding_value yuv420 = 5

-- `pixels` is the source's `data`; `gap` is the bytes behind it that round the size up to a
-- multiple of four: no member, but part of what is copied.
pub record ImageFrame : Type 0 where
  pub width : ℕ
  pub height : ℕ
  pub stride : ℕ
  pub byte_count : ℕ
  pub channels : ℕ
  pub encoding : ℕ
  pub pad : List ℕ
  pub pixels : List ℕ
  pub gap : List ℕ

-- `values` is the source's `data`.
pub record Tensor : Type 0 where
  pub ndim : ℕ
  pub dims : List ℕ
  pub num_elements : ℕ
  pub pad : List ℕ
  pub values : List ℕ

-- The bytes behind an array of `max_bytes` bytes.
abbrev pub gap_size : ℕ → ℕ
gap_size max_bytes = ((max_bytes + 3) / 4) * 4 - max_bytes

-- `ImageFrame<max_bytes>{}` and `Tensor<max_elems>{}`
abbrev pub new_image_frame : ℕ → ImageFrame
new_image_frame max_bytes = record {
  width = 0;
  height = 0;
  stride = 0;
  byte_count = 0;
  channels = 0;
  encoding = image_encoding_value unknown_encoding;
  pad = replicate 2 0;
  pixels = replicate max_bytes 0;
  gap = replicate (gap_size max_bytes) 0;
}

abbrev pub new_tensor : ℕ → Tensor
new_tensor max_elems = record {
  ndim = 0;
  dims = replicate 8 0;
  num_elements = 0;
  pad = replicate 4 0;
  values = replicate max_elems 0;
}

-- The types that `T` stands for, the templates with their argument.
pub data PayloadType : Type 0 where
  point_xyzi imu_sample control_cmd : PayloadType
  image_frame : (max_bytes : ℕ) → PayloadType
  tensor : (max_elems : ℕ) → PayloadType

abbrev pub Payload : PayloadType → Type 0
Payload point_xyzi = PointXyzi
Payload imu_sample = ImuSample
Payload control_cmd = ControlCmd
Payload (image_frame max_bytes) = ImageFrame
Payload (tensor max_elems) = Tensor

-- `sizeof(T)`
abbrev pub size_of : PayloadType → ℕ
size_of point_xyzi = 16
size_of imu_sample = 40
size_of control_cmd = 16
size_of (image_frame max_bytes) = 20 + (max_bytes + gap_size max_bytes)
size_of (tensor max_elems) = 44 + 4 * max_elems

-- The bytes of an array of 32-bit elements, and the first `n` elements of some bytes.
abbrev pub words_bytes : List ℕ → List ℕ
words_bytes [] = []
words_bytes (v ∷ vs) = to_le 4 v ++ words_bytes vs

abbrev pub words_of : ℕ → List ℕ → List ℕ
words_of zero bs = []
words_of (suc n) bs = from_le (take 4 bs) ∷ words_of n (drop 4 bs)

-- The bytes of an object, member by member.
abbrev pub members : (t : PayloadType) → Payload t → List (List ℕ)
members point_xyzi o = to_le 4 o.x ∷ to_le 4 o.y ∷ to_le 4 o.z ∷ to_le 4 o.intensity ∷ []
members imu_sample o = words_bytes o.accel ∷ words_bytes o.gyro ∷ words_bytes o.orientation ∷ []
members control_cmd o =
    to_le 4 o.steering ∷ to_le 4 o.throttle ∷ to_le 4 o.brake ∷ to_le 1 o.gear ∷ o.pad ∷ []
members (image_frame max_bytes) o =
    to_le 4 o.width
    ∷ to_le 4 o.height
    ∷ to_le 4 o.stride
    ∷ to_le 4 o.byte_count
    ∷ to_le 1 o.channels
    ∷ to_le 1 o.encoding
    ∷ o.pad
    ∷ o.pixels
    ∷ o.gap
    ∷ []
members (tensor max_elems) o =
    to_le 4 o.ndim ∷ words_bytes o.dims ∷ to_le 4 o.num_elements ∷ o.pad ∷ words_bytes o.values ∷ []

abbrev pub bytes_of : (t : PayloadType) → Payload t → List ℕ
bytes_of t o = join (members t o)

-- The object that some bytes are.
unfoldable pub object_of : (t : PayloadType) → List ℕ → Payload t
object_of point_xyzi bs = record {
  x = from_le (slice 0 4 bs);
  y = from_le (slice 4 4 bs);
  z = from_le (slice 8 4 bs);
  intensity = from_le (slice 12 4 bs);
}
object_of imu_sample bs = record {
  accel = words_of 3 (slice 0 12 bs);
  gyro = words_of 3 (slice 12 12 bs);
  orientation = words_of 4 (slice 24 16 bs);
}
object_of control_cmd bs = record {
  steering = from_le (slice 0 4 bs);
  throttle = from_le (slice 4 4 bs);
  brake = from_le (slice 8 4 bs);
  gear = from_le (slice 12 1 bs);
  pad = slice 13 3 bs;
}
object_of (image_frame max_bytes) bs = record {
  width = from_le (slice 0 4 bs);
  height = from_le (slice 4 4 bs);
  stride = from_le (slice 8 4 bs);
  byte_count = from_le (slice 12 4 bs);
  channels = from_le (slice 16 1 bs);
  encoding = from_le (slice 17 1 bs);
  pad = slice 18 2 bs;
  pixels = slice 20 max_bytes bs;
  gap = slice (20 + max_bytes) (gap_size max_bytes) bs;
}
object_of (tensor max_elems) bs = record {
  ndim = from_le (slice 0 4 bs);
  dims = words_of 8 (slice 4 32 bs);
  num_elements = from_le (slice 36 4 bs);
  pad = slice 40 4 bs;
  values = words_of max_elems (slice 44 (4 * max_elems) bs);
}

-- ===== src/Message/Payload/Layout.antt =====
-- An object's bytes: how many there are, and that they give the object back.
use lw_ipc.Base.{
  ℕ, zero, suc, ◌+◌, ◌*◌, ◌<◌, ◌≡◌, ◌^◌, refl, sym, ap, ap₂, ◌∙◌, arith, List, [], ◌∷◌, append-nil,
  length, get_or, length-append,
}
use lw_ipc.Base.Bytes.{
  to_le, from_le, slice, join, offset, slice-join, length-to_le, from_le-to_le, take-append,
  drop-append,
}
use lw_ipc.Message.Payload.{
  PayloadType, point_xyzi, imu_sample, control_cmd, image_frame, tensor, Payload, size_of, gap_size,
  words_bytes, words_of, members, bytes_of, object_of,
}

-- Every number of the list is a 32-bit word.
abbrev pub AllWords : List ℕ → Type 0
AllWords [] = Unit
AllWords (v ∷ vs) = (v < 256 ^ 4) × AllWords vs

-- An array of `n` words.
pub record Words (n : ℕ) (vs : List ℕ) : Type 0 where
  pub many : length vs ≡ n
  pub small : AllWords vs

-- The members are values of their types, and the arrays have their sizes.
abbrev pub InRange : (t : PayloadType) → Payload t → Type 0
InRange point_xyzi o = (o.x < 256 ^ 4) × (o.y < 256 ^ 4) × (o.z < 256 ^ 4) × (o.intensity < 256 ^ 4)
InRange imu_sample o = Words 3 o.accel × Words 3 o.gyro × Words 4 o.orientation
InRange control_cmd o =
    (o.steering < 256 ^ 4)
    × (o.throttle < 256 ^ 4)
    × (o.brake < 256 ^ 4)
    × (o.gear < 256 ^ 1)
    × (length o.pad ≡ 3)
InRange (image_frame max_bytes) o =
    (o.width < 256 ^ 4)
    × (o.height < 256 ^ 4)
    × (o.stride < 256 ^ 4)
    × (o.byte_count < 256 ^ 4)
    × (o.channels < 256 ^ 1)
    × (o.encoding < 256 ^ 1)
    × (length o.pad ≡ 2)
    × (length o.pixels ≡ max_bytes)
    × (length o.gap ≡ gap_size max_bytes)
InRange (tensor max_elems) o =
    (o.ndim < 256 ^ 4)
    × Words 8 o.dims
    × (o.num_elements < 256 ^ 4)
    × (length o.pad ≡ 4)
    × Words max_elems o.values

pub length-words_bytes : (vs : List ℕ) → length (words_bytes vs) ≡ 4 * length vs
length-words_bytes [] = refl
length-words_bytes (v ∷ vs) =
    omega (arith, length-append (to_le 4 v) (words_bytes vs), length-words_bytes vs)

words_of-words_bytes : (n : ℕ) (vs : List ℕ) → Words n vs → words_of n (words_bytes vs) ≡ vs
words_of-words_bytes zero [] w = refl
words_of-words_bytes zero (v ∷ vs) w = absurd (omega (arith, w.many))
words_of-words_bytes (suc n) [] w = absurd (omega (arith, w.many))
words_of-words_bytes (suc n) (v ∷ vs) w =
    ap₂ ◌∷◌
      (ap from_le (take-append 4 (to_le 4 v) (words_bytes vs) refl) ∙ from_le-to_le 4 v w.small.0)
      (ap (words_of n) (drop-append 4 (to_le 4 v) (words_bytes vs) refl)
        ∙ words_of-words_bytes n vs (record { many = omega (arith, w.many); small = w.small.1 }))

-- The members of a row of segments, at their offsets.
module _ (ss : List (List ℕ)) (i o : ℕ) (h : i < length ss) (at : offset i ss ≡ o) where
  pub segment :
      (n : ℕ) (bs : List ℕ) → get_or ss i [] ≡ bs → length bs ≡ n → slice o n (join ss) ≡ bs
  segment n bs e hn =
      ap (slice o n) (sym (append-nil (join ss)))
      ∙ slice-join i o n ss [] h at (ap length e ∙ hn)
      ∙ e

  pub number :
      (w v : ℕ) → get_or ss i [] ≡ to_le w v → v < 256 ^ w → from_le (slice o w (join ss)) ≡ v
  number w v e hv = ap from_le (segment w (to_le w v) e (length-to_le w v)) ∙ from_le-to_le w v hv

  pub array :
      (n k : ℕ) (vs : List ℕ)
      → get_or ss i [] ≡ words_bytes vs
      → Words n vs
      → 4 * n ≡ k
      → words_of n (slice o k (join ss)) ≡ vs
  array n k vs e w size =
      ap (words_of n) (segment k (words_bytes vs) e (omega (arith, length-words_bytes vs, w.many)))
      ∙ words_of-words_bytes n vs w

-- The lengths of segments add up.
abbrev total : List (List ℕ) → ℕ
total [] = 0
total (s ∷ ss) = length s + total ss

length-join : (ss : List (List ℕ)) → length (join ss) ≡ total ss
length-join [] = refl
length-join (s ∷ ss) = omega (arith, length-append s (join ss), length-join ss)

length-array : (n : ℕ) (vs : List ℕ) → Words n vs → length (words_bytes vs) ≡ 4 * n
length-array n vs w = omega (arith, length-words_bytes vs, w.many)

pub length-bytes_of :
    (t : PayloadType) (o : Payload t) → InRange t o → length (bytes_of t o) ≡ size_of t
length-bytes_of point_xyzi o h = refl
length-bytes_of imu_sample o h = omega (
  arith,
  length-join (members imu_sample o),
  length-array 3 o.accel h.0,
  length-array 3 o.gyro h.1,
  length-array 4 o.orientation h.2,
)
length-bytes_of control_cmd o h = omega (arith, length-join (members control_cmd o), h.4)
length-bytes_of (image_frame max_bytes) o h =
    omega (arith, length-join (members (image_frame max_bytes) o), h.6, h.7, h.8)
length-bytes_of (tensor max_elems) o h = omega (
  arith,
  length-join (members (tensor max_elems) o),
  length-array 8 o.dims h.1,
  h.3,
  length-array max_elems o.values h.4,
)

-- The object comes back from its bytes.
pub object_of-bytes_of :
    (t : PayloadType) (o : Payload t) → InRange t o → object_of t (bytes_of t o) ≡ o
unfolding object_of
object_of-bytes_of point_xyzi o h = λ i. record {
  x = number (members point_xyzi o) 0 0 (omega arith) refl 4 o.x refl h.0 i;
  y = number (members point_xyzi o) 1 4 (omega arith) refl 4 o.y refl h.1 i;
  z = number (members point_xyzi o) 2 8 (omega arith) refl 4 o.z refl h.2 i;
  intensity = number (members point_xyzi o) 3 12 (omega arith) refl 4 o.intensity refl h.3 i;
}
object_of-bytes_of imu_sample o h = λ i. record {
  accel = array (members imu_sample o) 0 0 (omega arith) refl 3 12 o.accel refl h.0 refl i;
  gyro =
      array (members imu_sample o) 1 12 (omega arith) (omega (arith, length-array 3 o.accel h.0)) 3
        12 o.gyro refl h.1 refl i;
  orientation =
      array (members imu_sample o) 2 24 (omega arith)
        (omega (arith, length-array 3 o.accel h.0, length-array 3 o.gyro h.1)) 4 16 o.orientation
        refl h.2 refl i;
}
object_of-bytes_of control_cmd o h = λ i. record {
  steering = number (members control_cmd o) 0 0 (omega arith) refl 4 o.steering refl h.0 i;
  throttle = number (members control_cmd o) 1 4 (omega arith) refl 4 o.throttle refl h.1 i;
  brake = number (members control_cmd o) 2 8 (omega arith) refl 4 o.brake refl h.2 i;
  gear = number (members control_cmd o) 3 12 (omega arith) refl 1 o.gear refl h.3 i;
  pad = segment (members control_cmd o) 4 13 (omega arith) refl 3 o.pad refl h.4 i;
}
object_of-bytes_of (image_frame max_bytes) o h =
    let ss = members (image_frame max_bytes) o in
    λ i. record {
      width = number ss 0 0 (omega arith) refl 4 o.width refl h.0 i;
      height = number ss 1 4 (omega arith) refl 4 o.height refl h.1 i;
      stride = number ss 2 8 (omega arith) refl 4 o.stride refl h.2 i;
      byte_count = number ss 3 12 (omega arith) refl 4 o.byte_count refl h.3 i;
      channels = number ss 4 16 (omega arith) refl 1 o.channels refl h.4 i;
      encoding = number ss 5 17 (omega arith) refl 1 o.encoding refl h.5 i;
      pad = segment ss 6 18 (omega arith) refl 2 o.pad refl h.6 i;
      pixels = segment ss 7 20 (omega arith) (omega (arith, h.6)) max_bytes o.pixels refl h.7 i;
      gap =
          segment ss 8 (20 + max_bytes) (omega arith) (omega (arith, h.6, h.7)) (gap_size max_bytes)
            o.gap refl h.8 i;
    }
object_of-bytes_of (tensor max_elems) o h =
    let ss = members (tensor max_elems) o in
    let dims_size = length-array 8 o.dims h.1 in
    λ i. record {
      ndim = number ss 0 0 (omega arith) refl 4 o.ndim refl h.0 i;
      dims = array ss 1 4 (omega arith) refl 8 32 o.dims refl h.1 refl i;
      num_elements =
          number ss 2 36 (omega arith) (omega (arith, dims_size)) 4 o.num_elements refl h.2 i;
      pad = segment ss 3 40 (omega arith) (omega (arith, dims_size)) 4 o.pad refl h.3 i;
      values =
          array ss 4 44 (omega arith) (omega (arith, dims_size, h.3)) max_elems (4 * max_elems)
            o.values refl h.4 refl i;
    }

-- ===== src/Message/Tests.antt =====
-- Messages built, written and parsed, and the theorems at them.
use lw_ipc.Base.{ℕ, ◌≡◌, ◌⊎◌, refl, true, false, List, [], ◌∷◌, ◌++◌, arith, take, replicate}
use lw_ipc.Message.{
  imu, IpcMessage, new_header, header_bytes, header_of, no_message, from_body, compute_checksum,
  make, from_buffer, to_buffer, verify_checksum,
}
use lw_ipc.Crc.{crc32_update}
use lw_ipc.Message.Codec.{IsHeader}
use lw_ipc.Message.Parse.{Parses, parsed, from_buffer_lem}
use lw_ipc.Message.Checksum.{make-corrupted}

abbrev no_gap : List ℕ
no_gap = 0 ∷ 0 ∷ 0 ∷ 0 ∷ []

abbrev body : List ℕ
body = 1 ∷ 2 ∷ 3 ∷ 4 ∷ 5 ∷ []

-- The message of five bytes that an IMU with id 7 sends at time 1000.
abbrev message : IpcMessage
message = make no_gap imu 7 1000 42 body

wire_starts :
    take 20 (to_buffer message)
    ≡ 0x50 ∷ 0x49 ∷ 0x57 ∷ 0x4C ∷ 1 ∷ 0 ∷ 0 ∷ 0 ∷ 3 ∷ 0 ∷ 7 ∷ 0 ∷ 0 ∷ 0 ∷ 0 ∷ 0 ∷ 0xE8 ∷ 3 ∷ 0 ∷ 0
      ∷ []
unfolding to_buffer make header_bytes
wire_starts = refl

parse_runs : from_buffer (to_buffer message ++ (9 ∷ [])) ≡ message
unfolding from_buffer to_buffer make header_bytes header_of from_body compute_checksum crc32_update
parse_runs = refl

-- A buffer of this protocol with one byte of payload and one byte behind it.
abbrev buffer : List ℕ
buffer =
    0x50
    ∷ 0x49
    ∷ 0x57
    ∷ 0x4C
    ∷ 1
    ∷ (replicate 27 0 ++ (1 ∷ 0 ∷ 0 ∷ 0 ∷ (replicate 28 0 ++ (77 ∷ 88 ∷ []))))

buffer-Parses : Parses buffer
unfolding header_of
buffer-Parses = record { long = omega arith; magic = refl; version = refl; room = omega arith }

from_buffer_lem_example :
    (Parses (1 ∷ []) × (from_buffer (1 ∷ []) ≡ parsed (1 ∷ [])))
    ⊎ ((¬ Parses (1 ∷ [])) × (from_buffer (1 ∷ []) ≡ no_message))
from_buffer_lem_example = from_buffer_lem (1 ∷ [])

make-corrupted_example :
    let received = from_buffer (header_bytes message.header ++ (1 ∷ 2 ∷ 0x83 ∷ 4 ∷ 5 ∷ [])) in
    (received.valid ≡ true) × (verify_checksum received ≡ false)
make-corrupted_example =
    make-corrupted no_gap imu 7 1000 42 (1 ∷ 2 ∷ []) (4 ∷ 5 ∷ []) 3 0x83 refl (omega arith)
      (omega arith) (omega arith) (omega arith) (omega arith) (omega arith) (omega arith)

new_header-IsHeader : IsHeader (new_header no_gap)
new_header-IsHeader = omega arith

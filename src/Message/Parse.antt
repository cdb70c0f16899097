-- ===== src/Message/Parse.antt =====
-- When `from_buffer` accepts a buffer, and what it makes of it.
use lw_ipc.Base.{
  ℕ, ◌+◌, ◌≤◌, ◌<◌, ◌≡◌, ◌⊎◌, inl, inr, ap, true, List, [], arith, length, take, dec_le, ℕ_discrete,
}
use lw_ipc.Base.Bytes.{slice}
use lw_ipc.Message.{
  IpcHeader, IpcMessage, header_size, k_magic, k_version, header_of, no_message, from_body,
  from_buffer,
}

-- A whole header of this protocol, and at least the payload that it announces.
pub record Parses (buf : List ℕ) : Type 0 where
  pub long : header_size ≤ length buf
  pub magic : (header_of buf).magic ≡ k_magic
  pub version : (header_of buf).version ≡ k_version
  pub room : header_size + (header_of buf).data_length ≤ length buf

-- The message of such a buffer.
abbrev pub parsed : List ℕ → IpcMessage
parsed buf = record {
  header = header_of buf;
  bytes = slice header_size (header_of buf).data_length buf;
  valid = true;
}

no_bytes : (n : ℕ) (buf : List ℕ) → n ≡ 0 → take n buf ≡ []
no_bytes n buf e = ap (λ k. take k buf) e

from_body-room :
    (h : IpcHeader) (buf : List ℕ)
    → header_size + h.data_length ≤ length buf
    → from_body h buf
      ≡ record { header = h; bytes = slice header_size h.data_length buf; valid = true }
unfolding from_body
from_body-room h buf room = ground (arith, no_bytes h.data_length)

pub from_buffer-Parses : (buf : List ℕ) → Parses buf → from_buffer buf ≡ parsed buf
unfolding from_buffer
from_buffer-Parses buf p =
    ground (arith, p.long, p.magic, p.version, from_body-room (header_of buf) buf p.room)

from_body-short :
    (h : IpcHeader) (buf : List ℕ)
    → header_size ≤ length buf
    → length buf < header_size + h.data_length
    → from_body h buf ≡ no_message
unfolding from_body
from_body-short h buf long short = ground arith

pub from_buffer-not-Parses : (buf : List ℕ) → ¬ Parses buf → from_buffer buf ≡ no_message
unfolding from_buffer
from_buffer-not-Parses buf no_parse = elim (dec_le header_size (length buf)) [
  | no short ↦ ground arith
  | yes long ↦ elim (dec_le (header_size + (header_of buf).data_length) (length buf)) [
    | no short ↦ ground (arith, from_body-short (header_of buf) buf long)
    | yes room ↦ elim (ℕ_discrete (header_of buf).magic k_magic) [
      | no wrong ↦ ground arith
      | yes magic ↦ elim (ℕ_discrete (header_of buf).version k_version) [
        | no wrong ↦ ground arith
        | yes version ↦
            absurd
              (no_parse (record { long = long; magic = magic; version = version; room = room }))
      ]
    ]
  ]
]

Parses-dec : (buf : List ℕ) → (Parses buf) ⊎ (¬ Parses buf)
Parses-dec buf = elim (dec_le header_size (length buf)) [
  | no short ↦ inr (λ p. short p.long)
  | yes long ↦ elim (dec_le (header_size + (header_of buf).data_length) (length buf)) [
    | no short ↦ inr (λ p. short p.room)
    | yes room ↦ elim (ℕ_discrete (header_of buf).magic k_magic) [
      | no wrong ↦ inr (λ p. wrong p.magic)
      | yes magic ↦ elim (ℕ_discrete (header_of buf).version k_version) [
        | no wrong ↦ inr (λ p. wrong p.version)
        | yes version ↦ inl (record { long = long; magic = magic; version = version; room = room })
      ]
    ]
  ]
]

-- `from_buffer` accepts a buffer exactly when it holds a header with the right magic and version
-- and all of the payload that the header announces. It then returns that header and payload,
-- marked valid. Of any other buffer it returns the invalid message.
pub from_buffer_lem :
    (buf : List ℕ)
    → (Parses buf × (from_buffer buf ≡ parsed buf))
      ⊎ ((¬ Parses buf) × (from_buffer buf ≡ no_message))
from_buffer_lem buf = elim (Parses-dec buf) [
  | inl p ↦ inl (p, from_buffer-Parses buf p)
  | inr n ↦ inr (n, from_buffer-not-Parses buf n)
]

-- ===== src/Message/RoundTrip.antt =====
-- A message and its bytes on the wire: both round trips, and what truncation does.
use lw_ipc.Base.{
  ℕ, ◌+◌, ◌-◌, ◌≤◌, ◌<◌, ◌≡◌, refl, sym, ap, ◌∙◌, true, List, ◌++◌, append_assoc, arith, length,
  take, drop, length-append, length-take,
}
use lw_ipc.Base.Words.{AllBytes}
use lw_ipc.Base.Bytes.{slice, take-append, take-append_ge, drop-append, take-drop-append}
use lw_ipc.Message.{
  IpcHeader, IpcMessage, header_size, k_magic, k_version, header_bytes, header_of, no_message,
  from_buffer, to_buffer,
}
use lw_ipc.Message.Codec.{
  IsHeader, length-header_bytes, header_of-header_bytes, header_bytes-header_of,
}
use lw_ipc.Message.Parse.{Parses, from_buffer-Parses, from_buffer-not-Parses}

-- A message that was constructed or parsed: members in range, this protocol's magic and version,
-- and the length of its payload in the header.
pub record IsMessage (m : IpcMessage) : Type 0 where
  pub header : IsHeader m.header
  pub magic : m.header.magic ≡ k_magic
  pub version : m.header.version ≡ k_version
  pub data_length : m.header.data_length ≡ length m.bytes
  pub valid : m.valid ≡ true

-- The size on the wire.
pub length-to_buffer :
    {m : IpcMessage} → IsMessage m → length (to_buffer m) ≡ header_size + length m.bytes
unfolding to_buffer
length-to_buffer {m} ok =
    length-append (header_bytes m.header) m.bytes
    ∙ ap (λ t. t + length m.bytes) (length-header_bytes ok.header)

-- A message's header in a buffer that starts with its bytes, and other bytes behind it.
pub header-Parses :
    (h : IpcHeader) (rest : List ℕ)
    → IsHeader h
    → h.magic ≡ k_magic
    → h.version ≡ k_version
    → h.data_length ≤ length rest
    → Parses (header_bytes h ++ rest)
header-Parses h rest ok magic version room = record {
  long = omega (arith, total);
  magic = ap (λ t. t.magic) same ∙ magic;
  version = ap (λ t. t.version) same ∙ version;
  room = omega (arith, total, ap (λ (t : IpcHeader). t.data_length) same);
}
  where
    same : header_of (header_bytes h ++ rest) ≡ h
    same = header_of-header_bytes ok rest

    total : length (header_bytes h ++ rest) ≡ header_size + length rest
    total = length-append (header_bytes h) rest ∙ ap (λ t. t + length rest) (length-header_bytes ok)

-- What is parsed of such a buffer.
pub from_buffer-header_bytes :
    (h : IpcHeader) (rest : List ℕ)
    → IsHeader h
    → h.magic ≡ k_magic
    → h.version ≡ k_version
    → h.data_length ≤ length rest
    → from_buffer (header_bytes h ++ rest)
      ≡ record { header = h; bytes = take h.data_length rest; valid = true }
from_buffer-header_bytes h rest ok magic version room =
    from_buffer-Parses (header_bytes h ++ rest) (header-Parses h rest ok magic version room) ∙ λ i.
    record { header = same i; bytes = take (same i).data_length (behind i); valid = true }
  where
    same : header_of (header_bytes h ++ rest) ≡ h
    same = header_of-header_bytes ok rest

    behind : drop header_size (header_bytes h ++ rest) ≡ rest
    behind = drop-append header_size (header_bytes h) rest (length-header_bytes ok)

-- Reading back what was written gives the message, whatever bytes follow it in the buffer.
pub from_buffer-to_buffer :
    (m : IpcMessage) (rest : List ℕ) → IsMessage m → from_buffer (to_buffer m ++ rest) ≡ m
unfolding to_buffer
from_buffer-to_buffer m rest ok =
    ap from_buffer (append_assoc (header_bytes m.header) m.bytes rest)
    ∙ from_buffer-header_bytes m.header (m.bytes ++ rest) ok.header ok.magic ok.version
        (omega (arith, ok.data_length, length-append m.bytes rest))
    ∙ λ i. record { header = m.header; bytes = payload i; valid = sym ok.valid i }
  where
    payload : take m.header.data_length (m.bytes ++ rest) ≡ m.bytes
    payload = take-append m.header.data_length m.bytes rest (sym ok.data_length)

-- Writing back what was parsed gives the bytes that were read: the header and the payload that it
-- announces, and nothing of what follows.
pub to_buffer-from_buffer :
    (buf : List ℕ)
    → AllBytes buf
    → Parses buf
    → to_buffer (from_buffer buf) ≡ take (header_size + (header_of buf).data_length) buf
unfolding to_buffer
to_buffer-from_buffer buf bytes p =
    ap (λ m. header_bytes m.header ++ m.bytes) (from_buffer-Parses buf p)
    ∙ ap (λ t. t ++ slice header_size (header_of buf).data_length buf)
        (header_bytes-header_of buf bytes p.long)
    ∙ take-drop-append header_size (header_of buf).data_length
        (header_size + (header_of buf).data_length) buf refl

-- A message cut short anywhere is refused: the invalid message comes back.
pub from_buffer-truncated :
    (m : IpcMessage) (n : ℕ)
    → IsMessage m
    → n < length (to_buffer m)
    → from_buffer (take n (to_buffer m)) ≡ no_message
unfolding to_buffer
from_buffer-truncated m n ok short = from_buffer-not-Parses (take n whole) refuse
  where
    whole : List ℕ
    whole = header_bytes m.header ++ m.bytes

    size : length (take n whole) ≡ n
    size = omega (arith, length-take n whole)

    total : length whole ≡ header_size + length m.bytes
    total =
        length-append (header_bytes m.header) m.bytes
        ∙ ap (λ t. t + length m.bytes) (length-header_bytes ok.header)

    refuse : ¬ Parses (take n whole)
    refuse p = omega (
      arith,
      p.room,
      size,
      total,
      ok.data_length,
      ap (λ (t : List ℕ). (header_of t).data_length) split,
      ap (λ (t : IpcHeader). t.data_length) (header_of-header_bytes ok.header rest),
    )
      where
        rest : List ℕ
        rest = take (n - length (header_bytes m.header)) m.bytes

        split : take n whole ≡ header_bytes m.header ++ rest
        split =
            take-append_ge n (header_bytes m.header) m.bytes
              (omega (arith, length-header_bytes ok.header, p.long, size))

-- ===== src/Message/Checksum.antt =====
-- What `make` builds, what its checksum detects, and the constructor's null payload.
use lw_ipc.Base.{
  ℕ, ◌^◌, ◌<◌, ◌≡◌, ◌≢◌, refl, sym, ap, ◌∙◌, true, false, none, some, List, [], ◌∷◌, ◌++◌, arith,
  length, take, length-append, ltb, if◌then◌else◌,
}
use lw_ipc.Base.Words.{u32}
use lw_ipc.Base.Bytes.{take-all}
use lw_ipc.Crc.Compose.{crc32_update-lt}
use lw_ipc.Crc.Detect.{crc32_update-ne}
use lw_ipc.Message.{
  MsgType, msg_type_value, IpcHeader, IpcMessage, header_bytes, no_message, compute_checksum,
  copied, new_message, make, from_buffer, to_buffer, verify_checksum, view_as,
}
use lw_ipc.Message.Codec.{IsHeader, length-header_bytes, header_of-header_bytes}
use lw_ipc.Message.Parse.{from_buffer-not-Parses}
use lw_ipc.Message.RoundTrip.{IsMessage, from_buffer-header_bytes, from_buffer-to_buffer}

compute_checksum-lt : (bs : List ℕ) → compute_checksum bs < 2 ^ 32
unfolding compute_checksum
compute_checksum-lt [] = omega arith
compute_checksum-lt (b ∷ bs) = crc32_update-lt 0 (b ∷ bs) (omega arith)

-- One changed byte changes the checksum.
compute_checksum-ne :
    (xs ys : List ℕ) (p q : ℕ)
    → p < 256
    → q < 256
    → p ≢ q
    → compute_checksum (xs ++ (p ∷ ys)) ≢ compute_checksum (xs ++ (q ∷ ys))
unfolding compute_checksum
compute_checksum-ne [] ys p q hp hq ne = crc32_update-ne 0 [] ys p q (omega arith) hp hq ne
compute_checksum-ne (x ∷ xs) ys p q hp hq ne =
    crc32_update-ne 0 (x ∷ xs) ys p q (omega arith) hp hq ne

msg_type_value-lt : (t : MsgType) → msg_type_value t < 2 ^ 16
msg_type_value-lt t = ground arith

-- The arguments of `make`, in the ranges of their types.
module _ (gap : List ℕ) (type : MsgType) (sensor_id timestamp_ns sequence : ℕ) (payload : List ℕ)
    (gap_size : length gap ≡ 4) (sensor : sensor_id < 2 ^ 16) (time : timestamp_ns < 2 ^ 64)
    (seq : sequence < 2 ^ 64) (size : length payload < 2 ^ 32) where
  abbrev msg : IpcMessage
  msg = make gap type sensor_id timestamp_ns sequence payload

  u32_size : u32 (length payload) ≡ length payload
  u32_size = omega arith

  bytes_cases : (n : ℕ) → n ≡ length payload → copied (some payload) n ≡ payload
  unfolding copied
  bytes_cases n e = ground (arith, take-all n payload, no_payload payload)
    where
      no_payload : (bs : List ℕ) → length bs ≡ 0 → bs ≡ []
      no_payload [] h = refl
      no_payload (b ∷ bs) h = absurd (omega arith)

  pub bytes-make : (make gap type sensor_id timestamp_ns sequence payload).bytes ≡ payload
  unfolding make
  bytes-make = bytes_cases (u32 (length payload)) u32_size

  pub make-IsMessage : IsMessage (make gap type sensor_id timestamp_ns sequence payload)
  unfolding make
  make-IsMessage = record {
    header = record {
      magic = omega arith;
      version = omega arith;
      pad0 = refl;
      msg_type = msg_type_value-lt type;
      sensor_id = sensor;
      gap = gap_size;
      timestamp_ns = time;
      sequence = seq;
      data_length = omega arith;
      checksum = compute_checksum-lt (copied (some payload) (u32 (length payload)));
      pad1 = refl;
    };
    magic = refl;
    version = refl;
    data_length = sym (ap length (bytes_cases (u32 (length payload)) u32_size) ∙ sym u32_size);
    valid = refl;
  }

  verify-make : verify_checksum msg ≡ true
  unfolding verify_checksum make
  verify-make = ground arith

  view-make : view_as (length payload) msg ≡ some payload
  unfolding view_as
  view-make =
      ap (λ t. if ltb (length t) (length payload) then none else some (take (length payload) t))
        bytes-make
      ∙ whole
    where
      whole :
          (if ltb (length payload) (length payload)
            then none
            else some (take (length payload) payload))
          ≡ some payload
      whole = ground (arith, take-all (length payload) payload)

  -- A message that `make` builds is verified by its receiver: its bytes, with anything behind them,
  -- are read back as the same message, whose checksum is right and whose payload is the object's
  -- bytes.
  pub make-received :
      (rest : List ℕ)
      → (from_buffer (to_buffer (make gap type sensor_id timestamp_ns sequence payload) ++ rest)
          ≡ make gap type sensor_id timestamp_ns sequence payload)
        × (verify_checksum (make gap type sensor_id timestamp_ns sequence payload) ≡ true)
        × (view_as (length payload) (make gap type sensor_id timestamp_ns sequence payload)
            ≡ some payload)
  make-received rest = (from_buffer-to_buffer msg rest make-IsMessage, verify-make, view-make)

-- The checksum in the header of what `make` builds, and a message whose checksum is another.
checksum-make :
    (gap : List ℕ) (type : MsgType) (sensor_id timestamp_ns sequence : ℕ) (payload : List ℕ)
    → let m = make gap type sensor_id timestamp_ns sequence payload in
      m.header.checksum ≡ compute_checksum m.bytes
unfolding make
checksum-make gap type sensor_id timestamp_ns sequence payload = refl

not_verified :
    (m : IpcMessage) → m.header.checksum ≢ compute_checksum m.bytes → verify_checksum m ≡ false
unfolding verify_checksum
not_verified m ne = ground arith

-- What arrives if one byte of the payload is changed on the way is parsed and marked valid, and its
-- checksum does not verify.
pub make-corrupted :
    (gap : List ℕ) (type : MsgType) (sensor_id timestamp_ns sequence : ℕ) (xs ys : List ℕ) (p q : ℕ)
    → length gap ≡ 4
    → sensor_id < 2 ^ 16
    → timestamp_ns < 2 ^ 64
    → sequence < 2 ^ 64
    → length (xs ++ (p ∷ ys)) < 2 ^ 32
    → p < 256
    → q < 256
    → p ≢ q
    → let sent = make gap type sensor_id timestamp_ns sequence (xs ++ (p ∷ ys)) in
      let received = from_buffer (header_bytes sent.header ++ (xs ++ (q ∷ ys))) in
      (received.valid ≡ true) × (verify_checksum received ≡ false)
make-corrupted gap type sensor_id timestamp_ns sequence xs ys p q hg hs ht hn size hp hq ne =
    (ap (λ m. m.valid) arrived, ap verify_checksum arrived ∙ refuted)
  where
    sent : IpcMessage
    sent = make gap type sensor_id timestamp_ns sequence (xs ++ (p ∷ ys))

    ok : IsMessage sent
    ok = make-IsMessage gap type sensor_id timestamp_ns sequence (xs ++ (p ∷ ys)) hg hs ht hn size

    same_bytes : sent.bytes ≡ xs ++ (p ∷ ys)
    same_bytes =
        bytes-make gap type sensor_id timestamp_ns sequence (xs ++ (p ∷ ys)) hg hs ht hn size

    same_length : sent.header.data_length ≡ length (xs ++ (q ∷ ys))
    same_length = omega (
      arith,
      ok.data_length,
      ap length same_bytes,
      length-append xs (p ∷ ys),
      length-append xs (q ∷ ys),
    )

    changed : IpcMessage
    changed = record { header = sent.header; bytes = xs ++ (q ∷ ys); valid = true }

    arrived : from_buffer (header_bytes sent.header ++ (xs ++ (q ∷ ys))) ≡ changed
    arrived =
        from_buffer-header_bytes sent.header (xs ++ (q ∷ ys)) ok.header ok.magic ok.version
          (omega (arith, same_length))
        ∙ λ i. record {
          header = sent.header;
          bytes = take-all sent.header.data_length (xs ++ (q ∷ ys)) (sym same_length) i;
          valid = true;
        }

    refuted : verify_checksum changed ≡ false
    refuted =
        not_verified changed (λ e. compute_checksum-ne xs ys p q hp hq ne (sym sent_checksum ∙ e))
      where
        sent_checksum : sent.header.checksum ≡ compute_checksum (xs ++ (p ∷ ys))
        sent_checksum =
            checksum-make gap type sensor_id timestamp_ns sequence (xs ++ (p ∷ ys))
            ∙ ap compute_checksum same_bytes

-- The constructor with a null pointer and a positive length: the message is marked valid and its
-- checksum verifies, but the header announces bytes that it does not hold, so its receiver refuses
-- what it writes.
pub new_message-null :
    (hdr : IpcHeader) (n : ℕ)
    → IsHeader hdr
    → 0 < n
    → n < 2 ^ 32
    → let m = new_message hdr none n in
      (m.valid ≡ true) × (verify_checksum m ≡ true) × (from_buffer (to_buffer m) ≡ no_message)
unfolding new_message verify_checksum to_buffer
new_message-null hdr n ok pos small = (refl, ground arith, refused)
  where
    h : IpcHeader
    h = record hdr { data_length = n; checksum = 0 }

    fits : IsHeader h
    fits = record {
      magic = ok.magic;
      version = ok.version;
      pad0 = ok.pad0;
      msg_type = ok.msg_type;
      sensor_id = ok.sensor_id;
      gap = ok.gap;
      timestamp_ns = ok.timestamp_ns;
      sequence = ok.sequence;
      data_length = small;
      checksum = omega arith;
      pad1 = ok.pad1;
    }

    refused : from_buffer (to_buffer (new_message hdr none n)) ≡ no_message
    refused = from_buffer-not-Parses (header_bytes h ++ []) λ c. omega (
      arith,
      c.room,
      ap (λ (t : IpcHeader). t.data_length) (header_of-header_bytes fits []),
      length-append (header_bytes h) [],
      length-header_bytes fits,
    )

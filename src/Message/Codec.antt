-- ===== src/Message/Codec.antt =====
-- The header's layout: 64 bytes, and both directions are inverse.
use lw_ipc.Base.{
  ℕ, ◌+◌, ◌^◌, ◌≤◌, ◌<◌, ◌≡◌, refl, sym, ap, ◌∙◌, List, [], ◌∷◌, ◌++◌, arith, length, take, drop,
  length-append, get_or, append_assoc, append-nil,
}
use lw_ipc.Base.Words.{AllBytes}
use lw_ipc.Base.Bytes.{
  to_le, from_le, from_le-lt, length-to_le, from_le-to_le, to_le-from_le, slice, join, offset,
  slice-join, AllBytes-take, AllBytes-drop, length-slice, take-drop-append,
}
use lw_ipc.Message.{IpcHeader, header_size, segments, header_bytes, header_of}

-- The ranges of the members' types.
pub record IsHeader (h : IpcHeader) : Type 0 where
  pub magic : h.magic < 2 ^ 32
  pub version : h.version < 2 ^ 8
  pub pad0 : length h.pad0 ≡ 3
  pub msg_type : h.msg_type < 2 ^ 16
  pub sensor_id : h.sensor_id < 2 ^ 16
  pub gap : length h.gap ≡ 4
  pub timestamp_ns : h.timestamp_ns < 2 ^ 64
  pub sequence : h.sequence < 2 ^ 64
  pub data_length : h.data_length < 2 ^ 32
  pub checksum : h.checksum < 2 ^ 32
  pub pad1 : length h.pad1 ≡ 24

module _ {h : IpcHeader} (ok : IsHeader h) where
  pub length-header_bytes : length (header_bytes h) ≡ header_size
  unfolding header_bytes
  length-header_bytes = omega (
    arith,
    ok.pad0,
    ok.gap,
    ok.pad1,
    length-append {0} h.pad0,
    length-append {0} h.gap,
    length-append {0} h.pad1,
  )

  module _ (rest : List ℕ) where
    -- The field in segment `i`, at its offset.
    number :
        (i o w v : ℕ)
        → i < 11
        → offset i (segments h) ≡ o
        → get_or (segments h) i [] ≡ to_le w v
        → v < 256 ^ w
        → from_le (slice o w (header_bytes h ++ rest)) ≡ v
    unfolding header_bytes
    number i o w v hi ho e hv =
        ap from_le (slice-join i o w (segments h) rest hi ho (ap length e ∙ length-to_le w v) ∙ e)
        ∙ from_le-to_le w v hv

    padding :
        (i o n : ℕ) (bs : List ℕ)
        → i < 11
        → offset i (segments h) ≡ o
        → get_or (segments h) i [] ≡ bs
        → length bs ≡ n
        → slice o n (header_bytes h ++ rest) ≡ bs
    unfolding header_bytes
    padding i o n bs hi ho e hn = slice-join i o n (segments h) rest hi ho (ap length e ∙ hn) ∙ e

    -- The members of a header in range come back from its bytes, whatever follows them.
    pub header_of-header_bytes : header_of (header_bytes h ++ rest) ≡ h
    unfolding header_of
    header_of-header_bytes = λ i. record {
      magic = number 0 0 4 h.magic (omega arith) refl refl (omega (arith, ok.magic)) i;
      version = number 1 4 1 h.version (omega arith) refl refl (omega (arith, ok.version)) i;
      pad0 = padding 2 5 3 h.pad0 (omega arith) refl refl ok.pad0 i;
      msg_type = number 3 8 2 h.msg_type (omega arith) at8 refl (omega (arith, ok.msg_type)) i;
      sensor_id = number 4 10 2 h.sensor_id (omega arith) at10 refl (omega (arith, ok.sensor_id)) i;
      gap = padding 5 12 4 h.gap (omega arith) at12 refl ok.gap i;
      timestamp_ns =
          number 6 16 8 h.timestamp_ns (omega arith) at16 refl (omega (arith, ok.timestamp_ns)) i;
      sequence = number 7 24 8 h.sequence (omega arith) at24 refl (omega (arith, ok.sequence)) i;
      data_length =
          number 8 32 4 h.data_length (omega arith) at32 refl (omega (arith, ok.data_length)) i;
      checksum = number 9 36 4 h.checksum (omega arith) at36 refl (omega (arith, ok.checksum)) i;
      pad1 = padding 10 40 24 h.pad1 (omega arith) at40 refl ok.pad1 i;
    }
      where
        at8 : offset 3 (segments h) ≡ 8
        at8 = omega (arith, ok.pad0)

        at10 : offset 4 (segments h) ≡ 10
        at10 = omega (arith, ok.pad0)

        at12 : offset 5 (segments h) ≡ 12
        at12 = omega (arith, ok.pad0)

        at16 : offset 6 (segments h) ≡ 16
        at16 = omega (arith, ok.pad0, ok.gap)

        at24 : offset 7 (segments h) ≡ 24
        at24 = omega (arith, ok.pad0, ok.gap)

        at32 : offset 8 (segments h) ≡ 32
        at32 = omega (arith, ok.pad0, ok.gap)

        at36 : offset 9 (segments h) ≡ 36
        at36 = omega (arith, ok.pad0, ok.gap)

        at40 : offset 10 (segments h) ≡ 40
        at40 = omega (arith, ok.pad0, ok.gap)

module _ (bs : List ℕ) (bytes : AllBytes bs) (long : header_size ≤ length bs) where
  slice-lt : (o n : ℕ) → o + n ≤ 64 → from_le (slice o n bs) < 256 ^ n
  slice-lt o n h =
      rewrite_length
        (from_le-lt (slice o n bs) (AllBytes-take n (drop o bs) (AllBytes-drop o bs bytes)))
    where
      rewrite_length :
          from_le (slice o n bs) < 256 ^ length (slice o n bs) → from_le (slice o n bs) < 256 ^ n
      rewrite_length p = rw (length-slice o n bs (omega arith)) at p

  -- The header that 64 bytes are has its members in range.
  pub header_of-IsHeader : IsHeader (header_of bs)
  unfolding header_of
  header_of-IsHeader = record {
    magic = omega (arith, slice-lt 0 4);
    version = omega (arith, slice-lt 4 1);
    pad0 = length-slice 5 3 bs (omega arith);
    msg_type = omega (arith, slice-lt 8 2);
    sensor_id = omega (arith, slice-lt 10 2);
    gap = length-slice 12 4 bs (omega arith);
    timestamp_ns = omega (arith, slice-lt 16 8);
    sequence = omega (arith, slice-lt 24 8);
    data_length = omega (arith, slice-lt 32 4);
    checksum = omega (arith, slice-lt 36 4);
    pad1 = length-slice 40 24 bs (omega arith);
  }

  back : (o n : ℕ) → o + n ≤ 64 → to_le n (from_le (slice o n bs)) ≡ slice o n bs
  back o n h =
      to_le-from_le n (slice o n bs) (AllBytes-take n (drop o bs) (AllBytes-drop o bs bytes))
        (length-slice o n bs (omega arith))

  -- The buffer in pieces of the given lengths, from an offset on, and put together again.
  cuts : ℕ → List ℕ → List (List ℕ)
  cuts o [] = []
  cuts o (n ∷ ns) = slice o n bs ∷ cuts (o + n) ns

  end_of : ℕ → List ℕ → ℕ
  end_of o [] = o
  end_of o (n ∷ ns) = end_of (o + n) ns

  join-cuts : (ns : List ℕ) (o : ℕ) → take o bs ++ join (cuts o ns) ≡ take (end_of o ns) bs
  unfolding cuts end_of
  join-cuts [] o = append-nil (take o bs)
  join-cuts (n ∷ ns) o =
      sym (append_assoc (take o bs) (slice o n bs) (join (cuts (o + n) ns)))
      ∙ ap (λ t. t ++ join (cuts (o + n) ns)) (take-drop-append o n (o + n) bs refl)
      ∙ join-cuts ns (o + n)

  -- The lengths of the members, the gap among them.
  abbrev lengths : List ℕ
  lengths = 4 ∷ 1 ∷ 3 ∷ 2 ∷ 2 ∷ 4 ∷ 8 ∷ 8 ∷ 4 ∷ 4 ∷ 24 ∷ []

  segments-header_of : segments (header_of bs) ≡ cuts 0 lengths
  unfolding header_of cuts
  segments-header_of = λ i.
      back 0 4 (omega arith) i
      ∷ back 4 1 (omega arith) i
      ∷ slice 5 3 bs
      ∷ back 8 2 (omega arith) i
      ∷ back 10 2 (omega arith) i
      ∷ slice 12 4 bs
      ∷ back 16 8 (omega arith) i
      ∷ back 24 8 (omega arith) i
      ∷ back 32 4 (omega arith) i
      ∷ back 36 4 (omega arith) i
      ∷ slice 40 24 bs
      ∷ []

  -- Its bytes are those 64 bytes.
  pub header_bytes-header_of : header_bytes (header_of bs) ≡ take header_size bs
  unfolding header_bytes end_of
  header_bytes-header_of = ap join segments-header_of ∙ join-cuts lengths 0

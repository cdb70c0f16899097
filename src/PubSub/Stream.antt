-- ===== src/PubSub/Stream.antt =====
-- What a publisher has put into its ring: samples that are numbered from 1, carry the publisher's
-- type and id, and whose length and checksum fit the payload.
use lw_ipc.Base.{
  ℕ, ◌+◌, ◌^◌, ◌<◌, ◌≡◌, refl, sym, subst, ◌∙◌, true, some, List, [], ◌∷◌, ◌++◌, arith, length,
  get_elem?, length-append, zero, suc, ◌⊎◌, inl, inr,
}
use lw_ipc.Base.Words.{add64}
use lw_ipc.Crc.{crc32_update}
use lw_ipc.Message.{MsgType, msg_type_value, header_valid, new_header}
use lw_ipc.Ring.{IsCapacity}
use lw_ipc.Ring.Shm.{push}
use lw_ipc.Ring.Intra.{forget, forget-open_create}
use lw_ipc.Ring.Log.{Holds, max_positions, new_ring-Holds}
use lw_ipc.Ring.Trace.{push-forget-Holds}
use lw_ipc.PubSub.{Sample, Publisher, sample_of, new_publisher, publish_at, publish}

-- The sample at position `i` of a publisher with this type and id.
pub record IsSample (type : MsgType) (id i : ℕ) (s : Sample) : Type 0 where
  pub valid : header_valid s.header ≡ true
  pub typed : s.header.msg_type ≡ msg_type_value type
  pub from : s.header.sensor_id ≡ id
  pub numbered : s.header.sequence ≡ i + 1
  pub sized : s.header.data_length ≡ length s.payload
  pub checked : s.header.checksum ≡ crc32_update 0 s.payload

-- `log` is everything that this publisher published.
pub record IsStream (capacity : ℕ) (p : Publisher) (log : List Sample) : Type 0 where
  pub held : Holds capacity (forget p.ring) log
  pub counted : p.sequence ≡ length log
  pub each : (i : ℕ) (s : Sample) → get_elem? log i ≡ some s → IsSample p.msg_type p.sensor_id i s

-- The sample that a publisher of `n` samples makes of an item and a timestamp.
pub record Published (p : Publisher) (bytes : List ℕ) (timestamp n : ℕ) (s : Sample) : Type 0 where
  pub item : s.payload ≡ bytes
  pub stamp : s.header.timestamp_ns ≡ timestamp
  pub sample : IsSample p.msg_type p.sensor_id n s

pub new_publisher-IsStream :
    (capacity : ℕ) (gap blank zeroed name : List ℕ) (msg_type : MsgType) (sensor_id : ℕ)
    → IsStream capacity (new_publisher capacity gap blank zeroed name msg_type sensor_id) []
unfolding new_publisher
new_publisher-IsStream capacity gap blank zeroed name msg_type sensor_id = record {
  held =
      subst (λ t. Holds capacity t [])
        (sym (forget-open_create (record { header = new_header gap; payload = blank })))
        (new_ring-Holds capacity _);
  counted = refl;
  each = λ i s at. ground arith;
}

-- Where an element of a list with one more element at its end comes from.
get_elem?-append_one :
    {A : Type 0} (xs : List A) (x : A) (i : ℕ) (y : A)
    → get_elem? (xs ++ (x ∷ [])) i ≡ some y
    → (get_elem? xs i ≡ some y) ⊎ ((i ≡ length xs) × (x ≡ y))
get_elem?-append_one [] x zero y at = ground arith
get_elem?-append_one [] x (suc i) y at = ground arith
get_elem?-append_one (z ∷ xs) x zero y at = inl at
get_elem?-append_one (z ∷ xs) x (suc i) y at = ground (arith, get_elem?-append_one xs x i y at)

sample_of-IsSample :
    (gap : List ℕ) (msg_type : MsgType) (sensor_id : ℕ) (item : List ℕ) (timestamp i : ℕ)
    → length item < 2 ^ 32
    → IsSample msg_type sensor_id i (sample_of gap msg_type sensor_id item timestamp (i + 1))
unfolding sample_of header_valid
sample_of-IsSample gap msg_type sensor_id item timestamp i fits = record {
  valid = refl;
  typed = refl;
  from = refl;
  numbered = refl;
  sized = omega arith;
  checked = refl;
}

-- The sample that a publisher of `n` samples publishes next.
abbrev pub next_sample : List ℕ → Publisher → List ℕ → ℕ → ℕ → Sample
next_sample gap p item timestamp n = sample_of gap p.msg_type p.sensor_id item timestamp (n + 1)

module _ (capacity : ℕ) (c : IsCapacity capacity) (gap : List ℕ) (p : Publisher) (log : List Sample)
    (o : IsStream capacity p log) (item : List ℕ) (timestamp now : ℕ) where
  -- The stream grows by `next_sample`.
  pub publish_at-IsStream :
      length item < 2 ^ 32
      → length log < max_positions
      → IsStream capacity
          (publish_at capacity gap p item timestamp now)
          (log ++ (next_sample gap p item timestamp (length log) ∷ []))
  unfolding publish_at
  publish_at-IsStream fits room = record {
    held =
        subst
          (λ s.
            Holds capacity
              (forget
                (push capacity p.ring (sample_of gap p.msg_type p.sensor_id item timestamp s)
                  now).1)
              (log ++ (next ∷ [])))
          (sym numbered) (push-forget-Holds c p.ring next now o.held room);
    counted = numbered ∙ sym (length-append log (next ∷ []));
    each = λ i s at. elim (get_elem?-append_one log next i s at) [
      | inl old ↦ o.each i s old
      | inr (last, same) ↦
          subst (λ t. IsSample p.msg_type p.sensor_id t s) (sym last)
            (subst (λ t. IsSample p.msg_type p.sensor_id (length log) t) same
              (sample_of-IsSample gap p.msg_type p.sensor_id item timestamp (length log) fits))
    ];
  }
    where
      next : Sample
      next = next_sample gap p item timestamp (length log)

      numbered : add64 p.sequence 1 ≡ length log + 1
      numbered = omega (arith, o.counted)

  next_sample-item : (next_sample gap p item timestamp (length log)).payload ≡ item
  unfolding sample_of
  next_sample-item = refl

  next_sample-stamp :
      (next_sample gap p item timestamp (length log)).header.timestamp_ns ≡ timestamp
  unfolding sample_of
  next_sample-stamp = refl

  -- Each `publish` with an explicit timestamp appends to the stream one sample: its payload is the
  -- item, its header is valid and has this timestamp, the publisher's type and id, the next
  -- sequence number, and the length and the checksum of the item. `published()` counts it. The item
  -- is shorter than 2^32 bytes and fewer than `max_positions` samples were published.
  pub publish_at_lem :
      length item < 2 ^ 32
      → length log < max_positions
      → (s : Sample) × Published p item timestamp (length log) s
        × IsStream capacity (publish_at capacity gap p item timestamp now) (log ++ (s ∷ []))
        × ((publish_at capacity gap p item timestamp now).sequence ≡ length log + 1)
  unfolding publish_at
  publish_at_lem fits room = (
    next_sample gap p item timestamp (length log),
    record {
      item = next_sample-item;
      stamp = next_sample-stamp;
      sample = sample_of-IsSample gap p.msg_type p.sensor_id item timestamp (length log) fits;
    },
    publish_at-IsStream fits room,
    omega (arith, o.counted),
  )

  -- `publish` without a timestamp is `publish` with the clock's reading.
  publish-publish_at :
      publish capacity gap p item timestamp now ≡ publish_at capacity gap p item timestamp now
  unfolding publish publish_at
  publish-publish_at = refl

  pub publish-IsStream :
      length item < 2 ^ 32
      → length log < max_positions
      → IsStream capacity
          (publish capacity gap p item timestamp now)
          (log ++ (next_sample gap p item timestamp (length log) ∷ []))
  publish-IsStream fits room =
      subst (λ t. IsStream capacity t (log ++ (next_sample gap p item timestamp (length log) ∷ [])))
        (sym publish-publish_at) (publish_at-IsStream fits room)

-- ===== src/Message/Payload/Arrival.antt =====
-- A typed payload on its way to a receiver.
use lw_ipc.Base.{
  ℕ, ◌<◌, ◌≡◌, ◌^◌, sym, ap, ◌∙◌, subst, true, Option, none, some, List, ◌++◌, length,
}
use lw_ipc.Message.{MsgType, make, from_buffer, to_buffer, view_as, verify_checksum}
use lw_ipc.Message.Checksum.{make-received}
use lw_ipc.Message.Payload.{PayloadType, Payload, size_of, bytes_of, object_of}
use lw_ipc.Message.Payload.Layout.{InRange, length-bytes_of, object_of-bytes_of}

-- `as<T>`: the object that the pointer points to, if it is not null.
abbrev pub seen : (t : PayloadType) → Option (List ℕ) → Option (Payload t)
seen t none = none
seen t (some bs) = some (object_of t bs)

-- An object of each payload type, whose members are values of their types, arrives as it was sent:
-- after `make` and `to_buffer`, with any bytes behind them, `from_buffer` gives a message whose
-- checksum is right and in which `as` finds the same object. The size of the type is below 2^32,
-- and the arguments of `make` are in the ranges of their types.
pub arrival_lem :
    (t : PayloadType) (o : Payload t) (gap : List ℕ) (type : MsgType)
    (sensor_id timestamp_ns sequence : ℕ) (rest : List ℕ)
    → InRange t o
    → size_of t < 2 ^ 32
    → length gap ≡ 4
    → sensor_id < 2 ^ 16
    → timestamp_ns < 2 ^ 64
    → sequence < 2 ^ 64
    → let received =
        from_buffer
          (to_buffer (make gap type sensor_id timestamp_ns sequence (bytes_of t o)) ++ rest) in
      (verify_checksum received ≡ true) × (seen t (view_as (size_of t) received) ≡ some o)
arrival_lem t o gap type sensor_id timestamp_ns sequence rest h size gap_four sensor time seq =
    let bytes = length-bytes_of t o h in
    let (same, verified, view) =
      make-received gap type sensor_id timestamp_ns sequence (bytes_of t o) gap_four sensor time seq
        (subst (λ n. n < 2 ^ 32) (sym bytes) size) rest in
    (
      ap verify_checksum same ∙ verified,
      ap (λ m. seen t (view_as (size_of t) m)) same
          ∙ subst
              (λ n.
                seen t (view_as n (make gap type sensor_id timestamp_ns sequence (bytes_of t o)))
                ≡ some (object_of t (bytes_of t o)))
              bytes (ap (seen t) view)
          ∙ ap some (object_of-bytes_of t o h),
    )

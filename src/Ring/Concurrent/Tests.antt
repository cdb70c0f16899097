-- ===== src/Ring/Concurrent/Tests.antt =====
-- A run of one producer and one consumer over a ring of two slots, with payloads of two words.
use lw_ipc.Base.{ℕ, ◌+◌, ◌<◌, ◌≡◌, refl, arith}
use lw_ipc.Ring.{IsCapacity}
use lw_ipc.Ring.Concurrent.{
  Payload, fetch_add, mark, copy_in, publish, beat, something_new, is_ready, copy_out, whole,
  give_back, System, produce, consume, Reach, here, later,
}
use lw_ipc.Ring.Concurrent.Safety.{Steps, none_more, one_more, no_torn_read, no_redelivery}

two-IsCapacity : IsCapacity 2
two-IsCapacity = record { log2 = 1; pos = omega arith; power = refl }

abbrev blank : Payload ℕ
blank k = 0

-- The payload with words `a` and `a + 1`.
abbrev pair : ℕ → Payload ℕ
pair a k = a + k

-- One whole `push`.
abbrev full : (s : System ℕ) × Reach 2 2 blank s
full = (
  _,
  later
      (later
        (later
          (later (later (later here (produce (fetch_add (pair 20) (omega arith)))) (produce mark))
            (produce (copy_in (omega arith))))
          (produce (copy_in (omega arith))))
        (produce (publish (omega arith))))
      (produce (beat 7)),
)

-- Consumer 0 has copied the item.
abbrev first : (s : System ℕ) × Reach 2 2 blank s
first = (
  _,
  later
      (later
        (later
          (later (later full.1 (consume 0 (something_new (omega arith))))
            (consume 0 (is_ready blank refl)))
          (consume 0 (copy_out (omega arith))))
        (consume 0 (copy_out (omega arith))))
      (consume 0 (whole (omega arith) refl)),
)

-- It returns while the producer begins the next `push`.
abbrev returned : (s : System ℕ) × Steps 2 2 first.0 s
returned = (
  _,
  one_more (one_more none_more (produce (fetch_add (pair 30) (omega arith)))) (consume 0 give_back),
)

-- The next `push` ends, and consumer 0 has copied its item.
abbrev second : (s : System ℕ) × Steps 2 2 returned.0 s
second = (
  _,
  one_more
      (one_more
        (one_more
          (one_more
            (one_more
              (one_more
                (one_more
                  (one_more (one_more none_more (produce mark)) (produce (copy_in (omega arith))))
                  (produce (copy_in (omega arith))))
                (produce (publish (omega arith))))
              (consume 0 (something_new (omega arith))))
            (consume 0 (is_ready blank refl)))
          (consume 0 (copy_out (omega arith))))
        (consume 0 (copy_out (omega arith))))
      (consume 0 (whole (omega arith) refl)),
)

no_torn_read_example : (0 < 1) × (◌≡◌ {A = ℕ} 21 21)
no_torn_read_example = no_torn_read two-IsCapacity first.0 0 0 _ 1 first.1 refl (omega arith)

no_redelivery_example : 0 < 1
no_redelivery_example =
    no_redelivery first.0 returned.0 second.0 0 0 1 1 _ _ two-IsCapacity first.1 refl returned.1
      refl second.1 refl

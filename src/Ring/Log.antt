-- ===== src/Ring/Log.antt =====
-- A ring against the log of everything that was pushed: `push` appends, and `pop` reads the log at
-- the cursor, or at the oldest position still held if the cursor lies before that.
use lw_ipc.Base.{
  ℕ, zero, suc, ◌+◌, ◌-◌, ◌^◌, ◌≤◌, ◌<◌, ◌≡◌, ◌≢◌, refl, sym, ap, ◌∙◌, Option, none, some, List, [],
  ◌∷◌, ◌++◌, arith, ltb, leb, if◌then◌else◌, length, get_elem?, length-append, dec_lt,
}
use lw_ipc.Ring.{Slot, IsCapacity, index, ready_seq, store_sequence, store_item}
use lw_ipc.Ring.Index.{index-eq-mod, capacity_pos, mod-ne}
use lw_ipc.Ring.Intra.{IntraRing, new_ring, push, pop, pop_slot}

-- Fewer positions than this are ever used: then no sequence number wraps.
abbrev pub max_positions : ℕ
max_positions = 2 ^ 62

module _ {A : Type 0} where
  -- The specification of `pop`.
  abbrev pub read_log : ℕ → List A → ℕ → Option A × ℕ
  read_log capacity log pos =
      if leb (length log) pos
      then (none, pos)
      else let at = (if ltb capacity (length log - pos) then length log - capacity else pos) in
        (get_elem? log at, at + 1)

  -- The ring's last `capacity` positions hold the last items of the log, marked ready.
  pub record Holds (capacity : ℕ) (r : IntraRing A) (log : List A) : Type 0 where
    pub end : r.write_pos ≡ length log
    pub small : length log ≤ max_positions
    pub ready :
        (p : ℕ)
        → p < length log
        → length log ≤ p + capacity
        → (r.slots (index capacity p)).sequence ≡ ready_seq p
    pub stored :
        (p : ℕ)
        → p < length log
        → length log ≤ p + capacity
        → some (r.slots (index capacity p)).item ≡ get_elem? log p

  pub new_ring-Holds : (capacity : ℕ) (blank : A) → Holds capacity (new_ring blank) []
  unfolding new_ring
  new_ring-Holds capacity blank = record {
    end = refl;
    small = omega arith;
    ready = λ p h. absurd (omega arith);
    stored = λ p h. absurd (omega arith);
  }

  pub get_elem?-append_left :
      (xs ys : List A) (p : ℕ) → p < length xs → get_elem? (xs ++ ys) p ≡ get_elem? xs p
  get_elem?-append_left [] ys p h = absurd (omega arith)
  get_elem?-append_left (x ∷ xs) ys zero h = refl
  get_elem?-append_left (x ∷ xs) ys (suc p) h = get_elem?-append_left xs ys p (omega arith)

  pub get_elem?-append_last :
      (xs : List A) (x : A) → get_elem? (xs ++ (x ∷ [])) (length xs) ≡ some x
  get_elem?-append_last [] x = refl
  get_elem?-append_last (y ∷ xs) x = get_elem?-append_last xs x

  -- The three writes of a `push` change their slot only.
  stores_old :
      (slots : ℕ → Slot A) (i j s t : ℕ) (x : A)
      → i ≢ j
      → store_sequence (store_item (store_sequence slots i s) i x) i t j ≡ slots j
  stores_old slots i j s t x ne = ground arith

  stores_new :
      (slots : ℕ → Slot A) (i s t : ℕ) (x : A)
      → store_sequence (store_item (store_sequence slots i s) i x) i t i
        ≡ record { sequence = t; item = x }
  stores_new slots i s t x = ground arith

-- Two positions that a ring holds at once have different slots.
pub index-ne :
    {capacity : ℕ}
    → IsCapacity capacity
    → (p q : ℕ) → p < q
    → q < p + capacity
    → index capacity q ≢ index capacity p
index-ne {capacity} c p q h near e =
    mod-ne capacity p q h near (sym (index-eq-mod c p) ∙ sym e ∙ index-eq-mod c q)

module _ {A : Type 0} {capacity : ℕ} (c : IsCapacity capacity) {r : IntraRing A} {log : List A}
    (held : Holds capacity r log) where
  module _ (x : A) where
    -- The slot of an older position is not touched, and the new one is ready.
    push-slot_old :
        (p : ℕ)
        → p < length log
        → length log + 1 ≤ p + capacity
        → (push capacity r x).1.slots (index capacity p) ≡ r.slots (index capacity p)
    unfolding push
    push-slot_old p h near =
        stores_old r.slots (index capacity r.write_pos) (index capacity p) _ _ x
          λ e. index-ne c p (length log) h (omega arith) (ap (index capacity) (sym held.end) ∙ e)

    push-slot_new :
        (p : ℕ)
        → p ≡ length log
        → (push capacity r x).1.slots (index capacity p)
          ≡ record { sequence = ready_seq p; item = x }
    unfolding push
    push-slot_new p e =
        ap (λ t. (push capacity r x).1.slots (index capacity t)) (e ∙ sym held.end)
        ∙ stores_new r.slots (index capacity r.write_pos) _ _ x
        ∙ ap (λ t. record { sequence = ready_seq t; item = x }) (held.end ∙ sym e)

    push-end : length log < max_positions → (push capacity r x).1.write_pos ≡ length log + 1
    unfolding push
    push-end small = omega (arith, held.end)

    longer : length (log ++ (x ∷ [])) ≡ length log + 1
    longer = length-append log (x ∷ [])

    -- `push` takes the next position and appends to the log.
    pub push-Holds :
        length log < max_positions
        → ((push capacity r x).0 ≡ length log)
          × Holds capacity (push capacity r x).1 (log ++ (x ∷ []))
    unfolding push
    push-Holds small = (
      held.end,
      record {
        end = push-end small ∙ sym longer;
        small = omega (arith, longer);
        ready = λ p h near. elim (dec_lt p (length log)) [
          | yes old ↦
              ap (λ s. s.sequence) (push-slot_old p old (omega (arith, longer)))
              ∙ held.ready p old (omega (arith, longer))
          | no new ↦ ap (λ s. s.sequence) (push-slot_new p (omega (arith, longer)))
        ];
        stored = λ p h near. elim (dec_lt p (length log)) [
          | yes old ↦
              ap (λ s. some s.item) (push-slot_old p old (omega (arith, longer)))
              ∙ held.stored p old (omega (arith, longer))
              ∙ sym (get_elem?-append_left log (x ∷ []) p old)
          | no new ↦
              ap (λ s. some s.item) (push-slot_new p (omega (arith, longer)))
              ∙ sym (get_elem?-append_last log x)
              ∙ ap (get_elem? (log ++ (x ∷ []))) (omega (arith, longer))
        ];
      },
    )

  pop_slot-read :
      (p : ℕ)
      → p < length log
      → length log ≤ p + capacity
      → pop_slot capacity r p ≡ (get_elem? log p, p + 1)
  unfolding pop_slot
  pop_slot-read p h near = ground (arith, held.small, held.ready p h near, held.stored p h near)

  -- `pop` is `read_log`, at every cursor.
  pub pop-read_log : (pos : ℕ) → pop capacity r pos ≡ read_log capacity log pos
  unfolding pop
  pop-read_log pos =
      ground
        (arith, held.end, pop_slot-read pos, pop_slot-read (r.write_pos - capacity), capacity_pos c)

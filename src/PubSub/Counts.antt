-- ===== src/PubSub/Counts.antt =====
-- The counters of a `Subscriber` over any calls of `try_receive`, each with a ring of its own: the
-- position that the call loaded and the slots as they were when it looked at them.
use lw_ipc.Base.{
  ℕ, ◌+◌, ◌-◌, ◌<◌, ◌≤◌, ◌≡◌, refl, sym, subst, Option, none, some, List, [], ◌∷◌, arith,
}
use lw_ipc.Ring.{IsCapacity}
use lw_ipc.Ring.Index.{capacity_pos}
use lw_ipc.Ring.Shm.{ShmRing, pop, pop_slot}
use lw_ipc.Ring.Log.{max_positions}
use lw_ipc.PubSub.{Sample}
use lw_ipc.PubSub.Subscriber.{Doubles, Subscriber, try_receive, count_message}

-- What a call meets: the ring and the clock.
pub record Poll : Type 0 where
  pub ring : ShmRing Sample
  pub now : ℕ

-- No ring has been written to further than `max_positions`.
abbrev pub AllSmall : List Poll → Type 0
AllSmall [] = Unit
AllSmall (p ∷ polls) = (p.ring.write_pos ≤ max_positions) × AllSmall polls

-- What a call skipped without returning a message.
abbrev pub skipped_by : Option Sample → ℕ → ℕ → ℕ
skipped_by none pos next = next - pos
skipped_by (some slot) pos next = 0

-- What a call of `pop` does to the cursor.
pub record Advance {A : Type 0} (written pos : ℕ) (r : Option A × ℕ) : Type 0 where
  pub forward : pos ≤ r.1
  pub bounded : r.1 ≤ max_positions
  pub further : (x : A) → r.0 ≡ some x → pos < r.1

module _ {A : Type 0} (capacity : ℕ) (c : 0 < capacity) (r : ShmRing A) (pos : ℕ)
    (w : r.write_pos ≤ max_positions) (small : pos ≤ max_positions) where
  pop-Advance : Advance r.write_pos pos (pop capacity r pos)
  unfolding pop pop_slot
  pop-Advance = record {
    forward = ground (arith, c, w, small);
    bounded = ground (arith, c, w, small);
    further = λ x e. ground (arith, c, w, small, e);
  }

module _ {D : Type 0} (doubles : Doubles D) (capacity : ℕ) (ring : ShmRing Sample)
    (s : Subscriber D) (pos now : ℕ) where
  try_receive-none :
      (next : ℕ)
      → pop capacity ring pos ≡ (none, next)
      → try_receive doubles capacity ring s pos now ≡ (none, next, s)
  unfolding try_receive
  try_receive-none next h = ground (arith, h)

  try_receive-some :
      (slot : Sample) (next : ℕ)
      → pop capacity ring pos ≡ (some slot, next)
      → try_receive doubles capacity ring s pos now
        ≡ (some slot, next, count_message doubles s pos next slot now)
  unfolding try_receive
  try_receive-some slot next h = ground (arith, h)

  -- One call.
  count_message-balance :
      (slot : Sample) (next : ℕ)
      → pos < next
      → next ≤ max_positions
      → s.stats_received + s.stats_dropped ≤ pos
      → let s' = count_message doubles s pos next slot now in
        s'.stats_received + s'.stats_dropped + pos ≡ s.stats_received + s.stats_dropped + next
  unfolding count_message
  count_message-balance slot next lt le counts = ground (arith, lt, le, counts)

module _ {D : Type 0} (doubles : Doubles D) (capacity : ℕ) where
  -- The calls one after another: the cursor, the subscriber and the positions that were skipped by
  -- calls that returned nothing.
  unfoldable pub poll_all : List Poll → Subscriber D → ℕ → ℕ × Subscriber D × ℕ
  poll_all [] s pos = (pos, s, 0)
  poll_all (p ∷ polls) s pos =
      let (out, next, s') = try_receive doubles capacity p.ring s pos p.now in
      let (last, counted, skipped) = poll_all polls s' next in
      (last, counted, skipped_by out pos next + skipped)

  poll_all-cons :
      (p : Poll) (polls : List Poll) (s : Subscriber D) (pos : ℕ) (out : Option Sample) (next : ℕ)
      (s' : Subscriber D)
      → try_receive doubles capacity p.ring s pos p.now ≡ (out, next, s')
      → let (last, counted, skipped) = poll_all polls s' next in
        poll_all (p ∷ polls) s pos ≡ (last, counted, skipped_by out pos next + skipped)
  unfolding poll_all
  poll_all-cons p polls s pos out next s' h = ground (arith, h)

-- The counters, what was skipped without a message, and the way of the cursor from `pos`.
pub record Balance {D : Type 0} (s : Subscriber D) (pos : ℕ) (r : ℕ × Subscriber D × ℕ)
    : Type 0 where
  pub counted :
      r.1.stats_received + r.1.stats_dropped + r.2 + pos ≡ s.stats_received + s.stats_dropped + r.0
  pub bounded : r.0 ≤ max_positions

module _ {D : Type 0} (doubles : Doubles D) (capacity : ℕ) (c : IsCapacity capacity) where
  -- One call, and those behind it.
  cons-Balance :
      (p : Poll) (polls : List Poll) (s : Subscriber D) (pos : ℕ)
      → ((s' : Subscriber D) (next : ℕ)
          → next ≤ max_positions
          → s'.stats_received + s'.stats_dropped ≤ next
          → Balance s' next (poll_all doubles capacity polls s' next))
      → p.ring.write_pos ≤ max_positions
      → pos ≤ max_positions
      → s.stats_received + s.stats_dropped ≤ pos
      → (r : Option Sample × ℕ) → pop capacity p.ring pos ≡ r
      → Advance p.ring.write_pos pos r
      → Balance s pos (poll_all doubles capacity (p ∷ polls) s pos)
  cons-Balance p polls s pos behind w small counts (none, next) e advance =
      let rest = behind s next advance.bounded (omega (arith, counts, advance.forward)) in
      subst (Balance s pos)
        (sym (
          poll_all-cons doubles capacity p polls s pos none next s
            (try_receive-none doubles capacity p.ring s pos p.now next e)))
        (record { counted = omega (arith, rest.counted, advance.forward); bounded = rest.bounded })
  cons-Balance p polls s pos behind w small counts (some slot, next) e advance =
      let s' = count_message doubles s pos next slot p.now in
      let now =
        count_message-balance doubles capacity p.ring s pos p.now slot next
          (advance.further slot refl) advance.bounded counts in
      let rest = behind s' next advance.bounded (omega (arith, counts, now)) in
      subst (Balance s pos)
        (sym (
          poll_all-cons doubles capacity p polls s pos (some slot) next s'
            (try_receive-some doubles capacity p.ring s pos p.now slot next e)))
        (record { counted = omega (arith, rest.counted, now); bounded = rest.bounded })

  -- Over any calls of `try_receive`, whatever another process does to the ring: each position that
  -- the cursor passes is counted once, as received or as dropped, but for those that a call skips
  -- which then returns nothing, and which are counted nowhere. The capacity is a power of two, no
  -- ring is written to further than `max_positions`, and the counters together are at most the
  -- cursor at the start.
  pub poll_all-Balance :
      (polls : List Poll) (s : Subscriber D) (pos : ℕ)
      → AllSmall polls
      → pos ≤ max_positions
      → s.stats_received + s.stats_dropped ≤ pos
      → Balance s pos (poll_all doubles capacity polls s pos)
  unfolding poll_all
  poll_all-Balance [] s pos w small counts = record { counted = omega arith; bounded = small }
  poll_all-Balance (p ∷ polls) s pos (w, ws) small counts =
      cons-Balance p polls s pos (λ s' next. poll_all-Balance polls s' next ws) w small counts
        (pop capacity p.ring pos) refl (pop-Advance capacity (capacity_pos c) p.ring pos w small)

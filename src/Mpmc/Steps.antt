-- ===== src/Mpmc/Steps.antt =====
-- What one step of a producer or a consumer keeps.
use lw_ipc.Base.{ℕ, ◌≤◌, ◌≡◌, ◌≢◌, ◌⊎◌, inl, inr, refl, arith, none, some}
use lw_ipc.Ring.{IsCapacity}
use lw_ipc.Mpmc.{
  max_positions, Pusher, Popper, Memory, Push, call, load_pos, free, full, ahead, win, lose,
  copy_in, publish, Pop, call_pop, load_read, ready, empty, taken, win_pop, lose_pop, copy_out,
  release, give_back,
}
use lw_ipc.Mpmc.Invariant.{Positions, Slots, Pushing, Popping, pushes_at, pops_at}
use lw_ipc.Mpmc.Pushing.{
  found-Free, won-Positions, won-Slots, won-Pushing, won-Popping, won-claimed,
}
use lw_ipc.Mpmc.Storing.{
  copied-Positions, copied-Slots, copied-Pushing, copied-Popping, copied-claimed,
  published-Positions, published-Slots, published-Pushing, published-Popping,
}
use lw_ipc.Mpmc.Popping.{
  found-written, drawn-Positions, drawn-Slots, drawn-Pushing, drawn-Popping, drawn-reading,
}
use lw_ipc.Mpmc.Releasing.{
  copied_out, freed-Positions, freed-Slots, freed-Pushing, freed-Popping, freed-delivered,
}

module _ {B : Type 0} (capacity words : ℕ) where
  -- What a producer's step keeps.
  pub record PushKept (m : Memory B) (p : Pusher B) (m' : Memory B) (p' : Pusher B) : Type 0 where
    pub positions : Positions capacity words m'
    pub slots : Slots capacity words m'
    pub own : Pushing capacity words m' p'
    pub others :
        (q : Pusher B)
        → ((pos : ℕ) → pushes_at p ≡ some pos → pushes_at q ≢ some pos)
        → Pushing capacity words m q
        → Pushing capacity words m' q
    pub popping : (q : Popper B) → Popping capacity words m q → Popping capacity words m' q
    pub claim :
        (pos : ℕ) → pushes_at p' ≡ some pos → (pushes_at p ≡ some pos) ⊎ (m.ring.write_pos ≤ pos)

  -- What a consumer's step keeps.
  pub record PopKept (m : Memory B) (p : Popper B) (m' : Memory B) (p' : Popper B) : Type 0 where
    pub positions : Positions capacity words m'
    pub slots : Slots capacity words m'
    pub own : Popping capacity words m' p'
    pub others :
        (q : Popper B)
        → ((pos : ℕ) → pops_at p ≡ some pos → pops_at q ≢ some pos)
        → Popping capacity words m q
        → Popping capacity words m' q
    pub pushing : (q : Pusher B) → Pushing capacity words m q → Pushing capacity words m' q
    pub claim : (pos : ℕ) → pops_at p' ≡ some pos → (pops_at p ≡ some pos) ⊎ (m.ring.read_pos ≤ pos)

module _ {B : Type 0} {capacity words : ℕ} (c : IsCapacity capacity) where
  -- A step that changes no shared memory and claims nothing.
  local_push :
      (m : Memory B) (p p' : Pusher B)
      → Positions capacity words m
      → Slots capacity words m
      → Pushing capacity words m p'
      → pushes_at p' ≡ none
      → PushKept capacity words m p m p'
  local_push m p p' o sl own nothing = record {
    positions = o;
    slots = sl;
    own = own;
    others = λ q ne h. h;
    popping = λ q h. h;
    claim = λ pos e. ground (arith, nothing, e);
  }

  pub Push-PushKept :
      {m m' : Memory B} {p p' : Pusher B}
      → Push capacity words m p m' p'
      → Positions capacity words m
      → Slots capacity words m
      → Pushing capacity words m p
      → PushKept capacity words m p m' p'
  Push-PushKept {m} (call x) o sl h = local_push m _ _ o sl tt refl
  Push-PushKept {m} load_pos o sl h = local_push m _ _ o sl (omega arith) refl
  Push-PushKept {m} (free {pos = pos} e) o sl h =
      local_push m _ _ o sl (h, found-Free c m o sl pos h e) refl
  Push-PushKept {m} (full d l) o sl h = local_push m _ _ o sl tt refl
  Push-PushKept {m} (ahead d l) o sl h = local_push m _ _ o sl tt refl
  Push-PushKept {m} lose o sl h = local_push m _ _ o sl (omega arith) refl
  Push-PushKept {m} (win {pos = pos} {x = x} at room) o sl h = record {
    positions = won-Positions c m o sl pos x at room h.1;
    slots = won-Slots c m o sl pos x at room h.1;
    own = won-claimed c m o sl pos x at room h.1;
    others = λ q ne. won-Pushing c m o sl pos x at room h.1 q;
    popping = won-Popping c m o sl pos x at room h.1;
    claim = λ q e. inr (ground (arith, e));
  }
  Push-PushKept {m} (copy_in {pos = pos} {done = done} {x = x} more) o sl h = record {
    positions = copied-Positions c m o sl pos x done h;
    slots = copied-Slots c m o sl pos x done h;
    own = copied-claimed c m o sl pos x done h;
    others = λ q ne. copied-Pushing c m o sl pos x done h q (ne pos refl);
    popping = copied-Popping c m o sl pos x done h;
    claim = λ q e. inl e;
  }
  Push-PushKept {m} (publish {pos = pos} {done = done} {x = x} whole) o sl h = record {
    positions = published-Positions c m o sl pos x done h whole;
    slots = published-Slots c m o sl pos x done h whole;
    own = tt;
    others = λ q ne. published-Pushing c m o sl pos x done h whole q (ne pos refl);
    popping = published-Popping c m o sl pos x done h whole;
    claim = λ q e. absurd (ground (arith, e));
  }

  local_pop :
      (m : Memory B) (p p' : Popper B)
      → Positions capacity words m
      → Slots capacity words m
      → Popping capacity words m p'
      → pops_at p' ≡ none
      → PopKept capacity words m p m p'
  local_pop m p p' o sl own nothing = record {
    positions = o;
    slots = sl;
    own = own;
    others = λ q ne h. h;
    pushing = λ q h. h;
    claim = λ pos e. ground (arith, nothing, e);
  }

  pub Pop-PopKept :
      {m m' : Memory B} {p p' : Popper B}
      → capacity ≤ max_positions
      → Pop capacity words m p m' p'
      → Positions capacity words m
      → Slots capacity words m
      → Popping capacity words m p
      → PopKept capacity words m p m' p'
  Pop-PopKept {m} fits call_pop o sl h = local_pop m _ _ o sl tt refl
  Pop-PopKept {m} fits load_read o sl h = local_pop m _ _ o sl (omega arith) refl
  Pop-PopKept {m} fits (ready {pos = pos} e) o sl h =
      local_pop m _ _ o sl (h, found-written c m o sl pos h e) refl
  Pop-PopKept {m} fits (empty d l) o sl h = local_pop m _ _ o sl tt refl
  Pop-PopKept {m} fits (taken d l) o sl h = local_pop m _ _ o sl tt refl
  Pop-PopKept {m} fits lose_pop o sl h = local_pop m _ _ o sl (omega arith) refl
  Pop-PopKept {m} fits give_back o sl h = local_pop m _ _ o sl tt refl
  Pop-PopKept {m} fits (win_pop {pos = pos} out at) o sl h = record {
    positions = drawn-Positions c m o sl pos at h.1;
    slots = drawn-Slots c m o sl pos at h.1;
    own = drawn-reading c m o sl pos at h.1 out;
    others = λ q ne. drawn-Popping c m o sl pos at h.1 q;
    pushing = drawn-Pushing c m o sl pos at h.1;
    claim = λ q e. inr (ground (arith, e));
  }
  Pop-PopKept {m} fits (copy_out {pos = pos} {done = done} {out = out} more) o sl h = record {
    positions = o;
    slots = sl;
    own = copied_out c m o sl pos done out h more;
    others = λ q ne k. k;
    pushing = λ q k. k;
    claim = λ q e. inl e;
  }
  Pop-PopKept {m} fits (release {pos = pos} {done = done} {out = out} whole) o sl h = record {
    positions = freed-Positions c m o sl pos done out h;
    slots = freed-Slots c m o sl pos done out h fits;
    own = freed-delivered c m o sl pos done out h whole;
    others = λ q ne. freed-Popping c m o sl pos done out h q (ne pos refl);
    pushing = freed-Pushing c m o sl pos done out h;
    claim = λ q e. absurd (ground (arith, e));
  }

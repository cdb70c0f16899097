-- ===== src/Ring/Segment/Resources.antt =====
-- Which descriptors and mappings are left behind.
use lw_ipc.Base.{
  if◌then◌else◌, ℕ, ◌≡◌, refl, ap, ◌∙◌, arith, Bool, true, false, Option, none, some, ℕ_discrete,
}
use lw_ipc.Ring.{update}
use lw_ipc.Ring.Segment.{Posix, Built, built, threw, map_segment, destroy}

-- Two states with the same open descriptors and mappings.
pub record Same {W : Type 0} (is_open is_mapped : W → ℕ → Bool) (w w' : W) : Type 0 where
  pub opened : (k : ℕ) → is_open w' k ≡ is_open w k
  pub mapped : (k : ℕ) → is_mapped w' k ≡ is_mapped w k

-- The documented behaviour: a call that succeeds opens a descriptor that was not open or maps an
-- address that was not mapped, one that fails changes neither, and `close` and `munmap` undo them.
pub record Documented {W : Type 0} (os : Posix W) (is_open is_mapped : W → ℕ → Bool) : Type 0 where
  pub opens :
      (create : Bool) (w w' : W) (n : ℕ)
      → os.shm_open create w ≡ (some n, w')
      → (is_open w n ≡ false)
        × ((k : ℕ) → is_open w' k ≡ update (is_open w) n true k)
        × ((k : ℕ) → is_mapped w' k ≡ is_mapped w k)
  pub open_fails :
      (create : Bool) (w w' : W) → os.shm_open create w ≡ (none, w') → Same is_open is_mapped w w'
  pub probes :
      (w w' : W) (n : ℕ)
      → os.shm_probe w ≡ (some n, w')
      → (is_open w n ≡ false)
        × ((k : ℕ) → is_open w' k ≡ update (is_open w) n true k)
        × ((k : ℕ) → is_mapped w' k ≡ is_mapped w k)
  pub probe_fails : (w w' : W) → os.shm_probe w ≡ (none, w') → Same is_open is_mapped w w'
  pub sizes :
      (n : ℕ) (w w' : W) (ok : Bool) → os.ftruncate n w ≡ (ok, w') → Same is_open is_mapped w w'
  pub maps :
      (n : ℕ) (w w' : W) (a : ℕ)
      → os.mmap n w ≡ (some a, w')
      → (is_mapped w a ≡ false)
        × ((k : ℕ) → is_mapped w' k ≡ update (is_mapped w) a true k)
        × ((k : ℕ) → is_open w' k ≡ is_open w k)
  pub map_fails : (n : ℕ) (w w' : W) → os.mmap n w ≡ (none, w') → Same is_open is_mapped w w'
  pub unmaps :
      (a : ℕ) (w : W)
      → is_mapped w a ≡ true
      → ((k : ℕ) → is_mapped (os.munmap a w) k ≡ update (is_mapped w) a false k)
        × ((k : ℕ) → is_open (os.munmap a w) k ≡ is_open w k)
  pub closes :
      (n : ℕ) (w : W)
      → is_open w n ≡ true
      → ((k : ℕ) → is_open (os.close n w) k ≡ update (is_open w) n false k)
        × ((k : ℕ) → is_mapped (os.close n w) k ≡ is_mapped w k)
  pub unlinks : (w : W) → Same is_open is_mapped w (os.shm_unlink w)

-- What was set is as before once it is reset.
pub put_back :
    (f g : ℕ → Bool) (n : ℕ)
    → f n ≡ false
    → ((k : ℕ) → g k ≡ update f n true k)
    → (k : ℕ) → update g n false k ≡ f k
put_back f g n off on k = elim (ℕ_discrete n k) [
  | yes e ↦ ground (arith, e, off, ap f e)
  | no ne ↦ ground (arith, ne, on k)
]

module _ {W : Type 0} (os : Posix W) where
  -- The state in which `shm_open` is called: a creator has removed a stale segment.
  abbrev pub before : Bool → W → W
  before create w = if create then os.shm_unlink w else w

  -- `ftruncate` succeeded, which only a creator calls.
  abbrev pub Sized : Bool → ℕ → W → W → Type 0
  Sized true n w₁ w₂ = os.ftruncate n w₁ ≡ (true, w₂)
  Sized false n w₁ w₂ = w₁ ≡ w₂

module _ {W : Type 0} (is_open is_mapped : W → ℕ → Bool) where
  pub Same-trans :
      (a b c : W)
      → Same is_open is_mapped a b
      → Same is_open is_mapped b c
      → Same is_open is_mapped a c
  Same-trans a b c h k = record {
    opened = λ i. k.opened i ∙ h.opened i;
    mapped = λ i. k.mapped i ∙ h.mapped i;
  }

  -- A descriptor more than before is open.
  abbrev pub Leaks : W → W → ℕ → Type 0
  Leaks w w' n =
      (is_open w n ≡ false)
      × ((k : ℕ) → is_open w' k ≡ update (is_open w) n true k)
      × ((k : ℕ) → is_mapped w' k ≡ is_mapped w k)

  -- How the constructor ends, by the first of its calls that failed, and what it leaves behind.
  pub data Outcome (os : Posix W) (create : Bool) (w : W) (r : Built × W) : Type 0 where
    ready :
        (w₁ w₂ w' : W) (n a : ℕ)
        → os.shm_open create (before os create w) ≡ (some n, w₁)
        → Sized os create n w₁ w₂
        → os.mmap n w₂ ≡ (some a, w')
        → r ≡ (built (record { is_owner = create; fd = some n; ctrl = some a }), w')
        → Same is_open is_mapped w
            (destroy os (record { is_owner = create; fd = some n; ctrl = some a }) w')
        → Outcome os create w r
    not_opened :
        (w' : W)
        → os.shm_open create (before os create w) ≡ (none, w')
        → r ≡ (threw (record { is_owner = create; fd = none; ctrl = none }), w')
        → Same is_open is_mapped w w'
        → Outcome os create w r
    not_sized :
        (w₁ w' : W) (n : ℕ)
        → create ≡ true
        → os.shm_open create (before os create w) ≡ (some n, w₁)
        → os.ftruncate n w₁ ≡ (false, w')
        → r ≡ (threw (record { is_owner = create; fd = some n; ctrl = none }), w')
        → Leaks w w' n
        → Outcome os create w r
    not_mapped :
        (w₁ w₂ w' : W) (n : ℕ)
        → os.shm_open create (before os create w) ≡ (some n, w₁)
        → Sized os create n w₁ w₂
        → os.mmap n w₂ ≡ (none, w')
        → r ≡ (threw (record { is_owner = create; fd = some n; ctrl = none }), w')
        → Leaks w w' n
        → Outcome os create w r

module _ {W : Type 0} (os : Posix W) (is_open is_mapped : W → ℕ → Bool)
    (d : Documented os is_open is_mapped) where
  -- The destructor gives back a descriptor and a mapping.
  pub closed_again :
      (w w₁ w₂ : W) (n a : ℕ)
      → Leaks is_open is_mapped w w₁ n
      → is_mapped w₁ a ≡ false
      → ((k : ℕ) → is_mapped w₂ k ≡ update (is_mapped w₁) a true k)
      → ((k : ℕ) → is_open w₂ k ≡ is_open w₁ k)
      → Same is_open is_mapped w (os.close n (os.munmap a w₂))
  closed_again w w₁ w₂ n a l fresh map keep =
      let u = d.unmaps a w₂ (map a ∙ ground arith) in
      let v = d.closes n (os.munmap a w₂) (u.1 n ∙ keep n ∙ l.1 n ∙ ground arith) in
      record {
        opened = λ k.
            v.0 k
            ∙ put_back (is_open w) (is_open (os.munmap a w₂)) n l.0 (λ i. u.1 i ∙ keep i ∙ l.1 i) k;
        mapped = λ k. v.1 k ∙ u.0 k ∙ put_back (is_mapped w₁) (is_mapped w₂) a fresh map k ∙ l.2 k;
      }

  destroy-Same :
      (create : Bool) (w w₂ : W) (n a : ℕ)
      → Same is_open is_mapped w (os.close n (os.munmap a w₂))
      → Same is_open is_mapped w
          (destroy os (record { is_owner = create; fd = some n; ctrl = some a }) w₂)
  unfolding destroy
  destroy-Same true w w₂ n a h =
      Same-trans is_open is_mapped w (os.close n (os.munmap a w₂)) _ h
        (d.unlinks (os.close n (os.munmap a w₂)))
  destroy-Same false w w₂ n a h = h

  map_segment-next :
      (create : Bool) (n : ℕ) (w₁ w' : W) (mem : Option ℕ)
      → os.mmap n w₁ ≡ (mem, w')
      → map_segment os create n w₁ ≡ (elim mem [
        | none ↦ (threw (record { is_owner = create; fd = some n; ctrl = none }), w')
        | some a ↦ (built (record { is_owner = create; fd = some n; ctrl = some a }), w')
      ])
  unfolding map_segment
  map_segment-next create n w₁ w' mem e = ground (arith, e)

  pub map_segment-Outcome :
      (create : Bool) (w w₁ w₂ : W) (n : ℕ)
      → os.shm_open create (before os create w) ≡ (some n, w₁)
      → Sized os create n w₁ w₂
      → Leaks is_open is_mapped w w₂ n
      → Outcome is_open is_mapped os create w (map_segment os create n w₂)
  map_segment-Outcome create w w₁ w₂ n opened sized l = by_result (os.mmap n w₂) refl
    where
      by_result :
          (m : Option ℕ × W)
          → os.mmap n w₂ ≡ m
          → Outcome is_open is_mapped os create w (map_segment os create n w₂)
      by_result (none, w') e =
          let same = d.map_fails n w₂ w' e in
          not_mapped w₁ w₂ w' n opened sized e (map_segment-next create n w₂ w' none e)
            (l.0, λ k. same.opened k ∙ l.1 k, λ k. same.mapped k ∙ l.2 k)
      by_result (some a, w') e =
          let m = d.maps n w₂ w' a e in
          ready w₁ w₂ w' n a opened sized e (map_segment-next create n w₂ w' (some a) e)
            (destroy-Same create w w' n a (closed_again w w₂ w' n a l m.0 m.1 m.2))

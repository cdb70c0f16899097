-- ===== src/Registry/Names.antt =====
-- The registry knows a channel by at most 63 characters of its name.
use lw_ipc.Base.{ℕ, zero, suc, ◌≡◌, ◌↔◌, refl, true, List, [], ◌∷◌, ◌++◌, arith, take, ap}
use lw_ipc.Registry.{strncpy, strncmp_equal, c_string}

-- What the registry keeps of a name.
abbrev pub key : ℕ → List ℕ → List ℕ
key n name = take n (c_string name)

-- `strncmp` finds two names equal just when they have the same key.
pub strncmp_equal-key : (n : ℕ) (a b : List ℕ) → (strncmp_equal n a b ≡ true) ↔ (key n a ≡ key n b)
unfolding strncmp_equal c_string
strncmp_equal-key zero a b = ground arith
strncmp_equal-key (suc n) [] [] = ground arith
strncmp_equal-key (suc n) [] (zero ∷ b) = ground arith
strncmp_equal-key (suc n) [] (suc d ∷ b) = ground arith
strncmp_equal-key (suc n) (zero ∷ a) [] = ground arith
strncmp_equal-key (suc n) (suc c ∷ a) [] = ground arith
strncmp_equal-key (suc n) (zero ∷ a) (zero ∷ b) = ground arith
strncmp_equal-key (suc n) (zero ∷ a) (suc d ∷ b) = ground arith
strncmp_equal-key (suc n) (suc c ∷ a) (zero ∷ b) = ground arith
strncmp_equal-key (suc n) (suc c ∷ a) (suc d ∷ b) = ground (arith, strncmp_equal-key n a b)

-- The stored name has the key of the name it was stored for.
pub key-strncpy : (n : ℕ) (name : List ℕ) → key n (strncpy n name ++ (0 ∷ [])) ≡ key n name
unfolding strncpy c_string
key-strncpy zero name = refl
key-strncpy (suc n) [] = refl
key-strncpy (suc n) (zero ∷ name) = refl
key-strncpy (suc n) (suc c ∷ name) = ap (λ t. suc c ∷ t) (key-strncpy n name)

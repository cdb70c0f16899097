-- ===== src/Base/Bytes.antt =====
-- Little-endian numbers, and slices of a byte buffer that is laid out in segments.
use Prim.Native.Nat.{ℕ, zero, suc, ◌+◌, ◌-◌, ◌*◌, ◌/◌, ◌%◌, ◌^◌, ◌≤◌, ◌<◌}
use mathlib.Core.Path.{◌≡◌, refl, sym, ap, ap₂, ◌∙◌}
use mathlib.Core.List.{List, [], ◌∷◌, ◌++◌, append_assoc, append-nil}
use native.Mathlib.Omega.{arith}
use native.Mathlib.Nat.{pow-suc}
use lw_ipc.Base.Lists.{length, take, drop, get_or, length-take, length-drop}
use lw_ipc.Base.Words.{AllBytes}

-- The `w` bytes of a number, the lowest first, and the number of some bytes.
abbrev pub to_le : ℕ → ℕ → List ℕ
to_le zero v = []
to_le (suc w) v = (v % 256) ∷ to_le w (v / 256)

abbrev pub from_le : List ℕ → ℕ
from_le [] = 0
from_le (b ∷ bs) = b + 256 * from_le bs

pub length-to_le : (w v : ℕ) → length (to_le w v) ≡ w
length-to_le zero v = refl
length-to_le (suc w) v = ap suc (length-to_le w (v / 256))

pub to_le-AllBytes : (w v : ℕ) → AllBytes (to_le w v)
to_le-AllBytes zero v = tt
to_le-AllBytes (suc w) v = (omega arith, to_le-AllBytes w (v / 256))

pub from_le-to_le : (w v : ℕ) → v < 256 ^ w → from_le (to_le w v) ≡ v
from_le-to_le zero v h = omega arith
from_le-to_le (suc w) v h = omega (arith, from_le-to_le w (v / 256) below)
  where
    below : v / 256 < 256 ^ w
    below = omega (arith, pow-suc 256 w)

pub from_le-lt : (bs : List ℕ) → AllBytes bs → from_le bs < 256 ^ length bs
from_le-lt [] h = omega arith
from_le-lt (b ∷ bs) h = omega (arith, h.0, from_le-lt bs h.1, pow-suc 256 (length bs))

pub to_le-from_le : (w : ℕ) (bs : List ℕ) → AllBytes bs → length bs ≡ w → to_le w (from_le bs) ≡ bs
to_le-from_le zero [] h e = refl
to_le-from_le zero (b ∷ bs) h e = absurd (omega arith)
to_le-from_le (suc w) [] h e = absurd (omega arith)
to_le-from_le (suc w) (b ∷ bs) h e =
    ap₂ ◌∷◌ low (ap (to_le w) high ∙ to_le-from_le w bs h.1 (omega arith))
  where
    low : (b + 256 * from_le bs) % 256 ≡ b
    low = omega (arith, h.0)

    high : (b + 256 * from_le bs) / 256 ≡ from_le bs
    high = omega (arith, h.0)

-- The `n` bytes from offset `o` on.
abbrev pub slice : ℕ → ℕ → List ℕ → List ℕ
slice o n bs = take n (drop o bs)

pub AllBytes-take : (n : ℕ) (bs : List ℕ) → AllBytes bs → AllBytes (take n bs)
AllBytes-take zero bs h = tt
AllBytes-take (suc n) [] h = tt
AllBytes-take (suc n) (b ∷ bs) h = (h.0, AllBytes-take n bs h.1)

pub AllBytes-drop : (n : ℕ) (bs : List ℕ) → AllBytes bs → AllBytes (drop n bs)
AllBytes-drop zero bs h = h
AllBytes-drop (suc n) [] h = tt
AllBytes-drop (suc n) (b ∷ bs) h = AllBytes-drop n bs h.1

pub AllBytes-append : (xs ys : List ℕ) → AllBytes xs → AllBytes ys → AllBytes (xs ++ ys)
AllBytes-append [] ys hx hy = hy
AllBytes-append (x ∷ xs) ys hx hy = (hx.0, AllBytes-append xs ys hx.1 hy)

pub length-slice : (o n : ℕ) (bs : List ℕ) → o + n ≤ length bs → length (slice o n bs) ≡ n
length-slice o n bs h = omega (arith, length-take n (drop o bs), length-drop o bs)

module _ {ℓ} {A : Type ℓ} where
  pub take-append : (n : ℕ) (xs ys : List A) → length xs ≡ n → take n (xs ++ ys) ≡ xs
  take-append zero [] ys e = refl
  take-append zero (x ∷ xs) ys e = absurd (omega arith)
  take-append (suc n) [] ys e = absurd (omega arith)
  take-append (suc n) (x ∷ xs) ys e = ap (λ t. x ∷ t) (take-append n xs ys (omega arith))

  pub drop-append : (n : ℕ) (xs ys : List A) → length xs ≡ n → drop n (xs ++ ys) ≡ ys
  drop-append zero [] ys e = refl
  drop-append zero (x ∷ xs) ys e = absurd (omega arith)
  drop-append (suc n) [] ys e = absurd (omega arith)
  drop-append (suc n) (x ∷ xs) ys e = drop-append n xs ys (omega arith)

  pub take-all : (n : ℕ) (xs : List A) → length xs ≡ n → take n xs ≡ xs
  take-all n xs e = ap (take n) (sym (append-nil xs)) ∙ take-append n xs [] e

  pub take-append_ge :
      (n : ℕ) (xs ys : List A) → length xs ≤ n → take n (xs ++ ys) ≡ xs ++ take (n - length xs) ys
  take-append_ge n [] ys h = ap (λ k. take k ys) whole
    where
      whole : n ≡ n - 0
      whole = omega arith
  take-append_ge zero (x ∷ xs) ys h = absurd (omega arith)
  take-append_ge (suc n) (x ∷ xs) ys h =
      ap (λ t. x ∷ t) (take-append_ge n xs ys (omega arith) ∙ ap (λ k. xs ++ take k ys) same)
    where
      same : n - length xs ≡ suc n - suc (length xs)
      same = omega arith

  pub take-nil : (n : ℕ) → take {A = A} n [] ≡ []
  take-nil zero = refl
  take-nil (suc n) = refl

  -- Two slices in a row are one.
  pub take-drop-append :
      (o n m : ℕ) (xs : List A) → o + n ≡ m → take o xs ++ take n (drop o xs) ≡ take m xs
  take-drop-append zero n m xs e = ap (λ k. take k xs) same
    where
      same : n ≡ m
      same = omega arith
  take-drop-append (suc o) n zero xs e = absurd (omega arith)
  take-drop-append (suc o) n (suc m) [] e = take-nil n
  take-drop-append (suc o) n (suc m) (x ∷ xs) e =
      ap (λ t. x ∷ t) (take-drop-append o n m xs (omega arith))

-- A buffer made of segments in a row, and the offset at which the segment `i` starts.
abbrev pub join : List (List ℕ) → List ℕ
join [] = []
join (s ∷ ss) = s ++ join ss

abbrev pub offset : ℕ → List (List ℕ) → ℕ
offset zero ss = 0
offset (suc i) [] = 0
offset (suc i) (s ∷ ss) = length s + offset i ss

drop-add-append : (k o : ℕ) (xs ys : List ℕ) → length xs ≡ k → drop (k + o) (xs ++ ys) ≡ drop o ys
drop-add-append zero o [] ys e = ap (λ t. drop t ys) zero_left
  where
    zero_left : zero + o ≡ o
    zero_left = omega arith
drop-add-append zero o (x ∷ xs) ys e = absurd (omega arith)
drop-add-append (suc k) o [] ys e = absurd (omega arith)
drop-add-append (suc k) o (x ∷ xs) ys e =
    ap (λ t. drop t (x ∷ (xs ++ ys))) suc_left ∙ drop-add-append k o xs ys (omega arith)
  where
    suc_left : suc k + o ≡ suc (k + o)
    suc_left = omega arith

-- A slice at a segment's offset and length is that segment.
pub slice-join :
    (i o n : ℕ) (ss : List (List ℕ)) (rest : List ℕ)
    → i < length ss
    → offset i ss ≡ o
    → length (get_or ss i []) ≡ n
    → slice o n (join ss ++ rest) ≡ get_or ss i []
slice-join i o n [] rest h p q = absurd (omega arith)
slice-join zero o n (s ∷ ss) rest h p q =
    ap (λ t. take n (drop t ((s ++ join ss) ++ rest))) (sym p)
    ∙ ap (take n) (append_assoc s (join ss) rest)
    ∙ take-append n s (join ss ++ rest) q
slice-join (suc i) o n (s ∷ ss) rest h p q =
    ap (λ t. take n (drop t ((s ++ join ss) ++ rest))) (sym p)
    ∙ ap (λ t. take n (drop (length s + offset i ss) t)) (append_assoc s (join ss) rest)
    ∙ ap (take n) (drop-add-append (length s) (offset i ss) s (join ss ++ rest) refl)
    ∙ slice-join i (offset i ss) n ss rest (omega arith) refl q

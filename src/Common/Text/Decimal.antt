-- ===== src/Common/Text/Decimal.antt =====
-- `strconv.Atoi` and `strconv.Itoa` for a 64-bit `int`.
use Prim.Native.Nat.{ℕ, zero, suc, ◌+◌, ◌-◌, ◌*◌, ◌/◌, ◌%◌, ◌^◌, ◌<◌}
use mathlib.Core.Path.{◌≡◌, refl, ap, ◌∙◌}
use mathlib.Core.Bool.{true, false, not, ◌||◌}
use mathlib.Core.Logic.{inl, inr}
use mathlib.Core.Option.{Option, none, some}
use mathlib.Core.List.{[], ◌∷◌}
use native.Mathlib.Omega.{arith}
use yapi.Common.Tests.{ltb, leb, ◌==◌, if◌then◌else◌, Bool-cases}
use yapi.Common.Lists.{is_nil, all}
use yapi.Common.Int.{ℤ, pos, negsuc}
use yapi.Common.Text.{Text, is_digit}

-- The value of decimal digits read behind the value `v`.
unfoldable pub horner : ℕ → Text → ℕ
horner v [] = v
horner v (c ∷ s) = horner (v * 10 + (c - 48)) s

abbrev pub digits_value : Text → Option ℕ
digits_value s = if is_nil s || not (all is_digit s) then none else some (horner 0 s)

abbrev to_pos : Option ℕ → Option ℤ
to_pos none = none
to_pos (some n) = if ltb n (2 ^ 63) then some (pos n) else none

-- `-n`
abbrev neg : ℕ → ℤ
neg zero = pos 0
neg (suc n) = negsuc n

abbrev to_neg : Option ℕ → Option ℤ
to_neg none = none
to_neg (some n) = if leb n (2 ^ 63) then some (neg n) else none

-- `strconv.Atoi(s)`; `none` stands for its error.
unfoldable pub atoi : Text → Option ℤ
unfolding horner
atoi [] = none
atoi (c ∷ s) =
    if c == b'-'
    then to_neg (digits_value s)
    else if c == b'+'
    then to_pos (digits_value s)
    else to_pos (digits_value (c ∷ s))

-- The digits of `n` before `acc`, on fuel.
unfoldable pub digits_from : ℕ → ℕ → Text → Text
digits_from zero n acc = acc
digits_from (suc f) n acc =
    let more = digits_from f (n / 10) ((48 + n % 10) ∷ acc) in
    if ltb n 10 then (48 + n) ∷ acc else more

-- `strconv.Itoa(z)`; the fuel is above the number.
unfoldable pub itoa : ℤ → Text
unfolding digits_from
itoa (pos n) = digits_from (suc n) n []
itoa (negsuc n) = b'-' ∷ digits_from (suc (suc n)) (suc n) []

-- The integer fits in 64 bits.
abbrev pub IsInt64 : ℤ → Type 0
IsInt64 (pos n) = n < 2 ^ 63
IsInt64 (negsuc n) = n < 2 ^ 63

horner-digits_from : (f n : ℕ) (acc : Text) → n < f → horner 0 (digits_from f n acc) ≡ horner n acc
unfolding horner digits_from
horner-digits_from zero n acc h = elim h [ ]
horner-digits_from (suc f) n acc h = elim (Bool-cases (ltb n 10)) [
  | inl e ↦ rw e (ap (λ v. horner v acc) (omega arith))
  | inr e ↦ rw e (
      horner-digits_from f (n / 10) ((48 + n % 10) ∷ acc) (ground arith)
      ∙ ap (λ v. horner v acc) (omega arith))
]

-- Every character is a digit; so none is a sign, a dot, a bracket or white space.
pub digits_from-all :
    (f n : ℕ) (acc : Text) → all is_digit acc ≡ true → all is_digit (digits_from f n acc) ≡ true
unfolding digits_from
digits_from-all zero n acc h = h
digits_from-all (suc f) n acc h = elim (Bool-cases (ltb n 10)) [
  | inl e ↦ rw e (ground arith)
  | inr e ↦ rw e (digits_from-all f (n / 10) ((48 + n % 10) ∷ acc) (ground arith))
]

pub digits_from-ne-nil : (f n : ℕ) (acc : Text) → n < f → is_nil (digits_from f n acc) ≡ false
unfolding digits_from
digits_from-ne-nil zero n acc h = elim h [ ]
digits_from-ne-nil (suc f) n acc h = elim (Bool-cases (ltb n 10)) [
  | inl e ↦ rw e
  | inr e ↦ rw e (go f (n / 10) ((48 + n % 10) ∷ acc) refl)
]
  where
    go : (f n : ℕ) (acc : Text) → is_nil acc ≡ false → is_nil (digits_from f n acc) ≡ false
    go zero n acc h = h
    go (suc f) n acc h = elim (Bool-cases (ltb n 10)) [
      | inl e ↦ rw e
      | inr e ↦ rw e (go f (n / 10) ((48 + n % 10) ∷ acc) refl)
    ]

pub digits_value-digits_from : (f n : ℕ) → n < f → digits_value (digits_from f n []) ≡ some n
unfolding horner
digits_value-digits_from f n h =
    rw (digits_from-ne-nil f n [] h, digits_from-all f n [] refl)
      (ap some (horner-digits_from f n [] h))

-- A text of digits is read as its value.
atoi_of_digits :
    (s : Text) (n : ℕ)
    → all is_digit s ≡ true
    → digits_value s ≡ some n
    → n < 2 ^ 63
    → atoi s ≡ some (pos n)
unfolding atoi
atoi_of_digits [] n d e h = cc
atoi_of_digits (c ∷ s) n d e h = ground arith

-- What is printed is read back.
pub atoi-itoa : (z : ℤ) → IsInt64 z → atoi (itoa z) ≡ some z
unfolding itoa
atoi-itoa (pos n) h =
    atoi_of_digits _ n (digits_from-all (suc n) n [] refl)
      (digits_value-digits_from (suc n) n (omega arith)) h
atoi-itoa (negsuc n) h =
    unfold atoi in rw (digits_value-digits_from (suc (suc n)) (suc n) (omega arith)) (ground arith)

to_pos-IsInt64 : (o : Option ℕ) (z : ℤ) → to_pos o ≡ some z → IsInt64 z
to_pos-IsInt64 none z e = cc
to_pos-IsInt64 (some n) (pos m) e = ground arith
to_pos-IsInt64 (some n) (negsuc m) e = ground arith

to_neg-IsInt64 : (o : Option ℕ) (z : ℤ) → to_neg o ≡ some z → IsInt64 z
to_neg-IsInt64 none z e = cc
to_neg-IsInt64 (some zero) (pos m) e = ground arith
to_neg-IsInt64 (some zero) (negsuc m) e = ground arith
to_neg-IsInt64 (some (suc n)) (pos m) e = ground arith
to_neg-IsInt64 (some (suc n)) (negsuc m) e = ground arith

-- What is read fits in 64 bits.
pub atoi-IsInt64 : (s : Text) (z : ℤ) → atoi s ≡ some z → IsInt64 z
unfolding atoi
atoi-IsInt64 [] z e = cc
atoi-IsInt64 (c ∷ s) z e = elim (Bool-cases (c == b'-')) [
  | inl minus ↦ to_neg-IsInt64 (digits_value s) z (rw minus at e)
  | inr other ↦ elim (Bool-cases (c == b'+')) [
    | inl plus ↦ to_pos-IsInt64 (digits_value s) z (rw (other, plus) at e)
    | inr digit ↦ to_pos-IsInt64 (digits_value (c ∷ s)) z (rw (other, digit) at e)
  ]
]

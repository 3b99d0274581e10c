-- ===== src/Common/Text/Trim.antt =====
-- Laws of `trim_space`: what is blank, that trimming twice is trimming once, what it keeps.
use Prim.Native.Nat.{ℕ}
use mathlib.Core.Path.{◌≡◌, refl, ap, ◌∙◌}
use mathlib.Core.Logic.{inl, inr}
use mathlib.Core.Bool.{Bool, false, ◌&&◌}
use mathlib.Core.List.{List, [], ◌∷◌, ◌++◌}
use native.Mathlib.Omega.{arith}
use yapi.Common.Tests.{Bool-cases}
use yapi.Common.Lists.{is_nil, all, All}
use yapi.Common.Text.{Text, is_space, trim_left, trim_right, trim_space, is_blank}

-- The text is empty or begins with a character that is not white space.
abbrev IsFlush : Text → Type 0
IsFlush [] = Unit
IsFlush (c ∷ s) = is_space c ≡ false

trim_left-IsFlush : (s : Text) → IsFlush (trim_left s)
unfolding trim_left
trim_left-IsFlush [] = tt
trim_left-IsFlush (c ∷ s) = elim (Bool-cases (is_space c)) [
  | inl e ↦ rw e (trim_left-IsFlush s)
  | inr e ↦ rw e e
]

trim_left_of_IsFlush : (s : Text) → IsFlush s → trim_left s ≡ s
unfolding trim_left
trim_left_of_IsFlush [] h = refl
trim_left_of_IsFlush (c ∷ s) h = rw h

trim_right-IsFlush : (s : Text) → IsFlush s → IsFlush (trim_right s)
unfolding trim_right
trim_right-IsFlush [] h = tt
trim_right-IsFlush (c ∷ s) h = elim (Bool-cases (is_nil (trim_right s))) [
  | inl e ↦ rw (e, h) h
  | inr e ↦ rw e h
]

trim_right_idem : (s : Text) → trim_right (trim_right s) ≡ trim_right s
unfolding trim_right
trim_right_idem [] = refl
trim_right_idem (c ∷ s) =
    let ih = trim_right_idem s in
    elim (Bool-cases (is_nil (trim_right s) && is_space c)) [
      | inl e ↦ rw e
      | inr e ↦ rw e (rw ih (rw e))
    ]

-- Trimming what is trimmed changes nothing.
pub trim_space_idem : (s : Text) → trim_space (trim_space s) ≡ trim_space s
unfolding trim_space
trim_space_idem s =
    ap trim_right (trim_left_of_IsFlush _ (trim_right-IsFlush _ (trim_left-IsFlush s)))
    ∙ trim_right_idem (trim_left s)

trim_right-nil : (s : Text) → is_nil (trim_right s) ≡ all is_space s
unfolding trim_right
trim_right-nil [] = refl
trim_right-nil (c ∷ s) = ground (arith, trim_right-nil s)

all-trim_left : (s : Text) → all is_space (trim_left s) ≡ all is_space s
unfolding trim_left
all-trim_left [] = refl
all-trim_left (c ∷ s) = ground (arith, all-trim_left s)

-- A text is blank exactly when every character is white space.
pub is_blank-eq-all : (s : Text) → is_blank s ≡ all is_space s
unfolding trim_space
is_blank-eq-all s = trim_right-nil (trim_left s) ∙ all-trim_left s

pub all-append {ℓ} :
    {A : Type ℓ} (p : A → Bool) (s t : List A) → all p (s ++ t) ≡ (all p s && all p t)
all-append p [] t = refl
all-append p (c ∷ s) t = ground (arith, all-append p s t)

-- What begins with a text that is not blank is not blank.
pub is_blank-append : (s t : Text) → is_blank s ≡ false → is_blank (s ++ t) ≡ false
is_blank-append s t h =
    ground (arith, is_blank-eq-all s, is_blank-eq-all (s ++ t), all-append is_space s t)

module _ {ℓ} (P : ℕ → Type ℓ) where
  All-trim_left : (s : Text) → All P s → All P (trim_left s)
  unfolding trim_left
  All-trim_left [] h = h
  All-trim_left (c ∷ s) (p, h) = elim (Bool-cases (is_space c)) [
    | inl e ↦ rw e (All-trim_left s h)
    | inr e ↦ rw e (p, h)
  ]

  All-trim_right : (s : Text) → All P s → All P (trim_right s)
  unfolding trim_right
  All-trim_right [] h = h
  All-trim_right (c ∷ s) (p, h) =
      let ih = All-trim_right s h in
      elim (Bool-cases (is_nil (trim_right s) && is_space c)) [
        | inl e ↦ rw e tt
        | inr e ↦ rw e (p, ih)
      ]

  -- What holds of every character still does after trimming.
  pub All-trim_space : (s : Text) → All P s → All P (trim_space s)
  unfolding trim_space
  All-trim_space s h = All-trim_right (trim_left s) (All-trim_left s h)

trim_right_of_solid : (s : Text) → All (λ c. is_space c ≡ false) s → trim_right s ≡ s
unfolding trim_right
trim_right_of_solid [] h = refl
trim_right_of_solid (c ∷ s) (p, h) = ground (arith, trim_right_of_solid s h)

-- A text with no white space is trimmed already.
pub trim_space_of_solid : (s : Text) → All (λ c. is_space c ≡ false) s → trim_space s ≡ s
unfolding trim_space
trim_space_of_solid [] h = refl
trim_space_of_solid (c ∷ s) (p, h) = rw p (trim_right_of_solid (c ∷ s) (p, h))

-- ===== src/Common/Text/Split.antt =====
-- Laws of `split` and `join` for a separator of one character, and of the length in bytes.
use Prim.Native.Nat.{ℕ, ◌+◌, ◌<◌}
use mathlib.Core.Path.{◌≡◌, refl, ap, sym, ◌∙◌}
use mathlib.Core.Logic.{◌≢◌, inl, inr}
use mathlib.Core.Bool.{true, false}
use mathlib.Core.List.{List, [], ◌∷◌, ◌++◌, append_assoc, append-nil}
use native.Mathlib.Omega.{arith}
use yapi.Common.Tests.{◌==◌, Bool-cases, ==_iff}
use yapi.Common.Lists.{length, All, is_nil}
use yapi.Common.Text.{Text, split_from, split, join, len}

-- A text without the separator is read into the current part.
pub split_from-part :
    (sep : ℕ) (cur a : Text) → All (λ c. c ≢ sep) a → split_from sep cur a ≡ (cur ++ a) ∷ []
unfolding split_from
split_from-part sep cur [] h = ap (λ p. p ∷ []) (sym (append-nil cur))
split_from-part sep cur (c ∷ a) (p, h) =
    let other : (c == sep) ≡ false = ground arith in
    rw other
      (split_from-part sep (cur ++ c ∷ []) a h ∙ ap (λ p. p ∷ []) (append_assoc cur (c ∷ []) a))

-- Up to a separator a text without it is one part.
pub split_from-cut :
    (sep : ℕ) (cur a s : Text)
    → All (λ c. c ≢ sep) a
    → split_from sep cur (a ++ sep ∷ s) ≡ (cur ++ a) ∷ split_from sep [] s
unfolding split_from
split_from-cut sep cur [] s h =
    let same : (sep == sep) ≡ true = (==_iff sep sep).1 refl in rw (same, append-nil)
split_from-cut sep cur (c ∷ a) s (p, h) =
    let other : (c == sep) ≡ false = ground arith in
    rw other (
      split_from-cut sep (cur ++ c ∷ []) a s h
      ∙ ap (λ p. p ∷ split_from sep [] s) (append_assoc cur (c ∷ []) a))

split_from-full : (sep : ℕ) (cur s : Text) → is_nil (split_from sep cur s) ≡ false
unfolding split_from
split_from-full sep cur [] = refl
split_from-full sep cur (c ∷ s) = ground (arith, split_from-full sep (cur ++ c ∷ []) s)

join_cons :
    (p : Text) (ps : List Text) (sep : ℕ)
    → is_nil ps ≡ false
    → join (p ∷ ps) sep ≡ p ++ sep ∷ join ps sep
unfolding join
join_cons p [] sep h = cc
join_cons p (q ∷ ps) sep h = refl

join-split_from : (sep : ℕ) (cur s : Text) → join (split_from sep cur s) sep ≡ cur ++ s
unfolding split_from
join-split_from sep cur [] = unfold join in sym (append-nil cur)
join-split_from sep cur (c ∷ s) = elim (Bool-cases (c == sep)) [
  | inl e ↦ rw e (
      join_cons cur (split_from sep [] s) sep (split_from-full sep [] s)
      ∙ ap (λ t. cur ++ sep ∷ t) (join-split_from sep [] s)
      ∙ ap (λ d. cur ++ d ∷ s) (sym ((==_iff c sep).0 e)))
  | inr e ↦ rw e (join-split_from sep (cur ++ c ∷ []) s ∙ append_assoc cur (c ∷ []) s)
]

-- Joining what was split gives the text.
pub join-split : (s : Text) (sep : ℕ) → join (split s sep) sep ≡ s
unfolding split
join-split s sep = join-split_from sep [] s

pub len-append : (s t : Text) → len (s ++ t) ≡ len s + len t
unfolding len
len-append [] t = omega arith
len-append (c ∷ s) t = omega (arith, len-append s t)

-- An ASCII text has a byte for each character.
pub len-ascii : (s : Text) → All (λ c. c < 128) s → len s ≡ length s
unfolding len
len-ascii [] h = refl
len-ascii (c ∷ s) (p, h) = ground (arith, len-ascii s h)

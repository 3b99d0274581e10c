-- ===== src/Common/Text.antt =====
-- Go strings as lists of code points, and what the code takes of the package strings.
-- A string that is not valid UTF-8 has no counterpart here.
pub mod Trim
pub mod Decimal
pub mod Split
use Prim.Native.Char.{code}
use Prim.Native.String.{String}
use yapi.Common.Tests.{ltb, leb, ◌==◌, ==_iff, if◌then◌else◌}
use yapi.Common.Lists.{length, is_nil, take, drop, any}
use Prim.Native.Nat.{ℕ, suc, ◌+◌, ◌-◌}
use mathlib.Core.Path.{◌≡◌, refl}
use mathlib.Core.Logic.{◌↔◌}
use mathlib.Core.Bool.{Bool, true, false, ◌&&◌, ◌||◌}
use mathlib.Core.List.{List, [], ◌∷◌, ◌++◌}
use native.Mathlib.Omega.{arith}

abbrev pub Text : Type 0
Text = List ℕ

abbrev pub text : String → Text
text String.[] = []
text (String.◌∷◌ c s) = code c ∷ text s

-- `s == t`
unfoldable pub text_eq : Text → Text → Bool
text_eq [] [] = true
text_eq (c ∷ s) (d ∷ t) = c == d && text_eq s t
text_eq [] (_ ∷ _) = false
text_eq (_ ∷ _) [] = false

pub text_eq_iff : (s t : Text) → (text_eq s t ≡ true) ↔ (s ≡ t)
unfolding text_eq
text_eq_iff [] [] = ground arith
text_eq_iff (c ∷ s) (d ∷ t) = let (to, from) = text_eq_iff s t in ground (arith)
text_eq_iff [] (d ∷ t) = ground arith
text_eq_iff (c ∷ s) [] = ground arith

pub text_eq_refl : (s : Text) → text_eq s s ≡ true
text_eq_refl s = (text_eq_iff s s).1 refl

-- `unicode.IsSpace`
unfoldable pub is_space : ℕ → Bool
is_space c =
    leb 9 c && leb c 13
    || c == 32
    || c == 0x85
    || c == 0xA0
    || c == 0x1680
    || leb 0x2000 c && leb c 0x200a
    || c == 0x2028
    || c == 0x2029
    || c == 0x202f
    || c == 0x205f
    || c == 0x3000

unfoldable pub trim_left : Text → Text
trim_left [] = []
trim_left (c ∷ s) = if is_space c then trim_left s else c ∷ s

-- A character goes if it is white space and nothing behind it stays.
unfoldable pub trim_right : Text → Text
trim_right [] = []
trim_right (c ∷ s) = let rest = trim_right s in if is_nil rest && is_space c then [] else c ∷ rest

-- `strings.TrimSpace`
unfoldable pub trim_space : Text → Text
unfolding trim_left trim_right
trim_space s = trim_right (trim_left s)

-- `strings.TrimSpace(s) == ""`
abbrev pub is_blank : Text → Bool
is_blank s = is_nil (trim_space s)

-- `strings.HasPrefix(s, p)`
unfoldable pub has_prefix : Text → Text → Bool
has_prefix s [] = true
has_prefix [] (_ ∷ _) = false
has_prefix (c ∷ s) (d ∷ p) = c == d && has_prefix s p

-- `strings.Contains(s, p)`
unfoldable pub contains : Text → Text → Bool
unfolding has_prefix
contains [] p = is_nil p
contains (c ∷ s) p = has_prefix (c ∷ s) p || contains s p

-- `strings.Split(s, sep)` for a separator of one character; `cur` is the part being read.
unfoldable pub split_from : ℕ → Text → Text → List Text
split_from sep cur [] = cur ∷ []
split_from sep cur (c ∷ s) =
    let closed = cur ∷ split_from sep [] s in
    let longer = split_from sep (cur ++ c ∷ []) s in if c == sep then closed else longer

unfoldable pub split : Text → ℕ → List Text
unfolding split_from
split s sep = split_from sep [] s

-- `strings.Join(parts, sep)` for a separator of one character.
unfoldable pub join : List Text → ℕ → Text
join [] sep = []
join (p ∷ []) sep = p
join (p ∷ (q ∷ ps)) sep = p ++ sep ∷ join (q ∷ ps) sep

-- The number of bytes of a character in UTF-8, and `len(s)`.
abbrev pub len_utf8 : ℕ → ℕ
len_utf8 c = if ltb c 0x80 then 1 else if ltb c 0x800 then 2 else if ltb c 0x10000 then 3 else 4

unfoldable pub len : Text → ℕ
len [] = 0
len (c ∷ s) = len_utf8 c + len s

abbrev pub is_digit : ℕ → Bool
is_digit c = leb b'0' c && leb c b'9'

abbrev pub is_alnum : ℕ → Bool
is_alnum c = is_digit c || leb b'A' c && leb c b'Z' || leb b'a' c && leb c b'z'

-- The Unicode tables of the standard library beyond ASCII: `unicode.ToLower` and whether two
-- runes are equal under simple folding.
pub record Unicode : Type 0 where
  pub lower : ℕ → ℕ
  pub folds : ℕ → ℕ → Bool

abbrev pub lower_ascii : ℕ → ℕ
lower_ascii c = if leb b'A' c && leb c b'Z' then c + 32 else c

abbrev pub lower_rune : Unicode → ℕ → ℕ
lower_rune u c = if ltb c 128 then lower_ascii c else u.lower c

-- `strings.ToLower`
unfoldable pub to_lower : Unicode → Text → Text
to_lower u [] = []
to_lower u (c ∷ s) = lower_rune u c ∷ to_lower u s

abbrev pub fold_rune : Unicode → ℕ → ℕ → Bool
fold_rune u c d = if ltb c 128 && ltb d 128 then lower_ascii c == lower_ascii d else u.folds c d

-- `strings.EqualFold`
unfoldable pub equal_fold : Unicode → Text → Text → Bool
equal_fold u [] [] = true
equal_fold u (c ∷ s) (d ∷ t) = fold_rune u c d && equal_fold u s t
equal_fold u [] (_ ∷ _) = false
equal_fold u (_ ∷ _) [] = false

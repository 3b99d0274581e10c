-- ===== src/Common/Http.antt =====
-- The part of net/http that the code uses: headers as a map from canonical names to values, and
-- requests.
pub mod Laws
use yapi.Common.{
  ℕ, ◌+◌, ◌-◌, Bool, true, false, ◌&&◌, ◌||◌, Option, none, some, List, [], ◌∷◌, ◌++◌, leb, ◌==◌,
  all, if◌then◌else◌,
}
use yapi.Common.Text.{Text, text, text_eq, is_alnum}
use yapi.Common.Dict.{Dict, lookup, insert, erase}

-- A byte that a header's name may have, of RFC 7230.
is_token_char : ℕ → Bool
is_token_char c =
    is_alnum c
    || c == b'!'
    || leb b'#' c && leb c b'\''
    || c == b'*'
    || c == b'+'
    || c == b'-'
    || c == b'.'
    || leb b'^' c && leb c b'`'
    || c == b'|'
    || c == b'~'

-- Upper case at the start and behind a dash, lower case elsewhere.
canonical_from : Bool → Text → Text
canonical_from upper [] = []
canonical_from upper (c ∷ s) =
    let c' =
      if upper && (leb b'a' c && leb c b'z')
      then c - 32
      else if upper
      then c
      else if leb b'A' c && leb c b'Z'
      then c + 32
      else c in
    c' ∷ canonical_from (c == b'-') s

-- `http.CanonicalHeaderKey`
unfoldable pub canonical_key : Text → Text
unfolding is_token_char canonical_from
canonical_key k = if all is_token_char k then canonical_from true k else k

abbrev pub Header : Type 0
Header = Dict (List Text)

abbrev first : Option (List Text) → Text
first none = []
first (some []) = []
first (some (v ∷ vs)) = v

abbrev or_empty : Option (List Text) → List Text
or_empty none = []
or_empty (some vs) = vs

-- `Header.Get`, `Set`, `Add` and `Del`.
unfoldable pub header_get : Text → Header → Text
header_get k h = first (lookup (canonical_key k) h)

unfoldable pub header_set : Text → Text → Header → Header
header_set k v h = insert (canonical_key k) (v ∷ []) h

unfoldable pub header_add : Text → Text → Header → Header
header_add k v h = insert (canonical_key k) (or_empty (lookup (canonical_key k) h) ++ v ∷ []) h

unfoldable pub header_del : Text → Header → Header
header_del k h = erase (canonical_key k) h

-- ===== src/Rules/JsonPath.antt =====
-- pkg/rules/jsonpath.go: paths such as `messages[0].role` into tokens.
pub mod Tokens
use yapi.Common.{
  ℕ, ◌+◌, Bool, true, false, ◌&&◌, ◌||◌, not, Option, none, some, List, [], ◌∷◌, ◌++◌, Result, ok,
  err, ◌>>=◌, ◌==◌, if◌then◌else◌, is_nil,
}
use yapi.Common.Int.{ℤ}
use yapi.Common.Text.{Text, is_blank, is_digit, trim_space}
use yapi.Common.Text.Decimal.{atoi}

-- What `ErrInvalidJSONPath` is wrapped with.
pub data PathError : Type 0 where
  empty_path empty_segment non_digit_index missing_bracket empty_index invalid_index : PathError

-- `JSONPathToken`: a key, or an index that is not nil.
pub data JsonPathToken : Type 0 where
  key : Text → JsonPathToken
  index : ℤ → JsonPathToken

unfoldable pub is_key : JsonPathToken → Bool
is_key (key _) = true
is_key (index _) = false

unfoldable pub is_index : JsonPathToken → Bool
is_index (key _) = false
is_index (index _) = true

-- `none` stands for the panic on a key.
unfoldable pub index_value : JsonPathToken → Option ℤ
index_value (key _) = none
index_value (index i) = some i

unfoldable pub build_token : Text → Result PathError JsonPathToken
build_token segment =
    let s = trim_space segment in
    if is_nil s
    then err empty_segment
    else elim (atoi s) [ none ↦ ok (key s) | some i ↦ ok (index i) ]

-- Where the loop stands: outside brackets, with the character before (0 at the start) and the
-- segment so far; or inside brackets, with the digits so far.
pub data Mode : Type 0 where
  outside : ℕ → Text → Mode
  inside : Text → Mode

-- `tokens = append(tokens, token)` if the segment is not empty.
unfoldable pub flush : Text → List JsonPathToken → Result PathError (List JsonPathToken)
flush segment tokens =
    if is_nil segment then ok tokens else (build_token segment >>= λ t. ok (tokens ++ t ∷ []))

-- The loop's body on the character `c`.
unfoldable pub step : Mode → List JsonPathToken → ℕ → Result PathError (Mode × List JsonPathToken)
step (outside before segment) tokens c =
    if c == b'.'
    then (if is_nil segment
        then (if before == b']' then ok (outside c [], tokens) else err empty_segment)
        else (flush segment tokens >>= λ ts. ok (outside c [], ts)))
    else if c == b'['
    then (flush segment tokens >>= λ ts. ok (inside [], ts))
    else ok (outside c (segment ++ c ∷ []), tokens)
step (inside digits) tokens c =
    if c == b']'
    then (if is_nil digits then err empty_index else elim (atoi digits) [
      | none ↦ err invalid_index
      | some i ↦ ok (outside c [], tokens ++ index i ∷ [])
    ])
    else if is_digit c
    then ok (inside (digits ++ c ∷ []), tokens)
    else err non_digit_index

-- The loop, and what follows it.
unfoldable pub scan : Mode → List JsonPathToken → Text → Result PathError (List JsonPathToken)
scan (outside before segment) tokens [] = flush segment tokens
scan (inside digits) tokens [] = err missing_bracket
scan mode tokens (c ∷ path) = step mode tokens c >>= λ (mode', tokens'). scan mode' tokens' path

abbrev non_empty : List JsonPathToken → Result PathError (List JsonPathToken)
non_empty tokens = if is_nil tokens then err empty_path else ok tokens

unfoldable pub parse_json_path : Text → Result PathError (List JsonPathToken)
parse_json_path path =
    if is_blank path then err empty_path else (scan (outside 0 []) [] path >>= non_empty)

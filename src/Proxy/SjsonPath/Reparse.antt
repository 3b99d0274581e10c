-- ===== src/Proxy/SjsonPath/Reparse.antt =====
-- The path given to sjson, internal/proxy/handler.go, read again by pkg/rules/jsonpath.go.
use yapi.Common.{
  ℕ, suc, ◌≡◌, refl, true, false, List, [], ◌∷◌, ◌++◌, ap, sym, ◌∙◌, arith, ok, ◌==◌, is_nil, all,
  All, append_assoc, map, append-nil,
}
use yapi.Common.Int.{ℤ, pos, negsuc}
use yapi.Common.Text.{Text, is_blank, is_digit, is_space, join}
use yapi.Common.Text.Decimal.{itoa, atoi-itoa, digits_from-all, digits_from-ne-nil}
use yapi.Common.Text.Trim.{is_blank-append, trim_space_of_solid}
use yapi.Rules.JsonPath.{
  JsonPathToken, key, index, build_token, outside, flush, step, scan, parse_json_path,
}
use yapi.Rules.JsonPath.Tokens.{IsPlain, IsWritable, parse_json_path-IsWritable}
use yapi.Proxy.SjsonPath.{token_text, tokens_to_sjson_path}

-- The character separates no tokens and is no white space.
abbrev IsSolid : ℕ → Type 0
IsSolid c = IsPlain c × (is_space c ≡ false)

digits-IsSolid : (s : Text) → all is_digit s ≡ true → All IsSolid s
unfolding is_space
digits-IsSolid [] h = tt
digits-IsSolid (c ∷ s) h = let ih = digits-IsSolid s in ground arith

itoa-IsSolid : (z : ℤ) → All IsSolid (itoa z)
unfolding itoa is_space
itoa-IsSolid (pos n) = digits-IsSolid _ (digits_from-all (suc n) n [] refl)
itoa-IsSolid (negsuc n) = (
  ((omega arith, omega arith), refl),
  digits-IsSolid _ (digits_from-all (suc (suc n)) (suc n) [] refl),
)

itoa-ne-nil : (z : ℤ) → is_nil (itoa z) ≡ false
unfolding itoa
itoa-ne-nil (pos n) = digits_from-ne-nil (suc n) n [] (omega arith)
itoa-ne-nil (negsuc n) = refl

solid_parts : (s : Text) → All IsSolid s → All IsPlain s × All (λ c. is_space c ≡ false) s
solid_parts [] h = (tt, tt)
solid_parts (c ∷ s) ((p, q), h) = let (ps, qs) = solid_parts s h in ((p, ps), (q, qs))

-- Writing down a writable token and reading it gives the token.
build_token-token_text :
    (t : JsonPathToken)
    → IsWritable t
    → (build_token (token_text t) ≡ ok t)
      × (is_nil (token_text t) ≡ false)
      × All IsPlain (token_text t)
unfolding build_token token_text
build_token-token_text (key k) (plain, trimmed, full, word) =
    (rw (trimmed, full, word) (ap (λ s. ok (key s)) trimmed), full, plain)
build_token-token_text (index i) h =
    let (plain, solid) = solid_parts (itoa i) (itoa-IsSolid i) in
    (rw (trim_space_of_solid (itoa i) solid, itoa-ne-nil i, atoi-itoa i h), itoa-ne-nil i, plain)

-- The last character of a text, or the one before it.
abbrev last_of : ℕ → Text → ℕ
last_of before [] = before
last_of before (c ∷ s) = last_of c s

-- A run of plain characters is added to the segment.
scan-plain :
    (before : ℕ) (segment : Text) (tokens : List JsonPathToken) (s rest : Text)
    → All IsPlain s
    → scan (outside before segment) tokens (s ++ rest)
      ≡ scan (outside (last_of before s) (segment ++ s)) tokens rest
unfolding scan step
scan-plain before segment tokens [] rest h = rw append-nil
scan-plain before segment tokens (c ∷ s) rest ((no_dot, no_bracket), h) =
    let dot : (c == b'.') ≡ false = ground arith in
    let bracket : (c == b'[') ≡ false = ground arith in
    rw (dot, bracket) (scan-plain c (segment ++ c ∷ []) tokens s rest h ∙ rw append_assoc)

flush-ok :
    (segment : Text) (tokens : List JsonPathToken) (t : JsonPathToken)
    → is_nil segment ≡ false
    → build_token segment ≡ ok t
    → flush segment tokens ≡ ok (tokens ++ t ∷ [])
unfolding flush
flush-ok segment tokens t full e = rw (full, e)

scan-dot :
    (before : ℕ) (segment : Text) (tokens : List JsonPathToken) (t : JsonPathToken) (rest : Text)
    → is_nil segment ≡ false
    → build_token segment ≡ ok t
    → scan (outside before segment) tokens (b'.' ∷ rest)
      ≡ scan (outside b'.' []) (tokens ++ t ∷ []) rest
unfolding scan step
scan-dot before segment tokens t rest full e = rw (full, flush-ok segment tokens t full e)

scan-join :
    (before : ℕ) (tokens : List JsonPathToken) (t : JsonPathToken) (ts : List JsonPathToken)
    → IsWritable t
    → All IsWritable ts
    → scan (outside before []) tokens (join (map token_text (t ∷ ts)) b'.') ≡ ok (tokens ++ t ∷ ts)
unfolding join
scan-join before tokens t [] w ws =
    let (e, full, plain) = build_token-token_text t w in
    let s = token_text t in
    ap (scan (outside before []) tokens) (sym (append-nil s))
    ∙ scan-plain before [] tokens s [] plain
    ∙ unfold scan in flush-ok s tokens t full e
scan-join before tokens t (u ∷ ts) w (v, ws) =
    let (e, full, plain) = build_token-token_text t w in
    let s = token_text t in
    scan-plain before [] tokens s _ plain
    ∙ scan-dot (last_of before s) s tokens t _ full e
    ∙ scan-join b'.' (tokens ++ t ∷ []) u ts v ws
    ∙ ap ok (append_assoc tokens (t ∷ []) (u ∷ ts))

join-not_blank :
    (t : JsonPathToken) (ts : List JsonPathToken)
    → is_blank (token_text t) ≡ false
    → is_blank (join (map token_text (t ∷ ts)) b'.') ≡ false
unfolding join
join-not_blank t [] h = h
join-not_blank t (u ∷ ts) h = is_blank-append (token_text t) _ h

token_text-not_blank : (t : JsonPathToken) → IsWritable t → is_blank (token_text t) ≡ false
unfolding token_text
token_text-not_blank (key k) (plain, trimmed, full, word) = rw trimmed full
token_text-not_blank (index i) h =
    rw (trim_space_of_solid (itoa i) (solid_parts (itoa i) (itoa-IsSolid i)).1) (itoa-ne-nil i)

-- Writable tokens are read back from the path that is written for sjson.
pub parse_json_path-tokens_to_sjson_path :
    (t : JsonPathToken) (ts : List JsonPathToken)
    → All IsWritable (t ∷ ts)
    → parse_json_path (tokens_to_sjson_path (t ∷ ts)) ≡ ok (t ∷ ts)
unfolding parse_json_path tokens_to_sjson_path
parse_json_path-tokens_to_sjson_path t ts (w, ws) =
    rw (join-not_blank t ts (token_text-not_blank t w), scan-join 0 [] t ts w ws)

-- Whatever path parses, the path that is handed to sjson parses to the same tokens: bracketed and
-- dotted indices, signs and spaces round keys are brought to one form.
pub reparse :
    (path : Text) (tokens : List JsonPathToken)
    → parse_json_path path ≡ ok tokens
    → parse_json_path (tokens_to_sjson_path tokens) ≡ ok tokens
reparse path [] e = cc ((parse_json_path-IsWritable path [] e).1)
reparse path (t ∷ ts) e =
    parse_json_path-tokens_to_sjson_path t ts (parse_json_path-IsWritable path (t ∷ ts) e).0

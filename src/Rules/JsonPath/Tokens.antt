-- ===== src/Rules/JsonPath/Tokens.antt =====
-- What the parser of pkg/rules/jsonpath.go returns: tokens that can be written down again.
use yapi.Common.{
  ℕ, ◌≡◌, ◌≢◌, inl, inr, false, none, some, List, [], ◌∷◌, ◌++◌, subst, arith, Result, ok, err,
  ◌>>=◌, Result-cases, ◌==◌, is_nil, All, Bool-cases, Option-cases,
}
use yapi.Common.Int.{ℤ}
use yapi.Common.Text.{Text, is_blank, is_digit, trim_space}
use yapi.Common.Text.Decimal.{atoi, IsInt64, atoi-IsInt64}
use yapi.Common.Text.Trim.{trim_space_idem, All-trim_space}
use yapi.Rules.JsonPath.{
  PathError, JsonPathToken, key, index, build_token, Mode, outside, inside, flush, step, scan,
  parse_json_path, non_empty,
}

-- The character separates no tokens.
abbrev pub IsPlain : ℕ → Type 0
IsPlain c = (c ≢ b'.') × (c ≢ b'[')

-- A key is trimmed, not empty, free of separators and no integer; an index is a 64-bit integer.
abbrev pub IsWritable : JsonPathToken → Type 0
IsWritable (key k) = All IsPlain k × (trim_space k ≡ k) × (is_nil k ≡ false) × (atoi k ≡ none)
IsWritable (index i) = IsInt64 i

All-append {ℓ κ} :
    {A : Type ℓ} (P : A → Type κ) (xs : List A) {x : A} → All P xs → P x → All P (xs ++ x ∷ [])
All-append P [] h p = (p, tt)
All-append P (y ∷ xs) (q, h) p = (q, All-append P xs h p)

build_token-IsWritable :
    (segment : Text) (t : JsonPathToken)
    → All IsPlain segment
    → build_token segment ≡ ok t
    → IsWritable t
unfolding build_token
build_token-IsWritable segment t h e = elim (Bool-cases (is_nil (trim_space segment))) [
  | inl blank ↦ cc (rw blank at e)
  | inr full ↦ elim (Option-cases (atoi (trim_space segment))) [
    | inl word ↦
        let same : ok (key (trim_space segment)) ≡ ok t = rw (full, word) at e in
        named t same word full
    | inr (i, number) ↦
        let same : ok (index i) ≡ ok t = rw (full, number) at e in numbered t i same number
  ]
]
  where
    named :
        (t : JsonPathToken)
        → ◌≡◌ {A = Result PathError JsonPathToken} (ok (key (trim_space segment))) (ok t)
        → atoi (trim_space segment) ≡ none
        → is_nil (trim_space segment) ≡ false
        → IsWritable t
    named (key k) same word full =
        let k_eq : trim_space segment ≡ k = cc in
        rw (← k_eq) (All-trim_space IsPlain segment h, trim_space_idem segment, full, word)
    named (index i) same word full = cc

    numbered :
        (t : JsonPathToken) (i : ℤ)
        → ◌≡◌ {A = Result PathError JsonPathToken} (ok (index i)) (ok t)
        → atoi (trim_space segment) ≡ some i
        → IsWritable t
    numbered (key k) i same number = cc
    numbered (index j) i same number =
        let i_eq : i ≡ j = cc in rw (← i_eq) (atoi-IsInt64 (trim_space segment) i number)

-- The segment that is being read holds no separator.
abbrev IsOpen : Mode → Type 0
IsOpen (outside before segment) = All IsPlain segment
IsOpen (inside digits) = Unit

abbrev IsState : Mode × List JsonPathToken → Type 0
IsState (mode, tokens) = IsOpen mode × All IsWritable tokens

-- A postcondition of a result.
abbrev Ensures {ℓ κ μ} : {E : Type ℓ} {A : Type κ} → (A → Type μ) → Result E A → Type μ
Ensures P (ok a) = P a
Ensures P (err e) = Unit

flush-IsWritable :
    (segment : Text) (tokens : List JsonPathToken)
    → All IsPlain segment
    → All IsWritable tokens
    → Ensures (All IsWritable) (flush segment tokens)
unfolding flush
flush-IsWritable [] tokens h w = w
flush-IsWritable (c ∷ s) tokens h w = elim (Result-cases (build_token (c ∷ s))) [
  | inl (t, e) ↦ rw e (All-append IsWritable tokens w (build_token-IsWritable (c ∷ s) t h e))
  | inr (x, e) ↦ rw e tt
]

flushed :
    (r : Result PathError (List JsonPathToken)) (mode : Mode)
    → IsOpen mode
    → Ensures (All IsWritable) r
    → Ensures IsState (r >>= λ ts. ok (mode, ts))
flushed (ok ts) mode o w = (o, w)
flushed (err e) mode o w = tt

step-IsState :
    (mode : Mode) (tokens : List JsonPathToken) (c : ℕ)
    → IsState (mode, tokens)
    → Ensures IsState (step mode tokens c)
unfolding step
step-IsState (outside before segment) tokens c (o, w) = elim (Bool-cases (c == b'.')) [
  | inl dot ↦ rw dot (elim (Bool-cases (is_nil segment)) [
    | inl none_yet ↦
        rw none_yet (elim (Bool-cases (before == b']')) [ inl e ↦ rw e (tt, w) | inr e ↦ rw e tt ])
    | inr full ↦
        rw full
          (flushed (flush segment tokens) (outside c []) tt (flush-IsWritable segment tokens o w))
  ])
  | inr no_dot ↦ rw no_dot (elim (Bool-cases (c == b'[')) [
    | inl e ↦
        rw e (flushed (flush segment tokens) (inside []) tt (flush-IsWritable segment tokens o w))
    | inr no_bracket ↦ rw no_bracket (All-append IsPlain segment o (ground arith, ground arith), w)
  ])
]
step-IsState (inside digits) tokens c (o, w) = elim (Bool-cases (c == b']')) [
  | inr more ↦ rw more (elim (Bool-cases (is_digit c)) [ inl e ↦ rw e (tt, w) | inr e ↦ rw e tt ])
  | inl closing ↦ rw closing (elim (Bool-cases (is_nil digits)) [
    | inl e ↦ rw e tt
    | inr full ↦ rw full (elim (Option-cases (atoi digits)) [
      | inl e ↦ rw e tt
      | inr (i, e) ↦ rw e (tt, All-append IsWritable tokens w (atoi-IsInt64 digits i e))
    ])
  ])
]

scan-IsWritable :
    (mode : Mode) (tokens : List JsonPathToken) (path : Text)
    → IsState (mode, tokens)
    → Ensures (All IsWritable) (scan mode tokens path)
unfolding scan
scan-IsWritable (outside before segment) tokens [] (o, w) = flush-IsWritable segment tokens o w
scan-IsWritable (inside digits) tokens [] h = tt
scan-IsWritable mode tokens (c ∷ path) h = elim (Result-cases (step mode tokens c)) [
  | inr (x, e) ↦ rw e tt
  | inl (state, e) ↦ rw e (
      scan-IsWritable state.0 state.1 path
        (subst (Ensures IsState) e (step-IsState mode tokens c h)))
]

-- Every token of a parsed path is writable, and there is at least one.
pub parse_json_path-IsWritable :
    (path : Text) (tokens : List JsonPathToken)
    → parse_json_path path ≡ ok tokens
    → All IsWritable tokens × (is_nil tokens ≡ false)
unfolding parse_json_path
parse_json_path-IsWritable path tokens e = elim (Bool-cases (is_blank path)) [
  | inl blank ↦ cc (rw blank at e)
  | inr full ↦ elim (Result-cases (scan (outside 0 []) [] path)) [
    | inr (x, failed) ↦ cc (rw (full, failed) at e)
    | inl (ts, scanned) ↦
        let same : non_empty ts ≡ ok tokens = rw (full, scanned) at e in
        let w : All IsWritable ts =
          subst (Ensures (All IsWritable)) scanned
            (scan-IsWritable (outside 0 []) [] path (tt, tt)) in
        elim (Bool-cases (is_nil ts)) [
          | inl no_token ↦ cc (rw no_token at same)
          | inr some_token ↦
              let eq : ok ts ≡ ok tokens = rw some_token at same in
              let ts_eq : ts ≡ tokens = cc in rw (← ts_eq) (w, some_token)
        ]
  ]
]

-- ===== src/Accounts/Keys/Split.antt =====
-- A generated key is accepted by `splitAPIKey`, and what is accepted has the form of one;
-- pkg/accounts/service.go.
use yapi.Common.{
  ℕ, zero, suc, ◌*◌, ◌/◌, ◌%◌, ◌<◌, ◌≡◌, refl, ◌≢◌, inl, inr, false, none, some, List, [], ◌∷◌,
  ◌++◌, ok, take, drop, length, All, arith, subst, ap, sym, ◌∙◌, length-take, length-drop,
  Option-cases,
}
use yapi.Common.Text.{
  text, Text, text_eq_iff, text_eq_refl, is_blank, is_space, trim_space, split, join, len,
}
use yapi.Common.Text.Split.{split_from-part, split_from-cut, join-split, len-append, len-ascii}
use yapi.Common.Text.Trim.{is_blank-append, trim_space_of_solid}
use yapi.Accounts.Keys.{
  api_key_prefix, hex_digit, encode_hex, generate_api_key, parts_prefix, split_api_key,
}

-- A hexadecimal digit is ASCII and no underscore.
abbrev IsHex : ℕ → Type 0
IsHex c = (c ≢ b'_') × (c < 128)

encode_hex-IsHex : (bs : List ℕ) → All (λ b. b < 256) bs → All IsHex (encode_hex bs)
unfolding encode_hex
encode_hex-IsHex [] h = tt
encode_hex-IsHex (b ∷ bs) (p, h) =
    let ih = encode_hex-IsHex bs h in
    (digit (b / 16) (omega arith), (digit (b % 16) (omega arith), ih))
  where
    digit : (n : ℕ) → n < 16 → IsHex (hex_digit n)
    digit n h = ground arith

length-encode_hex : (bs : List ℕ) → length (encode_hex bs) ≡ 2 * length bs
unfolding encode_hex
length-encode_hex [] = refl
length-encode_hex (b ∷ bs) = omega (arith, length-encode_hex bs)

hex_parts : (s : Text) → All IsHex s → All (λ c. c ≢ b'_') s × All (λ c. c < 128) s
hex_parts [] h = (tt, tt)
hex_parts (c ∷ s) ((p, q), h) = let (ps, qs) = hex_parts s h in ((p, ps), (q, qs))

All-take {ℓ κ} : {A : Type ℓ} (P : A → Type κ) (n : ℕ) (xs : List A) → All P xs → All P (take n xs)
All-take P zero xs h = tt
All-take P (suc n) [] h = tt
All-take P (suc n) (x ∷ xs) (p, h) = (p, All-take P n xs h)

All-drop {ℓ κ} : {A : Type ℓ} (P : A → Type κ) (n : ℕ) (xs : List A) → All P xs → All P (drop n xs)
All-drop P zero xs h = h
All-drop P (suc n) [] h = tt
All-drop P (suc n) (x ∷ xs) (p, h) = All-drop P n xs h

split_three :
    (q r : Text)
    → All (λ c. c ≢ b'_') q
    → All (λ c. c ≢ b'_') r
    → split (api_key_prefix ++ b'_' ∷ (q ++ b'_' ∷ r)) b'_' ≡ api_key_prefix ∷ (q ∷ (r ∷ []))
unfolding split
split_three q r hq hr =
    split_from-cut b'_' [] api_key_prefix (q ++ b'_' ∷ r) (omega arith)
    ∙ ap (λ ps. api_key_prefix ∷ ps)
        (split_from-cut b'_' [] q r hq ∙ ap (λ ps. q ∷ ps) (split_from-part b'_' [] r hr))

prefix_not_blank : is_blank api_key_prefix ≡ false
unfolding trim_space is_space
prefix_not_blank = refl

key_not_blank : (s : Text) → is_blank (api_key_prefix ++ s) ≡ false
key_not_blank s = is_blank-append api_key_prefix s prefix_not_blank

-- A key of the right form is accepted.
split_api_key-ok :
    (q r : Text)
    → All (λ c. c ≢ b'_') q
    → All (λ c. c ≢ b'_') r
    → len q ≡ 8
    → let raw = api_key_prefix ++ b'_' ∷ (q ++ b'_' ∷ r) in split_api_key raw ≡ ok (q, raw)
unfolding split_api_key
split_api_key-ok q r hq hr e =
    rw (
      key_not_blank (b'_' ∷ (q ++ b'_' ∷ r)),
      split_three q r hq hr,
      e,
      text_eq_refl api_key_prefix,
    )

abbrev pub joined : Text → Text → Text
joined q r = api_key_prefix ++ b'_' ∷ (q ++ b'_' ∷ r)

-- Every key that `generateAPIKey` makes from 24 random bytes is accepted by `splitAPIKey`, which
-- finds its prefix; the prefix has the eight bytes that the column takes, and the whole key, which
-- bcrypt hashes, has 54, below the 72 that bcrypt takes.
pub generate_api_key-split :
    (buff : List ℕ) (plain prefix : Text)
    → length buff ≡ 24
    → All (λ b. b < 256) buff
    → generate_api_key (some buff) ≡ ok (plain, prefix)
    → (split_api_key plain ≡ ok (prefix, plain)) × (len prefix ≡ 8) × (len plain ≡ 54)
unfolding generate_api_key
generate_api_key-split buff plain prefix size bytes made =
    let q = encode_hex (take 4 buff) in
    let r = encode_hex (drop 4 buff) in
    let (q_plain, q_ascii) = hex_parts q (encode_hex-IsHex _ (All-take _ 4 buff bytes)) in
    let (r_plain, r_ascii) = hex_parts r (encode_hex-IsHex _ (All-drop _ 4 buff bytes)) in
    let q_len : len q ≡ 8 =
      omega (arith, len-ascii q q_ascii, length-encode_hex (take 4 buff), length-take 4 buff) in
    let r_len : len r ≡ 40 =
      omega (arith, len-ascii r r_ascii, length-encode_hex (drop 4 buff), length-drop 4 buff) in
    let q_eq : q ≡ prefix = cc made in
    let plain_eq : joined q r ≡ plain = cc made in
    rw (← plain_eq, ← q_eq)
      (
        split_api_key-ok q r q_plain r_plain q_len,
        q_len,
        unfold len in omega (arith, len-append q (b'_' ∷ r)),
      )

encode_hex-IsSolid :
    (bs : List ℕ) → All (λ b. b < 256) bs → All (λ c. is_space c ≡ false) (encode_hex bs)
unfolding encode_hex is_space
encode_hex-IsSolid [] h = tt
encode_hex-IsSolid (b ∷ bs) (p, h) =
    (digit (b / 16) (omega arith), (digit (b % 16) (omega arith), encode_hex-IsSolid bs h))
  where
    digit : (n : ℕ) → n < 16 → is_space (hex_digit n) ≡ false
    digit n h = ground arith

All-append {ℓ} : (P : ℕ → Type ℓ) (xs ys : List ℕ) → All P xs → All P ys → All P (xs ++ ys)
All-append P [] ys h k = k
All-append P (x ∷ xs) ys (p, h) k = (p, All-append P xs ys h k)

-- A key that `generateAPIKey` makes begins with "yapi_" and has no white space in it.
pub generate_api_key-trimmed :
    (buff : List ℕ) (plain prefix : Text)
    → All (λ b. b < 256) buff
    → generate_api_key (some buff) ≡ ok (plain, prefix)
    → (rest : Text) × (plain ≡ text "yapi_" ++ rest) × (trim_space plain ≡ plain)
unfolding generate_api_key
generate_api_key-trimmed buff plain prefix bytes made =
    let q = encode_hex (take 4 buff) in
    let r = encode_hex (drop 4 buff) in
    let rest = q ++ b'_' ∷ r in
    let whole : text "yapi_" ++ rest ≡ plain = cc made in
    let solid =
      All-append _ q (b'_' ∷ r) (encode_hex-IsSolid _ (All-take _ 4 buff bytes))
        (unfold is_space in refl, encode_hex-IsSolid _ (All-drop _ 4 buff bytes)) in
    (
      rest,
      sym whole,
      subst (λ t. trim_space t ≡ t) whole
          (trim_space_of_solid (text "yapi_" ++ rest)
            (unfold is_space in (refl, (refl, (refl, (refl, (refl, solid))))))),
    )

parts_form :
    (ps : List Text) (q : Text)
    → parts_prefix ps ≡ some q
    → (len q ≡ 8) × (r : Text) × (ps ≡ api_key_prefix ∷ (q ∷ (r ∷ [])))
parts_form (p ∷ (q' ∷ (r ∷ []))) q e =
    (ground (arith, text_eq_iff p api_key_prefix), r, ground (arith, text_eq_iff p api_key_prefix))
parts_form [] q e = cc
parts_form (p ∷ []) q e = cc
parts_form (p ∷ (q' ∷ [])) q e = cc
parts_form (p ∷ (q' ∷ (r ∷ (t ∷ ts)))) q e = cc

-- What `splitAPIKey` accepts is "yapi", a prefix of eight bytes and one more part, joined by
-- underscores; the secret is the whole key.
pub split_api_key-form :
    (raw prefix secret : Text)
    → split_api_key raw ≡ ok (prefix, secret)
    → (secret ≡ raw) × (len prefix ≡ 8) × (r : Text) × (raw ≡ joined prefix r)
unfolding split_api_key
split_api_key-form raw prefix secret e = elim (Option-cases (parts_prefix (split raw b'_'))) [
  | inl refused ↦ absurd (the_error refused)
  | inr (q, found) ↦
      let (size, r, parts) = parts_form (split raw b'_') q found in
      let whole : raw ≡ joined q r =
        sym (join-split raw b'_') ∙ ap (λ ps. join ps b'_') parts ∙ unfold join in refl in
      let same : q ≡ prefix = ground (arith, found) in
      (ground (arith, found), rw (← same) size, r, rw (← same) whole)
]
  where
    the_error : parts_prefix (split raw b'_') ≡ none → ⊥
    the_error refused = ground (arith, refused)

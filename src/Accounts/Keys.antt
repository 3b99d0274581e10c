-- ===== src/Accounts/Keys.antt =====
-- API keys as text: `generateAPIKey`, `splitAPIKey`, `hashSecret` and `firstNonEmpty` of
-- pkg/accounts/service.go.
pub mod Split
use yapi.Common.{
  ℕ, ◌+◌, ◌/◌, ◌%◌, Bool, ◌&&◌, ◌||◌, not, Option, none, some, List, [], ◌∷◌, ◌++◌, Result, ok, err,
  ltb, ◌==◌, if◌then◌else◌, take, drop,
}
use yapi.Common.Text.{Text, text, text_eq, is_blank, trim_space, split, len}
use yapi.Accounts.Model.{
  AccountsError, invalid_input, other, key_empty, key_format, secret_empty, api_key_prefix_length,
}

-- `apiKeyPrefix`
abbrev pub api_key_prefix : Text
api_key_prefix = text "yapi"

-- `defaultAPIKeyPrefixSegment` and `apiKeySecretBytes`
abbrev pub default_api_key_prefix_segment : ℕ
default_api_key_prefix_segment = 4

abbrev pub api_key_secret_bytes : ℕ
api_key_secret_bytes = 24

abbrev hex_digit : ℕ → ℕ
hex_digit n = if ltb n 10 then 48 + n else 87 + n

-- `hex.EncodeToString`
unfoldable pub encode_hex : List ℕ → Text
encode_hex [] = []
encode_hex (b ∷ bs) = hex_digit (b / 16) ∷ hex_digit (b % 16) ∷ encode_hex bs

-- `generateAPIKey`, from what `rand.Read` fills the buffer with (`none` if it fails): the key and
-- its prefix.
unfoldable pub generate_api_key : Option (List ℕ) → Result AccountsError (Text × Text)
generate_api_key none = err (other (text "rand"))
generate_api_key (some buff) =
    let prefix = encode_hex (take default_api_key_prefix_segment buff) in
    let secret_segment = encode_hex (drop default_api_key_prefix_segment buff) in
    ok (api_key_prefix ++ b'_' ∷ (prefix ++ b'_' ∷ secret_segment), prefix)

-- The test on the parts: there are three, the first is "yapi" and the second has eight bytes.
abbrev parts_prefix : List Text → Option Text
parts_prefix (p ∷ (q ∷ (r ∷ []))) =
    if text_eq p api_key_prefix && len q == api_key_prefix_length then some q else none
parts_prefix _ = none

-- `splitAPIKey`: the prefix, and the secret, which is the whole key.
unfoldable pub split_api_key : Text → Result AccountsError (Text × Text)
split_api_key raw =
    if is_blank raw then err (invalid_input key_empty) else elim (parts_prefix (split raw b'_')) [
      | none ↦ err (invalid_input key_format)
      | some prefix ↦ ok (prefix, raw)
    ]

-- The package bcrypt: a hash of a secret, or none for a failure; and whether a secret fits a hash.
pub record Bcrypt : Type 0 where
  pub generate_from_password : Text → Option Text
  pub compare_hash_and_password : Text → Text → Bool

unfoldable pub hash_secret : Bcrypt → Text → Result AccountsError Text
hash_secret bc secret =
    if is_blank secret
    then err (invalid_input secret_empty)
    else elim (bc.generate_from_password secret) [
      | none ↦ err (other (text "bcrypt"))
      | some hash ↦ ok hash
    ]

unfoldable pub first_non_empty : List Text → Text
first_non_empty [] = []
first_non_empty (v ∷ vs) =
    let rest = first_non_empty vs in if is_blank v then rest else trim_space v

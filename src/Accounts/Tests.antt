-- ===== src/Accounts/Tests.antt =====
-- The properties of the API keys at concrete keys.
use yapi.Common.{false, none, Result, ◌≡◌, refl, ok, some, List, [], ◌∷◌, All, ℕ, ◌<◌, arith}
use yapi.Common.Text.{
  Text, text, text_eq, len, split, split_from, trim_space, trim_left, trim_right, is_space,
}
use yapi.Common.Int.{pos}
use yapi.Accounts.Model.{ApiKey, UserKeyBinding, validate_binding}
use yapi.Accounts.Resolve.{
  QueryError, found, resolve_api_key, resolve_binding_by_raw_key, BindApiKeyParams, Database,
  rebind, create_new, bind_in, bind_api_key,
}
use yapi.Accounts.Resolve.Laws.{with_flag, flagged, resolve_api_key-flag}
use yapi.Fixtures.{plain_bcrypt, one_of_each, ann_binding, ann_key}
use yapi.Accounts.Keys.{encode_hex, generate_api_key, split_api_key}

abbrev zeros : List ℕ
zeros =
    0 ∷ 0 ∷ 0 ∷ 0 ∷ 0 ∷ 0 ∷ 0 ∷ 0 ∷ 0 ∷ 0 ∷ 0 ∷ 0 ∷ 0 ∷ 0 ∷ 0 ∷ 0 ∷ 0 ∷ 0 ∷ 0 ∷ 0 ∷ 0 ∷ 0 ∷ 0 ∷ 255
    ∷ []

abbrev plain : Text
plain = text "yapi_00000000_00000000000000000000000000000000000000ff"

zeros_make : generate_api_key (some zeros) ≡ ok (plain, text "00000000")
unfolding generate_api_key encode_hex
zeros_make = refl

zeros_small : All (λ b. b < 256) zeros
zeros_small = ground arith

splits : split_api_key (text "yapi_12345678_x") ≡ ok (text "12345678", text "yapi_12345678_x")
unfolding split_api_key split split_from text_eq len trim_space trim_left trim_right is_space
splits = refl

resolve_api_key-flag_example :
    (resolve_api_key plain_bcrypt (with_flag false one_of_each) (text "yapi_12345678_x")
      ≡ flagged false (resolve_api_key plain_bcrypt one_of_each (text "yapi_12345678_x")))
    × (resolve_binding_by_raw_key plain_bcrypt
          (with_flag false one_of_each)
          (text "yapi_12345678_x")
        ≡ resolve_binding_by_raw_key plain_bcrypt one_of_each (text "yapi_12345678_x"))
resolve_api_key-flag_example =
    resolve_api_key-flag plain_bcrypt one_of_each false (text "yapi_12345678_x")

-- A database whose tables never change.
abbrev unchanging : Database ℕ
unchanging = record {
  queries = λ s. one_of_each;
  create_binding = λ b s. ok (s, 7);
  update_binding = λ b s. ok s;
}

abbrev to_c1 : BindApiKeyParams
to_c1 = record {
  user_id = text "u1";
  user_api_key_id = text "k1";
  upstream_credential_id = text "c1";
  service = [];
  position = pos 0;
  metadata = none;
}

binds : bind_api_key unchanging (text "b2") to_c1 0 ≡ (0, ok ann_binding)
unfolding bind_api_key bind_in found rebind create_new validate_binding trim_space trim_left
    trim_right is_space text_eq
binds = refl

ann_follows :
    (old : UserKeyBinding) (key : ApiKey)
    → ◌≡◌ {A = Result QueryError UserKeyBinding} (ok ann_binding) (ok old)
    → ◌≡◌ {A = Result QueryError ApiKey} (ok ann_key) (ok key)
    → old.user_id ≡ key.user_id
ann_follows old key e k = ground arith

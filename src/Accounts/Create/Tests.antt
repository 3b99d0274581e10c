-- ===== src/Accounts/Create/Tests.antt =====
-- The creation of a key at concrete random bytes.
use yapi.Common.{
  ℕ, ◌<◌, ◌≡◌, refl, Option, none, some, List, [], ◌∷◌, ◌++◌, All, ok, err, arith, true, subst,
}
use yapi.Common.Text.{
  Text, text, text_eq, text_eq_refl, is_space, trim_left, trim_right, trim_space, len,
}
use yapi.Accounts.Model.{ApiKey, validate_api_key}
use yapi.Accounts.Keys.{encode_hex, generate_api_key, hash_secret}
use yapi.Accounts.Resolve.{record_not_found, found, get_user, resolve_api_key}
use yapi.Accounts.Create.{CreateApiKeyParams, KeyDatabase, new_key, create_user_api_key}
use yapi.Accounts.Create.Usable.{Fits, KeepsKeys, create_user_api_key-resolve_api_key}
use yapi.Common.Http.{Header, header_get, canonical_key}
use yapi.Middleware.Auth.{Context, next, api_key_auth}
use yapi.Gateway.{accounts_authenticator}
use yapi.Gateway.Created.{create_user_api_key-Accepted}
use yapi.Fixtures.{plain_bcrypt, plain_unicode, plain_codec, one_of_each}

abbrev zeros : List ℕ
zeros =
    0 ∷ 0 ∷ 0 ∷ 0 ∷ 0 ∷ 0 ∷ 0 ∷ 0 ∷ 0 ∷ 0 ∷ 0 ∷ 0 ∷ 0 ∷ 0 ∷ 0 ∷ 0 ∷ 0 ∷ 0 ∷ 0 ∷ 0 ∷ 0 ∷ 0 ∷ 0 ∷ 0
    ∷ []

zeros_small : All (λ b. b < 256) zeros
zeros_small = ground arith

abbrev plain : Text
plain = text "yapi_00000000_0000000000000000000000000000000000000000"

-- A table of at most one key, at the time 7.
abbrev one_key : KeyDatabase (Option ApiKey)
one_key = record {
  queries = λ s. record one_of_each {
    key_by_prefix = λ p. elim s [ none ↦ err record_not_found | some k ↦ ok k ];
  };
  create_key = λ k s. ok (some (record k { created_at = 7; updated_at = 7 }), 7);
}

one_key-KeepsKeys : KeepsKeys one_key
one_key-KeepsKeys = record { kept = λ k s s' now e. ground arith }

hash_h : (hash : Text) → ◌≡◌ {A = Option Text} (some (text "h")) (some hash) → text "h" ≡ hash
hash_h hash e = ground arith

plain_bcrypt-Fits : Fits plain_bcrypt
plain_bcrypt-Fits = record {
  fits = λ secret hash e.
      subst (λ t. text_eq t (text "h") ≡ true) (hash_h hash e) (text_eq_refl (text "h"));
}

abbrev new_params : CreateApiKeyParams
new_params = record { user_id = text "u1"; label = text "laptop" }

abbrev made_key : ApiKey
made_key = record {
  id = text "k2";
  user_id = text "u1";
  label = text "laptop";
  prefix = text "00000000";
  secret_hash = text "h";
  enabled = true;
  last_used_at = none;
  metadata = none;
  created_at = 7;
  updated_at = 7;
  deleted_at = none;
}

creates :
    create_user_api_key plain_bcrypt one_key (text "k2") (some zeros) new_params none
    ≡ (some made_key, ok (made_key, plain))
unfolding create_user_api_key new_key get_user found generate_api_key encode_hex hash_secret
    validate_api_key trim_space trim_left trim_right is_space len
creates = refl

create_user_api_key-resolve_api_key_example :
    resolve_api_key plain_bcrypt (one_key.queries (some made_key)) plain ≡ ok made_key
create_user_api_key-resolve_api_key_example =
    create_user_api_key-resolve_api_key plain_bcrypt one_key (text "k2") zeros plain_bcrypt-Fits
      one_key-KeepsKeys new_params none (some made_key) made_key plain refl zeros_small creates

-- The request that sends the key.
abbrev sends_key : Header
sends_key =
    (
      text "Authorization",
      text "Bearer yapi_00000000_0000000000000000000000000000000000000000" ∷ [],
    )
    ∷ []

sends : header_get (text "Authorization") sends_key ≡ text "Bearer " ++ plain
unfolding header_get canonical_key text_eq
sends = refl

create_user_api_key-Accepted_example :
    (c : Context) × (api_key_auth plain_unicode plain_codec
        (accounts_authenticator plain_bcrypt (one_key.queries (some made_key)))
        sends_key
      ≡ next c)
    × (c.api_key ≡ some made_key)
    × (c.raw_api_key ≡ some plain)
create_user_api_key-Accepted_example =
    create_user_api_key-Accepted plain_bcrypt one_key (text "k2") zeros plain_unicode plain_codec
      plain_bcrypt-Fits one_key-KeepsKeys new_params none (some made_key) made_key plain sends_key
      refl zeros_small creates sends

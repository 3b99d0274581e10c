-- ===== src/Gateway/Created.antt =====
-- A key that the accounts' service has made opens the gateway; internal/middleware/auth.go in front
-- of pkg/accounts/service.go.
use yapi.Common.{
  ℕ, ◌≡◌, refl, ◌++◌, inl, inr, false, some, none, List, All, ok, length, ◌<◌, is_nil, Result-cases,
  ap, ◌∙◌, sym,
}
use yapi.Common.Text.{Text, text, Unicode, to_lower, has_prefix, trim_space}
use yapi.Common.Http.{Header, header_get}
use yapi.Accounts.Model.{ApiKey}
use yapi.Accounts.Keys.{Bcrypt}
use yapi.Accounts.Keys.Split.{generate_api_key-trimmed}
use yapi.Accounts.Create.{CreateApiKeyParams, KeyDatabase, create_user_api_key}
use yapi.Accounts.Create.Usable.{
  Fits, KeepsKeys, create_user_api_key-resolve_api_key, create_user_api_key-generated,
}
use yapi.Gateway.{accounts_authenticator}
use yapi.Middleware.Auth.{
  Codec, Context, next, Authenticator, api_key_auth, extract_api_key, value_of, decode_endpoints,
}

module _ (u : Unicode) where
  -- A key behind "Bearer " is taken as it is.
  extract-bearer :
      (h : Header) (rest : Text)
      → trim_space (text "yapi_" ++ rest) ≡ text "yapi_" ++ rest
      → header_get (text "Authorization") h ≡ text "Bearer " ++ text "yapi_" ++ rest
      → extract_api_key u h ≡ text "yapi_" ++ rest
  unfolding extract_api_key to_lower has_prefix
  extract-bearer h rest trimmed sent = rw (sent, trimmed) refl

  -- A text that resolves to a key is let through, with the key in the context.
  lets_through :
      (codec : Codec) (auth : Authenticator) (h : Header) (key : ApiKey)
      → is_nil (extract_api_key u h) ≡ false
      → auth.resolve_api_key (extract_api_key u h) ≡ ok key
      → (c : Context) × (api_key_auth u codec auth h ≡ next c)
        × (c.api_key ≡ some key)
        × (c.raw_api_key ≡ some (extract_api_key u h))
  unfolding api_key_auth
  lets_through codec auth h key full known =
      let raw = extract_api_key u h in
      elim (Result-cases (auth.resolve_binding_by_raw_key raw)) [
        | inl ((b, up), found) ↦ (
          record {
            user = value_of (auth.get_user b.user_id);
            api_key = value_of (auth.resolve_api_key raw);
            binding = some b;
            upstream =
                some (record { credential = up; endpoints = decode_endpoints codec up.endpoints });
            raw_api_key = some raw;
          },
          rw (full, found),
          ap value_of known,
          refl,
        )
        | inr (e, failed) ↦ (
          record {
            user = value_of (auth.get_user key.user_id);
            api_key = some key;
            binding = none;
            upstream = none;
            raw_api_key = some raw;
          },
          rw (full, failed, known),
          refl,
          refl,
        )
      ]

module _ {S : Type 0} (bc : Bcrypt) (db : KeyDatabase S) (uuid : Text) (buff : List ℕ) (u : Unicode)
    (codec : Codec) where
  -- A key that `CreateUserAPIKey` made from 24 random bytes opens the gateway at once: a request that
  -- sends the text it returned as its bearer token goes on, with the key in its context, if bcrypt
  -- accepts what it has hashed and the table of keys finds what was stored.
  pub create_user_api_key-Accepted :
      (fits : Fits bc) (keeps : KeepsKeys db) (params : CreateApiKeyParams) (s s' : S)
      (key : ApiKey) (plain : Text) (h : Header)
      → length buff ≡ 24
      → All (λ b. b < 256) buff
      → create_user_api_key bc db uuid (some buff) params s ≡ (s', ok (key, plain))
      → header_get (text "Authorization") h ≡ text "Bearer " ++ plain
      → (c : Context) × (api_key_auth u codec (accounts_authenticator bc (db.queries s')) h
          ≡ next c)
        × (c.api_key ≡ some key)
        × (c.raw_api_key ≡ some plain)
  create_user_api_key-Accepted fits keeps params s s' key plain h size bytes made sent =
      let known =
        create_user_api_key-resolve_api_key bc db uuid buff fits keeps params s s' key plain size
          bytes made in
      let (prefix, generated) =
        create_user_api_key-generated bc db uuid buff params s s' key plain made in
      let (rest, form, solid) = generate_api_key-trimmed buff plain prefix bytes generated in
      let trimmed : trim_space (text "yapi_" ++ rest) ≡ text "yapi_" ++ rest = rw form at solid in
      let taken : extract_api_key u h ≡ plain =
        extract-bearer u h rest trimmed (sent ∙ ap (λ t. text "Bearer " ++ t) form) ∙ sym form in
      let full : is_nil plain ≡ false = rw form refl in
      let (c, goes_on, has, raw) =
        lets_through u codec (accounts_authenticator bc (db.queries s')) h key (rw taken full)
          (rw taken known) in
      (c, goes_on, has, raw ∙ ap some taken)

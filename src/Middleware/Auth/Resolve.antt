-- ===== src/Middleware/Auth/Resolve.antt =====
-- What the context of a request says after `APIKeyAuth`, internal/middleware/auth.go.
use yapi.Common.{
  ◌≡◌, refl, ◌≢◌, inl, inr, true, false, none, some, [], ◌∷◌, ok, err, is_nil, Bool-cases,
  Result-cases,
}
use yapi.Common.Text.{Text, Unicode}
use yapi.Common.Http.{Header}
use yapi.Accounts.Model.{AccountsError, ApiKey, UpstreamKey, UserKeyBinding}
use yapi.Middleware.Auth.{
  Codec, Authenticator, Context, empty_context, decode_endpoints, extract_api_key, value_of, Gate,
  next, unauthorized, api_key_auth,
}

module _ (u : Unicode) (codec : Codec) (auth : Authenticator) where
  -- How a context comes about: no key was sent; the key has a binding, and the context holds the
  -- binding, its upstream and the binding's user; or it has none, and the context holds the key and
  -- the key's user.
  pub data Resolves (raw : Text) : Context → Type 0 where
    anonymous : raw ≡ [] → Resolves raw empty_context
    bound :
        {b : UserKeyBinding} {up : UpstreamKey}
        → raw ≢ []
        → auth.resolve_binding_by_raw_key raw ≡ ok (b, up)
        → Resolves raw (record {
          user = value_of (auth.get_user b.user_id);
          api_key = value_of (auth.resolve_api_key raw);
          binding = some b;
          upstream =
              some (record { credential = up; endpoints = decode_endpoints codec up.endpoints });
          raw_api_key = some raw;
        })
    unbound :
        {k : ApiKey}
        → raw ≢ []
        → (e : AccountsError) → auth.resolve_binding_by_raw_key raw ≡ err e
        → auth.resolve_api_key raw ≡ ok k
        → Resolves raw (record {
          user = value_of (auth.get_user k.user_id);
          api_key = some k;
          binding = none;
          upstream = none;
          raw_api_key = some raw;
        })

  -- The request is refused: a key was sent, and it resolves to nothing.
  abbrev pub IsRefused : Text → Type 0
  IsRefused raw =
      (raw ≢ [])
      × (e : AccountsError) × (auth.resolve_binding_by_raw_key raw ≡ err e)
      × (f : AccountsError) × (auth.resolve_api_key raw ≡ err f)

  abbrev pub Outcome : Text → Gate → Type 0
  Outcome raw (next c) = Resolves raw c
  Outcome raw unauthorized = IsRefused raw

  not_nil : (raw : Text) → is_nil raw ≡ false → raw ≢ []
  not_nil [] e h = cc
  not_nil (c ∷ s) e h = cc

  nil_of : (raw : Text) → is_nil raw ≡ true → raw ≡ []
  nil_of [] e = refl
  nil_of (c ∷ s) e = cc

  -- Every request ends in one of these ways: it goes on with no key, with a bound key or with an
  -- unbound key, each as the authenticator answers; or it is refused, when the key that it sends
  -- resolves neither to a binding nor to a key.
  pub api_key_auth-Outcome :
      (h : Header) → Outcome (extract_api_key u h) (api_key_auth u codec auth h)
  unfolding api_key_auth
  api_key_auth-Outcome h =
      let raw = extract_api_key u h in
      elim (Bool-cases (is_nil raw)) [
        | inl e ↦ rw e (anonymous (nil_of raw e))
        | inr full ↦ elim (Result-cases (auth.resolve_binding_by_raw_key raw)) [
          | inl ((b, up), found) ↦ rw (full, found) (bound (not_nil raw full) found)
          | inr (e, failed) ↦ elim (Result-cases (auth.resolve_api_key raw)) [
            | inl (k, found) ↦ rw (full, failed, found) (unbound (not_nil raw full) e failed found)
            | inr (f, unknown) ↦
                rw (full, failed, unknown) (not_nil raw full, e, failed, f, unknown)
          ]
        ]
      ]

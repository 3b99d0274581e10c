-- ===== src/Middleware/Auth.antt =====
-- internal/middleware/auth.go: the API key of a request, and what it resolves to.
pub mod Resolve
use yapi.Common.{
  ℕ, Bool, true, false, Option, none, some, List, [], ◌∷◌, Result, ok, err, if◌then◌else◌, is_nil,
  drop,
}
use yapi.Common.Text.{Text, text, Unicode, to_lower, has_prefix, trim_space}
use yapi.Common.Http.{Header, header_get}
use yapi.Accounts.Model.{AccountsError, User, ApiKey, UpstreamKey, UserKeyBinding}

-- `json.Unmarshal` of a list of texts; `none` is an error.
pub record Codec : Type 0 where
  pub unmarshal_texts : Text → Option (List Text)

pub record UpstreamInfo : Type 0 where
  pub credential : UpstreamKey
  pub endpoints : List Text

-- The interface `Authenticator`, at one moment of the database.
pub record Authenticator : Type 0 where
  pub resolve_binding_by_raw_key : Text → Result AccountsError (UserKeyBinding × UpstreamKey)
  pub resolve_api_key : Text → Result AccountsError ApiKey
  pub get_user : Text → Result AccountsError User

-- The values of the request's context that `APIKeyAuth` may set.
pub record Context : Type 0 where
  pub user : Option User
  pub api_key : Option ApiKey
  pub binding : Option UserKeyBinding
  pub upstream : Option UpstreamInfo
  pub raw_api_key : Option Text

abbrev pub empty_context : Context
empty_context = record {
  user = none;
  api_key = none;
  binding = none;
  upstream = none;
  raw_api_key = none;
}

-- `RawAPIKey`: an empty text counts as none.
unfoldable pub raw_api_key : Context → Option Text
raw_api_key c = elim c.raw_api_key [
  | none ↦ none
  | some raw ↦ if is_nil raw then none else some raw
]

unfoldable pub decode_endpoints : Codec → Text → List Text
decode_endpoints codec raw =
    if is_nil raw
    then []
    else elim (codec.unmarshal_texts raw) [ none ↦ [] | some endpoints ↦ endpoints ]

abbrev from_headers : Header → Text
from_headers h =
    if is_nil (header_get (text "X-API-Key") h)
    then (if is_nil (header_get (text "X-User-Api-Key") h)
        then []
        else trim_space (header_get (text "X-User-Api-Key") h))
    else trim_space (header_get (text "X-API-Key") h)

-- `extractAPIKey`
unfoldable pub extract_api_key : Unicode → Header → Text
extract_api_key u h =
    let value = header_get (text "Authorization") h in
    let candidate = trim_space (drop 7 value) in
    if has_prefix (to_lower u value) (text "bearer ")
    then (if has_prefix candidate (text "yapi_") then candidate else from_headers h)
    else from_headers h

-- The value, if there is no error.
abbrev pub value_of {ℓ} : {A : Type ℓ} → Result AccountsError A → Option A
value_of (ok a) = some a
value_of (err _) = none

-- What the middleware does: the next handler runs with a context, or the request is answered with
-- 401.
pub data Gate : Type 0 where
  next : Context → Gate
  unauthorized : Gate

-- `APIKeyAuth`, for an authenticator that is not nil, on a request with no context so far.
unfoldable pub api_key_auth : Unicode → Codec → Authenticator → Header → Gate
api_key_auth u codec auth h =
    let raw = extract_api_key u h in
    if is_nil raw then next empty_context else elim (auth.resolve_binding_by_raw_key raw) [
      | err _ ↦ elim (auth.resolve_api_key raw) [
        | err _ ↦ unauthorized
        | ok key ↦ next (record {
          user = value_of (auth.get_user key.user_id);
          api_key = some key;
          binding = none;
          upstream = none;
          raw_api_key = some raw;
        })
      ]
      | ok (binding, upstream) ↦ next (record {
        user = value_of (auth.get_user binding.user_id);
        api_key = value_of (auth.resolve_api_key raw);
        binding = some binding;
        upstream = some (record {
          credential = upstream;
          endpoints = decode_endpoints codec upstream.endpoints;
        });
        raw_api_key = some raw;
      })
    ]

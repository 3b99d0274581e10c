-- ===== src/Admin/Accounts.antt =====
-- The requests and answers about the accounts of internal/admin/handler.go, and its handlers. A body
-- is none if it does not parse or lacks a field that is required; of an error the status is kept.
-- Metrics and logging are left out.
pub mod Handlers
pub mod Secrets
pub mod Failures
pub mod Binding
pub mod Endpoints
pub mod Older
mod Tests
use yapi.Common.{
  ℕ, Bool, true, false, not, Option, none, some, List, [], ◌∷◌, map, Result, ok, err, if◌then◌else◌,
  is_nil,
}
use yapi.Common.Int.{pos}
use yapi.Common.Text.{Text, trim_space, is_blank}
use yapi.Common.Dict.{Dict}
use yapi.Rules.Json.{Json}
use yapi.Accounts.Model.{
  AccountsError, not_found, conflict, invalid_input, other, User, ApiKey, UpstreamKey,
  UserKeyBinding,
}
use yapi.Accounts.Resolve.{BindApiKeyParams}
use yapi.Accounts.Create.{CreateApiKeyParams}
use yapi.Accounts.Database.{
  CreateUserParams, CreateUpstreamCredentialParams, UpdateUpstreamCredentialParams,
}
use yapi.Middleware.Auth.{Codec}
use yapi.Admin.Service.{AdminError, accounts_unavailable, reported, AdminService}

pub record CreateUserRequest : Type 0 where
  pub name : Text
  pub description : Text
  pub metadata : Option (Dict Json)

pub record CreateApiKeyRequest : Type 0 where
  pub label : Text

pub record CreateUpstreamCredentialRequest : Type 0 where
  pub provider : Text
  pub service : Text
  pub label : Text
  pub name : Text
  pub plaintext : Text
  pub endpoints : List Text
  pub metadata : Option (Dict Json)

pub record BindApiKeyRequest : Type 0 where
  pub user_id : Text
  pub upstream_credential_id : Text

pub record UpdateUpstreamCredentialRequest : Type 0 where
  pub user_id : Option Text
  pub provider : Option Text
  pub service : Option Text
  pub label : Option Text
  pub name : Option Text
  pub plaintext : Option Text
  pub endpoints : Option (List Text)
  pub metadata : Option (Dict Json)
  pub enabled : Option Bool

pub record UserResponse : Type 0 where
  pub id : Text
  pub name : Text
  pub description : Text
  pub metadata : Option (Dict Json)
  pub created_at : ℕ
  pub updated_at : ℕ

pub record ApiKeyResponse : Type 0 where
  pub id : Text
  pub user_id : Text
  pub label : Text
  pub prefix : Text
  pub last_used_at : Option ℕ
  pub created_at : ℕ
  pub updated_at : ℕ

pub record UpstreamCredentialResponse : Type 0 where
  pub id : Text
  pub user_id : Text
  pub provider : Text
  pub service : Text
  pub label : Text
  pub name : Text
  pub endpoints : List Text
  pub metadata : Option (Dict Json)
  pub created_at : ℕ
  pub updated_at : ℕ

pub record ApiKeyBindingResponse : Type 0 where
  pub id : Text
  pub user_id : Text
  pub user_api_key_id : Text
  pub upstream_credential_id : Text
  pub metadata : Option (Dict Json)
  pub created_at : ℕ
  pub updated_at : ℕ
  pub upstream : UpstreamCredentialResponse

unfoldable pub to_user_response : User → UserResponse
to_user_response user = record {
  id = user.id;
  name = user.name;
  description = user.description;
  metadata = user.metadata;
  created_at = user.created_at;
  updated_at = user.updated_at;
}

unfoldable pub to_api_key_response : ApiKey → ApiKeyResponse
to_api_key_response key = record {
  id = key.id;
  user_id = key.user_id;
  label = key.label;
  prefix = key.prefix;
  last_used_at = key.last_used_at;
  created_at = key.created_at;
  updated_at = key.updated_at;
}

unfoldable pub to_upstream_credential_response :
    UpstreamKey → List Text → UpstreamCredentialResponse
to_upstream_credential_response cred endpoints = record {
  id = cred.id;
  user_id = cred.user_id;
  provider = cred.service;
  service = cred.service;
  label = cred.name;
  name = cred.name;
  endpoints = endpoints;
  metadata = cred.metadata;
  created_at = cred.created_at;
  updated_at = cred.updated_at;
}

unfoldable pub to_binding_response :
    UserKeyBinding → UpstreamCredentialResponse → ApiKeyBindingResponse
to_binding_response binding upstream = record {
  id = binding.id;
  user_id = binding.user_id;
  user_api_key_id = binding.user_api_key_id;
  upstream_credential_id = binding.upstream_key_id;
  metadata = binding.metadata;
  created_at = binding.created_at;
  updated_at = binding.updated_at;
  upstream = upstream;
}

-- `decodeEndpoints`; no endpoints and nil are the same answer.
unfoldable pub decode_endpoints : Codec → Text → List Text
decode_endpoints codec raw =
    if is_nil raw
    then []
    else elim (codec.unmarshal_texts raw) [ none ↦ [] | some endpoints ↦ endpoints ]

-- A status with a body, 204 with none, or an error's status.
pub data Reply (A : Type 0) : Type 0 where
  answered : ℕ → A → Reply A
  no_content : Reply A
  failed : ℕ → Reply A

-- The status of `handleAccountsError`.
abbrev pub accounts_status : AdminError → ℕ
accounts_status accounts_unavailable = 501
accounts_status (reported (invalid_input _)) = 400
accounts_status (reported conflict) = 409
accounts_status (reported not_found) = 404
accounts_status (reported (other _)) = 500

-- `if h.handleAccountsError(…) { return }`, and the answer otherwise.
module _ {A B : Type 0} where
  abbrev pub answer : ℕ → (A → B) → Result AdminError A → Reply B
  answer status f (ok a) = answered status (f a)
  answer status f (err e) = failed (accounts_status e)

  abbrev pub answer_with : {S : Type 0} → ℕ → (A → B) → S × Result AdminError A → S × Reply B
  answer_with status f (s, r) = (s, answer status f r)

abbrev pub removed : {S A : Type 0} → S × Option AdminError → S × Reply A
removed (s, none) = (s, no_content)
removed (s, some e) = (s, failed (accounts_status e))

-- A text that is given, trimmed; nothing is the empty text.
abbrev pub trimmed : Option Text → Text
trimmed none = []
trimmed (some s) = trim_space s

abbrev pub trimmed_if_given : Option Text → Option Text
trimmed_if_given none = none
trimmed_if_given (some s) = some (trim_space s)

-- The loop over the endpoints of an update.
unfoldable pub clean : List Text → List Text
clean [] = []
clean (e ∷ es) = let rest = clean es in if is_blank e then rest else trim_space e ∷ rest

abbrev pub clean_if_given : Option (List Text) → Option (List Text)
clean_if_given none = none
clean_if_given (some es) = some (clean es)

-- `resp.Service = trimmed`, if the request has a service that is not blank.
abbrev pub with_service : Text → UpstreamCredentialResponse → UpstreamCredentialResponse
with_service service resp =
    if is_blank service then resp else record resp { service = trim_space service }

-- What an update asks of the service.
unfoldable pub update_params :
    Text → UpdateUpstreamCredentialRequest → UpdateUpstreamCredentialParams
unfolding clean
update_params id req = record {
  credential_id = id;
  user_id = trimmed req.user_id;
  provider = trimmed req.provider;
  label = trimmed req.label;
  service = trimmed req.service;
  name = trimmed req.name;
  plaintext = trimmed_if_given req.plaintext;
  endpoints = clean_if_given req.endpoints;
  metadata = req.metadata;
  enabled = req.enabled;
}

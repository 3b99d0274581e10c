-- ===== src/Admin/Accounts/Handlers.antt =====
-- The handlers of internal/admin/handler.go for users, keys, credentials and bindings; `id` is the
-- one in the path.
use yapi.Common.{Option, none, some, List, [], map, Result, ok, err, if◌then◌else◌, is_nil}
use yapi.Common.Int.{pos}
use yapi.Common.Text.{Text}
use yapi.Accounts.Model.{UpstreamKey, UserKeyBinding}
use yapi.Middleware.Auth.{Codec}
use yapi.Admin.Service.{AdminError, AdminService}
use yapi.Admin.Accounts.{
  CreateUserRequest, CreateApiKeyRequest, CreateUpstreamCredentialRequest, BindApiKeyRequest,
  UpdateUpstreamCredentialRequest, UserResponse, ApiKeyResponse, UpstreamCredentialResponse,
  ApiKeyBindingResponse, to_user_response, to_api_key_response, to_upstream_credential_response,
  to_binding_response, decode_endpoints, Reply, failed, accounts_status, answer, answer_with,
  removed, trimmed, with_service, update_params,
}

-- A credential as it is shown.
abbrev pub shown : Codec → UpstreamKey → UpstreamCredentialResponse
shown codec cred = to_upstream_credential_response cred (decode_endpoints codec cred.endpoints)

abbrev pub shown_binding : Codec → UserKeyBinding → UpstreamKey → ApiKeyBindingResponse
shown_binding codec binding cred = to_binding_response binding (shown codec cred)

module _ {S : Type 0} (codec : Codec) (svc : AdminService S) where
  unfoldable pub create_user : Option CreateUserRequest → S → S × Reply UserResponse
  unfolding to_user_response
  create_user none s = (s, failed 400)
  create_user (some req) s = answer_with 201 to_user_response (
      svc.create_user
        (record { name = req.name; description = req.description; metadata = req.metadata }) s)

  unfoldable pub list_users : S → Reply (List UserResponse)
  unfolding to_user_response
  list_users s = answer 200 (map to_user_response) (svc.list_users s)

  unfoldable pub delete_user : Text → S → S × Reply UserResponse
  delete_user id s = if is_nil id then (s, failed 400) else removed (svc.delete_user id s)

  abbrev create_key_with : Text → Option CreateApiKeyRequest → S → S × Reply (ApiKeyResponse × Text)
  create_key_with id none s = (s, failed 400)
  create_key_with id (some req) s =
      answer_with 201 (λ made. (to_api_key_response made.0, made.1))
        (svc.create_user_api_key (record { user_id = id; label = req.label }) s)

  unfoldable pub create_user_api_key :
      Text → Option CreateApiKeyRequest → S → S × Reply (ApiKeyResponse × Text)
  unfolding to_api_key_response
  create_user_api_key id body s = if is_nil id then (s, failed 400) else create_key_with id body s

  unfoldable pub list_user_api_keys : Text → S → Reply (List ApiKeyResponse)
  unfolding to_api_key_response
  list_user_api_keys id s =
      if is_nil id
      then failed 400
      else answer 200 (map to_api_key_response) (svc.list_user_api_keys id s)

  unfoldable pub delete_user_api_key : Text → S → S × Reply ApiKeyResponse
  delete_user_api_key id s =
      if is_nil id then (s, failed 400) else removed (svc.revoke_user_api_key id s)

  abbrev create_credential_with :
      Text → Option CreateUpstreamCredentialRequest → S → S × Reply UpstreamCredentialResponse
  create_credential_with id none s = (s, failed 400)
  create_credential_with id (some req) s =
      answer_with 201 (λ cred. with_service req.service (shown codec cred))
        (svc.create_upstream_credential
          (record {
            user_id = id;
            provider = req.provider;
            label = req.label;
            service = req.service;
            name = req.name;
            plaintext = req.plaintext;
            endpoints = req.endpoints;
            metadata = req.metadata;
          })
          s)

  unfoldable pub create_upstream_credential :
      Text → Option CreateUpstreamCredentialRequest → S → S × Reply UpstreamCredentialResponse
  unfolding to_upstream_credential_response decode_endpoints
  create_upstream_credential id body s =
      if is_nil id then (s, failed 400) else create_credential_with id body s

  abbrev update_credential_with :
      Text → Option UpdateUpstreamCredentialRequest → S → S × Reply UpstreamCredentialResponse
  update_credential_with id none s = (s, failed 400)
  update_credential_with id (some req) s =
      answer_with 200 (λ cred. with_service (trimmed req.service) (shown codec cred))
        (svc.update_upstream_credential (update_params id req) s)

  unfoldable pub update_upstream_credential :
      Text → Option UpdateUpstreamCredentialRequest → S → S × Reply UpstreamCredentialResponse
  unfolding to_upstream_credential_response decode_endpoints update_params
  update_upstream_credential id body s =
      if is_nil id then (s, failed 400) else update_credential_with id body s

  unfoldable pub list_upstream_credentials : Text → S → Reply (List UpstreamCredentialResponse)
  unfolding to_upstream_credential_response decode_endpoints
  list_upstream_credentials id s =
      if is_nil id
      then failed 400
      else answer 200 (map (shown codec)) (svc.list_upstream_credentials id s)

  unfoldable pub delete_upstream_credential : Text → S → S × Reply UpstreamCredentialResponse
  delete_upstream_credential id s =
      if is_nil id then (s, failed 400) else removed (svc.delete_upstream_credential id s)

  -- After the binding is made, the key's binding is looked up for its credential.
  abbrev pub show_bound :
      Text → S × Result AdminError UserKeyBinding → S × Reply ApiKeyBindingResponse
  show_bound id (s, err e) = (s, failed (accounts_status e))
  show_bound id (s, ok binding) = (
    s,
    answer 200 (λ found. shown_binding codec binding found.1) (svc.get_binding_by_api_key_id id s),
  )

  abbrev bind_with : Text → Option BindApiKeyRequest → S → S × Reply ApiKeyBindingResponse
  bind_with id none s = (s, failed 400)
  bind_with id (some req) s = show_bound id (
      svc.bind_api_key
        (record {
          user_id = req.user_id;
          user_api_key_id = id;
          upstream_credential_id = req.upstream_credential_id;
          service = [];
          position = pos 0;
          metadata = none;
        })
        s)

  unfoldable pub bind_api_key :
      Text → Option BindApiKeyRequest → S → S × Reply ApiKeyBindingResponse
  unfolding to_upstream_credential_response decode_endpoints to_binding_response
  bind_api_key id body s = if is_nil id then (s, failed 400) else bind_with id body s

  unfoldable pub get_api_key_binding : Text → S → Reply ApiKeyBindingResponse
  unfolding to_upstream_credential_response decode_endpoints to_binding_response
  get_api_key_binding id s =
      if is_nil id
      then failed 400
      else answer 200 (λ found. shown_binding codec found.0 found.1)
          (svc.get_binding_by_api_key_id id s)

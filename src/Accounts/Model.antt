-- ===== src/Accounts/Model.antt =====
-- pkg/accounts/models.go and errors.go: users, API keys, upstream keys and bindings, and when each
-- is valid.
use yapi.Common.{ℕ, Bool, Option, ◌>>◌, ltb, ◌==◌, not}
use yapi.Common.Int.{ℤ}
use yapi.Common.Text.{Text, is_blank, len}
use yapi.Common.Dict.{Dict}
use yapi.Rules.Json.{Json}
use yapi.Rules.Model.{fail_if}

-- What `ErrInvalidInput` is wrapped with.
pub data InvalidInput : Type 0 where
  name_empty name_too_long description_too_long : InvalidInput
  user_id_empty label_too_long prefix_malformed secret_hash_empty : InvalidInput
  service_empty service_too_long api_key_empty : InvalidInput
  api_key_id_empty upstream_key_id_empty : InvalidInput
  key_empty key_format secret_empty id_required : InvalidInput

-- `ErrNotFound`, `ErrConflict`, `ErrInvalidInput`, and any other error.
pub data AccountsError : Type 0 where
  not_found conflict : AccountsError
  invalid_input : InvalidInput → AccountsError
  other : Text → AccountsError

abbrev pub max_name_length : ℕ
max_name_length = 128

abbrev pub max_description_length : ℕ
max_description_length = 512

abbrev pub api_key_prefix_length : ℕ
api_key_prefix_length = 8

-- Times are nanoseconds, and `none` where the source has nil or an invalid time. A metadata map
-- that is nil is `none`.
pub record User : Type 0 where
  pub id : Text
  pub name : Text
  pub description : Text
  pub metadata : Option (Dict Json)
  pub created_at : ℕ
  pub updated_at : ℕ
  pub deleted_at : Option ℕ

pub record ApiKey : Type 0 where
  pub id : Text
  pub user_id : Text
  pub label : Text
  pub prefix : Text
  pub secret_hash : Text
  pub enabled : Bool
  pub last_used_at : Option ℕ
  pub metadata : Option (Dict Json)
  pub created_at : ℕ
  pub updated_at : ℕ
  pub deleted_at : Option ℕ

-- `UpstreamKey`, also called `UpstreamCredential`; the endpoints are JSON text.
pub record UpstreamKey : Type 0 where
  pub id : Text
  pub user_id : Text
  pub service : Text
  pub name : Text
  pub api_key : Text
  pub endpoints : Text
  pub metadata : Option (Dict Json)
  pub enabled : Bool
  pub created_at : ℕ
  pub updated_at : ℕ
  pub deleted_at : Option ℕ

-- `UserKeyBinding`, also called `UserAPIKeyBinding`.
pub record UserKeyBinding : Type 0 where
  pub id : Text
  pub user_id : Text
  pub user_api_key_id : Text
  pub upstream_key_id : Text
  pub service : Text
  pub position : ℤ
  pub metadata : Option (Dict Json)
  pub created_at : ℕ
  pub updated_at : ℕ

unfoldable pub validate_user : User → Option InvalidInput
validate_user u = do
  fail_if (is_blank u.name) name_empty
  fail_if (ltb max_name_length (len u.name)) name_too_long
  fail_if (ltb max_description_length (len u.description)) description_too_long

unfoldable pub validate_api_key : ApiKey → Option InvalidInput
validate_api_key k = do
  fail_if (is_blank k.user_id) user_id_empty
  fail_if (ltb max_name_length (len k.label)) label_too_long
  fail_if (not (len k.prefix == api_key_prefix_length)) prefix_malformed
  fail_if (is_blank k.secret_hash) secret_hash_empty

unfoldable pub validate_upstream_key : UpstreamKey → Option InvalidInput
validate_upstream_key k = do
  fail_if (is_blank k.user_id) user_id_empty
  fail_if (is_blank k.service) service_empty
  fail_if (ltb 64 (len k.service)) service_too_long
  fail_if (ltb max_name_length (len k.name)) name_too_long
  fail_if (is_blank k.api_key) api_key_empty

unfoldable pub validate_binding : UserKeyBinding → Option InvalidInput
validate_binding b = do
  fail_if (is_blank b.user_id) user_id_empty
  fail_if (is_blank b.user_api_key_id) api_key_id_empty
  fail_if (is_blank b.upstream_key_id) upstream_key_id_empty
  fail_if (is_blank b.service) service_empty

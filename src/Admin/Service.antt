-- ===== src/Admin/Service.antt =====
-- internal/admin/service.go: the administration's service in front of those of the rules and the
-- accounts, of which the second may be missing.
pub mod Over
use yapi.Common.{Option, none, some, List, Result, ok, err}
use yapi.Common.Text.{Text}
use yapi.Rules.Model.{Rule}
use yapi.Rules.Store.{StoreError}
use yapi.Accounts.Model.{AccountsError, User, ApiKey, UpstreamKey, UserKeyBinding}
use yapi.Accounts.Resolve.{BindApiKeyParams}
use yapi.Accounts.Create.{CreateApiKeyParams}
use yapi.Accounts.Database.{
  CreateUserParams, CreateUpstreamCredentialParams, UpdateUpstreamCredentialParams,
}

-- `ErrAccountsUnavailable`, or what the accounts' service reports.
pub data AdminError : Type 0 where
  accounts_unavailable : AdminError
  reported : AccountsError → AdminError

-- The interface `rules.Service`, over a state `S`.
pub record RulesService (S : Type 0) : Type 0 where
  pub list_rules : S → S × Result StoreError (List Rule)
  pub get_rule : Text → S → S × Result StoreError Rule
  pub upsert_rule : Rule → S → S × Option StoreError
  pub delete_rule : Text → S → S × Option StoreError

-- What the administration uses of the interface `accounts.Service`.
pub record AccountsService (S : Type 0) : Type 0 where
  pub create_user : CreateUserParams → S → S × Result AccountsError User
  pub list_users : S → Result AccountsError (List User)
  pub delete_user : Text → S → S × Option AccountsError
  pub create_user_api_key : CreateApiKeyParams → S → S × Result AccountsError (ApiKey × Text)
  pub list_user_api_keys : Text → S → Result AccountsError (List ApiKey)
  pub revoke_user_api_key : Text → S → S × Option AccountsError
  pub create_upstream_credential :
      CreateUpstreamCredentialParams → S → S × Result AccountsError UpstreamKey
  pub update_upstream_credential :
      UpdateUpstreamCredentialParams → S → S × Result AccountsError UpstreamKey
  pub list_upstream_credentials : Text → S → Result AccountsError (List UpstreamKey)
  pub delete_upstream_credential : Text → S → S × Option AccountsError
  pub bind_api_key : BindApiKeyParams → S → S × Result AccountsError UserKeyBinding
  pub get_binding_by_api_key_id : Text → S → Result AccountsError (UserKeyBinding × UpstreamKey)

-- The interface `Service`.
pub record AdminService (S : Type 0) : Type 0 where
  pub list_rules : S → S × Result StoreError (List Rule)
  pub get_rule : Text → S → S × Result StoreError Rule
  pub create_or_update_rule : Rule → S → S × Option StoreError
  pub delete_rule : Text → S → S × Option StoreError
  pub create_user : CreateUserParams → S → S × Result AdminError User
  pub list_users : S → Result AdminError (List User)
  pub delete_user : Text → S → S × Option AdminError
  pub create_user_api_key : CreateApiKeyParams → S → S × Result AdminError (ApiKey × Text)
  pub list_user_api_keys : Text → S → Result AdminError (List ApiKey)
  pub revoke_user_api_key : Text → S → S × Option AdminError
  pub create_upstream_credential :
      CreateUpstreamCredentialParams → S → S × Result AdminError UpstreamKey
  pub update_upstream_credential :
      UpdateUpstreamCredentialParams → S → S × Result AdminError UpstreamKey
  pub list_upstream_credentials : Text → S → Result AdminError (List UpstreamKey)
  pub delete_upstream_credential : Text → S → S × Option AdminError
  pub bind_api_key : BindApiKeyParams → S → S × Result AdminError UserKeyBinding
  pub get_binding_by_api_key_id : Text → S → Result AdminError (UserKeyBinding × UpstreamKey)

module _ {ℓ} {A : Type ℓ} where
  abbrev pub asked : Result AccountsError A → Result AdminError A
  asked (ok a) = ok a
  asked (err e) = err (reported e)

  abbrev pub asked_with {κ} : {S : Type κ} → S × Result AccountsError A → S × Result AdminError A
  asked_with (s, r) = (s, asked r)

abbrev pub asked_error : Option AccountsError → Option AdminError
asked_error none = none
asked_error (some e) = some (reported e)

abbrev pub told {ℓ} : {S : Type ℓ} → S × Option AccountsError → S × Option AdminError
told (s, e) = (s, asked_error e)

-- `NewService` and the methods of what it makes.
abbrev pub new_service : {S : Type 0} → RulesService S → Option (AccountsService S) → AdminService S
new_service rules none = record {
  list_rules = rules.list_rules;
  get_rule = rules.get_rule;
  create_or_update_rule = rules.upsert_rule;
  delete_rule = rules.delete_rule;
  create_user = λ params s. (s, err accounts_unavailable);
  list_users = λ s. err accounts_unavailable;
  delete_user = λ id s. (s, some accounts_unavailable);
  create_user_api_key = λ params s. (s, err accounts_unavailable);
  list_user_api_keys = λ id s. err accounts_unavailable;
  revoke_user_api_key = λ id s. (s, some accounts_unavailable);
  create_upstream_credential = λ params s. (s, err accounts_unavailable);
  update_upstream_credential = λ params s. (s, err accounts_unavailable);
  list_upstream_credentials = λ id s. err accounts_unavailable;
  delete_upstream_credential = λ id s. (s, some accounts_unavailable);
  bind_api_key = λ params s. (s, err accounts_unavailable);
  get_binding_by_api_key_id = λ id s. err accounts_unavailable;
}
new_service rules (some accounts) = record {
  list_rules = rules.list_rules;
  get_rule = rules.get_rule;
  create_or_update_rule = rules.upsert_rule;
  delete_rule = rules.delete_rule;
  create_user = λ params s. asked_with (accounts.create_user params s);
  list_users = λ s. asked (accounts.list_users s);
  delete_user = λ id s. told (accounts.delete_user id s);
  create_user_api_key = λ params s. asked_with (accounts.create_user_api_key params s);
  list_user_api_keys = λ id s. asked (accounts.list_user_api_keys id s);
  revoke_user_api_key = λ id s. told (accounts.revoke_user_api_key id s);
  create_upstream_credential =
      λ params s. asked_with (accounts.create_upstream_credential params s);
  update_upstream_credential =
      λ params s. asked_with (accounts.update_upstream_credential params s);
  list_upstream_credentials = λ id s. asked (accounts.list_upstream_credentials id s);
  delete_upstream_credential = λ id s. told (accounts.delete_upstream_credential id s);
  bind_api_key = λ params s. asked_with (accounts.bind_api_key params s);
  get_binding_by_api_key_id = λ id s. asked (accounts.get_binding_by_api_key_id id s);
}

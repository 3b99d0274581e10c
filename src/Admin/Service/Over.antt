-- ===== src/Admin/Service/Over.antt =====
-- The accounts' service of pkg/accounts/service.go as the interface that the administration uses.
use yapi.Common.{ℕ, Option, List}
use yapi.Common.Text.{Text}
use yapi.Accounts.Keys.{Bcrypt}
use yapi.Accounts.Resolve
use yapi.Accounts.Create
use yapi.Accounts.Service
use yapi.Accounts.Database.{AccountsDatabase, EndpointCodec, key_database, binding_database}
use yapi.Admin.Service.{AccountsService}

-- `uuid` and `random` are what `uuid.NewString` and `rand.Read` give to the next call.
abbrev pub database_accounts :
    {S : Type 0}
    → Bcrypt
    → EndpointCodec
    → AccountsDatabase S
    → (S → Text)
    → (S → Option (List ℕ))
    → AccountsService S
database_accounts bc codec db uuid random = record {
  create_user = λ params s. Service.create_user bc codec db (uuid s) params s;
  list_users = λ s. Service.list_users bc codec db s;
  delete_user = λ id s. Service.delete_user bc codec db id s;
  create_user_api_key =
      λ params s. Create.create_user_api_key bc (key_database db) (uuid s) (random s) params s;
  list_user_api_keys = λ id s. Service.list_user_api_keys bc codec db id s;
  revoke_user_api_key = λ id s. Service.revoke_user_api_key bc codec db id s;
  create_upstream_credential =
      λ params s. Service.create_upstream_credential bc codec db (uuid s) params s;
  update_upstream_credential = λ params s. Service.update_upstream_credential bc codec db params s;
  list_upstream_credentials = λ id s. Service.list_upstream_credentials bc codec db id s;
  delete_upstream_credential = λ id s. Service.delete_upstream_credential bc codec db id s;
  bind_api_key = λ params s. Resolve.bind_api_key (binding_database db) (uuid s) params s;
  get_binding_by_api_key_id = λ id s. Resolve.get_binding_by_api_key_id bc (db.queries s) id;
}

-- ===== src/Accounts/Service/Tables/Run.antt =====
-- Any sequence of requests to the service of pkg/accounts/service.go keeps the tables linked.
use yapi.Common.{◌≡◌, subst, ℕ, Bool, Option, List}
use yapi.Common.Text.{Text}
use yapi.Accounts.Keys.{Bcrypt}
use yapi.Accounts.Resolve
use yapi.Accounts.Resolve.{BindApiKeyParams}
use yapi.Accounts.Create
use yapi.Accounts.Create.{CreateApiKeyParams}
use yapi.Accounts.Service
use yapi.Accounts.Database.{
  AccountsDatabase, EndpointCodec, CreateUserParams, CreateUpstreamCredentialParams,
  UpdateUpstreamCredentialParams, key_database, binding_database,
}
use yapi.Accounts.Service.Tables.{Tables, Reads, Writes}
use yapi.Accounts.Service.Tables.Settle.{IsLinked}
use yapi.Accounts.Service.Tables.Kept
use yapi.Accounts.Service.Tables.Upstreams
use yapi.Accounts.Service.Tables.Bound

-- The calls that change the state, with what `uuid.NewString` and `rand.Read` give each.
pub data Request : Type 0 where
  create_user : Text → CreateUserParams → Request
  delete_user : Text → Request
  create_user_api_key : Text → Option (List ℕ) → CreateApiKeyParams → Request
  set_user_api_key_enabled : Text → Bool → Request
  revoke_user_api_key : Text → Request
  create_upstream_credential : Text → CreateUpstreamCredentialParams → Request
  update_upstream_credential : UpdateUpstreamCredentialParams → Request
  set_upstream_credential_enabled : Text → Bool → Request
  delete_upstream_credential : Text → Request
  bind_api_key : Text → BindApiKeyParams → Request
  delete_binding : Text → Request

module _ {S : Type 0} (bc : Bcrypt) (codec : EndpointCodec) (db : AccountsDatabase S) where
  -- The state that a call leaves, whatever it answers.
  unfoldable pub run : Request → S → S
  run (create_user uuid params) s = (Service.create_user bc codec db uuid params s).0
  run (delete_user id) s = (Service.delete_user bc codec db id s).0
  run (create_user_api_key uuid random params) s =
      (Create.create_user_api_key bc (key_database db) uuid random params s).0
  run (set_user_api_key_enabled id flag) s =
      (Service.set_user_api_key_enabled bc codec db id flag s).0
  run (revoke_user_api_key id) s = (Service.revoke_user_api_key bc codec db id s).0
  run (create_upstream_credential uuid params) s =
      (Service.create_upstream_credential bc codec db uuid params s).0
  run (update_upstream_credential params) s =
      (Service.update_upstream_credential bc codec db params s).0
  run (set_upstream_credential_enabled id flag) s =
      (Service.set_upstream_credential_enabled bc codec db id flag s).0
  run (delete_upstream_credential id) s = (Service.delete_upstream_credential bc codec db id s).0
  run (bind_api_key uuid params) s = (Resolve.bind_api_key (binding_database db) uuid params s).0
  run (delete_binding id) s = (Service.delete_binding bc codec db id s).0

  -- The states that calls, one after the other, can reach.
  pub data Reach (s : S) : S → Type 0 where
    here : Reach s s
    after : {t u : S} (r : Request) → Reach s t → run r t ≡ u → Reach s u

  module _ (rows : S → Tables) (reads : Reads db rows) (writes : Writes db rows) where
    run-IsLinked : (r : Request) (s : S) → IsLinked rows s → IsLinked rows (run r s)
    unfolding run
    run-IsLinked (create_user uuid params) s =
        Kept.create_user-IsLinked bc codec db rows reads writes uuid params s
    run-IsLinked (delete_user id) s = Kept.delete_user-IsLinked bc codec db rows reads writes id s
    run-IsLinked (create_user_api_key uuid random params) s =
        Kept.create_user_api_key-IsLinked bc codec db rows reads writes uuid random params s
    run-IsLinked (set_user_api_key_enabled id flag) s =
        Kept.set_user_api_key_enabled-IsLinked bc codec db rows reads writes id flag s
    run-IsLinked (revoke_user_api_key id) s =
        Kept.revoke_user_api_key-IsLinked bc codec db rows reads writes id s
    run-IsLinked (create_upstream_credential uuid params) s =
        Upstreams.create_upstream_credential-IsLinked bc codec db rows reads writes uuid params s
    run-IsLinked (update_upstream_credential params) s =
        Upstreams.update_upstream_credential-IsLinked bc codec db rows reads writes params s
    run-IsLinked (set_upstream_credential_enabled id flag) s =
        Upstreams.set_upstream_credential_enabled-IsLinked bc codec db rows reads writes id flag s
    run-IsLinked (delete_upstream_credential id) s =
        Upstreams.delete_upstream_credential-IsLinked bc codec db rows reads writes id s
    run-IsLinked (bind_api_key uuid params) s =
        Bound.bind_api_key-IsLinked bc codec db rows reads writes uuid params s
    run-IsLinked (delete_binding id) s =
        Kept.delete_binding-IsLinked bc codec db rows reads writes id s

    -- From tables in which every binding joins a key and a credential that exist, both of the
    -- binding's user, calls of the service, in any order and whether they succeed or fail, only
    -- reach such tables. A call is taken to run alone.
    pub Reach-IsLinked : {s t : S} → Reach s t → IsLinked rows s → IsLinked rows t
    Reach-IsLinked here linked = linked
    Reach-IsLinked (after r before e) linked =
        subst (IsLinked rows) e (run-IsLinked r _ (Reach-IsLinked before linked))

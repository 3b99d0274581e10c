-- ===== src/Accounts/Database.antt =====
-- The database behind pkg/accounts/service.go, and the parameters of the service's operations.
use yapi.Common.{ℕ, Bool, Option, List, Result}
use yapi.Common.Text.{Text}
use yapi.Common.Dict.{Dict}
use yapi.Rules.Json.{Json}
use yapi.Accounts.Model.{User, ApiKey, UpstreamKey, UserKeyBinding}
use yapi.Accounts.Resolve.{Queries, Database}
use yapi.Accounts.Create.{KeyDatabase}

-- The errors of an insertion: `gorm.ErrDuplicatedKey`, or another with its text.
pub data CreateError : Type 0 where
  duplicated_key : CreateError
  create_failed : Text → CreateError

-- The database over a state `S`. An insertion gives the time it was made at, and an update or a
-- deletion that the code asks for it the number of rows that it affected.
pub record AccountsDatabase (S : Type 0) : Type 0 where
  pub queries : S → Queries
  pub users_by_time : S → Result Text (List User)
  pub keys_of_user : Text → S → Result Text (List ApiKey)
  pub upstreams_of_user : Text → S → Result Text (List UpstreamKey)
  pub bindings_of_key : Text → S → Result Text (List UserKeyBinding)
  pub create_user : User → S → Result CreateError (S × ℕ)
  pub create_key : ApiKey → S → Result Text (S × ℕ)
  pub create_upstream : UpstreamKey → S → Result Text (S × ℕ)
  pub create_binding : UserKeyBinding → S → Result Text (S × ℕ)
  pub save_upstream : UpstreamKey → S → Result Text (S × ℕ)
  pub update_binding : UserKeyBinding → S → Result Text S
  pub set_key_enabled : Text → Bool → S → Result Text (S × ℕ)
  pub set_upstream_enabled : Text → Bool → S → Result Text (S × ℕ)
  pub delete_user : Text → S → Result Text S
  pub delete_key : Text → S → Result Text S
  pub delete_upstream : Text → S → Result Text S
  pub delete_binding : Text → S → Result Text (S × ℕ)
  pub delete_bindings_of_key : Text → S → Result Text S
  pub delete_bindings_of_upstream : Text → S → Result Text S

module _ {S : Type 0} (db : AccountsDatabase S) where
  -- The parts that `CreateUserAPIKey` and `BindAPIKey` use.
  abbrev pub key_database : KeyDatabase S
  key_database = record { queries = db.queries; create_key = db.create_key }

  abbrev pub binding_database : Database S
  binding_database = record {
    queries = db.queries;
    create_binding = db.create_binding;
    update_binding = db.update_binding;
  }

-- `json.Marshal` of a list of texts; `none` is an error.
pub record EndpointCodec : Type 0 where
  pub marshal_texts : List Text → Option Text

pub record CreateUserParams : Type 0 where
  pub name : Text
  pub description : Text
  pub metadata : Option (Dict Json)

pub record CreateUpstreamCredentialParams : Type 0 where
  pub user_id : Text
  pub provider : Text
  pub label : Text
  pub service : Text
  pub name : Text
  pub plaintext : Text
  pub endpoints : List Text
  pub metadata : Option (Dict Json)

-- `endpoints` is none if the slice is nil.
pub record UpdateUpstreamCredentialParams : Type 0 where
  pub credential_id : Text
  pub user_id : Text
  pub provider : Text
  pub label : Text
  pub service : Text
  pub name : Text
  pub plaintext : Option Text
  pub endpoints : Option (List Text)
  pub metadata : Option (Dict Json)
  pub enabled : Option Bool

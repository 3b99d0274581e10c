-- ===== src/Accounts/Service.antt =====
-- The operations of pkg/accounts/service.go on users, keys, credentials and bindings, over a database
-- that is a parameter. `CreateUserAPIKey`, `BindAPIKey` and the resolution of keys have modules of
-- their own.
pub mod Tables
pub mod Slots
mod Tests
use yapi.Common.{
  ℕ, Bool, true, false, ◌&&◌, ◌||◌, not, Option, none, some, List, [], ◌∷◌, Result, ok, err, ◌>>=◌,
  if◌then◌else◌, is_nil, ◌==◌,
}
use yapi.Common.Text.{Text, text, text_eq, is_blank, trim_space, contains}
use yapi.Common.Dict.{Dict}
use yapi.Rules.Json.{Json}
use yapi.Accounts.Model.{
  AccountsError, not_found, conflict, invalid_input, other, InvalidInput, user_id_empty,
  api_key_id_empty, upstream_key_id_empty, id_required, api_key_empty, User, ApiKey, UpstreamKey,
  UserKeyBinding, validate_user, validate_upstream_key,
}
use yapi.Accounts.Keys.{Bcrypt, first_non_empty}
use yapi.Accounts.Resolve.{Queries, Database, found, get_user}
use yapi.Accounts.Create.{KeyDatabase}
use yapi.Accounts.Database.{
  AccountsDatabase, CreateError, CreateUpstreamCredentialParams, CreateUserParams, EndpointCodec,
  UpdateUpstreamCredentialParams, binding_database, create_failed, duplicated_key, key_database,
}

-- An error of the database that the code passes on.
abbrev pub plain_error {ℓ} : {A : Type ℓ} → Result Text A → Result AccountsError A
plain_error (ok a) = ok a
plain_error (err e) = err (other e)

abbrev pub checked {ℓ} : {A : Type ℓ} → Option InvalidInput → A → Result AccountsError A
checked none a = ok a
checked (some e) a = err (invalid_input e)

-- `Transaction`, or a single statement: an error leaves the state as it was.
abbrev pub settle {ℓ} : {S : Type ℓ} → S → Result AccountsError S → S × Option AccountsError
settle s (ok s') = (s', none)
settle s (err e) = (s, some e)

abbrev pub settle_with {ℓ κ} :
    {S : Type ℓ} {A : Type κ} → S → Result AccountsError (S × A) → S × Result AccountsError A
settle_with s (ok (s', a)) = (s', ok a)
settle_with s (err e) = (s, err e)

abbrev pub checked_user : User → Result AccountsError User
checked_user u = checked (validate_user u) u

abbrev pub checked_upstream : UpstreamKey → Result AccountsError UpstreamKey
checked_upstream key = checked (validate_upstream_key key) key

abbrev pub create_user_error : CreateError → AccountsError
create_user_error duplicated_key = conflict
create_user_error (create_failed e) = if contains e (text "duplicate") then conflict else other e

abbrev pub inserted_user :
    {S : Type 0} → User → Result CreateError (S × ℕ) → Result AccountsError (S × User)
inserted_user user (ok (s, now)) = ok (s, record user { created_at = now; updated_at = now })
inserted_user user (err e) = err (create_user_error e)

-- `if result.RowsAffected == 0 { return ErrNotFound }`. The state after an update of no row is the
-- one that the database gives.
abbrev pub affected_rows : {S : Type 0} → S → Result Text (S × ℕ) → S × Option AccountsError
affected_rows s (err e) = (s, some (other e))
affected_rows s (ok (s', affected)) = if affected == 0 then (s', some not_found) else (s', none)

abbrev pub marshalled : EndpointCodec → List Text → Result AccountsError Text
marshalled codec endpoints = elim (codec.marshal_texts endpoints) [
  | none ↦ err (other (text "json"))
  | some raw ↦ ok raw
]

-- `if v := firstNonEmpty(…); v != "" { field = v }`
abbrev pub replace_if_filled : Text → Text → Text
replace_if_filled new old = if is_nil new then old else new

abbrev pub replace_if_some {ℓ} : {A : Type ℓ} → Option A → A → A
replace_if_some none old = old
replace_if_some (some new) old = new

module _ {S : Type 0} (bc : Bcrypt) (codec : EndpointCodec) (db : AccountsDatabase S) where
  unfoldable pub create_user : Text → CreateUserParams → S → S × Result AccountsError User
  create_user uuid params s = settle_with s (do
    user ← checked_user (record {
      id = uuid;
      name = trim_space params.name;
      description = trim_space params.description;
      metadata = params.metadata;
      created_at = 0;
      updated_at = 0;
      deleted_at = none;
    })
    inserted_user user (db.create_user user s))

  unfoldable pub list_users : S → Result AccountsError (List User)
  list_users s = plain_error (db.users_by_time s)

  unfoldable pub delete_user : Text → S → S × Option AccountsError
  delete_user id s = settle s (plain_error (db.delete_user id s))

  unfoldable pub list_user_api_keys : Text → S → Result AccountsError (List ApiKey)
  list_user_api_keys id s = plain_error (db.keys_of_user id s)

  unfoldable pub set_user_api_key_enabled : Text → Bool → S → S × Option AccountsError
  set_user_api_key_enabled id enabled s =
      if is_blank id
      then (s, some (invalid_input api_key_id_empty))
      else affected_rows s (db.set_key_enabled id enabled s)

  unfoldable pub revoke_user_api_key : Text → S → S × Option AccountsError
  revoke_user_api_key id s =
      settle s
        (plain_error (db.delete_bindings_of_key id s) >>= λ s'. plain_error (db.delete_key id s'))

  unfoldable pub list_upstream_credentials : Text → S → Result AccountsError (List UpstreamKey)
  list_upstream_credentials id s = plain_error (db.upstreams_of_user id s)

  unfoldable pub set_upstream_credential_enabled : Text → Bool → S → S × Option AccountsError
  set_upstream_credential_enabled id enabled s =
      if is_blank id
      then (s, some (invalid_input upstream_key_id_empty))
      else affected_rows s (db.set_upstream_enabled id enabled s)

  unfoldable pub delete_upstream_credential : Text → S → S × Option AccountsError
  delete_upstream_credential id s = settle s (
      plain_error (db.delete_bindings_of_upstream id s) >>= λ s'.
      plain_error (db.delete_upstream id s'))

  unfoldable pub delete_binding : Text → S → S × Option AccountsError
  delete_binding id s =
      if is_blank id
      then (s, some (invalid_input id_required))
      else affected_rows s (db.delete_binding id s)

  -- The credential before it is stored.
  unfoldable pub new_upstream :
      Text → CreateUpstreamCredentialParams → S → Result AccountsError UpstreamKey
  new_upstream uuid params s = do
    _ ← get_user bc (db.queries s) params.user_id
    endpoints ← (if is_nil params.endpoints then ok [] else marshalled codec params.endpoints)
    checked_upstream (record {
      id = uuid;
      user_id = params.user_id;
      service = first_non_empty (params.service ∷ params.provider ∷ []);
      name = first_non_empty (params.name ∷ params.label ∷ []);
      api_key = trim_space params.plaintext;
      endpoints = endpoints;
      metadata = params.metadata;
      enabled = true;
      created_at = 0;
      updated_at = 0;
      deleted_at = none;
    })

  unfoldable pub create_upstream_credential :
      Text → CreateUpstreamCredentialParams → S → S × Result AccountsError UpstreamKey
  unfolding new_upstream
  create_upstream_credential uuid params s =
      if is_blank params.user_id
      then (s, err (invalid_input user_id_empty))
      else settle_with s (do
        key ← new_upstream uuid params s
        made ← plain_error (db.create_upstream key s)
        ok (made.0, record key { created_at = made.1; updated_at = made.1 }))

  -- `if params.Plaintext != nil { … }`
  abbrev pub new_secret : Option Text → Text → Result AccountsError Text
  new_secret none old = ok old
  new_secret (some plaintext) old =
      if is_blank plaintext then err (invalid_input api_key_empty) else ok (trim_space plaintext)

  -- `if params.Endpoints != nil { … }`
  abbrev pub new_endpoints : Option (List Text) → Text → Result AccountsError Text
  new_endpoints none old = ok old
  new_endpoints (some []) old = ok []
  new_endpoints (some (e ∷ es)) old = marshalled codec (e ∷ es)

  abbrev pub kept_metadata : Option (Dict Json) → Option (Dict Json) → Option (Dict Json)
  kept_metadata none old = old
  kept_metadata (some new) old = some new

  -- The credential as it is to be saved.
  unfoldable pub changed_upstream :
      UpdateUpstreamCredentialParams → UpstreamKey → Result AccountsError UpstreamKey
  changed_upstream params old =
      if not (is_nil params.user_id) && not (text_eq old.user_id params.user_id)
      then err conflict
      else (do
        secret ← new_secret params.plaintext old.api_key
        endpoints ← new_endpoints params.endpoints old.endpoints
        checked_upstream (record old {
          service =
              replace_if_filled (first_non_empty (params.service ∷ params.provider ∷ []))
                old.service;
          name = replace_if_filled (first_non_empty (params.name ∷ params.label ∷ [])) old.name;
          api_key = secret;
          endpoints = endpoints;
          metadata = kept_metadata params.metadata old.metadata;
          enabled = replace_if_some params.enabled old.enabled;
        }))

  unfoldable pub update_upstream_credential :
      UpdateUpstreamCredentialParams → S → S × Result AccountsError UpstreamKey
  unfolding found changed_upstream
  update_upstream_credential params s =
      if is_blank params.credential_id
      then (s, err (invalid_input id_required))
      else settle_with s (do
        old ← found ((db.queries s).upstream_by_id params.credential_id)
        key ← changed_upstream params old
        made ← plain_error (db.save_upstream key s)
        ok (made.0, record key { updated_at = made.1 }))

  -- The loop of `ListBindingsByAPIKey`: each binding with its credential.
  unfoldable pub with_upstreams :
      Queries → List UserKeyBinding → Result AccountsError (List (UserKeyBinding × UpstreamKey))
  unfolding found
  with_upstreams q [] = ok []
  with_upstreams q (b ∷ bs) = do
    upstream ← found (q.upstream_by_id b.upstream_key_id)
    rest ← with_upstreams q bs
    ok ((b, upstream) ∷ rest)

  unfoldable pub list_bindings_by_api_key :
      Text → S → Result AccountsError (List (UserKeyBinding × UpstreamKey))
  unfolding with_upstreams
  list_bindings_by_api_key id s =
      if is_blank id
      then err (invalid_input api_key_id_empty)
      else (plain_error (db.bindings_of_key id s) >>= λ bs. with_upstreams (db.queries s) bs)

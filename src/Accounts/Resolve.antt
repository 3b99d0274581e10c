-- ===== src/Accounts/Resolve.antt =====
-- What a key resolves to, and how a key is bound: `ResolveAPIKey`, `ResolveBindingByRawKey`,
-- `GetBindingByAPIKeyID`, `GetUser` and `BindAPIKey` of pkg/accounts/service.go.
pub mod Laws
pub mod Binding
use yapi.Common.{
  ℕ, Bool, true, false, ◌&&◌, ◌||◌, not, Option, none, some, List, [], ◌∷◌, Result, ok, err, ◌>>=◌,
  if◌then◌else◌, is_nil,
}
use yapi.Common.Int.{ℤ}
use yapi.Common.Text.{Text, text, text_eq, is_blank, trim_space}
use yapi.Common.Dict.{Dict}
use yapi.Rules.Json.{Json}
use yapi.Accounts.Model.{
  AccountsError, not_found, conflict, invalid_input, other, InvalidInput, user_id_empty,
  api_key_id_empty, service_empty, User, ApiKey, UpstreamKey, UserKeyBinding, validate_binding,
}
use yapi.Accounts.Keys.{Bcrypt, split_api_key}

-- The errors of a query: `gorm.ErrRecordNotFound`, or another.
pub data QueryError : Type 0 where
  record_not_found : QueryError
  query_failed : Text → QueryError

-- The queries of gorm that the code makes with `First`, on the tables as they stand.
pub record Queries : Type 0 where
  pub user_by_id : Text → Result QueryError User
  pub key_by_id : Text → Result QueryError ApiKey
  pub key_by_prefix : Text → Result QueryError ApiKey
  pub upstream_by_id : Text → Result QueryError UpstreamKey
  pub first_binding_of_key : Text → Result QueryError UserKeyBinding
  pub binding_of_key_and_service : Text → Text → Result QueryError UserKeyBinding

-- `ErrRecordNotFound` becomes `ErrNotFound`; any other error is passed on.
unfoldable pub found {ℓ} : {A : Type ℓ} → Result QueryError A → Result AccountsError A
found (ok a) = ok a
found (err record_not_found) = err not_found
found (err (query_failed e)) = err (other e)

module _ (bc : Bcrypt) (q : Queries) where
  abbrev checked : Text → ApiKey → Result AccountsError ApiKey
  checked secret key =
      if bc.compare_hash_and_password key.secret_hash secret then ok key else err not_found

  unfoldable pub resolve_api_key : Text → Result AccountsError ApiKey
  unfolding found
  resolve_api_key raw_key = do
    parts ← split_api_key raw_key
    key ← found (q.key_by_prefix parts.0)
    checked parts.1 key

  unfoldable pub get_user : Text → Result AccountsError User
  unfolding found
  get_user id = found (q.user_by_id id)

  unfoldable pub get_binding_by_api_key_id :
      Text → Result AccountsError (UserKeyBinding × UpstreamKey)
  unfolding found
  get_binding_by_api_key_id id =
      if is_blank id
      then err (invalid_input api_key_id_empty)
      else (found (q.first_binding_of_key id) >>= λ binding.
          found (q.upstream_by_id binding.upstream_key_id) >>= λ upstream. ok (binding, upstream))

  unfoldable pub resolve_binding_by_raw_key :
      Text → Result AccountsError (UserKeyBinding × UpstreamKey)
  unfolding resolve_api_key get_binding_by_api_key_id
  resolve_binding_by_raw_key raw_key = do
    key ← resolve_api_key raw_key
    get_binding_by_api_key_id key.id

pub record BindApiKeyParams : Type 0 where
  pub user_id : Text
  pub user_api_key_id : Text
  pub upstream_credential_id : Text
  pub service : Text
  pub position : ℤ
  pub metadata : Option (Dict Json)

-- The database over a state `S`: its queries, `Create` of a binding, which gives the time it was
-- made at, and `Updates` of the binding with an id.
pub record Database (S : Type 0) : Type 0 where
  pub queries : S → Queries
  pub create_binding : UserKeyBinding → S → Result Text (S × ℕ)
  pub update_binding : UserKeyBinding → S → Result Text S

abbrev pub or_else {ℓ} : {A : Type ℓ} → Option A → Option A → Option A
or_else none b = b
or_else (some a) b = some a

abbrev pub valid : UserKeyBinding → Result AccountsError UserKeyBinding
valid b = elim (validate_binding b) [ none ↦ ok b | some e ↦ err (invalid_input e) ]

abbrev pub passed {ℓ} : {A : Type ℓ} → Result Text A → Result AccountsError A
passed (ok a) = ok a
passed (err e) = err (other e)

-- `Transaction`: an error leaves the state as it was.
abbrev pub commit {ℓ} :
    {S : Type ℓ}
    → S
    → Result AccountsError (S × UserKeyBinding)
    → S × Result AccountsError UserKeyBinding
commit s (ok (s', b)) = (s', ok b)
commit s (err e) = (s, err e)

-- The service that a binding is for: the one that is asked for, or the upstream key's.
abbrev pub target_service : Text → Text → Text
target_service asked own = if is_blank asked then trim_space own else trim_space asked

module _ {S : Type 0} (db : Database S) (uuid : Text) (params : BindApiKeyParams) where
  -- The branch that makes a binding, with the id that `uuid.NewString` gives.
  unfoldable pub create_new : Text → S → Result AccountsError (S × UserKeyBinding)
  create_new service s = do
    binding ← valid (record {
      id = uuid;
      user_id = params.user_id;
      user_api_key_id = params.user_api_key_id;
      upstream_key_id = params.upstream_credential_id;
      service = service;
      position = params.position;
      metadata = params.metadata;
      created_at = 0;
      updated_at = 0;
    })
    made ← passed (db.create_binding binding s)
    ok (made.0, record binding { created_at = made.1; updated_at = made.1 })

  -- The branch that changes the binding of this key and service.
  unfoldable pub rebind : UserKeyBinding → S → Result AccountsError (S × UserKeyBinding)
  rebind old s = do
    binding ← valid (record old {
      upstream_key_id = params.upstream_credential_id;
      position = params.position;
      metadata = or_else params.metadata old.metadata;
    })
    s' ← passed (db.update_binding binding s)
    ok (s', binding)

  abbrev pub create_or_rebind :
      Text → S → Result QueryError UserKeyBinding → Result AccountsError (S × UserKeyBinding)
  create_or_rebind service s (ok old) = rebind old s
  create_or_rebind service s (err record_not_found) = create_new service s
  create_or_rebind service s (err (query_failed e)) = err (other e)

  -- The function that `BindAPIKey` runs in a transaction.
  unfoldable pub bind_in : S → Result AccountsError (S × UserKeyBinding)
  unfolding found create_new rebind
  bind_in s = found ((db.queries s).key_by_id params.user_api_key_id) >>= λ key.
      found ((db.queries s).upstream_by_id params.upstream_credential_id) >>= λ upstream.
      if not (text_eq key.user_id params.user_id) || not (text_eq upstream.user_id params.user_id)
      then err conflict
      else if is_nil (target_service params.service upstream.service)
      then err (invalid_input service_empty)
      else create_or_rebind (target_service params.service upstream.service) s (
          (db.queries s).binding_of_key_and_service params.user_api_key_id
            (target_service params.service upstream.service))

  unfoldable pub bind_api_key : S → S × Result AccountsError UserKeyBinding
  unfolding bind_in
  bind_api_key s =
      if is_blank params.user_id
      then (s, err (invalid_input user_id_empty))
      else commit s (bind_in s)

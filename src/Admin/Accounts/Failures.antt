-- ===== src/Admin/Accounts/Failures.antt =====
-- When a handler of internal/admin/handler.go over the service of pkg/accounts/service.go answers
-- with an error, nothing has changed; and what it answers when there is no such service.
use yapi.Common.{
  ℕ, ◌≡◌, refl, inl, inr, Bool, true, false, Option, none, some, List, Result, ok, err, is_nil,
  Bool-cases, Result-cases, if◌then◌else◌,
}
use yapi.Common.Text.{Text, is_blank}
use yapi.Accounts.Model.{AccountsError, ApiKey}
use yapi.Accounts.Keys.{Bcrypt}
use yapi.Accounts.Create
use yapi.Accounts.Create.{new_key, inserted, stored, CreateApiKeyParams}
use yapi.Accounts.Service
use yapi.Accounts.Database.{AccountsDatabase, EndpointCodec, key_database}
use yapi.Accounts.Service.{settle, settle_with}
use yapi.Middleware.Auth.{Codec}
use yapi.Admin.Service.{AdminService, RulesService, new_service, asked_with, told}
use yapi.Admin.Service.Over.{database_accounts}
use yapi.Admin.Accounts.{
  CreateUserRequest, CreateApiKeyRequest, CreateUpstreamCredentialRequest,
  UpdateUpstreamCredentialRequest, Reply, answered, no_content, failed, answer_with, removed,
}
use yapi.Admin.Accounts.Handlers

-- The state is the one before, if the answer is an error.
abbrev pub Unchanged : {S A : Type 0} → S → S × Reply A → Type 0
Unchanged s (s', answered n a) = Unit {0}
Unchanged s (s', no_content) = Unit {0}
Unchanged s (s', failed n) = s' ≡ s

module _ {S : Type 0} where
  settle-Unchanged :
      (A : Type 0) (s : S) (r : Result AccountsError S)
      → Unchanged {A = A} s (removed (told (settle s r)))
  settle-Unchanged A s (ok s') = tt
  settle-Unchanged A s (err e) = refl

  settle_with-Unchanged :
      {A B : Type 0} (status : ℕ) (f : A → B) (s : S) (r : Result AccountsError (S × A))
      → Unchanged s (answer_with status f (asked_with (settle_with s r)))
  settle_with-Unchanged status f s (ok (s', a)) = tt
  settle_with-Unchanged status f s (err e) = refl

  -- A guard in front, which refuses, changes nothing.
  guard-Unchanged :
      {A : Type 0} (b : Bool) (s : S) (out : S × Reply A)
      → Unchanged s out
      → Unchanged s (if b then (s, failed 400) else out)
  guard-Unchanged true s out h = refl
  guard-Unchanged false s out h = h

module _ {S : Type 0} (codec : Codec) (svc : AdminService S) where
  -- The seven handlers that change one thing.
  pub record ErrorsChangeNothing : Type 0 where
    pub create_user :
        (body : Option CreateUserRequest) (s : S)
        → Unchanged s (Handlers.create_user codec svc body s)
    pub delete_user : (id : Text) (s : S) → Unchanged s (Handlers.delete_user codec svc id s)
    pub create_user_api_key :
        (id : Text) (body : Option CreateApiKeyRequest) (s : S)
        → Unchanged s (Handlers.create_user_api_key codec svc id body s)
    pub delete_user_api_key :
        (id : Text) (s : S) → Unchanged s (Handlers.delete_user_api_key codec svc id s)
    pub create_upstream_credential :
        (id : Text) (body : Option CreateUpstreamCredentialRequest) (s : S)
        → Unchanged s (Handlers.create_upstream_credential codec svc id body s)
    pub update_upstream_credential :
        (id : Text) (body : Option UpdateUpstreamCredentialRequest) (s : S)
        → Unchanged s (Handlers.update_upstream_credential codec svc id body s)
    pub delete_upstream_credential :
        (id : Text) (s : S) → Unchanged s (Handlers.delete_upstream_credential codec svc id s)

module _ {S : Type 0} (bc : Bcrypt) (ec : EndpointCodec) (db : AccountsDatabase S) (uuid : S → Text)
    (random : S → Option (List ℕ)) (rules : RulesService S) (codec : Codec) where
  abbrev svc : AdminService S
  svc = new_service rules (some (database_accounts bc ec db uuid random))

  key_unchanged :
      (params : CreateApiKeyParams) (s : S) (B : Type 0) (f : ApiKey × Text → B)
      → Unchanged s (
          answer_with 201 f (
            asked_with
              (Create.create_user_api_key bc (key_database db) (uuid s) (random s) params s)))
  unfolding Create.create_user_api_key
  key_unchanged params s B f = elim (Bool-cases (is_blank params.user_id)) [
    | inl blank ↦ rw blank refl
    | inr full ↦
        rw full (elim (Result-cases (new_key bc (key_database db) (uuid s) (random s) params s)) [
          | inr (x, bad) ↦ rw bad refl
          | inl ((key, plain), made) ↦ rw made (elim (Result-cases (db.create_key key s)) [
            | inr (x, bad) ↦ rw bad refl
            | inl ((s', now), put) ↦ rw put tt
          ])
        ])
  ]

  create_user_unchanged :
      (body : Option CreateUserRequest) (s : S)
      → Unchanged s (Handlers.create_user codec svc body s)
  unfolding Handlers.create_user Service.create_user
  create_user_unchanged none s = refl
  create_user_unchanged (some req) s = settle_with-Unchanged 201 _ s _

  create_key_unchanged :
      (id : Text) (body : Option CreateApiKeyRequest) (s : S)
      → Unchanged s (Handlers.create_user_api_key codec svc id body s)
  unfolding Handlers.create_user_api_key
  create_key_unchanged id none s = guard-Unchanged (is_nil id) s _ refl
  create_key_unchanged id (some req) s = guard-Unchanged (is_nil id) s _ (key_unchanged _ s _ _)

  create_credential_unchanged :
      (id : Text) (body : Option CreateUpstreamCredentialRequest) (s : S)
      → Unchanged s (Handlers.create_upstream_credential codec svc id body s)
  unfolding Handlers.create_upstream_credential Service.create_upstream_credential
  create_credential_unchanged id none s = guard-Unchanged (is_nil id) s _ refl
  create_credential_unchanged id (some req) s =
      guard-Unchanged (is_nil id) s _ (elim (Bool-cases (is_blank id)) [
        | inl blank ↦ rw blank refl
        | inr full ↦ rw full (settle_with-Unchanged 201 _ s _)
      ])

  update_credential_unchanged :
      (id : Text) (body : Option UpdateUpstreamCredentialRequest) (s : S)
      → Unchanged s (Handlers.update_upstream_credential codec svc id body s)
  unfolding Handlers.update_upstream_credential Service.update_upstream_credential
  update_credential_unchanged id none s = guard-Unchanged (is_nil id) s _ refl
  update_credential_unchanged id (some req) s =
      guard-Unchanged (is_nil id) s _ (elim (Bool-cases (is_blank id)) [
        | inl blank ↦ rw blank refl
        | inr full ↦ rw full (settle_with-Unchanged 200 _ s _)
      ])

  -- Over the service of the accounts, a handler that creates, updates or deletes a user, a key or a
  -- credential and answers with an error has left the state as it was, provided that a statement of
  -- the database that fails changes nothing.
  pub errors_change_nothing : ErrorsChangeNothing codec svc
  unfolding Handlers.delete_user Handlers.delete_user_api_key Handlers.delete_upstream_credential
      Service.delete_user Service.revoke_user_api_key Service.delete_upstream_credential
  errors_change_nothing = record {
    create_user = create_user_unchanged;
    delete_user = λ id s. guard-Unchanged (is_nil id) s _ (settle-Unchanged _ s _);
    create_user_api_key = create_key_unchanged;
    delete_user_api_key = λ id s. guard-Unchanged (is_nil id) s _ (settle-Unchanged _ s _);
    create_upstream_credential = create_credential_unchanged;
    update_upstream_credential = update_credential_unchanged;
    delete_upstream_credential = λ id s. guard-Unchanged (is_nil id) s _ (settle-Unchanged _ s _);
  }

-- ===== src/Admin/Accounts/Secrets.antt =====
-- What the answers of internal/admin/handler.go depend on: the hash of a key and the secret of a
-- credential are not shown.
use yapi.Common.{
  ℕ, ◌≡◌, refl, Option, none, some, List, [], ◌∷◌, map, Result, ok, err, ap, ap₂, is_nil,
  if◌then◌else◌,
}
use yapi.Common.Text.{Text}
use yapi.Accounts.Model.{ApiKey, UpstreamKey, UserKeyBinding}
use yapi.Middleware.Auth.{Codec}
use yapi.Admin.Service.{AdminError, AdminService}
use yapi.Admin.Accounts.{
  CreateApiKeyRequest, CreateUpstreamCredentialRequest, UpdateUpstreamCredentialRequest,
  BindApiKeyRequest, to_upstream_credential_response, answered, failed, answer, answer_with,
}
use yapi.Admin.Accounts.Handlers.{
  create_user_api_key, list_user_api_keys, create_upstream_credential, update_upstream_credential,
  list_upstream_credentials, bind_api_key, get_api_key_binding, show_bound,
}

-- What is secret in a key and in a credential, replaced.
abbrev pub hide_key : Text → ApiKey → ApiKey
hide_key x key = record key { secret_hash = x }

abbrev pub hide_upstream : Text → UpstreamKey → UpstreamKey
hide_upstream x cred = record cred { api_key = x }

module _ {A : Type 0} where
  abbrev pub hide_in : (A → A) → Result AdminError A → Result AdminError A
  hide_in f (ok a) = ok (f a)
  hide_in f (err e) = err e

  abbrev pub hide_out : {S : Type 0} → (A → A) → S × Result AdminError A → S × Result AdminError A
  hide_out f (s, r) = (s, hide_in f r)

-- The service, with every secret that it returns in a key or a credential replaced.
abbrev pub hidden : {S : Type 0} → Text → AdminService S → AdminService S
hidden x svc = record svc {
  create_user_api_key =
      λ params s. hide_out (λ made. (hide_key x made.0, made.1)) (svc.create_user_api_key params s);
  list_user_api_keys = λ id s. hide_in (map (hide_key x)) (svc.list_user_api_keys id s);
  create_upstream_credential =
      λ params s. hide_out (hide_upstream x) (svc.create_upstream_credential params s);
  update_upstream_credential =
      λ params s. hide_out (hide_upstream x) (svc.update_upstream_credential params s);
  list_upstream_credentials =
      λ id s. hide_in (map (hide_upstream x)) (svc.list_upstream_credentials id s);
  get_binding_by_api_key_id = λ id s.
      hide_in (λ found. (found.0, hide_upstream x found.1)) (svc.get_binding_by_api_key_id id s);
}

-- The answers are the same, whatever the secrets are.
pub record Alike {S : Type 0} (codec : Codec) (a b : AdminService S) : Type 0 where
  pub create_key :
      (id : Text) (body : Option CreateApiKeyRequest) (s : S)
      → create_user_api_key codec a id body s ≡ create_user_api_key codec b id body s
  pub list_keys :
      (id : Text) (s : S) → list_user_api_keys codec a id s ≡ list_user_api_keys codec b id s
  pub create_credential :
      (id : Text) (body : Option CreateUpstreamCredentialRequest) (s : S)
      → create_upstream_credential codec a id body s ≡ create_upstream_credential codec b id body s
  pub update_credential :
      (id : Text) (body : Option UpdateUpstreamCredentialRequest) (s : S)
      → update_upstream_credential codec a id body s ≡ update_upstream_credential codec b id body s
  pub list_credentials :
      (id : Text) (s : S)
      → list_upstream_credentials codec a id s ≡ list_upstream_credentials codec b id s
  pub bind :
      (id : Text) (body : Option BindApiKeyRequest) (s : S)
      → bind_api_key codec a id body s ≡ bind_api_key codec b id body s
  pub get_binding :
      (id : Text) (s : S) → get_api_key_binding codec a id s ≡ get_api_key_binding codec b id s

module _ {A B : Type 0} (f : A → B) where
  map_same : (g : A → A) → ((a : A) → f (g a) ≡ f a) → (xs : List A) → map f (map g xs) ≡ map f xs
  map_same g h [] = refl
  map_same g h (x ∷ xs) = ap₂ ◌∷◌ (h x) (map_same g h xs)

  answer_same :
      (status : ℕ) (g : A → A)
      → ((a : A) → f (g a) ≡ f a)
      → (r : Result AdminError A) → answer status f (hide_in g r) ≡ answer status f r
  answer_same status g h (ok a) = ap (answered status) (h a)
  answer_same status g h (err e) = refl

  answer_with_same :
      {S : Type 0} (status : ℕ) (g : A → A)
      → ((a : A) → f (g a) ≡ f a)
      → (out : S × Result AdminError A)
      → answer_with status f (hide_out g out) ≡ answer_with status f out
  answer_with_same status g h (s, r) = ap (λ t. (s, t)) (answer_same status g h r)

module _ {S : Type 0} (codec : Codec) (x : Text) (svc : AdminService S) where
  hidden_create_key :
      (id : Text) (body : Option CreateApiKeyRequest) (s : S)
      → create_user_api_key codec (hidden x svc) id body s ≡ create_user_api_key codec svc id body s
  unfolding create_user_api_key
  hidden_create_key id none s = refl
  hidden_create_key id (some req) s =
      ap (λ r. if is_nil id then (s, failed 400) else r)
        (answer_with_same _ 201 _ (λ a. refl) (svc.create_user_api_key _ s))

  hidden_create_credential :
      (id : Text) (body : Option CreateUpstreamCredentialRequest) (s : S)
      → create_upstream_credential codec (hidden x svc) id body s
        ≡ create_upstream_credential codec svc id body s
  unfolding create_upstream_credential
  hidden_create_credential id none s = refl
  hidden_create_credential id (some req) s =
      ap (λ r. if is_nil id then (s, failed 400) else r)
        (answer_with_same _ 201 _ (λ a. refl) (svc.create_upstream_credential _ s))

  hidden_update_credential :
      (id : Text) (body : Option UpdateUpstreamCredentialRequest) (s : S)
      → update_upstream_credential codec (hidden x svc) id body s
        ≡ update_upstream_credential codec svc id body s
  unfolding update_upstream_credential
  hidden_update_credential id none s = refl
  hidden_update_credential id (some req) s =
      ap (λ r. if is_nil id then (s, failed 400) else r)
        (answer_with_same _ 200 _ (λ a. refl) (svc.update_upstream_credential _ s))

  hidden_bound :
      (id : Text) (out : S × Result AdminError UserKeyBinding)
      → show_bound codec (hidden x svc) id out ≡ show_bound codec svc id out
  unfolding to_upstream_credential_response
  hidden_bound id (s, err e) = refl
  hidden_bound id (s, ok b) =
      ap (λ r. (s, r)) (answer_same _ 200 _ (λ a. refl) (svc.get_binding_by_api_key_id id s))

  hidden_bind :
      (id : Text) (body : Option BindApiKeyRequest) (s : S)
      → bind_api_key codec (hidden x svc) id body s ≡ bind_api_key codec svc id body s
  unfolding bind_api_key
  hidden_bind id none s = refl
  hidden_bind id (some req) s =
      ap (λ r. if is_nil id then (s, failed 400) else r) (hidden_bound id (svc.bind_api_key _ s))

  -- Whatever hash or secret the keys and credentials hold that the service returns, the seven
  -- handlers that show keys, credentials or bindings give the same answers and leave the same state.
  pub hidden-Alike : Alike codec (hidden x svc) svc
  unfolding list_user_api_keys list_upstream_credentials get_api_key_binding
  hidden-Alike = record {
    create_key = hidden_create_key;
    list_keys = λ id s.
        ap (λ r. if is_nil id then failed 400 else r)
          (answer_same _ 200 _ (map_same _ _ (λ a. refl)) (svc.list_user_api_keys id s));
    create_credential = hidden_create_credential;
    update_credential = hidden_update_credential;
    list_credentials = λ id s.
        ap (λ r. if is_nil id then failed 400 else r)
          (answer_same _ 200 _ (map_same _ _ (λ a. refl)) (svc.list_upstream_credentials id s));
    bind = hidden_bind;
    get_binding = λ id s.
        ap (λ r. if is_nil id then failed 400 else r)
          (answer_same _ 200 _ (λ a. refl) (svc.get_binding_by_api_key_id id s));
  }

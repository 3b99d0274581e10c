-- ===== src/Admin/Accounts/Endpoints.antt =====
-- What `createUpstreamCredential` of internal/admin/handler.go shows of a credential that
-- pkg/accounts/service.go has stored.
use yapi.Common.{
  ℕ, ◌≡◌, refl, sym, inl, inr, ◌∙◌, false, Option, some, List, [], ◌∷◌, Result, ok, err, ap, is_nil,
  Bool-cases, Result-cases, Option-cases, arith, if◌then◌else◌,
}
use yapi.Common.Text.{Text, is_blank}
use yapi.Accounts.Model.{AccountsError, UpstreamKey}
use yapi.Accounts.Keys.{Bcrypt, first_non_empty}
use yapi.Accounts.Resolve.{get_user}
use yapi.Accounts.Resolve.Laws.{bind_ok}
use yapi.Accounts.Service
use yapi.Accounts.Database.{AccountsDatabase, EndpointCodec, CreateUpstreamCredentialParams}
use yapi.Accounts.Service.{new_upstream, marshalled, checked_upstream, settle_with, plain_error}
use yapi.Accounts.Service.Tables.Settle.{checked_same}
use yapi.Middleware.Auth.{Codec}
use yapi.Admin.Service.{AdminService, RulesService, new_service, asked_with}
use yapi.Admin.Service.Over.{database_accounts}
use yapi.Admin.Accounts.{
  CreateUpstreamCredentialRequest, UpstreamCredentialResponse, Reply, answered, decode_endpoints,
  answer_with, with_service, to_upstream_credential_response,
}
use yapi.Admin.Accounts.Handlers
use yapi.Admin.Accounts.Handlers.{shown}

-- What is relied on of encoding/json: a list of texts that was written is read again, and what is
-- written is not empty.
pub record RoundTrips (ec : EndpointCodec) (codec : Codec) : Type 0 where
  pub read :
      (es : List Text) (raw : Text)
      → ec.marshal_texts es ≡ some raw
      → (codec.unmarshal_texts raw ≡ some es) × (is_nil raw ≡ false)

module _ (ec : EndpointCodec) (codec : Codec) (trips : RoundTrips ec codec) where
  marshalled_read :
      (es : List Text) (raw : Text) → marshalled ec es ≡ ok raw → decode_endpoints codec raw ≡ es
  unfolding decode_endpoints
  marshalled_read es raw e = elim (Option-cases (ec.marshal_texts es)) [
    | inl bad ↦ ground (arith, bad)
    | inr (x, wrote) ↦
        let same : x ≡ raw = ground (arith, wrote) in
        let (read, full) = trips.read es x wrote in rw (← same, full, read)
  ]

  stored_read :
      (es : List Text) (raw : Text)
      → (if is_nil es then ok [] else marshalled ec es) ≡ ok raw
      → decode_endpoints codec raw ≡ es
  unfolding decode_endpoints
  stored_read [] raw e = let same : [] ≡ raw = ground arith in rw (← same)
  stored_read (x ∷ es) raw e = marshalled_read (x ∷ es) raw e

-- The credential that is made keeps what was asked for.
module _ {S : Type 0} (bc : Bcrypt) (ec : EndpointCodec) (db : AccountsDatabase S) (codec : Codec)
    (trips : RoundTrips ec codec) where
  new_of :
      (uuid : Text) (params : CreateUpstreamCredentialParams) (s : S) (key : UpstreamKey)
      → new_upstream bc ec db uuid params s ≡ ok key
      → (decode_endpoints codec key.endpoints ≡ params.endpoints)
        × (key.id ≡ uuid)
        × (key.user_id ≡ params.user_id)
        × (key.service ≡ first_non_empty (params.service ∷ params.provider ∷ []))
  unfolding new_upstream
  new_of uuid params s key e =
      let (user, _, rest) = bind_ok (get_user bc (db.queries s) params.user_id) _ key e in
      let (raw, wrote, check) =
        bind_ok (if is_nil params.endpoints then ok [] else marshalled ec params.endpoints) _ key
          rest in
      let same = checked_same _ key check in
      (
        ap (λ (k : UpstreamKey). decode_endpoints codec k.endpoints) (sym same)
            ∙ stored_read ec codec trips params.endpoints raw wrote,
        ap (λ (k : UpstreamKey). k.id) (sym same),
        ap (λ (k : UpstreamKey). k.user_id) (sym same),
        ap (λ (k : UpstreamKey). k.service) (sym same),
      )

  made_of :
      (uuid : Text) (params : CreateUpstreamCredentialParams) (s s' : S) (cred : UpstreamKey)
      → Service.create_upstream_credential bc ec db uuid params s ≡ (s', ok cred)
      → (decode_endpoints codec cred.endpoints ≡ params.endpoints)
        × (cred.id ≡ uuid)
        × (cred.user_id ≡ params.user_id)
        × (cred.service ≡ first_non_empty (params.service ∷ params.provider ∷ []))
  unfolding Service.create_upstream_credential
  made_of uuid params s s' cred e = elim (Bool-cases (is_blank params.user_id)) [
    | inl blank ↦ ground (arith, blank)
    | inr full ↦ elim (Result-cases (new_upstream bc ec db uuid params s)) [
      | inr (x, bad) ↦ ground (arith, full, bad)
      | inl (key, made) ↦ elim (Result-cases (db.create_upstream key s)) [
        | inr (x, bad) ↦ ground (arith, full, made, bad)
        | inl (put, wrote) ↦
            let (a, b, c, d) = new_of uuid params s key made in
            let same : (cred.endpoints ≡ key.endpoints)
                × (cred.id ≡ key.id)
                × (cred.user_id ≡ key.user_id)
                × (cred.service ≡ key.service) =
              ground (arith, full, made, wrote) in
            (ap (decode_endpoints codec) same.0 ∙ a, same.1 ∙ b, same.2 ∙ c, same.3 ∙ d)
      ]
    ]
  ]

reply_same :
    {S A : Type 0} (s s' : S) (m n : ℕ) (a b : A)
    → ◌≡◌ {A = S × Reply A} (s, answered m a) (s', answered n b)
    → a ≡ b
reply_same s s' m n a b e = ground arith

-- A credential as it is shown after it was made.
pub record ShowsMade (uuid id : Text) (req : CreateUpstreamCredentialRequest) (n : ℕ)
    (r : UpstreamCredentialResponse) : Type 0 where
  pub created : n ≡ 201
  pub named : r.id ≡ uuid
  pub owned : r.user_id ≡ id
  pub endpoints : r.endpoints ≡ req.endpoints
  pub service : r.service ≡ first_non_empty (req.service ∷ req.provider ∷ [])
  pub provider : r.provider ≡ r.service

module _ {S : Type 0} (bc : Bcrypt) (ec : EndpointCodec) (db : AccountsDatabase S) (uuid : S → Text)
    (random : S → Option (List ℕ)) (rules : RulesService S) (codec : Codec)
    (trips : RoundTrips ec codec) where
  abbrev svc : AdminService S
  svc = new_service rules (some (database_accounts bc ec db uuid random))

  shown_service :
      (req : CreateUpstreamCredentialRequest) (cred : UpstreamKey)
      → cred.service ≡ first_non_empty (req.service ∷ req.provider ∷ [])
      → ((with_service req.service (shown codec cred)).service ≡ cred.service)
        × ((with_service req.service (shown codec cred)).provider ≡ cred.service)
        × ((with_service req.service (shown codec cred)).endpoints
            ≡ decode_endpoints codec cred.endpoints)
        × ((with_service req.service (shown codec cred)).id ≡ cred.id)
        × ((with_service req.service (shown codec cred)).user_id ≡ cred.user_id)
  unfolding to_upstream_credential_response first_non_empty
  shown_service req cred e = elim (Bool-cases (is_blank req.service)) [
    | inl blank ↦ rw blank (refl, refl, refl, refl, refl)
    | inr full ↦ rw full (sym (rw full at e), refl, refl, refl, refl)
  ]

  answered_of :
      (id : Text) (req : CreateUpstreamCredentialRequest) (s s' : S) (n : ℕ)
      (r : UpstreamCredentialResponse) (out : S × Result AccountsError UpstreamKey)
      → answer_with 201 (λ cred. with_service req.service (shown codec cred)) (asked_with out)
        ≡ (s', answered n r)
      → (cred : UpstreamKey) × (out ≡ (s', ok cred))
        × (n ≡ 201)
        × (with_service req.service (shown codec cred) ≡ r)
  answered_of id req s s' n r (s1, ok cred) e =
      (cred, ground arith, ground arith, reply_same _ _ _ _ _ _ e)
  answered_of id req s s' n r (s1, err x) e = ground arith

  -- A credential that `createUpstreamCredential` answers with success is shown as it was asked for:
  -- with a new id, the user of the path, exactly the endpoints of the request, as they are read back
  -- from the row, and the service, trimmed, or the provider if there is no service.
  pub create_upstream_credential-ShowsMade :
      (id : Text) (req : CreateUpstreamCredentialRequest) (s s' : S) (n : ℕ)
      (r : UpstreamCredentialResponse)
      → Handlers.create_upstream_credential codec svc id (some req) s ≡ (s', answered n r)
      → ShowsMade (uuid s) id req n r
  unfolding Handlers.create_upstream_credential
  create_upstream_credential-ShowsMade id req s s' n r e = elim (Bool-cases (is_nil id)) [
    | inl empty ↦ ground (arith, empty)
    | inr full ↦
        let (cred, made, status, same) = answered_of id req s s' n r _ (rw full at e) in
        let (endpoints, named, owned, service) =
          made_of bc ec db codec trips (uuid s) _ s s' cred made in
        let (shown_as, provider, shown_endpoints, shown_id, shown_user) =
          shown_service req cred service in
        record {
          created = status;
          named = rw (← same) (shown_id ∙ named);
          owned = rw (← same) (shown_user ∙ owned);
          endpoints = rw (← same) (shown_endpoints ∙ endpoints);
          service = rw (← same) (shown_as ∙ service);
          provider = rw (← same) (provider ∙ sym shown_as);
        }
  ]

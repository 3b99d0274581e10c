-- ===== src/Admin/Accounts/Binding.antt =====
-- `bindAPIKey` of internal/admin/handler.go over the service of pkg/accounts/service.go.
use yapi.Common.{
  ℕ, ◌≡◌, ◌≢◌, refl, sym, inl, inr, ◌⊎◌, ◌∙◌, false, Option, none, some, List, [], Result, ok, err,
  ap, is_nil, Bool-cases, arith,
}
use yapi.Common.Int.{pos}
use yapi.Common.Text.{Text, text_eq_iff, is_blank}
use yapi.Accounts.Model.{AccountsError, not_found, conflict, ApiKey, UpstreamKey, UserKeyBinding}
use yapi.Accounts.Keys.{Bcrypt}
use yapi.Accounts.Resolve.{
  record_not_found, found, BindApiKeyParams, bind_in, bind_api_key, get_binding_by_api_key_id,
  resolve_api_key, resolve_binding_by_raw_key, QueryError,
}
use yapi.Accounts.Resolve.Laws.{get_binding_by_api_key_id-first, resolve_binding_by_raw_key-first}
use yapi.Accounts.Resolve.Binding.{BindingsFollowKeys, bind_api_key-Joins}
use yapi.Accounts.Database.{AccountsDatabase, EndpointCodec, binding_database}
use yapi.Accounts.Service.Tables.{Tables, Reads}
use yapi.Accounts.Service.Tables.Settle.{some_same, IsLinked}
use yapi.Middleware.Auth.{Codec}
use yapi.Admin.Service.{AdminService, reported, RulesService, new_service, asked_with, asked}
use yapi.Admin.Service.Over.{database_accounts}
use yapi.Admin.Accounts.{
  to_binding_response, to_upstream_credential_response, BindApiKeyRequest, ApiKeyBindingResponse,
  Reply, answered, failed, answer, accounts_status,
}
use yapi.Admin.Accounts.Handlers
use yapi.Admin.Accounts.Handlers.{show_bound, shown_binding}

module _ {S : Type 0} (bc : Bcrypt) (ec : EndpointCodec) (db : AccountsDatabase S) (uuid : S → Text)
    (random : S → Option (List ℕ)) (rules : RulesService S) (codec : Codec) where
  abbrev svc : AdminService S
  svc = new_service rules (some (database_accounts bc ec db uuid random))

  abbrev params_of : Text → BindApiKeyRequest → BindApiKeyParams
  params_of id req = record {
    user_id = req.user_id;
    user_api_key_id = id;
    upstream_credential_id = req.upstream_credential_id;
    service = [];
    position = pos 0;
    metadata = none;
  }

  -- The answer to a request for a binding that is not made, and that nothing is stored.
  pub record Refusals (id : Text) (req : BindApiKeyRequest) (s : S) : Type 0 where
    pub no_key :
        (db.queries s).key_by_id id ≡ err record_not_found
        → Handlers.bind_api_key codec svc id (some req) s ≡ (s, failed 404)
    pub no_credential :
        (key : ApiKey)
        → (db.queries s).key_by_id id ≡ ok key
        → (db.queries s).upstream_by_id req.upstream_credential_id ≡ err record_not_found
        → Handlers.bind_api_key codec svc id (some req) s ≡ (s, failed 404)
    pub foreign :
        (key : ApiKey) (upstream : UpstreamKey)
        → (db.queries s).key_by_id id ≡ ok key
        → (db.queries s).upstream_by_id req.upstream_credential_id ≡ ok upstream
        → (key.user_id ≢ req.user_id) ⊎ (upstream.user_id ≢ req.user_id)
        → Handlers.bind_api_key codec svc id (some req) s ≡ (s, failed 409)

  not_made :
      (id : Text) (req : BindApiKeyRequest) (s : S) (e : AccountsError)
      → is_nil id ≡ false
      → is_blank req.user_id ≡ false
      → bind_in (binding_database db) (uuid s) (params_of id req) s ≡ err e
      → Handlers.bind_api_key codec svc id (some req) s ≡ (s, failed (accounts_status (reported e)))
  unfolding Handlers.bind_api_key bind_api_key
  not_made id req s e full user_full bad = rw (full, user_full, bad)

  -- A request with an id in its path and a user that is not blank is refused with 404 if the key or
  -- the credential does not exist, and with 409 if the user owns not both; nothing is stored.
  pub bind_api_key-Refusals :
      (id : Text) (req : BindApiKeyRequest) (s : S)
      → is_nil id ≡ false
      → is_blank req.user_id ≡ false
      → Refusals id req s
  unfolding bind_in found
  bind_api_key-Refusals id req s full user_full = record {
    no_key = λ missing. not_made id req s not_found full user_full (rw missing);
    no_credential =
        λ key there missing. not_made id req s not_found full user_full (rw (there, missing));
    foreign = λ key upstream there found_too stranger. not_made id req s conflict full user_full (
        rw (there, found_too)
          (ground (
            arith,
            text_eq_iff key.user_id req.user_id,
            text_eq_iff upstream.user_id req.user_id,
            stranger,
          )));
  }

  module _ (rows : S → Tables) (reads : Reads db rows) where
    -- In linked tables a binding of a key belongs to the key's user.
    follow : (s : S) → IsLinked rows s → BindingsFollowKeys (db.queries s)
    follow s linked id service old key asked there =
        let (row, of_key, _) = reads.binding_of_key_and_service s id service old asked in
        let h = linked.has_key old.id old row in
        let same =
          some_same h.key key
            (sym h.stored ∙ ap (rows s).keys of_key ∙ reads.key_by_id s id key there) in
        sym h.owned ∙ ap (λ (k : ApiKey). k.user_id) same

    -- What a successful answer shows: the binding to the credential that was asked for, and the
    -- credential of the key's first binding, which every use of the key resolves to.
    pub record Shows (id : Text) (req : BindApiKeyRequest) (s : S) (r : ApiKeyBindingResponse)
        : Type 0 where
      pub first : UserKeyBinding
      pub first_of : (db.queries s).first_binding_of_key id ≡ ok first
      pub asked_for : r.upstream_credential_id ≡ req.upstream_credential_id
      pub shown_first : r.upstream.id ≡ first.upstream_key_id
      pub used :
          (raw : Text) (key : ApiKey) (b : UserKeyBinding) (u : UpstreamKey)
          → resolve_api_key bc (db.queries s) raw ≡ ok key
          → key.id ≡ id
          → resolve_binding_by_raw_key bc (db.queries s) raw ≡ ok (b, u)
          → b ≡ first

    same_ok :
        (b first : UserKeyBinding)
        → ◌≡◌ {A = Result QueryError UserKeyBinding} (ok b) (ok first)
        → b ≡ first
    same_ok b first e = ground arith

    looked_up :
        (id : Text) (s s' : S) (b : UserKeyBinding) (r : ApiKeyBindingResponse) (n : ℕ)
        (out : Result AccountsError (UserKeyBinding × UpstreamKey))
        → ◌≡◌ {A = S × Reply ApiKeyBindingResponse}
            (s, answer 200 (λ found. shown_binding codec b found.1) (asked out))
            (s', answered n r)
        → (first : UserKeyBinding) × (u : UpstreamKey) × (out ≡ ok (first, u))
          × (s ≡ s')
          × (r.upstream_credential_id ≡ b.upstream_key_id)
          × (r.upstream.id ≡ u.id)
    unfolding to_binding_response to_upstream_credential_response
    looked_up id s s' b r n (ok (first, u)) e =
        (first, u, refl, ground arith, ground arith, ground arith)
    looked_up id s s' b r n (err x) e = ground arith

    found_of :
        (id : Text) (s : S) (first : UserKeyBinding) (u : UpstreamKey)
        → get_binding_by_api_key_id bc (db.queries s) id ≡ ok (first, u)
        → ((db.queries s).first_binding_of_key id ≡ ok first) × (u.id ≡ first.upstream_key_id)
    found_of id s first u e =
        let (at_first, named) = get_binding_by_api_key_id-first bc (db.queries s) id first u e in
        let row = reads.upstream_by_id s first.upstream_key_id u named in
        (at_first, reads.upstream_ids s first.upstream_key_id u row)

    after_binding :
        (id : Text) (req : BindApiKeyRequest) (s s' : S) (n : ℕ) (r : ApiKeyBindingResponse)
        (made : S × Result AccountsError UserKeyBinding)
        → IsLinked rows s
        → bind_api_key (binding_database db) (uuid s) (params_of id req) s ≡ made
        → show_bound codec svc id (asked_with made) ≡ (s', answered n r)
        → Shows id req s' r
    after_binding id req s s' n r (s1, err x) linked bound e = ground arith
    after_binding id req s s' n r (s1, ok b) linked bound e =
        let (first, u, found_it, same, asked_for, shown) = looked_up id s1 s' b r n _ e in
        let (first_of, at_first) = found_of id s1 first u found_it in
        let joins =
          bind_api_key-Joins (binding_database db) (uuid s) (params_of id req) s s1 b
            (follow s linked) bound in
        record {
          first = first;
          first_of = rw (← same) first_of;
          asked_for = asked_for ∙ joins.linked;
          shown_first = shown ∙ at_first;
          used = λ raw key b' u' known of_key resolved.
              let at_key : (db.queries s').first_binding_of_key id ≡ ok b' = rw (← of_key) (
                resolve_binding_by_raw_key-first bc (db.queries s') raw key b' u' known resolved) in
              same_ok b' first (sym at_key ∙ rw (← same) first_of);
        }

    -- On linked tables, a request for a binding that is answered with success names the credential
    -- that was asked for, but shows with it the credential of the binding that the database gives as
    -- the key's first one. That is also the binding to which every text resolves that resolves to the
    -- key, whichever credential was asked for.
    pub bind_api_key-Shows :
        (id : Text) (req : BindApiKeyRequest) (s s' : S) (n : ℕ) (r : ApiKeyBindingResponse)
        → IsLinked rows s
        → Handlers.bind_api_key codec svc id (some req) s ≡ (s', answered n r)
        → Shows id req s' r
    unfolding Handlers.bind_api_key
    bind_api_key-Shows id req s s' n r linked e = elim (Bool-cases (is_nil id)) [
      | inl empty ↦ ground (arith, empty)
      | inr full ↦ after_binding id req s s' n r _ linked refl (rw full at e)
    ]

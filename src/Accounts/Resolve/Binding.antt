-- ===== src/Accounts/Resolve/Binding.antt =====
-- What `BindAPIKey` of pkg/accounts/service.go returns and leaves.
use yapi.Common.{
  ◌≡◌, refl, inl, inr, Bool, true, false, Result, ok, err, if◌then◌else◌, arith, Bool-cases, ◌∙◌,
}
use yapi.Common.Text.{Text, text_eq_iff, is_blank}
use yapi.Accounts.Model.{
  AccountsError, conflict, invalid_input, service_empty, ApiKey, UpstreamKey, UserKeyBinding,
}
use yapi.Accounts.Resolve.{
  QueryError, record_not_found, query_failed, Queries, found, BindApiKeyParams, Database,
  create_new, rebind, create_or_rebind, bind_in, bind_api_key, commit,
}
use yapi.Accounts.Resolve.Laws.{bind_ok, found_ok}

-- Every binding of the tables belongs to the user of its key.
abbrev pub BindingsFollowKeys : Queries → Type 0
BindingsFollowKeys q =
    (id service : Text) (old : UserKeyBinding) (key : ApiKey)
    → q.binding_of_key_and_service id service ≡ ok old
    → q.key_by_id id ≡ ok key
    → old.user_id ≡ key.user_id

module _ {S : Type 0} (db : Database S) (uuid : Text) (params : BindApiKeyParams) where
  -- The binding joins a stored key and a stored credential, both of the user that was asked for.
  pub record Joins (q : Queries) (b : UserKeyBinding) : Type 0 where
    pub key : ApiKey
    pub upstream : UpstreamKey
    pub key_stored : q.key_by_id params.user_api_key_id ≡ ok key
    pub upstream_stored : q.upstream_by_id params.upstream_credential_id ≡ ok upstream
    pub key_owned : key.user_id ≡ params.user_id
    pub upstream_owned : upstream.user_id ≡ params.user_id
    pub owned : b.user_id ≡ params.user_id
    pub linked : b.upstream_key_id ≡ params.upstream_credential_id

  created :
      (service : Text) (s s' : S) (b : UserKeyBinding)
      → create_new db uuid params service s ≡ ok (s', b)
      → (b.user_id ≡ params.user_id) × (b.upstream_key_id ≡ params.upstream_credential_id)
  unfolding create_new
  created service s s' b e = ground arith

  rebound :
      (old : UserKeyBinding) (s s' : S) (b : UserKeyBinding)
      → rebind db uuid params old s ≡ ok (s', b)
      → (b.user_id ≡ old.user_id) × (b.upstream_key_id ≡ params.upstream_credential_id)
  unfolding rebind
  rebound old s s' b e = ground arith

  either :
      (q : Queries) (key : ApiKey) (follow : BindingsFollowKeys q)
      → q.key_by_id params.user_api_key_id ≡ ok key
      → key.user_id ≡ params.user_id
      → (service : Text) (s s' : S) (b : UserKeyBinding) (r : Result QueryError UserKeyBinding)
      → q.binding_of_key_and_service params.user_api_key_id service ≡ r
      → create_or_rebind db uuid params service s r ≡ ok (s', b)
      → (b.user_id ≡ params.user_id) × (b.upstream_key_id ≡ params.upstream_credential_id)
  either q key follow stored owned service s s' b (ok old) found e =
      let (same, linked) = rebound old s s' b e in
      (same ∙ follow params.user_api_key_id service old key found stored ∙ owned, linked)
  either q key follow stored owned service s s' b (err record_not_found) found e =
      created service s s' b e
  either q key follow stored owned service s s' b (err (query_failed x)) found e = cc

  pub past_checks :
      (mine service_missing : Bool) (r : Result AccountsError (S × UserKeyBinding))
      (out : S × UserKeyBinding)
      → (if mine
          then err conflict
          else if service_missing
          then err (invalid_input service_empty)
          else r)
        ≡ ok out
      → (mine ≡ false) × (r ≡ ok out)
  past_checks true missing r out e = cc
  past_checks false true r out e = cc
  past_checks false false r out e = (refl, e)

  bound_in :
      (s s' : S) (b : UserKeyBinding) (follow : BindingsFollowKeys (db.queries s))
      → bind_in db uuid params s ≡ ok (s', b)
      → Joins (db.queries s) b
  unfolding bind_in
  bound_in s s' b follow e =
      let q = db.queries s in
      let (key, e1, r1) = bind_ok (found (q.key_by_id params.user_api_key_id)) _ (s', b) e in
      let (upstream, e2, r2) =
        bind_ok (found (q.upstream_by_id params.upstream_credential_id)) _ (s', b) r1 in
      let (mine, r3) = past_checks _ _ _ (s', b) r2 in
      let key_mine = text_eq_iff key.user_id params.user_id in
      let upstream_mine = text_eq_iff upstream.user_id params.user_id in
      let stored = found_ok _ key e1 in
      let key_owned : key.user_id ≡ params.user_id = ground arith in
      let (owned, linked) = either q key follow stored key_owned _ s s' b _ refl r3 in
      record {
        key = key;
        upstream = upstream;
        key_stored = stored;
        upstream_stored = found_ok _ upstream e2;
        key_owned = key_owned;
        upstream_owned = ground arith;
        owned = owned;
        linked = linked;
      }

  committed :
      (s s' : S) (r : Result AccountsError (S × UserKeyBinding)) (b : UserKeyBinding)
      → commit s r ≡ (s', ok b)
      → r ≡ ok (s', b)
  committed s s' (ok (x, y)) b e = ground arith
  committed s s' (err x) b e = ground arith

  -- `BindAPIKey` that succeeds, on tables whose bindings follow their keys, has bound a stored key to
  -- a stored credential, and both and the binding belong to the user that it was asked for.
  pub bind_api_key-Joins :
      (s s' : S) (b : UserKeyBinding) (follow : BindingsFollowKeys (db.queries s))
      → bind_api_key db uuid params s ≡ (s', ok b)
      → Joins (db.queries s) b
  unfolding bind_api_key
  bind_api_key-Joins s s' b follow e = elim (Bool-cases (is_blank params.user_id)) [
    | inl blank ↦ ground (arith, blank)
    | inr full ↦ bound_in s s' b follow (committed s s' _ b (rw full at e))
  ]

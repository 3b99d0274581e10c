-- ===== src/Accounts/Service/Tables/Bound.antt =====
-- `BindAPIKey` of pkg/accounts/service.go keeps the tables linked.
use yapi.Common.{
  ◌≡◌, refl, inl, inr, some, Result, ok, err, Bool-cases, Result-cases, arith, ◌∙◌, sym, subst, ap,
}
use yapi.Common.Text.{Text, text_eq_iff, is_blank}
use yapi.Accounts.Model.{ApiKey, UpstreamKey, UserKeyBinding}
use yapi.Accounts.Keys.{Bcrypt}
use yapi.Accounts.Resolve.{
  QueryError, record_not_found, query_failed, found, BindApiKeyParams, bind_api_key, bind_in,
  create_new, rebind, create_or_rebind, valid, passed,
}
use yapi.Accounts.Resolve.Binding.{past_checks}
use yapi.Accounts.Resolve.Laws.{bind_ok, found_ok}
use yapi.Accounts.Database.{AccountsDatabase, EndpointCodec, binding_database}
use yapi.Accounts.Service.Tables.{Tables, Reads, Writes}
use yapi.Accounts.Service.Tables.Linked.{put_binding-Linked, adjust_binding-Linked}
use yapi.Accounts.Service.Tables.Settle.{valid_same, passed_ok, some_same, left_of, IsLinked}

module _ {S : Type 0} (bc : Bcrypt) (codec : EndpointCodec) (db : AccountsDatabase S)
    (rows : S → Tables) (reads : Reads db rows) (writes : Writes db rows) where
  module _ (uuid : Text) (params : BindApiKeyParams) (s : S) (key : ApiKey) (upstream : UpstreamKey)
      (key_there : (rows s).keys params.user_api_key_id ≡ some key)
      (key_owned : key.user_id ≡ params.user_id)
      (upstream_there : (rows s).upstreams params.upstream_credential_id ≡ some upstream)
      (upstream_owned : upstream.user_id ≡ params.user_id) (linked : IsLinked rows s) where
    created_keeps :
        (service : Text) (s' : S) (b : UserKeyBinding)
        → create_new (binding_database db) uuid params service s ≡ ok (s', b)
        → IsLinked rows s'
    unfolding create_new
    created_keeps service s' b e =
        let (made_of, checks, rest) = bind_ok (valid _) _ (s', b) e in
        let same = valid_same _ made_of checks in
        let (made, wrote, out) = bind_ok (passed (db.create_binding made_of s)) _ (s', b) rest in
        let (fresh, effect) =
          writes.create_binding made_of s made.0 made.1 (passed_ok _ made wrote) in
        let at_key : made_of.user_api_key_id ≡ params.user_api_key_id =
          sym (ap (λ (x : UserKeyBinding). x.user_api_key_id) same) in
        let at_upstream : made_of.upstream_key_id ≡ params.upstream_credential_id =
          sym (ap (λ (x : UserKeyBinding). x.upstream_key_id) same) in
        let mine : params.user_id ≡ made_of.user_id = ap (λ (x : UserKeyBinding). x.user_id) same in
        subst (IsLinked rows) (left_of _ made.0 s' _ b out) (
          rw effect (
            put_binding-Linked (rows s) linked made_of.id _ key upstream (rw at_key key_there)
              (key_owned ∙ mine) (rw at_upstream upstream_there) (upstream_owned ∙ mine)))

    rebound_keeps :
        (old : UserKeyBinding) (s' : S) (b : UserKeyBinding)
        → (rows s).bindings old.id ≡ some old
        → old.user_api_key_id ≡ params.user_api_key_id
        → rebind (binding_database db) uuid params old s ≡ ok (s', b)
        → IsLinked rows s'
    unfolding rebind
    rebound_keeps old s' b there same_key e =
        let (changed_to, checks, rest) = bind_ok (valid _) _ (s', b) e in
        let same = valid_same _ changed_to checks in
        let (s1, wrote, out) = bind_ok (passed (db.update_binding changed_to s)) _ (s', b) rest in
        let (now, effect) = writes.update_binding changed_to s s1 (passed_ok _ s1 wrote) in
        let same_id : changed_to.id ≡ old.id = sym (ap (λ (x : UserKeyBinding). x.id) same) in
        let at_upstream : changed_to.upstream_key_id ≡ params.upstream_credential_id =
          sym (ap (λ (x : UserKeyBinding). x.upstream_key_id) same) in
        let h = linked.has_key old.id old there in
        let same_row : h.key ≡ key =
          some_same _ _ (sym h.stored ∙ ap (rows s).keys same_key ∙ key_there) in
        let mine : params.user_id ≡ old.user_id =
          sym key_owned ∙ ap (λ (k : ApiKey). k.user_id) (sym same_row) ∙ h.owned in
        subst (IsLinked rows) (left_of _ s1 s' _ b out) (
          rw (effect, same_id)
            (adjust_binding-Linked (rows s) linked old _ upstream there (refl, refl)
              (rw at_upstream upstream_there) (upstream_owned ∙ mine)))

    bound_keeps :
        (service : Text) (s' : S) (b : UserKeyBinding) (r : Result QueryError UserKeyBinding)
        → (db.queries s).binding_of_key_and_service params.user_api_key_id service ≡ r
        → create_or_rebind (binding_database db) uuid params service s r ≡ ok (s', b)
        → IsLinked rows s'
    bound_keeps service s' b (ok old) asked e =
        let (there, same_key, _) =
          reads.binding_of_key_and_service s params.user_api_key_id service old asked in
        rebound_keeps old s' b there same_key e
    bound_keeps service s' b (err record_not_found) asked e = created_keeps service s' b e
    bound_keeps service s' b (err (query_failed x)) asked e = cc

  bound_in_keeps :
      (uuid : Text) (params : BindApiKeyParams) (s s' : S) (b : UserKeyBinding)
      → bind_in (binding_database db) uuid params s ≡ ok (s', b)
      → IsLinked rows s
      → IsLinked rows s'
  unfolding bind_in
  bound_in_keeps uuid params s s' b e linked =
      let q = db.queries s in
      let (key, e1, r1) = bind_ok (found (q.key_by_id params.user_api_key_id)) _ (s', b) e in
      let (upstream, e2, r2) =
        bind_ok (found (q.upstream_by_id params.upstream_credential_id)) _ (s', b) r1 in
      let (mine, r3) = past_checks (binding_database db) uuid params _ _ _ (s', b) r2 in
      let key_mine = text_eq_iff key.user_id params.user_id in
      let upstream_mine = text_eq_iff upstream.user_id params.user_id in
      bound_keeps uuid params s key upstream
        (reads.key_by_id s params.user_api_key_id key (found_ok _ key e1)) (ground arith)
        (reads.upstream_by_id s params.upstream_credential_id upstream (found_ok _ upstream e2))
        (ground arith) linked _ s' b _ refl r3

  pub bind_api_key-IsLinked :
      (uuid : Text) (params : BindApiKeyParams) (s : S)
      → IsLinked rows s
      → IsLinked rows (bind_api_key (binding_database db) uuid params s).0
  unfolding bind_api_key
  bind_api_key-IsLinked uuid params s linked = elim (Bool-cases (is_blank params.user_id)) [
    | inl blank ↦ rw blank linked
    | inr full ↦ rw full (elim (Result-cases (bind_in (binding_database db) uuid params s)) [
      | inr (x, bad) ↦ rw bad linked
      | inl ((s', b), done) ↦ rw done (bound_in_keeps uuid params s s' b done linked)
    ])
  ]

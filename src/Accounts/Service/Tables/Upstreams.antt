-- ===== src/Accounts/Service/Tables/Upstreams.antt =====
-- The operations of pkg/accounts/service.go on upstream credentials keep the tables linked.
use yapi.Common.{
  ℕ, ◌≡◌, refl, inl, inr, Bool, some, Result, ok, err, ◌>>=◌, Bool-cases, Result-cases, sym, not,
  ◌&&◌, ap, is_nil,
}
use yapi.Common.Text.{Text, text_eq, is_blank}
use yapi.Accounts.Model.{UpstreamKey}
use yapi.Accounts.Keys.{Bcrypt}
use yapi.Accounts.Resolve.{found, valid}
use yapi.Accounts.Resolve.Laws.{bind_ok, found_ok}
use yapi.Accounts.Service
use yapi.Accounts.Database.{
  AccountsDatabase, EndpointCodec, CreateUpstreamCredentialParams, UpdateUpstreamCredentialParams,
}
use yapi.Accounts.Service.{
  plain_error, settle, settle_with, affected_rows, inserted_user, new_upstream, changed_upstream,
  new_secret, new_endpoints, checked_upstream,
}
use yapi.Accounts.Service.Tables.{Tables, Reads, Writes}
use yapi.Accounts.Service.Tables.Linked.{
  Keeps-Linked, fewer-Linked, drop_upstream-Linked, put_fresh-Keeps, put_same-Keeps, adjust-Keeps,
  same-Keeps, without-some,
}
use yapi.Accounts.Service.Tables.Settle.{
  checked_same, settle_keeps, affected_rows_keeps, plain_ok, IsLinked,
}

module _ {S : Type 0} (bc : Bcrypt) (codec : EndpointCodec) (db : AccountsDatabase S)
    (rows : S → Tables) (reads : Reads db rows) (writes : Writes db rows) where
  pub set_upstream_credential_enabled-IsLinked :
      (id : Text) (flag : Bool) (s : S)
      → IsLinked rows s
      → IsLinked rows (Service.set_upstream_credential_enabled bc codec db id flag s).0
  unfolding Service.set_upstream_credential_enabled
  set_upstream_credential_enabled-IsLinked id flag s linked = elim (Bool-cases (is_blank id)) [
    | inl blank ↦ rw blank linked
    | inr full ↦ rw full (
        affected_rows_keeps (IsLinked rows) s _ linked λ s' n e.
          let (now, effect) = writes.set_upstream_enabled id flag s s' n e in
          rw effect (
            Keeps-Linked (rows s) linked _ _ _ (same-Keeps _ _)
              (adjust-Keeps _ _ id _ (λ a. refl))))
  ]

  pub delete_upstream_credential-IsLinked :
      (id : Text) (s : S)
      → IsLinked rows s
      → IsLinked rows (Service.delete_upstream_credential bc codec db id s).0
  unfolding Service.delete_upstream_credential
  delete_upstream_credential-IsLinked id s linked = settle_keeps (IsLinked rows) s _ linked λ s' e.
      let (s1, cut, rest) =
        bind_ok (plain_error (db.delete_bindings_of_upstream id s))
          (λ x. plain_error (db.delete_upstream id x)) s' e in
      let without_bindings = writes.delete_bindings_of_upstream id s s1 (plain_ok _ s1 cut) in
      let gone = writes.delete_upstream id s1 s' (plain_ok _ s' rest) in
      rw (gone, without_bindings)
        (drop_upstream-Linked _
          (fewer-Linked (rows s) linked _ (λ i b at. (without-some _ (rows s).bindings i b at).0))
          id (λ i b at. (without-some _ (rows s).bindings i b at).1))

  pub create_upstream_credential-IsLinked :
      (uuid : Text) (params : CreateUpstreamCredentialParams) (s : S)
      → IsLinked rows s
      → IsLinked rows (Service.create_upstream_credential bc codec db uuid params s).0
  unfolding Service.create_upstream_credential
  create_upstream_credential-IsLinked uuid params s linked =
      elim (Bool-cases (is_blank params.user_id)) [
        | inl blank ↦ rw blank linked
        | inr full ↦ rw full (elim (Result-cases (new_upstream bc codec db uuid params s)) [
          | inr (x, bad) ↦ rw bad linked
          | inl (key, valid) ↦ rw valid (elim (Result-cases (db.create_upstream key s)) [
            | inr (x, bad) ↦ rw bad linked
            | inl ((s', now), created) ↦ rw created (
                let (fresh, effect) = writes.create_upstream key s s' now created in
                rw effect (
                  Keeps-Linked (rows s) linked _ _ _ (same-Keeps _ _)
                    (put_fresh-Keeps _ (rows s).upstreams key.id _ fresh)))
          ])
        ])
      ]

  changed_same :
      (params : UpdateUpstreamCredentialParams) (old key : UpstreamKey)
      → changed_upstream bc codec db params old ≡ ok key
      → (key.id ≡ old.id) × (key.user_id ≡ old.user_id)
  unfolding changed_upstream
  changed_same params old key e =
      elim (Bool-cases (not (is_nil params.user_id) && not (text_eq old.user_id params.user_id))) [
        | inl foreign ↦ cc (rw foreign at e)
        | inr own ↦
            let (secret, _, rest) =
              bind_ok (new_secret bc codec db params.plaintext old.api_key) _ key (rw own at e) in
            let (endpoints, _, check) =
              bind_ok (new_endpoints bc codec db params.endpoints old.endpoints) _ key rest in
            let same = checked_same _ key check in
            (
              sym (ap (λ (k : UpstreamKey). k.id) same),
              sym (ap (λ (k : UpstreamKey). k.user_id) same),
            )
      ]

  saved_keeps :
      (old key : UpstreamKey) (s : S) (r : Result Text (S × ℕ))
      → db.save_upstream key s ≡ r
      → (rows s).upstreams key.id ≡ some old
      → old.user_id ≡ key.user_id
      → IsLinked rows s
      → IsLinked rows
          (settle_with s
            (plain_error r >>= λ made. ok (made.0, record key { updated_at = made.1 }))).0
  saved_keeps old key s (err x) e there same_user linked = linked
  saved_keeps old key s (ok (s', now)) e there same_user linked =
      rw (writes.save_upstream key s s' now e) (
        Keeps-Linked (rows s) linked _ _ _ (same-Keeps _ _)
          (put_same-Keeps _ (rows s).upstreams key.id _ old there same_user))

  pub update_upstream_credential-IsLinked :
      (params : UpdateUpstreamCredentialParams) (s : S)
      → IsLinked rows s
      → IsLinked rows (Service.update_upstream_credential bc codec db params s).0
  unfolding Service.update_upstream_credential
  update_upstream_credential-IsLinked params s linked =
      elim (Bool-cases (is_blank params.credential_id)) [
        | inl blank ↦ rw blank linked
        | inr full ↦
            rw full
              (elim (Result-cases (found ((db.queries s).upstream_by_id params.credential_id))) [
                | inr (x, bad) ↦ rw bad linked
                | inl (old, looked) ↦
                    rw looked (elim (Result-cases (changed_upstream bc codec db params old)) [
                      | inr (x, bad) ↦ rw bad linked
                      | inl (key, valid) ↦
                          let (same_id, same_user) = changed_same params old key valid in
                          let there =
                            reads.upstream_by_id s params.credential_id old
                              (found_ok _ old looked) in
                          let id = reads.upstream_ids s params.credential_id old there in
                          let at_id : key.id ≡ params.credential_id = cc in
                          rw valid (
                            saved_keeps old key s (db.save_upstream key s) refl (rw at_id there)
                              (sym same_user) linked)
                    ])
              ])
      ]

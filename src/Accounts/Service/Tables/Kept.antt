-- ===== src/Accounts/Service/Tables/Kept.antt =====
-- The operations of pkg/accounts/service.go on users and keys keep the tables linked.
use yapi.Common.{
  ℕ, ◌≡◌, refl, inl, inr, Bool, Option, Result, ok, err, ◌>>=◌, Bool-cases, Result-cases, List,
}
use yapi.Common.Text.{Text, is_blank}
use yapi.Accounts.Model.{AccountsError, User}
use yapi.Accounts.Keys.{Bcrypt}
use yapi.Accounts.Resolve.Laws.{bind_ok}
use yapi.Accounts.Create.{CreateApiKeyParams, create_user_api_key, new_key}
use yapi.Accounts.Service
use yapi.Accounts.Database.{
  AccountsDatabase, EndpointCodec, CreateUserParams, key_database, CreateError,
}
use yapi.Accounts.Service.{
  plain_error, settle, settle_with, affected_rows, inserted_user, new_upstream, changed_upstream,
  new_secret, new_endpoints, checked_upstream,
}
use yapi.Accounts.Service.Tables.{Tables, Reads, Writes}
use yapi.Accounts.Service.Tables.Linked.{
  Keeps-Linked, fewer-Linked, drop_key-Linked, put_fresh-Keeps, adjust-Keeps, same-Keeps,
  without-some,
}
use yapi.Accounts.Service.Tables.Settle.{
  settle_keeps, affected_rows_keeps, plain_ok, put-none-some, IsLinked,
}

module _ {S : Type 0} (bc : Bcrypt) (codec : EndpointCodec) (db : AccountsDatabase S)
    (rows : S → Tables) (reads : Reads db rows) (writes : Writes db rows) where
  pub delete_user-IsLinked :
      (id : Text) (s : S) → IsLinked rows s → IsLinked rows (Service.delete_user bc codec db id s).0
  unfolding Service.delete_user
  delete_user-IsLinked id s linked = settle_keeps (IsLinked rows) s _ linked λ s' e.
      rw (writes.delete_user id s s' (plain_ok _ s' e))
        (Keeps-Linked (rows s) linked _ _ _ (same-Keeps _ _) (same-Keeps _ _))

  pub set_user_api_key_enabled-IsLinked :
      (id : Text) (flag : Bool) (s : S)
      → IsLinked rows s
      → IsLinked rows (Service.set_user_api_key_enabled bc codec db id flag s).0
  unfolding Service.set_user_api_key_enabled
  set_user_api_key_enabled-IsLinked id flag s linked = elim (Bool-cases (is_blank id)) [
    | inl blank ↦ rw blank linked
    | inr full ↦ rw full (
        affected_rows_keeps (IsLinked rows) s _ linked λ s' n e.
          let (now, effect) = writes.set_key_enabled id flag s s' n e in
          rw effect (
            Keeps-Linked (rows s) linked _ _ _ (adjust-Keeps _ _ id _ (λ a. refl))
              (same-Keeps _ _)))
  ]

  pub delete_binding-IsLinked :
      (id : Text) (s : S)
      → IsLinked rows s
      → IsLinked rows (Service.delete_binding bc codec db id s).0
  unfolding Service.delete_binding
  delete_binding-IsLinked id s linked = elim (Bool-cases (is_blank id)) [
    | inl blank ↦ rw blank linked
    | inr full ↦ rw full (
        affected_rows_keeps (IsLinked rows) s _ linked λ s' n e.
          rw (writes.delete_binding id s s' n e)
            (fewer-Linked (rows s) linked _ (λ i b at. put-none-some id (rows s).bindings i b at)))
  ]

  pub revoke_user_api_key-IsLinked :
      (id : Text) (s : S)
      → IsLinked rows s
      → IsLinked rows (Service.revoke_user_api_key bc codec db id s).0
  unfolding Service.revoke_user_api_key
  revoke_user_api_key-IsLinked id s linked = settle_keeps (IsLinked rows) s _ linked λ s' e.
      let (s1, cut, rest) =
        bind_ok (plain_error (db.delete_bindings_of_key id s))
          (λ x. plain_error (db.delete_key id x)) s' e in
      let without_bindings = writes.delete_bindings_of_key id s s1 (plain_ok _ s1 cut) in
      let gone = writes.delete_key id s1 s' (plain_ok _ s' rest) in
      rw (gone, without_bindings)
        (drop_key-Linked _
          (fewer-Linked (rows s) linked _ (λ i b at. (without-some _ (rows s).bindings i b at).0))
          id (λ i b at. (without-some _ (rows s).bindings i b at).1))

  insertion_keeps :
      (user : User) (s : S) (r : Result CreateError (S × ℕ))
      → db.create_user user s ≡ r
      → IsLinked rows s
      → IsLinked rows (settle_with s (inserted_user user r)).0
  insertion_keeps user s (err x) e linked = linked
  insertion_keeps user s (ok (s', now)) e linked =
      rw (writes.create_user user s s' now e)
        (Keeps-Linked (rows s) linked _ _ _ (same-Keeps _ _) (same-Keeps _ _))

  user_keeps :
      (r : Result AccountsError User) (s : S)
      → IsLinked rows s
      → IsLinked rows (settle_with s (r >>= λ user. inserted_user user (db.create_user user s))).0
  user_keeps (err x) s linked = linked
  user_keeps (ok user) s linked = insertion_keeps user s (db.create_user user s) refl linked

  pub create_user-IsLinked :
      (uuid : Text) (params : CreateUserParams) (s : S)
      → IsLinked rows s
      → IsLinked rows (Service.create_user bc codec db uuid params s).0
  unfolding Service.create_user
  create_user-IsLinked uuid params s linked = user_keeps _ s linked

  pub create_user_api_key-IsLinked :
      (uuid : Text) (random : Option (List ℕ)) (params : CreateApiKeyParams) (s : S)
      → IsLinked rows s
      → IsLinked rows (create_user_api_key bc (key_database db) uuid random params s).0
  unfolding create_user_api_key
  create_user_api_key-IsLinked uuid random params s linked =
      elim (Bool-cases (is_blank params.user_id)) [
        | inl blank ↦ rw blank linked
        | inr full ↦
            rw full (elim (Result-cases (new_key bc (key_database db) uuid random params s)) [
              | inr (x, bad) ↦ rw bad linked
              | inl ((key, plain), made) ↦ rw made (elim (Result-cases (db.create_key key s)) [
                | inr (x, bad) ↦ rw bad linked
                | inl ((s', now), created) ↦ rw created (
                    let (fresh, effect) = writes.create_key key s s' now created in
                    rw effect (
                      Keeps-Linked (rows s) linked _ _ _
                        (put_fresh-Keeps _ (rows s).keys key.id _ fresh) (same-Keeps _ _)))
              ])
            ])
      ]

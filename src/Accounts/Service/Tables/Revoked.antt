-- ===== src/Accounts/Service/Tables/Revoked.antt =====
-- What `RevokeUserAPIKey` and `DeleteUpstreamCredential` of pkg/accounts/service.go take away.
use yapi.Common.{◌≡◌, ◌≢◌, none, some, ok, arith, Result, err}
use yapi.Common.Text.{Text, text_eq, text_eq_iff}
use yapi.Accounts.Model.{AccountsError, ApiKey, UpstreamKey, UserKeyBinding}
use yapi.Accounts.Keys.{Bcrypt}
use yapi.Accounts.Resolve.{resolve_api_key, resolve_binding_by_raw_key}
use yapi.Accounts.Resolve.Laws.{
  bind_ok, resolve_api_key-IsKeyOf, resolve_binding_by_raw_key-IsKeyOf,
}
use yapi.Accounts.Database.{AccountsDatabase, EndpointCodec}
use yapi.Accounts.Service.{plain_error, settle, revoke_user_api_key, delete_upstream_credential}
use yapi.Accounts.Service.Tables.{Tables, Reads, Writes}
use yapi.Accounts.Service.Tables.Linked.{without-some}
use yapi.Accounts.Service.Tables.Settle.{plain_ok}

pub settled :
    {S : Type 0} (s s' : S) (r : Result AccountsError S) → settle s r ≡ (s', none) → r ≡ ok s'
settled s s' (ok x) e = ground arith
settled s s' (err x) e = ground arith

module _ {S : Type 0} (bc : Bcrypt) (codec : EndpointCodec) (db : AccountsDatabase S)
    (rows : S → Tables) (reads : Reads db rows) (writes : Writes db rows) where
  -- The key of an id is gone, with its bindings, and no other key is touched.
  pub record Revoked (id : Text) (s s' : S) : Type 0 where
    pub refused :
        (raw : Text) (key : ApiKey) → resolve_api_key bc (db.queries s') raw ≡ ok key → key.id ≢ id
    pub unbound :
        (i : Text) (b : UserKeyBinding) → (rows s').bindings i ≡ some b → b.user_api_key_id ≢ id
    pub others : (j : Text) → j ≢ id → (rows s').keys j ≡ (rows s).keys j

  -- After `RevokeUserAPIKey` has succeeded, no text resolves to a key with that id, no binding names
  -- it, and the rows of the other keys are as they were.
  pub revoke_user_api_key-Revoked :
      (id : Text) (s s' : S) → revoke_user_api_key bc codec db id s ≡ (s', none) → Revoked id s s'
  unfolding revoke_user_api_key
  revoke_user_api_key-Revoked id s s' e =
      let (s1, cut, rest) =
        bind_ok (plain_error (db.delete_bindings_of_key id s))
          (λ x. plain_error (db.delete_key id x)) s' (settled s s' _ e) in
      let bindings_gone = writes.delete_bindings_of_key id s s1 (plain_ok _ s1 cut) in
      let key_gone = writes.delete_key id s1 s' (plain_ok _ s' rest) in
      record {
        refused = λ raw key found same.
            let is_key = resolve_api_key-IsKeyOf bc (db.queries s') raw key found in
            let (there, _) = reads.key_by_prefix s' is_key.prefix key is_key.stored in
            ground (arith, key_gone, text_eq_iff id key.id);
        unbound = λ i b at same.
            let far =
              without-some (λ x. text_eq x.user_api_key_id id) (rows s).bindings i b
                (rw (key_gone, bindings_gone) at at) in
            ground (arith, far, text_eq_iff b.user_api_key_id id);
        others = λ j far. rw (key_gone, bindings_gone) (ground (arith, text_eq_iff id j));
      }

  pub record Dropped (id : Text) (s s' : S) : Type 0 where
    pub unused :
        (raw : Text) (b : UserKeyBinding) (u : UpstreamKey)
        → resolve_binding_by_raw_key bc (db.queries s') raw ≡ ok (b, u)
        → u.id ≢ id
    pub unbound :
        (i : Text) (b : UserKeyBinding) → (rows s').bindings i ≡ some b → b.upstream_key_id ≢ id
    pub keys : (rows s').keys ≡ (rows s).keys

  -- After `DeleteUpstreamCredential` has succeeded, no text resolves to a credential with that id, no
  -- binding names it, and the API keys are as they were.
  pub delete_upstream_credential-Dropped :
      (id : Text) (s s' : S)
      → delete_upstream_credential bc codec db id s ≡ (s', none)
      → Dropped id s s'
  unfolding delete_upstream_credential
  delete_upstream_credential-Dropped id s s' e =
      let (s1, cut, rest) =
        bind_ok (plain_error (db.delete_bindings_of_upstream id s))
          (λ x. plain_error (db.delete_upstream id x)) s' (settled s s' _ e) in
      let bindings_gone = writes.delete_bindings_of_upstream id s s1 (plain_ok _ s1 cut) in
      let upstream_gone = writes.delete_upstream id s1 s' (plain_ok _ s' rest) in
      record {
        unused = λ raw b u found same.
            let (key, is_key, first, named) =
              resolve_binding_by_raw_key-IsKeyOf bc (db.queries s') raw b u found in
            let there = reads.upstream_by_id s' b.upstream_key_id u named in
            let at_id = reads.upstream_ids s' b.upstream_key_id u there in
            ground (arith, upstream_gone, text_eq_iff id b.upstream_key_id);
        unbound = λ i b at same.
            let far =
              without-some (λ x. text_eq x.upstream_key_id id) (rows s).bindings i b
                (rw (upstream_gone, bindings_gone) at at) in
            ground (arith, far, text_eq_iff b.upstream_key_id id);
        keys = rw (upstream_gone, bindings_gone);
      }

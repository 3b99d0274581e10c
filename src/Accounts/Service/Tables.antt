-- ===== src/Accounts/Service/Tables.antt =====
-- What is relied on of the database behind pkg/accounts/service.go: the rows that can be seen, by
-- their ids, and what each statement reads of them or makes of them.
pub mod Linked
pub mod Settle
pub mod Kept
pub mod Upstreams
pub mod Bound
pub mod Revoked
pub mod Run
use yapi.Common.{ℕ, ◌≡◌, ◌≢◌, Bool, Option, none, some, List, Result, ok, err, if◌then◌else◌}
use yapi.Common.Text.{Text, text_eq}
use yapi.Accounts.Model.{User, ApiKey, UpstreamKey, UserKeyBinding}
use yapi.Accounts.Resolve.{record_not_found}
use yapi.Accounts.Database.{AccountsDatabase}

-- The rows that are not deleted.
pub record Tables : Type 0 where
  pub users : Text → Option User
  pub keys : Text → Option ApiKey
  pub upstreams : Text → Option UpstreamKey
  pub bindings : Text → Option UserKeyBinding

module _ {ℓ} {A : Type ℓ} where
  -- The row of an id, written.
  abbrev pub put : Text → Option A → (Text → Option A) → Text → Option A
  put id row table j = if text_eq id j then row else table j

  abbrev pub changed : (A → A) → Option A → Option A
  changed f none = none
  changed f (some a) = some (f a)

  -- The row of an id, changed if it is there.
  abbrev pub adjust : Text → (A → A) → (Text → Option A) → Text → Option A
  adjust id f table j = if text_eq id j then changed f (table j) else table j

  abbrev pub unless : (A → Bool) → Option A → Option A
  unless p none = none
  unless p (some a) = if p a then none else some a

  -- The rows that fail a test.
  abbrev pub without : (A → Bool) → (Text → Option A) → Text → Option A
  without p table j = unless p (table j)

-- A row stands under its id, and what a query answers is a row.
pub record Reads {S : Type 0} (db : AccountsDatabase S) (rows : S → Tables) : Type 0 where
  pub upstream_ids : (s : S) (i : Text) (u : UpstreamKey) → (rows s).upstreams i ≡ some u → u.id ≡ i
  pub user_ids : (s : S) (i : Text) (u : User) → (rows s).users i ≡ some u → u.id ≡ i
  pub user_by_id :
      (s : S) (id : Text) (u : User)
      → (db.queries s).user_by_id id ≡ ok u
      → (rows s).users id ≡ some u
  pub key_by_id :
      (s : S) (id : Text) (k : ApiKey)
      → (db.queries s).key_by_id id ≡ ok k
      → (rows s).keys id ≡ some k
  pub upstream_by_id :
      (s : S) (id : Text) (u : UpstreamKey)
      → (db.queries s).upstream_by_id id ≡ ok u
      → (rows s).upstreams id ≡ some u
  pub key_by_prefix :
      (s : S) (p : Text) (k : ApiKey)
      → (db.queries s).key_by_prefix p ≡ ok k
      → ((rows s).keys k.id ≡ some k) × (k.prefix ≡ p)
  pub first_binding_of_key :
      (s : S) (id : Text) (b : UserKeyBinding)
      → (db.queries s).first_binding_of_key id ≡ ok b
      → ((rows s).bindings b.id ≡ some b) × (b.user_api_key_id ≡ id)
  pub binding_of_key_and_service :
      (s : S) (id service : Text) (b : UserKeyBinding)
      → (db.queries s).binding_of_key_and_service id service ≡ ok b
      → ((rows s).bindings b.id ≡ some b) × (b.user_api_key_id ≡ id) × (b.service ≡ service)

-- What a statement that succeeds makes of the rows. An insertion needs that there is no row with its
-- id; a deletion hides the rows that it is for.
pub record Writes {S : Type 0} (db : AccountsDatabase S) (rows : S → Tables) : Type 0 where
  pub create_user :
      (u : User) (s s' : S) (now : ℕ)
      → db.create_user u s ≡ ok (s', now)
      → rows s' ≡ record (rows s) {
        users = put u.id (some (record u { created_at = now; updated_at = now })) (rows s).users;
      }
  pub create_key :
      (k : ApiKey) (s s' : S) (now : ℕ)
      → db.create_key k s ≡ ok (s', now)
      → ((rows s).keys k.id ≡ none)
        × (rows s' ≡ record (rows s) {
          keys = put k.id (some (record k { created_at = now; updated_at = now })) (rows s).keys;
        })
  pub create_upstream :
      (u : UpstreamKey) (s s' : S) (now : ℕ)
      → db.create_upstream u s ≡ ok (s', now)
      → ((rows s).upstreams u.id ≡ none)
        × (rows s' ≡ record (rows s) {
          upstreams =
              put u.id (some (record u { created_at = now; updated_at = now })) (rows s).upstreams;
        })
  pub create_binding :
      (b : UserKeyBinding) (s s' : S) (now : ℕ)
      → db.create_binding b s ≡ ok (s', now)
      → ((rows s).bindings b.id ≡ none)
        × (rows s' ≡ record (rows s) {
          bindings =
              put b.id (some (record b { created_at = now; updated_at = now })) (rows s).bindings;
        })
  pub save_upstream :
      (u : UpstreamKey) (s s' : S) (now : ℕ)
      → db.save_upstream u s ≡ ok (s', now)
      → rows s' ≡ record (rows s) {
        upstreams = put u.id (some (record u { updated_at = now })) (rows s).upstreams;
      }
  pub update_binding :
      (b : UserKeyBinding) (s s' : S)
      → db.update_binding b s ≡ ok s'
      → (now : ℕ) × (rows s' ≡ record (rows s) {
        bindings =
            adjust b.id
              (λ x. record x {
                upstream_key_id = b.upstream_key_id;
                position = b.position;
                metadata = b.metadata;
                updated_at = now;
              })
              (rows s).bindings;
      })
  pub set_key_enabled :
      (id : Text) (flag : Bool) (s s' : S) (affected : ℕ)
      → db.set_key_enabled id flag s ≡ ok (s', affected)
      → (now : ℕ) × (rows s' ≡ record (rows s) {
        keys = adjust id (λ k. record k { enabled = flag; updated_at = now }) (rows s).keys;
      })
  pub set_upstream_enabled :
      (id : Text) (flag : Bool) (s s' : S) (affected : ℕ)
      → db.set_upstream_enabled id flag s ≡ ok (s', affected)
      → (now : ℕ) × (rows s' ≡ record (rows s) {
        upstreams =
            adjust id (λ u. record u { enabled = flag; updated_at = now }) (rows s).upstreams;
      })
  pub delete_user :
      (id : Text) (s s' : S)
      → db.delete_user id s ≡ ok s'
      → rows s' ≡ record (rows s) { users = put id none (rows s).users }
  pub delete_key :
      (id : Text) (s s' : S)
      → db.delete_key id s ≡ ok s'
      → rows s' ≡ record (rows s) { keys = put id none (rows s).keys }
  pub delete_upstream :
      (id : Text) (s s' : S)
      → db.delete_upstream id s ≡ ok s'
      → rows s' ≡ record (rows s) { upstreams = put id none (rows s).upstreams }
  pub delete_binding :
      (id : Text) (s s' : S) (affected : ℕ)
      → db.delete_binding id s ≡ ok (s', affected)
      → rows s' ≡ record (rows s) { bindings = put id none (rows s).bindings }
  pub delete_bindings_of_key :
      (id : Text) (s s' : S)
      → db.delete_bindings_of_key id s ≡ ok s'
      → rows s' ≡ record (rows s) {
        bindings = without (λ b. text_eq b.user_api_key_id id) (rows s).bindings;
      }
  pub delete_bindings_of_upstream :
      (id : Text) (s s' : S)
      → db.delete_bindings_of_upstream id s ≡ ok s'
      → rows s' ≡ record (rows s) {
        bindings = without (λ b. text_eq b.upstream_key_id id) (rows s).bindings;
      }

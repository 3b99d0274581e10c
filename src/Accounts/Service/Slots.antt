-- ===== src/Accounts/Service/Slots.antt =====
-- A database with room for one row in each table, on which the theorems about the service of
-- pkg/accounts/service.go are tried.
pub mod Laws
use yapi.Common.{
  ℕ, Bool, true, Option, none, some, List, [], ◌∷◌, Result, ok, err, if◌then◌else◌, ◌&&◌,
}
use yapi.Common.Text.{Text, text, text_eq}
use yapi.Accounts.Model.{User, ApiKey, UpstreamKey, UserKeyBinding}
use yapi.Accounts.Resolve.{QueryError, record_not_found, Queries}
use yapi.Accounts.Database.{CreateError, duplicated_key, AccountsDatabase}
use yapi.Accounts.Service.Tables.{Tables, adjust, changed, unless}

pub record Slots : Type 0 where
  pub user : Option User
  pub key : Option ApiKey
  pub upstream : Option UpstreamKey
  pub binding : Option UserKeyBinding

abbrev pub empty_slots : Slots
empty_slots = record { user = none; key = none; upstream = none; binding = none }

module _ {ℓ} {A : Type ℓ} where
  -- The row, if it passes a test.
  abbrev pub only : (A → Bool) → Option A → Option A
  only p none = none
  only p (some a) = if p a then some a else none

  abbrev pub view : (A → Text) → Option A → Text → Option A
  view id row i = only (λ a. text_eq (id a) i) row

  abbrev pub asked : Option A → Result QueryError A
  asked none = err record_not_found
  asked (some a) = ok a

  -- A row that is written needs an empty place.
  abbrev pub fill : A → Option A → Option (Option A)
  fill a none = some (some a)
  fill a (some _) = none

  -- A row with the same id is replaced.
  abbrev pub refill : (A → Text) → A → Option A → Option (Option A)
  refill id a none = some (some a)
  refill id a (some b) = if text_eq (id b) (id a) then some (some a) else none

  abbrev pub change : (A → Text) → Text → (A → A) → Option A → Option A
  change id i f none = none
  change id i f (some a) = if text_eq (id a) i then some (f a) else some a

  abbrev pub listed : Option A → List A
  listed none = []
  listed (some a) = a ∷ []

  abbrev pub full : Option A → (A → Slots) → Result Text (Slots × ℕ)
  full none f = err (text "full")
  full (some a) f = ok (f a, 7)

  abbrev pub full_user : Option A → (A → Slots) → Result CreateError (Slots × ℕ)
  full_user none f = err duplicated_key
  full_user (some a) f = ok (f a, 7)

abbrev pub slot_rows : Slots → Tables
slot_rows s = record {
  users = view (λ u. u.id) s.user;
  keys = view (λ k. k.id) s.key;
  upstreams = view (λ u. u.id) s.upstream;
  bindings = view (λ b. b.id) s.binding;
}

abbrev pub slot_queries : Slots → Queries
slot_queries s = record {
  user_by_id = λ i. asked (view (λ u. u.id) s.user i);
  key_by_id = λ i. asked (view (λ k. k.id) s.key i);
  key_by_prefix = λ p. asked (only (λ k. text_eq k.prefix p) s.key);
  upstream_by_id = λ i. asked (view (λ u. u.id) s.upstream i);
  first_binding_of_key = λ i. asked (only (λ b. text_eq b.user_api_key_id i) s.binding);
  binding_of_key_and_service = λ i service.
      asked (only (λ b. text_eq b.user_api_key_id i && text_eq b.service service) s.binding);
}

-- Every statement is made at the time 7, and affects one row.
abbrev pub slot_db : AccountsDatabase Slots
slot_db = record {
  queries = slot_queries;
  users_by_time = λ s. ok (listed s.user);
  keys_of_user = λ i s. ok (listed (only (λ k. text_eq k.user_id i) s.key));
  upstreams_of_user = λ i s. ok (listed (only (λ u. text_eq u.user_id i) s.upstream));
  bindings_of_key = λ i s. ok (listed (only (λ b. text_eq b.user_api_key_id i) s.binding));
  create_user = λ u s.
      full_user (fill (record u { created_at = 7; updated_at = 7 }) s.user)
        (λ x. record s { user = x });
  create_key = λ k s.
      full (fill (record k { created_at = 7; updated_at = 7 }) s.key) (λ x. record s { key = x });
  create_upstream = λ u s.
      full (fill (record u { created_at = 7; updated_at = 7 }) s.upstream)
        (λ x. record s { upstream = x });
  create_binding = λ b s.
      full (fill (record b { created_at = 7; updated_at = 7 }) s.binding)
        (λ x. record s { binding = x });
  save_upstream = λ u s.
      full (refill (λ x. x.id) (record u { updated_at = 7 }) s.upstream)
        (λ x. record s { upstream = x });
  update_binding = λ b s. ok (record s {
    binding =
        change (λ x. x.id) b.id
          (λ x. record x {
            upstream_key_id = b.upstream_key_id;
            position = b.position;
            metadata = b.metadata;
            updated_at = 7;
          })
          s.binding;
  });
  set_key_enabled = λ i flag s. ok (
    record s {
      key = change (λ k. k.id) i (λ k. record k { enabled = flag; updated_at = 7 }) s.key;
    },
    1,
  );
  set_upstream_enabled = λ i flag s. ok (
    record s {
      upstream = change (λ u. u.id) i (λ u. record u { enabled = flag; updated_at = 7 }) s.upstream;
    },
    1,
  );
  delete_user = λ i s. ok (record s { user = unless (λ u. text_eq u.id i) s.user });
  delete_key = λ i s. ok (record s { key = unless (λ k. text_eq k.id i) s.key });
  delete_upstream = λ i s. ok (record s { upstream = unless (λ u. text_eq u.id i) s.upstream });
  delete_binding = λ i s. ok (record s { binding = unless (λ b. text_eq b.id i) s.binding }, 1);
  delete_bindings_of_key =
      λ i s. ok (record s { binding = unless (λ b. text_eq b.user_api_key_id i) s.binding });
  delete_bindings_of_upstream =
      λ i s. ok (record s { binding = unless (λ b. text_eq b.upstream_key_id i) s.binding });
}

-- ===== src/Accounts/Create.antt =====
-- `CreateUserAPIKey` of pkg/accounts/service.go: a new key for a user.
pub mod Usable
mod Tests
use yapi.Common.{ℕ, true, Option, none, some, List, ◌∷◌, Result, ok, err, ◌>>=◌, if◌then◌else◌}
use yapi.Common.Text.{Text, text, is_blank, trim_space}
use yapi.Accounts.Model.{
  AccountsError, invalid_input, other, user_id_empty, User, ApiKey, validate_api_key,
}
use yapi.Accounts.Keys.{Bcrypt, generate_api_key, hash_secret}
use yapi.Accounts.Resolve.{Queries, get_user}

pub record CreateApiKeyParams : Type 0 where
  pub user_id : Text
  pub label : Text

-- The database over a state `S`: its queries, and `Create` of a key, which gives the time it was
-- made at.
pub record KeyDatabase (S : Type 0) : Type 0 where
  pub queries : S → Queries
  pub create_key : ApiKey → S → Result Text (S × ℕ)

abbrev pub checked_key : ApiKey → Result AccountsError ApiKey
checked_key key = elim (validate_api_key key) [ none ↦ ok key | some e ↦ err (invalid_input e) ]

module _ {S : Type 0} (bc : Bcrypt) (db : KeyDatabase S) (uuid : Text)
    (random : Option (List ℕ)) where
  abbrev pub inserted :
      Text → ApiKey → S → Result Text (S × ℕ) → S × Result AccountsError (ApiKey × Text)
  inserted plain key s (err e) = (s, err (other e))
  inserted plain key s (ok (s', now)) =
      (s', ok (record key { created_at = now; updated_at = now }, plain))

  -- The key before it is stored, with its text.
  unfoldable pub new_key : CreateApiKeyParams → S → Result AccountsError (ApiKey × Text)
  new_key params s = do
    _ ← get_user bc (db.queries s) params.user_id
    made ← generate_api_key random
    hash ← hash_secret bc made.0
    key ← checked_key (record {
      id = uuid;
      user_id = params.user_id;
      label = trim_space params.label;
      prefix = made.1;
      secret_hash = hash;
      enabled = true;
      last_used_at = none;
      metadata = none;
      created_at = 0;
      updated_at = 0;
      deleted_at = none;
    })
    ok (key, made.0)

  abbrev pub stored :
      S → Result AccountsError (ApiKey × Text) → S × Result AccountsError (ApiKey × Text)
  stored s (err e) = (s, err e)
  stored s (ok (key, plain)) = inserted plain key s (db.create_key key s)

  -- `CreateUserAPIKey`, with what `uuid.NewString` and `rand.Read` give.
  unfoldable pub create_user_api_key :
      CreateApiKeyParams → S → S × Result AccountsError (ApiKey × Text)
  unfolding new_key
  create_user_api_key params s =
      if is_blank params.user_id
      then (s, err (invalid_input user_id_empty))
      else stored s (new_key params s)

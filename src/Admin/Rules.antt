-- ===== src/Admin/Rules.antt =====
-- The saving and deleting of a rule, and the login: `createOrUpdateRule`, `deleteRule` and `login`
-- of internal/admin/handler.go.
pub mod Statuses
mod Tests
use yapi.Common.{ℕ, ◌&&◌, not, Option, none, some, ◌∷◌, [], Result, ok, err, is_nil, if◌then◌else◌}
use yapi.Common.Text.{Text}
use yapi.Rules.Model.{Rule}
use yapi.Rules.Store.{StoreError, invalid, rule_not_found, backend}
use yapi.Admin.Auth.{
  Authenticator, Crypto, AuthFailure, invalid_credential, token_not_configured, token_rejected,
  signing_failed, credentials_configured, issue_token,
}

-- The answer to a rule that is sent: 200 with the rule, or an error's status.
pub data SaveReply : Type 0 where
  saved : Rule → SaveReply
  failed : ℕ → SaveReply

-- The id of the path, for a rule that has none.
unfoldable pub with_id : Text → Rule → Rule
with_id id rule = if not (is_nil id) && is_nil rule.id then record rule { id = id } else rule

abbrev save_status : StoreError → ℕ
save_status (invalid _) = 400
save_status rule_not_found = 500
save_status (backend _) = 500

abbrev pub save_reply {ℓ} : {S : Type ℓ} → Rule → S × Option StoreError → S × SaveReply
save_reply rule (s, none) = (s, saved rule)
save_reply rule (s, some e) = (s, failed (save_status e))

-- `createOrUpdateRule`; `save` is the service's, `id` the path's, and the body is none if it does
-- not parse.
unfoldable pub create_or_update_rule {ℓ} :
    {S : Type ℓ} → (Rule → S → S × Option StoreError) → Text → Option Rule → S → S × SaveReply
create_or_update_rule save id none s = (s, failed 400)
create_or_update_rule save id (some rule) s =
    save_reply (with_id id rule) (save (with_id id rule) s)

abbrev delete_status : Option StoreError → ℕ
delete_status none = 204
delete_status (some (invalid _)) = 400
delete_status (some rule_not_found) = 404
delete_status (some (backend _)) = 500

abbrev pub delete_reply {ℓ} : {S : Type ℓ} → S × Option StoreError → S × ℕ
delete_reply (s, e) = (s, delete_status e)

-- `deleteRule`: the status of the answer.
unfoldable pub handle_delete_rule {ℓ} :
    {S : Type ℓ} → (Text → S → S × Option StoreError) → Text → S → S × ℕ
handle_delete_rule delete id s = if is_nil id then (s, 400) else delete_reply (delete id s)

-- The answer to a login: 200 with a token, or an error's status.
pub data LoginReply : Type 0 where
  logged_in : Text → LoginReply
  rejected : ℕ → LoginReply

abbrev login_status : AuthFailure → ℕ
login_status token_not_configured = 501
login_status invalid_credential = 401
login_status token_rejected = 401
login_status signing_failed = 401

abbrev login_reply : Result AuthFailure Text → LoginReply
login_reply (ok token) = logged_in token
login_reply (err e) = rejected (login_status e)

abbrev try_login : Crypto → Authenticator → ℕ → Option (Text × Text) → LoginReply
try_login crypto a now none = rejected 400
try_login crypto a now (some (username, password)) =
    login_reply (issue_token crypto a now username password)

-- `login` at the time `now`; the body is none if it does not parse.
unfoldable pub login : Crypto → Option Authenticator → ℕ → Option (Text × Text) → LoginReply
login crypto none now body = rejected 501
login crypto (some a) now body =
    if not (credentials_configured a) then rejected 501 else try_login crypto a now body

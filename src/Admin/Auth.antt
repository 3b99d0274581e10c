-- ===== src/Admin/Auth.antt =====
-- The administrator's credentials and tokens: internal/admin/auth.go.
pub mod Access
use yapi.Common.{
  ℕ, suc, ◌+◌, ◌-◌, Bool, true, false, ◌&&◌, ◌||◌, not, Option, none, some, List, [], ◌∷◌, ◌++◌,
  Result, ok, err, ◌>>◌, if◌then◌else◌, is_nil, drop, is_some,
}
use yapi.Common.Int.{ℤ, pos, negsuc}
use yapi.Common.Text.{Text, text, text_eq, has_prefix, trim_space, is_blank}

-- A time is a number of nanoseconds, counted from one far in the past; a `time.Duration` is one of
-- nanoseconds, which may be negative.
pub record Authenticator : Type 0 where
  pub username : Text
  pub password : Text
  pub secret : Text
  pub ttl : ℤ

-- `jwt.RegisteredClaims`, with the times in whole seconds.
pub record Claims : Type 0 where
  pub subject : Text
  pub issued_at : ℕ
  pub expires_at : ℕ

-- The package jwt: `NewNumericDate`, the second of a time; HS256 signing of claims, which may fail, and whether a token is accepted under a
-- secret at a time; and base64 of the standard alphabet.
pub record Crypto : Type 0 where
  pub numeric_date : ℕ → ℕ
  pub sign : Text → Claims → Option Text
  pub parses : Text → ℕ → Text → Bool
  pub base64 : Text → Text

pub data AuthFailure : Type 0 where
  invalid_credential token_not_configured token_rejected signing_failed : AuthFailure

unfoldable pub new_authenticator : Text → Text → Text → ℤ → Authenticator
new_authenticator username password token_secret ttl = record {
  username = trim_space username;
  password = password;
  secret = token_secret;
  ttl = ttl;
}

unfoldable pub credentials_configured : Authenticator → Bool
credentials_configured a = not (is_nil a.username) && not (is_nil a.password)

unfoldable pub token_enabled : Authenticator → Bool
token_enabled a = not (is_nil a.secret)

unfoldable pub match_credential : Authenticator → Text → Text → Bool
match_credential a username password =
    if is_nil a.username && is_nil a.password
    then true
    else text_eq (trim_space username) a.username && text_eq password a.password

-- `Time.Add`
abbrev pub add_duration : ℕ → ℤ → ℕ
add_duration t (pos d) = t + d
add_duration t (negsuc d) = t - suc d

abbrev signed : Option Text → Result AuthFailure Text
signed none = err signing_failed
signed (some token) = ok token

-- `IssueToken` at the time `now`.
unfoldable pub issue_token : Crypto → Authenticator → ℕ → Text → Text → Result AuthFailure Text
issue_token crypto a now username password =
    if not (credentials_configured a)
    then err invalid_credential
    else if not (match_credential a username password)
    then err invalid_credential
    else if not (token_enabled a)
    then err token_not_configured
    else signed (
        crypto.sign a.secret (record {
          subject = a.username;
          issued_at = crypto.numeric_date now;
          expires_at = crypto.numeric_date (add_duration now a.ttl);
        }))

-- `ValidateToken` at the time `now`: `none` is success.
unfoldable pub validate_token : Crypto → Authenticator → ℕ → Text → Option AuthFailure
validate_token crypto a now token =
    if not (token_enabled a)
    then some token_not_configured
    else if is_blank token
    then some invalid_credential
    else if crypto.parses a.secret now token
    then none
    else some token_rejected

abbrev pub basic_header : Crypto → Text → Text → Text
basic_header crypto username password = crypto.base64 (username ++ b':' ∷ password)

-- What the middleware does: the next handler runs, with the administrator's name if there is one;
-- or 401.
pub data Verdict : Type 0 where
  admitted : Option Text → Verdict
  unauthorized : Verdict

abbrev bearer_passes : Crypto → Authenticator → ℕ → Text → Bool
bearer_passes crypto a now header =
    (has_prefix header (text "Bearer ") && token_enabled a)
    && not (is_some (validate_token crypto a now (trim_space (drop 7 header))))

-- `Middleware` on a request with this `Authorization` header; `none` is a nil authenticator.
unfoldable pub middleware : Crypto → Option Authenticator → ℕ → Text → Verdict
middleware crypto none now header = admitted none
middleware crypto (some a) now header =
    if not (credentials_configured a)
    then admitted none
    else if bearer_passes crypto a now header
    then admitted (some a.username)
    else if text_eq header (text "Basic " ++ basic_header crypto a.username a.password)
    then admitted (some a.username)
    else unauthorized

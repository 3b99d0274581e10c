-- ===== src/Admin/Auth/Access.antt =====
-- Who passes the administration's gate, and that a token which `IssueToken` gave passes it until it
-- expires; internal/admin/auth.go.
use yapi.Common.{
  ℕ, ◌*◌, ◌/◌, ◌<◌, ◌≤◌, false, ap, ◌≡◌, ◌↔◌, ◌⊎◌, inl, inr, true, false, some, [], ◌∷◌, ◌++◌, ok,
  arith, is_nil, drop,
}
use yapi.Common.Text.{Text, text, text_eq_iff, has_prefix, trim_space, is_blank}
use yapi.Admin.Auth.{
  Authenticator, Claims, Crypto, credentials_configured, token_enabled, issue_token, validate_token,
  basic_header, admitted, middleware, add_duration,
}

-- A prefix is what stands before the rest.
pub has_prefix-append : (p s : Text) → has_prefix (p ++ s) p ≡ true
unfolding has_prefix
has_prefix-append [] s = unfold has_prefix in (ground arith)
has_prefix-append (c ∷ p) s = ground (arith, has_prefix-append p s)

module _ (crypto : Crypto) (a : Authenticator) (now : ℕ) where
  -- The ways past the gate: a token that is enabled, not blank and accepted at the time, behind
  -- "Bearer "; or the credentials themselves.
  pub data Allowed (header : Text) : Type 0 where
    by_token :
        has_prefix header (text "Bearer ") ≡ true
        → is_nil a.secret ≡ false
        → is_blank (trim_space (drop 7 header)) ≡ false
        → crypto.parses a.secret now (trim_space (drop 7 header)) ≡ true
        → Allowed header
    by_password :
        header ≡ text "Basic " ++ crypto.base64 (a.username ++ b':' ∷ a.password) → Allowed header

  admitted_of :
      (header : Text)
      → credentials_configured a ≡ true
      → Allowed header
      → middleware crypto (some a) now header ≡ admitted (some a.username)
  unfolding middleware validate_token token_enabled
  admitted_of header c (by_token p s b o) = ground arith
  admitted_of header c (by_password e) =
      ground (
        arith,
        (text_eq_iff header (text "Basic " ++ basic_header crypto a.username a.password)).1 e,
      )

  admitted_cases :
      (header : Text)
      → credentials_configured a ≡ true
      → middleware crypto (some a) now header ≡ admitted (some a.username)
      → ((has_prefix header (text "Bearer ") ≡ true)
          × (is_nil a.secret ≡ false)
          × (is_blank (trim_space (drop 7 header)) ≡ false)
          × (crypto.parses a.secret now (trim_space (drop 7 header)) ≡ true))
        ⊎ (header ≡ text "Basic " ++ crypto.base64 (a.username ++ b':' ∷ a.password))
  unfolding middleware validate_token token_enabled
  admitted_cases header c e =
      ground
        (arith, (text_eq_iff header (text "Basic " ++ basic_header crypto a.username a.password)).0)

  -- With credentials configured, a request passes, in the administrator's name, exactly if it brings
  -- a token that is enabled and accepted at the time, or the credentials themselves.
  pub middleware-Allowed :
      (header : Text)
      → credentials_configured a ≡ true
      → (middleware crypto (some a) now header ≡ admitted (some a.username)) ↔ Allowed header
  middleware-Allowed header c =
      (λ e. allowed header (admitted_cases header c e), admitted_of header c)
    where
      allowed :
          (header : Text)
          → ((has_prefix header (text "Bearer ") ≡ true)
              × (is_nil a.secret ≡ false)
              × (is_blank (trim_space (drop 7 header)) ≡ false)
              × (crypto.parses a.secret now (trim_space (drop 7 header)) ≡ true))
            ⊎ (header ≡ text "Basic " ++ crypto.base64 (a.username ++ b':' ∷ a.password))
          → Allowed header
      allowed header (inl (p, s, b, o)) = by_token p s b o
      allowed header (inr e) = by_password e

abbrev pub second : ℕ
second = 1000000000

-- What is relied on of the package jwt: a time is cut off to a whole second; a token signed under a secret is accepted under it before the
-- second at which the claims expire and not from then on, and is a text without white space around it.
pub record SignsTokens (crypto : Crypto) : Type 0 where
  pub cuts : (t : ℕ) → crypto.numeric_date t ≡ t / second
  pub accepts :
      (secret token : Text) (claims : Claims) (now : ℕ)
      → crypto.sign secret claims ≡ some token
      → now < claims.expires_at * second
      → crypto.parses secret now token ≡ true
  pub expires :
      (secret token : Text) (claims : Claims) (now : ℕ)
      → crypto.sign secret claims ≡ some token
      → claims.expires_at * second ≤ now
      → crypto.parses secret now token ≡ false
  pub compact :
      (secret token : Text) (claims : Claims)
      → crypto.sign secret claims ≡ some token
      → (trim_space token ≡ token) × (is_nil token ≡ false)

module _ (crypto : Crypto) (a : Authenticator) where
  -- The time at which a token ends that is issued now: its time to live is over, cut off to a whole
  -- second.
  abbrev pub ends : ℕ → ℕ
  ends now = add_duration now a.ttl / second * second

  -- A token is only issued for credentials that are configured and match, and is the signature of
  -- claims that last as long as the tokens do.
  issued :
      (now : ℕ) (username password token : Text)
      → issue_token crypto a now username password ≡ ok token
      → (credentials_configured a ≡ true)
        × (token_enabled a ≡ true)
        × (crypto.sign a.secret (record {
          subject = a.username;
          issued_at = crypto.numeric_date now;
          expires_at = crypto.numeric_date (add_duration now a.ttl);
        })
            ≡ some token)
  unfolding issue_token
  issued now username password token e = ground arith

  trimmed_rest :
      (token : Text)
      → trim_space token ≡ token
      → trim_space (drop 7 (text "Bearer " ++ token)) ≡ token
  trimmed_rest token e = e

  accepted_of :
      (later : ℕ) (token : Text)
      → trim_space token ≡ token
      → Allowed crypto a later (text "Bearer " ++ token)
      → crypto.parses a.secret later token ≡ true
  accepted_of later token trimmed (by_token p s b o) = rw trimmed at o
  accepted_of later token trimmed (by_password e) =
      let differs : true ≡ false = unfold has_prefix in ap (λ s. has_prefix s (text "Be")) e in
      cc differs

  -- A token that `IssueToken` gave passes the gate, in the administrator's name, exactly before its
  -- time to live is over, cut off to a whole second.
  pub issue_token-middleware :
      (h : SignsTokens crypto) (now later : ℕ) (username password token : Text)
      → issue_token crypto a now username password ≡ ok token
      → (middleware crypto (some a) later (text "Bearer " ++ token) ≡ admitted (some a.username))
        ↔ (later < ends now)
  issue_token-middleware h now later username password token e =
      let (configured, enabled, signed) = issued now username password token e in
      let (trimmed, full) = h.compact _ _ _ signed in
      let (to, from) = middleware-Allowed crypto a later (text "Bearer " ++ token) configured in
      (
        (λ passes.
            let live = accepted_of later token trimmed (to passes) in
            elim (order later (ends now)) [
              | inl before ↦ before
              | inr after ↦
                  cc (
                    h.expires _ _ _ later signed (rw (h.cuts (add_duration now a.ttl)) after),
                    live,
                  )
            ]),
        (λ l. from (
            Allowed.by_token (has_prefix-append (text "Bearer ") token)
              (unfold token_enabled in (ground arith)) (rw (trimmed, trimmed) full)
              (rw trimmed
                (h.accepts _ _ _ later signed (rw (h.cuts (add_duration now a.ttl)) l))))),
      )
    where
      order : (m n : ℕ) → (m < n) ⊎ (n ≤ m)
      order m n = omega arith

-- ===== src/Admin/Tests.antt =====
-- The properties of the administration at concrete queries and credentials.
use yapi.Common.{
  if◌then◌else◌, ◌&&◌, ◌<◌, ◌/◌, ◌==◌, ltb, false, is_nil, subst, ◌≡◌, ◌↔◌, refl, true, false, none,
  some, [], ◌∷◌, ok, arith,
}
use yapi.Common.Int.{pos}
use yapi.Common.Text.{
  Text, text, text_eq, text_eq_refl, trim_space, trim_left, trim_right, is_space, to_lower,
}
use yapi.Common.Text.Decimal.{atoi, horner}
use yapi.Admin.Listing.{
  ListRulesResponse, parse_positive_int, parse_list_rules_query, filter_loop, filter_rules,
  paginate_rules, count_enabled, max_page, clamp_page, list_rules,
}
use yapi.Admin.Listing.Pages.{IsPageOf, list_rules-IsPageOf, first_pages, paginate_rules_complete}
use yapi.Admin.Auth.{
  Authenticator, Claims, Crypto, credentials_configured, token_enabled, match_credential,
  issue_token, middleware, admitted,
}
use yapi.Admin.Auth.Access.{ends, Allowed, SignsTokens, middleware-Allowed, issue_token-middleware}
use yapi.Fixtures.{plain_unicode, low_rule, high_rule}

paginate_rules_complete_example :
    first_pages (max_page 2 1) (low_rule ∷ high_rule ∷ []) 1 ≡ low_rule ∷ high_rule ∷ []
paginate_rules_complete_example =
    paginate_rules_complete (low_rule ∷ high_rule ∷ []) 1 (omega arith)

-- The second page, of one rule.
abbrev second_page : Text → Text
second_page name =
    if text_eq name (text "page")
    then text "2"
    else if text_eq name (text "page_size")
    then text "1"
    else []

abbrev second_of_two : ListRulesResponse
second_of_two = record {
  items = high_rule ∷ [];
  total = 2;
  enabled_total = 2;
  page = 2;
  page_size = 1;
}

lists : list_rules plain_unicode second_page (ok (low_rule ∷ high_rule ∷ [])) ≡ ok second_of_two
unfolding list_rules parse_list_rules_query parse_positive_int filter_rules filter_loop
    paginate_rules count_enabled clamp_page max_page trim_space trim_left trim_right is_space
    to_lower text_eq atoi horner
lists = refl

list_rules-IsPageOf_example :
    IsPageOf
      (filter_rules plain_unicode
        (low_rule ∷ high_rule ∷ [])
        (parse_list_rules_query plain_unicode second_page))
      second_of_two
list_rules-IsPageOf_example =
    list_rules-IsPageOf plain_unicode second_page (low_rule ∷ high_rule ∷ []) second_of_two lists

-- One token, "t", which is accepted for the first ten seconds.
abbrev one_token : Crypto
one_token = record {
  numeric_date = λ t. t / 1000000000;
  sign = λ secret claims. if claims.expires_at == 10 then some (text "t") else none;
  parses = λ secret now token. text_eq token (text "t") && ltb now 10000000000;
  base64 = λ s. s;
}

abbrev admin : Authenticator
admin = record { username = text "a"; password = text "p"; secret = text "s"; ttl = pos 5000000000 }

configured : credentials_configured admin ≡ true
unfolding credentials_configured
configured = refl

middleware-Allowed_example :
    (middleware one_token (some admin) 3 (text "Basic a:p") ≡ admitted (some (text "a")))
    ↔ Allowed one_token admin 3 (text "Basic a:p")
middleware-Allowed_example = middleware-Allowed one_token admin 3 (text "Basic a:p") configured

t_trims : (trim_space (text "t") ≡ text "t") × (is_nil (text "t") ≡ false)
unfolding trim_space trim_left trim_right is_space
t_trims = (refl, refl)

-- A signed token is "t".
signed_t :
    (secret token : Text) (claims : Claims)
    → one_token.sign secret claims ≡ some token
    → (text "t" ≡ token) × (claims.expires_at ≡ 10)
signed_t secret token claims e = ground arith

one_token-SignsTokens : SignsTokens one_token
one_token-SignsTokens = record {
  cuts = λ t. refl;
  accepts = λ secret token claims now e l.
      let (same, soon) = signed_t secret token claims e in
      subst (λ t. one_token.parses secret now t ≡ true) same
        (ground (arith, text_eq_refl (text "t")));
  expires = λ secret token claims now e l.
      let (same, soon) = signed_t secret token claims e in
      subst (λ t. one_token.parses secret now t ≡ false) same
        (ground (arith, text_eq_refl (text "t")));
  compact = λ secret token claims e.
      subst (λ t. (trim_space t ≡ t) × (is_nil t ≡ false)) (signed_t secret token claims e).0
        t_trims;
}

-- Half a second is cut off.
issues : issue_token one_token admin 5500000000 (text "a") (text "p") ≡ ok (text "t")
unfolding issue_token credentials_configured token_enabled match_credential trim_space trim_left
    trim_right is_space text_eq
issues = refl

issue_token-middleware_example :
    (middleware one_token (some admin) 9000000000 (text "Bearer t") ≡ admitted (some (text "a")))
    ↔ (9000000000 < ends one_token admin 5500000000)
issue_token-middleware_example =
    issue_token-middleware one_token admin one_token-SignsTokens 5500000000 9000000000 (text "a")
      (text "p") (text "t") issues

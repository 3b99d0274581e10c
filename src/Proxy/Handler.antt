-- ===== src/Proxy/Handler.antt =====
-- `Handle` of internal/proxy/handler.go: from a request with its context to what is sent upstream.
pub mod Ownership
pub mod Status
use yapi.Common.{
  ℕ, Bool, true, false, ◌&&◌, ◌||◌, not, Option, none, some, List, [], ◌∷◌, ◌++◌, Result, ok, err,
  ◌>>◌, is_nil, if◌then◌else◌, drop, ◌==◌,
}
use yapi.Common.Int.{negsuc, pos}
use yapi.Common.Text.{Text, text, text_eq, has_prefix, trim_space}
use yapi.Common.Http.{Header, header_add}
use yapi.Rules.Model.{Rule, Matcher, Actions, fail_if}
use yapi.Rules.Store.{StoreError}
use yapi.Accounts.Model.{User, UpstreamKey, UserKeyBinding}
use yapi.Middleware.Auth.{Context, UpstreamInfo}
use yapi.Middleware.RequestId.{with_request_id}
use yapi.Proxy.Match.{Url, Body, Request, Outgoing, Env, first_match}
use yapi.Proxy.Body.{Sjson, RewriteError}
use yapi.Proxy.Actions.{apply_rule_actions}

-- The package net/url: `Parse` (`none` is an error) and `String`; and the texts of errors.
pub record Net : Type 0 where
  pub parse_url : Text → Option Url
  pub url_string : Url → Text
  pub error_text : RewriteError → Text

-- The errors of `authorizeBinding`.
pub data AuthError : Type 0 where
  credential_missing mismatch_upstream mismatch_owner not_authorized : AuthError

-- The user is known, has an id, and it is not the binding's.
abbrev pub is_stranger : Option User → UserKeyBinding → Bool
is_stranger none b = false
is_stranger (some user) b = not (is_nil user.id) && not (text_eq user.id b.user_id)

unfoldable pub authorize_binding : Context → UserKeyBinding → UpstreamInfo → Option AuthError
authorize_binding c b info = do
  fail_if (is_nil info.credential.id) credential_missing
  fail_if (not (text_eq b.upstream_key_id info.credential.id)) mismatch_upstream
  fail_if (not (text_eq info.credential.user_id b.user_id)) mismatch_owner
  fail_if (is_stranger c.user b) not_authorized

-- The test at the head of `Handle`: only a request with a binding and an upstream is authorized.
unfoldable pub authorize : Context → Option AuthError
authorize c = elim c.binding [
  | none ↦ none
  | some b ↦ elim c.upstream [ none ↦ none | some info ↦ authorize_binding c b info ]
]

-- The rule that stands in for the default target.
abbrev pub default_rule : Text → Rule
default_rule target = record {
  id = text "default";
  priority = negsuc 0;
  matcher = record {
    path_prefix = text "/";
    methods = [];
    headers = [];
    api_key_ids = [];
    api_key_prefixes = [];
    user_ids = [];
    user_metadata = [];
    binding_upstream_ids = [];
    binding_providers = [];
    require_binding = false;
  };
  actions = record {
    set_target_url = target;
    set_headers = [];
    add_headers = [];
    remove_headers = [];
    set_authorization = [];
    override_json = [];
    remove_json = [];
    rewrite_path_regex = none;
    script = [];
  };
  enabled = true;
  version = pos 0;
  created_by = [];
  updated_by = [];
  created_at = 0;
  updated_at = 0;
}

-- Why no rule or no target was found: the listing failed, `ErrNoMatchingRule`, a rule with no
-- target, or a target that does not parse.
pub data RouteError : Type 0 where
  listing_failed : StoreError → RouteError
  no_matching_rule target_missing target_invalid : RouteError

module _ (env : Env) (net : Net) (default_target : Option Url) where
  abbrev pub pick : Option Rule → Result RouteError Rule
  pick (some r) = ok r
  pick none = elim default_target [
    | some u ↦ ok (default_rule (net.url_string u))
    | none ↦ err no_matching_rule
  ]

  -- `matchRule`, on what `ListRules` returned.
  unfoldable pub match_rule :
      Context → Request → Result StoreError (List Rule) → Result RouteError Rule
  match_rule c req (err e) = err (listing_failed e)
  match_rule c req (ok rules) = pick (first_match env c req rules)

  abbrev pub first_endpoint : Option UpstreamInfo → Option Url
  first_endpoint none = none
  first_endpoint (some info) = elim info.endpoints [
    | [] ↦ none
    | e ∷ _ ↦ net.parse_url (trim_space e)
  ]

  abbrev or_invalid : Option Url → Result RouteError Url
  or_invalid none = err target_invalid
  or_invalid (some u) = ok u

  abbrev pub rule_target : Text → Result RouteError Url
  rule_target target =
      if is_nil target
      then elim default_target [ some u ↦ ok u | none ↦ err target_missing ]
      else or_invalid (net.parse_url target)

  -- `resolveTarget`
  unfoldable pub resolve_target : Context → Rule → Result RouteError Url
  resolve_target c rule = elim (first_endpoint c.upstream) [
    | some u ↦ ok u
    | none ↦ rule_target rule.actions.set_target_url
  ]

-- `httputil.NewSingleHostReverseProxy`: the paths joined by one slash, the queries by "&". Escaped
-- forms of the path are left out.
abbrev ends_with_slash : Text → Bool
ends_with_slash [] = false
ends_with_slash (c ∷ []) = c == b'/'
ends_with_slash (_ ∷ (d ∷ s)) = ends_with_slash (d ∷ s)

unfoldable pub single_joining_slash : Text → Text → Text
single_joining_slash a b =
    if ends_with_slash a && has_prefix b (b'/' ∷ [])
    then a ++ drop 1 b
    else if ends_with_slash a || has_prefix b (b'/' ∷ [])
    then a ++ b
    else a ++ b'/' ∷ b

abbrev join_query : Text → Text → Text
join_query a b = if is_nil a || is_nil b then a ++ b else a ++ b'&' ∷ b

abbrev direct : Url → Url → Url
direct target u = record {
  scheme = target.scheme;
  host = target.host;
  path = single_joining_slash target.path u.path;
  raw_query = join_query target.raw_query u.raw_query;
}

-- What a request ends in: 403, 404, 502, or a request to an upstream by a rule.
pub data Response : Type 0 where
  forbidden : AuthError → Response
  not_found : Response
  bad_gateway : RouteError → Response
  forwarded : Rule → Outgoing → Response

abbrev refused : RouteError → Response
refused no_matching_rule = not_found
refused (listing_failed e) = bad_gateway (listing_failed e)
refused target_missing = bad_gateway target_missing
refused target_invalid = bad_gateway target_invalid

module _ (env : Env) (sj : Sjson) (net : Net) (default_target : Option Url) where
  -- The request that the proxy makes of the one that came in. What `ReverseProxy` does to the body
  -- before the director and to the hop-by-hop headers after it is left out.
  abbrev pub outgoing : Url → Request → Outgoing
  outgoing target req = record {
    url = direct target req.url;
    headers = req.headers;
    body = req.body;
    get_body = none;
    content_length = req.content_length;
  }

  abbrev pub with_error : Outgoing × Option RewriteError → Outgoing
  with_error (req, none) = req
  with_error (req, some e) = record req {
    headers = header_add (text "X-YAPI-Body-Rewrite-Error") (net.error_text e) req.headers;
  }

  -- `proxy.Director`
  unfoldable pub director : Context → Text → Rule → Url → Request → Outgoing
  director c request_id rule target req =
      let out = outgoing target req in
      with_error (
        apply_rule_actions env sj c rule
          (record out { headers = with_request_id request_id out.headers }))

  unfoldable pub forward : Context → Text → Request → Rule → Response
  forward c request_id req rule = elim (resolve_target env net default_target c rule) [
    | err e ↦ bad_gateway e
    | ok target ↦ forwarded rule (director c request_id rule target req)
  ]

  -- `Handle`; `listing` is `ListRules` of the service, whose state is `S`.
  unfoldable pub handle {ℓ} :
      {S : Type ℓ}
      → (S → S × Result StoreError (List Rule))
      → Context
      → Text
      → Request
      → S
      → S × Response
  handle listing c request_id req s = elim (authorize c) [
    | some e ↦ (s, forbidden e)
    | none ↦
        let (s', listed) = listing s in
        elim (match_rule env net default_target c req listed) [
          | err e ↦ (s', refused e)
          | ok rule ↦ (s', forward c request_id req rule)
        ]
  ]

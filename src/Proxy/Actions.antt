-- ===== src/Proxy/Actions.antt =====
-- `applyRuleActions` of internal/proxy/handler.go: what a rule does to the outgoing request.
pub mod Credentials
use yapi.Common.{
  ℕ, Bool, true, false, ◌&&◌, ◌||◌, not, Option, none, some, List, [], ◌∷◌, ◌++◌, is_nil,
  if◌then◌else◌,
}
use yapi.Common.Text.{Text, text, is_blank, trim_space, Unicode}
use yapi.Common.Dict.{Dict}
use yapi.Common.Http.{Header, header_set, header_add, header_del}
use yapi.Rules.Model.{Rule, Actions, Regexp, RewritePathExpression}
use yapi.Accounts.Model.{User, UpstreamKey}
use yapi.Middleware.Auth.{Context, UpstreamInfo}
use yapi.Proxy.Match.{Url, Outgoing, Env}
use yapi.Proxy.Body.{Sjson, RewriteError, rewrite_json_body}

-- The loops over the headers to set, to add and to remove; Go leaves the order of a map open, here
-- it is the list's.
unfoldable pub set_all : Dict Text → Header → Header
set_all [] h = h
set_all ((k, v) ∷ m) h = set_all m (header_set k v h)

unfoldable pub add_all : Dict Text → Header → Header
add_all [] h = h
add_all ((k, v) ∷ m) h = add_all m (header_add k v h)

unfoldable pub del_all : List Text → Header → Header
del_all [] h = h
del_all (k ∷ ks) h = del_all ks (header_del k h)

-- `if v := strings.TrimSpace(value); v != "" { req.Header.Set(name, prefix + v) }`
abbrev pub set_if_filled : Text → Text → Text → Header → Header
set_if_filled name prefix value h =
    if is_blank value then h else header_set name (prefix ++ trim_space value) h

-- The headers of the rule.
unfoldable pub rule_headers : Actions → Header → Header
rule_headers a h =
    set_if_filled (text "Authorization") [] a.set_authorization
      (del_all a.remove_headers (add_all a.add_headers (set_all a.set_headers h)))

-- The path of the rule; a pattern that does not compile leaves it.
unfoldable pub rule_path : Regexp → Option RewritePathExpression → Text → Text
rule_path re none path = path
rule_path re (some expr) path =
    if re.compiles expr.pattern then re.replace_all expr.pattern path expr.replace else path

-- The headers of the upstream credential.
unfoldable pub credential_headers : UpstreamKey → Header → Header
credential_headers cred h =
    let h1 = set_if_filled (text "Authorization") (text "Bearer ") cred.api_key h in
    let h2 =
      set_if_filled (text "X-Upstream-Provider") [] cred.service
        (set_if_filled (text "X-Upstream-Service") [] cred.service h1) in
    let h3 = set_if_filled (text "X-Upstream-Name") [] cred.name h2 in
    if is_nil cred.id then h3 else header_set (text "X-Upstream-Credential-ID") cred.id h3

unfoldable pub upstream_headers : Option UpstreamInfo → Header → Header
upstream_headers none h = h
upstream_headers (some info) h = credential_headers info.credential h

unfoldable pub user_headers : Option User → Header → Header
user_headers none h = h
user_headers (some user) h =
    if is_blank user.id then h else header_set (text "X-YAPI-User-ID") user.id h

module _ (env : Env) (sj : Sjson) where
  -- The part before the credentials: headers, path and body.
  unfoldable pub rule_part : Actions → Outgoing → Outgoing × Option RewriteError
  rule_part a req =
      let req' = record req {
        headers = rule_headers a req.headers;
        url = record (req.url) { path = rule_path env.regexp a.rewrite_path_regex req.url.path };
      } in
      if not (is_nil a.override_json) || not (is_nil a.remove_json)
      then rewrite_json_body sj env.unicode a.override_json a.remove_json req'
      else (req', none)

  unfoldable pub apply_rule_actions : Context → Rule → Outgoing → Outgoing × Option RewriteError
  apply_rule_actions c rule req =
      let (req', failed) = rule_part rule.actions req in
      elim failed [
        | some e ↦ (req', some e)
        | none ↦ (
          record req' { headers = user_headers c.user (upstream_headers c.upstream req'.headers) },
          none,
        )
      ]

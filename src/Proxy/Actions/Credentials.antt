-- ===== src/Proxy/Actions/Credentials.antt =====
-- Which credentials leave with a request, internal/proxy/handler.go.
use yapi.Common.{
  ◌≡◌, refl, true, false, Option, none, some, [], ◌++◌, is_nil, if◌then◌else◌, arith, ap, sym, ◌∙◌,
}
use yapi.Common.Text.{Text, text, text_eq, is_blank, trim_space}
use yapi.Common.Http.{Header, canonical_key, header_get, header_set}
use yapi.Common.Http.Laws.{same_header, header_get-header_set}
use yapi.Rules.Model.{Rule}
use yapi.Accounts.Model.{User, UpstreamKey}
use yapi.Middleware.Auth.{Context, UpstreamInfo}
use yapi.Proxy.Match.{Outgoing, Env}
use yapi.Proxy.Body.{Sjson, RewriteError}
use yapi.Proxy.Body.Length.{rewrite_json_body-headers}
use yapi.Proxy.Actions.{
  set_all, add_all, del_all, set_if_filled, rule_headers, credential_headers, upstream_headers,
  user_headers, rule_path, rule_part, apply_rule_actions,
}

abbrev authorization : Text
authorization = text "Authorization"

set_other :
    (name prefix value : Text) (h : Header)
    → same_header name authorization ≡ false
    → header_get authorization (set_if_filled name prefix value h) ≡ header_get authorization h
set_other name prefix value h e =
    ground (arith, header_get-header_set name authorization (prefix ++ trim_space value) h)

set_same :
    (value prefix : Text) (h : Header)
    → is_blank value ≡ false
    → header_get authorization (set_if_filled authorization prefix value h)
      ≡ prefix ++ trim_space value
unfolding canonical_key text_eq
set_same value prefix h e =
    ground (arith, header_get-header_set authorization authorization (prefix ++ trim_space value) h)

id_other :
    (id : Text) (h : Header)
    → header_get authorization
        (if is_nil id then h else header_set (text "X-Upstream-Credential-ID") id h)
      ≡ header_get authorization h
unfolding canonical_key text_eq
id_other id h =
    ground (arith, header_get-header_set (text "X-Upstream-Credential-ID") authorization id h)

credential_headers-authorization :
    (cred : UpstreamKey) (h : Header)
    → is_blank cred.api_key ≡ false
    → header_get authorization (credential_headers cred h)
      ≡ text "Bearer " ++ trim_space cred.api_key
unfolding credential_headers canonical_key text_eq
credential_headers-authorization cred h e =
    id_other cred.id _
    ∙ set_other (text "X-Upstream-Name") [] cred.name _ refl
    ∙ set_other (text "X-Upstream-Provider") [] cred.service _ refl
    ∙ set_other (text "X-Upstream-Service") [] cred.service _ refl
    ∙ set_same cred.api_key (text "Bearer ") h e

user_headers-authorization :
    (user : Option User) (h : Header)
    → header_get authorization (user_headers user h) ≡ header_get authorization h
unfolding user_headers canonical_key text_eq
user_headers-authorization none h = refl
user_headers-authorization (some user) h =
    ground (arith, header_get-header_set (text "X-YAPI-User-ID") authorization user.id h)

upstream_headers-authorization :
    (info : UpstreamInfo) (h : Header)
    → is_blank info.credential.api_key ≡ false
    → header_get authorization (upstream_headers (some info) h)
      ≡ text "Bearer " ++ trim_space info.credential.api_key
unfolding upstream_headers
upstream_headers-authorization info h e = credential_headers-authorization info.credential h e

module _ (env : Env) (sj : Sjson) (c : Context) (rule : Rule) (req out : Outgoing) where
  applied :
      apply_rule_actions env sj c rule req ≡ (out, none)
      → user_headers c.user
          (upstream_headers c.upstream (rule_part env sj rule.actions req).0.headers)
        ≡ out.headers
  unfolding apply_rule_actions
  applied h = ground arith

  -- When the actions are applied without error, a request whose key is bound to a credential with a
  -- secret leaves with that secret as its bearer token, whatever the client and the rule put there.
  pub apply_rule_actions-authorization :
      (info : UpstreamInfo)
      → c.upstream ≡ some info
      → is_blank info.credential.api_key ≡ false
      → apply_rule_actions env sj c rule req ≡ (out, none)
      → header_get authorization out.headers ≡ text "Bearer " ++ trim_space info.credential.api_key
  apply_rule_actions-authorization info has full h =
      let inner = (rule_part env sj rule.actions req).0.headers in
      ap (header_get authorization) (sym (applied h))
      ∙ user_headers-authorization c.user _
      ∙ ap (λ o. header_get authorization (upstream_headers o inner)) has
      ∙ upstream_headers-authorization info inner full

  failed_part :
      (e : RewriteError)
      → apply_rule_actions env sj c rule req ≡ (out, some e)
      → rule_part env sj rule.actions req ≡ (out, some e)
  unfolding apply_rule_actions
  failed_part e h = ground arith

  abbrev prepared : Outgoing
  prepared =
      let a = rule.actions in
      record req {
        headers = rule_headers a req.headers;
        url = record (req.url) { path = rule_path env.regexp a.rewrite_path_regex req.url.path };
      }

  part-headers :
      (e : RewriteError)
      → rule_part env sj rule.actions req ≡ (out, some e)
      → out.headers ≡ rule_headers rule.actions req.headers
  unfolding rule_part
  part-headers e h =
      let a = rule.actions in
      ground (
        arith,
        rewrite_json_body-headers sj env.unicode a.override_json a.remove_json prepared out e,
      )

  -- If the body cannot be rewritten, the headers are those of the rule alone: no upstream credential
  -- and no user id is put in.
  pub apply_rule_actions-failed :
      (e : RewriteError)
      → apply_rule_actions env sj c rule req ≡ (out, some e)
      → out.headers ≡ rule_headers rule.actions req.headers
  apply_rule_actions-failed e h = part-headers e (failed_part e h)

  -- Under a rule that sets, adds and removes no header and sets no authorization, a request whose
  -- body cannot be rewritten leaves with the client's own `Authorization`, the gateway's key.
  pub apply_rule_actions-leaks :
      (e : RewriteError)
      → rule.actions.set_headers ≡ []
      → rule.actions.add_headers ≡ []
      → rule.actions.remove_headers ≡ []
      → is_blank rule.actions.set_authorization ≡ true
      → apply_rule_actions env sj c rule req ≡ (out, some e)
      → header_get authorization out.headers ≡ header_get authorization req.headers
  unfolding rule_headers set_all add_all del_all
  apply_rule_actions-leaks e sets adds dels auth h =
      ap (header_get authorization)
        (apply_rule_actions-failed e h ∙ ground (arith, sets, adds, dels, auth))

-- ===== src/Gateway/Pipeline/Secret.antt =====
-- With which secret a request leaves the director of internal/proxy/handler.go.
use yapi.Common.{◌≡◌, refl, none, some, [], ◌++◌, false, ◌∙◌, ap}
use yapi.Common.Text.{is_blank, trim_space, Text, text}
use yapi.Common.Http.{header_get}
use yapi.Rules.Model.{Rule}
use yapi.Middleware.Auth.{Context, UpstreamInfo}
use yapi.Middleware.RequestId.{with_request_id}
use yapi.Proxy.Actions.{apply_rule_actions, rule_part}
use yapi.Proxy.Actions.Credentials.{apply_rule_actions-authorization}
use yapi.Proxy.Match.{Url, Request, Outgoing, Env}
use yapi.Proxy.Body.{Sjson}
use yapi.Proxy.Handler.{Net, director, outgoing, with_error}

-- The rule edits no JSON, so its actions cannot fail.
abbrev pub EditsNothing : Rule → Type 0
EditsNothing rule = (rule.actions.override_json ≡ []) × (rule.actions.remove_json ≡ [])

module _ (env : Env) (sj : Sjson) (net : Net) (d : Url) where
  fails_not :
      (c : Context) (rule : Rule) (req : Outgoing)
      → EditsNothing rule
      → (apply_rule_actions env sj c rule req).1 ≡ none
  unfolding apply_rule_actions rule_part
  fails_not c rule req (sets, removes) = rw (sets, removes) refl

  applies :
      (c : Context) (rule : Rule) (req : Outgoing)
      → EditsNothing rule
      → (out : Outgoing) × (apply_rule_actions env sj c rule req ≡ (out, none))
  applies c rule req plain =
      let out = (apply_rule_actions env sj c rule req).0 in
      (out, ap (λ e. (out, e)) (fails_not c rule req plain))

  -- Under a rule that edits no JSON a request leaves with the secret of the credential in its context.
  pub director-authorization :
      (c : Context) (id : Text) (rule : Rule) (target : Url) (req : Request) (info : UpstreamInfo)
      → c.upstream ≡ some info
      → is_blank info.credential.api_key ≡ false
      → EditsNothing rule
      → header_get
          (text "Authorization")
          (director env sj net (some d) c id rule target req).headers
        ≡ text "Bearer " ++ trim_space info.credential.api_key
  unfolding director
  director-authorization c id rule target req info has full plain =
      let before = record (outgoing env sj net (some d) target req) {
        headers = with_request_id id req.headers;
      } in
      let (out, done) = applies c rule before plain in
      ap (λ r. header_get (text "Authorization") (with_error env sj net (some d) r).headers) done
      ∙ apply_rule_actions-authorization env sj c rule before out info has full done

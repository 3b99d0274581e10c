-- ===== src/Gateway/Pipeline/Forwards.antt =====
-- A request with a key that has a binding is forwarded, through the whole chain of
-- cmd/gateway/main.go.
use yapi.Common.{
  at_middle, ◌≡◌, refl, ◌⊎◌, ◌≢◌, inl, inr, true, Option, none, some, List, [], ◌++◌, All, Result,
  ok, err, is_nil, Bool-cases, false, subst, ◌∙◌, ap,
}
use yapi.Common.Text.{is_blank, trim_space, Text, text, text_eq, text_eq_iff, Unicode}
use yapi.Common.Http.{Header, header_get}
use yapi.Accounts.Resolve.{Queries}
use yapi.Rules.Model.{Rule}
use yapi.Rules.Store.{StoreError}
use yapi.Accounts.Keys.{Bcrypt}
use yapi.Accounts.Database.{AccountsDatabase, EndpointCodec}
use yapi.Accounts.Service.Tables.{Tables, Reads, Writes}
use yapi.Accounts.Service.Tables.Settle.{IsLinked, some_same}
use yapi.Accounts.Service.Tables.Run.{Reach}
use yapi.Middleware.Auth.{Codec, Context, UpstreamInfo, next, extract_api_key}
use yapi.Middleware.Cors.{cors}
use yapi.Middleware.RequestId.{request_id}
use yapi.Proxy.Match.{Url, Request, Outgoing, Env}
use yapi.Proxy.Match.First.{found}
use yapi.Proxy.Body.{Sjson}
use yapi.Proxy.Handler.{
  Net, RouteError, default_rule, first_endpoint, rule_target, match_rule, resolve_target, Response,
  forwarded, director, forward, authorize, handle,
}
use yapi.Proxy.Handler.Status.{Picks, listed, default, unrouted, match_rule-Picks, routed}
use yapi.Gateway.Live.{Answers, Bound, Admitted, Reach-Admitted}
use yapi.Gateway.Pipeline.{Reply, proxied, gate, serve}
use yapi.Gateway.Pipeline.Secret.{EditsNothing, director-authorization}

module _ (env : Env) (sj : Sjson) (net : Net) (d : Url) where
  -- The target of the rule is empty, which stands for the default one, or is a URL.
  abbrev pub IsRoutable : Rule → Type 0
  IsRoutable rule =
      (is_nil rule.actions.set_target_url ≡ true)
      ⊎ ((u : Url) × (net.parse_url rule.actions.set_target_url ≡ some u))

  resolves :
      (c : Context) (rule : Rule)
      → IsRoutable rule
      → (u : Url) × (resolve_target env net (some d) c rule ≡ ok u)
  unfolding resolve_target
  resolves c rule h = go (first_endpoint env net (some d) c.upstream)
    where
      by_rule :
          IsRoutable rule
          → (u : Url) × (rule_target env net (some d) rule.actions.set_target_url ≡ ok u)
      by_rule (inl empty) = (d, rw empty)
      by_rule (inr (u, parses)) = elim (Bool-cases (is_nil rule.actions.set_target_url)) [
        | inl empty ↦ (d, rw empty)
        | inr full ↦ (u, rw (full, parses))
      ]

      go :
          (o : Option Url)
          → (u : Url) × ((elim o [
            | some u ↦ ok u
            | none ↦ rule_target env net (some d) rule.actions.set_target_url
          ])
              ≡ ok u)
      go (some u) = (u, refl)
      go none = by_rule h

  picks-IsRoutable :
      (c : Context) (req : Request) (rules : List Rule) (rule : Rule)
      → All IsRoutable rules
      → IsRoutable (default_rule (net.url_string d))
      → Picks env sj net (some d) c req rules (ok rule)
      → IsRoutable rule
  picks-IsRoutable c req rules rule ok_rules ok_default (listed (found before after e _ _)) =
      at_middle IsRoutable before after (subst (All IsRoutable) e ok_rules)
  picks-IsRoutable c req rules rule ok_rules ok_default (default u e f) =
      subst (λ (u : Url). IsRoutable (default_rule (net.url_string u))) (some_same d u e) ok_default

  forwards :
      (c : Context) (id : Text) (req : Request) (rule : Rule) (target : Url)
      → resolve_target env net (some d) c rule ≡ ok target
      → forward env sj net (some d) c id req rule
        ≡ forwarded rule (director env sj net (some d) c id rule target req)
  unfolding forward
  forwards c id req rule target to = rw (to, forward)

  -- What the proxy answers to an authorized request.
  handles :
      {S : Type 0} (listing : S → S × Result StoreError (List Rule)) (c : Context) (id : Text)
      (req : Request) (s s' : S) (rules : List Rule)
      → authorize c ≡ none
      → listing s ≡ (s', ok rules)
      → All IsRoutable rules
      → IsRoutable (default_rule (net.url_string d))
      → (rule : Rule) × (target : Url) × Picks env sj net (some d) c req rules (ok rule)
        × (handle env sj net (some d) listing c id req s
            ≡ (s', forwarded rule (director env sj net (some d) c id rule target req)))
  handles listing c id req s s' rules free has ok_rules ok_default =
      go (match_rule env net (some d) c req (ok rules)) refl
        (match_rule-Picks env sj net (some d) c req rules)
    where
      go :
          (m : Result RouteError Rule)
          → match_rule env net (some d) c req (ok rules) ≡ m
          → Picks env sj net (some d) c req rules m
          → (rule : Rule) × (target : Url) × Picks env sj net (some d) c req rules (ok rule)
            × (handle env sj net (some d) listing c id req s
                ≡ (s', forwarded rule (director env sj net (some d) c id rule target req)))
      go (err e) m (unrouted gone _) = cc
      go (ok rule) m p =
          let (target, to) =
            resolves c rule (picks-IsRoutable c req rules rule ok_rules ok_default p) in
          (
            rule,
            target,
            p,
            routed env sj net (some d) listing c id req s s' rules free has rule m
                ∙ ap (λ x. (s', x)) (forwards c id req rule target to),
          )

proceeds :
    (allowed : List Text) (method : Text) (request response : Header)
    → method ≢ text "OPTIONS"
    → (cors allowed method request response).proceeds ≡ true
unfolding cors
proceeds allowed method request response other =
    elim (Bool-cases (text_eq method (text "OPTIONS"))) [
      | inl same ↦ absurd (other ((text_eq_iff method (text "OPTIONS")).0 same))
      | inr not_same ↦ rw not_same
    ]

module _ (env : Env) (sj : Sjson) (net : Net) (d : Url) (u : Unicode) (codec : Codec) (bc : Bcrypt)
    (allowed : List Text) where
  serve-handle :
      {S : Type 0} (listing : S → S × Result StoreError (List Rule)) (accounts : Option Queries)
      (uuid : Text) (req : Request) (s s' : S) (c : Context) (response : Response)
      → req.method ≢ text "OPTIONS"
      → gate env sj net (some d) u codec bc allowed accounts req.headers ≡ next c
      → handle env sj net (some d) listing c (request_id uuid req.headers []).0 req s
        ≡ (s', response)
      → (serve env sj net (some d) u codec bc allowed listing accounts uuid req s).1.reply
        ≡ proxied response
  unfolding serve
  serve-handle listing accounts uuid req s s' c response other goes_on handled = rw (
    proceeds allowed req.method req.headers (request_id uuid req.headers []).1 other,
    goes_on,
    handled,
  )

  -- The reply forwards the request, by the rule that is picked for the context `APIKeyAuth` made and
  -- as `Handle` answers in that context. The context holds a credential of the tables, and the
  -- request leaves with its secret if that is not blank and the rule edits no JSON.
  pub record Forwarded {R : Type 0} (listing : R → R × Result StoreError (List Rule)) (q : Queries)
      (t : Tables) (uuid : Text) (req : Request) (r r' : R) (rules : List Rule) (reply : Reply)
      : Type 0 where
    pub context : Context
    pub info : UpstreamInfo
    pub rule : Rule
    pub out : Outgoing
    pub goes_on : gate env sj net (some d) u codec bc allowed (some q) req.headers ≡ next context
    pub has : context.upstream ≡ some info
    pub stored : t.upstreams info.credential.id ≡ some info.credential
    pub picked : Picks env sj net (some d) context req rules (ok rule)
    pub handled :
        handle env sj net (some d) listing context (request_id uuid req.headers []).0 req r
        ≡ (r', forwarded rule out)
    pub carries :
        is_blank info.credential.api_key ≡ false
        → EditsNothing rule
        → header_get (text "Authorization") out.headers
          ≡ text "Bearer " ++ trim_space info.credential.api_key
    pub replied : reply ≡ proxied (forwarded rule out)

  module _ {S R : Type 0} (ec : EndpointCodec) (db : AccountsDatabase S) (rows : S → Tables)
      (reads : Reads db rows) (writes : Writes db rows)
      (listing : R → R × Result StoreError (List Rule)) where
    -- On a database that finds what is there, in a state that calls of the accounts' service have
    -- reached from linked tables, a request that is no preflight and sends a stored key which has a
    -- binding is forwarded by the gateway, by the first rule that applies to it in the context that
    -- `APIKeyAuth` made, or the one for the default target. That context holds a stored credential,
    -- and the request leaves with its secret as the bearer token if the secret is not blank and the
    -- rule edits no JSON. This is so if the rules can be listed, there is a
    -- default target, and the target of every rule, that one included, is empty or a URL.
    pub serve-Forwards :
        (s0 s : S) (uuid : Text) (req : Request) (r r' : R) (rules : List Rule)
        → IsLinked rows s0
        → Reach bc ec db s0 s
        → Answers db rows s
        → Bound bc (rows s) (extract_api_key u req.headers)
        → req.method ≢ text "OPTIONS"
        → listing r ≡ (r', ok rules)
        → All (IsRoutable env sj net d) rules
        → IsRoutable env sj net d (default_rule (net.url_string d))
        → Forwarded listing
            (db.queries s)
            (rows s)
            uuid
            req
            r
            r'
            rules
            (serve env sj net
              (some d)
              u
              codec
              bc
              allowed
              listing
              (some (db.queries s))
              uuid
              req
              r).1.reply
    serve-Forwards s0 s uuid req r r' rules linked reached answers sent other lists ok_rules
          ok_default =
        let gone : Admitted (rows s)
            (gate env sj net (some d) u codec bc allowed (some (db.queries s)) req.headers) =
          unfold gate in
          Reach-Admitted bc ec db rows reads u codec writes s0 s req.headers linked reached answers
            sent in
        let (rule, target, picked, handled) =
          handles env sj net d listing gone.context (request_id uuid req.headers []).0 req r r'
            rules gone.allowed lists ok_rules ok_default in
        record {
          context = gone.context;
          info = gone.info;
          goes_on = gone.goes_on;
          rule = rule;
          out =
              director env sj net (some d) gone.context (request_id uuid req.headers []).0 rule
                target req;
          has = gone.has;
          stored = gone.stored;
          picked = picked;
          handled = handled;
          carries =
              director-authorization env sj net d gone.context _ rule target req gone.info gone.has;
          replied =
              serve-handle listing (some (db.queries s)) uuid req r r' gone.context _ other
                gone.goes_on handled;
        }

-- ===== src/Gateway/Pipeline.antt =====
-- The chain of handlers that `main` of cmd/gateway/main.go puts in front of the proxy: a request that
-- no other route takes goes through `RequestID`, `CORS`, `APIKeyAuth` if there are accounts, and
-- `Handle`. `AccessLogger` and `Recovery` do not change what is answered.
pub mod Forwards
pub mod Secret
pub mod RequestIds
mod Tests
use yapi.Common.{Option, none, some, List, [], ◌∷◌, Result, if◌then◌else◌}
use yapi.Common.Text.{Text, Unicode}
use yapi.Common.Http.{Header}
use yapi.Rules.Model.{Rule}
use yapi.Rules.Store.{StoreError}
use yapi.Accounts.Keys.{Bcrypt}
use yapi.Accounts.Resolve.{Queries}
use yapi.Middleware.Auth.{Codec, Context, empty_context, Gate, next, unauthorized, api_key_auth}
use yapi.Middleware.Cors.{CorsReply, cors}
use yapi.Middleware.RequestId.{request_id}
use yapi.Proxy.Match.{Url, Request, Env}
use yapi.Proxy.Body.{Sjson}
use yapi.Proxy.Handler.{Net, Response, handle}
use yapi.Gateway.{accounts_authenticator}

-- How a request is answered: with 204 by `CORS`, with 401 by `APIKeyAuth`, or by the proxy.
pub data Reply : Type 0 where
  no_content : Reply
  rejected : Reply
  proxied : Response → Reply

-- The headers of the response, as the chain leaves them to the proxy, and the answer.
pub record Served : Type 0 where
  pub headers : Header
  pub reply : Reply

module _ (env : Env) (sj : Sjson) (net : Net) (default_target : Option Url) (u : Unicode)
    (codec : Codec) (bc : Bcrypt) (allowed : List Text) where
  -- `APIKeyAuth`, which is only put in the chain if there is a database for the accounts.
  unfoldable pub gate : Option Queries → Header → Gate
  gate none h = next empty_context
  gate (some q) h = api_key_auth u codec (accounts_authenticator bc q) h

  abbrev pub after_gate :
      {S : Type 0} → (S → S × Result StoreError (List Rule)) → Text → Request → S → Gate → S × Reply
  after_gate listing id req s unauthorized = (s, rejected)
  after_gate listing id req s (next c) =
      let (s', response) = handle env sj net default_target listing c id req s in
      (s', proxied response)

  -- The request on its way through the chain; `uuid` is the id it gets if it brings none, and
  -- `listing` is `ListRules` of the rules' service, whose state is `S`.
  unfoldable pub serve :
      {S : Type 0}
      → (S → S × Result StoreError (List Rule))
      → Option Queries
      → Text
      → Request
      → S
      → S × Served
  serve listing accounts uuid req s =
      let (id, named) = request_id uuid req.headers [] in
      let passed = cors allowed req.method req.headers named in
      if passed.proceeds
      then (let (s', reply) = after_gate listing id req s (gate accounts req.headers) in
          (s', record { headers = passed.headers; reply = reply }))
      else (s, record { headers = passed.headers; reply = no_content })

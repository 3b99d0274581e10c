-- ===== src/Gateway.antt =====
-- The gateway put together as in cmd/gateway/main.go: the accounts' service behind the middleware,
-- and the proxy behind that.
pub mod Created
pub mod Live
pub mod Pipeline
pub mod Seed
mod Tests
use yapi.Common.{◌≡◌, Option, none, some, List, Result, ok}
use yapi.Common.Text.{Text, Unicode}
use yapi.Common.Http.{Header}
use yapi.Rules.Model.{Rule}
use yapi.Rules.Store.{StoreError}
use yapi.Accounts.Model.{ApiKey, UserKeyBinding}
use yapi.Accounts.Keys.{Bcrypt}
use yapi.Accounts.Resolve.{Queries, resolve_api_key, resolve_binding_by_raw_key, get_user}
use yapi.Accounts.Resolve.Laws.{IsKeyOf, resolve_binding_by_raw_key-IsKeyOf}
use yapi.Middleware.Auth.{
  Codec, Authenticator, Context, UpstreamInfo, next, api_key_auth, extract_api_key,
}
use yapi.Proxy.Match.{Url, Request, Outgoing, Env}
use yapi.Proxy.Body.{Sjson}
use yapi.Proxy.Handler.{Net, forwarded, handle}
use yapi.Proxy.Handler.Ownership.{IsOwned, forwarded-IsOwned}

-- The accounts' service as the authenticator of `APIKeyAuth`, on the tables as they stand.
abbrev pub accounts_authenticator : Bcrypt → Queries → Authenticator
accounts_authenticator bc q = record {
  resolve_binding_by_raw_key = resolve_binding_by_raw_key bc q;
  resolve_api_key = resolve_api_key bc q;
  get_user = get_user bc q;
}

-- The key and the binding that a request has used: the key is stored and `raw` fits its hash, the
-- binding is the key's first one and names the credential, and they are owned.
pub record HasUsed (bc : Bcrypt) (q : Queries) (raw : Text) (c : Context) (info : UpstreamInfo)
    : Type 0 where
  pub key : ApiKey
  pub binding : UserKeyBinding
  pub is_key : IsKeyOf bc q raw key
  pub first : q.first_binding_of_key key.id ≡ ok binding
  pub named : q.upstream_by_id binding.upstream_key_id ≡ ok info.credential
  pub owned : IsOwned c.user binding info.credential

module _ (env : Env) (sj : Sjson) (net : Net) (default_target : Option Url) (bc : Bcrypt)
    (q : Queries) where
  -- A request that the gateway forwards with an upstream credential in its context has sent a stored
  -- API key, whose hash fits what was sent; the credential is the stored one that the key's first
  -- binding names; and the binding and the credential belong to one user, who is the user of the
  -- request if one with an id is known.
  pub forwarded-HasUsed :
      {S : Type 0} (u : Unicode) (codec : Codec) (h : Header)
      (listing : S → S × Result StoreError (List Rule)) (c : Context) (request_id : Text)
      (req : Request) (s s' : S) (rule : Rule) (out : Outgoing) (info : UpstreamInfo)
      → api_key_auth u codec (accounts_authenticator bc q) h ≡ next c
      → handle env sj net default_target listing c request_id req s ≡ (s', forwarded rule out)
      → c.upstream ≡ some info
      → HasUsed bc q (extract_api_key u h) c info
  forwarded-HasUsed u codec h listing c request_id req s s' rule out info gate sent has =
      let (b, resolved, owned) =
        forwarded-IsOwned env sj net default_target u codec (accounts_authenticator bc q) h listing
          c request_id req s s' rule out info gate sent has in
      let (key, is_key, first, named) =
        resolve_binding_by_raw_key-IsKeyOf bc q (extract_api_key u h) b info.credential resolved in
      record {
        key = key;
        binding = b;
        is_key = is_key;
        first = first;
        named = named;
        owned = owned;
      }

-- ===== src/Proxy/Handler/Ownership.antt =====
-- Whose upstream credential a request may use: `authorizeBinding` of internal/proxy/handler.go
-- behind `APIKeyAuth` of internal/middleware/auth.go.
use yapi.Common.{
  ◌≡◌, refl, ◌≢◌, ◌↔◌, ◌⊎◌, true, false, Option, none, some, List, [], ◌∷◌, Result, ok, is_nil,
  arith, subst,
}
use yapi.Common.Text.{Text, text_eq_iff, Unicode}
use yapi.Common.Http.{Header}
use yapi.Rules.Model.{Rule}
use yapi.Rules.Store.{StoreError}
use yapi.Accounts.Model.{User, UpstreamKey, UserKeyBinding}
use yapi.Middleware.Auth.{
  Codec, Authenticator, Context, UpstreamInfo, next, api_key_auth, extract_api_key,
}
use yapi.Middleware.Auth.Resolve.{
  Resolves, anonymous, bound, unbound, api_key_auth-Outcome, Outcome,
}
use yapi.Proxy.Match.{Url, Request, Outgoing, Env}
use yapi.Proxy.Body.{Sjson}
use yapi.Proxy.Handler.{Net, is_stranger, authorize_binding, authorize, forwarded, handle}

-- The binding is to this credential, its user owns the credential, and the user of the request, if
-- one with an id is known, is that user.
pub record IsOwned (user : Option User) (b : UserKeyBinding) (cred : UpstreamKey) : Type 0 where
  pub named : cred.id ≢ []
  pub linked : b.upstream_key_id ≡ cred.id
  pub owned : cred.user_id ≡ b.user_id
  pub acted : (u : User) → user ≡ some u → (u.id ≡ []) ⊎ (u.id ≡ b.user_id)

nil_iff : (s : Text) → (is_nil s ≡ true) ↔ (s ≡ [])
nil_iff [] = (λ _. refl, λ _. refl)
nil_iff (c ∷ s) = ((λ h. cc), (λ h. cc))

stranger_iff :
    (user : Option User) (b : UserKeyBinding)
    → (is_stranger user b ≡ false) ↔ ((u : User) → user ≡ some u → (u.id ≡ []) ⊎ (u.id ≡ b.user_id))
stranger_iff none b = ((λ _ u e. cc), (λ _. refl))
stranger_iff (some user) b =
    let n = nil_iff user.id in
    let t = text_eq_iff user.id b.user_id in
    (
      (λ h u e. ground (arith, nil_iff u.id, text_eq_iff u.id b.user_id)),
      (λ h. ground (arith, h user refl)),
    )

-- `authorizeBinding` returns nil exactly for a binding that is owned.
pub authorize_binding_iff :
    (c : Context) (b : UserKeyBinding) (info : UpstreamInfo)
    → (authorize_binding c b info ≡ none) ↔ IsOwned c.user b info.credential
unfolding authorize_binding
authorize_binding_iff c b info =
    let n = nil_iff info.credential.id in
    let l = text_eq_iff b.upstream_key_id info.credential.id in
    let o = text_eq_iff info.credential.user_id b.user_id in
    let (to, from) = stranger_iff c.user b in
    (
      (λ h. record {
        named = ground arith;
        linked = ground arith;
        owned = ground arith;
        acted = to (ground arith);
      }),
      (λ w. ground (arith, from w.acted, w.named, w.linked, w.owned)),
    )

module _ (env : Env) (sj : Sjson) (net : Net) (default_target : Option Url) where
  authorized :
      {S : Type 0} (listing : S → S × Result StoreError (List Rule)) (c : Context)
      (request_id : Text) (req : Request) (s s' : S) (rule : Rule) (out : Outgoing)
      → handle env sj net default_target listing c request_id req s ≡ (s', forwarded rule out)
      → authorize c ≡ none
  unfolding handle
  authorized listing c request_id req s s' rule out h = ground arith

  authorize-IsOwned :
      (c : Context) (b : UserKeyBinding) (info : UpstreamInfo)
      → c.binding ≡ some b
      → c.upstream ≡ some info
      → authorize c ≡ none
      → IsOwned c.user b info.credential
  unfolding authorize
  authorize-IsOwned c b info eb ei h = (authorize_binding_iff c b info).0 (ground arith)

  -- A request that `APIKeyAuth` lets through and `Handle` forwards with an upstream credential in its
  -- context has sent a key that resolves to a binding with that credential, and the binding is owned:
  -- it names the credential, and both belong to one user, who is the user of the request if one with
  -- an id is known.
  pub forwarded-IsOwned :
      {S : Type 0} (u : Unicode) (codec : Codec) (auth : Authenticator) (h : Header)
      (listing : S → S × Result StoreError (List Rule)) (c : Context) (request_id : Text)
      (req : Request) (s s' : S) (rule : Rule) (out : Outgoing) (info : UpstreamInfo)
      → api_key_auth u codec auth h ≡ next c
      → handle env sj net default_target listing c request_id req s ≡ (s', forwarded rule out)
      → c.upstream ≡ some info
      → (b : UserKeyBinding) × (auth.resolve_binding_by_raw_key (extract_api_key u h)
          ≡ ok (b, info.credential))
        × IsOwned c.user b info.credential
  forwarded-IsOwned u codec auth h listing c request_id req s s' rule out info gate sent has =
      let r : Resolves u codec auth (extract_api_key u h) c =
        subst (Outcome u codec auth (extract_api_key u h)) gate
          (api_key_auth-Outcome u codec auth h) in
      let free = authorized listing c request_id req s s' rule out sent in from_context c r free has
    where
      from_context :
          (c : Context)
          → Resolves u codec auth (extract_api_key u h) c
          → authorize c ≡ none
          → c.upstream ≡ some info
          → (b : UserKeyBinding) × (auth.resolve_binding_by_raw_key (extract_api_key u h)
              ≡ ok (b, info.credential))
            × IsOwned c.user b info.credential
      from_context c (anonymous e) free has = cc
      from_context c (unbound full x e f) free has = cc
      from_context c (bound {b} {up} full found) free has =
          let same : up ≡ info.credential = cc in
          (b, rw (← same) found, authorize-IsOwned _ b info refl has free)

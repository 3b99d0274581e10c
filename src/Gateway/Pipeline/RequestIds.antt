-- ===== src/Gateway/Pipeline/RequestIds.antt =====
-- The id of a request in the answer to it, through the chain of cmd/gateway/main.go.
use yapi.Common.{
  ◌≡◌, ◌≢◌, refl, inl, inr, false, Option, List, [], ◌∷◌, Result, arith, is_nil, Bool-cases,
  if◌then◌else◌, ◌∙◌, ap, sym, subst, not, any, ◌&&◌, ◌||◌,
}
use yapi.Common.Text.{Text, text, text_eq, Unicode}
use yapi.Common.Http.{Header, header_get, header_set, canonical_key}
use yapi.Common.Http.Laws.{same_header, header_get-header_set}
use yapi.Rules.Model.{Rule}
use yapi.Rules.Store.{StoreError}
use yapi.Accounts.Keys.{Bcrypt}
use yapi.Accounts.Resolve.{Queries}
use yapi.Middleware.Auth.{Codec}
use yapi.Middleware.Cors.{cors}
use yapi.Middleware.RequestId.{request_id}
use yapi.Proxy.Match.{Url, Request, Env}
use yapi.Proxy.Body.{Sjson}
use yapi.Proxy.Handler.{Net}
use yapi.Gateway.Pipeline.{serve}

abbrev id_header : Text
id_header = text "X-Request-ID"

other :
    (k v : Text) (h : Header)
    → same_header k id_header ≡ false
    → header_get id_header (header_set k v h) ≡ header_get id_header h
other k v h e = ground (arith, header_get-header_set k id_header v h)

cors-id :
    (allowed : List Text) (method : Text) (request response : Header)
    → header_get id_header (cors allowed method request response).headers
      ≡ header_get id_header response
unfolding cors canonical_key text_eq
cors-id allowed method request response =
    elim (Bool-cases (
      not (is_nil (header_get (text "Origin") request))
      && (is_nil allowed || any (λ o. text_eq o (header_get (text "Origin") request)) allowed))) [
        | inl e ↦ rw e (
            other (text "Access-Control-Allow-Methods") _ _ refl
            ∙ other (text "Access-Control-Allow-Headers") _ _ refl
            ∙ other (text "Access-Control-Allow-Credentials") _ _ refl
            ∙ other (text "Access-Control-Allow-Origin") _ response refl)
        | inr e ↦ rw e
      ]

-- The id of a request: the one it has brought, or a new one if that is missing or empty.
pub record IdOf (uuid sent id : Text) : Type 0 where
  pub brought : sent ≢ [] → id ≡ sent
  pub new : sent ≡ [] → id ≡ uuid
  pub filled : uuid ≢ [] → id ≢ []

chosen : (uuid sent : Text) → IdOf uuid sent (if is_nil sent then uuid else sent)
chosen uuid [] = record {
  brought = λ full. absurd (full refl);
  new = λ _. refl;
  filled = λ full. full;
}
chosen uuid (c ∷ sent) = record { brought = λ _. refl; new = λ empty. cc; filled = λ _ empty. cc }

request_id-header :
    (uuid : Text) (request response : Header)
    → header_get id_header (request_id uuid request response).1
      ≡ (request_id uuid request response).0
unfolding request_id canonical_key text_eq
request_id-header uuid request response = header_get-header_set id_header id_header _ response

module _ (env : Env) (sj : Sjson) (net : Net) (default_target : Option Url) (u : Unicode)
    (codec : Codec) (bc : Bcrypt) (allowed : List Text) where
  serve-headers :
      {S : Type 0} (listing : S → S × Result StoreError (List Rule)) (accounts : Option Queries)
      (uuid : Text) (req : Request) (s : S)
      → (serve env sj net default_target u codec bc allowed listing accounts uuid req s).1.headers
        ≡ (cors allowed req.method req.headers (request_id uuid req.headers []).1).headers
  unfolding serve
  serve-headers listing accounts uuid req s =
      elim (Bool-cases
        (cors allowed req.method req.headers (request_id uuid req.headers []).1).proceeds) [
          | inl e ↦ rw e
          | inr e ↦ rw e
        ]

  -- Whatever the gateway answers to a request, also with 204 or 401, the headers name an id for it:
  -- the one that the request has brought, or else the new one; so it is not empty if that is not.
  pub serve-Named :
      {S : Type 0} (listing : S → S × Result StoreError (List Rule)) (accounts : Option Queries)
      (uuid : Text) (req : Request) (s : S)
      → let served =
          serve env sj net default_target u codec bc allowed listing accounts uuid req s in
        IdOf uuid
          (header_get (text "X-Request-ID") req.headers)
          (header_get (text "X-Request-ID") served.1.headers)
  serve-Named listing accounts uuid req s =
      let named =
        ap (header_get id_header) (serve-headers listing accounts uuid req s)
        ∙ cors-id allowed req.method req.headers (request_id uuid req.headers []).1
        ∙ request_id-header uuid req.headers [] in
      subst (IdOf uuid (header_get id_header req.headers)) (sym named)
        (unfold request_id in chosen uuid (header_get id_header req.headers))

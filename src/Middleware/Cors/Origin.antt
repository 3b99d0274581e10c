-- ===== src/Middleware/Cors/Origin.antt =====
-- Which origins `CORS` of internal/middleware/cors.go lets read an answer.
use yapi.Common.{
  ◌≡◌, ◌≢◌, ◌↔◌, refl, ◌⊎◌, inl, inr, Bool, true, false, ◌&&◌, ◌||◌, not, List, [], ◌∷◌, is_nil,
  any, any_iff, Any, In, arith, Bool-cases, ◌∙◌,
}
use yapi.Common.Text.{Text, text, text_eq, text_eq_iff}
use yapi.Common.Http.{Header, header_get, header_set, canonical_key}
use yapi.Common.Http.Laws.{same_header, header_get-header_set}
use yapi.Middleware.Cors.{CorsReply, cors}

abbrev pub allow_origin : Text
allow_origin = text "Access-Control-Allow-Origin"

-- Setting another header leaves this one.
other :
    (k v : Text) (h : Header)
    → same_header k allow_origin ≡ false
    → header_get allow_origin (header_set k v h) ≡ header_get allow_origin h
other k v h e = ground (arith, header_get-header_set k allow_origin v h)

this : (v : Text) (h : Header) → header_get allow_origin (header_set allow_origin v h) ≡ v
unfolding canonical_key text_eq
this v h = header_get-header_set allow_origin allow_origin v h

nil_iff : (s : Text) → (is_nil s ≡ true) ↔ (s ≡ [])
nil_iff [] = (λ _. refl, λ _. refl)
nil_iff (c ∷ s) = ((λ h. cc), (λ h. cc))

nil_list_iff : (xs : List Text) → (is_nil xs ≡ true) ↔ (xs ≡ [])
nil_list_iff [] = (λ _. refl, λ _. refl)
nil_list_iff (c ∷ s) = ((λ h. cc), (λ h. cc))

Any-map {ℓ} :
    {P Q : Text → Type ℓ} → ((x : Text) → P x → Q x) → {xs : List Text} → Any P xs → Any Q xs
Any-map f (Any.here {x} p) = Any.here (f x p)
Any-map f (Any.there a) = Any.there (Any-map f a)

In-iff : (origin : Text) (xs : List Text) → (any (λ o. text_eq o origin) xs ≡ true) ↔ In origin xs
In-iff origin xs =
    let (to, from) = any_iff (λ o. text_eq o origin) xs in
    (
      (λ h. Any-map (λ x. (text_eq_iff x origin).0) (to h)),
      (λ h. from (Any-map (λ x. (text_eq_iff x origin).1) h)),
    )

-- The origin is not empty, and it is listed, or nothing is.
abbrev pub IsAllowed : List Text → Text → Type 0
IsAllowed allowed origin = (origin ≢ []) × ((allowed ≡ []) ⊎ In origin allowed)

module _ (allowed : List Text) (method : Text) (request response : Header) where
  abbrev pub reply : CorsReply
  reply = cors allowed method request response

  abbrev pub origin : Text
  origin = header_get (text "Origin") request

  abbrev passes : Bool
  passes = not (is_nil origin) && (is_nil allowed || any (λ o. text_eq o origin) allowed)

  cors-passes : passes ≡ true → header_get allow_origin reply.headers ≡ origin
  unfolding cors canonical_key text_eq
  cors-passes e = rw e (
      other (text "Access-Control-Allow-Methods") _ _ refl
      ∙ other (text "Access-Control-Allow-Headers") _ _ refl
      ∙ other (text "Access-Control-Allow-Credentials") _ _ refl
      ∙ this origin response)

  cors-blocks : passes ≡ false → reply.headers ≡ response
  unfolding cors
  cors-blocks e = rw e

  passes_iff : (passes ≡ true) ↔ IsAllowed allowed origin
  passes_iff =
      let n = nil_iff origin in
      let l = nil_list_iff allowed in let m = In-iff origin allowed in ground arith

  -- An answer names the request's origin as one that may read it if the origin is listed, or any is
  -- when none is listed; otherwise its headers are left as they are. In both cases the request goes
  -- on unless it is a preflight.
  pub cors-IsAllowed :
      ((IsAllowed allowed origin × (header_get allow_origin reply.headers ≡ origin))
        ⊎ ((¬ IsAllowed allowed origin) × (reply.headers ≡ response)))
      × ((reply.proceeds ≡ false) ↔ (method ≡ text "OPTIONS"))
  cors-IsAllowed = (
    elim (Bool-cases passes) [
      | inl e ↦ inl (passes_iff.0 e, cors-passes e)
      | inr e ↦ inr ((λ h. cc (passes_iff.1 h)), cors-blocks e)
    ],
    unfold cors in ground (arith, text_eq_iff method (text "OPTIONS")),
  )

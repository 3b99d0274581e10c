-- ===== src/Proxy/Handler/Status.antt =====
-- By which rule a request is forwarded, and when it is answered with 404 or 403;
-- internal/proxy/handler.go.
use yapi.Common.{
  ◌≡◌, refl, ◌≢◌, ◌↔◌, Option, none, some, List, [], ◌∷◌, ◌++◌, All, Result, ok, err, arith, ap,
  sym, subst, ◌∙◌,
}
use yapi.Common.Text.{Text}
use yapi.Rules.Model.{Rule}
use yapi.Rules.Store.{StoreError}
use yapi.Middleware.Auth.{Context}
use yapi.Proxy.Match.{Url, Request, Outgoing, Env, first_match}
use yapi.Proxy.Match.First.{Applies, Finds, nothing, found, first_match-Finds}
use yapi.Proxy.Body.{Sjson}
use yapi.Proxy.Handler.{
  Net, authorize, default_rule, RouteError, no_matching_rule, match_rule, pick, Response, not_found,
  forwarded, forward, handle,
}

module _ (env : Env) (sj : Sjson) (net : Net) (default_target : Option Url) where
  -- The rule that `matchRule` returns is the first one that applies; or none does, and it is the one
  -- for the default target.
  pub data Picks (c : Context) (req : Request) (rules : List Rule)
      : Result RouteError Rule → Type 0 where
    listed : {r : Rule} → Finds env c req rules (some r) → Picks c req rules (ok r)
    default :
        (u : Url)
        → default_target ≡ some u
        → Finds env c req rules none
        → Picks c req rules (ok (default_rule (net.url_string u)))
    unrouted :
        default_target ≡ none
        → Finds env c req rules none
        → Picks c req rules (err no_matching_rule)

  pub match_rule-Picks :
      (c : Context) (req : Request) (rules : List Rule)
      → Picks c req rules (match_rule env net default_target c req (ok rules))
  unfolding match_rule
  match_rule-Picks c req rules =
      go (first_match env c req rules) (first_match-Finds env c req rules)
    where
      by_default :
          (d : Option Url)
          → default_target ≡ d
          → Finds env c req rules none
          → Picks c req rules (elim d [
            | some u ↦ ok (default_rule (net.url_string u))
            | none ↦ err no_matching_rule
          ])
      by_default (some u) e f = default u e f
      by_default none e f = unrouted e f

      go :
          (o : Option Rule)
          → Finds env c req rules o
          → Picks c req rules (pick env net default_target o)
      go (some r) f = listed f
      go none f = by_default default_target refl f

  forward-found :
      (c : Context) (request_id : Text) (req : Request) (rule : Rule)
      → forward env sj net default_target c request_id req rule ≢ not_found
  unfolding forward
  forward-found c request_id req rule h = ground arith

  forward-rule :
      (c : Context) (request_id : Text) (req : Request) (rule rule' : Rule) (out : Outgoing)
      → forward env sj net default_target c request_id req rule ≡ forwarded rule' out
      → rule ≡ rule'
  unfolding forward
  forward-rule c request_id req rule rule' out h = ground arith

  not_found-forwarded : (rule : Rule) (out : Outgoing) → not_found ≢ forwarded rule out
  not_found-forwarded rule out h = ground arith

  module _ {S : Type 0} (listing : S → S × Result StoreError (List Rule)) (c : Context)
      (request_id : Text) (req : Request) (s s' : S) (rules : List Rule) (free : authorize c ≡ none)
      (has : listing s ≡ (s', ok rules)) where
    abbrev reply : S × Response
    reply = handle env sj net default_target listing c request_id req s

    pub routed :
        (rule : Rule)
        → match_rule env net default_target c req (ok rules) ≡ ok rule
        → reply ≡ (s', forward env sj net default_target c request_id req rule)
    unfolding handle
    routed rule e = ground (arith, e)

    not_routed :
        match_rule env net default_target c req (ok rules) ≡ err no_matching_rule
        → reply ≡ (s', not_found)
    unfolding handle
    not_routed e = ground (arith, e)

    none-Applies : Finds env c req rules none → All (λ r. ¬ Applies env c req r) rules
    none-Applies (nothing a) = a

    no_one-Applies :
        (r : Rule) (before after : List Rule)
        → All (λ x. ¬ Applies env c req x) (before ++ r ∷ after)
        → ¬ Applies env c req r
    no_one-Applies r [] after (h, a) = h
    no_one-Applies r (x ∷ before) after (h, a) = no_one-Applies r before after a

    some-Applies :
        (r : Rule) → Finds env c req rules (some r) → ¬ All (λ x. ¬ Applies env c req x) rules
    some-Applies r (found before after e a p) all_not =
        no_one-Applies r before after (subst (All (λ x. ¬ Applies env c req x)) e all_not) p

    -- A request whose binding is in order, if it has one, is answered with 404 exactly if no rule of
    -- the listing applies to it and there is no default target.
    pub handle-not_found_iff :
        (reply.1 ≡ not_found) ↔ (All (λ r. ¬ Applies env c req r) rules × (default_target ≡ none))
    handle-not_found_iff =
        go (match_rule env net default_target c req (ok rules)) refl (match_rule-Picks c req rules)
      where
        go :
            (m : Result RouteError Rule)
            → match_rule env net default_target c req (ok rules) ≡ m
            → Picks c req rules m
            → (reply.1 ≡ not_found)
              ↔ (All (λ r. ¬ Applies env c req r) rules × (default_target ≡ none))
        go m e (listed {r} f) = (
          (λ h. absurd (forward-found c request_id req r (sym (ap (λ t. t.1) (routed r e)) ∙ h))),
          (λ (a, d). absurd (some-Applies r f a)),
        )
        go m e (default u d f) = (
          (λ h. absurd (forward-found c request_id req _ (sym (ap (λ t. t.1) (routed _ e)) ∙ h))),
          (λ (a, d'). cc),
        )
        go m e (unrouted d f) = ((λ h. (none-Applies f, d)), (λ h. ap (λ t. t.1) (not_routed e)))

    -- A request whose binding is in order, if it has one, and that is forwarded goes by the first
    -- rule of the listing that applies to it, or, if none does, by the rule for the default target.
    pub handle-Picks :
        (rule : Rule) (out : Outgoing) → reply.1 ≡ forwarded rule out → Picks c req rules (ok rule)
    handle-Picks rule out h =
        go (match_rule env net default_target c req (ok rules)) refl (match_rule-Picks c req rules)
      where
        same : (r : Rule) → match_rule env net default_target c req (ok rules) ≡ ok r → r ≡ rule
        same r e = forward-rule c request_id req r rule out (sym (ap (λ t. t.1) (routed r e)) ∙ h)

        go :
            (m : Result RouteError Rule)
            → match_rule env net default_target c req (ok rules) ≡ m
            → Picks c req rules m
            → Picks c req rules (ok rule)
        go (ok r) e p = subst (λ x. Picks c req rules (ok x)) (same r e) p
        go (err _) e (unrouted d f) =
            absurd (not_found-forwarded rule out (sym (ap (λ t. t.1) (not_routed e)) ∙ h))

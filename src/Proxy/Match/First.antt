-- ===== src/Proxy/Match/First.antt =====
-- Which rule `matchRule` of internal/proxy/handler.go picks from the listing of the store.
use yapi.Common.{
  at_middle, In, ◌≡◌, refl, ◌⊎◌, inl, inr, true, false, Option, none, some, List, [], ◌∷◌, ◌++◌,
  All, ap, sym, subst, arith, Bool-cases,
}
use yapi.Common.Int.{◌≤ℤ◌}
use yapi.Common.Dict.{Dict}
use yapi.Rules.Model.{Rule}
use yapi.Rules.Store.{values, list}
use yapi.Rules.Store.Order.{list-In, list-All, IsByPriority, list-sorted}
use yapi.Middleware.Auth.{Context}
use yapi.Proxy.Match.{Request, Env, matches_request, first_match}
use yapi.Proxy.Match.Spec.{Satisfies, matches_request_iff}

module _ (env : Env) (c : Context) (req : Request) where
  -- The rule is switched on, and its matcher accepts the request.
  abbrev pub Applies : Rule → Type 0
  Applies r = (r.enabled ≡ true) × Satisfies env c req r.matcher

  -- What was found: nothing, and no rule applies; or a rule that applies, before which none does
  -- and behind which stand `after`.
  pub data Finds : List Rule → Option Rule → Type 0 where
    nothing : {rs : List Rule} → All (λ r. ¬ Applies r) rs → Finds rs none
    found :
        {rs : List Rule} {r : Rule} (before after : List Rule)
        → rs ≡ before ++ r ∷ after
        → All (λ x. ¬ Applies x) before
        → Applies r
        → Finds rs (some r)

  Finds-skip :
      {rs : List Rule} {o : Option Rule} (x : Rule) → ¬ Applies x → Finds rs o → Finds (x ∷ rs) o
  Finds-skip x h (nothing a) = nothing (h, a)
  Finds-skip x h (found before after e a p) = found (x ∷ before) after (ap (λ t. x ∷ t) e) (h, a) p

  first_match-here :
      (r : Rule) (rs : List Rule)
      → r.enabled ≡ true
      → matches_request env c req r.matcher ≡ true
      → first_match env c req (r ∷ rs) ≡ some r
  unfolding first_match
  first_match-here r rs on hit = ground arith

  first_match-skip :
      (r : Rule) (rs : List Rule)
      → (r.enabled ≡ false) ⊎ (matches_request env c req r.matcher ≡ false)
      → first_match env c req (r ∷ rs) ≡ first_match env c req rs
  unfolding first_match
  first_match-skip r rs h = ground arith

  -- The loop returns the first rule of the list that is enabled and whose matcher is satisfied, and
  -- nothing exactly if there is none.
  pub first_match-Finds : (rs : List Rule) → Finds rs (first_match env c req rs)
  first_match-Finds [] = unfold first_match in nothing tt
  first_match-Finds (r ∷ rs) =
      let rest = first_match-Finds rs in
      let (to, from) = matches_request_iff env c req r.matcher in
      elim (Bool-cases r.enabled) [
        | inr off ↦
            subst (Finds (r ∷ rs)) (sym (first_match-skip r rs (inl off)))
              (Finds-skip r (λ h. cc (h.0)) rest)
        | inl on ↦ elim (Bool-cases (matches_request env c req r.matcher)) [
          | inl hit ↦
              subst (Finds (r ∷ rs)) (sym (first_match-here r rs on hit))
                (found [] rs refl tt (on, to hit))
          | inr missed ↦
              subst (Finds (r ∷ rs)) (sym (first_match-skip r rs (inr missed)))
                (Finds-skip r (λ h. cc (from h.1)) rest)
        ]
      ]

  after_first :
      (r : Rule) (after : List Rule)
      → All (λ s. s.priority ≤ℤ r.priority) after
      → All (λ x. Applies x → x.priority ≤ℤ r.priority) after
  after_first r [] h = tt
  after_first r (x ∷ after) (p, h) = ((λ _. p), after_first r after h)

  first_leads :
      (r : Rule) (before after : List Rule)
      → IsByPriority (before ++ r ∷ after)
      → All (λ x. ¬ Applies x) before
      → All (λ x. Applies x → x.priority ≤ℤ r.priority) (before ++ r ∷ after)
  first_leads r [] after (p, h) a = ((λ _. omega arith), after_first r after p)
  first_leads r (x ∷ before) after (p, h) (n, a) =
      ((λ applies. absurd (n applies)), first_leads r before after h a)

  Finds-priority :
      (rs : List Rule) (r : Rule)
      → IsByPriority rs
      → Finds rs (some r)
      → Applies r × All (λ x. Applies x → x.priority ≤ℤ r.priority) rs
  Finds-priority rs r sorted (found before after e a p) = (
    p,
    subst (All (λ x. Applies x → x.priority ≤ℤ r.priority)) (sym e)
        (first_leads r before after (subst IsByPriority e sorted) a),
  )

  Finds-holds {ℓ} :
      (P : Rule → Type ℓ) {rs : List Rule} {r : Rule} → All P rs → Finds rs (some r) → P r
  Finds-holds P h (found before after e _ _) = at_middle P before after (subst (All P) e h)

  -- The rule that a request gets from the listing of the store in memory is a stored one and applies
  -- to it, and no stored rule that applies has a higher priority.
  pub first_match-priority :
      (rules : Dict Rule) (r : Rule)
      → first_match env c req (list rules) ≡ some r
      → In r (values rules)
        × Applies r
        × All (λ x. Applies x → x.priority ≤ℤ r.priority) (values rules)
  first_match-priority rules r e =
      let finds = subst (Finds (list rules)) e (first_match-Finds (list rules)) in
      let (applies, leads) = Finds-priority (list rules) r (list-sorted rules).0 finds in
      (
        Finds-holds (λ x. In x (values rules)) (list-In rules) finds,
        applies,
        list-All _ rules leads,
      )

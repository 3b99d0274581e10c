-- ===== src/Gateway/Seed/Once.antt =====
-- What `seedDefaultRule` of cmd/gateway/main.go leaves in the service of the rules.
use yapi.Common.{
  ◌≡◌, ◌≢◌, refl, subst, ◌⊎◌, inl, inr, Option, none, ok, err, arith, sym, ap, ◌∙◌, Option-cases,
  if◌then◌else◌,
}
use yapi.Common.Text.{Text, text_eq, text_eq_iff, text_eq_refl, trim_space, is_space, has_prefix}
use yapi.Common.Dict.{Dict, lookup}
use yapi.Rules.Model.{Rule, Regexp, validate, validate_matcher, check_each, validate_actions}
use yapi.Rules.Store.{StoreError, rule_not_found, get, save, memory_store}
use yapi.Rules.Store.Laws.{save-get}
use yapi.Rules.Service
use yapi.Rules.Service.{Cache}
use yapi.Rules.Service.Refine.{IsCoherent, Serves, upsert_rule_lem}
use yapi.Admin.Service.{RulesService}
use yapi.Gateway.Seed.{seeded_rule, seed_default_rule}

-- The service of pkg/rules/service.go as the interface that it implements.
abbrev pub rules_service :
    {C : Type 0} → Regexp → Cache C → RulesService (Service.Service (Dict Rule) C)
rules_service re ca = record {
  list_rules = Service.list_rules (memory_store re) ca;
  get_rule = Service.get_rule (memory_store re) ca;
  upsert_rule = Service.upsert_rule (memory_store re) ca;
  delete_rule = Service.delete_rule (memory_store re) ca;
}

seeded_rule-valid : (re : Regexp) → validate re seeded_rule ≡ none
unfolding validate trim_space is_space validate_matcher has_prefix check_each validate_actions
seeded_rule-valid re = refl

-- What is found after the seeded rule is saved.
saved : (re : Regexp) (rules : Dict Rule) → (save re seeded_rule rules).1 ≡ none
unfolding save
saved re rules = rw (seeded_rule-valid re, save)

found_saved :
    (re : Regexp) (j : Text) (rules : Dict Rule)
    → get j (save re seeded_rule rules).0
      ≡ (if text_eq seeded_rule.id j then ok seeded_rule else get j rules)
found_saved re j rules =
    (save-get re seeded_rule j rules).1
    ∙ ap (λ b. if b then ok seeded_rule else get j rules) (rw (saved re rules) refl)

module _ {C : Type 0} (re : Regexp) (ca : Cache C) where
  abbrev seed : Serves re ca → Serves re ca × Option StoreError
  seed = seed_default_rule (rules_service re ca)

  -- The rule is there, an older one is left alone, as is every other rule, and a second start
  -- changes nothing.
  pub record Seeded (s s' : Serves re ca) : Type 0 where
    pub kept : (rule : Rule) → get seeded_rule.id s.store ≡ ok rule → s' ≡ s
    pub added :
        get seeded_rule.id s.store ≡ err rule_not_found
        → get seeded_rule.id s'.store ≡ ok seeded_rule
    pub others : (j : Text) → j ≢ seeded_rule.id → get j s'.store ≡ get j s.store
    pub coherent : IsCoherent re ca s'
    pub again : seed s' ≡ (s', none)

  seed_found :
      (s : Serves re ca) (rule : Rule) → get seeded_rule.id s.store ≡ ok rule → seed s ≡ (s, none)
  unfolding seed_default_rule Service.get_rule
  seed_found s rule there = rw there refl

  seed_missing :
      (s : Serves re ca)
      → get seeded_rule.id s.store ≡ err rule_not_found
      → seed s ≡ Service.upsert_rule (memory_store re) ca seeded_rule s
  unfolding seed_default_rule Service.get_rule
  seed_missing s missing = rw missing refl

  start_without :
      (s s' : Serves re ca)
      → IsCoherent re ca s
      → get seeded_rule.id s.store ≡ err rule_not_found
      → (seed s).0 ≡ s'
      → ((seed s).1 ≡ none) × Seeded s s'
  start_without s s' h missing e =
      let (answer, stands) = upsert_rule_lem re ca seeded_rule s h in
      let same = seed_missing s missing in
      let now : (Service.upsert_rule (memory_store re) ca seeded_rule s).0 ≡ s' =
        ap (λ (t : Serves re ca × Option StoreError). t.0) (sym same) ∙ e in
      let store_now : s'.store ≡ (save re seeded_rule s.store).0 =
        ap (λ (t : Serves re ca). t.store) (sym now) ∙ stands.0 in
      let there : get seeded_rule.id s'.store ≡ ok seeded_rule =
        rw (store_now, found_saved re seeded_rule.id s.store, text_eq_refl seeded_rule.id) refl in
      (
        ap (λ (t : Serves re ca × Option StoreError). t.1) same ∙ answer ∙ saved re s.store,
        record {
          kept = λ rule found. cc (found, missing);
          added = λ _. there;
          others = λ j far.
              rw (store_now, found_saved re j s.store)
                (ground (arith, text_eq_iff seeded_rule.id j));
          coherent = subst (IsCoherent re ca) now stands.1;
          again = seed_found s' seeded_rule there;
        },
      )

  start_with :
      (s s' : Serves re ca) (rule : Rule)
      → IsCoherent re ca s
      → get seeded_rule.id s.store ≡ ok rule
      → (seed s).0 ≡ s'
      → ((seed s).1 ≡ none) × Seeded s s'
  start_with s s' rule h found e =
      let same = seed_found s rule found in
      let now : s ≡ s' = ap (λ (t : Serves re ca × Option StoreError). t.0) (sym same) ∙ e in
      (
        ap (λ (t : Serves re ca × Option StoreError). t.1) same,
        record {
          kept = λ _ _. sym now;
          added = λ missing. cc (found, missing);
          others = λ j far. ap (λ (t : Serves re ca). get j t.store) (sym now);
          coherent = subst (IsCoherent re ca) now h;
          again = subst (λ (t : Serves re ca). seed t ≡ (t, none)) now same;
        },
      )

  found_or_missing :
      (id : Text) (rules : Dict Rule)
      → ((rule : Rule) × (get id rules ≡ ok rule)) ⊎ (get id rules ≡ err rule_not_found)
  unfolding get
  found_or_missing id rules = elim (Option-cases (lookup id rules)) [
    | inl missing ↦ inr (rw (missing, get))
    | inr (rule, there) ↦ inl (rule, rw (there, get))
  ]

  -- On a coherent service over the store in memory, `seedDefaultRule` succeeds. A rule with its id
  -- that is already there is left alone; otherwise the seeded rule is stored. No other rule changes,
  -- the service stays coherent, and seeding again changes nothing.
  pub seed_default_rule-Seeded :
      (s s' : Serves re ca)
      → IsCoherent re ca s
      → (seed s).0 ≡ s'
      → ((seed s).1 ≡ none) × Seeded s s'
  seed_default_rule-Seeded s s' h e = elim (found_or_missing seeded_rule.id s.store) [
    | inl (rule, found) ↦ start_with s s' rule h found e
    | inr missing ↦ start_without s s' h missing e
  ]

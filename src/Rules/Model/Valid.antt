-- ===== src/Rules/Model/Valid.antt =====
-- When `Rule.Validate` of pkg/rules/model.go returns nil.
use yapi.Common.{
  ℕ, suc, ◌≡◌, refl, ◌↔◌, ◌⊎◌, Bool, true, false, ◌&&◌, Option, none, some, List, [], ◌∷◌, ◌>>◌,
  is_nil, All, Result, ok, err, arith,
}
use yapi.Common.Text.{Text, is_blank, trim_space, has_prefix}
use yapi.Rules.JsonPath.{PathError, parse_json_path, JsonPathToken}
use yapi.Rules.Model.{
  Matcher, Actions, Rule, RewritePathExpression, InvalidRule, Regexp, fail_if, check_each,
  check_prefix, check_metadata, validate_matcher, path_error, has_no_action, check_rewrite,
  validate_actions, validate, method_empty, header_key_empty, api_key_id_empty, user_id_empty,
  upstream_id_empty, provider_empty, override_key_empty, override_path_invalid, remove_key_empty,
  remove_path_invalid,
}
use yapi.Rules.Model.Acts.{
  IsKeyPrefix, HasAction, is_key_prefix_iff, has_no_action-HasAction, HasAction-has_no_action,
}

then_none {ℓ} : {E : Type ℓ} (a b : Option E) → ((a >> b) ≡ none) ↔ ((a ≡ none) × (b ≡ none))
then_none none b = (λ e. (refl, e), λ h. h.1)
then_none (some e) b = (λ h. cc, λ h. cc)

module _ {ℓ κ μ} {A : Type ℓ} {E : Type κ} (P : A → Type μ) (check : ℕ → A → Option E) where
  -- A loop of checks passes exactly when each one does.
  check_each-none :
      ((i : ℕ) (x : A) → (check i x ≡ none) ↔ P x)
      → (i : ℕ) (xs : List A) → (check_each check i xs ≡ none) ↔ All P xs
  unfolding check_each
  check_each-none each i [] = (λ _. tt, λ _. refl)
  check_each-none each i (x ∷ xs) =
      let (to, from) = each i x in
      let (all_to, all_from) = check_each-none each (suc i) xs in
      let (split, join) = then_none (check i x) (check_each check (suc i) xs) in
      (λ e. (to (split e).0, all_to (split e).1), λ h. join (from h.0, all_from h.1))

abbrev pub IsFilled : Text → Type 0
IsFilled s = is_blank s ≡ false

-- The key is not blank, and parses as a path.
abbrev pub IsPathKey : Text → Type 0
IsPathKey k = IsFilled k × (tokens : List JsonPathToken) × (parse_json_path k ≡ ok tokens)

pub record MatcherIsValid (m : Matcher) : Type 0 where
  pub rooted : m.path_prefix ≡ [] ⊎ has_prefix m.path_prefix (b'/' ∷ []) ≡ true
  pub methods : All IsFilled m.methods
  pub headers : All (λ h. IsFilled h.0) m.headers
  pub api_key_ids : All IsFilled m.api_key_ids
  pub api_key_prefixes : All (λ p. IsKeyPrefix (trim_space p)) m.api_key_prefixes
  pub user_ids : All IsFilled m.user_ids
  pub user_metadata : All (λ e. IsFilled e.0 × IsFilled e.1) m.user_metadata
  pub binding_upstream_ids : All IsFilled m.binding_upstream_ids
  pub binding_providers : All IsFilled m.binding_providers

pub record ActionsIsValid (re : Regexp) (a : Actions) : Type 0 where
  pub acts : HasAction a
  pub rewrite :
      (e : RewritePathExpression) → a.rewrite_path_regex ≡ some e → re.compiles e.pattern ≡ true
  pub override_json : All (λ e. IsPathKey e.0) a.override_json
  pub remove_json : All IsPathKey a.remove_json

pub record IsValid (re : Regexp) (r : Rule) : Type 0 where
  pub id : IsFilled r.id
  pub matches_something :
      (is_nil r.matcher.path_prefix && is_nil r.matcher.methods && is_nil r.matcher.headers) ≡ false
  pub matcher : MatcherIsValid r.matcher
  pub actions : ActionsIsValid re r.actions

fail_if-none {ℓ} : {E : Type ℓ} (b : Bool) (e : E) → (fail_if b e ≡ none) ↔ (b ≡ false)
fail_if-none true e = (λ h. cc, λ h. cc)
fail_if-none false e = (λ _. refl, λ _. refl)

-- A loop that only refuses blank texts.
filled {ℓ} :
    {A : Type ℓ} (f : A → Text) (mk : ℕ → InvalidRule) (xs : List A)
    → (check_each (λ i x. fail_if (is_blank (f x)) (mk i)) 0 xs ≡ none)
      ↔ All (λ x. IsFilled (f x)) xs
filled f mk = check_each-none _ _ (λ i x. fail_if-none (is_blank (f x)) (mk i)) 0

prefixes :
    (xs : List Text)
    → (check_each check_prefix 0 xs ≡ none) ↔ All (λ p. IsKeyPrefix (trim_space p)) xs
prefixes = check_each-none _ _ (λ i x. ground (arith, is_key_prefix_iff (trim_space x))) 0

metadata :
    (xs : List (Text × Text))
    → (check_each check_metadata 0 xs ≡ none) ↔ All (λ e. IsFilled e.0 × IsFilled e.1) xs
metadata = check_each-none _ _ (λ i x. ground arith) 0

path_none {ℓ} :
    {A : Type ℓ} (r : Result PathError A) (wrap : PathError → InvalidRule)
    → (path_error r wrap ≡ none) ↔ ((a : A) × (r ≡ ok a))
path_none (ok a) wrap = (λ _. (a, refl), λ _. refl)
path_none (err e) wrap = (λ h. cc, λ (a, h). cc)

path_keys {ℓ} :
    {A : Type ℓ} (f : A → Text) (mk : ℕ → InvalidRule) (wrap : Text → PathError → InvalidRule)
    (xs : List A)
    → (check_each
          (λ i x.
            fail_if (is_blank (f x)) (mk i) >> path_error (parse_json_path (f x)) (wrap (f x)))
          0
          xs
        ≡ none)
      ↔ All (λ x. IsPathKey (f x)) xs
path_keys f mk wrap = check_each-none _ _ key 0
  where
    key :
        (i : ℕ) (x : _)
        → ((fail_if (is_blank (f x)) (mk i) >> path_error (parse_json_path (f x)) (wrap (f x)))
            ≡ none)
          ↔ IsPathKey (f x)
    key i x =
        let (split, join) =
          then_none (fail_if (is_blank (f x)) (mk i))
            (path_error (parse_json_path (f x)) (wrap (f x))) in
        let (full, fill) = fail_if-none (is_blank (f x)) (mk i) in
        let (parsed, parses) = path_none (parse_json_path (f x)) (wrap (f x)) in
        (
          λ e. (full (split e).0, (parsed (split e).1).0, (parsed (split e).1).1),
          λ h. join (fill h.0, parses (h.1, h.2)),
        )

validate_matcher-none : (m : Matcher) → (validate_matcher m ≡ none) ↔ MatcherIsValid m
unfolding validate_matcher
validate_matcher-none m = ground (
  arith,
  filled (λ x. x) method_empty m.methods,
  filled (λ h. h.0) (λ _. header_key_empty) m.headers,
  filled (λ x. x) api_key_id_empty m.api_key_ids,
  prefixes m.api_key_prefixes,
  filled (λ x. x) user_id_empty m.user_ids,
  metadata m.user_metadata,
  filled (λ x. x) upstream_id_empty m.binding_upstream_ids,
  filled (λ x. x) provider_empty m.binding_providers,
)

module _ (re : Regexp) where
  rewrite_none :
      (o : Option RewritePathExpression)
      → (check_rewrite re o ≡ none)
        ↔ ((e : RewritePathExpression) → o ≡ some e → re.compiles e.pattern ≡ true)
  rewrite_none none = (λ _ e h. cc, λ _. refl)
  rewrite_none (some x) = (λ c e h. ground arith, λ h. ground (arith, h x refl))

  validate_actions-none : (a : Actions) → (validate_actions re a ≡ none) ↔ ActionsIsValid re a
  unfolding validate_actions
  validate_actions-none a =
      let (rewrites, compiled) = rewrite_none a.rewrite_path_regex in
      let (keys, overrides) =
        path_keys (λ (e : Text × _). e.0) (λ _. override_key_empty) override_path_invalid
          a.override_json in
      let (paths, removes) =
        path_keys (λ (k : Text). k) remove_key_empty remove_path_invalid a.remove_json in
      let (act, acts) = fail_if-none (has_no_action a) InvalidRule.actions_empty in
      (
        (λ e.
            let (e1, r1) = (then_none _ _).0 e in
            let (e2, r2) = (then_none _ _).0 r1 in
            let (e3, e4) = (then_none _ _).0 r2 in
            record {
              acts = has_no_action-HasAction a (act e1);
              rewrite = rewrites e2;
              override_json = keys e3;
              remove_json = paths e4;
            }),
        (λ v. (then_none _ _).1 (
          acts (HasAction-has_no_action a v.acts),
          (then_none _ _).1 (
            compiled v.rewrite,
            (then_none _ _).1 (overrides v.override_json, removes v.remove_json),
          ),
        )),
      )

  -- `Validate` returns nil exactly for the rules whose every part is well formed: a rule with an
  -- id, a condition on the path, the methods or the headers, and an action; with no blank entry in
  -- any list of its matcher, with key prefixes of eight letters or digits, with a rewriting pattern
  -- that compiles, and with JSON paths that parse.
  pub validate-none_iff : (r : Rule) → (validate re r ≡ none) ↔ IsValid re r
  unfolding validate
  validate-none_iff r =
      let (matcher_to, matcher_from) = validate_matcher-none r.matcher in
      let (actions_to, actions_from) = validate_actions-none r.actions in
      (
        (λ e.
            let (e1, r1) = (then_none _ _).0 e in
            let (e2, r2) = (then_none _ _).0 r1 in
            let (e3, e4) = (then_none _ _).0 r2 in
            record {
              id = (fail_if-none _ _).0 e1;
              matches_something = (fail_if-none _ _).0 e2;
              matcher = matcher_to e3;
              actions = actions_to e4;
            }),
        (λ v.
            ground
              (arith, matcher_from v.matcher, actions_from v.actions, v.id, v.matches_something)),
      )

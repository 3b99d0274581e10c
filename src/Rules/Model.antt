-- ===== src/Rules/Model.antt =====
-- pkg/rules/model.go: rules, and when one is valid.
pub mod Acts
pub mod Valid
use yapi.Common.{
  ℕ, suc, ◌≡◌, Bool, true, false, ◌&&◌, ◌||◌, not, Option, none, some, List, [], ◌∷◌, ◌>>◌, ◌==◌,
  if◌then◌else◌, is_nil, is_some, all, length, Result, ok, err,
}
use yapi.Common.Int.{ℤ}
use yapi.Common.Text.{Text, is_blank, trim_space, has_prefix, is_alnum}
use yapi.Common.Dict.{Dict}
use yapi.Rules.Json.{Json}
use yapi.Rules.JsonPath.{PathError, parse_json_path}

pub record RewritePathExpression : Type 0 where
  pub pattern : Text
  pub replace : Text

pub record Matcher : Type 0 where
  pub path_prefix : Text
  pub methods : List Text
  pub headers : Dict Text
  pub api_key_ids : List Text
  pub api_key_prefixes : List Text
  pub user_ids : List Text
  pub user_metadata : Dict Text
  pub binding_upstream_ids : List Text
  pub binding_providers : List Text
  pub require_binding : Bool

pub record Actions : Type 0 where
  pub set_target_url : Text
  pub set_headers : Dict Text
  pub add_headers : Dict Text
  pub remove_headers : List Text
  pub set_authorization : Text
  pub override_json : Dict Json
  pub remove_json : List Text
  pub rewrite_path_regex : Option RewritePathExpression
  pub script : Text

-- A time is its nanoseconds, which the code only passes on.
pub record Rule : Type 0 where
  pub id : Text
  pub priority : ℤ
  pub matcher : Matcher
  pub actions : Actions
  pub enabled : Bool
  pub version : ℤ
  pub created_by : Text
  pub updated_by : Text
  pub created_at : ℕ
  pub updated_at : ℕ

-- What `ErrInvalidRule` is wrapped with.
pub data InvalidRule : Type 0 where
  id_required matcher_empty path_prefix_slash header_key_empty : InvalidRule
  metadata_key_empty actions_empty bad_rewrite_pattern override_key_empty : InvalidRule
  method_empty api_key_id_empty prefix_empty prefix_malformed : ℕ → InvalidRule
  user_id_empty upstream_id_empty provider_empty remove_key_empty : ℕ → InvalidRule
  metadata_value_empty : Text → InvalidRule
  override_path_invalid remove_path_invalid : Text → PathError → InvalidRule

-- The package regexp: whether a pattern compiles, whether one that compiles matches a text, and
-- `ReplaceAllString`.
pub record Regexp : Type 0 where
  pub compiles : Text → Bool
  pub matches : Text → Text → Bool
  pub replace_all : Text → Text → Text → Text

-- `if b { return err }`
abbrev pub fail_if {ℓ} : {E : Type ℓ} → Bool → E → Option E
fail_if true e = some e
fail_if false e = none

-- `for i, x := range xs`, where the body may return an error.
unfoldable pub check_each {ℓ κ} :
    {A : Type ℓ} {E : Type κ} → (ℕ → A → Option E) → ℕ → List A → Option E
check_each check i [] = none
check_each check i (x ∷ xs) = check i x >> check_each check (suc i) xs

-- `^[A-Za-z0-9]{8}$`
abbrev pub is_key_prefix : Text → Bool
is_key_prefix s = length s == 8 && all is_alnum s

abbrev check_prefix : ℕ → Text → Option InvalidRule
check_prefix i prefix = do
  fail_if (is_blank prefix) (prefix_empty i)
  fail_if (not (is_key_prefix (trim_space prefix))) (prefix_malformed i)

abbrev check_metadata : ℕ → Text × Text → Option InvalidRule
check_metadata i (k, v) = do
  fail_if (is_blank k) metadata_key_empty
  fail_if (is_blank v) (metadata_value_empty k)

unfoldable pub validate_matcher : Matcher → Option InvalidRule
validate_matcher m = do
  fail_if (not (is_nil m.path_prefix) && not (has_prefix m.path_prefix (b'/' ∷ [])))
      path_prefix_slash
  check_each (λ i method. fail_if (is_blank method) (method_empty i)) 0 m.methods
  check_each (λ i header. fail_if (is_blank header.0) header_key_empty) 0 m.headers
  check_each (λ i id. fail_if (is_blank id) (api_key_id_empty i)) 0 m.api_key_ids
  check_each check_prefix 0 m.api_key_prefixes
  check_each (λ i id. fail_if (is_blank id) (user_id_empty i)) 0 m.user_ids
  check_each check_metadata 0 m.user_metadata
  check_each (λ i id. fail_if (is_blank id) (upstream_id_empty i)) 0 m.binding_upstream_ids
  check_each (λ i provider. fail_if (is_blank provider) (provider_empty i)) 0 m.binding_providers

abbrev path_error {ℓ} :
    {A : Type ℓ} → Result PathError A → (PathError → InvalidRule) → Option InvalidRule
path_error (ok _) wrap = none
path_error (err e) wrap = some (wrap e)

-- Whether the actions do nothing at all.
abbrev pub has_no_action : Actions → Bool
has_no_action a =
    is_nil a.set_target_url
    && is_nil a.set_headers
    && is_nil a.add_headers
    && is_nil a.remove_headers
    && is_blank a.set_authorization
    && is_nil a.override_json
    && is_nil a.remove_json
    && not (is_some a.rewrite_path_regex)
    && is_blank a.script

module _ (re : Regexp) where
  abbrev check_rewrite : Option RewritePathExpression → Option InvalidRule
  check_rewrite none = none
  check_rewrite (some expr) = fail_if (not (re.compiles expr.pattern)) bad_rewrite_pattern

  unfoldable pub validate_actions : Actions → Option InvalidRule
  validate_actions a = do
    fail_if (has_no_action a) actions_empty
    check_rewrite a.rewrite_path_regex
    check_each
        (λ i e.
          fail_if (is_blank e.0) override_key_empty
          >> path_error (parse_json_path e.0) (override_path_invalid e.0))
        0 a.override_json
    check_each
        (λ i k.
          fail_if (is_blank k) (remove_key_empty i)
          >> path_error (parse_json_path k) (remove_path_invalid k))
        0 a.remove_json

  -- `Rule.Validate`; `none` is the error nil.
  unfoldable pub validate : Rule → Option InvalidRule
  validate r = do
    fail_if (is_blank r.id) id_required
    fail_if (is_nil r.matcher.path_prefix && is_nil r.matcher.methods && is_nil r.matcher.headers)
        matcher_empty
    validate_matcher r.matcher
    validate_actions r.actions

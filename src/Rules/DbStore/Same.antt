-- ===== src/Rules/DbStore/Same.antt =====
-- When two rules are the same but for the order in which their maps are written down; what
-- encoding/json keeps of pkg/rules/model.go, since it writes the keys of a map in their own order.
use yapi.Common.{◌≡◌, refl, [], Option, none, some, if◌then◌else◌}
use yapi.Common.Int.{pos}
use yapi.Common.Text.{Text, text_eq}
use yapi.Common.Dict.{Dict, lookup}
use yapi.Rules.Json.{Json, arr, obj, Items, nil, cons, Fields, end, field}
use yapi.Rules.Model.{Matcher, Actions, Rule}

-- The value of a key in an object.
abbrev member : Text → Fields → Option Json
member k end = none
member k (field j v fs) = let rest = member k fs in if text_eq j k then some v else rest

-- Two values of JSON: objects with the same members in any order, and the same in every part.
mutual
  pub data SameJson : Json → Json → Type 0 where
    same : (j : Json) → SameJson j j
    arrays : {xs ys : Items} → SameItems xs ys → SameJson (arr xs) (arr ys)
    objects :
        {fs gs : Fields}
        → ((k : Text) → SameValue (member k fs) (member k gs))
        → SameJson (obj fs) (obj gs)

  pub data SameItems : Items → Items → Type 0 where
    empty : SameItems nil nil
    items :
        {x y : Json} {xs ys : Items}
        → SameJson x y
        → SameItems xs ys
        → SameItems (cons x xs) (cons y ys)

  pub data SameValue : Option Json → Option Json → Type 0 where
    absent : SameValue none none
    present : {x y : Json} → SameJson x y → SameValue (some x) (some y)

pub same_value : (o : Option Json) → SameValue o o
same_value none = absent
same_value (some x) = present (same x)

abbrev pub SameMap : Dict Text → Dict Text → Type 0
SameMap m n = (k : Text) → lookup k m ≡ lookup k n

pub record SameMatcher (m n : Matcher) : Type 0 where
  pub path_prefix : m.path_prefix ≡ n.path_prefix
  pub methods : m.methods ≡ n.methods
  pub headers : SameMap m.headers n.headers
  pub api_key_ids : m.api_key_ids ≡ n.api_key_ids
  pub api_key_prefixes : m.api_key_prefixes ≡ n.api_key_prefixes
  pub user_ids : m.user_ids ≡ n.user_ids
  pub user_metadata : SameMap m.user_metadata n.user_metadata
  pub binding_upstream_ids : m.binding_upstream_ids ≡ n.binding_upstream_ids
  pub binding_providers : m.binding_providers ≡ n.binding_providers
  pub require_binding : m.require_binding ≡ n.require_binding

pub record SameActions (a b : Actions) : Type 0 where
  pub set_target_url : a.set_target_url ≡ b.set_target_url
  pub set_headers : SameMap a.set_headers b.set_headers
  pub add_headers : SameMap a.add_headers b.add_headers
  pub remove_headers : a.remove_headers ≡ b.remove_headers
  pub set_authorization : a.set_authorization ≡ b.set_authorization
  pub override_json : (k : Text) → SameValue (lookup k a.override_json) (lookup k b.override_json)
  pub remove_json : a.remove_json ≡ b.remove_json
  pub rewrite_path_regex : a.rewrite_path_regex ≡ b.rewrite_path_regex
  pub script : a.script ≡ b.script

pub same_matcher : (m : Matcher) → SameMatcher m m
same_matcher m = record {
  path_prefix = refl;
  methods = refl;
  headers = λ k. refl;
  api_key_ids = refl;
  api_key_prefixes = refl;
  user_ids = refl;
  user_metadata = λ k. refl;
  binding_upstream_ids = refl;
  binding_providers = refl;
  require_binding = refl;
}

pub same_actions : (a : Actions) → SameActions a a
same_actions a = record {
  set_target_url = refl;
  set_headers = λ k. refl;
  add_headers = λ k. refl;
  remove_headers = refl;
  set_authorization = refl;
  override_json = λ k. same_value (lookup k a.override_json);
  remove_json = refl;
  rewrite_path_regex = refl;
  script = refl;
}

-- What a row keeps of a rule: everything but the version, the authors and the times, which are those
-- of a new rule.
pub record IsKept (r kept : Rule) : Type 0 where
  pub id : kept.id ≡ r.id
  pub priority : kept.priority ≡ r.priority
  pub matcher : SameMatcher r.matcher kept.matcher
  pub actions : SameActions r.actions kept.actions
  pub enabled : kept.enabled ≡ r.enabled
  pub version : kept.version ≡ pos 0
  pub created_by : kept.created_by ≡ []
  pub updated_by : kept.updated_by ≡ []
  pub created_at : kept.created_at ≡ 0
  pub updated_at : kept.updated_at ≡ 0

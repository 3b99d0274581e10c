-- ===== src/Rules/Service/Clone.antt =====
-- `cloneRules` and the copies below it, pkg/rules/service.go, as values: what a copy shares with
-- its original is not told apart here.
use yapi.Common.{◌≡◌, refl, ap, ap₂, Option, none, some, List, [], ◌∷◌, ◌++◌, is_nil, if◌then◌else◌}
use yapi.Common.Text.{Text}
use yapi.Common.Dict.{Dict}
use yapi.Rules.Json.{Json, deep_copy_any, deep_copy_any-same}
use yapi.Rules.Model.{Rule, RewritePathExpression}

-- `append([]string(nil), xs...)`
abbrev copy_list : List Text → List Text
copy_list xs = [] ++ xs

-- `for k, v := range m { cloned[k] = v }` into a new map; the keys of a map are distinct.
copy_map : Dict Text → Dict Text
copy_map [] = []
copy_map ((k, v) ∷ m) = (k, v) ∷ copy_map m

-- `if len(m) > 0 { … }`; otherwise the field is left as `cloned := r` set it.
abbrev copy_if_filled : Dict Text → Dict Text
copy_if_filled m = if is_nil m then m else copy_map m

unfoldable pub clone_map_any : Dict Json → Dict Json
clone_map_any [] = []
clone_map_any ((k, v) ∷ m) = (k, deep_copy_any v) ∷ clone_map_any m

abbrev copy_regex : Option RewritePathExpression → Option RewritePathExpression
copy_regex none = none
copy_regex (some e) = some (record { pattern = e.pattern; replace = e.replace })

unfoldable pub clone_rule : Rule → Rule
unfolding copy_map
clone_rule r = record r {
  matcher = record (r.matcher) {
    methods = copy_list r.matcher.methods;
    headers = copy_if_filled r.matcher.headers;
  };
  actions = record (r.actions) {
    set_headers = copy_if_filled r.actions.set_headers;
    add_headers = copy_if_filled r.actions.add_headers;
    remove_headers = copy_list r.actions.remove_headers;
    override_json =
        if is_nil r.actions.override_json
        then r.actions.override_json
        else clone_map_any r.actions.override_json;
    remove_json = copy_list r.actions.remove_json;
    rewrite_path_regex = copy_regex r.actions.rewrite_path_regex;
  };
}

unfoldable pub clone_rules : List Rule → List Rule
clone_rules [] = []
clone_rules (r ∷ rs) = clone_rule r ∷ clone_rules rs

copy_map-same : (m : Dict Text) → copy_map m ≡ m
unfolding copy_map
copy_map-same [] = refl
copy_map-same ((k, v) ∷ m) = ap (λ t. (k, v) ∷ t) (copy_map-same m)

copy_if_filled-same : (m : Dict Text) → copy_if_filled m ≡ m
copy_if_filled-same [] = refl
copy_if_filled-same (e ∷ m) = copy_map-same (e ∷ m)

clone_map_any-same : (m : Dict Json) → clone_map_any m ≡ m
unfolding clone_map_any
clone_map_any-same [] = refl
clone_map_any-same ((k, v) ∷ m) = rw (deep_copy_any-same v, clone_map_any-same m)

override-same : (m : Dict Json) → (if is_nil m then m else clone_map_any m) ≡ m
override-same [] = refl
override-same (e ∷ m) = clone_map_any-same (e ∷ m)

copy_regex-same : (o : Option RewritePathExpression) → copy_regex o ≡ o
copy_regex-same none = refl
copy_regex-same (some e) = refl

clone_rule-same : (r : Rule) → clone_rule r ≡ r
unfolding clone_rule
clone_rule-same r = λ i. record r {
  matcher = record (r.matcher) { headers = copy_if_filled-same r.matcher.headers i };
  actions = record (r.actions) {
    set_headers = copy_if_filled-same r.actions.set_headers i;
    add_headers = copy_if_filled-same r.actions.add_headers i;
    override_json = override-same r.actions.override_json i;
    rewrite_path_regex = copy_regex-same r.actions.rewrite_path_regex i;
  };
}

-- A copy of rules holds the same rules, each field of each.
pub clone_rules-same : (rs : List Rule) → clone_rules rs ≡ rs
unfolding clone_rules
clone_rules-same [] = refl
clone_rules-same (r ∷ rs) = ap₂ (λ x xs. x ∷ xs) (clone_rule-same r) (clone_rules-same rs)

-- ===== src/Rules/Tests.antt =====
-- The properties of the rules at concrete rules, stores and services.
use yapi.Common.{◌≡◌, refl, ◌↔◌, inl, true, none, some, List, [], ◌∷◌, ok}
use yapi.Common.Int.{pos}
use yapi.Common.Text.{text, text_eq, is_space, trim_left, trim_right, trim_space, has_prefix}
use yapi.Common.Text.Decimal.{atoi, horner}
use yapi.Common.Dict.{Dict}
use yapi.Rules.JsonPath.{key, index, parse_json_path, build_token, flush, step, scan}
use yapi.Rules.Model.{Rule, validate, validate_matcher, validate_actions, check_each}
use yapi.Rules.Model.Valid.{IsValid, validate-none_iff}
use yapi.Rules.Store.{memory_store, sort_rules, list, save, delete}
use yapi.Rules.Store.Laws.{IsWellFormed}
use yapi.Rules.Service.{
  Service, event_rules_changed, refresh, refresh_cache, finish, list_rules, upsert_rule,
  delete_rule,
}
use yapi.Rules.Service.Clone.{clone_rules}
use yapi.Rules.Service.Sync.{
  IsFresh, upsert_rule-IsFresh, delete_rule-IsFresh, delete_rule-resurrects,
}
use yapi.Rules.Service.Refine.{
  Request, list_all, upsert, remove, event, answers, answer_of_service, answer_of_store,
  answers-refine,
}
use yapi.Rules.Service.Served.{here, after, IsSound, IsListing, Reach-IsListing}
use yapi.Fixtures.{plain_regexp, low_rule, high_rule, stubborn}

parses : parse_json_path (text "m[0]") ≡ ok (key (text "m") ∷ index (pos 0) ∷ [])
unfolding parse_json_path scan step flush build_token trim_space trim_left trim_right is_space atoi
    horner
parses = refl

validate-none_iff_example : (validate plain_regexp low_rule ≡ none) ↔ IsValid plain_regexp low_rule
validate-none_iff_example = validate-none_iff plain_regexp low_rule

low_rule_passes : validate plain_regexp low_rule ≡ none
unfolding validate validate_matcher validate_actions check_each trim_space trim_left trim_right
    is_space has_prefix
low_rule_passes = refl

low_rule-IsValid : IsValid plain_regexp low_rule
low_rule-IsValid = (validate-none_iff plain_regexp low_rule).0 low_rule_passes

abbrev one_rule : Dict Rule
one_rule = (text "low", low_rule) ∷ []

one_rule-IsWellFormed : IsWellFormed plain_regexp one_rule
one_rule-IsWellFormed = (refl, refl, low_rule-IsValid, tt)

-- A service with one rule, a cache that holds it and takes nothing, and a bus.
abbrev shared : Service (Dict Rule) (List Rule)
shared = record {
  store = one_rule;
  cache = some (low_rule ∷ []);
  has_bus = true;
  cached = [];
  published = [];
}

upserts : (upsert_rule (memory_store plain_regexp) stubborn high_rule shared).1 ≡ none
unfolding upsert_rule finish refresh_cache refresh save validate validate_matcher validate_actions
    check_each trim_space trim_left trim_right is_space has_prefix
upserts = refl

upsert_rule-IsFresh_example :
    IsFresh
      (memory_store plain_regexp)
      stubborn
      (save plain_regexp high_rule one_rule).0
      true
      []
      (upsert_rule (memory_store plain_regexp) stubborn high_rule shared).0
upsert_rule-IsFresh_example =
    upsert_rule-IsFresh (memory_store plain_regexp) stubborn high_rule shared upserts

deletes : (delete_rule (memory_store plain_regexp) stubborn (text "low") shared).1 ≡ none
unfolding delete_rule finish refresh_cache refresh delete text_eq
deletes = refl

delete_rule-IsFresh_example :
    IsFresh
      (memory_store plain_regexp)
      stubborn
      (delete (text "low") one_rule).0
      true
      []
      (delete_rule (memory_store plain_regexp) stubborn (text "low") shared).0
delete_rule-IsFresh_example =
    delete_rule-IsFresh (memory_store plain_regexp) stubborn (text "low") shared deletes

empties : (delete_rule (memory_store plain_regexp) stubborn (text "low") shared).0.cached ≡ []
unfolding delete_rule finish refresh_cache refresh delete text_eq list sort_rules clone_rules
empties = refl

delete_rule-resurrects_example :
    (list_rules
      (memory_store plain_regexp)
      stubborn
      (delete_rule (memory_store plain_regexp) stubborn (text "low") shared).0).1
    ≡ ok (low_rule ∷ [])
delete_rule-resurrects_example =
    delete_rule-resurrects (memory_store plain_regexp) stubborn (text "low") shared (low_rule ∷ [])
      (low_rule ∷ []) (low_rule ∷ []) refl deletes empties refl refl

-- A service with one rule and no shared cache.
abbrev alone : Service (Dict Rule) (List Rule)
alone = record { store = one_rule; cache = none; has_bus = true; cached = []; published = [] }

abbrev requests : List Request
requests =
    upsert high_rule ∷ list_all ∷ event event_rules_changed ∷ remove (text "low") ∷ list_all ∷ []

answers-refine_example :
    answers (answer_of_service plain_regexp stubborn) requests alone
    ≡ answers (answer_of_store plain_regexp) requests one_rule
answers-refine_example =
    answers-refine plain_regexp stubborn requests alone
      (record { no_cache = refl; fresh = inl refl })

alone-IsSound : IsSound plain_regexp stubborn alone
alone-IsSound = record {
  coherent = record { no_cache = refl; fresh = inl refl };
  well_formed = one_rule-IsWellFormed;
}

abbrev later : Service (Dict Rule) (List Rule)
later = (answer_of_service plain_regexp stubborn (upsert high_rule) alone).0

Reach-IsListing_example :
    IsWellFormed plain_regexp later.store
    × (rs : List Rule) × ((list_rules (memory_store plain_regexp) stubborn later).1 ≡ ok rs)
    × IsListing plain_regexp stubborn later.store rs
Reach-IsListing_example =
    Reach-IsListing plain_regexp stubborn (after (upsert high_rule) here refl) alone-IsSound

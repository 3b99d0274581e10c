-- ===== src/Rules/Store.antt =====
-- pkg/rules/store.go: the interface `Store` and the store in memory.
pub mod Order
pub mod Laws
use yapi.Common.{Bool, Option, none, some, List, [], ◌∷◌, Result, ok, err, if◌then◌else◌}
use yapi.Common.Int.{ltb_ℤ}
use yapi.Common.Text.{Text}
use yapi.Common.Dict.{Dict, lookup, insert, erase}
use yapi.Rules.Model.{Rule, InvalidRule, Regexp, validate}

-- `ErrInvalidRule`, `ErrRuleNotFound`, and any error of a database.
pub data StoreError : Type 0 where
  invalid : InvalidRule → StoreError
  rule_not_found : StoreError
  backend : Text → StoreError

-- The interface, over the state `S` of what implements it. A call may change the state whatever it
-- returns; an error `none` is nil.
pub record Store (S : Type 0) : Type 0 where
  pub list : S → S × Result StoreError (List Rule)
  pub get : Text → S → S × Result StoreError Rule
  pub save : Rule → S → S × Option StoreError
  pub delete : Text → S → S × Option StoreError

-- `for _, rule := range s.rules`: Go leaves the order open; here it is the list's.
abbrev pub values {ℓ} : {V : Type ℓ} → Dict V → List V
values [] = []
values ((k, v) ∷ m) = v ∷ values m

-- `sort.SliceStable` by `result[i].Priority > result[j].Priority`: a rule goes before the first one
-- that is not ahead of it.
unfoldable pub insert_sorted : Rule → List Rule → List Rule
insert_sorted r [] = r ∷ []
insert_sorted r (x ∷ xs) =
    if ltb_ℤ r.priority x.priority then x ∷ insert_sorted r xs else r ∷ x ∷ xs

unfoldable pub sort_rules : List Rule → List Rule
unfolding insert_sorted
sort_rules [] = []
sort_rules (r ∷ rs) = insert_sorted r (sort_rules rs)

-- `MemoryStore`, whose state is its map.
unfoldable pub list : Dict Rule → List Rule
list rules = sort_rules (values rules)

unfoldable pub get : Text → Dict Rule → Result StoreError Rule
get id rules = elim (lookup id rules) [ none ↦ err rule_not_found | some rule ↦ ok rule ]

unfoldable pub save : Regexp → Rule → Dict Rule → Dict Rule × Option StoreError
save re rule rules = elim (validate re rule) [
  | some e ↦ (rules, some (invalid e))
  | none ↦ (insert rule.id rule rules, none)
]

unfoldable pub delete : Text → Dict Rule → Dict Rule × Option StoreError
delete id rules = elim (lookup id rules) [
  | none ↦ (rules, some rule_not_found)
  | some _ ↦ (erase id rules, none)
]

-- The store in memory as an implementation of the interface.
abbrev pub memory_store : Regexp → Store (Dict Rule)
memory_store re = record {
  list = λ rules. (rules, ok (list rules));
  get = λ id rules. (rules, get id rules);
  save = save re;
  delete = delete;
}

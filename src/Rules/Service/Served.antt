-- ===== src/Rules/Service/Served.antt =====
-- What the service of pkg/rules/service.go lists over the store in memory, after any requests.
use yapi.Common.{◌≡◌, List, [], ◌∷◌, ok, All, sym, subst}
use mathlib.Core.List.{Perm}
use yapi.Common.Dict.{Dict}
use yapi.Rules.Model.{Rule, Regexp}
use yapi.Rules.Model.Valid.{IsValid}
use yapi.Rules.Store.{values, sort_rules, list, memory_store}
use yapi.Rules.Store.Laws.{IsWellFormed, save-IsWellFormed, delete-IsWellFormed}
use yapi.Rules.Store.Order.{IsByPriority, All-insert_sorted, list-sorted}
use yapi.Rules.Service.{Cache, list_rules}
use yapi.Rules.Service.Refine.{
  Request, list_all, get_one, upsert, remove, event, Serves, IsCoherent, answer_of_store,
  answer_of_service, step_lem, list_rules_lem,
}

All-sort_rules {ℓ} : (P : Rule → Type ℓ) (rs : List Rule) → All P rs → All P (sort_rules rs)
unfolding sort_rules
All-sort_rules P [] h = tt
All-sort_rules P (r ∷ rs) (p, h) = All-insert_sorted P r (sort_rules rs) p (All-sort_rules P rs h)

module _ (re : Regexp) where
  values-IsValid : (rules : Dict Rule) → IsWellFormed re rules → All (IsValid re) (values rules)
  values-IsValid [] w = tt
  values-IsValid ((k, r) ∷ rules) (same, fresh, v, w) = (v, values-IsValid rules w)

  list-IsValid : (rules : Dict Rule) → IsWellFormed re rules → All (IsValid re) (list rules)
  unfolding list
  list-IsValid rules w = All-sort_rules (IsValid re) (values rules) (values-IsValid rules w)

  step-IsWellFormed :
      (q : Request) (rules : Dict Rule)
      → IsWellFormed re rules
      → IsWellFormed re (answer_of_store re q rules).0
  unfolding answer_of_store
  step-IsWellFormed list_all rules w = w
  step-IsWellFormed (get_one id) rules w = w
  step-IsWellFormed (upsert r) rules w = save-IsWellFormed re r rules w
  step-IsWellFormed (remove id) rules w = delete-IsWellFormed re id rules w
  step-IsWellFormed (event evt) rules w = w

  module _ {C : Type 0} (ca : Cache C) where
    -- The states that requests and events, one after the other, can reach.
    pub data Reach (s : Serves re ca) : Serves re ca → Type 0 where
      here : Reach s s
      after :
          {t u : Serves re ca} (q : Request)
          → Reach s t
          → (answer_of_service re ca q t).0 ≡ u
          → Reach s u

    pub record IsSound (s : Serves re ca) : Type 0 where
      pub coherent : IsCoherent re ca s
      pub well_formed : IsWellFormed re s.store

    step-IsSound :
        (q : Request) (s : Serves re ca) → IsSound s → IsSound (answer_of_service re ca q s).0
    step-IsSound q s h =
        let (_, (stored, coherent)) = step_lem re ca q s h.coherent in
        record {
          coherent = coherent;
          well_formed =
              subst (IsWellFormed re) (sym stored) (step-IsWellFormed q s.store h.well_formed);
        }

    Reach-IsSound : {s t : Serves re ca} → Reach s t → IsSound s → IsSound t
    Reach-IsSound here h = h
    Reach-IsSound (after q before e) h = subst IsSound e (step-IsSound q _ (Reach-IsSound before h))

    -- A listing of the stored rules, each once and valid, none before one of higher priority.
    pub record IsListing (rules : Dict Rule) (rs : List Rule) : Type 0 where
      pub valid : All (IsValid re) rs
      pub sorted : IsByPriority rs
      pub same : Perm rs (values rules)

    -- Start from a store of valid rules, each under its id, with no shared cache and a cached listing
    -- that is empty or the store's. After any requests and bus events, the store is again such a one,
    -- and `ListRules` succeeds with exactly the stored rules, all valid, by falling priority.
    pub Reach-IsListing :
        {s t : Serves re ca}
        → Reach s t
        → IsSound s
        → IsWellFormed re t.store
          × (rs : List Rule) × ((list_rules (memory_store re) ca t).1 ≡ ok rs)
          × IsListing t.store rs
    Reach-IsListing {t} reached h =
        let sound = Reach-IsSound reached h in
        let (sorted, same) = list-sorted t.store in
        (
          sound.well_formed,
          list t.store,
          (list_rules_lem re ca t sound.coherent).0,
          record { valid = list-IsValid t.store sound.well_formed; sorted = sorted; same = same },
        )

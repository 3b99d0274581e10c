-- ===== src/Rules/Service/Refine.antt =====
-- With no shared cache the service of pkg/rules/service.go answers as the store in memory does:
-- its cached listing is never seen.
use yapi.Common.{◌≡◌, ◌≢◌, refl, ◌⊎◌, Option, none, List, [], ◌∷◌, Result, ok, arith, ap, ap₂, ◌∙◌}
use yapi.Common.Text.{Text}
use yapi.Common.Dict.{Dict}
use yapi.Rules.Model.{Rule, Regexp}
use yapi.Rules.Store.{StoreError, memory_store, list, get, save, delete}
use yapi.Rules.Service.{
  Cache, Event, Service, list_rules, get_rule, finish, upsert_rule, delete_rule, on_event,
}
use yapi.Rules.Service.Clone.{clone_rules-same}

-- What a client asks for, and the events that the bus delivers in between.
pub data Request : Type 0 where
  list_all : Request
  get_one : Text → Request
  upsert : Rule → Request
  remove : Text → Request
  event : Event → Request

pub data Answer : Type 0 where
  listing : Result StoreError (List Rule) → Answer
  one : Result StoreError Rule → Answer
  done : Option StoreError → Answer

-- The answers to a sequence of requests.
unfoldable pub answers {ℓ} :
    {S : Type ℓ} → (Request → S → S × Answer) → List Request → S → List Answer
answers step [] s = []
answers step (q ∷ qs) s = let (s', a) = step q s in a ∷ answers step qs s'

delete_refused :
    (id : Text) (rules : Dict Rule) → (delete id rules).1 ≢ none → (delete id rules).0 ≡ rules
unfolding delete
delete_refused id rules h = ground arith

module _ (re : Regexp) where
  -- The store alone.
  unfoldable pub answer_of_store : Request → Dict Rule → Dict Rule × Answer
  answer_of_store list_all rules = (rules, listing (ok (list rules)))
  answer_of_store (get_one id) rules = (rules, one (get id rules))
  answer_of_store (upsert r) rules = let (rules', e) = save re r rules in (rules', done e)
  answer_of_store (remove id) rules = let (rules', e) = delete id rules in (rules', done e)
  answer_of_store (event evt) rules = (rules, done none)

  save_refused :
      (r : Rule) (rules : Dict Rule) → (save re r rules).1 ≢ none → (save re r rules).0 ≡ rules
  unfolding save
  save_refused r rules h = ground arith

  module _ {C : Type 0} (ca : Cache C) where
    abbrev pub Serves : Type 0
    Serves = Service (Dict Rule) C

    pub answer_of_service : Request → Serves → Serves × Answer
    answer_of_service list_all s =
        let (s', r) = list_rules (memory_store re) ca s in (s', listing r)
    answer_of_service (get_one id) s =
        let (s', r) = get_rule (memory_store re) ca id s in (s', one r)
    answer_of_service (upsert r) s =
        let (s', e) = upsert_rule (memory_store re) ca r s in (s', done e)
    answer_of_service (remove id) s =
        let (s', e) = delete_rule (memory_store re) ca id s in (s', done e)
    answer_of_service (event evt) s = (on_event (memory_store re) ca evt s, done none)

    -- There is no shared cache, and what is cached is the listing of the store, if anything is.
    pub record IsCoherent (s : Serves) : Type 0 where
      pub no_cache : s.cache ≡ none
      pub fresh : s.cached ≡ [] ⊎ s.cached ≡ list s.store

    -- The service stands for the store `rules`.
    abbrev pub Stands : Dict Rule → Serves → Type 0
    Stands rules s = (s.store ≡ rules) × IsCoherent s

    pub list_rules_lem :
        (s : Serves)
        → IsCoherent s
        → ((list_rules (memory_store re) ca s).1 ≡ ok (list s.store))
          × Stands s.store (list_rules (memory_store re) ca s).0
    unfolding list_rules
    list_rules_lem s h = ground (arith, clone_rules-same (list s.store), clone_rules-same s.cached)

    finish_lem :
        (s : Serves)
        → s.cache ≡ none
        → ((finish (memory_store re) ca s).1 ≡ none)
          × Stands s.store (finish (memory_store re) ca s).0
    unfolding finish
    finish_lem s h = ground (arith, clone_rules-same (list s.store))

    pub upsert_rule_lem :
        (r : Rule) (s : Serves)
        → IsCoherent s
        → ((upsert_rule (memory_store re) ca r s).1 ≡ (save re r s.store).1)
          × Stands (save re r s.store).0 (upsert_rule (memory_store re) ca r s).0
    unfolding upsert_rule
    upsert_rule_lem r s h =
        ground
          (arith, finish_lem (record s { store = (save re r s.store).0 }), save_refused r s.store)

    pub delete_rule_lem :
        (id : Text) (s : Serves)
        → IsCoherent s
        → ((delete_rule (memory_store re) ca id s).1 ≡ (delete id s.store).1)
          × Stands (delete id s.store).0 (delete_rule (memory_store re) ca id s).0
    unfolding delete_rule
    delete_rule_lem id s h =
        ground (
          arith,
          finish_lem (record s { store = (delete id s.store).0 }),
          delete_refused id s.store,
        )

    on_event_lem :
        (evt : Event) (s : Serves)
        → IsCoherent s
        → Stands s.store (on_event (memory_store re) ca evt s)
    unfolding on_event
    on_event_lem evt s h = ground (arith, clone_rules-same (list s.store))

    -- One request: the service answers as its store does, and stands for the store after it.
    pub step_lem :
        (q : Request) (s : Serves)
        → IsCoherent s
        → ((answer_of_service q s).1 ≡ (answer_of_store q s.store).1)
          × Stands (answer_of_store q s.store).0 (answer_of_service q s).0
    unfolding answer_of_service answer_of_store
    step_lem list_all s h = ground (arith, list_rules_lem s h)
    step_lem (get_one id) s h = unfold get_rule in (refl, (refl, h))
    step_lem (upsert r) s h = ground (arith, upsert_rule_lem r s h)
    step_lem (remove id) s h = ground (arith, delete_rule_lem id s h)
    step_lem (event evt) s h = (refl, on_event_lem evt s h)

    -- For every sequence of requests and bus events, a service that has no shared cache gives the
    -- answers of its store alone: each listing is the store's at that time, and each write has the
    -- store's error.
    pub answers-refine :
        (qs : List Request) (s : Serves)
        → IsCoherent s
        → answers answer_of_service qs s ≡ answers answer_of_store qs s.store
    unfolding answers
    answers-refine [] s h = refl
    answers-refine (q ∷ qs) s h =
        let (same, (stored, h')) = step_lem q s h in
        ap₂ (λ a rest. a ∷ rest) same
          (answers-refine qs _ h' ∙ ap (answers answer_of_store qs) stored)

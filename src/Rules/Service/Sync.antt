-- ===== src/Rules/Service/Sync.antt =====
-- The cached listing and the shared cache of pkg/rules/service.go, over any store and cache.
use yapi.Common.{
  ◌≡◌, ◌++◌, ◌||◌, not, is_some, ◌≢◌, inl, inr, Bool, none, some, List, [], ◌∷◌, ok, arith,
  Result-cases, if◌then◌else◌,
}
use yapi.Common.Text.{Text}
use yapi.Rules.Model.{Rule}
use yapi.Rules.Store.{Store}
use yapi.Rules.Service.{
  Cache, hit, Event, Service, list_rules, finish, upsert_rule, delete_rule, event_rules_changed,
}
use yapi.Rules.Service.Clone.{clone_rules-same}

module _ {S C : Type 0} (st : Store S) (ca : Cache C) where
  list_cached : (s : Service S C) → s.cached ≢ [] → list_rules st ca s ≡ (s, ok s.cached)
  unfolding list_rules
  list_cached s h = ground (arith, clone_rules-same s.cached)

  -- After a write to the store that left it at `written`: the listing that the store then gave is
  -- cached; if it is not empty the next `ListRules` returns it and changes nothing; and the event
  -- has been handed to the bus, if there is one, behind the earlier `events`.
  pub record IsFresh (written : S) (bus : Bool) (events : List Event) (after : Service S C)
      : Type 0 where
    pub listed : st.list written ≡ (after.store, ok after.cached)
    pub served : after.cached ≢ [] → list_rules st ca after ≡ (after, ok after.cached)
    pub told : after.published ≡ (if bus then events ++ event_rules_changed ∷ [] else events)

  finish-listed :
      (s : Service S C)
      → (finish st ca s).1 ≡ none
      → st.list s.store ≡ ((finish st ca s).0.store, ok (finish st ca s).0.cached)
  unfolding finish
  finish-listed s h = elim (Result-cases (st.list s.store).1) [
    | inl (rules, e) ↦ ground (arith, clone_rules-same rules)
    | inr (x, e) ↦ ground arith
  ]

  finish-told :
      (s : Service S C)
      → (finish st ca s).0.published ≡ (
          if is_some (finish st ca s).1 || not s.has_bus
          then s.published
          else s.published ++ event_rules_changed ∷ [])
  unfolding finish
  finish-told s = ground arith

  finish-IsFresh :
      (s : Service S C)
      → (finish st ca s).1 ≡ none
      → IsFresh s.store s.has_bus s.published (finish st ca s).0
  finish-IsFresh s h = record {
    listed = finish-listed s h;
    served = list_cached (finish st ca s).0;
    told = ground (arith, finish-told s);
  }

  upsert_rule-finish :
      (r : Rule) (s : Service S C)
      → (st.save r s.store).1 ≡ none
      → upsert_rule st ca r s ≡ finish st ca (record s { store = (st.save r s.store).0 })
  unfolding upsert_rule finish
  upsert_rule-finish r s e = rw (e, upsert_rule)

  delete_rule-finish :
      (id : Text) (s : Service S C)
      → (st.delete id s.store).1 ≡ none
      → delete_rule st ca id s ≡ finish st ca (record s { store = (st.delete id s.store).0 })
  unfolding delete_rule finish
  delete_rule-finish id s e = rw (e, delete_rule)

  saved :
      (r : Rule) (s : Service S C) → (upsert_rule st ca r s).1 ≡ none → (st.save r s.store).1 ≡ none
  unfolding upsert_rule
  saved r s h = ground arith

  deleted :
      (id : Text) (s : Service S C)
      → (delete_rule st ca id s).1 ≡ none
      → (st.delete id s.store).1 ≡ none
  unfolding delete_rule
  deleted id s h = ground arith

  -- When `UpsertRule` returns nil, the listing that the store gives after the write is cached, the
  -- next `ListRules` returns it unless it is empty, and the event has been handed to the bus, if
  -- there is one; whatever the shared cache holds or answers.
  pub upsert_rule-IsFresh :
      (r : Rule) (s : Service S C)
      → (upsert_rule st ca r s).1 ≡ none
      → IsFresh (st.save r s.store).0 s.has_bus s.published (upsert_rule st ca r s).0
  upsert_rule-IsFresh r s h =
      let e = upsert_rule-finish r s (saved r s h) in
      rw e (finish-IsFresh (record s { store = (st.save r s.store).0 }) (rw e at h))

  -- When `DeleteRule` returns nil, the listing that the store gives after the deletion is cached,
  -- the next `ListRules` returns it unless it is empty, and the event has been handed to the bus, if
  -- there is one; whatever the shared cache holds or answers.
  pub delete_rule-IsFresh :
      (id : Text) (s : Service S C)
      → (delete_rule st ca id s).1 ≡ none
      → IsFresh (st.delete id s.store).0 s.has_bus s.published (delete_rule st ca id s).0
  delete_rule-IsFresh id s h =
      let e = delete_rule-finish id s (deleted id s h) in
      rw e (finish-IsFresh (record s { store = (st.delete id s.store).0 }) (rw e at h))

  finish-cache :
      (s : Service S C) (c : C)
      → s.cache ≡ some c
      → (finish st ca s).1 ≡ none
      → (finish st ca s).0.cache ≡ some (ca.set (finish st ca s).0.cached c).0
  unfolding finish
  finish-cache s c has h = elim (Result-cases (st.list s.store).1) [
    | inl (rules, e) ↦ ground (arith, clone_rules-same rules)
    | inr (x, e) ↦ ground arith
  ]

  list_shared :
      (s : Service S C) (c c' : C) (old : List Rule)
      → s.cached ≡ []
      → s.cache ≡ some c
      → ca.get c ≡ (c', hit old)
      → (list_rules st ca s).1 ≡ ok old
  unfolding list_rules
  list_shared s c c' old e has answers = ground (arith, clone_rules-same old)

  -- If the last rule is deleted and the shared cache does not take the empty listing (its `Set`
  -- fails and it keeps `old`), the next `ListRules` returns the deleted rules again, because an
  -- empty listing counts as none.
  pub delete_rule-resurrects :
      (id : Text) (s : Service S C) (c c' : C) (old : List Rule)
      → s.cache ≡ some c
      → (delete_rule st ca id s).1 ≡ none
      → (delete_rule st ca id s).0.cached ≡ []
      → (ca.set [] c).0 ≡ c
      → ca.get c ≡ (c', hit old)
      → (list_rules st ca (delete_rule st ca id s).0).1 ≡ ok old
  delete_rule-resurrects id s c c' old has h emptied kept answers =
      let e = delete_rule-finish id s (deleted id s h) in
      let s' = delete_rule st ca id s in
      let shared : s'.0.cache ≡ some (ca.set s'.0.cached c).0 =
        rw e (finish-cache (record s { store = (st.delete id s.store).0 }) c has (rw e at h)) in
      list_shared s'.0 c c' old emptied (ground (arith, shared)) answers

-- ===== src/Rules/Service.antt =====
-- pkg/rules/service.go: rules over a store, with a cached listing, an optional shared cache and an
-- optional event bus; the interfaces of pkg/rules/cache.go and pkg/rules/events.go.
pub mod Clone
pub mod Sync
pub mod Refine
pub mod Served
pub mod Race
use yapi.Common.{
  Bool, true, false, ◌&&◌, Option, none, some, List, [], ◌∷◌, ◌++◌, Result, ok, err, if◌then◌else◌,
  is_nil,
}
use yapi.Common.Text.{Text, text, text_eq}
use yapi.Rules.Model.{Rule}
use yapi.Rules.Store.{Store, StoreError}
use yapi.Rules.Service.Clone.{clone_rules}

-- What `Cache.Get` answers: rules, `ErrCacheMiss`, or another error.
pub data CacheReply : Type 0 where
  hit : List Rule → CacheReply
  miss failed : CacheReply

-- The interface `Cache`, over the state `C` of what implements it. The Boolean of `set` is true if
-- the error is nil. `Invalidate`, which the service never calls, is left out.
pub record Cache (C : Type 0) : Type 0 where
  pub get : C → C × CacheReply
  pub set : List Rule → C → C × Bool

abbrev pub Event : Type 0
Event = Text

-- `EventRulesChanged`
abbrev pub event_rules_changed : Event
event_rules_changed = text "rules_changed"

-- `service`: the state of its store and of its cache (`none` if nil), whether there is an event
-- bus, the cached listing, and every event that was handed to the bus. What is logged is left out.
pub record Service (S C : Type 0) : Type 0 where
  pub store : S
  pub cache : Option C
  pub has_bus : Bool
  pub cached : List Rule
  pub published : List Event

module _ {S C : Type 0} (st : Store S) (ca : Cache C) where
  abbrev pub set_cached_rules : List Rule → Service S C → Service S C
  set_cached_rules rules s = record s { cached = clone_rules rules }

  -- `if len(s.cached) == 0 { return nil, false }`
  abbrev get_cached_rules : Service S C → Option (List Rule)
  get_cached_rules s = if is_nil s.cached then none else some s.cached

  -- `if s.cache != nil { s.cache.Set(ctx, rules) }`, whose error is only logged.
  abbrev pub write_cache : List Rule → Service S C → Service S C
  write_cache rules s = elim s.cache [
    | none ↦ s
    | some c ↦ record s { cache = some (ca.set rules c).0 }
  ]

  -- The listing of the store becomes the cached one, and goes into the cache.
  unfoldable pub refresh : Service S C → Service S C × Result StoreError (List Rule)
  refresh s =
      let (store', listed) = st.list s.store in
      elim listed [
        | err e ↦ (record s { store = store' }, err e)
        | ok rules ↦
            (write_cache rules (set_cached_rules rules (record s { store = store' })), ok rules)
      ]

  abbrev error_of : Result StoreError (List Rule) → Option StoreError
  error_of (ok _) = none
  error_of (err e) = some e

  -- `refreshCache`
  unfoldable pub refresh_cache : Service S C → Service S C × Option StoreError
  unfolding refresh
  refresh_cache s = let (s', r) = refresh s in (s', error_of r)

  -- The cache's rules become the cached listing if it has any; `none` if it answers otherwise.
  unfoldable pub read_cache : Service S C → Service S C × Option (List Rule)
  read_cache s = elim s.cache [
    | none ↦ (s, none)
    | some c ↦
        let (c', reply) = ca.get c in
        elim reply [
          | hit rules ↦ (set_cached_rules rules (record s { cache = some c' }), some rules)
          | miss ↦ (record s { cache = some c' }, none)
          | failed ↦ (record s { cache = some c' }, none)
        ]
  ]

  abbrev cloned : Result StoreError (List Rule) → Result StoreError (List Rule)
  cloned (ok rules) = ok (clone_rules rules)
  cloned (err e) = err e

  -- `ListRules`
  unfoldable pub list_rules : Service S C → Service S C × Result StoreError (List Rule)
  unfolding refresh read_cache
  list_rules s = elim (get_cached_rules s) [
    | some rules ↦ (s, ok (clone_rules rules))
    | none ↦
        let (s', found) = read_cache s in
        elim found [
          | some rules ↦ (s', ok (clone_rules rules))
          | none ↦ let (s2, r) = refresh s' in (s2, cloned r)
        ]
  ]

  -- `GetRule`
  unfoldable pub get_rule : Text → Service S C → Service S C × Result StoreError Rule
  get_rule id s = let (store', r) = st.get id s.store in (record s { store = store' }, r)

  -- `broadcast`; an error of the bus is only logged.
  abbrev pub broadcast : Service S C → Service S C
  broadcast s =
      if s.has_bus then record s { published = s.published ++ event_rules_changed ∷ [] } else s

  -- What follows a successful write: the refresh and, if that succeeds, the event.
  unfoldable pub finish : Service S C → Service S C × Option StoreError
  unfolding refresh_cache
  finish s =
      let (s', e) = refresh_cache s in
      elim e [ some x ↦ (s', some x) | none ↦ (broadcast s', none) ]

  -- `UpsertRule`
  unfoldable pub upsert_rule : Rule → Service S C → Service S C × Option StoreError
  upsert_rule rule s =
      let (store', e) = st.save rule s.store in
      elim e [
        | some x ↦ (record s { store = store' }, some x)
        | none ↦ finish (record s { store = store' })
      ]

  -- `DeleteRule`
  unfoldable pub delete_rule : Text → Service S C → Service S C × Option StoreError
  delete_rule id s =
      let (store', e) = st.delete id s.store in
      elim e [
        | some x ↦ (record s { store = store' }, some x)
        | none ↦ finish (record s { store = store' })
      ]

  -- `reload`
  unfoldable pub reload : Service S C → Service S C × Option StoreError
  unfolding refresh_cache read_cache
  reload s =
      let (s', found) = read_cache s in elim found [ some _ ↦ (s', none) | none ↦ refresh_cache s' ]

  -- The body of the loop of `StartBackgroundSync` on an event that the bus delivers; an error of
  -- the reload is only logged.
  unfoldable pub on_event : Event → Service S C → Service S C
  unfolding reload
  on_event evt s = if text_eq evt event_rules_changed then (reload s).0 else s

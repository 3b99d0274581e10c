-- ===== src/Rules/Service/Race.antt =====
-- Calls of the service of pkg/rules/service.go that overlap: each runs in steps, between which others
-- run. The store in memory locks itself throughout an operation, and the cached listing is read and
-- written under a lock, so a step is one operation of the store, of the cached listing, of the shared
-- cache or of the event bus.
pub mod Alone
pub mod Lost
mod Tests
use yapi.Common.{ℕ, Bool, true, false, ◌≡◌, none, List, ◌==◌, if◌then◌else◌}
use yapi.Common.Text.{Text}
use yapi.Common.Dict.{Dict}
use yapi.Rules.Model.{Rule, Regexp}
use yapi.Rules.Store.{memory_store, list, save, delete}
use yapi.Rules.Service.{Cache, Service, set_cached_rules, write_cache, broadcast}

-- How far a call has come: it has not begun or is over; it is about to list the store, in
-- `refreshCache`; it has the listing; it has made it the cached one; it has written the shared cache.
-- The Boolean says whether the call publishes an event at its end, as the writing ones do.
pub data Phase : Type 0 where
  idle : Phase
  refreshing : Bool → Phase
  fetched : Bool → List Rule → Phase
  kept : Bool → List Rule → Phase
  shared : Bool → Phase

-- The service, and the calls by number.
pub record World (C : Type 0) : Type 0 where
  pub service : Service (Dict Rule) C
  pub calls : ℕ → Phase

abbrev pub set_call : ℕ → Phase → (ℕ → Phase) → ℕ → Phase
set_call i phase calls j = if i == j then phase else calls j

module _ {C : Type 0} (re : Regexp) (ca : Cache C) where
  -- The call `i` comes to a phase, with the service as given.
  abbrev pub turn : ℕ → Phase → Service (Dict Rule) C → World C → World C
  turn i phase s w = record { service = s; calls = set_call i phase w.calls }

  abbrev pub ended : Bool → Service (Dict Rule) C → Service (Dict Rule) C
  ended tells s = if tells then broadcast (memory_store re) ca s else s

  -- `UpsertRule` and `DeleteRule` write, refresh and publish; `ListRules`, `reload` and `Refresh`
  -- only refresh. The refresh lists the store, sets the cached listing and writes the shared cache.
  pub data Step (w : World C) : World C → Type 0 where
    upserts :
        (i : ℕ) (r : Rule) (rules : Dict Rule)
        → w.calls i ≡ idle
        → save re r w.service.store ≡ (rules, none)
        → Step w (turn i (refreshing true) (record w.service { store = rules }) w)
    deletes :
        (i : ℕ) (id : Text) (rules : Dict Rule)
        → w.calls i ≡ idle
        → delete id w.service.store ≡ (rules, none)
        → Step w (turn i (refreshing true) (record w.service { store = rules }) w)
    begins : (i : ℕ) → w.calls i ≡ idle → Step w (turn i (refreshing false) w.service w)
    fetches :
        (i : ℕ) (tells : Bool)
        → w.calls i ≡ refreshing tells
        → Step w (turn i (fetched tells (list w.service.store)) w.service w)
    keeps :
        (i : ℕ) (tells : Bool) (rules : List Rule)
        → w.calls i ≡ fetched tells rules
        → Step w
            (turn i (kept tells rules) (set_cached_rules (memory_store re) ca rules w.service) w)
    shares :
        (i : ℕ) (tells : Bool) (rules : List Rule)
        → w.calls i ≡ kept tells rules
        → Step w (turn i (shared tells) (write_cache (memory_store re) ca rules w.service) w)
    ends :
        (i : ℕ) (tells : Bool)
        → w.calls i ≡ shared tells
        → Step w (turn i idle (ended tells w.service) w)

  pub data Reach (w : World C) : World C → Type 0 where
    here : Reach w w
    next : {v u : World C} → Reach w v → Step v u → Reach w u

-- ===== src/Rules/Service/Race/Alone.antt =====
-- A call of pkg/rules/service.go whose steps no other call interrupts does what the operation does.
use yapi.Common.{ℕ, Bool, ◌≡◌, Option}
use yapi.Common.Text.{Text}
use yapi.Common.Dict.{Dict}
use yapi.Rules.Model.{Rule, Regexp}
use yapi.Rules.Store.{StoreError, memory_store, list}
use yapi.Rules.Service.{
  Cache, Service, set_cached_rules, write_cache, refresh_cache, upsert_rule, delete_rule,
}
use yapi.Rules.Service.Race.{World, ended, Reach}

-- A call that refreshes the cached listing: `UpsertRule`, `DeleteRule` or `refreshCache` itself.
pub data Call : Type 0 where
  upserting : Rule → Call
  deleting : Text → Call
  refreshing_only : Call

module _ {C : Type 0} (re : Regexp) (ca : Cache C) where
  abbrev pub perform : Call → Service (Dict Rule) C → Service (Dict Rule) C × Option StoreError
  perform (upserting r) = upsert_rule (memory_store re) ca r
  perform (deleting id) = delete_rule (memory_store re) ca id
  perform refreshing_only = refresh_cache (memory_store re) ca

  -- A run that leaves the service as given, and every call where it was.
  pub record Alone (w : World C) (s : Service (Dict Rule) C) : Type 0 where
    pub last : World C
    pub run : Reach re ca w last
    pub leaves : last.service ≡ s
    pub others : (j : ℕ) → last.calls j ≡ w.calls j

  -- The service after the refresh and, if the call publishes one, the event.
  abbrev refreshed : Bool → Service (Dict Rule) C → Service (Dict Rule) C
  refreshed tells s = ended re ca tells (
      write_cache (memory_store re) ca (list s.store)
        (set_cached_rules (memory_store re) ca (list s.store) s))

-- ===== src/Rules/Service/Race/Lost.antt =====
-- Two overlapping writes of pkg/rules/service.go, of which the later is not served.
use yapi.Common.{ℕ, ◌≡◌, ◌≢◌, Bool, true, none, List, All, ok}
use yapi.Common.Dict.{Dict}
use yapi.Rules.Model.{Rule, Regexp}
use yapi.Rules.Store.{memory_store, list, get, save}
use yapi.Rules.Service.{Cache, Event, Service, list_rules, set_cached_rules, write_cache}
use yapi.Rules.Service.Race.{idle, refreshing, fetched, kept, shared, World, turn, ended}

module _ {C : Type 0} (re : Regexp) (ca : Cache C) (d : Dict Rule) (cached : List Rule) (bus : Bool)
    (published : List Event) (a b : Rule) where
  -- The store with `a`, and with both.
  abbrev with_a : Dict Rule
  with_a = (save re a d).0

  abbrev with_both : Dict Rule
  with_both = (save re b with_a).0

  -- No call has begun, and there is no shared cache.
  abbrev pub at_rest : World C
  at_rest = record {
    service = record {
      store = d;
      cache = none;
      has_bus = bus;
      cached = cached;
      published = published;
    };
    calls = λ i. idle;
  }

  -- The call `i` writes the store and lists it.
  abbrev wrote : ℕ → Dict Rule → World C → World C
  wrote i rules w =
      let v = turn re ca i (refreshing true) (record w.service { store = rules }) w in
      turn re ca i (fetched true (list rules)) v.service v

  -- The call `i` sets the cached listing and publishes its event.
  abbrev finished : ℕ → List Rule → World C → World C
  finished i rules w =
      let v =
        turn re ca i (kept true rules) (set_cached_rules (memory_store re) ca rules w.service) w in
      let u = turn re ca i (shared true) (write_cache (memory_store re) ca rules v.service) v in
      turn re ca i idle (ended re ca true u.service) u

  abbrev pub overtaken : World C
  overtaken =
      finished 0 (list with_a)
        (finished 1 (list with_both) (wrote 1 with_both (wrote 0 with_a at_rest)))

  abbrev b_over : World C
  b_over = finished 1 (list with_both) (wrote 1 with_both (wrote 0 with_a at_rest))

  -- No call is under way and `b` is stored, but what is served is without it.
  pub record Loses (w : World C) : Type 0 where
    pub over : (i : ℕ) → w.calls i ≡ idle
    pub stored : get b.id w.service.store ≡ ok b
    pub served : List Rule
    pub answers : (list_rules (memory_store re) ca w.service).1 ≡ ok served
    pub without : All (λ r. r.id ≢ b.id) served

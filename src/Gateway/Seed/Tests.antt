-- ===== src/Gateway/Seed/Tests.antt =====
-- The seeded rule on a service whose store is empty.
use yapi.Common.{◌≡◌, refl, none, [], inl, false}
use yapi.Rules.Service.Refine.{Serves}
use yapi.Gateway.Seed.{seed_default_rule}
use yapi.Gateway.Seed.Once.{rules_service, Seeded, seed_default_rule-Seeded}
use yapi.Fixtures.{plain_regexp, stubborn}

abbrev at_start : Serves plain_regexp stubborn
at_start = record { store = []; cache = none; has_bus = false; cached = []; published = [] }

abbrev after_start : Serves plain_regexp stubborn
after_start = (seed_default_rule (rules_service plain_regexp stubborn) at_start).0

seed_default_rule-Seeded_example :
    ((seed_default_rule (rules_service plain_regexp stubborn) at_start).1 ≡ none)
    × Seeded plain_regexp stubborn at_start after_start
seed_default_rule-Seeded_example =
    seed_default_rule-Seeded plain_regexp stubborn at_start after_start
      (record { no_cache = refl; fresh = inl refl }) refl

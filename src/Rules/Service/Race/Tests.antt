-- ===== src/Rules/Service/Race/Tests.antt =====
-- Overlapping calls of a service whose store is empty.
use yapi.Common.{true, List, []}
use yapi.Common.Dict.{Dict}
use yapi.Rules.Model.{Rule}
use yapi.Rules.Store.{memory_store}
use yapi.Rules.Service.{Service, upsert_rule}
use yapi.Rules.Service.Race.{World}
use yapi.Rules.Service.Race.Alone.{Alone}
use yapi.Rules.Service.Race.Lost.{at_rest}
use yapi.Fixtures.{plain_regexp, stubborn, low_rule, high_rule}

abbrev start : World (List Rule)
start = at_rest plain_regexp stubborn [] [] true [] low_rule high_rule

-- One call alone, which publishes its event.
abbrev upserted : Service (Dict Rule) (List Rule)
upserted = (upsert_rule (memory_store plain_regexp) stubborn low_rule start.service).0

-- ===== src/Admin/Rules/Tests.antt =====
-- The answers to a rule that is sent or deleted, over a service with one rule.
use yapi.Common.{◌≡◌, ◌↔◌, refl, inl, false, none, List, [], ◌∷◌}
use yapi.Common.Text.{text}
use yapi.Common.Dict.{Dict}
use yapi.Rules.Model.{Rule}
use yapi.Rules.Model.Valid.{IsValid}
use yapi.Rules.Store.{save}
use yapi.Rules.Service.{Service}
use yapi.Rules.Service.Refine.{IsCoherent}
use yapi.Admin.Rules.{saved, failed}
use yapi.Admin.Rules.Statuses.{Named, save_answer, create_or_update_rule-IsValid}
use yapi.Fixtures.{plain_regexp, low_rule, high_rule, stubborn}

abbrev one_rule : Service (Dict Rule) (List Rule)
one_rule = record {
  store = (text "low", low_rule) ∷ [];
  cache = none;
  has_bus = false;
  cached = [];
  published = [];
}

one_rule-IsCoherent : IsCoherent plain_regexp stubborn one_rule
one_rule-IsCoherent = record { no_cache = refl; fresh = inl refl }

create_or_update_rule-IsValid_example :
    (named : Rule) × Named (text "x") high_rule named
    × (((save_answer plain_regexp stubborn one_rule one_rule-IsCoherent (text "x") high_rule).1
          ≡ saved named)
        ↔ IsValid plain_regexp named)
    × (((save_answer plain_regexp stubborn one_rule one_rule-IsCoherent (text "x") high_rule).1
          ≡ failed 400)
        ↔ (¬ IsValid plain_regexp named))
    × ((save_answer plain_regexp stubborn one_rule one_rule-IsCoherent (text "x") high_rule).0.store
        ≡ (save plain_regexp named one_rule.store).0)
create_or_update_rule-IsValid_example =
    create_or_update_rule-IsValid plain_regexp stubborn one_rule one_rule-IsCoherent (text "x")
      high_rule

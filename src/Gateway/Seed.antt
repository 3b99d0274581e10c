-- ===== src/Gateway/Seed.antt =====
-- `seedDefaultRule` and `mustParseURL` of cmd/gateway/main.go.
pub mod Once
mod Tests
use yapi.Common.{
  ◌≡◌, refl, inl, inr, true, false, Option, none, some, List, [], ◌∷◌, Result, ok, err,
  if◌then◌else◌, is_nil, arith, Result-cases, Option-cases, ◌∙◌, sym, ap,
}
use yapi.Common.Int.{pos}
use yapi.Common.Text.{Text, text}
use yapi.Common.Dict.{Dict}
use yapi.Rules.Model.{Rule, Regexp, validate}
use yapi.Rules.Store.{Store, StoreError, invalid, rule_not_found, backend, get, save}
use yapi.Proxy.Match.{Url}
use yapi.Proxy.Handler.{Net}
use yapi.Admin.Service.{RulesService}

-- The rule that is there from the start, switched off.
abbrev pub seeded_rule : Rule
seeded_rule = record {
  id = text "bootstrap-openai";
  priority = pos 100;
  matcher = record {
    path_prefix = text "/v1";
    methods = text "POST" ∷ [];
    headers = [];
    api_key_ids = [];
    api_key_prefixes = [];
    user_ids = [];
    user_metadata = [];
    binding_upstream_ids = [];
    binding_providers = [];
    require_binding = false;
  };
  actions = record {
    set_target_url = text "https://api.openai.com";
    set_headers = [];
    add_headers = [];
    remove_headers = [];
    set_authorization = [];
    override_json = [];
    remove_json = [];
    rewrite_path_regex = none;
    script = [];
  };
  enabled = false;
  version = pos 0;
  created_by = [];
  updated_by = [];
  created_at = 0;
  updated_at = 0;
}

module _ {S : Type 0} (svc : RulesService S) where
  abbrev seed_if_missing : S × Result StoreError Rule → S × Option StoreError
  seed_if_missing (s, ok rule) = (s, none)
  seed_if_missing (s, err rule_not_found) = svc.upsert_rule seeded_rule s
  seed_if_missing (s, err (invalid e)) = (s, some (invalid e))
  seed_if_missing (s, err (backend e)) = (s, some (backend e))

  -- `seedDefaultRule`
  unfoldable pub seed_default_rule : S → S × Option StoreError
  seed_default_rule s = seed_if_missing (svc.get_rule seeded_rule.id s)

-- `mustParseURL`: a base URL that is not empty and does not parse ends the program.
pub data BaseUrl : Type 0 where
  no_target : BaseUrl
  target : Url → BaseUrl
  fatal : BaseUrl

unfoldable pub must_parse_url : Net → Text → BaseUrl
must_parse_url net raw =
    if is_nil raw then no_target else elim (net.parse_url raw) [ none ↦ fatal | some u ↦ target u ]

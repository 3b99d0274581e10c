-- ===== src/Rules/DbStore/Tests.antt =====
-- The property of the database's store at a concrete rule and table.
use yapi.Common.{
  ◌≡◌, refl, Bool, false, ◌&&◌, not, Option, none, some, [], ok, err, if◌then◌else◌, is_nil,
  is_some, arith,
}
use yapi.Common.Text.{Text, text, trim_space, trim_left, trim_right, is_space, has_prefix}
use yapi.Rules.Model.{
  Rule, Matcher, Actions, validate, validate_matcher, validate_actions, check_each,
}
use yapi.Rules.Model.Valid.{IsValid}
use yapi.Rules.DbStore.{RuleRecord, RuleCodec, no_row, Table, new_rule_record, db_get, db_save}
use yapi.Rules.DbStore.Same.{same_matcher, same_actions, IsKept}
use yapi.Rules.DbStore.Kept.{ReadsBack, KeepsRows, db_save-db_get}
use yapi.Fixtures.{plain_regexp, low_rule}

-- The matcher that has a path and nothing else, and the actions that have a target and nothing else.
abbrev only_path : Text → Matcher
only_path path = record {
  path_prefix = path;
  methods = [];
  headers = [];
  api_key_ids = [];
  api_key_prefixes = [];
  user_ids = [];
  user_metadata = [];
  binding_upstream_ids = [];
  binding_providers = [];
  require_binding = false;
}

abbrev only_target : Text → Actions
only_target target = record {
  set_target_url = target;
  set_headers = [];
  add_headers = [];
  remove_headers = [];
  set_authorization = [];
  override_json = [];
  remove_json = [];
  rewrite_path_regex = none;
  script = [];
}

abbrev has_only_path : Matcher → Bool
has_only_path m =
    is_nil m.methods
    && is_nil m.headers
    && is_nil m.api_key_ids
    && is_nil m.api_key_prefixes
    && is_nil m.user_ids
    && is_nil m.user_metadata
    && is_nil m.binding_upstream_ids
    && is_nil m.binding_providers
    && not m.require_binding

abbrev has_only_target : Actions → Bool
has_only_target a =
    is_nil a.set_headers
    && is_nil a.add_headers
    && is_nil a.remove_headers
    && is_nil a.set_authorization
    && is_nil a.override_json
    && is_nil a.remove_json
    && not (is_some a.rewrite_path_regex)
    && is_nil a.script

-- A codec for those alone: the text is the path, or the target.
abbrev small_codec : RuleCodec
small_codec = record {
  marshal_matcher = λ m. if has_only_path m then some m.path_prefix else none;
  unmarshal_matcher = λ t. some (only_path t);
  marshal_actions = λ a. if has_only_target a then some a.set_target_url else none;
  unmarshal_actions = λ t. some (only_target t);
}

small_codec-ReadsBack : ReadsBack small_codec
small_codec-ReadsBack = record {
  matcher = λ m t e. (m, ground arith, same_matcher m);
  actions = λ a t e. (a, ground arith, same_actions a);
}

-- A table of one row.
abbrev one_row : Table (Option RuleRecord)
one_row = record {
  find = λ d. ok [];
  first = λ id d. elim d [ none ↦ err no_row | some r ↦ ok r ];
  upsert = λ r d. ok (some r);
  delete = λ id d. ok (none, 1);
}

one_row-KeepsRows : KeepsRows small_codec one_row
one_row-KeepsRows = record {
  found = λ r d d' e. (
    r,
    ground arith,
    record { id = refl; priority = refl; matcher = refl; actions = refl; enabled = refl },
  );
}

abbrev path_rule : Rule
path_rule = record low_rule {
  matcher = only_path (text "/v1");
  actions = only_target (text "https://up");
  created_by = text "ann";
}

abbrev saved : Option RuleRecord
saved = (db_save small_codec one_row plain_regexp path_rule none).0

saves : db_save small_codec one_row plain_regexp path_rule none ≡ (saved, none)
unfolding db_save new_rule_record validate validate_matcher validate_actions check_each trim_space
    trim_left trim_right is_space has_prefix
saves = refl

db_save-db_get_example :
    IsValid plain_regexp path_rule
    × (kept : Rule) × (db_get small_codec one_row (text "low") saved ≡ ok kept)
    × IsKept path_rule kept
db_save-db_get_example =
    db_save-db_get small_codec small_codec-ReadsBack one_row one_row-KeepsRows plain_regexp
      path_rule none saved saves

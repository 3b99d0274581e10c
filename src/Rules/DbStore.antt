-- ===== src/Rules/DbStore.antt =====
-- pkg/rules/postgres_store.go: the store over a table of a database.
pub mod Kept
pub mod Same
mod Tests
use yapi.Common.{
  ℕ, ◌≡◌, Bool, Option, none, some, List, [], ◌∷◌, Result, ok, err, ◌>>=◌, if◌then◌else◌, ◌==◌,
}
use yapi.Common.Int.{ℤ, pos}
use yapi.Common.Text.{Text, text}
use yapi.Rules.Model.{Rule, Matcher, Actions, Regexp, validate}
use yapi.Rules.Store.{StoreError, invalid, rule_not_found, backend, Store}

-- `ruleRecord`: a row, whose matcher and actions are JSON text. The columns are of the type jsonb,
-- which does not keep a text as it was written.
pub record RuleRecord : Type 0 where
  pub id : Text
  pub priority : ℤ
  pub matcher : Text
  pub actions : Text
  pub enabled : Bool
  pub created_at : ℕ
  pub updated_at : ℕ

-- encoding/json on matchers and actions; `none` is an error.
pub record RuleCodec : Type 0 where
  pub marshal_matcher : Matcher → Option Text
  pub unmarshal_matcher : Text → Option Matcher
  pub marshal_actions : Actions → Option Text
  pub unmarshal_actions : Text → Option Actions

-- A query for one row: `gorm.ErrRecordNotFound`, or another error.
pub data RowError : Type 0 where
  no_row : RowError
  row_failed : Text → RowError

-- What the code asks of the table, whose state is `D`: the rows by falling priority, the row of an
-- id, the insertion of a row over one with its id, and the deletion of an id with the number of rows
-- that it affected.
pub record Table (D : Type 0) : Type 0 where
  pub find : D → Result Text (List RuleRecord)
  pub first : Text → D → Result RowError RuleRecord
  pub upsert : RuleRecord → D → Result Text D
  pub delete : Text → D → Result Text (D × ℕ)

abbrev or_codec {ℓ} : {A : Type ℓ} → Option A → Result StoreError A
or_codec none = err (backend (text "json"))
or_codec (some a) = ok a

module _ (codec : RuleCodec) where
  unfoldable pub new_rule_record : Rule → Result StoreError RuleRecord
  new_rule_record rule = do
    matcher ← or_codec (codec.marshal_matcher rule.matcher)
    actions ← or_codec (codec.marshal_actions rule.actions)
    ok (record {
      id = rule.id;
      priority = rule.priority;
      matcher = matcher;
      actions = actions;
      enabled = rule.enabled;
      created_at = 0;
      updated_at = 0;
    })

  unfoldable pub to_domain : RuleRecord → Result StoreError Rule
  to_domain r = do
    matcher ← or_codec (codec.unmarshal_matcher r.matcher)
    actions ← or_codec (codec.unmarshal_actions r.actions)
    ok (record {
      id = r.id;
      priority = r.priority;
      matcher = matcher;
      actions = actions;
      enabled = r.enabled;
      version = pos 0;
      created_by = [];
      updated_by = [];
      created_at = 0;
      updated_at = 0;
    })

  unfoldable pub to_domain_all : List RuleRecord → Result StoreError (List Rule)
  unfolding to_domain
  to_domain_all [] = ok []
  to_domain_all (r ∷ rs) = do rule ← to_domain r; rules ← to_domain_all rs; ok (rule ∷ rules)

  module _ {D : Type 0} (table : Table D) where
    abbrev rows : Result Text (List RuleRecord) → Result StoreError (List Rule)
    rows (err e) = err (backend e)
    rows (ok records) = to_domain_all records

    unfoldable pub db_list : D → Result StoreError (List Rule)
    unfolding to_domain_all
    db_list d = rows (table.find d)

    abbrev row : Result RowError RuleRecord → Result StoreError Rule
    row (err no_row) = err rule_not_found
    row (err (row_failed e)) = err (backend e)
    row (ok rec) = to_domain rec

    unfoldable pub db_get : Text → D → Result StoreError Rule
    unfolding to_domain
    db_get id d = row (table.first id d)

    abbrev stored : D → Result Text D → D × Option StoreError
    stored d (err e) = (d, some (backend e))
    stored d (ok d') = (d', none)

    abbrev written : D → Result StoreError RuleRecord → D × Option StoreError
    written d (err e) = (d, some e)
    written d (ok rec) = stored d (table.upsert rec d)

    unfoldable pub db_save : Regexp → Rule → D → D × Option StoreError
    unfolding new_rule_record
    db_save re rule d = elim (validate re rule) [
      | some e ↦ (d, some (invalid e))
      | none ↦ written d (new_rule_record rule)
    ]

    abbrev removed : D → Result Text (D × ℕ) → D × Option StoreError
    removed d (err e) = (d, some (backend e))
    removed d (ok (d', affected)) = if affected == 0 then (d', some rule_not_found) else (d', none)

    unfoldable pub db_delete : Text → D → D × Option StoreError
    db_delete id d = removed d (table.delete id d)

    -- `DBStore` as an implementation of the interface.
    abbrev pub db_store : Regexp → Store D
    db_store re = record {
      list = λ d. (d, db_list d);
      get = λ id d. (d, db_get id d);
      save = db_save re;
      delete = db_delete;
    }

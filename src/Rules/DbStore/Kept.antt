-- ===== src/Rules/DbStore/Kept.antt =====
-- Which parts of a rule the table keeps; pkg/rules/postgres_store.go.
use yapi.Common.{
  ◌≡◌, refl, inl, inr, none, some, [], ok, arith, Option-cases, Result-cases, ap, sym, ◌∙◌,
}
use yapi.Common.Int.{pos}
use yapi.Common.Text.{Text}
use yapi.Rules.Model.{Rule, Matcher, Actions, Regexp, validate}
use yapi.Rules.Model.Valid.{IsValid, validate-none_iff}
use yapi.Rules.DbStore.Same.{SameMatcher, SameActions, IsKept}
use yapi.Rules.DbStore.{RuleRecord, RuleCodec, Table, new_rule_record, to_domain, db_get, db_save}

-- What is relied on of encoding/json: what is read back of a matcher or of actions is the same but
-- for the order of maps.
pub record ReadsBack (codec : RuleCodec) : Type 0 where
  pub matcher :
      (m : Matcher) (t : Text)
      → codec.marshal_matcher m ≡ some t
      → (n : Matcher) × (codec.unmarshal_matcher t ≡ some n) × SameMatcher m n
  pub actions :
      (a : Actions) (t : Text)
      → codec.marshal_actions a ≡ some t
      → (b : Actions) × (codec.unmarshal_actions t ≡ some b) × SameActions a b

-- Two rows that are read alike: their texts may differ, as jsonb writes them anew, but mean the same.
pub record ReadAlike (codec : RuleCodec) (r q : RuleRecord) : Type 0 where
  pub id : q.id ≡ r.id
  pub priority : q.priority ≡ r.priority
  pub matcher : codec.unmarshal_matcher q.matcher ≡ codec.unmarshal_matcher r.matcher
  pub actions : codec.unmarshal_actions q.actions ≡ codec.unmarshal_actions r.actions
  pub enabled : q.enabled ≡ r.enabled

-- What is relied on of the table: when a row has been written, one is found under its id that is
-- read alike, whatever its times.
pub record KeepsRows (codec : RuleCodec) {D : Type 0} (table : Table D) : Type 0 where
  pub found :
      (r : RuleRecord) (d d' : D)
      → table.upsert r d ≡ ok d'
      → (q : RuleRecord) × (table.first r.id d' ≡ ok q) × ReadAlike codec r q

module _ (codec : RuleCodec) (reads : ReadsBack codec) where
  -- The parts of the row of a rule.
  record_parts :
      (r : Rule) (rec : RuleRecord)
      → new_rule_record codec r ≡ ok rec
      → (codec.marshal_matcher r.matcher ≡ some rec.matcher)
        × (codec.marshal_actions r.actions ≡ some rec.actions)
        × (rec.id ≡ r.id)
        × (rec.priority ≡ r.priority)
        × (rec.enabled ≡ r.enabled)
  unfolding new_rule_record
  record_parts r rec e = elim (Option-cases (codec.marshal_matcher r.matcher)) [
    | inl bad ↦ ground (arith, bad)
    | inr (m, em) ↦ elim (Option-cases (codec.marshal_actions r.actions)) [
      | inl bad ↦ ground (arith, bad, em)
      | inr (a, ea) ↦ (
        ground (arith, em, ea),
        ground (arith, em, ea),
        ground (arith, em, ea),
        ground (arith, em, ea),
        ground (arith, em, ea),
      )
    ]
  ]

  abbrev read_as : RuleRecord → Matcher → Actions → Rule
  read_as q m a = record {
    id = q.id;
    priority = q.priority;
    matcher = m;
    actions = a;
    enabled = q.enabled;
    version = pos 0;
    created_by = [];
    updated_by = [];
    created_at = 0;
    updated_at = 0;
  }

  to_domain-read :
      (q : RuleRecord) (m : Matcher) (a : Actions)
      → codec.unmarshal_matcher q.matcher ≡ some m
      → codec.unmarshal_actions q.actions ≡ some a
      → to_domain codec q ≡ ok (read_as q m a)
  unfolding to_domain
  to_domain-read q m a em ea = rw (em, ea)

  to_domain-new_rule_record :
      (r : Rule) (rec q : RuleRecord)
      → new_rule_record codec r ≡ ok rec
      → ReadAlike codec rec q
      → (kept : Rule) × (to_domain codec q ≡ ok kept) × IsKept r kept
  to_domain-new_rule_record r rec q e alike =
      let (em, ea, same_id, same_priority, same_enabled) = record_parts r rec e in
      let (m, rm, same_m) = reads.matcher r.matcher rec.matcher em in
      let (a, ra, same_a) = reads.actions r.actions rec.actions ea in
      (
        read_as q m a,
        to_domain-read q m a (alike.matcher ∙ rm) (alike.actions ∙ ra),
        record {
          id = alike.id ∙ same_id;
          priority = alike.priority ∙ same_priority;
          matcher = same_m;
          actions = same_a;
          enabled = alike.enabled ∙ same_enabled;
          version = refl;
          created_by = refl;
          updated_by = refl;
          created_at = refl;
          updated_at = refl;
        },
      )

  module _ {D : Type 0} (table : Table D) (keeps : KeepsRows codec table) (re : Regexp) where
    saved_parts :
        (r : Rule) (d d' : D)
        → db_save codec table re r d ≡ (d', none)
        → (validate re r ≡ none)
          × (rec : RuleRecord) × (new_rule_record codec r ≡ ok rec)
          × (table.upsert rec d ≡ ok d')
    unfolding db_save
    saved_parts r d d' e = elim (Option-cases (validate re r)) [
      | inr (x, bad) ↦ ground (arith, bad)
      | inl fine ↦ elim (Result-cases (new_rule_record codec r)) [
        | inr (x, bad) ↦ ground (arith, bad, fine)
        | inl (rec, made) ↦ elim (Result-cases (table.upsert rec d)) [
          | inr (x, bad) ↦ ground (arith, bad, fine, made)
          | inl (d2, put) ↦ (fine, rec, made, ground (arith, put, fine, made))
        ]
      ]
    ]

    get_found :
        (id : Text) (d : D) (rec : RuleRecord)
        → table.first id d ≡ ok rec
        → db_get codec table id d ≡ to_domain codec rec
    unfolding db_get
    get_found id d rec e = rw e

    -- A rule that `Save` of the database's store takes is valid, and `Get` then gives it back, but
    -- for the order of its maps and for its version, its authors and its times, which no column holds
    -- or which are not read.
    pub db_save-db_get :
        (r : Rule) (d d' : D)
        → db_save codec table re r d ≡ (d', none)
        → IsValid re r × (kept : Rule) × (db_get codec table r.id d' ≡ ok kept) × IsKept r kept
    db_save-db_get r d d' e =
        let (fine, rec, made, put) = saved_parts r d d' e in
        let (q, there, alike) = keeps.found rec d d' put in
        let (kept, back, is) = to_domain-new_rule_record r rec q made alike in
        let (_, _, same, _, _) = record_parts r rec made in
        (
          (validate-none_iff re r).0 fine,
          kept,
          ap (λ i. db_get codec table i d') (sym same) ∙ get_found rec.id d' _ there ∙ back,
          is,
        )

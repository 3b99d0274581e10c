-- ===== src/Admin/Rules/Statuses.antt =====
-- What the answers to a rule that is sent or deleted say of the store; internal/admin/handler.go over
-- the service of pkg/rules with its store in memory and no shared cache.
use yapi.Common.{
  ℕ, ◌≡◌, ◌≢◌, ◌↔◌, false, refl, inl, inr, ◌⊎◌, [], ◌∷◌, if◌then◌else◌, not, ◌&&◌, Option, none,
  some, err, is_nil, arith, Option-cases, ◌∙◌,
}
use yapi.Common.Text.{Text}
use yapi.Common.Dict.{Dict, lookup}
use yapi.Rules.Model.{Rule, InvalidRule, Regexp, validate}
use yapi.Rules.Model.Valid.{IsValid, validate-none_iff}
use yapi.Rules.Store.{StoreError, invalid, rule_not_found, memory_store, get, save, delete}
use yapi.Rules.Service.{Cache, Service, upsert_rule, delete_rule}
use yapi.Rules.Service.Refine.{IsCoherent, upsert_rule_lem, delete_rule_lem}
use yapi.Admin.Rules.{
  SaveReply, save_reply, delete_reply, saved, failed, with_id, create_or_update_rule,
  handle_delete_rule,
}

-- What a rule comes to that is sent to a path with an id: the rule itself if it has an id or the
-- path has none, and the rule with the path's id otherwise.
pub data Named (id : Text) (r : Rule) : Rule → Type 0 where
  own : (r.id ≢ []) ⊎ (id ≡ []) → Named id r r
  of_path : r.id ≡ [] → id ≢ [] → Named id r (record r { id = id })

with_id-Named : (id : Text) (r : Rule) → Named id r (with_id id r)
unfolding with_id
with_id-Named id r = go r.id refl id refl
  where
    go :
        (own_id : Text)
        → r.id ≡ own_id
        → (path : Text) → id ≡ path
        → Named id r (if not (is_nil path) && is_nil own_id then record r { id = id } else r)
    go (c ∷ own_id) e [] f = own (inr f)
    go (c ∷ own_id) e (d ∷ path) f = own (inl (λ empty. cc))
    go [] e [] f = own (inr f)
    go [] e (c ∷ path) f = of_path e (λ empty. cc)

module _ (re : Regexp) {C : Type 0} (ca : Cache C) (s : Service (Dict Rule) C)
    (coherent : IsCoherent re ca s) where
  abbrev pub save_answer : Text → Rule → Service (Dict Rule) C × SaveReply
  save_answer id r = create_or_update_rule (upsert_rule (memory_store re) ca) id (some r) s

  abbrev pub delete_answer : Text → Service (Dict Rule) C × ℕ
  delete_answer id = handle_delete_rule (delete_rule (memory_store re) ca) id s

  save_none : (r : Rule) → validate re r ≡ none → (save re r s.store).1 ≡ none
  unfolding save
  save_none r e = ground (arith, e)

  save_error :
      (r : Rule) (x : InvalidRule)
      → validate re r ≡ some x
      → (save re r s.store).1 ≡ some (invalid x)
  unfolding save
  save_error r x e = ground (arith, e)

  reply_of :
      (r : Rule) (p : Service (Dict Rule) C × Option StoreError)
      → p.1 ≡ (save re r s.store).1
      → p.0.store ≡ (save re r s.store).0
      → (((save_reply r p).1 ≡ saved r) ↔ IsValid re r)
        × (((save_reply r p).1 ≡ failed 400) ↔ (¬ IsValid re r))
        × ((save_reply r p).0.store ≡ (save re r s.store).0)
  reply_of r (s', e) same stored =
      let (to, from) = validate-none_iff re r in
      elim (Option-cases (validate re r)) [
        | inl fine ↦
            let e_none : e ≡ none = same ∙ save_none r fine in
            rw e_none
              (((λ _. to fine), (λ _. refl)), ((λ h v. cc), (λ no. absurd (no (to fine)))), stored)
        | inr (x, bad) ↦
            let e_some : e ≡ some (invalid x) = same ∙ save_error r x bad in
            rw e_some
              (((λ h. cc), (λ v. cc (from v))), ((λ h v. cc (from v)), (λ no. refl)), stored)
      ]

  deleted_of :
      (id : Text) (p : Service (Dict Rule) C × Option StoreError)
      → p.1 ≡ (delete id s.store).1
      → p.0.store ≡ (delete id s.store).0
      → (((delete_reply p).1 ≡ 404) ↔ (get id s.store ≡ err rule_not_found))
        × (((delete_reply p).1 ≡ 204) ↔ (get id s.store ≢ err rule_not_found))
        × ((delete_reply p).0.store ≡ (delete id s.store).0)
  unfolding delete get
  deleted_of id (s', e) same stored = elim (Option-cases (lookup id s.store)) [
    | inl absent ↦ ground (arith, absent)
    | inr (x, present) ↦ ground (arith, present)
  ]

  -- Over a coherent service on the store in memory, a rule that is sent becomes one with the path's
  -- id if it has no id of its own and the path has one, and stays as it is otherwise. The answer is
  -- 200 with that rule exactly if it is valid, and 400 exactly if it is not; the store is then as its
  -- own `Save` of that rule leaves it.
  pub create_or_update_rule-IsValid :
      (id : Text) (r : Rule)
      → (named : Rule) × Named id r named
        × (((save_answer id r).1 ≡ saved named) ↔ IsValid re named)
        × (((save_answer id r).1 ≡ failed 400) ↔ (¬ IsValid re named))
        × ((save_answer id r).0.store ≡ (save re named s.store).0)
  unfolding create_or_update_rule
  create_or_update_rule-IsValid id r =
      let r' = with_id id r in
      let (same, (stored, _)) = upsert_rule_lem re ca r' s coherent in
      let (right, wrong, put) = reply_of r' (upsert_rule (memory_store re) ca r' s) same stored in
      (r', with_id-Named id r, right, wrong, put)

  -- Over a coherent service on the store in memory: the deletion of an id that is not empty is
  -- answered with 204 exactly if the id is stored, and with 404 exactly if it is not. The store is
  -- then as its own `Delete` leaves it.
  pub handle_delete_rule_lem :
      (id : Text)
      → is_nil id ≡ false
      → (((delete_answer id).1 ≡ 404) ↔ (get id s.store ≡ err rule_not_found))
        × (((delete_answer id).1 ≡ 204) ↔ (get id s.store ≢ err rule_not_found))
        × ((delete_answer id).0.store ≡ (delete id s.store).0)
  unfolding handle_delete_rule
  handle_delete_rule_lem id full =
      let (same, (stored, _)) = delete_rule_lem re ca id s coherent in
      rw full (deleted_of id (delete_rule (memory_store re) ca id s) same stored)

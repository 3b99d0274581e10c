-- ===== src/Rules/Store/Laws.antt =====
-- `Get`, `Save` and `Delete` of the store in memory, pkg/rules/store.go.
use yapi.Common.{
  ◌≡◌, refl, ◌↔◌, inl, inr, none, some, [], ◌∷◌, Bool-cases, not, is_some, ◌&&◌, subst,
  Option-cases, arith, if◌then◌else◌, ok, err,
}
use yapi.Common.Text.{Text, text_eq, text_eq_iff}
use yapi.Common.Dict.{Dict, lookup, insert, erase, lookup-insert, lookup-erase}
use yapi.Rules.Model.{Rule, InvalidRule, Regexp, validate}
use yapi.Rules.Model.Valid.{IsValid, validate-none_iff}
use yapi.Rules.Store.{invalid, rule_not_found, get, save, delete}

-- Every rule stands under its id, once, and is valid.
abbrev pub IsWellFormed : Regexp → Dict Rule → Type 0
IsWellFormed re [] = Unit
IsWellFormed re ((k, r) ∷ rules) =
    (k ≡ r.id) × (lookup k rules ≡ none) × IsValid re r × IsWellFormed re rules

module _ (re : Regexp) where
  insert-IsWellFormed :
      (r : Rule) (rules : Dict Rule)
      → IsValid re r
      → IsWellFormed re rules
      → IsWellFormed re (insert r.id r rules)
  insert-IsWellFormed r [] v w = (refl, refl, v, tt)
  insert-IsWellFormed r ((k, x) ∷ rules) v (same, fresh, u, w) =
      elim (Bool-cases (text_eq k r.id)) [
        | inl e ↦ rw e ((text_eq_iff k r.id).0 e, fresh, v, w)
        | inr e ↦ rw e (
          same,
          ground (arith, lookup-insert r.id k r rules, text_eq_iff r.id k, text_eq_iff k r.id),
          u,
          insert-IsWellFormed r rules v w,
        )
      ]

  erase-IsWellFormed :
      (id : Text) (rules : Dict Rule) → IsWellFormed re rules → IsWellFormed re (erase id rules)
  erase-IsWellFormed id [] w = tt
  erase-IsWellFormed id ((k, x) ∷ rules) (same, fresh, u, w) = elim (Bool-cases (text_eq k id)) [
    | inl e ↦ rw e (erase-IsWellFormed id rules w)
    | inr e ↦ rw e (same, ground (arith, lookup-erase id k rules), u, erase-IsWellFormed id rules w)
  ]

  save-ok :
      (r : Rule) (rules : Dict Rule)
      → validate re r ≡ none
      → save re r rules ≡ (insert r.id r rules, none)
  unfolding save
  save-ok r rules e = rw (e, save)

  save-refused :
      (r : Rule) (rules : Dict Rule) (x : InvalidRule)
      → validate re r ≡ some x
      → save re r rules ≡ (rules, some (invalid x))
  unfolding save
  save-refused r rules x e = rw (e, save)

  -- Saving keeps the store well formed, whether the rule is taken or refused.
  pub save-IsWellFormed :
      (r : Rule) (rules : Dict Rule) → IsWellFormed re rules → IsWellFormed re (save re r rules).0
  save-IsWellFormed r rules w = elim (Option-cases (validate re r)) [
    | inl e ↦ rw (save-ok r rules e) (insert-IsWellFormed r rules ((validate-none_iff re r).0 e) w)
    | inr (x, e) ↦ rw (save-refused r rules x e) w
  ]

  -- Deleting keeps the store well formed, whether the id is stored or not.
  pub delete-IsWellFormed :
      (id : Text) (rules : Dict Rule) → IsWellFormed re rules → IsWellFormed re (delete id rules).0
  unfolding delete
  delete-IsWellFormed id rules w = elim (Option-cases (lookup id rules)) [
    | inl e ↦ subst (IsWellFormed re) (ground (arith, e)) w
    | inr (x, e) ↦ subst (IsWellFormed re) (ground (arith, e)) (erase-IsWellFormed id rules w)
  ]

  -- `Save` returns nil exactly for a valid rule. Then the rule is found under its id, and what is
  -- stored under other ids is as before; a rule that is refused changes nothing.
  pub save-get :
      (r : Rule) (id : Text) (rules : Dict Rule)
      → (((save re r rules).1 ≡ none) ↔ IsValid re r)
        × (get id (save re r rules).0
            ≡ (if not (is_some (save re r rules).1) && text_eq r.id id then ok r else get id rules))
  save-get r id rules = elim (Option-cases (validate re r)) [
    | inl e ↦ rw (save-ok r rules e) (
      (λ _. (validate-none_iff re r).0 e, λ _. refl),
      unfold get in ground (arith, lookup-insert r.id id r rules),
    )
    | inr (x, e) ↦
        rw (save-refused r rules x e) ((λ h. cc, λ v. cc ((validate-none_iff re r).1 v)), refl)
  ]

-- Deleting a stored id removes it and no other; an id that is not stored is an error, and nothing
-- changes.
pub delete-get :
    (id j : Text) (rules : Dict Rule)
    → (get j (delete id rules).0 ≡ (if text_eq id j then err rule_not_found else get j rules))
      × (((delete id rules).1 ≡ some rule_not_found) ↔ (get id rules ≡ err rule_not_found))
unfolding delete get
delete-get id j rules = ground (arith, lookup-erase id j rules, text_eq_iff id j)

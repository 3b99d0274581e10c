-- ===== src/Rules/Model/Acts.antt =====
-- What `Rule.Validate` of pkg/rules/model.go asks of a key prefix and of the actions together.
use yapi.Common.{
  ℕ, ◌≡◌, ◌≢◌, ◌≤◌, length, all_iff, All-map, refl, ◌↔◌, ◌⊎◌, inl, inr, not, is_some, Bool, true,
  false, ◌&&◌, Option, none, some, List, [], ◌∷◌, is_nil, All, arith,
}
use yapi.Common.Text.{Text, is_blank, is_alnum}
use yapi.Rules.Model.{Actions, RewritePathExpression, is_key_prefix, has_no_action}

abbrev pub IsAlnum : ℕ → Type 0
IsAlnum c = (b'0' ≤ c × c ≤ b'9') ⊎ (b'A' ≤ c × c ≤ b'Z') ⊎ (b'a' ≤ c × c ≤ b'z')

-- Eight letters or digits.
abbrev pub IsKeyPrefix : Text → Type 0
IsKeyPrefix p = (length p ≡ 8) × All IsAlnum p

-- Something is done: one of the actions is there.
pub data HasAction (a : Actions) : Type 0 where
  sets_target : a.set_target_url ≢ [] → HasAction a
  sets_headers : a.set_headers ≢ [] → HasAction a
  adds_headers : a.add_headers ≢ [] → HasAction a
  removes_headers : a.remove_headers ≢ [] → HasAction a
  authorizes : is_blank a.set_authorization ≡ false → HasAction a
  overrides_json : a.override_json ≢ [] → HasAction a
  removes_json : a.remove_json ≢ [] → HasAction a
  rewrites_path : (e : RewritePathExpression) → a.rewrite_path_regex ≡ some e → HasAction a
  runs_script : is_blank a.script ≡ false → HasAction a

is_alnum_iff : (c : ℕ) → (is_alnum c ≡ true) ↔ IsAlnum c
is_alnum_iff c = ground arith

pub is_key_prefix_iff : (p : Text) → (is_key_prefix p ≡ true) ↔ IsKeyPrefix p
is_key_prefix_iff p =
    let (to, from) = all_iff is_alnum p in
    (
      (λ e. (ground (arith, e), All-map p (λ c. (is_alnum_iff c).0) (to (ground (arith, e))))),
      (λ h. let every = from (All-map p (λ c. (is_alnum_iff c).1) h.1) in ground (arith, h.0)),
    )

not_nil_iff {ℓ} : {A : Type ℓ} (xs : List A) → (is_nil xs ≡ false) ↔ (xs ≢ [])
not_nil_iff [] = ((λ e. cc), (λ n. absurd (n refl)))
not_nil_iff (x ∷ xs) = ((λ _ e. cc), (λ _. refl))

one_of_nine :
    (a b c d e f g h i : Bool)
    → (a && b && c && d && e && f && g && h && i) ≡ false
    → (a ≡ false)
      ⊎ (b ≡ false)
      ⊎ (c ≡ false)
      ⊎ (d ≡ false)
      ⊎ (e ≡ false)
      ⊎ (f ≡ false)
      ⊎ (g ≡ false)
      ⊎ (h ≡ false)
      ⊎ (i ≡ false)
one_of_nine a b c d e f g h i x = ground arith

rewriting : (o : Option RewritePathExpression) → not (is_some o) ≡ false → (e : _) × (o ≡ some e)
rewriting none h = cc
rewriting (some e) h = (e, refl)

pub has_no_action-HasAction : (a : Actions) → has_no_action a ≡ false → HasAction a
has_no_action-HasAction a h = elim (one_of_nine _ _ _ _ _ _ _ _ _ h) [
  | inl e ↦ sets_target ((not_nil_iff _).0 e)
  | inr (inl e) ↦ sets_headers ((not_nil_iff _).0 e)
  | inr (inr (inl e)) ↦ adds_headers ((not_nil_iff _).0 e)
  | inr (inr (inr (inl e))) ↦ removes_headers ((not_nil_iff _).0 e)
  | inr (inr (inr (inr (inl e)))) ↦ authorizes e
  | inr (inr (inr (inr (inr (inl e))))) ↦ overrides_json ((not_nil_iff _).0 e)
  | inr (inr (inr (inr (inr (inr (inl e)))))) ↦ removes_json ((not_nil_iff _).0 e)
  | inr (inr (inr (inr (inr (inr (inr (inl e))))))) ↦
      let (x, is) = rewriting a.rewrite_path_regex e in rewrites_path x is
  | inr (inr (inr (inr (inr (inr (inr (inr e))))))) ↦ runs_script e
]

pub HasAction-has_no_action : (a : Actions) → HasAction a → has_no_action a ≡ false
HasAction-has_no_action a (sets_target n) = ground (arith, (not_nil_iff _).1 n)
HasAction-has_no_action a (sets_headers n) = ground (arith, (not_nil_iff _).1 n)
HasAction-has_no_action a (adds_headers n) = ground (arith, (not_nil_iff _).1 n)
HasAction-has_no_action a (removes_headers n) = ground (arith, (not_nil_iff _).1 n)
HasAction-has_no_action a (authorizes n) = ground arith
HasAction-has_no_action a (overrides_json n) = ground (arith, (not_nil_iff _).1 n)
HasAction-has_no_action a (removes_json n) = ground (arith, (not_nil_iff _).1 n)
HasAction-has_no_action a (rewrites_path e n) = ground arith
HasAction-has_no_action a (runs_script n) = ground arith

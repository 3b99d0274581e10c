-- ===== src/Proxy/Match/Parts.antt =====
-- What single conditions of a matcher ask of lists of texts and of the user's metadata;
-- internal/proxy/handler.go.
use yapi.Common.{
  All-map, ◌≡◌, refl, ◌↔◌, ◌⊎◌, inl, inr, Bool, true, false, ◌&&◌, ◌||◌, not, Option, none, some,
  List, [], ◌∷◌, All, Any, any_iff, all_iff, and_iff, arith,
}
use yapi.Common.Text.{Text, text_eq, text_eq_iff, is_blank, trim_space}
use yapi.Common.Dict.{Dict, lookup}
use yapi.Rules.Json.{Json}
use yapi.Proxy.Match.{Env, same_text, string_in_slice_trimmed, has_entry, metadata_contains}

Any-map {ℓ κ μ} :
    {A : Type ℓ} {P : A → Type κ} {Q : A → Type μ} {xs : List A}
    → ((x : A) → P x → Q x)
    → Any P xs
    → Any Q xs
Any-map f (Any.here {x} p) = Any.here (f x p)
Any-map f (Any.there a) = Any.there (Any-map f a)

-- A condition on a part of the context that may be missing: it is empty, or the part is there and
-- satisfies it.
abbrev pub OnPart {ℓ} : {A : Type ℓ} → Bool → Option A → (A → Type 0) → Type ℓ
OnPart {A} unset part P = (unset ≡ true) ⊎ (a : A) × (part ≡ some a) × P a

pub on_part_iff {ℓ} :
    {A : Type ℓ} (unset : Bool) (part : Option A) (test : A → Bool) (P : A → Type 0)
    → ((a : A) → (test a ≡ true) ↔ P a)
    → ((unset || elim part [ none ↦ false | some a ↦ test a ]) ≡ true) ↔ OnPart unset part P
on_part_iff true part test P each = (λ _. inl refl, λ _. refl)
on_part_iff false none test P each = (λ e. cc, elim [ inl e ↦ e | inr (a, e, p) ↦ cc ])
on_part_iff false (some a) test P each = (
  (λ e. inr (a, refl, (each a).0 e)),
  elim [ inl e ↦ cc | inr (b, e, p) ↦ ground (arith, (each b).1 p) ],
)

module _ (env : Env) where
  -- The target is not blank, and some entry is the same text after trimming.
  pub record IsListed (insensitive : Bool) (list : List Text) (target : Text) : Type 0 where
    pub filled : is_blank target ≡ false
    pub found :
        Any
          (λ item.
            (is_blank item ≡ false)
            × (same_text env insensitive (trim_space item) (trim_space target) ≡ true))
          list

  pub in_slice_iff :
      (list : List Text) (target : Text) (insensitive : Bool)
      → (string_in_slice_trimmed env list target insensitive ≡ true)
        ↔ IsListed insensitive list target
  unfolding string_in_slice_trimmed
  in_slice_iff list target ci =
      let test = λ (item : Text).
        not (is_blank item) && same_text env ci (trim_space item) (trim_space target) in
      let (to, from) = any_iff test list in
      (
        (λ e.
            let (full, hit) = (and_iff _ _).0 e in
            record { filled = ground arith; found = Any-map (λ x h. ground arith) (to hit) }),
        (λ l.
            (and_iff _ _).1
              (ground (arith, l.filled), from (Any-map (λ x h. ground arith) l.found))),
      )

  -- The user's metadata has the key, with the value as its printed text.
  abbrev pub HasEntry : Dict Json → Text × Text → Type 0
  HasEntry metadata (k, v) =
      (actual : Json) × (lookup k metadata ≡ some actual)
      × (trim_space (env.sprint actual) ≡ trim_space v)

  printed_iff :
      (o : Option Json) (v : Text)
      → (elim o [ none ↦ false | some a ↦ text_eq (trim_space (env.sprint a)) (trim_space v) ]
          ≡ true)
        ↔ ((a : Json) × (o ≡ some a) × (trim_space (env.sprint a) ≡ trim_space v))
  printed_iff none v = ((λ h. cc), (λ (a, e, p). cc))
  printed_iff (some actual) v =
      let (to, from) = text_eq_iff (trim_space (env.sprint actual)) (trim_space v) in
      ((λ h. (actual, refl, to h)), (λ (a, e, p). from (ground arith)))

  entry_iff :
      (metadata : Dict Json) (e : Text × Text)
      → (has_entry env metadata e ≡ true) ↔ HasEntry metadata e
  entry_iff metadata (k, v) = printed_iff (lookup k metadata) v

  pub entries_iff :
      (metadata : Dict Json) (expected : Dict Text)
      → (metadata_contains env metadata expected ≡ true) ↔ All (HasEntry metadata) expected
  unfolding metadata_contains
  entries_iff metadata [] = (λ _. tt, λ _. refl)
  entries_iff [] (e ∷ es) = ((λ h. cc), (λ h. cc h.0.1))
  entries_iff (d ∷ ds) (e ∷ es) =
      let (to, from) = all_iff (has_entry env (d ∷ ds)) (e ∷ es) in
      (
        (λ h. All-map (e ∷ es) (λ x. (entry_iff (d ∷ ds) x).0) (to h)),
        (λ h. from (All-map (e ∷ es) (λ x. (entry_iff (d ∷ ds) x).1) h)),
      )

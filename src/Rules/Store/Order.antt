-- ===== src/Rules/Store/Order.antt =====
-- `List` of pkg/rules/store.go: every rule once, by falling priority.
use yapi.Common.{inl, inr, List, [], ◌∷◌, All, All-map, Any, In, refl, Bool-cases, arith}
use mathlib.Core.List.{Perm}
use mathlib.Core.List.Perm
use yapi.Common.Int.{◌≤ℤ◌, ltb_ℤ}
use yapi.Common.Dict.{Dict}
use yapi.Rules.Model.{Rule}
use yapi.Rules.Store.{values, insert_sorted, sort_rules, list}

-- No rule stands before one of higher priority.
abbrev pub IsByPriority : List Rule → Type 0
IsByPriority [] = Unit
IsByPriority (r ∷ rs) = All (λ s. s.priority ≤ℤ r.priority) rs × IsByPriority rs

pub All-insert_sorted {ℓ} :
    (P : Rule → Type ℓ) (r : Rule) (rs : List Rule) → P r → All P rs → All P (insert_sorted r rs)
unfolding insert_sorted
All-insert_sorted P r [] p h = (p, tt)
All-insert_sorted P r (x ∷ xs) p (q, h) = elim (Bool-cases (ltb_ℤ r.priority x.priority)) [
  | inl e ↦ rw e (q, All-insert_sorted P r xs p h)
  | inr e ↦ rw e (p, (q, h))
]

All-weaken :
    (x r : Rule) (rs : List Rule)
    → x.priority ≤ℤ r.priority
    → All (λ s. s.priority ≤ℤ x.priority) rs
    → All (λ s. s.priority ≤ℤ r.priority) rs
All-weaken x r [] h a = tt
All-weaken x r (s ∷ rs) h (p, a) = (omega arith, All-weaken x r rs h a)

insert_sorted-IsByPriority :
    (r : Rule) (rs : List Rule) → IsByPriority rs → IsByPriority (insert_sorted r rs)
unfolding insert_sorted
insert_sorted-IsByPriority r [] h = (tt, tt)
insert_sorted-IsByPriority r (x ∷ xs) (a, h) = elim (Bool-cases (ltb_ℤ r.priority x.priority)) [
  | inl e ↦ rw e (
    All-insert_sorted (λ s. s.priority ≤ℤ x.priority) r xs (ground arith) a,
    insert_sorted-IsByPriority r xs h,
  )
  | inr e ↦
      let p : x.priority ≤ℤ r.priority = ground arith in rw e ((p, All-weaken x r xs p a), (a, h))
]

insert_sorted-perm : (r : Rule) (rs : List Rule) → Perm (insert_sorted r rs) (r ∷ rs)
unfolding insert_sorted
insert_sorted-perm r [] = Perm.refl _
insert_sorted-perm r (x ∷ xs) = elim (Bool-cases (ltb_ℤ r.priority x.priority)) [
  | inl e ↦ rw e (Perm.trans (Perm.cons x (insert_sorted-perm r xs)) (Perm.swap r x xs))
  | inr e ↦ rw e (Perm.refl _)
]

insert_sorted-All {ℓ} :
    (P : Rule → Type ℓ) (r : Rule) (rs : List Rule) → All P (insert_sorted r rs) → P r × All P rs
unfolding insert_sorted
insert_sorted-All P r [] h = h
insert_sorted-All P r (x ∷ xs) h = elim (Bool-cases (ltb_ℤ r.priority x.priority)) [
  | inl e ↦
      let (q, rest) = rw e at h in
      let (p, others) = insert_sorted-All P r xs rest in (p, (q, others))
  | inr e ↦ rw e at h
]

All-sort_rules {ℓ} : (P : Rule → Type ℓ) (rs : List Rule) → All P rs → All P (sort_rules rs)
unfolding sort_rules
All-sort_rules P [] h = tt
All-sort_rules P (r ∷ rs) (p, h) = All-insert_sorted P r (sort_rules rs) p (All-sort_rules P rs h)

sort_rules-All {ℓ} : (P : Rule → Type ℓ) (rs : List Rule) → All P (sort_rules rs) → All P rs
unfolding sort_rules
sort_rules-All P [] h = tt
sort_rules-All P (r ∷ rs) h =
    let (p, rest) = insert_sorted-All P r (sort_rules rs) h in (p, sort_rules-All P rs rest)

-- What holds of every rule of the listing holds of every stored one.
pub list-All {ℓ} :
    (P : Rule → Type ℓ) (rules : Dict Rule) → All P (list rules) → All P (values rules)
unfolding list
list-All P rules = sort_rules-All P (values rules)

members : (rs : List Rule) → All (λ x. In x rs) rs
members [] = tt
members (r ∷ rs) = (Any.here refl, All-map rs (λ x. Any.there) (members rs))

pub All-list {ℓ} :
    (P : Rule → Type ℓ) (rules : Dict Rule) → All P (values rules) → All P (list rules)
unfolding list
All-list P rules = All-sort_rules P (values rules)

-- Every rule of the listing is a stored one.
pub list-In : (rules : Dict Rule) → All (λ x. In x (values rules)) (list rules)
unfolding list
list-In rules = All-sort_rules _ (values rules) (members (values rules))

pub sort_rules-IsByPriority : (rs : List Rule) → IsByPriority (sort_rules rs)
unfolding sort_rules
sort_rules-IsByPriority [] = tt
sort_rules-IsByPriority (r ∷ rs) = insert_sorted-IsByPriority r _ (sort_rules-IsByPriority rs)

pub sort_rules-perm : (rs : List Rule) → Perm (sort_rules rs) rs
unfolding sort_rules
sort_rules-perm [] = Perm.refl _
sort_rules-perm (r ∷ rs) =
    Perm.trans (insert_sorted-perm r (sort_rules rs)) (Perm.cons r (sort_rules-perm rs))

-- The listing of the store holds the stored rules, each once, with no rule before one of higher
-- priority.
pub list-sorted : (rules : Dict Rule) → IsByPriority (list rules) × Perm (list rules) (values rules)
unfolding list
list-sorted rules = (sort_rules-IsByPriority (values rules), sort_rules-perm (values rules))

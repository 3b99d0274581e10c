-- ===== src/Admin/Listing/Pages.antt =====
-- The pages of a listing: that none is empty without need, and that together they are the listing;
-- `paginateRules` and `listRules` of internal/admin/handler.go.
use native.Mathlib.Omega.{div_any}
use native.Mathlib.Nat.{mod-lt, suc-mul, zero-mul, mul_comm, mul-le-mul_right}
use yapi.Common.{
  ℕ, zero, suc, ◌+◌, ◌-◌, ◌*◌, ◌/◌, ◌≤◌, ◌<◌, ◌≡◌, refl, sym, subst, ap, ap₂, ◌∙◌, false, List, [],
  ◌∷◌, ◌++◌, Option-cases, Result, ok, arith, inl, inr, ltb, leb, ◌==◌, if◌then◌else◌, length, take,
  drop, length-take, length-drop, Bool-cases,
}
use yapi.Common.Int.{pos, negsuc}
use yapi.Common.Text.{Text, text, Unicode}
use yapi.Common.Text.Decimal.{atoi}
use yapi.Rules.Model.{Rule}
use yapi.Rules.Store.{StoreError}
use yapi.Admin.Listing.{
  ListRulesResponse, parse_positive_int, parse_list_rules_query, filter_rules, paginate_rules,
  max_page, clamp_page, list_rules,
}

take-ge {ℓ} : {A : Type ℓ} (n : ℕ) (xs : List A) → length xs ≤ n → take n xs ≡ xs
take-ge zero [] h = refl
take-ge zero (x ∷ xs) h = ground arith
take-ge (suc n) [] h = refl
take-ge (suc n) (x ∷ xs) h = ap (λ t. x ∷ t) (take-ge n xs (omega arith))

drop-ge {ℓ} : {A : Type ℓ} (n : ℕ) (xs : List A) → length xs ≤ n → drop n xs ≡ []
drop-ge zero [] h = refl
drop-ge zero (x ∷ xs) h = ground arith
drop-ge (suc n) [] h = refl
drop-ge (suc n) (x ∷ xs) h = drop-ge n xs (omega arith)

take-nil {ℓ} : (A : Type ℓ) (n : ℕ) → take {A = A} n [] ≡ []
take-nil A zero = refl
take-nil A (suc n) = refl

suc_add : (a b : ℕ) → suc a + b ≡ suc (a + b)
suc_add a b = omega arith

add_sub : (a b : ℕ) → a + b - a ≡ b
add_sub a b = omega arith

pos_not_zero : (n : ℕ) → 1 ≤ n → (n == 0) ≡ false
pos_not_zero n h = ground arith

take-add {ℓ} :
    {A : Type ℓ} (a b : ℕ) (xs : List A) → take (a + b) xs ≡ take a xs ++ take b (drop a xs)
take-add {A} zero b xs = ap (λ n. take n xs) {x = 0 + b} {y = b} (omega arith)
take-add {A} (suc a) b [] = take-nil A (suc a + b) ∙ sym (take-nil A b)
take-add {A} (suc a) b (x ∷ xs) =
    ap (λ n. take n (x ∷ xs)) (suc_add a b) ∙ ap (λ t. x ∷ t) (take-add a b xs)

-- Behind the end there is nothing to take.
take-drop-ge :
    (start size : ℕ) (items : List Rule) → length items ≤ start → take size (drop start items) ≡ []
take-drop-ge start size items h = ap (take size) (drop-ge start items h) ∙ take-nil Rule size

-- To take up to the end is to take as much as there is.
take-drop_cut :
    (start size : ℕ) (items : List Rule)
    → length items ≤ start + size
    → take (length items - start) (drop start items) ≡ take size (drop start items)
take-drop_cut start size items h =
    take-ge _ _ (omega (arith, length-drop start items))
    ∙ sym (take-ge _ _ (omega (arith, length-drop start items)))

pred_suc : (n : ℕ) → suc n - 1 ≡ n
pred_suc n = omega arith

-- A page is a slice of its size, cut at the end of the list.
pub paginate_rules-slice :
    (items : List Rule) (n size : ℕ)
    → 1 ≤ size
    → paginate_rules items (suc n) size ≡ take size (drop (n * size) items)
unfolding paginate_rules
paginate_rules-slice [] n size h = ground (arith, take-drop-ge (n * size) size [])
paginate_rules-slice (x ∷ xs) n size h =
    rw (pred_suc n) (elim (Bool-cases (leb (length (x ∷ xs)) (n * size))) [
      | inl past ↦ ground (arith, take-drop-ge (n * size) size (x ∷ xs))
      | inr within ↦ elim (Bool-cases (ltb (length (x ∷ xs)) (n * size + size))) [
        | inl cut ↦ ground (arith, take-drop_cut (n * size) size (x ∷ xs))
        | inr full ↦ rw (within, full, pos_not_zero size h, add_sub (n * size) size)
      ]
    ])

-- The first pages, one behind the other.
abbrev pub first_pages : ℕ → List Rule → ℕ → List Rule
first_pages zero items size = []
first_pages (suc n) items size = first_pages n items size ++ paginate_rules items (suc n) size

first_pages-take :
    (n : ℕ) (items : List Rule) (size : ℕ)
    → 1 ≤ size
    → first_pages n items size ≡ take (n * size) items
first_pages-take zero items size h = ap (λ k. take k items) (sym (zero-mul size))
first_pages-take (suc n) items size h =
    ap₂ ◌++◌ (first_pages-take n items size h) (paginate_rules-slice items n size h)
    ∙ sym (take-add (n * size) size items)
    ∙ ap (λ k. take k items) (sym (suc-mul n size))

-- The pages up to the last hold the whole listing.
max_page-enough : (total size : ℕ) → 1 ≤ size → total ≤ max_page total size * size
unfolding max_page
max_page-enough total size h = omega (
  arith,
  div_any (total + size - 1) size,
  mod-lt (total + size - 1) h,
  mul_comm ((total + size - 1) / size) size,
)

max_page-tight : (total size : ℕ) → 1 ≤ size → max_page total size * size < total + size
unfolding max_page
max_page-tight total size h = omega (
  arith,
  div_any (total + size - 1) size,
  mod-lt (total + size - 1) h,
  mul_comm ((total + size - 1) / size) size,
)

-- The pages of a listing, one behind the other up to the last, are the whole listing: every rule is
-- on a page, once and in order.
pub paginate_rules_complete :
    (items : List Rule) (size : ℕ)
    → 1 ≤ size
    → first_pages (max_page (length items) size) items size ≡ items
paginate_rules_complete items size h =
    first_pages-take _ items size h ∙ take-ge _ items (max_page-enough (length items) size h)

positive : (raw : Text) (fallback : ℕ) → 1 ≤ fallback → 1 ≤ parse_positive_int raw fallback
unfolding parse_positive_int
positive [] fallback h = h
positive (c ∷ raw) fallback h = elim (Option-cases (atoi (c ∷ raw))) [
  | inl e ↦ rw e h
  | inr (negsuc n, e) ↦ rw e h
  | inr (pos zero, e) ↦ rw e (ground arith)
  | inr (pos (suc n), e) ↦ rw e (ground arith)
]

ok_injective :
    (r r' : ListRulesResponse)
    → ◌≡◌ {A = Result StoreError ListRulesResponse} (ok r) (ok r')
    → r ≡ r'
ok_injective r r' e = ground arith

-- What a response shows of the rules that pass its filter.
pub record IsPageOf (filtered : List Rule) (resp : ListRulesResponse) : Type 0 where
  pub size : (1 ≤ resp.page_size) × (resp.page_size ≤ 100)
  pub from_one : 1 ≤ resp.page
  pub counts : resp.total ≡ length filtered
  pub slice : resp.items ≡ take resp.page_size (drop ((resp.page - 1) * resp.page_size) filtered)
  pub shows : 1 ≤ resp.total → 1 ≤ length resp.items

page_size-bounds :
    (u : Unicode) (query : Text → Text)
    → (1 ≤ (parse_list_rules_query u query).page_size)
      × ((parse_list_rules_query u query).page_size ≤ 100)
unfolding parse_list_rules_query
page_size-bounds u query = ground (arith, positive (query (text "page_size")) 20 (omega arith))

page-bound : (u : Unicode) (query : Text → Text) → 1 ≤ (parse_list_rules_query u query).page
unfolding parse_list_rules_query
page-bound u query = positive (query (text "page")) 1 (omega arith)

max_page-pos : (total size : ℕ) → 1 ≤ size → 1 ≤ total → 1 ≤ max_page total size
max_page-pos total size h t = go (max_page total size) (max_page-enough total size h)
  where
    go : (q : ℕ) → total ≤ q * size → 1 ≤ q
    go zero e = omega (arith, zero-mul size)
    go (suc q) e = omega arith

-- The page that is shown is one of the pages that there are.
clamp_page-bounds :
    (total size page : ℕ)
    → 1 ≤ size
    → 1 ≤ page
    → (1 ≤ clamp_page total size page)
      × (1 ≤ total → clamp_page total size page ≤ max_page total size)
unfolding clamp_page
clamp_page-bounds total size page h p = go (max_page total size) (λ t. max_page-pos total size h t)
  where
    go :
        (q : ℕ)
        → (1 ≤ total → 1 ≤ q)
        → (1 ≤ (
            if total == 0
            then 1
            else (if ltb (if q == 0 then 1 else q) page then if q == 0 then 1 else q else page)))
          × (1 ≤ total
              → (if total == 0
                  then 1
                  else (if ltb (if q == 0 then 1 else q) page
                      then if q == 0 then 1 else q
                      else page))
                ≤ q)
    go zero f = ground arith
    go (suc q) f = ground arith

-- A page up to the last one begins within the listing.
within : (total size n : ℕ) → 1 ≤ size → suc n ≤ max_page total size → n * size < total
within total size n h e =
    omega (arith, max_page-tight total size h, suc-mul n size, mul-le-mul_right size e)

length-slice :
    (items : List Rule) (start size : ℕ)
    → start < length items
    → 1 ≤ size
    → 1 ≤ length (take size (drop start items))
length-slice items start size e h =
    omega (arith, length-take size (drop start items), length-drop start items)

page-IsPageOf :
    (filtered : List Rule) (page size enabled_total : ℕ)
    → (1 ≤ size) × (size ≤ 100)
    → (1 ≤ page) × (1 ≤ length filtered → page ≤ max_page (length filtered) size)
    → IsPageOf filtered (record {
      items = paginate_rules filtered page size;
      total = length filtered;
      enabled_total = enabled_total;
      page = page;
      page_size = size;
    })
page-IsPageOf filtered zero size enabled_total b (h, _) = ground arith
page-IsPageOf filtered (suc n) size enabled_total (one, hundred) (h, last) = record {
  size = (one, hundred);
  from_one = h;
  counts = refl;
  slice =
      paginate_rules-slice filtered n size one
      ∙ ap (λ k. take size (drop (k * size) filtered)) (sym (pred_suc n));
  shows = λ t.
      subst (λ l. 1 ≤ length l) (sym (paginate_rules-slice filtered n size one))
        (length-slice filtered (n * size) size (within (length filtered) size n one (last t)) one);
}

-- The answer to any query is a page of the rules that pass its filter: at most 100 of them, the
-- slice that belongs to the page's number, and not an empty one while there are any.
pub list_rules-IsPageOf :
    (u : Unicode) (query : Text → Text) (rules : List Rule) (resp : ListRulesResponse)
    → list_rules u query (ok rules) ≡ ok resp
    → IsPageOf (filter_rules u rules (parse_list_rules_query u query)) resp
unfolding list_rules
list_rules-IsPageOf u query rules resp e =
    let q = parse_list_rules_query u query in
    let filtered = filter_rules u rules q in
    subst (IsPageOf filtered) (ok_injective _ _ e) (
      page-IsPageOf filtered _ q.page_size _ (page_size-bounds u query) (
        clamp_page-bounds (length filtered) q.page_size q.page (page_size-bounds u query).0
          (page-bound u query)))

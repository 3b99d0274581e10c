-- ===== src/Admin/Listing.antt =====
-- The listing of rules by pages: `listRules` of internal/admin/handler.go and what it calls.
pub mod Pages
use yapi.Common.{
  ℕ, suc, ◌+◌, ◌-◌, ◌*◌, ◌/◌, Bool, true, false, ◌&&◌, ◌||◌, not, Option, none, some, List, [], ◌∷◌,
  Result, ok, err, leb, ltb, if◌then◌else◌, length, is_nil, take, drop, any, ◌==◌,
}
use yapi.Common.Int.{ℤ, pos, negsuc}
use yapi.Common.Text.{Text, text, text_eq, Unicode, to_lower, contains, trim_space}
use yapi.Common.Text.Decimal.{atoi}
use yapi.Rules.Model.{Rule}
use yapi.Rules.Store.{StoreError}

pub record ListRulesQuery : Type 0 where
  pub page : ℕ
  pub page_size : ℕ
  pub search : Text
  pub enabled : Option Bool

pub record ListRulesResponse : Type 0 where
  pub items : List Rule
  pub total : ℕ
  pub enabled_total : ℕ
  pub page : ℕ
  pub page_size : ℕ

abbrev positive_or : Option ℤ → ℕ → ℕ
positive_or none fallback = fallback
positive_or (some (negsuc _)) fallback = fallback
positive_or (some (pos value)) fallback = if value == 0 then fallback else value

-- `parsePositiveInt`; the fallbacks of its callers are positive.
unfoldable pub parse_positive_int : Text → ℕ → ℕ
parse_positive_int raw fallback = if is_nil raw then fallback else positive_or (atoi raw) fallback

-- `strconv.ParseBool`; `none` is its error.
unfoldable pub parse_bool : Text → Option Bool
parse_bool v =
    if any (text_eq v)
      (text "1" ∷ text "t" ∷ text "T" ∷ text "TRUE" ∷ text "true" ∷ text "True" ∷ [])
    then some true
    else if any (text_eq v)
        (text "0" ∷ text "f" ∷ text "F" ∷ text "FALSE" ∷ text "false" ∷ text "False" ∷ [])
    then some false
    else none

-- The query's parameters, `c.Query`: an absent one is empty.
unfoldable pub parse_list_rules_query : Unicode → (Text → Text) → ListRulesQuery
parse_list_rules_query u query =
    let page_size = parse_positive_int (query (text "page_size")) 20 in
    let v = trim_space (query (text "enabled")) in
    record {
      page = parse_positive_int (query (text "page")) 1;
      page_size = if ltb 100 page_size then 100 else page_size;
      search = trim_space (query (text "q"));
      enabled =
          if not (is_nil v) && not (text_eq (to_lower u v) (text "all"))
          then parse_bool v
          else none;
    }

unfoldable pub matches_keyword : Unicode → Rule → Text → Bool
matches_keyword u rule keyword =
    contains (to_lower u rule.id) keyword
    || contains (to_lower u rule.matcher.path_prefix) keyword
    || contains (to_lower u rule.actions.set_target_url) keyword

abbrev differs : Option Bool → Bool → Bool
differs none b = false
differs (some true) b = not b
differs (some false) b = b

-- The loop of `filterRules`, with the keyword in lower case.
unfoldable pub filter_loop : Unicode → ListRulesQuery → Text → List Rule → List Rule
filter_loop u query keyword [] = []
filter_loop u query keyword (rule ∷ rules) =
    let rest = filter_loop u query keyword rules in
    if differs query.enabled rule.enabled
    then rest
    else if not (is_nil keyword) && not (matches_keyword u rule keyword)
    then rest
    else rule ∷ rest

unfoldable pub filter_rules : Unicode → List Rule → ListRulesQuery → List Rule
unfolding filter_loop
filter_rules u rules query = filter_loop u query (to_lower u query.search) rules

-- `items[start:end]`
abbrev pub slice : ℕ → ℕ → List Rule → List Rule
slice start end items = take (end - start) (drop start items)

-- `paginateRules`, for a page from 1.
unfoldable pub paginate_rules : List Rule → ℕ → ℕ → List Rule
paginate_rules items page page_size =
    let start = (page - 1) * page_size in
    let end = start + page_size in
    if page_size == 0 || is_nil items
    then []
    else if leb (length items) start
    then []
    else slice start (if ltb (length items) end then length items else end) items

unfoldable pub count_enabled : List Rule → ℕ
count_enabled [] = 0
count_enabled (rule ∷ rules) =
    let count = count_enabled rules in if rule.enabled then suc count else count

-- The number of pages; `listRules` divides by a page size from 1.
unfoldable pub max_page : ℕ → ℕ → ℕ
max_page total page_size = (total + page_size - 1) / page_size

-- The page that is shown for the page that was asked for.
unfoldable pub clamp_page : ℕ → ℕ → ℕ → ℕ
unfolding max_page
clamp_page total page_size page =
    let last = if max_page total page_size == 0 then 1 else max_page total page_size in
    if total == 0 then 1 else if ltb last page then last else page

-- `listRules`, on what the service's `ListRules` returned: an error is answered with 500.
unfoldable pub list_rules :
    Unicode → (Text → Text) → Result StoreError (List Rule) → Result StoreError ListRulesResponse
list_rules u query (err e) = err e
list_rules u query (ok rules) =
    let q = parse_list_rules_query u query in
    let filtered = filter_rules u rules q in
    let page = clamp_page (length filtered) q.page_size q.page in
    ok (record {
      items = paginate_rules filtered page q.page_size;
      total = length filtered;
      enabled_total = count_enabled filtered;
      page = page;
      page_size = q.page_size;
    })

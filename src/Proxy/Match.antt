-- ===== src/Proxy/Match.antt =====
-- `matchesRequest` and `matchRule` of internal/proxy/handler.go: which rule a request gets.
pub mod Parts
pub mod Spec
pub mod First
use yapi.Common.{
  ℕ, Bool, true, false, ◌&&◌, ◌||◌, not, Option, none, some, List, [], ◌∷◌, Result, ok, err, is_nil,
  is_some, any, all, if◌then◌else◌,
}
use yapi.Common.Int.{ℤ, negsuc}
use yapi.Common.Text.{
  Text, text, text_eq, Unicode, equal_fold, has_prefix, is_blank, trim_space, split,
}
use yapi.Common.Dict.{Dict, lookup}
use yapi.Common.Http.{Header, header_get}
use yapi.Rules.Json.{Json}
use yapi.Rules.Model.{Rule, Matcher, Regexp}
use yapi.Accounts.Model.{User, ApiKey, UserKeyBinding}
use yapi.Middleware.Auth.{Context, UpstreamInfo, raw_api_key}

pub record Url : Type 0 where
  pub scheme : Text
  pub host : Text
  pub path : Text
  pub raw_query : Text

-- A body: nil, bytes that can be read, one that has been read and closed, or one whose reading or
-- closing fails.
pub data Body : Type 0 where
  no_body drained unreadable : Body
  content : List ℕ → Body

-- The request that came in; `full_path` is gin's `FullPath`.
pub record Request : Type 0 where
  pub method : Text
  pub full_path : Text
  pub url : Url
  pub headers : Header
  pub body : Body
  pub content_length : ℤ

-- The request that goes out; `get_body` is what `GetBody` gives, or `none` if that is nil.
pub record Outgoing : Type 0 where
  pub url : Url
  pub headers : Header
  pub body : Body
  pub get_body : Option (List ℕ)
  pub content_length : ℤ

-- What the handler takes of the libraries: the Unicode tables, regexp, and `fmt.Sprint` of a value.
pub record Env : Type 0 where
  pub unicode : Unicode
  pub regexp : Regexp
  pub sprint : Json → Text

module _ (env : Env) where
  -- The comparison of `stringInSliceTrimmed`.
  abbrev pub same_text : Bool → Text → Text → Bool
  same_text insensitive a b = if insensitive then equal_fold env.unicode a b else text_eq a b

  unfoldable pub string_in_slice_trimmed : List Text → Text → Bool → Bool
  string_in_slice_trimmed list target insensitive =
      not (is_blank target)
      && any
          (λ item.
            not (is_blank item) && same_text insensitive (trim_space item) (trim_space target))
          list

  abbrev pub has_entry : Dict Json → Text × Text → Bool
  has_entry metadata (k, v) = elim (lookup k metadata) [
    | none ↦ false
    | some actual ↦ text_eq (trim_space (env.sprint actual)) (trim_space v)
  ]

  unfoldable pub metadata_contains : Dict Json → Dict Text → Bool
  metadata_contains metadata expected =
      is_nil expected || not (is_nil metadata) && all (has_entry metadata) expected

  -- One early return of `matchesRequest` each; `true` where the code goes on.
  abbrev pub path_matches : Request → Matcher → Bool
  path_matches req m =
      is_nil m.path_prefix
      || has_prefix req.full_path m.path_prefix
      || has_prefix req.url.path m.path_prefix

  abbrev pub method_matches : Request → Matcher → Bool
  method_matches req m =
      is_nil m.methods || any (λ method. equal_fold env.unicode req.method method) m.methods

  abbrev pub header_matches : Request → Text × Text → Bool
  header_matches req (key, pattern) =
      is_nil pattern && is_nil (header_get key req.headers)
      || env.regexp.compiles pattern && env.regexp.matches pattern (header_get key req.headers)

  abbrev pub api_key_matches : Context → Matcher → Bool
  api_key_matches c m = is_nil m.api_key_ids || elim c.api_key [
    | none ↦ false
    | some key ↦ string_in_slice_trimmed m.api_key_ids key.id false
  ]

  -- The second part of three or more.
  abbrev pub second_of_three : List Text → Text
  second_of_three (_ ∷ (p ∷ (_ ∷ _))) = p
  second_of_three _ = []

  abbrev pub key_prefix_of : Option ApiKey → Text
  key_prefix_of none = []
  key_prefix_of (some key) = trim_space key.prefix

  -- The prefix of the resolved key, or else of the key as it was sent.
  abbrev pub request_prefix : Context → Text
  request_prefix c =
      if is_nil (key_prefix_of c.api_key)
      then elim (raw_api_key c) [ none ↦ [] | some raw ↦ second_of_three (split raw b'_') ]
      else key_prefix_of c.api_key

  abbrev pub prefix_matches : Context → Matcher → Bool
  prefix_matches c m =
      is_nil m.api_key_prefixes
      || not (is_nil (request_prefix c))
        && string_in_slice_trimmed m.api_key_prefixes (request_prefix c) true

  abbrev pub user_matches : Context → Matcher → Bool
  user_matches c m =
      is_nil m.user_ids
      || elim c.user [ none ↦ false | some user ↦ string_in_slice_trimmed m.user_ids user.id false ]

  abbrev pub metadata_fits : Option (Dict Json) → Dict Text → Bool
  metadata_fits none expected = false
  metadata_fits (some metadata) expected = metadata_contains metadata expected

  abbrev pub metadata_matches : Context → Matcher → Bool
  metadata_matches c m =
      is_nil m.user_metadata
      || elim c.user [ none ↦ false | some user ↦ metadata_fits user.metadata m.user_metadata ]

  abbrev pub upstream_matches : Context → Matcher → Bool
  upstream_matches c m = is_nil m.binding_upstream_ids || elim c.binding [
    | none ↦ false
    | some b ↦ string_in_slice_trimmed m.binding_upstream_ids b.upstream_key_id false
  ]

  abbrev pub provider_matches : Context → Matcher → Bool
  provider_matches c m = is_nil m.binding_providers || elim c.upstream [
    | none ↦ false
    | some info ↦ string_in_slice_trimmed m.binding_providers info.credential.service true
  ]

  -- `matchesRequest`
  unfoldable pub matches_request : Context → Request → Matcher → Bool
  matches_request c req m =
      path_matches req m
      && method_matches req m
      && all (header_matches req) m.headers
      && (not m.require_binding || is_some c.binding)
      && api_key_matches c m
      && prefix_matches c m
      && user_matches c m
      && metadata_matches c m
      && upstream_matches c m
      && provider_matches c m

  -- The loop of `matchRule`: the first rule that is enabled and matches.
  unfoldable pub first_match : Context → Request → List Rule → Option Rule
  first_match c req [] = none
  first_match c req (r ∷ rs) =
      let rest = first_match c req rs in
      if not r.enabled then rest else if matches_request c req r.matcher then some r else rest

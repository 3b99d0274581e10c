-- ===== src/Proxy/Body.antt =====
-- `rewriteJSONBody` of internal/proxy/handler.go: fields of a JSON body set and removed.
pub mod Length
use yapi.Common.{
  ℕ, Bool, true, false, not, Option, none, some, List, [], ◌∷◌, Result, ok, err, ◌>>=◌, is_nil,
  length, if◌then◌else◌,
}
use yapi.Common.Int.{pos}
use yapi.Common.Text.{Text, text, contains, to_lower, Unicode}
use yapi.Common.Text.Decimal.{itoa}
use yapi.Common.Dict.{Dict}
use yapi.Common.Http.{Header, header_get, header_set}
use yapi.Rules.Json.{Json}
use yapi.Rules.JsonPath.{PathError, JsonPathToken, parse_json_path}
use yapi.Proxy.Match.{Url, Body, no_body, content, drained, unreadable, Outgoing}
use yapi.Proxy.SjsonPath.{tokens_to_sjson_path}

-- The library sjson, on the bytes of a body; `none` is an error.
pub record Sjson : Type 0 where
  pub set_bytes : List ℕ → Text → Json → Option (List ℕ)
  pub delete_bytes : List ℕ → Text → Option (List ℕ)

pub data RewriteError : Type 0 where
  missing_body not_json read_failed empty_body : RewriteError
  bad_path : PathError → RewriteError
  override_failed remove_failed : Text → RewriteError

abbrev or_fail {ℓ} : {A : Type ℓ} → Option A → RewriteError → Result RewriteError A
or_fail none e = err e
or_fail (some a) e = ok a

abbrev parsed : Result PathError (List JsonPathToken) → Result RewriteError (List JsonPathToken)
parsed (ok tokens) = ok tokens
parsed (err e) = err (bad_path e)

module _ (sj : Sjson) where
  -- The loop over the fields to set.
  unfoldable pub override_all : List ℕ → Dict Json → Result RewriteError (List ℕ)
  override_all bytes [] = ok bytes
  override_all bytes ((key, value) ∷ rest) = do
    tokens ← parsed (parse_json_path key)
    bytes' ← or_fail (sj.set_bytes bytes (tokens_to_sjson_path tokens) value) (override_failed key)
    override_all bytes' rest

  -- The loop over the fields to remove.
  unfoldable pub remove_all : List ℕ → List Text → Result RewriteError (List ℕ)
  remove_all bytes [] = ok bytes
  remove_all bytes (key ∷ rest) = do
    tokens ← parsed (parse_json_path key)
    bytes' ← or_fail (sj.delete_bytes bytes (tokens_to_sjson_path tokens)) (remove_failed key)
    remove_all bytes' rest

  unfoldable pub edit : List ℕ → Dict Json → List Text → Result RewriteError (List ℕ)
  unfolding override_all remove_all
  edit bytes override remove = do edited ← override_all bytes override; remove_all edited remove

  abbrev is_json : Unicode → Header → Bool
  is_json u h = contains (to_lower u (header_get (text "Content-Type") h)) (text "application/json")

  abbrev set_if_some {ℓ} : {A : Type ℓ} → Option A → A → Option A
  set_if_some none a = none
  set_if_some (some _) a = some a

  -- The new body, with its length in both places.
  abbrev with_body : List ℕ → Outgoing → Outgoing
  with_body bytes req = record req {
    body = content bytes;
    get_body = set_if_some req.get_body bytes;
    content_length = pos (length bytes);
    headers = header_set (text "Content-Length") (itoa (pos (length bytes))) req.headers;
  }

  -- The body has been read: an error from here on leaves nothing to send.
  abbrev edit_content : List ℕ → Dict Json → List Text → Outgoing → Outgoing × Option RewriteError
  edit_content bytes override remove req =
      if is_nil bytes
      then (record req { body = drained }, some empty_body)
      else elim (edit bytes override remove) [
        | err e ↦ (record req { body = drained }, some e)
        | ok bytes' ↦ (with_body bytes' req, none)
      ]

  unfoldable pub rewrite_json_body :
      Unicode → Dict Json → List Text → Outgoing → Outgoing × Option RewriteError
  rewrite_json_body u override remove req = elim req.body [
    | no_body ↦ (req, some missing_body)
    | content bytes ↦
        if is_json u req.headers
        then edit_content bytes override remove req
        else (req, some not_json)
    | drained ↦ if is_json u req.headers then (req, some read_failed) else (req, some not_json)
    | unreadable ↦
        if is_json u req.headers
        then (record req { body = drained }, some read_failed)
        else (req, some not_json)
  ]

-- ===== src/Proxy/Body/Length.antt =====
-- What `rewriteJSONBody` of internal/proxy/handler.go leaves: a body with its length, or nothing.
use yapi.Common.{
  ℕ, ◌≡◌, refl, inl, inr, none, some, List, ok, err, length, arith, ap, sym, ◌∙◌, Result-cases,
}
use yapi.Common.Int.{pos}
use yapi.Common.Text.{Text, text, text_eq, Unicode}
use yapi.Common.Text.Decimal.{itoa}
use yapi.Common.Dict.{Dict}
use yapi.Common.Http.{canonical_key, header_get}
use yapi.Common.Http.Laws.{header_get-header_set}
use yapi.Rules.Json.{Json}
use yapi.Proxy.Match.{content, Outgoing}
use yapi.Proxy.Body.{Sjson, RewriteError, edit, with_body, rewrite_json_body}

module _ (sj : Sjson) (u : Unicode) (override : Dict Json) (remove : List Text) where
  -- A rewriting that fails changes no header.
  pub rewrite_json_body-headers :
      (req out : Outgoing) (e : RewriteError)
      → rewrite_json_body sj u override remove req ≡ (out, some e)
      → out.headers ≡ req.headers
  unfolding rewrite_json_body
  rewrite_json_body-headers req out e h = ground arith

  rewritten :
      (req out : Outgoing) (before after : List ℕ)
      → req.body ≡ content before
      → edit sj before override remove ≡ ok after
      → rewrite_json_body sj u override remove req ≡ (out, none)
      → with_body sj after req ≡ out
  unfolding rewrite_json_body
  rewritten req out before after has edited h = ground arith

  edited_ok :
      (req out : Outgoing) (before : List ℕ)
      → req.body ≡ content before
      → rewrite_json_body sj u override remove req ≡ (out, none)
      → (after : List ℕ) × (edit sj before override remove ≡ ok after)
  unfolding rewrite_json_body
  edited_ok req out before has h = elim (Result-cases (edit sj before override remove)) [
    | inl found ↦ found
    | inr (e, failed) ↦ absurd (contradiction e failed)
  ]
    where
      contradiction : (e : RewriteError) → edit sj before override remove ≡ err e → ⊥
      contradiction e failed = ground arith

  was_content :
      (req out : Outgoing)
      → rewrite_json_body sj u override remove req ≡ (out, none)
      → (before : List ℕ) × (req.body ≡ content before)
  unfolding rewrite_json_body
  was_content req out h = ground arith

  length_header :
      (after : List ℕ) (req : Outgoing)
      → header_get (text "Content-Length") (with_body sj after req).headers
        ≡ itoa (pos (length after))
  length_header after req =
      header_get-header_set (text "Content-Length") (text "Content-Length")
        (itoa (pos (length after))) req.headers
      ∙ unfold canonical_key text_eq in refl

  -- A rewriting that succeeds had a body to read, sends what the edits made of it, and states the
  -- length of that in the request and in the header `Content-Length`.
  pub rewrite_json_body-length :
      (req out : Outgoing)
      → rewrite_json_body sj u override remove req ≡ (out, none)
      → (before after : List ℕ) × (req.body ≡ content before)
        × (edit sj before override remove ≡ ok after)
        × (out.body ≡ content after)
        × (out.content_length ≡ pos (length after))
        × (header_get (text "Content-Length") out.headers ≡ itoa (pos (length after)))
  rewrite_json_body-length req out h =
      let (before, has) = was_content req out h in
      let (after, edited) = edited_ok req out before has h in
      let same = rewritten req out before after has edited h in
      (
        before,
        after,
        has,
        edited,
        ap (λ (o : Outgoing). o.body) (sym same),
        ap (λ (o : Outgoing). o.content_length) (sym same),
        ap (λ (o : Outgoing). header_get (text "Content-Length") o.headers) (sym same)
            ∙ length_header after req,
      )

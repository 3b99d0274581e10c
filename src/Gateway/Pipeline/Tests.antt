-- ===== src/Gateway/Pipeline/Tests.antt =====
-- The whole chain in front of tables with one user, at concrete requests.
use yapi.Common.{refl, ℕ, none, some, List, [], ◌∷◌, Result, ok, inr, arith}
use yapi.Common.Text.{text}
use yapi.Rules.Model.{Rule}
use yapi.Rules.Store.{StoreError}
use yapi.Accounts.Service.Slots.{slot_db, slot_rows}
use yapi.Accounts.Service.Slots.Laws.{slot-Reads, slot-Writes}
use yapi.Accounts.Service.Tables.Run.{here}
use yapi.Proxy.Match.{Request}
use yapi.Gateway.Live.Ann.{of_ann-Linked, of_ann-Answers, of_ann-Bound}
use yapi.Gateway.Pipeline.{Served, serve}
use yapi.Common.Http.{header_get}
use yapi.Gateway.Pipeline.RequestIds.{IdOf, serve-Named}
use yapi.Gateway.Pipeline.Forwards.{Forwarded, serve-Forwards}
use yapi.Fixtures.{
  upstream_url, plain_bcrypt, plain_endpoints, plain_unicode, plain_codec, plain_env, plain_sjson,
  plain_net, ann, ann_slots, sent_key, call, low_rule,
}

abbrev one_listed : ℕ → ℕ × Result StoreError (List Rule)
one_listed s = (s, ok (low_rule ∷ []))

abbrev with_key : Request
with_key = record call { headers = sent_key }

serve-Forwards_example :
    Forwarded plain_env plain_sjson plain_net upstream_url plain_unicode plain_codec plain_bcrypt []
      one_listed
      (slot_db.queries ann_slots)
      (slot_rows ann_slots)
      (text "r1")
      with_key
      0
      0
      (low_rule ∷ [])
      (serve plain_env plain_sjson plain_net
        (some upstream_url)
        plain_unicode
        plain_codec
        plain_bcrypt
        []
        one_listed
        (some (slot_db.queries ann_slots))
        (text "r1")
        with_key
        0).1.reply
serve-Forwards_example =
    serve-Forwards plain_env plain_sjson plain_net upstream_url plain_unicode plain_codec
      plain_bcrypt [] plain_endpoints slot_db slot_rows slot-Reads slot-Writes one_listed ann_slots
      ann_slots (text "r1") with_key 0 0 (low_rule ∷ []) (of_ann-Linked (some ann)) here
      (of_ann-Answers (some ann)) (of_ann-Bound (some ann)) (λ e. ground arith) refl
      (inr (upstream_url, refl), tt) (inr (upstream_url, refl))

-- A preflight that brings an id.
abbrev preflight : Request
preflight = record with_key {
  method = text "OPTIONS";
  headers = (text "X-Request-Id", text "mine" ∷ []) ∷ [];
}

abbrev answered : Served
answered =
    (serve plain_env plain_sjson plain_net none plain_unicode plain_codec plain_bcrypt [] one_listed
      none (text "r1") preflight 0).1

serve-Named_example :
    IdOf
      (text "r1")
      (header_get (text "X-Request-ID") preflight.headers)
      (header_get (text "X-Request-ID") answered.headers)
serve-Named_example =
    serve-Named plain_env plain_sjson plain_net none plain_unicode plain_codec plain_bcrypt []
      one_listed none (text "r1") preflight 0

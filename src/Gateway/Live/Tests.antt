-- ===== src/Gateway/Live/Tests.antt =====
-- The gateway in front of tables with one user, at concrete requests.
use yapi.Common.{◌≡◌, refl, none, some}
use yapi.Common.Text.{text, text_eq}
use yapi.Accounts.Service.{delete_user}
use yapi.Accounts.Service.Slots.{slot_db, slot_rows}
use yapi.Accounts.Service.Slots.Laws.{slot-Reads, slot-Writes}
use yapi.Middleware.Auth.{api_key_auth}
use yapi.Gateway.{accounts_authenticator}
use yapi.Gateway.Live.{Admitted, delete_user-Admitted}
use yapi.Fixtures.{
  plain_bcrypt, plain_endpoints, plain_unicode, plain_codec, ann, ann_slots, sent_key,
}
use yapi.Gateway.Live.Ann.{of_ann-Linked, of_ann-Answers, of_ann-Bound}

deletes :
    delete_user plain_bcrypt plain_endpoints slot_db (text "u1") ann_slots
    ≡ (record ann_slots { user = none }, none)
unfolding delete_user text_eq
deletes = refl

delete_user-Admitted_example :
    ((slot_rows (record ann_slots { user = none })).users (text "u1") ≡ none)
    × Admitted (slot_rows (record ann_slots { user = none })) (
        api_key_auth plain_unicode plain_codec
          (accounts_authenticator plain_bcrypt (slot_db.queries (record ann_slots { user = none })))
          sent_key)
unfolding of_ann-Bound
delete_user-Admitted_example =
    delete_user-Admitted plain_bcrypt plain_endpoints slot_db slot_rows slot-Reads plain_unicode
      plain_codec slot-Writes (text "u1") ann_slots (record ann_slots { user = none }) sent_key
      (of_ann-Linked (some ann)) (of_ann-Answers none) deletes (of_ann-Bound (some ann)) refl

-- ===== src/Accounts/Service/Tests.antt =====
-- The service of the accounts on a database with room for one row in each table.
use yapi.Common.{ℕ, ◌≡◌, refl, none, some, List, [], ◌∷◌}
use mathlib.Core.Option
use yapi.Common.Int.{pos}
use yapi.Common.Text.{text, text_eq, is_space, trim_left, trim_right, trim_space, len}
use yapi.Accounts.Model.{
  validate_user, validate_api_key, validate_upstream_key, validate_binding, UserKeyBinding,
}
use yapi.Accounts.Keys.{encode_hex, generate_api_key, hash_secret, first_non_empty}
use yapi.Accounts.Resolve.{found, get_user, BindApiKeyParams, create_new, rebind, bind_in}
use yapi.Accounts.Resolve
use yapi.Accounts.Create.{CreateApiKeyParams, new_key}
use yapi.Accounts.Create
use yapi.Accounts.Service
use yapi.Accounts.Service.{new_upstream}
use yapi.Accounts.Service.Slots.{Slots, empty_slots, slot_db, slot_rows}
use yapi.Accounts.Service.Slots.Laws.{slot-Reads, slot-Writes}
use yapi.Accounts.Service.Tables.Settle.{IsLinked}
use yapi.Accounts.Service.Tables.Run.{
  Request, create_user, create_user_api_key, create_upstream_credential, bind_api_key, run, here,
  after, Reach-IsLinked,
}
use yapi.Accounts.Service.Tables.Revoked.{
  Revoked, revoke_user_api_key-Revoked, Dropped, delete_upstream_credential-Dropped,
}
use yapi.Fixtures.{plain_bcrypt, plain_endpoints, ann_slots}

abbrev run_one : Request → Slots → Slots
run_one = run plain_bcrypt plain_endpoints slot_db

abbrev zeros : List ℕ
zeros =
    0 ∷ 0 ∷ 0 ∷ 0 ∷ 0 ∷ 0 ∷ 0 ∷ 0 ∷ 0 ∷ 0 ∷ 0 ∷ 0 ∷ 0 ∷ 0 ∷ 0 ∷ 0 ∷ 0 ∷ 0 ∷ 0 ∷ 0 ∷ 0 ∷ 0 ∷ 0 ∷ 0
    ∷ []

abbrev add_user : Request
add_user = create_user (text "u1") (record { name = text "ann"; description = []; metadata = none })

abbrev add_key : Request
add_key = create_user_api_key (text "k1") (some zeros) (record { user_id = text "u1"; label = [] })

abbrev add_upstream : Request
add_upstream = create_upstream_credential (text "c1") (record {
  user_id = text "u1";
  provider = [];
  label = [];
  service = text "openai";
  name = [];
  plaintext = text "sk";
  endpoints = [];
  metadata = none;
})

abbrev add_binding : Request
add_binding = bind_api_key (text "b1") (record {
  user_id = text "u1";
  user_api_key_id = text "k1";
  upstream_credential_id = text "c1";
  service = [];
  position = pos 0;
  metadata = none;
})

-- Four calls that fill the tables.
abbrev filled : Slots
filled = run_one add_binding (run_one add_upstream (run_one add_key (run_one add_user empty_slots)))

fills : Option.map (λ (b : UserKeyBinding). b.id) filled.binding ≡ some (text "b1")
unfolding run Service.create_user Create.create_user_api_key Service.create_upstream_credential
    Resolve.bind_api_key new_key get_user found generate_api_key encode_hex hash_secret
    validate_user validate_api_key validate_upstream_key validate_binding trim_space trim_left
    trim_right is_space len new_upstream first_non_empty create_new rebind bind_in text_eq
fills = refl

empty_slots-Linked : IsLinked slot_rows empty_slots
empty_slots-Linked = record { has_key = λ i b e. cc; has_upstream = λ i b e. cc }

Reach-IsLinked_example : IsLinked slot_rows filled
Reach-IsLinked_example =
    Reach-IsLinked plain_bcrypt plain_endpoints slot_db slot_rows slot-Reads slot-Writes
      (after add_binding (after add_upstream (after add_key (after add_user here refl) refl) refl)
        refl)
      empty_slots-Linked

revokes :
    Service.revoke_user_api_key plain_bcrypt plain_endpoints slot_db (text "k1") ann_slots
    ≡ (record ann_slots { key = none; binding = none }, none)
unfolding Service.revoke_user_api_key text_eq
revokes = refl

revoke_user_api_key-Revoked_example :
    Revoked plain_bcrypt plain_endpoints slot_db slot_rows slot-Reads slot-Writes
      (text "k1")
      ann_slots
      (record ann_slots { key = none; binding = none })
revoke_user_api_key-Revoked_example =
    revoke_user_api_key-Revoked plain_bcrypt plain_endpoints slot_db slot_rows slot-Reads
      slot-Writes (text "k1") ann_slots (record ann_slots { key = none; binding = none }) revokes

drops :
    Service.delete_upstream_credential plain_bcrypt plain_endpoints slot_db (text "c1") ann_slots
    ≡ (record ann_slots { upstream = none; binding = none }, none)
unfolding Service.delete_upstream_credential text_eq
drops = refl

delete_upstream_credential-Dropped_example :
    Dropped plain_bcrypt plain_endpoints slot_db slot_rows slot-Reads slot-Writes
      (text "c1")
      ann_slots
      (record ann_slots { upstream = none; binding = none })
delete_upstream_credential-Dropped_example =
    delete_upstream_credential-Dropped plain_bcrypt plain_endpoints slot_db slot_rows slot-Reads
      slot-Writes (text "c1") ann_slots (record ann_slots { upstream = none; binding = none }) drops

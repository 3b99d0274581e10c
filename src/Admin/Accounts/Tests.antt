-- ===== src/Admin/Accounts/Tests.antt =====
-- The handlers of the accounts on a database with room for one row in each table.
use yapi.Common.{
  ℕ, ◌≡◌, refl, false, Option, none, some, List, [], ◌∷◌, ok, err, arith, if◌then◌else◌, is_nil,
}
use yapi.Common.Text.{Text, text, text_eq, is_space, trim_left, trim_right, trim_space, len}
use yapi.Rules.Store.{rule_not_found}
use yapi.Accounts.Model.{UpstreamKey, validate_upstream_key, validate_binding}
use yapi.Accounts.Keys.{first_non_empty}
use yapi.Accounts.Resolve
use yapi.Accounts.Resolve.{found, get_user, create_new, rebind, bind_in, get_binding_by_api_key_id}
use yapi.Accounts.Service
use yapi.Accounts.Database.{EndpointCodec}
use yapi.Accounts.Service.{new_upstream}
use yapi.Accounts.Service.Slots.{Slots, slot_db}
use yapi.Middleware.Auth.{Codec}
use yapi.Admin.Service.{RulesService, AdminService, new_service}
use yapi.Admin.Service.Over.{database_accounts}
use yapi.Admin.Accounts.{
  CreateUpstreamCredentialRequest, BindApiKeyRequest, UpstreamCredentialResponse,
  ApiKeyBindingResponse, answered, to_binding_response, to_upstream_credential_response,
  decode_endpoints,
}
use yapi.Admin.Accounts.Handlers
use yapi.Admin.Accounts.Handlers.{shown_binding}
use yapi.Admin.Accounts.Secrets.{hidden, Alike, hidden-Alike}
use yapi.Admin.Accounts.Binding.{Refusals, bind_api_key-Refusals, Shows, bind_api_key-Shows}
use yapi.Admin.Accounts.Endpoints.{RoundTrips, ShowsMade, create_upstream_credential-ShowsMade}
use yapi.Admin.Accounts.Older.{old_credential, older_rows, older_db, older-Reads, older-Linked}
use yapi.Fixtures.{plain_bcrypt, ann_credential, ann_binding, ann_slots}

-- A list of one text is written as that text, and any other list cannot be written.
abbrev one_text : EndpointCodec
one_text = record {
  marshal_texts = λ es. elim es [
    | [] ↦ none
    | e ∷ rest ↦ if is_nil rest then (if is_nil e then none else some e) else none
  ];
}

abbrev read_text : Codec
read_text = record { unmarshal_texts = λ raw. some (raw ∷ []) }

one_text-RoundTrips : RoundTrips one_text read_text
one_text-RoundTrips = record { read = trips }
  where
    trips :
        (es : List Text) (raw : Text)
        → one_text.marshal_texts es ≡ some raw
        → (read_text.unmarshal_texts raw ≡ some es) × (is_nil raw ≡ false)
    trips [] raw e = cc
    trips ([] ∷ []) raw e = cc
    trips ((c ∷ t) ∷ []) raw e = (ground arith, ground arith)
    trips (x ∷ (y ∷ es)) raw e = cc

abbrev no_rules : RulesService Slots
no_rules = record {
  list_rules = λ s. (s, ok []);
  get_rule = λ id s. (s, err rule_not_found);
  upsert_rule = λ r s. (s, none);
  delete_rule = λ id s. (s, some rule_not_found);
}

abbrev uuid_of : Slots → Text
uuid_of s = text "n1"

abbrev no_random : Slots → Option (List ℕ)
no_random s = none

abbrev svc : AdminService Slots
svc =
    new_service no_rules (some (database_accounts plain_bcrypt one_text slot_db uuid_of no_random))

hidden-Alike_example : Alike read_text (hidden (text "x") svc) svc
hidden-Alike_example = hidden-Alike read_text (text "x") svc

-- The credential of the tables for ann, and for the user "u2".
abbrev bind_request : BindApiKeyRequest
bind_request = record { user_id = text "u1"; upstream_credential_id = text "c1" }

abbrev foreign_request : BindApiKeyRequest
foreign_request = record { user_id = text "u2"; upstream_credential_id = text "c1" }

not_blank : is_nil (trim_space (text "u2")) ≡ false
unfolding trim_space trim_left trim_right is_space
not_blank = refl

bind_api_key-Refusals_example :
    Refusals plain_bcrypt one_text slot_db uuid_of no_random no_rules read_text
      (text "k1")
      foreign_request
      ann_slots
bind_api_key-Refusals_example =
    bind_api_key-Refusals plain_bcrypt one_text slot_db uuid_of no_random no_rules read_text
      (text "k1") foreign_request ann_slots refl not_blank

abbrev rebound : Slots
rebound = record ann_slots { binding = some (record ann_binding { updated_at = 7 }) }

-- Asked for the newer credential, the answer shows the older one.
abbrev bound_reply : ApiKeyBindingResponse
bound_reply = shown_binding read_text ann_binding old_credential

abbrev older_svc : AdminService Slots
older_svc =
    new_service no_rules (some (database_accounts plain_bcrypt one_text older_db uuid_of no_random))

binds :
    Handlers.bind_api_key read_text older_svc (text "k1") (some bind_request) ann_slots
    ≡ (rebound, answered 200 bound_reply)
unfolding Handlers.bind_api_key Resolve.bind_api_key bind_in found create_new rebind
    validate_binding text_eq trim_space trim_left trim_right is_space get_binding_by_api_key_id
    to_binding_response to_upstream_credential_response decode_endpoints
binds = refl

bind_api_key-Shows_example :
    Shows plain_bcrypt one_text older_db uuid_of no_random no_rules read_text older_rows older-Reads
      (text "k1")
      bind_request
      rebound
      bound_reply
bind_api_key-Shows_example =
    bind_api_key-Shows plain_bcrypt one_text older_db uuid_of no_random no_rules read_text
      older_rows older-Reads (text "k1") bind_request ann_slots rebound 200 bound_reply older-Linked
      binds

abbrev create_request : CreateUpstreamCredentialRequest
create_request = record {
  provider = text "openai";
  service = text " azure ";
  label = [];
  name = [];
  plaintext = text "sk";
  endpoints = text "https://up" ∷ [];
  metadata = none;
}

abbrev user_only : Slots
user_only = record ann_slots { key = none; upstream = none; binding = none }

abbrev made_credential : UpstreamKey
made_credential = record ann_credential {
  id = text "n1";
  service = text "azure";
  endpoints = text "https://up";
  created_at = 7;
  updated_at = 7;
}

abbrev made_reply : UpstreamCredentialResponse
made_reply = record {
  id = text "n1";
  user_id = text "u1";
  provider = text "azure";
  service = text "azure";
  label = [];
  name = [];
  endpoints = text "https://up" ∷ [];
  metadata = none;
  created_at = 7;
  updated_at = 7;
}

creates :
    Handlers.create_upstream_credential read_text svc (text "u1") (some create_request) user_only
    ≡ (record user_only { upstream = some made_credential }, answered 201 made_reply)
unfolding Handlers.create_upstream_credential Service.create_upstream_credential new_upstream
    get_user found validate_upstream_key first_non_empty text_eq trim_space trim_left trim_right
    is_space len to_upstream_credential_response decode_endpoints
creates = refl

create_upstream_credential-ShowsMade_example :
    ShowsMade (text "n1") (text "u1") create_request 201 made_reply
create_upstream_credential-ShowsMade_example =
    create_upstream_credential-ShowsMade plain_bcrypt one_text slot_db uuid_of no_random no_rules
      read_text one_text-RoundTrips (text "u1") create_request user_only
      (record user_only { upstream = some made_credential }) 201 made_reply creates

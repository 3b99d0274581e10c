-- ===== src/Fixtures.antt =====
-- Concrete values for the tests: libraries that do little, and one user with a key, a binding and a
-- rule.
use yapi.Common.{true, false, none, some, List, [], ◌∷◌, ◌++◌, ok, err, if◌then◌else◌}
use yapi.Common.Int.{pos}
use yapi.Common.Text.{text, text_eq, Unicode}
use yapi.Common.Http.{Header}
use yapi.Rules.Model.{Rule, Matcher, Actions, Regexp}
use yapi.Rules.Service.{Cache, hit}
use yapi.Accounts.Model.{not_found, User, ApiKey, UpstreamKey, UserKeyBinding}
use yapi.Accounts.Keys.{Bcrypt}
use yapi.Accounts.Resolve.{Queries}
use yapi.Accounts.Database.{EndpointCodec}
use yapi.Accounts.Service.Slots.{Slots}
use yapi.Middleware.Auth.{Codec, Authenticator, Context, UpstreamInfo}
use yapi.Proxy.Match.{Url, Request, Outgoing, Env, content}
use yapi.Proxy.Body.{Sjson}
use yapi.Proxy.Handler.{Net}

abbrev pub plain_unicode : Unicode
plain_unicode = record { lower = λ c. c; folds = λ c d. false }

-- A pattern is a text that is matched as a whole, and nothing is replaced.
abbrev pub plain_regexp : Regexp
plain_regexp = record { compiles = λ p. true; matches = text_eq; replace_all = λ p s r. s }

abbrev pub plain_env : Env
plain_env = record { unicode = plain_unicode; regexp = plain_regexp; sprint = λ v. [] }

-- Setting a field appends its path; deleting always fails.
abbrev pub plain_sjson : Sjson
plain_sjson = record { set_bytes = λ b p v. some (b ++ p); delete_bytes = λ b p. none }

abbrev pub upstream_url : Url
upstream_url = record { scheme = text "https"; host = text "up"; path = []; raw_query = [] }

-- Every text is the address of the upstream.
abbrev pub plain_net : Net
plain_net = record {
  parse_url = λ s. some upstream_url;
  url_string = λ u. u.host;
  error_text = λ e. text "failed";
}

-- Every list of texts is empty.
abbrev pub plain_codec : Codec
plain_codec = record { unmarshal_texts = λ s. some [] }

abbrev pub ann : User
ann = record {
  id = text "u1";
  name = text "ann";
  description = [];
  metadata = none;
  created_at = 0;
  updated_at = 0;
  deleted_at = none;
}

abbrev pub ann_key : ApiKey
ann_key = record {
  id = text "k1";
  user_id = text "u1";
  label = [];
  prefix = text "12345678";
  secret_hash = text "h";
  enabled = true;
  last_used_at = none;
  metadata = none;
  created_at = 0;
  updated_at = 0;
  deleted_at = none;
}

abbrev pub ann_credential : UpstreamKey
ann_credential = record {
  id = text "c1";
  user_id = text "u1";
  service = text "openai";
  name = [];
  api_key = text "sk";
  endpoints = [];
  metadata = none;
  enabled = true;
  created_at = 0;
  updated_at = 0;
  deleted_at = none;
}

abbrev pub ann_binding : UserKeyBinding
ann_binding = record {
  id = text "b1";
  user_id = text "u1";
  user_api_key_id = text "k1";
  upstream_key_id = text "c1";
  service = text "openai";
  position = pos 0;
  metadata = none;
  created_at = 0;
  updated_at = 0;
}

-- One key is known.
abbrev pub one_key : Authenticator
one_key = record {
  resolve_binding_by_raw_key = λ raw.
      if text_eq raw (text "yapi_1") then ok (ann_binding, ann_credential) else err not_found;
  resolve_api_key = λ raw. if text_eq raw (text "yapi_1") then ok ann_key else err not_found;
  get_user = λ id. ok ann;
}

abbrev pub bearer : Header
bearer =
    (text "Authorization", text "Bearer yapi_1" ∷ [])
    ∷ (text "Content-Type", text "application/json" ∷ [])
    ∷ []

abbrev pub ann_upstream : UpstreamInfo
ann_upstream = record { credential = ann_credential; endpoints = [] }

abbrev pub ann_context : Context
ann_context = record {
  user = some ann;
  api_key = some ann_key;
  binding = some ann_binding;
  upstream = some ann_upstream;
  raw_api_key = some (text "yapi_1");
}

abbrev pub call : Request
call = record {
  method = text "POST";
  full_path = [];
  url = record { scheme = []; host = []; path = text "/v1/chat"; raw_query = [] };
  headers = bearer;
  body = content (text "{}");
  content_length = pos 2;
}

abbrev pub leaving : Outgoing
leaving = record {
  url = call.url;
  headers = bearer;
  body = content (text "{}");
  get_body = none;
  content_length = pos 2;
}

abbrev pub all_of_v1 : Matcher
all_of_v1 = record {
  path_prefix = text "/v1";
  methods = text "post" ∷ [];
  headers = [];
  api_key_ids = [];
  api_key_prefixes = [];
  user_ids = text "u1" ∷ [];
  user_metadata = [];
  binding_upstream_ids = [];
  binding_providers = text "OpenAI" ∷ [];
  require_binding = true;
}

abbrev pub to_upstream : Actions
to_upstream = record {
  set_target_url = text "https://up";
  set_headers = [];
  add_headers = [];
  remove_headers = [];
  set_authorization = [];
  override_json = [];
  remove_json = [];
  rewrite_path_regex = none;
  script = [];
}

abbrev pub low_rule : Rule
low_rule = record {
  id = text "low";
  priority = pos 1;
  matcher = all_of_v1;
  actions = to_upstream;
  enabled = true;
  version = pos 0;
  created_by = [];
  updated_by = [];
  created_at = 0;
  updated_at = 0;
}

abbrev pub high_rule : Rule
high_rule = record low_rule { id = text "high"; priority = pos 2 }

-- A rule that removes a field of the body.
abbrev pub removing_rule : Rule
removing_rule = record low_rule { actions = record to_upstream { remove_json = text "seed" ∷ [] } }

-- A cache that keeps what it has and never takes anything.
abbrev pub stubborn : Cache (List Rule)
stubborn = record { get = λ c. (c, hit c); set = λ rules c. (c, false) }

-- Every secret has the hash "h".
abbrev pub plain_bcrypt : Bcrypt
plain_bcrypt = record {
  generate_from_password = λ secret. some (text "h");
  compare_hash_and_password = λ hash secret. text_eq hash (text "h");
}

-- Tables with the user, the key, the binding and the credential, whatever is asked for; the binding
-- is for one service.
abbrev pub one_of_each : Queries
one_of_each = record {
  user_by_id = λ id. ok ann;
  key_by_id = λ id. ok ann_key;
  key_by_prefix = λ prefix. ok ann_key;
  upstream_by_id = λ id. ok ann_credential;
  first_binding_of_key = λ id. ok ann_binding;
  binding_of_key_and_service = λ id service. ok ann_binding;
}

abbrev pub sent_key : Header
sent_key = (text "X-Api-Key", text "yapi_12345678_x" ∷ []) ∷ []

abbrev pub sent_context : Context
sent_context = record ann_context { raw_api_key = some (text "yapi_12345678_x") }

abbrev pub plain_endpoints : EndpointCodec
plain_endpoints = record { marshal_texts = λ es. some (text "[]") }

-- The tables with the user, the key, the credential and the binding.
abbrev pub ann_slots : Slots
ann_slots = record {
  user = some ann;
  key = some ann_key;
  upstream = some ann_credential;
  binding = some ann_binding;
}

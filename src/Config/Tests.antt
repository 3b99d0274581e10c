-- ===== src/Config/Tests.antt =====
-- The configuration of a concrete environment.
use yapi.Common.{◌≡◌, refl, none, some, [], ◌∷◌, if◌then◌else◌}
use yapi.Common.Int.{pos}
use yapi.Common.Text.{text, text_eq, is_space, trim_left, trim_right, trim_space, split, split_from}
use yapi.Common.Text.Decimal.{atoi}
use yapi.Config.{Environment, load}
use yapi.Config.Loaded.{IsUsable, load-IsUsable}
use yapi.Fixtures.{plain_unicode}

-- Some variables are set, and no duration parses.
abbrev some_set : Environment
some_set = record {
  lookup_env = λ key.
      if text_eq key (text "ADMIN_TOKEN_TTL")
      then some (text "60")
      else if text_eq key (text "ADMIN_ALLOWED_ORIGINS")
      then some (text "http://a, ,http://b")
      else if text_eq key (text "REDIS_MAINT_NOTIFICATIONS_MODE")
      then some (text " AUTO")
      else none;
  parse_duration = λ s. none;
}

loads : (load some_set plain_unicode).admin_allowed_origins ≡ text "http://a" ∷ text "http://b" ∷ []
unfolding load text_eq trim_space trim_left trim_right is_space split split_from
loads = refl

lasts : (load some_set plain_unicode).admin_token_ttl ≡ pos 60000000000
unfolding load text_eq atoi
lasts = refl

load-IsUsable_example : IsUsable (load some_set plain_unicode)
load-IsUsable_example = load-IsUsable some_set plain_unicode

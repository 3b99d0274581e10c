-- ===== src/Gateway/Tests.antt =====
-- The gateway's property at a concrete request.
use yapi.Common.{◌≡◌, refl, ℕ, none, List, [], ◌∷◌, Result, ok}
use yapi.Common.Text.{
  text, text_eq, is_space, trim_left, trim_right, trim_space, has_prefix, split_from, split,
  to_lower, equal_fold, len,
}
use yapi.Common.Http.{canonical_key, header_get}
use yapi.Rules.Model.{Rule}
use yapi.Rules.Store.{StoreError}
use yapi.Accounts.Keys.{split_api_key}
use yapi.Accounts.Resolve.{
  found, resolve_api_key, get_user, get_binding_by_api_key_id, resolve_binding_by_raw_key,
}
use yapi.Middleware.Auth.{next, api_key_auth, extract_api_key, decode_endpoints}
use yapi.Proxy.Match.{Outgoing, matches_request, first_match, string_in_slice_trimmed}
use yapi.Proxy.Handler.{
  authorize_binding, authorize, match_rule, resolve_target, director, forward, handle, forwarded,
}
use yapi.Gateway.{accounts_authenticator, HasUsed, forwarded-HasUsed}
use yapi.Fixtures.{
  upstream_url, plain_unicode, plain_codec, plain_env, plain_sjson, plain_net, plain_bcrypt,
  one_of_each, sent_key, sent_context, ann_upstream, call, low_rule,
}

abbrev one_listed : ℕ → ℕ × Result StoreError (List Rule)
one_listed s = (s, ok (low_rule ∷ []))

abbrev sent : Outgoing
sent =
    director plain_env plain_sjson plain_net none sent_context (text "r1") low_rule upstream_url
      call

resolves :
    api_key_auth plain_unicode plain_codec
      (accounts_authenticator plain_bcrypt one_of_each)
      sent_key
    ≡ next sent_context
unfolding api_key_auth extract_api_key decode_endpoints header_get canonical_key trim_space
    trim_left trim_right is_space to_lower has_prefix text_eq resolve_binding_by_raw_key
    resolve_api_key get_binding_by_api_key_id get_user found split_api_key split split_from len
resolves = refl

goes_out :
    handle plain_env plain_sjson plain_net none one_listed sent_context (text "r1") call 0
    ≡ (0, forwarded low_rule sent)
unfolding handle authorize authorize_binding match_rule forward resolve_target first_match
    matches_request string_in_slice_trimmed trim_space trim_left trim_right is_space equal_fold
    text_eq has_prefix
goes_out = refl

forwarded-HasUsed_example :
    HasUsed plain_bcrypt one_of_each
      (extract_api_key plain_unicode sent_key)
      sent_context
      ann_upstream
forwarded-HasUsed_example =
    forwarded-HasUsed plain_env plain_sjson plain_net none plain_bcrypt one_of_each plain_unicode
      plain_codec sent_key one_listed sent_context (text "r1") call 0 0 low_rule sent ann_upstream
      resolves goes_out refl

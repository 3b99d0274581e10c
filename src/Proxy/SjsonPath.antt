-- ===== src/Proxy/SjsonPath.antt =====
-- `tokensToSJSONPath` of internal/proxy/handler.go: tokens back into a path of the library sjson.
pub mod Reparse
use yapi.Common.{List, map}
use yapi.Common.Text.{Text, join}
use yapi.Common.Text.Decimal.{itoa}
use yapi.Rules.JsonPath.{JsonPathToken, key, index}

-- `parts[i]`: the key, or the index in decimal.
unfoldable pub token_text : JsonPathToken → Text
token_text (key k) = k
token_text (index i) = itoa i

unfoldable pub tokens_to_sjson_path : List JsonPathToken → Text
unfolding token_text
tokens_to_sjson_path tokens = join (map token_text tokens) b'.'

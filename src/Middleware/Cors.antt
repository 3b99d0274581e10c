-- ===== src/Middleware/Cors.antt =====
-- internal/middleware/cors.go: which origins may read the answers of the admin API.
pub mod Origin
use yapi.Common.{Bool, ◌&&◌, ◌||◌, not, List, is_nil, any, if◌then◌else◌}
use yapi.Common.Text.{Text, text, text_eq}
use yapi.Common.Http.{Header, header_get, header_set}

-- The headers of the response so far, and whether the request goes on or is answered with 204.
pub record CorsReply : Type 0 where
  pub headers : Header
  pub proceeds : Bool

-- `CORS(allowedOrigins)` on a request's method and headers, and the response's headers.
unfoldable pub cors : List Text → Text → Header → Header → CorsReply
cors allowed method request response =
    let origin = header_get (text "Origin") request in
    let granted =
      header_set (text "Access-Control-Allow-Methods") (text "GET,POST,PUT,DELETE,OPTIONS") (
        header_set (text "Access-Control-Allow-Headers") (text "Authorization, Content-Type") (
          header_set (text "Access-Control-Allow-Credentials") (text "true")
            (header_set (text "Access-Control-Allow-Origin") origin response))) in
    record {
      headers =
          if not (is_nil origin) && (is_nil allowed || any (λ o. text_eq o origin) allowed)
          then granted
          else response;
      proceeds = not (text_eq method (text "OPTIONS"));
    }

-- ===== src/Middleware/RequestId.antt =====
-- internal/middleware/request.go: the id of a request.
use yapi.Common.{is_nil, if◌then◌else◌}
use yapi.Common.Text.{Text, text}
use yapi.Common.Http.{Header, header_get, header_set}

-- `RequestID`: the id of the request, which `uuid` gives if the client sent none, and the headers
-- of the response.
unfoldable pub request_id : Text → Header → Header → Text × Header
request_id uuid request response =
    let sent = header_get (text "X-Request-ID") request in
    let id = if is_nil sent then uuid else sent in
    (id, header_set (text "X-Request-ID") id response)

-- `WithRequestID`, on the headers of the outgoing request.
unfoldable pub with_request_id : Text → Header → Header
with_request_id id h = if is_nil id then h else header_set (text "X-Request-ID") id h

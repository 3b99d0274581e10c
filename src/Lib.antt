-- ===== src/Lib.antt =====
-- yapi: a gateway for language-model APIs, written in Go. A request comes in, the middleware finds
-- the API key that it sends and what the key is bound to, the proxy picks a rule for it from the
-- rules' service and sends it on to an upstream, changed as the rule says and with the upstream's
-- credential. An HTTP interface administers rules and accounts.
--
-- The parts and their files:
--
--   Common         What the code takes of Go and its libraries: strings as lists of code points
--                  (Common.Text), 64-bit integers (Common.Int, Common.Text.Decimal), maps as
--                  association lists (Common.Dict), headers of net/http (Common.Http).
--   Rules          pkg/rules. JsonPath: jsonpath.go. Model: model.go. Store: store.go. Service:
--                  service.go with the interfaces of cache.go and events.go. Json: the values of
--                  encoding/json. DbStore: postgres_store.go. Service.Race: overlapping calls, as a
--                  step relation.
--   Accounts       pkg/accounts. Model: models.go and errors.go. Keys: the API keys of service.go.
--                  Resolve: what a key resolves to, and BindAPIKey. Create: CreateUserAPIKey.
--                  Database: the statements that service.go makes of gorm, and the parameters of its
--                  operations. Service: the other operations of service.go. Service.Tables:
--                  what is relied on of the database, and the invariant of its tables.
--                  Service.Slots: a database with one row in each table, for the tests.
--   Middleware     internal/middleware. Auth: auth.go. Cors: cors.go. RequestId: request.go.
--   Proxy          internal/proxy/handler.go. Match: matchesRequest and matchRule, with
--                  Parts and Spec, what they ask of a request. Body: rewriteJSONBody. Actions: applyRuleActions.
--                  Handler: Handle, authorizeBinding, resolveTarget. SjsonPath: tokensToSJSONPath.
--   Admin          internal/admin. Listing: listRules of handler.go and what it calls. Rules:
--                  createOrUpdateRule, deleteRule and login of handler.go. Auth: auth.go. Service:
--                  service.go. Accounts: the other handlers of handler.go.
--   Config         pkg/config/config.go.
--   Gateway        cmd/gateway/main.go: the accounts' service behind the middleware and the proxy,
--                  on tables that the service has made (Live), and with a key that it has just made
--                  (Created); the chain of handlers that a request goes through (Pipeline); the
--                  seed rule (Seed).
--   Fixtures       Values that the modules called Tests share.
--
-- A function of the source has its name in snake case, so `MatchesRequest` would be
-- `matches_request`; a method takes its receiver's state and gives the state after it. An error is
-- a constructor, and nil is `none` or `ok`. The rules' service is written over any store and any
-- cache, given as records of operations (`Store`, `Cache`) over a state of their own; the store in
-- memory is one. The proxy's `handle` takes the service's `ListRules` as a state transition, and
-- `api_key_auth` takes the accounts as an interface of three lookups.
--
-- What is a parameter: regexp, the Unicode tables beyond ASCII, `fmt.Sprint`, net/url, the library
-- sjson, the package jwt, base64, encoding/json of a list of texts, bcrypt, the environment with
-- `time.ParseDuration`, and the database: `Queries` has the queries that the code makes of it, and
-- `AccountsDatabase` the statements, of which `Database` and `KeyDatabase` are parts. A statement
-- or a transaction that fails keeps the old state. A theorem that relies on one of them says so:
-- `SignsTokens` is what is relied on of jwt, with `numeric_date` for `NewNumericDate`; `ReadsBack`,
-- `RoundTrips` and `KeepsRows` of encoding/json and of the table of rules, `Fits` and `KeepsKeys`
-- of bcrypt and of the table of keys. jsonb columns are only taken to give back a text that is read
-- alike. `Reads` says that a query of the accounts answers with rows, and `Writes` what a statement
-- that succeeds makes of the rows; `Answers` says that a query finds what is there. The time, and
-- what `uuid.NewString` and `rand.Read` give, come from the database or as arguments. In Admin.Auth
-- a time is a number of nanoseconds.
--
-- Bounds and fuel: every loop is a structural recursion, but for `itoa`, whose fuel is above the
-- number that it prints, and every step divides the number by ten. An index of a JSON path is a
-- 64-bit integer, as `strconv.Atoi` has it. Page numbers are natural numbers: `parsePositiveInt`
-- lets no other through, and the page is brought down to the last one before it is multiplied.
--
-- Not modelled: logging and metrics; the Redis and database clients; the creation of the tables;
-- the table of the routes and the parsing of bodies by gin; the choice of the store and the cache,
-- the files of the environment and the server in cmd/gateway/main.go; what an upstream answers.
-- Calls of the services run one after the other, but for Rules.Service.Race, where calls of the
-- rules' service overlap; there the shared cache is written and not read. The order in
-- which Go visits a map is open: here it is the order of the association list. A string that is not
-- valid UTF-8 has no counterpart. Copies of rules are compared as values: what a copy shares with
-- its original is not told apart. Of a request that leaves, what `httputil.ReverseProxy` does round
-- the director is left out: it drops the body of a request whose Content-Length is 0 before it, and
-- takes away the hop-by-hop headers after it.
pub mod Common
pub mod Config
pub mod Rules
pub mod Admin
pub mod Accounts
pub mod Middleware
pub mod Proxy
pub mod Fixtures
pub mod Gateway

-- ===== src/Gateway/Live.antt =====
-- A key with a binding is let through, on tables that the accounts' service has made;
-- internal/middleware/auth.go and internal/proxy/handler.go in front of pkg/accounts/service.go.
pub mod Ann
mod Tests
use yapi.Common.{
  ◌≡◌, refl, ◌≢◌, ◌⊎◌, inl, inr, true, false, Option, none, some, [], ◌∷◌, Result, ok, err, arith,
  is_nil, if◌then◌else◌, Result-cases, Bool-cases, ap, ◌∙◌, sym,
}
use yapi.Common.Text.{Text, is_blank, Unicode, text_eq_refl, trim_space, trim_left, trim_right}
use yapi.Common.Http.{Header}
use yapi.Accounts.Model.{AccountsError, User, ApiKey, UpstreamKey, UserKeyBinding}
use yapi.Accounts.Keys.{Bcrypt, split_api_key}
use yapi.Accounts.Resolve.{
  Queries, QueryError, found, get_user, resolve_api_key, get_binding_by_api_key_id,
  resolve_binding_by_raw_key,
}
use yapi.Accounts.Resolve.Laws.{found_ok}
use yapi.Accounts.Database.{AccountsDatabase, EndpointCodec}
use yapi.Accounts.Service.{delete_user}
use yapi.Accounts.Service.Tables.{Tables, Reads, Writes}
use yapi.Accounts.Service.Tables.Linked.{Keeps-Linked, same-Keeps}
use yapi.Accounts.Service.Tables.Revoked.{settled}
use yapi.Accounts.Service.Tables.Settle.{IsLinked, plain_ok}
use yapi.Accounts.Service.Tables.Run.{Reach, Reach-IsLinked}
use yapi.Middleware.Auth.{
  Codec, Context, UpstreamInfo, Gate, next, api_key_auth, extract_api_key, decode_endpoints,
  value_of,
}
use yapi.Proxy.Handler.{authorize, authorize_binding}
use yapi.Proxy.Handler.Ownership.{IsOwned, authorize_binding_iff}
use yapi.Gateway.{accounts_authenticator}

-- The database finds in a state what is there, and the ids are not empty.
pub record Answers {S : Type 0} (db : AccountsDatabase S) (rows : S → Tables) (s : S) : Type 0 where
  pub keys :
      (i : Text) (k : ApiKey)
      → (rows s).keys i ≡ some k
      → (db.queries s).key_by_prefix k.prefix ≡ ok k
  pub bindings :
      (i : Text) (b : UserKeyBinding)
      → (rows s).bindings i ≡ some b
      → (first : UserKeyBinding) × ((db.queries s).first_binding_of_key b.user_api_key_id
          ≡ ok first)
  pub upstreams :
      (i : Text) (u : UpstreamKey)
      → (rows s).upstreams i ≡ some u
      → (db.queries s).upstream_by_id i ≡ ok u
  pub key_ids : (i : Text) (k : ApiKey) → (rows s).keys i ≡ some k → is_blank i ≡ false
  pub upstream_ids : (i : Text) (u : UpstreamKey) → (rows s).upstreams i ≡ some u → i ≢ []

-- A key in the tables that fits a text that was sent, and a binding of it.
pub record Bound (bc : Bcrypt) (t : Tables) (raw : Text) : Type 0 where
  pub prefix : Text
  pub secret : Text
  pub key : ApiKey
  pub id : Text
  pub binding : UserKeyBinding
  pub splits : split_api_key raw ≡ ok (prefix, secret)
  pub stored : t.keys key.id ≡ some key
  pub at_prefix : key.prefix ≡ prefix
  pub fits : bc.compare_hash_and_password key.secret_hash secret ≡ true
  pub bound : t.bindings id ≡ some binding
  pub of_key : binding.user_api_key_id ≡ key.id

-- The request goes on, with a credential of the tables that the handler takes it to be allowed.
pub record Admitted (t : Tables) (gate : Gate) : Type 0 where
  pub context : Context
  pub info : UpstreamInfo
  pub goes_on : gate ≡ next context
  pub has : context.upstream ≡ some info
  pub stored : t.upstreams info.credential.id ≡ some info.credential
  pub allowed : authorize context ≡ none

resolves_key :
    (bc : Bcrypt) (q : Queries) (raw prefix secret : Text) (key : ApiKey)
    → split_api_key raw ≡ ok (prefix, secret)
    → q.key_by_prefix prefix ≡ ok key
    → bc.compare_hash_and_password key.secret_hash secret ≡ true
    → resolve_api_key bc q raw ≡ ok key
unfolding resolve_api_key found
resolves_key bc q raw prefix secret key splits there fits = rw (splits, there, fits)

resolves_binding :
    (bc : Bcrypt) (q : Queries) (raw : Text) (key : ApiKey) (b : UserKeyBinding) (u : UpstreamKey)
    → resolve_api_key bc q raw ≡ ok key
    → is_blank key.id ≡ false
    → q.first_binding_of_key key.id ≡ ok b
    → q.upstream_by_id b.upstream_key_id ≡ ok u
    → resolve_binding_by_raw_key bc q raw ≡ ok (b, u)
unfolding resolve_binding_by_raw_key get_binding_by_api_key_id found
resolves_binding bc q raw key b u resolved full first named = rw (resolved, full, first, named)

sent_some : (raw : Text) (r : Text × Text) → split_api_key raw ≡ ok r → is_nil raw ≡ false
unfolding split_api_key trim_space trim_left trim_right
sent_some [] r e = cc
sent_some (c ∷ raw) r e = refl

module _ {S : Type 0} (bc : Bcrypt) (ec : EndpointCodec) (db : AccountsDatabase S)
    (rows : S → Tables) (reads : Reads db rows) (u : Unicode) (codec : Codec) where
  user_of :
      (s : S) (id : Text) (user : User)
      → value_of (get_user bc (db.queries s) id) ≡ some user
      → user.id ≡ id
  unfolding get_user
  user_of s id user e = elim (Result-cases (found ((db.queries s).user_by_id id))) [
    | inr (x, bad) ↦ cc (rw bad at e)
    | inl (v, good) ↦
        let same : v ≡ user = ground (arith, good) in same_id v same (found_ok _ v good)
  ]
    where
      same_id : (v : User) → v ≡ user → (db.queries s).user_by_id id ≡ ok v → user.id ≡ id
      same_id v same there = rw (← same) (reads.user_ids s id v (reads.user_by_id s id v there))

  admitted :
      (s : S) (h : Header)
      → Answers db rows s
      → IsLinked rows s
      → Bound bc (rows s) (extract_api_key u h)
      → Admitted (rows s) (api_key_auth u codec (accounts_authenticator bc (db.queries s)) h)
  unfolding api_key_auth
  admitted s h answers linked sent =
      let raw = extract_api_key u h in
      let q = db.queries s in
      let (b, first) = answers.bindings sent.id sent.binding sent.bound in
      let first_of : q.first_binding_of_key sent.key.id ≡ ok b = rw (← sent.of_key) first in
      let (row, _) = reads.first_binding_of_key s sent.key.id b first_of in
      let up = linked.has_upstream b.id b row in
      let named = answers.upstreams b.upstream_key_id up.upstream up.stored in
      let known =
        resolves_key bc q raw sent.prefix sent.secret sent.key sent.splits
          (rw (← sent.at_prefix) (answers.keys sent.key.id sent.key sent.stored)) sent.fits in
      let resolved =
        resolves_binding bc q raw sent.key b up.upstream known
          (answers.key_ids sent.key.id sent.key sent.stored) first_of named in
      let same_id = reads.upstream_ids s b.upstream_key_id up.upstream up.stored in
      let info : UpstreamInfo = record {
        credential = up.upstream;
        endpoints = decode_endpoints codec up.upstream.endpoints;
      } in
      let context : Context = record {
        user = value_of (get_user bc q b.user_id);
        api_key = value_of (resolve_api_key bc q raw);
        binding = some b;
        upstream = some info;
        raw_api_key = some raw;
      } in
      record {
        context = context;
        info = info;
        goes_on = rw (sent_some raw _ sent.splits, resolved);
        has = refl;
        stored = ap (rows s).upstreams same_id ∙ up.stored;
        allowed =
            unfold authorize in
            (authorize_binding_iff context b info).1 (record {
              named = rw same_id (answers.upstream_ids b.upstream_key_id up.upstream up.stored);
              linked = sym same_id;
              owned = up.owned;
              acted = λ user e. inr (user_of s b.user_id user e);
            });
      }

  -- On a database that finds what is there, in a state that calls of the accounts' service have
  -- reached from linked tables, a request that sends a stored key which has a binding is neither
  -- answered with 401 by `APIKeyAuth` nor with 403 by `Handle`: it goes on, with a stored credential.
  pub Reach-Admitted :
      (writes : Writes db rows) (s0 s : S) (h : Header)
      → IsLinked rows s0
      → Reach bc ec db s0 s
      → Answers db rows s
      → Bound bc (rows s) (extract_api_key u h)
      → Admitted (rows s) (api_key_auth u codec (accounts_authenticator bc (db.queries s)) h)
  Reach-Admitted writes s0 s h linked reached answers sent =
      admitted s h answers (Reach-IsLinked bc ec db rows reads writes reached linked) sent

  -- When `DeleteUser` has succeeded on linked tables, on a database that finds in the state after it
  -- what is there, the row of the user is gone. A request that sends a key of that user which has a
  -- binding is still neither answered with 401 nor with 403: it goes on, with a stored credential.
  pub delete_user-Admitted :
      (writes : Writes db rows) (id : Text) (s s' : S) (h : Header)
      → IsLinked rows s
      → Answers db rows s'
      → delete_user bc ec db id s ≡ (s', none)
      → (sent : Bound bc (rows s) (extract_api_key u h)) → sent.key.user_id ≡ id
      → ((rows s').users id ≡ none)
        × Admitted (rows s') (api_key_auth u codec (accounts_authenticator bc (db.queries s')) h)
  unfolding delete_user
  delete_user-Admitted writes id s s' h linked answers done sent owned =
      let gone = writes.delete_user id s s' (plain_ok _ s' (settled s s' _ done)) in
      let kept : Bound bc (rows s') (extract_api_key u h) = record {
        prefix = sent.prefix;
        secret = sent.secret;
        key = sent.key;
        id = sent.id;
        binding = sent.binding;
        splits = sent.splits;
        stored = rw gone sent.stored;
        at_prefix = sent.at_prefix;
        fits = sent.fits;
        bound = rw gone sent.bound;
        of_key = sent.of_key;
      } in
      (
        rw (gone, text_eq_refl id),
        admitted s' h answers
            (rw gone (Keeps-Linked (rows s) linked _ _ _ (same-Keeps _ _) (same-Keeps _ _))) kept,
      )

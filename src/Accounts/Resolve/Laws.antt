-- ===== src/Accounts/Resolve/Laws.antt =====
-- What a raw key that resolves is, and that a binding joins a key and a credential of one user;
-- pkg/accounts/service.go.
use yapi.Common.{
  ◌≡◌, refl, inl, inr, Bool, true, Result, ok, err, ◌>>=◌, if◌then◌else◌, arith, Result-cases,
  Bool-cases, subst,
}
use yapi.Common.Text.{Text, is_blank}
use yapi.Accounts.Model.{AccountsError, not_found, ApiKey, UpstreamKey, UserKeyBinding}
use yapi.Accounts.Keys.{Bcrypt, split_api_key}
use yapi.Accounts.Resolve.{
  QueryError, record_not_found, query_failed, Queries, found, resolve_api_key,
  get_binding_by_api_key_id, resolve_binding_by_raw_key,
}

pub bind_ok {ℓ κ μ} :
    {E : Type ℓ} {A : Type κ} {B : Type μ} (r : Result E A) (f : A → Result E B) (b : B)
    → (r >>= f) ≡ ok b
    → (a : A) × (r ≡ ok a) × (f a ≡ ok b)
bind_ok (ok a) f b e = (a, refl, e)
bind_ok (err x) f b e = cc

pub found_ok {ℓ} : {A : Type ℓ} (r : Result QueryError A) (a : A) → found r ≡ ok a → r ≡ ok a
unfolding found
found_ok (ok x) a e = ground arith
found_ok (err record_not_found) a e = cc
found_ok (err (query_failed x)) a e = cc

ok_injective : (k key : ApiKey) → ◌≡◌ {A = Result AccountsError ApiKey} (ok k) (ok key) → k ≡ key
ok_injective k key e = ground arith

module _ (bc : Bcrypt) (q : Queries) where
  -- The key that `raw` is: it stands under the prefix that `splitAPIKey` finds, and its hash fits
  -- the whole of `raw`.
  pub record IsKeyOf (raw : Text) (key : ApiKey) : Type 0 where
    pub prefix : Text
    pub secret : Text
    pub splits : split_api_key raw ≡ ok (prefix, secret)
    pub stored : q.key_by_prefix prefix ≡ ok key
    pub fits : bc.compare_hash_and_password key.secret_hash secret ≡ true

  checked_ok :
      (secret : Text) (k key : ApiKey)
      → (if bc.compare_hash_and_password k.secret_hash secret then ok k else err not_found) ≡ ok key
      → (k ≡ key) × (bc.compare_hash_and_password k.secret_hash secret ≡ true)
  checked_ok secret k key e =
      elim (Bool-cases (bc.compare_hash_and_password k.secret_hash secret)) [
        | inl fits ↦ (ok_injective k key (rw fits at e), fits)
        | inr unfit ↦ cc (rw unfit at e)
      ]

  pub resolve_api_key-IsKeyOf :
      (raw : Text) (key : ApiKey) → resolve_api_key bc q raw ≡ ok key → IsKeyOf raw key
  unfolding resolve_api_key
  resolve_api_key-IsKeyOf raw key e =
      let (parts, splits, rest) = bind_ok (split_api_key raw) _ key e in
      let (k, stored, check) = bind_ok (found (q.key_by_prefix parts.0)) _ key rest in
      let (same, fits) = checked_ok parts.1 k key check in
      subst (IsKeyOf raw) same (record {
        prefix = parts.0;
        secret = parts.1;
        splits = splits;
        stored = found_ok _ k stored;
        fits = fits;
      })

  pair_of :
      (x b : UserKeyBinding) (y up : UpstreamKey)
      → ◌≡◌ {A = Result AccountsError (UserKeyBinding × UpstreamKey)} (ok (x, y)) (ok (b, up))
      → (x ≡ b) × (y ≡ up)
  pair_of x b y up e = ground arith

  -- What is looked up is the key's first binding, with the credential that it names.
  pub get_binding_by_api_key_id-first :
      (id : Text) (b : UserKeyBinding) (up : UpstreamKey)
      → get_binding_by_api_key_id bc q id ≡ ok (b, up)
      → (q.first_binding_of_key id ≡ ok b) × (q.upstream_by_id b.upstream_key_id ≡ ok up)
  unfolding get_binding_by_api_key_id
  get_binding_by_api_key_id-first id b up e = elim (Bool-cases (is_blank id)) [
    | inl blank ↦ cc (rw blank at e)
    | inr full ↦
        let (x, first, rest) =
          bind_ok (found (q.first_binding_of_key id)) _ (b, up) (rw full at e) in
        let (y, named, last) =
          bind_ok (found (q.upstream_by_id x.upstream_key_id)) _ (b, up) rest in
        let (eb, eu) = pair_of x b y up last in
        (
          subst (λ z. q.first_binding_of_key id ≡ ok z) eb (found_ok _ x first),
          subst (λ z. q.upstream_by_id b.upstream_key_id ≡ ok z) eu
              (subst (λ z. q.upstream_by_id z.upstream_key_id ≡ ok y) eb (found_ok _ y named)),
        )
  ]

  -- A raw key that resolves to a binding is a stored key, by its prefix and its hash; the binding is
  -- that key's first one, and the credential is the one that it names.
  pub resolve_binding_by_raw_key-IsKeyOf :
      (raw : Text) (b : UserKeyBinding) (up : UpstreamKey)
      → resolve_binding_by_raw_key bc q raw ≡ ok (b, up)
      → (key : ApiKey) × IsKeyOf raw key
        × (q.first_binding_of_key key.id ≡ ok b)
        × (q.upstream_by_id b.upstream_key_id ≡ ok up)
  unfolding resolve_binding_by_raw_key
  resolve_binding_by_raw_key-IsKeyOf raw b up e =
      let (key, resolved, rest) = bind_ok (resolve_api_key bc q raw) _ (b, up) e in
      let (first, named) = get_binding_by_api_key_id-first key.id b up rest in
      (key, resolve_api_key-IsKeyOf raw key resolved, first, named)

-- A text that resolves to a key uses the first binding of that key.
pub resolve_binding_by_raw_key-first :
    (bc : Bcrypt) (q : Queries) (raw : Text) (key : ApiKey) (b : UserKeyBinding) (up : UpstreamKey)
    → resolve_api_key bc q raw ≡ ok key
    → resolve_binding_by_raw_key bc q raw ≡ ok (b, up)
    → q.first_binding_of_key key.id ≡ ok b
unfolding resolve_binding_by_raw_key
resolve_binding_by_raw_key-first bc q raw key b up known e =
    (get_binding_by_api_key_id-first bc q key.id b up (rw known at e)).0

-- The tables with the flag `enabled` of every key as given.
abbrev pub flagged {ℓ} : {E : Type ℓ} → Bool → Result E ApiKey → Result E ApiKey
flagged flag (ok key) = ok (record key { enabled = flag })
flagged flag (err e) = err e

abbrev pub with_flag : Bool → Queries → Queries
with_flag flag q = record q { key_by_prefix = λ p. flagged flag (q.key_by_prefix p) }

resolve_flagged :
    (bc : Bcrypt) (q : Queries) (flag : Bool) (raw : Text)
    → resolve_api_key bc (with_flag flag q) raw ≡ flagged flag (resolve_api_key bc q raw)
unfolding resolve_api_key found
resolve_flagged bc q flag raw = elim (Result-cases (split_api_key raw)) [
  | inr (e, bad) ↦ rw bad refl
  | inl (parts, good) ↦ rw good (go parts (q.key_by_prefix parts.0))
]
  where
    go :
        (parts : Text × Text) (r : Result QueryError ApiKey)
        → ((found (flagged flag r)) >>= λ key.
            (if bc.compare_hash_and_password key.secret_hash parts.1
              then ok key
              else err not_found))
          ≡ flagged flag (
              found r >>= λ key.
              (if bc.compare_hash_and_password key.secret_hash parts.1
                then ok key
                else err not_found))
    go parts (ok key) = elim (Bool-cases (bc.compare_hash_and_password key.secret_hash parts.1)) [
      | inl fits ↦ rw fits refl
      | inr unfit ↦ rw unfit refl
    ]
    go parts (err record_not_found) = refl
    go parts (err (query_failed x)) = refl

-- The flag `enabled` of the keys has no part in what a key resolves to: with every key switched on or
-- off, a raw key resolves to the same binding and credential, and to the same key but for the flag.
pub resolve_api_key-flag :
    (bc : Bcrypt) (q : Queries) (flag : Bool) (raw : Text)
    → (resolve_api_key bc (with_flag flag q) raw ≡ flagged flag (resolve_api_key bc q raw))
      × (resolve_binding_by_raw_key bc (with_flag flag q) raw ≡ resolve_binding_by_raw_key bc q raw)
unfolding resolve_binding_by_raw_key get_binding_by_api_key_id
resolve_api_key-flag bc q flag raw = (
  resolve_flagged bc q flag raw,
  rw (resolve_flagged bc q flag raw) (go (resolve_api_key bc q raw)),
)
  where
    go :
        (r : Result AccountsError ApiKey)
        → (flagged flag r >>= λ key. get_binding_by_api_key_id bc (with_flag flag q) key.id)
          ≡ (r >>= λ key. get_binding_by_api_key_id bc q key.id)
    go (ok key) = refl
    go (err e) = refl

-- ===== src/Accounts/Create/Usable.antt =====
-- A key that was created can be used; pkg/accounts/service.go.
use yapi.Common.{
  ℕ, ◌<◌, ◌≡◌, inl, inr, true, false, some, List, All, Result, ok, err, length, arith, Bool-cases,
  Result-cases, Option-cases, ap, ap₂, sym, ◌∙◌, if◌then◌else◌,
}
use yapi.Common.Text.{Text, is_blank}
use yapi.Accounts.Model.{AccountsError, ApiKey, validate_api_key, invalid_input, user_id_empty}
use yapi.Accounts.Keys.{Bcrypt, generate_api_key, split_api_key, hash_secret}
use yapi.Accounts.Keys.Split.{generate_api_key-split}
use yapi.Accounts.Resolve.{Queries, found, get_user, resolve_api_key}
use yapi.Accounts.Resolve.Laws.{bind_ok}
use yapi.Accounts.Create.{
  CreateApiKeyParams, KeyDatabase, checked_key, new_key, inserted, stored, create_user_api_key,
}

-- What is relied on of bcrypt: a secret fits the hash that was made of it.
pub record Fits (bc : Bcrypt) : Type 0 where
  pub fits :
      (secret hash : Text)
      → bc.generate_from_password secret ≡ some hash
      → bc.compare_hash_and_password hash secret ≡ true

-- What is relied on of the table of keys, whose prefixes are unique: a key that was created is the
-- one with its prefix.
pub record KeepsKeys {S : Type 0} (db : KeyDatabase S) : Type 0 where
  pub kept :
      (k : ApiKey) (s s' : S) (now : ℕ)
      → db.create_key k s ≡ ok (s', now)
      → (db.queries s').key_by_prefix k.prefix
        ≡ ok (record k { created_at = now; updated_at = now })

hash_ok :
    (bc : Bcrypt) (secret hash : Text)
    → hash_secret bc secret ≡ ok hash
    → bc.generate_from_password secret ≡ some hash
unfolding hash_secret
hash_ok bc secret hash e = ground arith

checked_ok : (k key : ApiKey) → checked_key k ≡ ok key → k ≡ key
checked_ok k key e = elim (Option-cases (validate_api_key k)) [
  | inl fine ↦ ground (arith, fine)
  | inr (x, bad) ↦ ground (arith, bad)
]

pair_of :
    (x k : ApiKey) (y plain : Text)
    → ◌≡◌ {A = Result AccountsError (ApiKey × Text)} (ok (x, y)) (ok (k, plain))
    → (x ≡ k) × (y ≡ plain)
pair_of x k y plain e = ground arith

-- A raw key resolves to the key under its prefix, if its hash fits.
resolves :
    (bc : Bcrypt) (q : Queries) (plain prefix : Text) (key : ApiKey)
    → split_api_key plain ≡ ok (prefix, plain)
    → q.key_by_prefix prefix ≡ ok key
    → bc.compare_hash_and_password key.secret_hash plain ≡ true
    → resolve_api_key bc q plain ≡ ok key
unfolding resolve_api_key found
resolves bc q plain prefix key splits there fits = rw (splits, there, fits)

module _ {S : Type 0} (bc : Bcrypt) (db : KeyDatabase S) (uuid : Text) (buff : List ℕ) where
  made_of :
      (params : CreateApiKeyParams) (s : S) (k : ApiKey) (plain : Text)
      → new_key bc db uuid (some buff) params s ≡ ok (k, plain)
      → (generate_api_key (some buff) ≡ ok (plain, k.prefix))
        × (bc.generate_from_password plain ≡ some k.secret_hash)
  unfolding new_key
  made_of params s k plain e =
      let (user, e1, r1) = bind_ok (get_user bc (db.queries s) params.user_id) _ (k, plain) e in
      let (made, e2, r2) = bind_ok (generate_api_key (some buff)) _ (k, plain) r1 in
      let (hash, e3, r3) = bind_ok (hash_secret bc made.0) _ (k, plain) r2 in
      let (key, e4, r4) = bind_ok (checked_key _) _ (k, plain) r3 in
      let (ek, ep) = pair_of key k made.0 plain r4 in
      let same = checked_ok _ key e4 ∙ ek in
      (
        e2 ∙ ap ok (ap₂ (λ x y. (x, y)) ep (ap (λ (z : ApiKey). z.prefix) same)),
        ap bc.generate_from_password (sym ep)
            ∙ hash_ok bc made.0 hash e3
            ∙ ap some (ap (λ (z : ApiKey). z.secret_hash) same),
      )

  inserted_of :
      (s s2 s' : S) (now : ℕ) (k key : ApiKey) (text plain : Text)
      → inserted bc db uuid (some buff) text k s (ok (s2, now)) ≡ (s', ok (key, plain))
      → (s2 ≡ s') × (key ≡ record k { created_at = now; updated_at = now }) × (text ≡ plain)
  inserted_of s s2 s' now k key text plain e = ground arith

  stored_of :
      (params : CreateApiKeyParams) (s : S) (k : ApiKey) (text : Text)
      (out : S × Result AccountsError (ApiKey × Text)) (put : S × ℕ)
      → is_blank params.user_id ≡ false
      → new_key bc db uuid (some buff) params s ≡ ok (k, text)
      → db.create_key k s ≡ ok put
      → create_user_api_key bc db uuid (some buff) params s ≡ out
      → inserted bc db uuid (some buff) text k s (ok put) ≡ out
  unfolding create_user_api_key
  stored_of params s k text out put full made wrote e =
      sym (
        ap
          (λ b.
            if b
            then (s, err (invalid_input user_id_empty))
            else stored bc db uuid (some buff) s (new_key bc db uuid (some buff) params s))
          full
        ∙ ap (stored bc db uuid (some buff) s) made
        ∙ ap (inserted bc db uuid (some buff) text k s) wrote)
      ∙ e

  created_of :
      (params : CreateApiKeyParams) (s s' : S) (key : ApiKey) (plain : Text)
      → create_user_api_key bc db uuid (some buff) params s ≡ (s', ok (key, plain))
      → (k : ApiKey) × (now : ℕ) × (new_key bc db uuid (some buff) params s ≡ ok (k, plain))
        × (db.create_key k s ≡ ok (s', now))
        × (key ≡ record k { created_at = now; updated_at = now })
  unfolding create_user_api_key
  created_of params s s' key plain e = elim (Bool-cases (is_blank params.user_id)) [
    | inl blank ↦ ground (arith, blank)
    | inr full ↦ elim (Result-cases (new_key bc db uuid (some buff) params s)) [
      | inr (x, bad) ↦ ground (arith, bad, full)
      | inl ((k, text), made) ↦ elim (Result-cases (db.create_key k s)) [
        | inr (x, bad) ↦ ground (arith, bad, full, made)
        | inl ((s2, now), put) ↦
            let (es, ek, ep) =
              inserted_of s s2 s' now k key text plain
                (stored_of params s k text (s', ok (key, plain)) (s2, now) full made put e) in
            (k, now, rw (← ep) made, rw (← es) put, ek)
      ]
    ]
  ]

  -- The text that it returns is what `generateAPIKey` made.
  pub create_user_api_key-generated :
      (params : CreateApiKeyParams) (s s' : S) (key : ApiKey) (plain : Text)
      → create_user_api_key bc db uuid (some buff) params s ≡ (s', ok (key, plain))
      → (prefix : Text) × (generate_api_key (some buff) ≡ ok (plain, prefix))
  create_user_api_key-generated params s s' key plain e =
      let (k, now, made, put, same) = created_of params s s' key plain e in
      (k.prefix, (made_of params s k plain made).0)

  -- A key that `CreateUserAPIKey` made from 24 random bytes can be used at once: the text that it
  -- returned resolves to the key that it returned.
  pub create_user_api_key-resolve_api_key :
      (h : Fits bc) (keeps : KeepsKeys db) (params : CreateApiKeyParams) (s s' : S) (key : ApiKey)
      (plain : Text)
      → length buff ≡ 24
      → All (λ b. b < 256) buff
      → create_user_api_key bc db uuid (some buff) params s ≡ (s', ok (key, plain))
      → resolve_api_key bc (db.queries s') plain ≡ ok key
  create_user_api_key-resolve_api_key h keeps params s s' key plain size bytes e =
      let (k, now, made, put, same) = created_of params s s' key plain e in
      let (generated, hashed) = made_of params s k plain made in
      let (splits, _, _) = generate_api_key-split buff plain k.prefix size bytes generated in
      resolves bc (db.queries s') plain k.prefix (record k { created_at = now; updated_at = now })
        splits (keeps.kept k s s' now put) (h.fits plain k.secret_hash hashed)
      ∙ ap ok (sym same)

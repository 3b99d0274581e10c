-- ===== src/Accounts/Service/Tables/Linked.antt =====
-- The invariant of the tables: every binding joins a key and a credential that exist, both of the
-- binding's user. How the statements of pkg/accounts/service.go keep it.
use yapi.Common.{
  ◌≡◌, refl, inl, inr, Bool, false, Option, none, some, Bool-cases, Option-cases, arith, ◌∙◌,
}
use yapi.Common.Text.{Text, text_eq, text_eq_iff}
use yapi.Accounts.Model.{User, ApiKey, UpstreamKey, UserKeyBinding}
use yapi.Accounts.Service.Tables.{Tables, put, adjust, without}

pub record HasKey (t : Tables) (b : UserKeyBinding) : Type 0 where
  pub key : ApiKey
  pub stored : t.keys b.user_api_key_id ≡ some key
  pub owned : key.user_id ≡ b.user_id

pub record HasUpstream (t : Tables) (b : UserKeyBinding) : Type 0 where
  pub upstream : UpstreamKey
  pub stored : t.upstreams b.upstream_key_id ≡ some upstream
  pub owned : upstream.user_id ≡ b.user_id

pub record Linked (t : Tables) : Type 0 where
  pub has_key : (i : Text) (b : UserKeyBinding) → t.bindings i ≡ some b → HasKey t b
  pub has_upstream : (i : Text) (b : UserKeyBinding) → t.bindings i ≡ some b → HasUpstream t b

module _ {ℓ} {A : Type ℓ} where
  -- Every row stays, with its owner.
  abbrev pub Keeps : (A → Text) → (Text → Option A) → (Text → Option A) → Type ℓ
  Keeps owner t t' =
      (j : Text) (a : A) → t j ≡ some a → (a' : A) × (t' j ≡ some a') × (owner a' ≡ owner a)

  pub put_fresh-Keeps :
      (owner : A → Text) (t : Text → Option A) (id : Text) (x : A)
      → t id ≡ none
      → Keeps owner t (put id (some x) t)
  put_fresh-Keeps owner t id x fresh j a e = elim (Bool-cases (text_eq id j)) [
    | inl same ↦ absurd (clash ((text_eq_iff id j).0 same))
    | inr other ↦ (a, rw other e, refl)
  ]
    where
      clash : id ≡ j → ⊥
      clash same = cc (same, fresh, e)

  pub put_same-Keeps :
      (owner : A → Text) (t : Text → Option A) (id : Text) (x old : A)
      → t id ≡ some old
      → owner old ≡ owner x
      → Keeps owner t (put id (some x) t)
  put_same-Keeps owner t id x old there owned j a e = elim (Bool-cases (text_eq id j)) [
    | inl same ↦ (x, rw same, owned_by ((text_eq_iff id j).0 same))
    | inr other ↦ (a, rw other e, refl)
  ]
    where
      owned_by : id ≡ j → owner x ≡ owner a
      owned_by same = cc (same, there, e, owned)

  pub adjust-Keeps :
      (owner : A → Text) (t : Text → Option A) (id : Text) (f : A → A)
      → ((a : A) → owner (f a) ≡ owner a)
      → Keeps owner t (adjust id f t)
  adjust-Keeps owner t id f same j a e = elim (Bool-cases (text_eq id j)) [
    | inl hit ↦ (f a, rw (hit, e), same a)
    | inr other ↦ (a, rw (other, e), refl)
  ]

  pub same-Keeps : (owner : A → Text) (t : Text → Option A) → Keeps owner t t
  same-Keeps owner t j a e = (a, e, refl)

  -- What is left was there, and fails the test.
  pub without-some :
      (p : A → Bool) (t : Text → Option A) (j : Text) (a : A)
      → without p t j ≡ some a
      → (t j ≡ some a) × (p a ≡ false)
  without-some p t j a e = elim (Option-cases (t j)) [
    | inl missing ↦ ground (arith, missing)
    | inr (x, there) ↦ kept x there
  ]
    where
      kept : (x : A) → t j ≡ some x → (t j ≡ some a) × (p a ≡ false)
      kept x there = elim (Bool-cases (p x)) [
        | inl gone ↦ ground (arith, there, gone)
        | inr stays ↦ (ground (arith, there, stays), ground (arith, there, stays))
      ]

module _ (t : Tables) (linked : Linked t) where
  pub Keeps-Linked :
      (users : Text → Option User) (keys : Text → Option ApiKey)
      (upstreams : Text → Option UpstreamKey)
      → Keeps (λ k. k.user_id) t.keys keys
      → Keeps (λ u. u.user_id) t.upstreams upstreams
      → Linked (record t { users = users; keys = keys; upstreams = upstreams })
  Keeps-Linked users keys upstreams hk hu = record {
    has_key = λ i b e.
        let h = linked.has_key i b e in
        let (k, stored, owned) = hk b.user_api_key_id h.key h.stored in
        record { key = k; stored = stored; owned = owned ∙ h.owned };
    has_upstream = λ i b e.
        let h = linked.has_upstream i b e in
        let (u, stored, owned) = hu b.upstream_key_id h.upstream h.stored in
        record { upstream = u; stored = stored; owned = owned ∙ h.owned };
  }

  pub fewer-Linked :
      (bindings : Text → Option UserKeyBinding)
      → ((i : Text) (b : UserKeyBinding) → bindings i ≡ some b → t.bindings i ≡ some b)
      → Linked (record t { bindings = bindings })
  fewer-Linked bindings sub = record {
    has_key = λ i b e.
        let h = linked.has_key i b (sub i b e) in
        record { key = h.key; stored = h.stored; owned = h.owned };
    has_upstream = λ i b e.
        let h = linked.has_upstream i b (sub i b e) in
        record { upstream = h.upstream; stored = h.stored; owned = h.owned };
  }

  -- A key that no binding names can go, and so can a credential.
  pub drop_key-Linked :
      (id : Text)
      → ((i : Text) (b : UserKeyBinding)
          → t.bindings i ≡ some b
          → text_eq b.user_api_key_id id ≡ false)
      → Linked (record t { keys = put id none t.keys })
  drop_key-Linked id unused = record {
    has_key = λ i b e.
        let h = linked.has_key i b e in
        let far : text_eq id b.user_api_key_id ≡ false = ground (
          arith,
          unused i b e,
          text_eq_iff b.user_api_key_id id,
          text_eq_iff id b.user_api_key_id,
        ) in
        record { key = h.key; stored = rw far h.stored; owned = h.owned };
    has_upstream = λ i b e.
        let h = linked.has_upstream i b e in
        record { upstream = h.upstream; stored = h.stored; owned = h.owned };
  }

  pub drop_upstream-Linked :
      (id : Text)
      → ((i : Text) (b : UserKeyBinding)
          → t.bindings i ≡ some b
          → text_eq b.upstream_key_id id ≡ false)
      → Linked (record t { upstreams = put id none t.upstreams })
  drop_upstream-Linked id unused = record {
    has_key = λ i b e.
        let h = linked.has_key i b e in record { key = h.key; stored = h.stored; owned = h.owned };
    has_upstream = λ i b e.
        let h = linked.has_upstream i b e in
        let far : text_eq id b.upstream_key_id ≡ false = ground (
          arith,
          unused i b e,
          text_eq_iff b.upstream_key_id id,
          text_eq_iff id b.upstream_key_id,
        ) in
        record { upstream = h.upstream; stored = rw far h.stored; owned = h.owned };
  }

  -- A binding of a key and a credential of its user can be written.
  pub put_binding-Linked :
      (id : Text) (b : UserKeyBinding) (k : ApiKey) (u : UpstreamKey)
      → t.keys b.user_api_key_id ≡ some k
      → k.user_id ≡ b.user_id
      → t.upstreams b.upstream_key_id ≡ some u
      → u.user_id ≡ b.user_id
      → Linked (record t { bindings = put id (some b) t.bindings })
  put_binding-Linked id b k u key_there key_owned upstream_there upstream_owned = record {
    has_key = λ i x e. elim (Bool-cases (text_eq id i)) [
      | inl hit ↦
          let same : b ≡ x = ground (arith, hit) in
          record { key = k; stored = rw (← same) key_there; owned = rw (← same) key_owned }
      | inr miss ↦
          let h = linked.has_key i x (rw miss at e) in
          record { key = h.key; stored = h.stored; owned = h.owned }
    ];
    has_upstream = λ i x e. elim (Bool-cases (text_eq id i)) [
      | inl hit ↦
          let same : b ≡ x = ground (arith, hit) in
          record {
            upstream = u;
            stored = rw (← same) upstream_there;
            owned = rw (← same) upstream_owned;
          }
      | inr miss ↦
          let h = linked.has_upstream i x (rw miss at e) in
          record { upstream = h.upstream; stored = h.stored; owned = h.owned }
    ];
  }

  -- A binding can be moved to another credential of its user.
  pub adjust_binding-Linked :
      (old : UserKeyBinding) (f : UserKeyBinding → UserKeyBinding) (u : UpstreamKey)
      → t.bindings old.id ≡ some old
      → ((f old).user_api_key_id ≡ old.user_api_key_id) × ((f old).user_id ≡ old.user_id)
      → t.upstreams (f old).upstream_key_id ≡ some u
      → u.user_id ≡ old.user_id
      → Linked (record t { bindings = adjust old.id f t.bindings })
  adjust_binding-Linked old f u there (same_key, same_user) upstream_there owned = record {
    has_key = λ i x e. elim (Bool-cases (text_eq old.id i)) [
      | inl hit ↦
          let h = linked.has_key old.id old there in
          let at_id = (text_eq_iff old.id i).0 hit in
          let here : t.bindings i ≡ some old = rw (← at_id) there in
          let same : f old ≡ x = ground (arith, hit, here) in
          record {
            key = h.key;
            stored = rw (← same, same_key) h.stored;
            owned = rw (← same, same_user) h.owned;
          }
      | inr miss ↦
          let h = linked.has_key i x (rw miss at e) in
          record { key = h.key; stored = h.stored; owned = h.owned }
    ];
    has_upstream = λ i x e. elim (Bool-cases (text_eq old.id i)) [
      | inl hit ↦
          let at_id = (text_eq_iff old.id i).0 hit in
          let here : t.bindings i ≡ some old = rw (← at_id) there in
          let same : f old ≡ x = ground (arith, hit, here) in
          record {
            upstream = u;
            stored = rw (← same) upstream_there;
            owned = rw (← same, same_user) owned;
          }
      | inr miss ↦
          let h = linked.has_upstream i x (rw miss at e) in
          record { upstream = h.upstream; stored = h.stored; owned = h.owned }
    ];
  }

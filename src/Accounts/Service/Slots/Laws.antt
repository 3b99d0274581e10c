-- ===== src/Accounts/Service/Slots/Laws.antt =====
-- The database with one row in each table reads and writes as pkg/accounts/service.go relies on.
use yapi.Common.{
  ℕ, ◌≡◌, refl, inl, inr, Bool, true, Option, none, some, Result, ok, err, Bool-cases, arith, ap,
}
use mathlib.Core.Path.{fun_ext}
use yapi.Common.Text.{Text, text_eq, text_eq_iff, text_eq_refl}
use yapi.Accounts.Model.{ApiKey, UpstreamKey, UserKeyBinding}
use yapi.Accounts.Resolve.{record_not_found}
use yapi.Accounts.Service.Tables.{Tables, Reads, Writes, put, adjust, unless, without}
use yapi.Accounts.Service.Slots.{
  Slots, only, view, asked, fill, refill, change, full, full_user, slot_rows, slot_db,
}

module _ {ℓ} {A : Type ℓ} where
  pub asked_ok : (r : Option A) (a : A) → asked r ≡ ok a → r ≡ some a
  asked_ok none a e = cc
  asked_ok (some x) a e = ground arith

  asked-none : (r : Option A) → asked r ≡ err record_not_found → r ≡ none
  asked-none none e = refl
  asked-none (some x) e = cc

  pub only-some :
      (p : A → Bool) (r : Option A) (a : A) → only p r ≡ some a → (r ≡ some a) × (p a ≡ true)
  only-some p none a e = cc
  only-some p (some x) a e = elim (Bool-cases (p x)) [
    | inl t ↦ (ground (arith, t), ground (arith, t))
    | inr f ↦ cc (rw f at e)
  ]

  view_self : (id : A → Text) (a : A) → view id (some a) (id a) ≡ some a
  view_self id a = rw (text_eq_refl (id a))

  view-fill :
      (id : A → Text) (a : A) (r r' : Option A)
      → fill a r ≡ some r'
      → view id r' ≡ put (id a) (some a) (view id r)
  view-fill id a none r' e = fun_ext (λ i. ground arith)
  view-fill id a (some b) r' e = cc

  view-refill :
      (id : A → Text) (a : A) (r r' : Option A)
      → refill id a r ≡ some r'
      → view id r' ≡ put (id a) (some a) (view id r)
  view-refill id a none r' e = fun_ext (λ i. ground arith)
  view-refill id a (some b) r' e =
      fun_ext
        (λ i. ground (arith, text_eq_iff (id b) (id a), text_eq_iff (id b) i, text_eq_iff (id a) i))

  view-change :
      (id : A → Text) (i : Text) (f : A → A) (r : Option A)
      → ((a : A) → id (f a) ≡ id a)
      → view id (change id i f r) ≡ adjust i f (view id r)
  view-change id i f none same = fun_ext (λ j. ground arith)
  view-change id i f (some a) same =
      fun_ext
        (λ j. ground (arith, same a, text_eq_iff (id a) i, text_eq_iff (id a) j, text_eq_iff i j))

  view-unless :
      (id : A → Text) (i : Text) (r : Option A)
      → view id (unless (λ a. text_eq (id a) i) r) ≡ put i none (view id r)
  view-unless id i none = fun_ext (λ j. ground arith)
  view-unless id i (some a) =
      fun_ext (λ j. ground (arith, text_eq_iff (id a) i, text_eq_iff (id a) j, text_eq_iff i j))

  view-without :
      (id : A → Text) (p : A → Bool) (r : Option A) → view id (unless p r) ≡ without p (view id r)
  view-without id p none = fun_ext (λ j. refl)
  view-without id p (some a) = fun_ext (λ j. ground arith)

  -- What a statement that writes one place gives.
  full_of :
      (r : Option (Option A)) (f : Option A → Slots) (s' : Slots) (now : ℕ)
      → full r f ≡ ok (s', now)
      → (x : Option A) × (r ≡ some x) × (f x ≡ s') × (7 ≡ now)
  full_of none f s' now e = cc
  full_of (some x) f s' now e = (x, refl, ground arith, ground arith)

  full_user_of :
      (r : Option (Option A)) (f : Option A → Slots) (s' : Slots) (now : ℕ)
      → full_user r f ≡ ok (s', now)
      → (x : Option A) × (r ≡ some x) × (f x ≡ s') × (7 ≡ now)
  full_user_of none f s' now e = cc
  full_user_of (some x) f s' now e = (x, refl, ground arith, ground arith)

  view-none :
      (id : A → Text) (r : Option A) (a : A) (x : Option A)
      → fill a r ≡ some x
      → (i : Text) → view id r i ≡ none
  view-none id none a x e i = refl
  view-none id (some b) a x e i = cc

  pub view-row :
      (id : A → Text) (r : Option A) (i : Text) (a : A)
      → view id r i ≡ some a
      → (r ≡ some a) × (id a ≡ i)
  view-row id r i a e =
      let (there, hit) = only-some _ r a e in (there, (text_eq_iff (id a) i).0 hit)

  pub view-at : (id : A → Text) (r : Option A) (a : A) → r ≡ some a → view id r (id a) ≡ some a
  view-at id r a e = rw (e, text_eq_refl (id a))

pub slot-Reads : Reads slot_db slot_rows
slot-Reads = record {
  upstream_ids = λ s i u e. (view-row _ s.upstream i u e).1;
  user_ids = λ s i u e. (view-row _ s.user i u e).1;
  user_by_id = λ s i u e. asked_ok _ u e;
  key_by_id = λ s i k e. asked_ok _ k e;
  upstream_by_id = λ s i u e. asked_ok _ u e;
  key_by_prefix = λ s p k e.
      let (there, hit) = only-some _ s.key k (asked_ok _ k e) in
      (view-at _ s.key k there, (text_eq_iff k.prefix p).0 hit);
  first_binding_of_key = λ s i b e.
      let (there, hit) = only-some _ s.binding b (asked_ok _ b e) in
      (view-at _ s.binding b there, (text_eq_iff b.user_api_key_id i).0 hit);
  binding_of_key_and_service = λ s i service b e.
      let (there, hit) = only-some _ s.binding b (asked_ok _ b e) in
      (
        view-at _ s.binding b there,
        ground (arith, text_eq_iff b.user_api_key_id i, text_eq_iff b.service service),
        ground (arith, text_eq_iff b.user_api_key_id i, text_eq_iff b.service service),
      );
}

-- The rows when one place is written.
module _ (s : Slots) where
  with_keys : (Text → Option ApiKey) → Tables
  with_keys t = record (slot_rows s) { keys = t }

  with_upstreams : (Text → Option UpstreamKey) → Tables
  with_upstreams t = record (slot_rows s) { upstreams = t }

  with_bindings : (Text → Option UserKeyBinding) → Tables
  with_bindings t = record (slot_rows s) { bindings = t }

ok_same {ℓ} : {A : Type ℓ} (x y : A) → ◌≡◌ {A = Result Text A} (ok x) (ok y) → x ≡ y
ok_same x y e = ground arith

pair_same :
    (x y : Slots) (m n : ℕ) → ◌≡◌ {A = Result Text (Slots × ℕ)} (ok (x, m)) (ok (y, n)) → x ≡ y
pair_same x y m n e = ground arith

pub slot-Writes : Writes slot_db slot_rows
unfolding with_keys with_upstreams with_bindings
slot-Writes = record {
  create_user = λ u s s' now e.
      let (x, put_there, at, seven) =
        full_user_of (fill _ s.user) (λ x. record s { user = x }) s' now e in
      rw (← at, ← seven)
        (ap (λ t. record (slot_rows s) { users = t }) (view-fill (λ u. u.id) _ s.user x put_there));
  create_key = λ k s s' now e.
      let (x, put_there, at, seven) = full_of (fill _ s.key) (λ x. record s { key = x }) s' now e in
      (
        view-none (λ k. k.id) s.key _ x put_there k.id,
        rw (← at, ← seven) (ap (with_keys s) (view-fill (λ k. k.id) _ s.key x put_there)),
      );
  create_upstream = λ u s s' now e.
      let (x, put_there, at, seven) =
        full_of (fill _ s.upstream) (λ x. record s { upstream = x }) s' now e in
      (
        view-none (λ u. u.id) s.upstream _ x put_there u.id,
        rw (← at, ← seven) (ap (with_upstreams s) (view-fill (λ u. u.id) _ s.upstream x put_there)),
      );
  create_binding = λ b s s' now e.
      let (x, put_there, at, seven) =
        full_of (fill _ s.binding) (λ x. record s { binding = x }) s' now e in
      (
        view-none (λ b. b.id) s.binding _ x put_there b.id,
        rw (← at, ← seven) (ap (with_bindings s) (view-fill (λ b. b.id) _ s.binding x put_there)),
      );
  save_upstream = λ u s s' now e.
      let (x, put_there, at, seven) =
        full_of (refill (λ u. u.id) _ s.upstream) (λ x. record s { upstream = x }) s' now e in
      rw (← at, ← seven) (ap (with_upstreams s) (view-refill (λ u. u.id) _ s.upstream x put_there));
  update_binding = λ b s s' e. (
    7,
    rw (← (ok_same _ s' e))
        (ap (with_bindings s) (view-change (λ b. b.id) b.id _ s.binding (λ a. refl))),
  );
  set_key_enabled = λ i flag s s' n e. (
    7,
    rw (← (pair_same _ s' 1 n e))
        (ap (with_keys s) (view-change (λ k. k.id) i _ s.key (λ a. refl))),
  );
  set_upstream_enabled = λ i flag s s' n e. (
    7,
    rw (← (pair_same _ s' 1 n e))
        (ap (with_upstreams s) (view-change (λ k. k.id) i _ s.upstream (λ a. refl))),
  );
  delete_user = λ i s s' e.
      rw (← (ok_same _ s' e))
        (ap (λ t. record (slot_rows s) { users = t }) (view-unless (λ u. u.id) i s.user));
  delete_key =
      λ i s s' e. rw (← (ok_same _ s' e)) (ap (with_keys s) (view-unless (λ u. u.id) i s.key));
  delete_upstream = λ i s s' e.
      rw (← (ok_same _ s' e)) (ap (with_upstreams s) (view-unless (λ u. u.id) i s.upstream));
  delete_binding = λ i s s' n e.
      rw (← (pair_same _ s' 1 n e)) (ap (with_bindings s) (view-unless (λ u. u.id) i s.binding));
  delete_bindings_of_key = λ i s s' e. rw (← (ok_same _ s' e)) (
      ap (with_bindings s) (view-without (λ b. b.id) (λ b. text_eq b.user_api_key_id i) s.binding));
  delete_bindings_of_upstream = λ i s s' e. rw (← (ok_same _ s' e)) (
      ap (with_bindings s) (view-without (λ b. b.id) (λ b. text_eq b.upstream_key_id i) s.binding));
}

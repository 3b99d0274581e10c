-- ===== src/Accounts/Service/Tables/Settle.antt =====
-- What an operation of pkg/accounts/service.go that succeeds or fails leaves of a property of the
-- state.
use yapi.Common.{
  ℕ, ◌≡◌, refl, inl, inr, Option, none, some, Result, ok, err, Bool-cases, Option-cases, arith,
  ◌==◌,
}
use yapi.Common.Text.{Text, text_eq}
use yapi.Accounts.Model.{
  AccountsError, UserKeyBinding, validate_binding, UpstreamKey, validate_upstream_key,
}
use yapi.Accounts.Resolve.{valid, passed}
use yapi.Accounts.Service.{checked_upstream, plain_error, settle, settle_with, affected_rows}
use yapi.Accounts.Service.Tables.{Tables, put}
use yapi.Accounts.Service.Tables.Linked.{Linked}

module _ {S : Type 0} (P : S → Type 0) where
  pub settle_keeps :
      (s : S) (r : Result AccountsError S) → P s → ((s' : S) → r ≡ ok s' → P s') → P (settle s r).0
  settle_keeps s (ok s') p h = h s' refl
  settle_keeps s (err e) p h = p

  pub settle_with_keeps :
      {A : Type 0} (s : S) (r : Result AccountsError (S × A))
      → P s
      → ((s' : S) (a : A) → r ≡ ok (s', a) → P s')
      → P (settle_with s r).0
  settle_with_keeps s (ok (s', a)) p h = h s' a refl
  settle_with_keeps s (err e) p h = p

  pub affected_rows_keeps :
      (s : S) (r : Result Text (S × ℕ))
      → P s
      → ((s' : S) (n : ℕ) → r ≡ ok (s', n) → P s')
      → P (affected_rows s r).0
  affected_rows_keeps s (err e) p h = p
  affected_rows_keeps s (ok (s', n)) p h = elim (Bool-cases (n == 0)) [
    | inl absent ↦ rw absent (h s' n refl)
    | inr there ↦ rw there (h s' n refl)
  ]

pub plain_ok {ℓ} : {A : Type ℓ} (r : Result Text A) (a : A) → plain_error r ≡ ok a → r ≡ ok a
plain_ok (ok x) a e = ground arith
plain_ok (err x) a e = cc

pub put-none-some {ℓ} :
    {A : Type ℓ} (id : Text) (t : Text → Option A) (i : Text) (a : A)
    → put id none t i ≡ some a
    → t i ≡ some a
put-none-some id t i a e = ground (arith, Bool-cases (text_eq id i))

pub valid_same : (x y : UserKeyBinding) → valid x ≡ ok y → x ≡ y
valid_same x y e = elim (Option-cases (validate_binding x)) [
  | inl fine ↦ ground (arith, fine)
  | inr (bad, refused) ↦ ground (arith, refused)
]

pub checked_same : (x key : UpstreamKey) → checked_upstream x ≡ ok key → x ≡ key
checked_same x key e = elim (Option-cases (validate_upstream_key x)) [
  | inl fine ↦ ground (arith, fine)
  | inr (bad, refused) ↦ ground (arith, refused)
]

pub passed_ok {ℓ} : {A : Type ℓ} (r : Result Text A) (a : A) → passed r ≡ ok a → r ≡ ok a
passed_ok (ok x) a e = ground arith
passed_ok (err x) a e = cc

pub some_same {ℓ} : {A : Type ℓ} (x y : A) → some x ≡ some y → x ≡ y
some_same x y e = ground arith

pub left_of {ℓ κ} :
    {A : Type ℓ} (B : Type κ) (x y : A) (v w : B)
    → ◌≡◌ {A = Result AccountsError (A × B)} (ok (x, v)) (ok (y, w))
    → x ≡ y
left_of B x y v w e = ground arith

-- The tables as they stand are linked.
abbrev pub IsLinked : {S : Type 0} → (S → Tables) → S → Type 0
IsLinked rows s = Linked (rows s)

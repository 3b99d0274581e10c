-- ===== src/Admin/Accounts/Older.antt =====
-- A database in which a key has an older binding, to another credential; for the tests of
-- internal/admin/handler.go.
use yapi.Common.{
  ◌≡◌, refl, ◌⊎◌, inl, inr, false, Option, some, if◌then◌else◌, ◌&&◌, not, Bool-cases, arith, subst,
}
use yapi.Common.Text.{Text, text, text_eq, text_eq_iff}
use yapi.Accounts.Model.{UpstreamKey, UserKeyBinding}
use yapi.Accounts.Resolve.{Queries}
use yapi.Accounts.Database.{AccountsDatabase}
use yapi.Accounts.Service.Slots.{Slots, only, asked, slot_db, slot_queries, slot_rows}
use yapi.Accounts.Service.Slots.Laws.{asked_ok, only-some, view-row, view-at, slot-Reads}
use yapi.Accounts.Service.Tables.{Tables, Reads}
use yapi.Accounts.Service.Tables.Linked.{HasKey, HasUpstream}
use yapi.Accounts.Service.Tables.Settle.{IsLinked, some_same}
use yapi.Fixtures.{ann_key, ann_credential, ann_binding, ann_slots}

abbrev pub old_credential : UpstreamKey
old_credential = record ann_credential { id = text "c0"; service = text "azure" }

abbrev pub old_binding : UserKeyBinding
old_binding = record ann_binding {
  id = text "b0";
  upstream_key_id = text "c0";
  service = text "azure";
}

-- A table with one more row, which no statement touches.
abbrev pub front {ℓ} : {A : Type ℓ} → Text → A → (Text → Option A) → Text → Option A
front k a rows i = if text_eq k i then some a else rows i

abbrev pub older_rows : Slots → Tables
older_rows s = record (slot_rows s) {
  upstreams = front (text "c0") old_credential (slot_rows s).upstreams;
  bindings = front (text "b0") old_binding (slot_rows s).bindings;
}

abbrev older_queries : Slots → Queries
older_queries s = record (slot_queries s) {
  upstream_by_id = λ i. asked ((older_rows s).upstreams i);
  first_binding_of_key = λ i. asked (only (λ b. text_eq b.user_api_key_id i) (some old_binding));
  binding_of_key_and_service = λ i service. asked (
      only
        (λ b.
          not (text_eq (text "b0") b.id)
          && (text_eq b.user_api_key_id i && text_eq b.service service))
        s.binding);
}

abbrev pub older_db : AccountsDatabase Slots
older_db = record slot_db { queries = older_queries }

pub older-Reads : Reads older_db older_rows
older-Reads = record {
  upstream_ids = upstream_ids;
  user_ids = slot-Reads.user_ids;
  user_by_id = slot-Reads.user_by_id;
  key_by_id = slot-Reads.key_by_id;
  upstream_by_id = λ s i u e. asked_ok _ u e;
  key_by_prefix = slot-Reads.key_by_prefix;
  first_binding_of_key = λ s i b e.
      let (there, hit) =
        only-some (λ x. text_eq x.user_api_key_id i) (some old_binding) b (asked_ok _ b e) in
      let same = some_same old_binding b there in
      (
        subst (λ b. (older_rows s).bindings b.id ≡ some b) same (unfold text_eq in refl),
        (text_eq_iff b.user_api_key_id i).0 hit,
      );
  binding_of_key_and_service = λ s i service b e.
      let (there, hit) = only-some _ s.binding b (asked_ok _ b e) in
      let stored = view-at (λ (x : UserKeyBinding). x.id) s.binding b there in
      let other : text_eq (text "b0") b.id ≡ false = ground (arith, hit) in
      (
        rw other stored,
        ground (arith, text_eq_iff b.user_api_key_id i, text_eq_iff b.service service),
        ground (arith, text_eq_iff b.user_api_key_id i, text_eq_iff b.service service),
      );
}
  where
    upstream_ids :
        (s : Slots) (i : Text) (u : UpstreamKey) → (older_rows s).upstreams i ≡ some u → u.id ≡ i
    upstream_ids s i u e = elim (Bool-cases (text_eq (text "c0") i)) [
      | inl hit ↦
          let same = some_same old_credential u (rw hit at e) in
          subst (λ (u : UpstreamKey). u.id ≡ i) same ((text_eq_iff (text "c0") i).0 hit)
      | inr miss ↦ slot-Reads.upstream_ids s i u (rw miss at e)
    ]

pub older-Linked : IsLinked older_rows ann_slots
unfolding text_eq
older-Linked = record {
  has_key = λ i b e. elim (row i b e) [
    | inl old ↦
        subst (HasKey (older_rows ann_slots)) old
          (record { key = ann_key; stored = refl; owned = refl })
    | inr own ↦
        subst (HasKey (older_rows ann_slots)) own
          (record { key = ann_key; stored = refl; owned = refl })
  ];
  has_upstream = λ i b e. elim (row i b e) [
    | inl old ↦
        subst (HasUpstream (older_rows ann_slots)) old
          (record { upstream = old_credential; stored = refl; owned = refl })
    | inr own ↦
        subst (HasUpstream (older_rows ann_slots)) own
          (record { upstream = ann_credential; stored = refl; owned = refl })
  ];
}
  where
    row :
        (i : Text) (b : UserKeyBinding)
        → (older_rows ann_slots).bindings i ≡ some b
        → (old_binding ≡ b) ⊎ (ann_binding ≡ b)
    row i b e = elim (Bool-cases (text_eq (text "b0") i)) [
      | inl hit ↦ inl (some_same old_binding b (rw hit at e))
      | inr miss ↦
          let (there, _) =
            view-row (λ (x : UserKeyBinding). x.id) ann_slots.binding i b (rw miss at e) in
          inr (some_same ann_binding b there)
    ]

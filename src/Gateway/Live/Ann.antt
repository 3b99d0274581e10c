-- ===== src/Gateway/Live/Ann.antt =====
-- Tables with one user, or with what it leaves behind, and the request that sends its key: what a
-- run of the gateway in front of them needs.
use yapi.Common.{◌≡◌, refl, false, Option, ok, arith, subst}
use yapi.Common.Text.{
  Text, text, text_eq, is_blank, is_space, trim_left, trim_right, trim_space, has_prefix,
  split_from, split, to_lower, len,
}
use yapi.Common.Http.{canonical_key, header_get}
use yapi.Accounts.Model.{User, ApiKey, UpstreamKey, UserKeyBinding}
use yapi.Accounts.Keys.{split_api_key}
use yapi.Accounts.Service.Slots.{Slots, slot_db, slot_rows}
use yapi.Accounts.Service.Slots.Laws.{view-row}
use yapi.Accounts.Service.Tables.Linked.{HasKey, HasUpstream}
use yapi.Accounts.Service.Tables.Settle.{IsLinked, some_same}
use yapi.Middleware.Auth.{extract_api_key}
use yapi.Gateway.Live.{Answers, Bound}
use yapi.Fixtures.{
  plain_bcrypt, plain_unicode, ann_key, ann_credential, ann_binding, ann_slots, sent_key,
}

abbrev pub raw_key : Text
raw_key = extract_api_key plain_unicode sent_key

-- The tables as they are, with or without the user.
module _ (user : Option User) where
  abbrev pub of_ann : Slots
  of_ann = record ann_slots { user = user }

  pub of_ann-Linked : IsLinked slot_rows of_ann
  unfolding text_eq
  of_ann-Linked = record {
    has_key = λ i b e.
        let (there, _) = view-row (λ (x : UserKeyBinding). x.id) of_ann.binding i b e in
        subst (HasKey (slot_rows of_ann)) (some_same ann_binding b there)
          (record { key = ann_key; stored = refl; owned = refl });
    has_upstream = λ i b e.
        let (there, _) = view-row (λ (x : UserKeyBinding). x.id) of_ann.binding i b e in
        subst (HasUpstream (slot_rows of_ann)) (some_same ann_binding b there)
          (record { upstream = ann_credential; stored = refl; owned = refl });
  }

  pub of_ann-Answers : Answers slot_db slot_rows of_ann
  unfolding text_eq trim_space trim_left trim_right is_space
  of_ann-Answers = record {
    keys = λ i k e.
        let (there, _) = view-row (λ (x : ApiKey). x.id) of_ann.key i k e in
        subst (λ (k : ApiKey). (slot_db.queries of_ann).key_by_prefix k.prefix ≡ ok k)
          (some_same ann_key k there) refl;
    bindings = λ i b e.
        let (there, _) = view-row (λ (x : UserKeyBinding). x.id) of_ann.binding i b e in
        (
          ann_binding,
          subst
              (λ (b : UserKeyBinding).
                (slot_db.queries of_ann).first_binding_of_key b.user_api_key_id ≡ ok ann_binding)
              (some_same ann_binding b there) refl,
        );
    upstreams = λ i u e.
        let (there, at_id) = view-row (λ (x : UpstreamKey). x.id) of_ann.upstream i u e in
        subst (λ (i : Text). (slot_db.queries of_ann).upstream_by_id i ≡ ok u) at_id
          (subst (λ (u : UpstreamKey). (slot_db.queries of_ann).upstream_by_id u.id ≡ ok u)
            (some_same ann_credential u there) refl);
    key_ids = λ i k e.
        let (there, at_id) = view-row (λ (x : ApiKey). x.id) of_ann.key i k e in
        subst (λ (i : Text). is_blank i ≡ false) at_id
          (subst (λ (k : ApiKey). is_blank k.id ≡ false) (some_same ann_key k there) refl);
    upstream_ids = λ i u e empty.
        let (there, at_id) = view-row (λ (x : UpstreamKey). x.id) of_ann.upstream i u e in
        let same = some_same ann_credential u there in ground arith;
  }

  unfoldable pub of_ann-Bound : Bound plain_bcrypt (slot_rows of_ann) raw_key
  unfolding extract_api_key header_get canonical_key trim_space trim_left trim_right is_space
      to_lower has_prefix text_eq split_api_key split split_from len
  of_ann-Bound = record {
    prefix = text "12345678";
    secret = text "yapi_12345678_x";
    key = ann_key;
    id = text "b1";
    binding = ann_binding;
    splits = refl;
    stored = refl;
    at_prefix = refl;
    fits = refl;
    bound = refl;
    of_key = refl;
  }

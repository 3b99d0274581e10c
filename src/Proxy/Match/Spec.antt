-- ===== src/Proxy/Match/Spec.antt =====
-- When a request satisfies a matcher, condition by condition; internal/proxy/handler.go.
use yapi.Common.{
  All-map, ◌≡◌, refl, ◌≢◌, ◌↔◌, ◌⊎◌, inl, inr, Bool, true, false, ◌&&◌, ◌||◌, not, Option, none,
  some, List, [], ◌∷◌, is_nil, is_some, all, All, Any, any_iff, all_iff, arith,
}
use yapi.Common.Text.{Text, equal_fold, has_prefix}
use yapi.Common.Dict.{Dict}
use yapi.Common.Http.{header_get}
use yapi.Rules.Json.{Json}
use yapi.Rules.Model.{Matcher}
use yapi.Accounts.Model.{User, UserKeyBinding}
use yapi.Middleware.Auth.{Context}
use yapi.Proxy.Match.{
  Request, Env, string_in_slice_trimmed, path_matches, method_matches, header_matches,
  api_key_matches, request_prefix, prefix_matches, user_matches, metadata_fits, metadata_matches,
  upstream_matches, provider_matches, matches_request,
}
use yapi.Proxy.Match.Parts.{IsListed, in_slice_iff, HasEntry, entries_iff, OnPart, on_part_iff}

module _ (env : Env) where
  -- The header is missing where the pattern is empty, or the pattern compiles and matches it.
  abbrev HeaderFits : Request → Text × Text → Type 0
  HeaderFits req (key, pattern) =
      (pattern ≡ []) × (header_get key req.headers ≡ [])
      ⊎ (env.regexp.compiles pattern ≡ true)
        × (env.regexp.matches pattern (header_get key req.headers) ≡ true)

  nil_iff {ℓ} : {A : Type ℓ} (xs : List A) → (is_nil xs ≡ true) ↔ (xs ≡ [])
  nil_iff [] = (λ _. refl, λ _. refl)
  nil_iff (x ∷ xs) = ((λ h. cc), (λ h. cc))

  header_iff :
      (req : Request) (e : Text × Text) → (header_matches env req e ≡ true) ↔ HeaderFits req e
  header_iff req (key, pattern) =
      let n = nil_iff pattern in let v = nil_iff (header_get key req.headers) in ground arith

  -- The user is known and has metadata, with every expected entry.
  abbrev UserHas : Dict Text → User → Type 0
  UserHas expected user =
      (metadata : Dict Json) × (user.metadata ≡ some metadata)
      × All (HasEntry env metadata) expected

  -- Every condition of a matcher that is set holds of the request and its context.
  pub record Satisfies (c : Context) (req : Request) (m : Matcher) : Type 0 where
    pub path :
        (m.path_prefix ≡ [])
        ⊎ (has_prefix req.full_path m.path_prefix ≡ true)
        ⊎ (has_prefix req.url.path m.path_prefix ≡ true)
    pub method : (m.methods ≡ []) ⊎ Any (λ x. equal_fold env.unicode req.method x ≡ true) m.methods
    pub headers : All (HeaderFits req) m.headers
    pub binding : (m.require_binding ≡ false) ⊎ (b : UserKeyBinding) × (c.binding ≡ some b)
    pub api_key :
        OnPart (is_nil m.api_key_ids) c.api_key (λ k. IsListed env false m.api_key_ids k.id)
    pub prefix :
        (m.api_key_prefixes ≡ [])
        ⊎ (request_prefix env c ≢ []) × IsListed env true m.api_key_prefixes (request_prefix env c)
    pub user : OnPart (is_nil m.user_ids) c.user (λ u. IsListed env false m.user_ids u.id)
    pub metadata : OnPart (is_nil m.user_metadata) c.user (UserHas m.user_metadata)
    pub upstream :
        OnPart
          (is_nil m.binding_upstream_ids)
          c.binding
          (λ b. IsListed env false m.binding_upstream_ids b.upstream_key_id)
    pub provider :
        OnPart
          (is_nil m.binding_providers)
          c.upstream
          (λ i. IsListed env true m.binding_providers i.credential.service)

  path_iff :
      (req : Request) (m : Matcher)
      → (path_matches env req m ≡ true) ↔ (
          (m.path_prefix ≡ [])
          ⊎ (has_prefix req.full_path m.path_prefix ≡ true)
          ⊎ (has_prefix req.url.path m.path_prefix ≡ true))
  path_iff req m = let n = nil_iff m.path_prefix in ground arith

  method_iff :
      (req : Request) (m : Matcher)
      → (method_matches env req m ≡ true)
        ↔ ((m.methods ≡ []) ⊎ Any (λ x. equal_fold env.unicode req.method x ≡ true) m.methods)
  method_iff req m =
      let n = nil_iff m.methods in
      let a = any_iff (λ (x : Text). equal_fold env.unicode req.method x) m.methods in ground arith

  bound_iff :
      (needed : Bool) (o : Option UserKeyBinding)
      → ((not needed || is_some o) ≡ true)
        ↔ ((needed ≡ false) ⊎ (b : UserKeyBinding) × (o ≡ some b))
  bound_iff false o = ((λ _. inl refl), (λ _. refl))
  bound_iff true none = ((λ h. cc), elim [ inl e ↦ cc | inr (b, e) ↦ cc ])
  bound_iff true (some b) = ((λ _. inr (b, refl)), (λ _. refl))

  prefix_iff :
      (list : List Text) (p : Text)
      → ((is_nil list || not (is_nil p) && string_in_slice_trimmed env list p true) ≡ true)
        ↔ ((list ≡ []) ⊎ (p ≢ []) × IsListed env true list p)
  prefix_iff [] p = ((λ _. inl refl), (λ _. refl))
  prefix_iff (x ∷ xs) [] = ((λ h. cc), elim [ inl e ↦ cc | inr h ↦ absurd (h.0 refl) ])
  prefix_iff (x ∷ xs) (c ∷ p) =
      let (to, from) = in_slice_iff env (x ∷ xs) (c ∷ p) true in
      ((λ h. inr ((λ e. cc), to h)), elim [ inl e ↦ cc | inr h ↦ from h.1 ])

  metadata_iff :
      (expected : Dict Text) (user : User)
      → (metadata_fits env user.metadata expected ≡ true) ↔ UserHas expected user
  metadata_iff expected user = go user.metadata
    where
      go :
          (o : Option (Dict Json))
          → (metadata_fits env o expected ≡ true)
            ↔ ((d : Dict Json) × (o ≡ some d) × All (HasEntry env d) expected)
      go none = ((λ h. cc), (λ (d, e, h). cc))
      go (some metadata) =
          let (to, from) = entries_iff env metadata expected in
          (
            (λ h. (metadata, refl, to h)),
            (λ (d, e, h). ground (arith, (entries_iff env d expected).1 h)),
          )

  and_ten :
      (a b c d e f g h i j : Bool)
      → ((a && b && c && d && e && f && g && h && i && j) ≡ true) ↔ (
          (a ≡ true)
          × (b ≡ true)
          × (c ≡ true)
          × (d ≡ true)
          × (e ≡ true)
          × (f ≡ true)
          × (g ≡ true)
          × (h ≡ true)
          × (i ≡ true)
          × (j ≡ true))
  and_ten a b c d e f g h i j = ground arith

  -- A rule's matcher accepts a request exactly when every condition that it sets is satisfied; the
  -- conditions that it leaves empty ask for nothing.
  pub matches_request_iff :
      (c : Context) (req : Request) (m : Matcher)
      → (matches_request env c req m ≡ true) ↔ Satisfies c req m
  unfolding matches_request
  matches_request_iff c req m =
      let path = path_iff req m in
      let method = method_iff req m in
      let headers = all_iff (header_matches env req) m.headers in
      let binding = bound_iff m.require_binding c.binding in
      let key =
        on_part_iff (is_nil m.api_key_ids) c.api_key _ _
          (λ k. in_slice_iff env m.api_key_ids k.id false) in
      let prefix = prefix_iff m.api_key_prefixes (request_prefix env c) in
      let user =
        on_part_iff (is_nil m.user_ids) c.user _ _ (λ u. in_slice_iff env m.user_ids u.id false) in
      let metadata =
        on_part_iff (is_nil m.user_metadata) c.user _ _ (metadata_iff m.user_metadata) in
      let upstream =
        on_part_iff (is_nil m.binding_upstream_ids) c.binding _ _
          (λ b. in_slice_iff env m.binding_upstream_ids b.upstream_key_id false) in
      let provider =
        on_part_iff (is_nil m.binding_providers) c.upstream _ _
          (λ i. in_slice_iff env m.binding_providers i.credential.service true) in
      let (split, join) =
        and_ten (path_matches env req m) (method_matches env req m)
          (all (header_matches env req) m.headers) (not m.require_binding || is_some c.binding)
          (api_key_matches env c m) (prefix_matches env c m) (user_matches env c m)
          (metadata_matches env c m) (upstream_matches env c m) (provider_matches env c m) in
      (
        (λ h.
            let parts = split h in
            record {
              path = path.0 parts.0;
              method = method.0 parts.1;
              headers = All-map m.headers (λ e. (header_iff req e).0) (headers.0 parts.2);
              binding = binding.0 parts.3;
              api_key = key.0 parts.4;
              prefix = prefix.0 parts.5;
              user = user.0 parts.6;
              metadata = metadata.0 parts.7;
              upstream = upstream.0 parts.8;
              provider = provider.0 parts.9;
            }),
        (λ s. join (
          path.1 s.path,
          method.1 s.method,
          headers.1 (All-map m.headers (λ e. (header_iff req e).1) s.headers),
          binding.1 s.binding,
          key.1 s.api_key,
          prefix.1 s.prefix,
          user.1 s.user,
          metadata.1 s.metadata,
          upstream.1 s.upstream,
          provider.1 s.provider,
        )),
      )

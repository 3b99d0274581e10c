-- ===== src/Config/Loaded.antt =====
-- What holds of every configuration that `Load` of pkg/config/config.go makes.
use yapi.Common.{
  ◌≡◌, ◌≢◌, refl, inl, inr, ◌⊎◌, true, false, none, some, List, [], ◌∷◌, All, arith, is_nil,
  Bool-cases, if◌then◌else◌, ◌||◌,
}
use yapi.Common.Int.{ℤ, pos, negsuc}
use yapi.Common.Text.{Text, text, text_eq, text_eq_iff, Unicode, to_lower, trim_space, is_blank}
use yapi.Common.Text.Trim.{trim_space_idem}
use yapi.Config.{
  Config, Environment, redis_maint_mode_disabled, redis_maint_mode_auto, redis_maint_mode_enabled,
  trimmed_parts, normalize_maint_mode, lookup_env_or_default, load, getenv, or_default, parsed_ttl,
}

-- A text with no white space around it, and not empty.
abbrev pub IsTrimmed : Text → Type 0
IsTrimmed s = (trim_space s ≡ s) × (is_nil s ≡ false)

abbrev pub IsMaintMode : Text → Type 0
IsMaintMode s =
    (s ≡ redis_maint_mode_disabled) ⊎ ((s ≡ redis_maint_mode_auto) ⊎ (s ≡ redis_maint_mode_enabled))

pub record IsUsable (c : Config) : Type 0 where
  pub port : c.gateway_port ≢ []
  pub addr : c.redis_addr ≢ []
  pub channel : c.redis_channel ≢ []
  pub mode : IsMaintMode c.redis_maint_mode
  pub ttl : c.admin_token_ttl ≢ pos 0
  pub origins : All IsTrimmed c.admin_allowed_origins

trimmed_parts-IsTrimmed : (parts : List Text) → All IsTrimmed (trimmed_parts parts)
unfolding trimmed_parts
trimmed_parts-IsTrimmed [] = tt
trimmed_parts-IsTrimmed (part ∷ parts) = elim (Bool-cases (is_blank part)) [
  | inl blank ↦ rw blank (trimmed_parts-IsTrimmed parts)
  | inr full ↦ rw full ((trim_space_idem part, full), trimmed_parts-IsTrimmed parts)
]

normalize-IsMaintMode : (u : Unicode) (mode : Text) → IsMaintMode (normalize_maint_mode u mode)
unfolding normalize_maint_mode
normalize-IsMaintMode u mode =
    go (to_lower u (trim_space mode)) (text_eq_iff _ redis_maint_mode_auto).0
      (text_eq_iff _ redis_maint_mode_enabled).0
  where
    go :
        (s : Text)
        → (text_eq s redis_maint_mode_auto ≡ true → s ≡ redis_maint_mode_auto)
        → (text_eq s redis_maint_mode_enabled ≡ true → s ≡ redis_maint_mode_enabled)
        → IsMaintMode (
            if is_nil s || text_eq s redis_maint_mode_disabled
            then redis_maint_mode_disabled
            else if text_eq s redis_maint_mode_auto || text_eq s redis_maint_mode_enabled
            then s
            else redis_maint_mode_disabled)
    go s auto enabled = elim (Bool-cases (is_nil s || text_eq s redis_maint_mode_disabled)) [
      | inl off ↦ rw off (inl refl)
      | inr on ↦ rw on (elim (Bool-cases (text_eq s redis_maint_mode_auto)) [
        | inl a ↦ rw a (inr (inl (auto a)))
        | inr b ↦ rw b (elim (Bool-cases (text_eq s redis_maint_mode_enabled)) [
          | inl e ↦ rw e (inr (inr (enabled e)))
          | inr none_of ↦ rw none_of (inl refl)
        ])
      ])
    ]

module _ (env : Environment) where
  default-ne : (key fallback : Text) → fallback ≢ [] → lookup_env_or_default env key fallback ≢ []
  unfolding lookup_env_or_default
  default-ne key fallback full =
      elim (env.lookup_env key)
        as (λ o.
          (elim o [ none ↦ fallback | some value ↦ if is_nil value then fallback else value ])
          ≢ []) [ none ↦ full | some value ↦ value_ne value ]
    where
      value_ne : (value : Text) → (if is_nil value then fallback else value) ≢ []
      value_ne [] = full
      value_ne (c ∷ s) = λ e. cc

  or_default-ne : (z : ℤ) → or_default env z ≢ pos 0
  or_default-ne (pos n) e = ground arith
  or_default-ne (negsuc n) e = cc

  -- In every environment, `Load` gives a port, an address and a channel of Redis that are not empty,
  -- one of the three modes, a lifetime of tokens that is not zero, though it may be negative, and
  -- allowed origins that are trimmed and not empty.
  pub load-IsUsable : (u : Unicode) → IsUsable (load env u)
  unfolding load
  load-IsUsable u = record {
    port = default-ne (text "GATEWAY_PORT") _ (λ e. cc);
    addr = default-ne (text "REDIS_ADDR") _ (λ e. cc);
    channel = default-ne (text "REDIS_CHANNEL") _ (λ e. cc);
    mode = normalize-IsMaintMode u _;
    ttl =
        (let ttl = getenv env (text "ADMIN_TOKEN_TTL") in
          or_default-ne (if is_nil ttl then pos 0 else parsed_ttl env ttl));
    origins = elim (Bool-cases (is_nil (getenv env (text "ADMIN_ALLOWED_ORIGINS")))) [
      | inl empty ↦ rw empty tt
      | inr full ↦ rw full (trimmed_parts-IsTrimmed _)
    ];
  }

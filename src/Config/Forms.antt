-- ===== src/Config/Forms.antt =====
-- The forms that `Validate` of internal/config/config.go asks of single values, said apart from its
-- checks, and that the checks agree.
use herdr_phone.Base.{
  ◌≤◌, List, [], ◌∷◌, ◌++◌, ◌≡◌, ◌≢◌, ◌↔◌, ◌⊎◌, inl, inr, refl, arith, Bool, true, false, not, ◌&&◌,
  ◌||◌, Option, none, some, Str, bytes, str_eq, str_eq_iff, contains, length, All, Any, Bool-cases,
  ap,
}
use herdr_phone.Config.Model.{Cloudflare, Url, Go, supported, mem}
use herdr_phone.Config.Validation.{
  is_empty, credential_strategies, one_if, has_any, contains_control, validate_team_domain, bad_url,
  is_blank, validate_https_url, is_bad_identity,
}
use herdr_phone.Config.Accepted.{first_fault-All, fault_if-none, fault_unless-none}

-- A host name: with a dot, and no space, tab, `/` or scheme.
pub record IsTeamDomain (s : Str) : Type 0 where
  pub no_path : All (λ b. (b ≢ b'/') × (b ≢ b' ') × (b ≢ 9)) s
  pub no_scheme : contains (bytes "://") s ≡ false
  pub has_dot : contains (bytes ".") s ≡ true

has_any_iff :
    (s : Str)
    → (has_any (b'/' ∷ b' ' ∷ 9 ∷ []) s ≡ false) ↔ All (λ b. (b ≢ b'/') × (b ≢ b' ') × (b ≢ 9)) s
unfolding has_any
has_any_iff [] = (λ h. tt, λ h. refl)
has_any_iff (b ∷ s) = (
  λ h. (
    (λ e. ground (arith, h, e), λ e. ground (arith, h, e), λ e. ground (arith, h, e)),
    (has_any_iff s).0 (ground (arith, h)),
  ),
  λ h. ground (arith, h.0, (has_any_iff s).1 h.1),
)

-- Text with no control characters.
abbrev pub IsPlain : Str → Type 0
IsPlain = All (λ b. (32 ≤ b) × (b ≢ 127))

contains_control_iff : (s : Str) → (contains_control s ≡ false) ↔ IsPlain s
unfolding contains_control
contains_control_iff [] = (λ h. tt, λ h. refl)
contains_control_iff (b ∷ s) = (
  λ h. (
    (ground (arith, h), λ e. ground (arith, h, e)),
    (contains_control_iff s).0 (ground (arith, h)),
  ),
  λ h. ground (arith, h.0, (contains_control_iff s).1 h.1),
)

pub validate_team_domain_iff : (s : Str) → (validate_team_domain s ≡ none) ↔ IsTeamDomain s
unfolding validate_team_domain
validate_team_domain_iff s = (
  λ h.
      let (bad, (dot, _)) = (first_fault-All _).0 h in
      let k = (fault_if-none _ _).0 bad in
      record {
        no_path = (has_any_iff s).0 (ground (arith, k));
        no_scheme = ground (arith, k);
        has_dot = (fault_unless-none _ _).0 dot;
      },
  λ h. (first_fault-All _).1 (
    (fault_if-none _ _).1 (ground (arith, (has_any_iff s).1 h.no_path, h.no_scheme)),
    ((fault_unless-none _ _).1 h.has_dot, tt),
  ),
)

empty_iff {ℓ} : {A : Type ℓ} (xs : List A) → (is_empty xs ≡ false) ↔ (xs ≢ [])
empty_iff [] = (λ h. ground (arith, h), λ h. absurd (h refl))
empty_iff (x ∷ xs) = ((λ h e. ground (arith, e)), λ h. refl)

pub same_for_each :
    {A : Type 0} (P Q : A → Type 0) → ((a : A) → P a ↔ Q a) → (as' : List A) → All P as' ↔ All Q as'
same_for_each P Q same [] = (λ h. tt, λ h. tt)
same_for_each P Q same (a ∷ rest) = (
  λ h. ((same a).0 h.0, (same_for_each P Q same rest).0 h.1),
  λ h. ((same a).1 h.0, (same_for_each P Q same rest).1 h.1),
)

-- One of some names.
abbrev pub IsOneOf : List Str → Str → Type 0
IsOneOf names s = Any (λ name. name ≡ s) names

pub mem_iff : (s : Str) (names : List Str) → (mem s names ≡ true) ↔ IsOneOf names s
unfolding mem
mem_iff s [] = (λ h. ground (arith, h), λ h. absurd h)
mem_iff s (name ∷ names) = (
  λ h. elim (Bool-cases (str_eq name s)) [
    | inl e ↦ inl ((str_eq_iff name s).0 e)
    | inr e ↦ inr ((mem_iff s names).0 (ground (arith, h, e)))
  ],
  λ h. elim h [
    | inl e ↦ ground (arith, (str_eq_iff name s).1 e)
    | inr k ↦ ground (arith, (mem_iff s names).1 k)
  ],
)

pub supported_iff :
    (s : Str) → (not (supported s) ≡ false) ↔ IsOneOf (bytes "claude" ∷ bytes "opencode" ∷ []) s
supported_iff s = (
  λ h. (mem_iff s (bytes "claude" ∷ bytes "opencode" ∷ [])).0 (ground (arith, h)),
  λ h. ap not ((mem_iff s (bytes "claude" ∷ bytes "opencode" ∷ [])).1 h),
)

pub parses_iff {ℓ} :
    {A : Type ℓ} (on : Bool) (ps : List A)
    → ((on && is_empty ps) ≡ false) ↔ ((on ≡ false) ⊎ (ps ≢ []))
parses_iff false ps = (λ h. inl refl, λ h. refl)
parses_iff true ps = (
  λ h. inr ((empty_iff ps).0 h),
  λ h. elim h [ inl e ↦ ground (arith, e) | inr k ↦ (empty_iff ps).1 k ],
)

-- The ways to give the tunnel its credentials.
pub record IsLocal (c : Cloudflare) : Type 0 where
  pub given : (c.config_file ≢ []) ⊎ ((c.credentials_file ≢ []) ⊎ (c.tunnel ≢ []))

pub record IsUnset (c : Cloudflare) : Type 0 where
  pub no_config : c.config_file ≡ []
  pub no_credentials : c.credentials_file ≡ []
  pub no_tunnel : c.tunnel ≡ []

abbrev pub HasNoStrategy : Cloudflare → Type 0
HasNoStrategy c = IsUnset c × (c.token_file ≡ []) × (c.token_command ≡ [])

abbrev pub HasOneStrategy : Cloudflare → Type 0
HasOneStrategy c =
    (IsLocal c × (c.token_file ≡ []) × (c.token_command ≡ []))
    ⊎ ((IsUnset c × (c.token_file ≢ []) × (c.token_command ≡ []))
        ⊎ (IsUnset c × (c.token_file ≡ []) × (c.token_command ≢ [])))

first_strategy_iff :
    (c : Cloudflare)
    → ((not (is_empty c.config_file)
          || not (is_empty c.credentials_file)
          || not (is_empty c.tunnel))
        ≡ true)
      ↔ IsLocal c
first_strategy_iff c = (
  λ h. elim (Bool-cases (is_empty c.config_file)) [
    | inr e ↦ record { given = inl ((empty_iff _).0 e) }
    | inl e ↦ elim (Bool-cases (is_empty c.credentials_file)) [
      | inr k ↦ record { given = inr (inl ((empty_iff _).0 k)) }
      | inl k ↦ record { given = inr (inr ((empty_iff _).0 (ground (arith, h, e, k)))) }
    ]
  ],
  λ h. elim h.given [
    | inl e ↦ ground (arith, (empty_iff c.config_file).1 e)
    | inr (inl e) ↦ ground (arith, (empty_iff c.credentials_file).1 e)
    | inr (inr e) ↦ ground (arith, (empty_iff c.tunnel).1 e)
  ],
)

is_empty_iff {ℓ} : {A : Type ℓ} (xs : List A) → (is_empty xs ≡ true) ↔ (xs ≡ [])
is_empty_iff [] = (λ h. refl, λ h. refl)
is_empty_iff (x ∷ xs) = (λ h. ground (arith, h), λ h. ground (arith, h))

first_strategy_unused :
    (c : Cloudflare)
    → ((not (is_empty c.config_file)
          || not (is_empty c.credentials_file)
          || not (is_empty c.tunnel))
        ≡ false)
      ↔ IsUnset c
first_strategy_unused c = (
  λ h. record {
    no_config = (is_empty_iff c.config_file).0 (ground (arith, h));
    no_credentials = (is_empty_iff c.credentials_file).0 (ground (arith, h));
    no_tunnel = (is_empty_iff c.tunnel).0 (ground (arith, h));
  },
  λ h. rw (h.no_config, h.no_credentials, h.no_tunnel) refl,
)

-- Which of the three tests of `credentialStrategies` are met.
abbrev One : Bool → Bool → Bool → Type 0
One l f t =
    ((l ≡ true) × (f ≡ true) × (t ≡ true))
    ⊎ (((l ≡ false) × (f ≡ false) × (t ≡ true)) ⊎ ((l ≡ false) × (f ≡ true) × (t ≡ false)))

count :
    (l f t : Bool) (a b c : Str)
    → length (one_if l a ++ one_if (not f) b ++ one_if (not t) c) ≡ 1
    → One l f t
count true true true a b c h = inl (refl, refl, refl)
count false false true a b c h = inr (inl (refl, refl, refl))
count false true false a b c h = inr (inr (refl, refl, refl))
count _ _ _ a b c h = ground (arith, h)

pub strategies_one : (c : Cloudflare) → (length (credential_strategies c) ≡ 1) ↔ HasOneStrategy c
unfolding credential_strategies
strategies_one c = (
  λ h. elim (count _ (is_empty c.token_file) (is_empty c.token_command) _ _ _ h) [
    | inl (l, f, t) ↦ inl ((first_strategy_iff c).0 l, (is_empty_iff _).0 f, (is_empty_iff _).0 t)
    | inr (inl (l, f, t)) ↦
        inr (inl ((first_strategy_unused c).0 l, (empty_iff _).0 f, (is_empty_iff _).0 t))
    | inr (inr (l, f, t)) ↦
        inr (inr ((first_strategy_unused c).0 l, (is_empty_iff _).0 f, (empty_iff _).0 t))
  ],
  λ h. elim h [
    | inl (l, f, t) ↦ rw ((first_strategy_iff c).1 l, f, t) refl
    | inr (inl (l, f, t)) ↦ rw ((first_strategy_unused c).1 l, (empty_iff c.token_file).1 f, t) refl
    | inr (inr (l, f, t)) ↦
        rw ((first_strategy_unused c).1 l, f, (empty_iff c.token_command).1 t) refl
  ],
)

none_met :
    (l f t : Bool) (a b c : Str)
    → one_if l a ++ one_if (not f) b ++ one_if (not t) c ≡ []
    → (l ≡ false) × (f ≡ true) × (t ≡ true)
none_met false true true a b c h = (refl, refl, refl)
none_met _ _ _ a b c h = ground (arith, h)

pub strategies_none : (c : Cloudflare) → (credential_strategies c ≡ []) ↔ HasNoStrategy c
unfolding credential_strategies
strategies_none c = (
  λ h.
      let (l, f, t) = none_met _ (is_empty c.token_file) (is_empty c.token_command) _ _ _ h in
      ((first_strategy_unused c).0 l, (is_empty_iff _).0 f, (is_empty_iff _).0 t),
  λ (l, f, t). rw ((first_strategy_unused c).1 l, f, t) refl,
)

module _ (go : Go) where
  pub blank_iff : (s : Str) → (is_blank go s ≡ false) ↔ (go.trim_space s ≢ [])
  blank_iff s = empty_iff (go.trim_space s)

  -- An identity that names someone, in at most 320 characters and with none for control.
  pub record IsIdentity (id : Str) : Type 0 where
    pub named : go.trim_space id ≢ []
    pub short : go.rune_count id ≤ 320
    pub plain : IsPlain id

  pub is_bad_identity_iff : (id : Str) → (is_bad_identity go id ≡ false) ↔ IsIdentity id
  is_bad_identity_iff id = (
    λ h. record {
      named = (blank_iff id).0 (ground (arith, h));
      short = ground (arith, h);
      plain = (contains_control_iff id).0 (ground (arith, h));
    },
    λ h. ground (arith, (blank_iff id).1 h.named, h.short, (contains_control_iff id).1 h.plain),
  )

  -- An `https` URL with a host and no user.
  pub record IsHttpsUrl (raw : Str) : Type 0 where
    pub url : Url
    pub parsed : go.parse_url raw ≡ some url
    pub https : url.scheme ≡ bytes "https"
    pub has_host : url.url_host ≢ []
    pub has_hostname : url.hostname ≢ []
    pub no_user : url.has_user ≡ false

  good_url :
      (raw : Str) (o : Option Url) → go.parse_url raw ≡ o → bad_url go o ≡ false → IsHttpsUrl raw
  good_url raw none e h = ground (arith, h)
  good_url raw (some u) e h = record {
    url = u;
    parsed = e;
    https = (str_eq_iff u.scheme (bytes "https")).0 (ground (arith, h));
    has_host = (empty_iff u.url_host).0 (ground (arith, h));
    has_hostname = (empty_iff u.hostname).0 (ground (arith, h));
    no_user = ground (arith, h);
  }

  pub validate_https_url_iff : (raw : Str) → (validate_https_url go raw ≡ none) ↔ IsHttpsUrl raw
  unfolding validate_https_url
  validate_https_url_iff raw = (
    λ h. good_url raw (go.parse_url raw) refl ((fault_if-none _ _).0 h),
    λ h. (fault_if-none _ _).1 (
        rw h.parsed (
          ground (
            arith,
            (str_eq_iff h.url.scheme (bytes "https")).1 h.https,
            (empty_iff h.url.url_host).1 h.has_host,
            (empty_iff h.url.hostname).1 h.has_hostname,
            h.no_user,
          ))),
  )

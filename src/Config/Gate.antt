-- ===== src/Config/Gate.antt =====
-- The front door that `Validate` of internal/config/config.go lets a configuration open, and all that
-- it asks of a configuration.
use herdr_phone.Base.{
  ◌==◌, List, [], ◌∷◌, ◌≡◌, ◌≢◌, ◌↔◌, ◌⊎◌, inl, inr, refl, arith, true, false, not, none, Str,
  bytes, str_eq, str_eq_iff, if◌then◌else◌, if_both, Bool-cases, length, All, ap,
}
use herdr_phone.Config.Model.{
  Cloudflare, Access, Config, Go, mode_named, mode_quick, mode_external, supported,
}
use herdr_phone.Config.Validation.{
  is_empty, credential_strategies, validate_ui, validate_experimental, is_blank, validate_https_url,
  is_bad_identity, validate_access, has_identity_allowlist, any_named, validate_identity_gate,
  validate_external, validate_named, validate_mode, validate_cloudflare, validate,
}
use herdr_phone.Config.Forms.{
  IsTeamDomain, validate_team_domain_iff, IsIdentity, is_bad_identity_iff, same_for_each, blank_iff,
  HasOneStrategy, HasNoStrategy, strategies_one, strategies_none, IsHttpsUrl,
  validate_https_url_iff, IsOneOf, mem_iff, supported_iff, parses_iff,
}
use herdr_phone.Config.Accepted.{
  IsDuration, IsBetween, IsServer, IsHerdr, first_fault-All, fault_if-none, fault_unless-none,
  fault_empty-none, check_all-All, check_duration-IsDuration, in_bounds_lem, server-IsServer,
  herdr-IsHerdr,
}

module _ (go : Go) where
  -- What stands between the Internet and the origin: Cloudflare Access, with the identities named or
  -- all of them let in on purpose.
  pub record IsGated (a : Access) : Type 0 where
    pub enabled : a.enabled ≡ true
    pub keys : IsDuration a.jwks_ttl 2_592_000_000_000_000
    pub has_team : a.team_domain ≢ []
    pub team : IsTeamDomain a.team_domain
    pub has_audience : go.trim_space a.audience ≢ []
    pub identities : All (IsIdentity go) a.allowed_identities
    pub gate : (a.allow_any_identity ≡ true) ⊎ (a.allowed_identities ≢ [])

  abbrev pub IsFront : Str → Cloudflare → Access → Type 0
  IsFront mode c a =
      ((mode ≡ bytes "named") × (c.public_url ≢ []) × HasOneStrategy c × IsGated a)
      ⊎ (((mode ≡ bytes "external") × (c.public_url ≢ []) × HasNoStrategy c × IsGated a)
          ⊎ ((mode ≡ bytes "quick") × (c.quick_enabled ≡ true)))

  -- An identity that is not bad is not blank.
  named_if_any :
      (ids : List Str)
      → All (λ id. is_bad_identity go id ≡ false) ids
      → (any_named go ids ≡ true) ↔ (ids ≢ [])
  named_if_any [] h = (λ e. ground (arith, e), λ e. absurd (e refl))
  named_if_any (id ∷ ids) h = (λ e k. ground (arith, k), λ e. ground (arith, h.0))

  gate_lem :
      (a : Access)
      → All (λ id. is_bad_identity go id ≡ false) a.allowed_identities
      → (validate_identity_gate go a ≡ none)
        ↔ ((a.allow_any_identity ≡ true) ⊎ (a.allowed_identities ≢ []))
  unfolding validate_identity_gate has_identity_allowlist
  gate_lem a h = (λ e. to_gate (Bool-cases a.allow_any_identity) e, from_gate)
    where
      to_gate :
          (a.allow_any_identity ≡ true) ⊎ (a.allow_any_identity ≡ false)
          → validate_identity_gate go a ≡ none
          → (a.allow_any_identity ≡ true) ⊎ (a.allowed_identities ≢ [])
      to_gate (inl e) k = inl e
      to_gate (inr e) k =
          inr (
            (named_if_any a.allowed_identities h).0
              (ground (arith, e, (fault_unless-none _ _).0 k)))

      from_gate :
          (a.allow_any_identity ≡ true) ⊎ (a.allowed_identities ≢ [])
          → validate_identity_gate go a ≡ none
      from_gate (inl e) = (fault_unless-none _ _).1 (ground (arith, e))
      from_gate (inr e) =
          (fault_unless-none _ _).1 (ground (arith, (named_if_any a.allowed_identities h).1 e))

  identities_iff :
      (a : Access)
      → All (λ id. is_bad_identity go id ≡ false) a.allowed_identities
        ↔ All (IsIdentity go) a.allowed_identities
  identities_iff a =
      same_for_each (λ id. is_bad_identity go id ≡ false) (IsIdentity go) (is_bad_identity_iff go)
        a.allowed_identities

  gated_lem :
      (a : Access)
      → ((a.enabled ≡ true) × (validate_access go a ≡ none) × (validate_identity_gate go a ≡ none))
        ↔ IsGated a
  unfolding validate_access
  gated_lem a = (
    λ (on, e, gate).
        let (keys, (team, (domain, (audience, (ids, _))))) = (first_fault-All _).0 e in
        let all_good = (check_all-All _ _ a.allowed_identities).0 ids in
        record {
          enabled = on;
          keys = (check_duration-IsDuration _ _ _).0 keys;
          has_team = (fault_empty-none a.team_domain _).0 team;
          team = (validate_team_domain_iff a.team_domain).0 domain;
          has_audience = (blank_iff go a.audience).0 ((fault_if-none _ _).0 audience);
          identities = (identities_iff a).0 all_good;
          gate = (gate_lem a all_good).0 gate;
        },
    λ h. (
      h.enabled,
      (first_fault-All _).1 (
        (check_duration-IsDuration _ _ _).1 h.keys,
        (
          (fault_empty-none a.team_domain _).1 h.has_team,
          (
            (validate_team_domain_iff a.team_domain).1 h.team,
            (
              (fault_if-none _ _).1 ((blank_iff go a.audience).1 h.has_audience),
              ((check_all-All _ _ a.allowed_identities).1 ((identities_iff a).1 h.identities), tt),
            ),
          ),
        ),
      ),
      (gate_lem a ((identities_iff a).1 h.identities)).1 h.gate,
    ),
  )

  named_lem :
      (c : Cloudflare) (a : Access)
      → (validate_named go c a ≡ none) ↔ ((c.public_url ≢ []) × HasOneStrategy c × IsGated a)
  unfolding validate_named
  named_lem c a = (
    λ e.
        let (on, (url, (one, (access, (gate, _))))) = (first_fault-All _).0 e in
        (
          (fault_empty-none c.public_url _).0 url,
          (strategies_one c).0
              (ground (arith, (fault_unless-none (length (credential_strategies c) == 1) _).0 one)),
          (gated_lem a).0 ((fault_unless-none _ _).0 on, access, gate),
        ),
    λ (url, one, gated).
        let (on, access, gate) = (gated_lem a).1 gated in
        (first_fault-All _).1 (
          (fault_unless-none _ _).1 on,
          (
            (fault_empty-none c.public_url _).1 url,
            (
              (fault_unless-none (length (credential_strategies c) == 1) _).1
                  (ground (arith, (strategies_one c).1 one)),
              (access, (gate, tt)),
            ),
          ),
        ),
  )

  external_lem :
      (c : Cloudflare) (a : Access)
      → (validate_external go c a ≡ none) ↔ ((c.public_url ≢ []) × HasNoStrategy c × IsGated a)
  unfolding validate_external
  external_lem c a = (
    λ e.
        let (on, (url, (no_one, (access, (gate, _))))) = (first_fault-All _).0 e in
        (
          (fault_empty-none c.public_url _).0 url,
          (strategies_none c).0 (empty_only _ ((fault_unless-none _ _).0 no_one)),
          (gated_lem a).0 ((fault_unless-none _ _).0 on, access, gate),
        ),
    λ (url, no_one, gated).
        let (on, access, gate) = (gated_lem a).1 gated in
        (first_fault-All _).1 (
          (fault_unless-none _ _).1 on,
          (
            (fault_empty-none c.public_url _).1 url,
            (
              (fault_unless-none _ _).1 (ap is_empty ((strategies_none c).1 no_one)),
              (access, (gate, tt)),
            ),
          ),
        ),
  )
    where
      empty_only : (ss : List Str) → is_empty ss ≡ true → ss ≡ []
      empty_only [] h = refl
      empty_only (s ∷ ss) h = ground arith

  IsFront-of :
      (mode : Str) (c : Cloudflare) (a : Access)
      → validate_mode go mode c a ≡ none
      → IsFront mode c a
  unfolding validate_mode
  IsFront-of mode c a =
      if_both (λ o. o ≡ none → IsFront mode c a) (str_eq mode mode_named)
        (λ m e.
          let (url, one, gated) = (named_lem c a).0 e in
          inl ((str_eq_iff mode mode_named).0 m, url, one, gated))
        λ _.
          if_both (λ o. o ≡ none → IsFront mode c a) (str_eq mode mode_external)
            (λ m e.
              let (url, no_one, gated) = (external_lem c a).0 e in
              inr (inl ((str_eq_iff mode mode_external).0 m, url, no_one, gated)))
            λ _.
              if_both (λ o. o ≡ none → IsFront mode c a) (str_eq mode mode_quick)
                (λ m e. inr (inr ((str_eq_iff mode mode_quick).0 m, (fault_unless-none _ _).0 e)))
                (λ _ e. ground (arith, e))

  front_accepted :
      (mode : Str) (c : Cloudflare) (a : Access)
      → IsFront mode c a
      → validate_mode go mode c a ≡ none
  unfolding validate_mode str_eq
  front_accepted mode c a (inl (m, url, one, gated)) = rw m ((named_lem c a).1 (url, one, gated))
  front_accepted mode c a (inr (inl (m, url, no_one, gated))) =
      rw m ((external_lem c a).1 (url, no_one, gated))
  front_accepted mode c a (inr (inr (m, q))) = rw m ((fault_unless-none _ _).1 q)

  -- All that a configuration needs to be accepted.
  pub record IsRunnable (c : Config) : Type 0 where
    pub server : IsServer c.server
    pub has_binary : c.cloudflare.binary ≢ []
    pub grace : IsDuration c.cloudflare.grace_period 300_000_000_000
    pub token_arguments : All (λ a. go.trim_space a ≢ []) c.cloudflare.token_command
    pub https : (c.cloudflare.public_url ≡ []) ⊎ IsHttpsUrl go c.cloudflare.public_url
    pub front : IsFront c.cloudflare.mode c.cloudflare c.access
    pub herdr : IsHerdr c.herdr
    pub parsers :
        All (IsOneOf (bytes "claude" ∷ bytes "opencode" ∷ [])) c.experimental.agent_output_parsers
    pub parses_some :
        (c.experimental.agent_output_parsing ≡ false) ⊎ (c.experimental.agent_output_parsers ≢ [])
    pub turns : IsBetween 1 500 c.experimental.max_interpreted_turns
    pub theme : IsOneOf (bytes "system" ∷ bytes "light" ∷ bytes "dark" ∷ []) c.ui.theme
    pub font : IsBetween 8 72 c.ui.terminal_font_size

  https_lem :
      (url : Str)
      → ((if is_empty url then none else validate_https_url go url) ≡ none)
        ↔ ((url ≡ []) ⊎ IsHttpsUrl go url)
  https_lem [] = (λ e. inl refl, λ e. refl)
  https_lem (b ∷ url) = (
    λ e. inr ((validate_https_url_iff go (b ∷ url)).0 e),
    λ h. elim h [ inl e ↦ ground (arith, e) | inr e ↦ (validate_https_url_iff go (b ∷ url)).1 e ],
  )

  arguments_iff :
      (as' : List Str) → All (λ a. is_blank go a ≡ false) as' ↔ All (λ a. go.trim_space a ≢ []) as'
  arguments_iff =
      same_for_each (λ a. is_blank go a ≡ false) (λ a. go.trim_space a ≢ []) (blank_iff go)

  parsers_iff :
      (names : List Str)
      → All (λ name. not (supported name) ≡ false) names
        ↔ All (IsOneOf (bytes "claude" ∷ bytes "opencode" ∷ [])) names
  parsers_iff =
      same_for_each (λ name. not (supported name) ≡ false)
        (IsOneOf (bytes "claude" ∷ bytes "opencode" ∷ [])) supported_iff

  runnable : (c : Config) → validate go c ≡ none → IsRunnable c
  unfolding validate validate_cloudflare validate_experimental validate_ui
  runnable c e =
      let (server, (cloudflare, (herdr, (experimental, (ui, _))))) = (first_fault-All _).0 e in
      let (binary, (grace, (tokens, (url, (mode, _))))) = (first_fault-All _).0 cloudflare in
      let (parsers, (some_parser, (turns, _))) = (first_fault-All _).0 experimental in
      let (theme, (font, _)) = (first_fault-All _).0 ui in
      record {
        server = (server-IsServer c.server).0 server;
        has_binary = (fault_empty-none c.cloudflare.binary _).0 binary;
        grace = (check_duration-IsDuration _ _ _).0 grace;
        token_arguments =
            (arguments_iff _).0 ((check_all-All _ _ c.cloudflare.token_command).0 tokens);
        https = (https_lem c.cloudflare.public_url).0 url;
        front = IsFront-of c.cloudflare.mode c.cloudflare c.access mode;
        herdr = (herdr-IsHerdr c.herdr).0 herdr;
        parsers =
            (parsers_iff _).0 ((check_all-All _ _ c.experimental.agent_output_parsers).0 parsers);
        parses_some = (parses_iff _ _).0 ((fault_if-none _ _).0 some_parser);
        turns = (in_bounds_lem 1 500 _ _ (omega arith)).0 turns;
        theme = (mem_iff c.ui.theme _).0 ((fault_unless-none _ _).0 theme);
        font = (in_bounds_lem 8 72 _ _ (omega arith)).0 font;
      }

  runnable_accepted : (c : Config) → IsRunnable c → validate go c ≡ none
  unfolding validate validate_cloudflare validate_experimental validate_ui
  runnable_accepted c h = (first_fault-All _).1 (
    (server-IsServer c.server).1 h.server,
    (
      (first_fault-All _).1 (
        (fault_empty-none c.cloudflare.binary _).1 h.has_binary,
        (
          (check_duration-IsDuration _ _ _).1 h.grace,
          (
            (check_all-All _ _ c.cloudflare.token_command).1
                ((arguments_iff c.cloudflare.token_command).1 h.token_arguments),
            (
              (https_lem c.cloudflare.public_url).1 h.https,
              (front_accepted c.cloudflare.mode c.cloudflare c.access h.front, tt),
            ),
          ),
        ),
      ),
      (
        (herdr-IsHerdr c.herdr).1 h.herdr,
        (
          (first_fault-All _).1 (
            (check_all-All _ _ c.experimental.agent_output_parsers).1
                ((parsers_iff c.experimental.agent_output_parsers).1 h.parsers),
            (
              (fault_if-none _ _).1
                  ((parses_iff _ c.experimental.agent_output_parsers).1 h.parses_some),
              ((in_bounds_lem 1 500 _ _ (omega arith)).1 h.turns, tt),
            ),
          ),
          (
            (first_fault-All _).1 (
              (fault_unless-none _ _).1 ((mem_iff c.ui.theme _).1 h.theme),
              ((in_bounds_lem 8 72 _ _ (omega arith)).1 h.font, tt),
            ),
            tt,
          ),
        ),
      ),
    ),
  )

  -- `Validate` finds no fault exactly in a configuration of this kind. Its origin is on the loopback
  -- address, its port and durations, poll intervals, turns and font size are within their bounds and
  -- in order, its binary is named and no argument of a token command is blank. A public URL is an
  -- `https` one with a host and no user; the theme and the parsers are known ones, with at least one
  -- parser if parsing is on. Its front door is one of three: named, with a public URL, one credential
  -- strategy and Cloudflare Access on, with a team domain, an audience, well-formed identities and
  -- one of them at least unless that is waived; external, likewise but with no credential strategy; or
  -- quick and enabled.
  pub validate-IsRunnable : (c : Config) → (validate go c ≡ none) ↔ IsRunnable c
  validate-IsRunnable c = (runnable c, runnable_accepted c)

-- ===== src/Config/Validation.antt =====
-- `Validate` of internal/config/config.go: `none`, or the first fault found.
use herdr_phone.Base.{
  ℕ, ◌==◌, ℤ, is_positive, to_nat, List, [], ◌∷◌, ◌++◌, Bool, true, false, not, ◌&&◌, ◌||◌, Option,
  none, some, ltb, leb, Str, bytes, str_eq, contains, if◌then◌else◌, length,
}
use herdr_phone.Config.Model.{
  Server, Cloudflare, Access, Herdr, Ui, Experimental, Config, Field, session_ttl_field,
  idle_lock_field, grace_period_field, jwks_ttl_field, poll_hot_field, poll_cold_field, Fault,
  not_positive, too_long, host_not_loopback, port_out_of_range, idle_exceeds_session, no_binary,
  empty_token_argument, bad_public_url, unknown_mode, quick_not_enabled, access_disabled,
  no_public_url, has_strategy, strategy_count, no_team_domain, bad_team_domain, no_audience,
  bad_identity, no_identity_gate, poll_too_short, cold_below_hot, unknown_theme, font_out_of_range,
  unknown_parser, no_parsers, turns_out_of_range, Url, Go, mode_named, mode_quick, mode_external,
  loopback_host, supported, mem,
}

-- The checks of a function in their order: the first fault that one of them finds.
unfoldable pub first_fault : List (Option Fault) → Option Fault
first_fault [] = none
first_fault (none ∷ checks) = first_fault checks
first_fault (some e ∷ checks) = some e

abbrev pub fault_if : Bool → Fault → Option Fault
fault_if true e = some e
fault_if false e = none

abbrev pub is_empty {ℓ} : {A : Type ℓ} → List A → Bool
is_empty [] = true
is_empty (a ∷ rest) = false

abbrev pub max_duration : ℕ
max_duration = 2_592_000_000_000_000

abbrev pub max_grace_period : ℕ
max_grace_period = 300_000_000_000

abbrev pub max_poll_interval : ℕ
max_poll_interval = 600_000_000_000

abbrev pub min_poll_hot : ℕ
min_poll_hot = 250_000_000

unfoldable pub check_duration : Field → ℤ → ℕ → Option Fault
check_duration f d max = first_fault (
    fault_if (not (is_positive d)) (not_positive f)
    ∷ fault_if (ltb max (to_nat d)) (too_long f)
    ∷ [])

abbrev pub in_bounds : ℕ → ℕ → ℤ → Bool
in_bounds lo hi n = is_positive n && leb lo (to_nat n) && leb (to_nat n) hi

unfoldable pub validate_server : Server → Option Fault
validate_server s = first_fault (
    fault_if (not (str_eq s.host loopback_host)) host_not_loopback
    ∷ fault_if (not (in_bounds 1 65_535 s.port)) port_out_of_range
    ∷ check_duration session_ttl_field s.session_ttl max_duration
    ∷ check_duration idle_lock_field s.idle_lock max_duration
    ∷ fault_if (ltb (to_nat s.session_ttl) (to_nat s.idle_lock)) idle_exceeds_session
    ∷ [])

abbrev pub one_if : Bool → Str → List Str
one_if true s = s ∷ []
one_if false s = []

unfoldable pub credential_strategies : Cloudflare → List Str
credential_strategies c =
    one_if
      (not (is_empty c.config_file) || not (is_empty c.credentials_file) || not (is_empty c.tunnel))
      (bytes "config/credentials")
    ++ one_if (not (is_empty c.token_file)) (bytes "token file")
    ++ one_if (not (is_empty c.token_command)) (bytes "token command")

-- `strings.ContainsAny`.
unfoldable pub has_any : List ℕ → Str → Bool
has_any bs [] = false
has_any bs (b ∷ s) = if elem b bs then true else has_any bs s
  where
    elem : ℕ → List ℕ → Bool
    elem b [] = false
    elem b (c ∷ cs) = if b == c then true else elem b cs

unfoldable pub contains_control : Str → Bool
contains_control [] = false
contains_control (b ∷ s) = if ltb b 32 || b == 127 then true else contains_control s

unfoldable pub validate_team_domain : Str → Option Fault
validate_team_domain s = first_fault (
    fault_if (has_any (47 ∷ 32 ∷ 9 ∷ []) s || contains (bytes "://") s) bad_team_domain
    ∷ fault_if (not (contains (bytes ".") s)) bad_team_domain
    ∷ [])

unfoldable pub check_all : {A : Type 0} → (A → Bool) → Fault → List A → Option Fault
check_all bad e [] = none
check_all bad e (a ∷ rest) = if bad a then some e else check_all bad e rest

unfoldable pub validate_herdr : Herdr → Option Fault
validate_herdr h = first_fault (
    check_duration poll_hot_field h.poll_hot max_poll_interval
    ∷ fault_if (ltb (to_nat h.poll_hot) min_poll_hot) poll_too_short
    ∷ check_duration poll_cold_field h.poll_cold max_poll_interval
    ∷ fault_if (ltb (to_nat h.poll_cold) (to_nat h.poll_hot)) cold_below_hot
    ∷ [])

unfoldable pub validate_ui : Ui → Option Fault
validate_ui u = first_fault (
    fault_if (not (mem u.theme (bytes "system" ∷ bytes "light" ∷ bytes "dark" ∷ []))) unknown_theme
    ∷ fault_if (not (in_bounds 8 72 u.terminal_font_size)) font_out_of_range
    ∷ [])

unfoldable pub validate_experimental : Experimental → Option Fault
validate_experimental e = first_fault (
    check_all (λ name. not (supported name)) unknown_parser e.agent_output_parsers
    ∷ fault_if (e.agent_output_parsing && is_empty e.agent_output_parsers) no_parsers
    ∷ fault_if (not (in_bounds 1 500 e.max_interpreted_turns)) turns_out_of_range
    ∷ [])

-- `ParsesAgentKind`.
unfoldable pub parses_agent_kind : Experimental → Str → Bool
parses_agent_kind e kind =
    if not e.agent_output_parsing || is_empty kind then false else mem kind e.agent_output_parsers

module _ (go : Go) where
  abbrev pub is_blank : Str → Bool
  is_blank s = is_empty (go.trim_space s)

  abbrev pub bad_url : Option Url → Bool
  bad_url none = true
  bad_url (some u) =
      not (str_eq u.scheme (bytes "https"))
      || (is_empty u.url_host || is_empty u.hostname)
      || u.has_user

  unfoldable pub validate_https_url : Str → Option Fault
  validate_https_url raw = fault_if (bad_url (go.parse_url raw)) bad_public_url

  abbrev pub is_bad_identity : Str → Bool
  is_bad_identity id = is_blank id || (ltb 320 (go.rune_count id) || contains_control id)

  unfoldable pub validate_access : Access → Option Fault
  validate_access a = first_fault (
      check_duration jwks_ttl_field a.jwks_ttl max_duration
      ∷ fault_if (is_empty a.team_domain) no_team_domain
      ∷ validate_team_domain a.team_domain
      ∷ fault_if (is_blank a.audience) no_audience
      ∷ check_all is_bad_identity bad_identity a.allowed_identities
      ∷ [])

  abbrev pub any_named : List Str → Bool
  any_named [] = false
  any_named (id ∷ ids) = if not (is_blank id) then true else any_named ids

  unfoldable pub has_identity_allowlist : Access → Bool
  has_identity_allowlist a = any_named a.allowed_identities

  unfoldable pub validate_identity_gate : Access → Option Fault
  validate_identity_gate a =
      fault_if (not (has_identity_allowlist a || a.allow_any_identity)) no_identity_gate

  unfoldable pub validate_external : Cloudflare → Access → Option Fault
  validate_external c a = first_fault (
      fault_if (not a.enabled) access_disabled
      ∷ fault_if (is_empty c.public_url) no_public_url
      ∷ fault_if (not (is_empty (credential_strategies c))) has_strategy
      ∷ validate_access a
      ∷ validate_identity_gate a
      ∷ [])

  unfoldable pub validate_named : Cloudflare → Access → Option Fault
  validate_named c a = first_fault (
      fault_if (not a.enabled) access_disabled
      ∷ fault_if (is_empty c.public_url) no_public_url
      ∷ fault_if (not (length (credential_strategies c) == 1))
          (strategy_count (length (credential_strategies c)))
      ∷ validate_access a
      ∷ validate_identity_gate a
      ∷ [])

  unfoldable pub validate_mode : Str → Cloudflare → Access → Option Fault
  validate_mode mode c a =
      if str_eq mode mode_named
      then validate_named c a
      else if str_eq mode mode_external
      then validate_external c a
      else if str_eq mode mode_quick
      then fault_if (not c.quick_enabled) quick_not_enabled
      else some unknown_mode

  unfoldable pub validate_cloudflare : Cloudflare → Access → Option Fault
  validate_cloudflare c a = first_fault (
      fault_if (is_empty c.binary) no_binary
      ∷ check_duration grace_period_field c.grace_period max_grace_period
      ∷ check_all is_blank empty_token_argument c.token_command
      ∷ (if is_empty c.public_url then none else validate_https_url c.public_url)
      ∷ validate_mode c.mode c a
      ∷ [])

  unfoldable pub validate : Config → Option Fault
  validate c = first_fault (
      validate_server c.server
      ∷ validate_cloudflare c.cloudflare c.access
      ∷ validate_herdr c.herdr
      ∷ validate_experimental c.experimental
      ∷ validate_ui c.ui
      ∷ [])

-- ===== src/Tunnel/Config.antt =====
-- The configuration of internal/tunnel/mode.go and the argument vector of args.go. `net` and decimal
-- printing are the fields of `Net`; a duration that is not positive is 0.
use herdr_phone.Base.{
  ℕ, ◌==◌, ℤ, is_positive, to_nat, List, [], ◌∷◌, ◌++◌, Bool, true, false, not, ◌&&◌, ◌||◌, Option,
  none, some, leb, Str, bytes, str_eq, if◌then◌else◌, length,
}

pub data Mode : Type 0 where
  named quick no_mode : Mode
  other_mode : Str → Mode

pub data Strategy : Type 0 where
  by_config by_credentials by_token_file by_token_command no_strategy : Strategy
  other_strategy : Str → Strategy

pub record Config : Type 0 where
  pub mode : Mode
  pub binary : Str
  pub loopback_port : ℤ
  pub public_url : Str
  pub strategy : Strategy
  pub config_file : Str
  pub credentials_file : Str
  pub tunnel : Str
  pub token_file : Str
  pub token_command : List Str
  pub quick_enabled : Bool
  pub grace_period : ℕ
  pub stability_window : ℕ
  pub metrics_addr : Str

pub data ConfigError : Type 0 where
  port_out_of_range metrics_not_loopback quick_not_enabled mode_missing unknown_mode : ConfigError
  no_public_url unknown_strategy missing_fields : ConfigError
  not_one_strategy : ℕ → ConfigError

pub data Result (A : Type 0) : Type 0 where
  failed : ConfigError → Result A
  valid : A → Result A

pub record Net : Type 0 where
  -- The host of `net.SplitHostPort`, and whether `net.ParseIP` reads a loopback address.
  pub split_host : Str → Option Str
  pub is_loopback_ip : Str → Bool
  pub itoa : ℤ → Str

abbrev or_string : Str → Str → Str
or_string [] d = d
or_string (b ∷ s) d = b ∷ s

abbrev or_duration : ℕ → ℕ → ℕ
or_duration n d = if n == 0 then d else n

unfoldable pub apply_defaults : Config → Config
apply_defaults c = record c {
  binary = or_string c.binary (bytes "cloudflared");
  metrics_addr = or_string c.metrics_addr (bytes "127.0.0.1:0");
  grace_period = or_duration c.grace_period 15_000_000_000;
  stability_window = or_duration c.stability_window 45_000_000_000;
}

abbrev pub is_empty {ℓ} : {A : Type ℓ} → List A → Bool
is_empty [] = true
is_empty (a ∷ rest) = false

abbrev pub one_if : Bool → Strategy → List Strategy
one_if true s = s ∷ []
one_if false s = []

-- The strategies whose fields are filled in.
abbrev pub found_strategies : Config → List Strategy
found_strategies c =
    one_if (not (is_empty c.config_file)) by_config
    ++ one_if (not (is_empty c.credentials_file) || not (is_empty c.tunnel)) by_credentials
    ++ one_if (not (is_empty c.token_file)) by_token_file
    ++ one_if (not (is_empty c.token_command)) by_token_command

abbrev pub the_one : List Strategy → Result Strategy
the_one (s ∷ []) = valid s
the_one ss = failed (not_one_strategy (length ss))

abbrev pub resolve_from : Strategy → List Strategy → Result Strategy
resolve_from no_strategy ss = the_one ss
resolve_from (other_strategy s) ss = failed unknown_strategy
resolve_from s ss = valid s

unfoldable pub resolve_strategy : Config → Result Strategy
resolve_strategy c = resolve_from c.strategy (found_strategies c)

abbrev pub filled : Bool → Config → Result Config
filled true c = valid c
filled false c = failed missing_fields

unfoldable pub validate_strategy : Config → Strategy → Result Config
validate_strategy c by_config = filled (not (is_empty c.config_file)) c
validate_strategy c by_credentials =
    filled (not (is_empty c.credentials_file || is_empty c.tunnel)) c
validate_strategy c by_token_file = filled (not (is_empty c.token_file)) c
validate_strategy c by_token_command = filled (not (is_empty c.token_command)) c
validate_strategy c no_strategy = failed unknown_strategy
validate_strategy c (other_strategy s) = failed unknown_strategy

abbrev pub with_strategy : Config → Result Strategy → Result Config
with_strategy c (failed e) = failed e
with_strategy c (valid s) =
    if is_empty c.public_url
    then failed no_public_url
    else validate_strategy (record c { strategy = s }) s

unfoldable pub validate_mode : Config → Mode → Result Config
validate_mode c quick = if not c.quick_enabled then failed quick_not_enabled else valid c
validate_mode c named = with_strategy c (resolve_strategy c)
validate_mode c no_mode = failed mode_missing
validate_mode c (other_mode m) = failed unknown_mode

abbrev pub port_in_range : ℤ → Bool
port_in_range p = is_positive p && leb (to_nat p) 65_535

unfoldable pub uses_token_command : Config → Bool
uses_token_command c = elim c.mode [
  | named ↦ elim c.strategy [ by_token_command ↦ true | _ ↦ false ]
  | _ ↦ false
]

module _ (lib : Net) where
  unfoldable pub metrics_addr_is_loopback : Str → Bool
  metrics_addr_is_loopback addr = elim (lib.split_host addr) [
    | none ↦ false
    | some host ↦ if str_eq host (bytes "localhost") then true else lib.is_loopback_ip host
  ]

  abbrev pub validate_defaulted : Config → Result Config
  validate_defaulted c =
      if not (port_in_range c.loopback_port)
      then failed port_out_of_range
      else if not (metrics_addr_is_loopback c.metrics_addr)
      then failed metrics_not_loopback
      else validate_mode c c.mode

  -- `Validate`, which changes its receiver: the configuration it leaves if it succeeds.
  unfoldable pub validate : Config → Result Config
  validate c = validate_defaulted (apply_defaults c)

  abbrev loopback_origin_url : ℤ → Str
  loopback_origin_url port = bytes "http://127.0.0.1:" ++ lib.itoa port

  abbrev common_args : Config → List Str
  common_args c =
      bytes "tunnel"
      ∷ bytes "--no-autoupdate"
      ∷ bytes "--loglevel"
      ∷ bytes "info"
      ∷ bytes "--output"
      ∷ bytes "json"
      ∷ bytes "--metrics"
      ∷ c.metrics_addr
      ∷ []

  abbrev token_args : Str → Option (List Str)
  token_args [] = none
  token_args (b ∷ path) = some (bytes "run" ∷ bytes "--token-file" ∷ (b ∷ path) ∷ [])

  abbrev strategy_args : Config → Strategy → Str → Option (List Str)
  strategy_args c by_config path = some (bytes "--config" ∷ c.config_file ∷ bytes "run" ∷ [])
  strategy_args c by_credentials path =
      some (bytes "run" ∷ bytes "--credentials-file" ∷ c.credentials_file ∷ c.tunnel ∷ [])
  strategy_args c by_token_file path = token_args path
  strategy_args c by_token_command path = token_args path
  strategy_args c no_strategy path = none
  strategy_args c (other_strategy s) path = none

  abbrev mode_args : Config → Mode → Str → Option (List Str)
  mode_args c quick path = some (bytes "--url" ∷ loopback_origin_url c.loopback_port ∷ [])
  mode_args c named path = strategy_args c c.strategy path
  mode_args c no_mode path = none
  mode_args c (other_mode m) path = none

  unfoldable pub build_args : Config → Str → Option (List Str)
  build_args c path = elim (mode_args c c.mode path) [
    | none ↦ none
    | some rest ↦ some (common_args c ++ rest)
  ]

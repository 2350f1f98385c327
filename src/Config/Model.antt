-- ===== src/Config/Model.antt =====
-- The configuration of internal/config/config.go, its defaults, and its faults. Durations are
-- nanoseconds. What the Go library does is in `Go`.
use herdr_phone.Base.{
  ℕ, ℤ, pos, List, [], ◌∷◌, Bool, true, false, Option, Str, bytes, str_eq, if◌then◌else◌,
}

pub record Server : Type 0 where
  pub host : Str
  pub port : ℤ
  pub session_ttl : ℤ
  pub idle_lock : ℤ
  pub allowed_workspace_roots : List Str

pub record Cloudflare : Type 0 where
  pub mode : Str
  pub binary : Str
  pub public_url : Str
  pub config_file : Str
  pub tunnel : Str
  pub credentials_file : Str
  pub token_file : Str
  pub token_command : List Str
  pub quick_enabled : Bool
  pub grace_period : ℤ

pub record Access : Type 0 where
  pub enabled : Bool
  pub team_domain : Str
  pub audience : Str
  pub allowed_identities : List Str
  pub allow_any_identity : Bool
  pub jwks_ttl : ℤ

pub record Herdr : Type 0 where
  pub socket_path : Str
  pub herdr_binary : Str
  pub poll_hot : ℤ
  pub poll_cold : ℤ

pub record Ui : Type 0 where
  pub theme : Str
  pub terminal_font_size : ℤ

pub record Experimental : Type 0 where
  pub agent_output_parsing : Bool
  pub agent_output_parsers : List Str
  pub max_interpreted_turns : ℤ

-- `SourcePath` is left to the caller.
pub record Config : Type 0 where
  pub server : Server
  pub cloudflare : Cloudflare
  pub access : Access
  pub herdr : Herdr
  pub ui : Ui
  pub experimental : Experimental

pub data Field : Type 0 where
  session_ttl_field idle_lock_field grace_period_field jwks_ttl_field : Field
  poll_hot_field poll_cold_field : Field

-- The errors of decoding, expanding and validating.
pub data Fault : Type 0 where
  bad_toml unknown_keys : Fault
  invalid_duration not_positive too_long : Field → Fault
  empty_root unset_variable no_home empty_path : Fault
  host_not_loopback port_out_of_range idle_exceeds_session : Fault
  no_binary empty_token_argument bad_public_url unknown_mode quick_not_enabled : Fault
  access_disabled no_public_url has_strategy : Fault
  strategy_count : ℕ → Fault
  no_team_domain bad_team_domain no_audience bad_identity no_identity_gate : Fault
  poll_too_short cold_below_hot : Fault
  unknown_theme font_out_of_range : Fault
  unknown_parser no_parsers turns_out_of_range : Fault

pub data Result (A : Type 0) : Type 0 where
  failed : Fault → Result A
  done : A → Result A

pub record Url : Type 0 where
  pub scheme : Str
  pub url_host : Str
  pub hostname : Str
  pub has_user : Bool

pub record Go : Type 0 where
  pub parse_duration : Str → Option ℤ
  pub trim_space : Str → Str
  -- `url.Parse`.
  pub parse_url : Str → Option Url
  pub rune_count : Str → ℕ
  -- The names that `os.Expand` looks up in a text, and the text with their values.
  pub expand_names : Str → List Str
  pub expand_text : (Str → Str) → Str → Str
  pub join_path : Str → Str → Str
  pub clean_path : Str → Str

abbrev pub mode_named : Str
mode_named = bytes "named"

abbrev pub mode_quick : Str
mode_quick = bytes "quick"

abbrev pub mode_external : Str
mode_external = bytes "external"

abbrev pub loopback_host : Str
loopback_host = bytes "127.0.0.1"

-- `ParserKinds` and `Supported` of internal/interpret/interpret.go.
abbrev pub parser_kinds : List Str
parser_kinds = bytes "claude" ∷ bytes "opencode" ∷ []

unfoldable pub mem : Str → List Str → Bool
mem s [] = false
mem s (t ∷ ts) = if str_eq t s then true else mem s ts

abbrev pub supported : Str → Bool
supported s = mem s parser_kinds

unfoldable pub default : Config
default = record {
  server = record {
    host = loopback_host;
    port = pos 8787;
    session_ttl = pos 43_200_000_000_000;
    idle_lock = pos 1_800_000_000_000;
    allowed_workspace_roots = bytes "~" ∷ [];
  };
  cloudflare = record {
    mode = mode_named;
    binary = bytes "cloudflared";
    public_url = [];
    config_file = [];
    tunnel = [];
    credentials_file = [];
    token_file = [];
    token_command = [];
    quick_enabled = false;
    grace_period = pos 15_000_000_000;
  };
  access = record {
    enabled = true;
    team_domain = [];
    audience = [];
    allowed_identities = [];
    allow_any_identity = false;
    jwks_ttl = pos 3_600_000_000_000;
  };
  herdr = record {
    socket_path = [];
    herdr_binary = [];
    poll_hot = pos 1_500_000_000;
    poll_cold = pos 12_000_000_000;
  };
  ui = record { theme = bytes "system"; terminal_font_size = pos 13 };
  experimental = record {
    agent_output_parsing = false;
    agent_output_parsers = parser_kinds;
    max_interpreted_turns = pos 60;
  };
}

-- ===== src/Config/Examples.antt =====
-- Configurations of internal/config on concrete values.
use herdr_phone.Base.{
  ℕ, ℤ, pos, negsuc, List, [], ◌∷◌, ◌≡◌, ◌≢◌, ◌↔◌, refl, arith, Bool, true, false, Option, none,
  some, Str, bytes,
}
use herdr_phone.Config.Model.{mem, Config, Fault, failed, done, Go, default, mode_named}
use herdr_phone.Config.Decode.{
  decode_into, apply_to, apply_server, apply_cloudflare, apply_access, apply_herdr, apply_ui,
  apply_experimental,
}
use herdr_phone.Config.Roundtrip.{DurationTexts, raw_of, decode_into-raw_of}
use herdr_phone.Config.Validation.{
  validate, validate_server, validate_cloudflare, validate_herdr, validate_experimental,
  validate_ui, validate_mode, validate_named, validate_access, validate_identity_gate,
  has_identity_allowlist, credential_strategies, validate_https_url, validate_team_domain,
  check_duration, check_all, first_fault, has_any, contains_control,
}
use herdr_phone.Config.Gate.{IsRunnable, validate-IsRunnable}
use herdr_phone.Config.Expand.{load, load_data, expand, expand_roots, expand_path, expand_if_path}
use herdr_phone.Config.Loaded.{load-IsRunnable, load_default}
use herdr_phone.Config.Front.{tunnel_config}
use herdr_phone.Config.Unmixed.{IsUnmixed, validate-tunnel_config}
use herdr_phone.Tunnel.Config.{
  metrics_addr_is_loopback, Net, valid, Config as TunnelConfig, validate as validate_tunnel,
}

-- A duration is printed as one digit, and a second one if it is negative.
abbrev print_duration : ℤ → Str
print_duration (pos n) = n ∷ []
print_duration (negsuc n) = n ∷ 0 ∷ []

abbrev read_duration : Str → Option ℤ
read_duration [] = none
read_duration (n ∷ []) = some (pos n)
read_duration (n ∷ m ∷ s) = some (negsuc n)

reads : (d : ℤ) → read_duration (print_duration d) ≡ some d
reads (pos n) = refl
reads (negsuc n) = refl

abbrev go : Go
go = record {
  parse_duration = read_duration;
  trim_space = λ s. s;
  parse_url =
      λ s. some (record { scheme = bytes "https"; url_host = s; hostname = s; has_user = false });
  rune_count = λ s. 9;
  expand_names = λ s. [];
  expand_text = λ env s. s;
  join_path = λ a b. a;
  clean_path = λ s. s;
}

abbrev net : Net
net = record {
  split_host = λ a. some (bytes "localhost");
  is_loopback_ip = λ a. false;
  itoa = λ n. bytes "8787";
}

-- The locally managed tunnel of the README: a configuration file, credentials, and a tunnel name.
abbrev readme : Config
readme = record default {
  cloudflare = record default.cloudflare {
    public_url = bytes "https://herdr.example.com";
    config_file = bytes "/c.yml";
    credentials_file = bytes "/c.json";
    tunnel = bytes "t";
  };
  access = record default.access {
    team_domain = bytes "a.b";
    audience = bytes "aud";
    allow_any_identity = true;
  };
}

readme_accepted : validate go readme ≡ none
unfolding validate default validate_server validate_cloudflare validate_herdr validate_experimental
    validate_ui validate_mode validate_named validate_access validate_identity_gate
    has_identity_allowlist credential_strategies validate_https_url validate_team_domain
    check_duration check_all first_fault has_any mem herdr_phone.Base.str_eq
    herdr_phone.Base.contains herdr_phone.Base.has_prefix contains_control
readme_accepted = refl

abbrev texts : DurationTexts
texts = record {
  session_ttl = print_duration readme.server.session_ttl;
  idle_lock = print_duration readme.server.idle_lock;
  grace_period = print_duration readme.cloudflare.grace_period;
  jwks_ttl = print_duration readme.access.jwks_ttl;
  poll_hot = print_duration readme.herdr.poll_hot;
  poll_cold = print_duration readme.herdr.poll_cold;
}

decode_into-raw_of_example :
    decode_into go (some (raw_of go texts readme, [])) default ≡ done readme
decode_into-raw_of_example = decode_into-raw_of go texts readme default (record {
  session_ttl = reads readme.server.session_ttl;
  idle_lock = reads readme.server.idle_lock;
  grace_period = reads readme.cloudflare.grace_period;
  jwks_ttl = reads readme.access.jwks_ttl;
  poll_hot = reads readme.herdr.poll_hot;
  poll_cold = reads readme.herdr.poll_cold;
})

validate-IsRunnable_example : (validate go readme ≡ none) ↔ IsRunnable go readme
validate-IsRunnable_example = validate-IsRunnable go readme

abbrev env : Str → Str
env name = bytes "/home"

abbrev loaded : Config
loaded = record readme {
  server = record default.server { allowed_workspace_roots = bytes "/home" ∷ [] };
}

readme-loaded : load go env (some (some (raw_of go texts readme, []))) ≡ done loaded
unfolding validate default validate_server validate_cloudflare validate_herdr validate_experimental
    validate_ui validate_mode validate_named validate_access validate_identity_gate
    has_identity_allowlist credential_strategies validate_https_url validate_team_domain
    check_duration check_all first_fault has_any mem herdr_phone.Base.str_eq
    herdr_phone.Base.contains herdr_phone.Base.has_prefix contains_control load load_data
    decode_into apply_to apply_server apply_cloudflare apply_access apply_herdr apply_ui
    apply_experimental raw_of expand expand_roots expand_path expand_if_path
readme-loaded = refl

load-IsRunnable_example : IsRunnable go loaded
load-IsRunnable_example =
    load-IsRunnable go env (some (some (raw_of go texts readme, []))) loaded readme-loaded

load_default_example : (f : Fault) × (load go env none ≡ failed f)
load_default_example = load_default go env

metrics : metrics_addr_is_loopback net (bytes "127.0.0.1:0") ≡ true
unfolding metrics_addr_is_loopback herdr_phone.Base.str_eq
metrics = refl

readme_named : readme.cloudflare.mode ≡ mode_named
unfolding default
readme_named = refl

validate-tunnel_config_example :
    ((c' : TunnelConfig) × (validate_tunnel net
          (tunnel_config readme readme.cloudflare.mode readme.server.port)
        ≡ valid c'))
    ↔ IsUnmixed readme.cloudflare
validate-tunnel_config_example =
    validate-tunnel_config go net metrics readme readme_accepted readme_named

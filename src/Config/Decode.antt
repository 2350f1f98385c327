-- ===== src/Config/Decode.antt =====
-- What a file may set, and how `applyTo` of internal/config/config.go puts it over a configuration. A
-- key that the file does not have is `none`.
use herdr_phone.Base.{ℤ, List, [], ◌∷◌, Bool, Option, none, some, Str}
use herdr_phone.Config.Model.{
  Server, Cloudflare, Access, Herdr, Ui, Experimental, Config, Field, session_ttl_field,
  idle_lock_field, grace_period_field, jwks_ttl_field, poll_hot_field, poll_cold_field, bad_toml,
  unknown_keys, invalid_duration, Result, failed, done, Go,
}

pub record RawServer : Type 0 where
  pub host : Option Str
  pub port : Option ℤ
  pub session_ttl : Option Str
  pub idle_lock : Option Str
  pub allowed_workspace_roots : Option (List Str)

pub record RawCloudflare : Type 0 where
  pub mode : Option Str
  pub binary : Option Str
  pub public_url : Option Str
  pub config_file : Option Str
  pub tunnel : Option Str
  pub credentials_file : Option Str
  pub token_file : Option Str
  pub token_command : Option (List Str)
  pub quick_enabled : Option Bool
  pub grace_period : Option Str

pub record RawAccess : Type 0 where
  pub enabled : Option Bool
  pub team_domain : Option Str
  pub audience : Option Str
  pub allowed_identities : Option (List Str)
  pub allow_any_identity : Option Bool
  pub jwks_ttl : Option Str

pub record RawHerdr : Type 0 where
  pub socket_path : Option Str
  pub herdr_binary : Option Str
  pub poll_hot : Option Str
  pub poll_cold : Option Str

pub record RawUi : Type 0 where
  pub theme : Option Str
  pub terminal_font_size : Option ℤ

pub record RawExperimental : Type 0 where
  pub agent_output_parsing : Option Bool
  pub agent_output_parsers : Option (List Str)
  pub max_interpreted_turns : Option ℤ

-- `auth.access` is one section here: an `auth` without it sets nothing.
pub record RawConfig : Type 0 where
  pub server : Option RawServer
  pub cloudflare : Option RawCloudflare
  pub access : Option RawAccess
  pub herdr : Option RawHerdr
  pub ui : Option RawUi
  pub experimental : Option RawExperimental

-- `applyString`, and the same for the other types.
abbrev pub apply_value : {A : Type 0} → Option A → A → A
apply_value none a = a
apply_value (some b) a = b

abbrev pub and_then : {A B : Type 0} → Result A → (A → Result B) → Result B
and_then (failed e) k = failed e
and_then (done a) k = k a

abbrev pub apply_section : {R S : Type 0} → (R → S → Result S) → Option R → S → Result S
apply_section apply none s = done s
apply_section apply (some r) s = apply r s

module _ (go : Go) where
  abbrev parsed_duration : Field → Option ℤ → Result ℤ
  parsed_duration f none = failed (invalid_duration f)
  parsed_duration f (some d) = done d

  abbrev pub apply_duration : Field → Option Str → ℤ → Result ℤ
  apply_duration f none d = done d
  apply_duration f (some s) d = parsed_duration f (go.parse_duration s)

  unfoldable pub apply_server : RawServer → Server → Result Server
  apply_server r s = and_then (apply_duration session_ttl_field r.session_ttl s.session_ttl) λ ttl.
      and_then (apply_duration idle_lock_field r.idle_lock s.idle_lock) λ lock. done (record {
        host = apply_value r.host s.host;
        port = apply_value r.port s.port;
        session_ttl = ttl;
        idle_lock = lock;
        allowed_workspace_roots = apply_value r.allowed_workspace_roots s.allowed_workspace_roots;
      })

  unfoldable pub apply_cloudflare : RawCloudflare → Cloudflare → Result Cloudflare
  apply_cloudflare r c =
      and_then (apply_duration grace_period_field r.grace_period c.grace_period) λ grace.
        done (record {
          mode = apply_value r.mode c.mode;
          binary = apply_value r.binary c.binary;
          public_url = apply_value r.public_url c.public_url;
          config_file = apply_value r.config_file c.config_file;
          tunnel = apply_value r.tunnel c.tunnel;
          credentials_file = apply_value r.credentials_file c.credentials_file;
          token_file = apply_value r.token_file c.token_file;
          token_command = apply_value r.token_command c.token_command;
          quick_enabled = apply_value r.quick_enabled c.quick_enabled;
          grace_period = grace;
        })

  unfoldable pub apply_access : RawAccess → Access → Result Access
  apply_access r a = and_then (apply_duration jwks_ttl_field r.jwks_ttl a.jwks_ttl) λ ttl.
      done (record {
        enabled = apply_value r.enabled a.enabled;
        team_domain = apply_value r.team_domain a.team_domain;
        audience = apply_value r.audience a.audience;
        allowed_identities = apply_value r.allowed_identities a.allowed_identities;
        allow_any_identity = apply_value r.allow_any_identity a.allow_any_identity;
        jwks_ttl = ttl;
      })

  unfoldable pub apply_herdr : RawHerdr → Herdr → Result Herdr
  apply_herdr r h = and_then (apply_duration poll_hot_field r.poll_hot h.poll_hot) λ hot.
      and_then (apply_duration poll_cold_field r.poll_cold h.poll_cold) λ cold. done (record {
        socket_path = apply_value r.socket_path h.socket_path;
        herdr_binary = apply_value r.herdr_binary h.herdr_binary;
        poll_hot = hot;
        poll_cold = cold;
      })

  unfoldable pub apply_ui : RawUi → Ui → Result Ui
  apply_ui r u = done (record {
    theme = apply_value r.theme u.theme;
    terminal_font_size = apply_value r.terminal_font_size u.terminal_font_size;
  })

  unfoldable pub apply_experimental : RawExperimental → Experimental → Result Experimental
  apply_experimental r e = done (record {
    agent_output_parsing = apply_value r.agent_output_parsing e.agent_output_parsing;
    agent_output_parsers = apply_value r.agent_output_parsers e.agent_output_parsers;
    max_interpreted_turns = apply_value r.max_interpreted_turns e.max_interpreted_turns;
  })

  unfoldable pub apply_to : RawConfig → Config → Result Config
  apply_to r c = and_then (apply_section apply_server r.server c.server) λ server.
      and_then (apply_section apply_cloudflare r.cloudflare c.cloudflare) λ cloudflare.
        and_then (apply_section apply_access r.access c.access) λ access.
          and_then (apply_section apply_herdr r.herdr c.herdr) λ herdr.
            and_then (apply_section apply_ui r.ui c.ui) λ ui.
              and_then (apply_section apply_experimental r.experimental c.experimental)
                λ experimental. done (record {
                  server = server;
                  cloudflare = cloudflare;
                  access = access;
                  herdr = herdr;
                  ui = ui;
                  experimental = experimental;
                })

  -- What `toml.Decode` gives: the sections, and the keys that no field takes.
  unfoldable pub decode_into : Option (RawConfig × List Str) → Config → Result Config
  decode_into none c = failed bad_toml
  decode_into (some (raw, [])) c = apply_to raw c
  decode_into (some (raw, key ∷ keys)) c = failed unknown_keys

-- ===== src/Config/Roundtrip.antt =====
-- What a file that sets every key of a configuration is read as.
use herdr_phone.Base.{[], ◌≡◌, refl, some, Str}
use herdr_phone.Config.Model.{Config, done, Go}
use herdr_phone.Config.Decode.{
  RawConfig, apply_server, apply_cloudflare, apply_access, apply_herdr, apply_ui,
  apply_experimental, apply_to, decode_into,
}

-- The texts that a file gives for the durations.
pub record DurationTexts : Type 0 where
  pub session_ttl : Str
  pub idle_lock : Str
  pub grace_period : Str
  pub jwks_ttl : Str
  pub poll_hot : Str
  pub poll_cold : Str

module _ (go : Go) where
  -- Each text is read as the duration of the configuration.
  pub record IsRead (texts : DurationTexts) (c : Config) : Type 0 where
    pub session_ttl : go.parse_duration texts.session_ttl ≡ some c.server.session_ttl
    pub idle_lock : go.parse_duration texts.idle_lock ≡ some c.server.idle_lock
    pub grace_period : go.parse_duration texts.grace_period ≡ some c.cloudflare.grace_period
    pub jwks_ttl : go.parse_duration texts.jwks_ttl ≡ some c.access.jwks_ttl
    pub poll_hot : go.parse_duration texts.poll_hot ≡ some c.herdr.poll_hot
    pub poll_cold : go.parse_duration texts.poll_cold ≡ some c.herdr.poll_cold

  -- A file with every key: `c` but for its durations, which are given as text.
  unfoldable pub raw_of : DurationTexts → Config → RawConfig
  raw_of texts c = record {
    server = some (record {
      host = some c.server.host;
      port = some c.server.port;
      session_ttl = some texts.session_ttl;
      idle_lock = some texts.idle_lock;
      allowed_workspace_roots = some c.server.allowed_workspace_roots;
    });
    cloudflare = some (record {
      mode = some c.cloudflare.mode;
      binary = some c.cloudflare.binary;
      public_url = some c.cloudflare.public_url;
      config_file = some c.cloudflare.config_file;
      tunnel = some c.cloudflare.tunnel;
      credentials_file = some c.cloudflare.credentials_file;
      token_file = some c.cloudflare.token_file;
      token_command = some c.cloudflare.token_command;
      quick_enabled = some c.cloudflare.quick_enabled;
      grace_period = some texts.grace_period;
    });
    access = some (record {
      enabled = some c.access.enabled;
      team_domain = some c.access.team_domain;
      audience = some c.access.audience;
      allowed_identities = some c.access.allowed_identities;
      allow_any_identity = some c.access.allow_any_identity;
      jwks_ttl = some texts.jwks_ttl;
    });
    herdr = some (record {
      socket_path = some c.herdr.socket_path;
      herdr_binary = some c.herdr.herdr_binary;
      poll_hot = some texts.poll_hot;
      poll_cold = some texts.poll_cold;
    });
    ui =
        some
          (record { theme = some c.ui.theme; terminal_font_size = some c.ui.terminal_font_size });
    experimental = some (record {
      agent_output_parsing = some c.experimental.agent_output_parsing;
      agent_output_parsers = some c.experimental.agent_output_parsers;
      max_interpreted_turns = some c.experimental.max_interpreted_turns;
    });
  }

  -- A file that sets every key, to durations that are read as those of `c` and otherwise to the values
  -- of `c`, and has no unknown key, is read as `c`, whatever it is put over.
  pub decode_into-raw_of :
      (texts : DurationTexts) (c base : Config)
      → IsRead texts c
      → decode_into go (some (raw_of texts c, [])) base ≡ done c
  unfolding decode_into apply_to apply_server apply_cloudflare apply_access apply_herdr apply_ui
      apply_experimental raw_of
  decode_into-raw_of texts c base reads =
      rw
        (
          reads.session_ttl, reads.idle_lock, reads.grace_period, reads.jwks_ttl, reads.poll_hot,
          reads.poll_cold,
        )
        refl

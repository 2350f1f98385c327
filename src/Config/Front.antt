-- ===== src/Config/Front.antt =====
-- The front door of a run: internal/integration/configmap.go, which takes the configuration of
-- internal/config to the one of internal/tunnel.
use herdr_phone.Base.{
  ℤ, to_nat, [], ◌∷◌, Bool, not, ◌&&◌, Option, none, some, Str, str_eq, if◌then◌else◌,
}
use herdr_phone.Config.Model.{Config, mode_named, mode_quick}
use herdr_phone.Tunnel.Config.{
  Mode, named, quick, no_mode, other_mode, no_strategy, Config as TunnelConfig,
}

-- `effectiveMode`; `none` is `errQuickNotEnabled`.
unfoldable pub effective_mode : Config → Bool → Option Str
effective_mode c force_quick =
    if force_quick
    then (if not c.cloudflare.quick_enabled then none else some mode_quick)
    else if str_eq c.cloudflare.mode mode_quick && not c.cloudflare.quick_enabled
    then none
    else some c.cloudflare.mode

-- `tunnel.Mode(mode)`.
unfoldable pub tunnel_mode : Str → Mode
tunnel_mode [] = no_mode
tunnel_mode (b ∷ s) =
    if str_eq (b ∷ s) mode_named
    then named
    else if str_eq (b ∷ s) mode_quick
    then quick
    else other_mode (b ∷ s)

-- `tunnelConfig`, which leaves the strategy and the metrics address to the tunnel's own defaults.
unfoldable pub tunnel_config : Config → Str → ℤ → TunnelConfig
tunnel_config c mode port = record {
  mode = tunnel_mode mode;
  binary = c.cloudflare.binary;
  loopback_port = port;
  public_url = c.cloudflare.public_url;
  strategy = no_strategy;
  config_file = c.cloudflare.config_file;
  credentials_file = c.cloudflare.credentials_file;
  tunnel = c.cloudflare.tunnel;
  token_file = c.cloudflare.token_file;
  token_command = c.cloudflare.token_command;
  quick_enabled = c.cloudflare.quick_enabled;
  grace_period = to_nat c.cloudflare.grace_period;
  stability_window = 45_000_000_000;
  metrics_addr = [];
}

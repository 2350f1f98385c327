-- ===== src/Tunnel/Examples.antt =====
-- Runs of internal/tunnel on concrete configurations and turns.
use herdr_phone.Base.{
  ℕ, ◌+◌, ◌≤◌, ◌==◌, ℤ, pos, List, [], ◌∷◌, ◌++◌, ◌≡◌, ◌≢◌, ◌↔◌, ◌⊎◌, inl, inr, refl, arith, Bool,
  true, false, Option, none, some, Str, bytes, if◌then◌else◌,
}
use herdr_phone.Tunnel.Config.{
  Config, named, no_strategy, by_credentials, valid, Net, validate, apply_defaults, build_args,
  resolve_strategy, validate_mode, validate_strategy, metrics_addr_is_loopback,
}
use herdr_phone.Tunnel.Validate.{IsStartable, validate_lem, validate-build_args, token_path}
use herdr_phone.Tunnel.Logs.{add_all, new_ring_buffer, last, nonempty, add_all-nonempty}
use herdr_phone.Tunnel.Supervisor.{
  Turn, Backoff, prepared, running, exited, exited_ready, supervise, new_supervisor,
}
use herdr_phone.Tunnel.Leftovers.{failed_removals}
use herdr_phone.Tunnel.Restarts.{supervise_returns, supervise-Left, Left}
use herdr_phone.Tunnel.Orphan.{
  Host, PidRecord, read_pid_record, reconcile_orphan, IsReconciled, reconcile_orphan_lem,
}

abbrev net : Net
net = record {
  split_host = λ a. some (bytes "localhost");
  is_loopback_ip = λ a. false;
  itoa = λ n. bytes "8080";
}

abbrev config : Config
config = record {
  mode = named;
  binary = [];
  loopback_port = pos 8080;
  public_url = bytes "https://phone.example";
  strategy = no_strategy;
  config_file = [];
  credentials_file = bytes "c.json";
  tunnel = bytes "t";
  token_file = [];
  token_command = [];
  quick_enabled = false;
  grace_period = 0;
  stability_window = 0;
  metrics_addr = [];
}

abbrev validated : Config
validated = record (apply_defaults config) { strategy = by_credentials }

is_validated : validate net config ≡ valid validated
unfolding validate resolve_strategy validate_mode validate_strategy metrics_addr_is_loopback
    apply_defaults herdr_phone.Base.str_eq
is_validated = refl

validate_lem_example : (validate net config ≡ valid validated) ↔ IsStartable net config validated
validate_lem_example = validate_lem net config validated

validate-build_args_example :
    (args : List Str) × (build_args net validated (token_path net validated (bytes "/tmp/t"))
      ≡ some args)
validate-build_args_example =
    validate-build_args net config validated (bytes "/tmp/t") is_validated (λ e. ground (arith, e))

add_all-nonempty_example :
    (add_all (new_ring_buffer 2) (bytes "a" ∷ [] ∷ bytes "b" ∷ bytes "c" ∷ [])).lines
    ≡ last 2 (nonempty (bytes "a" ∷ [] ∷ bytes "b" ∷ bytes "c" ∷ []))
add_all-nonempty_example = add_all-nonempty 2 (bytes "a" ∷ [] ∷ bytes "b" ∷ bytes "c" ∷ [])

-- The child exits at once, or a second after it is ready.
abbrev crash : Turn
crash = record {
  stop_at_top = false;
  token = prepared;
  token_removed = true;
  start = running 7;
  wait = exited none;
  stop_after = false;
  stop_failing = false;
}

abbrev flap : Turn
flap = record crash { wait = exited_ready (bytes "https://phone.example") 1_000_000_000 none }

abbrev turns : List Turn
turns = crash ∷ flap ∷ crash ∷ []

abbrev doubled : Backoff → ℕ
doubled b = 1_000_000_000 + b.attempt

supervise_returns_example :
    (supervise doubled true (new_supervisor true 3 45_000_000_000) turns).1 ≡ true
supervise_returns_example =
    supervise_returns doubled true true 3 45_000_000_000 turns (omega arith) (omega arith)
      (inr (inr tt), (inr (inr (omega arith)), (inr (inr tt), tt)))

supervise-Left_example :
    Left true true 45_000_000_000 3 turns
      (supervise doubled true (new_supervisor true 3 45_000_000_000) turns).0
    × ((supervise doubled true (new_supervisor true 3 45_000_000_000) turns).0.tokens_left
        ≤ failed_removals turns)
supervise-Left_example =
    supervise-Left doubled true true 3 45_000_000_000 turns supervise_returns_example

abbrev host : Host
host = record {
  read_json =
      λ s. some (record { pid = 7; binary = bytes "/bin/cloudflared"; created_unix_ms = 5000 });
  alive = λ p. true;
  comm = λ p. some (bytes "/bin/cloudflared run");
  start_ms = λ p. some 4000;
  trim_space = λ s. s;
  base = λ s. s;
}

reconcile_orphan_lem_example :
    ((read_pid_record host (some []) ≡ none)
      × (reconcile_orphan host true (some []) (true ∷ []) ≡ (some [], [])))
    ⊎ ((rec : PidRecord) × (read_pid_record host (some []) ≡ some rec)
        × IsReconciled host true
            (some [])
            rec
            (true ∷ [])
            (reconcile_orphan host true (some []) (true ∷ [])))
reconcile_orphan_lem_example = reconcile_orphan_lem host true (some []) (true ∷ [])

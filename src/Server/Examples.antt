-- ===== src/Server/Examples.antt =====
-- A destructive operation end to end through the handlers of internal/server/mutations.go: a pane
-- is closed. Its params are written as the pane id itself. Then a run is read by runs.go.
use herdr_phone.Base.{
  ℕ, ◌+◌, ◌≤◌, [], ◌∷◌, ◌++◌, ◌≡◌, ◌≢◌, refl, true, false, Option, some, arith, Str, bytes, str_eq,
  lookup, insert, prune, none, if◌then◌else◌, IsMap,
}
use herdr_phone.Base.Assoc.{mentions}
use herdr_phone.Stores.Nonces.{issue, consume, nonce_matches}
use herdr_phone.Stores.Idem.{idem_key, reserve, peek}
use herdr_phone.Stores.IdemHistory.{releases, run}
use herdr_phone.Server.Operations.{OpSpec, operations, generation_checked, confirmable}
use herdr_phone.Server.Mutations.{
  MutationRequest, Config, RequestIdentity, Library, MutationResponse, accepted, rejected, raw,
  replayed, Moment, Server, Ticket, refused, admitted, reservation_ttl, normalize_params,
  param_string, divergent_alt, request_fingerprint, confirm, after_reserve, reserve_key,
  check_deadline, at_generation, check_generation, check_target, ticket, after_peek, peek_key,
  admit_params, admit_operation, admit,
}
use herdr_phone.Server.Confirmations.{
  ConfirmationRequest, issued, Draw, issue_nonce, confirm_generation, mismatched, confirm_resource,
  handle_confirmations,
}
use herdr_phone.Server.Granted.{
  IsGranted, OnlyAdds, IsConfirmed, handle_confirmations-IsGranted, confirm-handle_confirmations,
}
use herdr_phone.Server.Replays.{Stops, admit-admit}
use herdr_phone.Server.Finish.{succeeded, finish}
use herdr_phone.State.Runs.{Run}
use herdr_phone.Server.Runs.{
  RunConfig, run_defaults, RunQuery, PaneRead, ReadResult, read_content, handle_run,
}
use herdr_phone.Server.RunReads.{IsGuarded, handle_run-IsGuarded}
use herdr_phone.Server.Outcomes.{Ends, finish-Ends, admit-finish}

abbrev joined : MutationResponse → Str
joined (accepted id result) = id ++ result
joined (rejected id code retryable) = id

abbrev codec : Library
codec = record {
  canonical = λ s. some s;
  string_field = λ s field. if str_eq field (bytes "pane_id") then s else [];
  hash = λ s. s;
  decimal = λ n. n ∷ [];
  encode = joined;
}

abbrev config : Config
config = record {
  server_mutation_deadline = 10_000_000_000;
  deadline_skew = 1_000_000_000;
  idempotency_ttl = 300_000_000_000;
  confirmation_ttl = 60_000_000_000;
}

abbrev phone : RequestIdentity
phone = record { session_id = bytes "s1"; subject = bytes "a@b.c" }

abbrev idle : Server
idle = record { nonces = []; idem = []; audit = []; dispatched = [] }

abbrev asked : ConfirmationRequest
asked = record {
  operation = bytes "pane.close";
  resource_id = bytes "w1:p1";
  expected_generation = 3;
  params = bytes "w1:p1";
}

abbrev panes : Str → Option ℕ
panes pane = some 3

abbrev draw : Draw
draw = record { token = bytes "t"; issue_at = 100; sweep_at = 100; generation = panes }

abbrev close : MutationRequest
close = record {
  request_id = bytes "r1";
  operation = bytes "pane.close";
  deadline_unix_ms = 0;
  expected_generation = 3;
  confirmation = bytes "t";
  params = bytes "w1:p1";
}

abbrev at : ℕ → Moment
at now = record {
  peek_at = now;
  check_at = now;
  reserve_at = now;
  reserve_later = now;
  expired_before_dispatch = false;
  consume_at = now;
  generation = panes;
}

abbrev offered : Server
offered = (handle_confirmations codec config idle phone asked draw).0

handle_confirmations_issued :
    handle_confirmations codec config idle phone asked draw
    ≡ (offered, issued (bytes "t") 60_000_000_100)
unfolding handle_confirmations confirm_resource lookup confirmable str_eq mismatched param_string
    divergent_alt generation_checked confirm_generation issue_nonce normalize_params issue
handle_confirmations_issued = refl

handle_confirmations-IsGranted_example :
    IsGranted codec config idle phone asked draw
      (handle_confirmations codec config idle phone asked draw)
    × OnlyAdds codec idle draw (handle_confirmations codec config idle phone asked draw)
handle_confirmations-IsGranted_example =
    handle_confirmations-IsGranted codec config idle phone asked draw tt

abbrev close_spec : OpSpec
close_spec = record {
  resource_field = bytes "pane_id";
  alt_resource_field = [];
  requires_confirmation = true;
}

abbrev closing : Ticket
closing = ticket codec phone close close_spec (bytes "w1:p1")

abbrev running : Server
running = (admit codec config offered phone close (at 200)).0

admit-closing : admit codec config offered phone close (at 200) ≡ (running, admitted closing)
unfolding admit admit_operation admit_params lookup operations str_eq normalize_params peek_key peek
    after_peek check_target divergent_alt param_string check_generation generation_checked
    at_generation check_deadline reserve_key reserve prune after_reserve confirm consume
    handle_confirmations confirm_resource confirmable mismatched confirm_generation issue_nonce
    issue insert nonce_matches reservation_ttl idem_key request_fingerprint
admit-closing = refl

closing-IsConfirmed : IsConfirmed codec phone asked (bytes "t") closing
unfolding normalize_params param_string str_eq
closing-IsConfirmed = (refl, λ norm h. ground (arith, h))

confirm-handle_confirmations_example :
    ((confirm codec offered closing (at 200)).1 ≡ admitted closing)
    × ((confirm codec offered closing (at 200)).0.dispatched
        ≡ (bytes "pane.close", bytes "w1:p1") ∷ offered.dispatched)
confirm-handle_confirmations_example =
    confirm-handle_confirmations codec config idle offered phone asked draw (bytes "t")
      60_000_000_100 closing (at 200) handle_confirmations_issued closing-IsConfirmed (omega arith)

running-IsMap : IsMap running.idem
unfolding admit admit_operation admit_params lookup operations str_eq normalize_params peek_key peek
    after_peek check_target divergent_alt param_string check_generation generation_checked
    at_generation check_deadline reserve_key reserve prune after_reserve confirm consume
    handle_confirmations confirm_resource confirmable mismatched confirm_generation issue_nonce
    issue insert nonce_matches reservation_ttl idem_key request_fingerprint mentions
running-IsMap = (refl, tt)

key_differs : idem_key (bytes "s1") (bytes "r1") ≢ bytes "other"
unfolding idem_key
key_differs h = ground (arith, h)

in_time : 300 ≤ 200 + reservation_ttl config
unfolding reservation_ttl
in_time = omega arith

admit-admit_example :
    Stops
      (record running { idem = run running.idem (releases (bytes "other") ∷ []) })
      (admit codec config
        (record running { idem = run running.idem (releases (bytes "other") ∷ []) })
        phone
        close
        (at 300))
admit-admit_example =
    admit-admit codec config offered running
      (record running { idem = run running.idem (releases (bytes "other") ∷ []) }) phone phone close
      close (at 200) (at 300) closing (releases (bytes "other") ∷ []) admit-closing running-IsMap
      refl (key_differs, tt) refl refl in_time in_time

finish-Ends_example :
    Ends codec config running closing
      (succeeded (bytes "ok"))
      400
      (finish codec config running closing (succeeded (bytes "ok")) 400)
finish-Ends_example = finish-Ends codec config running closing (succeeded (bytes "ok")) 400

abbrev ended : Server
ended = (finish codec config running closing (succeeded (bytes "ok")) 400).0

close_listed : lookup (bytes "pane.close") operations ≡ some close_spec
unfolding lookup operations str_eq
close_listed = refl

close_valid : normalize_params codec (bytes "w1:p1") ≡ some (bytes "w1:p1")
unfolding normalize_params
close_valid = refl

kept_as_is : ended.idem ≡ run ended.idem []
unfolding run
kept_as_is = refl

admit-finish_example :
    (status : ℕ) × (body : Str) × ((finish codec config running closing
        (succeeded (bytes "ok"))
        400).1
      ≡ raw status body)
    × (admit codec config ended phone close (at 500) ≡ (ended, refused (replayed status body)))
admit-finish_example =
    admit-finish codec config running ended phone close close_spec (bytes "w1:p1")
      (succeeded (bytes "ok")) 400 [] (at 500) refl close_listed close_valid running-IsMap refl
      kept_as_is tt (omega arith)

abbrev run_config : RunConfig
run_config = record { max_run_output_lines = 0; max_run_output_bytes = 3; max_runs = 0 }

abbrev run_query : RunQuery
run_query = record {
  pane_id = bytes "w1:p1";
  expected_generation = bytes "3";
  source = [];
  lines = [];
}

abbrev claude : Run
claude = record {
  run_id = bytes "w1:p1@3";
  pane_id = bytes "w1:p1";
  pane_generation = 3;
  agent_incarnation = [];
  workspace_id = bytes "w1";
  workspace_label = [];
  tab_id = bytes "t1";
  tab_label = [];
  terminal_id = [];
  agent_kind = bytes "claude";
  agent_name = [];
  display_agent = [];
  title = [];
  status = bytes "idle";
  interactive_ready = true;
  launch_pending = false;
  focused = false;
  cwd = [];
  foreground_cwd = [];
  worktree = none;
  revision = 0;
  state_change_seq = 0;
}

-- Four bytes of output, of which the first two are one rune: two are sent.
abbrev read_two : PaneRead → ReadResult
read_two r = read_content (206 ∷ 187 ∷ 10 ∷ 65 ∷ [])

handle_run-IsGuarded_example :
    IsGuarded {P = Str}
      (λ s. s)
      (λ s. s)
      (λ s. some 3)
      (λ s. none)
      (λ k t. [])
      (run_defaults run_config)
      run_query
      panes
      read_two
      (handle_run {P = Str}
        (λ s. s)
        (λ s. s)
        (λ s. some 3)
        (λ s. none)
        (λ k t. [])
        (run_defaults run_config)
        run_query
        panes
        (claude ∷ [])
        read_two)
handle_run-IsGuarded_example =
    handle_run-IsGuarded {P = Str} (λ s. s) (λ s. s) (λ s. some 3) (λ s. none) (λ k t. [])
      run_config run_query panes (claude ∷ []) read_two

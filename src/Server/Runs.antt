-- ===== src/Server/Runs.antt =====
-- `handleRuns` and `handleRun` of internal/server/runs.go, over the runs that internal/state projects.
-- What the query, the state and the interpretation of agent text give are arguments. The result of a
-- handler holds the reads of a pane that it made.
use herdr_phone.Base.{
  ℕ, ◌==◌, ℤ, is_positive, to_nat, List, [], ◌∷◌, Bool, true, false, not, Option, none, some, ltb,
  Str, bytes, str_eq, if◌then◌else◌, length,
}
use herdr_phone.State.Runs.{Run, Worktree}
use herdr_phone.Server.Operations.{
  Code, code_bad_request, code_generation_stale, code_run_unavailable, code_run_read_failed,
  code_deadline_exceeded, code_unavailable, code_unsupported, Upstream, upstream_not_found,
  upstream_invalid_params, upstream_invalid_request, upstream_feature_disabled,
  upstream_platform_unsupported, upstream_plugin_disabled, upstream_incompatible,
  upstream_stream_conflict, upstream_timeout, upstream_connect, upstream_transport,
  upstream_canceled, other, ContextErr, running, deadline_passed, cancelled,
}
use herdr_phone.Server.RunText.{take, bound_observed_text, sanitize_run_field, count_lines}

pub record RunConfig : Type 0 where
  pub max_run_output_lines : ℕ
  pub max_run_output_bytes : ℕ
  pub max_runs : ℕ

-- `withDefaults` of internal/server/server.go, of these fields.
unfoldable pub run_defaults : RunConfig → RunConfig
run_defaults c = record {
  max_run_output_lines = if c.max_run_output_lines == 0 then 400 else c.max_run_output_lines;
  max_run_output_bytes = if c.max_run_output_bytes == 0 then 65_536 else c.max_run_output_bytes;
  max_runs = if c.max_runs == 0 then 200 else c.max_runs;
}

-- A missing value is empty.
pub record RunQuery : Type 0 where
  pub pane_id : Str
  pub expected_generation : Str
  pub source : Str
  pub lines : Str

pub record PaneRead : Type 0 where
  pub pane_id : Str
  pub source : Str
  pub lines : ℕ

pub data ReadResult : Type 0 where
  read_content : Str → ReadResult
  read_failed : ContextErr → Upstream → ReadResult

pub record ObservedPart : Type 0 where
  pub source : Str
  pub lines : ℕ
  pub bytes : ℕ
  pub truncated : Bool
  pub text : Str

pub data RunReply (P : Type 0) : Type 0 where
  run_error : ℕ → Code → RunReply P
  run_found : Run → ObservedPart → List P → RunReply P

-- The `run.read` entries: `none` and a count for "ok".
pub record ReadAudit : Type 0 where
  pub resource : Str
  pub failure : Option Code
  pub bytes : ℕ

pub record Handled (P : Type 0) : Type 0 where
  pub reply : RunReply P
  pub reads : List PaneRead
  pub audit : List ReadAudit

unfoldable pub classify_read_upstream : Upstream → Code × ℕ
classify_read_upstream upstream_not_found = (code_run_unavailable, 404)
classify_read_upstream upstream_invalid_params = (code_bad_request, 400)
classify_read_upstream upstream_invalid_request = (code_bad_request, 400)
classify_read_upstream upstream_feature_disabled = (code_unsupported, 501)
classify_read_upstream upstream_platform_unsupported = (code_unsupported, 501)
classify_read_upstream upstream_plugin_disabled = (code_unsupported, 501)
classify_read_upstream upstream_incompatible = (code_unsupported, 501)
classify_read_upstream upstream_timeout = (code_deadline_exceeded, 504)
classify_read_upstream upstream_connect = (code_unavailable, 503)
classify_read_upstream upstream_transport = (code_unavailable, 503)
classify_read_upstream upstream_canceled = (code_unavailable, 503)
classify_read_upstream upstream_stream_conflict = (code_run_read_failed, 502)
classify_read_upstream other = (code_run_read_failed, 502)

unfoldable pub classify_read_err : ContextErr → Upstream → Code × ℕ
classify_read_err deadline_passed e = (code_deadline_exceeded, 504)
classify_read_err cancelled e = (code_unavailable, 503)
classify_read_err running e = classify_read_upstream e

unfoldable pub is_read_source : Str → Bool
is_read_source s =
    if str_eq s (bytes "visible")
    then true
    else if str_eq s (bytes "recent")
    then true
    else str_eq s (bytes "recent-unwrapped")

abbrev pub or_recent : Str → Str
or_recent [] = bytes "recent-unwrapped"
or_recent (b ∷ s) = b ∷ s

abbrev pub with_worktree : (Str → Str) → Option Worktree → Option Worktree
with_worktree f none = none
with_worktree f (some w) = some (record w {
  repo_name = f w.repo_name;
  repo_root = f w.repo_root;
  checkout_path = f w.checkout_path;
})

module _ {P : Type 0} (sanitize_line : Str → Str) (sanitize_block : Str → Str)
    (parse_uint : Str → Option ℕ) (atoi : Str → Option ℤ)
    (interpreted_parts : Str → Str → List P) where
  unfoldable pub sanitize_run : Run → Run
  sanitize_run run =
      let field = sanitize_run_field sanitize_line sanitize_block in
      record run {
        workspace_label = field run.workspace_label;
        tab_label = field run.tab_label;
        agent_name = field run.agent_name;
        display_agent = field run.display_agent;
        title = field run.title;
        cwd = field run.cwd;
        foreground_cwd = field run.foreground_cwd;
        worktree = with_worktree field run.worktree;
      }

  abbrev sanitize_all : List Run → List Run
  sanitize_all [] = []
  sanitize_all (r ∷ rs) = sanitize_run r ∷ sanitize_all rs

  -- `boundedRuns`.
  unfoldable pub bounded_runs : RunConfig → List Run → List Run × Bool
  bounded_runs cfg runs =
      if ltb cfg.max_runs (length runs)
      then (sanitize_all (take cfg.max_runs runs), true)
      else (sanitize_all runs, false)

  unfoldable pub find_run : Str → List Run → Option Run
  find_run id [] = none
  find_run id (r ∷ rs) = if str_eq r.pane_id id then some (sanitize_run r) else find_run id rs

  abbrev pub refused : ℕ → Code → Handled P
  refused status code = record { reply = run_error status code; reads = []; audit = [] }

  -- After the read of the pane.
  abbrev pub found_reply : RunConfig → Run → PaneRead → Str × Bool → Handled P
  found_reply cfg run r (text, truncated) = record {
    reply =
        run_found run
          (record {
            source = r.source;
            lines = count_lines text;
            bytes = length text;
            truncated = truncated;
            text = text;
          })
          (interpreted_parts run.agent_kind text);
    reads = r ∷ [];
    audit = record { resource = r.pane_id; failure = none; bytes = length text } ∷ [];
  }

  abbrev pub failed_reply : PaneRead → Code × ℕ → Handled P
  failed_reply r (code, status) = record {
    reply = run_error status code;
    reads = r ∷ [];
    audit = record { resource = r.pane_id; failure = some code; bytes = 0 } ∷ [];
  }

  unfoldable pub answer_read : RunConfig → Run → PaneRead → ReadResult → Handled P
  answer_read cfg run r (read_content content) =
      found_reply cfg run r
        (bound_observed_text sanitize_line sanitize_block content cfg.max_run_output_bytes)
  answer_read cfg run r (read_failed ctx e) = failed_reply r (classify_read_err ctx e)

  -- The second guard, on the run that is found.
  unfoldable pub check_run :
      RunConfig → PaneRead → ℕ → Option Run → (PaneRead → ReadResult) → Handled P
  check_run cfg r expected none read_pane = refused 404 code_run_unavailable
  check_run cfg r expected (some run) read_pane =
      if not (run.pane_generation == expected)
      then refused 409 code_generation_stale
      else answer_read cfg run r (read_pane r)

  -- The first guard, on the generation of the pane.
  unfoldable pub check_pane :
      RunConfig → PaneRead → ℕ → Option ℕ → List Run → (PaneRead → ReadResult) → Handled P
  check_pane cfg r expected none runs read_pane = refused 409 code_generation_stale
  check_pane cfg r expected (some gen) runs read_pane =
      if not (gen == expected)
      then refused 409 code_generation_stale
      else check_run cfg r expected (find_run r.pane_id runs) read_pane

  abbrev pub asked_lines : Option ℤ → Option ℕ
  asked_lines none = none
  asked_lines (some n) = if is_positive n then some (to_nat n) else none

  -- The number of lines, 200 where none is asked for.
  unfoldable pub lines_of : Str → Option ℕ
  lines_of [] = some 200
  lines_of (b ∷ s) = asked_lines (atoi (b ∷ s))

  abbrev pub clamp : ℕ → ℕ → ℕ
  clamp max n = if ltb max n then max else n

  abbrev nonzero : Option ℕ → Option ℕ
  nonzero none = none
  nonzero (some n) = if n == 0 then none else some n

  unfoldable pub generation_of : Str → Option ℕ
  generation_of [] = none
  generation_of (b ∷ s) = nonzero (parse_uint (b ∷ s))

  abbrev pub check_lines :
      RunConfig
      → RunQuery
      → ℕ
      → Option ℕ
      → (Str → Option ℕ)
      → List Run
      → (PaneRead → ReadResult)
      → Handled P
  check_lines cfg q expected none generation runs read_pane = refused 400 code_bad_request
  check_lines cfg q expected (some lines) generation runs read_pane =
      check_pane cfg
        (record {
          pane_id = q.pane_id;
          source = or_recent q.source;
          lines = clamp cfg.max_run_output_lines lines;
        })
        expected (generation q.pane_id) runs read_pane

  abbrev pub check_query :
      RunConfig
      → RunQuery
      → Option ℕ
      → (Str → Option ℕ)
      → List Run
      → (PaneRead → ReadResult)
      → Handled P
  check_query cfg q none generation runs read_pane = refused 400 code_generation_stale
  check_query cfg q (some expected) generation runs read_pane =
      if not (is_read_source (or_recent q.source))
      then refused 400 code_bad_request
      else check_lines cfg q expected (lines_of q.lines) generation runs read_pane

  unfoldable pub handle_run :
      RunConfig → RunQuery → (Str → Option ℕ) → List Run → (PaneRead → ReadResult) → Handled P
  handle_run cfg q generation runs read_pane =
      if length q.pane_id == 0
      then refused 400 code_bad_request
      else check_query cfg q (generation_of q.expected_generation) generation runs read_pane

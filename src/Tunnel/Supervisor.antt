-- ===== src/Tunnel/Supervisor.antt =====
-- The supervise loop of internal/tunnel/supervisor.go, with the counter of backoff.go. What each turn
-- of the loop meets is a `Turn`; the delay that backoff.go computes in float64, before its last cap,
-- is the parameter `float_delay`.
use herdr_phone.Base.{
  ℕ, ◌+◌, List, [], ◌∷◌, Bool, true, false, ◌&&◌, Option, none, some, leb, ltb, Str, if◌then◌else◌,
}

pub data State : Type 0 where
  idle starting ready degraded stopped : State

pub record Backoff : Type 0 where
  pub max : ℕ
  pub attempt : ℕ

-- `token_live` says whether a temporary token file waits for its cleanup, `tokens_left` how many stay
-- on disk because `os.Remove` failed, `pidfile` what pid is recorded, and `delays` what `sleep` was
-- called with, the latest first.
pub record Supervisor : Type 0 where
  pub uses_command : Bool
  pub max_consecutive : ℕ
  pub stability_window : ℕ
  pub backoff : Backoff
  pub state : State
  pub url : Str
  pub err : Option Str
  pub was_ready : Bool
  pub consecutive : ℕ
  pub token_live : Bool
  pub tokens_left : ℕ
  pub pidfile : Option ℕ
  pub delays : List ℕ

-- The Boolean says whether the temporary file was there when the error came.
pub data Prepared : Type 0 where
  token_error : Str → Bool → Prepared
  prepared : Prepared

pub data Started : Type 0 where
  start_error : Str → Started
  -- The pid, 0 if it is not available or its record could not be written.
  running : ℕ → Started

-- How the wait for the child ends: it exits before it is ready; the supervisor is stopped before or
-- after that; or it is ready with a URL and exits after some time. An exit may carry an error.
pub data Waited : Type 0 where
  exited : Option Str → Waited
  stopped_early : Waited
  stopped_ready : Str → Waited
  exited_ready : Str → ℕ → Option Str → Waited

-- Three of the Booleans say whether a stop is seen at the top of the loop, after the wait, and in
-- `afterFailure`, and `token_removed` whether `os.Remove` succeeds on the temporary token file.
pub record Turn : Type 0 where
  pub stop_at_top : Bool
  pub token : Prepared
  pub token_removed : Bool
  pub start : Started
  pub wait : Waited
  pub stop_after : Bool
  pub stop_failing : Bool

-- `New`: the option of the maximum, the pieces of the configuration.
unfoldable pub new_supervisor : Bool → ℕ → ℕ → Supervisor
new_supervisor uses max_consecutive stability_window = record {
  uses_command = uses;
  max_consecutive = max_consecutive;
  stability_window = stability_window;
  backoff = record { max = 30_000_000_000; attempt = 0 };
  state = idle;
  url = [];
  err = none;
  was_ready = false;
  consecutive = 0;
  token_live = false;
  tokens_left = 0;
  pidfile = none;
  delays = [];
}

abbrev pub set_state : Supervisor → State → Supervisor
set_state s st = record s { state = st }

abbrev pub set_err : Supervisor → Option Str → Supervisor
set_err s e = record s { err = e }

-- The files that stay on disk, of one that was made.
abbrev pub left_on_disk : Bool → Bool → ℕ
left_on_disk made removed = if made then (if removed then 0 else 1) else 0

-- The cleanup of a temporary token file, whose error is ignored; called again it does nothing.
abbrev pub cleanup : Supervisor → Bool → Supervisor
cleanup s removed = record s {
  token_live = false;
  tokens_left = s.tokens_left + left_on_disk s.token_live removed;
}

abbrev pub graceful_stop : Supervisor → Bool → Supervisor
graceful_stop s removed = cleanup s removed

abbrev pub record_pid : Supervisor → ℕ → Supervisor
record_pid s pid = record s { pidfile = if ltb 0 pid then some pid else s.pidfile }

-- The error of `os.Remove` is ignored.
abbrev pub remove_pid_record : Supervisor → Bool → Supervisor
remove_pid_record s removed = record s { pidfile = if removed then none else s.pidfile }

abbrev pub on_ready : Supervisor → Bool → Str → Supervisor
on_ready s removed url = record (cleanup s removed) {
  url = url;
  state = ready;
  err = none;
  was_ready = true;
}

abbrev pub reset_if_stable : Supervisor → ℕ → Supervisor
reset_if_stable s lifetime =
    if leb s.stability_window lifetime
    then record s { consecutive = 0; backoff = record s.backoff { attempt = 0 } }
    else s

-- `waitAttempt`: whether it returns `errStopped`.
unfoldable pub wait_attempt : Supervisor → Bool → Waited → Supervisor × Bool
wait_attempt s removed (exited e) = (set_err (cleanup s removed) e, false)
wait_attempt s removed stopped_early = (graceful_stop s removed, true)
wait_attempt s removed (stopped_ready url) = (graceful_stop (on_ready s removed url) removed, true)
wait_attempt s removed (exited_ready url lifetime e) =
    (reset_if_stable (on_ready s removed url) lifetime, false)

-- `prepareToken`, which cannot fail unless a token command is used. A file that could not be written
-- is removed again.
unfoldable pub prepare_token : Supervisor → Bool → Prepared → Supervisor × Option Str
prepare_token s removed (token_error e made) =
    if s.uses_command
    then (record s { tokens_left = s.tokens_left + left_on_disk made removed }, some e)
    else (s, none)
prepare_token s removed prepared =
    if s.uses_command then (record s { token_live = true }, none) else (s, none)

module _ (float_delay : Backoff → ℕ) where
  -- `Next` of backoff.go.
  unfoldable pub next_delay : Backoff → Backoff × ℕ
  next_delay b = (
    record b { attempt = b.attempt + 1 },
    if ltb b.max (float_delay b) then b.max else float_delay b,
  )

  abbrev pub sleep_next : Supervisor → Supervisor
  sleep_next s =
      let (b, d) = next_delay s.backoff in
      record s { backoff = b; delays = d ∷ s.delays; state = starting }

  abbrev pub count_failure : Supervisor → Supervisor × Bool
  count_failure s =
      if ltb 0 s.max_consecutive && leb s.max_consecutive s.consecutive
      then (set_state s degraded, true)
      else (sleep_next s, false)

  -- `afterFailure`: whether the loop is done.
  unfoldable pub after_failure : Supervisor → Bool → Supervisor × Bool
  after_failure s stop =
      if stop
      then (set_state s stopped, true)
      else count_failure (record s { consecutive = s.consecutive + 1 })

  unfoldable pub after_wait : Supervisor × Bool → Turn → Supervisor × Bool
  after_wait (s, true) t = (set_state s stopped, true)
  after_wait (s, false) t =
      if t.stop_after then (set_state s stopped, true) else after_failure s t.stop_failing

  unfoldable pub with_child : Supervisor → Turn → Started → Supervisor × Bool
  with_child s t (start_error e) =
      after_failure (set_err (cleanup s t.token_removed) (some e)) t.stop_failing
  with_child s t (running pid) =
      after_wait (wait_attempt (record_pid s pid) t.token_removed t.wait) t

  unfoldable pub with_token : Supervisor × Option Str → Turn → Supervisor × Bool
  with_token (s, some e) t = after_failure (set_err s (some e)) t.stop_failing
  with_token (s, none) t = with_child s t t.start

  -- One turn of the loop of `run`, and whether it returns.
  unfoldable pub run_turn : Supervisor → Turn → Supervisor × Bool
  run_turn s t =
      if t.stop_at_top
      then (set_state s stopped, true)
      else with_token (prepare_token s t.token_removed t.token) t

  -- The loop, as far as its turns are known; when it returns, `os.Remove` of the pidfile succeeds if
  -- `removed` says so.
  unfoldable pub run_loop : Bool → Supervisor → List Turn → Supervisor × Bool
  run_loop removed s [] = (s, false)
  run_loop removed s (t ∷ ts) =
      let rest = run_loop removed (run_turn s t).0 ts in
      if (run_turn s t).1 then (remove_pid_record (run_turn s t).0 removed, true) else rest

  -- `Start`.
  unfoldable pub supervise : Bool → Supervisor → List Turn → Supervisor × Bool
  supervise removed s ts = run_loop removed (set_state s starting) ts

-- ===== src/Tunnel/Leftovers.antt =====
-- The temporary token files that the supervise loop of internal/tunnel/supervisor.go leaves on disk,
-- because `os.Remove` failed on them.
use herdr_phone.Base.{
  ℕ, ◌+◌, ◌≤◌, List, [], ◌∷◌, ◌≡◌, refl, Bool, true, false, some, arith, if_both, if◌then◌else◌,
}
use herdr_phone.Tunnel.Supervisor.{
  Backoff, Supervisor, Prepared, token_error, prepared, Started, start_error, running, Waited,
  exited, stopped_early, stopped_ready, exited_ready, Turn, left_on_disk, record_pid, wait_attempt,
  prepare_token, next_delay, after_failure, after_wait, with_child, with_token, run_turn, run_loop,
}
use herdr_phone.Tunnel.Turns.{Out, turn-Out}

abbrev fails : Turn → ℕ
fails t = if t.token_removed then 0 else 1

-- The turns in which the removal of the temporary file fails.
abbrev pub failed_removals : List Turn → ℕ
failed_removals [] = 0
failed_removals (t ∷ ts) = fails t + failed_removals ts

-- What stays on disk, if a file that waits for its cleanup gets it.
abbrev due : Supervisor → Bool → ℕ
due s removed = s.tokens_left + left_on_disk s.token_live removed

left_on_disk-le : (made removed : Bool) → left_on_disk made removed ≤ left_on_disk true removed
left_on_disk-le made removed = ground arith

wait_attempt-due :
    (s : Supervisor) (removed : Bool) (w : Waited)
    → (wait_attempt s removed w).0.tokens_left ≤ due s removed
unfolding wait_attempt
wait_attempt-due s removed (exited e) = omega arith
wait_attempt-due s removed stopped_early = omega arith
wait_attempt-due s removed (stopped_ready url) = omega arith
wait_attempt-due s removed (exited_ready url lifetime e) = ground arith

module _ (float_delay : Backoff → ℕ) where
  after_failure-tokens_left :
      (s : Supervisor) (stop : Bool)
      → (after_failure float_delay s stop).0.tokens_left ≡ s.tokens_left
  unfolding after_failure next_delay
  after_failure-tokens_left s stop = ground arith

  after_wait-tokens_left :
      (r : Supervisor × Bool) (t : Turn)
      → (after_wait float_delay r t).0.tokens_left ≡ r.0.tokens_left
  unfolding after_wait
  after_wait-tokens_left (s, true) t = refl
  after_wait-tokens_left (s, false) t = ground (arith, after_failure-tokens_left s t.stop_failing)

  with_child-due :
      (s : Supervisor) (t : Turn) (st : Started)
      → (with_child float_delay s t st).0.tokens_left ≤ due s t.token_removed
  unfolding with_child
  with_child-due s t (start_error e) = omega (
    arith,
    after_failure-tokens_left
        (record s { token_live = false; tokens_left = due s t.token_removed; err = some e })
        t.stop_failing,
  )
  with_child-due s t (running pid) =
      let waited = wait_attempt (record_pid s pid) t.token_removed t.wait in
      omega (
        arith,
        after_wait-tokens_left waited t,
        wait_attempt-due (record_pid s pid) t.token_removed t.wait,
      )

  clean-due :
      (s : Supervisor) (t : Turn)
      → s.token_live ≡ false
      → (with_child float_delay s t t.start).0.tokens_left ≤ s.tokens_left
  clean-due s t k = ground (arith, with_child-due s t t.start, k)

  with_token-due :
      (s : Supervisor) (t : Turn) (p : Prepared)
      → s.token_live ≡ false
      → (with_token float_delay (prepare_token s t.token_removed p) t).0.tokens_left
        ≤ s.tokens_left + fails t
  unfolding with_token prepare_token
  with_token-due s t (token_error e made) k =
      if_both (λ r. (with_token float_delay r t).0.tokens_left ≤ s.tokens_left + fails t)
        s.uses_command
        (λ _.
          omega (
            arith,
            after_failure-tokens_left _ t.stop_failing,
            left_on_disk-le made t.token_removed,
          ))
        (λ _. omega (arith, clean-due s t k))
  with_token-due s t prepared k =
      if_both (λ r. (with_token float_delay r t).0.tokens_left ≤ s.tokens_left + fails t)
        s.uses_command (λ _. with_child-due (record s { token_live = true }) t t.start)
        (λ _. omega (arith, clean-due s t k))

  run_turn-due :
      (s : Supervisor) (t : Turn)
      → s.token_live ≡ false
      → (run_turn float_delay s t).0.tokens_left ≤ s.tokens_left + fails t
  unfolding run_turn
  run_turn-due s t k =
      if_both (λ (r : Supervisor × Bool). r.0.tokens_left ≤ s.tokens_left + fails t) t.stop_at_top
        (λ _. omega arith) (λ _. with_token-due s t t.token k)

  no_token_after :
      (s : Supervisor) (t : Turn) (r : Supervisor × Bool) → Out s t r → r.0.token_live ≡ false
  unfolding Out
  no_token_after s t (s', true) h = h.no_token
  no_token_after s t (s', false) h = h.no_token

  pub run_loop-tokens_left :
      (removed : Bool) (s : Supervisor) (ts : List Turn)
      → s.token_live ≡ false
      → (run_loop float_delay removed s ts).0.tokens_left ≤ s.tokens_left + failed_removals ts
  unfolding run_loop
  run_loop-tokens_left removed s [] k = omega arith
  run_loop-tokens_left removed s (t ∷ ts) k =
      let turn = run_turn-due s t k in
      if_both
        (λ (r : Supervisor × Bool). r.0.tokens_left ≤ s.tokens_left + failed_removals (t ∷ ts))
        (run_turn float_delay s t).1 (λ _. omega (arith, turn))
        (λ _. omega (
          arith,
          turn,
          run_loop-tokens_left removed (run_turn float_delay s t).0 ts
              (no_token_after s t _ (turn-Out float_delay s t k)),
        ))

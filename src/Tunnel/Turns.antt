-- ===== src/Tunnel/Turns.antt =====
-- How one turn of the supervise loop of internal/tunnel/supervisor.go ends, and what it counts.
use herdr_phone.Base.{
  ℕ, ◌+◌, ◌≤◌, ◌<◌, ◌≡◌, ◌⊎◌, inl, inr, refl, Bool, true, false, ◌&&◌, Option, arith, leb, ltb, Str,
  if_both, All, sym, subst,
}
use herdr_phone.Tunnel.Supervisor.{
  degraded, stopped, Backoff, Supervisor, Prepared, token_error, prepared, Started, start_error,
  running, Waited, exited, stopped_early, stopped_ready, exited_ready, Turn, graceful_stop,
  record_pid, on_ready, reset_if_stable, wait_attempt, prepare_token, next_delay, count_failure,
  after_failure, after_wait, with_child, with_token, run_turn,
}

-- The child did not stay ready for the stability window `w`.
abbrev pub Flaps : ℕ → Waited → Type 0
Flaps w (exited_ready url lifetime e) = lifetime < w
Flaps w (exited e) = Unit
Flaps w stopped_early = Unit
Flaps w (stopped_ready url) = Unit

-- The token command or the start fails, or the child does not stay ready.
abbrev pub IsUnstable : Bool → ℕ → Turn → Type 0
IsUnstable uses w t =
    ((e : Str) × (made : Bool) × (uses ≡ true) × (t.token ≡ token_error e made))
    ⊎ (((e : Str) × (t.start ≡ start_error e)) ⊎ Flaps w t.wait)

abbrev pub Unstable : Supervisor → Turn → Type 0
Unstable s t = IsUnstable s.uses_command s.stability_window t

-- The settings of a supervisor, which no turn changes.
abbrev pub settings : Supervisor → Bool × ℕ × ℕ × ℕ
settings s = (s.uses_command, s.max_consecutive, s.stability_window, s.backoff.max)

abbrev pub CountedFrom : Supervisor → Turn → ℕ → Type 0
CountedFrom s t n = ((n ≡ s.consecutive) × Unstable s t) ⊎ ((n ≡ 0) × ¬ Unstable s t)

-- What a turn has done before it counts its failure.
record Attempted (s b : Supervisor) (t : Turn) : Type 0 where
  same_settings : settings b ≡ settings s
  counted : CountedFrom s t b.consecutive
  no_token : b.token_live ≡ false
  delays_same : b.delays ≡ s.delays

pub record Ended (s s' : Supervisor) (t : Turn) : Type 0 where
  pub no_token : s'.token_live ≡ false
  pub how :
      (s'.state ≡ stopped)
      ⊎ ((s'.state ≡ degraded)
          × (1 ≤ s.max_consecutive)
          × ((n : ℕ) × CountedFrom s t n × (s.max_consecutive ≤ n + 1)))

pub record WentOn (s s' : Supervisor) (t : Turn) : Type 0 where
  pub same_settings : settings s' ≡ settings s
  pub counted : (n : ℕ) × CountedFrom s t n × (s'.consecutive ≡ n + 1)
  pub no_token : s'.token_live ≡ false
  pub below : (1 ≤ s.max_consecutive) → s'.consecutive < s.max_consecutive
  pub delays_bounded :
      All (λ d. d ≤ s.backoff.max) s.delays → All (λ d. d ≤ s.backoff.max) s'.delays

unfoldable pub Out : Supervisor → Turn → Supervisor × Bool → Type 0
Out s t (s', true) = Ended s s' t
Out s t (s', false) = WentOn s s' t

module _ (float_delay : Backoff → ℕ) where
  count_failure-Out :
      (s b : Supervisor) (t : Turn) (n : ℕ)
      → settings b ≡ settings s
      → CountedFrom s t n
      → b.consecutive ≡ n + 1
      → b.token_live ≡ false
      → b.delays ≡ s.delays
      → Out s t (count_failure float_delay b)
  unfolding Out next_delay
  count_failure-Out s b t n same counted e tok ds =
      if_both (Out s t) (ltb 0 b.max_consecutive && leb b.max_consecutive b.consecutive)
        (λ h. record {
          no_token = tok;
          how = inr (refl, ground (arith, h, same), (n, counted, ground (arith, h, same)));
        })
        (λ h. record {
          same_settings = same;
          counted = (n, counted, e);
          no_token = tok;
          below = λ k. ground (arith, h, same);
          delays_bounded = λ a. ground (arith, same, ds);
        })

  after_failure-Out :
      (s b : Supervisor) (t : Turn) (stop : Bool)
      → Attempted s b t
      → Out s t (after_failure float_delay b stop)
  unfolding after_failure Out
  after_failure-Out s b t true h = record { no_token = h.no_token; how = inl refl }
  after_failure-Out s b t false h =
      count_failure-Out s (record b { consecutive = b.consecutive + 1 }) t b.consecutive
        h.same_settings h.counted refl h.no_token h.delays_same

  after_wait-Out :
      (s b : Supervisor) (t : Turn)
      → Attempted s b t
      → Out s t (after_wait float_delay (b, false) t)
  unfolding after_wait Out
  after_wait-Out s b t h =
      if_both (Out s t) t.stop_after (λ _. record { no_token = h.no_token; how = inl refl })
        (λ _. after_failure-Out s b t t.stop_failing h)

  reset-Attempted :
      (s b : Supervisor) (t : Turn) (url : Str) (lifetime : ℕ) (e : Option Str)
      → settings b ≡ settings s
      → b.consecutive ≡ s.consecutive
      → b.delays ≡ s.delays
      → t.wait ≡ exited_ready url lifetime e
      → (Unstable s t → Flaps s.stability_window t.wait)
      → Attempted s (reset_if_stable (on_ready b t.token_removed url) lifetime) t
  reset-Attempted s b t url lifetime e same c d w only =
      if_both (λ r. Attempted s r t) (leb b.stability_window lifetime)
        (λ h. record {
          same_settings = same;
          counted = inr (
            refl,
            λ u.
                too_long (subst (λ z. Flaps s.stability_window z) w (only u))
                  (ground (arith, h, same)),
          );
          no_token = refl;
          delays_same = d;
        })
        (λ h. record {
          same_settings = same;
          counted = inl (
            c,
            inr (inr (subst (λ z. Flaps s.stability_window z) (sym w) (ground (arith, h, same)))),
          );
          no_token = refl;
          delays_same = d;
        })
    where
      too_long : lifetime < s.stability_window → s.stability_window ≤ lifetime → ⊥
      too_long h k = omega arith

  stopped-Out :
      (s b : Supervisor) (t : Turn)
      → b.token_live ≡ false
      → Out s t (after_wait float_delay (b, true) t)
  unfolding after_wait Out
  stopped-Out s b t h = record { no_token = h; how = inl refl }

  waited-Out :
      (s b : Supervisor) (t : Turn) (w : Waited)
      → settings b ≡ settings s
      → b.consecutive ≡ s.consecutive
      → b.delays ≡ s.delays
      → t.wait ≡ w
      → (Unstable s t → Flaps s.stability_window t.wait)
      → Out s t (after_wait float_delay (wait_attempt b t.token_removed w) t)
  unfolding wait_attempt
  waited-Out s b t (exited e) same c d w only = after_wait-Out s _ t (record {
    same_settings = same;
    counted = inl (c, inr (inr (subst (λ z. Flaps s.stability_window z) (sym w) tt)));
    no_token = refl;
    delays_same = d;
  })
  waited-Out s b t stopped_early same c d w only =
      stopped-Out s (graceful_stop b t.token_removed) t refl
  waited-Out s b t (stopped_ready url) same c d w only =
      stopped-Out s (graceful_stop (on_ready b t.token_removed url) t.token_removed) t refl
  waited-Out s b t (exited_ready url lifetime e) same c d w only =
      after_wait-Out s _ t (reset-Attempted s b t url lifetime e same c d w only)

  child-Out :
      (s b : Supervisor) (t : Turn) (st : Started)
      → settings b ≡ settings s
      → b.consecutive ≡ s.consecutive
      → b.delays ≡ s.delays
      → t.start ≡ st
      → ¬ ((e : Str) × (made : Bool) × (s.uses_command ≡ true) × (t.token ≡ token_error e made))
      → Out s t (with_child float_delay b t st)
  unfolding with_child
  child-Out s b t (start_error e) same c d w no_error =
      after_failure-Out s _ t t.stop_failing (record {
        same_settings = same;
        counted = inl (c, inr (inl (e, w)));
        no_token = refl;
        delays_same = d;
      })
  child-Out s b t (running pid) same c d w no_error =
      waited-Out s (record_pid b pid) t t.wait same c d refl (only_wait pid w)
    where
      only_wait : (pid : ℕ) → t.start ≡ running pid → Unstable s t → Flaps s.stability_window t.wait
      only_wait pid w (inl h) = absurd (no_error h)
      only_wait pid w (inr (inl (e, h))) = ground (arith, w, h)
      only_wait pid w (inr (inr h)) = h

  token-Out :
      (s : Supervisor) (t : Turn) (p : Prepared)
      → t.token ≡ p
      → s.token_live ≡ false
      → Out s t (with_token float_delay (prepare_token s t.token_removed p) t)
  unfolding with_token prepare_token
  token-Out s t (token_error e made) w k =
      if_both (λ r. Out s t (with_token float_delay r t)) s.uses_command
        (λ u. after_failure-Out s _ t t.stop_failing (record {
          same_settings = refl;
          counted = inl (refl, inl (e, made, u, w));
          no_token = k;
          delays_same = refl;
        }))
        (λ u.
          child-Out s s t t.start refl refl refl refl
            (λ (e', made', u', w'). ground (arith, u, u')))
  token-Out s t prepared w k =
      if_both (λ r. Out s t (with_token float_delay r t)) s.uses_command
        (λ u.
          child-Out s _ t t.start refl refl refl refl
            (λ (e', made', u', w'). ground (arith, w, w')))
        (λ u.
          child-Out s s t t.start refl refl refl refl
            (λ (e', made', u', w'). ground (arith, w, w')))

  pub turn-Out :
      (s : Supervisor) (t : Turn) → s.token_live ≡ false → Out s t (run_turn float_delay s t)
  unfolding run_turn Out
  turn-Out s t k =
      if_both (Out s t) t.stop_at_top (λ _. record { no_token = k; how = inl refl })
        (λ _. token-Out s t t.token refl k)

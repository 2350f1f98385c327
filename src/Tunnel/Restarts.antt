-- ===== src/Tunnel/Restarts.antt =====
-- How the supervise loop of internal/tunnel/supervisor.go ends, and what it leaves behind.
use herdr_phone.Base.{
  ℕ, ◌+◌, ◌≤◌, ◌<◌, List, [], ◌∷◌, ◌++◌, ◌≡◌, ◌⊎◌, inl, inr, refl, Bool, true, false, none, arith,
  if◌then◌else◌, length, length-append, All, All-append, append_assoc, ◌∙◌, ap, sym, subst,
}
use herdr_phone.Tunnel.Supervisor.{
  starting, degraded, stopped, Backoff, Supervisor, Turn, new_supervisor, set_state,
  remove_pid_record, run_turn, run_loop, supervise,
}
use herdr_phone.Tunnel.Leftovers.{failed_removals, run_loop-tokens_left}
use herdr_phone.Tunnel.Turns.{IsUnstable, CountedFrom, Ended, WentOn, Out, turn-Out}

pid_gone :
    (s : Supervisor) (removed : Bool)
    → ((remove_pid_record s removed).pidfile ≡ none) ⊎ (removed ≡ false)
pid_gone s true = inl refl
pid_gone s false = inr refl

-- What the loop leaves when it returns: a stop, or unstable turns in a row among those it was given.
unfoldable pub IsRow : Bool → ℕ → ℕ → List Turn → Type 0
IsRow uses w max ts =
    (pre : List Turn) × (row : List Turn) × (rest : List Turn) × (ts ≡ pre ++ (row ++ rest))
    × All (IsUnstable uses w) row
    × (max ≤ length row + 1)

unfoldable pub Left : Bool → Bool → ℕ → ℕ → List Turn → Supervisor → Type 0
Left removed uses w max ts s =
    (s.token_live ≡ false)
    × ((s.pidfile ≡ none) ⊎ (removed ≡ false))
    × ((s.state ≡ stopped) ⊎ ((s.state ≡ degraded) × (1 ≤ max) × IsRow uses w max ts))

module _ (float_delay : Backoff → ℕ) (removed : Bool) where
  -- Whether the loop returns, given how its first turn ends.
  returns_after :
      (s : Supervisor) (t : Turn) (ts : List Turn) (r : Supervisor × Bool)
      → Out s t r
      → (WentOn s r.0 t → (run_loop float_delay removed r.0 ts).1 ≡ true)
      → (if r.1
          then (remove_pid_record r.0 removed, true)
          else run_loop float_delay removed r.0 ts).1
        ≡ true
  unfolding Out
  returns_after s t ts (s', true) h later = refl
  returns_after s t ts (s', false) h later = later h

  loop_returns :
      (s : Supervisor) (ts : List Turn)
      → s.token_live ≡ false
      → s.consecutive < s.max_consecutive
      → s.max_consecutive ≤ s.consecutive + length ts
      → All (IsUnstable s.uses_command s.stability_window) ts
      → (run_loop float_delay removed s ts).1 ≡ true
  unfolding run_loop
  loop_returns s [] k below enough h = ground arith
  loop_returns s (t ∷ ts) k below enough h =
      returns_after s t ts (run_turn float_delay s t) (turn-Out float_delay s t k)
        λ (w : WentOn s (run_turn float_delay s t).0 t).
          loop_returns (run_turn float_delay s t).0 ts w.no_token (lower _ w) (nearer _ w)
            (moved _ w)
    where
      unstable_next : (s' : Supervisor) → WentOn s s' t → s'.consecutive ≡ s.consecutive + 1
      unstable_next s' w = elim w.counted.1 [
        | inl (e, u) ↦ w.counted.2 ∙ ap (λ z. z + 1) e
        | inr (e, stable) ↦ absurd (stable h.0)
      ]

      lower : (s' : Supervisor) → WentOn s s' t → s'.consecutive < s'.max_consecutive
      lower s' w = ground (arith, w.same_settings, w.below (omega arith))

      nearer : (s' : Supervisor) → WentOn s s' t → s'.max_consecutive ≤ s'.consecutive + length ts
      nearer s' w = ground (arith, w.same_settings, unstable_next s' w)

      moved :
          (s' : Supervisor)
          → WentOn s s' t
          → All (IsUnstable s'.uses_command s'.stability_window) ts
      moved s' w =
          subst (λ (z : Bool × ℕ × ℕ × ℕ). All (IsUnstable z.0 z.2) ts) (sym w.same_settings) h.1

  Ended-Left :
      (s : Supervisor) (past : List Turn) (t : Turn) (ts : List Turn) (s' : Supervisor)
      → s.consecutive ≤ length past + 1
      → All (IsUnstable s.uses_command s.stability_window) past
      → Ended s s' t
      → Left removed s.uses_command s.stability_window s.max_consecutive
          (past ++ t ∷ ts)
          (remove_pid_record s' removed)
  unfolding Left IsRow
  Ended-Left s past t ts s' few a h = (h.no_token, pid_gone s' removed, ended h.how)
    where
      Row : Type 0
      Row = IsRow s.uses_command s.stability_window s.max_consecutive (past ++ t ∷ ts)

      row : (n : ℕ) → CountedFrom s t n → s.max_consecutive ≤ n + 1 → Row
      row n (inl (e, u)) m = (
        [],
        past ++ t ∷ [],
        ts,
        sym (append_assoc past (t ∷ []) ts),
        All-append _ past (t ∷ []) a (u, tt),
        omega (arith, length-append past (t ∷ [])),
      )
      row n (inr (e, u)) m =
          (past ++ t ∷ [], [], ts, sym (append_assoc past (t ∷ []) ts), tt, omega arith)

      ended :
          (s'.state ≡ stopped)
            ⊎ ((s'.state ≡ degraded)
                × (1 ≤ s.max_consecutive)
                × ((n : ℕ) × CountedFrom s t n × (s.max_consecutive ≤ n + 1)))
          → (s'.state ≡ stopped) ⊎ ((s'.state ≡ degraded) × (1 ≤ s.max_consecutive) × Row)
      ended (inl e) = inl e
      ended (inr (e, m, (n, c, k))) = inr (e, m, row n c k)

  -- The unstable turns that a turn leaves behind in a row.
  next_row :
      (s s' : Supervisor) (past : List Turn) (t : Turn) (ts : List Turn)
      → s.consecutive ≤ length past + 1
      → All (IsUnstable s.uses_command s.stability_window) past
      → WentOn s s' t
      → (before : List Turn) × (row : List Turn) × (past ++ t ∷ ts ≡ before ++ (row ++ ts))
        × All (IsUnstable s.uses_command s.stability_window) row
        × (s'.consecutive ≤ length row + 1)
  next_row s s' past t ts few a w = elim w.counted.1 [
    | inl (e, u) ↦ (
      [],
      past ++ t ∷ [],
      sym (append_assoc past (t ∷ []) ts),
      All-append _ past (t ∷ []) a (u, tt),
      ground (arith, length-append past (t ∷ []), w.counted.2, e, few),
    )
    | inr (e, u) ↦ (
      past ++ t ∷ [],
      [],
      sym (append_assoc past (t ∷ []) ts),
      tt,
      ground (arith, w.counted.2, e),
    )
  ]

  Left-after :
      (uses : Bool) (w max : ℕ) (before ts : List Turn) (s : Supervisor)
      → Left removed uses w max ts s
      → Left removed uses w max (before ++ ts) s
  unfolding Left IsRow
  Left-after uses w max before ts s (k, p, inl e) = (k, p, inl e)
  Left-after uses w max before ts s (k, p, inr (e, m, (pre, row, rest, split, a, n))) = (
    k,
    p,
    inr (
      e,
      m,
      (
        before ++ pre,
        row,
        rest,
        ap (λ z. before ++ z) split ∙ sym (append_assoc before pre (row ++ rest)),
        a,
        n,
      ),
    ),
  )

  -- What is known of the rest of the loop, after its first turn.
  Later : Supervisor → List Turn → Type 0
  Later s ts =
      (past : List Turn)
      → s.token_live ≡ false
      → s.consecutive ≤ length past + 1
      → All (IsUnstable s.uses_command s.stability_window) past
      → (run_loop float_delay removed s ts).1 ≡ true
      → Left removed s.uses_command s.stability_window s.max_consecutive (past ++ ts)
          (run_loop float_delay removed s ts).0

  WentOn-Left :
      (s s' : Supervisor) (past : List Turn) (t : Turn) (ts : List Turn)
      → s.consecutive ≤ length past + 1
      → All (IsUnstable s.uses_command s.stability_window) past
      → WentOn s s' t
      → Later s' ts
      → (run_loop float_delay removed s' ts).1 ≡ true
      → Left removed s.uses_command s.stability_window s.max_consecutive
          (past ++ t ∷ ts)
          (run_loop float_delay removed s' ts).0
  unfolding Later
  WentOn-Left s s' past t ts few a w later e =
      let (before, row, split, unstable, n) = next_row s s' past t ts few a w in
      let left : Left removed s'.uses_command s'.stability_window s'.max_consecutive (row ++ ts)
          (run_loop float_delay removed s' ts).0 =
        later row w.no_token n
          (subst (λ (z : Bool × ℕ × ℕ × ℕ). All (IsUnstable z.0 z.2) row) (sym w.same_settings)
            unstable)
          e in
      subst
        (λ z.
          Left removed s.uses_command s.stability_window s.max_consecutive z
            (run_loop float_delay removed s' ts).0)
        (sym split)
        (Left-after s.uses_command s.stability_window s.max_consecutive before (row ++ ts) _ (
          subst
            (λ (z : Bool × ℕ × ℕ × ℕ).
              Left removed z.0 z.2 z.1 (row ++ ts) (run_loop float_delay removed s' ts).0)
            w.same_settings left))

  turned-Left :
      (s : Supervisor) (past : List Turn) (t : Turn) (ts : List Turn) (o : Supervisor × Bool)
      → s.consecutive ≤ length past + 1
      → All (IsUnstable s.uses_command s.stability_window) past
      → Out s t o
      → Later o.0 ts
      → (if o.1
          then (remove_pid_record o.0 removed, true)
          else run_loop float_delay removed o.0 ts).1
        ≡ true
      → Left removed s.uses_command s.stability_window s.max_consecutive
          (past ++ t ∷ ts)
          (if o.1
            then (remove_pid_record o.0 removed, true)
            else run_loop float_delay removed o.0 ts).0
  unfolding Out
  turned-Left s past t ts (s', true) few a h later e = Ended-Left s past t ts s' few a h
  turned-Left s past t ts (s', false) few a h later e = WentOn-Left s s' past t ts few a h later e

  loop-Left : (s : Supervisor) (ts : List Turn) → Later s ts
  unfolding run_loop Later
  loop-Left s [] past k few a r = ground arith
  loop-Left s (t ∷ ts) past k few a r =
      turned-Left s past t ts (run_turn float_delay s t) few a (turn-Out float_delay s t k)
        (loop-Left (run_turn float_delay s t).0 ts) r

  -- If a maximum of failures is set, the supervise loop returns within as many turns, unless in one
  -- of them the child stays ready for the stability window.
  pub supervise_returns :
      (uses : Bool) (max window : ℕ) (ts : List Turn)
      → 1 ≤ max
      → max ≤ length ts
      → All (IsUnstable uses window) ts
      → (supervise float_delay removed (new_supervisor uses max window) ts).1 ≡ true
  unfolding supervise new_supervisor
  supervise_returns uses max window ts some_max enough h =
      loop_returns (set_state (new_supervisor uses max window) starting) ts refl some_max
        (omega arith) h

  -- When the supervise loop has returned, no temporary token file waits for its cleanup, and those that
  -- are left on disk are at most as many as the turns in which `os.Remove` failed on one; there is no
  -- pidfile, unless `os.Remove` failed on it; and the state is stopped or degraded. It is degraded only
  -- if a maximum of failures is set, and then at least that many turns less one failed in a row, in
  -- none of which the child stayed ready for the stability window.
  pub supervise-Left :
      (uses : Bool) (max window : ℕ) (ts : List Turn)
      → (supervise float_delay removed (new_supervisor uses max window) ts).1 ≡ true
      → Left removed uses window max ts
          (supervise float_delay removed (new_supervisor uses max window) ts).0
        × ((supervise float_delay removed (new_supervisor uses max window) ts).0.tokens_left
            ≤ failed_removals ts)
  unfolding supervise new_supervisor Later
  supervise-Left uses max window ts e =
      let s = set_state (new_supervisor uses max window) starting in
      (
        loop-Left s ts [] refl (omega arith) tt e,
        omega (arith, run_loop-tokens_left float_delay removed s ts refl),
      )

-- ===== src/State/Projection.antt =====
-- The runs that internal/state/runs.go projects, next to the generations that guard mutations.
use herdr_phone.Base.{
  Any, ℕ, List, [], ◌∷◌, ◌≡◌, ◌⊎◌, inl, inr, refl, arith, true, false, Option, none, some, Str,
  bytes, str_eq, str_eq_iff, lookup, if_both, All, All-append,
}
use herdr_phone.State.Generations.{Panes, check_generation}
use herdr_phone.State.Runs.{
  RunPane, Agent, Workspace, Tab, Topology, Run, agent_of, workspace_of, tab_of, normalize_status,
  with_agent, with_workspace, with_tab, is_shell, incarnation, run_id_of, occupant_of, new_run,
  project_pane, runs_at, project_all, project_runs,
}
use herdr_phone.State.Ordered.{
  IsOrdered, All-sort_runs, All-weaken, sort_runs-IsOrdered, Any-sort_runs, Any-append-left,
  Any-append-right,
}

abbrev pub IsStatus : Str → Type 0
IsStatus t =
    (t ≡ bytes "idle")
    ⊎ ((t ≡ bytes "working")
        ⊎ ((t ≡ bytes "blocked") ⊎ ((t ≡ bytes "done") ⊎ (t ≡ bytes "unknown"))))

normalize_status-IsStatus : (t : Str) → IsStatus (normalize_status t)
unfolding normalize_status
normalize_status-IsStatus t =
    if_both IsStatus (str_eq t (bytes "idle")) (λ e. inl ((str_eq_iff t _).0 e))
      λ _.
        if_both IsStatus (str_eq t (bytes "working")) (λ e. inr (inl ((str_eq_iff t _).0 e)))
          λ _.
            if_both IsStatus (str_eq t (bytes "blocked"))
              (λ e. inr (inr (inl ((str_eq_iff t _).0 e))))
              λ _.
                if_both IsStatus (str_eq t (bytes "done"))
                  (λ e. inr (inr (inr (inl ((str_eq_iff t _).0 e)))))
                  λ _. inr (inr (inr (inr refl)))

module _ (digest : Str → Str) (itoa : ℕ → Str) where
  -- The generation of the run is the one the mutation guard accepts, its incarnation is that of the
  -- occupant on record, and its id is made of these.
  pub record IsCurrent (s : Panes) (r : Run) : Type 0 where
    pub guarded : check_generation s r.pane_id r.pane_generation ≡ true
    pub occupied :
        r.agent_incarnation ≡ incarnation digest itoa (occupant_of digest itoa s r.pane_id)
    pub identified :
        r.run_id ≡ run_id_of digest itoa r.pane_id r.pane_generation r.agent_incarnation
    pub known_status : IsStatus r.status

  with_tab-IsCurrent :
      (s : Panes) (r : Run) (o : Option Tab) → IsCurrent s r → IsCurrent s (with_tab r o)
  with_tab-IsCurrent s r none h = h
  with_tab-IsCurrent s r (some t) h = ground arith

  with_workspace-IsCurrent :
      (s : Panes) (r : Run) (o : Option Workspace)
      → IsCurrent s r
      → IsCurrent s (with_workspace r o)
  with_workspace-IsCurrent s r none h = h
  with_workspace-IsCurrent s r (some w) h = ground arith

  with_agent-IsCurrent :
      (s : Panes) (st : Str) (r : Run) (o : Option Agent)
      → IsCurrent s r
      → IsCurrent s (with_agent st r o)
  with_agent-IsCurrent s st r none h = h
  with_agent-IsCurrent s [] r (some a) h = record {
    guarded = h.guarded;
    occupied = h.occupied;
    identified = h.identified;
    known_status = normalize_status-IsStatus a.agent_status;
  }
  with_agent-IsCurrent s (b ∷ st) r (some a) h = record {
    guarded = h.guarded;
    occupied = h.occupied;
    identified = h.identified;
    known_status = h.known_status;
  }

  guarded_at :
      (s : Panes) (id : Str) (gen : ℕ)
      → lookup id s.generations ≡ some gen
      → check_generation s id gen ≡ true
  unfolding check_generation
  guarded_at s id gen e = ground (arith, e)

  project_pane-IsCurrent :
      (topo : Topology) (s : Panes) (p : RunPane) (gen : ℕ)
      → lookup p.pane.pane_id s.generations ≡ some gen
      → IsCurrent s (project_pane digest itoa topo s p gen)
  unfolding project_pane new_run
  project_pane-IsCurrent topo s p gen e = with_tab-IsCurrent s _ (tab_of p.tab_id topo.tabs) (
      with_workspace-IsCurrent s _ (workspace_of p.workspace_id topo.workspaces) (
        with_agent-IsCurrent s p.pane.agent_status _ (agent_of p.pane.pane_id topo.agents) (record {
          guarded = guarded_at s p.pane.pane_id gen e;
          occupied = refl;
          identified = refl;
          known_status = normalize_status-IsStatus p.pane.agent_status;
        })))

  pane_id-kept :
      (topo : Topology) (s : Panes) (p : RunPane) (gen : ℕ)
      → (project_pane digest itoa topo s p gen).pane_id ≡ p.pane.pane_id
  unfolding project_pane new_run
  pane_id-kept topo s p gen =
      kept (new_run digest itoa s p gen) (agent_of p.pane.pane_id topo.agents)
        (workspace_of p.workspace_id topo.workspaces) (tab_of p.tab_id topo.tabs)
    where
      kept :
          (r : Run) (a : Option Agent) (w : Option Workspace) (t : Option Tab)
          → (with_tab (with_workspace (with_agent p.pane.agent_status r a) w) t).pane_id ≡ r.pane_id
      kept r none none none = refl
      kept r none none (some t) = refl
      kept r none (some w) none = refl
      kept r none (some w) (some t) = refl
      kept r (some a) none none = refl
      kept r (some a) none (some t) = refl
      kept r (some a) (some w) none = refl
      kept r (some a) (some w) (some t) = refl

  -- A pane whose occupant is an agent and whose generation is known.
  abbrev pub IsRunPane : Topology → Panes → RunPane → Type 0
  IsRunPane topo s p =
      (is_shell p (agent_of p.pane.pane_id topo.agents) ≡ false)
      × ((gen : ℕ) × (lookup p.pane.pane_id s.generations ≡ some gen))

  runs_at-IsCurrent :
      (topo : Topology) (s : Panes) (p : RunPane) (o : Option ℕ)
      → lookup p.pane.pane_id s.generations ≡ o
      → All (IsCurrent s) (runs_at digest itoa topo s p o)
  runs_at-IsCurrent topo s p none e = tt
  runs_at-IsCurrent topo s p (some gen) e =
      if_both (All (IsCurrent s)) (is_shell p (agent_of p.pane.pane_id topo.agents)) (λ _. tt)
        (λ _. (project_pane-IsCurrent topo s p gen e, tt))

  project_all-IsCurrent :
      (topo : Topology) (s : Panes) (ps : List RunPane)
      → All (IsCurrent s) (project_all digest itoa topo s ps)
  unfolding project_all
  project_all-IsCurrent topo s [] = tt
  project_all-IsCurrent topo s (p ∷ ps) =
      All-append (IsCurrent s) _ _
        (runs_at-IsCurrent topo s p (lookup p.pane.pane_id s.generations) refl)
        (project_all-IsCurrent topo s ps)

  runs_at-pane :
      (topo : Topology) (s : Panes) (p : RunPane) (gen : ℕ)
      → is_shell p (agent_of p.pane.pane_id topo.agents) ≡ false
      → Any (λ r. r.pane_id ≡ p.pane.pane_id) (runs_at digest itoa topo s p (some gen))
  runs_at-pane topo s p gen e = rw e (inl (pane_id-kept topo s p gen))

  project_all-panes :
      (topo : Topology) (s : Panes) (ps : List RunPane)
      → All
          (λ p.
            IsRunPane topo s p
            → Any (λ r. r.pane_id ≡ p.pane.pane_id) (project_all digest itoa topo s ps))
          ps
  unfolding project_all
  project_all-panes topo s [] = tt
  project_all-panes topo s (p ∷ ps) = (
    λ (agent, (gen, e)).
        Any-append-left _ _ (project_all digest itoa topo s ps)
          (rw e (runs_at-pane topo s p gen agent)),
    All-weaken _ _ ps
        (λ q later h.
          Any-append-right _ (runs_at digest itoa topo s p (lookup p.pane.pane_id s.generations)) _
            (later h))
        (project_all-panes topo s ps),
  )

  -- Every projected run has the generation with which the mutation guard lets its pane pass, the
  -- incarnation of the occupant on record, an id made of both, and one of the five statuses; the runs
  -- are in the order of their pane ids; and every pane with an agent and a generation has a run.
  pub project_runs-check_generation :
      (topo : Topology) (s : Panes)
      → All (IsCurrent s) (project_runs digest itoa topo s)
        × IsOrdered (project_runs digest itoa topo s)
        × All
            (λ p.
              IsRunPane topo s p
              → Any (λ r. r.pane_id ≡ p.pane.pane_id) (project_runs digest itoa topo s))
            topo.panes
  unfolding project_runs
  project_runs-check_generation topo s =
      let runs = project_all digest itoa topo s topo.panes in
      (
        All-sort_runs (IsCurrent s) runs (project_all-IsCurrent topo s topo.panes),
        sort_runs-IsOrdered runs,
        All-weaken _ _ topo.panes
            (λ p found h. Any-sort_runs (λ r. r.pane_id ≡ p.pane.pane_id) runs (found h))
            (project_all-panes topo s topo.panes),
      )

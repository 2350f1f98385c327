-- ===== src/State/Runs.antt =====
-- The projection of runs of internal/state/runs.go, for a topology whose pane ids are distinct: the
-- order of two runs of one id is not the source's. The SHA-256 prefix of a fingerprint and decimal
-- printing are `digest` and `itoa`.
use herdr_phone.Base.{
  ℕ, List, [], ◌∷◌, ◌++◌, Bool, true, false, Option, none, some, Str, bytes, str_eq, str_lt, lookup,
  if◌then◌else◌,
}
use herdr_phone.State.Generations.{Pane, Panes, occupant_or_empty}

-- A pane with the fields that only the projection reads.
pub record RunPane : Type 0 where
  pub pane : Pane
  pub workspace_id : Str
  pub tab_id : Str
  pub display_agent : Str
  pub title : Str
  pub focused : Bool
  pub cwd : Str
  pub foreground_cwd : Str
  pub revision : ℕ

pub record Agent : Type 0 where
  pub pane_id : Str
  pub agent : Str
  pub name : Str
  pub display_agent : Str
  pub title : Str
  pub agent_status : Str
  pub interactive_ready : Bool
  pub launch_pending : Bool
  pub state_change_seq : ℕ

pub record Worktree : Type 0 where
  pub repo_name : Str
  pub repo_root : Str
  pub checkout_path : Str
  pub is_linked_worktree : Bool

pub record Workspace : Type 0 where
  pub workspace_id : Str
  pub label : Str
  pub worktree : Option Worktree

pub record Tab : Type 0 where
  pub tab_id : Str
  pub label : Str

pub record Topology : Type 0 where
  pub agents : List Agent
  pub workspaces : List Workspace
  pub tabs : List Tab
  pub panes : List RunPane

pub record Run : Type 0 where
  pub run_id : Str
  pub pane_id : Str
  pub pane_generation : ℕ
  pub agent_incarnation : Str
  pub workspace_id : Str
  pub workspace_label : Str
  pub tab_id : Str
  pub tab_label : Str
  pub terminal_id : Str
  pub agent_kind : Str
  pub agent_name : Str
  pub display_agent : Str
  pub title : Str
  pub status : Str
  pub interactive_ready : Bool
  pub launch_pending : Bool
  pub focused : Bool
  pub cwd : Str
  pub foreground_cwd : Str
  pub worktree : Option Worktree
  pub revision : ℕ
  pub state_change_seq : ℕ

-- The first agent of a pane, and the last workspace and tab of an id.
unfoldable pub agent_of : Str → List Agent → Option Agent
agent_of id [] = none
agent_of id (a ∷ rest) = if str_eq a.pane_id id then some a else agent_of id rest

abbrev or_else : {A : Type 0} → Option A → Option A → Option A
or_else (some a) o = some a
or_else none o = o

unfoldable pub workspace_of : Str → List Workspace → Option Workspace
workspace_of id [] = none
workspace_of id (w ∷ rest) =
    or_else (workspace_of id rest) (if str_eq w.workspace_id id then some w else none)

unfoldable pub tab_of : Str → List Tab → Option Tab
tab_of id [] = none
tab_of id (t ∷ rest) = or_else (tab_of id rest) (if str_eq t.tab_id id then some t else none)

unfoldable pub normalize_status : Str → Str
normalize_status s =
    if str_eq s (bytes "idle")
    then s
    else if str_eq s (bytes "working")
    then s
    else if str_eq s (bytes "blocked")
    then s
    else if str_eq s (bytes "done")
    then s
    else bytes "unknown"

abbrev or_string : Str → Str → Str
or_string [] d = d
or_string (b ∷ s) d = b ∷ s

-- What a run takes from the agent list, the workspaces and the tabs.
abbrev pub with_agent : Str → Run → Option Agent → Run
with_agent pane_status run none = run
with_agent pane_status run (some a) = record run {
  agent_name = a.name;
  interactive_ready = a.interactive_ready;
  launch_pending = a.launch_pending;
  state_change_seq = a.state_change_seq;
  agent_kind = or_string run.agent_kind a.agent;
  display_agent = or_string run.display_agent a.display_agent;
  title = or_string run.title a.title;
  status = elim pane_status [ [] ↦ normalize_status a.agent_status | b ∷ s ↦ run.status ];
}

abbrev pub with_workspace : Run → Option Workspace → Run
with_workspace run none = run
with_workspace run (some w) = record run { workspace_label = w.label; worktree = w.worktree }

abbrev pub with_tab : Run → Option Tab → Run
with_tab run none = run
with_tab run (some t) = record run { tab_label = t.label }

-- A shell pane is no run.
abbrev pub is_shell : RunPane → Option Agent → Bool
is_shell p (some a) = false
is_shell p none = elim p.pane.agent [ [] ↦ true | b ∷ s ↦ false ]

unfoldable pub insert_run : Run → List Run → List Run
insert_run r [] = r ∷ []
insert_run r (s ∷ rest) =
    let later = insert_run r rest in if str_lt s.pane_id r.pane_id then s ∷ later else r ∷ s ∷ rest

unfoldable pub sort_runs : List Run → List Run
sort_runs [] = []
sort_runs (r ∷ rest) = insert_run r (sort_runs rest)

module _ (digest : Str → Str) (itoa : ℕ → Str) where
  unfoldable pub incarnation : Str → Str
  incarnation [] = []
  incarnation (b ∷ fp) = digest (b ∷ fp)

  abbrev id_with : Str → Str → Str
  id_with id [] = id
  id_with id (b ∷ inc) = id ++ 35 ∷ (b ∷ inc)

  unfoldable pub run_id_of : Str → ℕ → Str → Str
  run_id_of pane_id gen inc = id_with (pane_id ++ 64 ∷ itoa gen) inc

  abbrev pub occupant_of : Panes → Str → Str
  occupant_of s id = occupant_or_empty (lookup id s.occupants)

  unfoldable pub new_run : Panes → RunPane → ℕ → Run
  new_run s p gen =
      let inc = incarnation (occupant_of s p.pane.pane_id) in
      record {
        run_id = run_id_of p.pane.pane_id gen inc;
        pane_id = p.pane.pane_id;
        pane_generation = gen;
        agent_incarnation = inc;
        workspace_id = p.workspace_id;
        workspace_label = [];
        tab_id = p.tab_id;
        tab_label = [];
        terminal_id = p.pane.terminal_id;
        agent_kind = p.pane.agent;
        agent_name = [];
        display_agent = p.display_agent;
        title = p.title;
        status = normalize_status p.pane.agent_status;
        interactive_ready = false;
        launch_pending = false;
        focused = p.focused;
        cwd = p.cwd;
        foreground_cwd = p.foreground_cwd;
        worktree = none;
        revision = p.revision;
        state_change_seq = 0;
      }

  unfoldable pub project_pane : Topology → Panes → RunPane → ℕ → Run
  project_pane topo s p gen =
      with_tab
        (with_workspace
          (with_agent p.pane.agent_status (new_run s p gen) (agent_of p.pane.pane_id topo.agents))
          (workspace_of p.workspace_id topo.workspaces))
        (tab_of p.tab_id topo.tabs)

  abbrev pub runs_at : Topology → Panes → RunPane → Option ℕ → List Run
  runs_at topo s p none = []
  runs_at topo s p (some gen) =
      if is_shell p (agent_of p.pane.pane_id topo.agents)
      then []
      else project_pane topo s p gen ∷ []

  unfoldable pub project_all : Topology → Panes → List RunPane → List Run
  project_all topo s [] = []
  project_all topo s (p ∷ ps) =
      runs_at topo s p (lookup p.pane.pane_id s.generations) ++ project_all topo s ps

  -- `projectRuns`.
  unfoldable pub project_runs : Topology → Panes → List Run
  project_runs topo s = sort_runs (project_all topo s topo.panes)

-- ===== src/State/Examples.antt =====
-- Runs of the state engine of internal/state on concrete polls. A topology is its list of panes, its
-- hash their ids.
use herdr_phone.Base.{
  Any, ℕ, ◌+◌, ◌≤◌, List, [], ◌∷◌, ◌++◌, ◌≡◌, refl, arith, true, false, Option, none, some, Str,
  bytes, str_eq, lookup, insert, All, length,
}
use herdr_phone.State.Generations.{
  Pane, Panes, occupant_fingerprint, occupant_or_empty, track_at, track, track_all, is_present,
  retain, drop_gone, update_generations,
}
use herdr_phone.State.Lifecycle.{
  seen_as, Shows, next_generation, after_polls, update_generations_lem, same_generation,
}
use herdr_phone.State.Subscriber.{Snapshot, Subscription, new_subscription, drain}
use herdr_phone.State.Engine.{Engine, poll_read, new_engine, subscribe, apply, wire_size, unchanged}
use herdr_phone.State.Delivery.{AllDistinct, is_registered, published, apply_delivers}
use herdr_phone.State.Polling.{
  Loop, Event, tick, wake, polled, IsPossible, Triggers, loop_step, loop_start, loop_run, trigger,
  wake_served,
}
use herdr_phone.State.Runs.{RunPane, Topology, project_runs}
use herdr_phone.State.Ordered.{IsOrdered}
use herdr_phone.State.Projection.{IsCurrent, IsRunPane, project_runs-check_generation}

abbrev shell : Str → Pane
shell agent = record {
  pane_id = bytes "p1";
  terminal_id = bytes "t1";
  agent = agent;
  agent_session = none;
  agent_status = bytes "idle";
}

abbrev empty : Panes
empty = record { generations = []; occupants = [] }

once : seen_as (bytes "p1") [] ≡ none
unfolding seen_as
once = refl

abbrev with_claude : List Pane
with_claude = shell (bytes "claude") ∷ []

abbrev known : Panes
known = record {
  generations = (bytes "p1", 3) ∷ [];
  occupants = (bytes "p1", occupant_fingerprint (shell (bytes "claude"))) ∷ [];
}

update_generations_lem_example :
    ((fp : Str)
      → seen_as (bytes "p1") with_claude ≡ some fp
      → (lookup (bytes "p1") (update_generations known with_claude).generations
          ≡ some (
              next_generation
                (lookup (bytes "p1") known.generations)
                (lookup (bytes "p1") known.occupants)
                fp))
        × (occupant_or_empty (lookup (bytes "p1") (update_generations known with_claude).occupants)
            ≡ fp))
    × (seen_as (bytes "p1") with_claude ≡ none
        → lookup (bytes "p1") (update_generations known with_claude).generations ≡ none)
update_generations_lem_example = update_generations_lem known (bytes "p1") with_claude (once, tt)

known_three : lookup (bytes "p1") known.generations ≡ some 3
unfolding lookup str_eq
known_three = refl

with_claude-Shows : Shows (bytes "p1") with_claude
unfolding seen_as str_eq
with_claude-Shows = ((refl, tt), (_, refl))

still_three :
    lookup (bytes "p1") (after_polls known (with_claude ∷ with_claude ∷ [])).generations ≡ some 3
unfolding lookup after_polls update_generations drop_gone track_all track track_at retain is_present
    str_eq occupant_fingerprint
still_three = refl

same_generation_example :
    All
      (λ ps.
        seen_as (bytes "p1") ps ≡ some (occupant_or_empty (lookup (bytes "p1") known.occupants)))
      (with_claude ∷ with_claude ∷ [])
same_generation_example =
    same_generation known (bytes "p1") 3 (with_claude ∷ with_claude ∷ []) known_three (omega arith)
      (with_claude-Shows, (with_claude-Shows, tt)) still_three

abbrev open_queue : Subscription (List Pane)
open_queue = new_subscription 8 4_194_304

abbrev first : Snapshot (List Pane)
first = record {
  seq = 1;
  hash = bytes "p1";
  topology = with_claude;
  generations = (bytes "p1", 1) ∷ [];
  bytes = 100;
}

queue_open : open_queue.closed ≡ false
unfolding new_subscription
queue_open = refl

abbrev two_queues : List (Str × Subscription (List Pane))
two_queues = (bytes "a", open_queue) ∷ (bytes "b", open_queue) ∷ []

distinct_ab : AllDistinct (bytes "a" ∷ bytes "b" ∷ [])
unfolding is_registered str_eq
distinct_ab = (refl, (refl, tt))

at_b : lookup (bytes "b") two_queues ≡ some open_queue
unfolding lookup str_eq
at_b = refl

abbrev engine : Engine (List Pane)
engine = subscribe (new_engine 0 0 0 0) (bytes "a")

abbrev ids : List Pane → Str
ids [] = []
ids (p ∷ ps) = p.pane_id ++ ids ps

abbrev sized : ℕ → Str → List Pane → List (Str × ℕ) → Option ℕ
sized seq h ps gens = some (length h)

engine_set : AllDistinct engine.subs
unfolding subscribe new_engine is_registered
engine_set = (refl, tt)

engine_at : lookup (bytes "a") engine.queues ≡ some open_queue
unfolding subscribe new_engine lookup insert str_eq
engine_at = refl

engine_registered : is_registered (bytes "a") engine.subs ≡ true
unfolding subscribe new_engine is_registered str_eq
engine_registered = refl

engine_changed : unchanged (λ ps. ps) (λ ps. []) ids sized engine.current (ids with_claude) ≡ false
unfolding subscribe new_engine
engine_changed = refl

queue_room : 1 ≤ open_queue.max_items
unfolding new_subscription
queue_room = omega arith

queue_fits :
    (published (λ ps. ps) (λ ps. []) ids sized engine with_claude).bytes ≤ open_queue.max_bytes
unfolding new_subscription wire_size
queue_fits = omega arith

apply_delivers_example :
    let e' = apply (λ ps. ps) (λ ps. []) ids sized engine (poll_read (some with_claude)) 5 in
    let snap = published (λ ps. ps) (λ ps. []) ids sized engine with_claude in
    (e'.current ≡ some snap)
    × (snap.generations ≡ e'.panes.generations)
    × (is_registered (bytes "a") e'.subs ≡ true)
    × ((q' : Subscription (List Pane)) × (lookup (bytes "a") e'.queues ≡ some q')
        × ((drain q').1 ≡ snap ∷ []))
apply_delivers_example =
    apply_delivers (λ ps. ps) (λ ps. []) ids sized engine with_claude 5 (bytes "a") open_queue
      engine_set engine_at engine_registered queue_open queue_room queue_fits engine_changed

abbrev history : List Event
history = wake ∷ tick ∷ polled ∷ wake ∷ polled ∷ []

history-IsPossible : IsPossible loop_start history
unfolding loop_start loop_step trigger
history-IsPossible = (refl, (refl, tt))

two-Triggers : All Triggers (tick ∷ wake ∷ [])
two-Triggers = (λ e. ground (arith, e), (λ e. ground (arith, e), tt))

start-IsPossible : IsPossible loop_start (polled ∷ tick ∷ [])
unfolding loop_start
start-IsPossible = (refl, tt)

-- The first poll has ended, and a tick has begun the second.
abbrev ticked : Loop
ticked = loop_run loop_start (polled ∷ tick ∷ [])

wake_served_example :
    (ticked.in_progress ≡ false
      → ((loop_run ticked (wake ∷ [])).started ≡ ticked.started + 1)
        × ((loop_run ticked (wake ∷ polled ∷ [])).started ≡ ticked.started + 1)
        × ((loop_run ticked (wake ∷ polled ∷ [])).in_progress ≡ false))
    × (ticked.in_progress ≡ true
        → ((loop_run ticked (wake ∷ tick ∷ wake ∷ [])).started ≡ ticked.started)
          × ((loop_run ticked (wake ∷ (tick ∷ wake ∷ []) ++ polled ∷ [])).started
              ≡ ticked.started + 1)
          × ((loop_run ticked (wake ∷ (tick ∷ wake ∷ []) ++ polled ∷ polled ∷ [])).started
              ≡ ticked.started + 1)
          × ((loop_run ticked (wake ∷ (tick ∷ wake ∷ []) ++ polled ∷ polled ∷ [])).in_progress
              ≡ false))
wake_served_example =
    wake_served (polled ∷ tick ∷ []) (tick ∷ wake ∷ []) start-IsPossible two-Triggers

abbrev shell_pane : Pane
shell_pane = record {
  pane_id = bytes "p2";
  terminal_id = bytes "t";
  agent = [];
  agent_session = none;
  agent_status = [];
}

abbrev agent_pane : Pane
agent_pane = record shell_pane { pane_id = bytes "p1"; agent = bytes "claude" }

abbrev run_pane : Pane → RunPane
run_pane p = record {
  pane = p;
  workspace_id = bytes "w";
  tab_id = bytes "t";
  display_agent = [];
  title = [];
  focused = true;
  cwd = [];
  foreground_cwd = [];
  revision = 1;
}

abbrev topology : Topology
topology = record {
  agents = [];
  workspaces = record { workspace_id = bytes "w"; label = bytes "home"; worktree = none } ∷ [];
  tabs = [];
  panes = run_pane shell_pane ∷ run_pane agent_pane ∷ [];
}

abbrev tracked : Panes
tracked =
    update_generations (record { generations = []; occupants = [] }) (shell_pane ∷ agent_pane ∷ [])

project_runs-check_generation_example :
    All (IsCurrent (λ s. s) (λ n. []) tracked) (project_runs (λ s. s) (λ n. []) topology tracked)
    × IsOrdered (project_runs (λ s. s) (λ n. []) topology tracked)
    × All
        (λ p.
          IsRunPane (λ s. s) (λ n. []) topology tracked p
          → Any
              (λ r. r.pane_id ≡ p.pane.pane_id)
              (project_runs (λ s. s) (λ n. []) topology tracked))
        topology.panes
project_runs-check_generation_example =
    project_runs-check_generation (λ s. s) (λ n. []) topology tracked

-- ===== src/State/Engine.antt =====
-- `Engine` of internal/state/engine.go. The topology is abstract: `panes_of` gives its panes,
-- `statuses_of` the agent statuses of its workspaces, agents and panes, `hash` is `hashTopology`, and `size` the
-- length of a snapshot as JSON, `none` when that fails. A `*Subscription` is an address in `queues`.
use herdr_phone.Base.{
  ℕ, ◌+◌, List, [], ◌∷◌, Bool, true, false, ◌||◌, Option, none, some, ltb, ◌==◌, Str, bytes, str_eq,
  lookup, insert, if◌then◌else◌, length,
}
use Prim.Native.Nat.{◌%◌}
use herdr_phone.State.Generations.{Pane, Panes, update_generations}
use herdr_phone.State.Subscriber.{Snapshot, Subscription, new_subscription, close, enqueue}

pub record Engine (T : Type 0) : Type 0 where
  pub poll_hot : ℕ
  pub poll_cold : ℕ
  pub max_items : ℕ
  pub max_bytes : ℕ
  pub current : Option (Snapshot T)
  pub panes : Panes
  pub seq : ℕ
  pub queues : List (Str × Subscription T)
  pub subs : List Str
  pub last_poll_err : Option Str
  pub last_poll_at : ℕ
  pub polls : ℕ

abbrev pub min_poll_hot : ℕ
min_poll_hot = 250_000_000

abbrev pub default_poll_hot : ℕ
default_poll_hot = 1_500_000_000

abbrev pub default_poll_cold : ℕ
default_poll_cold = 12_000_000_000

unfoldable pub hot_interval : ℕ → ℕ
hot_interval hot =
    let set = if hot == 0 then default_poll_hot else hot in
    if ltb set min_poll_hot then min_poll_hot else set

unfoldable pub cold_interval : ℕ → ℕ → ℕ
cold_interval hot cold =
    let set = if cold == 0 then default_poll_cold else cold in if ltb set hot then hot else set

-- `New`, for a source and a clock; a duration or bound that is not positive is 0.
unfoldable pub new_engine : {T : Type 0} → ℕ → ℕ → ℕ → ℕ → Engine T
new_engine hot cold items bytes = record {
  poll_hot = hot_interval hot;
  poll_cold = cold_interval (hot_interval hot) cold;
  max_items = if items == 0 then 8 else items;
  max_bytes = if bytes == 0 then 4_194_304 else bytes;
  current = none;
  panes = record { generations = []; occupants = [] };
  seq = 0;
  queues = [];
  subs = [];
  last_poll_err = none;
  last_poll_at = 0;
  polls = 0;
}

-- What `Source.Snapshot` came to; the topology may be nil.
pub data PollOutcome (T : Type 0) : Type 0 where
  poll_failed : Str → PollOutcome T
  poll_read : Option T → PollOutcome T

-- The loops of `active`: whether an agent works or is blocked.
unfoldable pub is_active : List Str → Bool
is_active [] = false
is_active (status ∷ rest) =
    if str_eq status (bytes "working") || str_eq status (bytes "blocked")
    then true
    else is_active rest

unfoldable pub without : Str → List Str → List Str
without a [] = []
without a (b ∷ subs) = if str_eq a b then without a subs else b ∷ without a subs

module _ {T : Type 0} where
  unfoldable pub deliver :
      List (Str × Subscription T)
      → Str
      → Snapshot T
      → Option (Subscription T)
      → List (Str × Subscription T) × Bool
  deliver queues a snap none = (queues, false)
  deliver queues a snap (some q) = (insert a (enqueue q snap).0 queues, (enqueue q snap).1)

  -- `broadcastLocked`: the queues after it, and the addresses that stay registered.
  unfoldable pub broadcast :
      List (Str × Subscription T) → List Str → Snapshot T → List (Str × Subscription T) × List Str
  broadcast queues [] snap = (queues, [])
  broadcast queues (a ∷ subs) snap =
      let (queues', served) = deliver queues a snap (lookup a queues) in
      let (queues'', rest) = broadcast queues' subs snap in
      (queues'', if served then a ∷ rest else rest)

  unfoldable pub subscribe : Engine T → Str → Engine T
  subscribe e a =
      let q = new_subscription e.max_items e.max_bytes in
      elim e.current [
        | none ↦ record e { queues = insert a q e.queues; subs = a ∷ e.subs }
        | some snap ↦ record e {
          queues = insert a (enqueue q snap).0 e.queues;
          subs = if (enqueue q snap).1 then a ∷ e.subs else e.subs;
        }
      ]

  unfoldable pub close_at : List (Str × Subscription T) → Str → List (Str × Subscription T)
  close_at queues a = elim (lookup a queues) [ none ↦ queues | some q ↦ insert a (close q) queues ]

  unfoldable pub unsubscribe : Engine T → Str → Engine T
  unsubscribe e a = record e { subs = without a e.subs; queues = close_at e.queues a }

module _ {T : Type 0} (panes_of : T → List Pane) (statuses_of : T → List Str) (hash : T → Str)
    (size : ℕ → Str → T → List (Str × ℕ) → Option ℕ) where
  unfoldable pub desired_interval : Engine T → ℕ
  desired_interval e = if ltb 0 (length e.subs) then e.poll_hot else elim e.current [
    | none ↦ e.poll_cold
    | some s ↦ if is_active (statuses_of s.topology) then e.poll_hot else e.poll_cold
  ]

  unfoldable pub wire_size : ℕ → T → Panes → ℕ
  wire_size seq topo p = elim (size seq (hash topo) topo p.generations) [
    | none ↦ 9_223_372_036_854_775_807
    | some n ↦ n
  ]

  abbrev pub snapshot_of : ℕ → T → Panes → Snapshot T
  snapshot_of seq topo p = record {
    seq = seq;
    hash = hash topo;
    topology = topo;
    generations = p.generations;
    bytes = wire_size seq topo p;
  }

  abbrev pub unchanged : Option (Snapshot T) → Str → Bool
  unchanged none h = false
  unchanged (some s) h = str_eq s.hash h

  unfoldable pub publish : Engine T → T → Engine T
  publish e topo =
      let seq = (e.seq + 1) % 18_446_744_073_709_551_616 in
      let snap = snapshot_of seq topo e.panes in
      let (queues', subs') = broadcast e.queues e.subs snap in
      record e { seq = seq; current = some snap; queues = queues'; subs = subs' }

  -- `apply`, at the time `now`.
  unfoldable pub apply : Engine T → PollOutcome T → ℕ → Engine T
  apply e (poll_failed err) now = record e {
    polls = e.polls + 1;
    last_poll_at = now;
    last_poll_err = some err;
  }
  apply e (poll_read none) now = record e {
    polls = e.polls + 1;
    last_poll_at = now;
    last_poll_err = none;
  }
  apply e (poll_read (some topo)) now =
      let e' = record e {
        polls = e.polls + 1;
        last_poll_at = now;
        last_poll_err = none;
        panes = update_generations e.panes (panes_of topo);
      } in
      if unchanged e'.current (hash topo) then e' else publish e' topo

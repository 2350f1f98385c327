-- ===== src/State/Subscriber.antt =====
-- The client queues of internal/state/subscriber.go. A `Subscription` holds at most the newest
-- snapshot. `notify`, a channel of one slot, is a flag.
use herdr_phone.Base.{
  ℕ, List, [], ◌∷◌, ◌++◌, Bool, true, false, ◌||◌, Option, none, some, ltb, ◌==◌, Str, length,
  if◌then◌else◌,
}

pub record Snapshot (Topology : Type 0) : Type 0 where
  pub seq : ℕ
  pub hash : Str
  pub topology : Topology
  pub generations : List (Str × ℕ)
  pub bytes : ℕ

pub record Subscription (Topology : Type 0) : Type 0 where
  pub max_items : ℕ
  pub max_bytes : ℕ
  pub pending : List (Snapshot Topology)
  pub bytes : ℕ
  pub closed : Bool
  pub overflow : Bool
  pub notified : Bool

module _ {T : Type 0} where
  unfoldable pub new_subscription : ℕ → ℕ → Subscription T
  new_subscription max_items max_bytes = record {
    max_items = max_items;
    max_bytes = max_bytes;
    pending = [];
    bytes = 0;
    closed = false;
    overflow = false;
    notified = false;
  }

  unfoldable pub close : Subscription T → Subscription T
  close s = if s.closed then s else record s { closed = true; pending = []; bytes = 0 }

  -- `Drain`, with the snapshots it hands out.
  unfoldable pub drain : Subscription T → Subscription T × List (Snapshot T)
  drain s =
      if length s.pending == 0 then (s, []) else (record s { pending = []; bytes = 0 }, s.pending)

  unfoldable pub latest : List (Snapshot T) → Option (Snapshot T)
  latest [] = none
  latest (a ∷ []) = some a
  latest (a ∷ b ∷ p) = latest (b ∷ p)

  -- `pending[len(pending)-1:]` when that holds more than one.
  abbrev newest : List (Snapshot T) → List (Snapshot T)
  newest p = elim (latest p) [ none ↦ [] | some a ↦ a ∷ [] ]

  unfoldable pub coalesce : Subscription T → Snapshot T → Subscription T
  unfolding latest
  coalesce s snap =
      let pending = s.pending ++ snap ∷ [] in
      record s {
        pending = if ltb 1 (length pending) then newest pending else pending;
        bytes = snap.bytes;
      }

  -- `enqueue`, and whether the client is still served.
  unfoldable pub enqueue : Subscription T → Snapshot T → Subscription T × Bool
  unfolding close
  enqueue s snap =
      if s.closed
      then (s, false)
      else let s' = coalesce s snap in
        if ltb s'.max_bytes s'.bytes || ltb s'.max_items (length s'.pending)
        then (close (record s' { overflow = true }), false)
        else (record s' { notified = true }, true)

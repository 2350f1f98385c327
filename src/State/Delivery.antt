-- ===== src/State/Delivery.antt =====
-- What reaches the clients of internal/state: `enqueue` of subscriber.go, and the broadcast of
-- engine.go.
use herdr_phone.Base.{
  ℕ, ◌+◌, ◌≤◌, ◌<◌, List, [], ◌∷◌, ◌++◌, ◌≡◌, ◌⊎◌, refl, sym, ap, ◌∙◌, Bool, true, false, Option,
  none, some, arith, ltb, Str, str_eq, str_eq_iff, str_eq_refl, lookup, lookup-insert,
  if◌then◌else◌, Bool-cases, length, length-append, inl, inr,
}
use Prim.Native.Nat.{◌%◌}
use herdr_phone.State.Generations.{Pane, update_generations}
use herdr_phone.State.Subscriber.{Snapshot, Subscription, latest, coalesce, drain, enqueue}
use herdr_phone.State.Engine.{
  Engine, poll_read, deliver, broadcast, snapshot_of, unchanged, publish, apply,
}

module _ {T : Type 0} where
  latest-append : (p : List (Snapshot T)) (a : Snapshot T) → latest (p ++ a ∷ []) ≡ some a
  unfolding latest
  latest-append [] a = refl
  latest-append (b ∷ []) a = refl
  latest-append (b ∷ c ∷ p) a = latest-append (c ∷ p) a

  over_one : (p : List (Snapshot T)) (a b : Snapshot T) → ltb 1 (length (b ∷ p ++ a ∷ [])) ≡ true
  over_one p a b = ground (arith, length-append p (a ∷ []))

  coalesced :
      (s : Subscription T) (snap : Snapshot T)
      → coalesce s snap ≡ record s { pending = snap ∷ []; bytes = snap.bytes }
  unfolding coalesce
  coalesced s snap =
      ap (λ (p : List (Snapshot T)). record s { pending = p; bytes = snap.bytes })
        (of_pending s.pending)
    where
      of_pending :
          (p : List (Snapshot T))
          → (if ltb 1 (length (p ++ snap ∷ []))
              then elim (latest (p ++ snap ∷ [])) [ none ↦ [] | some a ↦ a ∷ [] ]
              else p ++ snap ∷ [])
            ≡ snap ∷ []
      of_pending [] = refl
      of_pending (b ∷ p) = rw (over_one p snap b, latest-append (b ∷ p) snap) refl

  -- `enqueue` on an open queue. A snapshot within the client's budget replaces all that was waiting:
  -- the client drains it and it alone. One beyond the budget closes the queue, which then holds
  -- nothing, and marks it as overflowed.
  pub enqueue_lem :
      (s : Subscription T) (snap : Snapshot T)
      → s.closed ≡ false
      → (snap.bytes ≤ s.max_bytes
          → 1 ≤ s.max_items
          → ((enqueue s snap).1 ≡ true)
            × ((drain (enqueue s snap).0).1 ≡ snap ∷ [])
            × ((enqueue s snap).0.bytes ≡ snap.bytes))
        × ((s.max_bytes < snap.bytes) ⊎ (s.max_items ≡ 0)
            → ((enqueue s snap).1 ≡ false)
              × ((enqueue s snap).0.closed ≡ true)
              × ((enqueue s snap).0.overflow ≡ true)
              × ((drain (enqueue s snap).0).1 ≡ []))
  unfolding enqueue drain
  enqueue_lem s snap served =
      rw (coalesced s snap)
        (λ fits room. ground (arith, served, fits, room), λ over. ground (arith, served, over))

-- Whether an address is registered.
unfoldable pub is_registered : Str → List Str → Bool
is_registered a [] = false
is_registered a (b ∷ subs) = if str_eq b a then true else is_registered a subs

kept_registered :
    (a b : Str) (served : Bool) (rest : List Str)
    → (str_eq b a ≡ true
        → is_registered a (if served then b ∷ rest else rest)
          ≡ (if served then true else is_registered a rest))
      × (str_eq b a ≡ false
          → is_registered a (if served then b ∷ rest else rest) ≡ is_registered a rest)
unfolding is_registered
kept_registered a b true rest = (λ h. rw h refl, λ h. rw h refl)
kept_registered a b false rest = (λ h. refl, λ h. refl)

if_eta : (c : Bool) → (if c then true else false) ≡ c
if_eta true = refl
if_eta false = refl

-- No address is registered twice: `subs` is a set.
abbrev pub AllDistinct : List Str → Type 0
AllDistinct [] = Unit
AllDistinct (a ∷ subs) = (is_registered a subs ≡ false) × AllDistinct subs

module _ {T : Type 0} where
  deliver_other :
      (queues : List (Str × Subscription T)) (b a : Str) (snap : Snapshot T)
      (o : Option (Subscription T))
      → str_eq b a ≡ false
      → lookup a (deliver queues b snap o).0 ≡ lookup a queues
  unfolding deliver
  deliver_other queues b a snap none h = refl
  deliver_other queues b a snap (some q) h = lookup-insert b a (enqueue q snap).0 queues ∙ rw h refl

  deliver_own :
      (queues : List (Str × Subscription T)) (a : Str) (snap : Snapshot T) (q : Subscription T)
      → lookup a (deliver queues a snap (some q)).0 ≡ some (enqueue q snap).0
  unfolding deliver
  deliver_own queues a snap q =
      lookup-insert a a (enqueue q snap).0 queues ∙ rw (str_eq_refl a) refl

  deliver_served :
      (queues : List (Str × Subscription T)) (a : Str) (snap : Snapshot T) (q : Subscription T)
      → (deliver queues a snap (some q)).1 ≡ (enqueue q snap).1
  unfolding deliver
  deliver_served queues a snap q = refl

  -- A broadcast to distinct addresses, for an address with a queue: if it is registered the
  -- snapshot is enqueued there once, and it stays registered exactly if it is still served; if not,
  -- its queue is untouched and it is still not registered.
  pub broadcast_lem :
      (queues : List (Str × Subscription T)) (subs : List Str) (snap : Snapshot T) (a : Str)
      (q : Subscription T)
      → AllDistinct subs
      → lookup a queues ≡ some q
      → (lookup a (broadcast queues subs snap).0
          ≡ some (if is_registered a subs then (enqueue q snap).0 else q))
        × (is_registered a (broadcast queues subs snap).1
            ≡ (if is_registered a subs then (enqueue q snap).1 else false))
  unfolding broadcast is_registered
  broadcast_lem queues [] snap a q set at = (at, refl)
  broadcast_lem queues (b ∷ subs) snap a q (once, set) at = elim (Bool-cases (str_eq b a)) [
    | inl same ↦
        let id = (str_eq_iff b a).0 same in
        let found : lookup b queues ≡ some q = ap (λ k. lookup k queues) id ∙ at in
        let own : lookup a (deliver queues b snap (some q)).0 ≡ some (enqueue q snap).0 =
          ap (λ k. lookup a (deliver queues k snap (some q)).0) id ∙ deliver_own queues a snap q in
        let fresh = ap (λ k. is_registered k subs) (sym id) ∙ once in
        let (at', gone) =
          broadcast_lem (deliver queues b snap (some q)).0 subs snap a (enqueue q snap).0 set own in
        rw (found, same)
          (
            at' ∙ rw fresh refl,
            (kept_registered a b (deliver queues b snap (some q)).1 _).0 same
                ∙ rw (gone, fresh, deliver_served queues b snap q) (if_eta (enqueue q snap).1),
          )
    | inr differs ↦
        let (at', kept) =
          broadcast_lem (deliver queues b snap (lookup b queues)).0 subs snap a q set
            (deliver_other queues b a snap (lookup b queues) differs ∙ at) in
        rw differs (
          at',
          (kept_registered a b (deliver queues b snap (lookup b queues)).1 _).1 differs ∙ kept,
        )
  ]

module _ {T : Type 0} (panes_of : T → List Pane) (statuses_of : T → List Str) (hash : T → Str)
    (size : ℕ → Str → T → List (Str × ℕ) → Option ℕ) where
  -- The snapshot that a poll of a new topology publishes.
  abbrev pub published : Engine T → T → Snapshot T
  published e topo =
      snapshot_of panes_of statuses_of hash size ((e.seq + 1) % 18_446_744_073_709_551_616) topo
        (update_generations e.panes (panes_of topo))

  -- When a poll shows a topology with another hash than the current one, and the registered
  -- addresses are distinct: a registered client that is open and has room for the new snapshot
  -- stays registered, and drains that snapshot next and alone. It is the current one, with the
  -- generations of its panes.
  pub apply_delivers :
      (e : Engine T) (topo : T) (now : ℕ) (a : Str) (q : Subscription T)
      → AllDistinct e.subs
      → lookup a e.queues ≡ some q
      → is_registered a e.subs ≡ true
      → q.closed ≡ false
      → 1 ≤ q.max_items
      → (published e topo).bytes ≤ q.max_bytes
      → unchanged panes_of statuses_of hash size e.current (hash topo) ≡ false
      → let e' = apply panes_of statuses_of hash size e (poll_read (some topo)) now in
        (e'.current ≡ some (published e topo))
        × ((published e topo).generations ≡ e'.panes.generations)
        × (is_registered a e'.subs ≡ true)
        × ((q' : Subscription T) × (lookup a e'.queues ≡ some q')
            × ((drain q').1 ≡ published e topo ∷ []))
  unfolding apply publish
  apply_delivers e topo now a q set at registered served room fits changed =
      let snap = published e topo in
      let (found, kept) = broadcast_lem e.queues e.subs snap a q set at in
      let (ok, drained, _) = (enqueue_lem q snap served).0 fits room in
      rw changed (
        refl,
        refl,
        kept ∙ rw registered ok,
        ((enqueue q snap).0, found ∙ rw registered refl, drained),
      )

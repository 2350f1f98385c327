-- ===== src/Stores/IdemHistory.antt =====
-- What the idempotency cache of internal/server/stores.go guarantees across calls: an entry that has
-- not expired outlives every call that is not its owner's.
use herdr_phone.Base.{
  ℕ, ◌+◌, ◌≤◌, List, [], ◌∷◌, ◌≡◌, ◌≢◌, refl, false, some, arith, Str, str_eq, str_eq_iff,
  str_eq_refl, ◌∙◌, lookup, prune, lookup-insert, lookup-delete, lookup-prune, IsMap, insert-IsMap,
  delete-IsMap, prune-IsMap, if◌then◌else◌, All,
}
use herdr_phone.Stores.Idem.{
  IdemEntry, idem_reserved, idem_in_flight, idem_done, idem_mismatch, IdemStore, zero_entry,
  idem_expired, peek, reservation, held, reserve, complete, release,
}

-- One call on the store, with its readings of the clock.
pub data Call : Type 0 where
  peeks : Str → Str → ℕ → Call
  reserves : Str → Str → ℕ → ℕ → ℕ → Call
  completes : Str → Str → ℕ → Str → ℕ → ℕ → Call
  releases : Str → Call

unfoldable pub after : IdemStore → Call → IdemStore
after m (peeks key fp now) = (peek m key fp now).0
after m (reserves key fp ttl now later) = (reserve m key fp ttl now later).0
after m (completes key fp status body ttl now) = complete m key fp status body ttl now
after m (releases key) = release m key

unfoldable pub run : IdemStore → List Call → IdemStore
run m [] = m
run m (c ∷ cs) = run (after m c) cs

-- A call made no later than `limit` that neither completes nor releases `key`.
abbrev pub Foreign : Str → ℕ → Call → Type 0
Foreign key limit (peeks k fp now) = now ≤ limit
Foreign key limit (reserves k fp ttl now later) = now ≤ limit
Foreign key limit (completes k fp status body ttl now) = key ≢ k
Foreign key limit (releases k) = key ≢ k

pub after-IsMap : (m : IdemStore) (c : Call) → IsMap m → IsMap (after m c)
unfolding after peek reserve complete release
after-IsMap m (peeks key fp now) h = ground (arith, delete-IsMap key m h)
after-IsMap m (reserves key fp ttl now later) h = ground (
  arith,
  prune-IsMap (idem_expired now) m h,
  insert-IsMap key (reservation fp (later + ttl)) (prune (idem_expired now) m),
)
after-IsMap m (completes key fp status body ttl now) h = insert-IsMap key _ m h
after-IsMap m (releases key) h = ground (arith, delete-IsMap key m h)

after_keeps :
    (key : Str) (e : IdemEntry) (m : IdemStore) (c : Call)
    → IsMap m
    → lookup key m ≡ some e
    → Foreign key e.expires_at c
    → lookup key (after m c) ≡ some e
unfolding after peek reserve complete release
after_keeps key e m (peeks k fp now) h at f =
    ground (arith, lookup-delete k key m, str_eq_iff k key)
after_keeps key e m (reserves k fp ttl now later) h at f = ground (
  arith,
  str_eq_iff k key,
  lookup-prune (idem_expired now) key m h,
  lookup-insert k key (reservation fp (later + ttl)) (prune (idem_expired now) m),
)
after_keeps key e m (completes k fp status body ttl now) h at f =
    rw (lookup-insert k key _ m) (ground (arith, str_eq_iff k key))
after_keeps key e m (releases k) h at f = ground (arith, lookup-delete k key m, str_eq_iff k key)

pub run_keeps :
    (key : Str) (e : IdemEntry) (m : IdemStore) (cs : List Call)
    → IsMap m
    → lookup key m ≡ some e
    → All (Foreign key e.expires_at) cs
    → IsMap (run m cs) × (lookup key (run m cs) ≡ some e)
unfolding run
run_keeps key e m [] h at f = (h, at)
run_keeps key e m (c ∷ cs) h at f =
    run_keeps key e (after m c) cs (after-IsMap m c h) (after_keeps key e m c h at f.0) f.1

-- `reserve` and `peek` at a key whose entry is live.
pub reserve-held :
    (m : IdemStore) (key fp : Str) (ttl now later : ℕ) (e : IdemEntry)
    → IsMap m
    → lookup key m ≡ some e
    → now ≤ e.expires_at
    → ((reserve m key fp ttl now later).1 ≡ (held e fp).0)
      × ((reserve m key fp ttl now later).2 ≡ (held e fp).1)
unfolding reserve
reserve-held m key fp ttl now later e h at live =
    ground (arith, lookup-prune (idem_expired now) key m h)

pub peek-held :
    (m : IdemStore) (key fp : Str) (now : ℕ) (e : IdemEntry)
    → lookup key m ≡ some e
    → now ≤ e.expires_at
    → e.pending ≡ false
    → ((peek m key fp now).1 ≡ (held e fp).0) × ((peek m key fp now).2 ≡ (held e fp).1)
unfolding peek held
peek-held m key fp now e at live done = ground arith

reserve_stores :
    (m : IdemStore) (key fp : Str) (ttl now later : ℕ)
    → (reserve m key fp ttl now later).2 ≡ idem_reserved
    → lookup key (reserve m key fp ttl now later).0 ≡ some (reservation fp (later + ttl))
unfolding reserve
reserve_stores m key fp ttl now later r = ground (
  arith,
  str_eq_refl key,
  lookup-insert key key (reservation fp (later + ttl)) (prune (idem_expired now) m),
)

reserve-IsMap :
    (m : IdemStore) (key fp : Str) (ttl now later : ℕ)
    → IsMap m
    → IsMap (reserve m key fp ttl now later).0
unfolding after
reserve-IsMap m key fp ttl now later h = after-IsMap m (reserves key fp ttl now later) h

abbrev pub completed : Str → ℕ → Str → ℕ → IdemEntry
completed fp status body expires = record {
  status = status;
  body = body;
  expires_at = expires;
  pending = false;
  fingerprint = fp;
}

pub complete-IsMap :
    (m : IdemStore) (key fp : Str) (status : ℕ) (body : Str) (ttl now : ℕ)
    → IsMap m
    → IsMap (complete m key fp status body ttl now)
unfolding complete
complete-IsMap m key fp status body ttl now h = insert-IsMap key _ m h

pub complete_stores :
    (m : IdemStore) (key fp : Str) (status : ℕ) (body : Str) (ttl now : ℕ)
    → lookup key (complete m key fp status body ttl now)
      ≡ some (completed fp status body (now + ttl))
unfolding complete
complete_stores m key fp status body ttl now =
    rw (lookup-insert key key (completed fp status body (now + ttl)) m) (rw (str_eq_refl key) refl)

pub held_pending :
    (fp fp' : Str) (expires : ℕ)
    → (held (reservation fp expires) fp').1
      ≡ (if str_eq fp fp' then idem_in_flight else idem_mismatch)
unfolding held
held_pending fp fp' expires = ground arith

pub held_done :
    (fp fp' : Str) (status : ℕ) (body : Str) (expires : ℕ)
    → ((held (completed fp status body expires) fp').0
        ≡ (if str_eq fp fp' then completed fp status body expires else zero_entry))
      × ((held (completed fp status body expires) fp').1
          ≡ (if str_eq fp fp' then idem_done else idem_mismatch))
unfolding held
held_done fp fp' status body expires = ground arith

-- In a cache that holds each key once: while a reservation is live, and whatever calls are made
-- that neither complete nor release its key, no second caller gets the key. One with the same
-- fingerprint is told that it is in flight, and another that the id is taken.
pub reserve-reserve :
    (m : IdemStore) (key fp fp' : Str) (ttl now later ttl' now' later' : ℕ) (cs : List Call)
    → IsMap m
    → (reserve m key fp ttl now later).2 ≡ idem_reserved
    → All (Foreign key (later + ttl)) cs
    → now' ≤ later + ttl
    → (reserve (run (reserve m key fp ttl now later).0 cs) key fp' ttl' now' later').2
      ≡ (if str_eq fp fp' then idem_in_flight else idem_mismatch)
reserve-reserve m key fp fp' ttl now later ttl' now' later' cs h r f live =
    let (kept_map, at) =
      run_keeps key (reservation fp (later + ttl)) (reserve m key fp ttl now later).0 cs
        (reserve-IsMap m key fp ttl now later h) (reserve_stores m key fp ttl now later r) f in
    (reserve-held _ key fp' ttl' now' later' (reservation fp (later + ttl)) kept_map at live).1
    ∙ held_pending fp fp' (later + ttl)

-- In a cache that holds each key once: a completed response is handed to callers with its
-- fingerprint until it expires, by `peek` and by `reserve`, whatever calls are made that neither
-- complete nor release its key; a caller with another fingerprint is told of a mismatch and gets
-- none of it.
pub reserve-complete :
    (m : IdemStore) (key fp fp' : Str) (status : ℕ) (body : Str) (ttl now ttl' now' later' : ℕ)
    (cs : List Call)
    → IsMap m
    → All (Foreign key (now + ttl)) cs
    → now' ≤ now + ttl
    → let m' = run (complete m key fp status body ttl now) cs in
      let e = if str_eq fp fp' then completed fp status body (now + ttl) else zero_entry in
      let answer = if str_eq fp fp' then idem_done else idem_mismatch in
      ((peek m' key fp' now').1 ≡ e)
      × ((peek m' key fp' now').2 ≡ answer)
      × ((reserve m' key fp' ttl' now' later').1 ≡ e)
      × ((reserve m' key fp' ttl' now' later').2 ≡ answer)
reserve-complete m key fp fp' status body ttl now ttl' now' later' cs h f live =
    let entry = completed fp status body (now + ttl) in
    let (kept_map, at) =
      run_keeps key entry (complete m key fp status body ttl now) cs
        (complete-IsMap m key fp status body ttl now h)
        (complete_stores m key fp status body ttl now) f in
    let p = peek-held _ key fp' now' entry at live refl in
    let r = reserve-held _ key fp' ttl' now' later' entry kept_map at live in
    let d = held_done fp fp' status body (now + ttl) in (p.0 ∙ d.0, p.1 ∙ d.1, r.0 ∙ d.0, r.1 ∙ d.1)

-- ===== src/Auth/History.antt =====
-- What histories of calls on the session store of internal/auth/session.go keep.
use herdr_phone.Base.{
  ℕ, ◌+◌, ◌≤◌, List, [], ◌∷◌, ◌≡◌, refl, ◌∙◌, not, ◌&&◌, Option, none, some, arith, ltb, Str,
  str_eq, lookup, insert, prune, IsMap, Each, Each-lookup, Each-insert, Each-delete, Each-prune,
  insert-IsMap, delete-IsMap, prune-IsMap, if◌then◌else◌, if_both, str_lt, ◌==◌, Option-cases, inl,
  inr,
}
use herdr_phone.Auth.Session.{
  Identity, Session, SessionStore, new_session_store, session_expiry, new_session, create,
  session_expired, seen, get, get_found, candidate, scan, get_by_identity, remove_session, gc_loop,
  gc, is_empty, better, identity_subject,
}
use herdr_phone.Auth.Lifetime.{dead}

-- One call on the store: with the draws of the entropy source for a `Create`, and the time.
pub data Call : Type 0 where
  creates : Identity → ℕ → Option Str → Option Str → Option Str → ℕ → Call
  gets : Str → ℕ → Call
  gets_by : Identity → ℕ → Call
  removes : Str → Call
  collects : ℕ → Call

unfoldable pub after : SessionStore → Call → SessionStore
after s (creates id hard sid csrf audit now) = (create s id hard sid csrf audit now).0
after s (gets id now) = (get s id now).0
after s (gets_by id now) = (get_by_identity s id now).0
after s (removes id) = remove_session s id
after s (collects now) = (gc s now).0

unfoldable pub run : SessionStore → List Call → SessionStore
run s [] = s
run s (c ∷ cs) = run (after s c) cs

-- Every session is stored under its own id, and expires within the lifetime of its creation.
abbrev pub Owns : ℕ → Str → Session → Type 0
Owns ttl k sess = (sess.id ≡ k) × (sess.expires_at ≤ sess.created_at + ttl)

pub record IsSound (s : SessionStore) : Type 0 where
  pub is_map : IsMap s.sessions
  pub owned : Each (Owns s.ttl) s.sessions

pub gc_loop-prune :
    (s : SessionStore) (now : ℕ) (m : List (Str × Session))
    → (gc_loop s now m).0 ≡ prune (dead s now) m
unfolding gc_loop prune
gc_loop-prune s now [] = refl
gc_loop-prune s now ((id, sess) ∷ m) = ground (arith, gc_loop-prune s now m)

pub scan-prune :
    (s : SessionStore) (key : Str) (now : ℕ) (m : List (Str × Session)) (best : Option Session)
    → (scan s key now m best).0 ≡ prune (dead s now) m
unfolding scan prune
scan-prune s key now [] best = refl
scan-prune s key now ((sid, sess) ∷ m) best = ground (
  arith,
  scan-prune s key now m (if session_expired s sess now then best else candidate key sess best),
)

-- A property of all sessions and of the first candidate holds of what the scan finds.
module _ (Q : Session → Type 0) where
  abbrev pub Holds : Option Session → Type 0
  Holds none = Unit
  Holds (some b) = Q b

  candidate-Holds :
      (key : Str) (sess : Session) (best : Option Session)
      → Q sess
      → Holds best
      → Holds (candidate key sess best)
  unfolding better
  candidate-Holds key sess none q h =
      if_both Holds (not (str_eq (identity_subject sess.identity) key)) (λ _. tt) (λ _. q)
  candidate-Holds key sess (some b) q h =
      if_both Holds (not (str_eq (identity_subject sess.identity) key)) (λ _. h)
        λ _.
          if_both Holds (ltb b.created_at sess.created_at) (λ _. q)
            λ _.
              if_both Holds (sess.created_at == b.created_at && str_lt b.id sess.id) (λ _. q)
                (λ _. h)

  pub scan-Holds :
      (s : SessionStore) (key : Str) (now : ℕ) (m : List (Str × Session)) (best : Option Session)
      → Each (λ k sess. Q sess) m
      → Holds best
      → Holds (scan s key now m best).1
  unfolding scan
  scan-Holds s key now [] best e h = h
  scan-Holds s key now ((sid, sess) ∷ m) best e h = scan-Holds s key now m _ e.1 (
      if_both Holds (session_expired s sess now) (λ _. h)
        (λ _. candidate-Holds key sess best e.0 h))

pub Each-map :
    (P Q : Str → Session → Type 0) (m : List (Str × Session))
    → ((k : Str) (sess : Session) → P k sess → Q k sess)
    → Each P m
    → Each Q m
Each-map P Q [] f h = tt
Each-map P Q ((k, sess) ∷ m) f h = (f k sess h.0, Each-map P Q m f h.1)

session_expiry-le : (ttl hard now : ℕ) → session_expiry ttl hard now ≤ now + ttl
unfolding session_expiry
session_expiry-le ttl hard now = ground arith

create-IsSound :
    (s : SessionStore) (id : Identity) (hard : ℕ) (sid csrf audit : Option Str) (now : ℕ)
    → IsSound s
    → IsSound (create s id hard sid csrf audit now).0
unfolding create
create-IsSound s id hard none csrf audit now h = h
create-IsSound s id hard (some sid) none audit now h = h
create-IsSound s id hard (some sid) (some csrf) none now h = h
create-IsSound s id hard (some sid) (some csrf) (some audit) now h = record {
  is_map = insert-IsMap sid _ s.sessions h.is_map;
  owned =
      Each-insert (Owns s.ttl) sid (new_session s id hard now sid csrf audit) s.sessions
        (refl, session_expiry-le s.ttl hard now) h.owned;
}

get-IsSound : (s : SessionStore) (id : Str) (now : ℕ) → IsSound s → IsSound (get s id now).0
unfolding get get_found
get-IsSound s id now h =
    if_both (λ (r : SessionStore × Option Session). IsSound r.0) (is_empty id) (λ _. h)
      λ _. elim (Option-cases (lookup id s.sessions)) [
        | inl e ↦ rw e h
        | inr (old, e) ↦ rw e (
            if_both (λ (r : SessionStore × Option Session). IsSound r.0) (session_expired s old now)
              (λ _. record {
                is_map = delete-IsMap id s.sessions h.is_map;
                owned = Each-delete (Owns s.ttl) id s.sessions h.owned;
              })
              (λ _. record {
                is_map = insert-IsMap id (seen old now) s.sessions h.is_map;
                owned =
                    Each-insert (Owns s.ttl) id (seen old now) s.sessions
                      (Each-lookup (Owns s.ttl) id s.sessions h.owned e) h.owned;
              }))
      ]

pruned-IsSound :
    (s : SessionStore) (now : ℕ)
    → IsSound s
    → IsSound (record s { sessions = prune (dead s now) s.sessions })
pruned-IsSound s now h = record {
  is_map = prune-IsMap (dead s now) s.sessions h.is_map;
  owned = Each-prune (Owns s.ttl) (dead s now) s.sessions h.owned;
}

gc-IsSound : (s : SessionStore) (now : ℕ) → IsSound s → IsSound (gc s now).0
unfolding gc
gc-IsSound s now h = rw (gc_loop-prune s now s.sessions) (pruned-IsSound s now h)

-- What `GetByIdentity` leaves, by what its scan finds.
unfoldable pub identity_result :
    SessionStore → ℕ → List (Str × Session) → Option Session → SessionStore × Option Session
identity_result s now live none = (record s { sessions = live }, none)
identity_result s now live (some b) =
    (record s { sessions = insert b.id (seen b now) live }, some (seen b now))

pub get_by_identity-result :
    (s : SessionStore) (id : Identity) (now : ℕ)
    → get_by_identity s id now ≡ (
        if is_empty (identity_subject id)
        then (s, none)
        else identity_result s now
            (prune (dead s now) s.sessions)
            (scan s (identity_subject id) now s.sessions none).1)
unfolding get_by_identity identity_result
get_by_identity-result s id now =
    ground (arith, scan-prune s (identity_subject id) now s.sessions none)

identity_result-IsSound :
    (s : SessionStore) (now : ℕ) (live : List (Str × Session)) (best : Option Session)
    → IsSound (record s { sessions = live })
    → Holds (λ b. b.expires_at ≤ b.created_at + s.ttl) best
    → IsSound (identity_result s now live best).0
unfolding identity_result
identity_result-IsSound s now live none h q = h
identity_result-IsSound s now live (some b) h q = record {
  is_map = insert-IsMap b.id (seen b now) live h.is_map;
  owned = Each-insert (Owns s.ttl) b.id (seen b now) live (refl, q) h.owned;
}

pub get_by_identity-IsSound :
    (s : SessionStore) (id : Identity) (now : ℕ) → IsSound s → IsSound (get_by_identity s id now).0
get_by_identity-IsSound s id now h = rw (get_by_identity-result s id now) (
    if_both (λ (r : SessionStore × Option Session). IsSound r.0) (is_empty (identity_subject id))
      (λ _. h)
      (λ _. identity_result-IsSound s now _ _ (pruned-IsSound s now h) (
        scan-Holds (λ b. b.expires_at ≤ b.created_at + s.ttl) s (identity_subject id) now s.sessions
          none
          (Each-map (Owns s.ttl) (λ k b. b.expires_at ≤ b.created_at + s.ttl) s.sessions
            (λ k b o. o.1) h.owned)
          tt)))

pub after-IsSound : (s : SessionStore) (c : Call) → IsSound s → IsSound (after s c)
unfolding after remove_session
after-IsSound s (creates id hard sid csrf audit now) h =
    create-IsSound s id hard sid csrf audit now h
after-IsSound s (gets id now) h = get-IsSound s id now h
after-IsSound s (gets_by id now) h = get_by_identity-IsSound s id now h
after-IsSound s (removes id) h = record {
  is_map = delete-IsMap id s.sessions h.is_map;
  owned = Each-delete (Owns s.ttl) id s.sessions h.owned;
}
after-IsSound s (collects now) h = gc-IsSound s now h

-- After any history every session is stored under its own id, once, and expires within the lifetime
-- of its creation.
pub run-IsSound : (s : SessionStore) (cs : List Call) → IsSound s → IsSound (run s cs)
unfolding run
run-IsSound s [] h = h
run-IsSound s (c ∷ cs) h = run-IsSound (after s c) cs (after-IsSound s c h)

pub new-IsSound : (ttl idle : ℕ) → IsSound (new_session_store ttl idle)
unfolding new_session_store
new-IsSound ttl idle = record { is_map = tt; owned = tt }

create-ttl :
    (s : SessionStore) (id : Identity) (hard : ℕ) (sid csrf audit : Option Str) (now : ℕ)
    → (create s id hard sid csrf audit now).0.ttl ≡ s.ttl
unfolding create
create-ttl s id hard sid csrf audit now = ground arith

get-ttl : (s : SessionStore) (id : Str) (now : ℕ) → (get s id now).0.ttl ≡ s.ttl
unfolding get
get-ttl s id now = ground arith

get_by_identity-ttl :
    (s : SessionStore) (id : Identity) (now : ℕ) → (get_by_identity s id now).0.ttl ≡ s.ttl
unfolding get_by_identity
get_by_identity-ttl s id now = ground arith

after-ttl : (s : SessionStore) (c : Call) → (after s c).ttl ≡ s.ttl
unfolding after remove_session gc
after-ttl s (creates id hard sid csrf audit now) = create-ttl s id hard sid csrf audit now
after-ttl s (gets id now) = get-ttl s id now
after-ttl s (gets_by id now) = get_by_identity-ttl s id now
after-ttl s (removes id) = refl
after-ttl s (collects now) = refl

pub run-ttl : (s : SessionStore) (cs : List Call) → (run s cs).ttl ≡ s.ttl
unfolding run
run-ttl s [] = refl
run-ttl s (c ∷ cs) = run-ttl (after s c) cs ∙ after-ttl s c

-- ===== src/Auth/Revoked.antt =====
-- The end of a session of internal/auth/session.go: after its lifetime, and after `Delete`.
use herdr_phone.Base.{
  ℕ, List, [], ◌∷◌, ◌≡◌, ◌≢◌, refl, Option, none, some, arith, Str, str_eq_iff, str_eq_refl, lookup,
  prune, Each, Each-lookup, lookup-insert, lookup-delete, lookup-prune, if_both, All, Option-cases,
  inl, inr,
}
use herdr_phone.Auth.Session.{
  session_expired, get_found, Identity, Session, SessionStore, new_session, create, seen, get,
  get_by_identity, remove_session, gc, is_empty, identity_subject,
}
use herdr_phone.Auth.Lifetime.{dead}
use herdr_phone.Auth.History.{
  Call, creates, gets, gets_by, removes, collects, after, run, Owns, IsSound, run-IsSound,
  after-IsSound, gc_loop-prune, Holds, scan-Holds, identity_result, get_by_identity-result,
}

-- The calls that do not draw the id `k`.
abbrev pub Spares : Str → Call → Type 0
Spares k (creates id hard (some sid) csrf audit now) = sid ≢ k
Spares k _ = Unit

absent :
    (ttl : ℕ) (k : Str) (m : List (Str × Session))
    → Each (Owns ttl) m
    → lookup k m ≡ none
    → Each (λ j sess. sess.id ≢ k) m
unfolding lookup
absent ttl k [] o h = tt
absent ttl k ((j, sess) ∷ m) o h =
    (ground (arith, str_eq_refl k), absent ttl k m o.1 (ground (arith)))

identity_absent :
    (s : SessionStore) (k : Str) (now : ℕ) (live : List (Str × Session)) (best : Option Session)
    → lookup k live ≡ none
    → Holds (λ b. b.id ≢ k) best
    → lookup k (identity_result s now live best).0.sessions ≡ none
unfolding identity_result
identity_absent s k now live none h q = h
identity_absent s k now live (some b) h q =
    ground (arith, lookup-insert b.id k (seen b now) live, str_eq_iff b.id k)

create_absent :
    (s : SessionStore) (k : Str) (id : Identity) (hard : ℕ) (sid csrf audit : Option Str) (now : ℕ)
    → Spares k (creates id hard sid csrf audit now)
    → lookup k s.sessions ≡ none
    → lookup k (create s id hard sid csrf audit now).0.sessions ≡ none
unfolding create
create_absent s k id hard none csrf audit now f h = h
create_absent s k id hard (some sid) none audit now f h = h
create_absent s k id hard (some sid) (some csrf) none now f h = h
create_absent s k id hard (some sid) (some csrf) (some audit) now f h = ground (
  arith,
  lookup-insert sid k (new_session s id hard now sid csrf audit) s.sessions,
  str_eq_iff sid k,
)

get_absent :
    (s : SessionStore) (k id : Str) (now : ℕ)
    → lookup k s.sessions ≡ none
    → (lookup k (get s id now).0.sessions ≡ none) × ((get s k now).1 ≡ none)
unfolding get
get_absent s k id now h = (
  elim (Option-cases (lookup id s.sessions)) [
    | inl e ↦ ground (arith, e)
    | inr (old, e) ↦ ground (
      arith,
      e,
      lookup-delete id k s.sessions,
      lookup-insert id k (seen old now) s.sessions,
      str_eq_iff id k,
    )
  ],
  ground (arith, h),
)

pruned_absent :
    (s : SessionStore) (k : Str) (now : ℕ)
    → IsSound s
    → lookup k s.sessions ≡ none
    → lookup k (prune (dead s now) s.sessions) ≡ none
pruned_absent s k now h e = rw (lookup-prune (dead s now) k s.sessions h.is_map) (rw e refl)

get_by_identity_absent :
    (s : SessionStore) (k : Str) (id : Identity) (now : ℕ)
    → IsSound s
    → lookup k s.sessions ≡ none
    → lookup k (get_by_identity s id now).0.sessions ≡ none
get_by_identity_absent s k id now h e = rw (get_by_identity-result s id now) (
    if_both (λ (r : SessionStore × Option Session). lookup k r.0.sessions ≡ none)
      (is_empty (identity_subject id)) (λ _. e)
      (λ _. identity_absent s k now _ _ (pruned_absent s k now h e) (
        scan-Holds (λ b. b.id ≢ k) s (identity_subject id) now s.sessions none
          (absent s.ttl k s.sessions h.owned e) tt)))

after_absent :
    (s : SessionStore) (k : Str) (c : Call)
    → IsSound s
    → Spares k c
    → lookup k s.sessions ≡ none
    → lookup k (after s c).sessions ≡ none
unfolding after remove_session gc
after_absent s k (creates id hard sid csrf audit now) h f e =
    create_absent s k id hard sid csrf audit now f e
after_absent s k (gets id now) h f e = (get_absent s k id now e).0
after_absent s k (gets_by id now) h f e = get_by_identity_absent s k id now h e
after_absent s k (removes id) h f e = ground (arith, lookup-delete id k s.sessions)
after_absent s k (collects now) h f e =
    rw (gc_loop-prune s now s.sessions) (pruned_absent s k now h e)

run_absent :
    (s : SessionStore) (k : Str) (cs : List Call)
    → IsSound s
    → All (Spares k) cs
    → lookup k s.sessions ≡ none
    → lookup k (run s cs).sessions ≡ none
unfolding run
run_absent s k [] h f e = e
run_absent s k (c ∷ cs) h f e =
    run_absent (after s c) k cs (after-IsSound s c h) f.1 (after_absent s k c h f.0 e)

removed-IsSound : (s : SessionStore) (k : Str) → IsSound s → IsSound (remove_session s k)
unfolding after
removed-IsSound s k h = after-IsSound s (removes k) h

removed_absent : (s : SessionStore) (k : Str) → lookup k (remove_session s k).sessions ≡ none
unfolding remove_session
removed_absent s k = ground (arith, lookup-delete k k s.sessions, str_eq_refl k)

get_other :
    (s : SessionStore) (k j : Str) (now : ℕ)
    → IsSound s
    → lookup k s.sessions ≡ none
    → Holds (λ b. b.id ≢ k) (get s j now).1
unfolding get get_found
get_other s k j now h e =
    if_both (λ (r : SessionStore × Option Session). Holds (λ b. b.id ≢ k) r.1) (is_empty j)
      (λ _. tt)
      λ _. elim (Option-cases (lookup j s.sessions)) [
        | inl none_at ↦ rw none_at tt
        | inr (old, at) ↦ rw at (
            if_both (λ (r : SessionStore × Option Session). Holds (λ b. b.id ≢ k) r.1)
              (session_expired s old now) (λ _. tt)
              (λ _.
                Each-lookup (λ i b. b.id ≢ k) j s.sessions (absent s.ttl k s.sessions h.owned e)
                  at))
      ]

identity_other :
    (s : SessionStore) (k : Str) (now : ℕ) (live : List (Str × Session)) (best : Option Session)
    → Holds (λ b. b.id ≢ k) best
    → Holds (λ b. b.id ≢ k) (identity_result s now live best).1
unfolding identity_result
identity_other s k now live none q = tt
identity_other s k now live (some b) q = q

get_by_identity_other :
    (s : SessionStore) (k : Str) (id : Identity) (now : ℕ)
    → IsSound s
    → lookup k s.sessions ≡ none
    → Holds (λ b. b.id ≢ k) (get_by_identity s id now).1
get_by_identity_other s k id now h e = rw (get_by_identity-result s id now) (
    if_both (λ (r : SessionStore × Option Session). Holds (λ b. b.id ≢ k) r.1)
      (is_empty (identity_subject id)) (λ _. tt)
      (λ _. identity_other s k now _ _ (
        scan-Holds (λ b. b.id ≢ k) s (identity_subject id) now s.sessions none
          (absent s.ttl k s.sessions h.owned e) tt)))

-- After a session is deleted from a sound store, and whatever calls follow, unless one of them draws
-- its id anew: `Get` finds none under the id, and no session that `Get` or `GetByIdentity` answers
-- with, whatever they are asked for, has the id.
pub get-remove_session :
    (s : SessionStore) (k : Str) (cs : List Call) (j : Str) (id : Identity) (now : ℕ)
    → IsSound s
    → All (Spares k) cs
    → ((get (run (remove_session s k) cs) k now).1 ≡ none)
      × Holds (λ b. b.id ≢ k) (get (run (remove_session s k) cs) j now).1
      × Holds (λ b. b.id ≢ k) (get_by_identity (run (remove_session s k) cs) id now).1
get-remove_session s k cs j id now h f =
    let gone =
      run_absent (remove_session s k) k cs (removed-IsSound s k h) f (removed_absent s k) in
    let sound = run-IsSound (remove_session s k) cs (removed-IsSound s k h) in
    (
      (get_absent _ k k now gone).1,
      get_other _ k j now sound gone,
      get_by_identity_other _ k id now sound gone,
    )

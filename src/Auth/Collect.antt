-- ===== src/Auth/Collect.antt =====
-- The sweep of expired sessions in internal/auth/session.go, and the CSRF check of
-- internal/auth/csrf.go.
use herdr_phone.Base.{
  ℕ, ◌+◌, List, [], ◌∷◌, ◌≡◌, ◌↔◌, refl, sym, ap, ◌∙◌, true, false, Option, none, some, arith, Str,
  str_eq_iff, str_eq_refl, lookup, kept, lookup-prune, Option-cases, inl, inr, length,
}
use herdr_phone.Auth.Session.{
  Session, SessionStore, seen, get, gc_loop, gc, len, is_empty, valid_csrf, found_csrf,
  validate_request_csrf,
}
use herdr_phone.Auth.Lifetime.{IsLive, dead, get_lem}
use herdr_phone.Auth.History.{IsSound, gc_loop-prune}

gc_loop-length :
    (s : SessionStore) (now : ℕ) (m : List (Str × Session))
    → length m ≡ length (gc_loop s now m).0 + (gc_loop s now m).1
unfolding gc_loop
gc_loop-length s now [] = refl
gc_loop-length s now ((id, sess) ∷ m) = ground (arith, gc_loop-length s now m)

-- `GC` removes exactly the expired sessions of a sound store, keeps the others as they are, and
-- returns how many it removed.
pub gc_lem :
    (s : SessionStore) (now : ℕ)
    → IsSound s
    → (len s ≡ len (gc s now).0 + (gc s now).1)
      × ((k : Str) → lookup k (gc s now).0.sessions ≡ kept (dead s now) (lookup k s.sessions))
unfolding gc len
gc_lem s now h = (
  gc_loop-length s now s.sessions,
  λ k.
      ap (λ (m : List (Str × Session)). lookup k m) (gc_loop-prune s now s.sessions)
      ∙ lookup-prune (dead s now) k s.sessions h.is_map,
)

valid_csrf_iff :
    (expected provided : Str)
    → (valid_csrf expected provided ≡ true) ↔ ((provided ≡ expected) × (is_empty provided ≡ false))
unfolding valid_csrf
valid_csrf_iff expected provided = (
  λ h. ground (arith, h, str_eq_iff expected provided),
  λ (same, full). ground (arith, same, full, str_eq_refl expected),
)

validate_found :
    (s : SessionStore) (header id : Str) (now : ℕ) (o : Option Session)
    → (get s id now).1 ≡ o
    → (validate_request_csrf s header id now).1 ≡ found_csrf header o
unfolding validate_request_csrf
validate_found s header id now o e = ap (found_csrf header) e

-- A request of a session with a non-empty id passes the CSRF check exactly if a live session is
-- stored under the id and the header is that session's token and not empty.
pub validate_request_csrf_lem :
    (s : SessionStore) (header id : Str) (now : ℕ)
    → is_empty id ≡ false
    → ((validate_request_csrf s header id now).1 ≡ true) ↔ (
        (old : Session) × (lookup id s.sessions ≡ some old)
        × IsLive s old now
        × (header ≡ old.csrf_token)
        × (is_empty header ≡ false))
validate_request_csrf_lem s header id now named = (
  λ passed. elim (Option-cases (get s id now).1) [
    | inl e ↦ absurd (ground (arith, passed, validate_found s header id now none e))
    | inr (sess, e) ↦
        let (old, at, live, same) = ((get_lem s id now named).0 sess).0 e in
        let (token, full) =
          (valid_csrf_iff sess.csrf_token header).0
            (sym (validate_found s header id now (some sess) e) ∙ passed) in
        (old, at, live, token ∙ ap (λ (a : Session). a.csrf_token) same, full)
  ],
  λ (old, at, live, token, full).
      let e = ((get_lem s id now named).0 (seen old now)).1 (old, at, live, refl) in
      validate_found s header id now (some (seen old now)) e
      ∙ (valid_csrf_iff old.csrf_token header).1 (token, full),
)

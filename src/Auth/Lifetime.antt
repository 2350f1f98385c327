-- ===== src/Auth/Lifetime.antt =====
-- When `Get` of internal/auth/session.go answers with a session, and what it changes.
use herdr_phone.Base.{
  ℕ, ◌-◌, ◌≤◌, ◌<◌, ◌≡◌, ◌↔◌, sym, ap, ◌∙◌, Bool, false, some, arith, Str, str_eq, str_eq_iff,
  lookup, insert, lookup-insert, lookup-delete, if◌then◌else◌, Option-cases, inl, inr,
}
use herdr_phone.Auth.Session.{Session, SessionStore, session_expired, seen, get, is_empty}

-- A live session at a time.
abbrev pub IsLive : SessionStore → Session → ℕ → Type 0
IsLive s sess now = (now < sess.expires_at) × ((0 < s.idle) → now - sess.last_seen ≤ s.idle)

pub session_expired_iff :
    (s : SessionStore) (sess : Session) (now : ℕ)
    → (session_expired s sess now ≡ false) ↔ IsLive s sess now
unfolding session_expired
session_expired_iff s sess now = (ground arith, ground arith)

abbrev pub dead : SessionStore → ℕ → Session → Bool
dead s now sess = session_expired s sess now

pub get_live :
    (s : SessionStore) (id : Str) (now : ℕ) (sess : Session)
    → is_empty id ≡ false
    → lookup id s.sessions ≡ some sess
    → session_expired s sess now ≡ false
    → get s id now
      ≡ (record s { sessions = insert id (seen sess now) s.sessions }, some (seen sess now))
unfolding get
get_live s id now sess ne at live = ground arith

pub get_answer :
    (s : SessionStore) (id : Str) (now : ℕ) (sess : Session)
    → (get s id now).1 ≡ some sess
    → (old : Session) × (lookup id s.sessions ≡ some old)
      × (session_expired s old now ≡ false)
      × (sess ≡ seen old now)
unfolding get
get_answer s id now sess h = elim (Option-cases (lookup id s.sessions)) [
  | inl e ↦ ground (arith, e)
  | inr (old, e) ↦ (old, e, ground (arith, e), ground (arith, e))
]

pub lookup-get :
    (s : SessionStore) (id : Str) (now : ℕ) (k : Str)
    → is_empty id ≡ false
    → lookup k (get s id now).0.sessions
      ≡ (if str_eq id k then (get s id now).1 else lookup k s.sessions)
unfolding get
lookup-get s id now k ne = elim (Option-cases (lookup id s.sessions)) [
  | inl e ↦ ground (arith, e, str_eq_iff id k)
  | inr (old, e) ↦ ground (
    arith,
    e,
    lookup-delete id k s.sessions,
    lookup-insert id k (seen old now) s.sessions,
    str_eq_iff id k,
  )
]

-- `Get` of a non-empty id answers with a session exactly when one is stored under the id that is
-- before its expiry and, if an idle timeout is set, was seen within it; the answer is that session,
-- seen now. The store then holds the answer under the id, nothing if there is none, and every other
-- session as before.
pub get_lem :
    (s : SessionStore) (id : Str) (now : ℕ)
    → is_empty id ≡ false
    → ((sess : Session)
        → ((get s id now).1 ≡ some sess) ↔ (
            (old : Session) × (lookup id s.sessions ≡ some old)
            × IsLive s old now
            × (sess ≡ seen old now)))
      × ((k : Str)
          → lookup k (get s id now).0.sessions
            ≡ (if str_eq id k then (get s id now).1 else lookup k s.sessions))
get_lem s id now ne = (
  λ sess. (
    λ h.
        let (old, at, live, same) = get_answer s id now sess h in
        (old, at, (session_expired_iff s old now).0 live, same),
    λ (old, at, live, same).
        ap (λ a. a.1) (get_live s id now old ne at ((session_expired_iff s old now).1 live))
        ∙ ap some (sym same),
  ),
  λ k. lookup-get s id now k ne,
)

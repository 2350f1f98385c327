-- ===== src/Auth/Session.antt =====
-- The session store of internal/auth/session.go and the CSRF check of internal/auth/csrf.go. Times
-- are nanoseconds since the zero `time.Time`, which is 0; durations are nanoseconds, and a negative
-- one is taken as 0. Each reading of the clock is an argument, and so is what the entropy source
-- gives `randomToken`: `none` is its failure.
use herdr_phone.Base.{
  ℕ, suc, ◌+◌, ◌-◌, List, [], ◌∷◌, Bool, true, false, not, ◌&&◌, ◌||◌, Option, none, some, ltb, leb,
  ◌==◌, Str, bytes, str_eq, str_lt, lookup, insert, delete, if◌then◌else◌, length,
}

pub record Identity : Type 0 where
  pub email : Str
  pub common_name : Str
  pub quick : Bool

abbrev pub is_empty : Str → Bool
is_empty [] = true
is_empty (c ∷ s) = false

unfoldable pub display : Identity → Str
display id =
    if id.quick
    then bytes "Quick Tunnel operator"
    else if not (is_empty id.email)
    then id.email
    else if not (is_empty id.common_name)
    then id.common_name
    else bytes "unknown"

unfoldable pub identity_subject : Identity → Str
identity_subject id =
    if id.quick then [] else if not (is_empty id.email) then id.email else id.common_name

pub record Session : Type 0 where
  pub id : Str
  pub audit_id : Str
  pub csrf_token : Str
  pub identity : Identity
  pub created_at : ℕ
  pub expires_at : ℕ
  pub last_seen : ℕ

pub record SessionStore : Type 0 where
  pub sessions : List (Str × Session)
  pub ttl : ℕ
  pub idle : ℕ

unfoldable pub new_session_store : ℕ → ℕ → SessionStore
new_session_store ttl idle = record { sessions = []; ttl = ttl; idle = idle }

-- The earlier of the lifetime's end and a hard expiry that is set.
unfoldable pub session_expiry : ℕ → ℕ → ℕ → ℕ
session_expiry ttl hard_expiry now =
    if not (hard_expiry == 0) && ltb hard_expiry (now + ttl) then hard_expiry else now + ttl

unfoldable pub new_session : SessionStore → Identity → ℕ → ℕ → Str → Str → Str → Session
unfolding session_expiry
new_session s identity hard_expiry now sid csrf audit = record {
  id = sid;
  audit_id = audit;
  csrf_token = csrf;
  identity = identity;
  created_at = now;
  expires_at = session_expiry s.ttl hard_expiry now;
  last_seen = now;
}

-- `Create`, with the three draws of `randomToken`; `none` is `ErrEntropy`.
unfoldable pub create :
    SessionStore
    → Identity
    → ℕ
    → Option Str
    → Option Str
    → Option Str
    → ℕ
    → SessionStore × Option Session
unfolding new_session
create s identity hard_expiry none csrf audit now = (s, none)
create s identity hard_expiry (some sid) none audit now = (s, none)
create s identity hard_expiry (some sid) (some csrf) none now = (s, none)
create s identity hard_expiry (some sid) (some csrf) (some audit) now =
    let sess = new_session s identity hard_expiry now sid csrf audit in
    (record s { sessions = insert sid sess s.sessions }, some sess)

-- `expiredLocked`.
unfoldable pub session_expired : SessionStore → Session → ℕ → Bool
session_expired s sess now =
    if leb sess.expires_at now
    then true
    else if ltb 0 s.idle && ltb s.idle (now - sess.last_seen)
    then true
    else false

abbrev pub seen : Session → ℕ → Session
seen sess now = record sess { last_seen = now }

unfoldable pub get_found : SessionStore → Str → ℕ → Session → SessionStore × Option Session
get_found s id now sess =
    if session_expired s sess now
    then (record s { sessions = delete id s.sessions }, none)
    else (record s { sessions = insert id (seen sess now) s.sessions }, some (seen sess now))

unfoldable pub get : SessionStore → Str → ℕ → SessionStore × Option Session
unfolding get_found
get s id now =
    if is_empty id
    then (s, none)
    else elim (lookup id s.sessions) [ none ↦ (s, none) | some sess ↦ get_found s id now sess ]

-- The `switch` of `GetByIdentity`: the later created session, then the greater id.
unfoldable pub better : Session → Option Session → Option Session
better sess none = some sess
better sess (some best) =
    if ltb best.created_at sess.created_at
    then some sess
    else if sess.created_at == best.created_at && str_lt best.id sess.id
    then some sess
    else some best

abbrev pub candidate : Str → Session → Option Session → Option Session
candidate key sess best =
    if not (str_eq (identity_subject sess.identity) key) then best else better sess best

-- The loop of `GetByIdentity` in the order of the list: expired sessions are deleted.
unfoldable pub scan :
    SessionStore
    → Str
    → ℕ
    → List (Str × Session)
    → Option Session
    → List (Str × Session) × Option Session
scan s key now [] best = ([], best)
scan s key now ((sid, sess) ∷ m) best =
    let dead = session_expired s sess now in
    let (rest, found) = scan s key now m (if dead then best else candidate key sess best) in
    (if dead then rest else (sid, sess) ∷ rest, found)

unfoldable pub get_by_identity : SessionStore → Identity → ℕ → SessionStore × Option Session
unfolding scan
get_by_identity s identity now =
    let key = identity_subject identity in
    let (live, best) = scan s key now s.sessions none in
    if is_empty key then (s, none) else elim best [
      | none ↦ (record s { sessions = live }, none)
      | some sess ↦
          (record s { sessions = insert sess.id (seen sess now) live }, some (seen sess now))
    ]

unfoldable pub remove_session : SessionStore → Str → SessionStore
remove_session s id = record s { sessions = delete id s.sessions }

-- The loop of `GC` and its count.
unfoldable pub gc_loop : SessionStore → ℕ → List (Str × Session) → List (Str × Session) × ℕ
gc_loop s now [] = ([], 0)
gc_loop s now ((id, sess) ∷ m) =
    let (rest, n) = gc_loop s now m in
    if session_expired s sess now then (rest, suc n) else ((id, sess) ∷ rest, n)

unfoldable pub gc : SessionStore → ℕ → SessionStore × ℕ
unfolding gc_loop
gc s now = let (live, n) = gc_loop s now s.sessions in (record s { sessions = live }, n)

unfoldable pub len : SessionStore → ℕ
len s = length s.sessions

abbrev pub min_janitor_interval : ℕ
min_janitor_interval = 1_000_000_000

-- `RunJanitor`: one `GC` for each tick, until the context ends; the ticks come at the given times.
unfoldable pub janitor_interval : ℕ → ℕ
janitor_interval interval =
    if ltb interval min_janitor_interval then min_janitor_interval else interval

unfoldable pub run_janitor : SessionStore → List ℕ → SessionStore
unfolding gc
run_janitor s [] = s
run_janitor s (t ∷ ticks) = run_janitor (gc s t).0 ticks

-- `ValidCSRF`: equal and not empty.
unfoldable pub valid_csrf : Str → Str → Bool
valid_csrf expected provided =
    if is_empty expected || is_empty provided then false else str_eq expected provided

-- The check on what `Get` answers.
abbrev pub found_csrf : Str → Option Session → Bool
found_csrf header none = false
found_csrf header (some sess) = valid_csrf sess.csrf_token header

-- `ValidateRequestCSRF` at the value of the request's `X-CSRF-Token` header.
unfoldable pub validate_request_csrf : SessionStore → Str → Str → ℕ → SessionStore × Bool
validate_request_csrf s header session_id now =
    let (s', found) = get s session_id now in (s', found_csrf header found)

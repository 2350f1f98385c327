-- ===== src/Auth/Examples.antt =====
-- Runs of the session store and of the pairing of internal/auth on concrete calls.
use herdr_phone.Base.{
  ◌≢◌, List, [], ◌∷◌, ◌≡◌, ◌↔◌, ◌⊎◌, refl, arith, true, false, Option, none, some, Str, bytes,
  str_eq, str_eq_iff, lookup, Each, if◌then◌else◌,
}
use herdr_phone.Base.Assoc.{mentions}
use herdr_phone.Auth.Session.{
  Identity, Session, SessionStore, new_session_store, get, seen, get_by_identity, remove_session,
  is_empty, identity_subject, validate_request_csrf,
}
use herdr_phone.Auth.Lifetime.{IsLive, get_lem}
use herdr_phone.Auth.History.{
  Holds, Call, creates, gets, collects, run, IsSound, run-IsSound, new-IsSound,
}
use herdr_phone.Auth.Revoked.{get-remove_session}
use herdr_phone.Auth.Identity.{matches, AtMost, get_by_identity_lem, get_by_identity-order}
use herdr_phone.Auth.Pairing.{Pairing, verifies, rotates, token, verify}
use herdr_phone.Auth.Collect.{validate_request_csrf_lem}
use herdr_phone.Auth.SingleUse.{verify-verify}

abbrev operator : Identity
operator = record { email = bytes "a@b.c"; common_name = []; quick = false }

abbrev draw : Str → Call
draw id = creates operator 0 (some id) (some (bytes "csrf")) (some (bytes "audit")) 100

abbrev first : Session
first = record {
  id = bytes "s1";
  audit_id = bytes "audit";
  csrf_token = bytes "csrf";
  identity = operator;
  created_at = 100;
  expires_at = 160;
  last_seen = 100;
}

abbrev calls : List Call
calls = draw (bytes "s1") ∷ draw (bytes "s2") ∷ collects 120 ∷ []

abbrev store : SessionStore
store = run (new_session_store 60 40) calls

store-IsSound : IsSound store
store-IsSound = run-IsSound (new_session_store 60 40) calls (new-IsSound 60 40)

get_lem_example :
    ((sess : Session)
      → ((get store (bytes "s1") 130).1 ≡ some sess) ↔ (
          (old : Session) × (lookup (bytes "s1") store.sessions ≡ some old)
          × IsLive store old 130
          × (sess ≡ seen old 130)))
    × ((k : Str)
        → lookup k (get store (bytes "s1") 130).0.sessions ≡ (
            if str_eq (bytes "s1") k
            then (get store (bytes "s1") 130).1
            else lookup k store.sessions))
get_lem_example = get_lem store (bytes "s1") 130 refl

abbrev signed_out : SessionStore
signed_out =
    run (remove_session store (bytes "s1")) (draw (bytes "s3") ∷ gets (bytes "s1") 125 ∷ [])

get-remove_session_example :
    ((get signed_out (bytes "s1") 130).1 ≡ none)
    × Holds (λ b. b.id ≢ bytes "s1") (get signed_out (bytes "s3") 130).1
    × Holds (λ b. b.id ≢ bytes "s1") (get_by_identity signed_out operator 130).1
get-remove_session_example =
    get-remove_session store (bytes "s1") (draw (bytes "s3") ∷ gets (bytes "s1") 125 ∷ [])
      (bytes "s3") operator 130 store-IsSound (λ h. ground (arith, h), (tt, tt))

operator_named : is_empty (identity_subject operator) ≡ false
unfolding identity_subject
operator_named = refl

get_by_identity_lem_example :
    (((get_by_identity store operator 130).1 ≡ none)
      × Each (λ k x. matches store (identity_subject operator) 130 x ≡ false) store.sessions)
    ⊎ ((b : Session) × ((get_by_identity store operator 130).1 ≡ some (seen b 130))
        × (lookup b.id store.sessions ≡ some b)
        × (matches store (identity_subject operator) 130 b ≡ true)
        × Each
            (λ k x. matches store (identity_subject operator) 130 x ≡ true → AtMost x b)
            store.sessions)
get_by_identity_lem_example = get_by_identity_lem store operator 130 store-IsSound operator_named

abbrev one_way : SessionStore
one_way = record {
  sessions = (bytes "s1", first) ∷ (bytes "s2", record first { id = bytes "s2" }) ∷ [];
  ttl = 60;
  idle = 40;
}

abbrev other_way : List (Str × Session)
other_way = (bytes "s2", record first { id = bytes "s2" }) ∷ (bytes "s1", first) ∷ []

one_way-IsSound : IsSound one_way
unfolding mentions str_eq
one_way-IsSound = record { is_map = (refl, (refl, tt)); owned = ground arith }

other_way-IsSound : IsSound (record one_way { sessions = other_way })
unfolding mentions str_eq
other_way-IsSound = record { is_map = (refl, (refl, tt)); owned = ground arith }

same_sessions : (k : Str) → lookup k one_way.sessions ≡ lookup k other_way
unfolding lookup
same_sessions k = ground (arith, str_eq_iff (bytes "s1") k, str_eq_iff (bytes "s2") k)

get_by_identity-order_example :
    (get_by_identity one_way operator 130).1
    ≡ (get_by_identity (record one_way { sessions = other_way }) operator 130).1
get_by_identity-order_example =
    get_by_identity-order one_way other_way operator 130 one_way-IsSound other_way-IsSound
      same_sessions

-- Trimming is the identity here, and so is base64.
abbrev decode : Str → Option Str
decode s = some s

abbrev fresh : Pairing
fresh = record { secret = bytes "p"; invalidated = false }

verify-verify_example :
    (verify decode
      (herdr_phone.Auth.Pairing.run decode
        (verify decode fresh (bytes "p") (some (bytes "q"))).0
        (rotates (some (bytes "r")) ∷ verifies (bytes "r") none ∷ []))
      (bytes "p")
      (some (bytes "t"))).1
    ≡ false
verify-verify_example =
    verify-verify decode fresh (bytes "p") (bytes "p") (some (bytes "q")) (some (bytes "t"))
      (rotates (some (bytes "r")) ∷ verifies (bytes "r") none ∷ []) refl refl
      (λ h. ground (arith, h)) (λ h. ground (arith, h), (tt, tt))

validate_request_csrf_lem_example :
    ((validate_request_csrf store (bytes "csrf") (bytes "s1") 130).1 ≡ true) ↔ (
      (old : Session) × (lookup (bytes "s1") store.sessions ≡ some old)
      × IsLive store old 130
      × (bytes "csrf" ≡ old.csrf_token)
      × (is_empty (bytes "csrf") ≡ false))
validate_request_csrf_lem_example =
    validate_request_csrf_lem store (bytes "csrf") (bytes "s1") 130 refl

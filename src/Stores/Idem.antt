-- ===== src/Stores/Idem.antt =====
-- The idempotency cache of internal/server/stores.go: `idemStore` and its `peek`, `reserve`,
-- `complete` and `release`. Times are nanoseconds; each reading of the clock is an argument.
use herdr_phone.Base.{
  ℕ, ◌+◌, List, [], ◌∷◌, ◌++◌, Bool, true, false, not, none, some, ltb, Str, str_eq, lookup, insert,
  delete, prune, if◌then◌else◌,
}

pub record IdemEntry : Type 0 where
  pub status : ℕ
  pub body : Str
  pub expires_at : ℕ
  pub pending : Bool
  pub fingerprint : Str

pub data IdemResult : Type 0 where
  idem_reserved idem_in_flight idem_done idem_mismatch idem_miss : IdemResult

abbrev pub IdemStore : Type 0
IdemStore = List (Str × IdemEntry)

-- `idemEntry{}`.
abbrev pub zero_entry : IdemEntry
zero_entry = record { status = 0; body = []; expires_at = 0; pending = false; fingerprint = [] }

abbrev pub idem_expired : ℕ → IdemEntry → Bool
idem_expired now e = ltb e.expires_at now

-- `session + "\x00" + requestID`.
unfoldable pub idem_key : Str → Str → Str
idem_key session request_id = session ++ 0 ∷ request_id

unfoldable pub idem_gc : ℕ → IdemStore → IdemStore
idem_gc now = prune (idem_expired now)

unfoldable pub peek_entry :
    IdemStore → Str → Str → ℕ → IdemEntry → IdemStore × IdemEntry × IdemResult
peek_entry m key fingerprint now e =
    if idem_expired now e
    then (delete key m, zero_entry, idem_miss)
    else if not (str_eq e.fingerprint fingerprint)
    then (m, zero_entry, idem_mismatch)
    else if e.pending
    then (m, zero_entry, idem_miss)
    else (m, e, idem_done)

unfoldable pub peek : IdemStore → Str → Str → ℕ → IdemStore × IdemEntry × IdemResult
unfolding peek_entry
peek m key fingerprint now = elim (lookup key m) [
  | none ↦ (m, zero_entry, idem_miss)
  | some e ↦ peek_entry m key fingerprint now e
]

abbrev pub reservation : Str → ℕ → IdemEntry
reservation fingerprint expires = record {
  status = 0;
  body = [];
  expires_at = expires;
  pending = true;
  fingerprint = fingerprint;
}

-- What `reserve` answers for a live entry.
unfoldable pub held : IdemEntry → Str → IdemEntry × IdemResult
held e fingerprint =
    if not (str_eq e.fingerprint fingerprint)
    then (zero_entry, idem_mismatch)
    else if e.pending
    then (zero_entry, idem_in_flight)
    else (e, idem_done)

-- `now` is read by the sweep, `later` for the expiry of the reservation.
unfoldable pub reserve : IdemStore → Str → Str → ℕ → ℕ → ℕ → IdemStore × IdemEntry × IdemResult
unfolding held idem_gc
reserve m key fingerprint ttl now later =
    let live = idem_gc now m in
    elim (lookup key live) [
      | none ↦ (insert key (reservation fingerprint (later + ttl)) live, zero_entry, idem_reserved)
      | some e ↦ (live, (held e fingerprint).0, (held e fingerprint).1)
    ]

unfoldable pub complete : IdemStore → Str → Str → ℕ → Str → ℕ → ℕ → IdemStore
complete m key fingerprint status body ttl now =
    insert key
      (record {
        status = status;
        body = body;
        expires_at = now + ttl;
        pending = false;
        fingerprint = fingerprint;
      })
      m

unfoldable pub release : IdemStore → Str → IdemStore
release m key = elim (lookup key m) [ none ↦ m | some e ↦ if e.pending then delete key m else m ]

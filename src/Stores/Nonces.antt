-- ===== src/Stores/Nonces.antt =====
-- The confirmation nonces of internal/server/stores.go: `nonceStore`, `issue`, `consume`, `gcLocked`.
-- Times and durations are nanoseconds; each reading of the clock is an argument, and so is the
-- random token of `randToken`.
use herdr_phone.Base.{
  ℕ, ◌+◌, List, Bool, true, false, not, ◌&&◌, none, some, ltb, ◌==◌, Str, str_eq, lookup, insert,
  delete, prune, if◌then◌else◌,
}

pub record Nonce : Type 0 where
  pub operation : Str
  pub resource : Str
  pub generation : ℕ
  pub session : Str
  pub params_hash : Str
  pub expires_at : ℕ

abbrev pub NonceStore : Type 0
NonceStore = List (Str × Nonce)

-- `now.After(v.expiresAt)`.
abbrev pub nonce_expired : ℕ → Nonce → Bool
nonce_expired now n = ltb n.expires_at now

unfoldable pub nonce_gc : ℕ → NonceStore → NonceStore
nonce_gc now = prune (nonce_expired now)

-- What a nonce is bound to.
pub record Binding : Type 0 where
  pub operation : Str
  pub resource : Str
  pub generation : ℕ
  pub session : Str
  pub params_hash : Str

-- `issue` with the token drawn, and the readings of the clock for the expiry and for the sweep.
unfoldable pub issue : NonceStore → Str → Binding → ℕ → ℕ → ℕ → NonceStore × ℕ
unfolding nonce_gc
issue m token b ttl now later =
    let exp = now + ttl in
    (
      insert token
          (record {
            operation = b.operation;
            resource = b.resource;
            generation = b.generation;
            session = b.session;
            params_hash = b.params_hash;
            expires_at = exp;
          })
          (nonce_gc later m),
      exp,
    )

unfoldable pub nonce_matches : Nonce → Binding → ℕ → Bool
nonce_matches n b now =
    if nonce_expired now n
    then false
    else if not (
        str_eq n.operation b.operation
        && str_eq n.resource b.resource
        && n.generation == b.generation)
    then false
    else if not (str_eq n.session b.session)
    then false
    else if not (str_eq n.params_hash b.params_hash)
    then false
    else true

unfoldable pub consume : NonceStore → Str → Binding → ℕ → NonceStore × Bool
unfolding nonce_matches
consume m token b now = elim (lookup token m) [
  | none ↦ (m, false)
  | some n ↦ (delete token m, nonce_matches n b now)
]

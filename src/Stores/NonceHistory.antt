-- ===== src/Stores/NonceHistory.antt =====
-- What the nonces of internal/server/stores.go guarantee to the handlers that spend them.
use herdr_phone.Base.{
  ℕ, ◌+◌, ◌≤◌, List, [], ◌∷◌, ◌≡◌, ◌↔◌, Bool, true, false, Option, none, some, arith, Str, str_eq,
  str_eq_iff, lookup, lookup-insert, lookup-delete, lookup-prune, IsMap, insert-IsMap, delete-IsMap,
  prune-IsMap, if◌then◌else◌, Option-cases, inl, inr, kept,
}
use herdr_phone.Stores.Nonces.{
  Nonce, NonceStore, Binding, nonce_expired, nonce_gc, nonce_matches, issue, consume,
}

abbrev pub bound_to : Nonce → Binding
bound_to n = record {
  operation = n.operation;
  resource = n.resource;
  generation = n.generation;
  session = n.session;
  params_hash = n.params_hash;
}

nonce_matches_iff :
    (n : Nonce) (b : Binding) (now : ℕ)
    → (nonce_matches n b now ≡ true) ↔ ((bound_to n ≡ b) × (now ≤ n.expires_at))
unfolding nonce_matches
nonce_matches_iff n b now = (
  ground (
    arith,
    str_eq_iff n.operation b.operation,
    str_eq_iff n.resource b.resource,
    str_eq_iff n.session b.session,
    str_eq_iff n.params_hash b.params_hash,
  ),
  ground (
    arith,
    str_eq_iff n.operation b.operation,
    str_eq_iff n.resource b.resource,
    str_eq_iff n.session b.session,
    str_eq_iff n.params_hash b.params_hash,
  ),
)

consume_accepts :
    (m : NonceStore) (token : Str) (b : Binding) (now : ℕ)
    → (consume m token b now).1 ≡ true
    → (n : Nonce) × (lookup token m ≡ some n) × (bound_to n ≡ b) × (now ≤ n.expires_at)
unfolding consume
consume_accepts m token b now h = elim (Option-cases (lookup token m)) [
  | inl e ↦ ground (arith, e)
  | inr (n, e) ↦
      let (same, fresh) = (nonce_matches_iff n b now).0 (ground (arith, e)) in (n, e, same, fresh)
]

consume_accepted :
    (m : NonceStore) (token : Str) (b : Binding) (now : ℕ) (n : Nonce)
    → lookup token m ≡ some n
    → bound_to n ≡ b
    → now ≤ n.expires_at
    → (consume m token b now).1 ≡ true
unfolding consume
consume_accepted m token b now n e same fresh =
    rw (e, consume) ((nonce_matches_iff n b now).1 (same, fresh))

lookup-consume :
    (m : NonceStore) (token : Str) (b : Binding) (now : ℕ) (k : Str)
    → lookup k (consume m token b now).0 ≡ (if str_eq token k then none else lookup k m)
unfolding consume
lookup-consume m token b now k = ground (arith, lookup-delete token k m, str_eq_iff token k)

-- A nonce is accepted exactly when it is stored under the token, is bound to all five fields of the
-- request, and has not expired; and whatever the answer, the token is gone and no other is touched.
pub consume_lem :
    (m : NonceStore) (token : Str) (b : Binding) (now : ℕ)
    → (((consume m token b now).1 ≡ true)
        ↔ ((n : Nonce) × (lookup token m ≡ some n) × (bound_to n ≡ b) × (now ≤ n.expires_at)))
      × ((k : Str)
          → lookup k (consume m token b now).0 ≡ (if str_eq token k then none else lookup k m))
consume_lem m token b now = (
  (
    consume_accepts m token b now,
    λ (n, e, same, fresh). consume_accepted m token b now n e same fresh,
  ),
  lookup-consume m token b now,
)

-- One call on the store. An `issues` carries the token drawn, the binding, the lifetime and the two
-- readings of the clock.
pub data Call : Type 0 where
  issues : Str → Binding → ℕ → ℕ → ℕ → Call
  consumes : Str → Binding → ℕ → Call

abbrev after : NonceStore → Call → NonceStore
after m (issues token b ttl now later) = (issue m token b ttl now later).0
after m (consumes token b now) = (consume m token b now).0

abbrev one : Bool → ℕ
one true = 1
one false = 0

-- How often a history draws the token, and how often a `consume` of it is answered `true`.
unfoldable pub drawn : Str → List Call → ℕ
drawn k [] = 0
drawn k (issues token b ttl now later ∷ cs) = one (str_eq token k) + drawn k cs
drawn k (consumes token b now ∷ cs) = drawn k cs

unfoldable pub accepted : Str → NonceStore → List Call → ℕ
accepted k m [] = 0
accepted k m (issues token b ttl now later ∷ cs) = accepted k (issue m token b ttl now later).0 cs
accepted k m (consumes token b now ∷ cs) =
    (if str_eq token k then one (consume m token b now).1 else 0)
    + accepted k (consume m token b now).0 cs

abbrev stored : Option Nonce → ℕ
stored none = 0
stored (some n) = 1

stored-kept : (p : Nonce → Bool) (o : Option Nonce) → stored (kept p o) ≤ stored o
stored-kept p none = omega arith
stored-kept p (some n) = ground arith

issue-IsMap :
    (m : NonceStore) (token : Str) (b : Binding) (ttl now later : ℕ)
    → IsMap m
    → IsMap (issue m token b ttl now later).0
unfolding issue
issue-IsMap m token b ttl now later h = insert-IsMap token _ _ (prune-IsMap _ m h)

consume-IsMap :
    (m : NonceStore) (token : Str) (b : Binding) (now : ℕ)
    → IsMap m
    → IsMap (consume m token b now).0
unfolding consume
consume-IsMap m token b now h = ground (arith, delete-IsMap token m h)

stored-issue :
    (k : Str) (m : NonceStore) (token : Str) (b : Binding) (ttl now later : ℕ)
    → IsMap m
    → stored (lookup k (issue m token b ttl now later).0)
      ≤ one (str_eq token k) + stored (lookup k m)
unfolding issue
stored-issue k m token b ttl now later h =
    rw (lookup-insert token k _ (nonce_gc later m)) (ground (arith, swept))
  where
    swept : stored (lookup k (nonce_gc later m)) ≤ stored (lookup k m)
    swept =
        rw (lookup-prune (nonce_expired later) k m h)
          (stored-kept (nonce_expired later) (lookup k m))

stored-consume :
    (k : Str) (m : NonceStore) (token : Str) (b : Binding) (now : ℕ)
    → (if str_eq token k then one (consume m token b now).1 else 0)
        + stored (lookup k (consume m token b now).0)
      ≤ stored (lookup k m)
unfolding consume
stored-consume k m token b now = ground (arith, lookup-delete token k m, str_eq_iff token k)

accepted_from :
    (k : Str) (m : NonceStore) (cs : List Call)
    → IsMap m
    → accepted k m cs ≤ drawn k cs + stored (lookup k m)
unfolding accepted drawn
accepted_from k m [] h = omega arith
accepted_from k m (issues token b ttl now later ∷ cs) h = omega (
  arith,
  accepted_from k (issue m token b ttl now later).0 cs (issue-IsMap m token b ttl now later h),
  stored-issue k m token b ttl now later h,
)
accepted_from k m (consumes token b now ∷ cs) h = omega (
  arith,
  accepted_from k (consume m token b now).0 cs (consume-IsMap m token b now h),
  stored-consume k m token b now,
)

-- In any history from the empty store, whatever the clock says, a token is accepted at most as
-- often as it was drawn.
pub accepted-le-drawn : (k : Str) (cs : List Call) → accepted k [] cs ≤ drawn k cs
unfolding lookup
accepted-le-drawn k cs = omega (arith, accepted_from k [] cs tt)

-- ===== src/Stores/RateBound.antt =====
-- How many requests the token bucket of internal/server/stores.go lets through.
use herdr_phone.Base.{
  ℕ, ◌+◌, ◌-◌, ◌*◌, ◌≤◌, List, [], ◌∷◌, ◌≡◌, refl, ap, Bool, true, false, Option, none, some, arith,
  Str, str_eq, str_eq_iff, lookup, IsMap, kept, lookup-insert, lookup-prune, insert-IsMap,
  prune-IsMap, if◌then◌else◌,
}
use herdr_phone.Stores.Rate.{
  Bucket, RateLimiter, rl_idle_ttl, idle_bucket, new_rate_limiter, sweep, full, refill, charge,
  allow,
}

-- The credit that a key has at a time; an unknown key has a full bucket.
abbrev credit_at : RateLimiter → Option Bucket → ℕ → ℕ
credit_at r none now = full r
credit_at r (some b) now = refill r b now

refill_mono :
    (r : RateLimiter) (b : Bucket) (t t' : ℕ) → t ≤ t' → refill r b t' ≤ refill r b t + (t' - t)
unfolding refill
refill_mono r b t t' h = ground arith

credit_at_mono :
    (r : RateLimiter) (o : Option Bucket) (t t' : ℕ)
    → t ≤ t'
    → credit_at r o t' ≤ credit_at r o t + (t' - t)
credit_at_mono r none t t' h = omega arith
credit_at_mono r (some b) t t' h = refill_mono r b t t' h

-- An idle bucket has refilled, so forgetting it changes nothing.
kept_credit :
    (r : RateLimiter) (o : Option Bucket) (now : ℕ)
    → full r ≤ rl_idle_ttl
    → credit_at r (kept (idle_bucket now) o) now ≡ credit_at r o now
unfolding refill
kept_credit r none now h = refl
kept_credit r (some b) now h = ground arith

record IsSteady (r : RateLimiter) : Type 0 where
  is_map : IsMap r.buckets
  refills : full r ≤ rl_idle_ttl
  holds_one : r.every ≤ full r

sweep_credit :
    (r : RateLimiter) (k : Str) (now : ℕ)
    → IsSteady r
    → credit_at (sweep r now) (lookup k (sweep r now).buckets) now
      ≡ credit_at r (lookup k r.buckets) now
unfolding sweep refill
sweep_credit r k now h = ground (
  arith,
  lookup-prune (idle_bucket now) k r.buckets h.is_map,
  kept_credit r (lookup k r.buckets) now h.refills,
)

sweep-IsSteady : (r : RateLimiter) (now : ℕ) → IsSteady r → IsSteady (sweep r now)
unfolding sweep
sweep-IsSteady r now h = ground (arith, prune-IsMap (idle_bucket now) r.buckets h.is_map)

-- What a call for `key` takes from the key `k`.
abbrev taken : RateLimiter → Str → Str → Bool → ℕ
taken r k key granted = if str_eq key k then (if granted then r.every else 0) else 0

-- The buckets after a call hold what is left of its key, and the others unchanged.
charge_credit :
    (r : RateLimiter) (k key : Str) (now : ℕ) (o : Option Bucket)
    → IsSteady r
    → lookup key r.buckets ≡ o
    → taken r k key (charge r key now o).1
        + credit_at (charge r key now o).0 (lookup k (charge r key now o).0.buckets) now
      ≤ credit_at r (lookup k r.buckets) now
unfolding charge
charge_credit r k key now none h e = ground (
  arith,
  str_eq_iff key k,
  h.holds_one,
  lookup-insert key k (record { credit = full r - r.every; last = now }) r.buckets,
)
charge_credit r k key now (some b) h e = ground (
  arith,
  str_eq_iff key k,
  h.holds_one,
  lookup-insert key k (record { credit = refill r b now; last = now }) r.buckets,
  lookup-insert key k (record { credit = refill r b now - r.every; last = now }) r.buckets,
)

charge-IsSteady :
    (r : RateLimiter) (key : Str) (now : ℕ) (o : Option Bucket)
    → IsSteady r
    → IsSteady (charge r key now o).0
unfolding charge
charge-IsSteady r key now none h =
    ground (
      arith,
      insert-IsMap key (record { credit = full r - r.every; last = now }) r.buckets h.is_map,
    )
charge-IsSteady r key now (some b) h = ground (
  arith,
  insert-IsMap key (record { credit = refill r b now; last = now }) r.buckets h.is_map,
  insert-IsMap key (record { credit = refill r b now - r.every; last = now }) r.buckets h.is_map,
)

allow-IsSteady : (r : RateLimiter) (key : Str) (now : ℕ) → IsSteady r → IsSteady (allow r key now).0
unfolding allow
allow-IsSteady r key now h = charge-IsSteady (sweep r now) key now _ (sweep-IsSteady r now h)

allow-every : (r : RateLimiter) (key : Str) (now : ℕ) → (allow r key now).0.every ≡ r.every
unfolding allow sweep charge
allow-every r key now = ground arith

sweep-every : (r : RateLimiter) (now : ℕ) → (sweep r now).every ≡ r.every
unfolding sweep
sweep-every r now = ground arith

allow_credit :
    (r : RateLimiter) (k key : Str) (now : ℕ)
    → IsSteady r
    → taken r k key (allow r key now).1
        + credit_at (allow r key now).0 (lookup k (allow r key now).0.buckets) now
      ≤ credit_at r (lookup k r.buckets) now
unfolding allow
allow_credit r k key now h = ground (
  arith,
  sweep-every r now,
  sweep_credit r k now h,
  charge_credit (sweep r now) k key now (lookup key (sweep r now).buckets) (sweep-IsSteady r now h)
      refl,
)

-- How many of a list of requests, each with its key and its time, are let through for `k`.
unfoldable pub granted : Str → RateLimiter → List (Str × ℕ) → ℕ
granted k r [] = 0
granted k r ((key, now) ∷ cs) =
    (if str_eq key k then (if (allow r key now).1 then 1 else 0) else 0)
    + granted k (allow r key now).0 cs

-- The requests come in order of time, from `start` to `end`.
abbrev pub InOrder : ℕ → List (Str × ℕ) → ℕ → Type 0
InOrder start [] stop = start ≤ stop
InOrder start ((key, now) ∷ cs) stop = (start ≤ now) × InOrder now cs stop

InOrder-le : (start : ℕ) (cs : List (Str × ℕ)) (stop : ℕ) → InOrder start cs stop → start ≤ stop
InOrder-le start [] stop o = o
InOrder-le start ((key, now) ∷ cs) stop o = omega (arith, InOrder-le now cs stop o.1)

price :
    (mine ok : Bool) (g every : ℕ)
    → ((if mine then (if ok then 1 else 0) else 0) + g) * every
      ≡ (if mine then (if ok then every else 0) else 0) + g * every
price true true g every = omega arith
price true false g every = omega arith
price false ok g every = omega arith

granted_from :
    (k : Str) (r : RateLimiter) (start : ℕ) (cs : List (Str × ℕ)) (stop : ℕ)
    → IsSteady r
    → InOrder start cs stop
    → granted k r cs * r.every ≤ credit_at r (lookup k r.buckets) start + (stop - start)
unfolding granted
granted_from k r start [] stop h o = omega arith
granted_from k r start ((key, now) ∷ cs) stop h o = omega (
  arith,
  price (str_eq key k) (allow r key now).1 (granted k (allow r key now).0 cs) r.every,
  ap (λ (e : ℕ). granted k (allow r key now).0 cs * e) (allow-every r key now),
  granted_from k (allow r key now).0 now cs stop (allow-IsSteady r key now h) o.1,
  allow_credit r k key now h,
  credit_at_mono r (lookup k r.buckets) start now o.0,
  InOrder-le now cs stop o.1,
)

granted_new :
    (k : Str) (every burst start stop : ℕ) (cs : List (Str × ℕ))
    → IsSteady (new_rate_limiter every burst start)
    → InOrder start cs stop
    → granted k (new_rate_limiter every burst start) cs * every ≤ burst * every + (stop - start)
unfolding new_rate_limiter lookup
granted_new k every burst start stop cs h o =
    granted_from k (new_rate_limiter every burst start) start cs stop h o

-- From a new limiter whose bucket refills within the idle time and holds a token, over any requests
-- in order of time, under any keys and with any evictions: those let through for one key, each
-- worth `every`, never exceed the burst and the time that passed.
pub granted_bound :
    (k : Str) (every burst start stop : ℕ) (cs : List (Str × ℕ))
    → 1 ≤ burst
    → burst * every ≤ rl_idle_ttl
    → InOrder start cs stop
    → granted k (new_rate_limiter every burst start) cs * every ≤ burst * every + (stop - start)
unfolding new_rate_limiter
granted_bound k every burst start stop cs one fits o =
    granted_new k every burst start stop cs
      (record { is_map = tt; refills = fits; holds_one = grind arith }) o

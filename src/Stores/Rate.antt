-- ===== src/Stores/Rate.antt =====
-- The token buckets of internal/server/stores.go: `rateLimiter`, `allow` and `sweepLocked`. The
-- source holds a bucket's tokens as a float64. Here they are counted exactly, in units of a token
-- divided by `every`: a bucket of `tokens` holds the credit `tokens * every`, in nanoseconds, and a
-- token costs `every`. The rounding of float64 is not modelled, nor a clock that goes backwards.
use herdr_phone.Base.{
  ℕ, ◌+◌, ◌-◌, ◌*◌, List, [], Bool, true, false, Option, none, some, ltb, leb, Str, lookup, insert,
  prune, if◌then◌else◌,
}

pub record Bucket : Type 0 where
  pub credit : ℕ
  pub last : ℕ

abbrev pub rl_sweep_interval : ℕ
rl_sweep_interval = 60_000_000_000

abbrev pub rl_idle_ttl : ℕ
rl_idle_ttl = 600_000_000_000

pub record RateLimiter : Type 0 where
  pub buckets : List (Str × Bucket)
  pub every : ℕ
  pub burst : ℕ
  pub last_sweep : ℕ

unfoldable pub new_rate_limiter : ℕ → ℕ → ℕ → RateLimiter
new_rate_limiter every burst now = record {
  buckets = [];
  every = every;
  burst = burst;
  last_sweep = now;
}

abbrev pub idle_bucket : ℕ → Bucket → Bool
idle_bucket now b = leb rl_idle_ttl (now - b.last)

unfoldable pub sweep : RateLimiter → ℕ → RateLimiter
sweep r now =
    if ltb (now - r.last_sweep) rl_sweep_interval
    then r
    else record r { buckets = prune (idle_bucket now) r.buckets; last_sweep = now }

abbrev pub full : RateLimiter → ℕ
full r = r.burst * r.every

-- `b.tokens` after the refill, at most the burst.
unfoldable pub refill : RateLimiter → Bucket → ℕ → ℕ
refill r b now =
    if ltb (full r) (b.credit + (now - b.last)) then full r else b.credit + (now - b.last)

unfoldable pub spend : RateLimiter → Str → ℕ → ℕ → RateLimiter × Bool
spend r key now credit =
    if ltb credit r.every
    then (
      record r { buckets = insert key (record { credit = credit; last = now }) r.buckets },
      false,
    )
    else (
      record r {
        buckets = insert key (record { credit = credit - r.every; last = now }) r.buckets;
      },
      true,
    )

-- `allow` after the sweep, at the bucket found.
unfoldable pub charge : RateLimiter → Str → ℕ → Option Bucket → RateLimiter × Bool
unfolding refill spend
charge r key now none = (
  record r { buckets = insert key (record { credit = full r - r.every; last = now }) r.buckets },
  true,
)
charge r key now (some b) = spend r key now (refill r b now)

unfoldable pub allow : RateLimiter → Str → ℕ → RateLimiter × Bool
unfolding sweep charge
allow r key now = let swept = sweep r now in charge swept key now (lookup key swept.buckets)

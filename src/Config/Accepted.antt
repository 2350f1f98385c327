-- ===== src/Config/Accepted.antt =====
-- Which configurations `Validate` of internal/config/config.go accepts.
use herdr_phone.Base.{
  ℕ, ◌≤◌, ℤ, pos, negsuc, to_nat, List, [], ◌∷◌, ◌≡◌, ◌≢◌, ◌↔◌, refl, arith, Bool, true, false, not,
  Option, none, some, ltb, str_eq_iff, bytes, if◌then◌else◌, All,
}
use herdr_phone.Config.Model.{Server, Herdr, Field, Fault, loopback_host}
use herdr_phone.Config.Validation.{
  first_fault, fault_if, is_empty, check_duration, in_bounds, validate_server, check_all,
  validate_herdr,
}

-- A duration is positive and at most `max`.
abbrev pub IsDuration : ℤ → ℕ → Type 0
IsDuration d max = (n : ℕ) × (d ≡ pos n) × (1 ≤ n) × (n ≤ max)

abbrev pub IsBetween : ℕ → ℕ → ℤ → Type 0
IsBetween lo hi n = (m : ℕ) × (n ≡ pos m) × (lo ≤ m) × (m ≤ hi)

pub record IsServer (s : Server) : Type 0 where
  pub on_loopback : s.host ≡ bytes "127.0.0.1"
  pub has_port : IsBetween 1 65_535 s.port
  pub session : IsDuration s.session_ttl 2_592_000_000_000_000
  pub idle : IsDuration s.idle_lock 2_592_000_000_000_000
  pub idle_first : to_nat s.idle_lock ≤ to_nat s.session_ttl

pub record IsHerdr (h : Herdr) : Type 0 where
  pub hot : IsDuration h.poll_hot 600_000_000_000
  pub cold : IsDuration h.poll_cold 600_000_000_000
  pub not_too_hot : 250_000_000 ≤ to_nat h.poll_hot
  pub cold_after_hot : to_nat h.poll_hot ≤ to_nat h.poll_cold

pub first_fault-All :
    (checks : List (Option Fault)) → (first_fault checks ≡ none) ↔ All (λ o. o ≡ none) checks
unfolding first_fault
first_fault-All [] = (λ h. tt, λ h. refl)
first_fault-All (none ∷ checks) =
    (λ h. (refl, (first_fault-All checks).0 h), λ h. (first_fault-All checks).1 h.1)
first_fault-All (some e ∷ checks) = (λ h. ground (arith, h), λ h. ground (arith, h.0))

pub fault_if-none : (c : Bool) (e : Fault) → (fault_if c e ≡ none) ↔ (c ≡ false)
fault_if-none true e = (λ h. ground arith, λ h. ground arith)
fault_if-none false e = (λ h. refl, λ h. refl)

pub check_duration-IsDuration :
    (f : Field) (d : ℤ) (max : ℕ) → (check_duration f d max ≡ none) ↔ IsDuration d max
unfolding check_duration first_fault
check_duration-IsDuration f (pos n) max =
    (λ h. (n, refl, ground arith, ground arith), λ (m, e, lo, hi). ground (arith, e, lo, hi))
check_duration-IsDuration f (negsuc n) max =
    (λ h. ground arith, λ (m, e, lo, hi). ground (arith, e))

pub fault_unless-none : (c : Bool) (e : Fault) → (fault_if (not c) e ≡ none) ↔ (c ≡ true)
fault_unless-none true e = (λ h. refl, λ h. refl)
fault_unless-none false e = (λ h. ground arith, λ h. ground arith)

fault_below-none : (m n : ℕ) (e : Fault) → (fault_if (ltb m n) e ≡ none) ↔ (n ≤ m)
fault_below-none m n e = (λ h. ground (arith, h), λ h. ground (arith, h))

pub fault_empty-none {ℓ} :
    {A : Type ℓ} (xs : List A) (e : Fault) → (fault_if (is_empty xs) e ≡ none) ↔ (xs ≢ [])
fault_empty-none [] e = (λ h. ground arith, λ h. absurd (h refl))
fault_empty-none (x ∷ xs) e = (λ h k. ground (arith, k), λ h. refl)

pub in_bounds_lem :
    (lo hi : ℕ) (n : ℤ) (e : Fault)
    → 1 ≤ lo
    → (fault_if (not (in_bounds lo hi n)) e ≡ none) ↔ (IsBetween lo hi n)
in_bounds_lem lo hi (pos m) e p =
    (λ h. (m, refl, ground arith, ground arith), λ (k, same, b, c). ground (arith, same, b, c))
in_bounds_lem lo hi (negsuc m) e p = (λ h. ground arith, λ (k, same, b, c). ground (arith, same))

-- All elements pass a check.
pub check_all-All :
    {A : Type 0} (bad : A → Bool) (e : Fault) (as' : List A)
    → (check_all bad e as' ≡ none) ↔ All (λ a. bad a ≡ false) as'
unfolding check_all
check_all-All bad e [] = (λ h. tt, λ h. refl)
check_all-All bad e (a ∷ rest) = (
  λ h. step (bad a) h (check_all-All bad e rest).0,
  λ (h, k). rw h ((check_all-All bad e rest).1 k),
)
  where
    step :
        (c : Bool)
        → (if c then some e else check_all bad e rest) ≡ none
        → (check_all bad e rest ≡ none → All (λ a. bad a ≡ false) rest)
        → (c ≡ false) × All (λ a. bad a ≡ false) rest
    step true h k = ground arith
    step false h k = (refl, k h)

pub server-IsServer : (s : Server) → (validate_server s ≡ none) ↔ IsServer s
unfolding validate_server
server-IsServer s = (
  λ h.
      let (host, (port, (session, (idle, (first, _))))) = (first_fault-All _).0 h in
      record {
        on_loopback = (str_eq_iff s.host loopback_host).0 ((fault_unless-none _ _).0 host);
        has_port = (in_bounds_lem 1 65_535 s.port _ (omega arith)).0 port;
        session = (check_duration-IsDuration _ _ _).0 session;
        idle = (check_duration-IsDuration _ _ _).0 idle;
        idle_first = (fault_below-none _ _ _).0 first;
      },
  λ h. (first_fault-All _).1 (
    (fault_unless-none _ _).1 ((str_eq_iff s.host loopback_host).1 h.on_loopback),
    (
      (in_bounds_lem 1 65_535 s.port _ (omega arith)).1 h.has_port,
      (
        (check_duration-IsDuration _ _ _).1 h.session,
        ((check_duration-IsDuration _ _ _).1 h.idle, ((fault_below-none _ _ _).1 h.idle_first, tt)),
      ),
    ),
  ),
)

pub herdr-IsHerdr : (h : Herdr) → (validate_herdr h ≡ none) ↔ IsHerdr h
unfolding validate_herdr
herdr-IsHerdr h = (
  λ e.
      let (hot, (early, (cold, (order, _)))) = (first_fault-All _).0 e in
      record {
        hot = (check_duration-IsDuration _ _ _).0 hot;
        cold = (check_duration-IsDuration _ _ _).0 cold;
        not_too_hot = (fault_below-none _ _ _).0 early;
        cold_after_hot = (fault_below-none _ _ _).0 order;
      },
  λ k. (first_fault-All _).1 (
    (check_duration-IsDuration _ _ _).1 k.hot,
    (
      (fault_below-none _ _ _).1 k.not_too_hot,
      (
        (check_duration-IsDuration _ _ _).1 k.cold,
        ((fault_below-none _ _ _).1 k.cold_after_hot, tt),
      ),
    ),
  ),
)

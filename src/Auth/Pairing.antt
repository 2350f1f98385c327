-- ===== src/Auth/Pairing.antt =====
-- The single-use pairing secret of internal/auth/pairing.go. What `io.ReadFull` gives each rotation
-- is an argument, `none` for its failure. `base64.RawURLEncoding` after `strings.TrimSpace` is the
-- section's parameter `decode`, and its encoder `encode`; `subtle.ConstantTimeCompare` is equality.
use herdr_phone.Base.{
  List, [], ◌∷◌, ◌++◌, Bool, true, false, Option, none, some, Str, bytes, str_eq, if◌then◌else◌,
  not,
}

pub record Pairing : Type 0 where
  pub secret : Str
  pub invalidated : Bool

-- `rotateLocked`, and whether it succeeded.
unfoldable pub rotate : Pairing → Option Str → Pairing × Bool
rotate p none = (p, false)
rotate p (some buf) = (record { secret = buf; invalidated = false }, true)

-- `NewPairing`; `none` is `ErrEntropy`.
unfoldable pub new_pairing : Option Str → Option Pairing
new_pairing none = none
new_pairing (some buf) = some (record { secret = buf; invalidated = false })

-- The end of `Verify`, after a match.
unfoldable pub use_secret : Pairing → Option Str → Pairing × Bool
use_secret p none = (record p { invalidated = true }, false)
use_secret p (some buf) = (record { secret = buf; invalidated = false }, true)

-- `Link` over a base URL that is trimmed.
unfoldable pub link : Str → Str → Str
link base token = base ++ bytes "/#pair=" ++ token

-- One call, with what the entropy source gives a rotation.
pub data Call : Type 0 where
  rotates : Option Str → Call
  verifies : Str → Option Str → Call

unfoldable pub token : (Str → Str) → Pairing → Str
token encode p = encode p.secret

module _ (decode : Str → Option Str) where
  unfoldable pub verify : Pairing → Str → Option Str → Pairing × Bool
  unfolding use_secret
  verify p provided entropy = if p.invalidated then (p, false) else elim (decode provided) [
    | none ↦ (p, false)
    | some decoded ↦ if not (str_eq decoded p.secret) then (p, false) else use_secret p entropy
  ]

  unfoldable pub step : Pairing → Call → Pairing × Bool
  unfolding rotate verify
  step p (rotates entropy) = rotate p entropy
  step p (verifies provided entropy) = verify p provided entropy

  unfoldable pub run : Pairing → List Call → Pairing
  run p [] = p
  run p (c ∷ cs) = run (step p c).0 cs

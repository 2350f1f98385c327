-- ===== src/Auth/SingleUse.antt =====
-- The pairing secret of internal/auth/pairing.go is good for one exchange.
use herdr_phone.Base.{
  List, [], ◌∷◌, ◌≡◌, ◌≢◌, ◌⊎◌, refl, true, false, Option, none, some, arith, Str, str_eq,
  str_eq_iff, str_eq_refl, All, Option-cases, Bool-cases, inl, inr, ap, ◌∙◌,
}
use herdr_phone.Auth.Pairing.{Pairing, Call, rotates, verifies, rotate, token, verify, step, run}

module _ (decode : Str → Option Str) where
  accepted :
      (p : Pairing) (provided buf : Str)
      → p.invalidated ≡ false
      → decode provided ≡ some p.secret
      → verify decode p provided (some buf) ≡ (record { secret = buf; invalidated = false }, true)
  unfolding verify
  accepted p provided buf h e = ground (arith, h, e, str_eq_refl p.secret)

  fails_closed :
      (p : Pairing) (provided : Str)
      → p.invalidated ≡ false
      → decode provided ≡ some p.secret
      → verify decode p provided none ≡ (record p { invalidated = true }, false)
  unfolding verify
  fails_closed p provided h e = ground (arith, h, e, str_eq_refl p.secret)

  refuses :
      (p : Pairing) (provided : Str) (entropy : Option Str)
      → (p.invalidated ≡ true) ⊎ (decode provided ≢ some p.secret)
      → verify decode p provided entropy ≡ (p, false)
  unfolding verify
  refuses p provided entropy (inl dead) = ground (arith, dead)
  refuses p provided entropy (inr other) = elim (Option-cases (decode provided)) [
    | inl e ↦ ground (arith, e)
    | inr (d, e) ↦ elim (Bool-cases (str_eq d p.secret)) [
      | inl same ↦ absurd (other (e ∙ ap some ((str_eq_iff d p.secret).0 same)))
      | inr differs ↦ ground (arith, e, differs)
    ]
  ]

  -- `Verify` on every branch. A usable pairing whose secret the text decodes to accepts it and takes
  -- a new secret from the entropy source; if that fails it refuses and becomes unusable. An unusable
  -- pairing, or another text, is refused and nothing changes.
  pub verify_lem :
      (p : Pairing) (provided : Str)
      → (p.invalidated ≡ false
          → decode provided ≡ some p.secret
          → (verify decode p provided none ≡ (record p { invalidated = true }, false))
            × ((buf : Str)
                → verify decode p provided (some buf)
                  ≡ (record { secret = buf; invalidated = false }, true)))
        × ((p.invalidated ≡ true) ⊎ (decode provided ≢ some p.secret)
            → (entropy : Option Str) → verify decode p provided entropy ≡ (p, false))
  verify_lem p provided = (
    λ h e. (fails_closed p provided h e, λ buf. accepted p provided buf h e),
    λ bad entropy. refuses p provided entropy bad,
  )

  -- The entropy source never draws the secret `s` in this call.
  abbrev pub Fresh : Str → Call → Type 0
  Fresh s (rotates (some buf)) = buf ≢ s
  Fresh s (rotates none) = Unit
  Fresh s (verifies provided (some buf)) = buf ≢ s
  Fresh s (verifies provided none) = Unit

  -- The secret `s` is not what a usable pairing waits for.
  abbrev Spent : Str → Pairing → Type 0
  Spent s p = (p.invalidated ≡ true) ⊎ (p.secret ≢ s)

  step-Spent :
      (s : Str) (p : Pairing) (c : Call) → Fresh s c → Spent s p → Spent s (step decode p c).0
  unfolding step rotate verify
  step-Spent s p (rotates none) f h = h
  step-Spent s p (rotates (some buf)) f h = inr f
  step-Spent s p (verifies provided none) f h = ground arith
  step-Spent s p (verifies provided (some buf)) f h = ground arith

  run-Spent :
      (s : Str) (p : Pairing) (cs : List Call)
      → All (Fresh s) cs
      → Spent s p
      → Spent s (run decode p cs)
  unfolding run
  run-Spent s p [] f h = h
  run-Spent s p (c ∷ cs) f h = run-Spent s (step decode p c).0 cs f.1 (step-Spent s p c f.0 h)

  spends_live :
      (p : Pairing) (provided : Str) (entropy : Option Str)
      → p.invalidated ≡ false
      → decode provided ≡ some p.secret
      → Fresh p.secret (verifies provided entropy)
      → Spent p.secret (verify decode p provided entropy).0
  spends_live p provided none h e f = rw (fails_closed p provided h e) (inl refl)
  spends_live p provided (some buf) h e f = rw (accepted p provided buf h e) (inr f)

  Spent-refuses :
      (again : Str) (entropy : Option Str) (p : Pairing) {s : Str}
      → Spent s p
      → decode again ≡ some s
      → (verify decode p again entropy).1 ≡ false
  Spent-refuses again entropy p (inl dead) e = rw (refuses p again entropy (inl dead)) refl
  Spent-refuses again entropy p (inr other) e =
      rw (refuses p again entropy (inr (λ e'. other (cc (e, e'))))) refl

  spends :
      (p : Pairing) (provided : Str) (entropy : Option Str)
      → decode provided ≡ some p.secret
      → Fresh p.secret (verifies provided entropy)
      → Spent p.secret (verify decode p provided entropy).0
  spends p provided entropy e f = elim (Bool-cases p.invalidated) [
    | inl dead ↦ rw (refuses p provided entropy (inl dead)) (inl dead)
    | inr live ↦ spends_live p provided entropy live e f
  ]

  -- After a secret has been accepted once, or a matching exchange failed for want of entropy, no text
  -- that decodes to it is accepted again, whatever rotations and exchanges come between, as long as
  -- the entropy source does not draw the same secret anew.
  pub verify-verify :
      (p : Pairing) (provided again : Str) (entropy entropy' : Option Str) (cs : List Call)
      → decode provided ≡ some p.secret
      → decode again ≡ some p.secret
      → Fresh p.secret (verifies provided entropy)
      → All (Fresh p.secret) cs
      → (verify decode (run decode (verify decode p provided entropy).0 cs) again entropy').1
        ≡ false
  verify-verify p provided again entropy entropy' cs e e' f fs =
      Spent-refuses again entropy' _
        (run-Spent p.secret (verify decode p provided entropy).0 cs fs
          (spends p provided entropy e f))
        e'

  -- The link that a usable pairing shows is accepted, if the decoder undoes the encoder.
  pub verify-token :
      (encode : Str → Str) (p : Pairing) (buf : Str)
      → ((s : Str) → decode (encode s) ≡ some s)
      → p.invalidated ≡ false
      → (verify decode p (token encode p) (some buf)).1 ≡ true
  unfolding token
  verify-token encode p buf round h = rw (accepted p (encode p.secret) buf h (round p.secret)) refl

-- ===== src/Ansi/Queries.antt =====
-- Which control sequences internal/security/ansi.go means to drop, said apart from the code of
-- `csiShouldStrip` and `oscShouldStrip`, and that its tests agree.
use herdr_phone.Base.{
  ℕ, ◌+◌, ◌-◌, ◌*◌, ◌≤◌, ◌<◌, List, [], ◌∷◌, ◌≡◌, ◌≢◌, ◌⊎◌, ◌↔◌, inl, inr, refl, arith, Bool, true,
  false, ◌||◌, Option, none, some, ltb, within, ◌==◌, if◌then◌else◌, if_both, Any, Bool-cases, sym,
  subst,
}
use herdr_phone.Ansi.Strip.{has_byte, csi_query, osc_code, osc_code_blocked}

abbrev pub Holds : ℕ → List ℕ → Type 0
Holds c = Any (λ b. b ≡ c)

either :
    (c b : ℕ) (p : List ℕ) (t : Bool)
    → t ≡ (b == c)
    → (t || has_byte c p) ≡ true
    → (has_byte c p ≡ true → Holds c p)
    → (b ≡ c) ⊎ Holds c p
either c b p true e h later = inl (ground (arith, e))
either c b p false e h later = inr (later h)

has_byte_iff : (c : ℕ) (p : List ℕ) → (has_byte c p ≡ true) ↔ Holds c p
unfolding has_byte
has_byte_iff c [] = (λ h. ground (arith, h), λ h. absurd h)
has_byte_iff c (b ∷ p) = (
  λ h. either c b p (b == c) refl h (has_byte_iff c p).0,
  λ h. elim h [ inl e ↦ ground (arith, e) | inr k ↦ ground (arith, (has_byte_iff c p).1 k) ],
)

has_no_byte : (c : ℕ) (p : List ℕ) → ¬ Holds c p → has_byte c p ≡ false
has_no_byte c p h = elim (Bool-cases (has_byte c p)) [
  | inl e ↦ absurd (h ((has_byte_iff c p).0 e))
  | inr e ↦ e
]

one_of_three : (x a b c : ℕ) → (x == a || x == b || x == c) ≡ true → (x ≡ a) ⊎ ((x ≡ b) ⊎ (x ≡ c))
one_of_three x a b c h = elim (Bool-cases (x == a)) [
  | inl e ↦ inl (ground (arith, e))
  | inr e ↦ elim (Bool-cases (x == b)) [
    | inl k ↦ inr (inl (ground (arith, k)))
    | inr k ↦ inr (inr (ground (arith, e, k, h)))
  ]
]

-- The queries among CSI sequences: device status (n), device attributes (c), window operations (t),
-- mode (`$p`), version (`>q`), terminal parameters (x, not `$x`) and checksum (`*y`).
abbrev pub IsCsiQuery : List ℕ → ℕ → Type 0
IsCsiQuery mid final =
    (final ≡ b'n')
    ⊎ ((final ≡ b'c')
        ⊎ ((final ≡ b't')
            ⊎ (((final ≡ b'p') × Holds b'$' mid)
                ⊎ (((final ≡ b'q') × Holds b'>' mid × ¬ Holds b' ' mid)
                    ⊎ (((final ≡ b'x') × ¬ Holds b'$' mid) ⊎ ((final ≡ b'y') × Holds b'*' mid))))))

pub csi_query_iff : (mid : List ℕ) (final : ℕ) → (csi_query mid final ≡ true) ↔ IsCsiQuery mid final
unfolding csi_query
csi_query_iff mid final = (
  λ h.
      if_both (λ t. t ≡ true → IsCsiQuery mid final)
        (final == b'n' || final == b'c' || final == b't') (λ e _. either3 e)
        (λ _.
          if_both (λ t. t ≡ true → IsCsiQuery mid final) (final == b'p')
            (λ e k. inr (inr (inr (inl (ground (arith, e), (has_byte_iff b'$' mid).0 k)))))
            λ _.
              if_both (λ t. t ≡ true → IsCsiQuery mid final) (final == b'q')
                (λ e k. inr (
                  inr (
                    inr (
                      inr (
                        inl (
                          ground (arith, e),
                          (has_byte_iff b'>' mid).0 (ground (arith, k)),
                          λ sp. ground (arith, k, (has_byte_iff b' ' mid).1 sp),
                        ))))))
                λ _.
                  if_both (λ t. t ≡ true → IsCsiQuery mid final) (final == b'x')
                    (λ e k. inr (
                      inr (
                        inr (
                          inr (
                            inr (
                              inl (
                                ground (arith, e),
                                λ d. ground (arith, k, (has_byte_iff b'$' mid).1 d),
                              )))))))
                    λ _.
                      if_both (λ t. t ≡ true → IsCsiQuery mid final) (final == b'y')
                        (λ e k. inr (
                          inr (
                            inr
                              (inr (inr (inr (ground (arith, e), (has_byte_iff b'*' mid).0 k)))))))
                        (λ _ k. ground (arith, k)))
        h,
  from,
)
  where
    either3 : (final == b'n' || final == b'c' || final == b't') ≡ true → IsCsiQuery mid final
    either3 e = elim (one_of_three final b'n' b'c' b't' e) [
      | inl k ↦ inl k
      | inr (inl k) ↦ inr (inl k)
      | inr (inr k) ↦ inr (inr (inl k))
    ]

    from : IsCsiQuery mid final → csi_query mid final ≡ true
    from (inl e) = rw e refl
    from (inr (inl e)) = rw e refl
    from (inr (inr (inl e))) = rw e refl
    from (inr (inr (inr (inl (e, d))))) = rw e ((has_byte_iff b'$' mid).1 d)
    from (inr (inr (inr (inr (inl (e, g, sp)))))) =
        rw e (ground (arith, (has_byte_iff b'>' mid).1 g, has_no_byte b' ' mid sp))
    from (inr (inr (inr (inr (inr (inl (e, d))))))) = rw e (ground (arith, has_no_byte b'$' mid d))
    from (inr (inr (inr (inr (inr (inr (e, d))))))) = rw e ((has_byte_iff b'*' mid).1 d)

-- The decimal digits that a payload begins with, and the number they stand for after `n`.
abbrev pub leading : List ℕ → List ℕ
leading [] = []
leading (b ∷ p) = if within b'0' b'9' b then b ∷ leading p else []

abbrev pub number_after : ℕ → List ℕ → ℕ
number_after n [] = n
number_after n (b ∷ p) = number_after (n * 10 + (b - b'0')) p

-- The numbers of a window title (0, 1, 2), a hyperlink (8) and the clipboard (52).
abbrev pub IsBlockedNumber : ℕ → Type 0
IsBlockedNumber n = (n ≡ 0) ⊎ ((n ≡ 1) ⊎ ((n ≡ 2) ⊎ ((n ≡ 8) ⊎ (n ≡ 52))))

-- The OSC strings to drop: those that begin with such a number, and queries.
abbrev pub IsOscBlocked : List ℕ → Type 0
IsOscBlocked payload =
    ((leading payload ≢ []) × IsBlockedNumber (number_after 0 (leading payload)))
    ⊎ Holds b'?' payload

number_after_le : (n : ℕ) (p : List ℕ) → n ≤ number_after n p
number_after_le n [] = omega arith
number_after_le n (b ∷ p) = omega (arith, number_after_le (n * 10 + (b - b'0')) p)

-- The digit loop stops early only on a number over a million.
abbrev IsCode : ℕ → Option ℕ → Type 0
IsCode m none = ⊥
IsCode m (some v) = (v ≡ m) ⊎ ((1_000_000 < v) × (1_000_000 < m))

osc_code-IsCode : (n : ℕ) (p : List ℕ) → IsCode (number_after n (leading p)) (osc_code (some n) p)
unfolding osc_code
osc_code-IsCode n [] = inl refl
osc_code-IsCode n (b ∷ p) =
    let next = n * 10 + (b - b'0') in
    elim (Bool-cases (within b'0' b'9' b)) [
      | inl e ↦ rw e (
          if_both (IsCode (number_after next (leading p))) (ltb 1_000_000 next)
            (λ big.
              inr (ground (arith, big), ground (arith, big, number_after_le next (leading p))))
            (λ _. osc_code-IsCode next p))
      | inr e ↦ rw e (inl refl)
    ]

abbrev Coded : List ℕ → Type 0
Coded p =
    ((leading p ≡ []) × (osc_code none p ≡ none))
    ⊎ ((leading p ≢ []) × IsCode (number_after 0 (leading p)) (osc_code none p))

osc_code-Coded : (p : List ℕ) → Coded p
unfolding osc_code
osc_code-Coded [] = inl (refl, refl)
osc_code-Coded (b ∷ p) = elim (Bool-cases (within b'0' b'9' b)) [
  | inl e ↦
      rw e (inr ((λ k. ground (arith, k)), first (b - b'0') (0 * 10 + (b - b'0')) (omega arith)))
  | inr e ↦ rw e (inl (refl, refl))
]
  where
    first :
        (d n : ℕ)
        → d ≡ n
        → IsCode
            (number_after n (leading p))
            (if ltb 1_000_000 d then some d else osc_code (some d) p)
    first d n e =
        subst
          (λ m.
            IsCode (number_after m (leading p))
              (if ltb 1_000_000 d then some d else osc_code (some d) p))
          e
          (if_both (IsCode (number_after d (leading p))) (ltb 1_000_000 d)
            (λ big. inr (ground (arith, big), ground (arith, big, number_after_le d (leading p))))
            (λ _. osc_code-IsCode d p))

blocked_number : (n : ℕ) → (osc_code_blocked (some n) ≡ true) ↔ IsBlockedNumber n
unfolding osc_code_blocked
blocked_number n = (
  λ h. elim (Bool-cases (n == 0 || n == 1 || n == 2)) [
    | inl e ↦ elim (one_of_three n 0 1 2 e) [
      | inl k ↦ inl k
      | inr (inl k) ↦ inr (inl k)
      | inr (inr k) ↦ inr (inr (inl k))
    ]
    | inr e ↦ elim (Bool-cases (n == 8)) [
      | inl k ↦ inr (inr (inr (inl (ground (arith, k)))))
      | inr k ↦ inr (inr (inr (inr (ground (arith, e, k, h)))))
    ]
  ],
  λ h. elim h [
    | inl e ↦ rw e refl
    | inr (inl e) ↦ rw e refl
    | inr (inr (inl e)) ↦ rw e refl
    | inr (inr (inr (inl e))) ↦ rw e refl
    | inr (inr (inr (inr e))) ↦ rw e refl
  ],
)

small : (n : ℕ) → IsBlockedNumber n → n ≤ 1_000_000
small n (inl e) = omega (arith, e)
small n (inr (inl e)) = omega (arith, e)
small n (inr (inr (inl e))) = omega (arith, e)
small n (inr (inr (inr (inl e)))) = omega (arith, e)
small n (inr (inr (inr (inr e)))) = omega (arith, e)

too_big : (n : ℕ) → 1_000_000 < n → ¬ IsBlockedNumber n
too_big n h k = omega (arith, small n k)

code_blocked : (m : ℕ) (o : Option ℕ) → IsCode m o → (osc_code_blocked o ≡ true) ↔ IsBlockedNumber m
code_blocked m none h = absurd h
code_blocked m (some v) (inl e) = rw (sym e) (blocked_number v)
code_blocked m (some v) (inr (a, b)) =
    (λ h. absurd (too_big v a ((blocked_number v).0 h)), λ h. absurd (too_big m b h))

not_leading : (p : List ℕ) → osc_code none p ≡ none → osc_code_blocked (osc_code none p) ≡ false
unfolding osc_code_blocked
not_leading p e = rw e refl

-- The test of `oscShouldStrip` on a payload.
abbrev pub osc_query : List ℕ → Bool
osc_query payload = if osc_code_blocked (osc_code none payload) then true else has_byte b'?' payload

pub osc_query_iff : (payload : List ℕ) → (osc_query payload ≡ true) ↔ IsOscBlocked payload
osc_query_iff payload = elim (osc_code-Coded payload) [
  | inl (empty, none_found) ↦ (
    λ h. inr ((has_byte_iff b'?' payload).0 (ground (arith, h, not_leading payload none_found))),
    λ h. elim h [
      | inl (some_digit, k) ↦ absurd (some_digit empty)
      | inr k ↦ ground (arith, (has_byte_iff b'?' payload).1 k)
    ],
  )
  | inr (some_digit, coded) ↦
      let same = code_blocked (number_after 0 (leading payload)) (osc_code none payload) coded in
      (
        λ h. elim (Bool-cases (osc_code_blocked (osc_code none payload))) [
          | inl e ↦ inl (some_digit, same.0 e)
          | inr e ↦ inr ((has_byte_iff b'?' payload).0 (ground (arith, h, e)))
        ],
        λ h. elim h [
          | inl (digit, k) ↦ ground (arith, same.1 k)
          | inr k ↦ ground (arith, (has_byte_iff b'?' payload).1 k)
        ],
      )
]

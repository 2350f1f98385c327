-- ===== src/Ansi/Text.antt =====
-- Text that `ANSIFilter` (internal/security/ansi.go) passes on: characters in UTF-8.
use herdr_phone.Base.{ℕ, ◌≤◌, ◌<◌, List, [], ◌∷◌, ◌≡◌, ◌≢◌, ◌⊎◌, length, All}
use herdr_phone.Ansi.Strip.{enq, esc_byte}
use herdr_phone.Ansi.{utf8_continuation}

-- One character: an ASCII byte other than ESC and ENQ, or a lead byte with its continuation bytes.
abbrev pub IsRune : List ℕ → Type 0
IsRune [] = ⊥
IsRune (b ∷ rest) =
    ((b < 0x80) × (b ≢ esc_byte) × (b ≢ enq) × (rest ≡ []))
    ⊎ ((0xC0 ≤ b) × (length rest ≡ utf8_continuation b) × All (λ c. (0x80 ≤ c) × (c ≤ 0xBF)) rest)

-- ===== src/Ansi/Strip.antt =====
-- The decisions of internal/security/ansi.go on a complete control sequence: `csiShouldStrip` and
-- `oscShouldStrip`. A sequence is the list of its bytes, introducer and final byte included.
use herdr_phone.Base.{
  ℕ, ◌+◌, ◌-◌, ◌*◌, List, [], ◌∷◌, Bool, true, false, not, ◌&&◌, ◌||◌, Option, none, some, ltb,
  ◌==◌, if◌then◌else◌, within,
}

abbrev pub enq : ℕ
enq = 0x05

abbrev pub bel : ℕ
bel = 0x07

abbrev pub esc_byte : ℕ
esc_byte = 0x1B

-- The 8-bit introducers.
abbrev pub c1_dcs : ℕ
c1_dcs = 0x90

abbrev pub c1_sos : ℕ
c1_sos = 0x98

abbrev pub c1_csi : ℕ
c1_csi = 0x9B

abbrev pub c1_st : ℕ
c1_st = 0x9C

abbrev pub c1_osc : ℕ
c1_osc = 0x9D

abbrev pub c1_pm : ℕ
c1_pm = 0x9E

abbrev pub c1_apc : ℕ
c1_apc = 0x9F

-- `bytes.IndexByte(p, c) >= 0`.
unfoldable pub has_byte : ℕ → List ℕ → Bool
has_byte c [] = false
has_byte c (b ∷ p) = b == c || has_byte c p

-- Drops the introducer `ESC c`, if it is there.
unfoldable pub drop_intro : ℕ → List ℕ → List ℕ
drop_intro c [] = []
drop_intro c (a ∷ []) = a ∷ []
drop_intro c (a ∷ b ∷ body) = if a == esc_byte && b == c then body else a ∷ b ∷ body

-- `body[:len(body)-1]` and `body[len(body)-1]` of the body `b ∷ body`.
unfoldable pub mid_bytes : ℕ → List ℕ → List ℕ
mid_bytes b [] = []
mid_bytes b (c ∷ body) = b ∷ mid_bytes c body

unfoldable pub final_byte : ℕ → List ℕ → ℕ
final_byte b [] = b
final_byte b (c ∷ body) = final_byte c body

-- The `switch final` of `csiShouldStrip`.
unfoldable pub csi_query : List ℕ → ℕ → Bool
csi_query mid final =
    if final == b'n' || final == b'c' || final == b't'
    then true
    else if final == b'p'
    then has_byte b'$' mid
    else if final == b'q'
    then has_byte b'>' mid && not (has_byte b' ' mid)
    else if final == b'x'
    then not (has_byte b'$' mid)
    else if final == b'y'
    then has_byte b'*' mid
    else false

unfoldable pub csi_body_query : List ℕ → Bool
unfolding csi_query mid_bytes final_byte has_byte
csi_body_query [] = false
csi_body_query (b ∷ body) = csi_query (mid_bytes b body) (final_byte b body)

unfoldable pub csi_should_strip : List ℕ → Bool
unfolding csi_body_query drop_intro
csi_should_strip seq = csi_body_query (drop_intro b'[' seq)

-- Trims one terminator, BEL or ESC \.
unfoldable pub trim_terminator : List ℕ → List ℕ
trim_terminator [] = []
trim_terminator (a ∷ []) = if a == bel then [] else a ∷ []
trim_terminator (a ∷ b ∷ []) =
    if b == bel then a ∷ [] else if a == esc_byte && b == b'\\' then [] else a ∷ b ∷ []
trim_terminator (a ∷ b ∷ c ∷ p) = a ∷ trim_terminator (b ∷ c ∷ p)

abbrev pub next_code : Option ℕ → ℕ → ℕ
next_code none b = b - b'0'
next_code (some code) b = code * 10 + (b - b'0')

-- The digit loop; `none` is the source's -1.
unfoldable pub osc_code : Option ℕ → List ℕ → Option ℕ
osc_code code [] = code
osc_code code (b ∷ p) =
    let next = next_code code b in
    let rest = osc_code (some next) p in
    if within b'0' b'9' b then if ltb 1_000_000 next then some next else rest else code

-- The `switch code`: window titles, hyperlinks and the clipboard.
unfoldable pub osc_code_blocked : Option ℕ → Bool
osc_code_blocked none = false
osc_code_blocked (some c) = c == 0 || c == 1 || c == 2 || c == 8 || c == 52

unfoldable pub osc_should_strip : List ℕ → Bool
unfolding osc_code_blocked osc_code trim_terminator drop_intro has_byte
osc_should_strip seq =
    let p = trim_terminator (drop_intro b']' seq) in
    if osc_code_blocked (osc_code none p) then true else has_byte b'?' p

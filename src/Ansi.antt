-- ===== src/Ansi.antt =====
-- The streaming terminal filter of internal/security/ansi.go: `ANSIFilter`, its `Reset`, and `Filter`
-- split by parser state. `Filter` reads a byte at a time; where the source says `i--` the same byte
-- is read again from the state just set.
pub mod Strip
pub mod Loop
pub mod Run
pub mod Replay
pub mod Idempotent
pub mod Bounds
pub mod Text
pub mod Queries
pub mod Sequences
pub mod Examples
use Strip.{
  enq, bel, esc_byte, c1_dcs, c1_sos, c1_csi, c1_st, c1_osc, c1_pm, c1_apc, csi_should_strip,
  osc_should_strip,
}
use herdr_phone.Base.{
  ℕ, suc, ◌+◌, ◌-◌, ◌^◌, List, [], ◌∷◌, ◌++◌, Bool, ◌&&◌, ◌||◌, ltb, leb, ◌==◌, if◌then◌else◌,
  within, length,
}

pub data AnsiState : Type 0 where
  st_ground st_esc st_esc_int st_csi st_osc st_osc_esc st_str st_str_esc : AnsiState

pub record AnsiFilter : Type 0 where
  pub state : AnsiState
  pub seq : List ℕ
  pub str_n : ℕ
  pub utf8_remaining : ℕ
  pub max_seq : ℕ
  pub max_str : ℕ

abbrev pub default_max_seq_bytes : ℕ
default_max_seq_bytes = 4096

abbrev pub default_max_str_bytes : ℕ
default_max_str_bytes = 2 ^ 20

abbrev pub new_ansi_filter : AnsiFilter
new_ansi_filter = record {
  state = st_ground;
  seq = [];
  str_n = 0;
  utf8_remaining = 0;
  max_seq = default_max_seq_bytes;
  max_str = default_max_str_bytes;
}

unfoldable pub reset : AnsiFilter → AnsiFilter
reset f = record f { state = st_ground; seq = []; str_n = 0; utf8_remaining = 0 }

unfoldable pub utf8_continuation : ℕ → ℕ
utf8_continuation lead =
    if within 0xF0 0xF7 lead
    then 3
    else if within 0xE0 0xEF lead
    then 2
    else if within 0xC0 0xDF lead
    then 1
    else 0

-- What one pass of the loop body does: go on to the next byte, having written some bytes, or read
-- the same byte again (`i--`).
pub data Turn : Type 0 where
  next : AnsiFilter → List ℕ → Turn
  again : AnsiFilter → Turn

abbrev pub goto : AnsiFilter → AnsiState → List ℕ → AnsiFilter
goto f s seq = record f { state = s; seq = seq }

abbrev pub to_ground : AnsiFilter → AnsiFilter
to_ground f = goto f st_ground []

abbrev pub enter_str : AnsiFilter → AnsiFilter
enter_str f = record f { state = st_str; seq = []; str_n = 0 }

-- The inner `switch` of `stGround`.
unfoldable pub ground_switch : AnsiFilter → ℕ → Turn
unfolding utf8_continuation
ground_switch f b =
    if b == esc_byte
    then next (goto f st_esc (b ∷ [])) []
    else if b == enq
    then next f []
    else if b == c1_csi
    then next (goto f st_csi (esc_byte ∷ b'[' ∷ [])) []
    else if b == c1_osc
    then next (goto f st_osc (esc_byte ∷ b']' ∷ [])) []
    else if b == c1_dcs || b == c1_sos || b == c1_pm || b == c1_apc
    then next (enter_str f) []
    else if b == c1_st
    then next f []
    else if within 0x80 0x9F b
    then next f []
    else if leb 0xC0 b
    then next (record f { utf8_remaining = utf8_continuation b }) (b ∷ [])
    else next f (b ∷ [])

unfoldable pub ground_step : AnsiFilter → ℕ → Turn
unfolding ground_switch
ground_step f b =
    if ltb 0 f.utf8_remaining && within 0x80 0xBF b
    then next (record f { utf8_remaining = f.utf8_remaining - 1 }) (b ∷ [])
    else ground_switch (record f { utf8_remaining = 0 }) b

unfoldable pub esc_step : AnsiFilter → ℕ → Turn
esc_step f b =
    if b == b'['
    then next (goto f st_csi (f.seq ++ b ∷ [])) []
    else if b == b']'
    then next (goto f st_osc (f.seq ++ b ∷ [])) []
    else if b == b'P' || b == b'_' || b == b'^' || b == b'X'
    then next (enter_str f) []
    else if b == b'Z'
    then next (to_ground f) []
    else if b == esc_byte
    then next (goto f st_esc (b ∷ [])) []
    else if within 0x20 0x2F b
    then next (goto f st_esc_int (f.seq ++ b ∷ [])) []
    else if within 0x30 0x7E b
    then next (to_ground f) (f.seq ++ b ∷ [])
    else again (to_ground f)

-- `if len(f.seq) > f.maxSeq`, which drops an overlong sequence.
unfoldable pub cap_filter : AnsiFilter → AnsiFilter
cap_filter f = if ltb f.max_seq (length f.seq) then to_ground f else f

unfoldable pub cap_seq : Turn → Turn
unfolding cap_filter
cap_seq (next f out) = next (cap_filter f) out
cap_seq (again f) = again (cap_filter f)

unfoldable pub esc_int_switch : AnsiFilter → ℕ → Turn
esc_int_switch f b =
    if within 0x20 0x2F b
    then next (goto f st_esc_int (f.seq ++ b ∷ [])) []
    else if within 0x30 0x7E b
    then next (to_ground f) (f.seq ++ b ∷ [])
    else if b == esc_byte
    then next (goto f st_esc (b ∷ [])) []
    else again (to_ground f)

unfoldable pub csi_switch : AnsiFilter → ℕ → Turn
csi_switch f b =
    if within 0x30 0x3F b
    then next (goto f st_csi (f.seq ++ b ∷ [])) []
    else if within 0x20 0x2F b
    then next (goto f st_csi (f.seq ++ b ∷ [])) []
    else if within 0x40 0x7E b
    then next (to_ground f) (if csi_should_strip (f.seq ++ b ∷ []) then [] else f.seq ++ b ∷ [])
    else if b == esc_byte
    then next (goto f st_esc (b ∷ [])) []
    else again (to_ground f)

unfoldable pub osc_step : AnsiFilter → ℕ → Turn
unfolding cap_filter
osc_step f b =
    if b == bel || b == c1_st
    then next (to_ground f) (if osc_should_strip (f.seq ++ bel ∷ []) then [] else f.seq ++ bel ∷ [])
    else if b == esc_byte
    then next (record f { state = st_osc_esc }) []
    else if ltb b 0x20 || b == 0x7F || within 0x80 0x9F b
    then again (to_ground f)
    else next (cap_filter (goto f st_osc (f.seq ++ b ∷ []))) []

unfoldable pub osc_esc_step : AnsiFilter → ℕ → Turn
osc_esc_step f b =
    let whole = f.seq ++ esc_byte ∷ b'\\' ∷ [] in
    if b == b'\\'
    then next (to_ground f) (if osc_should_strip whole then [] else whole)
    else again (to_ground f)

unfoldable pub str_step : AnsiFilter → ℕ → Turn
str_step f b =
    if b == bel || b == c1_st
    then next (record f { state = st_ground; str_n = 0 }) []
    else if b == esc_byte
    then next (record f { state = st_str_esc }) []
    else if ltb f.max_str (f.str_n + 1)
    then next (record f { state = st_ground; str_n = 0 }) []
    else next (record f { str_n = f.str_n + 1 }) []

unfoldable pub str_esc_step : AnsiFilter → ℕ → Turn
str_esc_step f b =
    let done = record f { state = st_ground; str_n = 0 } in
    if b == b'\\' then next done [] else again done

-- The `switch f.state` of the loop body.
unfoldable pub dispatch : AnsiState → AnsiFilter → ℕ → Turn
unfolding ground_step esc_step cap_seq esc_int_switch csi_switch osc_step osc_esc_step str_step
    str_esc_step
dispatch st_ground f b = ground_step f b
dispatch st_esc f b = esc_step f b
dispatch st_esc_int f b = cap_seq (esc_int_switch f b)
dispatch st_csi f b = cap_seq (csi_switch f b)
dispatch st_osc f b = osc_step f b
dispatch st_osc_esc f b = osc_esc_step f b
dispatch st_str f b = str_step f b
dispatch st_str_esc f b = str_esc_step f b

unfoldable pub step : AnsiFilter → ℕ → Turn
unfolding dispatch
step f b = dispatch f.state f b

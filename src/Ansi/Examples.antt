-- ===== src/Ansi/Examples.antt =====
-- Runs of the filter of internal/security/ansi.go on concrete bytes.
use herdr_phone.Base.{ℕ, ◌≤◌, List, [], ◌∷◌, ◌++◌, ◌≡◌, refl, arith, bytes}
use mathlib.Core.List.{flatten}
use herdr_phone.Ansi.{AnsiFilter, new_ansi_filter, reset, step}
use herdr_phone.Ansi.Strip.{bel, esc_byte, c1_csi, c1_osc, csi_should_strip, osc_should_strip}
use herdr_phone.Ansi.Loop.{consume, filter, filter_chunks, with_defaults}
use herdr_phone.Ansi.Run.{filter_chunks-flatten}
use herdr_phone.Ansi.Idempotent.{filter-filter}
use herdr_phone.Ansi.Sequences.{IsFiltered, filter_csi, filter_osc}
use herdr_phone.Ansi.Queries.{IsCsiQuery, IsOscBlocked}

-- `a`, a colour, `b`, a cursor report query, a clipboard write, and an unfinished sequence.
abbrev screen : List ℕ
screen =
    bytes "a"
    ++ esc_byte ∷ bytes "[31m"
    ++ bytes "b"
    ++ esc_byte ∷ bytes "[6n"
    ++ esc_byte ∷ bytes "]52;c;eA=="
    ++ bel ∷ c1_csi ∷ bytes "1;"

abbrev shown : List ℕ
shown = bytes "a" ++ esc_byte ∷ bytes "[31m" ++ bytes "b"

filter-screen : (filter (reset new_ansi_filter) screen).1 ≡ shown
unfolding filter consume step reset csi_should_strip osc_should_strip
filter-screen = refl

filter-filter_example :
    (filter (reset new_ansi_filter) (filter (reset new_ansi_filter) screen).1).1
    ≡ (filter (reset new_ansi_filter) screen).1
filter-filter_example = filter-filter new_ansi_filter screen

filter_chunks-flatten_example :
    (with_defaults (filter_chunks new_ansi_filter (shown ∷ [] ∷ screen ∷ [])).0
      ≡ (filter new_ansi_filter (flatten (shown ∷ [] ∷ screen ∷ []))).0)
    × ((filter_chunks new_ansi_filter (shown ∷ [] ∷ screen ∷ [])).1
        ≡ (filter new_ansi_filter (flatten (shown ∷ [] ∷ screen ∷ []))).1)
filter_chunks-flatten_example = filter_chunks-flatten new_ansi_filter (shown ∷ [] ∷ screen ∷ [])

abbrev small : AnsiFilter
small = record new_ansi_filter { max_seq = 4; max_str = 6 }

small_fits : 4 ≤ (with_defaults small).max_seq
unfolding with_defaults
small_fits = omega arith

filter_csi_example :
    let whole = esc_byte ∷ 91 ∷ bytes "6" ++ 110 ∷ [] in
    IsFiltered (IsCsiQuery (bytes "6") 110) whole (filter (reset small) whole).1
    × IsFiltered
        (IsCsiQuery (bytes "6") 110)
        whole
        (filter (reset small) (c1_csi ∷ bytes "6" ++ 110 ∷ [])).1
filter_csi_example =
    filter_csi small (bytes "6") 110 (ground arith) (omega arith) (omega arith)
      (omega (arith, small_fits))

filter_osc_example :
    let whole = esc_byte ∷ 93 ∷ bytes "4;" ++ bel ∷ [] in
    IsFiltered (IsOscBlocked (bytes "4;")) whole (filter (reset small) whole).1
    × IsFiltered
        (IsOscBlocked (bytes "4;"))
        whole
        (filter (reset small) (c1_osc ∷ bytes "4;" ++ bel ∷ [])).1
filter_osc_example = filter_osc small (bytes "4;") (ground arith) small_fits

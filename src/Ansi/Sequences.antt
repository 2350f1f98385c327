-- ===== src/Ansi/Sequences.antt =====
-- Whole CSI and OSC sequences through `ANSIFilter` (internal/security/ansi.go): each is written as a
-- whole or not at all, by `csiShouldStrip` and `oscShouldStrip`.
use herdr_phone.Base.{
  ◌⊎◌, inl, inr, ◌↔◌, false, ℕ, ◌+◌, ◌≤◌, List, [], ◌∷◌, ◌++◌, ◌≡◌, refl, ap, ◌∙◌, arith, length,
  length-append, All, Bool, true, if◌then◌else◌, append_assoc, append-nil,
}
use herdr_phone.Ansi.Strip.{
  bel, esc_byte, c1_csi, c1_osc, csi_should_strip, csi_query, csi_body_query, drop_intro, mid_bytes,
  final_byte, osc_should_strip, trim_terminator,
}
use herdr_phone.Ansi.Queries.{IsCsiQuery, csi_query_iff, IsOscBlocked, osc_query, osc_query_iff}
use herdr_phone.Ansi.{AnsiFilter, AnsiState, st_csi, st_osc, goto, step, reset}
use herdr_phone.Ansi.Loop.{consume, reread, run, with_defaults, filter}
use herdr_phone.Ansi.Run.{run-append}
use herdr_phone.Ansi.Replay.{idle, run-one}

abbrev in_state : AnsiFilter → AnsiState → List ℕ → AnsiFilter
in_state f s seq = goto (idle f 0) s seq

-- Parameter and intermediate bytes of a CSI sequence.
abbrev IsCsiMid : List ℕ → Type 0
IsCsiMid = All (λ b. (0x20 ≤ b) × (b ≤ 0x3F))

-- Printable ASCII.
abbrev IsPrintable : List ℕ → Type 0
IsPrintable = All (λ b. (0x20 ≤ b) × (b ≤ 0x7E))

csi_collect :
    (f : AnsiFilter) (seq : List ℕ) (b : ℕ)
    → 0x20 ≤ b
    → b ≤ 0x3F
    → length seq + 1 ≤ f.max_seq
    → consume (in_state f st_csi seq) b ≡ (in_state f st_csi (seq ++ b ∷ []), [])
unfolding consume step reread
csi_collect f seq b lo hi fits = ground (arith, length-append seq (b ∷ []))

osc_collect :
    (f : AnsiFilter) (seq : List ℕ) (b : ℕ)
    → 0x20 ≤ b
    → b ≤ 0x7E
    → length seq + 1 ≤ f.max_seq
    → consume (in_state f st_osc seq) b ≡ (in_state f st_osc (seq ++ b ∷ []), [])
unfolding consume step reread
osc_collect f seq b lo hi fits = ground (arith, length-append seq (b ∷ []))

-- The bytes of a sequence under way are buffered, given that each one is.
collects :
    (f : AnsiFilter) (s : AnsiState) (P : ℕ → Type 0)
    → ((seq : List ℕ) (b : ℕ)
        → P b
        → length seq + 1 ≤ f.max_seq
        → consume (in_state f s seq) b ≡ (in_state f s (seq ++ b ∷ []), []))
    → (seq p : List ℕ) → All P p
    → length seq + length p ≤ f.max_seq
    → run (in_state f s seq) p ≡ (in_state f s (seq ++ p), [])
unfolding run
collects f s P one seq [] h fits = rw append-nil
collects f s P one seq (b ∷ p) h fits = rw (one seq b h.0 (omega arith)) (
    rw (collects f s P one (seq ++ b ∷ []) p h.1 (omega (arith, length-append seq (b ∷ []))))
      (rw append_assoc refl))

csi_ends :
    (f : AnsiFilter) (seq : List ℕ) (final : ℕ)
    → 0x40 ≤ final
    → final ≤ 0x7E
    → consume (in_state f st_csi seq) final
      ≡ (idle f 0, if csi_should_strip (seq ++ final ∷ []) then [] else seq ++ final ∷ [])
unfolding consume step reread
csi_ends f seq final lo hi = ground arith

osc_ends :
    (f : AnsiFilter) (seq : List ℕ)
    → consume (in_state f st_osc seq) bel
      ≡ (idle f 0, if osc_should_strip (seq ++ bel ∷ []) then [] else seq ++ bel ∷ [])
unfolding consume step reread
osc_ends f seq = refl

-- A stretch of bytes that is buffered, and the byte that ends it.
buffered_then :
    (f g : AnsiFilter) (p : List ℕ) (b : ℕ) {c : AnsiFilter × List ℕ}
    → run f p ≡ (g, [])
    → consume g b ≡ c
    → run f (p ++ b ∷ []) ≡ c
buffered_then f g p b e last = run-append f p (b ∷ []) ∙ rw e (run-one g b ∙ last)

mid_bytes-append : (b : ℕ) (p : List ℕ) (c : ℕ) → mid_bytes b (p ++ c ∷ []) ≡ b ∷ p
unfolding mid_bytes
mid_bytes-append b [] c = refl
mid_bytes-append b (d ∷ p) c = ap (λ (q : List ℕ). b ∷ q) (mid_bytes-append d p c)

final_byte-append : (b : ℕ) (p : List ℕ) (c : ℕ) → final_byte b (p ++ c ∷ []) ≡ c
unfolding final_byte
final_byte-append b [] c = refl
final_byte-append b (d ∷ p) c = final_byte-append d p c

csi_body-query :
    (mid : List ℕ) (final : ℕ) → csi_body_query (mid ++ final ∷ []) ≡ csi_query mid final
csi_body-query [] final = unfold csi_body_query mid_bytes final_byte in refl
csi_body-query (b ∷ mid) final =
    unfold csi_body_query in rw (mid_bytes-append b mid final, final_byte-append b mid final)

csi_should_strip_lem :
    (mid : List ℕ) (final : ℕ)
    → csi_should_strip (esc_byte ∷ b'[' ∷ mid ++ final ∷ []) ≡ csi_query mid final
csi_should_strip_lem mid final = unfold csi_should_strip drop_intro in csi_body-query mid final

trim_terminator-bel : (p : List ℕ) → trim_terminator (p ++ bel ∷ []) ≡ p
unfolding trim_terminator
trim_terminator-bel [] = refl
trim_terminator-bel (a ∷ []) = refl
trim_terminator-bel (a ∷ b ∷ []) = refl
trim_terminator-bel (a ∷ b ∷ c ∷ p) = ap (λ (q : List ℕ). a ∷ q) (trim_terminator-bel (b ∷ c ∷ p))

osc_should_strip_lem :
    (payload : List ℕ)
    → osc_should_strip (esc_byte ∷ b']' ∷ payload ++ bel ∷ []) ≡ osc_query payload
osc_should_strip_lem payload =
    unfold osc_should_strip drop_intro in rw (trim_terminator-bel payload)

csi_run :
    (f : AnsiFilter) (mid : List ℕ) (final : ℕ)
    → IsCsiMid mid
    → 0x40 ≤ final
    → final ≤ 0x7E
    → length mid + 2 ≤ f.max_seq
    → run (in_state f st_csi (esc_byte ∷ b'[' ∷ [])) (mid ++ final ∷ [])
      ≡ (idle f 0, if csi_query mid final then [] else esc_byte ∷ b'[' ∷ mid ++ final ∷ [])
csi_run f mid final h lo hi fits = rw (← csi_should_strip_lem mid final) (
    buffered_then _ _ mid final
      (collects f st_csi (λ b. (0x20 ≤ b) × (b ≤ 0x3F))
        (λ seq b p room. csi_collect f seq b p.0 p.1 room) (esc_byte ∷ b'[' ∷ []) mid h
        (omega arith))
      (csi_ends f (esc_byte ∷ b'[' ∷ mid) final lo hi))

osc_run :
    (f : AnsiFilter) (payload : List ℕ)
    → IsPrintable payload
    → length payload + 2 ≤ f.max_seq
    → run (in_state f st_osc (esc_byte ∷ b']' ∷ [])) (payload ++ bel ∷ [])
      ≡ (idle f 0, if osc_query payload then [] else esc_byte ∷ b']' ∷ payload ++ bel ∷ [])
osc_run f payload h fits = rw (← osc_should_strip_lem payload) (
    buffered_then _ _ payload bel
      (collects f st_osc (λ b. (0x20 ≤ b) × (b ≤ 0x7E))
        (λ seq b p room. osc_collect f seq b p.0 p.1 room) (esc_byte ∷ b']' ∷ []) payload h
        (omega arith))
      (osc_ends f (esc_byte ∷ b']' ∷ payload)))

csi_intro :
    (f : AnsiFilter) (p : List ℕ)
    → (run (idle f 0) (esc_byte ∷ b'[' ∷ p) ≡ run (in_state f st_csi (esc_byte ∷ b'[' ∷ [])) p)
      × (run (idle f 0) (c1_csi ∷ p) ≡ run (in_state f st_csi (esc_byte ∷ b'[' ∷ [])) p)
unfolding run consume step reread
csi_intro f p = (refl, refl)

osc_intro :
    (f : AnsiFilter) (p : List ℕ)
    → (run (idle f 0) (esc_byte ∷ b']' ∷ p) ≡ run (in_state f st_osc (esc_byte ∷ b']' ∷ [])) p)
      × (run (idle f 0) (c1_osc ∷ p) ≡ run (in_state f st_osc (esc_byte ∷ b']' ∷ [])) p)
unfolding run consume step reread
osc_intro f p = (refl, refl)

-- A sequence of a kind that is dropped gives nothing, and any other is written whole.
abbrev pub IsFiltered : Type 0 → List ℕ → List ℕ → Type 0
IsFiltered Q whole out = (Q × (out ≡ [])) ⊎ (¬ Q × (out ≡ whole))

tested :
    (Q : Type 0) (t : Bool) (whole out : List ℕ)
    → (t ≡ true) ↔ Q
    → out ≡ (if t then [] else whole)
    → IsFiltered Q whole out
tested Q true whole out same e = inl (same.0 refl, e)
tested Q false whole out same e = inr ((λ q. ground (arith, same.1 q)), e)

-- A CSI sequence of valid bytes that fits the buffer, with a 7-bit or an 8-bit introducer: a reset
-- filter writes nothing if it is a query (by its final byte n, c or t; p after `$`; q after `>` and no
-- space; x without `$`; or y after `*`), and otherwise writes it whole in its 7-bit form.
pub filter_csi :
    (f : AnsiFilter) (mid : List ℕ) (final : ℕ)
    → IsCsiMid mid
    → 0x40 ≤ final
    → final ≤ 0x7E
    → length mid + 2 ≤ (with_defaults f).max_seq
    → let whole = esc_byte ∷ b'[' ∷ mid ++ final ∷ [] in
      IsFiltered (IsCsiQuery mid final) whole (filter (reset f) whole).1
      × IsFiltered (IsCsiQuery mid final) whole (filter (reset f) (c1_csi ∷ mid ++ final ∷ [])).1
unfolding filter reset
filter_csi f mid final h lo hi fits =
    let g = with_defaults (reset f) in
    let intro = csi_intro g (mid ++ final ∷ []) in
    let body = csi_run g mid final h lo hi fits in
    let same = csi_query_iff mid final in
    (
      tested (IsCsiQuery mid final) (csi_query mid final) _ _ same (ap (λ c. c.1) (intro.0 ∙ body)),
      tested (IsCsiQuery mid final) (csi_query mid final) _ _ same (ap (λ c. c.1) (intro.1 ∙ body)),
    )

-- An OSC string of printable bytes that fits the buffer, ended by BEL, with a 7-bit or an 8-bit
-- introducer: a reset filter writes nothing if its payload begins with the number of a window title
-- (0, 1, 2), a hyperlink (8) or the clipboard (52), or holds a `?`; and otherwise writes it whole in
-- its 7-bit form.
pub filter_osc :
    (f : AnsiFilter) (payload : List ℕ)
    → IsPrintable payload
    → length payload + 2 ≤ (with_defaults f).max_seq
    → let whole = esc_byte ∷ b']' ∷ payload ++ bel ∷ [] in
      IsFiltered (IsOscBlocked payload) whole (filter (reset f) whole).1
      × IsFiltered (IsOscBlocked payload) whole (filter (reset f) (c1_osc ∷ payload ++ bel ∷ [])).1
unfolding filter reset
filter_osc f payload h fits =
    let g = with_defaults (reset f) in
    let intro = osc_intro g (payload ++ bel ∷ []) in
    let body = osc_run g payload h fits in
    let same = osc_query_iff payload in
    (
      tested (IsOscBlocked payload) (osc_query payload) _ _ same (ap (λ c. c.1) (intro.0 ∙ body)),
      tested (IsOscBlocked payload) (osc_query payload) _ _ same (ap (λ c. c.1) (intro.1 ∙ body)),
    )

-- ===== src/Ansi/Idempotent.antt =====
-- The filter's output passes through the filter unchanged (internal/security/ansi.go): the remaining
-- states of the parser, and the whole loop.
use herdr_phone.Base.{
  ℕ, ◌+◌, List, [], ◌∷◌, ◌++◌, ◌≡◌, refl, ap, subst, ◌∙◌, sym, arith, true, false, ltb, ◌==◌, ◌||◌,
  within, if_both,
}
use herdr_phone.Ansi.Strip.{esc_byte, bel, c1_st, csi_should_strip, osc_should_strip}
use herdr_phone.Ansi.{
  AnsiState, st_ground, st_esc, st_esc_int, st_csi, st_osc, st_osc_esc, st_str, st_str_esc,
  AnsiFilter, next, again, goto, to_ground, cap_filter, cap_seq, esc_int_switch, csi_switch,
  osc_step, osc_esc_step, str_step, str_esc_step, step, dispatch, reset, ground_step,
}
use herdr_phone.Ansi.Loop.{consume, reread, settle, run, with_defaults, filter}
use herdr_phone.Ansi.Run.{run-append, bounds, consume-bounds}
use herdr_phone.Ansi.Replay.{
  idle, Pending, Replays, Sim, Follows, run-one, pending-append, step_reads, to_ground-idle, emits,
  ground_settles, ground-Follows, reread-Follows, restarts, rests, cap_filter-rest, grown_capped,
  judged, esc_follows, Capped, Branch,
}

module _ (r : ℕ) (f : AnsiFilter) (b : ℕ) where
  Capped-rest :
      (out : List ℕ) → Branch r f b (next (to_ground f) out) → Capped r f b (next (to_ground f) out)
  unfolding cap_seq
  Capped-rest out = subst (λ g. Branch r f b (next g out)) (sym (cap_filter-rest f))

  Capped-again : f.str_n ≡ 0 → f.utf8_remaining ≡ 0 → Capped r f b (again (to_ground f))
  unfolding cap_seq
  Capped-again n k =
      subst (λ g. Branch r f b (again g)) (sym (cap_filter-rest f)) (λ _. reread-Follows f r b n k)

  Capped-restart :
      f.str_n ≡ 0
      → f.utf8_remaining ≡ 0
      → (b == esc_byte) ≡ true
      → Capped r f b (next (goto f st_esc (b ∷ [])) [])
  unfolding cap_seq cap_filter reread
  Capped-restart n k h =
      if_both (λ g. Branch r f b (next g [])) (ltb f.max_seq 1) (λ _ _. rests f r n k)
        (λ _ _. restarts f r b n k h)

  esc_int_follows :
      f.state ≡ st_esc_int → Pending st_esc_int r f → Capped r f b (esc_int_switch f b)
  unfolding esc_int_switch cap_seq reread
  esc_int_follows at p =
      if_both (Capped r f b) (within 0x20 0x2F b)
        (λ _. grown_capped st_esc_int r f b at p st_esc_int (λ q. q))
        λ _.
          if_both (Capped r f b) (within 0x30 0x7E b)
            (λ _. Capped-rest _ (λ e. emits st_esc_int r f b at p (step_reads f b e)))
            λ _.
              if_both (Capped r f b) (b == esc_byte) (Capped-restart p.1 p.2)
                (λ _. Capped-again p.1 p.2)

  csi_follows : f.state ≡ st_csi → Pending st_csi r f → Capped r f b (csi_switch f b)
  unfolding csi_switch cap_seq
  csi_follows at p =
      if_both (Capped r f b) (within 0x30 0x3F b) (λ _. buffered)
        λ _.
          if_both (Capped r f b) (within 0x20 0x2F b) (λ _. buffered)
            λ _.
              if_both (Capped r f b) (within 0x40 0x7E b)
                (λ _. Capped-rest _ (judged st_csi r f b at p (csi_should_strip (f.seq ++ b ∷ []))))
                λ _.
                  if_both (Capped r f b) (b == esc_byte) (Capped-restart p.1 p.2)
                    (λ _. Capped-again p.1 p.2)
    where
      buffered : Capped r f b (next (goto f st_csi (f.seq ++ b ∷ [])) [])
      buffered = grown_capped st_csi r f b at p st_csi (λ q. q)

-- The terminator BEL, and the two bytes of ST, read by a filter in an OSC string.
reads_bel :
    (f : AnsiFilter)
    → f.state ≡ st_osc
    → osc_should_strip (f.seq ++ bel ∷ []) ≡ false
    → consume f bel ≡ (to_ground f, f.seq ++ bel ∷ [])
unfolding consume step reread
reads_bel f at h = ground arith

reads_esc :
    (f : AnsiFilter)
    → run (record f { state = st_osc }) (esc_byte ∷ []) ≡ (record f { state = st_osc_esc }, [])
unfolding run consume step reread
reads_esc f = refl

reads_backslash :
    (f : AnsiFilter)
    → osc_should_strip (f.seq ++ esc_byte ∷ b'\\' ∷ []) ≡ false
    → consume (record f { state = st_osc_esc }) b'\\'
      ≡ (to_ground f, f.seq ++ esc_byte ∷ b'\\' ∷ [])
unfolding consume step reread
reads_backslash f h = rw h refl

reads_st :
    (f : AnsiFilter)
    → osc_should_strip (f.seq ++ esc_byte ∷ b'\\' ∷ []) ≡ false
    → run (record f { state = st_osc }) (esc_byte ∷ b'\\' ∷ [])
      ≡ (to_ground f, f.seq ++ esc_byte ∷ b'\\' ∷ [])
reads_st f h =
    pending-append _ _ (esc_byte ∷ []) (b'\\' ∷ []) (reads_esc f)
    ∙ run-one _ b'\\'
    ∙ reads_backslash f h

str_done-idle :
    (f : AnsiFilter)
    → f.seq ≡ []
    → f.utf8_remaining ≡ 0
    → record f { state = st_ground; str_n = 0 } ≡ idle f 0
str_done-idle f e k = ground arith

str_reread-Follows :
    (f : AnsiFilter) (r b : ℕ)
    → f.seq ≡ []
    → f.utf8_remaining ≡ 0
    → Follows r f (reread (again (record f { state = st_ground; str_n = 0 })) b)
unfolding reread
str_reread-Follows f r b e k =
    subst (Follows r f)
      (sym (ground_settles f 0 b) ∙ ap (λ g. settle (step g b)) (sym (str_done-idle f e k)))
      (ground-Follows f 0 r b (omega arith))

module _ (r : ℕ) (f : AnsiFilter) (b : ℕ) where
  osc_follows : f.state ≡ st_osc → Pending st_osc r f → Branch r f b (osc_step f b)
  unfolding osc_step reread run
  osc_follows at p =
      if_both (Branch r f b) (b == bel || b == c1_st)
        (λ _.
          if_both (λ out. Branch r f b (next (to_ground f) out))
            (osc_should_strip (f.seq ++ bel ∷ [])) (λ _ _. rests f r p.1 p.2)
            (λ keep _. emits st_osc r f bel at p (reads_bel f at keep)))
        λ _.
          if_both (Branch r f b) (b == esc_byte) (λ _ _. (r, refl, p))
            λ _.
              if_both (Branch r f b) (ltb b 0x20 || b == 0x7F || within 0x80 0x9F b)
                (λ _ _. reread-Follows f r b p.1 p.2)
                (λ _. grown_capped st_osc r f b at p st_osc (λ q. q))

  osc_esc_follows : Pending st_osc r f → Branch r f b (osc_esc_step f b)
  unfolding osc_esc_step reread
  osc_esc_follows p =
      if_both (Branch r f b) (b == b'\\')
        (λ _.
          if_both (λ out. Branch r f b (next (to_ground f) out))
            (osc_should_strip (f.seq ++ esc_byte ∷ b'\\' ∷ [])) (λ _ _. rests f r p.1 p.2)
            (λ keep _. (
              0,
              pending-append (idle f r) _ f.seq _ p.0
                  ∙ reads_st f keep
                  ∙ ap (λ g. (g, f.seq ++ esc_byte ∷ b'\\' ∷ [])) (to_ground-idle f p.1 p.2),
              (refl, p.1, omega (arith, p.2)),
            )))
        (λ _ _. reread-Follows f r b p.1 p.2)

  str_follows : f.state ≡ st_str → f.seq ≡ [] → f.utf8_remaining ≡ 0 → Branch r f b (str_step f b)
  unfolding str_step reread run
  str_follows at e k =
      if_both (Branch r f b) (b == bel || b == c1_st) (λ _ _. (r, refl, (e, refl, omega arith)))
        λ _.
          if_both (Branch r f b) (b == esc_byte) (λ _ _. (r, refl, (e, k)))
            λ _.
              if_both (Branch r f b) (ltb f.max_str (f.str_n + 1))
                (λ _ _. (r, refl, (e, refl, omega arith)))
                (λ _ _. (
                  r,
                  refl,
                  subst (λ s. Replays s r (record f { str_n = f.str_n + 1 })) (sym at) (e, k),
                ))

  str_esc_follows : f.seq ≡ [] → f.utf8_remaining ≡ 0 → Branch r f b (str_esc_step f b)
  unfolding str_esc_step reread run
  str_esc_follows e k =
      if_both (Branch r f b) (b == b'\\') (λ _ _. (r, refl, (e, refl, omega arith)))
        (λ _ _. str_reread-Follows f r b e k)

at_rest-idle :
    (f : AnsiFilter) → f.state ≡ st_ground → f.seq ≡ [] → f.str_n ≡ 0 → idle f f.utf8_remaining ≡ f
at_rest-idle f at e n = ground arith

rest_follows :
    (r : ℕ) (f : AnsiFilter) (b : ℕ)
    → f.state ≡ st_ground
    → Replays st_ground r f
    → Branch r f b (ground_step f b)
rest_follows r f b at p e =
    subst (Follows r f) (ap (λ g. consume g b) (at_rest-idle f at p.0 p.1) ∙ step_reads f b e)
      (ground-Follows f f.utf8_remaining r b p.2)

dispatch_follows :
    (s : AnsiState) (r : ℕ) (f : AnsiFilter) (b : ℕ)
    → f.state ≡ s
    → Replays s r f
    → Branch r f b (dispatch s f b)
unfolding dispatch
dispatch_follows st_ground r f b at p = rest_follows r f b at p
dispatch_follows st_esc r f b at p = esc_follows r f b at p
dispatch_follows st_esc_int r f b at p = esc_int_follows r f b at p
dispatch_follows st_csi r f b at p = csi_follows r f b at p
dispatch_follows st_osc r f b at p = osc_follows r f b at p
dispatch_follows st_osc_esc r f b at p = osc_esc_follows r f b p
dispatch_follows st_str r f b at p = str_follows r f b at p.0 p.1
dispatch_follows st_str_esc r f b at p = str_esc_follows r f b p.0 p.1

consume-Follows : (r : ℕ) (f : AnsiFilter) (b : ℕ) → Sim r f → Follows r f (consume f b)
unfolding consume step
consume-Follows r f b p = dispatch_follows f.state r f b refl p refl

idle-bounds : (f g : AnsiFilter) (r : ℕ) → bounds g ≡ bounds f → idle f r ≡ idle g r
idle-bounds f g r e = ground arith

-- A filter that starts at rest with at least as many continuation bytes expected writes what the
-- first has written.
run_follows :
    (r : ℕ) (f : AnsiFilter) (p : List ℕ) → Sim r f → (run (idle f r) (run f p).1).1 ≡ (run f p).1
unfolding run
run_follows r f [] h = refl
run_follows r f (b ∷ p) h =
    let (r', same, sim) = consume-Follows r f b h in
    let rest = run_follows r' (consume f b).0 p sim in
    ap (λ c. c.1) (run-append (idle f r) (consume f b).1 (run (consume f b).0 p).1)
    ∙ rw same (
        ap (◌++◌ (consume f b).1) (
          ap (λ g. (run g (run (consume f b).0 p).1).1)
            (idle-bounds f (consume f b).0 r' (consume-bounds f b))
          ∙ rest))

-- What a reset filter writes passes unchanged through a reset filter with the same bounds.
pub filter-filter :
    (f : AnsiFilter) (p : List ℕ)
    → (filter (reset f) (filter (reset f) p).1).1 ≡ (filter (reset f) p).1
unfolding filter reset
filter-filter f p = run_follows 0 (with_defaults (reset f)) p (refl, refl, omega arith)

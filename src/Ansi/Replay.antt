-- ===== src/Ansi/Replay.antt =====
-- Reading back what `ANSIFilter` has written (internal/security/ansi.go): the written bytes are
-- followed through a second filter, step by step with the first.
use herdr_phone.Base.{
  ℕ, ◌≤◌, List, [], ◌∷◌, ◌++◌, ◌≡◌, refl, ap, subst, ◌∙◌, sym, append-nil, arith, Bool, true, ltb,
  ◌==◌, ◌||◌, within, if◌then◌else◌, if_both, length,
}
use herdr_phone.Ansi.Strip.{esc_byte}
use herdr_phone.Ansi.{
  AnsiState, st_ground, st_esc, st_esc_int, st_csi, st_osc, st_osc_esc, st_str, st_str_esc,
  AnsiFilter, Turn, next, again, goto, to_ground, enter_str, cap_filter, cap_seq, esc_step, step,
}
use herdr_phone.Ansi.Loop.{consume, reread, settle, run}
use herdr_phone.Ansi.Run.{run-append}

-- At rest between sequences, with `r` continuation bytes still expected.
abbrev pub idle : AnsiFilter → ℕ → AnsiFilter
idle f r = record f { state = st_ground; seq = []; str_n = 0; utf8_remaining = r }

-- A filter at rest that reads the buffered bytes comes to the state `s` with them buffered.
abbrev pub Pending : AnsiState → ℕ → AnsiFilter → Type 0
Pending s r f =
    (run (idle f r) f.seq ≡ (record f { state = s }, [])) × (f.str_n ≡ 0) × (f.utf8_remaining ≡ 0)

-- How a second filter, at rest with `r`, stands to a filter `f` in the state `s`.
abbrev pub Replays : AnsiState → ℕ → AnsiFilter → Type 0
Replays st_ground r f = (f.seq ≡ []) × (f.str_n ≡ 0) × (f.utf8_remaining ≤ r)
Replays st_esc r f = Pending st_esc r f
Replays st_esc_int r f = Pending st_esc_int r f
Replays st_csi r f = Pending st_csi r f
Replays st_osc r f = Pending st_osc r f
Replays st_osc_esc r f = Pending st_osc r f
Replays st_str r f = (f.seq ≡ []) × (f.utf8_remaining ≡ 0)
Replays st_str_esc r f = (f.seq ≡ []) × (f.utf8_remaining ≡ 0)

abbrev pub Sim : ℕ → AnsiFilter → Type 0
Sim r f = Replays f.state r f

-- The second filter writes again what the first has just written, and follows it.
abbrev pub Follows : ℕ → AnsiFilter → AnsiFilter × List ℕ → Type 0
Follows r f c = (r' : ℕ) × (run (idle f r) c.1 ≡ (idle f r', c.1)) × Sim r' c.0

pub run-one : (f : AnsiFilter) (b : ℕ) → run f (b ∷ []) ≡ consume f b
unfolding run
run-one f b = ap (λ (o : List ℕ). ((consume f b).0, o)) (append-nil (consume f b).1)

pub pending-append :
    (g h : AnsiFilter) (p q : List ℕ) → run g p ≡ (h, []) → run g (p ++ q) ≡ run h q
pending-append g h p q e = run-append g p q ∙ rw e refl

pub step_reads : (f : AnsiFilter) (b : ℕ) {t : Turn} → step f b ≡ t → consume f b ≡ reread t b
unfolding consume
step_reads f b e = ap (λ t. reread t b) e

-- Nothing is written and the filter is back at rest.
pub drops : (r : ℕ) (f : AnsiFilter) → Follows r f (idle f 0, [])
unfolding run
drops r f = (r, refl, (refl, refl, omega arith))

pub to_ground-idle : (f : AnsiFilter) → f.str_n ≡ 0 → f.utf8_remaining ≡ 0 → to_ground f ≡ idle f 0
to_ground-idle f n k = ground arith

module _ (s : AnsiState) (r : ℕ) (f : AnsiFilter) (b : ℕ) (at : f.state ≡ s)
    (p : Pending s r f) where
  pending_reads : {c : AnsiFilter × List ℕ} → consume f b ≡ c → run (idle f r) (f.seq ++ b ∷ []) ≡ c
  pending_reads e =
      pending-append (idle f r) f f.seq (b ∷ [])
        (p.0 ∙ ap (λ z. (record f { state = z }, [])) (sym at))
      ∙ run-one f b
      ∙ e

  -- The byte is buffered.
  grows :
      (s' : AnsiState)
      → consume f b ≡ (goto f s' (f.seq ++ b ∷ []), [])
      → Pending s' r (goto f s' (f.seq ++ b ∷ []))
  grows s' e = (pending_reads e, p.1, p.2)

  pub grown :
      (s' : AnsiState)
      → (Pending s' r (goto f s' (f.seq ++ b ∷ [])) → Sim r (goto f s' (f.seq ++ b ∷ [])))
      → step f b ≡ next (goto f s' (f.seq ++ b ∷ [])) []
      → Follows r f (goto f s' (f.seq ++ b ∷ []), [])
  unfolding run reread
  grown s' ok e = (r, refl, ok (grows s' (step_reads f b e)))

  -- The sequence is written out.
  pub emits :
      consume f b ≡ (to_ground f, f.seq ++ b ∷ []) → Follows r f (to_ground f, f.seq ++ b ∷ [])
  emits e = (
    0,
    pending_reads e ∙ ap (λ g. (g, f.seq ++ b ∷ [])) (to_ground-idle f p.1 p.2),
    (refl, p.1, omega (arith, p.2)),
  )

-- At rest no byte is read twice.
pub ground_settles : (f : AnsiFilter) (k b : ℕ) → settle (step (idle f k) b) ≡ consume (idle f k) b
unfolding settle step consume
ground_settles f k b = ground arith

-- What the second filter expects after reading what the first writes for the byte `b` at rest.
pub ground-Follows : (f : AnsiFilter) (k r b : ℕ) → k ≤ r → Follows r f (consume (idle f k) b)
unfolding consume step run
ground-Follows f k r b h =
    ((run (idle f r) (consume (idle f k) b).1).0.utf8_remaining, ground arith, ground arith)

-- A byte read again from rest.
pub reread-Follows :
    (f : AnsiFilter) (r b : ℕ)
    → f.str_n ≡ 0
    → f.utf8_remaining ≡ 0
    → Follows r f (reread (again (to_ground f)) b)
unfolding reread settle
reread-Follows f r b n k =
    subst (Follows r f)
      (sym (ground_settles f 0 b) ∙ ap (λ g. settle (step g b)) (sym (to_ground-idle f n k)))
      (ground-Follows f 0 r b (omega arith))

pub restarts :
    (f : AnsiFilter) (r b : ℕ)
    → f.str_n ≡ 0
    → f.utf8_remaining ≡ 0
    → (b == esc_byte) ≡ true
    → Follows r f (goto f st_esc (b ∷ []), [])
unfolding run consume step
restarts f r b n k h = (r, refl, (ground arith, n, k))

pub enters : (f : AnsiFilter) (r : ℕ) → f.utf8_remaining ≡ 0 → Follows r f (enter_str f, [])
unfolding run
enters f r k = (r, refl, (refl, k))

pub rests :
    (f : AnsiFilter) (r : ℕ) → f.str_n ≡ 0 → f.utf8_remaining ≡ 0 → Follows r f (to_ground f, [])
rests f r n k = subst (λ g. Follows r f (g, [])) (sym (to_ground-idle f n k)) (drops r f)

module _ (r : ℕ) (f : AnsiFilter) (b : ℕ) where
  -- What a branch of the step has to show of its turn.
  abbrev pub Branch : Turn → Type 0
  Branch t = step f b ≡ t → Follows r f (reread t b)

  pub esc_follows : f.state ≡ st_esc → Pending st_esc r f → Branch (esc_step f b)
  unfolding esc_step reread
  esc_follows at p =
      if_both Branch (b == b'[') (λ _ e. grown st_esc r f b at p st_csi (λ q. q) e)
        λ _.
          if_both Branch (b == b']') (λ _ e. grown st_esc r f b at p st_osc (λ q. q) e)
            λ _.
              if_both Branch (b == b'P' || b == b'_' || b == b'^' || b == b'X')
                (λ _ _. enters f r p.2)
                λ _.
                  if_both Branch (b == b'Z') (λ _ _. rests f r p.1 p.2)
                    λ _.
                      if_both Branch (b == esc_byte) (λ h _. restarts f r b p.1 p.2 h)
                        λ _.
                          if_both Branch (within 0x20 0x2F b)
                            (λ _ e. grown st_esc r f b at p st_esc_int (λ q. q) e)
                            λ _.
                              if_both Branch (within 0x30 0x7E b)
                                (λ _ e. emits st_esc r f b at p (step_reads f b e))
                                λ _ _. reread-Follows f r b p.1 p.2

pub cap_filter-rest : (f : AnsiFilter) → cap_filter (to_ground f) ≡ to_ground f
unfolding cap_filter
cap_filter-rest f = ground arith

module _ (s : AnsiState) (r : ℕ) (f : AnsiFilter) (b : ℕ) (at : f.state ≡ s)
    (p : Pending s r f) where
  -- A buffered byte under the bound on the sequence.
  pub grown_capped :
      (s' : AnsiState)
      → (Pending s' r (goto f s' (f.seq ++ b ∷ [])) → Sim r (goto f s' (f.seq ++ b ∷ [])))
      → Branch r f b (next (cap_filter (goto f s' (f.seq ++ b ∷ []))) [])
  unfolding cap_filter reread
  grown_capped s' ok =
      if_both (λ g. Branch r f b (next g [])) (ltb f.max_seq (length (f.seq ++ b ∷ [])))
        (λ _ _. rests f r p.1 p.2) (λ _ e. grown s r f b at p s' ok e)

  -- A complete sequence, written or stripped.
  pub judged :
      (strip : Bool) → Branch r f b (next (to_ground f) (if strip then [] else f.seq ++ b ∷ []))
  unfolding reread
  judged strip =
      if_both (λ out. Branch r f b (next (to_ground f) out)) strip (λ _ _. rests f r p.1 p.2)
        (λ _ e. emits s r f b at p (step_reads f b e))

abbrev pub Capped : ℕ → AnsiFilter → ℕ → Turn → Type 0
Capped r f b t = Branch r f b (cap_seq t)

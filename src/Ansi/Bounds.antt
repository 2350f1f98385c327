-- ===== src/Ansi/Bounds.antt =====
-- What `ANSIFilter` (internal/security/ansi.go) holds between two bytes, and what it never writes.
use herdr_phone.Base.{
  ℕ, ◌≤◌, List, [], ◌∷◌, ◌++◌, ◌≡◌, ◌≢◌, refl, subst, sym, arith, length, length-append, All,
  All-append,
}
use herdr_phone.Ansi.Strip.{enq, bel, esc_byte}
use herdr_phone.Ansi.{
  AnsiState, st_ground, st_esc, st_osc, st_osc_esc, AnsiFilter, Turn, next, again, step, dispatch,
  reset,
}
use herdr_phone.Ansi.Loop.{consume, reread, settle, run, with_defaults, filter}

-- The buffered sequence, the count of dropped string bytes and the expected continuation bytes
-- stay within their limits.
pub record IsBounded (f : AnsiFilter) : Type 0 where
  pub seq_bounded : length f.seq ≤ f.max_seq
  pub room : 2 ≤ f.max_seq
  pub escape_short : f.state ≡ st_esc → length f.seq ≤ 1
  pub str_bounded : f.str_n ≤ f.max_str
  pub utf8_bounded : f.utf8_remaining ≤ 3

abbrev TurnBounded : Turn → Type 0
TurnBounded (next f out) = IsBounded f
TurnBounded (again f) = IsBounded f

dispatch-IsBounded :
    (s : AnsiState) (f : AnsiFilter) (b : ℕ)
    → f.state ≡ s
    → IsBounded f
    → TurnBounded (dispatch s f b)
unfolding dispatch
dispatch-IsBounded st_ground f b e h = ground arith
dispatch-IsBounded st_esc f b e h = ground (arith, length-append f.seq (b ∷ []), h.escape_short e)
dispatch-IsBounded _ f b e h = ground (arith, length-append f.seq (b ∷ []))

dispatch-again :
    (s : AnsiState) (f g : AnsiFilter) (b : ℕ) → dispatch s f b ≡ again g → g.state ≡ st_ground
unfolding dispatch
dispatch-again st_ground f g b e = ground arith
dispatch-again _ f g b e = ground arith

rest_goes_on :
    (f : AnsiFilter) (b : ℕ)
    → dispatch st_ground f b
      ≡ next (reread (dispatch st_ground f b) b).0 (reread (dispatch st_ground f b) b).1
unfolding dispatch reread
rest_goes_on f b = ground arith

-- A byte is read at most twice: what the loop body sets before it reads a byte again is the rest
-- state, where it goes on to the next byte.
pub step-again :
    (f g : AnsiFilter) (b : ℕ)
    → step f b ≡ again g
    → (h : AnsiFilter) × (out : List ℕ) × (step g b ≡ next h out)
unfolding step
step-again f g b e =
    let c = reread (dispatch st_ground g b) b in
    (
      c.0,
      c.1,
      subst (λ s. dispatch s g b ≡ next c.0 c.1) (sym (dispatch-again f.state f g b e))
          (rest_goes_on g b),
    )

settle-IsBounded : (t : Turn) → TurnBounded t → IsBounded (settle t).0
unfolding settle
settle-IsBounded (next f out) h = h
settle-IsBounded (again f) h = h

step-IsBounded : (f : AnsiFilter) (b : ℕ) → IsBounded f → TurnBounded (step f b)
unfolding step
step-IsBounded f b h = dispatch-IsBounded f.state f b refl h

reread-IsBounded : (t : Turn) (b : ℕ) → TurnBounded t → IsBounded (reread t b).0
unfolding reread
reread-IsBounded (next f out) b h = h
reread-IsBounded (again f) b h = settle-IsBounded (step f b) (step-IsBounded f b h)

pub run-IsBounded : (f : AnsiFilter) (p : List ℕ) → IsBounded f → IsBounded (run f p).0
unfolding run consume
run-IsBounded f [] h = h
run-IsBounded f (b ∷ p) h =
    run-IsBounded (consume f b).0 p (reread-IsBounded (step f b) b (step-IsBounded f b h))

abbrev IsQuiet : List ℕ → Type 0
IsQuiet = All (λ b. b ≢ enq)

abbrev TurnQuiet : Turn → Type 0
TurnQuiet (next f out) = IsQuiet f.seq × IsQuiet out
TurnQuiet (again f) = IsQuiet f.seq

IsQuiet-append : (p q : List ℕ) → IsQuiet p → IsQuiet q → IsQuiet (p ++ q)
IsQuiet-append = All-append (λ b. b ≢ enq)

dispatch-IsQuiet :
    (s : AnsiState) (f : AnsiFilter) (b : ℕ) → IsQuiet f.seq → TurnQuiet (dispatch s f b)
unfolding dispatch
dispatch-IsQuiet st_ground f b h = ground arith
dispatch-IsQuiet st_osc f b h =
    ground (arith, IsQuiet-append f.seq (b ∷ []), IsQuiet-append f.seq (bel ∷ []))
dispatch-IsQuiet st_osc_esc f b h = ground (arith, IsQuiet-append f.seq (esc_byte ∷ b'\\' ∷ []))
dispatch-IsQuiet _ f b h = ground (arith, IsQuiet-append f.seq (b ∷ []))

settle-IsQuiet : (t : Turn) → TurnQuiet t → IsQuiet (settle t).0.seq × IsQuiet (settle t).1
unfolding settle
settle-IsQuiet (next f out) h = h
settle-IsQuiet (again f) h = (h, tt)

reread-IsQuiet :
    (t : Turn) (b : ℕ) → TurnQuiet t → IsQuiet (reread t b).0.seq × IsQuiet (reread t b).1
unfolding reread step
reread-IsQuiet (next f out) b h = h
reread-IsQuiet (again f) b h = settle-IsQuiet (step f b) (dispatch-IsQuiet f.state f b h)

run-IsQuiet : (f : AnsiFilter) (p : List ℕ) → IsQuiet f.seq → IsQuiet (run f p).1
unfolding run consume step
run-IsQuiet f [] h = tt
run-IsQuiet f (b ∷ p) h =
    let (quiet, out) = reread-IsQuiet (step f b) b (dispatch-IsQuiet f.state f b h) in
    IsQuiet-append _ _ out (run-IsQuiet (consume f b).0 p quiet)

-- A reset filter never writes the answerback trigger ENQ, whatever it reads.
pub filter-quiet : (f : AnsiFilter) (p : List ℕ) → All (λ b. b ≢ enq) (filter (reset f) p).1
unfolding filter reset
filter-quiet f p = run-IsQuiet (with_defaults (reset f)) p tt

-- A reset filter with room for an introducer buffers at most `max_seq` bytes of a sequence, counts
-- at most `max_str` dropped bytes and expects at most three continuation bytes, after any input.
pub filter-IsBounded :
    (f : AnsiFilter) (p : List ℕ) → 2 ≤ f.max_seq → IsBounded (filter (reset f) p).0
unfolding filter reset with_defaults
filter-IsBounded f p room = run-IsBounded _ p (ground arith)

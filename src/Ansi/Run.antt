-- ===== src/Ansi/Run.antt =====
-- The loop of `Filter` taken apart: over a concatenation, and over chunks.
use herdr_phone.Base.{ℕ, List, [], ◌∷◌, ◌++◌, ◌≡◌, refl, ap, subst, ◌∙◌, append_assoc, arith}
use mathlib.Core.List.{flatten}
use herdr_phone.Ansi.{AnsiState, st_ground, AnsiFilter, Turn, next, again, dispatch, step}
use herdr_phone.Ansi.Loop.{consume, reread, settle, run, with_defaults, filter, filter_chunks}

-- The two bounds of a filter.
abbrev pub bounds : AnsiFilter → ℕ × ℕ
bounds f = (f.max_seq, f.max_str)

abbrev TurnBounds : ℕ × ℕ → Turn → Type 0
TurnBounds m (next f out) = bounds f ≡ m
TurnBounds m (again f) = bounds f ≡ m

dispatch-bounds : (s : AnsiState) (f : AnsiFilter) (b : ℕ) → TurnBounds (bounds f) (dispatch s f b)
unfolding dispatch
dispatch-bounds st_ground f b = ground arith
dispatch-bounds _ f b = ground arith

settle-bounds : (m : ℕ × ℕ) (t : Turn) → TurnBounds m t → bounds (settle t).0 ≡ m
unfolding settle
settle-bounds m (next f out) h = h
settle-bounds m (again f) h = h

reread-bounds : (m : ℕ × ℕ) (t : Turn) (b : ℕ) → TurnBounds m t → bounds (reread t b).0 ≡ m
unfolding reread step
reread-bounds m (next f out) b h = h
reread-bounds m (again f) b h =
    settle-bounds m (dispatch f.state f b)
      (subst (λ n. TurnBounds n (dispatch f.state f b)) h (dispatch-bounds f.state f b))

pub consume-bounds : (f : AnsiFilter) (b : ℕ) → bounds (consume f b).0 ≡ bounds f
unfolding consume step
consume-bounds f b = reread-bounds (bounds f) (dispatch f.state f b) b (dispatch-bounds f.state f b)

pub run-bounds : (f : AnsiFilter) (p : List ℕ) → bounds (run f p).0 ≡ bounds f
unfolding run
run-bounds f [] = refl
run-bounds f (b ∷ p) = run-bounds (consume f b).0 p ∙ consume-bounds f b

-- The states and the outputs of two stretches of input follow one another.
pub run-append :
    (f : AnsiFilter) (p q : List ℕ)
    → run f (p ++ q) ≡ ((run (run f p).0 q).0, (run f p).1 ++ (run (run f p).0 q).1)
unfolding run
run-append f [] q = refl
run-append f (b ∷ p) q = rw (run-append (consume f b).0 p q) (rw append_assoc)

with_defaults_twice : (f : AnsiFilter) → with_defaults (with_defaults f) ≡ with_defaults f
unfolding with_defaults
with_defaults_twice f = ground arith

with_defaults_of_bounds :
    (f g : AnsiFilter) → bounds f ≡ bounds g → with_defaults g ≡ g → with_defaults f ≡ f
unfolding with_defaults
with_defaults_of_bounds f g e h = ground arith

-- A filter that has run keeps its bounds set.
pub filter-defaults : (f : AnsiFilter) (p : List ℕ) → with_defaults (filter f p).0 ≡ (filter f p).0
unfolding filter
filter-defaults f p =
    with_defaults_of_bounds _ (with_defaults f) (run-bounds (with_defaults f) p)
      (with_defaults_twice f)

filter-run : (f : AnsiFilter) (p : List ℕ) → filter f p ≡ run (with_defaults f) p
unfolding filter
filter-run f p = refl

filter-rerun : (f : AnsiFilter) (p q : List ℕ) → filter (filter f p).0 q ≡ run (filter f p).0 q
filter-rerun f p q = filter-run (filter f p).0 q ∙ ap (λ g. run g q) (filter-defaults f p)

pub filter-append :
    (f : AnsiFilter) (p q : List ℕ)
    → filter f (p ++ q)
      ≡ ((filter (filter f p).0 q).0, (filter f p).1 ++ (filter (filter f p).0 q).1)
filter-append f p q =
    rw (filter-rerun f p q) (rw (filter-run f (p ++ q), filter-run f p) (run-append _ p q))

filter-nil : (f : AnsiFilter) → filter f [] ≡ (with_defaults f, [])
unfolding filter
filter-nil f = refl

-- However a byte stream is cut into calls of `Filter`, empty calls included, the joined output and
-- the state that the next call starts from are those of one call on the whole stream.
pub filter_chunks-flatten :
    (f : AnsiFilter) (ps : List (List ℕ))
    → (with_defaults (filter_chunks f ps).0 ≡ (filter f (flatten ps)).0)
      × ((filter_chunks f ps).1 ≡ (filter f (flatten ps)).1)
unfolding filter_chunks flatten
filter_chunks-flatten f [] = rw filter-nil (refl, refl)
filter_chunks-flatten f (p ∷ ps) =
    let (same_state, same_out) = filter_chunks-flatten (filter f p).0 ps in
    rw (filter-append f p (flatten ps)) (same_state, ap (◌++◌ (filter f p).1) same_out)

-- ===== src/State/Lifecycle.antt =====
-- What a pane generation of internal/state/engine.go says of the pane's occupant.
use herdr_phone.Base.{
  ℕ, ◌+◌, ◌≤◌, ◌<◌, List, [], ◌∷◌, ◌≡◌, refl, sym, ◌∙◌, subst, Bool, true, false, Option, none,
  some, arith, Str, str_eq, str_eq_iff, lookup, lookup-insert, if◌then◌else◌, Option-cases,
  Bool-cases, inl, inr, All, length,
}
use Prim.Native.Nat.{◌%◌}
use herdr_phone.State.Generations.{
  Pane, Panes, occupant_fingerprint, occupant_or_empty, track_at, track, track_all, is_present,
  retain, is_kept, drop_gone, update_generations,
}

-- The fingerprint of the pane `id` in a poll, if it is there.
unfoldable pub seen_as : Str → List Pane → Option Str
seen_as id [] = none
seen_as id (p ∷ ps) = if str_eq p.pane_id id then some (occupant_fingerprint p) else seen_as id ps

-- No pane id stands twice in a poll.
abbrev pub Distinct : List Pane → Type 0
Distinct [] = Unit
Distinct (p ∷ ps) = (seen_as p.pane_id ps ≡ none) × Distinct ps

-- The generation after a poll that sees `fp`.
abbrev pub next_generation : Option ℕ → Option Str → Str → ℕ
next_generation none occupant fp = 1
next_generation (some g) occupant fp =
    if str_eq (occupant_or_empty occupant) fp then g else (g + 1) % 18_446_744_073_709_551_616

lookup-retain :
    {V : Type 0} (keep : Str → Bool) (k : Str) (m : List (Str × V))
    → lookup k (retain keep m) ≡ (if keep k then lookup k m else none)
unfolding lookup retain
lookup-retain keep k [] = ground arith
lookup-retain keep k ((j, v) ∷ m) = ground (arith, lookup-retain keep k m, str_eq_iff j k)

lookup-track_at :
    (s : Panes) (id fp k : Str) (o : Option ℕ)
    → o ≡ lookup id s.generations
    → (lookup k (track_at s id fp o).generations ≡ (
        if str_eq id k
        then some (next_generation o (lookup id s.occupants) fp)
        else lookup k s.generations))
      × (str_eq id k ≡ false → lookup k (track_at s id fp o).occupants ≡ lookup k s.occupants)
      × (str_eq id k ≡ true → occupant_or_empty (lookup k (track_at s id fp o).occupants) ≡ fp)
unfolding track_at
lookup-track_at s id fp k none e =
    ground (arith, lookup-insert id k 1 s.generations, lookup-insert id k fp s.occupants)
lookup-track_at s id fp k (some g) e = ground (
  arith,
  e,
  str_eq_iff id k,
  str_eq_iff (occupant_or_empty (lookup id s.occupants)) fp,
  lookup-insert id k ((g + 1) % 18_446_744_073_709_551_616) s.generations,
  lookup-insert id k fp s.occupants,
)

not_first :
    (p : Pane) (k : Str) (ps : List Pane)
    → seen_as k (p ∷ ps) ≡ none
    → (str_eq p.pane_id k ≡ false) × (seen_as k ps ≡ none)
unfolding seen_as
not_first p k ps h = ground (arith, h)

-- A poll without the pane leaves what is known of it.
track_all-absent :
    (s : Panes) (k : Str) (ps : List Pane)
    → seen_as k ps ≡ none
    → (lookup k (track_all s ps).generations ≡ lookup k s.generations)
      × (lookup k (track_all s ps).occupants ≡ lookup k s.occupants)
unfolding track_all track seen_as
track_all-absent s k [] h = (refl, refl)
track_all-absent s k (p ∷ ps) h =
    let other = not_first p k ps h in
    let (gens, others, _) =
      lookup-track_at s p.pane_id (occupant_fingerprint p) k (lookup p.pane_id s.generations)
        refl in
    let (g, o) = track_all-absent (track s p) k ps other.1 in
    (g ∙ gens ∙ rw (other.0) refl, o ∙ others other.0)

track_all-present :
    (s : Panes) (k : Str) (ps : List Pane) (fp : Str)
    → Distinct ps
    → seen_as k ps ≡ some fp
    → (lookup k (track_all s ps).generations
        ≡ some (next_generation (lookup k s.generations) (lookup k s.occupants) fp))
      × (occupant_or_empty (lookup k (track_all s ps).occupants) ≡ fp)
unfolding track_all track seen_as
track_all-present s k [] fp d h = ground (arith, h)
track_all-present s k (p ∷ ps) fp (once, d) h =
    let (gens, others, own) =
      lookup-track_at s p.pane_id (occupant_fingerprint p) k (lookup p.pane_id s.generations)
        refl in
    elim (Bool-cases (str_eq p.pane_id k)) [
      | inl same ↦
          let id = (str_eq_iff p.pane_id k).0 same in
          let (g, o) =
            track_all-absent (track s p) k ps (subst (λ j. seen_as j ps ≡ none) id once) in
          ground (arith, g, o, gens, own, same, id, h)
      | inr differs ↦
          let (g, o) = track_all-present (track s p) k ps fp d (ground (arith, h, differs)) in
          ground (arith, g, o, gens, others, differs)
    ]

present_as :
    (k : Str) (ps : List Pane) (o : Option Str)
    → seen_as k ps ≡ o
    → is_present k ps ≡ elim o [ none ↦ false | some fp ↦ true ]
unfolding seen_as is_present
present_as k [] o h = ground (arith, h)
present_as k (p ∷ ps) o h = ground (arith, h, present_as k ps (seen_as k ps) refl)

-- After a poll in which no pane id stands twice: a pane that is there has generation 1 if it had none,
-- its old generation if its occupant is the one on record, and otherwise the next one (modulo
-- 2^64), and its occupant is on record; a pane that is not there has no generation.
pub update_generations_lem :
    (s : Panes) (k : Str) (ps : List Pane)
    → Distinct ps
    → ((fp : Str)
        → seen_as k ps ≡ some fp
        → (lookup k (update_generations s ps).generations
            ≡ some (next_generation (lookup k s.generations) (lookup k s.occupants) fp))
          × (occupant_or_empty (lookup k (update_generations s ps).occupants) ≡ fp))
      × (seen_as k ps ≡ none → lookup k (update_generations s ps).generations ≡ none)
unfolding update_generations drop_gone
update_generations_lem s k ps d =
    let t = track_all s ps in
    let keeps_gen = lookup-retain (is_kept t ps) k t.generations in
    let keeps_occ = lookup-retain (is_kept t ps) k t.occupants in
    (
      λ fp h.
          let (g, o) = track_all-present s k ps fp d h in
          ground (arith, g, o, keeps_gen, keeps_occ, present_as k ps (some fp) h),
      λ h. ground (arith, keeps_gen, present_as k ps none h, Option-cases (lookup k t.generations)),
    )

unfoldable pub after_polls : Panes → List (List Pane) → Panes
after_polls s [] = s
after_polls s (ps ∷ polls) = after_polls (update_generations s ps) polls

-- A poll that shows the pane.
abbrev pub Shows : Str → List Pane → Type 0
Shows k ps = Distinct ps × ((fp : Str) × (seen_as k ps ≡ some fp))

abbrev Grown : Panes → Str → ℕ → ℕ → Type 0
Grown s k lo hi = (g : ℕ) × (lookup k s.generations ≡ some g) × (lo ≤ g) × (g ≤ hi)

one_poll :
    (s : Panes) (k : Str) (g : ℕ) (ps : List Pane)
    → lookup k s.generations ≡ some g
    → g + 1 < 18_446_744_073_709_551_616
    → Shows k ps
    → Grown (update_generations s ps) k g (g + 1)
      × (lookup k (update_generations s ps).generations ≡ some g
          → seen_as k ps ≡ some (occupant_or_empty (lookup k s.occupants)))
      × (seen_as k ps ≡ some (occupant_or_empty (lookup k (update_generations s ps).occupants)))
one_poll s k g ps at room (d, (fp, h)) =
    let (gens, occ) = (update_generations_lem s k ps d).0 fp h in
    elim (Bool-cases (str_eq (occupant_or_empty (lookup k s.occupants)) fp)) [
      | inl same ↦ (
        (g, ground (arith, gens, at, same), omega arith, omega arith),
        λ _. ground (arith, h, same, str_eq_iff (occupant_or_empty (lookup k s.occupants)) fp),
        ground (arith, h, occ),
      )
      | inr differs ↦ (
        (g + 1, ground (arith, gens, at, differs), omega arith, omega arith),
        λ e. ground (arith, e, gens, at, differs),
        ground (arith, h, occ),
      )
    ]

polls-Grown :
    (s : Panes) (k : Str) (g : ℕ) (polls : List (List Pane))
    → lookup k s.generations ≡ some g
    → g + length polls < 18_446_744_073_709_551_616
    → All (Shows k) polls
    → Grown (after_polls s polls) k g (g + length polls)
unfolding after_polls
polls-Grown s k g [] at room h = (g, at, omega arith, omega arith)
polls-Grown s k g (ps ∷ polls) at room (h, hs) =
    let ((g1, at1, lo1, hi1), _, _) = one_poll s k g ps at (omega (arith, room)) h in
    let (g2, at2, lo2, hi2) =
      polls-Grown (update_generations s ps) k g1 polls at1 (omega (arith, room, hi1)) hs in
    (g2, at2, omega arith, omega (arith, hi1, hi2))

-- If a pane stands in each of a series of polls, none of which lists a pane id twice, and has after
-- them the generation it had before, and that cannot have reached 2^64, then every poll saw the
-- occupant that was on record before.
pub same_generation :
    (s : Panes) (k : Str) (g : ℕ) (polls : List (List Pane))
    → lookup k s.generations ≡ some g
    → g + length polls < 18_446_744_073_709_551_616
    → All (Shows k) polls
    → lookup k (after_polls s polls).generations ≡ some g
    → All (λ ps. seen_as k ps ≡ some (occupant_or_empty (lookup k s.occupants))) polls
unfolding after_polls
same_generation s k g [] at room h end = tt
same_generation s k g (ps ∷ polls) at room (h, hs) end =
    let ((g1, at1, lo1, hi1), unchanged, recorded) = one_poll s k g ps at (omega (arith, room)) h in
    let (g2, at2, lo2, _) =
      polls-Grown (update_generations s ps) k g1 polls at1 (omega (arith, room, hi1)) hs in
    let stays : lookup k (update_generations s ps).generations ≡ some g =
      ground (arith, at1, at2, end, lo1, lo2) in
    let same = unchanged stays in
    (
      same,
      subst (λ (o : Option Str). All (λ qs. seen_as k qs ≡ o) polls) (sym recorded ∙ same)
          (same_generation (update_generations s ps) k g polls stays (omega (arith, room)) hs end),
    )

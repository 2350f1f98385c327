-- ===== src/State/Generations.antt =====
-- The pane generations of internal/state/engine.go: `updateGenerationsLocked`, `Generation` and
-- `CheckGeneration`, with `OccupantFingerprint` of internal/herdr/models.go.
use herdr_phone.Base.{
  ℕ, ◌+◌, List, [], ◌∷◌, ◌++◌, Bool, true, false, not, ◌&&◌, Option, none, some, ◌==◌, Str, str_eq,
  lookup, insert, if◌then◌else◌,
}
use Prim.Native.Nat.{◌%◌}

pub record AgentSession : Type 0 where
  pub source : Str
  pub kind : Str
  pub value : Str

-- The fields of a pane that the engine reads.
pub record Pane : Type 0 where
  pub pane_id : Str
  pub terminal_id : Str
  pub agent : Str
  pub agent_session : Option AgentSession
  pub agent_status : Str

unfoldable pub occupant_fingerprint : Pane → Str
occupant_fingerprint p =
    let fp = p.terminal_id ++ 0 ∷ p.agent in
    elim p.agent_session [
      | none ↦ fp
      | some s ↦ fp ++ 0 ∷ (s.source ++ 0 ∷ (s.kind ++ 0 ∷ s.value))
    ]

pub record Panes : Type 0 where
  pub generations : List (Str × ℕ)
  pub occupants : List (Str × Str)

-- The occupant on record; a missing key reads as the empty string.
abbrev pub occupant_or_empty : Option Str → Str
occupant_or_empty none = []
occupant_or_empty (some fp) = fp

-- The body of the first loop, at the generation found.
unfoldable pub track_at : Panes → Str → Str → Option ℕ → Panes
track_at s id fp none = record {
  generations = insert id 1 s.generations;
  occupants = insert id fp s.occupants;
}
track_at s id fp (some g) =
    if str_eq (occupant_or_empty (lookup id s.occupants)) fp then s else record {
      generations = insert id ((g + 1) % 18_446_744_073_709_551_616) s.generations;
      occupants = insert id fp s.occupants;
    }

unfoldable pub track : Panes → Pane → Panes
track s p = track_at s p.pane_id (occupant_fingerprint p) (lookup p.pane_id s.generations)

unfoldable pub track_all : Panes → List Pane → Panes
track_all s [] = s
track_all s (p ∷ ps) = track_all (track s p) ps

unfoldable pub is_present : Str → List Pane → Bool
is_present id [] = false
is_present id (p ∷ ps) = if str_eq p.pane_id id then true else is_present id ps

-- `delete` of every key that fails a test.
unfoldable pub retain : {V : Type 0} → (Str → Bool) → List (Str × V) → List (Str × V)
retain keep [] = []
retain keep ((k, v) ∷ m) = if keep k then (k, v) ∷ retain keep m else retain keep m

abbrev is_known : Option ℕ → Bool
is_known none = false
is_known (some g) = true

-- Not an id that has a generation and is gone.
abbrev pub is_kept : Panes → List Pane → Str → Bool
is_kept s ps id = not (is_known (lookup id s.generations) && not (is_present id ps))

unfoldable pub drop_gone : Panes → List Pane → Panes
drop_gone s ps = record {
  generations = retain (is_kept s ps) s.generations;
  occupants = retain (is_kept s ps) s.occupants;
}

unfoldable pub update_generations : Panes → List Pane → Panes
update_generations s ps = drop_gone (track_all s ps) ps

unfoldable pub check_generation : Panes → Str → ℕ → Bool
check_generation s id expected = elim (lookup id s.generations) [
  | none ↦ false
  | some g ↦ g == expected
]

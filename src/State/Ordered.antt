-- ===== src/State/Ordered.antt =====
-- The order of the runs of internal/state/runs.go, and what sorting keeps.
use herdr_phone.Base.{
  List, [], ◌∷◌, ◌++◌, ◌≡◌, ◌⊎◌, inl, inr, arith, true, false, Str, str_lt, str_le_trans,
  str_lt_trans, str_lt_irrefl, Bool-cases, if_both, All, Any,
}
use herdr_phone.State.Runs.{Run, insert_run, sort_runs}

-- No later run comes before an earlier one in the order of pane ids.
abbrev pub IsOrdered : List Run → Type 0
IsOrdered [] = Unit
IsOrdered (r ∷ rest) = All (λ t. str_lt t.pane_id r.pane_id ≡ false) rest × IsOrdered rest

All-insert_run :
    (P : Run → Type 0) (r : Run) (rs : List Run) → P r → All P rs → All P (insert_run r rs)
unfolding insert_run
All-insert_run P r [] p h = (p, tt)
All-insert_run P r (s ∷ rs) p h =
    if_both (All P) (str_lt s.pane_id r.pane_id) (λ _. (h.0, All-insert_run P r rs p h.1))
      (λ _. (p, h))

pub All-sort_runs : (P : Run → Type 0) (rs : List Run) → All P rs → All P (sort_runs rs)
unfolding sort_runs
All-sort_runs P [] h = tt
All-sort_runs P (r ∷ rs) h = All-insert_run P r (sort_runs rs) h.0 (All-sort_runs P rs h.1)

pub All-weaken :
    {A : Type 0} (P Q : A → Type 0) (xs : List A) → ((a : A) → P a → Q a) → All P xs → All Q xs
All-weaken P Q [] f h = tt
All-weaken P Q (x ∷ xs) f h = (f x h.0, All-weaken P Q xs f h.1)

str_lt-asym : (s t : Str) → str_lt s t ≡ true → str_lt t s ≡ false
str_lt-asym s t h = elim (Bool-cases (str_lt t s)) [
  | inr e ↦ e
  | inl e ↦ absurd (ground (arith, str_lt_trans s t s h e, str_lt_irrefl s))
]

insert_run-IsOrdered : (r : Run) (rs : List Run) → IsOrdered rs → IsOrdered (insert_run r rs)
unfolding insert_run
insert_run-IsOrdered r [] h = (tt, tt)
insert_run-IsOrdered r (s ∷ rs) h =
    if_both IsOrdered (str_lt s.pane_id r.pane_id)
      (λ below. (
        All-insert_run (λ t. str_lt t.pane_id s.pane_id ≡ false) r rs
            (str_lt-asym s.pane_id r.pane_id below) h.0,
        insert_run-IsOrdered r rs h.1,
      ))
      (λ above. (
        (
          above,
          All-weaken (λ t. str_lt t.pane_id s.pane_id ≡ false)
              (λ t. str_lt t.pane_id r.pane_id ≡ false) rs
              (λ t e. str_le_trans r.pane_id s.pane_id t.pane_id above e) h.0,
        ),
        h,
      ))

pub sort_runs-IsOrdered : (rs : List Run) → IsOrdered (sort_runs rs)
unfolding sort_runs
sort_runs-IsOrdered [] = tt
sort_runs-IsOrdered (r ∷ rs) = insert_run-IsOrdered r (sort_runs rs) (sort_runs-IsOrdered rs)

Any-insert_run :
    (P : Run → Type 0) (r : Run) (rs : List Run) → P r ⊎ Any P rs → Any P (insert_run r rs)
unfolding insert_run
Any-insert_run P r [] h = h
Any-insert_run P r (s ∷ rs) (inl p) =
    if_both (Any P) (str_lt s.pane_id r.pane_id) (λ _. inr (Any-insert_run P r rs (inl p)))
      (λ _. inl p)
Any-insert_run P r (s ∷ rs) (inr (inl p)) =
    if_both (Any P) (str_lt s.pane_id r.pane_id) (λ _. inl p) (λ _. inr (inl p))
Any-insert_run P r (s ∷ rs) (inr (inr h)) =
    if_both (Any P) (str_lt s.pane_id r.pane_id) (λ _. inr (Any-insert_run P r rs (inr h)))
      (λ _. inr (inr h))

pub Any-sort_runs : (P : Run → Type 0) (rs : List Run) → Any P rs → Any P (sort_runs rs)
unfolding sort_runs
Any-sort_runs P [] h = absurd h
Any-sort_runs P (r ∷ rs) (inl p) = Any-insert_run P r (sort_runs rs) (inl p)
Any-sort_runs P (r ∷ rs) (inr h) = Any-insert_run P r (sort_runs rs) (inr (Any-sort_runs P rs h))

pub Any-append-left : {A : Type 0} (P : A → Type 0) (xs ys : List A) → Any P xs → Any P (xs ++ ys)
Any-append-left P [] ys h = absurd h
Any-append-left P (x ∷ xs) ys (inl p) = inl p
Any-append-left P (x ∷ xs) ys (inr h) = inr (Any-append-left P xs ys h)

pub Any-append-right : {A : Type 0} (P : A → Type 0) (xs ys : List A) → Any P ys → Any P (xs ++ ys)
Any-append-right P [] ys h = h
Any-append-right P (x ∷ xs) ys h = inr (Any-append-right P xs ys h)

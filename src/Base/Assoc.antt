-- ===== src/Base/Assoc.antt =====
-- Go maps with string keys as association lists, and a sweep `for k, v := range m { if ... {
-- delete(m, k) } }` as a pass that keeps the other entries.

use mathlib.Core.Path.{◌≡◌, refl, ap, subst₂}
use mathlib.Core.Logic.{inl, inr}
use mathlib.Core.Bool.{Bool, true, false}
use mathlib.Core.Option.{Option, none, some}
use mathlib.Core.List.{List, [], ◌∷◌}
use native.Mathlib.Omega.{arith}
use herdr_phone.Base.Tests.{if◌then◌else◌, Bool-cases}
use herdr_phone.Base.Strings.{Str, str_eq, str_eq_iff, str_eq_refl}

module _ {ℓ} {V : Type ℓ} where
  unfoldable pub lookup : Str → List (Str × V) → Option V
  lookup k [] = none
  lookup k ((j, v) ∷ m) = if str_eq j k then some v else lookup k m

  unfoldable pub delete : Str → List (Str × V) → List (Str × V)
  delete k [] = []
  delete k ((j, v) ∷ m) = let rest = delete k m in if str_eq j k then rest else (j, v) ∷ rest

  unfoldable pub insert : Str → V → List (Str × V) → List (Str × V)
  unfolding delete
  insert k v m = (k, v) ∷ delete k m

  unfoldable pub prune : (V → Bool) → List (Str × V) → List (Str × V)
  prune p [] = []
  prune p ((j, v) ∷ m) = let rest = prune p m in if p v then rest else (j, v) ∷ rest

  unfoldable pub mentions : Str → List (Str × V) → Bool
  mentions k [] = false
  mentions k ((j, v) ∷ m) = if str_eq j k then true else mentions k m

  -- A key stands at most once, as in a Go map.
  abbrev pub IsMap : List (Str × V) → Type 0
  IsMap [] = Unit
  IsMap ((k, v) ∷ m) = (mentions k m ≡ false) × IsMap m

  -- What a sweep leaves of a looked up value.
  abbrev pub kept : (V → Bool) → Option V → Option V
  kept p none = none
  kept p (some v) = if p v then none else some v

  pub lookup-delete :
      (k j : Str) (m : List (Str × V))
      → lookup j (delete k m) ≡ (if str_eq k j then none else lookup j m)
  unfolding lookup delete
  lookup-delete k j [] = ground arith
  lookup-delete k j ((i, v) ∷ m) =
      ground (arith, str_eq_iff k j, str_eq_iff i k, str_eq_iff i j, lookup-delete k j m)

  pub lookup-insert :
      (k j : Str) (v : V) (m : List (Str × V))
      → lookup j (insert k v m) ≡ (if str_eq k j then some v else lookup j m)
  unfolding lookup insert
  lookup-insert k j v m = ground (arith, lookup-delete k j m)

  not_mentioned : (k : Str) (m : List (Str × V)) → mentions k m ≡ false → lookup k m ≡ none
  unfolding mentions lookup
  not_mentioned k [] h = refl
  not_mentioned k ((j, v) ∷ m) h = ground (arith, not_mentioned k m)

  mentions-delete :
      (k j : Str) (m : List (Str × V)) → mentions j m ≡ false → mentions j (delete k m) ≡ false
  unfolding mentions delete
  mentions-delete k j [] h = refl
  mentions-delete k j ((i, v) ∷ m) h = ground (arith, mentions-delete k j m)

  deleted : (k : Str) (m : List (Str × V)) → mentions k (delete k m) ≡ false
  unfolding mentions delete
  deleted k [] = refl
  deleted k ((i, v) ∷ m) = ground (arith, deleted k m)

  mentions-prune :
      (p : V → Bool) (j : Str) (m : List (Str × V))
      → mentions j m ≡ false
      → mentions j (prune p m) ≡ false
  unfolding mentions prune
  mentions-prune p j [] h = refl
  mentions-prune p j ((i, v) ∷ m) h = ground (arith, mentions-prune p j m)

  pub delete-IsMap : (k : Str) (m : List (Str × V)) → IsMap m → IsMap (delete k m)
  unfolding delete
  delete-IsMap k [] h = tt
  delete-IsMap k ((j, v) ∷ m) h = ground (arith, delete-IsMap k m h.1, mentions-delete k j m)

  pub insert-IsMap : (k : Str) (v : V) (m : List (Str × V)) → IsMap m → IsMap (insert k v m)
  unfolding insert
  insert-IsMap k v m h = (deleted k m, delete-IsMap k m h)

  pub prune-IsMap : (p : V → Bool) (m : List (Str × V)) → IsMap m → IsMap (prune p m)
  unfolding prune
  prune-IsMap p [] h = tt
  prune-IsMap p ((j, v) ∷ m) h = ground (arith, prune-IsMap p m h.1, mentions-prune p j m)

  pub lookup-prune :
      (p : V → Bool) (k : Str) (m : List (Str × V))
      → IsMap m
      → lookup k (prune p m) ≡ kept p (lookup k m)
  unfolding lookup prune
  lookup-prune p k [] h = refl
  lookup-prune p k ((j, v) ∷ m) h = ground (
    arith,
    str_eq_iff j k,
    lookup-prune p k m h.1,
    not_mentioned k m,
    ap (λ i. mentions i m) {x = j} {y = k},
  )

module _ {ℓ} {V : Type ℓ} where
  mentioned : (k : Str) (m : List (Str × V)) (v : V) → lookup k m ≡ some v → mentions k m ≡ true
  unfolding mentions lookup
  mentioned k [] v e = cc
  mentioned k ((j, w) ∷ m) v e = ground (arith, mentioned k m v)

  -- An entry further down is found past the first, whose key stands once.
  pub lookup-tail :
      (k j : Str) (w v : V) (m : List (Str × V))
      → mentions j m ≡ false
      → lookup k m ≡ some v
      → lookup k ((j, w) ∷ m) ≡ some v
  unfolding lookup
  lookup-tail k j w v m h e =
      ground (arith, mentioned k m v e, str_eq_iff j k, ap (λ i. mentions i m) {x = j} {y = k})

  pub lookup-head : (k : Str) (v : V) (m : List (Str × V)) → lookup k ((k, v) ∷ m) ≡ some v
  unfolding lookup
  lookup-head k v m = rw (str_eq_refl k) refl

-- A property of every entry.
module _ {ℓ κ} {V : Type ℓ} (P : Str → V → Type κ) where
  abbrev pub Each : List (Str × V) → Type κ
  Each [] = Unit
  Each ((k, v) ∷ m) = P k v × Each m

  pub Each-lookup : (k : Str) (m : List (Str × V)) {v : V} → Each m → lookup k m ≡ some v → P k v
  unfolding lookup
  Each-lookup k [] h e = cc
  Each-lookup k ((j, w) ∷ m) h e = elim (Bool-cases (str_eq j k)) [
    | inl hit ↦ subst₂ P ((str_eq_iff j k).0 hit) (ground (arith, hit, e)) h.0
    | inr miss ↦ Each-lookup k m h.1 (ground (arith, miss, e))
  ]

  pub Each-delete : (k : Str) (m : List (Str × V)) → Each m → Each (delete k m)
  unfolding delete
  Each-delete k [] h = tt
  Each-delete k ((j, w) ∷ m) h = elim (Bool-cases (str_eq j k)) [
    | inl hit ↦ rw hit (Each-delete k m h.1)
    | inr miss ↦ rw miss (h.0, Each-delete k m h.1)
  ]

  pub Each-insert : (k : Str) (v : V) (m : List (Str × V)) → P k v → Each m → Each (insert k v m)
  unfolding insert
  Each-insert k v m p h = (p, Each-delete k m h)

  pub Each-prune : (p : V → Bool) (m : List (Str × V)) → Each m → Each (prune p m)
  unfolding prune
  Each-prune p [] h = tt
  Each-prune p ((j, w) ∷ m) h = elim (Bool-cases (p w)) [
    | inl hit ↦ rw hit (Each-prune p m h.1)
    | inr miss ↦ rw miss (h.0, Each-prune p m h.1)
  ]

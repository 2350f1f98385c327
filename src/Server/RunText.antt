-- ===== src/Server/RunText.antt =====
-- The bounds on text in internal/server/runs.go. `sanitize_line` and `sanitize_block` are
-- `SanitizeLogLine` and `SanitizeTextBlock` of internal/security.
use herdr_phone.Base.{
  ℕ, zero, suc, ◌+◌, ◌-◌, ◌≤◌, ◌<◌, ◌==◌, List, [], ◌∷◌, ◌++◌, ◌≡◌, ◌⊎◌, inl, inr, refl, arith,
  Bool, true, false, not, ltb, leb, Str, within, if◌then◌else◌, if_both, length, ◌∙◌, ap, sym,
  append_assoc,
}

abbrev pub max_run_text_field_len : ℕ
max_run_text_field_len = 512

-- `utf8.RuneStart`.
abbrev pub rune_start : ℕ → Bool
rune_start b = not (within 128 191 b)

unfoldable pub take : {A : Type 0} → ℕ → List A → List A
take zero xs = []
take (suc n) [] = []
take (suc n) (x ∷ xs) = x ∷ take n xs

unfoldable pub drop : {A : Type 0} → ℕ → List A → List A
drop zero xs = xs
drop (suc n) [] = []
drop (suc n) (x ∷ xs) = drop n xs

-- Whether the byte at a place starts a rune; a place past the end does not occur.
unfoldable pub starts_at : Str → ℕ → Bool
starts_at [] n = true
starts_at (b ∷ s) zero = rune_start b
starts_at (b ∷ s) (suc n) = starts_at s n

-- The loop of `truncateUTF8`.
unfoldable pub cut_back : Str → ℕ → ℕ
cut_back s zero = 0
cut_back s (suc n) = let lower = cut_back s n in if starts_at s (suc n) then suc n else lower

unfoldable pub truncate_utf8 : Str → ℕ → Str
truncate_utf8 s max = if leb (length s) max then s else take (cut_back s max) s

unfoldable pub skip_partial : Str → Str
skip_partial [] = []
skip_partial (b ∷ s) = let rest = skip_partial s in if rune_start b then b ∷ s else rest

unfoldable pub bound_text : Str → ℕ → Str × Bool
bound_text s max =
    if max == 0
    then (s, false)
    else if leb (length s) max
    then (s, false)
    else (skip_partial (drop (length s - max) s), true)

abbrev newlines : Str → ℕ
newlines [] = 0
newlines (b ∷ s) = if b == 10 then 1 + newlines s else newlines s

abbrev ends_in_newline : Str → Bool
ends_in_newline [] = false
ends_in_newline (b ∷ []) = b == 10
ends_in_newline (b ∷ c ∷ s) = ends_in_newline (c ∷ s)

unfoldable pub count_lines : Str → ℕ
count_lines [] = 0
count_lines (b ∷ s) = if ends_in_newline (b ∷ s) then newlines (b ∷ s) else newlines (b ∷ s) + 1

module _ (sanitize_line : Str → Str) (sanitize_block : Str → Str) where
  unfoldable pub sanitize_run_field : Str → Str
  sanitize_run_field [] = []
  sanitize_run_field (b ∷ s) =
      let out = sanitize_line (b ∷ s) in
      if ltb max_run_text_field_len (length out)
      then truncate_utf8 out max_run_text_field_len
      else out

  unfoldable pub bound_observed_text : Str → ℕ → Str × Bool
  bound_observed_text s max = bound_text (sanitize_block s) max

-- A text is a tail of another.
abbrev pub IsTail : Str → Str → Type 0
IsTail t s = (front : Str) × (s ≡ front ++ t)

abbrev pub StartsWhole : Str → Type 0
StartsWhole [] = Unit
StartsWhole (b ∷ s) = rune_start b ≡ true

drop-IsTail : (n : ℕ) (s : Str) → IsTail (drop n s) s
unfolding drop
drop-IsTail zero s = ([], refl)
drop-IsTail (suc n) [] = ([], refl)
drop-IsTail (suc n) (b ∷ s) = let (front, e) = drop-IsTail n s in (b ∷ front, ap (λ z. b ∷ z) e)

length-drop : (n : ℕ) (s : Str) → n ≤ length s → length (drop n s) ≡ length s - n
unfolding drop
length-drop zero s h = omega arith
length-drop (suc n) [] h = omega arith
length-drop (suc n) (b ∷ s) h = ground (arith, length-drop n s)

skip_partial_lem :
    (s : Str)
    → IsTail (skip_partial s) s
      × StartsWhole (skip_partial s)
      × (length (skip_partial s) ≤ length s)
unfolding skip_partial
skip_partial_lem [] = (([], refl), tt, omega arith)
skip_partial_lem (b ∷ s) =
    let ((front, e), whole, shorter) = skip_partial_lem s in
    if_both (λ t. IsTail t (b ∷ s) × StartsWhole t × (length t ≤ length (b ∷ s))) (rune_start b)
      (λ h. (([], refl), h, omega arith))
      (λ _. ((b ∷ front, ap (λ z. b ∷ z) e), whole, omega arith))

-- What bounding a text does, if the bound is set.
pub record IsBounded (s : Str) (max : ℕ) (result : Str × Bool) : Type 0 where
  pub fits : length result.0 ≤ max
  pub tail : IsTail result.0 s
  pub whole :
      ((result.1 ≡ false) × (result.0 ≡ s))
      ⊎ ((result.1 ≡ true) × (max < length s) × StartsWhole result.0)

cut_fits :
    (s : Str) (max : ℕ)
    → max < length s
    → (t : Str) → length t ≤ length (drop (length s - max) s)
    → length t ≤ max
cut_fits s max h t k = omega (arith, length-drop (length s - max) s (omega arith))

pub bound_text-IsBounded : (s : Str) (max : ℕ) → 1 ≤ max → IsBounded s max (bound_text s max)
unfolding bound_text
bound_text-IsBounded s max h =
    if_both (IsBounded s max) (max == 0) (λ e. ground (arith, e))
      λ _.
        if_both (IsBounded s max) (leb (length s) max)
          (λ e. record { fits = ground (arith, e); tail = ([], refl); whole = inl (refl, refl) })
          (λ e.
            let dropped = drop (length s - max) s in
            let (front, after) = drop-IsTail (length s - max) s in
            let ((partial, split), whole, shorter) = skip_partial_lem dropped in
            record {
              fits = cut_fits s max (ground (arith, e)) (skip_partial dropped) shorter;
              tail = (
                front ++ partial,
                after
                    ∙ ap (λ z. front ++ z) split
                    ∙ sym (append_assoc front partial (skip_partial dropped)),
              );
              whole = inr (refl, ground (arith, e), whole);
            })

cut_back_le : (s : Str) (n : ℕ) → cut_back s n ≤ n
unfolding cut_back
cut_back_le s zero = omega arith
cut_back_le s (suc n) = ground (arith, cut_back_le s n)

length-take : (n : ℕ) (s : Str) → length (take n s) ≤ n
unfolding take
length-take zero s = omega arith
length-take (suc n) [] = omega arith
length-take (suc n) (b ∷ s) = omega (arith, length-take n s)

length-truncate_utf8 : (s : Str) (max : ℕ) → length (truncate_utf8 s max) ≤ max
unfolding truncate_utf8
length-truncate_utf8 s max =
    if_both (λ t. length t ≤ max) (leb (length s) max) {x = s} {y = take (cut_back s max) s}
      (λ h. ground (arith, h))
      (λ _. omega (arith, length-take (cut_back s max) s, cut_back_le s max))

pub length-sanitize_run_field :
    (sanitize_line sanitize_block : Str → Str) (s : Str)
    → length (sanitize_run_field sanitize_line sanitize_block s) ≤ max_run_text_field_len
unfolding sanitize_run_field
length-sanitize_run_field sanitize_line sanitize_block [] = omega arith
length-sanitize_run_field sanitize_line sanitize_block (b ∷ s) =
    if_both (λ t. length t ≤ max_run_text_field_len)
      (ltb max_run_text_field_len (length (sanitize_line (b ∷ s)))) {y = sanitize_line (b ∷ s)}
      (λ _. length-truncate_utf8 (sanitize_line (b ∷ s)) max_run_text_field_len)
      (λ h. ground (arith, h))

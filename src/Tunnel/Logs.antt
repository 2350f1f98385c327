-- ===== src/Tunnel/Logs.antt =====
-- The buffer of recent log lines of internal/tunnel/logbuf.go. A capacity that is not positive is 0.
use herdr_phone.Base.{
  ℕ, ◌≤◌, ◌==◌, List, [], ◌∷◌, ◌++◌, ◌≡◌, refl, arith, leb, Str, if◌then◌else◌, length,
  length-append, append_assoc, append-nil, ◌∙◌, ap, sym,
}

pub record RingBuffer : Type 0 where
  pub lines : List Str
  pub cap : ℕ

unfoldable pub new_ring_buffer : ℕ → RingBuffer
new_ring_buffer capacity = record { lines = []; cap = if capacity == 0 then 200 else capacity }

-- The copy that drops the oldest line, and the write into the last place.
abbrev pub shift_in : List Str → Str → List Str
shift_in [] line = []
shift_in (oldest ∷ rest) line = rest ++ line ∷ []

abbrev pub add_line : RingBuffer → Str → RingBuffer
add_line r line = record r {
  lines = if leb r.cap (length r.lines) then shift_in r.lines line else r.lines ++ line ∷ [];
}

unfoldable pub add : RingBuffer → Str → RingBuffer
add r [] = r
add r (b ∷ line) = add_line r (b ∷ line)

unfoldable pub add_all : RingBuffer → List Str → RingBuffer
add_all r [] = r
add_all r (line ∷ ls) = add_all (add r line) ls

-- The last `n` elements, and the lines that are not empty.
abbrev pub last : {A : Type 0} → ℕ → List A → List A
last n [] = []
last n (x ∷ xs) = if leb (length (x ∷ xs)) n then x ∷ xs else last n xs

abbrev pub nonempty : List Str → List Str
nonempty [] = []
nonempty ([] ∷ ls) = nonempty ls
nonempty ((b ∷ line) ∷ ls) = (b ∷ line) ∷ nonempty ls

last_whole : {A : Type 0} (n : ℕ) (xs : List A) → length xs ≤ n → last n xs ≡ xs
last_whole n [] h = refl
last_whole n (x ∷ xs) h = ground arith

-- The place that a new line takes among the last ones.
last-snoc :
    (n : ℕ) (xs : List Str) (x : Str)
    → 1 ≤ n
    → last n (xs ++ x ∷ [])
      ≡ (if leb n (length (last n xs)) then shift_in (last n xs) x else last n xs ++ x ∷ [])
last-snoc n [] x h = ground arith
last-snoc n (y ∷ ys) x h = ground (
  arith,
  last-snoc n ys x h,
  length-append ys (x ∷ []),
  last_whole n (ys ++ x ∷ []),
  last_whole n ys,
)

add-last :
    (n : ℕ) (r : RingBuffer) (past : List Str) (line : Str)
    → 1 ≤ n
    → r.cap ≡ n
    → r.lines ≡ last n past
    → ((add r line).cap ≡ n) × ((add r line).lines ≡ last n (past ++ nonempty (line ∷ [])))
unfolding add
add-last n r past [] h c e = (c, e ∙ ap (λ z. last n z) (sym (append-nil past)))
add-last n r past (b ∷ line) h c e = (c, rw (c, e) (sym (last-snoc n past (b ∷ line) h)))

nonempty-step :
    (line : Str) (ls : List Str) → nonempty (line ∷ ls) ≡ nonempty (line ∷ []) ++ nonempty ls
nonempty-step [] ls = refl
nonempty-step (b ∷ line) ls = refl

add_all-last :
    (n : ℕ) (r : RingBuffer) (past ls : List Str)
    → 1 ≤ n
    → r.cap ≡ n
    → r.lines ≡ last n past
    → (add_all r ls).lines ≡ last n (past ++ nonempty ls)
unfolding add_all
add_all-last n r past [] h c e = e ∙ ap (λ z. last n z) (sym (append-nil past))
add_all-last n r past (line ∷ ls) h c e =
    let (c', e') = add-last n r past line h c e in
    add_all-last n (add r line) (past ++ nonempty (line ∷ [])) ls h c' e'
    ∙ ap (λ z. last n z)
        (append_assoc past (nonempty (line ∷ [])) (nonempty ls)
          ∙ ap (λ z. past ++ z) (sym (nonempty-step line ls)))

-- After any lines are added to a new buffer, it holds the last of the lines that are not empty, as
-- many as its capacity and in their order. The capacity is 200 where 0 is asked for.
pub add_all-nonempty :
    (capacity : ℕ) (ls : List Str)
    → (add_all (new_ring_buffer capacity) ls).lines
      ≡ last (if capacity == 0 then 200 else capacity) (nonempty ls)
unfolding new_ring_buffer
add_all-nonempty capacity ls =
    add_all-last (new_ring_buffer capacity).cap (new_ring_buffer capacity) [] ls (ground arith) refl
      refl

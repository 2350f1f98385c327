-- ===== src/Ansi/Loop.antt =====
-- The loop of `Filter` in internal/security/ansi.go, and the writer `ansiWriter` around it.
use herdr_phone.Base.{ℕ, List, [], ◌∷◌, ◌++◌, ◌==◌, if◌then◌else◌, length, Option, none, some}
use herdr_phone.Ansi.{
  AnsiFilter, Turn, next, again, step, default_max_seq_bytes, default_max_str_bytes,
}

-- The second reading of a byte; it is never followed by a third (`Ansi.Bounds.step-again`).
unfoldable pub settle : Turn → AnsiFilter × List ℕ
settle (next f out) = (f, out)
settle (again f) = (f, [])

unfoldable pub reread : Turn → ℕ → AnsiFilter × List ℕ
unfolding settle
reread (next f out) b = (f, out)
reread (again f) b = settle (step f b)

-- All passes of the loop body for one byte.
unfoldable pub consume : AnsiFilter → ℕ → AnsiFilter × List ℕ
unfolding reread
consume f b = reread (step f b) b

-- The loop over the bytes of `p`.
unfoldable pub run : AnsiFilter → List ℕ → AnsiFilter × List ℕ
run f [] = (f, [])
run f (b ∷ p) = let (f', out) = consume f b in let (f'', rest) = run f' p in (f'', out ++ rest)

-- A zero bound means the default.
unfoldable pub with_defaults : AnsiFilter → AnsiFilter
with_defaults f = record f {
  max_seq = if f.max_seq == 0 then default_max_seq_bytes else f.max_seq;
  max_str = if f.max_str == 0 then default_max_str_bytes else f.max_str;
}

unfoldable pub filter : AnsiFilter → List ℕ → AnsiFilter × List ℕ
unfolding with_defaults run
filter f p = run (with_defaults f) p

-- Several calls of `Filter`, their outputs joined.
unfoldable pub filter_chunks : AnsiFilter → List (List ℕ) → AnsiFilter × List ℕ
filter_chunks f [] = (f, [])
filter_chunks f (p ∷ ps) =
    let (f', out) = filter f p in let (f'', rest) = filter_chunks f' ps in (f'', out ++ rest)

-- `ansiWriter.Write` over a writer `W`, whose `Write` takes its state to the next one and to whether
-- it succeeded. The result is the reported count, `none` for the error.
module _ {W : Type 0} (write : W → List ℕ → W × Option ℕ) where
  unfoldable pub ansi_write : W → AnsiFilter → List ℕ → W × AnsiFilter × Option ℕ
  unfolding filter
  ansi_write w f p =
      let (f', filtered) = filter f p in
      let (w', sent) = write w filtered in
      if length filtered == 0
      then (w, f', some (length p))
      else (w', f', elim sent [ none ↦ none | some _ ↦ some (length p) ])

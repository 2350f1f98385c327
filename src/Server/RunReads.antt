-- ===== src/Server/RunReads.antt =====
-- Which pane `handleRun` of internal/server/runs.go reads, and how much of it the client is sent.
use herdr_phone.Base.{
  ap, subst, ◌∙◌, ℕ, ◌≤◌, ◌==◌, ℤ, pos, negsuc, List, [], ◌∷◌, ◌≡◌, ◌⊎◌, inl, inr, refl, arith,
  true, not, Option, none, some, Str, str_eq, str_eq_iff, if_both, length,
}
use herdr_phone.State.Runs.{Run, Worktree}
use herdr_phone.Server.Operations.{Code}
use herdr_phone.Server.RunText.{
  sanitize_run_field, bound_observed_text, IsBounded, bound_text-IsBounded,
  length-sanitize_run_field,
}
use herdr_phone.Server.Runs.{
  with_worktree, RunConfig, run_defaults, RunQuery, PaneRead, ReadResult, read_content, read_failed,
  ObservedPart, RunReply, run_error, run_found, Handled, classify_read_err, is_read_source,
  or_recent, sanitize_run, find_run, refused, asked_lines, answer_read, check_run, check_pane,
  lines_of, clamp, generation_of, check_lines, check_query, handle_run,
}

abbrev pub IsShortWorktree : Option Worktree → Type 0
IsShortWorktree none = Unit
IsShortWorktree (some w) =
    (length w.repo_name ≤ 512) × (length w.repo_root ≤ 512) × (length w.checkout_path ≤ 512)

-- The names, titles and paths that a client shows are cut to their maximum.
abbrev pub IsShort : Run → Type 0
IsShort run =
    (length run.workspace_label ≤ 512)
    × (length run.tab_label ≤ 512)
    × (length run.agent_name ≤ 512)
    × (length run.display_agent ≤ 512)
    × (length run.title ≤ 512)
    × (length run.cwd ≤ 512)
    × (length run.foreground_cwd ≤ 512)
    × IsShortWorktree run.worktree

defaults_set :
    (cfg : RunConfig)
    → (1 ≤ (run_defaults cfg).max_run_output_bytes) × (1 ≤ (run_defaults cfg).max_run_output_lines)
unfolding run_defaults
defaults_set cfg = ground arith

module _ {P : Type 0} (sanitize_line : Str → Str) (sanitize_block : Str → Str)
    (parse_uint : Str → Option ℕ) (atoi : Str → Option ℤ)
    (interpreted_parts : Str → Str → List P) where
  -- The run that is answered is of the pane and the generation asked for, and the text is what
  -- `content` is cut to.
  pub record IsAnswer (max expected : ℕ) (r : PaneRead) (content : Str) (run : Run)
      (part : ObservedPart) : Type 0 where
    pub of_pane : run.pane_id ≡ r.pane_id
    pub short : IsShort run
    pub of_generation : run.pane_generation ≡ expected
    pub bounded : IsBounded (sanitize_block content) max (part.text, part.truncated)
    pub counted : part.bytes ≡ length part.text

  abbrev pub IsReply : ℕ → ℕ → PaneRead → ReadResult → RunReply P → Type 0
  IsReply max expected r (read_content content) (run_found run part ps) =
      IsAnswer max expected r content run part
  IsReply max expected r (read_content content) (run_error status code) = ⊥
  IsReply max expected r (read_failed ctx e) (run_found run part ps) = ⊥
  IsReply max expected r (read_failed ctx e) (run_error status code) =
      (code, status) ≡ classify_read_err ctx e

  -- A read of a pane whose generation is the one that the client asserts.
  pub record IsRead (cfg : RunConfig) (q : RunQuery) (generation : Str → Option ℕ)
      (read_pane : PaneRead → ReadResult) (h : Handled P) (r : PaneRead) : Type 0 where
    pub expected : ℕ
    pub asserted :
        generation_of sanitize_line sanitize_block parse_uint atoi interpreted_parts
          q.expected_generation
        ≡ some expected
    pub current : generation r.pane_id ≡ some expected
    pub asked : r.pane_id ≡ q.pane_id
    pub allowed : is_read_source r.source ≡ true
    pub some_lines : 1 ≤ r.lines
    pub few_lines : r.lines ≤ cfg.max_run_output_lines
    pub once : h.reads ≡ r ∷ []
    pub replied : IsReply cfg.max_run_output_bytes expected r (read_pane r) h.reply

  -- Or nothing is read, and the reply is an error.
  abbrev pub IsGuarded :
      RunConfig → RunQuery → (Str → Option ℕ) → (PaneRead → ReadResult) → Handled P → Type 0
  IsGuarded cfg q generation read_pane h =
      ((h.reads ≡ []) × ((status : ℕ) × (code : Code) × (h.reply ≡ run_error status code)))
      ⊎ ((r : PaneRead) × IsRead cfg q generation read_pane h r)

  refused-IsGuarded :
      (cfg : RunConfig) (q : RunQuery) (generation : Str → Option ℕ)
      (read_pane : PaneRead → ReadResult) (status : ℕ) (code : Code)
      → IsGuarded cfg q generation read_pane
          (refused sanitize_line sanitize_block parse_uint atoi interpreted_parts status code)
  refused-IsGuarded cfg q generation read_pane status code = inl (refl, (status, code, refl))

  with_worktree-IsShortWorktree :
      (o : Option Worktree)
      → IsShortWorktree (with_worktree (sanitize_run_field sanitize_line sanitize_block) o)
  with_worktree-IsShortWorktree none = tt
  with_worktree-IsShortWorktree (some w) =
      let fits = length-sanitize_run_field sanitize_line sanitize_block in
      (fits w.repo_name, fits w.repo_root, fits w.checkout_path)

  sanitize_run-IsShort :
      (run : Run)
      → IsShort (sanitize_run sanitize_line sanitize_block parse_uint atoi interpreted_parts run)
  unfolding sanitize_run
  sanitize_run-IsShort run =
      let fits = length-sanitize_run_field sanitize_line sanitize_block in
      (
        fits run.workspace_label,
        fits run.tab_label,
        fits run.agent_name,
        fits run.display_agent,
        fits run.title,
        fits run.cwd,
        fits run.foreground_cwd,
        with_worktree-IsShortWorktree run.worktree,
      )

  sanitize_run-pane_id :
      (run : Run)
      → (sanitize_run sanitize_line sanitize_block parse_uint atoi interpreted_parts run).pane_id
        ≡ run.pane_id
  unfolding sanitize_run
  sanitize_run-pane_id run = refl

  found_here :
      (id : Str) (r run : Run)
      → r.pane_id ≡ id
      → some (sanitize_run sanitize_line sanitize_block parse_uint atoi interpreted_parts r)
        ≡ some run
      → (run.pane_id ≡ id) × IsShort run
  found_here id r run e h =
      subst (λ found. (found.pane_id ≡ id) × IsShort found)
        (ap (λ o. elim o [ none ↦ r | some found ↦ found ]) h)
        (sanitize_run-pane_id r ∙ e, sanitize_run-IsShort r)

  find_run_lem :
      (id : Str) (runs : List Run) (run : Run)
      → find_run sanitize_line sanitize_block parse_uint atoi interpreted_parts id runs ≡ some run
      → (run.pane_id ≡ id) × IsShort run
  unfolding find_run
  find_run_lem id [] run h = ground (arith, h)
  find_run_lem id (r ∷ rs) run h =
      if_both (λ o. o ≡ some run → (run.pane_id ≡ id) × IsShort run) (str_eq r.pane_id id)
        (λ e k. found_here id r run ((str_eq_iff r.pane_id id).0 e) k)
        (λ e k. find_run_lem id rs run k) h

  answer-IsReply :
      (cfg : RunConfig) (run : Run) (r : PaneRead) (expected : ℕ) (res : ReadResult)
      → 1 ≤ cfg.max_run_output_bytes
      → (run.pane_id ≡ r.pane_id) × IsShort run
      → run.pane_generation ≡ expected
      → IsReply cfg.max_run_output_bytes expected r res
          (answer_read sanitize_line sanitize_block parse_uint atoi interpreted_parts cfg run r
            res).reply
  unfolding answer_read bound_observed_text
  answer-IsReply cfg run r expected (read_content content) h e g = record {
    of_pane = e.0;
    short = e.1;
    of_generation = g;
    bounded = bound_text-IsBounded (sanitize_block content) cfg.max_run_output_bytes h;
    counted = refl;
  }
  answer-IsReply cfg run r expected (read_failed ctx e) h k g = refl

  answer-reads :
      (cfg : RunConfig) (run : Run) (r : PaneRead) (res : ReadResult)
      → (answer_read sanitize_line sanitize_block parse_uint atoi interpreted_parts cfg run r
          res).reads
        ≡ r ∷ []
  unfolding answer_read
  answer-reads cfg run r (read_content content) = refl
  answer-reads cfg run r (read_failed ctx e) = refl

  asked_positive :
      (o : Option ℤ) (n : ℕ)
      → asked_lines sanitize_line sanitize_block parse_uint atoi interpreted_parts o ≡ some n
      → 1 ≤ n
  asked_positive none n h = ground (arith, h)
  asked_positive (some (pos m)) n h = ground (arith, h)
  asked_positive (some (negsuc m)) n h = ground (arith, h)

  lines_positive :
      (s : Str) (n : ℕ)
      → lines_of sanitize_line sanitize_block parse_uint atoi interpreted_parts s ≡ some n
      → 1 ≤ n
  unfolding lines_of
  lines_positive [] n h = ground (arith, h)
  lines_positive (b ∷ s) n h = asked_positive (atoi (b ∷ s)) n h

  -- The stages of the handler, from the last to the first.
  check_run-IsGuarded :
      (cfg : RunConfig) (q : RunQuery) (generation : Str → Option ℕ)
      (read_pane : PaneRead → ReadResult) (r : PaneRead) (expected : ℕ) (o : Option Run)
      → 1 ≤ cfg.max_run_output_bytes
      → ((run : Run) → o ≡ some run → (run.pane_id ≡ r.pane_id) × IsShort run)
      → ((h : Handled P)
          → h.reads ≡ r ∷ []
          → IsReply cfg.max_run_output_bytes expected r (read_pane r) h.reply
          → IsRead cfg q generation read_pane h r)
      → IsGuarded cfg q generation read_pane (
          check_run sanitize_line sanitize_block parse_uint atoi interpreted_parts cfg r expected o
            read_pane)
  unfolding check_run
  check_run-IsGuarded cfg q generation read_pane r expected none big same guarded =
      refused-IsGuarded cfg q generation read_pane _ _
  check_run-IsGuarded cfg q generation read_pane r expected (some run) big same guarded =
      if_both (IsGuarded cfg q generation read_pane) (not (run.pane_generation == expected))
        (λ _. refused-IsGuarded cfg q generation read_pane _ _)
        (λ e. inr (
          r,
          guarded _ (answer-reads cfg run r (read_pane r)) (
              answer-IsReply cfg run r expected (read_pane r) big (same run refl)
                (ground (arith, e))),
        ))

  check_pane-IsGuarded :
      (cfg : RunConfig) (q : RunQuery) (generation : Str → Option ℕ) (runs : List Run)
      (read_pane : PaneRead → ReadResult) (r : PaneRead) (expected : ℕ) (o : Option ℕ)
      → 1 ≤ cfg.max_run_output_bytes
      → generation r.pane_id ≡ o
      → (generation r.pane_id ≡ some expected
          → (h : Handled P) → h.reads ≡ r ∷ []
          → IsReply cfg.max_run_output_bytes expected r (read_pane r) h.reply
          → IsRead cfg q generation read_pane h r)
      → IsGuarded cfg q generation read_pane (
          check_pane sanitize_line sanitize_block parse_uint atoi interpreted_parts cfg r expected o
            runs read_pane)
  unfolding check_pane
  check_pane-IsGuarded cfg q generation runs read_pane r expected none big e guarded =
      refused-IsGuarded cfg q generation read_pane _ _
  check_pane-IsGuarded cfg q generation runs read_pane r expected (some gen) big e guarded =
      if_both (IsGuarded cfg q generation read_pane) (not (gen == expected))
        (λ _. refused-IsGuarded cfg q generation read_pane _ _)
        (λ k.
          check_run-IsGuarded cfg q generation read_pane r expected _ big
            (find_run_lem r.pane_id runs) (guarded (ground (arith, e, k))))

  check_lines-IsGuarded :
      (cfg : RunConfig) (q : RunQuery) (generation : Str → Option ℕ) (runs : List Run)
      (read_pane : PaneRead → ReadResult) (expected : ℕ) (o : Option ℕ)
      → 1 ≤ cfg.max_run_output_bytes
      → 1 ≤ cfg.max_run_output_lines
      → generation_of sanitize_line sanitize_block parse_uint atoi interpreted_parts
          q.expected_generation
        ≡ some expected
      → is_read_source (or_recent q.source) ≡ true
      → ((n : ℕ) → o ≡ some n → 1 ≤ n)
      → IsGuarded cfg q generation read_pane (
          check_lines sanitize_line sanitize_block parse_uint atoi interpreted_parts cfg q expected
            o generation runs read_pane)
  check_lines-IsGuarded cfg q generation runs read_pane expected none big tall asserted allowed n =
      refused-IsGuarded cfg q generation read_pane _ _
  check_lines-IsGuarded cfg q generation runs read_pane expected (some lines) big tall asserted
        allowed n =
      check_pane-IsGuarded cfg q generation runs read_pane
        (record {
          pane_id = q.pane_id;
          source = or_recent q.source;
          lines =
              clamp sanitize_line sanitize_block parse_uint atoi interpreted_parts
                cfg.max_run_output_lines lines;
        })
        expected _ big refl
        (λ current h once replied. record {
          expected = expected;
          asserted = asserted;
          current = current;
          asked = refl;
          allowed = allowed;
          some_lines = ground (arith, n lines refl, tall);
          few_lines = ground arith;
          once = once;
          replied = replied;
        })

  check_query-IsGuarded :
      (cfg : RunConfig) (q : RunQuery) (generation : Str → Option ℕ) (runs : List Run)
      (read_pane : PaneRead → ReadResult) (o : Option ℕ)
      → 1 ≤ cfg.max_run_output_bytes
      → 1 ≤ cfg.max_run_output_lines
      → generation_of sanitize_line sanitize_block parse_uint atoi interpreted_parts
          q.expected_generation
        ≡ o
      → IsGuarded cfg q generation read_pane (
          check_query sanitize_line sanitize_block parse_uint atoi interpreted_parts cfg q o
            generation runs read_pane)
  check_query-IsGuarded cfg q generation runs read_pane none big tall asserted =
      refused-IsGuarded cfg q generation read_pane _ _
  check_query-IsGuarded cfg q generation runs read_pane (some expected) big tall asserted =
      if_both (IsGuarded cfg q generation read_pane) (not (is_read_source (or_recent q.source)))
        (λ _. refused-IsGuarded cfg q generation read_pane _ _)
        (λ e.
          check_lines-IsGuarded cfg q generation runs read_pane expected _ big tall asserted
            (ground (arith, e)) (lines_positive q.lines))

  -- Whatever the query, `handleRun` reads no pane and answers an error, or it reads once the pane
  -- asked for, whose generation is the asserted one, from an allowed source and between 1 and the
  -- maximum of lines. It then answers the read error, or a run of that pane and generation, whose
  -- labels, names, title and paths are at most 512 bytes long, with the sanitized text: all of it if it
  -- fits the maximum of bytes, or else a tail of it that fits and starts with a whole rune.
  pub handle_run-IsGuarded :
      (cfg : RunConfig) (q : RunQuery) (generation : Str → Option ℕ) (runs : List Run)
      (read_pane : PaneRead → ReadResult)
      → IsGuarded (run_defaults cfg) q generation read_pane (
          handle_run sanitize_line sanitize_block parse_uint atoi interpreted_parts
            (run_defaults cfg)
            q
            generation
            runs
            read_pane)
  unfolding handle_run
  handle_run-IsGuarded cfg q generation runs read_pane =
      if_both (IsGuarded (run_defaults cfg) q generation read_pane) (length q.pane_id == 0)
        (λ _. refused-IsGuarded (run_defaults cfg) q generation read_pane _ _)
        (λ _.
          check_query-IsGuarded (run_defaults cfg) q generation runs read_pane _
            (defaults_set cfg).0 (defaults_set cfg).1 refl)

-- ===== src/Terminal/Output.antt =====
-- What the browser is shown of the frames that the bridge of internal/terminal/bridge.go accepts from
-- the controller, with the filter of internal/integration/terminalfilter.go in its place.
use herdr_phone.Base.{
  List, [], ◌∷◌, ◌++◌, ◌≡◌, ◌∙◌, sym, ap, inl, inr, refl, Bool, true, false, arith, Str,
  if◌then◌else◌, if_both, Bool-cases, append-nil, append_assoc, subst,
}
use mathlib.Core.List.{flatten}
use herdr_phone.Ansi.{AnsiFilter}
use herdr_phone.Ansi.Loop.{filter, filter_chunks}
use herdr_phone.Ansi.Run.{filter_chunks-flatten}
use herdr_phone.Terminal.Protocol.{Codec, Options, parse_browser_command}
use herdr_phone.Terminal.Channels.{Bridge, new_bridge, stdin_one}
use herdr_phone.Terminal.Bridge.{
  Step, controller_line, controller_eof, write_out, write_failed, write_stdin, stdin_failed,
  take_resize, resize_tick, browser_binary, browser_text, browser_gone, ping_failed, read_line,
  bridge_step, bridge_run,
}
use herdr_phone.Terminal.Shown.{
  all_out, Same, set_close-Same, write_one-Same, stdin_one-Same, Same-refl, Same-trans,
  stop_reading-Same,
}
use herdr_phone.Terminal.Feeding.{
  accepted_line, accepted, accepted_run, filter_all, Fed, line-Fed, none-Fed, input-Same,
  command-Same, taken-Same, ticked-Same, stop_browsing-Same, cancel-Same, filter_all-append,
}

module _ {F : Type 0} (lib : Codec) (filter_output : F → Str → F × Str) where
  abbrev Feeds : Bridge F → Bridge F → List Str → Type 0
  Feeds = Fed lib filter_output

  -- Only a line of the controller hands anything on.
  IsQuiet : Bridge F → Step → Type 0
  IsQuiet b (controller_line line w w') = Unit
  IsQuiet b s = Same b (bridge_step lib filter_output b s)

  step-IsQuiet : (b : Bridge F) (s : Step) → IsQuiet b s
  unfolding bridge_step IsQuiet
  step-IsQuiet b (controller_line line w w') = tt
  step-IsQuiet b controller_eof =
      if_both (Same b) b.reading (λ _. stop_reading-Same b _ (set_close-Same b _ _ _))
        (λ _. Same-refl b)
  step-IsQuiet b write_out = write_one-Same b
  step-IsQuiet b write_failed = cancel-Same lib filter_output b _ (write_one-Same b)
  step-IsQuiet b write_stdin = stdin_one-Same b
  step-IsQuiet b stdin_failed =
      cancel-Same lib filter_output b _
        (Same-trans b (stdin_one b) _ (stdin_one-Same b) (set_close-Same (stdin_one b) _ _ _))
  step-IsQuiet b take_resize = taken-Same lib filter_output b b.resizes
  step-IsQuiet b (resize_tick w) = ticked-Same lib filter_output b b.pending w
  step-IsQuiet b (browser_binary d w) =
      if_both (Same b) b.browsing (λ _. input-Same lib filter_output b d w) (λ _. Same-refl b)
  step-IsQuiet b (browser_text d w) =
      if_both (Same b) b.browsing
        (λ _. command-Same lib filter_output b (parse_browser_command lib d) w) (λ _. Same-refl b)
  step-IsQuiet b browser_gone =
      if_both (Same b) b.browsing
        (λ _. stop_browsing-Same lib filter_output b _ (set_close-Same b _ _ _)) (λ _. Same-refl b)
  step-IsQuiet b ping_failed = cancel-Same lib filter_output b _ (set_close-Same b _ _ _)

  step-Fed :
      (b : Bridge F) (s : Step)
      → Feeds b (bridge_step lib filter_output b s) (accepted lib filter_output b s)
  unfolding bridge_step IsQuiet
  step-Fed b (controller_line line w w') = line_at b b.reading
    where
      line_at :
          (b : Bridge F) (r : Bool)
          → Feeds b
              (if r then read_line lib filter_output b line w w' else b)
              (if r then accepted_line lib filter_output b line else [])
      line_at b true = line-Fed lib filter_output b line w w'
      line_at b false = none-Fed lib filter_output b b (Same-refl b)
  step-Fed b s = none-Fed lib filter_output b _ (step-IsQuiet b s)

  -- Once the reader has returned, nothing more is handed on.
  stopped-Same :
      (b : Bridge F) (s : Step)
      → b.reading ≡ false
      → Same b (bridge_step lib filter_output b s) × (accepted lib filter_output b s ≡ [])
  unfolding bridge_step IsQuiet
  stopped-Same b (controller_line line w w') h = line_at b b.reading h
    where
      line_at :
          (b : Bridge F) (r : Bool)
          → r ≡ false
          → Same b (if r then read_line lib filter_output b line w w' else b)
            × ((if r then accepted_line lib filter_output b line else []) ≡ [])
      line_at b true e = ground arith
      line_at b false e = (Same-refl b, refl)
  stopped-Same b s h = (step-IsQuiet b s, refl)

  run_stopped-Same :
      (b : Bridge F) (ss : List Step)
      → b.reading ≡ false
      → Same b (bridge_run lib filter_output b ss) × (accepted_run lib filter_output b ss ≡ [])
  unfolding bridge_run accepted_run
  run_stopped-Same b [] h = (Same-refl b, refl)
  run_stopped-Same b (s ∷ ss) h =
      let b' = bridge_step lib filter_output b s in
      let (same, none_here) = stopped-Same b s h in
      let (same', none_later) =
        run_stopped-Same (bridge_step lib filter_output b s) ss (still b b' h same) in
      (Same-trans b b' _ same same', rw (none_here, none_later) refl)
    where
      still : (b b' : Bridge F) → b.reading ≡ false → Same b b' → b'.reading ≡ false
      still b b' h same = elim (Bool-cases b'.reading) [
        | inl e ↦ ground (arith, h, same.was_reading e)
        | inr e ↦ e
      ]

  compose_reading :
      (a b c : Bridge F) (ps qs : List Str)
      → b.reading ≡ true
      → Feeds a b ps
      → Feeds b c qs
      → Feeds a c (ps ++ qs)
  compose_reading a b c ps qs e h k = record {
    lost = k.lost;
    shown_grows =
        k.shown_grows
        ∙ ap (λ z. z ++ (filter_all lib filter_output b.filter qs).1)
            (sym (append-nil (all_out b))
              ∙ ap (λ z. all_out b ++ z) (sym (h.none_lost e))
              ∙ h.shown_grows)
        ∙ append_assoc (all_out a) (filter_all lib filter_output a.filter ps).1
            (filter_all lib filter_output b.filter qs).1
        ∙ ap
            (λ z.
              all_out a
              ++ ((filter_all lib filter_output a.filter ps).1
                  ++ (filter_all lib filter_output z qs).1))
            h.filter_next
        ∙ ap (λ (z : F × Str). all_out a ++ z.1)
            (sym (filter_all-append lib filter_output a.filter ps qs));
    none_lost = k.none_lost;
    filter_next =
        k.filter_next
        ∙ ap (λ z. (filter_all lib filter_output z qs).0) h.filter_next
        ∙ ap (λ (z : F × Str). z.0) (sym (filter_all-append lib filter_output a.filter ps qs));
  }

  compose_stopped :
      (a b c : Bridge F) (ps : List Str)
      → b.reading ≡ false
      → Same b c
      → Feeds a b ps
      → Feeds a c (ps ++ [])
  compose_stopped a b c ps e s h =
      subst (λ z. Feeds a c z) (sym (append-nil ps))
        (record {
          lost = h.lost;
          shown_grows = ap (λ z. z ++ h.lost) s.shown_same ∙ h.shown_grows;
          none_lost = λ r. h.none_lost (s.was_reading r);
          filter_next = s.filter_same ∙ h.filter_next;
        })

  run-Feeds :
      (b : Bridge F) (ss : List Step)
      → Feeds b (bridge_run lib filter_output b ss) (accepted_run lib filter_output b ss)
  unfolding bridge_run accepted_run
  run-Feeds b [] = none-Fed lib filter_output b b (Same-refl b)
  run-Feeds b (s ∷ ss) =
      let b' = bridge_step lib filter_output b s in
      let ps = accepted lib filter_output b s in
      elim (Bool-cases b'.reading) [
        | inl e ↦
            compose_reading b b' _ ps _ e (step-Fed b s)
              (run-Feeds (bridge_step lib filter_output b s) ss)
        | inr e ↦
            let (same, none_later) = run_stopped-Same b' ss e in
            subst (λ z. Feeds b (bridge_run lib filter_output b' ss) (ps ++ z)) (sym none_later)
              (compose_stopped b b' _ ps e same (step-Fed b s))
      ]

module _ (lib : Codec) where
  filter_all-filter_chunks :
      (f : AnsiFilter) (ps : List Str) → filter_all lib filter f ps ≡ filter_chunks f ps
  unfolding filter_all filter_chunks
  filter_all-filter_chunks f [] = refl
  filter_all-filter_chunks f (p ∷ ps) = rw (filter_all-filter_chunks (filter f p).0 ps) refl

  -- In every order in which the goroutines run, what the bridge has put into the channel to the
  -- browser begins, byte for byte and in order, the output of one run of the terminal filter over the
  -- joined payloads of the frames accepted from the controller, and is all of it as long as the
  -- controller is still read.
  pub bridge_run-flatten :
      (o : Options) (f : AnsiFilter) (ss : List Step)
      → (lost : Str) × (all_out (bridge_run lib filter (new_bridge o f) ss) ++ lost
          ≡ (filter f (flatten (accepted_run lib filter (new_bridge o f) ss))).1)
        × ((bridge_run lib filter (new_bridge o f) ss).reading ≡ true → lost ≡ [])
  unfolding new_bridge
  bridge_run-flatten o f ss =
      let fed = run-Feeds lib filter (new_bridge o f) ss in
      let ps = accepted_run lib filter (new_bridge o f) ss in
      (
        fed.lost,
        fed.shown_grows
            ∙ ap (λ (z : AnsiFilter × Str). z.1) (filter_all-filter_chunks f ps)
            ∙ (filter_chunks-flatten f ps).1,
        fed.none_lost,
      )

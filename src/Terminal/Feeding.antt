-- ===== src/Terminal/Feeding.antt =====
-- What each goroutine of the bridge of internal/terminal/bridge.go hands to the filter, and on to the
-- browser.
use herdr_phone.Base.{
  ℕ, ◌==◌, is_positive, List, [], ◌∷◌, ◌++◌, ◌≡◌, ◌∙◌, sym, ap, inl, inr, refl, Bool, true, false,
  not, ◌&&◌, ◌||◌, Option, none, some, arith, ltb, Str, bytes, str_eq, if◌then◌else◌, if_both,
  Bool-cases, length, append-nil, append_assoc, subst,
}
use herdr_phone.Terminal.Protocol.{
  ControllerRecord, ControllerCommand, BrowserCommand, ServerMessage, resized, pong, Codec, Event,
  decode_bytes, is_conflict,
}
use herdr_phone.Terminal.Channels.{
  binary, Wait, got_room, timed_out, session_done, Bridge, log, set_close, write_one, put,
  send_text, enqueue, send_stdin, stop_reading, stop_browsing, cancel, in_range,
}
use herdr_phone.Terminal.Bridge.{
  Step, controller_line, forward, handle_payload, is_stale, handle_frame, handle_controller_closed,
  go_on, handle_record, read_line, handle_input, handle_scroll, handle_resize, handle_command,
  taken, ticked, bridge_step,
}
use herdr_phone.Terminal.Shown.{
  all_out, Same, Grows, set_close-Same, send_text-Same, send_stdin-Same, write_one-Same, Same-refl,
  Same-trans, Same-Grows, after-Same, stopped, stop_reading-Same, put-Grows,
}

module _ {F : Type 0} (lib : Codec) (filter_output : F → Str → F × Str) where
  -- The payloads that a frame, a record, a line and a step hand to the filter: those of the frames
  -- that are in order, decode, and are within the limit.
  abbrev accepted_payload : ℕ → Option Str → List Str
  accepted_payload limit none = []
  accepted_payload limit (some raw) = if ltb limit (length raw) then [] else raw ∷ []

  abbrev accepted_record : Bridge F → Option ControllerRecord → List Str
  accepted_record b none = []
  accepted_record b (some rec) =
      if str_eq rec.type (bytes "terminal.frame")
      then (if is_stale lib filter_output b rec.seq
          then []
          else accepted_payload b.opts.max_output_frame_bytes (decode_bytes lib rec))
      else []

  abbrev pub accepted_line : Bridge F → Str → List Str
  accepted_line b [] = []
  accepted_line b (c ∷ line) = accepted_record b (lib.read_record (c ∷ line))

  abbrev pub accepted : Bridge F → Step → List Str
  accepted b (controller_line line w w') = if b.reading then accepted_line b line else []
  accepted b s = []

  unfoldable pub accepted_run : Bridge F → List Step → List Str
  accepted_run b [] = []
  accepted_run b (s ∷ ss) = accepted b s ++ accepted_run (bridge_step lib filter_output b s) ss

  -- The filter over several payloads, its outputs joined.
  unfoldable pub filter_all : F → List Str → F × Str
  filter_all f [] = (f, [])
  filter_all f (p ∷ ps) =
      let (f', out) = filter_output f p in let (f'', rest) = filter_all f' ps in (f'', out ++ rest)

  pub filter_all-append :
      (f : F) (ps qs : List Str)
      → filter_all f (ps ++ qs) ≡ (
        (filter_all (filter_all f ps).0 qs).0,
        (filter_all f ps).1 ++ (filter_all (filter_all f ps).0 qs).1,
      )
  unfolding filter_all
  filter_all-append f [] qs = refl
  filter_all-append f (p ∷ ps) qs =
      rw (filter_all-append (filter_output f p).0 ps qs) (rw append_assoc refl)

  -- What a step that hands the payloads `ps` to the filter does.
  abbrev pub Fed : Bridge F → Bridge F → List Str → Type 0
  Fed b b' ps = Grows b b' (filter_all b.filter ps).0 (filter_all b.filter ps).1

  pub none-Fed : (b b' : Bridge F) → Same b b' → Fed b b' []
  unfolding filter_all
  none-Fed b b' h = Same-Grows b b' h

  enqueue-Grows :
      (b : Bridge F) (d : Str) (w : Wait)
      → Grows b (go_on lib filter_output (enqueue b d w)) b.filter d
  unfolding enqueue
  enqueue-Grows b d session_done = stopped b d b (Same-refl b)
  enqueue-Grows b d timed_out =
      if_both (λ (r : Bridge F × Bool). Grows b (go_on lib filter_output r) b.filter d)
        (ltb (length b.out) b.opts.out_queue) (λ _. put-Grows b b d (Same-refl b))
        (λ _.
          stopped b d _ (Same-trans b (log b _) _ (ground arith) (set_close-Same (log b _) _ _ _)))
  enqueue-Grows b d got_room =
      if_both (λ (r : Bridge F). Grows b (put r (binary d)) b.filter d)
        (ltb (length b.out) b.opts.out_queue) (λ _. put-Grows b b d (Same-refl b))
        (λ _. put-Grows b (write_one b) d (write_one-Same b))

  quiet-Grows : (b : Bridge F) (d : Str) → ltb 0 (length d) ≡ false → Grows b b b.filter d
  quiet-Grows b [] h = Same-Grows b b (Same-refl b)
  quiet-Grows b (c ∷ d) h = ground arith

  forward-Fed :
      (b : Bridge F) (rec : ControllerRecord) (raw : Str) (w w' : Wait)
      → Fed b (go_on lib filter_output (forward lib filter_output b rec raw w w')) (raw ∷ [])
  unfolding forward filter_all
  forward-Fed b rec raw w w' =
      let f = (filter_output b.filter raw).0 in
      let filtered = (filter_output b.filter raw).1 in
      let b1 = record b { filter = f } in
      let b2 =
        if rec.full || is_positive rec.width || is_positive rec.height
        then send_text b1 (resized rec.width rec.height rec.full rec.seq) w
        else b1 in
      let s2 : Same b1 b2 =
        if_both (Same b1) (rec.full || is_positive rec.width || is_positive rec.height)
          (λ _. send_text-Same b1 _ w) (λ _. Same-refl b1) in
      let grown : Grows b1
          (go_on lib filter_output
            (if ltb 0 (length filtered) then enqueue b2 filtered w' else (b2, true)))
          f filtered =
        if_both (λ (r : Bridge F × Bool). Grows b1 (go_on lib filter_output r) f filtered)
          (ltb 0 (length filtered))
          (λ _. next_filter b2 _ f filtered s2.filter_same b1 s2 (enqueue-Grows b2 filtered w'))
          (λ e. next_filter b2 _ f filtered s2.filter_same b1 s2 (quiet-Grows b2 filtered e)) in
      record {
        lost = grown.lost;
        shown_grows = grown.shown_grows ∙ ap (λ z. all_out b ++ z) (sym (append-nil filtered));
        none_lost = grown.none_lost;
        filter_next = grown.filter_next;
      }
    where
      next_filter :
          (b2 c : Bridge F) (f : F) (d : Str)
          → b2.filter ≡ f
          → (b1 : Bridge F) → Same b1 b2
          → Grows b2 c b2.filter d
          → Grows b1 c f d
      next_filter b2 c f d e b1 s g = after-Same b1 b2 c f d s (subst (λ z. Grows b2 c z d) e g)

  payload-Fed :
      (b : Bridge F) (rec : ControllerRecord) (o : Option Str) (w w' : Wait)
      → Fed b
          (go_on lib filter_output (handle_payload lib filter_output b rec o w w'))
          (accepted_payload b.opts.max_output_frame_bytes o)
  unfolding handle_payload
  payload-Fed b rec none w w' = none-Fed b _ (ground arith)
  payload-Fed b rec (some raw) w w' =
      elim (Bool-cases (ltb b.opts.max_output_frame_bytes (length raw))) [
        | inl e ↦ rw e (none-Fed b _ (stop_reading-Same b _ (set_close-Same b _ _ _)))
        | inr e ↦ rw e (forward-Fed b rec raw w w')
      ]

  frame-Fed :
      (b : Bridge F) (rec : ControllerRecord) (w w' : Wait)
      → Fed b (go_on lib filter_output (handle_frame lib filter_output b rec w w')) (
          if is_stale lib filter_output b rec.seq
          then []
          else accepted_payload b.opts.max_output_frame_bytes (decode_bytes lib rec))
  unfolding handle_frame
  frame-Fed b rec w w' = elim (Bool-cases (is_stale lib filter_output b rec.seq)) [
    | inl e ↦ rw e (
        none-Fed b _ (
          stop_reading-Same b _
            (Same-trans b (log b _) _ (ground arith) (set_close-Same (log b _) _ _ _))))
    | inr e ↦ rw e (
        again b (record b { have_seq = true; last_seq = rec.seq }) _ _ refl refl
          (payload-Fed (record b { have_seq = true; last_seq = rec.seq }) rec (decode_bytes lib rec)
            w w'))
  ]
    where
      again :
          (b b1 c : Bridge F) (ps : List Str)
          → all_out b1 ≡ all_out b
          → b1.filter ≡ b.filter
          → Fed b1 c ps
          → Fed b c ps
      again b b1 c ps e e' h = ground arith

  logged_close-Same :
      (b : Bridge F) (event : Event) (code : ℕ) (reason : Str) (final : Option ServerMessage)
      → Same b (set_close (log b event) code reason final)
  logged_close-Same b event code reason final =
      Same-trans b (log b event) _ (ground arith) (set_close-Same (log b event) code reason final)

  -- The records that are no frame.
  other-Same :
      (b : Bridge F) (rec : ControllerRecord)
      → Same b (
          if str_eq rec.type (bytes "terminal.closed")
          then stop_reading (handle_controller_closed lib filter_output b rec.reason)
          else b)
  unfolding handle_controller_closed
  other-Same b rec =
      if_both (Same b) (str_eq rec.type (bytes "terminal.closed"))
        (λ _.
          if_both (λ (r : Bridge F). Same b (stop_reading r)) (is_conflict lib rec.reason)
            (λ _. stop_reading-Same b _ (logged_close-Same b _ _ _ _))
            (λ _. stop_reading-Same b _ (logged_close-Same b _ _ _ _)))
        (λ _. Same-refl b)

  record-Fed :
      (b : Bridge F) (o : Option ControllerRecord) (w w' : Wait)
      → Fed b (handle_record lib filter_output b o w w') (accepted_record b o)
  unfolding handle_record
  record-Fed b none w w' = none-Fed b _ (ground arith)
  record-Fed b (some rec) w w' = elim (Bool-cases (str_eq rec.type (bytes "terminal.frame"))) [
    | inl e ↦ rw e (frame-Fed b rec w w')
    | inr e ↦ rw e (none-Fed b _ (other-Same b rec))
  ]

  pub line-Fed :
      (b : Bridge F) (line : Str) (w w' : Wait)
      → Fed b (read_line lib filter_output b line w w') (accepted_line b line)
  unfolding read_line
  line-Fed b [] w w' = none-Fed b b (Same-refl b)
  line-Fed b (c ∷ line) w w' = record-Fed b (lib.read_record (c ∷ line)) w w'

  pub stop_browsing-Same : (b b' : Bridge F) → Same b b' → Same b (stop_browsing b')
  stop_browsing-Same b b' h = ground arith

  pub cancel-Same : (b b' : Bridge F) → Same b b' → Same b (cancel b')
  cancel-Same b b' h = ground arith

  logged_stdin-Same :
      (b : Bridge F) (event : Event) (c : ControllerCommand) (w : Wait)
      → Same b (send_stdin (log b event) c w)
  logged_stdin-Same b event c w =
      Same-trans b (log b event) _ (ground arith) (send_stdin-Same (log b event) c w)

  pub input-Same :
      (b : Bridge F) (d : Str) (w : Wait) → Same b (handle_input lib filter_output b d w)
  unfolding handle_input
  input-Same b d w =
      if_both (Same b) (ltb b.opts.max_input_bytes (length d))
        (λ _. stop_browsing-Same b _ (logged_close-Same b _ _ _ _))
        λ _. if_both (Same b) (length d == 0) (λ _. Same-refl b) (λ _. logged_stdin-Same b _ _ w)

  pub command-Same :
      (b : Bridge F) (o : Option BrowserCommand) (w : Wait)
      → Same b (handle_command lib filter_output b o w)
  unfolding handle_command handle_resize handle_scroll
  command-Same b none w = ground arith
  command-Same b (some c) w =
      if_both (Same b) (str_eq c.type (bytes "resize"))
        (λ _.
          if_both (Same b) (not (in_range c.cols && in_range c.rows)) (λ _. ground arith)
            (λ _. ground arith))
        λ _.
          if_both (Same b) (str_eq c.type (bytes "scroll"))
            (λ _.
              if_both (Same b)
                (not (str_eq c.direction (bytes "up")) && not (str_eq c.direction (bytes "down")))
                (λ _. Same-refl b) (λ _. logged_stdin-Same b _ _ w))
            λ _.
              if_both (Same b) (str_eq c.type (bytes "release")) (λ _. logged_stdin-Same b _ _ w)
                λ _.
                  if_both (Same b) (str_eq c.type (bytes "ping")) (λ _. send_text-Same b pong w)
                    (λ _. Same-refl b)

  pub taken-Same : (b : Bridge F) (o : Option BrowserCommand) → Same b (taken lib filter_output o b)
  taken-Same b none = Same-refl b
  taken-Same b (some c) = ground arith

  pub ticked-Same :
      (b : Bridge F) (o : Option ControllerCommand) (w : Wait)
      → Same b (ticked lib filter_output o b w)
  ticked-Same b none w = Same-refl b
  ticked-Same b (some c) w =
      Same-trans b (send_stdin b c w) _ (send_stdin-Same b c w) (ground arith)

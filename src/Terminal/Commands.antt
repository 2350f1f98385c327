-- ===== src/Terminal/Commands.antt =====
-- What reaches the controller's stdin from a browser through the bridge of
-- internal/terminal/bridge.go, and how much waits in its channels.
use herdr_phone.Base.{
  All, Any, inl, inr, ℕ, ◌≤◌, ◌==◌, ℤ, pos, negsuc, is_positive, to_nat, List, [], ◌∷◌, ◌≡◌, ◌⊎◌,
  refl, Bool, true, false, not, ◌&&◌, ◌||◌, Option, none, some, arith, ltb, Str, bytes, str_eq,
  str_eq_iff, if◌then◌else◌, if_both, length,
}
use herdr_phone.Terminal.Protocol.{
  ControllerRecord, ControllerCommand, input, release, BrowserCommand, resized, Codec, Options,
  apply_defaults, decode_bytes, is_conflict,
}
use herdr_phone.Terminal.Channels.{
  Wait, Bridge, new_bridge, stdin_one, send_text, stop_reading, stop_browsing, cancel, scroll_lines,
}
use herdr_phone.Terminal.Bridge.{
  Step, controller_line, controller_eof, write_out, write_failed, write_stdin, stdin_failed,
  take_resize, resize_tick, browser_binary, browser_text, browser_gone, ping_failed, forward,
  handle_payload, is_stale, handle_frame, handle_controller_closed, go_on, handle_record, read_line,
  handle_input, handle_scroll, handle_resize, handle_command, taken, ticked, bridge_step,
  bridge_run,
}
use herdr_phone.Terminal.Queues.{
  IsSafeCommand, OptAll, IsSafeResize, IsSafe, set_close-IsSafe, write_one-IsSafe, stdin_one-IsSafe,
  send_text-IsSafe, enqueue-IsSafe, send_stdin-IsSafe,
}

module _ {F : Type 0} (lib : Codec) (filter_output : F → Str → F × Str) (limit : ℕ) (cap : ℕ)
    (sent : Str → Type 0) where
  abbrev Safe : Bridge F → Type 0
  Safe = IsSafe lib limit cap sent

  forward-IsSafe :
      (b : Bridge F) (rec : ControllerRecord) (raw : Str) (w w' : Wait)
      → Safe b
      → Safe (forward lib filter_output b rec raw w w').0
  unfolding forward
  forward-IsSafe b rec raw w w' h =
      let f = (filter_output b.filter raw).0 in
      let filtered = (filter_output b.filter raw).1 in
      let b1 = record b { filter = f } in
      let s1 : Safe b1 = ground arith in
      let b2 =
        if rec.full || is_positive rec.width || is_positive rec.height
        then send_text b1 (resized rec.width rec.height rec.full rec.seq) w
        else b1 in
      let s2 : Safe b2 =
        if_both Safe (rec.full || is_positive rec.width || is_positive rec.height)
          (λ _. send_text-IsSafe lib limit cap sent b1 _ w s1) (λ _. s1) in
      if_both (λ (r : Bridge F × Bool). Safe r.0) (ltb 0 (length filtered))
        (λ _. enqueue-IsSafe lib limit cap sent b2 filtered w' s2) (λ _. s2)

  handle_payload-IsSafe :
      (b : Bridge F) (rec : ControllerRecord) (o : Option Str) (w w' : Wait)
      → Safe b
      → Safe (handle_payload lib filter_output b rec o w w').0
  unfolding handle_payload
  handle_payload-IsSafe b rec none w w' h = ground arith
  handle_payload-IsSafe b rec (some raw) w w' h =
      if_both (λ (r : Bridge F × Bool). Safe r.0) (ltb b.opts.max_output_frame_bytes (length raw))
        (λ _. set_close-IsSafe lib limit cap sent b _ _ _ h) (λ _. forward-IsSafe b rec raw w w' h)

  handle_frame-IsSafe :
      (b : Bridge F) (rec : ControllerRecord) (w w' : Wait)
      → Safe b
      → Safe (handle_frame lib filter_output b rec w w').0
  unfolding handle_frame
  handle_frame-IsSafe b rec w w' h =
      if_both (λ (r : Bridge F × Bool). Safe r.0) (is_stale lib filter_output b rec.seq)
        (λ _. set_close-IsSafe lib limit cap sent _ _ _ _ (ground arith))
        (λ _. handle_payload-IsSafe _ rec (decode_bytes lib rec) w w' (ground arith))

  go_on-IsSafe : (r : Bridge F × Bool) → Safe r.0 → Safe (go_on lib filter_output r)
  go_on-IsSafe (b, true) h = h
  go_on-IsSafe (b, false) h = ground arith

  handle_record-IsSafe :
      (b : Bridge F) (o : Option ControllerRecord) (w w' : Wait)
      → Safe b
      → Safe (handle_record lib filter_output b o w w')
  unfolding handle_record handle_controller_closed
  handle_record-IsSafe b none w w' h = ground arith
  handle_record-IsSafe b (some rec) w w' h =
      if_both Safe (str_eq rec.type (bytes "terminal.frame"))
        (λ _. go_on-IsSafe _ (handle_frame-IsSafe b rec w w' h))
        λ _.
          if_both Safe (str_eq rec.type (bytes "terminal.closed"))
            (λ _.
              if_both (λ (r : Bridge F). Safe (stop_reading r)) (is_conflict lib rec.reason)
                (λ _. stopped _ (set_close-IsSafe lib limit cap sent _ _ _ _ (ground arith)))
                (λ _. stopped _ (set_close-IsSafe lib limit cap sent _ _ _ _ (ground arith))))
            (λ _. h)
    where
      stopped : (r : Bridge F) → Safe r → Safe (stop_reading r)
      stopped r k = ground arith

  stop_browsing-IsSafe : (b : Bridge F) → Safe b → Safe (stop_browsing b)
  stop_browsing-IsSafe b h = ground arith

  cancel-IsSafe : (b : Bridge F) → Safe b → Safe (cancel b)
  cancel-IsSafe b h = ground arith

  handle_input-IsSafe :
      (b : Bridge F) (d : Str) (w : Wait)
      → sent d
      → Safe b
      → Safe (handle_input lib filter_output b d w)
  unfolding handle_input
  handle_input-IsSafe b d w from h =
      if_both Safe (ltb b.opts.max_input_bytes (length d))
        (λ _. stop_browsing-IsSafe _ (set_close-IsSafe lib limit cap sent _ _ _ _ (ground arith)))
        λ small.
          if_both Safe (length d == 0) (λ _. h)
            λ full.
              send_stdin-IsSafe lib limit cap sent _ (input (lib.encode64 d)) w
                (d, from, refl, ground arith, ground (arith, h.limit_set)) (ground arith)

  scroll_lines-bounds :
      (n : ℤ) → (is_positive (scroll_lines n) ≡ true) × (to_nat (scroll_lines n) ≤ 10_000)
  unfolding scroll_lines
  scroll_lines-bounds (pos n) = ground arith
  scroll_lines-bounds (negsuc n) = ground arith

  up_or_down :
      (d : Str)
      → (not (str_eq d (bytes "up")) && not (str_eq d (bytes "down"))) ≡ false
      → (d ≡ bytes "up") ⊎ (d ≡ bytes "down")
  up_or_down d h = ground (arith, h, str_eq_iff d (bytes "up"), str_eq_iff d (bytes "down"))

  handle_scroll-IsSafe :
      (b : Bridge F) (c : BrowserCommand) (w : Wait)
      → Safe b
      → Safe (handle_scroll lib filter_output b c w)
  unfolding handle_scroll
  handle_scroll-IsSafe b c w h =
      if_both Safe
        (not (str_eq c.direction (bytes "up")) && not (str_eq c.direction (bytes "down"))) (λ _. h)
        λ known.
          send_stdin-IsSafe lib limit cap sent _ _ w
            (
              up_or_down c.direction known,
              (scroll_lines-bounds c.lines).0,
              (scroll_lines-bounds c.lines).1,
            )
            (ground arith)

  handle_resize-IsSafe :
      (b : Bridge F) (c : BrowserCommand) → Safe b → Safe (handle_resize lib filter_output b c)
  unfolding handle_resize
  handle_resize-IsSafe b c h = ground arith

  handle_command-IsSafe :
      (b : Bridge F) (o : Option BrowserCommand) (w : Wait)
      → Safe b
      → Safe (handle_command lib filter_output b o w)
  unfolding handle_command
  handle_command-IsSafe b none w h = ground arith
  handle_command-IsSafe b (some c) w h =
      if_both Safe (str_eq c.type (bytes "resize")) (λ _. handle_resize-IsSafe b c h)
        λ _.
          if_both Safe (str_eq c.type (bytes "scroll")) (λ _. handle_scroll-IsSafe b c w h)
            λ _.
              if_both Safe (str_eq c.type (bytes "release"))
                (λ _. send_stdin-IsSafe lib limit cap sent _ release w tt (ground arith))
                λ _.
                  if_both Safe (str_eq c.type (bytes "ping"))
                    (λ _. send_text-IsSafe lib limit cap sent b _ w h) (λ _. h)

  taken-IsSafe :
      (b : Bridge F) (o : Option BrowserCommand)
      → OptAll IsSafeResize o
      → Safe b
      → Safe (taken lib filter_output o b)
  taken-IsSafe b none k h = h
  taken-IsSafe b (some c) k h = ground arith

  ticked-IsSafe :
      (b : Bridge F) (o : Option ControllerCommand) (w : Wait)
      → OptAll (IsSafeCommand lib limit sent) o
      → Safe b
      → Safe (ticked lib filter_output o b w)
  ticked-IsSafe b none w k h = h
  ticked-IsSafe b (some c) w k h = idle _ (send_stdin-IsSafe lib limit cap sent b c w k h)
    where
      idle : (r : Bridge F) → Safe r → Safe (record r { pending = none })
      idle r s = ground arith

  read_line-IsSafe :
      (b : Bridge F) (line : Str) (w w' : Wait)
      → Safe b
      → Safe (read_line lib filter_output b line w w')
  unfolding read_line
  read_line-IsSafe b [] w w' h = h
  read_line-IsSafe b (c ∷ line) w w' h = handle_record-IsSafe b _ w w' h

  stopped-IsSafe : (b : Bridge F) → Safe b → Safe (stop_reading b)
  stopped-IsSafe b h = ground arith

  -- The input of a step is one that was sent.
  IsFrom : Step → Type 0
  IsFrom (browser_binary d w) = sent d
  IsFrom _ = Unit

  bridge_step-IsSafe :
      (b : Bridge F) (s : Step) → IsFrom s → Safe b → Safe (bridge_step lib filter_output b s)
  unfolding bridge_step IsFrom
  bridge_step-IsSafe b (controller_line line w w') from h =
      if_both Safe b.reading (λ _. read_line-IsSafe b line w w' h) (λ _. h)
  bridge_step-IsSafe b controller_eof from h =
      if_both Safe b.reading (λ _. stopped-IsSafe _ (set_close-IsSafe lib limit cap sent b _ _ _ h))
        (λ _. h)
  bridge_step-IsSafe b write_out from h = write_one-IsSafe lib limit cap sent b h
  bridge_step-IsSafe b write_failed from h =
      cancel-IsSafe _ (write_one-IsSafe lib limit cap sent b h)
  bridge_step-IsSafe b write_stdin from h = stdin_one-IsSafe lib limit cap sent b h
  bridge_step-IsSafe b stdin_failed from h = cancel-IsSafe _ (
      set_close-IsSafe lib limit cap sent (stdin_one b) _ _ _
        (stdin_one-IsSafe lib limit cap sent b h))
  bridge_step-IsSafe b take_resize from h = taken-IsSafe b b.resizes h.resizes_safe h
  bridge_step-IsSafe b (resize_tick w) from h = ticked-IsSafe b b.pending w h.pending_safe h
  bridge_step-IsSafe b (browser_binary d w) from h =
      if_both Safe b.browsing (λ _. handle_input-IsSafe b d w from h) (λ _. h)
  bridge_step-IsSafe b (browser_text d w) from h =
      if_both Safe b.browsing (λ _. handle_command-IsSafe b _ w h) (λ _. h)
  bridge_step-IsSafe b browser_gone from h =
      if_both Safe b.browsing
        (λ _. stop_browsing-IsSafe _ (set_close-IsSafe lib limit cap sent b _ _ _ h)) (λ _. h)
  bridge_step-IsSafe b ping_failed from h =
      cancel-IsSafe _ (set_close-IsSafe lib limit cap sent b _ _ _ h)

  run_from-IsSafe :
      (b : Bridge F) (ss : List Step)
      → All IsFrom ss
      → Safe b
      → Safe (bridge_run lib filter_output b ss)
  unfolding bridge_run
  run_from-IsSafe b [] from h = h
  run_from-IsSafe b (s ∷ ss) from h =
      run_from-IsSafe (bridge_step lib filter_output b s) ss from.1
        (bridge_step-IsSafe b s from.0 h)

-- What the browser sends in a turn, and in any of some turns.
abbrev pub IsSentBy : Str → Step → Type 0
IsSentBy d (browser_binary e w) = e ≡ d
IsSentBy d _ = ⊥

abbrev pub IsSentIn : List Step → Str → Type 0
IsSentIn ss d = Any (IsSentBy d) ss

module _ {F : Type 0} (lib : Codec) (filter_output : F → Str → F × Str) where
  sent_by :
      (limit cap : ℕ) (sent : Str → Type 0) (s : Step)
      → ((d : Str) → IsSentBy d s → sent d)
      → IsFrom lib filter_output limit cap sent s
  unfolding IsFrom
  sent_by limit cap sent (browser_binary d w) h = h d refl
  sent_by limit cap sent _ h = tt

  steps_sent :
      (limit cap : ℕ) (sent : Str → Type 0) (ss : List Step)
      → ((d : Str) → IsSentIn ss d → sent d)
      → All (IsFrom lib filter_output limit cap sent) ss
  steps_sent limit cap sent [] h = tt
  steps_sent limit cap sent (s ∷ ss) h = (
    sent_by limit cap sent s (λ d k. h d (inl k)),
    steps_sent limit cap sent ss (λ d k. h d (inr k)),
  )

  new_bridge-IsSafe :
      (o : Options) (f : F) (sent : Str → Type 0)
      → IsSafe lib
          (apply_defaults o).max_input_bytes
          (apply_defaults o).out_queue
          sent
          (new_bridge o f)
  unfolding new_bridge
  new_bridge-IsSafe o f sent = ground arith

  -- From the start of a bridge, in every order in which its goroutines run: at most `OutQueue`
  -- messages wait for the browser and at most 64 commands for the controller. Every command for the
  -- controller, waiting or taken by the writer, is an input that the browser sent in one of the turns,
  -- not empty and at most `MaxInputBytes` long; a resize to between 1 and 10,000 columns and rows; a
  -- scroll up or down by between 1 and 10,000 lines; or a release.
  pub bridge_run-IsSafe :
      (o : Options) (f : F) (ss : List Step)
      → IsSafe lib
          (apply_defaults o).max_input_bytes
          (apply_defaults o).out_queue
          (IsSentIn ss)
          (bridge_run lib filter_output (new_bridge o f) ss)
  bridge_run-IsSafe o f ss =
      run_from-IsSafe lib filter_output _ _ (IsSentIn ss) (new_bridge o f) ss
        (steps_sent _ _ (IsSentIn ss) ss (λ d k. k)) (new_bridge-IsSafe o f (IsSentIn ss))

-- ===== src/Terminal/Bridge.antt =====
-- The goroutines of internal/terminal/bridge.go. A `Step` is one turn of the loop of one of them, so
-- that a list of steps is one order in which they ran; some lists are orders that the code does not
-- have, such as turns of a writer that has failed. The filter is the section's parameter: its
-- state, and `FilterOutput`.
use herdr_phone.Base.{
  ℕ, is_positive, List, [], ◌∷◌, Bool, true, false, not, ◌&&◌, ◌||◌, Option, none, some, ltb, leb,
  ◌==◌, Str, bytes, str_eq, if◌then◌else◌, length,
}
use herdr_phone.Terminal.Protocol.{
  ControllerRecord, ControllerCommand, input, resize, scroll, release, BrowserCommand, pong, closed,
  conflict, resized, Codec, event_input, event_resize, event_scroll, event_release, event_closed,
  event_conflict, event_protocol, close_normal, close_going_away, close_policy,
  close_internal_error, decode_bytes, parse_browser_command, is_conflict,
}
use herdr_phone.Terminal.Channels.{
  Wait, Bridge, log, set_close, write_one, stdin_one, send_text, enqueue, send_stdin, stop_reading,
  stop_browsing, cancel, in_range, scroll_lines, source_or_wheel,
}

pub data Step : Type 0 where
  controller_line : Str → Wait → Wait → Step
  controller_eof : Step
  write_out write_failed : Step
  write_stdin stdin_failed : Step
  take_resize : Step
  resize_tick : Wait → Step
  browser_binary : Str → Wait → Step
  browser_text : Str → Wait → Step
  browser_gone : Step
  ping_failed : Step

module _ {F : Type 0} (lib : Codec) (filter_output : F → Str → F × Str) where
  -- `handleFrame` once the payload is decoded and within its limit.
  unfoldable pub forward : Bridge F → ControllerRecord → Str → Wait → Wait → Bridge F × Bool
  forward b rec raw w w' =
      let (f, filtered) = filter_output b.filter raw in
      let b1 = record b { filter = f } in
      let b2 =
        if rec.full || is_positive rec.width || is_positive rec.height
        then send_text b1 (resized rec.width rec.height rec.full rec.seq) w
        else b1 in
      if ltb 0 (length filtered) then enqueue b2 filtered w' else (b2, true)

  unfoldable pub handle_payload :
      Bridge F → ControllerRecord → Option Str → Wait → Wait → Bridge F × Bool
  handle_payload b rec none w w' = (log b (event_protocol (bytes "bad base64 frame")), true)
  handle_payload b rec (some raw) w w' =
      if ltb b.opts.max_output_frame_bytes (length raw)
      then (
        set_close b close_policy (bytes "frame exceeds output limit")
            (some (closed (bytes "frame exceeds output limit"))),
        false,
      )
      else forward b rec raw w w'

  abbrev pub is_stale : Bridge F → ℕ → Bool
  is_stale b seq = b.have_seq && leb seq b.last_seq

  unfoldable pub handle_frame : Bridge F → ControllerRecord → Wait → Wait → Bridge F × Bool
  handle_frame b rec w w' =
      if is_stale b rec.seq
      then (
        set_close (log b (event_protocol (bytes "non-monotonic sequence"))) close_policy
            (bytes "non-monotonic frame sequence")
            (some (closed (bytes "non-monotonic frame sequence"))),
        false,
      )
      else handle_payload (record b { have_seq = true; last_seq = rec.seq }) rec
          (decode_bytes lib rec) w w'

  unfoldable pub handle_controller_closed : Bridge F → Str → Bridge F
  handle_controller_closed b reason =
      if is_conflict lib reason
      then set_close (log b (event_conflict reason)) close_policy
          (bytes "terminal controlled elsewhere") (some (conflict reason))
      else set_close (log b (event_closed reason)) close_normal reason (some (closed reason))

  abbrev pub go_on : Bridge F × Bool → Bridge F
  go_on (b, true) = b
  go_on (b, false) = stop_reading b

  unfoldable pub handle_record : Bridge F → Option ControllerRecord → Wait → Wait → Bridge F
  handle_record b none w w' = log b (event_protocol (bytes "bad controller record"))
  handle_record b (some rec) w w' =
      if str_eq rec.type (bytes "terminal.frame")
      then go_on (handle_frame b rec w w')
      else if str_eq rec.type (bytes "terminal.closed")
      then stop_reading (handle_controller_closed b rec.reason)
      else b

  -- One line of `readController`; an empty line is skipped.
  unfoldable pub read_line : Bridge F → Str → Wait → Wait → Bridge F
  read_line b [] w w' = b
  read_line b (c ∷ line) w w' = handle_record b (lib.read_record (c ∷ line)) w w'

  unfoldable pub handle_input : Bridge F → Str → Wait → Bridge F
  handle_input b data' w =
      if ltb b.opts.max_input_bytes (length data')
      then stop_browsing (
          set_close (log b (event_protocol (bytes "input too large"))) close_policy
            (bytes "input too large") none)
      else if length data' == 0
      then b
      else send_stdin (log b (event_input (length data'))) (input (lib.encode64 data')) w

  unfoldable pub handle_scroll : Bridge F → BrowserCommand → Wait → Bridge F
  handle_scroll b c w =
      if not (str_eq c.direction (bytes "up")) && not (str_eq c.direction (bytes "down"))
      then b
      else let lines = scroll_lines c.lines in
        send_stdin (log b (event_scroll lines))
          (scroll c.direction lines (source_or_wheel c.source)) w

  -- `pushResize` keeps the newest.
  abbrev pub push_resize : Bridge F → BrowserCommand → Bridge F
  push_resize b c = record b { resizes = some c }

  unfoldable pub handle_resize : Bridge F → BrowserCommand → Bridge F
  handle_resize b c =
      if not (in_range c.cols && in_range c.rows)
      then log b (event_protocol (bytes "bad resize dims"))
      else push_resize (log b (event_resize c.cols c.rows)) c

  unfoldable pub handle_command : Bridge F → Option BrowserCommand → Wait → Bridge F
  handle_command b none w = log b (event_protocol (bytes "bad command"))
  handle_command b (some c) w =
      if str_eq c.type (bytes "resize")
      then handle_resize b c
      else if str_eq c.type (bytes "scroll")
      then handle_scroll b c w
      else if str_eq c.type (bytes "release")
      then send_stdin (log b event_release) release w
      else if str_eq c.type (bytes "ping")
      then send_text b pong w
      else b

  -- `resizeLoop`: a resize taken from the channel, and the tick that sends it on.
  abbrev pub taken : Option BrowserCommand → Bridge F → Bridge F
  taken none b = b
  taken (some c) b = record b {
    resizes = none;
    pending = some (resize c.cols c.rows c.cell_width_px c.cell_height_px);
  }

  abbrev pub ticked : Option ControllerCommand → Bridge F → Wait → Bridge F
  ticked none b w = b
  ticked (some c) b w = record (send_stdin b c w) { pending = none }

  unfoldable pub bridge_step : Bridge F → Step → Bridge F
  bridge_step b (controller_line line w w') = if b.reading then read_line b line w w' else b
  bridge_step b controller_eof =
      if b.reading
      then stop_reading (
          set_close b close_going_away (bytes "controller stream ended")
            (some (closed (bytes "controller stream ended"))))
      else b
  bridge_step b write_out = write_one b
  bridge_step b write_failed = cancel (write_one b)
  bridge_step b write_stdin = stdin_one b
  bridge_step b stdin_failed =
      cancel (set_close (stdin_one b) close_internal_error (bytes "controller stdin closed") none)
  bridge_step b take_resize = taken b.resizes b
  bridge_step b (resize_tick w) = ticked b.pending b w
  bridge_step b (browser_binary data' w) = if b.browsing then handle_input b data' w else b
  bridge_step b (browser_text data' w) =
      if b.browsing then handle_command b (parse_browser_command lib data') w else b
  bridge_step b browser_gone =
      if b.browsing
      then stop_browsing (set_close b close_normal (bytes "client disconnected") none)
      else b
  bridge_step b ping_failed = cancel (set_close b close_going_away (bytes "keepalive failed") none)

  unfoldable pub bridge_run : Bridge F → List Step → Bridge F
  bridge_run b [] = b
  bridge_run b (s ∷ ss) = bridge_run (bridge_step b s) ss

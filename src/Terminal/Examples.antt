-- ===== src/Terminal/Examples.antt =====
-- A bridge of internal/terminal/bridge.go over a stub of JSON and base64.
use herdr_phone.Base.{ℕ, pos, List, [], ◌∷◌, ◌++◌, ◌≡◌, true, false, none, some, Str, bytes}
use mathlib.Core.List.{flatten}
use herdr_phone.Ansi.{new_ansi_filter}
use herdr_phone.Ansi.Loop.{filter}
use herdr_phone.Ansi.Strip.{esc_byte}
use herdr_phone.Terminal.Protocol.{ControllerRecord, BrowserCommand, Codec, Options, apply_defaults}
use herdr_phone.Terminal.Channels.{got_room, new_bridge}
use herdr_phone.Terminal.Bridge.{
  Step, controller_line, write_out, browser_binary, browser_text, take_resize, resize_tick,
  controller_eof, bridge_run,
}
use herdr_phone.Terminal.Shown.{all_out}
use herdr_phone.Terminal.Queues.{IsSafe}
use herdr_phone.Terminal.Commands.{IsSentIn, bridge_run-IsSafe}
use herdr_phone.Terminal.Feeding.{accepted_run}
use herdr_phone.Terminal.Output.{bridge_run-flatten}

-- A line is the number of a frame and its payload; a browser command is a resize.
abbrev frame_of : Str → ControllerRecord
frame_of [] = record {
  type = bytes "terminal.closed";
  seq = 0;
  width = pos 0;
  height = pos 0;
  full = false;
  payload = [];
  reason = [];
}
frame_of (n ∷ p) = record {
  type = bytes "terminal.frame";
  seq = n;
  width = pos 80;
  height = pos 24;
  full = true;
  payload = p;
  reason = [];
}

abbrev resize_to : ℕ → BrowserCommand
resize_to n = record {
  type = bytes "resize";
  cols = pos n;
  rows = pos 24;
  cell_width_px = pos 8;
  cell_height_px = pos 16;
  direction = [];
  lines = pos 0;
  source = [];
}

abbrev codec : Codec
codec = record {
  read_record = λ s. some (frame_of s);
  read_command = λ s. elim s [ [] ↦ none | n ∷ r ↦ some (resize_to n) ];
  decode64 = λ s. some s;
  encode64 = λ s. s;
  to_lower = λ s. s;
}

abbrev options : Options
options = record {
  max_output_frame_bytes = 0;
  max_input_bytes = 8;
  out_queue = 3;
  ping_interval = 0;
  pong_timeout = 0;
  write_timeout = 0;
  resize_min_interval = 0;
}

-- A frame cut inside an escape sequence, the rest of it, and input and resizes between.
abbrev steps : List Step
steps =
    controller_line (1 ∷ bytes "a" ++ esc_byte ∷ bytes "[3") got_room got_room
    ∷ browser_binary (bytes "ls") got_room
    ∷ write_out
    ∷ browser_text (100 ∷ []) got_room
    ∷ take_resize
    ∷ controller_line (2 ∷ bytes "1mb") got_room got_room
    ∷ resize_tick got_room
    ∷ controller_eof
    ∷ []

bridge_run-IsSafe_example :
    IsSafe codec
      (apply_defaults options).max_input_bytes
      (apply_defaults options).out_queue
      (IsSentIn steps)
      (bridge_run codec filter (new_bridge options new_ansi_filter) steps)
bridge_run-IsSafe_example = bridge_run-IsSafe codec filter options new_ansi_filter steps

bridge_run-flatten_example :
    (lost : Str) × (all_out (bridge_run codec filter (new_bridge options new_ansi_filter) steps)
        ++ lost
      ≡ (filter new_ansi_filter
          (flatten (accepted_run codec filter (new_bridge options new_ansi_filter) steps))).1)
    × ((bridge_run codec filter (new_bridge options new_ansi_filter) steps).reading ≡ true
        → lost ≡ [])
bridge_run-flatten_example = bridge_run-flatten codec options new_ansi_filter steps

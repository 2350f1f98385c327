-- ===== src/Terminal/Channels.antt =====
-- The shared state of the bridge of internal/terminal/bridge.go and the sends on its channels. Which
-- case of a blocking `select` is taken is a `Wait`.
use herdr_phone.Base.{
  ℕ, ℤ, pos, is_positive, to_nat, List, [], ◌∷◌, ◌++◌, Bool, true, false, not, ◌&&◌, Option, none,
  some, ltb, leb, Str, bytes, if◌then◌else◌, length,
}
use herdr_phone.Terminal.Protocol.{
  ControllerCommand, BrowserCommand, ServerMessage, opened, Options, apply_defaults, Event,
  event_backpressure, close_normal, close_going_away,
}

pub data OutMsg : Type 0 where
  binary : Str → OutMsg
  text : ServerMessage → OutMsg

pub record Close : Type 0 where
  pub code : ℕ
  pub reason : Str
  pub final : Option ServerMessage

-- How a send on a full channel ended: a place came free, the timer fired, or the session was
-- cancelled. A send may also find the session cancelled while there is room.
pub data Wait : Type 0 where
  got_room timed_out session_done : Wait

-- `sent` and `written` hold what the writers have taken from the two channels; `reading` and `browsing` whether
-- `readController` and `readBrowser` still run, and `live` whether the context is not cancelled.
pub record Bridge (F : Type 0) : Type 0 where
  pub opts : Options
  pub filter : F
  pub out : List OutMsg
  pub sent : List OutMsg
  pub stdin : List ControllerCommand
  pub written : List ControllerCommand
  pub resizes : Option BrowserCommand
  pub pending : Option ControllerCommand
  pub last_seq : ℕ
  pub have_seq : Bool
  pub close : Option Close
  pub live : Bool
  pub reading : Bool
  pub browsing : Bool
  pub audit : List Event

abbrev pub stdin_capacity : ℕ
stdin_capacity = 64

abbrev pub in_range : ℤ → Bool
in_range n = is_positive n && leb (to_nat n) 10_000

-- `lines`, made 1 if it is not positive and cut at the maximum.
unfoldable pub scroll_lines : ℤ → ℤ
scroll_lines n =
    if not (is_positive n) then pos 1 else if ltb 10_000 (to_nat n) then pos 10_000 else n

-- What `finalClose` writes, and the code and reason that it closes with.
unfoldable pub final_close : Option Close → Option ServerMessage × ℕ × Str
final_close none = (none, close_normal, bytes "session ended")
final_close (some c) =
    (c.final, c.code, elim c.reason [ [] ↦ bytes "session ended" | a ∷ r ↦ a ∷ r ])

abbrev pub source_or_wheel : Str → Str
source_or_wheel [] = bytes "wheel"
source_or_wheel (a ∷ s) = a ∷ s

module _ {F : Type 0} where
  -- The bridge of `Run`, once `run` has queued the opening message.
  unfoldable pub new_bridge : Options → F → Bridge F
  unfolding apply_defaults
  new_bridge o f = record {
    opts = apply_defaults o;
    filter = f;
    out = text opened ∷ [];
    sent = [];
    stdin = [];
    written = [];
    resizes = none;
    pending = none;
    last_seq = 0;
    have_seq = false;
    close = none;
    live = true;
    reading = true;
    browsing = true;
    audit = [];
  }

  abbrev pub log : Bridge F → Event → Bridge F
  log b e = record b { audit = e ∷ b.audit }

  -- `setClose`: the first writer wins.
  unfoldable pub set_close : Bridge F → ℕ → Str → Option ServerMessage → Bridge F
  set_close b code reason final = elim b.close [
    | none ↦ record b { close = some (record { code = code; reason = reason; final = final }) }
    | some c ↦ b
  ]

  abbrev pub shift_out : List OutMsg → Bridge F → Bridge F
  shift_out [] b = b
  shift_out (m ∷ rest) b = record b { out = rest; sent = b.sent ++ m ∷ [] }

  -- One message taken by the writer.
  unfoldable pub write_one : Bridge F → Bridge F
  write_one b = shift_out b.out b

  abbrev pub shift_stdin : List ControllerCommand → Bridge F → Bridge F
  shift_stdin [] b = b
  shift_stdin (c ∷ rest) b = record b { stdin = rest; written = b.written ++ c ∷ [] }

  unfoldable pub stdin_one : Bridge F → Bridge F
  stdin_one b = shift_stdin b.stdin b

  abbrev pub put : Bridge F → OutMsg → Bridge F
  put b m = record b { out = b.out ++ m ∷ [] }

  unfoldable pub send_text : Bridge F → ServerMessage → Wait → Bridge F
  send_text b m session_done = b
  send_text b m w = if ltb (length b.out) b.opts.out_queue then put b (text m) else b

  abbrev pub too_slow : Bridge F → Str → Bridge F × Bool
  too_slow b data' = (
    set_close (log b (event_backpressure (length data'))) close_going_away (bytes "client too slow")
        none,
    false,
  )

  -- `enqueue` of a binary message. Where a place comes free, the writer has taken one.
  unfoldable pub enqueue : Bridge F → Str → Wait → Bridge F × Bool
  enqueue b data' session_done = (b, false)
  enqueue b data' timed_out =
      if ltb (length b.out) b.opts.out_queue then (put b (binary data'), true) else too_slow b data'
  enqueue b data' got_room =
      (put (if ltb (length b.out) b.opts.out_queue then b else write_one b) (binary data'), true)

  abbrev pub put_stdin : Bridge F → ControllerCommand → Bridge F
  put_stdin b c = record b { stdin = b.stdin ++ c ∷ [] }

  -- `sendStdin`, which waits as long as it must.
  unfoldable pub send_stdin : Bridge F → ControllerCommand → Wait → Bridge F
  send_stdin b c session_done = b
  send_stdin b c w = put_stdin (if ltb (length b.stdin) stdin_capacity then b else stdin_one b) c

  -- A goroutine that returns cancels the session.
  abbrev pub stop_reading : Bridge F → Bridge F
  stop_reading b = record b { reading = false; live = false }

  abbrev pub stop_browsing : Bridge F → Bridge F
  stop_browsing b = record b { browsing = false; live = false }

  abbrev pub cancel : Bridge F → Bridge F
  cancel b = record b { live = false }

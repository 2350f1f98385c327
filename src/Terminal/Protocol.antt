-- ===== src/Terminal/Protocol.antt =====
-- The records and commands of internal/terminal/protocol.go, and the options and audit events of
-- bridge.go beside it. JSON, base64 and `strings.ToLower` are the fields of `Codec`; durations are
-- nanoseconds.
use herdr_phone.Base.{
  ℕ, ℤ, [], ◌∷◌, Bool, true, Option, none, some, ◌==◌, Str, bytes, contains, if◌then◌else◌,
}

pub record ControllerRecord : Type 0 where
  pub type : Str
  pub seq : ℕ
  pub width : ℤ
  pub height : ℤ
  pub full : Bool
  pub payload : Str
  pub reason : Str

-- A line for the controller's stdin. `input` holds the base64 text.
pub data ControllerCommand : Type 0 where
  input : Str → ControllerCommand
  resize : ℤ → ℤ → ℤ → ℤ → ControllerCommand
  scroll : Str → ℤ → Str → ControllerCommand
  release : ControllerCommand

pub record BrowserCommand : Type 0 where
  pub type : Str
  pub cols : ℤ
  pub rows : ℤ
  pub cell_width_px : ℤ
  pub cell_height_px : ℤ
  pub direction : Str
  pub lines : ℤ
  pub source : Str

pub data ServerMessage : Type 0 where
  opened pong : ServerMessage
  closed conflict : Str → ServerMessage
  resized : ℤ → ℤ → Bool → ℕ → ServerMessage

pub record Codec : Type 0 where
  -- `json.Unmarshal` of a controller line and of a browser message.
  pub read_record : Str → Option ControllerRecord
  pub read_command : Str → Option BrowserCommand
  pub decode64 : Str → Option Str
  pub encode64 : Str → Str
  pub to_lower : Str → Str

pub record Options : Type 0 where
  pub max_output_frame_bytes : ℕ
  pub max_input_bytes : ℕ
  pub out_queue : ℕ
  pub ping_interval : ℕ
  pub pong_timeout : ℕ
  pub write_timeout : ℕ
  pub resize_min_interval : ℕ

abbrev or_default : ℕ → ℕ → ℕ
or_default n d = if n == 0 then d else n

-- `applyDefaults`; a bound that is not positive is 0.
unfoldable pub apply_defaults : Options → Options
apply_defaults o = record {
  max_output_frame_bytes = or_default o.max_output_frame_bytes 1_048_576;
  max_input_bytes = or_default o.max_input_bytes 65_536;
  out_queue = or_default o.out_queue 256;
  ping_interval = or_default o.ping_interval 20_000_000_000;
  pong_timeout = or_default o.pong_timeout 75_000_000_000;
  write_timeout = or_default o.write_timeout 10_000_000_000;
  resize_min_interval = or_default o.resize_min_interval 50_000_000;
}

-- The structural audit events, with what they carry.
pub data Event : Type 0 where
  event_input : ℕ → Event
  event_resize : ℤ → ℤ → Event
  event_scroll : ℤ → Event
  event_release : Event
  event_closed event_conflict : Str → Event
  event_backpressure : ℕ → Event
  event_protocol : Str → Event

abbrev pub close_normal : ℕ
close_normal = 1000

abbrev pub close_going_away : ℕ
close_going_away = 1001

abbrev pub close_policy : ℕ
close_policy = 1008

abbrev pub close_internal_error : ℕ
close_internal_error = 1011

module _ (lib : Codec) where
  unfoldable pub decode_bytes : ControllerRecord → Option Str
  decode_bytes rec = elim rec.payload [ [] ↦ some [] | b ∷ p ↦ lib.decode64 (b ∷ p) ]

  abbrev typed : BrowserCommand → Option BrowserCommand
  typed c = elim c.type [ [] ↦ none | b ∷ t ↦ some c ]

  unfoldable pub parse_browser_command : Str → Option BrowserCommand
  parse_browser_command text = elim (lib.read_command text) [ none ↦ none | some c ↦ typed c ]

  unfoldable pub is_conflict : Str → Bool
  is_conflict reason =
      let r = lib.to_lower reason in
      if contains (bytes "conflict") r
      then true
      else if contains (bytes "in use") r
      then true
      else if contains (bytes "another controller") r
      then true
      else if contains (bytes "already controlled") r
      then true
      else contains (bytes "controlled elsewhere") r

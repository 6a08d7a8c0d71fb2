-- ===== src/Log.antt =====
-- inc/litemqtt/log.hpp: levels, sinks and the streams that send one record each. A handler is a
-- number, a channel is known by its number, and what a sink was given is recorded in `out`.
pub mod Stream
mod Tests
use Prim.Native.Char.{code}
use Prim.Native.String.{String}
use lite_mqtt.Prelude.{
  ℕ, Bool, true, false, not, Option, none, some, List, [], ◌∷◌, ◌++◌, leb, ◌==◌, if◌then◌else◌,
}

pub data LogLevel : Type 0 where
  trace debug info warn error off : LogLevel

-- static_cast<int>(level)
unfoldable pub level_value : LogLevel → ℕ
level_value trace = 0
level_value debug = 1
level_value info = 2
level_value warn = 3
level_value error = 4
level_value off = 5

abbrev codes : String → List ℕ
codes String.[] = []
codes (String.◌∷◌ c s) = code c ∷ codes s

unfoldable pub level_name : LogLevel → List ℕ
level_name trace = codes "trace"
level_name debug = codes "debug"
level_name info = codes "info"
level_name warn = codes "warn"
level_name error = codes "error"
level_name off = codes "off"

pub record LogRecord : Type 0 where
  pub level : LogLevel
  pub file : List ℕ
  pub line : ℕ
  pub message : List ℕ

-- What reaches a sink: a record for a handler, text for a standard stream.
pub data Delivery : Type 0 where
  handled : ℕ → LogRecord → Delivery
  to_stdout to_stderr : List ℕ → Delivery

-- The logger of the process, the handlers of the channels, and what the sinks were given.
pub record World : Type 0 where
  pub handler : Option ℕ
  pub threshold : LogLevel
  pub channels : ℕ → Option ℕ
  pub out : List Delivery

abbrev pub new_world : World
new_world = record { handler = none; threshold = trace; channels = λ ch. none; out = [] }

pub default_log_sink : LogRecord → List Delivery
unfolding level_value level_name
default_log_sink r =
    let text = codes "[litemqtt][" ++ level_name r.level ++ codes "] " ++ r.message ++ 10 ∷ [] in
    (if leb (level_value warn) (level_value r.level) then to_stderr text else to_stdout text) ∷ []

-- set_log_handler(), logger::set_handler()
pub set_log_handler : Option ℕ → World → World
set_log_handler handler w = record w { handler = handler }

pub get_log_handler : World → Option ℕ
get_log_handler w = w.handler

pub set_log_level : LogLevel → World → World
set_log_level level w = record w { threshold = level }

pub get_log_level : World → LogLevel
get_log_level w = w.threshold

-- logger::is_enabled()
unfoldable pub log_enabled : LogLevel → World → Bool
unfolding level_value
log_enabled level w = leb (level_value w.threshold) (level_value level)

-- logger::dispatch(): what a handler throws is caught.
unfoldable pub dispatch : Option ℕ → LogRecord → World → World
unfolding default_log_sink
dispatch none r w = record w { out = w.out ++ default_log_sink r }
dispatch (some h) r w = record w { out = w.out ++ handled h r ∷ [] }

-- logger::write()
unfoldable pub write_global : LogRecord → World → World
unfolding log_enabled dispatch
write_global r w = if log_enabled r.level w then dispatch w.handler r w else w

-- log_channel::set_handler()
pub set_channel_handler : ℕ → Option ℕ → World → World
set_channel_handler ch handler w = record w {
  channels = λ n. if n == ch then handler else w.channels n;
}

pub channel_handler : ℕ → World → Option ℕ
channel_handler ch w = w.channels ch

-- log_channel::write(), with the handler of the channel.
unfoldable pub write_with : Option ℕ → LogRecord → World → World
unfolding write_global dispatch
write_with none r w = write_global r w
write_with (some h) r w = dispatch (some h) r w

pub write_channel : ℕ → LogRecord → World → World
unfolding write_with
write_channel ch r w = write_with (w.channels ch) r w

-- `channel` is none for a stream to the logger of the process.
pub record LogStream : Type 0 where
  pub channel : Option ℕ
  pub level : LogLevel
  pub file : List ℕ
  pub line : ℕ
  pub enabled : Bool
  pub buffer : List ℕ

unfoldable pub open_stream : Option ℕ → LogLevel → List ℕ → ℕ → World → LogStream
unfolding log_enabled
open_stream channel level file line w = record {
  channel = channel;
  level = level;
  file = file;
  line = line;
  enabled = log_enabled level w;
  buffer = [];
}

-- The move constructor: the new stream and the one moved from.
unfoldable pub move_stream : LogStream → LogStream × LogStream
move_stream s = (s, record s { enabled = false; buffer = [] })

-- operator<<, with the text that the standard stream makes of the value.
unfoldable pub append_text : List ℕ → LogStream → LogStream
append_text text s = if s.enabled then record s { buffer = s.buffer ++ text } else s

unfoldable pub write_to : Option ℕ → LogRecord → World → World
unfolding write_global write_channel
write_to none r w = write_global r w
write_to (some ch) r w = write_channel ch r w

-- The destructor.
unfoldable pub close_stream : LogStream → World → World
unfolding write_to
close_stream s w =
    let r : LogRecord = record {
      level = s.level;
      file = s.file;
      line = s.line;
      message = s.buffer;
    } in
    if not s.enabled then w else write_to s.channel r w

-- make_log_handler(): what the adapted function is called with.
pub adapt_record : LogRecord → LogLevel × List ℕ
adapt_record r = (r.level, r.message)

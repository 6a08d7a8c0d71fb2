-- ===== src/Log/Stream.antt =====
-- What a log statement does: its stream sends one record or none.
use lite_mqtt.Prelude.{
  ℕ, ◌≡◌, refl, ap, sym, ◌∙◌, Bool, true, false, Option, none, some, List, [], ◌∷◌, ◌++◌,
  append-nil, append_assoc, if◌then◌else◌, Bool-cases, inl, inr,
}
use lite_mqtt.Log.{
  LogLevel, LogRecord, World, LogStream, Delivery, handled, log_enabled, default_log_sink, dispatch,
  write_global, write_with, write_channel, write_to, open_stream, move_stream, append_text,
  close_stream,
}

-- What happens to a stream between its constructor and its destructor: text, a move into another
-- stream, or any change of the settings.
pub data StreamStep : Type 0 where
  appends : List ℕ → StreamStep
  moves : StreamStep
  changes : (World → World) → StreamStep

-- A stream that was moved from is destroyed behind the one it was moved to.
unfoldable pub run_stream : List StreamStep → LogStream → World → World
unfolding append_text move_stream close_stream
run_stream [] s w = close_stream s w
run_stream (appends text ∷ ss) s w = run_stream ss (append_text text s) w
run_stream (moves ∷ ss) s w =
    let (to, from) = move_stream s in close_stream from (run_stream ss to w)
run_stream (changes f ∷ ss) s w = run_stream ss s (f w)

pub texts : List StreamStep → List ℕ
texts [] = []
texts (appends text ∷ ss) = text ++ texts ss
texts (moves ∷ ss) = texts ss
texts (changes f ∷ ss) = texts ss

pub settings : List StreamStep → World → World
settings [] w = w
settings (appends text ∷ ss) w = settings ss w
settings (moves ∷ ss) w = settings ss w
settings (changes f ∷ ss) w = settings ss (f w)

abbrev pub channel_sink : Option ℕ → World → Option ℕ
channel_sink none w = none
channel_sink (some ch) w = w.channels ch

abbrev default_of : Option ℕ → LogRecord → List Delivery
default_of none r = default_log_sink r
default_of (some h) r = handled h r ∷ []

-- The sinks that a record goes to: the channel's own handler, or else the handler of the process or
-- the standard streams, unless the level is below the threshold.
abbrev pub recipients : Option ℕ → Bool → Option ℕ → LogRecord → List Delivery
recipients (some h) enabled global r = handled h r ∷ []
recipients none true global r = default_of global r
recipients none false global r = []

out_global :
    (enabled : Bool) (h : Option ℕ) (r : LogRecord) (w : World)
    → (if enabled then dispatch h r w else w)
      ≡ record w { out = w.out ++ recipients none enabled h r }
unfolding dispatch
out_global false h r w = ap (λ (o : List Delivery). record w { out = o }) (sym (append-nil w.out))
out_global true none r w = refl
out_global true (some h) r w = refl

out_with :
    (h : Option ℕ) (r : LogRecord) (w : World)
    → write_with h r w
      ≡ record w { out = w.out ++ recipients h (log_enabled r.level w) w.handler r }
unfolding write_with write_global dispatch
out_with none r w = out_global (log_enabled r.level w) w.handler r w
out_with (some h) r w = refl

out_to :
    (channel : Option ℕ) (r : LogRecord) (w : World)
    → write_to channel r w ≡ record w {
      out = w.out ++ recipients (channel_sink channel w) (log_enabled r.level w) w.handler r;
    }
unfolding write_to write_channel
out_to none r w = out_with none r w
out_to (some ch) r w = out_with (w.channels ch) r w

module _ (channel : Option ℕ) (level : LogLevel) (file : List ℕ) (line : ℕ) where
  abbrev stream : Bool → List ℕ → LogStream
  stream enabled buffer = record {
    channel = channel;
    level = level;
    file = file;
    line = line;
    enabled = enabled;
    buffer = buffer;
  }

  abbrev pub message : List ℕ → LogRecord
  message buffer = record { level = level; file = file; line = line; message = buffer }

  run_disabled :
      (ss : List StreamStep) (buffer : List ℕ) (w : World)
      → run_stream ss (stream false buffer) w ≡ settings ss w
  unfolding run_stream settings append_text move_stream close_stream
  run_disabled [] buffer w = refl
  run_disabled (appends text ∷ ss) buffer w = run_disabled ss buffer w
  run_disabled (moves ∷ ss) buffer w = run_disabled ss buffer w
  run_disabled (changes f ∷ ss) buffer w = run_disabled ss buffer (f w)

  run_enabled :
      (ss : List StreamStep) (buffer : List ℕ) (w : World)
      → run_stream ss (stream true buffer) w
        ≡ write_to channel (message (buffer ++ texts ss)) (settings ss w)
  unfolding run_stream settings append_text move_stream close_stream texts
  run_enabled [] buffer w = ap (λ b. write_to channel (message b) w) (sym (append-nil buffer))
  run_enabled (appends text ∷ ss) buffer w =
      run_enabled ss (buffer ++ text) w
      ∙ ap (λ b. write_to channel (message b) (settings ss w)) (append_assoc buffer text (texts ss))
  run_enabled (moves ∷ ss) buffer w = run_enabled ss buffer w
  run_enabled (changes f ∷ ss) buffer w = run_enabled ss buffer (f w)

  -- A log statement, whatever is streamed, however often the stream is moved and however the settings
  -- change meanwhile: if the level is enabled at the start, one record with all the text goes to the
  -- sinks that the settings at the end give (none, if the channel then has no handler and the level is
  -- no longer enabled), and that is all; otherwise nothing is sent.
  pub run_stream_once :
      (ss : List StreamStep) (w0 w : World)
      → run_stream ss (open_stream channel level file line w0) w ≡ (
          let w' = settings ss w in
          if log_enabled level w0
          then record w' {
            out =
                w'.out
                ++ recipients
                    (channel_sink channel w')
                    (log_enabled level w')
                    w'.handler
                    (message (texts ss));
          }
          else w')
  unfolding open_stream
  run_stream_once ss w0 w = elim (Bool-cases (log_enabled level w0)) [
    | inl e ↦ rw e (run_enabled ss [] w ∙ out_to channel (message (texts ss)) (settings ss w))
    | inr e ↦ rw e (run_disabled ss [] w)
  ]

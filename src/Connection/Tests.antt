-- ===== src/Connection/Tests.antt =====
-- The connection at concrete inputs.
use lite_mqtt.Prelude.{
  ℕ, ◌+◌, ◌≤◌, ◌≡◌, ◌≢◌, ◌⊎◌, inl, refl, true, false, none, some, List, [], ◌∷◌, ◌++◌, arith,
  length, take, drop, ltb, if◌then◌else◌, take-append, drop-append, length-append, le→not-ltb,
  lt→ltb,
}
use lite_mqtt.Codec.PacketType.{is_valid_packet_type}
use lite_mqtt.Codec.Packets.Any.{Packet, serialize, body}
use lite_mqtt.Connection.Asio.{
  AsioError, bad_descriptor, message_size, other, ReadResult, filled, failed, FillsBuffer,
}
use lite_mqtt.Connection.Framing.{Reading, failure, async_read_packet}
use lite_mqtt.Connection.Framing.Frames.{Delivers}
use lite_mqtt.Connection.Framing.Faults.{
  Answers, async_read_packet-Answers, async_read_packet_faults,
}
use lite_mqtt.Connection.Framing.Stream.{serialize-Delivers}
use lite_mqtt.Connection.Writes.{
  WriteItem, Connection, Event, enqueues, completes, closes, starts_connect, connects, handshaking,
  new_connection, step, run, posts_fail, starts_write,
}
use lite_mqtt.Connection.Writes.Queue.{IsConsistent}
use lite_mqtt.Connection.Writes.Accounts.{count_called, count_pending, count_offered, run_accounts}
use lite_mqtt.Connection.Writes.Order.{started, buffers, offered, IsFlowing, run_in_order}
use lite_mqtt.Connection.Writes.Overlap.{
  count_starts, EndsWrite, one_write_at_a_time, Overlaps, late_fail, late_fail-Overlaps,
}

abbrev eof : AsioError
eof = other 2

-- A socket whose input is a list of bytes.
list_read : ℕ → List ℕ → ReadResult
list_read n input =
    if ltb (length input) n then failed eof else filled (take n input) (drop n input)

list_read-FillsBuffer : FillsBuffer list_read eof
unfolding list_read
list_read-FillsBuffer = record {
  fills = λ n bytes input h.
      rw
        (
          le→not-ltb (length (bytes ++ input)) n (omega (arith, length-append bytes input)),
          take-append bytes input n h,
          drop-append bytes input n h,
        )
        refl;
  ends = λ n input h. rw (lt→ltb (length input) n h) refl;
}

abbrev free : Reading
free = record {
  fixed_header = 0 ∷ 0 ∷ [];
  read_header = [];
  reading_depth = 0;
  stray_write = false;
}

serialize-Delivers_example :
    Delivers
      (async_read_packet list_read free (serialize Packet.pingresp ++ 9 ∷ []))
      (serialize Packet.pingresp)
      (9 ∷ [])
unfolding body
serialize-Delivers_example =
    serialize-Delivers list_read eof list_read-FillsBuffer free Packet.pingresp (9 ∷ []) refl
      (omega arith)

async_read_packet-Answers_example : Answers (async_read_packet list_read free (0x30 ∷ 5 ∷ []))
async_read_packet-Answers_example = async_read_packet-Answers list_read free (0x30 ∷ 5 ∷ []) refl

async_read_packet_faults_example :
    let run = async_read_packet list_read free (0x30 ∷ 0xFF ∷ 0xFF ∷ 0xFF ∷ 0xFF ∷ 1 ∷ []) in
    (run.reading.stray_write ≡ true)
    × (run.outcome ≡ some (failure message_size))
    × (run.reading.reading_depth ≡ 0)
    × (run.input ≡ [])
unfolding is_valid_packet_type
async_read_packet_faults_example =
    async_read_packet_faults list_read eof list_read-FillsBuffer free 0x30 127 127 127 127 1 [] refl
      refl (omega arith) (omega arith) (omega arith) (omega arith)

-- Write handlers are numbers here.
abbrev item : ℕ → WriteItem ℕ
item n = record { buffer = n ∷ []; handler = some n }

abbrev new_ℕ : Connection ℕ
new_ℕ = new_connection

new-IsConsistent : IsConsistent new_ℕ
new-IsConsistent = record { flag = inl (refl, refl); dead = λ e. cc }

abbrev history : List (Event ℕ)
history =
    starts_connect
    ∷ connects none
    ∷ enqueues (item 1)
    ∷ enqueues (item 2)
    ∷ completes none false
    ∷ closes
    ∷ []

run_accounts_example :
    let r = run history new_ℕ in
    (count_called (λ _. true) r.1 + count_pending (λ _. true) r.0
      ≡ count_offered (λ _. true) history + count_pending (λ _. true) new_ℕ)
    × IsConsistent r.0
run_accounts_example = run_accounts (λ _. true) history new_ℕ new-IsConsistent (omega arith)

abbrev open_ℕ : Connection ℕ
open_ℕ = record new_ℕ { state = handshaking; socket_open = true }

abbrev three_frames : List (Event ℕ)
three_frames = enqueues (item 1) ∷ enqueues (item 2) ∷ completes none false ∷ enqueues (item 3) ∷ []

run_in_order_example :
    let r = run three_frames open_ℕ in
    (started r.1 ++ buffers r.0.write_queue ≡ buffers open_ℕ.write_queue ++ offered three_frames)
    × IsFlowing r.0
run_in_order_example =
    run_in_order three_frames open_ℕ tt
      (record { up = refl; socket_open = refl; alive = refl; flag = inl (refl, refl, refl) })

one_write_at_a_time_example :
    (count_starts (step (enqueues (item 1)) open_ℕ).1 ≤ 1)
    × (open_ℕ.in_flight ≢ none
        → EndsWrite (enqueues (item 1)) ⊎ (count_starts (step (enqueues (item 1)) open_ℕ).1 ≡ 0))
one_write_at_a_time_example =
    one_write_at_a_time (enqueues (item 1)) open_ℕ
      (record { flag = inl (refl, refl); dead = λ e. cc })

abbrev busy_ℕ : Connection ℕ
busy_ℕ = record open_ℕ { in_flight = some (item 1); writing = true; write_queue = item 2 ∷ [] }

late_fail-Overlaps_example :
    Overlaps bad_descriptor (item 1) (item 3) busy_ℕ
    × (let r = run (late_fail (item 1) (item 2)) new_ℕ in
        (r.1 ≡ posts_fail bad_descriptor ∷ starts_write (1 ∷ []) ∷ [])
        × (r.0.in_flight ≡ some (item 1))
        × Overlaps bad_descriptor (item 1) (item 3) r.0)
late_fail-Overlaps_example =
    late_fail-Overlaps bad_descriptor (item 1) (item 2) (item 3) busy_ℕ refl refl refl refl

-- ===== src/Tools/Tests.antt =====
-- The brokers and the accounts of the stress and the probe program at concrete inputs.
use lite_mqtt.Prelude.{
  ℕ, zero, suc, ◌+◌, ◌-◌, ◌^◌, ◌≤◌, ◌<◌, ◌≡◌, refl, Bool, true, false, List, [], ◌∷◌, ◌++◌, arith,
  length, replicate,
}
use lite_mqtt.Prelude.Int.{ℤ, pos}
use lite_mqtt.Codec.Packets.Frame.{frame}
use lite_mqtt.Tools.Broker.{
  new_peer, framing_error, process, receive, process_loop, process_next, next_packet, scan_length,
  next_of, handle_packet, send,
}
use lite_mqtt.Tools.Broker.Frames.{wire, handle_all, process-wire}
use lite_mqtt.Tools.Broker.Stream.{receive_all, joined, receive_all-joined}
use lite_mqtt.Codec.Packets.Acks.{serialize_puback}
use lite_mqtt.Codec.Packets.Publish.{PublishPacket, serialize_publish}
use lite_mqtt.Tools.Broker.Acks.{receive-serialize_publish}
use lite_mqtt.Tools.Links.{
  ChaosBroker, new_broker, set_state, down, applies, accepts, reads_end, link_run, link_step,
}
use lite_mqtt.Tools.Links.Outage.{IsDown, outage-IsDown}
use lite_mqtt.Tools.Probe.{
  new_framing_broker, parse, parse_loop, parse_next, read_frame_length, count_packet,
  pushed_publish,
}
use lite_mqtt.Tools.Stats.{new_stats, record_all, repeats, successes, record_all-exact}

-- A number of one digit.
abbrev one_digit : List ℕ → ℤ
one_digit [] = pos 0
one_digit (c ∷ cs) = pos (c - 48)

abbrev three_calls : List (ℕ × Bool)
three_calls = (1, true) ∷ (2, false) ∷ (1, true) ∷ []

record_all-exact_example :
    let s = record_all three_calls new_stats in
    (s.duplicates ≡ repeats [] three_calls)
    × (s.succeeded ≡ successes three_calls)
    × (s.succeeded + s.failed ≡ length three_calls)
record_all-exact_example = record_all-exact three_calls

-- A CONNECT and a PINGREQ, of which the second is cut in two.
abbrev reads : List (List ℕ)
reads = (16 ∷ 1 ∷ 0 ∷ 192 ∷ []) ∷ (0 ∷ []) ∷ []

first_calm :
    let s = receive one_digit (16 ∷ 1 ∷ 0 ∷ 192 ∷ []) ([], new_peer) in
    (s.1.is_open ≡ true) × (s.1.framing_errors ≡ 0)
unfolding receive process process_loop process_next next_packet scan_length next_of handle_packet
    send
first_calm = (refl, refl)

receive_all-joined_example :
    receive_all one_digit reads ([], new_peer) ≡ receive one_digit (joined reads) ([], new_peer)
receive_all-joined_example =
    receive_all-joined one_digit (16 ∷ 1 ∷ 0 ∷ 192 ∷ []) ((0 ∷ []) ∷ []) ([], new_peer)
      (first_calm, tt)

abbrev two_frames : List (ℕ × List ℕ)
two_frames = (16, 0 ∷ []) ∷ (192, []) ∷ []

abbrev zeros : ℕ → List ℕ
zeros n = replicate n 0

length-replicate : (n : ℕ) → length (zeros n) ≡ n
length-replicate zero = refl
length-replicate (suc n) = omega (arith, length-replicate n)

at_least : (n : ℕ) → n ≤ length (zeros n)
at_least n = omega (arith, length-replicate n)

below : (n m : ℕ) → n < m → length (zeros n) < m
below n m h = omega (arith, length-replicate n)

process-wire_example :
    (process one_digit (wire two_frames) new_peer ≡ handle_all one_digit two_frames new_peer)
    × (process one_digit (frame 48 (zeros (128 ^ 3)) ++ []) new_peer ≡ ([], framing_error new_peer))
process-wire_example =
    process-wire one_digit two_frames 48 (zeros (128 ^ 3)) [] new_peer
      (omega arith, (omega arith, tt)) (at_least (128 ^ 3))
      (below (128 ^ 3) (128 ^ 4) (omega arith))

receive-serialize_publish_example :
    let pkt : PublishPacket = record {
      packet_id = 700;
      qos = 1;
      dup = false;
      topic_name = 116 ∷ [];
      payload = 1 ∷ 2 ∷ [];
    } in
    let (buf, p') = receive one_digit (serialize_publish pkt) ([], new_peer) in
    (buf ≡ [])
    × (p'.sent ≡ [] ++ serialize_puback (record { packet_id = 700 }) ∷ [])
    × (p'.publishes ≡ 0 + 1)
    × (p'.framing_errors ≡ 0)
receive-serialize_publish_example =
    receive-serialize_publish one_digit (116 ∷ []) (1 ∷ 2 ∷ []) 700 false new_peer (omega arith)
      (omega arith) (omega arith)

-- A broker with a session; during the outage its read fails and the accept is cancelled.
abbrev busy_broker : ChaosBroker
busy_broker = record new_broker {
  listening = true;
  accepting = true;
  sessions = record { id = 4; reading = true; timer = false } ∷ [];
}

outage-IsDown_example :
    let b' =
      link_run (applies true ∷ reads_end 4 ∷ accepts false 5 ∷ []) (set_state down busy_broker) in
    IsDown b'
    × ((link_step (accepts true 6) b').sessions
        ≡ record { id = 6; reading = true; timer = false } ∷ [])
outage-IsDown_example = outage-IsDown true (reads_end 4 ∷ accepts false 5 ∷ []) 6 busy_broker tt

-- What the probe's broker pushes is a packet for itself.
pushed_is_a_packet :
    parse (pushed_publish 1) new_framing_broker
    ≡ ([], record { publishes = 1; pubacks = 0; errors = 0; sent = [] })
unfolding pushed_publish parse parse_loop parse_next read_frame_length count_packet
pushed_is_a_packet = refl

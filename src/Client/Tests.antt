-- ===== src/Client/Tests.antt =====
-- Sessions at concrete inputs.
use lite_mqtt.Prelude.{
  ℕ, ◌+◌, ◌≡◌, refl, Bool, true, false, none, some, List, [], ◌∷◌, ◌++◌, arith, length, take, drop,
  ltb, if◌then◌else◌, take-append, drop-append, length-append, le→not-ltb, lt→ltb,
}
use lite_mqtt.Client.{calls_publish, Client, new_client, PendingPublish, publish_sent, connect_sent}
use lite_mqtt.Codec.Packets.Any.{Packet, body}
use lite_mqtt.Connection.Asio.{bad_descriptor, other, ReadResult, filled, failed, FillsBuffer}
use lite_mqtt.Connection.Framing.{Reading}
use lite_mqtt.Connection.Framing.Stream.{wire}
use lite_mqtt.Connection.Writes.{connected}
use lite_mqtt.Client.ReadLoop.{read_loop, sessions, RefusesClosed, read_loop-wire}
use lite_mqtt.Client.Receiving.{receive_pubcomp}
use lite_mqtt.Client.Receiving.Handshake.{pubrel_post, receive_pubrecs, pubrecs-pubcomp}
use lite_mqtt.Client.Session.{notify_closed_once, close_conn, close_conn_at}
use lite_mqtt.Client.Session.Closed.{IsOver, notify_closed_once-IsOver}
use lite_mqtt.Client.Session.Depth.{close_conn-depth}
use lite_mqtt.Client.Ids.{search_id, in_use, acquire_packet_id}
use lite_mqtt.Client.Maps.{find, has}
use lite_mqtt.Client.Ids.Search.{Acquired, acquire_packet_id-fresh}
use lite_mqtt.Client.Events.{
  Happening, connect_starts, connect_ends, packet_arrives, publish_runs, client_run,
}
use lite_mqtt.Client.Accounts.{account, answered}
use lite_mqtt.Client.Accounts.Runs.{all_offers, publishes_answered_once}

abbrev all_callbacks : ℕ → Bool
all_callbacks cb = true

-- A session comes up, publishes two messages, gets the PUBACK of the first one and breaks.
abbrev broken_session : List Happening
broken_session =
    connect_starts true
    ∷ connect_ends none
    ∷ packet_arrives (32 ∷ 2 ∷ 0 ∷ 0 ∷ [])
    ∷ publish_runs (116 ∷ []) (1 ∷ []) 1 (some 7)
    ∷ publish_runs (116 ∷ []) (2 ∷ []) 2 (some 8)
    ∷ packet_arrives (64 ∷ 2 ∷ 0 ∷ 2 ∷ [])
    ∷ []

publishes_answered_once_example :
    account all_callbacks (client_run broken_session new_client)
    ≡ all_offers all_callbacks broken_session + account all_callbacks new_client
publishes_answered_once_example = publishes_answered_once all_callbacks broken_session new_client

-- A session with two publishes that wait for their acknowledgement.
abbrev entry : ℕ → ℕ → PendingPublish
entry qos cb = record {
  topic = 116 ∷ [];
  qos = qos;
  payload = 1 ∷ [];
  callback = some cb;
  timer_armed = true;
  attempts = 1;
}

abbrev busy_client : Client
busy_client = record new_client {
  on_close_cb = true;
  next_packet_id = 65535;
  pending_publishes = (1, entry 1 7) ∷ (65535, entry 2 8) ∷ [];
  conn = record new_client.conn {
    write_queue = record { buffer = 48 ∷ 0 ∷ []; handler = some (publish_sent 1) } ∷ [];
    in_flight = some (record { buffer = 16 ∷ 0 ∷ []; handler = some connect_sent });
    writing = true;
  };
}

notify_closed_once-IsOver_example :
    let c' = notify_closed_once busy_client in
    IsOver c'
    × (answered all_callbacks c'.trace ≡ account all_callbacks busy_client)
    × (notify_closed_once c' ≡ c')
notify_closed_once-IsOver_example = notify_closed_once-IsOver all_callbacks busy_client refl

close_conn-depth_example : close_conn_at 3 busy_client ≡ close_conn busy_client
close_conn-depth_example = close_conn-depth 2 busy_client

acquire_packet_id-fresh_example : Acquired busy_client (acquire_packet_id busy_client)
acquire_packet_id-fresh_example = acquire_packet_id-fresh busy_client (omega arith)

found_8 : find 65535 busy_client.pending_publishes ≡ some (entry 2 8)
unfolding find
found_8 = refl

pubrecs-pubcomp_example :
    (receive_pubcomp 65535 (receive_pubrecs 2 65535 busy_client)).trace
    ≡ pubrel_post 65535 ∷ pubrel_post 65535 ∷ calls_publish 8 true (116 ∷ []) 2 65535 ∷ []
pubrecs-pubcomp_example = pubrecs-pubcomp 2 65535 (entry 2 8) busy_client found_8

-- 65535 is followed by 1, which is in use.
id_behind_the_last : (acquire_packet_id busy_client).1 ≡ 2
unfolding acquire_packet_id search_id in_use has
id_behind_the_last = refl

-- A socket whose input is a list of bytes, while it is open.
socket_read : Bool → ℕ → List ℕ → ReadResult
socket_read false n input = failed bad_descriptor
socket_read true n input =
    if ltb (length input) n then failed (other 2) else filled (take n input) (drop n input)

socket_read-FillsBuffer : FillsBuffer (socket_read true) (other 2)
unfolding socket_read
socket_read-FillsBuffer = record {
  fills = λ n bytes input h.
      rw
        (
          le→not-ltb (length (bytes ++ input)) n (omega (arith, length-append bytes input)),
          take-append bytes input n h,
          drop-append bytes input n h,
        )
        refl;
  ends = λ n input h. rw (lt→ltb (length input) n h) refl;
}

socket_read-RefusesClosed : RefusesClosed (socket_read false)
unfolding socket_read
socket_read-RefusesClosed = record { refuses = λ n input h. refl }

-- The broker refuses the session; what it sends behind the CONNACK is not read.
abbrev refused_session : List Packet
refused_session =
    Packet.pingresp
    ∷ Packet.connack (record { session_present = 0; return_code = 5 })
    ∷ Packet.puback (record { packet_id = 513 })
    ∷ []

abbrev reading : Reading
reading = record {
  fixed_header = 0 ∷ 0 ∷ [];
  read_header = [];
  reading_depth = 0;
  stray_write = false;
}

abbrev open_client : Client
open_client = record new_client {
  conn = record new_client.conn { socket_open = true; state = connected };
}

read_loop-wire_example :
    read_loop socket_read 4 reading open_client (wire refused_session)
    ≡ some (sessions (other 2) refused_session open_client)
unfolding body
read_loop-wire_example =
    read_loop-wire socket_read (other 2) socket_read-FillsBuffer socket_read-RefusesClosed
      refused_session reading open_client refl (omega arith, (omega arith, (omega arith, tt)))

-- ===== src/Client/ReadLoop.antt =====
-- inc/litemqtt/client.hpp: the loop that reads packets and handles them. `async_read` is told whether
-- the socket is open. Nothing else runs between two packets.
use lite_mqtt.Prelude.{
  ℕ, zero, suc, ◌<◌, ◌≡◌, refl, Bool, true, false, Option, none, some, List, [], ◌∷◌, ◌++◌, arith,
  length, All, if◌then◌else◌, Bool-cases, inl, inr, le→not-ltb,
}
use lite_mqtt.Codec.Packets.Any.{Packet, serialize}
use lite_mqtt.Connection.Asio.{AsioError, bad_descriptor, ReadResult, failed, FillsBuffer}
use lite_mqtt.Connection.Framing.{Reading, Run, Delivery, packet, failure, async_read_packet}
use lite_mqtt.Connection.Framing.Stream.{wire, FitsPacket, serialize-Delivers, stream_end}
use lite_mqtt.Client.{Client}
use lite_mqtt.Client.Events.{packet_arrives, read_fails, client_step}

-- What the loop handed to its handler, in order, and the client behind it.
abbrev pub Loop : Type 0
Loop = List Delivery × Client

abbrev hand_over : Delivery → Option Loop → Option Loop
hand_over d none = none
hand_over d (some (ds, c)) = some (d ∷ ds, c)

-- The handler of async_read_packet(); `again` is start_read_loop(). A read that is under way already
-- calls no handler.
pub handle_read :
    (Reading → Client → List ℕ → Option Loop) → Option Delivery → Run → Client → Option Loop
handle_read again none r c = some ([], c)
handle_read again (some (failure ec)) r c = some (failure ec ∷ [], client_step (read_fails ec) c)
handle_read again (some (packet bytes)) r c =
    hand_over (packet bytes) (again r.reading (client_step (packet_arrives bytes) c) r.input)

module _ (async_read : Bool → ℕ → List ℕ → ReadResult) where
  -- Each packet is one round, and the error that ends the loop another one; `none` when the rounds
  -- are not enough.
  pub read_loop : ℕ → Reading → Client → List ℕ → Option Loop
  unfolding handle_read
  read_loop zero r c input = none
  read_loop (suc rounds) r c input =
      let run = async_read_packet (async_read c.conn.socket_open) r input in
      handle_read (read_loop rounds) run.outcome run c

-- The error of the read that finds no whole packet: that of the stream, or that of a closed socket.
abbrev pub last_error : AsioError → Client → AsioError
last_error ending c = if c.conn.socket_open then ending else bad_descriptor

-- The packets are handled one after another until handling one leaves the socket closed.
abbrev pub sessions : AsioError → List Packet → Client → Loop
sessions ending [] c =
    (failure (last_error ending c) ∷ [], client_step (read_fails (last_error ending c)) c)
sessions ending (p ∷ ps) c =
    let rest = sessions ending ps (client_step (packet_arrives (serialize p)) c) in
    if c.conn.socket_open
    then (packet (serialize p) ∷ rest.0, rest.1)
    else (failure bad_descriptor ∷ [], client_step (read_fails bad_descriptor) c)

-- asio::async_read of some bytes on a socket that was closed.
pub record RefusesClosed (async_read : ℕ → List ℕ → ReadResult) : Type 0 where
  pub refuses : (n : ℕ) (input : List ℕ) → 0 < n → async_read n input ≡ failed bad_descriptor

module _ (async_read : Bool → ℕ → List ℕ → ReadResult) (ending : AsioError)
    (io : FillsBuffer (async_read true) ending) (shut : RefusesClosed (async_read false)) where
  closed_read :
      (r : Reading) (input : List ℕ)
      → r.reading_depth ≡ 0
      → (async_read_packet (async_read false) r input).outcome ≡ some (failure bad_descriptor)
  unfolding async_read_packet
  closed_read r input idle =
      rw
        (
          le→not-ltb 0 r.reading_depth (omega arith),
          shut.refuses 2 input (omega arith),
          async_read_packet,
        )
        refl

  -- One round.
  closed_round :
      (rounds : ℕ) (r : Reading) (c : Client) (input : List ℕ)
      → r.reading_depth ≡ 0
      → c.conn.socket_open ≡ false
      → read_loop async_read (suc rounds) r c input
        ≡ some (failure bad_descriptor ∷ [], client_step (read_fails bad_descriptor) c)
  unfolding read_loop
  closed_round rounds r c input idle down = rw (down, closed_read r input idle) refl

  packet_round :
      (rounds : ℕ) (r : Reading) (c : Client) (p : Packet) (more : List ℕ)
      → r.reading_depth ≡ 0
      → FitsPacket p
      → c.conn.socket_open ≡ true
      → (r' : Reading) × (r'.reading_depth ≡ 0)
        × (read_loop async_read (suc rounds) r c (serialize p ++ more)
            ≡ hand_over (packet (serialize p)) (
                read_loop async_read rounds r' (client_step (packet_arrives (serialize p)) c) more))
  unfolding read_loop
  packet_round rounds r c p more idle fits up =
      let d = serialize-Delivers (async_read true) ending io r p more idle fits in
      (
        (async_read_packet (async_read true) r (serialize p ++ more)).reading,
        d.idle,
        rw (up, d.outcome, d.input) refl,
      )

  -- What a peer sends as whole packets is cut into exactly these packets, each handled in turn,
  -- until handling one closes the socket: then the next read fails, and nothing that is left in the
  -- stream is handed over. If none does, the error that ends the stream ends the loop. The error is
  -- handled too, and one round for each packet and one for the error are enough. The packets are below
  -- the largest length of the fixed header, the read starts with the connection free, and reads fill
  -- their buffer while the socket is open and fail once it is closed.
  pub read_loop-wire :
      (ps : List Packet) (r : Reading) (c : Client)
      → r.reading_depth ≡ 0
      → All FitsPacket ps
      → read_loop async_read (suc (length ps)) r c (wire ps) ≡ some (sessions ending ps c)
  read_loop-wire [] r c idle fits = elim (Bool-cases c.conn.socket_open) [
    | inl up ↦ unfold read_loop in rw (up, stream_end (async_read true) ending io r idle) refl
    | inr down ↦ rw (closed_round 0 r c [] idle down, down) refl
  ]
  read_loop-wire (p ∷ ps) r c idle (fit, fits) = elim (Bool-cases c.conn.socket_open) [
    | inl up ↦
        let (r', idle', round) = packet_round (suc (length ps)) r c p (wire ps) idle fit up in
        rw
          (
            round,
            read_loop-wire ps r' (client_step (packet_arrives (serialize p)) c) idle' fits,
            up,
          )
          refl
    | inr down ↦ rw (closed_round (suc (length ps)) r c (wire (p ∷ ps)) idle down, down) refl
  ]

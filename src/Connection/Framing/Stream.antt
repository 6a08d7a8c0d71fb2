-- ===== src/Connection/Framing/Stream.antt =====
-- The reader of the byte stream on what the library serializes.
use lite_mqtt.Prelude.{ℕ, ◌^◌, ◌<◌, ◌≡◌, refl, some, List, [], ◌∷◌, ◌++◌, arith, length, le→not-ltb}
use lite_mqtt.Codec.Packets.Any.{
  Packet, serialize, body, first_byte, serialize-frame, first_byte-valid,
}
use lite_mqtt.Connection.Asio.{AsioError, ReadResult, FillsBuffer}
use lite_mqtt.Connection.Framing.{Reading, failure, async_read_packet}
use lite_mqtt.Connection.Framing.Frames.{Delivers, async_read_packet-Delivers}

-- What a peer that sends these packets puts on the wire.
abbrev pub wire : List Packet → List ℕ
wire [] = []
wire (p ∷ ps) = serialize p ++ wire ps

-- The body is below the largest length that the fixed header can carry.
abbrev pub FitsPacket : Packet → Type 0
FitsPacket p = length (body p) < 2 ^ 28

module _ (async_read : ℕ → List ℕ → ReadResult) (ending : AsioError)
    (io : FillsBuffer async_read ending) where
  -- A packet that its serialize() wrote is delivered byte for byte.
  pub serialize-Delivers :
      (c : Reading) (p : Packet) (more : List ℕ)
      → c.reading_depth ≡ 0
      → FitsPacket p
      → Delivers (async_read_packet async_read c (serialize p ++ more)) (serialize p) more
  serialize-Delivers c p more idle fits = rw serialize-frame (
      async_read_packet-Delivers async_read ending io c (first_byte p) (body p) more idle
        (first_byte-valid p) fits)

  pub stream_end :
      (c : Reading)
      → c.reading_depth ≡ 0
      → (async_read_packet async_read c []).outcome ≡ some (failure ending)
  unfolding async_read_packet
  stream_end c idle =
      rw (le→not-ltb 0 c.reading_depth (omega arith), io.ends 2 [] (omega arith), async_read_packet)
        refl

-- ===== src/Connection/Framing.antt =====
-- The reading half of inc/litemqtt/connection.hpp. The completion handlers are run in the order in
-- which asio runs them; `input` is what the peer has still to send.
pub mod Frames
pub mod Faults
pub mod Stream
use lite_mqtt.Prelude.{
  ℕ, zero, suc, ◌+◌, ◌*◌, ◌^◌, ◌<◌, ◌≡◌, Bool, true, false, not, Option, none, some, List, [], ◌∷◌,
  ◌++◌, ltb, ◌==◌, if◌then◌else◌, shr, bit_and, get_or,
}
use lite_mqtt.Codec.PacketType.{is_valid_packet_type}
use lite_mqtt.Connection.Asio.{
  AsioError, invalid_argument, message_size, ReadResult, filled, failed,
}

-- The fields that reading uses. `fixed_header` holds two bytes. `stray_write` says whether a byte was
-- written outside of an array; what that does to other objects is not modelled.
pub record Reading : Type 0 where
  pub fixed_header : List ℕ
  pub read_header : List ℕ
  pub reading_depth : ℕ
  pub stray_write : Bool

-- What is handed to the read handler.
pub data Delivery : Type 0 where
  packet : List ℕ → Delivery
  failure : AsioError → Delivery

-- After a read: the state, what was posted to the handler, if anything, and the input left.
pub record Run : Type 0 where
  pub reading : Reading
  pub outcome : Option Delivery
  pub input : List ℕ

-- `reading_depth_ = 0; io_.post(handler ...)`
abbrev pub post : Reading → Delivery → List ℕ → Run
post c d input = record {
  reading = record c { reading_depth = 0 };
  outcome = some d;
  input = input;
}

pub record RemainingLengthState : Type 0 where
  pub byte_buffer : List ℕ
  pub bytes_read : ℕ
  pub multiplier : ℕ
  pub remaining_length : ℕ

-- A write of one byte at an offset of an array; `none` is out of its bounds.
pub store_byte : List ℕ → ℕ → ℕ → Option (List ℕ)
store_byte [] i b = none
store_byte (x ∷ xs) zero b = some (b ∷ xs)
store_byte (x ∷ xs) (suc i) b = elim (store_byte xs i b) [ none ↦ none | some ys ↦ some (x ∷ ys) ]

-- What read_remaining_length() sets up.
abbrev pub length_state : ℕ → RemainingLengthState
length_state first_byte = record {
  byte_buffer = first_byte ∷ 0 ∷ 0 ∷ 0 ∷ [];
  bytes_read = 1;
  multiplier = 128;
  remaining_length = bit_and first_byte 0x7F * 1;
}

module _ (async_read : ℕ → List ℕ → ReadResult) where
  pub read_packet_body : ℕ → Reading → List ℕ → Run
  read_packet_body remaining_length c input =
      if remaining_length == 0
      then post c (packet c.read_header) input
      else elim (async_read remaining_length input) [
        | failed ec ↦ post c (failure ec) input
        | filled body rest ↦ post c (packet (c.read_header ++ body)) rest
      ]

  -- The completion handler of one read of a length byte, once `b` is stored. `again` is the next
  -- call of read_remaining_length_step().
  pub length_byte_read :
      (RemainingLengthState → Reading → List ℕ → Run)
      → ℕ
      → RemainingLengthState
      → Reading
      → List ℕ
      → Run
  length_byte_read again b st c input =
      let st' : RemainingLengthState = record st {
        bytes_read = st.bytes_read + 1;
        remaining_length = st.remaining_length + bit_and b 0x7F * st.multiplier;
        multiplier = st.multiplier * 128;
      } in
      let c' : Reading = record c { read_header = c.read_header ++ b ∷ [] } in
      let next = again st' c' input in
      if ltb 4 st'.bytes_read
      then post c (failure message_size) input
      else (if not (bit_and b 0x80 == 0)
          then next
          else read_packet_body st'.remaining_length c' input)

  -- Each call reads one byte into `byte_buffer` at offset `bytes_read`, and takes it from there; a byte
  -- that was written behind the end of the array is read back from the same place.
  pub read_length_step : ℕ → RemainingLengthState → Reading → List ℕ → Run
  unfolding length_byte_read store_byte
  read_length_step zero st c input = record { reading = c; outcome = none; input = input }
  read_length_step (suc fuel) st c input = elim (async_read 1 input) [
    | failed ec ↦ post c (failure ec) input
    | filled bytes rest ↦ elim (store_byte st.byte_buffer st.bytes_read (get_or bytes 0 0)) [
      | none ↦
          length_byte_read (read_length_step fuel) (get_or bytes 0 0) st
            (record c { stray_write = true }) rest
      | some buffer ↦
          length_byte_read (read_length_step fuel) (get_or buffer st.bytes_read 0)
            (record st { byte_buffer = buffer }) c rest
    ]
  ]

  -- The first length byte is at offset 0, so four steps pass the end of the array.
  abbrev length_steps : ℕ
  length_steps = 4

  pub read_remaining_length : ℕ → Reading → List ℕ → Run
  unfolding read_length_step
  read_remaining_length first_byte c input =
      let st = length_state first_byte in
      if not (bit_and first_byte 0x80 == 0)
      then read_length_step length_steps st c input
      else read_packet_body st.remaining_length c input

  -- async_read_packet() and read_fixed_header().
  unfoldable pub async_read_packet : Reading → List ℕ → Run
  async_read_packet c input =
      if ltb 0 c.reading_depth
      then record { reading = c; outcome = none; input = input }
      else (let busy : Reading = record c { reading_depth = c.reading_depth + 1 } in
          elim (async_read 2 input) [
            | failed ec ↦ post busy (failure ec) input
            | filled bytes rest ↦
                let c' : Reading = record busy { fixed_header = bytes } in
                let first = get_or bytes 0 0 in
                let second = get_or bytes 1 0 in
                if not (is_valid_packet_type (shr first 4))
                then post c' (failure invalid_argument) rest
                else read_remaining_length second (record c' { read_header = first ∷ second ∷ [] })
                    rest
          ])

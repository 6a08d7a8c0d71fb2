-- ===== src/Codec/Packets/Frame.antt =====
-- What the packets' serialize and parse functions share: a fixed header and a body.
use lite_mqtt.Prelude.{
  ℕ, ◌+◌, ◌^◌, ◌<◌, ◌≤◌, ◌≡◌, refl, List, [], ◌∷◌, ◌++◌, arith, length, length-append,
}
use lite_mqtt.Codec.Writer.{
  BufferWriter, writer_to, buffer, write_uint8, write_bytes, write_remaining_length, size,
}
use lite_mqtt.Codec.Writer.Laws.{buffer-write_uint8, buffer-write_bytes, buffer-writer_to, size_lem}
use lite_mqtt.Codec.Writer.Length.{encoding, buffer-write_remaining_length, length-encoding}
use lite_mqtt.Codec.Reader.{BufferReader, new_reader, read_uint8, read_remaining_length}
use lite_mqtt.Codec.Reader.Laws.{rest, read_uint8-Reads}
use lite_mqtt.Codec.Reader.Length.{read_remaining_length-Reads}
use lite_mqtt.Codec.Reader.Bounds.{InBounds, read_uint8-InBounds, read_remaining_length-InBounds}

-- The last lines of a serialize(): type byte, length and contents of `variable_header`, in `buf`.
pub write_frame : ℕ → BufferWriter → List ℕ
write_frame first variable_header =
    let writer = write_uint8 (writer_to []) first in
    let writer = write_remaining_length writer (size variable_header) in
    buffer (write_bytes writer (buffer variable_header))

-- A frame as bytes.
abbrev pub frame : ℕ → List ℕ → List ℕ
frame first body = first ∷ encoding (length body) ++ body

pub write_frame_lem :
    (first : ℕ) (variable_header : BufferWriter)
    → write_frame first variable_header ≡ frame first (buffer variable_header)
unfolding write_frame
write_frame_lem first vh = simp (
  buffer-write_bytes, buffer-write_remaining_length, buffer-write_uint8, buffer-writer_to, size_lem,
)

-- The first lines of a parse(): the type byte and the reader behind the length. Neither the flag of
-- the reads nor the length is used.
pub record Header : Type 0 where
  pub packet_type_byte : ℕ
  pub reader : BufferReader

unfoldable pub read_header : List ℕ → Header
read_header bytes =
    let first = read_uint8 0 (new_reader bytes) in
    let len = read_remaining_length first.reader in
    record { packet_type_byte = first.value; reader = len.reader }

-- On a frame the header is its type byte, and the body is left to be read.
pub read_header_lem :
    (first : ℕ) (body : List ℕ)
    → length body < 2 ^ 28
    → ((read_header (frame first body)).packet_type_byte ≡ first)
      × (rest (read_header (frame first body)).reader ≡ body)
      × InBounds (frame first body) (read_header (frame first body)).reader
unfolding read_header
read_header_lem first body h =
    let bytes : List ℕ = frame first body in
    let g = read_uint8-Reads 0 first (encoding (length body) ++ body) (new_reader bytes) refl in
    let b =
      read_uint8-InBounds bytes 0 (new_reader bytes)
        (record { same_buf = refl; within = omega arith; clean = refl }) in
    (
      g.value,
      (read_remaining_length-Reads (length body) body (read_uint8 0 (new_reader bytes)).reader h
          g.rest_eq).rest_eq,
      read_remaining_length-InBounds bytes (read_uint8 0 (new_reader bytes)).reader b,
    )

pub length-frame : (first : ℕ) (body : List ℕ) → length (frame first body) ≤ length body + 6
length-frame first body =
    omega (arith, length-append (encoding (length body)) body, length-encoding (length body))

-- ===== src/Codec/Writer/Laws.antt =====
-- What each operation of the writer appends to the buffer.
use lite_mqtt.Prelude.{
  ℕ, ◌/◌, ◌%◌, ◌^◌, ◌≡◌, refl, true, List, [], ◌∷◌, ◌++◌, append-nil, append_assoc, arith, length,
  u8, u16,
}
use lite_mqtt.Codec.Writer.{
  BufferWriter, new_writer, writer_to, move_writer, buffer, with_buffer, push_back, insert_end,
  write_uint8, write_uint16, write_uint32, write_string, write_bytes, size,
}

buffer-with_buffer : (w : BufferWriter) (b : List ℕ) → buffer (with_buffer w b) ≡ b
unfolding buffer with_buffer
buffer-with_buffer w b = ground arith

pub buffer-push_back : (w : BufferWriter) (b : ℕ) → buffer (push_back w b) ≡ buffer w ++ b ∷ []
unfolding push_back
buffer-push_back w b = buffer-with_buffer w (buffer w ++ b ∷ [])

pub buffer-insert_end : (w : BufferWriter) (bs : List ℕ) → buffer (insert_end w bs) ≡ buffer w ++ bs
unfolding insert_end
buffer-insert_end w bs = buffer-with_buffer w (buffer w ++ bs)

pub buffer-new : buffer new_writer ≡ []
unfolding buffer
buffer-new = refl

pub buffer-writer_to : (b : List ℕ) → buffer (writer_to b) ≡ b
unfolding buffer
buffer-writer_to b = refl

pub buffer-write_uint8 : (w : BufferWriter) (v : ℕ) → buffer (write_uint8 w v) ≡ buffer w ++ v ∷ []
unfolding write_uint8
buffer-write_uint8 w v = buffer-push_back w v

-- Big endian.
abbrev pub uint16_bytes : ℕ → List ℕ
uint16_bytes v = v / 256 % 256 ∷ v % 256 ∷ []

byte_of : (n : ℕ) → u8 (n % 2 ^ 8) ≡ n % 256
byte_of n = omega arith

pub buffer-write_uint16 :
    (w : BufferWriter) (v : ℕ) → buffer (write_uint16 w v) ≡ buffer w ++ uint16_bytes v
unfolding write_uint16
buffer-write_uint16 w v = simp (buffer-push_back, append_assoc, byte_of)

abbrev pub uint32_bytes : ℕ → List ℕ
uint32_bytes v = v / 2 ^ 24 % 256 ∷ v / 2 ^ 16 % 256 ∷ v / 256 % 256 ∷ v % 256 ∷ []

pub buffer-write_uint32 :
    (w : BufferWriter) (v : ℕ) → buffer (write_uint32 w v) ≡ buffer w ++ uint32_bytes v
unfolding write_uint32
buffer-write_uint32 w v = simp (buffer-push_back, append_assoc, byte_of)

-- A string goes out as its length modulo 2 ^ 16, then all its bytes.
abbrev pub string_bytes : List ℕ → List ℕ
string_bytes s = uint16_bytes (u16 (length s)) ++ s

pub buffer-write_string :
    (w : BufferWriter) (s : List ℕ) → buffer (write_string w s) ≡ buffer w ++ string_bytes s
unfolding write_string
buffer-write_string w [] = buffer-write_uint16 w 0
buffer-write_string w (c ∷ s) = simp (buffer-insert_end, buffer-write_uint16, append_assoc)

pub buffer-write_bytes :
    (w : BufferWriter) (bs : List ℕ) → buffer (write_bytes w bs) ≡ buffer w ++ bs
unfolding write_bytes
buffer-write_bytes w [] = simp append-nil
buffer-write_bytes w (b ∷ bs) = buffer-insert_end w (b ∷ bs)

pub size_lem : (w : BufferWriter) → size w ≡ length (buffer w)
unfolding size
size_lem w = refl

-- A move hands the contents over and leaves an empty writer that owns its buffer.
pub move_keeps :
    (w : BufferWriter)
    → (buffer (move_writer w).0 ≡ buffer w)
      × (buffer (move_writer w).1 ≡ [])
      × ((move_writer w).1.owns_buf ≡ true)
unfolding move_writer buffer
move_keeps w = (refl, refl, refl)

-- ===== src/Codec/Writer.antt =====
-- inc/litemqtt/buffer_writer.hpp: the byte writer. A vector of bytes is a list of numbers.
pub mod Laws
pub mod Length
use lite_mqtt.Prelude.{
  ℕ, zero, suc, ◌/◌, ◌%◌, Bool, true, false, List, [], ◌∷◌, ◌++◌, ltb, if◌then◌else◌, length,
  is_empty, bit_or, u8, u16, u32, shr, ◌^◌,
}

-- `target` is the vector that `buf_` points at. It is not read while `owns_buf` is set, and stands
-- for the null or unset pointer then.
pub record BufferWriter : Type 0 where
  pub owns_buf : Bool
  pub target : List ℕ
  pub own : List ℕ

-- `buffer_writer w;` and `buffer_writer w(buf);`
abbrev pub new_writer : BufferWriter
new_writer = record { owns_buf = true; target = []; own = [] }

abbrev pub writer_to : List ℕ → BufferWriter
writer_to buf = record { owns_buf = false; target = buf; own = [] }

-- The move constructor: the new writer, and what is left of the old one.
pub move_writer : BufferWriter → BufferWriter × BufferWriter
move_writer other = (
  record { owns_buf = other.owns_buf; target = other.target; own = other.own },
  record { owns_buf = true; target = []; own = [] },
)

unfoldable pub buffer : BufferWriter → List ℕ
buffer w = if w.owns_buf then w.own else w.target

-- What a change of the vector that `buffer()` returns leaves behind.
with_buffer : BufferWriter → List ℕ → BufferWriter
with_buffer w b = if w.owns_buf then record w { own = b } else record w { target = b }

pub push_back : BufferWriter → ℕ → BufferWriter
unfolding buffer with_buffer
push_back w b = with_buffer w (buffer w ++ b ∷ [])

pub insert_end : BufferWriter → List ℕ → BufferWriter
unfolding buffer with_buffer
insert_end w bs = with_buffer w (buffer w ++ bs)

pub write_uint8 : BufferWriter → ℕ → BufferWriter
write_uint8 w value = push_back w value

pub write_uint16 : BufferWriter → ℕ → BufferWriter
write_uint16 w value = push_back (push_back w (u8 (shr value 8 % 2 ^ 8))) (u8 (value % 2 ^ 8))

pub write_uint32 : BufferWriter → ℕ → BufferWriter
write_uint32 w value =
    let w = push_back w (u8 (shr value 24 % 2 ^ 8)) in
    let w = push_back w (u8 (shr value 16 % 2 ^ 8)) in
    let w = push_back w (u8 (shr value 8 % 2 ^ 8)) in push_back w (u8 (value % 2 ^ 8))

pub write_string : BufferWriter → List ℕ → BufferWriter
write_string w str =
    let w' = write_uint16 w (u16 (length str)) in if is_empty str then w' else insert_end w' str

-- The argument is the range `data .. data + len`.
pub write_bytes : BufferWriter → List ℕ → BufferWriter
write_bytes w bytes = if is_empty bytes then w else insert_end w bytes

-- The digit that one round of the loop below pushes.
length_digit : ℕ → ℕ
length_digit val =
    let digit = u8 (val % 128) in if ltb 0 (val / 128) then u8 (bit_or digit 0x80) else digit

-- The do-while loop. Each round divides `val` by 128.
pub write_length_loop : ℕ → BufferWriter → ℕ → BufferWriter
write_length_loop zero w val = w
write_length_loop (suc fuel) w val =
    let w' = push_back w (length_digit val) in
    let rest = write_length_loop fuel w' (val / 128) in if ltb 0 (val / 128) then rest else w'

-- A uint32_t has at most five digits to the base 128.
abbrev pub length_rounds : ℕ
length_rounds = 5

pub write_remaining_length : BufferWriter → ℕ → BufferWriter
write_remaining_length w len = write_length_loop length_rounds w (u32 len)

pub size : BufferWriter → ℕ
unfolding buffer
size w = length (buffer w)

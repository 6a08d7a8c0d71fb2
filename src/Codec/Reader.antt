-- ===== src/Codec/Reader.antt =====
-- inc/litemqtt/buffer_reader.hpp: the byte reader.
pub mod Laws
pub mod Length
pub mod Bounds
pub mod Mutable
use lite_mqtt.Prelude.{
  ℕ, zero, suc, ◌+◌, ◌-◌, ◌*◌, ◌^◌, Bool, true, false, List, [], ◌∷◌, ltb, leb, ◌==◌, not, ◌||◌,
  ◌%◌, if◌then◌else◌, length, get_or, take, drop, bit_and, bit_or, u16, u32, shl,
}

-- `overrun` says whether memcpy was called for bytes behind the end of the buffer.
pub record BufferReader : Type 0 where
  pub buf : List ℕ
  pub pos : ℕ
  pub overrun : Bool

-- A read returns a flag and writes through a reference: `value` is what that variable holds
-- afterwards, its old value where nothing was written.
pub record Got (A : Type 0) : Type 0 where
  pub done : Bool
  pub value : A
  pub reader : BufferReader

abbrev pub new_reader : List ℕ → BufferReader
new_reader buf = record { buf = buf; pos = 0; overrun = false }

abbrev pub advance : ℕ → BufferReader → BufferReader
advance n r = record r { pos = r.pos + n }

abbrev got : {A : Type 0} → Bool → A → BufferReader → Got A
got b v r = record { done = b; value = v; reader = r }

-- `buf_[i]`; every use is behind a test that `i` is in range.
abbrev at : BufferReader → ℕ → ℕ
at r i = get_or r.buf i 0

-- In the tests `pos_ + n > buf_.size()` the sum does not wrap for the reads of at most 65537 bytes
-- from a position within a vector.
abbrev lacks : BufferReader → ℕ → Bool
lacks r n = ltb (length r.buf) (r.pos + n)

pub read_uint8 : ℕ → BufferReader → Got ℕ
read_uint8 value r =
    if leb (length r.buf) r.pos then got false value r else got true (at r r.pos) (advance 1 r)

pub read_uint16 : ℕ → BufferReader → Got ℕ
read_uint16 value r =
    if lacks r 2
    then got false value r
    else got true (u16 (bit_or (shl (at r r.pos) 8) (at r (r.pos + 1)))) (advance 2 r)

pub read_uint32 : ℕ → BufferReader → Got ℕ
read_uint32 value r =
    if lacks r 4
    then got false value r
    else got true
        (bit_or
          (bit_or (bit_or (u32 (shl (at r r.pos) 24)) (u32 (shl (at r (r.pos + 1)) 16)))
            (u32 (shl (at r (r.pos + 2)) 8)))
          (at r (r.pos + 3)))
        (advance 4 r)

-- What read_string does once the length is known.
read_body : List ℕ → ℕ → BufferReader → Got (List ℕ)
read_body str len r =
    if len == 0
    then got true [] r
    else (if lacks r len
        then got false str r
        else got true (take len (drop r.pos r.buf)) (advance len r))

pub read_string : List ℕ → BufferReader → Got (List ℕ)
unfolding read_uint16 read_body
read_string str r =
    let g = read_uint16 0 r in
    if g.done then read_body str g.value g.reader else got false str g.reader

-- `len` is any size_t here, so the sum can wrap, and then the test lets through what is not there:
-- memcpy runs over the end. The bytes go to `data`, which holds `old` before; of an overrun the value
-- has only the bytes that the buffer holds.
pub read_bytes : List ℕ → ℕ → BufferReader → Got (List ℕ)
read_bytes old len r =
    if ltb (length r.buf) ((r.pos + len) % 2 ^ 64)
    then got false old r
    else got true (take len (drop r.pos r.buf)) (record r {
      pos = (r.pos + len) % 2 ^ 64;
      overrun = r.overrun || ltb (length r.buf) (r.pos + len);
    })

-- One round of the do-while loop reads a digit. The test on `bytes_read` ends it in the fifth round.
read_length_loop : ℕ → ℕ → ℕ → ℕ → BufferReader → Got ℕ
unfolding read_uint8
read_length_loop zero bytes_read multiplier value r = got false value r
read_length_loop (suc fuel) bytes_read multiplier value r =
    let g = read_uint8 0 r in
    let digit = g.value in
    let value' = value + u32 (bit_and digit 0x7F * multiplier) in
    let rest = read_length_loop fuel (bytes_read + 1) (u32 (multiplier * 128)) value' g.reader in
    if not g.done
    then got false value g.reader
    else (if ltb 4 (bytes_read + 1)
        then got false value g.reader
        else (if not (bit_and digit 0x80 == 0) then rest else got true value' g.reader))

pub read_remaining_length : BufferReader → Got ℕ
unfolding read_length_loop
read_remaining_length r = read_length_loop 5 0 1 0 r

pub reader_empty : BufferReader → Bool
reader_empty r = leb (length r.buf) r.pos

-- The size_t difference, which wraps where the position is past the end.
pub remaining : BufferReader → ℕ
remaining r =
    if leb r.pos (length r.buf) then length r.buf - r.pos else length r.buf + 2 ^ 64 - r.pos

pub skip : ℕ → BufferReader → BufferReader
skip n r = record r { pos = (r.pos + n) % 2 ^ 64 }

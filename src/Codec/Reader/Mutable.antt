-- ===== src/Codec/Reader/Mutable.antt =====
-- inc/litemqtt/buffer_reader.hpp: buffer_reader_mutable, which reads from a vector of its caller. The
-- contents of the vector are an argument of each operation: they may change between two calls.
use lite_mqtt.Prelude.{
  ℕ, zero, suc, ◌+◌, ◌-◌, ◌*◌, ◌^◌, Bool, true, false, not, List, [], ltb, leb, ◌==◌, if◌then◌else◌,
  length, get_or, take, drop, bit_and, bit_or, u16, u32, shl,
}

-- The flag, what the caller's variable holds afterwards, and the position.
pub record MutableGot (A : Type 0) : Type 0 where
  pub done : Bool
  pub value : A
  pub pos : ℕ

abbrev got : {A : Type 0} → Bool → A → ℕ → MutableGot A
got b v pos = record { done = b; value = v; pos = pos }

pub read_uint8 : List ℕ → ℕ → ℕ → MutableGot ℕ
read_uint8 buf value pos =
    if leb (length buf) pos then got false value pos else got true (get_or buf pos 0) (pos + 1)

pub read_uint16 : List ℕ → ℕ → ℕ → MutableGot ℕ
read_uint16 buf value pos =
    if ltb (length buf) (pos + 2)
    then got false value pos
    else got true (u16 (bit_or (shl (get_or buf pos 0) 8) (get_or buf (pos + 1) 0))) (pos + 2)

-- What read_string does once the length is known.
read_body : List ℕ → List ℕ → ℕ → ℕ → MutableGot (List ℕ)
read_body buf str len pos =
    if len == 0
    then got true [] pos
    else (if ltb (length buf) (pos + len)
        then got false str pos
        else got true (take len (drop pos buf)) (pos + len))

pub read_string : List ℕ → List ℕ → ℕ → MutableGot (List ℕ)
unfolding read_uint16 read_body
read_string buf str pos =
    let g = read_uint16 buf 0 pos in
    if g.done then read_body buf str g.value g.pos else got false str g.pos

read_length_loop : ℕ → List ℕ → ℕ → ℕ → ℕ → ℕ → MutableGot ℕ
unfolding read_uint8
read_length_loop zero buf bytes_read multiplier value pos = got false value pos
read_length_loop (suc fuel) buf bytes_read multiplier value pos =
    let g = read_uint8 buf 0 pos in
    let value' = value + u32 (bit_and g.value 0x7F * multiplier) in
    let rest = read_length_loop fuel buf (bytes_read + 1) (u32 (multiplier * 128)) value' g.pos in
    if not g.done
    then got false value g.pos
    else (if ltb 4 (bytes_read + 1)
        then got false value g.pos
        else (if not (bit_and g.value 0x80 == 0) then rest else got true value' g.pos))

-- The loop ends in its fifth round at the latest.
pub read_remaining_length : List ℕ → ℕ → MutableGot ℕ
unfolding read_length_loop
read_remaining_length buf pos = read_length_loop 5 buf 0 1 0 pos

pub reader_empty : List ℕ → ℕ → Bool
reader_empty buf pos = leb (length buf) pos

-- The size_t difference wraps.
pub remaining : List ℕ → ℕ → ℕ
remaining buf pos = if leb pos (length buf) then length buf - pos else length buf + 2 ^ 64 - pos

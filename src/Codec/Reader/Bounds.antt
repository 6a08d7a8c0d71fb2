-- ===== src/Codec/Reader/Bounds.antt =====
-- Every read keeps the position within the buffer, on success and on failure.
use lite_mqtt.Prelude.{
  ℕ, zero, suc, ◌+◌, ◌*◌, ◌≤◌, ◌≡◌, refl, ap, true, false, ◌^◌, ◌%◌, ◌<◌, ltb, le→not-ltb, lt→ltb,
  List, arith, length, u32, bit_and, Bool-cases, inl, inr,
}
use lite_mqtt.Codec.Reader.{
  BufferReader, read_uint8, read_uint16, read_uint32, read_body, read_string, read_bytes,
  read_length_loop, read_remaining_length,
}

-- The position is within the buffer, the buffer is the one before, and nothing was read behind it.
pub record InBounds (buf : List ℕ) (r : BufferReader) : Type 0 where
  pub same_buf : r.buf ≡ buf
  pub within : r.pos ≤ length buf
  pub clean : r.overrun ≡ false

module _ (buf : List ℕ) where
  pub read_uint8-InBounds :
      (old : ℕ) (r : BufferReader) → InBounds buf r → InBounds buf (read_uint8 old r).reader
  unfolding read_uint8
  read_uint8-InBounds old r b = ground (arith, ap length b.same_buf)

  pub read_uint16-InBounds :
      (old : ℕ) (r : BufferReader) → InBounds buf r → InBounds buf (read_uint16 old r).reader
  unfolding read_uint16
  read_uint16-InBounds old r b = ground (arith, ap length b.same_buf)

  pub read_uint32-InBounds :
      (old : ℕ) (r : BufferReader) → InBounds buf r → InBounds buf (read_uint32 old r).reader
  unfolding read_uint32
  read_uint32-InBounds old r b = ground (arith, ap length b.same_buf)

  read_body-InBounds :
      (old : List ℕ) (len : ℕ) (r : BufferReader)
      → InBounds buf r
      → InBounds buf (read_body old len r).reader
  unfolding read_body
  read_body-InBounds old len r b = ground (arith, ap length b.same_buf)

  pub read_string-InBounds :
      (old : List ℕ) (r : BufferReader) → InBounds buf r → InBounds buf (read_string old r).reader
  unfolding read_string
  read_string-InBounds old r b =
      let g = read_uint16-InBounds 0 r b in
      elim (Bool-cases (read_uint16 0 r).done) [
        | inl t ↦ rw t (read_body-InBounds old (read_uint16 0 r).value (read_uint16 0 r).reader g)
        | inr f ↦ rw f g
      ]

  pub read_bytes-InBounds :
      (old : List ℕ) (len : ℕ) (r : BufferReader)
      → r.pos + len < 2 ^ 64
      → InBounds buf r
      → InBounds buf (read_bytes old len r).reader
  unfolding read_bytes
  read_bytes-InBounds old len r small b = ground (arith, ap length b.same_buf)

  read_length_loop-InBounds :
      (fuel k m v : ℕ) (r : BufferReader)
      → InBounds buf r
      → InBounds buf (read_length_loop fuel k m v r).reader
  unfolding read_length_loop
  read_length_loop-InBounds zero k m v r b = b
  read_length_loop-InBounds (suc fuel) k m v r b =
      let g = read_uint8 0 r in
      let b' = read_uint8-InBounds 0 r b in
      ground (
        arith,
        b',
        read_length_loop-InBounds fuel (k + 1) (u32 (m * 128)) (v + u32 (bit_and g.value 0x7F * m))
            g.reader b',
      )

  pub read_remaining_length-InBounds :
      (r : BufferReader) → InBounds buf r → InBounds buf (read_remaining_length r).reader
  unfolding read_remaining_length
  read_remaining_length-InBounds r b = read_length_loop-InBounds 5 0 1 0 r b

-- A length so large that the sum with the position wraps back into the buffer.
read_bytes_overruns :
    (buf old : List ℕ) (big : ℕ) (r : BufferReader)
    → InBounds buf r
    → length buf < 2 ^ 64
    → 2 ^ 64 ≤ r.pos + big
    → (r.pos + big) % 2 ^ 64 ≤ length buf
    → ((read_bytes old big r).done ≡ true) × ((read_bytes old big r).reader.overrun ≡ true)
unfolding read_bytes
read_bytes_overruns buf old big r b real wraps back =
    let same = ap length b.same_buf in
    let passes : ltb (length r.buf) ((r.pos + big) % 2 ^ 64) ≡ false =
      le→not-ltb (length r.buf) ((r.pos + big) % 2 ^ 64) (omega arith) in
    let over : ltb (length r.buf) (r.pos + big) ≡ true =
      lt→ltb (length r.buf) (r.pos + big) (omega arith) in
    rw (passes, over) (refl, rw b.clean refl)

-- Each read, successful or not, leaves the buffer as it is and the position within it, and reads
-- nothing behind its end, if a number of bytes asked for does not take the position over 2 ^ 64. If it
-- does, and the sum wraps to a position within the buffer, read_bytes succeeds and copies bytes from
-- behind the end.
pub reads-InBounds :
    (buf old : List ℕ) (v len big : ℕ) (r : BufferReader)
    → InBounds buf r
    → length buf < 2 ^ 64
    → r.pos + len < 2 ^ 64
    → 2 ^ 64 ≤ r.pos + big
    → (r.pos + big) % 2 ^ 64 ≤ length buf
    → InBounds buf (read_uint8 v r).reader
      × InBounds buf (read_uint16 v r).reader
      × InBounds buf (read_uint32 v r).reader
      × InBounds buf (read_string old r).reader
      × InBounds buf (read_bytes old len r).reader
      × InBounds buf (read_remaining_length r).reader
      × ((read_bytes old big r).done ≡ true)
      × ((read_bytes old big r).reader.overrun ≡ true)
reads-InBounds buf old v len big r b real small wraps back =
    let (passes, over) = read_bytes_overruns buf old big r b real wraps back in
    (
      read_uint8-InBounds buf v r b,
      read_uint16-InBounds buf v r b,
      read_uint32-InBounds buf v r b,
      read_string-InBounds buf old r b,
      read_bytes-InBounds buf old len r small b,
      read_remaining_length-InBounds buf r b,
      passes,
      over,
    )

-- ===== src/Connection/Framing/Frames.antt =====
-- The reader of the byte stream on well-formed frames.
use lite_mqtt.Prelude.{
  ℕ, suc-ne-zero, zero, suc, ◌+◌, ◌*◌, ◌/◌, ◌%◌, ◌^◌, ◌<◌, ◌≤◌, ◌≡◌, refl, ap, ◌∙◌, true, false,
  some, List, [], ◌∷◌, ◌++◌, arith, append_assoc, append-nil, ltb, shr, bit_and, get_or, length,
  low_group, top_bit, le→not-ltb, ltb→lt, ltb-false→le, Bool-cases, inl, inr,
}
use native.Mathlib.Nat.{pow-suc, div-add-mod}
use lite_mqtt.Codec.PacketType.{is_valid_packet_type}
use lite_mqtt.Codec.Writer.Length.{
  length_digits, length_digits-last, length_digits-more, encoding, encoding_lem,
}
use lite_mqtt.Codec.Packets.Frame.{frame}
use lite_mqtt.Connection.Asio.{AsioError, ReadResult, FillsBuffer}
use lite_mqtt.Connection.Framing.{
  Reading, Run, packet, RemainingLengthState, store_byte, read_packet_body, length_byte_read,
  read_length_step, read_remaining_length, async_read_packet,
}

-- The read handed over `bytes`, left `more` unread, and the connection is ready for the next read.
pub record Delivers (run : Run) (bytes more : List ℕ) : Type 0 where
  pub outcome : run.outcome ≡ some (packet bytes)
  pub input : run.input ≡ more
  pub idle : run.reading.reading_depth ≡ 0

pub store_byte_lem :
    (xs : List ℕ) (i b : ℕ)
    → i < length xs
    → (ys : List ℕ) × (store_byte xs i b ≡ some ys) × (get_or ys i 0 ≡ b) × (length ys ≡ length xs)
unfolding store_byte
store_byte_lem [] i b h = elim h [ ]
store_byte_lem (x ∷ xs) zero b h = (b ∷ xs, refl, refl, refl)
store_byte_lem (x ∷ xs) (suc i) b h =
    let (ys, e, g, l) = store_byte_lem xs i b (omega arith) in (x ∷ ys, rw e refl, g, ap suc l)

module _ (async_read : ℕ → List ℕ → ReadResult) (ending : AsioError)
    (io : FillsBuffer async_read ending) where
  read_packet_body-Delivers :
      (c : Reading) (body more : List ℕ)
      → Delivers
          (read_packet_body async_read (length body) c (body ++ more))
          (c.read_header ++ body)
          more
  unfolding read_packet_body
  read_packet_body-Delivers c [] more = record {
    outcome = rw append-nil refl;
    input = refl;
    idle = refl;
  }
  read_packet_body-Delivers c (b ∷ body) more =
      rw (suc-ne-zero (length body), io.fills (suc (length body)) (b ∷ body) more refl)
        (record { outcome = refl; input = refl; idle = refl })

  -- A length byte that arrives while there is room for it is stored and handled.
  pub byte_arrives :
      (fuel b : ℕ) (st : RemainingLengthState) (c : Reading) (input : List ℕ)
      → st.bytes_read < length st.byte_buffer
      → (buffer : List ℕ) × (length buffer ≡ length st.byte_buffer)
        × (read_length_step async_read (suc fuel) st c (b ∷ input)
            ≡ length_byte_read async_read
                (read_length_step async_read fuel)
                b
                (record st { byte_buffer = buffer })
                c
                input)
  unfolding read_length_step
  byte_arrives fuel b st c input h =
      let (buffer, e, g, l) = store_byte_lem st.byte_buffer st.bytes_read b h in
      (buffer, l, rw (io.fills 1 (b ∷ []) input refl, read_length_step, e, g) refl)

  -- The last length byte: the body follows.
  last_byte :
      (again : RemainingLengthState → Reading → List ℕ → Run) (d : ℕ) (st : RemainingLengthState)
      (c : Reading) (body more : List ℕ)
      → st.bytes_read < 4
      → d < 128
      → length body ≡ st.remaining_length + d * st.multiplier
      → Delivers
          (length_byte_read async_read again d st c (body ++ more))
          (c.read_header ++ d ∷ body)
          more
  unfolding length_byte_read
  last_byte again d st c body more hk hd e =
      let low : bit_and d 0x7F ≡ d = omega (arith, low_group d (omega arith)) in
      let top : bit_and d 0x80 ≡ 0 = omega (arith, top_bit d (omega arith)) in
      rw
        (
          le→not-ltb 4 (st.bytes_read + 1) (omega arith),
          low,
          top,
          ← e,
          ← append_assoc c.read_header (d ∷ []) body,
        )
        (read_packet_body-Delivers (record c { read_header = c.read_header ++ d ∷ [] }) body more)

  -- A length byte with the continuation bit: the next one is read.
  pub more_byte :
      (again : RemainingLengthState → Reading → List ℕ → Run) (d : ℕ) (st : RemainingLengthState)
      (c : Reading) (input : List ℕ)
      → st.bytes_read < 4
      → d < 128
      → length_byte_read async_read again (d + 128) st c input
        ≡ again
            (record st {
              bytes_read = st.bytes_read + 1;
              remaining_length = st.remaining_length + d * st.multiplier;
              multiplier = st.multiplier * 128;
            })
            (record c { read_header = c.read_header ++ (d + 128) ∷ [] })
            input
  unfolding length_byte_read
  more_byte again d st c input hk hd =
      let low : bit_and (d + 128) 0x7F ≡ d = omega (arith, low_group (d + 128) (omega arith)) in
      let top : bit_and (d + 128) 0x80 ≡ 128 = omega (arith, top_bit (d + 128) (omega arith)) in
      rw (le→not-ltb 4 (st.bytes_read + 1) (omega arith), low, top) refl

  -- The length bytes of `val`, then the body.
  length_steps-Delivers :
      (j f g val : ℕ) (st : RemainingLengthState) (c : Reading) (body more : List ℕ)
      → st.bytes_read + suc j ≤ 4
      → length st.byte_buffer ≡ 4
      → j ≤ f
      → j ≤ g
      → val < 128 ^ suc j
      → length body ≡ st.remaining_length + val * st.multiplier
      → Delivers
          (read_length_step async_read (suc f) st c (length_digits (suc g) val ++ (body ++ more)))
          (c.read_header ++ (length_digits (suc g) val ++ body))
          more
  length_steps-Delivers zero f g val st c body more hk hb hf hg hv e =
      let (buffer, l, step) = byte_arrives f val st c (body ++ more) (omega arith) in
      rw (length_digits-last g val hv, step)
        (last_byte (read_length_step async_read f) val (record st { byte_buffer = buffer }) c body
          more (omega arith) hv e)
  length_steps-Delivers (suc j) zero g val st c body more hk hb hf hg hv e = elim hf [ ]
  length_steps-Delivers (suc j) (suc f) zero val st c body more hk hb hf hg hv e = elim hg [ ]
  length_steps-Delivers (suc j) (suc f) (suc g) val st c body more hk hb hf hg hv e =
      elim (Bool-cases (ltb val 128)) [
        | inl small ↦
            let low = ltb→lt val 128 small in
            let (buffer, l, step) = byte_arrives (suc f) val st c (body ++ more) (omega arith) in
            rw (length_digits-last (suc g) val low, step)
              (last_byte (read_length_step async_read (suc f)) val
                (record st { byte_buffer = buffer }) c body more (omega arith) low e)
        | inr big ↦
            let d = val % 128 in
            let ds : List ℕ = length_digits (suc g) (val / 128) in
            let (buffer, l, step) =
              byte_arrives (suc f) (d + 128) st c (ds ++ (body ++ more)) (omega arith) in
            let st' : RemainingLengthState = record {
              byte_buffer = buffer;
              bytes_read = st.bytes_read + 1;
              multiplier = st.multiplier * 128;
              remaining_length = st.remaining_length + d * st.multiplier;
            } in
            let c' : Reading = record c { read_header = c.read_header ++ (d + 128) ∷ [] } in
            rw
              (
                length_digits-more (suc g) val (ltb-false→le val 128 big),
                step,
                more_byte (read_length_step async_read (suc f)) d
                    (record st { byte_buffer = buffer }) c (ds ++ (body ++ more)) (omega arith)
                    (omega arith),
                ← append_assoc c.read_header ((d + 128) ∷ []) (ds ++ body),
              )
              (length_steps-Delivers j f g (val / 128) st' c' body more (omega arith) (omega arith)
                (omega arith) (omega arith) (omega (arith, pow-suc 128 (suc j)))
                (omega (arith, e, ap (λ (t : ℕ). t * st.multiplier) (div-add-mod val 128))))
      ]

  -- The fixed header of a frame is read: its first two bytes.
  pub header_arrives :
      (c : Reading) (first second : ℕ) (input : List ℕ)
      → c.reading_depth ≡ 0
      → is_valid_packet_type (shr first 4) ≡ true
      → async_read_packet async_read c (first ∷ second ∷ input)
        ≡ read_remaining_length async_read second
            (record {
              fixed_header = first ∷ second ∷ [];
              read_header = first ∷ second ∷ [];
              reading_depth = c.reading_depth + 1;
              stray_write = c.stray_write;
            })
            input
  unfolding async_read_packet
  header_arrives c first second input idle valid =
      let free : ltb 0 c.reading_depth ≡ false = le→not-ltb 0 c.reading_depth (omega arith) in
      rw (free, io.fills 2 (first ∷ second ∷ []) input refl, async_read_packet, valid) refl

  -- Its second byte is the first of the length.
  length-Delivers :
      (n : ℕ) (body more : List ℕ)
      → n ≡ length body
      → n < 2 ^ 28
      → (second : ℕ) × (ds : List ℕ) × (encoding n ≡ second ∷ ds)
        × ((c : Reading)
            → Delivers
                (read_remaining_length async_read second c (ds ++ (body ++ more)))
                (c.read_header ++ (ds ++ body))
                more)
  unfolding read_remaining_length
  length-Delivers n body more e small = elim (Bool-cases (ltb n 128)) [
    | inl one ↦
        let lt = ltb→lt n 128 one in
        let low : bit_and n 0x7F ≡ n = omega (arith, low_group n (omega arith)) in
        let top : bit_and n 0x80 ≡ 0 = omega (arith, top_bit n (omega arith)) in
        let same : n * 1 ≡ length body = omega arith in
        (
          n,
          [],
          encoding_lem n (omega arith) ∙ length_digits-last 4 n lt,
          λ c. rw (top, low, same) (read_packet_body-Delivers c body more),
        )
    | inr many ↦
        let ge = ltb-false→le n 128 many in
        let d = n % 128 in
        let low : bit_and (d + 128) 0x7F ≡ d = omega (arith, low_group (d + 128) (omega arith)) in
        let top : bit_and (d + 128) 0x80 ≡ 128 = omega (arith, top_bit (d + 128) (omega arith)) in
        (
          d + 128,
          length_digits 4 (n / 128),
          encoding_lem n (omega arith) ∙ length_digits-more 4 n ge,
          λ c. rw top (
              length_steps-Delivers 2 3 3 (n / 128)
                (record {
                  byte_buffer = (d + 128) ∷ 0 ∷ 0 ∷ 0 ∷ [];
                  bytes_read = 1;
                  multiplier = 128;
                  remaining_length = bit_and (d + 128) 0x7F * 1;
                })
                c body more (omega arith) refl (omega arith) (omega arith) (omega arith)
                (omega (arith, low))),
        )
  ]

  -- A frame with a valid type and a body below 2 ^ 28 bytes is handed over whole, and nothing
  -- behind it is touched.
  pub async_read_packet-Delivers :
      (c : Reading) (first : ℕ) (body more : List ℕ)
      → c.reading_depth ≡ 0
      → is_valid_packet_type (shr first 4) ≡ true
      → length body < 2 ^ 28
      → Delivers (async_read_packet async_read c (frame first body ++ more)) (frame first body) more
  async_read_packet-Delivers c first body more idle valid small =
      let (second, ds, e, d) = length-Delivers (length body) body more refl small in
      rw
        (
          e,
          append_assoc ds body more,
          header_arrives c first second (ds ++ (body ++ more)) idle valid,
        )
        (d _)

-- ===== src/Connection/Framing/Faults.antt =====
-- The reader of the byte stream on any input: it answers, and where it writes outside its array.
use lite_mqtt.Prelude.{
  ℕ, zero, suc, ◌+◌, ◌<◌, ◌≤◌, ◌≡◌, ◌⊎◌, inl, inr, refl, ap, ◌∙◌, Bool, true, false, not, none,
  some, List, [], ◌∷◌, arith, ltb, ◌==◌, if◌then◌else◌, shr, bit_and, get_or, length, le→not-ltb,
  lt→ltb, top_bit,
}
use lite_mqtt.Codec.PacketType.{is_valid_packet_type}
use lite_mqtt.Connection.Asio.{
  AsioError, invalid_argument, message_size, ReadResult, filled, failed, FillsBuffer,
}
use lite_mqtt.Connection.Framing.{
  Reading, Run, Delivery, failure, post, RemainingLengthState, length_state, store_byte,
  read_packet_body, length_byte_read, read_length_step, read_remaining_length, async_read_packet,
}
use lite_mqtt.Connection.Framing.Frames.{more_byte, byte_arrives, header_arrives}

-- The handler is posted once and the connection is free for the next read.
pub data Answers (run : Run) : Type 0 where
  answers : (d : Delivery) → run.outcome ≡ some d → run.reading.reading_depth ≡ 0 → Answers run

post-Answers : (c : Reading) (d : Delivery) (input : List ℕ) → Answers (post c d input)
post-Answers c d input = answers d refl refl

if-Answers : (b : Bool) (x y : Run) → Answers x → Answers y → Answers (if b then x else y)
if-Answers true x y hx hy = hx
if-Answers false x y hx hy = hy

ReadResult-cases :
    (r : ReadResult)
    → ((ec : AsioError) × (r ≡ failed ec))
      ⊎ ((bytes : List ℕ) × (rest : List ℕ) × (r ≡ filled bytes rest))
ReadResult-cases (failed ec) = inl (ec, refl)
ReadResult-cases (filled bytes rest) = inr (bytes, rest, refl)

Stored-cases :
    (xs : List ℕ) (i b : ℕ)
    → ((store_byte xs i b ≡ none) × (length xs ≤ i))
      ⊎ ((ys : List ℕ) × (store_byte xs i b ≡ some ys) × (i < length xs) × (length ys ≡ length xs))
unfolding store_byte
Stored-cases [] i b = inl (refl, omega arith)
Stored-cases (x ∷ xs) zero b = inr (b ∷ xs, refl, omega arith, refl)
Stored-cases (x ∷ xs) (suc i) b = elim (Stored-cases xs i b) [
  | inl (e, h) ↦ inl (rw e refl, omega arith)
  | inr (ys, e, h, l) ↦ inr (x ∷ ys, rw e refl, omega arith, ap suc l)
]

module _ (async_read : ℕ → List ℕ → ReadResult) where
  read_packet_body-Answers :
      (n : ℕ) (c : Reading) (input : List ℕ) → Answers (read_packet_body async_read n c input)
  unfolding read_packet_body
  read_packet_body-Answers n c input = elim (ReadResult-cases (async_read n input)) [
    | inl (ec, e) ↦ rw e (if-Answers (n == 0) _ _ (post-Answers c _ input) (post-Answers c _ input))
    | inr (bytes, rest, e) ↦
        rw e (if-Answers (n == 0) _ _ (post-Answers c _ input) (post-Answers c _ rest))
  ]

  -- The fuel of the steps is the room that is left, and one.
  read_length_step-Answers :
      (fuel : ℕ) (st : RemainingLengthState) (c : Reading) (input : List ℕ)
      → st.bytes_read + fuel ≡ 5
      → st.bytes_read ≤ 4
      → length st.byte_buffer ≡ 4
      → Answers (read_length_step async_read fuel st c input)
  unfolding read_length_step length_byte_read
  read_length_step-Answers zero st c input h k l = absurd (omega arith)
  read_length_step-Answers (suc fuel) st c input h k l =
      elim (ReadResult-cases (async_read 1 input)) [
        | inl (ec, e) ↦ rw (e, read_length_step) (post-Answers c _ input)
        | inr (bytes, rest, e) ↦
            elim (Stored-cases st.byte_buffer st.bytes_read (get_or bytes 0 0)) [
              | inl (out, full) ↦
                  rw (e, read_length_step, out, lt→ltb 4 (st.bytes_read + 1) (omega arith))
                    (post-Answers (record c { stray_write = true }) _ rest)
              | inr (buffer, stored, h', l') ↦
                  rw (e, read_length_step, stored)
                    (if-Answers (ltb 4 (st.bytes_read + 1)) _ _ (post-Answers c _ rest) (
                      if-Answers _ _ _
                        (read_length_step-Answers fuel _ _ rest (omega arith) (omega arith)
                          (omega arith))
                        (read_packet_body-Answers _ _ rest)))
            ]
      ]

  read_remaining_length-Answers :
      (first : ℕ) (c : Reading) (input : List ℕ)
      → Answers (read_remaining_length async_read first c input)
  unfolding read_remaining_length
  read_remaining_length-Answers first c input =
      if-Answers (not (bit_and first 0x80 == 0)) _ _
        (read_length_step-Answers 4 (length_state first) c input refl (omega arith) refl)
        (read_packet_body-Answers (length_state first).remaining_length c input)

  -- A read that starts with the connection free ends: the handler is called exactly once, with a
  -- packet or an error, and the connection is free again. This holds for every input and every
  -- behaviour of the socket.
  pub async_read_packet-Answers :
      (c : Reading) (input : List ℕ)
      → c.reading_depth ≡ 0
      → Answers (async_read_packet async_read c input)
  unfolding async_read_packet
  async_read_packet-Answers c input idle =
      let free : ltb 0 c.reading_depth ≡ false = le→not-ltb 0 c.reading_depth (omega arith) in
      elim (ReadResult-cases (async_read 2 input)) [
        | inl (ec, e) ↦
            rw (free, e, async_read_packet)
              (post-Answers (record c { reading_depth = c.reading_depth + 1 }) (failure ec) input)
        | inr (bytes, rest, e) ↦
            let first = get_or bytes 0 0 in
            let second = get_or bytes 1 0 in
            let c' : Reading = record {
              fixed_header = bytes;
              read_header = c.read_header;
              reading_depth = c.reading_depth + 1;
              stray_write = c.stray_write;
            } in
            rw (free, e, async_read_packet)
              (if-Answers (not (is_valid_packet_type (shr first 4))) _ _
                (post-Answers c' (failure invalid_argument) rest)
                (read_remaining_length-Answers second
                  (record c' { read_header = first ∷ second ∷ [] }) rest))
      ]

module _ (async_read : ℕ → List ℕ → ReadResult) (ending : AsioError)
    (io : FillsBuffer async_read ending) where
  full_step :
      (fuel b : ℕ) (st : RemainingLengthState) (c : Reading) (input : List ℕ)
      → store_byte st.byte_buffer st.bytes_read b ≡ none
      → 4 ≤ st.bytes_read
      → read_length_step async_read (suc fuel) st c (b ∷ input)
        ≡ post (record c { stray_write = true }) (failure message_size) input
  unfolding read_length_step length_byte_read
  full_step fuel b st c input e h =
      rw
        (
          io.fills 1 (b ∷ []) input refl,
          read_length_step,
          e,
          lt→ltb 4 (st.bytes_read + 1) (omega arith),
        )
        refl

  store_byte_full : (xs : List ℕ) (i b : ℕ) → length xs ≤ i → store_byte xs i b ≡ none
  unfolding store_byte
  store_byte_full [] i b h = refl
  store_byte_full (x ∷ xs) zero b h = absurd (omega arith)
  store_byte_full (x ∷ xs) (suc i) b h = rw (store_byte_full xs i b (omega arith)) refl

  -- A length byte with the continuation bit, in one equation.
  continued :
      (fuel d : ℕ) (st : RemainingLengthState) (c : Reading) (input : List ℕ)
      → st.bytes_read < 4
      → length st.byte_buffer ≡ 4
      → d < 128
      → (st' : RemainingLengthState) × (c' : Reading) × (st'.bytes_read ≡ st.bytes_read + 1)
        × (length st'.byte_buffer ≡ 4)
        × (read_length_step async_read (suc fuel) st c ((d + 128) ∷ input)
            ≡ read_length_step async_read fuel st' c' input)
  continued fuel d st c input hk hl hd =
      let (buffer, l, e) =
        byte_arrives async_read ending io fuel (d + 128) st c input (omega arith) in
      (
        _,
        _,
        refl,
        l ∙ hl,
        e
            ∙ more_byte async_read ending io (read_length_step async_read fuel) d
                (record st { byte_buffer = buffer }) c input hk hd,
      )

  -- Behind four length bytes with the continuation bit the fifth byte is written past the end of the
  -- array of four, for every valid type byte. The handler is told of the bad length only behind that
  -- write, and the connection is free again.
  pub async_read_packet_faults :
      (r : Reading) (first a b c d x : ℕ) (more : List ℕ)
      → r.reading_depth ≡ 0
      → is_valid_packet_type (shr first 4) ≡ true
      → a < 128
      → b < 128
      → c < 128
      → d < 128
      → let run =
          async_read_packet async_read r
            (first ∷ (a + 128) ∷ (b + 128) ∷ (c + 128) ∷ (d + 128) ∷ x ∷ more) in
        (run.reading.stray_write ≡ true)
        × (run.outcome ≡ some (failure message_size))
        × (run.reading.reading_depth ≡ 0)
        × (run.input ≡ more)
  unfolding read_remaining_length
  async_read_packet_faults r first a b c d x more idle valid ha hb hc hd =
      let top : bit_and (a + 128) 0x80 ≡ 128 = omega (arith, top_bit (a + 128) (omega arith)) in
      let header : List ℕ = first ∷ (a + 128) ∷ [] in
      let c0 : Reading = record {
        fixed_header = header;
        read_header = header;
        reading_depth = r.reading_depth + 1;
        stray_write = r.stray_write;
      } in
      let (s1, c1, k1, l1, e1) =
        continued 3 b (length_state (a + 128)) c0 ((c + 128) ∷ (d + 128) ∷ x ∷ more) (omega arith)
          refl hb in
      let (s2, c2, k2, l2, e2) = continued 2 c s1 c1 ((d + 128) ∷ x ∷ more) (omega arith) l1 hc in
      let (s3, c3, k3, l3, e3) = continued 1 d s2 c2 (x ∷ more) (omega arith) l2 hd in
      let arrived =
        header_arrives async_read ending io r first (a + 128)
          ((b + 128) ∷ (c + 128) ∷ (d + 128) ∷ x ∷ more) idle valid in
      let refused =
        full_step 0 x s3 c3 more (store_byte_full s3.byte_buffer s3.bytes_read x (omega arith))
          (omega arith) in
      let steps = e1 ∙ e2 ∙ e3 ∙ refused in
      rw (arrived, read_remaining_length, top, steps) (refl, refl, refl, refl)

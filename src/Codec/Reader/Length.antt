-- ===== src/Codec/Reader/Length.antt =====
-- The reader's loop on the encoding that the writer produces, and on every other input.
use lite_mqtt.Prelude.{
  ℕ, zero, suc, ◌+◌, ◌*◌, ◌/◌, ◌%◌, ◌^◌, ◌≤◌, ◌<◌, ◌≡◌, refl, ap, sym, ◌∙◌, true, false, List, [],
  ◌∷◌, ◌++◌, arith, ltb, u32, bit_and, low_group, top_bit, le→not-ltb, Bool-cases, ltb→lt,
  ltb-false→le, inl, inr, ◌↔◌,
}
use native.Mathlib.Nat.{pow-suc, div-add-mod}
use lite_mqtt.Codec.Writer.{new_writer, buffer, write_remaining_length}
use lite_mqtt.Codec.Writer.Laws.{buffer-new}
use lite_mqtt.Codec.Reader.{
  BufferReader, new_reader, read_uint8, read_length_loop, read_remaining_length,
}
use lite_mqtt.Codec.Reader.Laws.{rest, Reads, read_uint8-Reads}
use lite_mqtt.Codec.Writer.Length.{
  length_digits, length_digits-last, length_digits-more, encoding, encoding_lem, encoding-u32,
  buffer-write_remaining_length,
}

-- A digit without the continuation bit ends the loop.
last_round :
    (fuel k m v d : ℕ) (xs : List ℕ) (r : BufferReader)
    → k < 4
    → d < 128
    → d * m < 2 ^ 32
    → rest r ≡ d ∷ xs
    → Reads (read_length_loop (suc fuel) k m v r) (v + d * m) xs
unfolding read_length_loop
last_round fuel k m v d xs r hk hd hm e =
    let g = read_uint8-Reads 0 d xs r e in
    let low : bit_and d 0x7F ≡ d = omega (arith, low_group d (omega arith)) in
    let top : bit_and d 0x80 ≡ 0 = omega (arith, top_bit d (omega arith)) in
    let fits : u32 (d * m) ≡ d * m = omega arith in
    rw (g.done, g.value, le→not-ltb 4 (k + 1) (omega arith), top, low, fits)
      (record { done = refl; value = refl; rest_eq = g.rest_eq })

-- A digit with the bit goes on with the next round.
more_round :
    (fuel k m v d : ℕ) (xs : List ℕ) (r : BufferReader)
    → k < 4
    → d < 128
    → d * m < 2 ^ 32
    → rest r ≡ (d + 128) ∷ xs
    → read_length_loop (suc fuel) k m v r
      ≡ read_length_loop fuel (k + 1) (u32 (m * 128)) (v + d * m) (read_uint8 0 r).reader
unfolding read_length_loop
more_round fuel k m v d xs r hk hd hm e =
    let g = read_uint8-Reads 0 (d + 128) xs r e in
    let low : bit_and (d + 128) 0x7F ≡ d = omega (arith, low_group (d + 128) (omega arith)) in
    let top : bit_and (d + 128) 0x80 ≡ 128 = omega (arith, top_bit (d + 128) (omega arith)) in
    let fits : u32 (d * m) ≡ d * m = omega arith in
    rw (g.done, g.value, le→not-ltb 4 (k + 1) (omega arith), top, low, fits) refl

pow_pos : (j : ℕ) → 1 ≤ 128 ^ j
pow_pos zero = omega arith
pow_pos (suc j) = omega (arith, pow-suc 128 j, pow_pos j)

weight_fits : (j m : ℕ) → m * 128 ^ suc j ≤ 2 ^ 28 → m * 128 ≤ 2 ^ 28
weight_fits j m h =
    let p = pow-suc 128 j in
    let q = pow_pos j in
    let big : m * 1 ≤ m * 128 ^ j = grind arith in
    let e : m * 128 ^ suc j ≡ m * 128 ^ j * 128 = rw p (omega arith) in omega arith

digit_fits : (d m : ℕ) → d < 128 → m * 128 ≤ 2 ^ 28 → d * m < 2 ^ 32
digit_fits d m h w = let q : d * m ≤ 128 * m = grind arith in omega arith

-- `val` is what is still to be read, `m` the weight of its lowest digit.
read_length_loop-digits :
    (j : ℕ) (f g k m v val : ℕ) (xs : List ℕ) (r : BufferReader)
    → k + suc j ≤ 4
    → j ≤ f
    → j ≤ g
    → val < 128 ^ suc j
    → m * 128 ^ suc j ≤ 2 ^ 28
    → rest r ≡ length_digits (suc g) val ++ xs
    → Reads (read_length_loop (suc f) k m v r) (v + val * m) xs
read_length_loop-digits zero f g k m v val xs r hk hf hg hv hm e =
    last_round f k m v val xs r (omega arith) hv (digit_fits val m hv (weight_fits 0 m hm))
      (rw (length_digits-last g val hv) at e)
read_length_loop-digits (suc j) zero g k m v val xs r hk hf hg hv hm e = elim hf [ ]
read_length_loop-digits (suc j) (suc f) zero k m v val xs r hk hf hg hv hm e = elim hg [ ]
read_length_loop-digits (suc j) (suc f) (suc g) k m v val xs r hk hf hg hv hm e =
    elim (Bool-cases (ltb val 128)) [
      | inl small ↦
          let low = ltb→lt val 128 small in
          last_round (suc f) k m v val xs r (omega arith) low (digit_fits val m low wide)
            (rw (length_digits-last (suc g) val low) at e)
      | inr big ↦
          let e' = rw (length_digits-more (suc g) val (ltb-false→le val 128 big)) at e in
          let d = val % 128 in
          let d_lt : d < 128 = omega arith in
          let tail : List ℕ = length_digits (suc g) (val / 128) ++ xs in
          let step =
            more_round (suc f) k m v d tail r (omega arith) d_lt (digit_fits d m d_lt wide) e' in
          let sum : v + val * m ≡ v + d * m + val / 128 * (m * 128) = omega (arith, split) in
          rw (step, wrapped, sum)
            (read_length_loop-digits j f g (k + 1) (m * 128) (v + d * m) (val / 128) xs
              (read_uint8 0 r).reader (omega arith) (omega arith) (omega arith) (omega (arith, p))
              (omega (arith, regroup)) (read_uint8-Reads 0 (d + 128) tail r e').rest_eq)
    ]
  where
    p : 128 ^ suc (suc j) ≡ 128 ^ suc j * 128
    p = pow-suc 128 (suc j)

    wide : m * 128 ≤ 2 ^ 28
    wide = weight_fits (suc j) m hm

    regroup : m * 128 ^ suc (suc j) ≡ m * 128 * 128 ^ suc j
    regroup = rw p (omega arith)

    split : val % 128 * m + val / 128 * (m * 128) ≡ val * m
    split = omega (arith, ap (λ (t : ℕ). t * m) (div-add-mod val 128))

    wrapped : u32 (m * 128) ≡ m * 128
    wrapped = omega (arith, wide)

-- A length below 2 ^ 28 is read back, whatever follows it.
pub read_remaining_length-Reads :
    (len : ℕ) (xs : List ℕ) (r : BufferReader)
    → len < 2 ^ 28
    → rest r ≡ encoding len ++ xs
    → Reads (read_remaining_length r) len xs
unfolding read_remaining_length
read_remaining_length-Reads len xs r h e =
    let sum : len ≡ 0 + len * 1 = omega arith in
    rw sum (
      read_length_loop-digits 3 4 4 0 1 0 len xs r (omega arith) (omega arith) (omega arith) h
        (omega arith) (rw (encoding_lem len (omega arith)) at e))

-- The fifth round never succeeds.
late_round :
    (fuel k m v : ℕ) (r : BufferReader) → 4 ≤ k → (read_length_loop fuel k m v r).done ≡ false
unfolding read_length_loop read_uint8
late_round zero k m v r h = refl
late_round (suc fuel) k m v r h = ground arith

-- Four bytes with the continuation bit are refused, whatever follows them.
pub read_remaining_length_refuses :
    (a b c d : ℕ) (xs : List ℕ) (r : BufferReader)
    → a < 128
    → b < 128
    → c < 128
    → d < 128
    → rest r ≡ (a + 128) ∷ (b + 128) ∷ (c + 128) ∷ (d + 128) ∷ xs
    → (read_remaining_length r).done ≡ false
unfolding read_remaining_length
read_remaining_length_refuses a b c d xs r ha hb hc hd e =
    let s1 = read_uint8-Reads 0 (a + 128) _ r e in
    let s2 = read_uint8-Reads 0 (b + 128) _ (read_uint8 0 r).reader s1.rest_eq in
    let s3 =
      read_uint8-Reads 0 (c + 128) _ (read_uint8 0 (read_uint8 0 r).reader).reader s2.rest_eq in
    rw
      (
        more_round 4 0 1 0 a _ r (omega arith) ha (omega arith) e,
        more_round 3 1 128 (0 + a * 1) b _ (read_uint8 0 r).reader (omega arith) hb (omega arith)
            s1.rest_eq,
        more_round 2 2 (128 * 128) (0 + a * 1 + b * 128) c _
            (read_uint8 0 (read_uint8 0 r).reader).reader (omega arith) hc (omega arith) s2.rest_eq,
        more_round 1 3 (128 * 128 * 128) (0 + a * 1 + b * 128 + c * (128 * 128)) d _
            (read_uint8 0 (read_uint8 0 (read_uint8 0 r).reader).reader).reader (omega arith) hd
            (omega arith) s3.rest_eq,
      )
      (late_round 1 4 (u32 (128 * 128 * 128 * 128)) _ _ (omega arith))

-- The writer's encoding of a length from 2 ^ 28 on is such a run.
encoding_wide :
    (len : ℕ)
    → 2 ^ 28 ≤ len
    → len < 2 ^ 32
    → encoding len
      ≡ (len % 128 + 128)
        ∷ (len / 128 % 128 + 128)
        ∷ (len / 128 / 128 % 128 + 128)
        ∷ (len / 128 / 128 / 128 % 128 + 128)
        ∷ len / 128 / 128 / 128 / 128
        ∷ []
encoding_wide len lo hi = rw (
  encoding_lem len hi,
  length_digits-more 4 len (omega arith),
  length_digits-more 3 (len / 128) (omega arith),
  length_digits-more 2 (len / 128 / 128) (omega arith),
  length_digits-more 1 (len / 128 / 128 / 128) (omega arith),
  length_digits-last 0 (len / 128 / 128 / 128 / 128) (omega arith),
)

encoding_accepted :
    (len : ℕ) (xs : List ℕ) (r : BufferReader)
    → len < 2 ^ 32
    → rest r ≡ encoding len ++ xs
    → ((read_remaining_length r).done ≡ true) ↔ (len < 2 ^ 28)
encoding_accepted len xs r h e =
    (accepted, λ small. (read_remaining_length-Reads len xs r small e).done)
  where
    accepted : (read_remaining_length r).done ≡ true → len < 2 ^ 28
    accepted t = elim (Bool-cases (ltb len (2 ^ 28))) [
      | inl small ↦ ltb→lt len (2 ^ 28) small
      | inr big ↦
          let lo = ltb-false→le len (2 ^ 28) big in
          let e' = rw (encoding_wide len lo h) at e in
          cc (
            read_remaining_length_refuses (len % 128) (len / 128 % 128) (len / 128 / 128 % 128)
              (len / 128 / 128 / 128 % 128) _ r (omega arith) (omega arith) (omega arith)
              (omega arith) e')
    ]

-- What write_remaining_length writes for a length is accepted by the reader, whatever follows it,
-- exactly if the low 32 bits of the length, which are all that is written, are below 2 ^ 28. So for a
-- length below 2 ^ 32, exactly if it is below 2 ^ 28.
pub length_accepted :
    (len : ℕ) (xs : List ℕ)
    → ((read_remaining_length
          (new_reader (buffer (write_remaining_length new_writer len) ++ xs))).done
        ≡ true)
      ↔ (len % 2 ^ 32 < 2 ^ 28)
length_accepted len xs =
    let r = new_reader (buffer (write_remaining_length new_writer len) ++ xs) in
    encoding_accepted (u32 len) xs r (omega arith) (
      ap (λ (t : List ℕ). t ++ xs)
        (buffer-write_remaining_length new_writer len ∙ rw buffer-new (sym (encoding-u32 len))))

-- A length below 2 ^ 28 is read back from what write_remaining_length writes, whatever follows it,
-- and what follows is left to be read.
pub read-write_remaining_length :
    (len : ℕ) (xs : List ℕ)
    → len < 2 ^ 28
    → Reads
        (read_remaining_length (new_reader (buffer (write_remaining_length new_writer len) ++ xs)))
        len
        xs
read-write_remaining_length len xs h =
    let r = new_reader (buffer (write_remaining_length new_writer len) ++ xs) in
    read_remaining_length-Reads len xs r h (
      ap (λ (t : List ℕ). t ++ xs)
        (buffer-write_remaining_length new_writer len ∙ rw buffer-new refl))

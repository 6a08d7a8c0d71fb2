-- ===== src/Codec/Writer/Length.antt =====
-- The variable-length encoding of the remaining length, as the writer produces it.
use lite_mqtt.Prelude.{
  ℕ, zero, suc, ◌+◌, ◌/◌, ◌%◌, ◌^◌, ◌≤◌, ◌<◌, ◌≡◌, refl, ap, List, [], ◌∷◌, ◌++◌, append-nil,
  append_assoc, arith, ltb, if◌then◌else◌, length, u8, u32, set_top_bit,
}
use native.Mathlib.Nat.{pow-suc}
use lite_mqtt.Codec.Writer.{
  BufferWriter, buffer, push_back, length_digit, write_length_loop, length_rounds,
  write_remaining_length,
}
use lite_mqtt.Codec.Writer.Laws.{buffer-push_back}

-- The digits of `val` to the base 128, lowest first, all but the last with the top bit set.
pub length_digits : ℕ → ℕ → List ℕ
length_digits zero val = []
length_digits (suc fuel) val =
    let rest = length_digits fuel (val / 128) in
    if ltb 0 (val / 128) then (val % 128 + 128) ∷ rest else val ∷ []

pub length_digits-last : (fuel val : ℕ) → val < 128 → length_digits (suc fuel) val ≡ val ∷ []
unfolding length_digits
length_digits-last fuel val h = ground arith

pub length_digits-more :
    (fuel val : ℕ)
    → 128 ≤ val
    → length_digits (suc fuel) val ≡ (val % 128 + 128) ∷ length_digits fuel (val / 128)
unfolding length_digits
length_digits-more fuel val h = ground arith

-- The encoding of a length.
pub encoding : ℕ → List ℕ
encoding len = length_digits 5 (u32 len)

pub encoding_lem : (len : ℕ) → len < 2 ^ 32 → encoding len ≡ length_digits 5 len
unfolding encoding
encoding_lem len h = let e : u32 len ≡ len = omega arith in rw e

pub encoding-u32 : (len : ℕ) → encoding (u32 len) ≡ encoding len
unfolding encoding
encoding-u32 len = let twice : u32 (u32 len) ≡ u32 len = omega arith in ap (length_digits 5) twice

length_digit_lem :
    (val : ℕ) → length_digit val ≡ (if ltb 0 (val / 128) then val % 128 + 128 else val)
unfolding length_digit
length_digit_lem val = ground (arith, set_top_bit (u8 (val % 128)))

buffer-write_length_loop :
    (fuel : ℕ) (w : BufferWriter) (val : ℕ)
    → buffer (write_length_loop fuel w val) ≡ buffer w ++ length_digits fuel val
unfolding write_length_loop length_digits
buffer-write_length_loop zero w val = simp append-nil
buffer-write_length_loop (suc fuel) w val = ground (
  arith,
  length_digit_lem val,
  buffer-push_back w (length_digit val),
  buffer-write_length_loop fuel (push_back w (length_digit val)) (val / 128),
  append_assoc (buffer w) (length_digit val ∷ []) (length_digits fuel (val / 128)),
)

pub buffer-write_remaining_length :
    (w : BufferWriter) (len : ℕ) → buffer (write_remaining_length w len) ≡ buffer w ++ encoding len
unfolding write_remaining_length encoding
buffer-write_remaining_length w len = buffer-write_length_loop 5 w (u32 len)

-- The loop ends by its own test: more rounds than five change nothing.
write_length_loop_fuel :
    (fuel : ℕ) (w : BufferWriter) (val : ℕ)
    → val < 128 ^ suc fuel
    → write_length_loop (suc (suc fuel)) w val ≡ write_length_loop (suc fuel) w val
unfolding write_length_loop
write_length_loop_fuel zero w val h = ground arith
write_length_loop_fuel (suc fuel) w val h = ground (
  arith,
  pow-suc 128 (suc fuel),
  write_length_loop_fuel fuel (push_back w (length_digit val)) (val / 128),
)

fits : (k len : ℕ) → u32 len < 128 ^ suc (k + 4)
fits zero len = omega arith
fits (suc k) len =
    let e : suc k + 4 ≡ suc (k + 4) = omega arith in
    rw (e, pow-suc 128 (suc (k + 4))) (omega (arith, fits k len))

-- So any number of rounds from five on writes the same.
pub write_length_loop-rounds :
    (k : ℕ) (w : BufferWriter) (len : ℕ)
    → write_length_loop (k + length_rounds) w (u32 len) ≡ write_remaining_length w len
unfolding write_remaining_length
write_length_loop-rounds zero w len = refl
write_length_loop-rounds (suc k) w len =
    let e : suc k + 5 ≡ suc (suc (k + 4)) = omega arith in
    let e' : k + 5 ≡ suc (k + 4) = omega arith in
    rw (e, write_length_loop_fuel (k + 4) w (u32 len) (fits k len), ← e')
      (write_length_loop-rounds k w len)

length-length_digits : (fuel val : ℕ) → length (length_digits fuel val) ≤ fuel
unfolding length_digits
length-length_digits zero val = omega arith
length-length_digits (suc fuel) val = ground (arith, length-length_digits fuel (val / 128))

pub length-encoding : (len : ℕ) → length (encoding len) ≤ 5
unfolding encoding
length-encoding len = length-length_digits 5 (u32 len)

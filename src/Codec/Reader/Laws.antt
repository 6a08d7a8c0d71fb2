-- ===== src/Codec/Reader/Laws.antt =====
-- The reader seen as a stream: the bytes from the position on.
use lite_mqtt.Prelude.{
  ℕ, suc-ne-zero, suc, ◌+◌, ◌*◌, ◌/◌, ◌%◌, ◌^◌, ◌≤◌, ◌<◌, ◌≡◌, refl, sym, ap, ◌∙◌, true, List, [],
  ◌∷◌, ◌++◌, append_assoc, arith, leb, length, take, drop, u16, u32, shl, bit_or, IsByte,
  length-append, take-append, drop-append, drop-add, drop-lt, get_or-drop, bit_or-shl, le→not-ltb,
  lt→not-leb, length-drop, length-take, take-append-drop, take-all,
}
use lite_mqtt.Codec.Reader.{
  BufferReader, new_reader, Got, advance, at, read_uint8, read_uint16, read_uint32, read_body,
  read_string, read_bytes, reader_empty, remaining,
}
use lite_mqtt.Codec.Writer.Laws.{
  uint16_bytes, uint32_bytes, string_bytes, buffer-write_string, buffer-new,
}
use lite_mqtt.Codec.Writer.{new_writer, buffer, write_string}

abbrev pub rest : BufferReader → List ℕ
rest r = drop r.pos r.buf

-- The read succeeded with value `v`, and left `xs` to be read.
pub record Reads {A : Type 0} (g : Got A) (v : A) (xs : List ℕ) : Type 0 where
  pub done : g.done ≡ true
  pub value : g.value ≡ v
  pub rest_eq : rest g.reader ≡ xs

rest-advance :
    (n : ℕ) (r : BufferReader) (xs ys : List ℕ)
    → rest r ≡ xs ++ ys
    → n ≡ length xs
    → rest (advance n r) ≡ ys
rest-advance n r xs ys e h = rw (drop-add r.pos n r.buf, e) (drop-append xs ys n h)

-- A non-empty part of what is left lies within the buffer.
in_range :
    (r : BufferReader) (n : ℕ) (xs ys : List ℕ)
    → rest r ≡ xs ++ ys
    → n ≡ length xs
    → 0 < n
    → r.pos + n ≤ length r.buf
in_range r n xs ys e h p = omega (arith, ap length e, length-append xs ys, length-drop r.pos r.buf)

pub read_uint8-Reads :
    (old b : ℕ) (xs : List ℕ) (r : BufferReader) → rest r ≡ b ∷ xs → Reads (read_uint8 old r) b xs
unfolding read_uint8
read_uint8-Reads old b xs r e =
    let within = drop-lt r.pos r.buf e in
    rw (lt→not-leb _ _ within) (record {
      done = refl;
      value = get_or-drop r.pos r.buf 0 e;
      rest_eq = rest-advance 1 r (b ∷ []) xs e refl;
    })

-- The byte `k` places ahead.
at-ahead :
    (r : BufferReader) (k : ℕ) (xs : List ℕ) (y : ℕ) (ys : List ℕ)
    → rest r ≡ xs ++ y ∷ ys
    → k ≡ length xs
    → at r (r.pos + k) ≡ y
at-ahead r k xs y ys e h = get_or-drop (r.pos + k) r.buf 0 (rest-advance k r xs (y ∷ ys) e h)

join16 : (a b : ℕ) → IsByte a → IsByte b → u16 (bit_or (shl a 8) b) ≡ a * 256 + b
join16 a b ha hb = omega (arith, bit_or-shl 8 a b hb)

pub read_uint16-Reads :
    (old v : ℕ) (xs : List ℕ) (r : BufferReader)
    → v < 2 ^ 16
    → rest r ≡ uint16_bytes v ++ xs
    → Reads (read_uint16 old r) v xs
unfolding read_uint16
read_uint16-Reads old v xs r h e =
    let hi = v / 256 % 256 in
    let lo = v % 256 in
    let within = in_range r 2 (hi ∷ lo ∷ []) xs e refl (omega arith) in
    rw (le→not-ltb _ _ within) (record {
      done = refl;
      value =
          rw (get_or-drop r.pos r.buf 0 e, at-ahead r 1 (hi ∷ []) lo xs e refl)
            (omega (arith, join16 hi lo (omega arith) (omega arith)));
      rest_eq = rest-advance 2 r (hi ∷ lo ∷ []) xs e refl;
    })

pub read_uint32-Reads :
    (old v : ℕ) (xs : List ℕ) (r : BufferReader)
    → v < 2 ^ 32
    → rest r ≡ uint32_bytes v ++ xs
    → Reads (read_uint32 old r) v xs
unfolding read_uint32
read_uint32-Reads old v xs r h e =
    let a = v / 2 ^ 24 % 256 in
    let b = v / 2 ^ 16 % 256 in
    let c = v / 256 % 256 in
    let d = v % 256 in
    let within = in_range r 4 (a ∷ b ∷ c ∷ d ∷ []) xs e refl (omega arith) in
    let a' : u32 (shl a 24) ≡ v / 2 ^ 24 * 2 ^ 24 = omega arith in
    let b' : u32 (shl b 16) ≡ v / 2 ^ 16 % 256 * 2 ^ 16 = omega arith in
    let c' : u32 (shl c 8) ≡ v / 256 % 256 * 2 ^ 8 = omega arith in
    let ab : v / 2 ^ 24 * 2 ^ 24 + v / 2 ^ 16 % 256 * 2 ^ 16 ≡ v / 2 ^ 16 * 2 ^ 16 = omega arith in
    let bc : v / 2 ^ 16 * 2 ^ 16 + v / 256 % 256 * 2 ^ 8 ≡ v / 256 * 2 ^ 8 = omega arith in
    rw (le→not-ltb _ _ within) (record {
      done = refl;
      value =
          rw
            (
              get_or-drop r.pos r.buf 0 e,
              at-ahead r 1 (a ∷ []) b (c ∷ d ∷ xs) e refl,
              at-ahead r 2 (a ∷ b ∷ []) c (d ∷ xs) e refl,
              at-ahead r 3 (a ∷ b ∷ c ∷ []) d xs e refl,
              a',
              b',
              c',
              bit_or-shl 24 (v / 2 ^ 24) (v / 2 ^ 16 % 256 * 2 ^ 16) (omega arith),
              ab,
              bit_or-shl 16 (v / 2 ^ 16) (v / 256 % 256 * 2 ^ 8) (omega arith),
              bc,
              bit_or-shl 8 (v / 256) d (omega arith),
            )
            (omega arith);
      rest_eq = rest-advance 4 r (a ∷ b ∷ c ∷ d ∷ []) xs e refl;
    })

read_body-Reads :
    (old s : List ℕ) (xs : List ℕ) (r : BufferReader)
    → rest r ≡ s ++ xs
    → Reads (read_body old (length s) r) s xs
unfolding read_body
read_body-Reads old [] xs r e = record { done = refl; value = refl; rest_eq = e }
read_body-Reads old (c ∷ s) xs r e =
    let within = in_range r (suc (length s)) (c ∷ s) xs e refl (omega arith) in
    rw (suc-ne-zero (length s), le→not-ltb _ _ within)
      (record {
        done = refl;
        value = rw e (take-append (c ∷ s) xs (suc (length s)) refl);
        rest_eq = rest-advance (suc (length s)) r (c ∷ s) xs e refl;
      })

-- A length and that many bytes.
read_string-counted :
    (old s : List ℕ) (xs : List ℕ) (r : BufferReader)
    → length s < 2 ^ 16
    → rest r ≡ uint16_bytes (length s) ++ s ++ xs
    → Reads (read_string old r) s xs
unfolding read_string
read_string-counted old s xs r h e =
    let g =
      read_uint16-Reads 0 (length s) (s ++ xs) r h
        (e ∙ append_assoc (uint16_bytes (length s)) s xs) in
    rw (g.done, g.value) (read_body-Reads old s xs (read_uint16 0 r).reader g.rest_eq)

-- A string is read back, whatever follows it, if its length fits in 16 bits.
pub read_string-Reads :
    (old s : List ℕ) (xs : List ℕ) (r : BufferReader)
    → length s < 2 ^ 16
    → rest r ≡ string_bytes s ++ xs
    → Reads (read_string old r) s xs
read_string-Reads old s xs r h e =
    let n : u16 (length s) ≡ length s = omega arith in read_string-counted old s xs r h (rw n at e)

string_bytes_cut :
    (old s : List ℕ) (xs : List ℕ) (r : BufferReader)
    → rest r ≡ string_bytes s ++ xs
    → Reads (read_string old r) (take (u16 (length s)) s) (drop (u16 (length s)) s ++ xs)
string_bytes_cut old s xs r e =
    let n = u16 (length s) in
    let front = take n s in
    let back = drop n s in
    let len : length front ≡ n = omega (arith, length-take n s) in
    let parts : s ++ xs ≡ front ++ (back ++ xs) =
      ap (λ t. t ++ xs) (sym (take-append-drop n s)) ∙ append_assoc front back xs in
    read_string-counted old front (back ++ xs) r (omega (arith, len)) (
      e
      ∙ ap (λ (t : List ℕ). uint16_bytes n ++ t) parts
      ∙ ap (λ (m : ℕ). uint16_bytes m ++ (front ++ (back ++ xs))) (sym len))

written : (s : List ℕ) → buffer (write_string new_writer s) ≡ string_bytes s
written s = buffer-write_string new_writer s ∙ rw buffer-new refl

-- A string that write_string wrote comes back cut to its length modulo 2 ^ 16, and its other bytes are
-- left in front of what follows.
pub read_string-cut :
    (old s xs : List ℕ)
    → Reads
        (read_string old (new_reader (buffer (write_string new_writer s) ++ xs)))
        (take (length s % 2 ^ 16) s)
        (drop (length s % 2 ^ 16) s ++ xs)
read_string-cut old s xs =
    string_bytes_cut old s xs (new_reader (buffer (write_string new_writer s) ++ xs))
      (ap (λ (t : List ℕ). t ++ xs) (written s))

-- Within the buffer `remaining` counts the bytes that are left.
pub remaining-rest : (r : BufferReader) → r.pos ≤ length r.buf → remaining r ≡ length (rest r)
unfolding remaining
remaining-rest r h = ground (arith, length-drop r.pos r.buf)

-- read_bytes of as many bytes as are left gives them all.
pub read_bytes-rest :
    (old : List ℕ) (r : BufferReader)
    → r.pos ≤ length r.buf
    → length r.buf < 2 ^ 64
    → (read_bytes old (remaining r) r).value ≡ rest r
unfolding read_bytes
read_bytes-rest old r h w =
    let n : remaining r ≡ length (rest r) = remaining-rest r h in
    let sum : (r.pos + length (rest r)) % 2 ^ 64 ≡ length r.buf =
      omega (arith, length-drop r.pos r.buf) in
    rw (n, sum, le→not-ltb (length r.buf) (length r.buf) (omega arith))
      (take-all (rest r) (length (rest r)) refl)

-- The reader is at its end exactly where nothing is left.
pub reader_empty-rest : (r : BufferReader) → reader_empty r ≡ leb (length (rest r)) 0
unfolding reader_empty
reader_empty-rest r = ground (arith, length-drop r.pos r.buf)

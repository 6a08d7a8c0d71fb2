-- ===== src/Prelude/Bits.antt =====
-- Masks and shifts on machine words as arithmetic.
use Prim.Native.Nat.{
  ℕ, zero, suc, ◌+◌, ◌*◌, ◌/◌, ◌%◌, ◌^◌, ◌≤◌, ◌<◌, min, max, bit_and, bit_or, digits, bitwise, ◌-◌,
  bit_or-bitwise, bit_and-bitwise,
}
use mathlib.Core.Path.{◌≡◌, refl, ap, ◌∙◌}
use mathlib.Core.Bool.{Bool, true, ◌&&◌}
use native.Mathlib.Omega.{arith}
use native.Mathlib.Nat.{pow-suc}
use lite_mqtt.Prelude.Tests.{◌==◌}

-- Casts to uint8_t, uint16_t and uint32_t, `x << k` and `x >> k`, and the mask of the low `k` bits.
abbrev pub u8 : ℕ → ℕ
u8 n = n % 2 ^ 8

abbrev pub u16 : ℕ → ℕ
u16 n = n % 2 ^ 16

abbrev pub u32 : ℕ → ℕ
u32 n = n % 2 ^ 32

abbrev pub shl : ℕ → ℕ → ℕ
shl x k = x * 2 ^ k

abbrev pub shr : ℕ → ℕ → ℕ
shr x k = x / 2 ^ k

abbrev pub IsByte : ℕ → Type 0
IsByte b = b < 256

-- The recursion on digits that stands behind the bit operations: one round more changes nothing where
-- the count of rounds covers the first number.
module _ (z : ℕ → ℕ) (f : ℕ → ℕ → ℕ) where
  one_round_more :
      (rounds x y : ℕ) → x ≤ rounds → digits z f (suc rounds) x y ≡ digits z f rounds x y
  one_round_more zero zero y covered = refl
  one_round_more (suc rounds) zero y covered = refl
  one_round_more zero (suc x) y covered = elim covered [ ]
  one_round_more (suc rounds) (suc x) y covered =
      let halved = one_round_more rounds (suc x / 2) (y / 2) (omega arith) in
      ap (λ (t : ℕ). t * 2 + f (suc x % 2) (y % 2)) halved

  spare_rounds : (k x y : ℕ) → digits z f (k + x) x y ≡ digits z f x x y
  spare_rounds zero x y = let none_more : zero + x ≡ x = omega arith in rw none_more
  spare_rounds (suc k) x y =
      let shifted : suc k + x ≡ suc (k + x) = omega arith in
      rw shifted (one_round_more (k + x) x y (omega arith) ∙ spare_rounds k x y)

  -- A bit operation splits off its lowest digit.
  lowest_digit :
      ((y : ℕ) → z y ≡ z (y / 2) * 2 + f 0 (y % 2))
      → (x y : ℕ) → bitwise z f x y ≡ bitwise z f (x / 2) (y / 2) * 2 + f (x % 2) (y % 2)
  lowest_digit base zero y = base y
  lowest_digit base (suc x) y =
      let half = suc x / 2 in
      let split : x ≡ (x - half) + half = omega arith in
      let spare = spare_rounds (x - half) half (y / 2) in
      ap (λ (t : ℕ). digits z f t half (y / 2) * 2 + f (suc x % 2) (y % 2)) split
      ∙ ap (λ (t : ℕ). t * 2 + f (suc x % 2) (y % 2)) spare

or_lowest : (x y : ℕ) → bit_or x y ≡ bit_or (x / 2) (y / 2) * 2 + max (x % 2) (y % 2)
or_lowest x y = omega (
  arith,
  bit_or-bitwise x y,
  bit_or-bitwise (x / 2) (y / 2),
  lowest_digit (λ t. t) max (λ t. omega arith) x y,
)

and_lowest : (x y : ℕ) → bit_and x y ≡ bit_and (x / 2) (y / 2) * 2 + min (x % 2) (y % 2)
and_lowest x y = omega (
  arith,
  bit_and-bitwise x y,
  bit_and-bitwise (x / 2) (y / 2),
  lowest_digit (λ t. 0) min (λ t. omega arith) x y,
)

or_nothing : (rounds x : ℕ) → x ≤ rounds → digits (λ t. t) max rounds x 0 ≡ x
or_nothing zero zero covered = refl
or_nothing (suc rounds) zero covered = refl
or_nothing zero (suc x) covered = elim covered [ ]
or_nothing (suc rounds) (suc x) covered = omega (arith, or_nothing rounds (suc x / 2) (omega arith))

and_nothing : (rounds x : ℕ) → digits (λ t. 0) min rounds x 0 ≡ 0
and_nothing zero x = refl
and_nothing (suc rounds) zero = refl
and_nothing (suc rounds) (suc x) = omega (arith, and_nothing rounds (suc x / 2))

-- `(a << k) | b` is a sum where `b` fits in the low `k` bits.
pub bit_or-shl : (k a b : ℕ) → b < 2 ^ k → bit_or (a * 2 ^ k) b ≡ a * 2 ^ k + b
bit_or-shl zero a b h =
    let e : b ≡ 0 = omega arith in
    let e' : a * 2 ^ 0 ≡ a = omega arith in
    rw (e, e') (omega (arith, bit_or-bitwise a 0, or_nothing a a (omega arith)))
bit_or-shl (suc k) a b h =
    let p = pow-suc 2 k in
    let q : a * 2 ^ suc k ≡ 2 * (a * 2 ^ k) = rw p (omega arith) in
    let half : a * 2 ^ suc k / 2 ≡ a * 2 ^ k = omega (arith, q) in
    let low = bit_or-shl k a (b / 2) (omega (arith, p)) in
    omega (arith, q, or_lowest (a * 2 ^ suc k) b, low, ap (λ (t : ℕ). bit_or t (b / 2)) half)

-- The low two bits.
pub bit_and_three : (a : ℕ) → bit_and a 3 < 4
bit_and_three a = omega (
  arith,
  and_lowest a 3,
  and_lowest (a / 2) 1,
  bit_and-bitwise (a / 2 / 2) 0,
  and_nothing (a / 2 / 2) (a / 2 / 2),
)

-- Two functions of a byte agree if a run over all values finds no difference.
agrees : (ℕ → ℕ) → (ℕ → ℕ) → ℕ → Bool
agrees f g zero = true
agrees f g (suc n) = f n == g n && agrees f g n

table : (n : ℕ) (f g : ℕ → ℕ) (x : ℕ) → agrees f g n ≡ true → x < n → f x ≡ g x
unfolding agrees
table zero f g x h lt = elim lt [ ]
table (suc n) f g x h lt = ground (arith, table n f g x)

-- The group of seven bits of a length byte, and its continuation bit.
pub low_group : (b : ℕ) → IsByte b → bit_and b 0x7F ≡ b % 128
unfolding agrees
low_group b = table 256 (λ b. bit_and b 0x7F) (λ b. b % 128) b refl

pub top_bit : (b : ℕ) → IsByte b → bit_and b 0x80 ≡ b / 128 * 128
unfolding agrees
top_bit b = table 256 (λ b. bit_and b 0x80) (λ b. b / 128 * 128) b refl

pub set_top_bit : (b : ℕ) → b < 128 → bit_or b 0x80 ≡ b + 128
unfolding agrees
set_top_bit b = table 128 (λ b. bit_or b 0x80) (λ b. b + 128) b refl

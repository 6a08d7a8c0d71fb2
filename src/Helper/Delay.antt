-- ===== src/Helper/Delay.antt =====
-- How long a helper waits before a retry.
use lite_mqtt.Prelude.{
  ℕ, zero, suc, ◌+◌, ◌-◌, ◌*◌, ◌^◌, ◌≤◌, ◌<◌, ◌≡◌, ap, subst, ◌∙◌, min, arith, ◌⊎◌, inl, inr,
}
use native.Mathlib.Nat.{pow-suc}
use lite_mqtt.Helper.{pos}
use lite_mqtt.Helper.Policy.{grown_delay, delay_ms}

pow_grows : (a d : ℕ) → 2 ^ a ≤ 2 ^ (a + d)
pow_grows a zero = let e : a + 0 ≡ a = omega arith in rw e (omega arith)
pow_grows a (suc d) =
    let e : a + suc d ≡ suc (a + d) = omega arith in
    rw e (omega (arith, pow_grows a d, pow-suc 2 (a + d)))

pow_mono : (a b : ℕ) → a ≤ b → 2 ^ a ≤ 2 ^ b
pow_mono a b h =
    let e : a + (b - a) ≡ b = omega arith in
    let g = pow_grows a (b - a) in subst (λ (n : ℕ). 2 ^ a ≤ 2 ^ n) e g

min-cases : (a b : ℕ) → (min a b ≡ a) × (a ≤ b) ⊎ (min a b ≡ b) × (b ≤ a)
min-cases a b = omega arith

mul_mono : (n a b : ℕ) → a ≤ b → n * a ≤ n * b
mul_mono zero a b h = omega arith
mul_mono (suc n) a b h = omega (arith, mul_mono n a b h)

-- From the twentieth attempt on, any base delay but 0 is cut.
capped : (base a : ℕ) → 20 ≤ a → min (base * 2 ^ 20) 30000 ≡ min (base * 2 ^ a) 30000
capped zero a h = omega arith
capped (suc base) a h =
    omega (arith, mul_mono base (2 ^ 20) (2 ^ a) (pow_mono 20 a h), pow_mono 20 a h)

-- With a limit on the attempts the delay is the one that the documentation gives, base * 2 ^ attempts
-- cut at 30 s: to cut the shift at 20 changes nothing. For an int as base delay the product fits in a
-- long long, and the delay in an int.
pub delay_ms-doc :
    (max_attempts base attempts : ℕ)
    → base < 2 ^ 31
    → (delay_ms (pos max_attempts) base attempts ≡ min (base * 2 ^ attempts) 30000)
      × (grown_delay base attempts < 2 ^ 63)
      × (delay_ms (pos max_attempts) base attempts < 2 ^ 31)
unfolding delay_ms grown_delay
delay_ms-doc max_attempts base attempts small = elim (min-cases attempts 20) [
  | inl (e, le) ↦ (
    ap (λ (n : ℕ). min (base * 2 ^ n) 30000) e,
    omega (
      arith,
      mul_mono base (2 ^ min attempts 20) (2 ^ 20) (pow_mono (min attempts 20) 20 (omega arith)),
    ),
    omega arith,
  )
  | inr (e, le) ↦ (
    ap (λ (n : ℕ). min (base * 2 ^ n) 30000) e ∙ capped base attempts le,
    omega (
      arith,
      mul_mono base (2 ^ min attempts 20) (2 ^ 20) (pow_mono (min attempts 20) 20 (omega arith)),
    ),
    omega arith,
  )
]

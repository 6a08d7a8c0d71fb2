-- ===== src/Tools/Broker/Chunks.antt =====
-- How the packet at the front of a buffer depends on the bytes behind it.
use lite_mqtt.Prelude.{
  ℕ, zero, suc, ◌+◌, ◌*◌, ◌≤◌, ◌<◌, ◌≡◌, refl, ap, ◌∙◌, Bool, true, false, List, [], ◌∷◌, ◌++◌,
  arith, if_elim, if◌then◌else◌, ltb, ◌==◌, length, length-append, take, drop, length-drop, bit_and,
}
use lite_mqtt.Tools.Broker.{
  Scan, incomplete, too_long, complete, scan_length, Next, waits, broken, packet, next_of,
  next_packet,
}

if_both :
    {A : Type 0} (R : A → A → Type 0) (b : Bool) (x y x' y' : A)
    → R x x'
    → R y y'
    → R (if b then x else y) (if b then x' else y')
if_both R true x y x' y' r r' = r
if_both R false x y x' y' r r' = r'

-- How a scan goes on when more bytes follow.
abbrev Continues : List ℕ → Scan → Scan → Type 0
Continues ys incomplete s = Unit
Continues ys too_long s = s ≡ too_long
Continues ys (complete remaining rest) s = s ≡ complete remaining (rest ++ ys)

scan-append :
    (remaining multiplier : ℕ) (xs ys : List ℕ)
    → Continues ys
        (scan_length remaining multiplier xs)
        (scan_length remaining multiplier (xs ++ ys))
unfolding scan_length
scan-append remaining multiplier [] ys = tt
scan-append remaining multiplier (x ∷ xs) ys =
    if_both (Continues ys) (ltb (128 * 128 * 128) (multiplier * 128)) too_long _ too_long _ refl (
      if_both (Continues ys) (bit_and x 0x80 == 0)
        (complete (remaining + bit_and x 0x7f * multiplier) xs) _
        (complete (remaining + bit_and x 0x7f * multiplier) (xs ++ ys)) _ refl
        (scan-append (remaining + bit_and x 0x7f * multiplier) (multiplier * 128) xs ys))

abbrev Shorter : ℕ → Scan → Type 0
Shorter n incomplete = Unit
Shorter n too_long = Unit
Shorter n (complete remaining rest) = length rest < n

Shorter-suc : (n : ℕ) (s : Scan) → Shorter n s → Shorter (suc n) s
Shorter-suc n incomplete h = tt
Shorter-suc n too_long h = tt
Shorter-suc n (complete remaining rest) h = omega arith

scan-Shorter :
    (remaining multiplier : ℕ) (xs : List ℕ)
    → Shorter (length xs) (scan_length remaining multiplier xs)
unfolding scan_length
scan-Shorter remaining multiplier [] = tt
scan-Shorter remaining multiplier (x ∷ xs) =
    let remaining' = remaining + bit_and x 0x7f * multiplier in
    if_elim (Shorter (suc (length xs))) (ltb (128 * 128 * 128) (multiplier * 128)) too_long _
      (λ _. tt)
      (λ _.
        if_elim (Shorter (suc (length xs))) (bit_and x 0x80 == 0) (complete remaining' xs) _
          (λ _. omega arith)
          (λ _.
            Shorter-suc (length xs) (scan_length remaining' (multiplier * 128) xs)
              (scan-Shorter remaining' (multiplier * 128) xs)))

take-drop-within :
    (n : ℕ) (xs ys : List ℕ)
    → n ≤ length xs
    → (take n (xs ++ ys) ≡ take n xs) × (drop n (xs ++ ys) ≡ drop n xs ++ ys)
take-drop-within zero xs ys h = (refl, refl)
take-drop-within (suc n) [] ys h = absurd (omega arith)
take-drop-within (suc n) (x ∷ xs) ys h =
    let (t, d) = take-drop-within n xs ys (omega arith) in (ap (λ zs. x ∷ zs) t, d)

abbrev pub Extends : List ℕ → Next → Next → Type 0
Extends ys waits n = Unit
Extends ys broken n = n ≡ broken
Extends ys (packet type body rest) n = n ≡ packet type body (rest ++ ys)

within :
    (type remaining : ℕ) (rest ys : List ℕ)
    → ltb (length rest) remaining ≡ false
    → next_of type (complete remaining (rest ++ ys))
      ≡ packet type (take remaining rest) (drop remaining rest ++ ys)
unfolding next_of
within type remaining rest ys enough =
    let fits : remaining ≤ length rest = ground arith in
    let (t, d) = take-drop-within remaining rest ys fits in
    let there : ltb (length (rest ++ ys)) remaining ≡ false =
      ground (arith, length-append rest ys) in
    rw (there, t, d) refl

next_of-append :
    (type : ℕ) (s s' : Scan) (ys : List ℕ)
    → Continues ys s s'
    → Extends ys (next_of type s) (next_of type s')
unfolding next_of
next_of-append type incomplete s' ys c = tt
next_of-append type too_long s' ys c = ap (next_of type) c
next_of-append type (complete remaining rest) s' ys c =
    if_elim (λ n. Extends ys n (next_of type s')) (ltb (length rest) remaining) waits
      (packet type (take remaining rest) (drop remaining rest)) (λ _. tt)
      (λ enough. ap (next_of type) c ∙ within type remaining rest ys enough)

pub next_packet-append : (xs ys : List ℕ) → Extends ys (next_packet xs) (next_packet (xs ++ ys))
unfolding next_packet
next_packet-append [] ys = tt
next_packet-append (type ∷ []) ys = tt
next_packet-append (type ∷ byte ∷ bytes) ys =
    next_of-append type (scan_length 0 1 (byte ∷ bytes)) (scan_length 0 1 (byte ∷ bytes ++ ys)) ys
      (scan-append 0 1 (byte ∷ bytes) ys)

abbrev pub Shrinks : ℕ → Next → Type 0
Shrinks n waits = Unit
Shrinks n broken = Unit
Shrinks n (packet type body rest) = length rest < n

next_of-Shrinks : (type n : ℕ) (s : Scan) → Shorter n s → Shrinks (suc n) (next_of type s)
unfolding next_of
next_of-Shrinks type n incomplete h = tt
next_of-Shrinks type n too_long h = tt
next_of-Shrinks type n (complete remaining rest) h =
    if_elim (Shrinks (suc n)) (ltb (length rest) remaining) waits _ (λ _. tt)
      (λ _. omega (arith, length-drop remaining rest))

pub next_packet-Shrinks : (xs : List ℕ) → Shrinks (length xs) (next_packet xs)
unfolding next_packet
next_packet-Shrinks [] = tt
next_packet-Shrinks (type ∷ []) = tt
next_packet-Shrinks (type ∷ byte ∷ bytes) =
    next_of-Shrinks type (length (byte ∷ bytes)) (scan_length 0 1 (byte ∷ bytes))
      (scan-Shorter 0 1 (byte ∷ bytes))

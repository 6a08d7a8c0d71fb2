-- ===== src/Helper/Backoff.antt =====
-- How often a helper retries, and how long it waits.
use lite_mqtt.Prelude.{
  ℕ, zero, suc, none, ◌+◌, ◌≤◌, ◌<◌, ◌≡◌, refl, true, false, arith, Bool-cases, inl, inr,
  lt→not-leb, lt→ltb, le→leb, subst, sym, ◌∙◌, ◌==◌,
}
use lite_mqtt.Helper.{pos, Helper}
use lite_mqtt.Helper.Policy.{
  is_exhausted, max_counted, count_attempt, do_reconnect, timer_fires, do_connect, connect_callback,
}

-- The connect attempt fails and, if a retry is armed, its timer expires; with none armed, since the
-- helper has given up, its handler would do nothing.
pub fail_round : Helper → Helper
fail_round h = timer_fires false (record (connect_callback false h) { timer = none })

pub fail_rounds : ℕ → Helper → Helper
unfolding fail_round
fail_rounds zero h = h
fail_rounds (suc n) h = fail_rounds n (fail_round h)

-- A helper that may retry `m` times, has done so `k` times and waits for an attempt to end.
pub record IsTrying (m k : ℕ) (h : Helper) : Type 0 where
  pub armed : h.should_reconnect ≡ true
  pub wanted : h.user_stopped ≡ false
  pub free : h.reconnect_pending ≡ false
  pub counted : h.reconnect_attempts ≡ k
  pub limit : h.max_reconnect_attempts ≡ pos m

fail_round_retries :
    (m k : ℕ) (h : Helper)
    → k < m
    → k < 1000000
    → IsTrying m k h
    → IsTrying m (k + 1) (fail_round h) × ((fail_round h).connects ≡ h.connects + 1)
unfolding fail_round connect_callback do_reconnect timer_fires is_exhausted count_attempt
    max_counted do_connect
fail_round_retries m k h lt few t =
    let not_yet = lt→not-leb m k lt in
    let small = lt→ltb k 1000000 few in
    (
      record {
        armed = ground arith;
        wanted = ground arith;
        free = ground arith;
        counted = ground arith;
        limit = ground arith;
      },
      ground arith,
    )

fail_round_gives_up :
    (m : ℕ) (h : Helper)
    → IsTrying m m h
    → ((fail_round h).should_reconnect ≡ false) × ((fail_round h).connects ≡ h.connects)
unfolding fail_round connect_callback do_reconnect timer_fires is_exhausted
fail_round_gives_up m h t = let now = le→leb m m (omega arith) in (ground arith, ground arith)

some_retries :
    (m k n : ℕ) (h : Helper)
    → k + n ≤ m
    → m ≤ 1000000
    → IsTrying m k h
    → IsTrying m (k + n) (fail_rounds n h) × ((fail_rounds n h).connects ≡ h.connects + n)
unfolding fail_rounds
some_retries m k zero h le few t =
    let e : k + 0 ≡ k = omega arith in (subst (λ (i : ℕ). IsTrying m i h) (sym e) t, omega arith)
some_retries m k (suc n) h le few t =
    let (t', one) = fail_round_retries m k h (omega arith) (omega arith) t in
    let (t'', rest) = some_retries m (k + 1) n (fail_round h) (omega arith) few t' in
    let e : (k + 1) + n ≡ k + suc n = omega arith in
    (subst (λ (i : ℕ). IsTrying m i (fail_rounds n (fail_round h))) e t'', omega (arith, one, rest))

fail_rounds_last : (n : ℕ) (h : Helper) → fail_rounds (suc n) h ≡ fail_round (fail_rounds n h)
unfolding fail_rounds
fail_rounds_last zero h = refl
fail_rounds_last (suc n) h = fail_rounds_last n (fail_round h)

-- With a limit of at most 1000000, a helper that has just begun to try retries as often as the limit
-- says when every attempt fails, and the failure behind the last retry makes it give up.
pub retries_up_to_limit :
    (m : ℕ) (h : Helper)
    → m ≤ 1000000
    → IsTrying m 0 h
    → ((n : ℕ)
        → n ≤ m
        → ((fail_rounds n h).should_reconnect ≡ true)
          × ((fail_rounds n h).connects ≡ h.connects + n))
      × ((fail_rounds (suc m) h).should_reconnect ≡ false)
      × ((fail_rounds (suc m) h).connects ≡ h.connects + m)
retries_up_to_limit m h few t =
    let (all, count) = some_retries m 0 m h (omega arith) few t in
    let e : 0 + m ≡ m = omega arith in
    let (over, last) =
      fail_round_gives_up m (fail_rounds m h)
        (subst (λ (i : ℕ). IsTrying m i (fail_rounds m h)) e all) in
    (
      λ n le. let (t', connects) = some_retries m 0 n h (omega arith) few t in (t'.armed, connects),
      rw (fail_rounds_last m h) over,
      rw (fail_rounds_last m h) (last ∙ count),
    )

full_round :
    (m : ℕ) (h : Helper) → 1000000 < m → IsTrying m 1000000 h → IsTrying m 1000000 (fail_round h)
unfolding fail_round connect_callback do_reconnect timer_fires is_exhausted count_attempt
    max_counted do_connect
full_round m h lt t =
    let not_yet = lt→not-leb m 1000000 lt in
    record {
      armed = ground arith;
      wanted = ground arith;
      free = ground arith;
      counted = ground arith;
      limit = ground arith;
    }

-- With a larger limit it never gives up, since the count of its attempts stops at 1000000.
pub large_limit_never_ends :
    (m k n : ℕ) (h : Helper)
    → 1000000 < m
    → k ≤ 1000000
    → IsTrying m k h
    → (fail_rounds n h).should_reconnect ≡ true
unfolding fail_rounds
large_limit_never_ends m k zero h large le t = t.armed
large_limit_never_ends m k (suc n) h large le t = elim (Bool-cases (k == 1000000)) [
  | inl full ↦
      let e : k ≡ 1000000 = ground arith in
      let t' = full_round m h large (subst (λ (i : ℕ). IsTrying m i h) e t) in
      large_limit_never_ends m 1000000 n (fail_round h) large (omega arith) t'
  | inr more ↦
      let (t', one) = fail_round_retries m k h (omega arith) (ground arith) t in
      large_limit_never_ends m (k + 1) n (fail_round h) large (ground arith) t'
]

-- ===== src/Client/Ids/Search.antt =====
-- The packet ids that acquire_packet_id() finds.
use lite_mqtt.Prelude.{
  ℕ, zero, suc, ◌+◌, ◌-◌, ◌<◌, ◌≤◌, ◌≡◌, ◌≢◌, ◌⊎◌, inl, inr, refl, Bool, true, false, some, arith,
  ap, ◌∙◌, ltb, ◌==◌, if◌then◌else◌, Bool-cases,
}
use lite_mqtt.Client.{Client}
use lite_mqtt.Client.Session.{notify_closed_once}
use lite_mqtt.Client.Ids.{next_id, search_id, in_use, search_rounds, take_id, acquire_packet_id}

abbrev pub IsId : ℕ → Type 0
IsId n = (1 ≤ n) × (n < 65536)

-- How many ids from `n` on, `n` itself excepted, it takes to be at `start`.
pub distance : ℕ → ℕ → ℕ
distance start n = if ltb n start then start - n else (start + 65535) - n

-- What the search may say from `n` on.
pub record Searched (used : ℕ → Bool) (start n : ℕ) (r : ℕ × ℕ) : Type 0 where
  pub next_valid : IsId r.0
  pub answer :
      (r.1 ≡ 0)
        × (r.0 ≡ start)
        × ((i : ℕ) → IsId i → distance start i < distance start n → used i ≡ true)
      ⊎ (IsId r.1) × (r.0 ≡ r.1) × (used r.1 ≡ false) × (r.1 ≢ start)

next_id_lem : (n : ℕ) → IsId n → (n < 65535) × (next_id n ≡ n + 1) ⊎ (n ≡ 65535) × (next_id n ≡ 1)
unfolding next_id
next_id_lem n h = ground arith

-- The next id is nearer to the start by one, and only it has this distance.
nearer :
    (start n : ℕ)
    → IsId start
    → IsId n
    → next_id n ≢ start
    → (distance start n ≡ suc (distance start (next_id n)))
      × ((i : ℕ) → IsId i → distance start i ≡ distance start (next_id n) → i ≡ next_id n)
unfolding distance
nearer start n hs hn h = elim (next_id_lem n hn) [
  | inl (lt, e) ↦ (ground (arith, e), λ i hi d. ground (arith, e))
  | inr (lt, e) ↦ (ground (arith, e), λ i hi d. ground (arith, e))
]

at_start : (start n : ℕ) → IsId start → IsId n → next_id n ≡ start → distance start n ≤ 1
unfolding distance
at_start start n hs hn h = elim (next_id_lem n hn) [
  | inl (lt, e) ↦ ground (arith, e)
  | inr (lt, e) ↦ ground (arith, e)
]

next_id-IsId : (n : ℕ) → IsId n → IsId (next_id n)
next_id-IsId n hn = ground (arith, next_id_lem n hn)

distance_positive : (start n : ℕ) → IsId start → IsId n → 1 ≤ distance start n
unfolding distance
distance_positive start n hs hn = ground arith

-- The answer where the next id is not the start, from the answer behind it.
search_more :
    (used : ℕ → Bool) (start n : ℕ) (r : ℕ × ℕ)
    → IsId start
    → IsId n
    → next_id n ≢ start
    → used (next_id n) ≡ true
    → Searched used start (next_id n) r
    → Searched used start n r
search_more used start n r hs hn h taken s =
    let (near, only) = nearer start n hs hn h in
    record {
      next_valid = s.next_valid;
      answer = elim s.answer [
        | inl (none_found, back, all_used) ↦ inl (
          none_found,
          back,
          λ i hi lt. elim (Bool-cases (distance start i == distance start (next_id n))) [
            | inl same ↦ ap used (only i hi (ground arith)) ∙ taken
            | inr other ↦ all_used i hi (ground arith)
          ],
        )
        | inr found ↦ inr found
      ];
    }

-- From a valid id, a search with as much fuel as the way to the start is long ends.
pub search_id-Searched :
    (used : ℕ → Bool) (fuel start n : ℕ)
    → IsId start
    → IsId n
    → distance start n ≤ fuel
    → (r : ℕ × ℕ) × (search_id used fuel start n ≡ some r) × Searched used start n r
unfolding search_id
search_id-Searched used zero start n hs hn h =
    absurd (omega (arith, distance_positive start n hs hn))
search_id-Searched used (suc fuel) start n hs hn h = elim (Bool-cases (next_id n == start)) [
  | inl back ↦ (
    (next_id n, 0),
    rw back refl,
    record {
      next_valid = next_id-IsId n hn;
      answer = inl (
        refl,
        ground arith,
        λ i hi lt.
            absurd (
              omega
                (arith, at_start start n hs hn (ground arith), distance_positive start i hs hi)),
      );
    },
  )
  | inr on ↦ elim (Bool-cases (used (next_id n))) [
    | inl taken ↦
        let other : next_id n ≢ start = λ e. ground arith in
        let (near, only) = nearer start n hs hn other in
        let (r, e, s) =
          search_id-Searched used fuel start (next_id n) hs (next_id-IsId n hn) (omega arith) in
        (r, rw (on, taken) e, search_more used start n r hs hn other taken s)
    | inr free ↦ (
      (next_id n, next_id n),
      rw (on, free) refl,
      record {
        next_valid = next_id-IsId n hn;
        answer = inr (next_id-IsId n hn, refl, free, λ e. ground arith);
      },
    )
  ]
]

whole_way : (start n : ℕ) → IsId start → IsId n → distance start n ≤ search_rounds
unfolding distance
whole_way start n hs hn = ground arith

any_other :
    (start i : ℕ) → IsId start → IsId i → i ≢ start → distance start i < distance start start
unfolding distance
any_other start i hs hi other = ground arith

abbrev pub Acquired : Client → Client × ℕ → Type 0
Acquired c r =
    (IsId r.1 × (in_use c r.1 ≡ false) × (r.0 ≡ record c { next_packet_id = r.1 }))
    ⊎ (r.1 ≡ 0)
      × (r.0 ≡ notify_closed_once c)
      × ((i : ℕ) → IsId i → i ≢ c.next_packet_id → in_use c i ≡ true)

taken :
    (c : Client) (r : ℕ × ℕ)
    → IsId c.next_packet_id
    → Searched (in_use c) c.next_packet_id c.next_packet_id r
    → Acquired c (take_id (some r) c)
unfolding take_id
taken c r valid s = elim s.answer [
  | inl (none_found, back, all_used) ↦
      let stop : (r.1 == 0) ≡ true = ground arith in
      rw (take_id, stop)
        (inr (
          refl,
          ap (λ (n : ℕ). notify_closed_once (record c { next_packet_id = n })) back,
          λ i hi other. all_used i hi (any_other c.next_packet_id i valid hi other),
        ))
  | inr (id, same, unused, other) ↦
      let go : (r.1 == 0) ≡ false = ground arith in
      rw (take_id, go) (inl (id, unused, ap (λ (n : ℕ). record c { next_packet_id = n }) same))
]

-- From a valid next_packet_id_, acquire_packet_id() gives a valid id that nothing pending uses and
-- remembers it; or it ends the session and gives 0, and then each id is in use but perhaps the one at
-- which the search started, which it does not test.
pub acquire_packet_id-fresh :
    (c : Client) → IsId c.next_packet_id → Acquired c (acquire_packet_id c)
unfolding acquire_packet_id take_id
acquire_packet_id-fresh c valid =
    let start = c.next_packet_id in
    let (r, e, s) =
      search_id-Searched (in_use c) search_rounds start start valid valid
        (whole_way start start valid valid) in
    rw (acquire_packet_id, e) (taken c r valid s)

-- ===== src/Tools/Stats.antt =====
-- tools/reconnect_stress.cc: publish_stats, the account of publish callbacks. The numbers stay below
-- 2 ^ 63; a sequence number is a ℕ.
use lite_mqtt.Prelude.{
  ℕ, ◌+◌, ◌-◌, ◌^◌, ◌≡◌, ◌≢◌, refl, sym, ap, ◌∙◌, Bool, true, false, ◌||◌, Option, none, some, List,
  [], ◌∷◌, arith, length, ltb, leb, ◌==◌, ==→≡, if◌then◌else◌, Bool-cases, inl, inr,
}
use lite_mqtt.Client.Maps.{find, insert, find-insert, find-insert_other}

pub record PublishStats : Type 0 where
  pub calls : List (ℕ × ℕ)
  pub issued : ℕ
  pub succeeded : ℕ
  pub failed : ℕ
  pub duplicates : ℕ

abbrev pub new_stats : PublishStats
new_stats = record { calls = []; issued = 0; succeeded = 0; failed = 0; duplicates = 0 }

-- `calls[seq]`, which is 0 where there is no entry.
abbrev or_zero : Option ℕ → ℕ
or_zero none = 0
or_zero (some n) = n

unfoldable pub called : ℕ → List (ℕ × ℕ) → ℕ
called seq m = or_zero (find seq m)

-- publish_stats::record()
unfoldable pub record_call : ℕ → Bool → PublishStats → PublishStats
unfolding called
record_call seq ok s =
    let count = called seq s.calls + 1 in
    let s' : PublishStats = record s {
      calls = insert seq count s.calls;
      duplicates = if ltb 1 count then s.duplicates + 1 else s.duplicates;
    } in
    if ok then record s' { succeeded = s'.succeeded + 1 } else record s' { failed = s'.failed + 1 }

-- The cast to size_t wraps a negative difference.
pub pending : PublishStats → ℕ
pending s =
    let done = s.succeeded + s.failed in
    if leb done s.issued then s.issued - done else s.issued + 2 ^ 64 - done

unfoldable pub record_all : List (ℕ × Bool) → PublishStats → PublishStats
unfolding record_call
record_all [] s = s
record_all (r ∷ rs) s = record_all rs (record_call r.0 r.1 s)

abbrev pub mem : ℕ → List ℕ → Bool
mem n [] = false
mem n (x ∷ xs) = x == n || mem n xs

-- How many callbacks come for a number that already had one.
abbrev pub repeats : List ℕ → List (ℕ × Bool) → ℕ
repeats seen [] = 0
repeats seen (r ∷ rs) = (if mem r.0 seen then 1 else 0) + repeats (r.0 ∷ seen) rs

abbrev pub successes : List (ℕ × Bool) → ℕ
successes [] = 0
successes (r ∷ rs) = (if r.1 then 1 else 0) + successes rs

-- The numbers that have been called are those in the list.
abbrev Tracks : List ℕ → PublishStats → Type 0
Tracks seen s = (k : ℕ) → ltb 0 (called k s.calls) ≡ mem k seen

called_after :
    (seq : ℕ) (ok : Bool) (s : PublishStats)
    → (record_call seq ok s).calls ≡ insert seq (called seq s.calls + 1) s.calls
unfolding record_call
called_after seq true s = refl
called_after seq false s = refl

Tracks-call :
    (seq : ℕ) (ok : Bool) (seen : List ℕ) (s : PublishStats)
    → Tracks seen s
    → Tracks (seq ∷ seen) (record_call seq ok s)
unfolding called
Tracks-call seq ok seen s tracks k =
    let n = called seq s.calls + 1 in
    elim (Bool-cases (seq == k)) [
      | inl e ↦
          let there : called k (record_call seq ok s).calls ≡ n =
            ap (called k) (called_after seq ok s)
            ∙ ap (λ j. called j (insert seq n s.calls)) (sym (==→≡ seq k e))
            ∙ ap or_zero (find-insert seq n s.calls) in
          rw (there, e) (ground arith)
      | inr e ↦
          let differ : seq ≢ k = λ same. absurd (ground (arith, same)) in
          let kept : called k (record_call seq ok s).calls ≡ called k s.calls =
            ap (called k) (called_after seq ok s)
            ∙ ap or_zero (find-insert_other seq k n s.calls differ) in
          rw (kept, e) (tracks k)
    ]

duplicates_after :
    (seq : ℕ) (ok : Bool) (seen : List ℕ) (s : PublishStats)
    → Tracks seen s
    → ((record_call seq ok s).duplicates ≡ s.duplicates + (if mem seq seen then 1 else 0))
      × ((record_call seq ok s).succeeded ≡ s.succeeded + (if ok then 1 else 0))
      × ((record_call seq ok s).failed + (if ok then 1 else 0) ≡ s.failed + 1)
unfolding record_call
duplicates_after seq true seen s tracks =
    let t = tracks seq in (ground arith, ground arith, ground arith)
duplicates_after seq false seen s tracks =
    let t = tracks seq in (ground arith, ground arith, ground arith)

record_all_lem :
    (rs : List (ℕ × Bool)) (seen : List ℕ) (s : PublishStats)
    → Tracks seen s
    → let s' = record_all rs s in
      (s'.duplicates ≡ s.duplicates + repeats seen rs)
      × (s'.succeeded ≡ s.succeeded + successes rs)
      × (s'.succeeded + s'.failed ≡ s.succeeded + s.failed + length rs)
unfolding record_all
record_all_lem [] seen s tracks = (omega arith, omega arith, omega arith)
record_all_lem (r ∷ rs) seen s tracks =
    let (d, o, f) = duplicates_after r.0 r.1 seen s tracks in
    let (d', o', f') =
      record_all_lem rs (r.0 ∷ seen) (record_call r.0 r.1 s) (Tracks-call r.0 r.1 seen s tracks) in
    (omega (arith, d, d'), omega (arith, o, o'), omega (arith, o, f, f'))

-- After any callbacks the account is exact: each is counted once, as a success or as a failure, and
-- `duplicates` counts the callbacks for a number that already had one.
pub record_all-exact :
    (rs : List (ℕ × Bool))
    → let s = record_all rs new_stats in
      (s.duplicates ≡ repeats [] rs)
      × (s.succeeded ≡ successes rs)
      × (s.succeeded + s.failed ≡ length rs)
unfolding called find
record_all-exact rs =
    let (d, o, f) = record_all_lem rs [] new_stats (λ k. ground arith) in
    (omega (arith, d), omega (arith, o), omega (arith, f))

-- ===== src/Client/Bounds.antt =====
-- What bounds the state of a session.
pub mod Entries
pub mod Closing
pub mod Handlers
pub mod Runs
use lite_mqtt.Prelude.{
  ℕ, ◌+◌, ◌≤◌, ◌<◌, ◌≡◌, refl, Bool, true, false, Option, some, List, [], ◌∷◌, arith, length, All,
  sym, ◌∙◌, ◌==◌, ltb, if_elim, ==→≡, subst, Bool-cases, inl, inr, if◌then◌else◌,
}
use mathlib.Core.Option.{some-injective, none-ne-some}
use lite_mqtt.Client.Maps.{find, insert, erase, update, length-insert, length-erase, length-update}
use lite_mqtt.Client.{PendingPublish, PendingPubrec, PendingSubscribe, Client}
use lite_mqtt.Client.Ids.Search.{IsId}
use lite_mqtt.Client.Sending.{max_pending_publishes}

-- What holds of every key with its value.
abbrev pub AllEntries : {V : Type 0} → (ℕ → V → Type 0) → List (ℕ × V) → Type 0
AllEntries P = All (λ e. P e.0 e.1)

module _ {V : Type 0} (P : ℕ → V → Type 0) where
  pub All-insert :
      (k : ℕ) (v : V) (m : List (ℕ × V)) → P k v → AllEntries P m → AllEntries P (insert k v m)
  unfolding insert
  All-insert k v [] p all = (p, tt)
  All-insert k v (e ∷ m) p all =
      if_elim (AllEntries P) (ltb k e.0) ((k, v) ∷ e ∷ m)
        (if e.0 == k then (k, v) ∷ m else e ∷ insert k v m) (λ _. (p, all))
        (λ _.
          if_elim (AllEntries P) (e.0 == k) ((k, v) ∷ m) (e ∷ insert k v m) (λ _. (p, all.1))
            (λ _. (all.0, All-insert k v m p all.1)))

  pub All-erase : (k : ℕ) (m : List (ℕ × V)) → AllEntries P m → AllEntries P (erase k m)
  unfolding erase
  All-erase k [] all = tt
  All-erase k (e ∷ m) all =
      if_elim (AllEntries P) (e.0 == k) m (e ∷ erase k m) (λ _. all.1)
        (λ _. (all.0, All-erase k m all.1))

  pub All-find : (k : ℕ) (v : V) (m : List (ℕ × V)) → find k m ≡ some v → AllEntries P m → P k v
  unfolding find
  All-find k v [] found all = absurd (none-ne-some v found)
  All-find k v (e ∷ m) found all = elim (Bool-cases (e.0 == k)) [
    | inl here ↦
        let head : find k (e ∷ m) ≡ some e.1 = rw (find, here) refl in
        subst (λ n. P n v) (==→≡ e.0 k here)
          (subst (P e.0) (some-injective e.1 v (sym head ∙ found)) all.0)
    | inr on ↦
        let tail : find k (e ∷ m) ≡ find k m = rw (find, on) refl in
        All-find k v m (sym tail ∙ found) all.1
  ]

  -- Only the entry that find() gives changes.
  pub All-update :
      (k : ℕ) (f : V → V) (m : List (ℕ × V))
      → ((v : V) → find k m ≡ some v → P k v → P k (f v))
      → AllEntries P m
      → AllEntries P (update k f m)
  unfolding update find
  All-update k f [] h all = tt
  All-update k f (e ∷ m) h all =
      if_elim (AllEntries P) (e.0 == k) ((e.0, f e.1) ∷ m) (e ∷ update k f m)
        (λ here.
          let same = ==→≡ e.0 k here in
          let head : find k (e ∷ m) ≡ some e.1 = rw (find, here) refl in
          (
            subst (λ n. P n (f e.1)) (sym same) (h e.1 head (subst (λ n. P n e.1) same all.0)),
            all.1,
          ))
        (λ on.
          let tail : find k (e ∷ m) ≡ find k m = rw (find, on) refl in
          (all.0, All-update k f m (λ v found. h v (tail ∙ found)) all.1))

-- A publish that waits: a valid id, at most three attempts, QoS 1 or 2.
abbrev pub SoundPublish : ℕ → PendingPublish → Type 0
SoundPublish id e = IsId id × (1 ≤ e.attempts) × (e.attempts ≤ 3) × (1 ≤ e.qos) × (e.qos ≤ 2)

abbrev pub SoundPubrec : ℕ → PendingPubrec → Type 0
SoundPubrec id e = IsId id × (e.attempts ≤ 3)

abbrev pub SoundSubscribe : ℕ → PendingSubscribe → Type 0
SoundSubscribe id p = IsId id × All (λ f. f.1 ≤ 2) p.filters

-- The fields that are bounded.
pub record Sound (next : ℕ) (publishes : List (ℕ × PendingPublish))
    (pubrecs : List (ℕ × PendingPubrec)) (subscribes : List (ℕ × PendingSubscribe)) : Type 0 where
  pub next_valid : IsId next
  pub few : length publishes ≤ max_pending_publishes
  pub sound_publishes : AllEntries SoundPublish publishes
  pub sound_pubrecs : AllEntries SoundPubrec pubrecs
  pub sound_subscribes : AllEntries SoundSubscribe subscribes

abbrev pub IsSound : Client → Type 0
IsSound c = Sound c.next_packet_id c.pending_publishes c.pending_pubrecs c.pending_subscribes

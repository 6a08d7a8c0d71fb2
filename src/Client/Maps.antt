-- ===== src/Client/Maps.antt =====
-- A std::map with keys of type uint16_t, as a list of its entries in the order of the keys.
use lite_mqtt.Prelude.{
  ℕ, ◌≡◌, ◌≢◌, ◌≤◌, suc, refl, Bool, true, false, Option, none, some, List, [], ◌∷◌, arith, length,
  ltb, ◌==◌, if◌then◌else◌,
}

module _ {V : Type 0} where
  unfoldable pub find : ℕ → List (ℕ × V) → Option V
  find k [] = none
  find k (e ∷ m) = let rest = find k m in if e.0 == k then some e.1 else rest

  unfoldable pub has : ℕ → List (ℕ × V) → Bool
  unfolding find
  has k m = elim (find k m) [ none ↦ false | some v ↦ true ]

  -- `m[k] = v`
  unfoldable pub insert : ℕ → V → List (ℕ × V) → List (ℕ × V)
  insert k v [] = (k, v) ∷ []
  insert k v (e ∷ m) =
      let rest = insert k v m in
      if ltb k e.0 then (k, v) ∷ e ∷ m else if e.0 == k then (k, v) ∷ m else e ∷ rest

  -- The element that find() gave goes.
  unfoldable pub erase : ℕ → List (ℕ × V) → List (ℕ × V)
  erase k [] = []
  erase k (e ∷ m) = let rest = erase k m in if e.0 == k then m else e ∷ rest

  pub find-erase_other : (k l : ℕ) (m : List (ℕ × V)) → k ≢ l → find l (erase k m) ≡ find l m
  unfolding find erase
  find-erase_other k l [] h = refl
  find-erase_other k l (e ∷ m) h = ground (arith, find-erase_other k l m h)

  pub find-insert : (k : ℕ) (v : V) (m : List (ℕ × V)) → find k (insert k v m) ≡ some v
  unfolding find insert
  find-insert k v [] = ground arith
  find-insert k v (e ∷ m) = ground (arith, find-insert k v m)

  pub find-insert_other :
      (k l : ℕ) (v : V) (m : List (ℕ × V)) → k ≢ l → find l (insert k v m) ≡ find l m
  unfolding find insert
  find-insert_other k l v [] h = ground arith
  find-insert_other k l v (e ∷ m) h = ground (arith, find-insert_other k l v m h)

  pub length-insert : (k : ℕ) (v : V) (m : List (ℕ × V)) → length (insert k v m) ≤ suc (length m)
  unfolding insert
  length-insert k v [] = omega arith
  length-insert k v (e ∷ m) = ground (arith, length-insert k v m)

  pub length-erase : (k : ℕ) (m : List (ℕ × V)) → length (erase k m) ≤ length m
  unfolding erase
  length-erase k [] = omega arith
  length-erase k (e ∷ m) = ground (arith, length-erase k m)

  -- A change of an entry through a reference to it.
  unfoldable pub update : ℕ → (V → V) → List (ℕ × V) → List (ℕ × V)
  update k f [] = []
  update k f (e ∷ m) = let rest = update k f m in if e.0 == k then (e.0, f e.1) ∷ m else e ∷ rest

  pub length-update : (k : ℕ) (f : V → V) (m : List (ℕ × V)) → length (update k f m) ≡ length m
  unfolding update
  length-update k f [] = refl
  length-update k f (e ∷ m) = ground (arith, length-update k f m)

  pub find-update :
      (k : ℕ) (f : V → V) (v : V) (m : List (ℕ × V))
      → find k m ≡ some v
      → find k (update k f m) ≡ some (f v)
  unfolding find update
  find-update k f v [] h = ground arith
  find-update k f v (e ∷ m) h = ground (arith, find-update k f v m)

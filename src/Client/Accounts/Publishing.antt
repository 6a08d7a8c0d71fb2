-- ===== src/Client/Accounts/Publishing.antt =====
-- The account of publish callbacks under a new publish.
use lite_mqtt.Prelude.{
  ℕ, zero, suc, ◌+◌, ◌≡◌, ◌⊎◌, refl, Bool, true, false, not, Option, none, some, List, arith, ◌==◌,
  leb, length, if◌then◌else◌, Bool-cases, inl, inr, ◌∙◌,
}
use lite_mqtt.Client.Maps.{find, has, insert}
use lite_mqtt.Client.{Callback, PendingPublish, Client, emit, call_publish}
use lite_mqtt.Client.Ids.{next_id, in_use, search_id, search_rounds, take_id, acquire_packet_id}
use lite_mqtt.Client.Sending.{publish_with_id, max_pending_publishes}
use lite_mqtt.Client.Accounts.{weight, account, answered-call_publish, waiting-insert}
use lite_mqtt.Client.Accounts.Closing.{account-emit, account-notify_closed_once}
use lite_mqtt.Client.Accounts.Handlers.{account-send_publish_entry}

abbrev FoundUnused : (ℕ → Bool) → Option (ℕ × ℕ) → Type 0
FoundUnused used none = Unit
FoundUnused used (some r) = (r.1 ≡ 0) ⊎ (used r.1 ≡ false)

found_if :
    (used : ℕ → Bool) (b : Bool) (x y : Option (ℕ × ℕ))
    → (b ≡ true → FoundUnused used x)
    → (b ≡ false → FoundUnused used y)
    → FoundUnused used (if b then x else y)
found_if used true x y hx hy = hx refl
found_if used false x y hx hy = hy refl

search_unused :
    (used : ℕ → Bool) (fuel start n : ℕ) → FoundUnused used (search_id used fuel start n)
unfolding search_id
search_unused used zero start n = tt
search_unused used (suc fuel) start n =
    let m = next_id n in
    found_if used (m == start) (some (m, 0))
      (if not (used m) then some (m, m) else search_id used fuel start m) (λ back. inl refl)
      (λ on.
        found_if used (not (used m)) (some (m, m)) (search_id used fuel start m)
          (λ free. inr (ground arith)) (λ taken. search_unused used fuel start m))

unused_publish : (c : Client) (id : ℕ) → in_use c id ≡ false → find id c.pending_publishes ≡ none
unfolding in_use has
unused_publish c id h = ground arith

-- What a publish needs of an id.
abbrev IsFresh : Client × ℕ → Type 0
IsFresh r = (r.1 ≡ 0) ⊎ (find r.1 r.0.pending_publishes ≡ none)

module _ (counted : ℕ → Bool) where
  pub account-next_id :
      (n : ℕ) (c : Client) → account counted (record c { next_packet_id = n }) ≡ account counted c
  unfolding account
  account-next_id n c = refl

  account-take_id :
      (o : Option (ℕ × ℕ)) (c : Client)
      → FoundUnused (in_use c) o
      → (account counted (take_id o c).0 ≡ account counted c) × IsFresh (take_id o c)
  unfolding take_id
  account-take_id none c h = (refl, inl refl)
  account-take_id (some r) c h = elim (Bool-cases (r.1 == 0)) [
    | inl stop ↦
        rw (take_id, stop) (account-notify_closed_once counted _ ∙ account-next_id r.0 c, inl refl)
    | inr go ↦
        rw (take_id, go)
          (
            account-next_id r.0 c,
            elim h [
              | inl none_found ↦ inl none_found
              | inr unused ↦ inr (unused_publish c r.1 unused)
            ],
          )
  ]

  pub account-acquire :
      (c : Client)
      → (account counted (acquire_packet_id c).0 ≡ account counted c)
        × IsFresh (acquire_packet_id c)
  unfolding acquire_packet_id
  account-acquire c =
      account-take_id (search_id (in_use c) search_rounds c.next_packet_id c.next_packet_id) c
        (search_unused (in_use c) search_rounds c.next_packet_id c.next_packet_id)

  pub account-refused :
      (cb : Callback) (topic : List ℕ) (qos : ℕ) (c : Client)
      → account counted (emit (call_publish cb false topic qos 0) c)
        ≡ weight counted cb qos + account counted c
  account-refused cb topic qos c = omega (
    arith,
    account-emit counted (call_publish cb false topic qos 0) c,
    answered-call_publish counted cb false topic qos 0,
  )

  account-insert :
      (k : ℕ) (e : PendingPublish) (c : Client)
      → find k c.pending_publishes ≡ none
      → account counted (record c { pending_publishes = insert k e c.pending_publishes })
        ≡ weight counted e.callback e.qos + account counted c
  unfolding account
  account-insert k e c h = omega (arith, waiting-insert counted k e c.pending_publishes h)

  -- One more call is made or owed.
  abbrev pub Adds : Callback → ℕ → Client → Client → Type 0
  Adds cb qos c c' = account counted c' ≡ weight counted cb qos + account counted c

  pub Adds-if :
      (b : Bool) (x y : Client) (cb : Callback) (qos : ℕ) (c : Client)
      → (b ≡ true → Adds cb qos c x)
      → (b ≡ false → Adds cb qos c y)
      → Adds cb qos c (if b then x else y)
  Adds-if true x y cb qos c hx hy = hx refl
  Adds-if false x y cb qos c hx hy = hy refl

  pub account-publish_with_id :
      (e : PendingPublish) (r : Client × ℕ)
      → IsFresh r
      → Adds e.callback e.qos r.0 (publish_with_id e r)
  unfolding publish_with_id
  account-publish_with_id e r h =
      let refused = account-refused e.callback e.topic e.qos r.0 in
      Adds-if (r.1 == 0) _ _ e.callback e.qos r.0 (λ _. refused)
        (λ found.
          Adds-if (leb max_pending_publishes (length r.0.pending_publishes)) _ _ e.callback e.qos
            r.0 (λ _. refused)
            (λ _. elim h [
              | inl exhausted ↦ absurd (ground arith)
              | inr fresh ↦
                  account-send_publish_entry counted r.1 _ ∙ account-insert r.1 e r.0 fresh
            ]))

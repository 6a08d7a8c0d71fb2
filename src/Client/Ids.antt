-- ===== src/Client/Ids.antt =====
-- inc/litemqtt/client.hpp: the choice of packet ids.
pub mod Search
use lite_mqtt.Prelude.{
  ℕ, zero, suc, ◌+◌, Bool, not, ◌&&◌, Option, none, some, ◌==◌, if◌then◌else◌, u16,
}
use lite_mqtt.Client.Maps.{has}
use lite_mqtt.Client.{Client}
use lite_mqtt.Client.Session.{notify_closed_once}

-- `++next_packet_id_`, and once more at 0.
pub next_id : ℕ → ℕ
next_id n = let m = u16 (n + 1) in if m == 0 then u16 (m + 1) else m

-- The loop of acquire_packet_id(): next_packet_id_ as it ends, and the id that was found, 0 for none.
-- Without fuel the answer is `none`.
unfoldable pub search_id : (ℕ → Bool) → ℕ → ℕ → ℕ → Option (ℕ × ℕ)
unfolding next_id
search_id in_use zero start n = none
search_id in_use (suc fuel) start n =
    let m = next_id n in
    let rest = search_id in_use fuel start m in
    if m == start then some (m, 0) else if not (in_use m) then some (m, m) else rest

unfoldable pub in_use : Client → ℕ → Bool
in_use c id = not (
    not (has id c.pending_publishes)
    && not (has id c.pending_subscribes)
    && not (has id c.pending_pubrecs))

-- The loop meets its start again within 65535 rounds.
abbrev pub search_rounds : ℕ
search_rounds = 65535

unfoldable pub take_id : Option (ℕ × ℕ) → Client → Client × ℕ
take_id none c = (c, 0)
take_id (some r) c =
    let c' : Client = record c { next_packet_id = r.0 } in
    if r.1 == 0 then (notify_closed_once c', 0) else (c', r.1)

unfoldable pub acquire_packet_id : Client → Client × ℕ
unfolding take_id
acquire_packet_id c =
    take_id (search_id (in_use c) search_rounds c.next_packet_id c.next_packet_id) c

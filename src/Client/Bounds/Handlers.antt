-- ===== src/Client/Bounds/Handlers.antt =====
-- The bounds of a session under its handlers.
use lite_mqtt.Prelude.{
  ℕ, ◌+◌, ◌≤◌, ◌≡◌, refl, sym, ap, ◌∙◌, subst, Bool, false, not, Option, none, some, List, [], ◌∷◌,
  arith, length, ◌==◌, ltb, leb, if_elim, ltb-false→le, Option-cases, inl, inr,
}
use mathlib.Core.Option.{some-injective}
use lite_mqtt.Codec.Packets.Publish.{PublishPacket}
use lite_mqtt.Client.Maps.{find, update}
use lite_mqtt.Client.{Callback, PendingPublish, PendingPubrec, Client}
use lite_mqtt.Client.Ids.{acquire_packet_id}
use lite_mqtt.Client.Ids.Search.{IsId, acquire_packet_id-fresh}
use lite_mqtt.Client.Sending.{
  send_publish_entry, send_pubrel, publish_timer_fires, pubrec_timer_fires, publish_with_id,
  publish_qos0, async_publish_impl, new_entry, max_pending_publishes, is_connected,
  subscribe_with_id, async_subscribe_impl, call_connect,
}
use lite_mqtt.Client.Receiving.{
  complete_publish, receive_pubrec, receive_pubcomp, receive_suback, subscribe_granted,
  receive_publish, reply, handle_return_code,
}
use lite_mqtt.Client.Bounds.{SoundPublish, IsSound, All-find}
use lite_mqtt.Client.Bounds.Entries.{
  erase_publish-Sound, erase_pubrec-Sound, erase_subscribe-Sound, update_publish-Sound,
  update_pubrec-Sound, insert_publish-Sound, insert_pubrec-Sound, insert_subscribe-Sound,
  next_id-Sound,
}
use lite_mqtt.Client.Bounds.Closing.{
  arm_publish-IsSound, arm_pubrec-IsSound, close_conn-IsSound, notify_closed_once-IsSound,
  finish_publish_failure-IsSound,
}

pub send_publish_entry-IsSound :
    (id : ℕ) (c : Client) → IsSound c → IsSound (send_publish_entry id c)
unfolding send_publish_entry
send_publish_entry-IsSound id c o = elim (Option-cases (find id c.pending_publishes)) [
  | inl absent ↦ rw (send_publish_entry, absent) o
  | inr (e, found) ↦ rw (send_publish_entry, found) (arm_publish-IsSound id c o)
]

pub send_pubrel-IsSound : (id : ℕ) (c : Client) → IsSound c → IsSound (send_pubrel id c)
unfolding send_pubrel
send_pubrel-IsSound id c o = arm_pubrec-IsSound id c o

found_once : {V : Type 0} {o : Option V} {v w : V} → o ≡ some v → o ≡ some w → v ≡ w
found_once p q = some-injective _ _ (sym p ∙ q)

-- A retry timer counts an attempt only below three.
pub publish_timer-IsSound : (id : ℕ) (c : Client) → IsSound c → IsSound (publish_timer_fires id c)
unfolding publish_timer_fires
publish_timer-IsSound id c o = elim (Option-cases (find id c.pending_publishes)) [
  | inl absent ↦ rw (publish_timer_fires, absent) o
  | inr (e, found) ↦
      rw (publish_timer_fires, found)
        (if_elim IsSound (leb 3 e.attempts) _ _ (λ _. finish_publish_failure-IsSound id c o)
          (λ few.
            let tried =
              λ (v : PendingPublish). record v { timer_armed = false; attempts = v.attempts + 1 } in
            send_publish_entry-IsSound id
              (record c { pending_publishes = update id tried c.pending_publishes })
              (update_publish-Sound id tried
                (λ v f p.
                  let same = ap (λ (e : PendingPublish). e.attempts) (found_once f found) in
                  let (valid, first, last, low, high) = p in
                  (valid, omega arith, ground (arith, same), low, high))
                o)))
]

pub pubrec_timer-IsSound : (id : ℕ) (c : Client) → IsSound c → IsSound (pubrec_timer_fires id c)
unfolding pubrec_timer_fires
pubrec_timer-IsSound id c o = elim (Option-cases (find id c.pending_pubrecs)) [
  | inl absent ↦ rw (pubrec_timer_fires, absent) o
  | inr (e, found) ↦
      rw (pubrec_timer_fires, found)
        (if_elim IsSound (leb 3 e.attempts) _ _ (λ _. notify_closed_once-IsSound c o)
          (λ few.
            let tried =
              λ (v : PendingPubrec). record v { timer_armed = false; attempts = v.attempts + 1 } in
            send_pubrel-IsSound id
              (record c { pending_pubrecs = update id tried c.pending_pubrecs })
              (update_pubrec-Sound id tried
                (λ v f p.
                  let same = ap (λ (e : PendingPubrec). e.attempts) (found_once f found) in
                  (p.0, ground (arith, same)))
                o)))
]

pub complete_publish-IsSound : (id : ℕ) (c : Client) → IsSound c → IsSound (complete_publish id c)
unfolding complete_publish
complete_publish-IsSound id c o = elim (Option-cases (find id c.pending_publishes)) [
  | inl absent ↦ rw (complete_publish, absent) o
  | inr (e, found) ↦ rw (complete_publish, found) (erase_publish-Sound id o)
]

pub receive_pubrec-IsSound : (id : ℕ) (c : Client) → IsSound c → IsSound (receive_pubrec id c)
unfolding receive_pubrec
receive_pubrec-IsSound id c o = elim (Option-cases (find id c.pending_publishes)) [
  | inl absent ↦ rw (receive_pubrec, absent) o
  | inr (e, found) ↦
      let (id_valid, first, last, low, high) =
        All-find SoundPublish id e c.pending_publishes found o.sound_publishes in
      rw (receive_pubrec, found)
        (send_pubrel-IsSound id _ (
          insert_pubrec-Sound id (record { timer_armed = false; attempts = 0 })
            (id_valid, omega arith)
            (update_publish-Sound id (λ (e : PendingPublish). record e { timer_armed = false })
              (λ v f p. p) o)))
]

pub receive_pubcomp-IsSound : (id : ℕ) (c : Client) → IsSound c → IsSound (receive_pubcomp id c)
unfolding receive_pubcomp
receive_pubcomp-IsSound id c o = complete_publish-IsSound id _ (erase_pubrec-Sound id o)

subscribe_granted-IsSound :
    (cb : Callback) (fs : List (List ℕ × ℕ)) (codes : List ℕ) (c : Client)
    → IsSound c
    → IsSound (subscribe_granted cb fs codes c)
unfolding subscribe_granted
subscribe_granted-IsSound none fs codes c o = o
subscribe_granted-IsSound (some cb) fs codes c o =
    if_elim IsSound (ltb (length codes) (length fs)) _ _ (λ _. notify_closed_once-IsSound c o)
      (λ _. o)

pub receive_suback-IsSound :
    (id : ℕ) (codes : List ℕ) (c : Client) → IsSound c → IsSound (receive_suback id codes c)
unfolding receive_suback
receive_suback-IsSound id codes c o = elim (Option-cases (find id c.pending_subscribes)) [
  | inl absent ↦ rw (receive_suback, absent) o
  | inr (p, found) ↦
      rw (receive_suback, found)
        (subscribe_granted-IsSound p.callback p.filters codes _ (erase_subscribe-Sound id o))
]

reply-IsSound : (qos id : ℕ) (c : Client) → IsSound c → IsSound (reply qos id c)
reply-IsSound qos id c o =
    if_elim IsSound (qos == 1) _ _ (λ _. o) (λ _. if_elim IsSound (qos == 2) _ _ (λ _. o) (λ _. o))

pub receive_publish-IsSound :
    (p : PublishPacket) (c : Client) → IsSound c → IsSound (receive_publish p c)
unfolding receive_publish
receive_publish-IsSound p c o =
    if_elim IsSound (ltb 2 p.qos) _ _ (λ _. notify_closed_once-IsSound c o)
      (λ _.
        reply-IsSound p.qos p.packet_id _ (if_elim IsSound c.on_message_cb _ _ (λ _. o) (λ _. o)))

pub call_connect-IsSound :
    (success : Bool) (code : ℕ) (c : Client) → IsSound c → IsSound (call_connect success code c)
unfolding call_connect
call_connect-IsSound success code c o = if_elim IsSound c.on_connect_cb _ _ (λ _. o) (λ _. o)

pub return_code-IsSound : (code : ℕ) (c : Client) → IsSound c → IsSound (handle_return_code code c)
unfolding handle_return_code
return_code-IsSound code c o =
    call_connect-IsSound (code == 0) code _
      (if_elim IsSound (code == 0) _ _ (λ _. o) (λ _. close_conn-IsSound _ o))

-- The id that is taken is valid, or it is 0.
pub acquire-IsSound :
    (c : Client)
    → IsSound c
    → IsSound (acquire_packet_id c).0
      × (((acquire_packet_id c).1 == 0) ≡ false → IsId (acquire_packet_id c).1)
acquire-IsSound c o = elim (acquire_packet_id-fresh c o.next_valid) [
  | inl (valid, unused, same) ↦
      (subst IsSound (sym same) (next_id-Sound (acquire_packet_id c).1 valid o), λ _. valid)
  | inr (none_found, closed, used) ↦
      (subst IsSound (sym closed) (notify_closed_once-IsSound c o), λ found. absurd (ground arith))
]

pub publish_with_id-IsSound :
    (e : PendingPublish) (r : Client × ℕ)
    → (1 ≤ e.qos) × (e.qos ≤ 2) × (e.attempts ≡ 1)
    → ((r.1 == 0) ≡ false → IsId r.1)
    → IsSound r.0
    → IsSound (publish_with_id e r)
unfolding publish_with_id
publish_with_id-IsSound e r (low, high, first) valid o =
    if_elim IsSound (r.1 == 0) _ _ (λ _. o)
      (λ found.
        if_elim IsSound (leb max_pending_publishes (length r.0.pending_publishes)) _ _ (λ _. o)
          (λ room. send_publish_entry-IsSound r.1 _ (
            insert_publish-Sound r.1 e (valid found, omega arith, omega arith, low, high)
              (ground arith) o)))

pub async_publish-IsSound :
    (topic payload : List ℕ) (qos : ℕ) (cb : Callback) (c : Client)
    → IsSound c
    → IsSound (async_publish_impl topic payload qos cb c)
unfolding async_publish_impl publish_qos0
async_publish-IsSound topic payload qos cb c o =
    if_elim IsSound (ltb 2 qos) _ _ (λ _. o)
      (λ high.
        if_elim IsSound c.closed _ _ (λ _. o)
          (λ _.
            if_elim IsSound (not (is_connected c.conn.state)) _ _ (λ _. o)
              (λ _.
                if_elim IsSound (qos == 0) _ _ (λ _. o)
                  (λ low.
                    publish_with_id-IsSound (new_entry topic payload qos cb) _
                      (ground arith, ltb-false→le 2 qos high, refl) (acquire-IsSound c o).1
                      (acquire-IsSound c o).0))))

pub async_subscribe-IsSound :
    (topic : List ℕ) (qos : ℕ) (cb : Callback) (c : Client)
    → IsSound c
    → IsSound (async_subscribe_impl topic qos cb c)
unfolding async_subscribe_impl subscribe_with_id
async_subscribe-IsSound topic qos cb c o =
    let (taken, valid) = acquire-IsSound c o in
    if_elim IsSound c.closed _ _ (λ _. o)
      (λ _.
        if_elim IsSound (ltb 2 qos) _ _ (λ _. o)
          (λ high.
            if_elim IsSound ((acquire_packet_id c).1 == 0) _ _ (λ _. taken)
              (λ found.
                insert_subscribe-Sound (acquire_packet_id c).1
                  (record { filters = (topic, qos) ∷ []; callback = cb })
                  (valid found, (ltb-false→le 2 qos high, tt)) taken)))

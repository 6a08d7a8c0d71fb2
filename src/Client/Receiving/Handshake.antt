-- ===== src/Client/Receiving/Handshake.antt =====
-- The exchange that ends a publish with QoS 2: PUBREC, PUBREL, PUBCOMP.
use lite_mqtt.Prelude.{
  ℕ, zero, suc, ◌≡◌, refl, ap, ◌∙◌, true, false, some, List, [], ◌∷◌, ◌++◌, append_assoc, replicate,
}
use lite_mqtt.Codec.Packets.Acks.{serialize_pubrel}
use lite_mqtt.Client.Maps.{find, find-update}
use lite_mqtt.Client.{Client, Output, posts_write, pubrel_sent, PendingPublish, call_publish}
use lite_mqtt.Client.Session.{arm_pubrec_retry_timer}
use lite_mqtt.Client.Sending.{send_pubrel}
use lite_mqtt.Client.Receiving.{receive_pubrec, receive_pubcomp, complete_publish}

abbrev pub pubrel_post : ℕ → Output
pubrel_post packet_id = posts_write (record {
  buffer = serialize_pubrel (record { packet_id = packet_id });
  handler = some (pubrel_sent packet_id);
})

-- The same PUBREC, a number of times.
pub receive_pubrecs : ℕ → ℕ → Client → Client
unfolding receive_pubrec
receive_pubrecs zero packet_id c = c
receive_pubrecs (suc n) packet_id c = receive_pubrecs n packet_id (receive_pubrec packet_id c)

receive_pubrec_lem :
    (packet_id : ℕ) (e : PendingPublish) (c : Client)
    → find packet_id c.pending_publishes ≡ some e
    → let c' = receive_pubrec packet_id c in
      (c'.trace ≡ c.trace ++ pubrel_post packet_id ∷ [])
      × (find packet_id c'.pending_publishes ≡ some (record e { timer_armed = false }))
unfolding receive_pubrec send_pubrel arm_pubrec_retry_timer
receive_pubrec_lem packet_id e c found =
    let kept =
      find-update packet_id (λ (e : PendingPublish). record e { timer_armed = false }) e
        c.pending_publishes found in
    rw (receive_pubrec, found) (refl, kept)

receive_pubcomp_lem :
    (packet_id : ℕ) (e : PendingPublish) (c : Client)
    → find packet_id c.pending_publishes ≡ some e
    → (receive_pubcomp packet_id c).trace
      ≡ c.trace ++ call_publish e.callback true e.topic e.qos packet_id
unfolding receive_pubcomp complete_publish
receive_pubcomp_lem packet_id e c found = rw (receive_pubcomp, complete_publish, found) refl

-- However often PUBREC arrives for a publish that is pending, each one is answered with PUBREL, also
-- the duplicates; the callback is called once, with success, when PUBCOMP arrives.
pub pubrecs-pubcomp :
    (n packet_id : ℕ) (e : PendingPublish) (c : Client)
    → find packet_id c.pending_publishes ≡ some e
    → (receive_pubcomp packet_id (receive_pubrecs n packet_id c)).trace
      ≡ c.trace
        ++ (replicate n (pubrel_post packet_id)
            ++ call_publish e.callback true e.topic e.qos packet_id)
unfolding receive_pubrecs
pubrecs-pubcomp zero packet_id e c found = receive_pubcomp_lem packet_id e c found
pubrecs-pubcomp (suc n) packet_id e c found =
    let (sent, kept) = receive_pubrec_lem packet_id e c found in
    let call = call_publish e.callback true e.topic e.qos packet_id in
    let later = replicate n (pubrel_post packet_id) ++ call in
    pubrecs-pubcomp n packet_id (record e { timer_armed = false }) (receive_pubrec packet_id c) kept
    ∙ ap (λ (t : List Output). t ++ later) sent
    ∙ append_assoc c.trace (pubrel_post packet_id ∷ []) later

-- ===== src/Client/Accounts/Handlers.antt =====
-- The account of publish callbacks under the handlers of a session.
use lite_mqtt.Prelude.{
  ℕ, ◌+◌, ◌≡◌, refl, Bool, true, false, none, some, List, [], ◌∷◌, arith, ◌==◌, ltb, if◌then◌else◌,
  Option-cases, inl, inr, ◌∙◌,
}
use lite_mqtt.Codec.Packets.Publish.{PublishPacket}
use lite_mqtt.Client.Maps.{find, erase, update}
use lite_mqtt.Client.{
  Callback, WriteTag, calls_connect, calls_message, PendingPublish, PendingSubscribe, Client, emit,
  async_write_packet,
}
use lite_mqtt.Client.Session.{arm_pubrec_retry_timer, close_conn, finish_publish_failure}
use lite_mqtt.Client.Sending.{
  call_connect, send_publish_entry, send_pubrel, publish_timer_fires, pubrec_timer_fires,
}
use lite_mqtt.Client.Receiving.{
  handle_return_code, receive_publish, call_granted, subscribe_granted, receive_suback,
  complete_publish, receive_pubrec, receive_pubcomp,
}
use lite_mqtt.Client.Accounts.{account, answered, weight, waiting-update}
use lite_mqtt.Client.Accounts.Closing.{
  account-quiet, account-arm, account-finish, account-pubrecs, account-fail, account-close_conn,
  account-notify_closed_once, account-conn,
}

module _ (counted : ℕ → Bool) where
  pub account-post :
      (bytes : List ℕ) (tag : WriteTag) (c : Client)
      → account counted (async_write_packet bytes tag c) ≡ account counted c
  unfolding answered
  account-post bytes tag c = account-quiet counted _ c refl

  pub account-if :
      (b : Bool) (x y c : Client)
      → account counted x ≡ account counted c
      → account counted y ≡ account counted c
      → account counted (if b then x else y) ≡ account counted c
  account-if true x y c hx hy = hx
  account-if false x y c hx hy = hy

  pub account-call_connect :
      (success : Bool) (code : ℕ) (c : Client)
      → account counted (call_connect success code c) ≡ account counted c
  unfolding call_connect answered
  account-call_connect success code c =
      ground (arith, account-quiet counted (calls_connect success code ∷ []) c refl)

  pub account-closed :
      (b : Bool) (c : Client) → account counted (record c { closed = b }) ≡ account counted c
  unfolding account
  account-closed b c = refl

  pub account-send_publish_entry :
      (packet_id : ℕ) (c : Client)
      → account counted (send_publish_entry packet_id c) ≡ account counted c
  unfolding send_publish_entry
  account-send_publish_entry packet_id c =
      elim (Option-cases (find packet_id c.pending_publishes)) [
        | inl absent ↦ rw (send_publish_entry, absent) refl
        | inr (e, found) ↦
            rw (send_publish_entry, found) (account-post _ _ _ ∙ account-arm counted packet_id c)
      ]

  pub account-send_pubrel :
      (packet_id : ℕ) (c : Client) → account counted (send_pubrel packet_id c) ≡ account counted c
  unfolding send_pubrel arm_pubrec_retry_timer
  account-send_pubrel packet_id c = account-post _ _ _ ∙ account-pubrecs counted _ c

  pub account-subscribes :
      (m : List (ℕ × PendingSubscribe)) (c : Client)
      → account counted (record c { pending_subscribes = m }) ≡ account counted c
  unfolding account
  account-subscribes m c = refl

  -- Changes of an entry that keep its callback and its level of service.
  pub account-update :
      (k : ℕ) (f : PendingPublish → PendingPublish) (c : Client)
      → ((e : PendingPublish)
          → weight counted (f e).callback (f e).qos ≡ weight counted e.callback e.qos)
      → account counted (record c { pending_publishes = update k f c.pending_publishes })
        ≡ account counted c
  unfolding account
  account-update k f c h = omega (arith, waiting-update counted k f c.pending_publishes h)

  pub account-complete_publish :
      (packet_id : ℕ) (c : Client)
      → account counted (complete_publish packet_id c) ≡ account counted c
  unfolding complete_publish
  account-complete_publish packet_id c = elim (Option-cases (find packet_id c.pending_publishes)) [
    | inl absent ↦ rw (complete_publish, absent) refl
    | inr (e, found) ↦
        rw (complete_publish, found) (account-finish counted packet_id true e c found)
  ]

  pub account-receive_pubrec :
      (packet_id : ℕ) (c : Client)
      → account counted (receive_pubrec packet_id c) ≡ account counted c
  unfolding receive_pubrec
  account-receive_pubrec packet_id c = elim (Option-cases (find packet_id c.pending_publishes)) [
    | inl absent ↦ rw (receive_pubrec, absent) refl
    | inr (e, found) ↦
        rw (receive_pubrec, found)
          (account-send_pubrel packet_id _
            ∙ account-pubrecs counted _ _
            ∙ account-update packet_id (λ (e : PendingPublish). record e { timer_armed = false }) c
                (λ e. refl))
  ]

  pub account-receive_pubcomp :
      (packet_id : ℕ) (c : Client)
      → account counted (receive_pubcomp packet_id c) ≡ account counted c
  unfolding receive_pubcomp
  account-receive_pubcomp packet_id c =
      account-complete_publish packet_id _ ∙ account-pubrecs counted _ c

  pub account-publish_timer :
      (packet_id : ℕ) (c : Client)
      → account counted (publish_timer_fires packet_id c) ≡ account counted c
  unfolding publish_timer_fires finish_publish_failure
  account-publish_timer packet_id c = elim (Option-cases (find packet_id c.pending_publishes)) [
    | inl absent ↦ rw (publish_timer_fires, absent) refl
    | inr (e, found) ↦
        rw (publish_timer_fires, found)
          (account-if _ _ _ c
            (account-fail counted close_conn (account-close_conn counted) packet_id c)
            (account-send_publish_entry packet_id _
              ∙ account-update packet_id
                  (λ (e : PendingPublish). record e {
                    timer_armed = false;
                    attempts = e.attempts + 1;
                  })
                  c (λ e. refl)))
  ]

  pub account-pubrec_timer :
      (packet_id : ℕ) (c : Client)
      → account counted (pubrec_timer_fires packet_id c) ≡ account counted c
  unfolding pubrec_timer_fires
  account-pubrec_timer packet_id c = elim (Option-cases (find packet_id c.pending_pubrecs)) [
    | inl absent ↦ rw (pubrec_timer_fires, absent) refl
    | inr (e, found) ↦
        rw (pubrec_timer_fires, found)
          (account-if _ _ _ c (account-notify_closed_once counted c)
            (account-send_pubrel packet_id _ ∙ account-pubrecs counted _ c))
  ]

  answered-call_granted :
      (cb : ℕ) (fs : List (List ℕ × ℕ)) (codes : List ℕ)
      → answered counted (call_granted cb fs codes) ≡ 0
  unfolding call_granted answered
  answered-call_granted cb [] codes = refl
  answered-call_granted cb (f ∷ fs) [] = refl
  answered-call_granted cb (f ∷ fs) (rc ∷ codes) = answered-call_granted cb fs codes

  account-subscribe_granted :
      (cb : Callback) (fs : List (List ℕ × ℕ)) (codes : List ℕ) (c : Client)
      → account counted (subscribe_granted cb fs codes c) ≡ account counted c
  unfolding subscribe_granted
  account-subscribe_granted none fs codes c = refl
  account-subscribe_granted (some cb) fs codes c = ground (
    arith,
    account-notify_closed_once counted c,
    account-quiet counted (call_granted cb fs codes) c (answered-call_granted cb fs codes),
  )

  pub account-receive_suback :
      (packet_id : ℕ) (codes : List ℕ) (c : Client)
      → account counted (receive_suback packet_id codes c) ≡ account counted c
  unfolding receive_suback
  account-receive_suback packet_id codes c =
      elim (Option-cases (find packet_id c.pending_subscribes)) [
        | inl absent ↦ rw (receive_suback, absent) refl
        | inr (p, found) ↦
            rw (receive_suback, found)
              (account-subscribe_granted p.callback p.filters codes _
                ∙ account-subscribes (erase packet_id c.pending_subscribes) c)
      ]

  pub account-receive_publish :
      (p : PublishPacket) (c : Client) → account counted (receive_publish p c) ≡ account counted c
  unfolding receive_publish answered
  account-receive_publish p c =
      let message_id = if p.qos == 0 then 0 else p.packet_id in
      let message = calls_message p.topic_name p.payload p.qos message_id ∷ [] in
      let c' = if c.on_message_cb then emit message c else c in
      let said = account-if c.on_message_cb _ _ c (account-quiet counted message c refl) refl in
      account-if (ltb 2 p.qos) _ _ c (account-notify_closed_once counted c) (
        account-if (p.qos == 1) _ _ c (account-post _ _ c' ∙ said)
          (account-if (p.qos == 2) _ _ c (account-post _ _ c' ∙ said) said))

  pub account-return_code :
      (code : ℕ) (c : Client) → account counted (handle_return_code code c) ≡ account counted c
  unfolding handle_return_code
  account-return_code code c =
      account-call_connect (code == 0) code _
      ∙ account-if (code == 0) _ _ c (account-closed false _ ∙ account-conn counted _ c)
          (account-close_conn counted _ ∙ account-closed true c)

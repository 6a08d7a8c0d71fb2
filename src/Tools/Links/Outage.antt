-- ===== src/Tools/Links/Outage.antt =====
-- What an outage does to the sessions of chaos_broker.
use lite_mqtt.Prelude.{ℕ, ◌≡◌, refl, ap, Bool, true, false, List, [], ◌∷◌, if_elim}
use lite_mqtt.Tools.Links.{
  down, is_down, ChaosBroker, set_state, do_accept, close_sessions, apply_state, on_session,
  accept_completes, forget, flap_expires, read_ends, LinkEvent, sets_state, applies, accepts,
  flap_ends, reads_end, link_step, link_run,
}

-- The broker is down: nothing listens and there is no session.
pub record IsDown (b : ChaosBroker) : Type 0 where
  pub off : b.state ≡ down
  pub deaf : b.listening ≡ false
  pub alone : b.sessions ≡ []

-- During an outage: no new state, and no connection that was accepted before it.
abbrev pub InOutage : List LinkEvent → Type 0
InOutage [] = Unit
InOutage (sets_state s ∷ es) = ⊥
InOutage (applies owned ∷ es) = InOutage es
InOutage (accepts true id ∷ es) = ⊥
InOutage (accepts false id ∷ es) = InOutage es
InOutage (flap_ends cancelled id ∷ es) = InOutage es
InOutage (reads_end id ∷ es) = InOutage es

apply-IsDown : (owned : Bool) (b : ChaosBroker) → b.state ≡ down → IsDown (apply_state owned b)
unfolding apply_state close_sessions
apply-IsDown owned b off =
    let d : is_down b.state ≡ true = ap is_down off in
    if_elim IsDown (is_down b.state) _ _ (λ _. record { off = off; deaf = refl; alone = refl })
      (λ e. absurd (cc (e, d)))

accept-IsDown : (id : ℕ) (b : ChaosBroker) → IsDown b → IsDown (accept_completes false id b)
unfolding accept_completes
accept-IsDown id b d =
    let b' : ChaosBroker = record b { accepting = false } in
    if_elim IsDown b.listening (do_accept b') b' (λ e. absurd (cc (e, d.deaf)))
      (λ _. record { off = d.off; deaf = d.deaf; alone = d.alone })

flap-IsDown :
    (cancelled : Bool) (id : ℕ) (b : ChaosBroker) → IsDown b → IsDown (flap_expires cancelled id b)
unfolding flap_expires forget
flap-IsDown true id b d = d
flap-IsDown false id b d = record { off = d.off; deaf = d.deaf; alone = ap (forget id) d.alone }

read-IsDown : (id : ℕ) (b : ChaosBroker) → IsDown b → IsDown (read_ends id b)
unfolding read_ends forget
read-IsDown id b d = record { off = d.off; deaf = d.deaf; alone = ap (forget id) d.alone }

stays-IsDown :
    (es : List LinkEvent) (b : ChaosBroker) → InOutage es → IsDown b → IsDown (link_run es b)
unfolding link_run link_step
stays-IsDown [] b out d = d
stays-IsDown (sets_state s ∷ es) b out d = absurd out
stays-IsDown (applies owned ∷ es) b out d =
    stays-IsDown es (apply_state owned b) out (apply-IsDown owned b d.off)
stays-IsDown (accepts true id ∷ es) b out d = absurd out
stays-IsDown (accepts false id ∷ es) b out d =
    stays-IsDown es (accept_completes false id b) out (accept-IsDown id b d)
stays-IsDown (flap_ends cancelled id ∷ es) b out d =
    stays-IsDown es (flap_expires cancelled id b) out (flap-IsDown cancelled id b d)
stays-IsDown (reads_end id ∷ es) b out d = stays-IsDown es (read_ends id b) out (read-IsDown id b d)

off_now : (b : ChaosBroker) → (set_state down b).state ≡ down
unfolding set_state
off_now b = refl

late_accept :
    (id : ℕ) (b : ChaosBroker)
    → IsDown b
    → (accept_completes true id b).sessions ≡ record { id = id; reading = true; timer = false } ∷ []
unfolding accept_completes on_session
late_accept id b d = rw (d.off, d.deaf, d.alone) refl

-- When an outage is applied, whatever the broker did before, it has no listener and no session, and
-- that stays so until the next state, whatever reads, timers and failed accepts complete. But a
-- connection whose accept had succeeded before the outage was applied, and whose handler runs after
-- it, becomes a session that is read from during the outage.
pub outage-IsDown :
    (owned : Bool) (es : List LinkEvent) (id : ℕ) (b : ChaosBroker)
    → InOutage es
    → let b' = link_run (applies owned ∷ es) (set_state down b) in
      IsDown b'
      × ((link_step (accepts true id) b').sessions
          ≡ record { id = id; reading = true; timer = false } ∷ [])
unfolding link_run link_step
outage-IsDown owned es id b out =
    let b' = link_run (applies owned ∷ es) (set_state down b) in
    let d : IsDown b' =
      stays-IsDown es (apply_state owned (set_state down b)) out
        (apply-IsDown owned (set_state down b) (off_now b)) in
    (d, late_accept id b' d)

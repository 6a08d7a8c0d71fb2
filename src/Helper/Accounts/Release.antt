-- ===== src/Helper/Accounts/Release.antt =====
-- What becomes of waiting publish callbacks when a helper releases its client.
use lite_mqtt.Prelude.{ℕ, ◌≡◌, refl, ap, ◌∙◌, Bool, none, some, List, [], ◌∷◌, arith, if_elim}
use lite_mqtt.Connection.Writes.{Connection, Effect, close, fail_pending_writes}
use lite_mqtt.Client.{Client, WriteTag}
use lite_mqtt.Client.Session.{close_client, close_conn, close_conn_at, perform}
use lite_mqtt.Client.Accounts.{account}
use lite_mqtt.Client.Accounts.Closing.{account-close_conn}
use lite_mqtt.Helper.{Helper}
use lite_mqtt.Helper.Lifecycle.{silenced, release_with, release_client}
use lite_mqtt.Helper.Callbacks.{react_all}
use lite_mqtt.Helper.Accounts.{owed_by, owed_by_all, helper_account, account-react_all}

idle_effects :
    (c : Connection WriteTag) → c.write_queue ≡ [] → c.in_flight ≡ none → (close c).1 ≡ []
unfolding close fail_pending_writes
idle_effects c queue flight =
    if_elim (λ (r : Connection WriteTag × List (Effect WriteTag)). r.1 ≡ []) c.closed (c, []) _
      (λ _. refl) (λ _. rw (queue, flight) refl)

idle_close :
    (c : Client)
    → c.conn.write_queue ≡ []
    → c.conn.in_flight ≡ none
    → ((close_client c).pending_publishes ≡ c.pending_publishes)
      × ((close_client c).trace ≡ c.trace)
unfolding close_client close_conn close_conn_at perform close fail_pending_writes
idle_close c queue flight = rw (idle_effects c.conn queue flight) (refl, refl)

-- The client that release_client() leaves behind.
abbrev pub left_behind : Client → Client
left_behind c = record (close_client (silenced c)) { trace = [] }

module _ (counted : ℕ → Bool) where
  -- Where the calls that a client owes are when the helper has let it go.
  release_account :
      (c : Client) (h : Helper)
      → h.client ≡ some c
      → helper_account counted (release_with (some c) h) ≡ helper_account counted h
  unfolding release_with helper_account owed_by owed_by_all account silenced close_client
  release_account c h e = omega (
    arith,
    account-react_all counted (close_client (silenced c)).trace
        (record h { client = none; released = left_behind c ∷ h.released }),
    account-close_conn counted (silenced c),
    ap (owed_by counted) e,
  )

  -- When a helper releases its client and no write of the client is queued or under way, no callback is
  -- called: what the application has seen stays as it is, the publishes that wait for an
  -- acknowledgement stay with the closed client, which only handlers in the io_context still hold, and
  -- the account of calls made and owed stays the same, so that all of them are still owed.
  pub release_client_owes :
      (c : Client) (h : Helper)
      → h.client ≡ some c
      → c.trace ≡ []
      → c.conn.write_queue ≡ []
      → c.conn.in_flight ≡ none
      → ((release_client h).client ≡ none)
        × ((release_client h).seen ≡ h.seen)
        × ((release_client h).released ≡ left_behind c ∷ h.released)
        × ((left_behind c).pending_publishes ≡ c.pending_publishes)
        × (helper_account counted (release_client h) ≡ helper_account counted h)
  unfolding release_client release_with silenced react_all
  release_client_owes c h e clean queue flight =
      let same : release_client h ≡ release_with (some c) h = ap (λ o. release_with o h) e in
      let (kept, quiet) = idle_close (silenced c) queue flight in
      let gone : Helper = record h { client = none; released = left_behind c ∷ h.released } in
      let calm : release_client h ≡ gone = same ∙ ap (λ os. react_all os gone) (quiet ∙ clean) in
      (
        ap (λ (r : Helper). r.client) calm,
        ap (λ (r : Helper). r.seen) calm,
        ap (λ (r : Helper). r.released) calm,
        kept,
        ap (helper_account counted) same ∙ release_account c h e,
      )

-- ===== src/Helper/Accounts.antt =====
-- How often the callbacks of publishes that go through a helper are called.
pub mod Keeps
pub mod Runs
pub mod Release
use lite_mqtt.Prelude.{
  ℕ, length, ◌+◌, ◌≡◌, ◌≢◌, refl, ap, ◌∙◌, Bool, true, false, not, Option, none, some, List, [],
  ◌∷◌, ◌++◌, arith, if_elim, ◌==◌, ◌&&◌, ◌||◌, if◌then◌else◌, Option-cases, inl, inr,
}
use lite_mqtt.Client.{
  Callback, Client, Output, calls_connect, calls_message, calls_close, calls_publish,
  calls_subscribe, calls_disconnected, starts_connect, starts_read, posts_write, transport,
  call_publish,
}
use lite_mqtt.Client.Events.{Happening, client_step}
use lite_mqtt.Client.Accounts.{
  account, answered, waiting, weight, answered-append, answered-call_publish,
}
use lite_mqtt.Client.Accounts.Runs.{offers, account-step}
use lite_mqtt.Helper.{Report, reports, delivers, Task, client_task, rearms, Helper, see}
use lite_mqtt.Helper.Policy.{
  restore_tasks, restore_subscriptions, do_reconnect, connect_callback, close_callback,
}
use lite_mqtt.Helper.Callbacks.{
  deliver, disconnected_callback, react, react_all, with_client, with_released,
}

-- The reconnect policy touches neither the client nor what is queued and seen.
pub do_reconnect_keeps :
    (h : Helper)
    → ((do_reconnect h).seen ≡ h.seen)
      × ((do_reconnect h).client ≡ h.client)
      × ((do_reconnect h).released ≡ h.released)
      × ((do_reconnect h).tasks ≡ h.tasks)
      × ((do_reconnect h).subscribes ≡ h.subscribes)
unfolding do_reconnect
do_reconnect_keeps h = (ground arith, ground arith, ground arith, ground arith, ground arith)

module _ (counted : ℕ → Bool) where
  pub seen_answers : List Report → ℕ
  seen_answers [] = 0
  seen_answers (reports o ∷ rs) = answered counted (o ∷ []) + seen_answers rs
  seen_answers (delivers cb topic payload qos id ∷ rs) = seen_answers rs

  pub owed_by : Option Client → ℕ
  owed_by none = 0
  owed_by (some c) = account counted c

  pub queued : List Task → ℕ
  queued [] = 0
  queued (client_task k t ∷ ts) = offers counted t + queued ts
  queued (rearms ∷ ts) = queued ts

  -- The calls that the clients which were let go owe.
  pub owed_by_all : List Client → ℕ
  owed_by_all [] = 0
  owed_by_all (c ∷ cs) = account counted c + owed_by_all cs

  -- The calls made, those that the session and the sessions before it owe, and the publishes whose
  -- task has not run.
  pub helper_account : Helper → ℕ
  unfolding seen_answers owed_by owed_by_all queued
  helper_account h =
      seen_answers h.seen + owed_by h.client + owed_by_all h.released + queued h.tasks

  pub owed_by_all-append :
      (xs ys : List Client) → owed_by_all (xs ++ ys) ≡ owed_by_all xs + owed_by_all ys
  unfolding owed_by_all
  owed_by_all-append [] ys = omega arith
  owed_by_all-append (c ∷ cs) ys = omega (arith, owed_by_all-append cs ys)

  pub seen_answers-append :
      (xs ys : List Report) → seen_answers (xs ++ ys) ≡ seen_answers xs + seen_answers ys
  unfolding seen_answers
  seen_answers-append [] ys = omega arith
  seen_answers-append (reports o ∷ rs) ys = omega (arith, seen_answers-append rs ys)
  seen_answers-append (delivers cb topic payload qos id ∷ rs) ys = seen_answers-append rs ys

  pub queued-append : (xs ys : List Task) → queued (xs ++ ys) ≡ queued xs + queued ys
  unfolding queued
  queued-append [] ys = omega arith
  queued-append (client_task k t ∷ ts) ys = omega (arith, queued-append ts ys)
  queued-append (rearms ∷ ts) ys = queued-append ts ys

  queued-restore_tasks : (k : ℕ) (ss : List (List ℕ × ℕ)) → queued (restore_tasks k ss) ≡ 0
  unfolding queued restore_tasks offers
  queued-restore_tasks k [] = refl
  queued-restore_tasks k (s ∷ ss) = omega (arith, queued-restore_tasks k ss)

  queued-restore :
      (k : ℕ) (c : Option Client) (ss : List (List ℕ × ℕ))
      → queued (restore_subscriptions k c ss) ≡ 0
  unfolding restore_subscriptions queued
  queued-restore k none ss = refl
  queued-restore k (some c) ss = queued-restore_tasks k ss

  deliver_no_answer :
      (m : Option ℕ) (topic payload : List ℕ) (qos id : ℕ)
      → seen_answers (deliver m topic payload qos id) ≡ 0
  unfolding deliver seen_answers
  deliver_no_answer none topic payload qos id = refl
  deliver_no_answer (some cb) topic payload qos id = refl

  -- What is equal in the counted fields has the same account.
  pub same_account :
      (h h' : Helper)
      → h'.seen ≡ h.seen
      → h'.client ≡ h.client
      → h'.released ≡ h.released
      → h'.tasks ≡ h.tasks
      → helper_account h' ≡ helper_account h
  unfolding helper_account
  same_account h h' seen client released tasks =
      omega
        (arith, ap seen_answers seen, ap owed_by client, ap owed_by_all released, ap queued tasks)

  pub account-do_reconnect : (h : Helper) → helper_account (do_reconnect h) ≡ helper_account h
  account-do_reconnect h =
      let (seen, client, released, tasks, subscribes) = do_reconnect_keeps h in
      same_account h (do_reconnect h) seen client released tasks

  account-connected :
      (success : Bool) (h : Helper) → helper_account (connect_callback success h) ≡ helper_account h
  unfolding connect_callback helper_account
  account-connected false h = account-do_reconnect h
  account-connected true h =
      let restored = restore_subscriptions (length h.released) h.client h.subscribes in
      omega (
        arith,
        queued-append h.tasks restored,
        queued-restore (length h.released) h.client h.subscribes,
      )

  account-close_callback : (h : Helper) → helper_account (close_callback h) ≡ helper_account h
  unfolding close_callback
  account-close_callback h =
      if_elim (λ h'. helper_account h' ≡ helper_account h)
        (h.should_reconnect && not h.user_stopped) (do_reconnect h) h (λ _. account-do_reconnect h)
        (λ _. refl)

  pub account-see :
      (rs : List Report) (h : Helper)
      → helper_account (record h { seen = h.seen ++ rs }) ≡ seen_answers rs + helper_account h
  unfolding helper_account
  account-see rs h = omega (arith, seen_answers-append h.seen rs)

  -- An output that is handed on counts as it did in the client's trace.
  account-react :
      (o : Output) (h : Helper)
      → helper_account (react o h) ≡ answered counted (o ∷ []) + helper_account h
  unfolding react disconnected_callback answered seen_answers
  account-react (calls_connect success code) h = omega (arith, account-connected success h)
  account-react (calls_message topic payload qos id) h = omega (
    arith,
    account-see (deliver h.message_callback topic payload qos id) h,
    deliver_no_answer h.message_callback topic payload qos id,
  )
  account-react calls_close h = omega (arith, account-close_callback h)
  account-react (calls_disconnected cb) h =
      if_elim (λ h'. helper_account h' ≡ 0 + helper_account h) (cb == 0)
        (record h { io_stopped = true }) h
        (λ _. omega (arith, same_account h (record h { io_stopped = true }) refl refl refl refl))
        (λ _. omega arith)
  account-react (calls_publish cb success topic qos id) h =
      omega (arith, account-see (reports (calls_publish cb success topic qos id) ∷ []) h)
  account-react (calls_subscribe cb success topic qos) h =
      omega (arith, account-see (reports (calls_subscribe cb success topic qos) ∷ []) h)
  account-react starts_connect h = omega arith
  account-react starts_read h = omega arith
  account-react (posts_write item) h = omega arith
  account-react (transport e) h = omega arith

  pub account-react_all :
      (os : List Output) (h : Helper)
      → helper_account (react_all os h) ≡ answered counted os + helper_account h
  unfolding react_all answered
  account-react_all [] h = omega arith
  account-react_all (o ∷ os) h = omega (
    arith,
    account-react_all os (react o h),
    account-react o h,
    answered-append counted (o ∷ []) os,
  )

  -- An operation of the client that adds `n` to its account adds as much to the helper's.
  pub account-with_client :
      (f : Client → Client) (n : ℕ) (c : Client) (h : Helper)
      → account counted (f c) ≡ n + account counted c
      → h.client ≡ some c
      → helper_account (with_client f (some c) h) ≡ n + helper_account h
  unfolding with_client helper_account owed_by account
  account-with_client f n c h adds e = omega (
    arith,
    adds,
    account-react_all (f c).trace (record h { client = some (record (f c) { trace = [] }) }),
    ap owed_by e,
  )

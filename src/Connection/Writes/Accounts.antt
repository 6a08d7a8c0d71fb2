-- ===== src/Connection/Writes/Accounts.antt =====
-- No write handler is lost or called twice.
use lite_mqtt.Prelude.{
  ℕ, ◌+◌, ◌≡◌, inl, inr, refl, ap, Bool, true, false, Option, none, some, List, [], ◌∷◌, ◌++◌,
  arith, if◌then◌else◌, Bool-cases,
}
use lite_mqtt.Connection.Asio.{AsioError, operation_aborted}
use lite_mqtt.Connection.Writes.{
  disconnected, WriteItem, Connection, ErrorCode, Effect, calls, posts_call, posts_fail,
  starts_write, start_connect, connect_done, mark_connected, do_write, write_next, enqueue_write,
  calls_all, calls_taken, fail_pending_writes, close, after_write, write_done, write_done_with,
  Event, enqueues, completes, runs_fail, closes, starts_connect, connects, marks_connected, step,
  run,
}
use lite_mqtt.Connection.Writes.Queue.{
  IsConsistent, IsOrderly, step-IsConsistent, close-IsConsistent,
}

module _ {H : Type 0} (P : WriteItem H → Bool) where
  abbrev pub tally : WriteItem H → ℕ
  tally item = if P item then 1 else 0

  -- How many of the items in a list satisfy `P`.
  abbrev pub count : List (WriteItem H) → ℕ
  count [] = 0
  count (item ∷ items) = tally item + count items

  abbrev count_taken : Option (WriteItem H) → ℕ
  count_taken none = 0
  count_taken (some item) = tally item

  -- Of the items whose handler still waits.
  abbrev pub count_pending : Connection H → ℕ
  count_pending c = count_taken c.in_flight + count c.write_queue

  -- Of the items whose handler is called, now or by a posted task.
  abbrev pub count_called : List (Effect H) → ℕ
  count_called [] = 0
  count_called (calls item ec ∷ es) = tally item + count_called es
  count_called (posts_call item ec ∷ es) = tally item + count_called es
  count_called (posts_fail ec ∷ es) = count_called es
  count_called (starts_write buffer ∷ es) = count_called es

  -- Of the items that are handed to the connection.
  abbrev pub count_offered : List (Event H) → ℕ
  count_offered [] = 0
  count_offered (enqueues item ∷ es) = tally item + count_offered es
  count_offered (completes ec reenters ∷ es) = count_offered es
  count_offered (runs_fail ec ∷ es) = count_offered es
  count_offered (closes ∷ es) = count_offered es
  count_offered (starts_connect ∷ es) = count_offered es
  count_offered (connects ec ∷ es) = count_offered es
  count_offered (marks_connected ∷ es) = count_offered es

  -- Nothing is lost between `c` and what an operation makes of it.
  abbrev Keeps : Connection H → Connection H × List (Effect H) → Type 0
  Keeps c r = count_called r.1 + count_pending r.0 ≡ count_pending c

  count-append : (xs ys : List (WriteItem H)) → count (xs ++ ys) ≡ count xs + count ys
  count-append [] ys = omega arith
  count-append (x ∷ xs) ys = omega (arith, count-append xs ys)

  count_called-append :
      (xs ys : List (Effect H)) → count_called (xs ++ ys) ≡ count_called xs + count_called ys
  count_called-append [] ys = omega arith
  count_called-append (calls item ec ∷ xs) ys = omega (arith, count_called-append xs ys)
  count_called-append (posts_call item ec ∷ xs) ys = omega (arith, count_called-append xs ys)
  count_called-append (posts_fail ec ∷ xs) ys = omega (arith, count_called-append xs ys)
  count_called-append (starts_write buffer ∷ xs) ys = omega (arith, count_called-append xs ys)

  count_called-calls_all :
      (ec : ErrorCode) (items : List (WriteItem H))
      → count_called (calls_all ec items) ≡ count items
  count_called-calls_all ec [] = refl
  count_called-calls_all ec (item ∷ items) = omega (arith, count_called-calls_all ec items)

  fail_pending_writes-Keeps :
      (ec : AsioError) (c : Connection H) → Keeps c (fail_pending_writes ec c)
  unfolding fail_pending_writes
  fail_pending_writes-Keeps ec c = omega (arith, count_called-calls_all (some ec) c.write_queue)

  write_next-Keeps :
      (c : Connection H) (q : List (WriteItem H))
      → c.write_queue ≡ q
      → c.in_flight ≡ none
      → Keeps c (write_next c q)
  unfolding write_next
  write_next-Keeps c [] e idle = omega arith
  write_next-Keeps c (item ∷ rest) e idle = rw (e, idle) (ground (arith, e, idle))

  do_write-Keeps : (c : Connection H) → IsConsistent c → Keeps c (do_write c)
  unfolding do_write
  do_write-Keeps c v = ground (arith, write_next-Keeps c c.write_queue refl)

  enqueue_write-Keeps :
      (item : WriteItem H) (c : Connection H)
      → IsConsistent c
      → count_called (enqueue_write item c).1 + count_pending (enqueue_write item c).0
        ≡ tally item + count_pending c
  unfolding enqueue_write
  enqueue_write-Keeps item c v = elim (Bool-cases c.closed) [
    | inl shut ↦ ground (arith, shut)
    | inr alive ↦
        let c' : Connection H = record c { write_queue = c.write_queue ++ item ∷ [] } in
        let v' : IsConsistent c' = record { flag = v.flag; dead = λ t. cc } in
        ground (arith, alive, do_write-Keeps c' v', count-append c.write_queue (item ∷ []))
  ]

  calls_taken-Keeps : (o : Option (WriteItem H)) → count_called (calls_taken o) ≡ count_taken o
  calls_taken-Keeps none = refl
  calls_taken-Keeps (some item) = omega arith

  close-Keeps : (c : Connection H) → Keeps c (close c)
  unfolding close fail_pending_writes
  close-Keeps c = ground (
    arith,
    count_called-calls_all (some operation_aborted) c.write_queue,
    calls_taken-Keeps c.in_flight,
    count_called-append (calls_all (some operation_aborted) c.write_queue)
        (calls_taken c.in_flight),
  )

  after_write-Keeps :
      (ec : ErrorCode) (c : Connection H) → IsConsistent c → Keeps c (after_write ec c)
  unfolding after_write
  after_write-Keeps none c v = ground (arith, do_write-Keeps c v)
  after_write-Keeps (some ec) c v =
      fail_pending_writes-Keeps ec (record c { socket_open = false; state = disconnected })

  write_done_with-Keeps :
      (ec : ErrorCode) (reenters : Bool) (o : Option (WriteItem H)) (c : Connection H)
      → c.in_flight ≡ o
      → IsConsistent c
      → Keeps c (write_done_with ec reenters o c)
  unfolding write_done_with
  write_done_with-Keeps ec reenters none c e v = omega arith
  write_done_with-Keeps ec true (some item) c e v =
      let c1 : Connection H = record c { in_flight = none; writing = false } in
      let v1 : IsConsistent c1 = ground arith in
      let v2 = close-IsConsistent c1 v1 in
      omega (
        arith,
        ap count_taken e,
        close-Keeps c1,
        after_write-Keeps ec (close c1).0 v2,
        count_called-append (close c1).1 (after_write ec (close c1).0).1,
      )
  write_done_with-Keeps ec false (some item) c e v =
      let c1 : Connection H = record c { in_flight = none; writing = false } in
      let v1 : IsConsistent c1 = ground arith in
      omega (arith, ap count_taken e, after_write-Keeps ec c1 v1)

  step-Keeps :
      (e : Event H) (c : Connection H)
      → IsConsistent c
      → count_called (step e c).1 + count_pending (step e c).0
        ≡ count_offered (e ∷ []) + count_pending c
  unfolding step
  step-Keeps (enqueues item) c v = omega (arith, enqueue_write-Keeps item c v)
  step-Keeps (completes ec reenters) c v =
      unfold write_done in omega (arith, write_done_with-Keeps ec reenters c.in_flight c refl v)
  step-Keeps (runs_fail ec) c v = omega (arith, fail_pending_writes-Keeps ec c)
  step-Keeps closes c v = omega (arith, close-Keeps c)
  step-Keeps starts_connect c v = unfold start_connect in omega arith
  step-Keeps (connects none) c v = unfold connect_done in omega arith
  step-Keeps (connects (some ec)) c v = unfold connect_done in omega arith
  step-Keeps marks_connected c v = unfold mark_connected in omega arith

  count_offered-cons :
      (e : Event H) (es : List (Event H))
      → count_offered (e ∷ es) ≡ count_offered (e ∷ []) + count_offered es
  count_offered-cons (enqueues item) es = omega arith
  count_offered-cons (completes ec reenters) es = omega arith
  count_offered-cons (runs_fail ec) es = omega arith
  count_offered-cons closes es = omega arith
  count_offered-cons starts_connect es = omega arith
  count_offered-cons (connects ec) es = omega arith
  count_offered-cons marks_connected es = omega arith

-- Each event of a run is orderly where it happens.
abbrev pub AllOrderly : {H : Type 0} → List (Event H) → Connection H → Type 0
AllOrderly [] c = Unit
AllOrderly (e ∷ es) c = IsOrderly e c × AllOrderly es (step e c).0

-- In a run in which the posted task that fails the queue never runs while a write is in flight,
-- every write handed to the connection has its handler called once, now or by a posted task, or it
-- still waits: the counts agree for every class of writes, and the connection stays consistent.
pub run_accounts :
    {H : Type 0} (P : WriteItem H → Bool) (es : List (Event H)) (c : Connection H)
    → IsConsistent c
    → AllOrderly es c
    → (count_called P (run es c).1 + count_pending P (run es c).0
        ≡ count_offered P es + count_pending P c)
      × IsConsistent (run es c).0
unfolding run
run_accounts P [] c v o = (omega arith, v)
run_accounts P (e ∷ es) c v o =
    let v' = step-IsConsistent e c v o.0 in
    let (later, v'') = run_accounts P es (step e c).0 v' o.1 in
    (
      omega (
        arith,
        later,
        step-Keeps P e c v,
        count_offered-cons P e es,
        count_called-append P (step e c).1 (run es (step e c).0).1,
      ),
      v'',
    )

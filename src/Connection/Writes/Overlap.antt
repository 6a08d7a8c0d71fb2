-- ===== src/Connection/Writes/Overlap.antt =====
-- When writes on the socket overlap, and when they do not.
use lite_mqtt.Prelude.{
  ℕ, suc, ◌+◌, ◌≤◌, ◌≡◌, ◌≢◌, ◌⊎◌, inl, inr, refl, Bool, true, false, Option, none, some, List, [],
  ◌∷◌, ◌++◌, arith, if◌then◌else◌,
}
use lite_mqtt.Connection.Asio.{AsioError, operation_aborted, bad_descriptor}
use lite_mqtt.Connection.Writes.{
  WriteItem, Connection, ErrorCode, is_down, Effect, calls, posts_call, posts_fail, starts_write,
  start_connect, connect_done, new_connection, do_write, write_next, enqueue_write, calls_all,
  calls_taken, fail_pending_writes, close, after_write, write_done, write_done_with, Event,
  enqueues, completes, runs_fail, closes, starts_connect, connects, marks_connected, step, run,
}
use lite_mqtt.Connection.Writes.Queue.{IsConsistent}

-- How many writes an event starts.
abbrev pub count_starts : {H : Type 0} → List (Effect H) → ℕ
count_starts [] = 0
count_starts (calls item ec ∷ es) = count_starts es
count_starts (posts_call item ec ∷ es) = count_starts es
count_starts (posts_fail ec ∷ es) = count_starts es
count_starts (starts_write buffer ∷ es) = suc (count_starts es)

-- The write in flight is over.
abbrev pub EndsWrite : {H : Type 0} → Event H → Type 0
EndsWrite (completes ec reenters) = Unit
EndsWrite (enqueues item) = ⊥
EndsWrite (runs_fail ec) = ⊥
EndsWrite closes = ⊥
EndsWrite starts_connect = ⊥
EndsWrite (connects ec) = ⊥
EndsWrite marks_connected = ⊥

module _ {H : Type 0} where
  count_starts-append :
      (xs ys : List (Effect H)) → count_starts (xs ++ ys) ≡ count_starts xs + count_starts ys
  count_starts-append [] ys = omega arith
  count_starts-append (calls item ec ∷ xs) ys = count_starts-append xs ys
  count_starts-append (posts_call item ec ∷ xs) ys = count_starts-append xs ys
  count_starts-append (posts_fail ec ∷ xs) ys = count_starts-append xs ys
  count_starts-append (starts_write buffer ∷ xs) ys = omega (arith, count_starts-append xs ys)

  count_starts-calls_all :
      (ec : ErrorCode) (items : List (WriteItem H)) → count_starts (calls_all ec items) ≡ 0
  count_starts-calls_all ec [] = refl
  count_starts-calls_all ec (item ∷ items) = count_starts-calls_all ec items

  count_starts-calls_taken : (o : Option (WriteItem H)) → count_starts (calls_taken o) ≡ 0
  count_starts-calls_taken none = refl
  count_starts-calls_taken (some item) = refl

  close_starts : (c : Connection H) → count_starts (close c).1 ≡ 0
  unfolding close fail_pending_writes
  close_starts c = ground (
    arith,
    count_starts-append (calls_all (some operation_aborted) c.write_queue)
        (calls_taken c.in_flight),
    count_starts-calls_all (some operation_aborted) c.write_queue,
    count_starts-calls_taken c.in_flight,
  )

  do_write_starts :
      (c : Connection H)
      → (count_starts (do_write c).1 ≤ 1) × (c.writing ≡ true → count_starts (do_write c).1 ≡ 0)
  unfolding do_write
  do_write_starts c = go c.write_queue
    where
      go :
          (q : List (WriteItem H))
          → let r = if c.writing then (c, []) else write_next c q in
            (count_starts r.1 ≤ 1) × (c.writing ≡ true → count_starts r.1 ≡ 0)
      go [] = unfold write_next in ground arith
      go (item ∷ q) = unfold write_next in ground arith

  after_write_starts : (ec : ErrorCode) (c : Connection H) → count_starts (after_write ec c).1 ≤ 1
  unfolding after_write fail_pending_writes
  after_write_starts none c = ground (arith, do_write_starts c)
  after_write_starts (some ec) c = omega (arith, count_starts-calls_all (some ec) c.write_queue)

  write_done_with_starts :
      (ec : ErrorCode) (reenters : Bool) (o : Option (WriteItem H)) (c : Connection H)
      → count_starts (write_done_with ec reenters o c).1 ≤ 1
  unfolding write_done_with
  write_done_with_starts ec reenters none c = omega arith
  write_done_with_starts ec true (some item) c =
      let c1 : Connection H = record c { in_flight = none; writing = false } in
      omega (
        arith,
        close_starts c1,
        after_write_starts ec (close c1).0,
        count_starts-append (close c1).1 (after_write ec (close c1).0).1,
      )
  write_done_with_starts ec false (some item) c =
      after_write_starts ec (record c { in_flight = none; writing = false })

  enqueue_write_starts :
      (item : WriteItem H) (c : Connection H)
      → (count_starts (enqueue_write item c).1 ≤ 1)
        × (c.writing ≡ true → count_starts (enqueue_write item c).1 ≡ 0)
  unfolding enqueue_write
  enqueue_write_starts item c =
      let c' : Connection H = record c { write_queue = c.write_queue ++ item ∷ [] } in
      ground (arith, do_write_starts c')

  busy : (c : Connection H) → IsConsistent c → c.in_flight ≢ none → c.writing ≡ true
  busy c v h = ground (arith, v)

  -- On a consistent connection an event starts one write at most, and none while another write is in
  -- flight, unless the event is the completion of that write.
  pub one_write_at_a_time :
      (e : Event H) (c : Connection H)
      → IsConsistent c
      → (count_starts (step e c).1 ≤ 1)
        × (c.in_flight ≢ none → EndsWrite e ⊎ (count_starts (step e c).1 ≡ 0))
  unfolding step
  one_write_at_a_time (enqueues item) c v =
      let (one, quiet) = enqueue_write_starts item c in (one, λ h. inr (quiet (busy c v h)))
  one_write_at_a_time (completes ec reenters) c v =
      unfold write_done in (write_done_with_starts ec reenters c.in_flight c, λ h. inl tt)
  one_write_at_a_time (runs_fail ec) c v =
      unfold fail_pending_writes in
      let none_started = count_starts-calls_all (some ec) c.write_queue in
      (omega (arith, none_started), λ h. inr none_started)
  one_write_at_a_time closes c v = (omega (arith, close_starts c), λ h. inr (close_starts c))
  one_write_at_a_time starts_connect c v = (omega arith, λ h. inr refl)
  one_write_at_a_time (connects ec) c v = (omega arith, λ h. inr refl)
  one_write_at_a_time marks_connected c v = (omega arith, λ h. inr refl)

  -- The run from a new connection in which a write is queued while the name is being resolved, so
  -- that the task which fails the queue is posted, and the connect completes before that task runs.
  abbrev pub late_fail : WriteItem H → WriteItem H → List (Event H)
  late_fail first second = starts_connect ∷ enqueues first ∷ connects none ∷ enqueues second ∷ []

  -- What the task and a later write do while the write of `first` is in flight.
  abbrev pub Overlaps : AsioError → WriteItem H → WriteItem H → Connection H → Type 0
  Overlaps ec first third c =
      let r = run (runs_fail ec ∷ enqueues third ∷ []) c in
      (r.1 ≡ calls_all (some ec) c.write_queue ++ starts_write third.buffer ∷ [])
      × (count_starts r.1 ≡ 1)
      × (r.0.in_flight ≡ some third)
      × (r.0.write_queue ≡ [])

  -- On any connection that is not closed, whose socket is open, whose state lets it write and which has a write in flight: when the
  -- task posted by do_write() runs, with whatever error, and another write is queued after it,
  -- the handlers of the whole queue are called with that error, the handler of the write in flight is
  -- not called, and the new write is started before the one in flight has completed and takes its
  -- place in `in_flight`. Such a connection is reached: from a new connection, start_connect(), a
  -- write, the completion of the connect and a second write lead to one on which that task is posted
  -- and the first write is in flight.
  pub late_fail-Overlaps :
      (ec : AsioError) (first second third : WriteItem H) (c : Connection H)
      → c.in_flight ≡ some first
      → c.socket_open ≡ true
      → c.closed ≡ false
      → is_down c.state ≡ false
      → Overlaps ec first third c
        × (let r = run (late_fail first second) new_connection in
            (r.1 ≡ posts_fail bad_descriptor ∷ starts_write first.buffer ∷ [])
            × (r.0.in_flight ≡ some first)
            × Overlaps bad_descriptor first third r.0)
  unfolding run step start_connect connect_done enqueue_write do_write write_next
      fail_pending_writes
  late_fail-Overlaps ec first second third c flight up alive able = (
    (
      rw (up, alive, able) refl,
      rw (up, alive, able)
          (omega (
            arith,
            count_starts-append (calls_all (some ec) c.write_queue)
                (starts_write third.buffer ∷ []),
            count_starts-calls_all (some ec) c.write_queue,
          )),
      rw (up, alive, able) refl,
      rw (up, alive, able) refl,
    ),
    (refl, refl, (refl, refl, refl, refl)),
  )

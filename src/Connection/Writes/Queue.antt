-- ===== src/Connection/Writes/Queue.antt =====
-- The write queue: one write at a time, and no handler is lost or called twice.
use lite_mqtt.Prelude.{
  ◌≡◌, ◌≢◌, ◌⊎◌, inl, inr, refl, Bool, true, false, Option, none, some, List, [], ◌∷◌, ◌++◌, arith,
  Bool-cases,
}
use lite_mqtt.Connection.Writes.{
  WriteItem, Connection, ErrorCode, start_connect, connect_done, mark_connected, do_write,
  write_next, enqueue_write, fail_pending_writes, close, after_write, write_done, write_done_with,
  Event, enqueues, completes, runs_fail, closes, starts_connect, connects, marks_connected, step,
}

-- `writing_` says whether a write is in flight, and a closed connection has nothing left to write.
pub record IsConsistent {H : Type 0} (c : Connection H) : Type 0 where
  pub flag : (c.writing ≡ false) × (c.in_flight ≡ none) ⊎ (c.writing ≡ true) × (c.in_flight ≢ none)
  pub dead : c.closed ≡ true → (c.write_queue ≡ []) × (c.in_flight ≡ none)

-- The posted task that fails the queue does not run while a write is in flight.
abbrev pub IsOrderly : {H : Type 0} → Event H → Connection H → Type 0
IsOrderly (runs_fail ec) c = c.in_flight ≡ none
IsOrderly (enqueues item) c = Unit
IsOrderly (completes ec reenters) c = Unit
IsOrderly closes c = Unit
IsOrderly starts_connect c = Unit
IsOrderly (connects ec) c = Unit
IsOrderly marks_connected c = Unit

module _ {H : Type 0} where
  write_next-IsConsistent :
      (c : Connection H) (q : List (WriteItem H))
      → IsConsistent c
      → c.closed ≡ false
      → IsConsistent (write_next c q).0
  unfolding write_next
  write_next-IsConsistent c [] v alive = v
  write_next-IsConsistent c (item ∷ rest) v alive = ground arith

  do_write-IsConsistent :
      (c : Connection H) → IsConsistent c → c.closed ≡ false → IsConsistent (do_write c).0
  unfolding do_write
  do_write-IsConsistent c v alive = ground (arith, write_next-IsConsistent c c.write_queue v alive)

  enqueue_write-IsConsistent :
      (item : WriteItem H) (c : Connection H)
      → IsConsistent c
      → IsConsistent (enqueue_write item c).0
  unfolding enqueue_write
  enqueue_write-IsConsistent item c v = elim (Bool-cases c.closed) [
    | inl shut ↦ ground (arith, v)
    | inr alive ↦
        let c' : Connection H = record c { write_queue = c.write_queue ++ item ∷ [] } in
        let v' : IsConsistent c' = record { flag = v.flag; dead = λ t. cc } in
        ground (arith, v', do_write-IsConsistent c' v' alive)
  ]

  pub close-IsConsistent : (c : Connection H) → IsConsistent c → IsConsistent (close c).0
  unfolding close
  close-IsConsistent c v = ground arith

  close_idle : (c : Connection H) → c.in_flight ≡ none → ((close c).0.in_flight ≡ none)
  unfolding close
  close_idle c e = ground arith

  after_write-IsConsistent :
      (ec : ErrorCode) (c : Connection H)
      → IsConsistent c
      → c.in_flight ≡ none
      → IsConsistent (after_write ec c).0
  unfolding after_write
  after_write-IsConsistent none c v idle = elim (Bool-cases c.closed) [
    | inl shut ↦ ground arith
    | inr alive ↦ ground (arith, do_write-IsConsistent c v alive)
  ]
  after_write-IsConsistent (some ec) c v idle = ground arith

  write_done_with-IsConsistent :
      (ec : ErrorCode) (reenters : Bool) (o : Option (WriteItem H)) (c : Connection H)
      → IsConsistent c
      → IsConsistent (write_done_with ec reenters o c).0
  unfolding write_done_with
  write_done_with-IsConsistent ec reenters none c v = v
  write_done_with-IsConsistent ec true (some item) c v =
      let c1 : Connection H = record c { in_flight = none; writing = false } in
      let v1 : IsConsistent c1 = ground arith in
      after_write-IsConsistent ec (close c1).0 (close-IsConsistent c1 v1) (close_idle c1 refl)
  write_done_with-IsConsistent ec false (some item) c v =
      after_write-IsConsistent ec (record c { in_flight = none; writing = false }) (ground arith)
        refl

  -- Every event keeps a connection consistent, if the posted task that fails the queue does not run
  -- while a write is in flight.
  pub step-IsConsistent :
      (e : Event H) (c : Connection H) → IsConsistent c → IsOrderly e c → IsConsistent (step e c).0
  unfolding step
  step-IsConsistent (enqueues item) c v o = enqueue_write-IsConsistent item c v
  step-IsConsistent (completes ec reenters) c v o =
      unfold write_done in write_done_with-IsConsistent ec reenters c.in_flight c v
  step-IsConsistent (runs_fail ec) c v o = unfold fail_pending_writes in ground arith
  step-IsConsistent closes c v o = close-IsConsistent c v
  step-IsConsistent starts_connect c v o = unfold start_connect in ground arith
  step-IsConsistent (connects none) c v o = unfold connect_done in ground arith
  step-IsConsistent (connects (some ec)) c v o = unfold connect_done in ground arith
  step-IsConsistent marks_connected c v o = unfold mark_connected in ground arith

-- ===== src/Connection/Writes/Order.antt =====
-- In which order, and how many at a time, frames go to the socket.
use lite_mqtt.Prelude.{
  ℕ, ◌≡◌, ◌≢◌, ◌⊎◌, refl, sym, ap, ◌∙◌, true, false, Option, none, some, List, [], ◌∷◌, ◌++◌, arith,
  append_assoc, append-nil,
}
use lite_mqtt.Connection.Writes.{
  WriteItem, Connection, Effect, calls, posts_call, posts_fail, starts_write, is_down,
  mark_connected, do_write, write_next, enqueue_write, after_write, write_done, write_done_with,
  Event, enqueues, completes, runs_fail, closes, starts_connect, connects, marks_connected, step,
  run,
}

module _ {H : Type 0} where
  -- The buffers that are handed to asio::async_write, in order.
  abbrev pub started : List (Effect H) → List (List ℕ)
  started [] = []
  started (calls item ec ∷ es) = started es
  started (posts_call item ec ∷ es) = started es
  started (posts_fail ec ∷ es) = started es
  started (starts_write buffer ∷ es) = buffer ∷ started es

  abbrev pub buffers : List (WriteItem H) → List (List ℕ)
  buffers [] = []
  buffers (item ∷ items) = item.buffer ∷ buffers items

  -- Enqueued writes, writes that complete without an error, and the end of the handshake.
  abbrev pub IsSmooth : List (Event H) → Type 0
  IsSmooth [] = Unit
  IsSmooth (enqueues item ∷ es) = IsSmooth es
  IsSmooth (completes none false ∷ es) = IsSmooth es
  IsSmooth (completes none true ∷ es) = ⊥
  IsSmooth (completes (some ec) reenters ∷ es) = ⊥
  IsSmooth (runs_fail ec ∷ es) = ⊥
  IsSmooth (closes ∷ es) = ⊥
  IsSmooth (starts_connect ∷ es) = ⊥
  IsSmooth (connects ec ∷ es) = ⊥
  IsSmooth (marks_connected ∷ es) = IsSmooth es

  abbrev pub offered : List (Event H) → List (List ℕ)
  offered [] = []
  offered (enqueues item ∷ es) = item.buffer ∷ offered es
  offered (completes ec reenters ∷ es) = offered es
  offered (runs_fail ec ∷ es) = offered es
  offered (closes ∷ es) = offered es
  offered (starts_connect ∷ es) = offered es
  offered (connects ec ∷ es) = offered es
  offered (marks_connected ∷ es) = offered es

-- A connection that can write, on which a frame waits only behind a write in flight.
pub record IsFlowing {H : Type 0} (c : Connection H) : Type 0 where
  pub up : is_down c.state ≡ false
  pub socket_open : c.socket_open ≡ true
  pub alive : c.closed ≡ false
  pub flag :
      (c.writing ≡ false) × (c.in_flight ≡ none) × (c.write_queue ≡ [])
      ⊎ (c.writing ≡ true) × (c.in_flight ≢ none)

module _ {H : Type 0} where
  buffers-append : (xs ys : List (WriteItem H)) → buffers (xs ++ ys) ≡ buffers xs ++ buffers ys
  buffers-append [] ys = refl
  buffers-append (x ∷ xs) ys = ap (◌∷◌ x.buffer) (buffers-append xs ys)

  started-append : (xs ys : List (Effect H)) → started (xs ++ ys) ≡ started xs ++ started ys
  started-append [] ys = refl
  started-append (calls item ec ∷ xs) ys = started-append xs ys
  started-append (posts_call item ec ∷ xs) ys = started-append xs ys
  started-append (posts_fail ec ∷ xs) ys = started-append xs ys
  started-append (starts_write buffer ∷ xs) ys = ap (◌∷◌ buffer) (started-append xs ys)

  -- What an operation may do to the frames of a connection that can write.
  abbrev Flows : List (List ℕ) → Connection H × List (Effect H) → Type 0
  Flows frames r = (started r.1 ++ buffers r.0.write_queue ≡ frames) × IsFlowing r.0

  enqueue_write-Flows :
      (item : WriteItem H) (c : Connection H)
      → IsFlowing c
      → Flows (buffers c.write_queue ++ item.buffer ∷ []) (enqueue_write item c)
  unfolding enqueue_write do_write write_next
  enqueue_write-Flows item c f = ground (arith, buffers-append c.write_queue (item ∷ []))

  write_done_with-Flows :
      (o : Option (WriteItem H)) (q : List (WriteItem H)) (c : Connection H)
      → c.in_flight ≡ o
      → c.write_queue ≡ q
      → IsFlowing c
      → Flows (buffers q) (write_done_with none false o c)
  unfolding write_done_with after_write do_write write_next
  write_done_with-Flows none q c e e' f = ground arith
  write_done_with-Flows (some item) [] c e e' f = ground arith
  write_done_with-Flows (some item) (next ∷ q) c e e' f = ground arith

  step-Flows :
      (e : Event H) (c : Connection H)
      → IsSmooth (e ∷ [])
      → IsFlowing c
      → Flows (buffers c.write_queue ++ offered (e ∷ [])) (step e c)
  unfolding step
  step-Flows (enqueues item) c s f = enqueue_write-Flows item c f
  step-Flows (completes none false) c s f =
      rw append-nil
        (unfold write_done in write_done_with-Flows c.in_flight c.write_queue c refl refl f)
  step-Flows (completes none true) c s f = absurd s
  step-Flows (completes (some ec) reenters) c s f = absurd s
  step-Flows (runs_fail ec) c s f = absurd s
  step-Flows closes c s f = absurd s
  step-Flows starts_connect c s f = absurd s
  step-Flows (connects ec) c s f = absurd s
  step-Flows marks_connected c s f = unfold mark_connected in (sym (append-nil _), ground arith)

  IsSmooth-cons :
      (e : Event H) (es : List (Event H)) → IsSmooth (e ∷ es) → IsSmooth (e ∷ []) × IsSmooth es
  IsSmooth-cons (enqueues item) es s = (tt, s)
  IsSmooth-cons (completes none false) es s = (tt, s)
  IsSmooth-cons (completes none true) es s = absurd s
  IsSmooth-cons (completes (some ec) reenters) es s = absurd s
  IsSmooth-cons (runs_fail ec) es s = absurd s
  IsSmooth-cons closes es s = absurd s
  IsSmooth-cons starts_connect es s = absurd s
  IsSmooth-cons (connects ec) es s = absurd s
  IsSmooth-cons marks_connected es s = (tt, s)

  offered-cons :
      (e : Event H) (es : List (Event H)) → offered (e ∷ es) ≡ offered (e ∷ []) ++ offered es
  offered-cons (enqueues item) es = refl
  offered-cons (completes ec reenters) es = refl
  offered-cons (runs_fail ec) es = refl
  offered-cons closes es = refl
  offered-cons starts_connect es = refl
  offered-cons (connects ec) es = refl
  offered-cons marks_connected es = refl

-- On a connection that can write, with no errors, frames go to the socket in the order in which
-- they were queued, none twice and none left out: those started and those that still wait are those
-- that were waiting and those that came. A frame waits only while another is in flight.
pub run_in_order :
    {H : Type 0} (es : List (Event H)) (c : Connection H)
    → IsSmooth es
    → IsFlowing c
    → (started (run es c).1 ++ buffers (run es c).0.write_queue
        ≡ buffers c.write_queue ++ offered es)
      × IsFlowing (run es c).0
unfolding run
run_in_order [] c s f = (sym (append-nil _), f)
run_in_order (e ∷ es) c s f =
    let (s1, s2) = IsSmooth-cons e es s in
    let (now, f') = step-Flows e c s1 f in
    let (later, f'') = run_in_order es (step e c).0 s2 f' in
    let now_list = started (step e c).1 in
    let later_list = started (run es (step e c).0).1 in
    (
      ap (λ t. t ++ buffers (run es (step e c).0).0.write_queue) (started-append (step e c).1 _)
          ∙ append_assoc now_list later_list _
          ∙ ap (λ (t : List (List ℕ)). now_list ++ t) later
          ∙ sym (append_assoc now_list (buffers (step e c).0.write_queue) (offered es))
          ∙ ap (λ t. t ++ offered es) now
          ∙ append_assoc (buffers c.write_queue) (offered (e ∷ [])) (offered es)
          ∙ ap (λ (t : List (List ℕ)). buffers c.write_queue ++ t) (sym (offered-cons e es)),
      f'',
    )

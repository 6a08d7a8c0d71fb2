-- ===== src/Connection/Writes.antt =====
-- The writing half of inc/litemqtt/connection.hpp, its state and its close(). A write handler is a
-- value of `H`. The functions return the new state and what they do besides: the calls of handlers,
-- the tasks that they post and the asynchronous writes that they start, in order.
pub mod Queue
pub mod Order
pub mod Accounts
pub mod Overlap
use lite_mqtt.Prelude.{
  ℕ, Bool, true, false, not, ◌||◌, ◌&&◌, Option, none, some, List, [], ◌∷◌, ◌++◌, map,
  if◌then◌else◌, is_empty,
}
use lite_mqtt.Connection.Asio.{AsioError, operation_aborted, bad_descriptor}

pub data ConnectionState : Type 0 where
  disconnected connecting handshaking connected : ConnectionState

-- An empty std::function is `none`.
pub record WriteItem (H : Type 0) : Type 0 where
  pub buffer : List ℕ
  pub handler : Option H

-- `socket_open` is what `socket_.is_open()` says. It matters only in the states in which
-- async_connect has succeeded.
pub record Connection (H : Type 0) : Type 0 where
  pub state : ConnectionState
  pub socket_open : Bool
  pub write_queue : List (WriteItem H)
  pub in_flight : Option (WriteItem H)
  pub writing : Bool
  pub closed : Bool

-- `none` is a success.
abbrev pub ErrorCode : Type 0
ErrorCode = Option AsioError

pub data Effect (H : Type 0) : Type 0 where
  calls : WriteItem H → ErrorCode → Effect H
  posts_call : WriteItem H → ErrorCode → Effect H
  posts_fail : AsioError → Effect H
  starts_write : List ℕ → Effect H

abbrev pub is_down : ConnectionState → Bool
is_down disconnected = true
is_down connecting = true
is_down handshaking = false
is_down connected = false

module _ {H : Type 0} where
  abbrev pub new_connection : Connection H
  new_connection = record {
    state = disconnected;
    socket_open = false;
    write_queue = [];
    in_flight = none;
    writing = false;
    closed = false;
  }

  -- async_connect(): before the name is resolved, and when the connect completes.
  pub start_connect : Connection H → Connection H
  start_connect c = record c { state = connecting; closed = false }

  pub connect_done : ErrorCode → Connection H → Connection H
  connect_done none c = record c { state = handshaking; socket_open = true }
  connect_done (some ec) c = record c { state = disconnected }

  pub mark_connected : Connection H → Connection H
  mark_connected c = record c { state = connected }

  -- do_write() on what the queue holds.
  pub write_next : Connection H → List (WriteItem H) → Connection H × List (Effect H)
  write_next c [] = (c, [])
  write_next c (item ∷ rest) =
      if not c.socket_open || is_down c.state then (c, posts_fail bad_descriptor ∷ []) else (
        record c { writing = true; in_flight = some item; write_queue = rest },
        starts_write item.buffer ∷ [],
      )

  pub do_write : Connection H → Connection H × List (Effect H)
  unfolding write_next
  do_write c = if c.writing then (c, []) else write_next c c.write_queue

  -- The task that async_write_packet() posts.
  pub enqueue_write : WriteItem H → Connection H → Connection H × List (Effect H)
  unfolding do_write
  enqueue_write item c =
      if c.closed
      then (c, posts_call item (some operation_aborted) ∷ [])
      else (let c' : Connection H = record c { write_queue = c.write_queue ++ item ∷ [] } in
          if not c'.writing then do_write c' else (c', []))

  abbrev calls_all : ErrorCode → List (WriteItem H) → List (Effect H)
  calls_all ec [] = []
  calls_all ec (item ∷ items) = calls item ec ∷ calls_all ec items

  unfoldable pub fail_pending_writes : AsioError → Connection H → Connection H × List (Effect H)
  fail_pending_writes ec c =
      (record c { write_queue = []; writing = false }, calls_all (some ec) c.write_queue)

  abbrev calls_taken : Option (WriteItem H) → List (Effect H)
  calls_taken none = []
  calls_taken (some item) = calls item (some operation_aborted) ∷ []

  -- close(). The handlers that it calls may call it again, which does nothing. No close handler is
  -- ever installed.
  unfoldable pub close : Connection H → Connection H × List (Effect H)
  unfolding fail_pending_writes
  close c =
      if c.closed
      then (c, [])
      else (let c' : Connection H = record c {
        closed = true;
        socket_open = false;
        state = disconnected;
        in_flight = none;
        writing = false;
      } in
          let (c'', failed) = fail_pending_writes operation_aborted c' in
          (c'', failed ++ calls_taken c.in_flight))

  -- The end of the completion handler of a write, behind the call of the item's handler.
  pub after_write : ErrorCode → Connection H → Connection H × List (Effect H)
  unfolding fail_pending_writes do_write
  after_write none c = if not c.writing && not (is_empty c.write_queue) then do_write c else (c, [])
  after_write (some ec) c =
      fail_pending_writes ec (record c { socket_open = false; state = disconnected })

  -- The completion handler of the write of `in_flight_`. `closes` says whether the item's handler
  -- calls close().
  pub write_done_with :
      ErrorCode → Bool → Option (WriteItem H) → Connection H → Connection H × List (Effect H)
  unfolding close after_write
  write_done_with ec closes none c = (c, [])
  write_done_with ec closes (some item) c =
      let c1 : Connection H = record c { in_flight = none; writing = false } in
      let (c2, closing) = if closes then close c1 else (c1, []) in
      let (c3, rest) = after_write ec c2 in (c3, calls item ec ∷ closing ++ rest)

  pub write_done : ErrorCode → Bool → Connection H → Connection H × List (Effect H)
  unfolding write_done_with
  write_done ec closes c = write_done_with ec closes c.in_flight c

-- What can happen to a connection.
pub data Event (H : Type 0) : Type 0 where
  enqueues : WriteItem H → Event H
  completes : ErrorCode → Bool → Event H
  runs_fail : AsioError → Event H
  closes : Event H
  starts_connect : Event H
  connects : ErrorCode → Event H
  marks_connected : Event H

module _ {H : Type 0} where
  pub step : Event H → Connection H → Connection H × List (Effect H)
  unfolding enqueue_write write_done fail_pending_writes close start_connect connect_done
      mark_connected
  step (enqueues item) c = enqueue_write item c
  step (completes ec reenters) c = write_done ec reenters c
  step (runs_fail ec) c = fail_pending_writes ec c
  step closes c = close c
  step starts_connect c = (start_connect c, [])
  step (connects ec) c = (connect_done ec c, [])
  step marks_connected c = (mark_connected c, [])

  pub run : List (Event H) → Connection H → Connection H × List (Effect H)
  unfolding step
  run [] c = (c, [])
  run (e ∷ es) c = let (c', now) = step e c in let (c'', later) = run es c' in (c'', now ++ later)

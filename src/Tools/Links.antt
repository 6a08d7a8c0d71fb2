-- ===== src/Tools/Links.antt =====
-- tools/reconnect_stress.cc: the link states of chaos_broker, its listener and its sessions, as a
-- machine over what its io thread runs. A session is known by a number; whether the port can be bound
-- is an argument. What a session does with its bytes is in Tools/Broker.
pub mod Outage
use lite_mqtt.Prelude.{
  ℕ, ◌+◌, Bool, true, false, not, ◌||◌, ◌&&◌, List, [], ◌∷◌, ◌++◌, ◌==◌, if◌then◌else◌,
}

pub data LinkState : Type 0 where
  up down blackhole flap slow : LinkState

abbrev pub is_down : LinkState → Bool
is_down up = false
is_down down = true
is_down blackhole = false
is_down flap = false
is_down slow = false

abbrev pub is_blackhole : LinkState → Bool
is_blackhole up = false
is_blackhole down = false
is_blackhole blackhole = true
is_blackhole flap = false
is_blackhole slow = false

abbrev pub is_flap : LinkState → Bool
is_flap up = false
is_flap down = false
is_flap blackhole = false
is_flap flap = true
is_flap slow = false

-- Whether the session is read from, and whether its timer runs.
pub record LinkSession : Type 0 where
  pub id : ℕ
  pub reading : Bool
  pub timer : Bool

pub record ChaosBroker : Type 0 where
  pub state : LinkState
  pub listening : Bool
  pub accepting : Bool
  pub sessions : List LinkSession
  pub fatal : Bool
  pub io_stopped : Bool
  pub accepted : ℕ
  pub resets : ℕ
  pub held : ℕ

abbrev pub new_broker : ChaosBroker
new_broker = record {
  state = up;
  listening = false;
  accepting = false;
  sessions = [];
  fatal = false;
  io_stopped = false;
  accepted = 0;
  resets = 0;
  held = 0;
}

-- set_state(), which posts apply_state().
unfoldable pub set_state : LinkState → ChaosBroker → ChaosBroker
set_state s b = record b { state = s }

unfoldable pub do_accept : ChaosBroker → ChaosBroker
do_accept b = if not b.listening || b.accepting then b else record b { accepting = true }

unfoldable pub close_sessions : ChaosBroker → ChaosBroker
close_sessions b = record b { sessions = [] }

-- open_listener() succeeds where `owned` says so.
unfoldable pub apply_state : Bool → ChaosBroker → ChaosBroker
apply_state owned b =
    let b' : ChaosBroker = record b { listening = true } in
    if is_down b.state
    then close_sessions (record b { listening = false })
    else if not b.listening && not owned
    then record b { fatal = true; io_stopped = true }
    else do_accept (if is_blackhole b.state then close_sessions b' else b')

unfoldable pub on_session : ℕ → ChaosBroker → ChaosBroker
on_session id b =
    if is_blackhole b.state
    then record b {
      sessions = b.sessions ++ record { id = id; reading = false; timer = false } ∷ [];
      held = b.held + 1;
    }
    else record b {
      sessions = b.sessions ++ record { id = id; reading = true; timer = is_flap b.state } ∷ [];
    }

-- The completion handler of async_accept.
unfoldable pub accept_completes : Bool → ℕ → ChaosBroker → ChaosBroker
accept_completes success id b =
    let b' : ChaosBroker = record b { accepting = false } in
    let b'' = if success then on_session id (record b' { accepted = b'.accepted + 1 }) else b' in
    if b''.listening then do_accept b'' else b''

unfoldable pub forget : ℕ → List LinkSession → List LinkSession
forget id [] = []
forget id (s ∷ ss) = let rest = forget id ss in if s.id == id then ss else s ∷ rest

-- The timer of a session in the state flap; a timer that was cancelled does nothing.
unfoldable pub flap_expires : Bool → ℕ → ChaosBroker → ChaosBroker
flap_expires cancelled id b =
    if cancelled then b else record b { resets = b.resets + 1; sessions = forget id b.sessions }

-- A read fails, or ends with the socket closed.
unfoldable pub read_ends : ℕ → ChaosBroker → ChaosBroker
read_ends id b = record b { sessions = forget id b.sessions }

pub data LinkEvent : Type 0 where
  sets_state : LinkState → LinkEvent
  applies : Bool → LinkEvent
  accepts : Bool → ℕ → LinkEvent
  flap_ends : Bool → ℕ → LinkEvent
  reads_end : ℕ → LinkEvent

unfoldable pub link_step : LinkEvent → ChaosBroker → ChaosBroker
link_step (sets_state s) b = set_state s b
link_step (applies owned) b = apply_state owned b
link_step (accepts success id) b = accept_completes success id b
link_step (flap_ends cancelled id) b = flap_expires cancelled id b
link_step (reads_end id) b = read_ends id b

unfoldable pub link_run : List LinkEvent → ChaosBroker → ChaosBroker
link_run [] b = b
link_run (e ∷ es) b = link_run es (link_step e b)

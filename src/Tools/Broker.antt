-- ===== src/Tools/Broker.antt =====
-- tools/reconnect_stress.cc: what chaos_broker does with the bytes of one session. The counters are
-- those of the broker; they stay below 2 ^ 31. `sent` holds the packets that it writes, in order.
pub mod Frames
pub mod Chunks
pub mod Stream
pub mod Acks
use lite_mqtt.Prelude.{
  ℕ, zero, suc, ◌+◌, ◌*◌, Bool, true, false, not, ◌&&◌, ◌||◌, List, [], ◌∷◌, ◌++◌, ltb, ◌==◌,
  if◌then◌else◌, length, get_or, take, drop, bit_and, bit_or, shl, shr, u8, u16,
}
use lite_mqtt.Prelude.Int.{ℤ, pos, negsuc}

-- A session but for its buffer, with the counters of the broker.
pub record Peer : Type 0 where
  pub is_open : Bool
  pub last_pid : ℕ
  pub last_seq : ℤ
  pub have_last : Bool
  pub sent : List (List ℕ)
  pub connacks : ℕ
  pub publishes : ℕ
  pub pubacks : ℕ
  pub framing_errors : ℕ
  pub ordering_errors : ℕ

abbrev pub new_peer : Peer
new_peer = record {
  is_open = true;
  last_pid = 0;
  last_seq = negsuc 0;
  have_last = false;
  sent = [];
  connacks = 0;
  publishes = 0;
  pubacks = 0;
  framing_errors = 0;
  ordering_errors = 0;
}

-- The inner loop of process(), over the bytes behind the first one.
pub data Scan : Type 0 where
  incomplete too_long : Scan
  complete : ℕ → List ℕ → Scan

unfoldable pub scan_length : ℕ → ℕ → List ℕ → Scan
scan_length remaining multiplier [] = incomplete
scan_length remaining multiplier (byte ∷ bytes) =
    let remaining' = remaining + bit_and byte 0x7f * multiplier in
    let more = scan_length remaining' (multiplier * 128) bytes in
    if ltb (128 * 128 * 128) (multiplier * 128)
    then too_long
    else if bit_and byte 0x80 == 0
    then complete remaining' bytes
    else more

-- What is offset the front of the buffer: the type, the body and what follows, if it is a packet.
pub data Next : Type 0 where
  waits broken : Next
  packet : ℕ → List ℕ → List ℕ → Next

unfoldable pub next_of : ℕ → Scan → Next
next_of type incomplete = waits
next_of type too_long = broken
next_of type (complete remaining rest) =
    if ltb (length rest) remaining
    then waits
    else packet type (take remaining rest) (drop remaining rest)

unfoldable pub next_packet : List ℕ → Next
unfolding scan_length next_of
next_packet [] = waits
next_packet (type ∷ []) = waits
next_packet (type ∷ byte ∷ bytes) = next_of type (scan_length 0 1 (byte ∷ bytes))

abbrev pub non_negative : ℤ → Bool
non_negative (pos n) = true
non_negative (negsuc n) = false

abbrev pub less : ℤ → ℤ → Bool
less (pos m) (pos n) = ltb m n
less (pos m) (negsuc n) = false
less (negsuc m) (pos n) = true
less (negsuc m) (negsuc n) = ltb n m

unfoldable pub framing_error : Peer → Peer
framing_error p = record p { framing_errors = p.framing_errors + 1 }

unfoldable pub send : List ℕ → Peer → Peer
send bytes p = record p { sent = p.sent ++ bytes ∷ [] }

-- `payload.compare(0, 4, "seq=") == 0`
abbrev starts_with_seq : List ℕ → Bool
starts_with_seq payload =
    get_or payload 0 0 == 115
    && get_or payload 1 0 == 101
    && get_or payload 2 0 == 113
    && get_or payload 3 0 == 61

-- std::atoll is a parameter: it reads the text that it is given as a number.
module _ (atoll : List ℕ → ℤ) where
  unfoldable pub payload_seq : List ℕ → ℤ
  payload_seq payload =
      if ltb (length payload) 4 || not (starts_with_seq payload)
      then negsuc 0
      else atoll (drop 4 payload)

  -- The test of the order within one session.
  unfoldable pub note_seq : ℤ → ℕ → Peer → Peer
  note_seq seq pid p = if not (non_negative seq) then p else record p {
    ordering_errors =
        if p.have_last
          && (less seq p.last_seq || (not (less p.last_seq seq) && not (pid == p.last_pid)))
        then p.ordering_errors + 1
        else p.ordering_errors;
    last_seq = seq;
    last_pid = pid;
    have_last = true;
  }

  unfoldable pub acknowledge : ℕ → ℕ → Peer → Peer
  acknowledge qos pid p =
      let p' : Peer = record p { publishes = p.publishes + 1 } in
      if qos == 1
      then send (0x40 ∷ 0x02 ∷ u8 (shr pid 8) ∷ u8 pid ∷ [])
          (record p' { pubacks = p'.pubacks + 1 })
      else p'

  -- A PUBLISH whose header is there: `offset` is the position of the payload.
  unfoldable pub take_publish : ℕ → ℕ → ℕ → List ℕ → Peer → Peer
  take_publish qos pid offset body p =
      acknowledge qos pid (note_seq (payload_seq (drop offset body)) pid p)

  unfoldable pub handle_publish : ℕ → List ℕ → Peer → Peer
  handle_publish type body p =
      let topic_len = bit_or (shl (get_or body 0 0) 8) (get_or body 1 0) in
      let offset = 2 + topic_len in
      let qos = bit_and (shr type 1) 0x03 in
      let pid = u16 (bit_or (shl (get_or body offset 0) 8) (get_or body (offset + 1) 0)) in
      if ltb (length body) 2
      then framing_error p
      else if ltb (length body) offset
      then framing_error p
      else if ltb 0 qos
      then (if ltb (length body) (offset + 2)
          then framing_error p
          else take_publish qos pid (offset + 2) body p)
      else take_publish qos 0 offset body p

  unfoldable pub handle_packet : ℕ → List ℕ → Peer → Peer
  handle_packet type body p =
      let kind = bit_and type 0xf0 in
      if kind == 0x10
      then send (0x20 ∷ 0x02 ∷ 0x00 ∷ 0x00 ∷ []) (record p { connacks = p.connacks + 1 })
      else if kind == 0x30
      then handle_publish type body p
      else if kind == 0xc0
      then send (0xd0 ∷ 0x00 ∷ []) p
      else if kind == 0xe0
      then record p { is_open = false }
      else p

  -- One round of process(), with the rounds that follow it.
  unfoldable pub process_next :
      (List ℕ → Peer → List ℕ × Peer) → Next → List ℕ → Peer → List ℕ × Peer
  process_next rounds waits buf p = (buf, p)
  process_next rounds broken buf p = ([], framing_error p)
  process_next rounds (packet type body rest) buf p =
      let p' = handle_packet type body p in if not p'.is_open then (rest, p') else rounds rest p'

  unfoldable pub process_loop : ℕ → List ℕ → Peer → List ℕ × Peer
  process_loop zero buf p = (buf, p)
  process_loop (suc fuel) buf p = process_next (process_loop fuel) (next_packet buf) buf p

  -- Each packet takes offset least two bytes.
  unfoldable pub process : List ℕ → Peer → List ℕ × Peer
  process buf p = process_loop (length buf) buf p

  -- The completion handler of async_read_some, for the bytes of one read.
  unfoldable pub receive : List ℕ → List ℕ × Peer → List ℕ × Peer
  receive chunk (buf, p) = process (buf ++ chunk) p

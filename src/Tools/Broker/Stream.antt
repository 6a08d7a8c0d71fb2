-- ===== src/Tools/Broker/Stream.antt =====
-- What chaos_broker makes of a stream does not depend on how the reads cut it.
use lite_mqtt.Prelude.{
  ℕ, zero, suc, ◌+◌, ◌≤◌, ◌<◌, ◌≡◌, refl, sym, ap, subst, ◌∙◌, Bool, true, false, not, List, [],
  ◌∷◌, ◌++◌, arith, if_elim, if◌then◌else◌, drop, ltb, ◌==◌, bit_or, bit_and, shl, shr, get_or, u16,
  length, length-append, append_assoc, append-nil, Bool-cases, inl, inr,
}
use lite_mqtt.Prelude.Int.{ℤ}
use lite_mqtt.Tools.Broker.{
  Peer, Next, waits, broken, packet, next_packet, framing_error, send, note_seq, take_publish,
  handle_publish, handle_packet, process_next, process_loop, process, receive, acknowledge,
  payload_seq,
}
use lite_mqtt.Tools.Broker.Chunks.{Extends, Shrinks, next_packet-append, next_packet-Shrinks}

abbrev Rounds : Type 0
Rounds = List ℕ → Peer → List ℕ × Peer

-- The count of framing errors does not go down.
record Grows (p q : Peer) : Type 0 where
  grows : p.framing_errors ≤ q.framing_errors

same_errors : (p q : Peer) → q.framing_errors ≡ p.framing_errors → Grows p q
same_errors p q e = record { grows = omega (arith, e) }

grows_if : (p : Peer) (b : Bool) (x y : Peer) → Grows p x → Grows p y → Grows p (if b then x else y)
grows_if p true x y hx hy = hx
grows_if p false x y hx hy = hy

counted : (p : Peer) → Grows p (framing_error p)
unfolding framing_error
counted p = record { grows = omega arith }

no_error : (p : Peer) → (framing_error p).framing_errors ≡ p.framing_errors → ⊥
unfolding framing_error
no_error p e = omega arith

stays : {A : Type 0} (b : Bool) (x y : A) → b ≡ true → (if not b then x else y) ≡ y
stays b x y e = rw e refl

leaves : {A : Type 0} (b : Bool) (x y : A) → b ≡ false → (if not b then x else y) ≡ x
leaves b x y e = rw e refl

abbrev pub joined : List (List ℕ) → List ℕ
joined [] = []
joined (chunk ∷ chunks) = chunk ++ joined chunks

module _ (atoll : List ℕ → ℤ) where
  next_fuel :
      (nx : Next) (buf : List ℕ) (p : Peer) (f g : Rounds)
      → ((rest : List ℕ) (p' : Peer) → length rest < length buf → f rest p' ≡ g rest p')
      → Shrinks (length buf) nx
      → process_next atoll f nx buf p ≡ process_next atoll g nx buf p
  unfolding process_next
  next_fuel waits buf p f g same h = refl
  next_fuel broken buf p f g same h = refl
  next_fuel (packet type body rest) buf p f g same h =
      let p' = handle_packet atoll type body p in
      ap (λ (o : List ℕ × Peer). if not p'.is_open then (rest, p') else o) (same rest p' h)

  -- Fuel beyond the length of the buffer changes nothing.
  process_fuel :
      (m n : ℕ) (buf : List ℕ) (p : Peer)
      → length buf ≤ m
      → length buf ≤ n
      → process_loop atoll m buf p ≡ process_loop atoll n buf p
  unfolding process_loop process_next next_packet
  process_fuel zero zero buf p hm hn = refl
  process_fuel zero (suc n) [] p hm hn = refl
  process_fuel zero (suc n) (x ∷ buf) p hm hn = absurd (omega arith)
  process_fuel (suc m) zero [] p hm hn = refl
  process_fuel (suc m) zero (x ∷ buf) p hm hn = absurd (omega arith)
  process_fuel (suc m) (suc n) buf p hm hn =
      next_fuel (next_packet buf) buf p (process_loop atoll m) (process_loop atoll n)
        (λ rest p' shorter. process_fuel m n rest p' (omega arith) (omega arith))
        (next_packet-Shrinks buf)

  errors_note_seq :
      (seq : ℤ) (pid : ℕ) (p : Peer) → (note_seq atoll seq pid p).framing_errors ≡ p.framing_errors
  unfolding note_seq
  errors_note_seq seq pid p = ground arith

  errors_acknowledge :
      (qos pid : ℕ) (p : Peer) → (acknowledge atoll qos pid p).framing_errors ≡ p.framing_errors
  unfolding acknowledge send
  errors_acknowledge qos pid p = ground arith

  errors_publish :
      (qos pid offset : ℕ) (body : List ℕ) (p : Peer)
      → Grows p (take_publish atoll qos pid offset body p)
  unfolding take_publish
  errors_publish qos pid offset body p =
      let seq = payload_seq atoll (drop offset body) in
      same_errors p (acknowledge atoll qos pid (note_seq atoll seq pid p))
        (errors_acknowledge qos pid (note_seq atoll seq pid p) ∙ errors_note_seq seq pid p)

  errors_handle_publish :
      (type : ℕ) (body : List ℕ) (p : Peer) → Grows p (handle_publish atoll type body p)
  unfolding handle_publish
  errors_handle_publish type body p =
      let topic_len = bit_or (shl (get_or body 0 0) 8) (get_or body 1 0) in
      let offset = 2 + topic_len in
      let qos = bit_and (shr type 1) 0x03 in
      let pid = u16 (bit_or (shl (get_or body offset 0) 8) (get_or body (offset + 1) 0)) in
      grows_if p (ltb (length body) 2) (framing_error p) _ (counted p) (
        grows_if p (ltb (length body) offset) (framing_error p) _ (counted p) (
          grows_if p (ltb 0 qos) _ (take_publish atoll qos 0 offset body p)
            (grows_if p (ltb (length body) (offset + 2)) (framing_error p)
              (take_publish atoll qos pid (offset + 2) body p) (counted p)
              (errors_publish qos pid (offset + 2) body p))
            (errors_publish qos 0 offset body p)))

  errors_handle : (type : ℕ) (body : List ℕ) (p : Peer) → Grows p (handle_packet atoll type body p)
  unfolding handle_packet send
  errors_handle type body p =
      let kind = bit_and type 0xf0 in
      grows_if p (kind == 0x10) _ _ (same_errors p _ refl) (
        grows_if p (kind == 0x30) (handle_publish atoll type body p) _
          (errors_handle_publish type body p)
          (grows_if p (kind == 0xc0) _ _ (same_errors p _ refl) (
            grows_if p (kind == 0xe0) _ p (same_errors p (record p { is_open = false }) refl)
              (same_errors p p refl))))

  errors_next :
      (nx : Next) (buf : List ℕ) (p : Peer) (f : Rounds)
      → ((rest : List ℕ) (p' : Peer) → p'.framing_errors ≤ (f rest p').1.framing_errors)
      → p.framing_errors ≤ (process_next atoll f nx buf p).1.framing_errors
  unfolding process_next
  errors_next waits buf p f mono = omega arith
  errors_next broken buf p f mono = (counted p).grows
  errors_next (packet type body rest) buf p f mono =
      let p' = handle_packet atoll type body p in
      if_elim (λ (o : List ℕ × Peer). p.framing_errors ≤ o.1.framing_errors) (not p'.is_open)
        (rest, p') (f rest p') (λ _. (errors_handle type body p).grows)
        (λ _. omega (arith, (errors_handle type body p).grows, mono rest p'))

  errors_loop :
      (n : ℕ) (buf : List ℕ) (p : Peer)
      → p.framing_errors ≤ (process_loop atoll n buf p).1.framing_errors
  unfolding process_loop
  errors_loop zero buf p = omega arith
  errors_loop (suc n) buf p =
      errors_next (next_packet buf) buf p (process_loop atoll n) (errors_loop n)

  -- The rounds on a buffer end with the session open and no framing error counted.
  abbrev Calm : Peer → List ℕ × Peer → Type 0
  Calm p o = (o.1.is_open ≡ true) × (o.1.framing_errors ≡ p.framing_errors)

  split_next :
      (nx nx' : Next) (buf ys : List ℕ) (p : Peer) (f g : Rounds)
      → Extends ys nx nx'
      → Shrinks (length buf) nx
      → ((rest : List ℕ) (p' : Peer) → p'.framing_errors ≤ (f rest p').1.framing_errors)
      → ((rest : List ℕ) (p' : Peer)
          → length rest < length buf
          → Calm p' (f rest p')
          → g (rest ++ ys) p' ≡ process atoll ((f rest p').0 ++ ys) (f rest p').1)
      → process_next atoll g nx' (buf ++ ys) p ≡ process atoll (buf ++ ys) p
      → Calm p (process_next atoll f nx buf p)
      → process_next atoll g nx' (buf ++ ys) p
        ≡ process atoll ((process_next atoll f nx buf p).0 ++ ys) (process_next atoll f nx buf p).1
  unfolding process_next
  split_next waits nx' buf ys p f g ext shrinks mono later whole calm = whole
  split_next broken nx' buf ys p f g ext shrinks mono later whole calm = absurd (no_error p calm.1)
  split_next (packet type body rest) nx' buf ys p f g ext shrinks mono later whole calm =
      let p' = handle_packet atoll type body p in
      let whole_step : process_next atoll g nx' (buf ++ ys) p
          ≡ process_next atoll g (packet type body (rest ++ ys)) (buf ++ ys) p =
        ap (λ n. process_next atoll g n (buf ++ ys) p) ext in
      elim (Bool-cases p'.is_open) [
        | inl up ↦
            let step = stays p'.is_open (rest, p') (f rest p') up in
            let calm' = subst (Calm p) step calm in
            let grown = errors_handle type body p in
            whole_step
            ∙ stays p'.is_open (rest ++ ys, p') (g (rest ++ ys) p') up
            ∙ later rest p' shrinks (calm'.0, omega (arith, calm'.1, mono rest p', grown.grows))
            ∙ ap (λ (o : List ℕ × Peer). process atoll (o.0 ++ ys) o.1) (sym step)
        | inr shut ↦
            let step = leaves p'.is_open (rest, p') (f rest p') shut in
            absurd (cc ((subst (Calm p) step calm).0, shut))
      ]

  split_loop :
      (n m : ℕ) (buf ys : List ℕ) (p : Peer)
      → length buf ≤ n
      → length (buf ++ ys) ≤ m
      → Calm p (process_loop atoll n buf p)
      → process_loop atoll m (buf ++ ys) p
        ≡ process atoll ((process_loop atoll n buf p).0 ++ ys) (process_loop atoll n buf p).1
  unfolding process_loop process process_next next_packet
  split_loop zero m buf ys p hn hm calm =
      process_fuel m (length (buf ++ ys)) (buf ++ ys) p hm (omega arith)
  split_loop (suc n) zero [] ys p hn hm calm = process_fuel zero (length ys) ys p hm (omega arith)
  split_loop (suc n) zero (x ∷ buf) ys p hn hm calm = absurd (omega arith)
  split_loop (suc n) (suc m) buf ys p hn hm calm =
      split_next (next_packet buf) (next_packet (buf ++ ys)) buf ys p (process_loop atoll n)
        (process_loop atoll m) (next_packet-append buf ys) (next_packet-Shrinks buf) (errors_loop n)
        (λ rest p' shorter.
          split_loop n m rest ys p' (omega arith)
            (omega (arith, length-append rest ys, length-append buf ys)))
        (process_fuel (suc m) (length (buf ++ ys)) (buf ++ ys) p hm (omega arith)) calm

  -- The reads of a session, one after another.
  unfoldable pub receive_all : List (List ℕ) → List ℕ × Peer → List ℕ × Peer
  receive_all [] s = s
  receive_all (chunk ∷ chunks) s = receive_all chunks (receive atoll chunk s)

  -- No read but the last ends the session or counts a framing error.
  abbrev pub StaysCalm : List (List ℕ) → List ℕ × Peer → Type 0
  StaysCalm [] s = Unit
  StaysCalm (chunk ∷ []) s = Unit
  StaysCalm (chunk ∷ next ∷ chunks) s =
      Calm s.1 (receive atoll chunk s) × StaysCalm (next ∷ chunks) (receive atoll chunk s)

  receive_two :
      (xs ys : List ℕ) (s : List ℕ × Peer)
      → Calm s.1 (receive atoll xs s)
      → receive atoll ys (receive atoll xs s) ≡ receive atoll (xs ++ ys) s
  unfolding receive process
  receive_two xs ys (buf, p) calm =
      sym (
        split_loop (length (buf ++ xs)) (length (buf ++ (xs ++ ys))) (buf ++ xs) ys p (omega arith)
          (omega (
            arith,
            length-append (buf ++ xs) ys,
            length-append buf (xs ++ ys),
            length-append buf xs,
            length-append xs ys,
          ))
          calm)
      ∙ ap (λ zs. process_loop atoll (length (buf ++ (xs ++ ys))) zs p) (append_assoc buf xs ys)

  -- The broker does the same with a stream however the reads cut it, byte by byte or whole: the same
  -- packets are answered, the same counted, and the same bytes left over. The condition is that no
  -- read but the last one ends the session or counts a framing error.
  pub receive_all-joined :
      (chunk : List ℕ) (chunks : List (List ℕ)) (s : List ℕ × Peer)
      → StaysCalm (chunk ∷ chunks) s
      → receive_all (chunk ∷ chunks) s ≡ receive atoll (joined (chunk ∷ chunks)) s
  unfolding receive_all
  receive_all-joined chunk [] s calm = ap (λ zs. receive atoll zs s) (sym (append-nil chunk))
  receive_all-joined chunk (next ∷ chunks) s calm =
      receive_all-joined next chunks (receive atoll chunk s) calm.1
      ∙ receive_two chunk (joined (next ∷ chunks)) s calm.0

-- ===== src/Tools/Broker/Frames.antt =====
-- What chaos_broker makes of the frames that the library serializes.
use lite_mqtt.Prelude.{
  ℕ, zero, suc, ◌+◌, ◌*◌, ◌/◌, ◌%◌, ◌^◌, ◌≤◌, ◌<◌, ◌≡◌, refl, sym, ap, ◌∙◌, true, false, not, List,
  [], ◌∷◌, ◌++◌, arith, if◌then◌else◌, ltb, length, length-append, take-append, append-nil, if_elim,
  drop-append, bit_and, append_assoc, ◌⊎◌, low_group, top_bit, All, inl, inr,
}
use lite_mqtt.Prelude.Int.{ℤ}
use lite_mqtt.Codec.Writer.Length.{
  encoding, encoding_lem, length_digits, length_digits-last, length_digits-more,
}
use lite_mqtt.Codec.Packets.Frame.{frame}
use lite_mqtt.Tools.Broker.{
  Peer, too_long, complete, scan_length, waits, broken, packet, next_of, next_packet, framing_error,
  handle_packet, process_next, process_loop, process,
}

-- A last digit.
scan_last :
    (remaining multiplier d : ℕ) (bytes : List ℕ)
    → d < 128
    → multiplier * 128 ≤ 128 ^ 3
    → scan_length remaining multiplier (d ∷ bytes) ≡ complete (remaining + d * multiplier) bytes
unfolding scan_length
scan_last remaining multiplier d bytes small early =
    let low : bit_and d 0x7f ≡ d = omega (arith, low_group d (omega arith)) in
    let top : bit_and d 0x80 ≡ 0 = omega (arith, top_bit d (omega arith)) in
    let in_time : ltb (128 * 128 * 128) (multiplier * 128) ≡ false = ground arith in
    rw (low, top, in_time) refl

-- A digit that is not the last.
scan_more :
    (remaining multiplier d : ℕ) (bytes : List ℕ)
    → d < 128
    → multiplier * 128 ≤ 128 ^ 3
    → scan_length remaining multiplier ((d + 128) ∷ bytes)
      ≡ scan_length (remaining + d * multiplier) (multiplier * 128) bytes
unfolding scan_length
scan_more remaining multiplier d bytes small early =
    let low : bit_and (d + 128) 0x7f ≡ d = omega (arith, low_group (d + 128) (omega arith)) in
    let top : bit_and (d + 128) 0x80 ≡ 128 = omega (arith, top_bit (d + 128) (omega arith)) in
    let in_time : ltb (128 * 128 * 128) (multiplier * 128) ≡ false = ground arith in
    rw (low, top, in_time) refl

pub encoding_one : (len : ℕ) → len < 128 → encoding len ≡ len ∷ []
encoding_one len h = encoding_lem len (omega arith) ∙ length_digits-last 4 len h

encoding_two :
    (len : ℕ) → 128 ≤ len → len < 128 ^ 2 → encoding len ≡ (len % 128 + 128) ∷ len / 128 ∷ []
encoding_two len l h =
    encoding_lem len (omega arith)
    ∙ length_digits-more 4 len l
    ∙ ap (λ ds. (len % 128 + 128) ∷ ds) (length_digits-last 3 (len / 128) (omega arith))

encoding_three :
    (len : ℕ)
    → 128 ^ 2 ≤ len
    → len < 128 ^ 4
    → encoding len ≡ (len % 128 + 128) ∷ (len / 128 % 128 + 128) ∷ length_digits 3 (len / 128 / 128)
encoding_three len l h =
    encoding_lem len (omega arith)
    ∙ length_digits-more 4 len (omega arith)
    ∙ ap (λ ds. (len % 128 + 128) ∷ ds) (length_digits-more 3 (len / 128) (omega arith))

-- A length of at most three digits is read back.
scan_encoding :
    (len : ℕ) (bytes : List ℕ)
    → len < 128 ^ 3
    → scan_length 0 1 (encoding len ++ bytes) ≡ complete len bytes
scan_encoding len bytes h =
    let sizes : (len < 128) ⊎ ((128 ≤ len) × (len < 128 ^ 2) ⊎ (128 ^ 2 ≤ len)) = omega arith in
    elim sizes [
      | inl small ↦
          ap (λ ds. scan_length 0 1 (ds ++ bytes)) (encoding_one len small)
          ∙ scan_last 0 1 len bytes small (omega arith)
          ∙ ap (λ (n : ℕ). complete n bytes) (omega arith)
      | inr (inl (l, u)) ↦
          ap (λ ds. scan_length 0 1 (ds ++ bytes)) (encoding_two len l u)
          ∙ scan_more 0 1 (len % 128) (len / 128 ∷ bytes) (omega arith) (omega arith)
          ∙ scan_last (0 + len % 128 * 1) (1 * 128) (len / 128) bytes (omega arith) (omega arith)
          ∙ ap (λ (n : ℕ). complete n bytes) (omega arith)
      | inr (inr l) ↦
          let d = len / 128 % 128 in
          let e = len / 128 / 128 in
          ap (λ ds. scan_length 0 1 (ds ++ bytes))
            (encoding_three len l (omega arith)
              ∙ ap (λ ds. (len % 128 + 128) ∷ (d + 128) ∷ ds)
                  (length_digits-last 2 e (omega arith)))
          ∙ scan_more 0 1 (len % 128) ((d + 128) ∷ e ∷ bytes) (omega arith) (omega arith)
          ∙ scan_more (0 + len % 128 * 1) (1 * 128) d (e ∷ bytes) (omega arith) (omega arith)
          ∙ scan_last (0 + len % 128 * 1 + d * (1 * 128)) (1 * 128 * 128) e bytes (omega arith)
              (omega arith)
          ∙ ap (λ (n : ℕ). complete n bytes) (omega arith)
    ]

scan_late :
    (remaining multiplier d : ℕ) (bytes : List ℕ)
    → 128 ^ 3 < multiplier * 128
    → scan_length remaining multiplier (d ∷ bytes) ≡ too_long
unfolding scan_length
scan_late remaining multiplier d bytes late =
    let over : ltb (128 * 128 * 128) (multiplier * 128) ≡ true = ground arith in rw over refl

-- One of four digits is refused.
scan_four :
    (len : ℕ) (bytes : List ℕ)
    → 128 ^ 3 ≤ len
    → len < 128 ^ 4
    → scan_length 0 1 (encoding len ++ bytes) ≡ too_long
scan_four len bytes l h =
    let d = len / 128 % 128 in
    let e = len / 128 / 128 % 128 in
    let f = len / 128 / 128 / 128 in
    ap (λ ds. scan_length 0 1 (ds ++ bytes))
      (encoding_three len (omega arith) h
        ∙ ap (λ ds. (len % 128 + 128) ∷ (d + 128) ∷ ds)
            (length_digits-more 2 (len / 128 / 128) (omega arith)
              ∙ ap (λ ds. (e + 128) ∷ ds) (length_digits-last 1 f (omega arith))))
    ∙ scan_more 0 1 (len % 128) ((d + 128) ∷ (e + 128) ∷ f ∷ bytes) (omega arith) (omega arith)
    ∙ scan_more (0 + len % 128 * 1) (1 * 128) d ((e + 128) ∷ f ∷ bytes) (omega arith) (omega arith)
    ∙ scan_more (0 + len % 128 * 1 + d * (1 * 128)) (1 * 128 * 128) e (f ∷ bytes) (omega arith)
        (omega arith)
    ∙ scan_late _ (1 * 128 * 128 * 128) f bytes (omega arith)

-- The front of a buffer is judged by its length field alone.
next_scan :
    (type : ℕ) (bytes : List ℕ) → next_packet (type ∷ bytes) ≡ next_of type (scan_length 0 1 bytes)
unfolding next_packet next_of scan_length
next_scan type [] = refl
next_scan type (byte ∷ bytes) = refl

whole_body :
    (type : ℕ) (body rest : List ℕ)
    → next_of type (complete (length body) (body ++ rest)) ≡ packet type body rest
unfolding next_of
whole_body type body rest =
    let there : ltb (length (body ++ rest)) (length body) ≡ false =
      ground (arith, length-append body rest) in
    rw (there, take-append body rest (length body) refl, drop-append body rest (length body) refl)
      refl

next_frame :
    (type : ℕ) (body rest : List ℕ)
    → length body < 128 ^ 3
    → next_packet (frame type body ++ rest) ≡ packet type body rest
next_frame type body rest h =
    ap (λ zs. next_packet (type ∷ zs)) (append_assoc (encoding (length body)) body rest)
    ∙ next_scan type (encoding (length body) ++ (body ++ rest))
    ∙ ap (next_of type) (scan_encoding (length body) (body ++ rest) h)
    ∙ whole_body type body rest

next_large :
    (type : ℕ) (body rest : List ℕ)
    → 128 ^ 3 ≤ length body
    → length body < 128 ^ 4
    → next_packet (frame type body ++ rest) ≡ broken
unfolding next_of
next_large type body rest l h =
    ap (λ zs. next_packet (type ∷ zs)) (append_assoc (encoding (length body)) body rest)
    ∙ next_scan type (encoding (length body) ++ (body ++ rest))
    ∙ ap (next_of type) (scan_four (length body) (body ++ rest) l h)

-- Frames one behind the other, as type and body.
abbrev pub wire : List (ℕ × List ℕ) → List ℕ
wire [] = []
wire (f ∷ fs) = frame f.0 f.1 ++ wire fs

next_scan_nothing : next_packet [] ≡ waits
unfolding next_packet
next_scan_nothing = refl

module _ (atoll : List ℕ → ℤ) where
  -- The packets handled one after another; a DISCONNECT ends the session.
  pub handle_all : List (ℕ × List ℕ) → Peer → List ℕ × Peer
  handle_all [] p = ([], p)
  handle_all (f ∷ fs) p =
      let p' = handle_packet atoll f.0 f.1 p in
      let more = handle_all fs p' in if not p'.is_open then (wire fs, p') else more

  pub loop_frames :
      (fs : List (ℕ × List ℕ)) (n : ℕ) (p : Peer)
      → All (λ f. length f.1 < 128 ^ 3) fs
      → length (wire fs) ≤ n
      → process_loop atoll n (wire fs) p ≡ handle_all fs p
  unfolding process_loop handle_all process_next
  loop_frames [] zero p small h = refl
  loop_frames [] (suc n) p small h =
      ap (λ nx. process_next atoll (process_loop atoll n) nx [] p) (next_scan_nothing)
  loop_frames (f ∷ fs) zero p small h = absurd (omega arith)
  loop_frames (f ∷ fs) (suc n) p (s, small) h =
      let p' = handle_packet atoll f.0 f.1 p in
      ap (λ nx. process_next atoll (process_loop atoll n) nx (wire (f ∷ fs)) p)
        (next_frame f.0 f.1 (wire fs) s)
      ∙ ap (λ (o : List ℕ × Peer). if not p'.is_open then (wire fs, p') else o)
          (loop_frames fs n p' small (
            omega (
              arith,
              length-append (frame f.0 f.1) (wire fs),
              length-append (encoding (length f.1)) f.1,
            )))

  pub process-frame :
      (type : ℕ) (body : List ℕ) (p : Peer)
      → length body < 128 ^ 3
      → process atoll (frame type body) p ≡ ([], handle_packet atoll type body p)
  unfolding process handle_all
  process-frame type body p h =
      let p' = handle_packet atoll type body p in
      ap (λ zs. process_loop atoll (length zs) zs p) (sym (append-nil (frame type body)))
      ∙ loop_frames ((type, body) ∷ []) (length (frame type body ++ [])) p (h, tt) (omega arith)
      ∙ if_elim (λ (o : List ℕ × Peer). o ≡ ([], p')) (not p'.is_open) ([], p') ([], p') (λ _. refl)
          (λ _. refl)

  large_drops :
      (type : ℕ) (body rest : List ℕ) (p : Peer)
      → 128 ^ 3 ≤ length body
      → length body < 128 ^ 4
      → process atoll (frame type body ++ rest) p ≡ ([], framing_error p)
  unfolding process process_loop process_next
  large_drops type body rest p l h =
      let behind = encoding (length body) ++ body ++ rest in
      ap (λ nx. process_next atoll (process_loop atoll (length behind)) nx (type ∷ behind) p)
        (next_large type body rest l h)

  -- The broker handles exactly the packets that were serialized, in their order, up to a DISCONNECT,
  -- if each body has less than 128 ^ 3 bytes. A packet with a body of 128 ^ 3 bytes or more, whose
  -- length takes four bytes, which MQTT allows, is a framing error, and the buffer is dropped.
  pub process-wire :
      (fs : List (ℕ × List ℕ)) (type : ℕ) (body rest : List ℕ) (p : Peer)
      → All (λ f. length f.1 < 128 ^ 3) fs
      → 128 ^ 3 ≤ length body
      → length body < 128 ^ 4
      → (process atoll (wire fs) p ≡ handle_all fs p)
        × (process atoll (frame type body ++ rest) p ≡ ([], framing_error p))
  unfolding process
  process-wire fs type body rest p small l h =
      (loop_frames fs (length (wire fs)) p small (omega arith), large_drops type body rest p l h)

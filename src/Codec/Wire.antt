-- ===== src/Codec/Wire.antt =====
-- WriteFrame: what is on the wire after it, and that ReadFrame at the other end reads it back.
use esphome_apiclient.Common.{
  take-length, ℕ, zero, suc, ◌+◌, ◌^◌, ◌<◌, ◌≤◌, ◌≡◌, refl, ap, ◌∙◌, sym, ltb, none, some, Option,
}
use esphome_apiclient.Common.{
  List, [], ◌∷◌, ◌++◌, length, take, arith, append_assoc, append-nil, length-append,
}
use esphome_apiclient.Common.{lt→ltb, if◌then◌else◌}
use esphome_apiclient.Stream.{
  Result, ok, err, IoError, Sink, Reads, ◌>>◌, resume, return, connection, Arrivals,
}
use esphome_apiclient.Stream.Sinks.{Writes}
use esphome_apiclient.Stream.Chunks.{Delivers}
use esphome_apiclient.Codec.{write_frame, send, WriteError, answer, read_frame, max_message_size}
use esphome_apiclient.Codec.{
  message_too_large, preamble_unsent, size_unsent, type_unsent, payload_unsent,
}
use esphome_apiclient.Codec.Varint.{varint, put_uvarint-varint}
use esphome_apiclient.Codec.Frames.{frame, read_frame-frame, read_frame-frame_large}
use esphome_apiclient.Codec.Delivery.{read_frame-Delivers}
use mathlib.Core.List.{append_cancel_left}

take_prefix : (n : ℕ) (xs ys : List ℕ) → n ≤ length xs → take n (xs ++ ys) ≡ take n xs
take_prefix zero xs ys h = refl
take_prefix (suc n) [] ys h = absurd (omega arith)
take_prefix (suc n) (x ∷ xs) ys h = ap (λ t. x ∷ t) (take_prefix n xs ys (omega arith))

take_past : (n : ℕ) (xs ys : List ℕ) → take (length xs + n) (xs ++ ys) ≡ xs ++ take n ys
take_past n [] ys = let e : 0 + n ≡ n = omega arith in rw e
take_past n (x ∷ xs) ys =
    let e : suc (length xs) + n ≡ suc (length xs + n) = omega arith in
    rw e (ap (λ t. x ∷ t) (take_past n xs ys))

answer_ok : (f : IoError → WriteError) (r : Option IoError) → answer f r ≡ ok tt → r ≡ none
answer_ok f none h = refl
answer_ok f (some e) h = cc

module _ (K : Sink) (accepts : (bs : List ℕ) (s : K.State) → (K.write bs s).0 ≡ none) where
  open K use {State}

  send_ok : (f : IoError → WriteError) (bs : List ℕ) (s : State) → (send K f bs s).0 ≡ ok tt
  unfolding send
  send_ok f bs s = rw (accepts bs s)

  then_ok :
      (m k : Reads State WriteError (Unit {0})) (s : State)
      → (m s).0 ≡ ok tt
      → ((t : State) → (k t).0 ≡ ok tt)
      → ((m >> k) s).0 ≡ ok tt
  then_ok m k s h g = rw h (g (m s).1)

  payload_ok :
      (content : List ℕ) (f : IoError → WriteError) (s : State)
      → ((if ltb 0 (length content) then send K f content else return tt) s).0 ≡ ok tt
  payload_ok [] f s = refl
  payload_ok (x ∷ xs) f s = rw (lt→ltb 0 (length (x ∷ xs)) (omega arith)) (send_ok f (x ∷ xs) s)

  -- For a uint32 type and a payload of fewer than 2 ^ 63 bytes, WriteFrame over a writer that never
  -- fails returns no error: it does not panic, and has no other limit on the payload.
  pub write_frame_ok :
      (msg_type : ℕ) (content : List ℕ) (s : State)
      → msg_type < 2 ^ 32
      → length content < 2 ^ 63
      → (write_frame K msg_type content s).0 ≡ ok tt
  unfolding write_frame
  write_frame_ok msg_type content s ht hl =
      rw
        (
          put_uvarint-varint 9 (length content) (omega arith),
          put_uvarint-varint 9 msg_type (omega arith),
        )
        (then_ok (send K preamble_unsent (0 ∷ [])) _ s (send_ok _ _ s) λ s1.
          then_ok (send K size_unsent size) _ s1 (send_ok _ _ s1) λ s2.
            then_ok (send K type_unsent type) _ s2 (send_ok _ _ s2)
              λ s3. payload_ok content payload_unsent s3)
    where
      size : List ℕ
      size = varint 10 (length content)

      type : List ℕ
      type = varint 10 msg_type

module _ (K : Sink) (W : Writes K) where
  open K use {State, write}
  open W use {sent}

  -- A call that sends a prefix of `bs`, and all of it when it succeeds.
  abbrev Outcome : List ℕ → State → Result WriteError (Unit {0}) × State → Type 0
  Outcome bs s (r, s') =
      (n : ℕ) × (n ≤ length bs) × (sent s' ≡ sent s ++ take n bs) × (r ≡ ok tt → n ≡ length bs)

  send-Outcome : (f : IoError → WriteError) (bs : List ℕ) (s : State) → Outcome bs s (send K f bs s)
  unfolding send
  send-Outcome f bs s =
      (W.taken bs s, W.taken_le bs s, W.sent-write bs s, λ h. W.taken_all bs s (answer_ok f _ h))

  nothing_Outcome : (s : State) → Outcome [] s (ok tt, s)
  nothing_Outcome s = (0, omega arith, sym (append-nil (sent s)), λ _. refl)

  module _ (xs ys : List ℕ) (k : Reads State WriteError (Unit {0})) (s : State) where
    resume-Outcome :
        (r : Result WriteError (Unit {0})) (s' : State)
        → Outcome xs s (r, s')
        → ((t : State) → Outcome ys t (k t))
        → Outcome (xs ++ ys) s (resume (λ _. k) r s')
    resume-Outcome (err e) s' (n, le, eq, all) g = (
      n,
      omega (arith, length-append xs ys),
      eq ∙ ap (λ t. sent s ++ t) (sym (take_prefix n xs ys le)),
      λ h. cc,
    )
    resume-Outcome (ok u) s' (n, le, eq, all) g =
        let (n', le', eq', all') = g s' in
        let sent_xs : sent s' ≡ sent s ++ xs = eq ∙ rw (all refl, take-length) in
        (
          length xs + n',
          omega (arith, length-append xs ys),
          eq' ∙ rw (sent_xs, take_past, append_assoc),
          λ h. omega (arith, length-append xs ys, all' h),
        )

    then_Outcome :
        (m : Reads State WriteError (Unit {0}))
        → Outcome xs s (m s)
        → ((t : State) → Outcome ys t (k t))
        → Outcome (xs ++ ys) s ((m >> k) s)
    then_Outcome m h g = resume-Outcome (m s).0 (m s).1 h g

  payload_Outcome :
      (content : List ℕ) (f : IoError → WriteError) (s : State)
      → Outcome content s ((if ltb 0 (length content) then send K f content else return tt) s)
  payload_Outcome [] f s = nothing_Outcome s
  payload_Outcome (x ∷ xs) f s =
      rw (lt→ltb 0 (length (x ∷ xs)) (omega arith)) (send-Outcome f (x ∷ xs) s)

  -- For a uint32 type and a payload of fewer than 2 ^ 63 bytes, and a writer that does what io.Writer
  -- documents: whatever WriteFrame returns, the bytes that it has sent are a prefix of the frame, and
  -- the whole frame if it returns no error.
  pub write_frame-Outcome :
      (msg_type : ℕ) (content : List ℕ) (s : State)
      → msg_type < 2 ^ 32
      → length content < 2 ^ 63
      → (n : ℕ) × (n ≤ length (frame msg_type content))
        × (sent (write_frame K msg_type content s).1 ≡ sent s ++ take n (frame msg_type content))
        × ((write_frame K msg_type content s).0 ≡ ok tt → n ≡ length (frame msg_type content))
  unfolding write_frame
  write_frame-Outcome msg_type content s ht hl =
      rw
        (
          put_uvarint-varint 9 (length content) (omega arith),
          put_uvarint-varint 9 msg_type (omega arith),
        )
        (then_Outcome (0 ∷ []) _ _ s (send K preamble_unsent (0 ∷ []))
          (send-Outcome preamble_unsent (0 ∷ []) s)
          λ s1.
            then_Outcome size _ _ s1 (send K size_unsent size) (send-Outcome size_unsent size s1)
              λ s2.
                then_Outcome type _ _ s2 (send K type_unsent type)
                  (send-Outcome type_unsent type s2)
                  λ s3. payload_Outcome content payload_unsent s3)
    where
      size : List ℕ
      size = varint 10 (length content)

      type : List ℕ
      type = varint 10 msg_type

  written_frame :
      (msg_type : ℕ) (content new : List ℕ) (s : State)
      → msg_type < 2 ^ 32
      → length content < 2 ^ 63
      → (write_frame K msg_type content s).0 ≡ ok tt
      → sent (write_frame K msg_type content s).1 ≡ sent s ++ new
      → new ≡ frame msg_type content
  written_frame msg_type content new s ht hl done eq =
      let (n, le, wire, all) = write_frame-Outcome msg_type content s ht hl in
      append_cancel_left (sent s) _ _ (sym eq ∙ wire ∙ rw (all done, take-length))

  -- What a successful WriteFrame of a uint32 type and a payload of at most MaxMessageSize bytes has
  -- sent, delivered by a connection in chunks of any size but the empty one and followed by any bytes,
  -- is what ReadFrame returns, and the connection is left at the bytes that follow. The writer does
  -- what io.Writer documents.
  pub read_frame-write_frame :
      (msg_type : ℕ) (content new rest : List ℕ) (e : IoError) (s : State) (a : Arrivals)
      → msg_type < 2 ^ 32
      → length content ≤ max_message_size
      → (write_frame K msg_type content s).0 ≡ ok tt
      → sent (write_frame K msg_type content s).1 ≡ sent s ++ new
      → Delivers a (new ++ rest, e)
      → ((read_frame connection a).0 ≡ ok (msg_type, content))
        × Delivers (read_frame connection a).1 (rest, e)
  read_frame-write_frame msg_type content new rest e s a ht hl done eq d =
      rw
        (
          written_frame msg_type content new s ht (omega arith) done eq,
          read_frame-frame msg_type content rest e ht hl,
        )
        at (read_frame-Delivers a (new ++ rest, e) d)

  -- A payload above MaxMessageSize, of fewer than 2 ^ 63 bytes, is sent by a successful WriteFrame
  -- too, but ReadFrame refuses the frame when a connection delivers it, in chunks of any size but the
  -- empty one; it leaves the connection at the message type, inside the frame.
  pub read_frame-write_frame_large :
      (msg_type : ℕ) (content new rest : List ℕ) (e : IoError) (s : State) (a : Arrivals)
      → msg_type < 2 ^ 32
      → max_message_size < length content
      → length content < 2 ^ 63
      → (write_frame K msg_type content s).0 ≡ ok tt
      → sent (write_frame K msg_type content s).1 ≡ sent s ++ new
      → Delivers a (new ++ rest, e)
      → ((read_frame connection a).0 ≡ err message_too_large)
        × Delivers (read_frame connection a).1 (varint 10 msg_type ++ (content ++ rest), e)
  read_frame-write_frame_large msg_type content new rest e s a ht large hl done eq d =
      rw
        (
          written_frame msg_type content new s ht hl done eq,
          read_frame-frame_large msg_type content rest e large hl,
        )
        at (read_frame-Delivers a (new ++ rest, e) d)

-- ===== src/Noise/Frames.antt =====
-- transport/noise.go: ReadFrame at one end reads what WriteFrame at the other end has written.
use esphome_apiclient.Common.{
  take-length, ℕ, ◌+◌, ◌*◌, ◌/◌, ◌%◌, ◌^◌, ◌≤◌, ◌≡◌, refl, ap, ◌∙◌, sym, some, false, List, [], ◌∷◌,
  ◌++◌, length, ltb, nat_eq, if◌then◌else◌,
}
use esphome_apiclient.Common.{
  arith, append-nil, append_assoc, Bool-cases, Option-cases, inl, inr, le→ltb, lt→ltb, ltb→ge,
  le→leb, length-append, take-length_append, drop-length_append,
}
use esphome_apiclient.Stream.{
  Result, ok, err, IoError, Reads, resume, return, Sink, connection, Arrivals, buffer_full,
  read_full,
}
use esphome_apiclient.Stream.Sinks.{Writes}
use esphome_apiclient.Stream.Chunks.{Delivers, connection-Simulates}
use mathlib.Core.List.{append_cancel_left}
use mathlib.Core.Path.{subst}
use esphome_apiclient.Noise.{
  NoiseError, decrypt, encrypt_failed, Cipher, noise_max_frame_size, payload_unsent, header_unsent,
  payload_too_large, plaintext, send_bytes, write_noise_frame, noise_payload, read_noise_frame,
  parse_plaintext, noise_write_frame, noise_read_frame,
}

-- The frame of a payload.
abbrev pub noise_frame : List ℕ → List ℕ
noise_frame payload = 1 ∷ length payload / 256 % 256 ∷ length payload % 256 ∷ payload

module _ (K : Sink) (W : Writes K) where
  open W use {sent}

  send_bytes_sent :
      (f : IoError → NoiseError) (bs : List ℕ) (s : K.State)
      → (send_bytes K f bs s).0 ≡ ok tt
      → sent (send_bytes K f bs s).1 ≡ sent s ++ bs
  unfolding send_bytes
  send_bytes_sent f bs s h = elim (Option-cases (K.write bs s).0) [
    | inl e ↦ W.sent-write bs s ∙ rw (W.taken_all bs s e, take-length) refl
    | inr (x, e) ↦ absurd (let clash : err (f x) ≡ ok tt = rw e at h in cc)
  ]

  -- What two calls in a row have sent when both succeed.
  resume_sent :
      (r : Result NoiseError (Unit {0})) (k : Reads K.State NoiseError (Unit {0})) (s s' : K.State)
      (xs ys : List ℕ)
      → (r ≡ ok tt → sent s' ≡ sent s ++ xs)
      → ((t : K.State) → (k t).0 ≡ ok tt → sent (k t).1 ≡ sent t ++ ys)
      → (resume (λ _. k) r s').0 ≡ ok tt
      → sent (resume (λ _. k) r s').1 ≡ sent s ++ (xs ++ ys)
  resume_sent (ok u) k s s' xs ys first second h = second s' h ∙ rw (first refl, append_assoc) refl
  resume_sent (err x) k s s' xs ys first second h = cc

  rest_sent :
      (payload : List ℕ) (s : K.State)
      → ((if ltb 0 (length payload) then send_bytes K payload_unsent payload else return tt) s).0
        ≡ ok tt
      → sent
          ((if ltb 0 (length payload) then send_bytes K payload_unsent payload else return tt) s).1
        ≡ sent s ++ payload
  rest_sent [] s h = sym (append-nil (sent s))
  rest_sent (x ∷ xs) s h = rw (lt→ltb 0 (length (x ∷ xs)) (omega arith)) (
      send_bytes_sent payload_unsent (x ∷ xs) s
        (rw (lt→ltb 0 (length (x ∷ xs)) (omega arith)) at h))

  -- A writeNoiseFrame that succeeds has sent the frame of a payload that two bytes can count.
  write_noise_frame_sent :
      (payload : List ℕ) (s : K.State)
      → (write_noise_frame K payload s).0 ≡ ok tt
      → (length payload ≤ noise_max_frame_size)
        × (sent (write_noise_frame K payload s).1 ≡ sent s ++ noise_frame payload)
  unfolding write_noise_frame
  write_noise_frame_sent payload s h =
      elim (Bool-cases (ltb noise_max_frame_size (length payload))) [
        | inl large ↦ absurd (
            let clash : err (payload_too_large (length payload)) ≡ ok tt =
              rw (write_noise_frame, large) at h in
            cc)
        | inr fits ↦ (
          ltb→ge noise_max_frame_size (length payload) fits,
          rw (write_noise_frame, fits)
              (resume_sent (send_bytes K header_unsent header s).0 _ s
                (send_bytes K header_unsent header s).1 header payload
                (send_bytes_sent header_unsent header s) (rest_sent payload)
                (rw (write_noise_frame, fits) at h)),
        )
      ]
    where
      header : List ℕ
      header = 1 ∷ length payload / 256 % 256 ∷ length payload % 256 ∷ []

module _ (xs rest : List ℕ) (e : IoError) (a : Arrivals) where
  -- io.ReadFull of the bytes that a connection delivers first.
  read_full_first :
      Delivers a (xs ++ rest, e)
      → ((read_full (length xs) a).0 ≡ ok xs) × Delivers (read_full (length xs) a).1 (rest, e)
  unfolding buffer_full
  read_full_first d =
      rw
        (
          le→leb (length xs) (length (xs ++ rest)) (omega (arith, length-append xs rest)),
          take-length_append,
          drop-length_append,
        )
        at (connection-Simulates.fulls_agree (length xs) a (xs ++ rest, e) d)

noise_payload_first :
    (payload rest : List ℕ) (e : IoError) (a : Arrivals)
    → length payload ≤ noise_max_frame_size
    → Delivers a (payload ++ rest, e)
    → ((noise_payload connection (length payload) a).0 ≡ ok payload)
      × Delivers (noise_payload connection (length payload) a).1 (rest, e)
unfolding noise_payload
noise_payload_first [] rest e a fits d = (refl, d)
noise_payload_first (x ∷ xs) rest e a fits d =
    let (got, left) = read_full_first (x ∷ xs) rest e a d in
    let filled : nat_eq (length (x ∷ xs)) 0 ≡ false = ground arith in
    rw (noise_payload, filled, le→ltb noise_max_frame_size (length (x ∷ xs)) fits, got) (refl, left)

module _ (payload rest : List ℕ) (e : IoError) (a : Arrivals) where
  -- readNoiseFrame reads back the frame of such a payload and leaves what follows it.
  read_noise_frame-noise_frame :
      length payload ≤ noise_max_frame_size
      → Delivers a (noise_frame payload ++ rest, e)
      → ((read_noise_frame connection a).0 ≡ ok payload)
        × Delivers (read_noise_frame connection a).1 (rest, e)
  unfolding read_noise_frame noise_payload
  read_noise_frame-noise_frame fits d =
      let (got, left) =
        read_full_first (1 ∷ length payload / 256 % 256 ∷ length payload % 256 ∷ [])
          (payload ++ rest) e a d in
      let counted : length payload / 256 % 256 * 256 + length payload % 256 ≡ length payload =
        omega arith in
      rw (read_noise_frame, got, counted)
        (noise_payload_first payload rest e (read_full 3 a).1 fits left)

-- What CipherState documents of the two ends of one direction: while their nonces are in step, Decrypt
-- gives back what Encrypt was given, and they are in step again.
pub record Paired (E D : Cipher) (InStep : E.State → D.State → Type 0) : Type 0 where
  pub decrypts :
      (c c1 : E.State) (d : D.State) (text ciphertext : List ℕ)
      → InStep c d
      → E.apply text c ≡ (some ciphertext, c1)
      → (d1 : D.State) × (D.apply ciphertext d ≡ (some text, d1)) × InStep c1 d1

module _ (E D : Cipher) (InStep : E.State → D.State → Type 0) (pair : Paired E D InStep) (K : Sink)
    (W : Writes K) where
  open W use {sent}

  -- A WriteFrame that succeeds has encrypted its plaintext and sent the frame of the ciphertext.
  noise_write_frame_sent :
      (msg_type : ℕ) (content : List ℕ) (c : E.State) (k : K.State)
      → (noise_write_frame E K msg_type content (c, k)).0 ≡ ok tt
      → (ciphertext : List ℕ) × (E.apply (plaintext msg_type content) c
          ≡ (some ciphertext, (noise_write_frame E K msg_type content (c, k)).1.0))
        × (length ciphertext ≤ noise_max_frame_size)
        × (sent (noise_write_frame E K msg_type content (c, k)).1.1
            ≡ sent k ++ noise_frame ciphertext)
  unfolding noise_write_frame
  noise_write_frame_sent msg_type content c k h =
      elim (Option-cases (E.apply (plaintext msg_type content) c).0) [
        | inl failed ↦
            absurd
              (let clash : err encrypt_failed ≡ ok tt = rw (noise_write_frame, failed) at h in cc)
        | inr (ciphertext, e) ↦
            let (fits, wire) =
              write_noise_frame_sent K W ciphertext k (rw (noise_write_frame, e) at h) in
            rw (noise_write_frame, e) (ciphertext, refl, fits, wire)
      ]

  -- What a WriteFrame that succeeds has sent, delivered by a connection in chunks of any size but the
  -- empty one and followed by any bytes, is what ReadFrame returns at the other end, if the cipher
  -- states are in step and Decrypt then gives back what Encrypt was given: the content, and the low 16
  -- bits of the message type. The connection is left at the bytes that follow, and the cipher states
  -- are in step again. The writer does what io.Writer documents.
  pub noise_read_frame-noise_write_frame :
      (msg_type : ℕ) (content new rest : List ℕ) (e : IoError) (c : E.State) (d : D.State)
      (k : K.State) (a : Arrivals)
      → InStep c d
      → (noise_write_frame E K msg_type content (c, k)).0 ≡ ok tt
      → sent (noise_write_frame E K msg_type content (c, k)).1.1 ≡ sent k ++ new
      → Delivers a (new ++ rest, e)
      → ((noise_read_frame D connection (d, a)).0 ≡ ok (msg_type % 2 ^ 16, content))
        × Delivers (noise_read_frame D connection (d, a)).1.1 (rest, e)
        × InStep
            (noise_write_frame E K msg_type content (c, k)).1.0
            (noise_read_frame D connection (d, a)).1.0
  unfolding noise_read_frame decrypt parse_plaintext
  noise_read_frame-noise_write_frame msg_type content new rest e c d k a step done wire del =
      let (ciphertext, encrypted, fits, framed) =
        noise_write_frame_sent msg_type content c k done in
      let same : new ≡ noise_frame ciphertext =
        append_cancel_left (sent k) _ _ (sym wire ∙ framed) in
      let (got, left) = read_noise_frame-noise_frame ciphertext rest e a fits (rw same at del) in
      let (d1, decrypted, again) =
        pair.decrypts c _ d (plaintext msg_type content) ciphertext step encrypted in
      let enough : ltb (length (plaintext msg_type content)) 4 ≡ false =
        le→ltb (length (plaintext msg_type content)) 4 (omega arith) in
      rw (noise_read_frame, got, decrypt, decrypted, parse_plaintext, enough)
        (
          ap (λ t. ok (t, content)) (omega arith),
          left,
          subst (λ x. InStep (noise_write_frame E K msg_type content (c, k)).1.0 x)
              (sym (ap (λ r. r.1) decrypted)) again,
        )

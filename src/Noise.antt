-- ===== src/Noise.antt =====
-- transport/noise.go: the frames 0x01 | length | payload and the message inside the encrypted payload,
-- msg_type | msg_length | data, with lengths and types in two bytes. A CipherState of
-- github.com/flynn/noise is a parameter.
pub mod Frames
pub mod Handshake
pub mod Greeting
pub mod Answered
mod Tests
use esphome_apiclient.Common.{
  ℕ, zero, suc, ◌+◌, ◌*◌, ◌/◌, ◌%◌, Option, none, some, Bool, List, [], ◌∷◌, ◌++◌, length, drop,
  ltb, nat_eq, not, if◌then◌else◌,
}
use esphome_apiclient.Stream.{
  Result, ok, err, IoError, Reads, ◌>>=◌, ◌>>◌, return, fail, fail_if, wrapping, Source, Sink,
}

-- const noiseMaxFrameSize
abbrev pub noise_max_frame_size : ℕ
noise_max_frame_size = 65535

-- The errors of WriteFrame and ReadFrame, each with what its text says.
pub data NoiseError : Type 0 where
  payload_too_large frame_too_large too_short bad_preamble : ℕ → NoiseError
  header_unsent payload_unsent header_failed payload_failed : IoError → NoiseError
  plaintext_device encrypt_failed decrypt_failed : NoiseError

-- binary.BigEndian.PutUint16 of `uint16(x)`.
abbrev pub big_endian : ℕ → List ℕ
big_endian x = x / 256 % 256 ∷ x % 256 ∷ []

-- The element of a slice or an array whose length has been checked.
abbrev pub at_index : ℕ → List ℕ → ℕ
at_index i [] = 0
at_index zero (b ∷ bs) = b
at_index (suc i) (b ∷ bs) = at_index i bs

-- Encrypt, and Decrypt: a nonce is used up, or there is an error.
pub record Cipher : Type 1 where
  pub State : Type 0
  pub apply : List ℕ → State → Option (List ℕ) × State

module _ (K : Sink) where
  open K use {State, write}

  abbrev sent_or : (IoError → NoiseError) → Option IoError → Result NoiseError (Unit {0})
  sent_or f none = ok tt
  sent_or f (some e) = err (f e)

  unfoldable pub send_bytes : (IoError → NoiseError) → List ℕ → Reads State NoiseError (Unit {0})
  send_bytes f bs s = let (r, s') = write bs s in (sent_or f r, s')

  -- writeNoiseFrame
  unfoldable pub write_noise_frame : List ℕ → Reads State NoiseError (Unit {0})
  unfolding send_bytes
  write_noise_frame payload = do
    fail_if (ltb noise_max_frame_size (length payload)) (payload_too_large (length payload))
    send_bytes header_unsent (1 ∷ length payload / 256 % 256 ∷ length payload % 256 ∷ [])
    if ltb 0 (length payload) then send_bytes payload_unsent payload else return tt

module _ (S : Source) where
  open S use {State, read_full}

  abbrev preamble_error : ℕ → NoiseError
  preamble_error b = if nat_eq b 0 then plaintext_device else bad_preamble b

  abbrev header_length : List ℕ → ℕ
  header_length header = at_index 1 header * 256 + at_index 2 header

  -- The payload of readNoiseFrame; nil is the empty one.
  unfoldable pub noise_payload : ℕ → Reads State NoiseError (List ℕ)
  noise_payload n =
      if nat_eq n 0
      then return []
      else if ltb noise_max_frame_size n
      then fail (frame_too_large n)
      else wrapping payload_failed (read_full n)

  -- readNoiseFrame
  unfoldable pub read_noise_frame : Reads State NoiseError (List ℕ)
  unfolding noise_payload
  read_noise_frame = do
    header ← wrapping header_failed (read_full 3)
    fail_if (not (nat_eq (at_index 0 header) 1)) (preamble_error (at_index 0 header))
    noise_payload (header_length header)

-- The plaintext of WriteFrame, and what ReadFrame takes from it: the length inside is not looked at.
abbrev pub plaintext : ℕ → List ℕ → List ℕ
plaintext msg_type content = big_endian msg_type ++ (big_endian (length content) ++ content)

unfoldable pub parse_plaintext : {S : Type 0} → List ℕ → Reads S NoiseError (ℕ × List ℕ)
parse_plaintext text s =
    if ltb (length text) 4
    then (err (too_short (length text)), s)
    else (ok (at_index 0 text * 256 + at_index 1 text, drop 4 text), s)

-- NoiseTransport.WriteFrame and ReadFrame, over the cipher and the connection of their direction.
module _ (E : Cipher) where
  unfoldable pub noise_write_frame :
      (K : Sink) → ℕ → List ℕ → Reads (E.State × K.State) NoiseError (Unit {0})
  unfolding write_noise_frame
  noise_write_frame K msg_type content (c, k) =
      let (r, c') = E.apply (plaintext msg_type content) c in
      elim r [
        | none ↦ (err encrypt_failed, (c', k))
        | some ciphertext ↦ let (r', k') = write_noise_frame K ciphertext k in (r', (c', k'))
      ]

  unfoldable pub decrypt :
      {S : Type 0} → Result NoiseError (List ℕ) → Reads (E.State × S) NoiseError (ℕ × List ℕ)
  decrypt (err e) (c, s) = (err e, (c, s))
  decrypt (ok ciphertext) (c, s) =
      let (r, c') = E.apply ciphertext c in
      elim r [ none ↦ (err decrypt_failed, (c', s)) | some text ↦ parse_plaintext text (c', s) ]

  unfoldable pub noise_read_frame : (S : Source) → Reads (E.State × S.State) NoiseError (ℕ × List ℕ)
  unfolding read_noise_frame decrypt
  noise_read_frame S (c, s) = let (r, s') = read_noise_frame S s in decrypt r (c, s')

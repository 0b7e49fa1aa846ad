-- ===== src/Codec/Frames.antt =====
-- What ReadFrame answers on a frame, on a frame that is too large, and on any bytes.
use esphome_apiclient.Common.{ℕ, ◌^◌, ◌<◌, ◌≤◌, ◌≡◌, refl, ap, ltb}
use esphome_apiclient.Common.{List, [], ◌∷◌, ◌++◌, length, arith, append_assoc}
use esphome_apiclient.Common.{le→ltb, lt→ltb, le→leb, length-append, if◌then◌else◌}
use esphome_apiclient.Common.{take-length_append, drop-length_append}
use esphome_apiclient.Stream.{ok, err, IoError, buffer, buffer_byte, buffer_full}
use esphome_apiclient.Stream.{wrapping, return}
use esphome_apiclient.Codec.{read_frame, message_too_large, max_message_size, payload_failed}
use esphome_apiclient.Codec.Varint.{varint, read_uvarint-varint}

-- The bytes of a frame, after its preamble and as a whole.
abbrev pub body : ℕ → List ℕ → List ℕ
body msg_type content = varint 10 (length content) ++ (varint 10 msg_type ++ content)

abbrev pub frame : ℕ → List ℕ → List ℕ
frame msg_type content = 0 ∷ body msg_type content

-- io.ReadFull of exactly the bytes that stand first.
full-append :
    (xs rest : List ℕ) (e : IoError) → buffer_full (length xs) (xs ++ rest, e) ≡ (ok xs, (rest, e))
unfolding buffer_full
full-append xs rest e = rw (
  le→leb (length xs) (length (xs ++ rest)) (omega (arith, length-append xs rest)),
  take-length_append,
  drop-length_append,
)

read_payload :
    (xs rest : List ℕ) (e : IoError)
    → (if ltb 0 (length xs) then wrapping payload_failed (buffer_full (length xs)) else return [])
        (xs ++ rest, e)
      ≡ (ok xs, (rest, e))
read_payload [] rest e = refl
read_payload (x ∷ xs) rest e =
    rw (lt→ltb 0 (length (x ∷ xs)) (omega arith), full-append (x ∷ xs) rest e)

-- ReadFrame reads back the type and payload of a frame whose payload is within MaxMessageSize, and
-- leaves the bytes that follow it.
pub read_frame-frame :
    (msg_type : ℕ) (content rest : List ℕ) (e : IoError)
    → msg_type < 2 ^ 32
    → length content ≤ max_message_size
    → read_frame buffer (frame msg_type content ++ rest, e) ≡ (ok (msg_type, content), (rest, e))
unfolding read_frame buffer_byte
read_frame-frame msg_type content rest e ht hl =
    rw
      (
        append_assoc,
        append_assoc,
        read_uvarint-varint (length content) _ e (omega arith),
        le→ltb max_message_size (length content) hl,
        read_uvarint-varint msg_type _ e (omega arith),
        read_payload content rest e,
      )
      (ap (λ t. (ok (t, content), (rest, e))) (omega arith))

-- A frame whose payload is larger is refused before its type is read.
pub read_frame-frame_large :
    (msg_type : ℕ) (content rest : List ℕ) (e : IoError)
    → max_message_size < length content
    → length content < 2 ^ 63
    → read_frame buffer (frame msg_type content ++ rest, e)
      ≡ (err message_too_large, (varint 10 msg_type ++ (content ++ rest), e))
unfolding read_frame buffer_byte
read_frame-frame_large msg_type content rest e hl hf = rw (
  append_assoc,
  append_assoc,
  read_uvarint-varint (length content) _ e (omega arith),
  lt→ltb max_message_size (length content) hl,
)

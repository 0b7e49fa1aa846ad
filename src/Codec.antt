-- ===== src/Codec.antt =====
-- codec/codec.go: the plain frame 0x00 | varint(size) | varint(type) | payload, with the two functions
-- of encoding/binary that it calls. A byte is a number below 256, a uint64 one below 2 ^ 64. The
-- source is a parameter of `read_frame`, as the io.Reader is of ReadFrame.
pub mod Varint
pub mod Delivery
pub mod Frames
pub mod Wire
mod Tests
use esphome_apiclient.Common.{
  ℕ, zero, suc, ◌+◌, ◌-◌, ◌*◌, ◌/◌, ◌%◌, ◌^◌, ◌<◌, ◌≡◌, Option, none, some,
}
use esphome_apiclient.Common.{
  List, [], ◌∷◌, ◌++◌, length, ltb, nat_eq, not, ◌&&◌, if◌then◌else◌, Bool,
}
use esphome_apiclient.Stream.{
  Result, ok, err, IoError, eof, unexpected_eof, Reads, ◌>>=◌, ◌>>◌, return,
}
use esphome_apiclient.Stream.{fail, fail_if, wrap, wrapping, Source, Sink}

-- const MaxMessageSize
abbrev pub max_message_size : ℕ
max_message_size = 10 * 1024 * 1024

-- `byte(x) | 0x80` for a uint64 `x`.
abbrev pub continued : ℕ → ℕ
continued x = x % 128 + 128

-- binary.PutUvarint into a buffer with `room` bytes left. `none` is its index panic.
unfoldable pub put_uvarint : ℕ → ℕ → Option (List ℕ)
put_uvarint zero x = none
put_uvarint (suc room) x =
    let rest = put_uvarint room (x / 128) in
    if ltb x 128
    then some (x ∷ [])
    else elim rest [ none ↦ none | some bs ↦ some (continued x ∷ bs) ]

pub data VarintError : Type 0 where
  overflow : VarintError
  read_failed : IoError → VarintError

-- The error of binary.ReadUvarint when ReadByte fails in round `i`.
abbrev pub at_round : ℕ → IoError → IoError
at_round zero e = e
at_round (suc i) eof = unexpected_eof
at_round (suc i) e = e

-- The loop of binary.ReadUvarint, with the rounds left of MaxVarintLen64 = 10, the round `i`, the
-- value `x` so far and the shift `s`. The groups do not overlap, so `|` adds.
module _ (S : Source) where
  open S use {State, read_byte, read_full}

  pub uvarint_loop : ℕ → ℕ → ℕ → ℕ → Reads State VarintError ℕ
  uvarint_loop zero i x s = fail overflow
  uvarint_loop (suc rounds) i x s = do
    b ← wrapping (λ e. read_failed (at_round i e)) read_byte
    let more = uvarint_loop rounds (i + 1) (x + b % 128 * 2 ^ s) (s + 7)
    let last = if nat_eq i 9 && ltb 1 b then fail overflow else return (x + b * 2 ^ s)
    if ltb b 128 then last else more

  pub read_uvarint : Reads State VarintError ℕ
  read_uvarint = uvarint_loop 10 0 0 0

-- The errors of ReadFrame: those of the preamble are passed on as they are.
pub data FrameError : Type 0 where
  invalid_preamble message_too_large : FrameError
  preamble_failed payload_failed : IoError → FrameError
  size_failed type_failed : VarintError → FrameError

-- ReadFrame returns the message type and the payload; a nil payload is the empty one.
module _ (S : Source) where
  open S use {State, read_byte, read_full}

  pub read_frame : Reads State FrameError (ℕ × List ℕ)
  read_frame = do
    preamble ← wrapping preamble_failed read_byte
    fail_if (not (nat_eq preamble 0)) invalid_preamble
    size ← wrapping size_failed (read_uvarint S)
    fail_if (ltb max_message_size size) message_too_large
    m_type ← wrapping type_failed (read_uvarint S)
    body ← if ltb 0 size then wrapping payload_failed (read_full size) else return []
    return (m_type % 2 ^ 32, body)

-- The errors of WriteFrame; `index_panic` is no error value but the panic of PutUvarint.
pub data WriteError : Type 0 where
  preamble_unsent size_unsent type_unsent payload_unsent : IoError → WriteError
  index_panic : WriteError

abbrev pub or_panic : {S : Type 0} → Option (List ℕ) → Reads S WriteError (List ℕ)
or_panic none = fail index_panic
or_panic (some bs) = return bs

abbrev pub answer : (IoError → WriteError) → Option IoError → Result WriteError (Unit {0})
answer f none = ok tt
answer f (some e) = err (f e)

module _ (K : Sink) where
  open K use {State, write}

  unfoldable pub send : (IoError → WriteError) → List ℕ → Reads State WriteError (Unit {0})
  send f bs s = let (r, s') = write bs s in (answer f r, s')

  unfoldable pub write_frame : ℕ → List ℕ → Reads State WriteError (Unit {0})
  write_frame msg_type content = do
    send preamble_unsent (0 ∷ [])
    size ← or_panic (put_uvarint 10 (length content))
    send size_unsent size
    type ← or_panic (put_uvarint 10 msg_type)
    send type_unsent type
    if ltb 0 (length content) then send payload_unsent content else return tt

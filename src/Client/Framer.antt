-- ===== src/Client/Framer.antt =====
-- framer.go: the Framer interface, PlainFramer, which hands the frames to codec/codec.go, and NoiseFramer,
-- which hands them to the NoiseTransport of transport/noise.go after its handshake.
use esphome_apiclient.Common.{ℕ, Option, none, some, List}
use esphome_apiclient.Stream.{Result, ok, err, IoError, Reads, Source, Sink}
use esphome_apiclient.Noise.{NoiseError, Cipher, noise_write_frame, noise_read_frame}
use esphome_apiclient.Codec.{FrameError, WriteError, read_frame, write_frame}

-- The errors of the two framers.
pub data FramerError : Type 0 where
  plain_read : FrameError → FramerError
  plain_write : WriteError → FramerError
  noise_error : NoiseError → FramerError
  not_closed : IoError → FramerError

pub record Framer : Type 1 where
  pub State : Type 0
  pub write_frame : ℕ → List ℕ → Reads State FramerError (Unit {0})
  pub read_frame : Reads State FramerError (ℕ × List ℕ)
  pub close : State → Option FramerError × State

-- transport.Transport: both directions of one connection, and its Close.
pub record Transport : Type 1 where
  pub source : Source
  pub sink : Sink
  pub close : source.State × sink.State → Option IoError × (source.State × sink.State)

abbrev pub relabel : {E F A : Type 0} → (E → F) → Result E A → Result F A
relabel f (ok a) = ok a
relabel f (err e) = err (f e)

-- The methods of PlainFramer.
module _ (T : Transport) where
  abbrev pub PlainState : Type 0
  PlainState = T.source.State × T.sink.State

  unfoldable pub plain_write_frame : ℕ → List ℕ → Reads PlainState FramerError (Unit {0})
  plain_write_frame msg_type content (s, k) =
      let (r, k') = write_frame T.sink msg_type content k in (relabel plain_write r, (s, k'))

  unfoldable pub plain_read_frame : Reads PlainState FramerError (ℕ × List ℕ)
  plain_read_frame (s, k) = let (r, s') = read_frame T.source s in (relabel plain_read r, (s', k))

  unfoldable pub plain_close : PlainState → Option FramerError × PlainState
  plain_close s =
      let (r, s') = T.close s in (elim r [ none ↦ none | some e ↦ some (not_closed e) ], s')

  abbrev pub plain_framer : Framer
  plain_framer = record {
    State = PlainState;
    write_frame = plain_write_frame;
    read_frame = plain_read_frame;
    close = plain_close;
  }

-- The methods of NoiseFramer, over the ciphers of the two directions.
module _ (E D : Cipher) (T : Transport) where
  abbrev pub NoiseState : Type 0
  NoiseState = (E.State × D.State) × PlainState T

  unfoldable pub noise_write : ℕ → List ℕ → Reads NoiseState FramerError (Unit {0})
  noise_write msg_type content ((c, d), (s, k)) =
      let (r, (c', k')) = noise_write_frame E T.sink msg_type content (c, k) in
      (relabel noise_error r, ((c', d), (s, k')))

  unfoldable pub noise_read : Reads NoiseState FramerError (ℕ × List ℕ)
  noise_read ((c, d), (s, k)) =
      let (r, (d', s')) = noise_read_frame D T.source (d, s) in
      (relabel noise_error r, ((c, d'), (s', k)))

  unfoldable pub noise_close : NoiseState → Option FramerError × NoiseState
  noise_close (ciphers, s) =
      let (r, s') = T.close s in
      (elim r [ none ↦ none | some e ↦ some (not_closed e) ], (ciphers, s'))

  abbrev pub noise_framer : Framer
  noise_framer = record {
    State = NoiseState;
    write_frame = noise_write;
    read_frame = noise_read;
    close = noise_close;
  }

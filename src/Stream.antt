-- ===== src/Stream.antt =====
-- The Go interfaces that the codec and the noise transport read from and write to, io.Reader with
-- io.ByteReader and io.Writer, and the two readers that reach codec.ReadFrame (codec/codec.go):
-- a connection, whose bytes arrive in chunks of any size and which has no ReadByte of its own, so
-- that readByteReader wraps it, and a bytes.Buffer, which is an io.ByteReader already.
pub mod Cases
pub mod Chunks
pub mod Sinks
use esphome_apiclient.Common.{ℕ, zero, suc, ◌+◌, ◌-◌, ◌≤◌, ◌≡◌, ◌≢◌, Option, none, some, Bool}
use esphome_apiclient.Common.{List, [], ◌∷◌, ◌++◌, length, take, drop, leb, nat_eq, if◌then◌else◌}

-- A Go (value, error) pair.
pub data Result (E A : Type 0) : Type 0 where
  ok : A → Result E A
  err : E → Result E A

-- io.EOF, io.ErrUnexpectedEOF and every other error value, told apart by a number.
pub data IoError : Type 0 where
  eof unexpected_eof : IoError
  other : ℕ → IoError

-- A call that reads from a state `S` and may fail.
abbrev pub Reads : Type 0 → Type 0 → Type 0 → Type 0
Reads S E A = S → Result E A × S

abbrev pub resume : {S E A B : Type 0} → (A → Reads S E B) → Result E A → Reads S E B
resume f (ok a) s = f a s
resume f (err e) s = (err e, s)

infixl 5 ◌>>=◌ ◌>>◌
abbrev pub ◌>>=◌ : {S E A B : Type 0} → Reads S E A → (A → Reads S E B) → Reads S E B
◌>>=◌ m f s = let (r, s') = m s in resume f r s'

abbrev pub ◌>>◌ : {S E B : Type 0} → Reads S E (Unit {0}) → Reads S E B → Reads S E B
m >> k = m >>= λ _. k

abbrev pub return : {S E A : Type 0} → A → Reads S E A
return a s = (ok a, s)

abbrev pub fail : {S E A : Type 0} → E → Reads S E A
fail e s = (err e, s)

abbrev pub fail_if : {S E : Type 0} → Bool → E → Reads S E (Unit {0})
fail_if c e s = (if c then err e else ok tt, s)

-- `fmt.Errorf("...: %w", err)`
abbrev pub wrap : {E F A : Type 0} → (E → F) → Result E A → Result F A
wrap f (ok a) = ok a
wrap f (err e) = err (f e)

abbrev pub wrapping : {S E F A : Type 0} → (E → F) → Reads S E A → Reads S F A
wrapping f m s = let (r, s') = m s in (wrap f r, s')

-- What a reader offers: ReadByte and io.ReadFull.
pub record Source : Type 1 where
  pub State : Type 0
  pub read_byte : Reads State IoError ℕ
  pub read_full : ℕ → Reads State IoError (List ℕ)

-- The error of io.ReadFull when the reader stops with `e` after the bytes `got`.
abbrev pub short_read : List ℕ → IoError → IoError
short_read [] e = e
short_read (_ ∷ _) eof = unexpected_eof
short_read (_ ∷ _) e = e

-- A bytes.Buffer over the bytes left; `e` is what it answers when they are used up.
abbrev pub Buffer : Type 0
Buffer = List ℕ × IoError

unfoldable pub buffer_byte : Reads Buffer IoError ℕ
buffer_byte ([], e) = (err e, ([], e))
buffer_byte (b ∷ bs, e) = (ok b, (bs, e))

unfoldable pub buffer_full : ℕ → Reads Buffer IoError (List ℕ)
buffer_full n (bs, e) =
    if leb n (length bs) then (ok (take n bs), (drop n bs, e)) else (err (short_read bs e), ([], e))

abbrev pub buffer : Source
buffer = record { State = Buffer; read_byte = buffer_byte; read_full = buffer_full }

-- A connection: the chunks that are still to arrive, and the error after the last of them.
abbrev pub Arrivals : Type 0
Arrivals = List (List ℕ) × IoError

-- What is left of a chunk stays the next thing to read.
abbrev pub push : List ℕ → List (List ℕ) → List (List ℕ)
push [] cs = cs
push (b ∷ bs) cs = (b ∷ bs) ∷ cs

-- `Read` into a buffer of `n` bytes: one chunk at most, and never more than fits.
unfoldable pub read : ℕ → Arrivals → (List ℕ × Option IoError) × Arrivals
read n ([], e) = (([], some e), ([], e))
read n (c ∷ cs, e) = ((take n c, none), (push (drop n c) cs, e))

abbrev first_byte : List ℕ × Option IoError → Result IoError ℕ
first_byte (_, some e) = err e
first_byte ([], none) = err eof
first_byte (b ∷ _, none) = ok b

-- readByteReader.ReadByte
unfoldable pub read_byte : Reads Arrivals IoError ℕ
unfolding read
read_byte s = let (r, s') = read 1 s in (first_byte r, s')

-- The loop of io.ReadFull: `n` bytes are missing and `got` has been read. Each round is one `Read`,
-- which takes the whole chunk unless it holds more than is missing.
unfoldable pub full_loop : ℕ → List ℕ → List (List ℕ) → IoError → Result IoError (List ℕ) × Arrivals
full_loop zero got cs e = (ok got, (cs, e))
full_loop (suc n) got [] e = (err (short_read got e), ([], e))
full_loop (suc n) got (c ∷ cs) e =
    let more = full_loop (suc n - length c) (got ++ c) cs e in
    if leb (length c) (suc n) then more else (ok (got ++ take (suc n) c), (drop (suc n) c ∷ cs, e))

unfoldable pub read_full : ℕ → Reads Arrivals IoError (List ℕ)
unfolding full_loop
read_full n (cs, e) = full_loop n [] cs e

abbrev pub connection : Source
connection = record { State = Arrivals; read_byte = read_byte; read_full = read_full }

-- What a writer offers.
pub record Sink : Type 1 where
  pub State : Type 0
  pub write : List ℕ → State → Option IoError × State

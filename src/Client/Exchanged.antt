-- ===== src/Client/Exchanged.antt =====
-- client.go: SendMessage at one end of a plain connection, RecvMessage at the other.
use esphome_apiclient.Common.{
  ℕ, ◌≤◌, ◌<◌, ◌^◌, ◌≡◌, refl, ap, ◌∙◌, sym, Option, none, some, List, ◌++◌, length, nat_key,
  Option-cases, inl, inr,
}
use esphome_apiclient.Common.Maps.{lookup}
use esphome_apiclient.Stream.{Result, ok, err, IoError, Sink, Arrivals, connection}
use esphome_apiclient.Stream.Sinks.{Writes}
use esphome_apiclient.Stream.Chunks.{Delivers}
use esphome_apiclient.Codec.{write_frame, read_frame, max_message_size, WriteError}
use esphome_apiclient.Codec.Wire.{read_frame-write_frame}
use esphome_apiclient.Pb.Message.{Message, kind}
use esphome_apiclient.Pb.Registry.{message_registry}
use esphome_apiclient.Client.Framer.{
  Transport, PlainState, plain_framer, plain_write, relabel, plain_write_frame, plain_read_frame,
}
use esphome_apiclient.Client.State.{Client}
use esphome_apiclient.Client.Exchange.{
  Protobuf, marshal_failed, send_message, recv_message, decode, framer_failed,
}

-- proto.Unmarshal reads back what proto.Marshal wrote.
pub record Restores (P : Protobuf) : Type 0 where
  pub unmarshal-marshal :
      (m : Message) (bs : List ℕ) → P.marshal m ≡ some bs → P.unmarshal (kind m) bs ≡ some m

-- A transport whose input is a connection.
abbrev pub receiving :
    (k : Sink) → (Arrivals × k.State → Option IoError × (Arrivals × k.State)) → Transport
receiving k close = record { source = connection; sink = k; close = close }

relabel_ok :
    (r : Result WriteError (Unit {0}))
    → relabel framer_failed (relabel plain_write r) ≡ ok tt
    → r ≡ ok tt
relabel_ok (ok u) h = refl
relabel_ok (err e) h = cc

module _ (P : Protobuf) (T : Transport) {H : Type 0} where
  -- A SendMessage that succeeds has marshalled its message and written it as one frame.
  send_message_wrote :
      (m : Message) (t : ℕ) (c c1 : Client (PlainState T) H) (i : T.source.State) (o : T.sink.State)
      → c.framer ≡ some (i, o)
      → send_message P (plain_framer T) m t c ≡ (ok tt, c1)
      → (bs : List ℕ) × (P.marshal m ≡ some bs)
        × ((write_frame T.sink t bs o).0 ≡ ok tt)
        × (c1.framer ≡ some (i, (write_frame T.sink t bs o).1))
  unfolding send_message plain_write_frame
  send_message_wrote m t c c1 i o at_c done = elim (Option-cases (P.marshal m)) [
    | inl failed ↦ absurd (
        let clash : (err marshal_failed, c) ≡ (ok tt, c1) = rw (send_message, failed) at done in cc)
    | inr (bs, marshalled) ↦
        let wrote = rw (send_message, marshalled, at_c) at done in
        (bs, marshalled, relabel_ok _ (ap (λ r. r.0) wrote), sym (ap (λ r. r.1.framer) wrote))
  ]

module _ (P : Protobuf) (K : Sink)
    (close : Arrivals × K.State → Option IoError × (Arrivals × K.State)) {H : Type 0} where
  recv_message_frame :
      (m : Message) (t : ℕ) (bs : List ℕ) (d : Client (PlainState (receiving K close)) H)
      (a : Arrivals) (k : K.State)
      → d.framer ≡ some (a, k)
      → (read_frame connection a).0 ≡ ok (t, bs)
      → lookup t message_registry ≡ some (kind m)
      → P.unmarshal (kind m) bs ≡ some m
      → recv_message P (plain_framer (receiving K close)) d
        ≡ (ok (some m, t), record d { framer = some ((read_frame connection a).1, k) })
  unfolding recv_message plain_read_frame
  recv_message_frame m t bs d a k at_d frame known filled =
      rw (recv_message, at_d, plain_read_frame, frame, decode, known, filled) refl

module _ (P : Protobuf) (restores : Restores P) (T : Transport) (W : Writes T.sink) (K : Sink)
    (close : Arrivals × K.State → Option IoError × (Arrivals × K.State)) {H : Type 0} where
  open W use {sent}

  -- Where Unmarshal restores what Marshal wrote and the writer does what io.Writer documents: a
  -- message that SendMessage has sent without an error over a plain connection, under the uint32 id
  -- that the registry has for its type and with a marshalled form of at most MaxMessageSize bytes, is
  -- what RecvMessage returns at the other end, in whatever chunks but empty ones the connection
  -- delivers the bytes; the bytes that follow are left.
  pub recv_message-send_message :
      (m : Message) (t : ℕ) (c c1 : Client (PlainState T) H) (i i1 : T.source.State)
      (o o1 : T.sink.State) (new rest : List ℕ) (e : IoError) (a : Arrivals) (k : K.State)
      (d : Client (PlainState (receiving K close)) H)
      → lookup t message_registry ≡ some (kind m)
      → t < 2 ^ 32
      → ((bs : List ℕ) → P.marshal m ≡ some bs → length bs ≤ max_message_size)
      → c.framer ≡ some (i, o)
      → send_message P (plain_framer T) m t c ≡ (ok tt, c1)
      → c1.framer ≡ some (i1, o1)
      → sent o1 ≡ sent o ++ new
      → d.framer ≡ some (a, k)
      → Delivers a (new ++ rest, e)
      → (a1 : Arrivals) × Delivers a1 (rest, e)
        × (recv_message P (plain_framer (receiving K close)) d
            ≡ (ok (some m, t), record d { framer = some (a1, k) }))
  recv_message-send_message m t c c1 i i1 o o1 new rest e a k d known small fits at_c done at_c1
        wire at_d del =
      let (bs, marshalled, wrote, out) = send_message_wrote P T m t c c1 i o at_c done in
      let same : some (i, (write_frame T.sink t bs o).1) ≡ some (i1, o1) = sym out ∙ at_c1 in
      let end : (write_frame T.sink t bs o).1 ≡ o1 =
        ap (λ f. (elim f [ none ↦ o | some s ↦ s.1 ])) same in
      let (read, left) =
        read_frame-write_frame T.sink W t bs new rest e o a small (fits bs marshalled) wrote
          (ap sent end ∙ wire) del in
      (
        (read_frame connection a).1,
        left,
        recv_message_frame P K close m t bs d a k at_d read known
            (restores.unmarshal-marshal m bs marshalled),
      )

-- ===== src/Client/Exchange.antt =====
-- client.go: SendMessage and RecvMessage. What google.golang.org/protobuf does is a parameter.
use esphome_apiclient.Common.{
  ℕ, ◌≡◌, Option, none, some, List, nat_key, arith, Option-cases, inl, inr,
}
use esphome_apiclient.Common.Maps.{lookup}
use esphome_apiclient.Stream.{Result, ok, err, Reads, resume, ◌>>=◌}
use esphome_apiclient.Pb.Kind.{MessageKind}
use esphome_apiclient.Pb.Message.{Message, kind}
use esphome_apiclient.Pb.Registry.{message_registry}
use esphome_apiclient.Client.Framer.{Framer, FramerError, relabel}
use esphome_apiclient.Client.State.{Client}

-- proto.Marshal, and proto.Unmarshal into a new message of a type.
pub record Protobuf : Type 0 where
  pub marshal : Message → Option (List ℕ)
  pub unmarshal : MessageKind → List ℕ → Option Message

-- Unmarshal fills the message that it is given.
pub record Fills (P : Protobuf) : Type 0 where
  pub unmarshal_kind :
      (k : MessageKind) (bs : List ℕ) (m : Message) → P.unmarshal k bs ≡ some m → kind m ≡ k

-- `nil_framer` is no error value but the panic of a call on a nil Framer.
pub data MessageError : Type 0 where
  nil_framer unmarshalled : MessageError
  marshal_failed : MessageError
  framer_failed : FramerError → MessageError

abbrev pub kind? : Option Message → Option MessageKind
kind? none = none
kind? (some m) = some (kind m)

module _ (P : Protobuf) (F : Framer) {H : Type 0} where
  abbrev pub with_framer :
      {A : Type 0} → Reads F.State FramerError A → Reads (Client F.State H) MessageError A
  with_framer m c = elim c.framer [
    | none ↦ (err nil_framer, c)
    | some s ↦ let (r, s') = m s in (relabel framer_failed r, record c { framer = some s' })
  ]

  unfoldable pub send_message : Message → ℕ → Reads (Client F.State H) MessageError (Unit {0})
  send_message msg msg_type c = elim (P.marshal msg) [
    | none ↦ (err marshal_failed, c)
    | some bytes ↦ with_framer (F.write_frame msg_type bytes) c
  ]

  -- A type that the registry does not know gives no message and no error.
  unfoldable pub decode : ℕ × List ℕ → Reads (Client F.State H) MessageError (Option Message × ℕ)
  decode (msg_type, bytes) c = elim (lookup msg_type message_registry) [
    | none ↦ (ok (none, msg_type), c)
    | some k ↦ elim (P.unmarshal k bytes) [
      | none ↦ (err unmarshalled, c)
      | some m ↦ (ok (some m, msg_type), c)
    ]
  ]

  unfoldable pub recv_message : Reads (Client F.State H) MessageError (Option Message × ℕ)
  unfolding decode
  recv_message = do frame ← with_framer F.read_frame; decode frame

  module _ (fills : Fills P) where
    decode_kind :
        (f : ℕ × List ℕ) (c c' : Client F.State H) (m : Option Message) (t : ℕ)
        → decode f c ≡ (ok (m, t), c')
        → lookup t message_registry ≡ kind? m
    unfolding decode
    decode_kind (u, bytes) c c' m t h = elim (Option-cases (lookup u message_registry)) [
      | inl unknown ↦ ground arith
      | inr (k, known) ↦ elim (Option-cases (P.unmarshal k bytes)) [
        | inl failed ↦ ground arith
        | inr (n, filled) ↦ ground (arith, fills.unmarshal_kind k bytes n filled)
      ]
    ]

    resume_kind :
        (r : Result MessageError (ℕ × List ℕ)) (c c' : Client F.State H) (m : Option Message)
        (t : ℕ)
        → resume decode r c ≡ (ok (m, t), c')
        → lookup t message_registry ≡ kind? m
    resume_kind (ok f) c c' m t h = decode_kind f c c' m t h
    resume_kind (err e) c c' m t h = cc

    -- Where Unmarshal fills the message that it is given: a message that RecvMessage returns is of the
    -- type that the registry has for its id, and where it returns an id without a message, the
    -- registry does not have the id.
    pub recv_message-kind :
        (c c' : Client F.State H) (m : Option Message) (t : ℕ)
        → recv_message c ≡ (ok (m, t), c')
        → lookup t message_registry ≡ kind? m
    unfolding recv_message
    recv_message-kind c c' m t h = resume_kind _ _ c' m t h

-- ===== src/Calls/Incoming.antt =====
-- client.go: RecvMessage on a frame that ReadFrame has given, and the messages of a sequence of frames.
use esphome_apiclient.Common.{
  ℕ, ◌≡◌, refl, ap, ◌∙◌, sym, Option, none, some, List, [], ◌∷◌, nat_key, inl, inr, Option-cases,
}
use esphome_apiclient.Common.Maps.{lookup}
use esphome_apiclient.Stream.{ok, err}
use esphome_apiclient.Pb.Kind.{MessageKind}
use esphome_apiclient.Pb.Message.{Message}
use esphome_apiclient.Pb.Registry.{message_registry}
use esphome_apiclient.Client.Framer.{Framer, FramerError}
use esphome_apiclient.Client.State.{Client}
use esphome_apiclient.Client.Exchange.{Protobuf, unmarshalled, framer_failed, decode, recv_message}

-- The message of a frame: what Unmarshal gives for the registry's type of its id.
module _ (P : Protobuf) where
  unfoldable pub frame_message : ℕ × List ℕ → Option Message
  frame_message (t, bytes) = elim (lookup t message_registry) [
    | none ↦ none
    | some k ↦ P.unmarshal k bytes
  ]

  unfoldable pub messages : List (ℕ × List ℕ) → List (ℕ × Message)
  messages [] = []
  messages (f ∷ fs) = elim (frame_message f) [
    | none ↦ messages fs
    | some m ↦ (f.0, m) ∷ messages fs
  ]

  pub messages-some :
      (f : ℕ × List ℕ) (m : Message) (fs : List (ℕ × List ℕ))
      → frame_message f ≡ some m
      → messages (f ∷ fs) ≡ (f.0, m) ∷ messages fs
  unfolding messages
  messages-some (t, bytes) m fs e = rw (messages, e) refl

  pub messages-none :
      (f : ℕ × List ℕ) (fs : List (ℕ × List ℕ))
      → frame_message f ≡ none
      → messages (f ∷ fs) ≡ messages fs
  unfolding messages
  messages-none (t, bytes) fs e = rw (messages, e) refl

  -- A frame of an id that the registry does not know, one whose bytes are no message, and one with a message.
  pub data Frame : ℕ × List ℕ → Type 0 where
    unknown : {f : ℕ × List ℕ} → lookup f.0 message_registry ≡ none → Frame f
    broken :
        {f : ℕ × List ℕ} {k : MessageKind}
        → lookup f.0 message_registry ≡ some k
        → P.unmarshal k f.1 ≡ none
        → Frame f
    whole :
        {f : ℕ × List ℕ} {k : MessageKind} {m : Message}
        → lookup f.0 message_registry ≡ some k
        → P.unmarshal k f.1 ≡ some m
        → Frame f

  pub frame_kind : (f : ℕ × List ℕ) → Frame f
  frame_kind (t, bytes) = elim (Option-cases (lookup t message_registry)) [
    | inl unlisted ↦ unknown unlisted
    | inr (k, listed) ↦ elim (Option-cases (P.unmarshal k bytes)) [
      | inl failed ↦ broken listed failed
      | inr (m, filled) ↦ whole listed filled
    ]
  ]

  pub frame_message_unknown :
      (f : ℕ × List ℕ) → lookup f.0 message_registry ≡ none → frame_message f ≡ none
  unfolding frame_message
  frame_message_unknown (t, bytes) e = rw (frame_message, e) refl

  pub frame_message_broken :
      (f : ℕ × List ℕ) (k : MessageKind)
      → lookup f.0 message_registry ≡ some k
      → P.unmarshal k f.1 ≡ none
      → frame_message f ≡ none
  unfolding frame_message
  frame_message_broken (t, bytes) k listed failed = rw (frame_message, listed, failed) refl

  pub frame_message_whole :
      (f : ℕ × List ℕ) (k : MessageKind) (m : Message)
      → lookup f.0 message_registry ≡ some k
      → P.unmarshal k f.1 ≡ some m
      → frame_message f ≡ some m
  unfolding frame_message
  frame_message_whole (t, bytes) k m listed filled = rw (frame_message, listed, filled) refl

module _ (P : Protobuf) (F : Framer) {H : Type 0} where
  -- ReadFrame gives the client `c` the frame `f`, and `c1` is the client with the framer that it leaves.
  abbrev pub Incoming : Client F.State H → ℕ × List ℕ → Client F.State H → Type 0
  Incoming c f c1 =
      (s : F.State) × (s' : F.State) × (c.framer ≡ some s)
      × (F.read_frame s ≡ (ok f, s'))
      × (c1 ≡ record c { framer = some s' })

  read_frame-decode :
      (c : Client F.State H) (f : ℕ × List ℕ) (s s' : F.State)
      → c.framer ≡ some s
      → F.read_frame s ≡ (ok f, s')
      → recv_message P F c ≡ decode P F f (record c { framer = some s' })
  unfolding recv_message
  read_frame-decode c f s s' live came = rw (recv_message, live, came) refl

  pub recv_message-decode :
      (c c1 : Client F.State H) (f : ℕ × List ℕ)
      → Incoming c f c1
      → recv_message P F c ≡ decode P F f c1
  recv_message-decode c c1 f (s, s', live, came, left) =
      read_frame-decode c f s s' live came ∙ ap (decode P F f) (sym left)

  pub recv_message_failed :
      (c : Client F.State H) (s s' : F.State) (e : FramerError)
      → c.framer ≡ some s
      → F.read_frame s ≡ (err e, s')
      → (recv_message P F c).0 ≡ err (framer_failed e)
  unfolding recv_message
  recv_message_failed c s s' e live came = rw (recv_message, live, came) refl

  pub recv_message_unknown :
      (c c1 : Client F.State H) (f : ℕ × List ℕ)
      → Incoming c f c1
      → lookup f.0 message_registry ≡ none
      → recv_message P F c ≡ (ok (none, f.0), c1)
  unfolding decode
  recv_message_unknown c c1 (t, bytes) incoming e =
      recv_message-decode c c1 (t, bytes) incoming ∙ rw (decode, e) refl

  pub recv_message_broken :
      (c c1 : Client F.State H) (f : ℕ × List ℕ) (k : MessageKind)
      → Incoming c f c1
      → lookup f.0 message_registry ≡ some k
      → P.unmarshal k f.1 ≡ none
      → recv_message P F c ≡ (err unmarshalled, c1)
  unfolding decode
  recv_message_broken c c1 (t, bytes) k incoming listed e =
      recv_message-decode c c1 (t, bytes) incoming ∙ rw (decode, listed, e) refl

  pub recv_message_whole :
      (c c1 : Client F.State H) (f : ℕ × List ℕ) (k : MessageKind) (m : Message)
      → Incoming c f c1
      → lookup f.0 message_registry ≡ some k
      → P.unmarshal k f.1 ≡ some m
      → recv_message P F c ≡ (ok (some m, f.0), c1)
  unfolding decode
  recv_message_whole c c1 (t, bytes) k m incoming listed e =
      recv_message-decode c c1 (t, bytes) incoming ∙ rw (decode, listed, e) refl

-- ===== src/Calls/Reading.antt =====
-- client.go: readLoop over the frames of a connection, and the calls that wait meanwhile.
use esphome_apiclient.Common.{ℕ, ◌≡◌, refl, ap, ◌∙◌, sym, none, some, List, [], ◌∷◌, All, nat_key}
use esphome_apiclient.Common.Maps.{lookup}
use esphome_apiclient.Stream.{ok, err}
use mathlib.Core.List.{Permᴰ}
use mathlib.Core.Path.{subst}
use esphome_apiclient.Pb.Message.{Message, kind}
use esphome_apiclient.Pb.Registry.{message_registry}
use esphome_apiclient.Router.{dispatch}
use esphome_apiclient.Router.Registered.{IsValid, registered}
use esphome_apiclient.Pb.Kind.{MessageKind}
use esphome_apiclient.Client.Framer.{Framer, FramerError}
use esphome_apiclient.Client.State.{Client}
use esphome_apiclient.Client.Exchange.{Protobuf, Fills, framer_failed}
use esphome_apiclient.Calls.{Closure, World, run_all}
use esphome_apiclient.Calls.Frames.{mine}
use esphome_apiclient.Calls.Incoming.{
  Incoming, unknown, broken, whole, frame_kind, messages, messages-some, messages-none,
  frame_message_unknown, frame_message_broken, frame_message_whole, recv_message_failed,
}
use esphome_apiclient.Calls.Waiting.{Waits, still, arrival, elsewhere, Elsewhere}
use esphome_apiclient.Calls.Turns.{
  Turn, dispatches, skips, read_turn, Stops, failed-Stops, turn_skips, turn_dispatches, turn-Stops,
  dispatched-messages, skipped-messages, turn_router,
}

module _ (P : Protobuf) (F : Framer) where
  abbrev with_client : World F.State → Client F.State Closure → World F.State
  with_client w c = record w { client = c }

  -- The loop with what the rest of the client does meanwhile to other frames than `a`, and the frames that ReadFrame
  -- gives it.
  pub data Reading (a : ℕ) : List (ℕ × List ℕ) → World F.State → World F.State → Type 0 where
    pausing : {w : World F.State} → Reading a [] w w
    dispatching :
        {f : ℕ × List ℕ} {fs : List (ℕ × List ℕ)} {t : ℕ} {m : Message} {w w1 w2 : World F.State}
        {c c1 : Client F.State Closure} {hs : List Closure}
        → Incoming P F w.client f c1
        → read_turn P F w.client ≡ (dispatches t m, c)
        → Permᴰ hs (dispatch t c.router)
        → run_all hs m (with_client w c) ≡ ok w1
        → Reading a fs w1 w2
        → Reading a (f ∷ fs) w w2
    skipping :
        {f : ℕ × List ℕ} {fs : List (ℕ × List ℕ)} {w w2 : World F.State}
        {c c1 : Client F.State Closure}
        → Incoming P F w.client f c1
        → read_turn P F w.client ≡ (skips, c)
        → Reading a fs (with_client w c) w2
        → Reading a (f ∷ fs) w w2
    meanwhile :
        {fs : List (ℕ × List ℕ)} {w w1 w2 : World F.State}
        → Elsewhere a w w1
        → Reading a fs w1 w2
        → Reading a fs w w2

  -- The types that the registry knows, with a message of the type.
  abbrev pub IsTyped : ℕ × Message → Type 0
  IsTyped (t, m) = lookup t message_registry ≡ some (kind m)

  whole-IsTyped :
      Fills P
      → (f : ℕ × List ℕ) (k : MessageKind) (m : Message) → lookup f.0 message_registry ≡ some k
      → P.unmarshal k f.1 ≡ some m
      → IsTyped (f.0, m)
  whole-IsTyped fills f k m listed filled =
      listed ∙ ap some (sym (fills.unmarshal_kind k f.1 m filled))

  -- Where Unmarshal fills the message that it is given, the messages of frames are of the types that the registry has
  -- for their ids.
  pub messages-IsTyped : Fills P → (fs : List (ℕ × List ℕ)) → All IsTyped (messages P fs)
  unfolding messages
  messages-IsTyped fills [] = tt
  messages-IsTyped fills (f ∷ fs) = elim (frame_kind P f) [
    | unknown unlisted ↦
        subst (All IsTyped) (sym (messages-none P f fs (frame_message_unknown P f unlisted)))
          (messages-IsTyped fills fs)
    | broken listed failed ↦
        subst (All IsTyped) (sym (messages-none P f fs (frame_message_broken P f _ listed failed)))
          (messages-IsTyped fills fs)
    | whole {k = k} {m = m} listed filled ↦
        subst (All IsTyped)
          (sym (messages-some P f m fs (frame_message_whole P f k m listed filled)))
          (whole-IsTyped fills f k m listed filled, messages-IsTyped fills fs)
  ]

  same_router-Elsewhere :
      (a : ℕ) (w : World F.State) (c : Client F.State Closure)
      → c.router ≡ w.client.router
      → Elsewhere a w (with_client w c)
  same_router-Elsewhere a w c same = record {
    frame_kept = refl;
    closures_kept = λ t. ap (λ r. mine a (dispatch t r)) same;
    ids_kept = λ t id h o e. ap (λ r. registered t id r) same ∙ e;
    router_kept = λ v. subst IsValid (sym same) v;
  }

  turn-Elsewhere :
      (a : ℕ) (w : World F.State) (c : Client F.State Closure) (turn : Turn)
      → read_turn P F w.client ≡ (turn, c)
      → Elsewhere a w (with_client w c)
  turn-Elsewhere a w c turn e =
      same_router-Elsewhere a w c (ap (λ x. x.1.router) (sym e) ∙ turn_router P F w.client)

  read_all :
      (a : ℕ) (fs : List (ℕ × List ℕ)) (w w' : World F.State)
      → Reading a fs w w'
      → Waits a (messages P fs) w w'
  unfolding messages
  read_all a [] w w' pausing = still
  read_all a (f ∷ fs) w w'
        (dispatching {t = t} {m = m} {w1 = w1} {c = c} {c1 = c1} incoming turn order ran rest) =
      subst (λ ms. Waits a ms w w')
        (sym (dispatched-messages P F w.client c1 c f fs t m incoming turn))
        (elsewhere (turn-Elsewhere a w c (dispatches t m) turn)
          (arrival order ran (read_all a fs w1 w' rest)))
  read_all a (f ∷ fs) w w' (skipping {c = c} {c1 = c1} incoming turn rest) =
      subst (λ ms. Waits a ms w w') (sym (skipped-messages P F w.client c1 c f fs incoming turn))
        (elsewhere (turn-Elsewhere a w c skips turn) (read_all a fs (with_client w c) w' rest))
  read_all a fs w w' (meanwhile {w1 = w1} other rest) = elsewhere other (read_all a fs w1 w' rest)

  -- A run of the read loop hands to a call that waits the messages of all the frames that it was given, each under the
  -- frame's id and in order, whatever else happens meanwhile: the message that Unmarshal gives for the type that the
  -- registry has for the id, and none for a frame of an unknown id. After the run, the turn for the next frame
  -- dispatches its message under its id, or skips it when its id is unknown; where Unmarshal or ReadFrame fails, the
  -- turn ends the loop, with the client disconnected and its done channel closed.
  pub Reading-Waits :
      (a : ℕ) (fs : List (ℕ × List ℕ)) (w w' : World F.State)
      → Reading a fs w w'
      → Waits a (messages P fs) w w'
        × ((f : ℕ × List ℕ) (c : Client F.State Closure)
            → Incoming P F w'.client f c
            → ((k : MessageKind) (m : Message)
                → lookup f.0 message_registry ≡ some k
                → P.unmarshal k f.1 ≡ some m
                → read_turn P F w'.client ≡ (dispatches f.0 m, c))
              × (lookup f.0 message_registry ≡ none → read_turn P F w'.client ≡ (skips, c))
              × ((k : MessageKind)
                  → lookup f.0 message_registry ≡ some k
                  → P.unmarshal k f.1 ≡ none
                  → Stops P F w'.client))
        × ((s s' : F.State) (e : FramerError)
            → w'.client.framer ≡ some s
            → F.read_frame s ≡ (err e, s')
            → Stops P F w'.client)
  Reading-Waits a fs w w' run = (
    read_all a fs w w' run,
    (λ f c incoming. (
      (λ k m listed filled. turn_dispatches P F w'.client c f k m incoming listed filled),
      turn_skips P F w'.client c f incoming,
      (λ k listed failed. turn-Stops P F w'.client c f k incoming listed failed),
    )),
    (λ s s' e live failed.
        failed-Stops P F w'.client (framer_failed e)
          (recv_message_failed P F w'.client s s' e live failed)),
  )

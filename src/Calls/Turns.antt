-- ===== src/Calls/Turns.antt =====
-- client.go: a turn of readLoop, which receives a message and dispatches it or ends the loop.
use esphome_apiclient.Common.{
  ℕ, ◌≡◌, refl, ap, ◌∙◌, sym, Bool, true, false, Option, none, some, List, ◌∷◌, ltb, if◌then◌else◌,
  nat_key, inl, inr, Bool-cases,
}
use esphome_apiclient.Common.Maps.{lookup}
use esphome_apiclient.Stream.{Result, ok, err}
use esphome_apiclient.Pb.Message.{Message}
use esphome_apiclient.Pb.Registry.{message_registry}
use esphome_apiclient.Pb.Kind.{MessageKind}
use esphome_apiclient.Client.Framer.{Framer}
use esphome_apiclient.Client.State.{Client}
use esphome_apiclient.Client.Exchange.{Protobuf, MessageError, unmarshalled, recv_message}
use esphome_apiclient.Client.Greeting.{recv_SameBut}
use esphome_apiclient.Calls.{Closure}
use esphome_apiclient.Calls.Incoming.{
  Incoming, unknown, broken, whole, frame_kind, messages, messages-some, messages-none,
  frame_message_unknown, frame_message_whole, recv_message_unknown, recv_message_broken,
  recv_message_whole,
}

-- What a turn of the loop comes to: at the end, the callback that is called and whether reconnectLoop is started.
pub data Turn : Type 0 where
  dispatches : ℕ → Message → Turn
  skips : Turn
  stops : Option Closure → Bool → Turn

module _ (P : Protobuf) (F : Framer) where
  unfoldable pub lost : Client F.State Closure → Turn × Client F.State Closure
  lost c =
      let c1 : Client F.State Closure = record c { connected = false; done = true } in
      if c.cancelled
      then (stops none false, c1)
      else (stops c.on_disconnect (ltb 0 c.reconnect_interval), c1)

  abbrev turn_of :
      Result MessageError (Option Message × ℕ)
      → Client F.State Closure
      → Turn × Client F.State Closure
  turn_of (err e) c = lost c
  turn_of (ok (none, t)) c = (skips, c)
  turn_of (ok (some m, t)) c = (dispatches t m, c)

  unfoldable pub read_turn : Client F.State Closure → Turn × Client F.State Closure
  read_turn c = let (r, c1) = recv_message P F c in turn_of r c1

  -- The turn ends the loop, and leaves the client disconnected with its done channel closed.
  abbrev pub Stops : Client F.State Closure → Type 0
  Stops c =
      (f : Option Closure) × (again : Bool) × ((read_turn c).0 ≡ stops f again)
      × ((read_turn c).1.connected ≡ false)
      × ((read_turn c).1.done ≡ true)

  lost_stops :
      (c : Client F.State Closure)
      → (f : Option Closure) × (again : Bool) × ((lost c).0 ≡ stops f again)
        × ((lost c).1.connected ≡ false)
        × ((lost c).1.done ≡ true)
  unfolding lost
  lost_stops c = elim (Bool-cases c.cancelled) [
    | inl b ↦ rw (lost, b) (none, false, refl, refl, refl)
    | inr b ↦ rw (lost, b) (c.on_disconnect, ltb 0 c.reconnect_interval, refl, refl, refl)
  ]

  pub failed-Stops :
      (c : Client F.State Closure) (e : MessageError) → (recv_message P F c).0 ≡ err e → Stops c
  unfolding read_turn
  failed-Stops c e failed = rw (read_turn, failed) (lost_stops (recv_message P F c).1)

  pub turn_skips :
      (c c1 : Client F.State Closure) (f : ℕ × List ℕ)
      → Incoming P F c f c1
      → lookup f.0 message_registry ≡ none
      → read_turn c ≡ (skips, c1)
  unfolding read_turn
  turn_skips c c1 f incoming unlisted =
      rw (read_turn, recv_message_unknown P F c c1 f incoming unlisted) refl

  pub turn_dispatches :
      (c c1 : Client F.State Closure) (f : ℕ × List ℕ) (k : MessageKind) (m : Message)
      → Incoming P F c f c1
      → lookup f.0 message_registry ≡ some k
      → P.unmarshal k f.1 ≡ some m
      → read_turn c ≡ (dispatches f.0 m, c1)
  unfolding read_turn
  turn_dispatches c c1 f k m incoming listed filled =
      rw (read_turn, recv_message_whole P F c c1 f k m incoming listed filled) refl

  pub turn-Stops :
      (c c1 : Client F.State Closure) (f : ℕ × List ℕ) (k : MessageKind)
      → Incoming P F c f c1
      → lookup f.0 message_registry ≡ some k
      → P.unmarshal k f.1 ≡ none
      → Stops c
  turn-Stops c c1 f k incoming listed failed =
      failed-Stops c unmarshalled
        (ap (λ r. r.0) (recv_message_broken P F c c1 f k incoming listed failed))

  -- A turn that dispatches a message has it from its frame, and one that skips has a frame without a message.
  pub dispatched-messages :
      (c c1 c2 : Client F.State Closure) (f : ℕ × List ℕ) (fs : List (ℕ × List ℕ)) (t : ℕ)
      (m : Message)
      → Incoming P F c f c1
      → read_turn c ≡ (dispatches t m, c2)
      → messages P (f ∷ fs) ≡ (t, m) ∷ messages P fs
  dispatched-messages c c1 c2 f fs t m incoming e = elim (frame_kind P f) [
    | unknown unlisted ↦ absurd (
        let clash : skips ≡ dispatches t m =
          ap (λ x. x.0) (sym (turn_skips c c1 f incoming unlisted) ∙ e) in
        cc)
    | broken listed failed ↦
        let (g, again, is_end, _, _) = turn-Stops c c1 f _ incoming listed failed in
        absurd (let clash : stops g again ≡ dispatches t m = sym is_end ∙ ap (λ x. x.0) e in cc)
    | whole {k = k} {m = n} listed filled ↦
        let q : dispatches f.0 n ≡ dispatches t m =
          ap (λ x. x.0) (sym (turn_dispatches c c1 f k n incoming listed filled) ∙ e) in
        let same_type : f.0 ≡ t = cc in
        let same : n ≡ m = cc in
        messages-some P f n fs (frame_message_whole P f k n listed filled)
        ∙ ap (λ x. (x, n) ∷ messages P fs) same_type
        ∙ ap (λ x. (t, x) ∷ messages P fs) same
  ]

  pub skipped-messages :
      (c c1 c2 : Client F.State Closure) (f : ℕ × List ℕ) (fs : List (ℕ × List ℕ))
      → Incoming P F c f c1
      → read_turn c ≡ (skips, c2)
      → messages P (f ∷ fs) ≡ messages P fs
  skipped-messages c c1 c2 f fs incoming e = elim (frame_kind P f) [
    | unknown unlisted ↦ messages-none P f fs (frame_message_unknown P f unlisted)
    | broken listed failed ↦
        let (g, again, is_end, _, _) = turn-Stops c c1 f _ incoming listed failed in
        absurd (let clash : stops g again ≡ skips = sym is_end ∙ ap (λ x. x.0) e in cc)
    | whole {k = k} {m = n} listed filled ↦ absurd (
        let clash : dispatches f.0 n ≡ skips =
          ap (λ x. x.0) (sym (turn_dispatches c c1 f k n incoming listed filled) ∙ e) in
        cc)
  ]

  turn_of_router :
      (r : Result MessageError (Option Message × ℕ)) (c : Client F.State Closure)
      → (turn_of r c).1.router ≡ c.router
  unfolding lost
  turn_of_router (ok (none, t)) c = refl
  turn_of_router (ok (some m, t)) c = refl
  turn_of_router (err e) c = elim (Bool-cases c.cancelled) [
    | inl b ↦ rw (lost, b) refl
    | inr b ↦ rw (lost, b) refl
  ]

  pub turn_router : (c : Client F.State Closure) → (read_turn c).1.router ≡ c.router
  unfolding read_turn
  turn_router c =
      turn_of_router (recv_message P F c).0 (recv_message P F c).1
      ∙ ap (λ x. x.router) (recv_SameBut P F c)

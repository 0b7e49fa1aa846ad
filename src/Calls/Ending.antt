-- ===== src/Calls/Ending.antt =====
-- client.go: what Close leaves, for the read loop and for the methods.
use esphome_apiclient.Common.{
  ℕ, ◌+◌, ◌^◌, ◌<◌, ◌≡◌, ◌≢◌, refl, ap, ◌∙◌, sym, true, false, none, some, List, [], ◌∷◌, All,
  nat_key, nat_eq, nat_eq_iff, inl, inr, Option-cases, Bool-cases,
}
use esphome_apiclient.Stream.{Result, ok, err}
use esphome_apiclient.Pb.Kind.{MessageKind}
use esphome_apiclient.Pb.Message.{Message, Fields, kind}
use esphome_apiclient.Pb.Registry.{message_registry}
use esphome_apiclient.Client.Framer.{Framer}
use esphome_apiclient.Client.State.{Client}
use esphome_apiclient.Client.Exchange.{Protobuf, MessageError, recv_message}
use esphome_apiclient.Client.Greeting.{recv_SameBut}
use esphome_apiclient.Calls.{Closure, World}
use esphome_apiclient.Calls.Calling.{IsReady}
use esphome_apiclient.Calls.Requests.{first, RequestResponse-first}
use esphome_apiclient.Calls.Methods.{
  close, DeviceInfo, MethodError, unanswered, wrong_response, device_info_of, device_info?,
}
use esphome_apiclient.Calls.Turns.{stops, read_turn, lost}
use esphome_apiclient.Calls.Reading.{IsTyped}

first-IsTyped :
    (P : Protobuf) (F : Framer) (t : ℕ) (ms : List (ℕ × Message)) (m : Message)
    → All (IsTyped P F) ms
    → first t ms ≡ some m
    → IsTyped P F (t, m)
first-IsTyped P F t [] m typed e = absurd (let clash : none ≡ some m = e in cc)
first-IsTyped P F t ((u, n) ∷ ms) m (this, rest) e = elim (Bool-cases (nat_eq t u)) [
  | inl b ↦
      let type : t ≡ u = (nat_eq_iff t u).0 b in
      let q : some n ≡ some m = rw b at e in let same : n ≡ m = cc in rw (type, ← same) this
  | inr b ↦ first-IsTyped P F t ms m rest (rw b at e)
]

device_info_kind :
    (m : Message)
    → kind m ≡ MessageKind.device_info_response
    → (i : Fields) × (device_info? m ≡ some i)
unfolding kind
device_info_kind (Message.device_info_response i) e = (i, refl)
device_info_kind _ e = cc

module _ (P : Protobuf) (F : Framer) where
  typed_kind : (m : Message) → IsTyped P F (10, m) → kind m ≡ MessageKind.device_info_response
  unfolding message_registry
  typed_kind m e = let q : some MessageKind.device_info_response ≡ some (kind m) = e in cc

  -- In a client whose router is valid, has ids left, and has no closure of the frame that the call
  -- is given, where every message that was dispatched is of the type of the registry: the type
  -- assertion of DeviceInfo does not panic.
  pub DeviceInfo-IsTyped :
      (w : World F.State) (ms : List (ℕ × Message)) (r : Result MethodError Fields)
      (w' : World F.State)
      → IsReady w
      → w.client.router.next_id + 1 < 2 ^ 64
      → All (IsTyped P F) ms
      → DeviceInfo P F w ms r w'
      → r ≢ err wrong_response
  unfolding DeviceInfo
  DeviceInfo-IsTyped w ms r w' ready room typed (err e, run, same) p =
      let clash : err (unanswered e) ≡ err wrong_response = sym same ∙ p in cc
  DeviceInfo-IsTyped w ms r w' ready room typed (ok m, run, same) p =
      let (closed, value) =
        RequestResponse-first P F (Message.device_info_request []) 9 10 w ms (ok m) w' ready room
          run in
      let (i, is_info) =
        device_info_kind m (typed_kind m (first-IsTyped P F 10 ms m typed (value m refl))) in
      let fine : r ≡ ok i = rw (device_info_of, is_info) at same in
      let clash : ok i ≡ err wrong_response = sym fine ∙ p in cc

  closed_close : (c : Client F.State Closure) → c.closed ≡ true → close P F c ≡ (none, c)
  unfolding close
  closed_close c e = rw (close, e) refl

  close_state :
      (c : Client F.State Closure)
      → (c.closed ≡ true → c.cancelled ≡ true)
      → ((close P F c).1.closed ≡ true) × ((close P F c).1.cancelled ≡ true)
  unfolding close
  close_state c closed = elim (Bool-cases c.closed) [
    | inl b ↦
        let same = closed_close c b in
        (ap (λ x. x.1.closed) same ∙ b, ap (λ x. x.1.cancelled) same ∙ closed b)
    | inr b ↦ elim (Option-cases c.framer) [
      | inl unset ↦ rw (close, b, unset) (refl, refl)
      | inr (s, some_framer) ↦ rw (close, b, some_framer) (refl, refl)
    ]
  ]

  lost_cancelled :
      (c : Client F.State Closure) → c.cancelled ≡ true → (lost P F c).0 ≡ stops none false
  unfolding lost
  lost_cancelled c e = rw (lost, e) refl

  -- In a client that is cancelled if it is closed: after Close, a second Close does nothing, and when the read loop
  -- cannot receive a message any more, it stops without calling the user's function and without reconnecting.
  pub read_turn-close :
      (c c1 : Client F.State Closure) (e : MessageError)
      → (c.closed ≡ true → c.cancelled ≡ true)
      → recv_message P F (close P F c).1 ≡ (err e, c1)
      → (close P F (close P F c).1 ≡ (none, (close P F c).1))
        × ((read_turn P F (close P F c).1).0 ≡ stops none false)
  unfolding read_turn
  read_turn-close c c1 e closed received =
      let (is_closed, is_cancelled) = close_state c closed in
      let kept : c1.cancelled ≡ (close P F c).1.cancelled =
        ap (λ x. x.cancelled) (rw received at (recv_SameBut P F (close P F c).1)) in
      (
        closed_close (close P F c).1 is_closed,
        rw (read_turn, received) (lost_cancelled c1 (kept ∙ is_cancelled)),
      )

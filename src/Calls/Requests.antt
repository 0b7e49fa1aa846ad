-- ===== src/Calls/Requests.antt =====
-- client.go and bluetooth.go: requestResponse, and the methods that are a call of it.
use esphome_apiclient.Common.{
  ℕ, ◌+◌, ◌^◌, ◌<◌, ◌≡◌, refl, ap, ◌∙◌, sym, true, Option, none, some, List, [], ◌∷◌, nat_key,
  nat_eq, nat_eq_iff, Bool-cases, inl, inr, if◌then◌else◌,
}
use esphome_apiclient.Stream.{Result, ok}
use esphome_apiclient.Pb.Message.{Message}
use esphome_apiclient.Router.{dispatch}
use esphome_apiclient.Client.Framer.{Framer}
use esphome_apiclient.Client.Exchange.{Protobuf}
use esphome_apiclient.Calls.{answers, Frame, waiting, World, local}
use esphome_apiclient.Calls.Frames.{mine}
use esphome_apiclient.Calls.Waiting.{Waits, reacts}
use esphome_apiclient.Calls.Calling.{Call, Called, Failure, Sound, IsReady, open_call, close_call}
use esphome_apiclient.Calls.Calling.Outcome.{Called-result, Called-ready}
use esphome_apiclient.Calls.Orders.{order-Sound, same_order}

abbrev pub request_call : Message → ℕ → ℕ → Call
request_call request request_type response_type = record {
  start = waiting none;
  claims = λ a. (response_type, answers a) ∷ [];
  request = request;
  request_type = request_type;
  order = λ ids. ids;
}

-- `resp := <-ch`
abbrev pub response : Frame → Option Message
response (waiting m) = m
response _ = none

-- The first of the messages with a type.
abbrev pub first : ℕ → List (ℕ × Message) → Option Message
first t [] = none
first t ((u, m) ∷ ms) = if nat_eq t u then some m else first t ms

pub request_call-Sound : (q : Message) (qt rt a : ℕ) → Sound (request_call q qt rt) a
request_call-Sound q qt rt a =
    let here : nat_eq a a ≡ true = (nat_eq_iff a a).1 refl in
    order-Sound (request_call q qt rt) a (tt, tt) (here, tt) same_order

kept_first :
    (rt a : ℕ) (ms : List (ℕ × Message)) (m : Message)
    → reacts ((rt, answers a) ∷ []) ms (waiting (some m)) ≡ ok (waiting (some m))
unfolding local
kept_first rt a [] m = refl
kept_first rt a ((t, n) ∷ ms) m = elim (Bool-cases (nat_eq rt t)) [
  | inl e ↦ rw (reacts, e) (kept_first rt a ms m)
  | inr e ↦ rw (reacts, e) (kept_first rt a ms m)
]

reacts-first :
    (rt a : ℕ) (ms : List (ℕ × Message))
    → reacts ((rt, answers a) ∷ []) ms (waiting none) ≡ ok (waiting (first rt ms))
unfolding local
reacts-first rt a [] = refl
reacts-first rt a ((t, n) ∷ ms) = elim (Bool-cases (nat_eq rt t)) [
  | inl e ↦ rw (reacts, e) (kept_first rt a ms n)
  | inr e ↦ rw (reacts, e) (reacts-first rt a ms)
]

module _ (P : Protobuf) (F : Framer) where
  -- A run of requestResponse.
  abbrev pub RequestResponse :
      Message
      → ℕ
      → ℕ
      → World F.State
      → List (ℕ × Message)
      → Result Failure Message
      → World F.State
      → Type 0
  RequestResponse q qt rt w ms r w' = Called P F (request_call q qt rt) response w ms r w'

  -- In a client whose router is valid, has ids left, and has no closure of the frame that the call
  -- is given: however requestResponse ends, its handler is no longer in the router. A message that
  -- it returns is the first one of the response type that was dispatched while it waited, whatever
  -- else the client did in between.
  pub RequestResponse-first :
      (q : Message) (qt rt : ℕ) (w : World F.State) (ms : List (ℕ × Message))
      (r : Result Failure Message) (w' : World F.State)
      → IsReady w
      → w.client.router.next_id + 1 < 2 ^ 64
      → RequestResponse q qt rt w ms r w'
      → ((t : ℕ) → mine w.next_frame (dispatch t w'.client.router) ≡ [])
        × ((m : Message) → r ≡ ok m → first rt ms ≡ some m)
  RequestResponse-first q qt rt w ms r w' ready room run =
      let sound = request_call-Sound q qt rt w.next_frame in
      let (closed, value) =
        Called-result P F (request_call q qt rt) w sound ready room response ms r w' run in
      (
        closed,
        (λ m e.
            let (f, did, is_ready) = value m e in
            let q : ok (waiting (first rt ms)) ≡ ok f =
              sym (reacts-first rt w.next_frame ms) ∙ did in
            let same : waiting (first rt ms) ≡ f = cc in ap response same ∙ is_ready),
      )

  -- In a client whose router is valid, has ids left, and has no closure of the frame that the call
  -- is given: once SendMessage has succeeded and a message of the response type has been
  -- dispatched, requestResponse can return, and what it returns is the first such message.
  pub RequestResponse-answered :
      (q : Message) (qt rt : ℕ) (w : World F.State) (ids : List (ℕ × ℕ)) (ms : List (ℕ × Message))
      (w1 w2 : World F.State) (m : Message)
      → IsReady w
      → w.client.router.next_id + 1 < 2 ^ 64
      → open_call P F (request_call q qt rt) w ≡ (ok ids, w1)
      → Waits w.next_frame ms w1 w2
      → first rt ms ≡ some m
      → RequestResponse q qt rt w ms (ok m) (close_call P F ids w2)
  RequestResponse-answered q qt rt w ids ms w1 w2 m ready room begun waits arrived =
      Called-ready P F (request_call q qt rt) w (request_call-Sound q qt rt w.next_frame) ready room
        response ids ms w1 w2 (waiting (some m)) m begun waits
        (reacts-first rt w.next_frame ms ∙ ap (λ x. ok (waiting x)) arrived) refl

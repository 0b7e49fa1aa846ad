-- ===== src/Calls/Calling.antt =====
-- The shape of the calls that wait for the device: register closures, send a request, wait for what the closures
-- write, a timeout or the end of the connection, and remove the closures again.
pub mod Outcome
use esphome_apiclient.Common.{ℕ, suc, ◌≡◌, true, false, Option, some, List, [], nat_key}
use esphome_apiclient.Common.Maps.{lookup, insert}
use esphome_apiclient.Stream.{Result, ok, err}
use esphome_apiclient.Pb.Message.{Message}
use esphome_apiclient.Router.{Router, dispatch}
use esphome_apiclient.Router.Registered.{IsValid}
use esphome_apiclient.Client.Framer.{Framer}
use esphome_apiclient.Client.Exchange.{Protobuf, MessageError, send_message}
use esphome_apiclient.Client.States.{Apart, member, remove_all}
use esphome_apiclient.Calls.{Closure, Frame, World}
use esphome_apiclient.Calls.Frames.{mine}
use esphome_apiclient.Calls.Waiting.{Waits, claimed}
use esphome_apiclient.Calls.Registering.{register_claims, types, Issued, AllOwn}

-- Why a call returns an error.
pub data Failure : Type 0 where
  unsent : MessageError → Failure
  timed_out client_closed : Failure

-- A call by what differs: the frame at its start, the closures by type, the request, and the order in which
-- the registrations are removed.
pub record Call : Type 0 where
  pub start : Frame
  pub claims : ℕ → List (ℕ × Closure)
  pub request : Message
  pub request_type : ℕ
  pub order : List (ℕ × ℕ) → List (ℕ × ℕ)

-- Frames are allocated in order, and no closure has one that is not allocated.
pub record IsReady {S : Type 0} (w : World S) : Type 0 where
  pub router : IsValid w.client.router
  pub unused : (t : ℕ) → mine w.next_frame (dispatch t w.client.router) ≡ []

module _ (P : Protobuf) (F : Framer) where
  abbrev pub close_call : List (ℕ × ℕ) → World F.State → World F.State
  close_call ids w = record w {
    client = record w.client { router = remove_all ids w.client.router };
  }

  -- Up to the wait: the world with the request sent and the registrations, or the error of SendMessage after
  -- the deferred removals.
  unfoldable pub open_call :
      Call → World F.State → Result MessageError (List (ℕ × ℕ)) × World F.State
  unfolding register_claims
  open_call c w =
      let (router, ids) = register_claims (c.claims w.next_frame) w.client.router in
      let (r, client) =
        send_message P F c.request c.request_type (record w.client { router = router }) in
      let w1 : World F.State = record w {
        client = client;
        frames = insert w.next_frame c.start w.frames;
        next_frame = suc w.next_frame;
      } in
      elim r [ err e ↦ (err e, close_call (c.order ids) w1) | ok u ↦ (ok ids, w1) ]

  -- The `select` at the end: a value that is ready, the timer at any time, or the end of the connection.
  pub data Ends {A : Type 0} (ready : Frame → Option A) (a : ℕ) (w : World F.State)
      : Result Failure A → Type 0 where
    received :
        {f : Frame} {x : A} → lookup a w.frames ≡ some f → ready f ≡ some x → Ends ready a w (ok x)
    late : Ends ready a w (err timed_out)
    gone : w.client.done ≡ true → Ends ready a w (err client_closed)

  -- A call from beginning to end, with the messages that arrived while it waited.
  pub data Called {A : Type 0} (c : Call) (ready : Frame → Option A) (w : World F.State)
      : List (ℕ × Message) → Result Failure A → World F.State → Type 0 where
    not_sent :
        {e : MessageError} {w1 : World F.State}
        → open_call c w ≡ (err e, w1)
        → Called c ready w [] (err (unsent e)) w1
    returned :
        {ids : List (ℕ × ℕ)} {ms : List (ℕ × Message)} {w1 w2 : World F.State}
        {r : Result Failure A}
        → open_call c w ≡ (ok ids, w1)
        → Waits w.next_frame ms w1 w2
        → Ends ready w.next_frame w2 r
        → Called c ready w ms r (close_call (c.order ids) w2)

-- What makes the registrations of a call sound: no type twice, all for its frame, and all of them removed.
pub record Sound (c : Call) (a : ℕ) : Type 0 where
  pub apart : Apart (types (c.claims a))
  pub own : AllOwn a (c.claims a)
  pub order_apart :
      (ids : List (ℕ × ℕ)) → types ids ≡ types (c.claims a) → Apart (types (c.order ids))
  pub order_issued :
      (ids : List (ℕ × ℕ)) (r : Router Closure)
      → types ids ≡ types (c.claims a)
      → Issued a ids r
      → Issued a (c.order ids) r
  pub order_covers :
      (ids : List (ℕ × ℕ)) (t : ℕ)
      → types ids ≡ types (c.claims a)
      → member t (types (c.order ids)) ≡ false
      → claimed t (c.claims a) ≡ []

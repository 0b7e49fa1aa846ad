-- ===== src/Calls/Tests/Requests.antt =====
-- client.go: a ping that is answered.
use esphome_apiclient.Common.{ℕ, ◌≡◌, refl, some, [], ◌∷◌, nat_key, arith}
use esphome_apiclient.Stream.{Result, ok}
use esphome_apiclient.Pb.Message.{Message}
use esphome_apiclient.Router.{new_router, on, dispatch}
use esphome_apiclient.Client.State.{new_client}
use esphome_apiclient.Client.Exchange.{send_message}
use esphome_apiclient.Calls.{waiting, local, global, run_closure, run_all}
use esphome_apiclient.Calls.Frames.{mine}
use esphome_apiclient.Calls.Waiting.{Waits}
use esphome_apiclient.Calls.Registering.{register_claims}
use esphome_apiclient.Calls.Calling.{Call, Failure, open_call, close_call}
use esphome_apiclient.Calls.Requests.{
  request_call, RequestResponse, first, RequestResponse-first, RequestResponse-answered,
}
use esphome_apiclient.Calls.Tests.{anything, silent, idle, idle-IsReady, opened, framed, arrived}

abbrev ping_request : Message
ping_request = Message.ping_request []

abbrev ping_response : Message
ping_response = Message.ping_response (42 ∷ [])

abbrev ping_call : Call
ping_call = request_call ping_request 7 8

pong_arrived :
    Waits 0
      ((8, ping_response) ∷ [])
      (opened ping_call)
      (framed ping_call (waiting (some ping_response)))
unfolding open_call register_claims send_message on dispatch run_all run_closure global local
    new_client new_router
pong_arrived =
    arrived 8 ping_response (opened ping_call) (framed ping_call (waiting (some ping_response)))
      refl

RequestResponse-answered_example :
    RequestResponse anything silent ping_request 7 8 idle
      ((8, ping_response) ∷ [])
      (ok ping_response)
      (close_call anything silent ((8, 1) ∷ []) (framed ping_call (waiting (some ping_response))))
unfolding open_call register_claims send_message on new_client new_router
RequestResponse-answered_example =
    RequestResponse-answered anything silent ping_request 7 8 idle ((8, 1) ∷ [])
      ((8, ping_response) ∷ []) (opened ping_call) (framed ping_call (waiting (some ping_response)))
      ping_response idle-IsReady (omega arith) refl pong_arrived refl

abbrev ponged : Result Failure Message
ponged = ok ping_response

RequestResponse-first_example :
    ((t : ℕ)
      → mine 0 (
          dispatch t
            (close_call anything silent
              ((8, 1) ∷ [])
              (framed ping_call (waiting (some ping_response)))).client.router)
        ≡ [])
    × ((m : Message) → ponged ≡ ok m → first 8 ((8, ping_response) ∷ []) ≡ some m)
unfolding new_client new_router
RequestResponse-first_example =
    RequestResponse-first anything silent ping_request 7 8 idle ((8, ping_response) ∷ [])
      (ok ping_response)
      (close_call anything silent ((8, 1) ∷ []) (framed ping_call (waiting (some ping_response))))
      idle-IsReady (omega arith) RequestResponse-answered_example

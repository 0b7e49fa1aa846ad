-- ===== src/Client/Requests.antt =====
-- services.go and logs.go: the methods of Client that send one request without waiting for its response.
-- A handler is of any type `H`; the function that SubscribeLogs returns is the id that it removes.
use esphome_apiclient.Common.{ℕ, String, Option, none, some, List, false, true}
use esphome_apiclient.Stream.{ok, err, Reads, wrapping}
use esphome_apiclient.Pb.Types.{Enum, UInt32}
use esphome_apiclient.Pb.Message.{Message}
use esphome_apiclient.Pb.Session.{ExecuteServiceArgument, SubscribeLogsResponse}
use esphome_apiclient.Router.{on, remove}
use esphome_apiclient.Services.{service_by_name}
use esphome_apiclient.Client.Framer.{Framer}
use esphome_apiclient.Client.State.{Client}
use esphome_apiclient.Client.Exchange.{Protobuf, MessageError, send_message}

pub data RequestError : Type 0 where
  request_unsent : MessageError → RequestError
  service_not_found : String → RequestError

abbrev pub service_request : UInt32 → List ExecuteServiceArgument → Message
service_request k args =
    Message.execute_service_request
      (record { key = k; args = args; call_id = 0; return_response = false })

abbrev pub logs_request : Enum → Message
logs_request level = Message.subscribe_logs_request (record { level = level; dump_config = true })

-- What the handler that SubscribeLogs registers does with a message: only a log message, and only if there is
-- a handler, is passed on.
unfoldable pub log_handler : {A : Type 0} → Option (SubscribeLogsResponse → A) → Message → Option A
log_handler (some handler) (Message.subscribe_logs_response m) = some (handler m)
log_handler _ _ = none

module _ (P : Protobuf) (F : Framer) {H : Type 0} where
  unfoldable pub execute_service :
      UInt32 → List ExecuteServiceArgument → Reads (Client F.State H) RequestError (Unit {0})
  execute_service k args = wrapping request_unsent (send_message P F (service_request k args) 42)

  unfoldable pub execute_service_by_name :
      String → List ExecuteServiceArgument → Reads (Client F.State H) RequestError (Unit {0})
  unfolding execute_service
  execute_service_by_name name args c = elim (service_by_name name c.services) [
    | none ↦ (err (service_not_found name), c)
    | some svc ↦ execute_service svc.key args c
  ]

  unfoldable pub subscribe_logs : Enum → H → Reads (Client F.State H) RequestError ℕ
  subscribe_logs level handler c =
      let (router, id) = on 29 handler c.router in
      let (r, c1) = send_message P F (logs_request level) 28 (record c { router = router }) in
      elim r [
        | err e ↦ (err (request_unsent e), record c1 { router = remove 29 id c1.router })
        | ok u ↦ (ok id, c1)
      ]

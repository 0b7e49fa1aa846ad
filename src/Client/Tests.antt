-- ===== src/Client/Tests.antt =====
-- client.go: a ping over a connection, and a handshake with a device that answers from a script.
mod Connect
use esphome_apiclient.Common.{ℕ, ◌≡◌, ◌≢◌, refl, Option, none, some, List, [], ◌∷◌, nat_key, arith}
use esphome_apiclient.Common.Maps.{lookup}
use esphome_apiclient.Stream.{Reads, ok, err, eof, Arrivals}
use esphome_apiclient.Stream.Sinks.{kept, kept_writes}
use esphome_apiclient.Stream.Chunks.{Delivers}
use esphome_apiclient.Codec.{write_frame, send, put_uvarint}
use esphome_apiclient.Pb.Kind.{MessageKind}
use esphome_apiclient.Pb.Message.{Message, kind}
use esphome_apiclient.Pb.Registry.{message_registry}
use esphome_apiclient.Pb.Session.{HelloResponse}
use esphome_apiclient.Noise.{plaintext_device}
use esphome_apiclient.Common.{String}
use esphome_apiclient.Stream.{wrapping}
use mathlib.Core.List.{Perm}
use esphome_apiclient.Router.{new_router, dispatch, remove}
use esphome_apiclient.Router.Registered.{new_router-IsValid}
use esphome_apiclient.Services.{handle_service_definition, service_by_name}
use esphome_apiclient.Pb.Listing.{ListEntitiesServicesResponse}
use esphome_apiclient.Client.Requests.{
  RequestError, request_unsent, service_not_found, service_request, execute_service_by_name,
  subscribe_logs,
}
use esphome_apiclient.Client.Subscribed.{subscribe_logs-dispatch, execute_service_by_name_defined}
use esphome_apiclient.Common.{true}
use esphome_apiclient.Pb.Registry.{state_response_ids}
use esphome_apiclient.Client.States.{
  member, subscribe_states, unsubscribe_states, subscribe_states-dispatch,
}
use esphome_apiclient.Client.Framer.{
  Framer, FramerError, noise_error, Transport, PlainState, plain_framer, plain_write_frame,
}
use esphome_apiclient.Client.State.{Client, new_client}
use esphome_apiclient.Client.Exchange.{
  Protobuf, Fills, send_message, recv_message, recv_message-kind, kind?, decode,
}
use esphome_apiclient.Client.Exchanged.{Restores, receiving, recv_message-send_message}
use esphome_apiclient.Client.Handshake.{
  hello_response?, accepted, handshake, wrong_type, wrong_message, unsupported_version,
}
use esphome_apiclient.Client.Greeting.{SameBut, handshake_replied}

abbrev marshal_ping : Message → Option (List ℕ)
marshal_ping (Message.ping_request m) = some m
marshal_ping _ = none

abbrev unmarshal_ping : MessageKind → List ℕ → Option Message
unmarshal_ping MessageKind.ping_request bs = some (Message.ping_request bs)
unmarshal_ping _ _ = none

-- A protobuf for pings alone.
abbrev pings : Protobuf
pings = record { marshal = marshal_ping; unmarshal = unmarshal_ping }

restores_ping :
    (m : Message) (bs : List ℕ) → marshal_ping m ≡ some bs → unmarshal_ping (kind m) bs ≡ some m
unfolding kind
restores_ping (Message.ping_request m) bs e = cc
restores_ping _ bs e = cc

pings-Restores : Restores pings
pings-Restores = record { unmarshal-marshal = restores_ping }

fills_ping :
    (k : MessageKind) (bs : List ℕ) (m : Message) → unmarshal_ping k bs ≡ some m → kind m ≡ k
unfolding kind
fills_ping MessageKind.ping_request bs (Message.ping_request m) e = refl
fills_ping MessageKind.ping_request bs _ e = cc
fills_ping _ bs m e = cc

pings-Fills : Fills pings
pings-Fills = record { unmarshal_kind = fills_ping }

abbrev wire : Transport
wire = receiving kept (λ s. (none, s))

abbrev connected : Arrivals → List ℕ → Client (PlainState wire) ℕ
connected a k = record (new_client "host" 5) { framer = some (a, k) }

abbrev quiet : Arrivals
quiet = ([], eof)

-- The frame of the ping, in two chunks.
abbrev ping_arrives : Arrivals
ping_arrives = ((0 ∷ 1 ∷ []) ∷ (7 ∷ 42 ∷ []) ∷ [], eof)

abbrev ping : Message
ping = Message.ping_request (42 ∷ [])

recv_message-send_message_example :
    (a1 : Arrivals) × Delivers a1 ([], eof)
    × (recv_message pings (plain_framer wire) (connected ping_arrives [])
        ≡ (ok (some ping, 7), connected a1 []))
unfolding send_message plain_write_frame write_frame send put_uvarint message_registry kind
recv_message-send_message_example =
    recv_message-send_message pings pings-Restores wire kept_writes kept (λ s. (none, s)) ping 7
      (connected quiet []) (connected quiet (0 ∷ 1 ∷ 7 ∷ 42 ∷ [])) quiet quiet []
      (0 ∷ 1 ∷ 7 ∷ 42 ∷ []) (0 ∷ 1 ∷ 7 ∷ 42 ∷ []) [] eof ping_arrives [] (connected ping_arrives [])
      refl (omega arith) (λ bs e. let one : 42 ∷ [] ≡ bs = cc in rw (← one) (omega arith)) refl refl
      refl refl refl (((λ e. cc), ((λ e. cc), tt)), refl, refl)

-- A device that answers with the frames of a script.
abbrev scripted_read : Reads (List (ℕ × List ℕ)) FramerError (ℕ × List ℕ)
scripted_read [] = (err (noise_error plaintext_device), [])
scripted_read (f ∷ fs) = (ok f, fs)

abbrev scripted : Framer
scripted = record {
  State = List (ℕ × List ℕ);
  write_frame = λ t bs s. (ok tt, s);
  read_frame = scripted_read;
  close = λ s. (none, s);
}

abbrev pinged : Client (List (ℕ × List ℕ)) ℕ
pinged = record (new_client "host" 5) { framer = some ((7, 42 ∷ []) ∷ []) }

recv_message-kind_example : lookup 7 message_registry ≡ kind? (some ping)
unfolding recv_message decode message_registry
recv_message-kind_example =
    recv_message-kind pings scripted pings-Fills pinged (record pinged { framer = some [] })
      (some ping) 7 refl

abbrev marshal_any : Message → Option (List ℕ)
marshal_any m = some []

-- A HelloResponse of the version that its first byte says.
abbrev unmarshal_hello : MessageKind → List ℕ → Option Message
unmarshal_hello k [] = none
unmarshal_hello k (b ∷ bs) = some (
    Message.hello_response (record {
      api_version_major = b;
      api_version_minor = 12;
      server_info = "device";
      name = "door";
    }))

abbrev hellos : Protobuf
hellos = record { marshal = marshal_any; unmarshal = unmarshal_hello }

abbrev greeted : Client (List (ℕ × List ℕ)) ℕ
greeted = record (new_client "host" 5) { framer = some ((2, 1 ∷ []) ∷ []) }

abbrev answered : HelloResponse
answered = record {
  api_version_major = 1;
  api_version_minor = 12;
  server_info = "device";
  name = "door";
}

abbrev left : Client (List (ℕ × List ℕ)) ℕ
left = record greeted { framer = some [] }

abbrev reply_type : ℕ
reply_type = 2

handshake_replied_example :
    SameBut greeted left
    × (reply_type ≢ 2 → handshake hellos scripted greeted ≡ (err (wrong_type reply_type), left))
    × (reply_type ≡ 2
        → hello_response? (some (Message.hello_response answered)) ≡ none
        → handshake hellos scripted greeted ≡ (err wrong_message, left))
    × ((m : HelloResponse)
        → reply_type ≡ 2
        → hello_response? (some (Message.hello_response answered)) ≡ some m
        → (m.api_version_major ≢ greeted.api_version_major
            → handshake hellos scripted greeted
              ≡ (err (unsupported_version m.api_version_major m.api_version_minor), left))
          × (m.api_version_major ≡ greeted.api_version_major
              → handshake hellos scripted greeted ≡ (ok tt, accepted m left)))
unfolding send_message recv_message decode message_registry
handshake_replied_example =
    handshake_replied hellos scripted greeted greeted left (some (Message.hello_response answered))
      reply_type refl refl

subscribe_logs-dispatch_example :
    let (r, c1) = subscribe_logs hellos scripted 5 100 pinged in
    ((id : ℕ)
      → r ≡ ok id
      → Perm (dispatch 29 c1.router) (100 ∷ dispatch 29 pinged.router)
        × ((t : ℕ) → dispatch t (remove 29 id c1.router) ≡ dispatch t pinged.router))
    × ((e : RequestError) → r ≡ err e → (t : ℕ) → dispatch t c1.router ≡ dispatch t pinged.router)
unfolding new_router new_client
subscribe_logs-dispatch_example =
    subscribe_logs-dispatch hellos scripted 5 100 pinged new_router-IsValid (omega arith)

abbrev reboot : ListEntitiesServicesResponse
reboot = record { name = "reboot"; key = 3; args = []; supports_response = 0 }

execute_service_by_name_defined_example :
    let c1 : Client (List (ℕ × List ℕ)) ℕ = record pinged {
      services = handle_service_definition reboot pinged.services;
    } in
    (execute_service_by_name hellos scripted "reboot" [] c1
      ≡ wrapping request_unsent (send_message hellos scripted (service_request 3 []) 42) c1)
    × ((n : String)
        → service_by_name n c1.services ≡ none
        → execute_service_by_name hellos scripted n [] c1 ≡ (err (service_not_found n), c1))
execute_service_by_name_defined_example =
    execute_service_by_name_defined hellos scripted reboot [] pinged

subscribe_states-dispatch_example :
    let (r, c1) = subscribe_states hellos scripted (λ handler. 200) (some 100) pinged in
    ((removes : List (ℕ × ℕ))
      → r ≡ ok removes
      → (c1.state_handler ≡ some 100)
        × ((t : ℕ)
            → member t state_response_ids ≡ true
            → Perm (dispatch t c1.router) (200 ∷ dispatch t pinged.router))
        × ((t : ℕ)
            → dispatch t (unsubscribe_states hellos scripted (λ handler. 200) removes c1).router
              ≡ dispatch t pinged.router)
        × ((unsubscribe_states hellos scripted (λ handler. 200) removes c1).state_handler ≡ none))
    × ((e : RequestError)
        → r ≡ err e
        → (c1.state_handler ≡ none) × ((t : ℕ) → dispatch t c1.router ≡ dispatch t pinged.router))
unfolding new_router new_client
subscribe_states-dispatch_example =
    subscribe_states-dispatch hellos scripted (λ handler. 200) (some 100) pinged new_router-IsValid
      (omega arith)

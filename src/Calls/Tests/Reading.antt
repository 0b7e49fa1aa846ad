-- ===== src/Calls/Tests/Reading.antt =====
-- client.go: the read loop with a device that answers a ping, and what follows a Close.
use esphome_apiclient.Common.{
  ℕ, ◌≡◌, ◌≢◌, refl, true, false, Option, none, some, List, [], ◌∷◌, nat_key, arith,
}
use esphome_apiclient.Common.Maps.{lookup}
use esphome_apiclient.Stream.{Result, ok, err}
use esphome_apiclient.Pb.Kind.{MessageKind}
use esphome_apiclient.Pb.Message.{Message, kind}
use esphome_apiclient.Router.{new_router, on, dispatch}
use esphome_apiclient.Client.Framer.{Framer, FramerError, noise_error}
use esphome_apiclient.Client.State.{Client, new_client}
use esphome_apiclient.Client.Exchange.{Protobuf, send_message}
use esphome_apiclient.Noise.{plaintext_device}
use esphome_apiclient.Calls.{Closure, waiting, World, local, global, run_closure, run_all}
use esphome_apiclient.Calls.Waiting.{Waits}
use esphome_apiclient.Calls.Registering.{register_claims}
use esphome_apiclient.Calls.Calling.{Call, open_call, close_call}
use esphome_apiclient.Calls.Orders.{same_order}
use esphome_apiclient.Calls.Requests.{request_call, RequestResponse-answered}
use esphome_apiclient.Calls.Tests.{anything, silent, idle, idle-IsReady, opened, framed, arrived}
use esphome_apiclient.Pb.Message.{Fields}
use esphome_apiclient.Pb.Registry.{message_registry}
use esphome_apiclient.Stream.{Reads}
use esphome_apiclient.Common.{All}
use esphome_apiclient.Client.Exchange.{recv_message, decode, framer_failed}
use esphome_apiclient.Calls.Methods.{close, DeviceInfo, MethodError, wrong_response}
use esphome_apiclient.Calls.Incoming.{Incoming, messages, frame_message}
use esphome_apiclient.Calls.Turns.{dispatches, skips, stops, read_turn, Stops}
use esphome_apiclient.Calls.Reading.{
  Reading, dispatching, skipping, pausing, IsTyped, messages-IsTyped, Reading-Waits,
}
use esphome_apiclient.Calls.Ending.{DeviceInfo-IsTyped, read_turn-close}

abbrev scripted_read : Reads (List (ℕ × List ℕ)) FramerError (ℕ × List ℕ)
scripted_read [] = (err (noise_error plaintext_device), [])
scripted_read (f ∷ fs) = (ok f, fs)

abbrev scripted : Framer
scripted = record {
  State = List (ℕ × List ℕ);
  write_frame = λ t bs s. (ok tt, s);
  read_frame = scripted_read;
  close = λ s. (none, s);
}

abbrev unmarshal_pong : MessageKind → List ℕ → Option Message
unmarshal_pong MessageKind.ping_response bs = some (Message.ping_response bs)
unmarshal_pong _ _ = none

abbrev pongs : Protobuf
pongs = record { marshal = λ m. none; unmarshal = unmarshal_pong }

fills_pong :
    (k : MessageKind) (bs : List ℕ) (m : Message) → unmarshal_pong k bs ≡ some m → kind m ≡ k
unfolding kind
fills_pong MessageKind.ping_response bs (Message.ping_response m) e = refl
fills_pong MessageKind.ping_response bs _ e = cc
fills_pong _ bs m e = cc

abbrev awaiting : List (ℕ × List ℕ) → World (List (ℕ × List ℕ))
awaiting fs = record {
  client = record (new_client "host" 5) { framer = some fs };
  frames = [];
  next_frame = 0;
  calls = [];
}

abbrev pong : Message
pong = Message.ping_response (42 ∷ [])

-- A frame of an id that no message has, and a pong.
abbrev frames : List (ℕ × List ℕ)
frames = (999, []) ∷ (8, 42 ∷ []) ∷ []

-- The frame that is still to come.
abbrev next_frames : List (ℕ × List ℕ)
next_frames = (8, 7 ∷ []) ∷ []

abbrev sent : World (List (ℕ × List ℕ))
sent = awaiting ((999, []) ∷ (8, 42 ∷ []) ∷ next_frames)

frames_read : Reading pongs scripted 0 frames sent (awaiting next_frames)
unfolding read_turn recv_message decode message_registry dispatch run_all new_client new_router
frames_read =
    skipping
      (((999, []) ∷ (8, 42 ∷ []) ∷ next_frames), ((8, 42 ∷ []) ∷ next_frames), refl, refl, refl)
      refl
      (dispatching (((8, 42 ∷ []) ∷ next_frames), next_frames, refl, refl, refl) refl
        (same_order []) refl pausing)

frames_messages : messages pongs frames ≡ (8, pong) ∷ []
unfolding messages frame_message message_registry
frames_messages = refl

Reading-Waits_example :
    Waits 0 (messages pongs frames) sent (awaiting next_frames)
    × ((f : ℕ × List ℕ) (c : Client (List (ℕ × List ℕ)) Closure)
        → Incoming pongs scripted (awaiting next_frames).client f c
        → ((k : MessageKind) (m : Message)
            → lookup f.0 message_registry ≡ some k
            → unmarshal_pong k f.1 ≡ some m
            → read_turn pongs scripted (awaiting next_frames).client ≡ (dispatches f.0 m, c))
          × (lookup f.0 message_registry ≡ none
              → read_turn pongs scripted (awaiting next_frames).client ≡ (skips, c))
          × ((k : MessageKind)
              → lookup f.0 message_registry ≡ some k
              → unmarshal_pong k f.1 ≡ none
              → Stops pongs scripted (awaiting next_frames).client))
    × ((s s' : List (ℕ × List ℕ)) (e : FramerError)
        → (awaiting next_frames).client.framer ≡ some s
        → scripted_read s ≡ (err e, s')
        → Stops pongs scripted (awaiting next_frames).client)
Reading-Waits_example =
    Reading-Waits pongs scripted 0 frames sent (awaiting next_frames) frames_read

messages-IsTyped_run : All (IsTyped pongs scripted) (messages pongs frames)
messages-IsTyped_run =
    messages-IsTyped pongs scripted (record { unmarshal_kind = fills_pong }) frames

abbrev info : Message
info = Message.device_info_response (7 ∷ [])

abbrev info_call : Call
info_call = request_call (Message.device_info_request []) 9 10

info_arrived : Waits 0 ((10, info) ∷ []) (opened info_call) (framed info_call (waiting (some info)))
unfolding open_call register_claims send_message on dispatch run_all run_closure global local
    new_client new_router
info_arrived = arrived 10 info (opened info_call) (framed info_call (waiting (some info))) refl

abbrev info_result : Result MethodError Fields
info_result = ok (7 ∷ [])

info_run :
    DeviceInfo anything silent idle
      ((10, info) ∷ [])
      info_result
      (close_call anything silent ((10, 1) ∷ []) (framed info_call (waiting (some info))))
unfolding DeviceInfo open_call register_claims send_message on new_client new_router
info_run = (
  ok info,
  RequestResponse-answered anything silent (Message.device_info_request []) 9 10 idle ((10, 1) ∷ [])
      ((10, info) ∷ []) (opened info_call) (framed info_call (waiting (some info))) info
      idle-IsReady (omega arith) refl info_arrived refl,
  refl,
)

DeviceInfo-IsTyped_example : info_result ≢ err wrong_response
unfolding message_registry kind new_client new_router
DeviceInfo-IsTyped_example =
    DeviceInfo-IsTyped anything silent idle ((10, info) ∷ []) info_result
      (close_call anything silent ((10, 1) ∷ []) (framed info_call (waiting (some info))))
      idle-IsReady (omega arith) (refl, tt) info_run

abbrev closed_client : Client (Unit {0}) Closure
closed_client = (close anything silent idle.client).1

read_turn-close_example :
    (close anything silent closed_client ≡ (none, closed_client))
    × ((read_turn anything silent closed_client).0 ≡ stops none false)
unfolding close recv_message decode new_client
read_turn-close_example =
    read_turn-close anything silent idle.client closed_client
      (framer_failed (noise_error plaintext_device)) (λ e. let clash : false ≡ true = e in cc) refl

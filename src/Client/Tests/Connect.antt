-- ===== src/Client/Tests/Connect.antt =====
-- client.go: a connection that is made after one failure.
use esphome_apiclient.Common.{
  ℕ, suc, ◌*◌, ◌^◌, ◌≡◌, refl, true, false, Option, none, some, List, [], ◌∷◌, arith, nat_key,
  string_key,
}
use esphome_apiclient.Stream.{ok, err, Reads, eof}
use esphome_apiclient.Noise.{plaintext_device}
use esphome_apiclient.Pb.Kind.{MessageKind}
use esphome_apiclient.Pb.Message.{Message}
use esphome_apiclient.Pb.Registry.{message_registry}
use esphome_apiclient.Pb.Session.{HelloResponse}
use esphome_apiclient.Entities.Registry.{clear}
use esphome_apiclient.Services.{clear_services}
use esphome_apiclient.Client.Framer.{Framer, FramerError, noise_error}
use esphome_apiclient.Client.State.{Client, new_client, second}
use esphome_apiclient.Client.Exchange.{Protobuf, send_message, recv_message, decode}
use esphome_apiclient.Client.Handshake.{handshake, check_hello, accept_hello, accepted}
use esphome_apiclient.Client.Backoff.{next_backoff, backoff, backoff-capped, capped}
use esphome_apiclient.Client.Connect.{
  Network, ConnectError, open_framer, connect, reset, restored, Reconnects, refused, reconnected,
}
use esphome_apiclient.Client.Welcomed.{Receives}
use esphome_apiclient.Client.Connected.{nth, connect-Ended, Reconnects-backoff}

-- A device that answers with the frames of a script.
abbrev scripted_read : Reads (List (ℕ × List ℕ)) FramerError (ℕ × List ℕ)
scripted_read [] = (err (noise_error plaintext_device), [])
scripted_read (f ∷ fs) = (ok f, fs)

abbrev scripted : Framer
scripted = record {
  State = List (ℕ × List ℕ);
  write_frame = λ t bs s. (ok tt, s);
  read_frame = scripted_read;
  close = λ s. (none, s);
}

abbrev welcome : HelloResponse
welcome = record {
  api_version_major = 1;
  api_version_minor = 9;
  server_info = "esphome";
  name = "lamp";
}

abbrev unmarshal_hello : MessageKind → List ℕ → Option Message
unmarshal_hello MessageKind.hello_response bs = some (Message.hello_response welcome)
unmarshal_hello _ _ = none

abbrev hellos : Protobuf
hellos = record { marshal = λ m. some []; unmarshal = unmarshal_hello }

abbrev unreachable : Network (List (ℕ × List ℕ))
unreachable = record {
  decode_key = λ k. none;
  dial = λ address timeout. err eof;
  dial_noise = λ address timeout psk name. err eof;
}

abbrev reachable : Network (List (ℕ × List ℕ))
reachable = record {
  decode_key = λ k. none;
  dial = λ address timeout. ok ((2, []) ∷ []);
  dial_noise = λ address timeout psk name. err eof;
}

abbrev lost_client : Client (List (ℕ × List ℕ)) ℕ
lost_client = new_client "host" 5

abbrev greeted_client : Client (List (ℕ × List ℕ)) ℕ
greeted_client = (connect hellos scripted reachable (reset (reset lost_client))).1

connect-Ended_example :
    let (r, c1) = connect hellos scripted reachable lost_client in
    ((e : ConnectError) → r ≡ err e → c1 ≡ record lost_client { framer = c1.framer })
    × (r ≡ ok tt
        → (s : List (ℕ × List ℕ)) × (m : HelloResponse) × (c2 : Client (List (ℕ × List ℕ)) ℕ)
          × (open_framer reachable lost_client ≡ ok s)
          × Receives hellos scripted (record lost_client { framer = some s }) m c2
          × (m.api_version_major ≡ lost_client.api_version_major)
          × (c1 ≡ record (accepted m lost_client) { framer = c2.framer }))
    × ((s : List (ℕ × List ℕ)) (m : HelloResponse) (c2 : Client (List (ℕ × List ℕ)) ℕ)
        → open_framer reachable lost_client ≡ ok s
        → Receives hellos scripted (record lost_client { framer = some s }) m c2
        → m.api_version_major ≡ lost_client.api_version_major
        → connect hellos scripted reachable lost_client
          ≡ (ok tt, record (accepted m lost_client) { framer = c2.framer }))
connect-Ended_example = connect-Ended hellos scripted reachable lost_client

-- The conditions of the last part hold here.
welcome_received :
    (c2 : Client (List (ℕ × List ℕ)) ℕ) × Receives hellos scripted
      (record lost_client { framer = some ((2, []) ∷ []) })
      welcome
      c2
unfolding send_message recv_message decode message_registry new_client
welcome_received = (
  record lost_client { framer = some [] },
  (record lost_client { framer = some ((2, []) ∷ []) }, refl, refl),
)

backoff-capped_example :
    (backoff (200 * second) 0 ≡ 200 * second)
    × (backoff (200 * second) 1 ≡ capped (200 * second * 2 ^ 1))
backoff-capped_example = backoff-capped (200 * second) 0 (omega arith)

reconnects :
    Reconnects hellos scripted
      (200 * second)
      lost_client
      (200 * second ∷ 300 * second ∷ [])
      true
      (restored greeted_client)
unfolding connect open_framer handshake check_hello accept_hello send_message recv_message decode
    message_registry next_backoff new_client clear clear_services
reconnects = refused unreachable refl (reconnected reachable refl)

Reconnects-backoff_example :
    ((w : ℕ) → nth 0 (200 * second ∷ 300 * second ∷ []) ≡ some w → w ≡ 200 * second)
    × ((n w : ℕ)
        → nth (suc n) (200 * second ∷ 300 * second ∷ []) ≡ some w
        → w ≡ capped (200 * second * 2 ^ suc n))
    × (true ≡ true
        → ((restored greeted_client).connected ≡ true) × ((restored greeted_client).closed ≡ false))
Reconnects-backoff_example =
    Reconnects-backoff hellos scripted (200 * second) lost_client (restored greeted_client)
      (200 * second ∷ 300 * second ∷ []) true (omega arith) reconnects

-- ===== src/Calls/Tests.antt =====
-- client.go and bluetooth.go: a connection that sends everything, and the messages that arrive over it.
mod Requests
mod Listing
mod Gatt
mod Discovery
mod Reading
mod Others
mod Advertising
use esphome_apiclient.Common.{ℕ, ◌≡◌, refl, none, some, List, [], ◌∷◌, nat_key}
use esphome_apiclient.Common.Maps.{insert}
use esphome_apiclient.Stream.{Result, ok, err}
use esphome_apiclient.Pb.Message.{Message}
use esphome_apiclient.Router.{new_router, dispatch}
use esphome_apiclient.Router.Registered.{new_router-IsValid}
use esphome_apiclient.Client.Framer.{Framer, noise_error}
use esphome_apiclient.Client.State.{new_client}
use esphome_apiclient.Client.Exchange.{Protobuf}
use esphome_apiclient.Noise.{plaintext_device}
use esphome_apiclient.Calls.{Frame, World, Crash, run_all}
use esphome_apiclient.Calls.Waiting.{Waits, arrival, still}
use esphome_apiclient.Calls.Calling.{Call, IsReady, open_call}
use esphome_apiclient.Calls.Orders.{same_order}

abbrev pub anything : Protobuf
anything = record { marshal = λ m. some []; unmarshal = λ k bs. none }

-- A device that takes everything and sends nothing.
abbrev pub silent : Framer
silent = record {
  State = Unit {0};
  write_frame = λ t bs s. (ok tt, s);
  read_frame = λ s. (err (noise_error plaintext_device), s);
  close = λ s. (none, s);
}

abbrev pub idle : World (Unit {0})
idle = record {
  client = record (new_client "host" 5) { framer = some tt };
  frames = [];
  next_frame = 0;
  calls = [];
}

pub idle-IsReady : IsReady idle
unfolding new_client new_router dispatch
idle-IsReady = record { router = new_router-IsValid; unused = λ t. refl }

abbrev pub opened : Call → World (Unit {0})
opened c = (open_call anything silent c idle).1

abbrev pub framed : Call → Frame → World (Unit {0})
framed c f = record (opened c) { frames = insert 0 f (opened c).frames }

pub arrived :
    (t : ℕ) (m : Message) (w w1 : World (Unit {0}))
    → run_all (dispatch t w.client.router) m w ≡ ok w1
    → Waits 0 ((t, m) ∷ []) w w1
arrived t m w w1 ran = arrival (same_order (dispatch t w.client.router)) ran still

pub arrives :
    (t : ℕ) (m : Message) (ms : List (ℕ × Message)) (w w1 w2 : World (Unit {0}))
    → run_all (dispatch t w.client.router) m w ≡ ok w1
    → Waits 0 ms w1 w2
    → Waits 0 ((t, m) ∷ ms) w w2
arrives t m ms w w1 w2 ran rest = arrival (same_order (dispatch t w.client.router)) ran rest

abbrev pub world_of : Result Crash (World (Unit {0})) → World (Unit {0})
world_of (ok w) = w
world_of (err e) = idle

-- The world after a message.
abbrev pub next : ℕ → Message → World (Unit {0}) → World (Unit {0})
next t m w = world_of (run_all (dispatch t w.client.router) m w)

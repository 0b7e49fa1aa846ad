-- ===== src/Calls.antt =====
-- The closures that client.go, bluetooth.go and logs.go register with the router, and what a message does to
-- them when the read loop dispatches it. A closure is a constructor with the variables that it captures; the
-- variables of the call that waits for it are a frame at an address. A handler of the user is a number, and
-- the calls of it are kept in order.
pub mod Frames
pub mod Waiting
pub mod Claims
pub mod Registering
pub mod Calling
pub mod Orders
pub mod Requests
pub mod Methods
pub mod Listing
pub mod Gatt
pub mod Discovery
pub mod Incoming
pub mod Turns
pub mod Reading
pub mod Ending
pub mod Advertising
pub mod Others
mod Tests
use esphome_apiclient.Common.{
  ℕ, Bool, true, false, Option, none, some, List, [], ◌∷◌, ◌++◌, nat_eq, nat_key, ◌&&◌,
  if◌then◌else◌,
}
use esphome_apiclient.Common.Maps.{Map, lookup, insert}
use esphome_apiclient.Stream.{Result, ok, err}
use esphome_apiclient.Pb.Types.{UInt32, UInt64, Int32}
use esphome_apiclient.Pb.Message.{Message}
use esphome_apiclient.Pb.Bluetooth.{
  BluetoothGattService, BluetoothGattGetServicesResponse, BluetoothGattGetServicesDoneResponse,
  BluetoothGattReadResponse, BluetoothGattWriteResponse, BluetoothGattNotifyResponse,
  BluetoothGattNotifyDataResponse, BluetoothGattErrorResponse,
}
use esphome_apiclient.Entities.Handle.{handle_list_entity_message, handle_state_message}
use esphome_apiclient.Services.{handle_service_definition}
use esphome_apiclient.Client.State.{Client}

-- What a GATT operation sends into its channel: `result{data: ...}` or `result{err: ...}`.
pub data GattResult : Type 0 where
  answered : List ℕ → GattResult
  gatt_error : Int32 → GattResult

-- The variables that the closures of a call write to: the channel of requestResponse, which holds one message;
-- the entities and the closed channel of ListEntities; the services, the closed channel and the error of
-- BluetoothGATTGetServices; the channel of the other GATT operations.
pub data Frame : Type 0 where
  waiting : Option Message → Frame
  listing : List Message → Bool → Frame
  discovering : List BluetoothGattService → Bool → Option Int32 → Frame
  gatt : Option GattResult → Frame

pub data Closure : Type 0 where
  user : ℕ → Closure
  states logs advertised connections : Option ℕ → Closure
  notified : UInt64 → UInt32 → ℕ → Closure
  answers listed list_done : ℕ → Closure
  discovered discover_done discover_error : ℕ → UInt64 → Closure
  read_answer write_answer notify_answer gatt_failed : ℕ → UInt64 → UInt32 → Closure

-- The frame that a closure writes to.
abbrev pub own : Closure → Option ℕ
own (answers a) = some a
own (listed a) = some a
own (list_done a) = some a
own (discovered a address) = some a
own (discover_done a address) = some a
own (discover_error a address) = some a
own (read_answer a address handle) = some a
own (write_answer a address handle) = some a
own (notify_answer a address handle) = some a
own (gatt_failed a address handle) = some a
own _ = none

-- How a closure can fail to return: a panic ends the program, a send to a full channel blocks the read loop.
pub data Crash : Type 0 where
  panicked blocked : Crash

-- The type assertions `msg.(*pb.X)`.
abbrev services_response? : Message → Option BluetoothGattGetServicesResponse
services_response? (Message.bluetooth_gatt_get_services_response m) = some m
services_response? _ = none

abbrev services_done? : Message → Option BluetoothGattGetServicesDoneResponse
services_done? (Message.bluetooth_gatt_get_services_done_response m) = some m
services_done? _ = none

abbrev error_response? : Message → Option BluetoothGattErrorResponse
error_response? (Message.bluetooth_gatt_error_response m) = some m
error_response? _ = none

abbrev read_response? : Message → Option BluetoothGattReadResponse
read_response? (Message.bluetooth_gatt_read_response m) = some m
read_response? _ = none

abbrev write_response? : Message → Option BluetoothGattWriteResponse
write_response? (Message.bluetooth_gatt_write_response m) = some m
write_response? _ = none

abbrev notify_response? : Message → Option BluetoothGattNotifyResponse
notify_response? (Message.bluetooth_gatt_notify_response m) = some m
notify_response? _ = none

abbrev pub notify_data? : Message → Option BluetoothGattNotifyDataResponse
notify_data? (Message.bluetooth_gatt_notify_data_response m) = some m
notify_data? _ = none

-- `close(done)`, which panics when the channel is closed already.
abbrev close_list : Frame → Result Crash Frame
close_list (listing es false) = ok (listing es true)
close_list (listing es true) = err panicked
close_list f = ok f

abbrev pub close_discovery : Option Int32 → Frame → Result Crash Frame
close_discovery e (discovering ss false _) = ok (discovering ss true e)
close_discovery e (discovering ss true _) = err panicked
close_discovery e f = ok f

-- `resCh <- result{...}` with room for one result.
abbrev pub send_result : GattResult → Frame → Result Crash Frame
send_result x (gatt none) = ok (gatt (some x))
send_result x (gatt (some _)) = err blocked
send_result x f = ok f

abbrev asserted : {A B : Type 0} → Option A → (A → Result Crash B) → Result Crash B
asserted none f = err panicked
asserted (some a) f = f a

abbrev error_of : Frame → Option Int32
error_of (discovering ss d e) = e
error_of _ = none

abbrev add_services : List BluetoothGattService → Frame → Frame
add_services new (discovering ss d e) = discovering (ss ++ new) d e
add_services new f = f

-- What a closure does to its frame.
unfoldable pub local : Closure → Message → Frame → Result Crash Frame
local (answers a) m (waiting none) = ok (waiting (some m))
local (listed a) m (listing es d) = ok (listing (es ++ (m ∷ [])) d)
local (list_done a) m f = close_list f
local (discovered a address) m f =
    asserted (services_response? m)
      λ r. ok (if nat_eq r.address address then add_services r.services f else f)
local (discover_done a address) m f =
    asserted (services_done? m)
      λ r. if nat_eq r.address address then close_discovery (error_of f) f else ok f
local (discover_error a address) m f =
    asserted (error_response? m)
      λ r. if nat_eq r.address address then close_discovery (some r.error) f else ok f
local (read_answer a address handle) m f = asserted (read_response? m) λ r.
    if nat_eq r.address address && nat_eq r.handle handle
    then send_result (answered r.content) f
    else ok f
local (write_answer a address handle) m f = asserted (write_response? m) λ r.
    if nat_eq r.address address && nat_eq r.handle handle then send_result (answered []) f else ok f
local (notify_answer a address handle) m f = asserted (notify_response? m) λ r.
    if nat_eq r.address address && nat_eq r.handle handle then send_result (answered []) f else ok f
local (gatt_failed a address handle) m f = asserted (error_response? m) λ r.
    if nat_eq r.address address && nat_eq r.handle handle
    then send_result (gatt_error r.error) f
    else ok f
local _ m f = ok f

-- The client, the frames of the calls that wait, and the calls of the user's handlers.
pub record World (S : Type 0) : Type 0 where
  pub client : Client S Closure
  pub frames : Map ℕ Frame
  pub next_frame : ℕ
  pub calls : List (ℕ × Message)

abbrev pub log_message : Message → Bool
log_message (Message.subscribe_logs_response m) = true
log_message _ = false

abbrev pub connections_free : Message → Bool
connections_free (Message.bluetooth_connections_free_response m) = true
connections_free _ = false

module _ {S : Type 0} where
  -- `if handler != nil { handler(msg) }`
  abbrev pub notify : Option ℕ → Message → World S → World S
  notify none m w = w
  notify (some n) m w = record w { calls = w.calls ++ ((n, m) ∷ []) }

  abbrev pub define_service : Message → Client S Closure → Client S Closure
  define_service (Message.list_entities_services_response m) c = record c {
    services = handle_service_definition m c.services;
  }
  define_service _ c = c

  -- What a closure does to the rest: the registries of the client, and the handlers of the user.
  unfoldable pub global : Closure → Message → World S → Result Crash (World S)
  global (user n) m w = ok (notify (some n) m w)
  global (states handler) m w = ok (
      notify handler m (record w {
        client = record w.client { entities = (handle_state_message m w.client.entities).0 };
      }))
  global (logs handler) m w = ok (if log_message m then notify handler m w else w)
  global (advertised handler) m w = ok (notify handler m w)
  global (connections none) m w = ok w
  global (connections (some n)) m w =
      if connections_free m then ok (notify (some n) m w) else err panicked
  global (notified address handle n) m w = asserted (notify_data? m) λ r.
      ok (if nat_eq r.address address && nat_eq r.handle handle then notify (some n) m w else w)
  global (listed a) m w = ok (record w {
    client =
        define_service m
          (record w.client { entities = (handle_list_entity_message m w.client.entities).0 });
  })
  global _ m w = ok w

  abbrev pub put_frame : ℕ → Frame → World S → World S
  put_frame a f w = record w { frames = insert a f w.frames }

  abbrev pub at_frame : Closure → Message → Option ℕ → World S → Result Crash (World S)
  at_frame h m none w = ok w
  at_frame h m (some a) w = elim (lookup a w.frames) [
    | none ↦ ok w
    | some f ↦ elim (local h m f) [ ok f' ↦ ok (put_frame a f' w) | err e ↦ err e ]
  ]

  unfoldable pub run_closure : Closure → Message → World S → Result Crash (World S)
  unfolding local global
  run_closure h m w = elim (global h m w) [ ok w' ↦ at_frame h m (own h) w' | err e ↦ err e ]

  -- `for _, handler := range handlersCopy { handler(msg) }`
  unfoldable pub run_all : List Closure → Message → World S → Result Crash (World S)
  unfolding run_closure
  run_all [] m w = ok w
  run_all (h ∷ hs) m w = elim (run_closure h m w) [ ok w' ↦ run_all hs m w' | err e ↦ err e ]

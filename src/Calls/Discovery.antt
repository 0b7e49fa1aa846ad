-- ===== src/Calls/Discovery.antt =====
-- bluetooth.go: BluetoothGATTGetServices, whose closures collect services until a message ends the discovery.
pub mod Finding
pub mod Endings
use esphome_apiclient.Common.{
  ℕ, ◌≡◌, true, false, Option, none, some, List, [], ◌∷◌, ◌++◌, nat_eq, if◌then◌else◌, ◌||◌,
}
use esphome_apiclient.Stream.{Result, ok, err}
use esphome_apiclient.Pb.Types.{Int32, UInt64}
use esphome_apiclient.Pb.Message.{Message}
use esphome_apiclient.Pb.Bluetooth.{BluetoothGattService}
use esphome_apiclient.Client.Framer.{Framer}
use esphome_apiclient.Client.Exchange.{Protobuf}
use esphome_apiclient.Calls.{discovered, discover_done, discover_error, Frame, discovering, World}
use esphome_apiclient.Calls.Calling.{Call, Called, Failure}
use esphome_apiclient.Calls.Orders.{backwards}
use esphome_apiclient.Calls.Gatt.{GattError, call_failed, device_error, optional}

-- The deferred removals run last first.
abbrev pub services_call : UInt64 → Call
services_call address = record {
  start = discovering [] false none;
  claims = λ a.
      (71, discovered a address)
      ∷ (72, discover_done a address)
      ∷ (82, discover_error a address)
      ∷ [];
  request = Message.bluetooth_gatt_get_services_request (record { address = address });
  request_type = 70;
  order = backwards;
}

-- `case <-done`, with the error that was set or the services.
abbrev pub discovery : Frame → Option (Result Int32 (List BluetoothGattService))
discovery (discovering ss true none) = some (ok ss)
discovery (discovering ss true (some e)) = some (err e)
discovery _ = none

abbrev pub discovery_outcome :
    Result Failure (Result Int32 (List BluetoothGattService))
    → Result GattError (List BluetoothGattService)
discovery_outcome (err e) = err (call_failed e)
discovery_outcome (ok (err e)) = err (device_error e)
discovery_outcome (ok (ok ss)) = ok ss

-- The services of a device among the messages that arrived.
abbrev pub found : UInt64 → Message → List BluetoothGattService
found address (Message.bluetooth_gatt_get_services_response m) =
    if nat_eq m.address address then m.services else []
found address _ = []

abbrev pub services_found : UInt64 → List (ℕ × Message) → List BluetoothGattService
services_found address [] = []
services_found address ((t, m) ∷ ms) =
    (if nat_eq 71 t then found address m else []) ++ services_found address ms

-- The messages that end the discovery, with the error where they are one.
abbrev pub ending : UInt64 → Message → Option (Option Int32)
ending address (Message.bluetooth_gatt_get_services_done_response m) =
    if nat_eq m.address address then some none else none
ending address (Message.bluetooth_gatt_error_response m) =
    if nat_eq m.address address then some (some m.error) else none
ending address _ = none

abbrev pub endings : UInt64 → List (ℕ × Message) → List (Option Int32)
endings address [] = []
endings address ((t, m) ∷ ms) =
    (if nat_eq 72 t || nat_eq 82 t then optional (ending address m) else []) ++ endings address ms

module _ (P : Protobuf) (F : Framer) where
  unfoldable pub BluetoothGattGetServices :
      UInt64
      → World F.State
      → List (ℕ × Message)
      → Result GattError (List BluetoothGattService)
      → World F.State
      → Type 0
  BluetoothGattGetServices address w ms r w' =
      (x : Result Failure (Result Int32 (List BluetoothGattService))) × Called P F
        (services_call address) discovery w ms x w'
      × (r ≡ discovery_outcome x)

-- ===== src/Calls/Gatt.antt =====
-- bluetooth.go: BluetoothGATTRead, and BluetoothGATTWrite and BluetoothGATTNotify where they wait for a response.
-- Two closures send into one channel: the response of the operation, and the error.
pub mod Sending
pub mod Replies
use esphome_apiclient.Common.{
  ℕ, ◌+◌, ◌<◌, ◌≡◌, Bool, true, false, Option, none, some, List, [], ◌∷◌, ◌++◌, nat_key, nat_eq,
  if◌then◌else◌, ◌||◌, ◌&&◌,
}
use esphome_apiclient.Stream.{Result, ok, err}
use esphome_apiclient.Pb.Types.{Int32, UInt32, UInt64}
use esphome_apiclient.Pb.Message.{Message}
use esphome_apiclient.Client.Framer.{Framer}
use esphome_apiclient.Client.Exchange.{Protobuf, MessageError, send_message}
use esphome_apiclient.Calls.{
  Closure, read_answer, write_answer, notify_answer, gatt_failed, Frame, gatt, GattResult, answered,
  gatt_error, World,
}
use esphome_apiclient.Calls.Calling.{Call, Called, Failure, unsent}
use esphome_apiclient.Calls.Orders.{backwards}

pub data GattOperation : Type 0 where
  reading : GattOperation
  writing : List ℕ → GattOperation
  notifying : Bool → GattOperation

abbrev pub gatt_request : GattOperation → UInt64 → UInt32 → Message
gatt_request reading address handle =
    Message.bluetooth_gatt_read_request (record { address = address; handle = handle })
gatt_request (writing content) address handle =
    Message.bluetooth_gatt_write_request
      (record { address = address; handle = handle; response = true; content = content })
gatt_request (notifying enable) address handle =
    Message.bluetooth_gatt_notify_request
      (record { address = address; handle = handle; enable = enable })

abbrev pub gatt_request_type : GattOperation → ℕ
gatt_request_type reading = 73
gatt_request_type (writing content) = 75
gatt_request_type (notifying enable) = 78

abbrev pub gatt_response_type : GattOperation → ℕ
gatt_response_type reading = 74
gatt_response_type (writing content) = 83
gatt_response_type (notifying enable) = 84

abbrev pub gatt_answer : GattOperation → ℕ → UInt64 → UInt32 → Closure
gatt_answer reading a address handle = read_answer a address handle
gatt_answer (writing content) a address handle = write_answer a address handle
gatt_answer (notifying enable) a address handle = notify_answer a address handle

-- The deferred removeErr runs before the deferred removeResp.
abbrev pub gatt_call : GattOperation → UInt64 → UInt32 → Call
gatt_call op address handle = record {
  start = gatt none;
  claims = λ a.
      (gatt_response_type op, gatt_answer op a address handle)
      ∷ (82, gatt_failed a address handle)
      ∷ [];
  request = gatt_request op address handle;
  request_type = gatt_request_type op;
  order = backwards;
}

-- `case res := <-resCh`
abbrev pub gatt_result : Frame → Option GattResult
gatt_result (gatt x) = x
gatt_result _ = none

-- The reply that a message is for a handle of a device.
abbrev addressed : UInt64 → UInt32 → UInt64 → UInt32 → GattResult → Option GattResult
addressed address handle a h x = if nat_eq a address && nat_eq h handle then some x else none

abbrev pub reply : UInt64 → UInt32 → Message → Option GattResult
reply address handle (Message.bluetooth_gatt_read_response m) =
    addressed address handle m.address m.handle (answered m.content)
reply address handle (Message.bluetooth_gatt_write_response m) =
    addressed address handle m.address m.handle (answered [])
reply address handle (Message.bluetooth_gatt_notify_response m) =
    addressed address handle m.address m.handle (answered [])
reply address handle (Message.bluetooth_gatt_error_response m) =
    addressed address handle m.address m.handle (gatt_error m.error)
reply address handle _ = none

abbrev pub optional : {A : Type 0} → Option A → List A
optional none = []
optional (some a) = a ∷ []

-- The replies to an operation among the messages that arrived.
abbrev pub replies : GattOperation → UInt64 → UInt32 → List (ℕ × Message) → List GattResult
replies op address handle [] = []
replies op address handle ((t, m) ∷ ms) =
    (if nat_eq (gatt_response_type op) t || nat_eq 82 t
      then optional (reply address handle m)
      else [])
    ++ replies op address handle ms

pub data GattError : Type 0 where
  call_failed : Failure → GattError
  device_error : Int32 → GattError

-- `return res.data, res.err`; a write and a notification have no data.
abbrev pub gatt_outcome : Result Failure GattResult → Result GattError (List ℕ)
gatt_outcome (err e) = err (call_failed e)
gatt_outcome (ok (answered content)) = ok content
gatt_outcome (ok (gatt_error e)) = err (device_error e)

-- A write without a response is only sent.
abbrev pub write_only : UInt64 → UInt32 → List ℕ → Message
write_only address handle content =
    Message.bluetooth_gatt_write_request
      (record { address = address; handle = handle; response = false; content = content })

abbrev pub sent_only : Result MessageError (Unit {0}) → Result GattError (List ℕ)
sent_only (err e) = err (call_failed (unsent e))
sent_only (ok u) = ok []

module _ (P : Protobuf) (F : Framer) where
  unfoldable pub BluetoothGatt :
      GattOperation
      → UInt64
      → UInt32
      → World F.State
      → List (ℕ × Message)
      → Result GattError (List ℕ)
      → World F.State
      → Type 0
  BluetoothGatt op address handle w ms r w' =
      (x : Result Failure GattResult) × Called P F (gatt_call op address handle) gatt_result w ms x
        w'
      × (r ≡ gatt_outcome x)

  unfoldable pub BluetoothGattRead :
      UInt64
      → UInt32
      → World F.State
      → List (ℕ × Message)
      → Result GattError (List ℕ)
      → World F.State
      → Type 0
  unfolding BluetoothGatt
  BluetoothGattRead = BluetoothGatt reading

  unfoldable pub BluetoothGattWrite :
      UInt64
      → UInt32
      → List ℕ
      → Bool
      → World F.State
      → List (ℕ × Message)
      → Result GattError (List ℕ)
      → World F.State
      → Type 0
  unfolding BluetoothGatt
  BluetoothGattWrite address handle content true w ms r w' =
      BluetoothGatt (writing content) address handle w ms r w'
  BluetoothGattWrite address handle content false w ms r w' =
      let (x, client) = send_message P F (write_only address handle content) 75 w.client in
      (ms ≡ []) × (r ≡ sent_only x) × (w' ≡ record w { client = client })

  -- BluetoothGATTNotify without a handler.
  unfoldable pub BluetoothGattNotify :
      UInt64
      → UInt32
      → Bool
      → World F.State
      → List (ℕ × Message)
      → Result GattError (List ℕ)
      → World F.State
      → Type 0
  unfolding BluetoothGatt
  BluetoothGattNotify address handle enable = BluetoothGatt (notifying enable) address handle

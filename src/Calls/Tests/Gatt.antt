-- ===== src/Calls/Tests/Gatt.antt =====
-- bluetooth.go: a characteristic that is read.
use esphome_apiclient.Common.{ℕ, ◌≤◌, ◌≡◌, refl, List, [], ◌∷◌, nat_key, arith, length}
use esphome_apiclient.Stream.{Result, ok, err}
use esphome_apiclient.Pb.Message.{Message}
use esphome_apiclient.Router.{new_router, on, dispatch}
use esphome_apiclient.Client.State.{new_client}
use esphome_apiclient.Client.Exchange.{send_message}
use esphome_apiclient.Calls.{World, local, global, run_closure, run_all}
use esphome_apiclient.Calls.Frames.{mine}
use esphome_apiclient.Calls.Waiting.{Waits}
use esphome_apiclient.Calls.Registering.{register_claims}
use esphome_apiclient.Calls.Calling.{Call, open_call, close_call}
use esphome_apiclient.Pb.Types.{Int32}
use esphome_apiclient.Calls.{GattResult, answered, gatt_error}
use esphome_apiclient.Calls.Orders.{backwards}
use esphome_apiclient.Calls.Gatt.{
  reading, gatt_call, replies, BluetoothGatt, GattError, device_error, gatt_outcome,
}
use esphome_apiclient.Calls.Gatt.Replies.{BluetoothGatt-replies, BluetoothGatt-replied}
use esphome_apiclient.Calls.Tests.{
  anything, silent, idle, idle-IsReady, opened, arrived, arrives, next,
}

abbrev read_response : Message
read_response =
    Message.bluetooth_gatt_read_response (record { address = 5; handle = 3; content = 1 ∷ 2 ∷ [] })

-- An error of another handle.
abbrev other_error : Message
other_error = Message.bluetooth_gatt_error_response (record { address = 5; handle = 4; error = 1 })

abbrev read_messages : List (ℕ × Message)
read_messages = (82, other_error) ∷ (74, read_response) ∷ []

abbrev read_call : Call
read_call = gatt_call reading 5 3

abbrev read_ids : List (ℕ × ℕ)
read_ids = (register_claims (read_call.claims 0) idle.client.router).1

abbrev read_once : World (Unit {0})
read_once = next 82 other_error (opened read_call)

abbrev read_twice : World (Unit {0})
read_twice = next 74 read_response read_once

read_opened : open_call anything silent read_call idle ≡ (ok read_ids, opened read_call)
unfolding open_call register_claims send_message on new_client new_router
read_opened = refl

read_arrived : Waits 0 read_messages (opened read_call) read_twice
unfolding open_call register_claims send_message on dispatch run_all run_closure global local
    new_client new_router
read_arrived =
    arrives 82 other_error ((74, read_response) ∷ []) (opened read_call) read_once read_twice refl
      (arrived 74 read_response read_once read_twice refl)

BluetoothGatt-replied_example :
    (length (replies reading 5 3 read_messages) ≤ 1)
    × ((x : GattResult)
        → replies reading 5 3 read_messages ≡ x ∷ []
        → BluetoothGatt anything silent reading 5 3 idle read_messages
            (gatt_outcome (ok x))
            (close_call anything silent (backwards read_ids) read_twice))
unfolding new_client new_router
BluetoothGatt-replied_example =
    BluetoothGatt-replied anything silent reading 5 3 idle read_ids read_messages (opened read_call)
      read_twice idle-IsReady (omega arith) read_opened read_arrived

abbrev content_read : Result GattError (List ℕ)
content_read = ok (1 ∷ 2 ∷ [])

read_run :
    BluetoothGatt anything silent reading 5 3 idle read_messages content_read
      (close_call anything silent (backwards read_ids) read_twice)
read_run = BluetoothGatt-replied_example.1 (answered (1 ∷ 2 ∷ [])) refl

BluetoothGatt-replies_example :
    ((t : ℕ)
      → mine 0
          (dispatch t (close_call anything silent (backwards read_ids) read_twice).client.router)
        ≡ [])
    × ((content : List ℕ)
        → content_read ≡ ok content
        → replies reading 5 3 read_messages ≡ answered content ∷ [])
    × ((e : Int32)
        → content_read ≡ err (device_error e)
        → replies reading 5 3 read_messages ≡ gatt_error e ∷ [])
unfolding new_client new_router
BluetoothGatt-replies_example =
    BluetoothGatt-replies anything silent reading 5 3 idle read_messages content_read
      (close_call anything silent (backwards read_ids) read_twice) idle-IsReady (omega arith)
      read_run

-- ===== src/Calls/Tests/Discovery.antt =====
-- bluetooth.go: a discovery of one service.
use esphome_apiclient.Common.{
  ℕ, ◌≤◌, ◌≡◌, refl, Option, none, some, List, [], ◌∷◌, nat_key, arith, length,
}
use esphome_apiclient.Stream.{Result, ok, err}
use esphome_apiclient.Pb.Message.{Message}
use esphome_apiclient.Router.{new_router, on, dispatch}
use esphome_apiclient.Client.State.{new_client}
use esphome_apiclient.Client.Exchange.{send_message}
use esphome_apiclient.Calls.{World, local, global, run_closure, run_all}
use esphome_apiclient.Calls.Frames.{mine}
use esphome_apiclient.Calls.Waiting.{Waits}
use esphome_apiclient.Calls.Registering.{register_claims}
use esphome_apiclient.Calls.Calling.{open_call, close_call}
use esphome_apiclient.Pb.Types.{Int32}
use esphome_apiclient.Pb.Bluetooth.{BluetoothGattService}
use esphome_apiclient.Calls.Orders.{backwards}
use esphome_apiclient.Calls.Gatt.{GattError, device_error}
use esphome_apiclient.Calls.Discovery.{
  services_call, services_found, endings, discovery_outcome, BluetoothGattGetServices,
}
use esphome_apiclient.Calls.Discovery.Endings.{
  conclusion, BluetoothGattGetServices-found, BluetoothGattGetServices-endings,
}
use esphome_apiclient.Calls.Tests.{
  anything, silent, idle, idle-IsReady, opened, arrived, arrives, next,
}

abbrev services_response : Message
services_response = Message.bluetooth_gatt_get_services_response (record {
  address = 5;
  services = record { uuid = []; handle = 1; characteristics = []; short_uuid = 6144 } ∷ [];
})

abbrev done_response : Message
done_response = Message.bluetooth_gatt_get_services_done_response (record { address = 5 })

abbrev service_messages : List (ℕ × Message)
service_messages = (71, services_response) ∷ (72, done_response) ∷ []

abbrev service_ids : List (ℕ × ℕ)
service_ids = (register_claims ((services_call 5).claims 0) idle.client.router).1

abbrev found_once : World (Unit {0})
found_once = next 71 services_response (opened (services_call 5))

abbrev found_all : World (Unit {0})
found_all = next 72 done_response found_once

services_opened :
    open_call anything silent (services_call 5) idle ≡ (ok service_ids, opened (services_call 5))
unfolding open_call register_claims send_message on new_client new_router
services_opened = refl

services_arrived : Waits 0 service_messages (opened (services_call 5)) found_all
unfolding open_call register_claims send_message on dispatch run_all run_closure global local
    new_client new_router
services_arrived =
    arrives 71 services_response ((72, done_response) ∷ []) (opened (services_call 5)) found_once
      found_all refl (arrived 72 done_response found_once found_all refl)

BluetoothGattGetServices-endings_example :
    (length (endings 5 service_messages) ≤ 1)
    × ((y : Option Int32)
        → endings 5 service_messages ≡ y ∷ []
        → BluetoothGattGetServices anything silent 5 idle service_messages
            (discovery_outcome (ok (conclusion (services_found 5 service_messages) y)))
            (close_call anything silent (backwards service_ids) found_all))
unfolding new_client new_router
BluetoothGattGetServices-endings_example =
    BluetoothGattGetServices-endings anything silent 5 idle service_ids service_messages
      (opened (services_call 5)) found_all idle-IsReady (omega arith) services_opened
      services_arrived

abbrev services_read : Result GattError (List BluetoothGattService)
services_read = ok (services_found 5 service_messages)

services_run :
    BluetoothGattGetServices anything silent 5 idle service_messages services_read
      (close_call anything silent (backwards service_ids) found_all)
services_run = BluetoothGattGetServices-endings_example.1 none refl

BluetoothGattGetServices-found_example :
    ((t : ℕ)
      → mine 0
          (dispatch t (close_call anything silent (backwards service_ids) found_all).client.router)
        ≡ [])
    × ((ss : List BluetoothGattService)
        → services_read ≡ ok ss
        → (ss ≡ services_found 5 service_messages) × (endings 5 service_messages ≡ none ∷ []))
    × ((e : Int32)
        → services_read ≡ err (device_error e)
        → endings 5 service_messages ≡ some e ∷ [])
unfolding new_client new_router
BluetoothGattGetServices-found_example =
    BluetoothGattGetServices-found anything silent 5 idle service_messages services_read
      (close_call anything silent (backwards service_ids) found_all) idle-IsReady (omega arith)
      services_run

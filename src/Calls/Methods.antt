-- ===== src/Calls/Methods.antt =====
-- client.go and bluetooth.go: the methods that make one request and look at its response, and Close.
use esphome_apiclient.Common.{
  ℕ, ◌+◌, ◌^◌, ◌<◌, ◌≡◌, refl, sym, true, false, Option, none, some, List, [], nat_key, Bool-cases,
  inl, inr, if◌then◌else◌,
}
use esphome_apiclient.Stream.{Result, ok, err}
use esphome_apiclient.Pb.Types.{Enum, UInt64}
use esphome_apiclient.Pb.Message.{Message, Fields}
use esphome_apiclient.Pb.Bluetooth.{BluetoothDeviceConnectionResponse}
use esphome_apiclient.Client.Framer.{Framer, FramerError}
use esphome_apiclient.Client.State.{Client}
use esphome_apiclient.Client.Exchange.{Protobuf}
use esphome_apiclient.Calls.{Closure, World}
use esphome_apiclient.Calls.Waiting.{Waits}
use esphome_apiclient.Calls.Calling.{Failure, IsReady, open_call, close_call}
use esphome_apiclient.Calls.Requests.{
  RequestResponse, request_call, first, RequestResponse-first, RequestResponse-answered,
}

-- `wrong_response` is no error value but the panic of a type assertion.
pub data MethodError : Type 0 where
  unanswered : Failure → MethodError
  device_unchanged : UInt64 → MethodError
  wrong_response : MethodError

abbrev pub device_request : UInt64 → Enum → Message
device_request address request_type = Message.bluetooth_device_request (record {
  address = address;
  request_type = request_type;
  has_address_type = false;
  address_type = 0;
})

abbrev pub connect_v3_with_cache : Enum
connect_v3_with_cache = 4

abbrev pub disconnect_device : Enum
disconnect_device = 1

-- `resp.(*pb.BluetoothDeviceConnectionResponse)`
abbrev connection_response? : Message → Option BluetoothDeviceConnectionResponse
connection_response? (Message.bluetooth_device_connection_response m) = some m
connection_response? _ = none

abbrev pub device_info? : Message → Option Fields
device_info? (Message.device_info_response m) = some m
device_info? _ = none

abbrev assertion : {A : Type 0} → Option A → Result MethodError A
assertion none = err wrong_response
assertion (some a) = ok a

-- What the methods make of the result of requestResponse.
abbrev pub pong : Result Failure Message → Result MethodError (Unit {0})
pong (err e) = err (unanswered e)
pong (ok m) = ok tt

abbrev pub device_info_of : Result Failure Message → Result MethodError Fields
device_info_of (err e) = err (unanswered e)
device_info_of (ok m) = assertion (device_info? m)

abbrev connected_now :
    UInt64 → Option BluetoothDeviceConnectionResponse → Result MethodError (Unit {0})
connected_now address none = err wrong_response
connected_now address (some r) = if r.connected then ok tt else err (device_unchanged address)

abbrev disconnected_now :
    UInt64 → Option BluetoothDeviceConnectionResponse → Result MethodError (Unit {0})
disconnected_now address none = err wrong_response
disconnected_now address (some r) = if r.connected then err (device_unchanged address) else ok tt

unfoldable pub connect_result : UInt64 → Result Failure Message → Result MethodError (Unit {0})
connect_result address (err e) = err (unanswered e)
connect_result address (ok m) = connected_now address (connection_response? m)

unfoldable pub disconnect_result : UInt64 → Result Failure Message → Result MethodError (Unit {0})
disconnect_result address (err e) = err (unanswered e)
disconnect_result address (ok m) = disconnected_now address (connection_response? m)

connect_result-ok :
    (address : UInt64) (x : Result Failure Message)
    → connect_result address x ≡ ok tt
    → (c : BluetoothDeviceConnectionResponse) × (x
        ≡ ok (Message.bluetooth_device_connection_response c))
      × (c.connected ≡ true)
unfolding connect_result
connect_result-ok address (err e) h = absurd (let clash : err (unanswered e) ≡ ok tt = h in cc)
connect_result-ok address (ok (Message.bluetooth_device_connection_response c)) h =
    elim (Bool-cases c.connected) [
      | inl e ↦ (c, refl, e)
      | inr e ↦
          absurd
            (let clash : err (device_unchanged address) ≡ ok tt = rw (connect_result, e) at h in cc)
    ]
connect_result-ok address (ok _) h = absurd (let clash : err wrong_response ≡ ok tt = h in cc)

module _ (P : Protobuf) (F : Framer) where
  unfoldable pub Ping :
      World F.State → List (ℕ × Message) → Result MethodError (Unit {0}) → World F.State → Type 0
  Ping w ms r w' =
      (x : Result Failure Message) × RequestResponse P F (Message.ping_request []) 7 8 w ms x w'
      × (r ≡ pong x)

  unfoldable pub DeviceInfo :
      World F.State → List (ℕ × Message) → Result MethodError Fields → World F.State → Type 0
  DeviceInfo w ms r w' =
      (x : Result Failure Message) × RequestResponse P F (Message.device_info_request []) 9 10 w ms
        x w'
      × (r ≡ device_info_of x)

  unfoldable pub BluetoothConnect :
      UInt64
      → World F.State
      → List (ℕ × Message)
      → Result MethodError (Unit {0})
      → World F.State
      → Type 0
  BluetoothConnect address w ms r w' =
      (x : Result Failure Message) × RequestResponse P F
        (device_request address connect_v3_with_cache) 68 69 w ms x w'
      × (r ≡ connect_result address x)

  unfoldable pub BluetoothDisconnect :
      UInt64
      → World F.State
      → List (ℕ × Message)
      → Result MethodError (Unit {0})
      → World F.State
      → Type 0
  BluetoothDisconnect address w ms r w' =
      (x : Result Failure Message) × RequestResponse P F (device_request address disconnect_device)
        68 69 w ms x w'
      × (r ≡ disconnect_result address x)

  abbrev close_framer : Client F.State Closure → Option FramerError × Client F.State Closure
  close_framer c = elim c.framer [
    | none ↦ (none, c)
    | some s ↦ let (e, s') = F.close s in (e, record c { framer = some s' })
  ]

  unfoldable pub close : Client F.State Closure → Option FramerError × Client F.State Closure
  close c =
      if c.closed
      then (none, c)
      else close_framer (record c { closed = true; connected = false; cancelled = true })

  -- The deferred Close runs last, and its error is dropped.
  unfoldable pub Disconnect :
      World F.State → List (ℕ × Message) → Result MethodError (Unit {0}) → World F.State → Type 0
  unfolding close
  Disconnect w ms r w' =
      (x : Result Failure Message) × (w2 : World F.State) × RequestResponse P F
        (Message.disconnect_request []) 5 6
        (record w { client = record w.client { reconnect_interval = 0 } }) ms x w2
      × (r ≡ pong x)
      × (w' ≡ record w2 { client = (close w2.client).1 })

  -- In a client whose router is valid, has ids left, and has no closure of the frame that the call
  -- is given: BluetoothConnect succeeds only when the first BluetoothDeviceConnectionResponse that
  -- was dispatched while it waited says that a device is connected.
  pub BluetoothConnect-first :
      (address : UInt64) (w : World F.State) (ms : List (ℕ × Message)) (w' : World F.State)
      → IsReady w
      → w.client.router.next_id + 1 < 2 ^ 64
      → BluetoothConnect address w ms (ok tt) w'
      → (c : BluetoothDeviceConnectionResponse) × (first 69 ms
          ≡ some (Message.bluetooth_device_connection_response c))
        × (c.connected ≡ true)
  unfolding BluetoothConnect
  BluetoothConnect-first address w ms w' ready room (x, run, e) =
      let (c, is_ok, now) = connect_result-ok address x (sym e) in
      let (closed, value) =
        RequestResponse-first P F (device_request address connect_v3_with_cache) 68 69 w ms x w'
          ready room run in
      (c, value _ is_ok, now)

  -- In a client whose router is valid, has ids left, and has no closure of the frame that the call
  -- is given: once SendMessage has succeeded, and the first BluetoothDeviceConnectionResponse that
  -- was dispatched says that some device is connected, BluetoothConnect can succeed, whichever
  -- device that is.
  pub BluetoothConnect-any :
      (address : UInt64) (w : World F.State) (ids : List (ℕ × ℕ)) (ms : List (ℕ × Message))
      (w1 w2 : World F.State) (c : BluetoothDeviceConnectionResponse)
      → IsReady w
      → w.client.router.next_id + 1 < 2 ^ 64
      → open_call P F (request_call (device_request address connect_v3_with_cache) 68 69) w
        ≡ (ok ids, w1)
      → Waits w.next_frame ms w1 w2
      → first 69 ms ≡ some (Message.bluetooth_device_connection_response c)
      → c.connected ≡ true
      → BluetoothConnect address w ms (ok tt) (close_call P F ids w2)
  unfolding BluetoothConnect connect_result
  BluetoothConnect-any address w ids ms w1 w2 c ready room begun waits arrived now = (
    ok (Message.bluetooth_device_connection_response c),
    RequestResponse-answered P F (device_request address connect_v3_with_cache) 68 69 w ids ms w1 w2
        (Message.bluetooth_device_connection_response c) ready room begun waits arrived,
    rw (connect_result, now) refl,
  )

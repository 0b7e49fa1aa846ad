-- ===== src/Calls/Discovery/Endings.antt =====
-- What BluetoothGATTGetServices returns.
use esphome_apiclient.Common.{
  ℕ, ◌+◌, ◌^◌, ◌<◌, ◌≤◌, ◌≡◌, refl, ap, ◌∙◌, sym, Option, none, some, List, [], ◌∷◌, length,
  nat_key, arith,
}
use esphome_apiclient.Stream.{Result, ok, err}
use esphome_apiclient.Pb.Types.{Int32, UInt64}
use esphome_apiclient.Pb.Message.{Message}
use esphome_apiclient.Pb.Bluetooth.{BluetoothGattService}
use esphome_apiclient.Router.{dispatch}
use esphome_apiclient.Client.Framer.{Framer}
use esphome_apiclient.Client.Exchange.{Protobuf}
use esphome_apiclient.Calls.{Frame, World}
use esphome_apiclient.Calls.Frames.{mine}
use esphome_apiclient.Calls.Waiting.{Waits}
use esphome_apiclient.Calls.Calling.{Failure, IsReady, open_call, close_call}
use esphome_apiclient.Calls.Calling.Outcome.{Called-result, Called-ready, waited_reacts}
use esphome_apiclient.Calls.Orders.{backwards}
use esphome_apiclient.Calls.Gatt.{GattError, call_failed, device_error}
use esphome_apiclient.Calls.Discovery.{
  services_call, discovery, discovery_outcome, services_found, endings, BluetoothGattGetServices,
}
use esphome_apiclient.Calls.Discovery.Finding.{Finds, reacts-found, services_call-Sound}

discovered_one :
    (new : List BluetoothGattService) (es : List (Option Int32)) (f : Frame)
    (r : Result Int32 (List BluetoothGattService))
    → Finds new es [] none f
    → discovery f ≡ some r
    → ((ss : List BluetoothGattService) → r ≡ ok ss → (ss ≡ new) × (es ≡ none ∷ []))
      × ((e : Int32) → r ≡ err e → es ≡ some e ∷ [])
discovered_one new es f r (none, same, has) is_ready =
    absurd (let clash : none ≡ some r = sym (ap discovery same) ∙ is_ready in cc)
discovered_one new es f r (some none, same, has) is_ready =
    let q : some (ok new) ≡ some r = sym (ap discovery same) ∙ is_ready in
    ((λ ss e. (cc, sym has)), (λ e p. cc))
discovered_one new es f r (some (some n), same, has) is_ready =
    let q : some (err n) ≡ some r = sym (ap discovery same) ∙ is_ready in
    ((λ ss e. cc), (λ e p. let s : n ≡ e = cc in sym has ∙ ap (λ x. some x ∷ []) s))

discovered_few :
    (new : List BluetoothGattService) (es : List (Option Int32)) (f : Frame)
    → Finds new es [] none f
    → length es ≤ 1
discovered_few new es f (none, same, has) = rw (← has) (omega arith)
discovered_few new es f (some x, same, has) = rw (← has) (omega arith)

-- What the end of a discovery says.
abbrev pub conclusion :
    List BluetoothGattService → Option Int32 → Result Int32 (List BluetoothGattService)
conclusion ss none = ok ss
conclusion ss (some e) = err e

discovered_ready :
    (new : List BluetoothGattService) (es : List (Option Int32)) (f : Frame) (y : Option Int32)
    → Finds new es [] none f
    → es ≡ y ∷ []
    → discovery f ≡ some (conclusion new y)
discovered_ready new es f y (none, same, has) one =
    absurd (let clash : [] ≡ y ∷ [] = has ∙ one in cc)
discovered_ready new es f none (some none, same, has) one = ap discovery same
discovered_ready new es f (some n) (some (some k), same, has) one =
    let q : some k ∷ [] ≡ some n ∷ [] = has ∙ one in
    let s : k ≡ n = cc in ap discovery same ∙ ap (λ z. some (err z)) s
discovered_ready new es f (some n) (some none, same, has) one =
    absurd (let clash : none ∷ [] ≡ some n ∷ [] = has ∙ one in cc)
discovered_ready new es f none (some (some k), same, has) one =
    absurd (let clash : some k ∷ [] ≡ none ∷ [] = has ∙ one in cc)

discovery_outcome-ok :
    (x : Result Failure (Result Int32 (List BluetoothGattService))) (ss : List BluetoothGattService)
    → discovery_outcome x ≡ ok ss
    → x ≡ ok (ok ss)
discovery_outcome-ok (err e) ss h = absurd (let clash : err (call_failed e) ≡ ok ss = h in cc)
discovery_outcome-ok (ok (err e)) ss h = absurd (let clash : err (device_error e) ≡ ok ss = h in cc)
discovery_outcome-ok (ok (ok rs)) ss h =
    let q : ok rs ≡ ok ss = h in let s : rs ≡ ss = cc in ap (λ l. ok (ok l)) s

discovery_outcome-err :
    (x : Result Failure (Result Int32 (List BluetoothGattService))) (n : Int32)
    → discovery_outcome x ≡ err (device_error n)
    → x ≡ ok (err n)
discovery_outcome-err (err e) n h =
    absurd (let clash : err (call_failed e) ≡ err (device_error n) = h in cc)
discovery_outcome-err (ok (ok rs)) n h = absurd (let clash : ok rs ≡ err (device_error n) = h in cc)
discovery_outcome-err (ok (err e)) n h =
    let q : err (device_error e) ≡ err (device_error n) = h in
    let s : e ≡ n = cc in ap (λ l. ok (err l)) s

module _ (P : Protobuf) (F : Framer) (address : UInt64) where
  -- In a client whose router is valid, has ids left, and has no closure of the frame that the call
  -- is given: however BluetoothGATTGetServices ends, none of its handlers is in the router. When it
  -- returns services, they are all those of this device that were dispatched while it waited, in
  -- their order, and one message ended the discovery, which was no error; when it returns the error
  -- of the device, that was the one message that ended it.
  pub BluetoothGattGetServices-found :
      (w : World F.State) (ms : List (ℕ × Message))
      (r : Result GattError (List BluetoothGattService)) (w' : World F.State)
      → IsReady w
      → w.client.router.next_id + 3 < 2 ^ 64
      → BluetoothGattGetServices P F address w ms r w'
      → ((t : ℕ) → mine w.next_frame (dispatch t w'.client.router) ≡ [])
        × ((ss : List BluetoothGattService)
            → r ≡ ok ss
            → (ss ≡ services_found address ms) × (endings address ms ≡ none ∷ []))
        × ((e : Int32) → r ≡ err (device_error e) → endings address ms ≡ some e ∷ [])
  unfolding BluetoothGattGetServices
  BluetoothGattGetServices-found w ms r w' ready room (x, run, same) =
      let (closed, value) =
        Called-result P F (services_call address) w (services_call-Sound address w.next_frame) ready
          room discovery ms x w' run in
      (
        closed,
        (λ ss e.
            let (f, did, is_ready) = value (ok ss) (discovery_outcome-ok x ss (sym same ∙ e)) in
            (discovered_one (services_found address ms) (endings address ms) f (ok ss)
                (reacts-found address w.next_frame ms [] none f did) is_ready).0
              ss refl),
        (λ n e.
            let (f, did, is_ready) = value (err n) (discovery_outcome-err x n (sym same ∙ e)) in
            (discovered_one (services_found address ms) (endings address ms) f (err n)
                (reacts-found address w.next_frame ms [] none f did) is_ready).1
              n refl),
      )

  -- In a client whose router is valid, has ids left, and has no closure of the frame that the call
  -- is given: once SendMessage has succeeded, at most one message that ends the discovery of this
  -- device is dispatched while BluetoothGATTGetServices waits, since a second one, of which an
  -- error of any handle of the device is one, closes a closed channel; after one it can return.
  pub BluetoothGattGetServices-endings :
      (w : World F.State) (ids : List (ℕ × ℕ)) (ms : List (ℕ × Message)) (w1 w2 : World F.State)
      → IsReady w
      → w.client.router.next_id + 3 < 2 ^ 64
      → open_call P F (services_call address) w ≡ (ok ids, w1)
      → Waits w.next_frame ms w1 w2
      → (length (endings address ms) ≤ 1)
        × ((y : Option Int32)
            → endings address ms ≡ y ∷ []
            → BluetoothGattGetServices P F address w ms
                (discovery_outcome (ok (conclusion (services_found address ms) y)))
                (close_call P F (backwards ids) w2))
  unfolding BluetoothGattGetServices
  BluetoothGattGetServices-endings w ids ms w1 w2 ready room begun waits =
      let sound = services_call-Sound address w.next_frame in
      let (f, did) =
        waited_reacts P F (services_call address) w sound ready room ids ms w1 w2 begun waits in
      let finds = reacts-found address w.next_frame ms [] none f did in
      let new = services_found address ms in
      (
        discovered_few new (endings address ms) f finds,
        (λ y one. (
          ok (conclusion new y),
          Called-ready P F (services_call address) w sound ready room discovery ids ms w1 w2 f
              (conclusion new y) begun waits did
              (discovered_ready new (endings address ms) f y finds one),
          refl,
        )),
      )

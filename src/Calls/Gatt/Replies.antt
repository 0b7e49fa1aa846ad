-- ===== src/Calls/Gatt/Replies.antt =====
-- What a GATT operation that waits returns.
use esphome_apiclient.Common.{
  ℕ, ◌+◌, ◌^◌, ◌<◌, ◌≤◌, ◌≡◌, refl, ap, ◌∙◌, sym, none, some, List, [], ◌∷◌, nat_key, arith, length,
}
use esphome_apiclient.Stream.{Result, ok, err}
use esphome_apiclient.Pb.Types.{Int32, UInt32, UInt64}
use esphome_apiclient.Pb.Message.{Message}
use esphome_apiclient.Router.{dispatch}
use esphome_apiclient.Client.Framer.{Framer}
use esphome_apiclient.Client.Exchange.{Protobuf}
use esphome_apiclient.Calls.{Frame, GattResult, answered, gatt_error, World}
use esphome_apiclient.Calls.Frames.{mine}
use esphome_apiclient.Calls.Waiting.{Waits}
use esphome_apiclient.Calls.Calling.{Failure, IsReady, open_call, close_call}
use esphome_apiclient.Calls.Calling.Outcome.{Called-result, Called-ready, waited_reacts}
use esphome_apiclient.Calls.Orders.{backwards}
use esphome_apiclient.Calls.Gatt.{
  GattOperation, gatt_call, gatt_result, replies, optional, BluetoothGatt, GattError, device_error,
  call_failed, gatt_outcome,
}
use esphome_apiclient.Calls.Gatt.Sending.{Sends, reacts-replies, gatt_call-Sound}

sent_one :
    (ys : List GattResult) (y : GattResult) (f : Frame)
    → Sends ys none f
    → gatt_result f ≡ some y
    → ys ≡ y ∷ []
sent_one ys y f (x', same, has) is_ready =
    let q : x' ≡ some y = sym (ap gatt_result same) ∙ is_ready in sym has ∙ ap optional q

sent_few : (ys : List GattResult) (f : Frame) → Sends ys none f → length ys ≤ 1
sent_few ys f (none, same, has) = rw (← has) (omega arith)
sent_few ys f (some x, same, has) = rw (← has) (omega arith)

sent_ready :
    (ys : List GattResult) (y : GattResult) (f : Frame)
    → Sends ys none f
    → ys ≡ y ∷ []
    → gatt_result f ≡ some y
sent_ready ys y f (none, same, has) one = absurd (let clash : [] ≡ y ∷ [] = has ∙ one in cc)
sent_ready ys y f (some x, same, has) one =
    let q : x ∷ [] ≡ y ∷ [] = has ∙ one in let r : x ≡ y = cc in ap gatt_result same ∙ ap some r

gatt_outcome-ok :
    (x : Result Failure GattResult) (content : List ℕ)
    → gatt_outcome x ≡ ok content
    → x ≡ ok (answered content)
gatt_outcome-ok (err e) content h = absurd (let clash : err (call_failed e) ≡ ok content = h in cc)
gatt_outcome-ok (ok (answered bs)) content h =
    let q : ok bs ≡ ok content = h in let r : bs ≡ content = cc in ap (λ b. ok (answered b)) r
gatt_outcome-ok (ok (gatt_error e)) content h =
    absurd (let clash : err (device_error e) ≡ ok content = h in cc)

gatt_outcome-err :
    (x : Result Failure GattResult) (n : Int32)
    → gatt_outcome x ≡ err (device_error n)
    → x ≡ ok (gatt_error n)
gatt_outcome-err (err e) n h =
    absurd (let clash : err (call_failed e) ≡ err (device_error n) = h in cc)
gatt_outcome-err (ok (answered bs)) n h =
    absurd (let clash : ok bs ≡ err (device_error n) = h in cc)
gatt_outcome-err (ok (gatt_error e)) n h =
    let q : err (device_error e) ≡ err (device_error n) = h in
    let r : e ≡ n = cc in ap (λ b. ok (gatt_error b)) r

module _ (P : Protobuf) (F : Framer) (op : GattOperation) (address : UInt64) (handle : UInt32) where
  -- In a client whose router is valid, has ids left, and has no closure of the frame that the call
  -- is given: however a GATT operation that waits ends, neither of its handlers is in the router.
  -- When it returns the data or the error of the device, that is the one reply to this address and
  -- handle, among the responses of the operation and the errors, that was dispatched while it
  -- waited.
  pub BluetoothGatt-replies :
      (w : World F.State) (ms : List (ℕ × Message)) (r : Result GattError (List ℕ))
      (w' : World F.State)
      → IsReady w
      → w.client.router.next_id + 2 < 2 ^ 64
      → BluetoothGatt P F op address handle w ms r w'
      → ((t : ℕ) → mine w.next_frame (dispatch t w'.client.router) ≡ [])
        × ((content : List ℕ)
            → r ≡ ok content
            → replies op address handle ms ≡ answered content ∷ [])
        × ((e : Int32)
            → r ≡ err (device_error e)
            → replies op address handle ms ≡ gatt_error e ∷ [])
  unfolding BluetoothGatt
  BluetoothGatt-replies w ms r w' ready room (x, run, same) =
      let (closed, value) =
        Called-result P F (gatt_call op address handle) w
          (gatt_call-Sound op address handle w.next_frame) ready room gatt_result ms x w' run in
      let one : (y : GattResult) → x ≡ ok y → replies op address handle ms ≡ y ∷ [] = λ y e.
        let (f, did, is_ready) = value y e in
        sent_one (replies op address handle ms) y f
          (reacts-replies op address handle w.next_frame ms none f did) is_ready in
      (
        closed,
        (λ content e. one (answered content) (gatt_outcome-ok x content (sym same ∙ e))),
        (λ n e. one (gatt_error n) (gatt_outcome-err x n (sym same ∙ e))),
      )

  -- In a client whose router is valid, has ids left, and has no closure of the frame that the call
  -- is given: once SendMessage has succeeded, at most one reply to a GATT operation is dispatched
  -- while it waits, since the channel has room for one and the dispatch of a second does not end;
  -- after one reply the operation can return it.
  pub BluetoothGatt-replied :
      (w : World F.State) (ids : List (ℕ × ℕ)) (ms : List (ℕ × Message)) (w1 w2 : World F.State)
      → IsReady w
      → w.client.router.next_id + 2 < 2 ^ 64
      → open_call P F (gatt_call op address handle) w ≡ (ok ids, w1)
      → Waits w.next_frame ms w1 w2
      → (length (replies op address handle ms) ≤ 1)
        × ((x : GattResult)
            → replies op address handle ms ≡ x ∷ []
            → BluetoothGatt P F op address handle w ms
                (gatt_outcome (ok x))
                (close_call P F (backwards ids) w2))
  unfolding BluetoothGatt
  BluetoothGatt-replied w ids ms w1 w2 ready room begun waits =
      let sound = gatt_call-Sound op address handle w.next_frame in
      let (f, did) =
        waited_reacts P F (gatt_call op address handle) w sound ready room ids ms w1 w2 begun
          waits in
      let sends = reacts-replies op address handle w.next_frame ms none f did in
      (
        sent_few (replies op address handle ms) f sends,
        (λ x one. (
          ok x,
          Called-ready P F (gatt_call op address handle) w sound ready room gatt_result ids ms w1 w2
              f x begun waits did (sent_ready (replies op address handle ms) x f sends one),
          refl,
        )),
      )

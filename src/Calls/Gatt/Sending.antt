-- ===== src/Calls/Gatt/Sending.antt =====
-- What the messages that arrive send into the channel of a GATT operation.
use esphome_apiclient.Common.{
  ℕ, ◌≡◌, refl, ap, ◌∙◌, sym, Bool, true, false, Option, none, some, List, [], ◌∷◌, ◌++◌, nat_key,
  nat_eq, nat_eq_iff, arith, Bool-cases, inl, inr, if◌then◌else◌, ◌||◌, ◌&&◌, append-nil,
  append_assoc,
}
use esphome_apiclient.Stream.{ok, err}
use esphome_apiclient.Stream.Cases.{Result-cases}
use mathlib.Core.Path.{subst}
use esphome_apiclient.Pb.Types.{UInt32, UInt64}
use esphome_apiclient.Pb.Message.{Message}
use esphome_apiclient.Client.States.{Apart, none_twice-Apart}
use esphome_apiclient.Calls.{
  gatt_failed, Frame, gatt, GattResult, answered, gatt_error, local, send_result, panicked, blocked,
}
use esphome_apiclient.Calls.Frames.{owns, local_all_one}
use esphome_apiclient.Calls.Waiting.{react, reacts, reacts_cons, claimed}
use esphome_apiclient.Calls.Registering.{types}
use esphome_apiclient.Calls.Calling.{Sound}
use esphome_apiclient.Calls.Orders.{order-Sound, backwards_order}
use esphome_apiclient.Calls.Gatt.{
  GattOperation, reading, writing, notifying, gatt_call, gatt_answer, gatt_response_type, reply,
  replies, optional,
}

-- What a channel with room for one result has after some more have been sent.
abbrev pub Sends : List GattResult → Option GattResult → Frame → Type 0
Sends ys x f = (x' : Option GattResult) × (f ≡ gatt x') × (optional x' ≡ optional x ++ ys)

Sends-all :
    (ys zs : List GattResult) (x : Option GattResult) (f g : Frame)
    → Sends ys x f
    → ((x' : Option GattResult) → f ≡ gatt x' → Sends zs x' g)
    → Sends (ys ++ zs) x g
Sends-all ys zs x f g (x', same, has) rest =
    let (x'', same', has') = rest x' same in
    (x'', same', has' ∙ ap (λ l. l ++ zs) has ∙ append_assoc (optional x) ys zs)

send_matching :
    (b : Bool) (y : GattResult) (x : Option GattResult) (f : Frame)
    → (if b then send_result y (gatt x) else ok (gatt x)) ≡ ok f
    → Sends (optional (if b then some y else none)) x f
send_matching true y none f e = (some y, cc, refl)
send_matching true y (some x) f e = absurd (let clash : err blocked ≡ ok f = e in cc)
send_matching false y x f e = (x, cc, sym (append-nil (optional x)))

local_answer :
    (op : GattOperation) (a : ℕ) (address : UInt64) (handle : UInt32) (m : Message)
    (x : Option GattResult) (f : Frame)
    → local (gatt_answer op a address handle) m (gatt x) ≡ ok f
    → Sends (optional (reply address handle m)) x f
unfolding local
local_answer reading a address handle (Message.bluetooth_gatt_read_response m) x f e =
    send_matching (nat_eq m.address address && nat_eq m.handle handle) (answered m.content) x f e
local_answer (writing content) a address handle (Message.bluetooth_gatt_write_response m) x f e =
    send_matching (nat_eq m.address address && nat_eq m.handle handle) (answered []) x f e
local_answer (notifying enable) a address handle (Message.bluetooth_gatt_notify_response m) x f e =
    send_matching (nat_eq m.address address && nat_eq m.handle handle) (answered []) x f e
local_answer reading a address handle _ x f e = absurd (let clash : err panicked ≡ ok f = e in cc)
local_answer (writing content) a address handle _ x f e =
    absurd (let clash : err panicked ≡ ok f = e in cc)
local_answer (notifying enable) a address handle _ x f e =
    absurd (let clash : err panicked ≡ ok f = e in cc)

local_failed :
    (a : ℕ) (address : UInt64) (handle : UInt32) (m : Message) (x : Option GattResult) (f : Frame)
    → local (gatt_failed a address handle) m (gatt x) ≡ ok f
    → Sends (optional (reply address handle m)) x f
unfolding local
local_failed a address handle (Message.bluetooth_gatt_error_response m) x f e =
    send_matching (nat_eq m.address address && nat_eq m.handle handle) (gatt_error m.error) x f e
local_failed a address handle _ x f e = absurd (let clash : err panicked ≡ ok f = e in cc)

error_apart :
    (op : GattOperation) (t : ℕ) → nat_eq 82 t ≡ true → nat_eq (gatt_response_type op) t ≡ false
error_apart reading t e = ground (arith, nat_eq_iff 82 t, nat_eq_iff 74 t)
error_apart (writing content) t e = ground (arith, nat_eq_iff 82 t, nat_eq_iff 83 t)
error_apart (notifying enable) t e = ground (arith, nat_eq_iff 82 t, nat_eq_iff 84 t)

module _ (op : GattOperation) (address : UInt64) (handle : UInt32) where
  react-replies :
      (a t : ℕ) (m : Message) (x : Option GattResult) (f : Frame)
      → react ((gatt_call op address handle).claims a) t m (gatt x) ≡ ok f
      → Sends
          (if nat_eq (gatt_response_type op) t || nat_eq 82 t
            then optional (reply address handle m)
            else [])
          x
          f
  react-replies a t m x f e = elim (Bool-cases (nat_eq (gatt_response_type op) t)) [
    | inl b ↦ rw b (
        local_answer op a address handle m x f (
          local_all_one (gatt_answer op a address handle) m (gatt x) f
            (rw (react, claimed, b) at e)))
    | inr b ↦ elim (Bool-cases (nat_eq 82 t)) [
      | inl c ↦
          rw (b, c)
            (local_failed a address handle m x f (
              local_all_one (gatt_failed a address handle) m (gatt x) f
                (rw (react, claimed, b, c) at e)))
      | inr c ↦
          let q : ok (gatt x) ≡ ok f = rw (react, claimed, b, c) at e in
          rw (b, c) (x, cc, sym (append-nil (optional x)))
    ]
  ]

  pub reacts-replies :
      (a : ℕ) (ms : List (ℕ × Message)) (x : Option GattResult) (f : Frame)
      → reacts ((gatt_call op address handle).claims a) ms (gatt x) ≡ ok f
      → Sends (replies op address handle ms) x f
  reacts-replies a [] x f e = (x, cc, sym (append-nil (optional x)))
  reacts-replies a ((t, m) ∷ ms) x f e =
      elim (Result-cases (react ((gatt_call op address handle).claims a) t m (gatt x))) [
        | inr (y, failed) ↦ absurd (let clash : err y ≡ ok f = rw (reacts, failed) at e in cc)
        | inl (g, did) ↦
            let rest : reacts ((gatt_call op address handle).claims a) ms g ≡ ok f =
              sym (reacts_cons ((gatt_call op address handle).claims a) t m ms (gatt x) g did)
              ∙ e in
            Sends-all
              (if nat_eq (gatt_response_type op) t || nat_eq 82 t
                then optional (reply address handle m)
                else [])
              (replies op address handle ms) x g f (react-replies a t m x g did)
              (λ x' same. reacts-replies a ms x' f (
                subst (λ z. reacts ((gatt_call op address handle).claims a) ms z ≡ ok f) same rest))
      ]

  pub gatt_call-Sound : (a : ℕ) → Sound (gatt_call op address handle) a
  gatt_call-Sound a =
      let here : nat_eq a a ≡ true = (nat_eq_iff a a).1 refl in
      order-Sound (gatt_call op address handle) a (apart op) (here_answer op here, (here, tt))
        backwards_order
    where
      apart : (o : GattOperation) → Apart (types ((gatt_call o address handle).claims a))
      apart reading = none_twice-Apart (74 ∷ 82 ∷ []) refl
      apart (writing content) = none_twice-Apart (83 ∷ 82 ∷ []) refl
      apart (notifying enable) = none_twice-Apart (84 ∷ 82 ∷ []) refl

      here_answer :
          (o : GattOperation) → nat_eq a a ≡ true → owns a (gatt_answer o a address handle) ≡ true
      here_answer reading e = e
      here_answer (writing content) e = e
      here_answer (notifying enable) e = e

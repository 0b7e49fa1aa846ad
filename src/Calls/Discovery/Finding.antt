-- ===== src/Calls/Discovery/Finding.antt =====
-- What the messages that arrive make of the frame of BluetoothGATTGetServices.
use esphome_apiclient.Common.{
  ℕ, ◌≡◌, refl, ap, ◌∙◌, sym, Bool, true, false, Option, none, some, List, [], ◌∷◌, ◌++◌, nat_key,
  nat_eq, nat_eq_iff, Bool-cases, inl, inr, if◌then◌else◌, ◌||◌, append-nil, append_assoc,
}
use esphome_apiclient.Stream.{ok, err}
use esphome_apiclient.Stream.Cases.{Result-cases}
use mathlib.Core.Path.{subst}
use esphome_apiclient.Pb.Types.{Int32, UInt64}
use esphome_apiclient.Pb.Message.{Message}
use esphome_apiclient.Pb.Bluetooth.{BluetoothGattService}
use esphome_apiclient.Client.States.{none_twice-Apart}
use esphome_apiclient.Calls.{
  discovered, discover_done, discover_error, Frame, discovering, local, close_discovery, panicked,
}
use esphome_apiclient.Calls.Frames.{local_all_one}
use esphome_apiclient.Calls.Waiting.{react, reacts, reacts_cons, claimed}
use esphome_apiclient.Calls.Calling.{Sound}
use esphome_apiclient.Calls.Orders.{order-Sound, backwards_order}
use esphome_apiclient.Calls.Gatt.{optional}
use esphome_apiclient.Calls.Discovery.{services_call, found, services_found, ending, endings}

-- The frame of a discovery that goes on, or has ended.
abbrev pub discovers : List BluetoothGattService → Option (Option Int32) → Frame
discovers ss none = discovering ss false none
discovers ss (some e) = discovering ss true e

-- What more services and more ends make of it.
abbrev pub Finds :
    List BluetoothGattService
    → List (Option Int32)
    → List BluetoothGattService
    → Option (Option Int32)
    → Frame
    → Type 0
Finds new es ss x f =
    (x' : Option (Option Int32)) × (f ≡ discovers (ss ++ new) x') × (optional x' ≡ optional x ++ es)

Finds-nothing :
    (ss : List BluetoothGattService) (x : Option (Option Int32)) (f : Frame)
    → f ≡ discovers ss x
    → Finds [] [] ss x f
Finds-nothing ss x f same =
    (x, same ∙ ap (λ l. discovers l x) (sym (append-nil ss)), sym (append-nil (optional x)))

Finds-all :
    (new more ss : List BluetoothGattService) (es es' : List (Option Int32))
    (x : Option (Option Int32)) (f g : Frame)
    → Finds new es ss x f
    → ((x' : Option (Option Int32))
        → f ≡ discovers (ss ++ new) x'
        → Finds more es' (ss ++ new) x' g)
    → Finds (new ++ more) (es ++ es') ss x g
Finds-all new more ss es es' x f g (x', same, has) rest =
    let (x'', same', has') = rest x' same in
    (
      x'',
      same' ∙ ap (λ l. discovers l x'') (append_assoc ss new more),
      has' ∙ ap (λ l. l ++ es') has ∙ append_assoc (optional x) es es',
    )

local_discovered :
    (a : ℕ) (address : UInt64) (m : Message) (ss : List BluetoothGattService)
    (x : Option (Option Int32)) (f : Frame)
    → local (discovered a address) m (discovers ss x) ≡ ok f
    → Finds (found address m) [] ss x f
unfolding local
local_discovered a address (Message.bluetooth_gatt_get_services_response m) ss none f e =
    elim (Bool-cases (nat_eq m.address address)) [
      | inl b ↦ rw b (
        none,
        (let q : ok (discovering (ss ++ m.services) false none) ≡ ok f = rw b at e in cc),
        refl,
      )
      | inr b ↦ rw b (
          Finds-nothing ss none f (let q : ok (discovering ss false none) ≡ ok f = rw b at e in cc))
    ]
local_discovered a address (Message.bluetooth_gatt_get_services_response m) ss (some y) f e =
    elim (Bool-cases (nat_eq m.address address)) [
      | inl b ↦ rw b (
        some y,
        (let q : ok (discovering (ss ++ m.services) true y) ≡ ok f = rw b at e in cc),
        refl,
      )
      | inr b ↦ rw b (
          Finds-nothing ss (some y) f (let q : ok (discovering ss true y) ≡ ok f = rw b at e in cc))
    ]
local_discovered a address _ ss x f e = absurd (let clash : err panicked ≡ ok f = e in cc)

closes :
    (b : Bool) (y : Option Int32) (ss : List BluetoothGattService) (x : Option (Option Int32))
    (f : Frame)
    → (if b then close_discovery y (discovers ss x) else ok (discovers ss x)) ≡ ok f
    → Finds [] (optional (if b then some y else none)) ss x f
closes true y ss none f e =
    (some y, (let q : ok (discovering ss true y) ≡ ok f = e in rw (append-nil ss) cc), refl)
closes true y ss (some z) f e = absurd (let clash : err panicked ≡ ok f = e in cc)
closes false y ss x f e = Finds-nothing ss x f cc

local_done :
    (a : ℕ) (address : UInt64) (m : Message) (ss : List BluetoothGattService)
    (x : Option (Option Int32)) (f : Frame)
    → local (discover_done a address) m (discovers ss x) ≡ ok f
    → Finds [] (optional (ending address m)) ss x f
unfolding local
local_done a address (Message.bluetooth_gatt_get_services_done_response m) ss none f e =
    closes (nat_eq m.address address) none ss none f e
local_done a address (Message.bluetooth_gatt_get_services_done_response m) ss (some y) f e =
    elim (Bool-cases (nat_eq m.address address)) [
      | inl b ↦ absurd (let clash : err panicked ≡ ok f = rw b at e in cc)
      | inr b ↦ rw b (
          Finds-nothing ss (some y) f (let q : ok (discovering ss true y) ≡ ok f = rw b at e in cc))
    ]
local_done a address _ ss x f e = absurd (let clash : err panicked ≡ ok f = e in cc)

local_error :
    (a : ℕ) (address : UInt64) (m : Message) (ss : List BluetoothGattService)
    (x : Option (Option Int32)) (f : Frame)
    → local (discover_error a address) m (discovers ss x) ≡ ok f
    → Finds [] (optional (ending address m)) ss x f
unfolding local
local_error a address (Message.bluetooth_gatt_error_response m) ss x f e =
    closes (nat_eq m.address address) (some m.error) ss x f e
local_error a address _ ss x f e = absurd (let clash : err panicked ≡ ok f = e in cc)

module _ (address : UInt64) where
  react-found :
      (a t : ℕ) (m : Message) (ss : List BluetoothGattService) (x : Option (Option Int32))
      (f : Frame)
      → react ((services_call address).claims a) t m (discovers ss x) ≡ ok f
      → Finds
          (if nat_eq 71 t then found address m else [])
          (if nat_eq 72 t || nat_eq 82 t then optional (ending address m) else [])
          ss
          x
          f
  react-found a t m ss x f e = elim (Bool-cases (nat_eq 71 t)) [
    | inl b ↦
        let same : 71 ≡ t = (nat_eq_iff 71 t).0 b in
        let its : react ((services_call address).claims a) 71 m (discovers ss x) ≡ ok f =
          subst (λ u. react ((services_call address).claims a) u m (discovers ss x) ≡ ok f)
            (sym same) e in
        rw (← same) (
          local_discovered a address m ss x f
            (local_all_one (discovered a address) m (discovers ss x) f its))
    | inr b ↦ elim (Bool-cases (nat_eq 72 t)) [
      | inl c ↦
          rw (b, c)
            (local_done a address m ss x f (
              local_all_one (discover_done a address) m (discovers ss x) f
                (rw (react, claimed, b, c) at e)))
      | inr c ↦ elim (Bool-cases (nat_eq 82 t)) [
        | inl d ↦
            rw (b, c, d)
              (local_error a address m ss x f (
                local_all_one (discover_error a address) m (discovers ss x) f
                  (rw (react, claimed, b, c, d) at e)))
        | inr d ↦
            let q : ok (discovers ss x) ≡ ok f = rw (react, claimed, b, c, d) at e in
            rw (b, c, d) (Finds-nothing ss x f cc)
      ]
    ]
  ]

  pub reacts-found :
      (a : ℕ) (ms : List (ℕ × Message)) (ss : List BluetoothGattService) (x : Option (Option Int32))
      (f : Frame)
      → reacts ((services_call address).claims a) ms (discovers ss x) ≡ ok f
      → Finds (services_found address ms) (endings address ms) ss x f
  reacts-found a [] ss x f e = Finds-nothing ss x f (let q : ok (discovers ss x) ≡ ok f = e in cc)
  reacts-found a ((t, m) ∷ ms) ss x f e =
      elim (Result-cases (react ((services_call address).claims a) t m (discovers ss x))) [
        | inr (y, failed) ↦ absurd (let clash : err y ≡ ok f = rw (reacts, failed) at e in cc)
        | inl (g, did) ↦
            let rest : reacts ((services_call address).claims a) ms g ≡ ok f =
              sym (reacts_cons ((services_call address).claims a) t m ms (discovers ss x) g did)
              ∙ e in
            let new : List BluetoothGattService = if nat_eq 71 t then found address m else [] in
            Finds-all new (services_found address ms) ss
              (if nat_eq 72 t || nat_eq 82 t then optional (ending address m) else [])
              (endings address ms) x g f (react-found a t m ss x g did)
              (λ x' same.
                reacts-found a ms (ss ++ new) x' f
                  (subst (λ z. reacts ((services_call address).claims a) ms z ≡ ok f) same rest))
      ]

  pub services_call-Sound : (a : ℕ) → Sound (services_call address) a
  services_call-Sound a =
      let here : nat_eq a a ≡ true = (nat_eq_iff a a).1 refl in
      order-Sound (services_call address) a (none_twice-Apart (71 ∷ 72 ∷ 82 ∷ []) refl)
        (here, (here, (here, tt))) backwards_order

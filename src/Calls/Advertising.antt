-- ===== src/Calls/Advertising.antt =====
-- bluetooth.go: the subscriptions to advertisements and to free connection slots, and the mode of the scanner.
use esphome_apiclient.Common.{
  ℕ, ◌+◌, ◌^◌, ◌<◌, ◌≡◌, refl, ap, ◌∙◌, true, Option, List, [], ◌∷◌, inl, inr, nat_key,
}
use esphome_apiclient.Common.Maps.{values}
use esphome_apiclient.Stream.{ok, err, Reads, wrapping}
use esphome_apiclient.Stream.Cases.{Result-cases}
use mathlib.Core.List.{Perm}
use esphome_apiclient.Pb.Types.{Enum}
use esphome_apiclient.Pb.Message.{Message}
use esphome_apiclient.Router.{Router, on, remove, dispatch}
use esphome_apiclient.Router.Registered.{IsValid}
use esphome_apiclient.Client.Framer.{Framer}
use esphome_apiclient.Client.State.{Client}
use esphome_apiclient.Client.Exchange.{Protobuf, send_message}
use esphome_apiclient.Client.Greeting.{send_SameBut}
use esphome_apiclient.Client.Requests.{RequestError, request_unsent}
use esphome_apiclient.Client.States.{
  Apart, member, none_twice-Apart, register_all, remove_all, of_type-undo, dispatch-register_all,
}
use esphome_apiclient.Calls.{Closure, advertised, connections}

-- The legacy advertisements and the raw ones.
abbrev pub advertisement_ids : List ℕ
advertisement_ids = 67 ∷ 93 ∷ []

abbrev pub advertisements_request : Message
advertisements_request = Message.subscribe_bluetooth_le_advertisements_request []

module _ (P : Protobuf) (F : Framer) where
  unfoldable pub subscribe_bluetooth_advertisements :
      Option ℕ → Reads (Client F.State Closure) RequestError (List (ℕ × ℕ))
  unfolding register_all remove_all
  subscribe_bluetooth_advertisements handler c =
      let (router, removes) = register_all advertisement_ids (advertised handler) c.router in
      let (r, c1) = send_message P F advertisements_request 66 (record c { router = router }) in
      elim r [
        | err e ↦ (err (request_unsent e), record c1 { router = remove_all removes c1.router })
        | ok u ↦ (ok removes, c1)
      ]

  -- The function that it returns; the error of the last request is dropped.
  unfoldable pub unsubscribe_bluetooth_advertisements :
      List (ℕ × ℕ) → Client F.State Closure → Client F.State Closure
  unfolding remove_all
  unsubscribe_bluetooth_advertisements removes c =
      (send_message P F (Message.unsubscribe_bluetooth_le_advertisements_request []) 87
        (record c { router = remove_all removes c.router })).1

  unfoldable pub subscribe_bluetooth_connections_free :
      Option ℕ → Reads (Client F.State Closure) RequestError ℕ
  subscribe_bluetooth_connections_free handler c =
      let (router, id) = on 81 (connections handler) c.router in
      let (r, c1) =
        send_message P F (Message.subscribe_bluetooth_connections_free_request []) 80
          (record c { router = router }) in
      elim r [
        | err e ↦ (err (request_unsent e), record c1 { router = remove 81 id c1.router })
        | ok u ↦ (ok id, c1)
      ]

  unfoldable pub bluetooth_scanner_set_mode :
      Enum → Reads (Client F.State Closure) RequestError (Unit {0})
  bluetooth_scanner_set_mode mode =
      wrapping request_unsent
        (send_message P F (Message.bluetooth_scanner_set_mode_request (record { mode = mode })) 127)

  -- In a client whose router is valid and has fewer than 2 ^ 64 - 2 ids given out: when
  -- SubscribeBluetoothAdvertisements succeeds, its closure is called for both kinds of advertisements besides what
  -- was called before, and to call the function that it returns at once undoes that, whether or not its request
  -- can be sent; when it fails, Dispatch calls what it called before.
  pub subscribe_bluetooth_advertisements-dispatch :
      (handler : Option ℕ) (c : Client F.State Closure)
      → IsValid c.router
      → c.router.next_id + 2 < 2 ^ 64
      → let (r, c1) = subscribe_bluetooth_advertisements handler c in
        ((removes : List (ℕ × ℕ))
          → r ≡ ok removes
          → ((t : ℕ)
              → member t advertisement_ids ≡ true
              → Perm (dispatch t c1.router) (advertised handler ∷ dispatch t c.router))
            × ((t : ℕ)
                → dispatch t (unsubscribe_bluetooth_advertisements removes c1).router
                  ≡ dispatch t c.router))
        × ((e : RequestError) → r ≡ err e → (t : ℕ) → dispatch t c1.router ≡ dispatch t c.router)
  unfolding subscribe_bluetooth_advertisements unsubscribe_bluetooth_advertisements dispatch
  subscribe_bluetooth_advertisements-dispatch handler c v room =
      elim (Result-cases (send_message P F advertisements_request 66 c0).0) [
        | inl (u, sent) ↦
            rw (subscribe_bluetooth_advertisements, sent, kept)
              (
                (λ removes e.
                    let same : all.1 ≡ removes = cc in
                    (
                      (λ t m.
                          dispatch-register_all t advertisement_ids (advertised handler) c.router v
                            room distinct m),
                      (λ t. rw (← same) (ap (λ r. dispatch t r) unsubscribed ∙ undone t)),
                    )),
                (λ x e. cc),
              )
        | inr (x, failed) ↦
            rw (subscribe_bluetooth_advertisements, failed, kept)
              ((λ removes e. cc), (λ y e t. undone t))
      ]
    where
      all : Router Closure × List (ℕ × ℕ)
      all = register_all advertisement_ids (advertised handler) c.router

      c0 : Client F.State Closure
      c0 = record c { router = all.0 }

      c1 : Client F.State Closure
      c1 = (send_message P F advertisements_request 66 c0).1

      kept : c1.router ≡ all.0
      kept = ap (λ x. x.router) (send_SameBut P F advertisements_request 66 c0)

      distinct : Apart advertisement_ids
      distinct = none_twice-Apart advertisement_ids refl

      undone : (t : ℕ) → dispatch t (remove_all all.1 all.0) ≡ dispatch t c.router
      undone t =
          ap values (of_type-undo t advertisement_ids (advertised handler) c.router v room distinct)

      unsubscribed : (unsubscribe_bluetooth_advertisements all.1 c1).router ≡ remove_all all.1 all.0
      unsubscribed =
          ap (λ x. x.router)
            (send_SameBut P F (Message.unsubscribe_bluetooth_le_advertisements_request []) 87
              (record c1 { router = remove_all all.1 c1.router }))
          ∙ ap (remove_all all.1) kept

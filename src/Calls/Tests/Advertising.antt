-- ===== src/Calls/Tests/Advertising.antt =====
-- bluetooth.go: advertisements.
use esphome_apiclient.Common.{ℕ, ◌≡◌, true, some, List, ◌∷◌, nat_key, arith}
use esphome_apiclient.Stream.{ok, err}
use esphome_apiclient.Router.{new_router, dispatch}
use esphome_apiclient.Router.Registered.{new_router-IsValid}
use esphome_apiclient.Client.State.{new_client}
use esphome_apiclient.Calls.Tests.{anything, silent, idle}
use mathlib.Core.List.{Perm}
use esphome_apiclient.Client.Requests.{RequestError}
use esphome_apiclient.Client.States.{member}
use esphome_apiclient.Calls.{advertised}
use esphome_apiclient.Calls.Advertising.{
  advertisement_ids, subscribe_bluetooth_advertisements, unsubscribe_bluetooth_advertisements,
  subscribe_bluetooth_advertisements-dispatch,
}

subscribe_bluetooth_advertisements-dispatch_example :
    let (r, c1) = subscribe_bluetooth_advertisements anything silent (some 100) idle.client in
    ((removes : List (ℕ × ℕ))
      → r ≡ ok removes
      → ((t : ℕ)
          → member t advertisement_ids ≡ true
          → Perm (dispatch t c1.router) (advertised (some 100) ∷ dispatch t idle.client.router))
        × ((t : ℕ)
            → dispatch t (unsubscribe_bluetooth_advertisements anything silent removes c1).router
              ≡ dispatch t idle.client.router))
    × ((e : RequestError)
        → r ≡ err e
        → (t : ℕ) → dispatch t c1.router ≡ dispatch t idle.client.router)
unfolding new_router new_client
subscribe_bluetooth_advertisements-dispatch_example =
    subscribe_bluetooth_advertisements-dispatch anything silent (some 100) idle.client
      new_router-IsValid (omega arith)

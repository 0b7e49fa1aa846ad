-- ===== src/Calls/Tests/Listing.antt =====
-- client.go: a device that lists one service.
use esphome_apiclient.Common.{ℕ, ◌≤◌, ◌≡◌, refl, List, [], ◌∷◌, nat_key, arith}
use esphome_apiclient.Stream.{Result, ok}
use esphome_apiclient.Pb.Message.{Message}
use esphome_apiclient.Router.{new_router, on, dispatch}
use esphome_apiclient.Client.State.{new_client}
use esphome_apiclient.Client.Exchange.{send_message}
use esphome_apiclient.Calls.{World, local, global, run_closure, run_all}
use esphome_apiclient.Calls.Frames.{mine}
use esphome_apiclient.Calls.Waiting.{Waits}
use esphome_apiclient.Calls.Registering.{register_claims}
use esphome_apiclient.Calls.Calling.{Failure, open_call, close_call}
use esphome_apiclient.Calls.Orders.{first_last}
use esphome_apiclient.Entities.Handle.{handle_list_entity_message}
use esphome_apiclient.Services.{handle_service_definition}
use esphome_apiclient.Calls.Listing.{list_call, is_listing, listings, ends, ListEntities}
use esphome_apiclient.Calls.Listing.Collecting.{ListEntities-listings, ListEntities-ended}
use esphome_apiclient.Calls.Tests.{
  anything, silent, idle, idle-IsReady, opened, arrived, arrives, next,
}

-- The device lists one service.
abbrev service : Message
service =
    Message.list_entities_services_response
      (record { name = "play"; key = 7; args = []; supports_response = 0 })

abbrev list_done_response : Message
list_done_response = Message.list_entities_done_response []

abbrev service_listed : World (Unit {0})
service_listed = next 41 service (opened list_call)

abbrev all_listed : World (Unit {0})
all_listed = next 19 list_done_response service_listed

abbrev list_ids : List (ℕ × ℕ)
list_ids = (register_claims (list_call.claims 0) idle.client.router).1

list_opened : open_call anything silent list_call idle ≡ (ok list_ids, opened list_call)
unfolding open_call register_claims send_message on new_client new_router
list_opened = refl

list_arrived : Waits 0 ((41, service) ∷ (19, list_done_response) ∷ []) (opened list_call) all_listed
unfolding open_call register_claims send_message on dispatch run_all run_closure global local
    new_client new_router handle_list_entity_message handle_service_definition
list_arrived =
    arrives 41 service ((19, list_done_response) ∷ []) (opened list_call) service_listed all_listed
      refl (arrived 19 list_done_response service_listed all_listed refl)

ListEntities-ended_example :
    (ends ((41, service) ∷ (19, list_done_response) ∷ []) ≤ 1)
    × (ends ((41, service) ∷ (19, list_done_response) ∷ []) ≡ 1
        → ListEntities anything silent idle
            ((41, service) ∷ (19, list_done_response) ∷ [])
            (ok (listings ((41, service) ∷ (19, list_done_response) ∷ [])))
            (close_call anything silent (first_last list_ids) all_listed))
unfolding new_client new_router
ListEntities-ended_example =
    ListEntities-ended anything silent idle list_ids ((41, service) ∷ (19, list_done_response) ∷ [])
      (opened list_call) all_listed idle-IsReady (omega arith) list_opened list_arrived

abbrev listed_service : Result Failure (List Message)
listed_service = ok (service ∷ [])

list_run :
    ListEntities anything silent idle
      ((41, service) ∷ (19, list_done_response) ∷ [])
      listed_service
      (close_call anything silent (first_last list_ids) all_listed)
unfolding is_listing
list_run = ListEntities-ended_example.1 refl

ListEntities-listings_example :
    ((t : ℕ)
      → mine 0
          (dispatch t (close_call anything silent (first_last list_ids) all_listed).client.router)
        ≡ [])
    × ((es : List Message)
        → listed_service ≡ ok es
        → (es ≡ listings ((41, service) ∷ (19, list_done_response) ∷ []))
          × (ends ((41, service) ∷ (19, list_done_response) ∷ []) ≡ 1))
unfolding new_client new_router
ListEntities-listings_example =
    ListEntities-listings anything silent idle ((41, service) ∷ (19, list_done_response) ∷ [])
      listed_service (close_call anything silent (first_last list_ids) all_listed) idle-IsReady
      (omega arith) list_run

-- ===== src/Client/Subscribed.antt =====
-- logs.go and services.go: what a subscription leaves in the router, and which service a name executes.
use esphome_apiclient.Common.{ℕ, String, ◌≡◌, refl, ap, none, List, ◌∷◌, inl, inr}
use esphome_apiclient.Common.Maps.{lookup-insert_self}
use esphome_apiclient.Common.{string_key, nat_key}
use esphome_apiclient.Stream.Cases.{Result-cases}
use esphome_apiclient.Stream.{ok, err, wrapping}
use esphome_apiclient.Pb.Types.{Enum}
use esphome_apiclient.Pb.Session.{ExecuteServiceArgument}
use esphome_apiclient.Pb.Listing.{ListEntitiesServicesResponse}
use esphome_apiclient.Router.{on, remove, dispatch}
use esphome_apiclient.Router.Registered.{IsValid, HasRoom}
use esphome_apiclient.Router.Dispatching.{dispatch-on, dispatch-remove-on}
use esphome_apiclient.Services.{definition, handle_service_definition, service_by_name}
use esphome_apiclient.Client.Framer.{Framer}
use esphome_apiclient.Client.State.{Client}
use esphome_apiclient.Client.Exchange.{Protobuf, send_message}
use esphome_apiclient.Client.Greeting.{send_SameBut}
use esphome_apiclient.Client.Requests.{
  RequestError, request_unsent, service_not_found, service_request, logs_request, execute_service,
  execute_service_by_name, subscribe_logs,
}
use mathlib.Core.List.{Perm}

module _ (P : Protobuf) (F : Framer) {H : Type 0} where
  -- In a client whose router is valid and has given out fewer than 2 ^ 64 - 1 ids: when SubscribeLogs
  -- succeeds, its handler is called for log messages besides those that were called before, and to
  -- call the function that it returns at once undoes that; when it fails, Dispatch calls what it
  -- called before.
  pub subscribe_logs-dispatch :
      (level : Enum) (h : H) (c : Client F.State H)
      → IsValid c.router
      → HasRoom c.router
      → let (r, c1) = subscribe_logs P F level h c in
        ((id : ℕ)
          → r ≡ ok id
          → Perm (dispatch 29 c1.router) (h ∷ dispatch 29 c.router)
            × ((t : ℕ) → dispatch t (remove 29 id c1.router) ≡ dispatch t c.router))
        × ((e : RequestError) → r ≡ err e → (t : ℕ) → dispatch t c1.router ≡ dispatch t c.router)
  unfolding subscribe_logs
  subscribe_logs-dispatch level h c v room =
      let c0 : Client F.State H = record c { router = (on 29 h c.router).0 } in
      let kept : (send_message P F (logs_request level) 28 c0).1.router ≡ (on 29 h c.router).0 =
        ap (λ x. x.router) (send_SameBut P F (logs_request level) 28 c0) in
      elim (Result-cases (send_message P F (logs_request level) 28 c0).0) [
        | inl (u, sent) ↦
            rw (subscribe_logs, sent, kept)
              (
                (λ id e.
                    let same : (on 29 h c.router).1 ≡ id = cc in
                    (
                      (dispatch-on 29 h c.router v room).0,
                      (λ t. rw (← same) (dispatch-remove-on 29 t h c.router v room)),
                    )),
                (λ x e. cc),
              )
        | inr (x, failed) ↦
            rw (subscribe_logs, failed, kept)
              ((λ id e. cc), (λ y e t. dispatch-remove-on 29 t h c.router v room))
      ]

  -- Once a service has been defined, executing it by its name sends its key with the arguments under
  -- the id 42; a name that no service has is an error, and the client is left as it was.
  pub execute_service_by_name_defined :
      (m : ListEntitiesServicesResponse) (args : List ExecuteServiceArgument) (c : Client F.State H)
      → let c1 : Client F.State H = record c {
        services = handle_service_definition m c.services;
      } in
        (execute_service_by_name P F m.name args c1
          ≡ wrapping request_unsent (send_message P F (service_request m.key args) 42) c1)
        × ((n : String)
            → service_by_name n c1.services ≡ none
            → execute_service_by_name P F n args c1 ≡ (err (service_not_found n), c1))
  unfolding execute_service_by_name execute_service service_by_name handle_service_definition
  execute_service_by_name_defined m args c = (
    rw (execute_service_by_name, lookup-insert_self m.name (definition m) c.services.by_name) refl,
    (λ n e. rw (execute_service_by_name, e) refl),
  )

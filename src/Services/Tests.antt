-- ===== src/Services/Tests.antt =====
-- services.go: two definitions, the second of which takes the name of the first.
use esphome_apiclient.Common.{ℕ, String, ◌≡◌, some, [], ◌∷◌}
use esphome_apiclient.Pb.Listing.{ListEntitiesServicesResponse}
use esphome_apiclient.Services.{
  ServiceDefinition, ServiceRegistry, definition, new_service_registry, handle_service_definition,
  service_by_key, service_by_name,
}
use esphome_apiclient.Services.Lookup.{handle-defined, define_all}

abbrev reboot : ℕ → ListEntitiesServicesResponse
reboot k = record { name = "reboot"; key = k; args = []; supports_response = 0 }

abbrev defined : ServiceRegistry
defined = handle_service_definition (reboot 2) (define_all (reboot 1 ∷ []) new_service_registry)

handle-defined_example :
    (service_by_key 2 defined ≡ some (definition (reboot 2)))
    × (service_by_name "reboot" defined ≡ some (definition (reboot 2)))
    × ((k : ℕ) (s : ServiceDefinition) → service_by_key k defined ≡ some s → s.key ≡ k)
    × ((n : String) (s : ServiceDefinition) → service_by_name n defined ≡ some s → s.name ≡ n)
handle-defined_example = handle-defined (reboot 1 ∷ []) (reboot 2)

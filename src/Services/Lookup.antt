-- ===== src/Services/Lookup.antt =====
-- services.go: what the lookups find after any definitions.
use esphome_apiclient.Common.{ℕ, String, some, List, [], ◌∷◌, ◌≡◌, arith, nat_key, string_key}
use esphome_apiclient.Common.Maps.{lookup-insert, lookup-insert_self}
use esphome_apiclient.Pb.Listing.{ListEntitiesServicesResponse}
use esphome_apiclient.Services.{
  ServiceRegistry, ServiceDefinition, definition, new_service_registry, handle_service_definition,
  service_by_key, service_by_name,
}

-- Every definition is found under its own key and its own name.
pub record IsValid (r : ServiceRegistry) : Type 0 where
  pub keyed : (k : ℕ) (s : ServiceDefinition) → service_by_key k r ≡ some s → s.key ≡ k
  pub named : (n : String) (s : ServiceDefinition) → service_by_name n r ≡ some s → s.name ≡ n

abbrev pub define_all : List ListEntitiesServicesResponse → ServiceRegistry → ServiceRegistry
define_all [] r = r
define_all (m ∷ ms) r = define_all ms (handle_service_definition m r)

handle-IsValid :
    (m : ListEntitiesServicesResponse) (r : ServiceRegistry)
    → IsValid r
    → IsValid (handle_service_definition m r)
unfolding handle_service_definition service_by_key service_by_name
handle-IsValid m r v = record {
  keyed = λ k s e. ground (
    arith,
    lookup-insert m.key k (definition m) r.services,
    nat_key.same_iff m.key k,
    v.keyed k s,
  );
  named = λ n s e. ground (
    arith,
    lookup-insert m.name n (definition m) r.by_name,
    string_key.same_iff m.name n,
    v.named n s,
  );
}

define_all-IsValid :
    (ms : List ListEntitiesServicesResponse) (r : ServiceRegistry)
    → IsValid r
    → IsValid (define_all ms r)
define_all-IsValid [] r v = v
define_all-IsValid (m ∷ ms) r v =
    define_all-IsValid ms (handle_service_definition m r) (handle-IsValid m r v)

new-IsValid : IsValid new_service_registry
unfolding new_service_registry service_by_key service_by_name
new-IsValid = record { keyed = λ k s e. cc; named = λ n s e. cc }

-- After any definitions, the last of them is found under its key and under its name, and whatever a lookup
-- finds has the key or the name that was asked for.
pub handle-defined :
    (ms : List ListEntitiesServicesResponse) (m : ListEntitiesServicesResponse)
    → let r = handle_service_definition m (define_all ms new_service_registry) in
      (service_by_key m.key r ≡ some (definition m))
      × (service_by_name m.name r ≡ some (definition m))
      × ((k : ℕ) (s : ServiceDefinition) → service_by_key k r ≡ some s → s.key ≡ k)
      × ((n : String) (s : ServiceDefinition) → service_by_name n r ≡ some s → s.name ≡ n)
handle-defined ms m =
    let v =
      handle-IsValid m (define_all ms new_service_registry)
        (define_all-IsValid ms new_service_registry new-IsValid) in
    (
      unfold handle_service_definition service_by_key in lookup-insert_self m.key (definition m) _,
      unfold handle_service_definition service_by_name in
          lookup-insert_self m.name (definition m) _,
      v.keyed,
      v.named,
    )

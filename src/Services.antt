-- ===== src/Services.antt =====
-- services.go: the registry of the services that a device offers. A definition is never changed once it is
-- made, so the maps hold the definitions themselves.
pub mod Lookup
mod Tests
use esphome_apiclient.Common.{ℕ, String, Option, List, [], nat_key, string_key}
use esphome_apiclient.Common.Maps.{Map, lookup, insert, values}
use esphome_apiclient.Pb.Types.{UInt32, Enum}
use esphome_apiclient.Pb.Listing.{ListEntitiesServicesArgument, ListEntitiesServicesResponse}

pub record ServiceDefinition : Type 0 where
  pub name : String
  pub key : UInt32
  pub args : List ListEntitiesServicesArgument
  pub supports_response : Enum

pub record ServiceRegistry : Type 0 where
  pub services : Map ℕ ServiceDefinition
  pub by_name : Map String ServiceDefinition

unfoldable pub new_service_registry : ServiceRegistry
new_service_registry = record { services = []; by_name = [] }

abbrev pub definition : ListEntitiesServicesResponse → ServiceDefinition
definition m = record {
  name = m.name;
  key = m.key;
  args = m.args;
  supports_response = m.supports_response;
}

unfoldable pub handle_service_definition :
    ListEntitiesServicesResponse → ServiceRegistry → ServiceRegistry
handle_service_definition m r = record {
  services = insert m.key (definition m) r.services;
  by_name = insert m.name (definition m) r.by_name;
}

unfoldable pub service_by_key : ℕ → ServiceRegistry → Option ServiceDefinition
service_by_key k r = lookup k r.services

unfoldable pub service_by_name : String → ServiceRegistry → Option ServiceDefinition
service_by_name n r = lookup n r.by_name

-- All, in the order of the map.
unfoldable pub all_services : ServiceRegistry → List ServiceDefinition
all_services r = values r.services

-- Clear makes both maps anew.
unfoldable pub clear_services : ServiceRegistry → ServiceRegistry
clear_services r = record { services = []; by_name = [] }

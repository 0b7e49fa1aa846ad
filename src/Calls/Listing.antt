-- ===== src/Calls/Listing.antt =====
-- client.go: ListEntities. Its closures collect the messages of 17 types until one of type 19 arrives.
pub mod Collecting
use esphome_apiclient.Common.{
  ℕ, suc, ◌<◌, Bool, true, false, Option, none, some, List, [], ◌∷◌, nat_key, nat_eq, if◌then◌else◌,
}
use esphome_apiclient.Stream.{Result}
use esphome_apiclient.Pb.Message.{Message}
use esphome_apiclient.Pb.Registry.{list_entity_response_ids, list_entities_done_response_id}
use esphome_apiclient.Client.Framer.{Framer}
use esphome_apiclient.Client.Exchange.{Protobuf}
use esphome_apiclient.Client.States.{member}
use esphome_apiclient.Calls.{Closure, listed, list_done, Frame, listing, World}
use esphome_apiclient.Calls.Registering.{types}
use esphome_apiclient.Calls.Calling.{Call, Called, Failure}
use esphome_apiclient.Calls.Orders.{first_last}

abbrev pub for_types : List ℕ → Closure → List (ℕ × Closure)
for_types [] h = []
for_types (t ∷ ts) h = (t, h) ∷ for_types ts h

-- The deferred loop over `removes` runs before the deferred removeDone.
abbrev pub list_call : Call
list_call = record {
  start = listing [] false;
  claims = λ a.
      (list_entities_done_response_id, list_done a) ∷ for_types list_entity_response_ids (listed a);
  request = Message.list_entities_request [];
  request_type = 11;
  order = first_last;
}

-- `case <-done: return entities, nil`
abbrev pub listed_entities : Frame → Option (List Message)
listed_entities (listing es true) = some es
listed_entities _ = none

unfoldable pub is_listing : ℕ → Bool
is_listing t = member t list_entity_response_ids

-- The messages of entities among those that arrived, and how many ends of the list.
abbrev pub listings : List (ℕ × Message) → List Message
listings [] = []
listings ((t, m) ∷ ms) = if is_listing t then m ∷ listings ms else listings ms

abbrev pub ends : List (ℕ × Message) → ℕ
ends [] = 0
ends ((t, m) ∷ ms) = if nat_eq 19 t then suc (ends ms) else ends ms

module _ (P : Protobuf) (F : Framer) where
  unfoldable pub ListEntities :
      World F.State → List (ℕ × Message) → Result Failure (List Message) → World F.State → Type 0
  ListEntities w ms r w' = Called P F list_call listed_entities w ms r w'

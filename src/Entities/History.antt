-- ===== src/Entities/History.antt =====
-- EntityRegistry over whole histories of messages (entities.go).
use esphome_apiclient.Common.{ℕ, ◌≡◌, refl, none, some, false}
use esphome_apiclient.Common.{inl, inr, nat_key, string_key, List, [], ◌∷◌}
use esphome_apiclient.Common.Maps.{lookup}
use esphome_apiclient.Pb.Message.{Message}
use esphome_apiclient.Entities.Domain.{EntityDomain, EntityOf}
use esphome_apiclient.Entities.Table.{forget}
use esphome_apiclient.Entities.Registry.{
  EntityRegistry, Tables, table, new_entity_registry, clear, no_tables, forget_all,
}
use esphome_apiclient.Entities.Handle.{update, handle_list_entity_message, handle_state_message}
use esphome_apiclient.Entities.Validity.{IsValid}
use esphome_apiclient.Entities.Registering.{register-IsValid}
use esphome_apiclient.Entities.Updating.{update-IsValid}
use esphome_apiclient.Entities.Messages.{Lists-key, Lists-name, Updates-Keeps}
use esphome_apiclient.Entities.Handling.{
  Lists-handled, Updates-handled, handle_list_cases, handle_state_cases,
}
use esphome_apiclient.Common.{Option-cases}

empty_table : (d : EntityDomain) → table d no_tables ≡ record { objects = []; index = [] }
empty_table EntityDomain.sensor = refl
empty_table _ = refl

new-IsValid : IsValid new_entity_registry
unfolding new_entity_registry
new-IsValid = record {
  tables = λ d. rw (empty_table d) (record { allocated = λ a v e. cc; indexed = λ k a e. cc });
  keyed = λ k ref e. cc;
  known = λ d k a e. let absent : none ≡ some a = rw (empty_table d) at e in cc;
  named = λ n ref e. cc;
  once = tt;
}

pub forgotten_table :
    (d : EntityDomain) (ts : Tables) → table d (forget_all ts) ≡ forget (table d ts)
forgotten_table EntityDomain.sensor ts = refl
forgotten_table _ ts = refl

clear-IsValid : (r : EntityRegistry) → IsValid r → IsValid (clear r)
unfolding clear
clear-IsValid r h = record {
  tables = λ d.
      rw (forgotten_table d) (record { allocated = (h.tables d).allocated; indexed = λ k a e. cc });
  keyed = λ k ref e. cc;
  known = λ d k a e. let absent : none ≡ some a = rw (forgotten_table d) at e in cc;
  named = λ n ref e. cc;
  once = tt;
}

list_message-IsValid :
    (m : Message) (r : EntityRegistry) → IsValid r → IsValid (handle_list_entity_message m r).0
list_message-IsValid m r h = elim (handle_list_cases m r) [
  | inl (d, k, n, v, l) ↦
      rw (Lists-handled r l) (register-IsValid d k n v r (Lists-key l) (Lists-name l) h)
  | inr e ↦ rw e h
]

-- An update of a key that the domain does not have changes nothing.
pub update_absent :
    (d : EntityDomain) (k : ℕ) (f : EntityOf d → EntityOf d) (r : EntityRegistry)
    → lookup k (table d r.tables).index ≡ none
    → update d k f r ≡ (r, false)
unfolding update
update_absent d k f r e = rw (e, update) refl

state_message-IsValid :
    (m : Message) (r : EntityRegistry) → IsValid r → IsValid (handle_state_message m r).0
state_message-IsValid m r h = elim (handle_state_cases m r) [
  | inr e ↦ rw e h
  | inl (d, k, f, u) ↦
      rw (Updates-handled r u) (elim (Option-cases (lookup k (table d r.tables).index)) [
        | inl absent ↦ rw (update_absent d k f r absent) h
        | inr (a, at_k) ↦
            let (v, at_a, _) = (h.tables d).indexed k a at_k in
            update-IsValid d k a f v r (Updates-Keeps u) h at_k at_a
      ])
]

-- What the client does to its registry.
pub data Event : Type 0 where
  listed stated : Message → Event
  cleared : Event

unfoldable pub apply : Event → EntityRegistry → EntityRegistry
apply (listed m) r = (handle_list_entity_message m r).0
apply (stated m) r = (handle_state_message m r).0
apply cleared r = clear r

unfoldable pub run : List Event → EntityRegistry → EntityRegistry
run [] r = r
run (e ∷ es) r = run es (apply e r)

apply-IsValid : (e : Event) (r : EntityRegistry) → IsValid r → IsValid (apply e r)
unfolding apply
apply-IsValid (listed m) r h = list_message-IsValid m r h
apply-IsValid (stated m) r h = state_message-IsValid m r h
apply-IsValid cleared r h = clear-IsValid r h

run_from-IsValid : (es : List Event) (r : EntityRegistry) → IsValid r → IsValid (run es r)
unfolding run
run_from-IsValid [] r h = h
run_from-IsValid (e ∷ es) r h = run_from-IsValid es (apply e r) (apply-IsValid e r h)

-- After any messages and clearings, in any order, the registry is valid: ByKey agrees with the map of
-- the entity's domain, every key of a domain is known to ByKey, ByName gives an entity of that name, every
-- pointer leads to an object of its key, and no key is counted twice.
pub run-IsValid : (es : List Event) → IsValid (run es new_entity_registry)
run-IsValid es = run_from-IsValid es new_entity_registry new-IsValid

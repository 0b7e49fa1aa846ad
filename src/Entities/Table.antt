-- ===== src/Entities/Table.antt =====
-- The map of one domain in EntityRegistry (entities.go), with the objects that its pointers reach.
use esphome_apiclient.Common.{ℕ, none, some, [], nat_key}
use esphome_apiclient.Common.Maps.{Map, lookup, insert}

pub record Table (E : Type 0) : Type 0 where
  pub objects : Map ℕ E
  pub index : Map ℕ ℕ

abbrev pub no_entities : {E : Type 0} → Table E
no_entities = record { objects = []; index = [] }

abbrev pub forget : {E : Type 0} → Table E → Table E
forget t = record t { index = [] }

-- A new object at the address `a`, and the key's pointer to it.
abbrev pub enter : {E : Type 0} → ℕ → ℕ → E → Table E → Table E
enter k a v t = record { objects = insert a v t.objects; index = insert k a t.index }

-- Assignments to the fields of the object at `a`.
abbrev pub modify : {E : Type 0} → ℕ → (E → E) → Table E → Table E
modify a f t = elim (lookup a t.objects) [
  | none ↦ t
  | some v ↦ record t { objects = insert a (f v) t.objects }
]

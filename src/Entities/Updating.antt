-- ===== src/Entities/Updating.antt =====
-- HandleStateMessage (entities.go) keeps the registry valid and changes one object in place.
use esphome_apiclient.Common.{ℕ, ◌≡◌, ◌≢◌, refl, ap, ◌∙◌, sym, some, arith}
use esphome_apiclient.Common.{inl, inr, nat_key, string_key, ◌⊎◌, true}
use esphome_apiclient.Common.Maps.{lookup, insert, lookup-insert_self, lookup-insert_ne}
use esphome_apiclient.Entities.Domain.{EntityDomain, EntityOf, key_of, name_of}
use esphome_apiclient.Entities.Table.{Table, modify}
use esphome_apiclient.Entities.Registry.{EntityRegistry, Tables, table, set_table}
use esphome_apiclient.Entities.Tables.{table-set_table, set_table-all}
use esphome_apiclient.Entities.Handle.{update}
use esphome_apiclient.Entities.Validity.{IsTable, IsValid, lookup-insert_cases}
use native.Mathlib.Decide.{ℕ_discrete}
use mathlib.Core.Path.{subst}
use mathlib.Core.Option.{some-injective}

-- A change of an object that leaves its key and its name.
pub record Keeps (d : EntityDomain) (f : EntityOf d → EntityOf d) : Type 0 where
  pub key_kept : (v : EntityOf d) → key_of d (f v) ≡ key_of d v
  pub name_kept : (v : EntityOf d) → name_of d (f v) ≡ name_of d v

-- One update: an object that the map of `d` has under `k`.
module _ (d : EntityDomain) (k a : ℕ) (f : EntityOf d → EntityOf d) (v : EntityOf d)
    (r : EntityRegistry) (keeps : Keeps d f) (h : IsValid r)
    (at_k : lookup k (table d r.tables).index ≡ some a)
    (at_a : lookup a (table d r.tables).objects ≡ some v) where
  overwritten : Table (EntityOf d)
  overwritten = record {
    objects = insert a (f v) (table d r.tables).objects;
    index = (table d r.tables).index;
  }

  updated : Tables
  updated = set_table d overwritten r.tables

  update_lem : update d k f r ≡ (record r { tables = updated }, true)
  unfolding update updated overwritten
  update_lem = rw (at_k, update, at_a, modify) refl

  index_same :
      (d' : EntityDomain) (j : ℕ)
      → lookup j (table d' updated).index ≡ lookup j (table d' r.tables).index
  unfolding updated overwritten
  index_same =
      set_table-all (λ d' t. (j : ℕ) → lookup j t.index ≡ lookup j (table d' r.tables).index) d _
        r.tables (λ j. refl) (λ d' j. refl)

  overwritten_object :
      (b : ℕ) (w : EntityOf d)
      → lookup b (table d r.tables).objects ≡ some w
      → (w' : EntityOf d) × (lookup b overwritten.objects ≡ some w')
        × (key_of d w' ≡ key_of d w)
        × (name_of d w' ≡ name_of d w)
  unfolding overwritten
  overwritten_object b w e = elim (ℕ_discrete a b) [
    | yes same ↦
        let now : lookup b (table d r.tables).objects ≡ some v =
          subst (λ x. lookup x (table d r.tables).objects ≡ some v) same at_a in
        let old : v ≡ w = some-injective v w (sym now ∙ e) in
        (
          f v,
          subst (λ x. lookup x (insert a (f v) (table d r.tables).objects) ≡ some (f v)) same
              (lookup-insert_self a (f v) _),
          keeps.key_kept v ∙ ap (key_of d) old,
          keeps.name_kept v ∙ ap (name_of d) old,
        )
    | no apart ↦ (w, lookup-insert_ne a b (f v) _ apart ∙ e, refl, refl)
  ]

  -- Every object stays at its address, with its key and its name.
  object_stays :
      (d' : EntityDomain) (b : ℕ) (w : EntityOf d')
      → lookup b (table d' r.tables).objects ≡ some w
      → (w' : EntityOf d') × (lookup b (table d' updated).objects ≡ some w')
        × (key_of d' w' ≡ key_of d' w)
        × (name_of d' w' ≡ name_of d' w)
  unfolding updated
  object_stays =
      set_table-all
        (λ d' t.
          (b : ℕ) (w : EntityOf d')
          → lookup b (table d' r.tables).objects ≡ some w
          → (w' : EntityOf d') × (lookup b t.objects ≡ some w')
            × (key_of d' w' ≡ key_of d' w)
            × (name_of d' w' ≡ name_of d' w))
        d _ r.tables overwritten_object (λ d' b w e. (w, e, refl, refl))

  overwritten-IsTable : IsTable d r.next overwritten
  unfolding overwritten
  overwritten-IsTable = record {
    allocated = λ b w e. elim (lookup-insert_cases a b (f v) w (table d r.tables).objects e) [
      | inl (p, _) ↦ let below = (h.tables d).allocated a v at_a in omega arith
      | inr (_, old) ↦ (h.tables d).allocated b w old
    ];
    indexed = λ j b e.
        let (w, found, key) = (h.tables d).indexed j b e in
        let (w', found', key', _) = overwritten_object b w found in (w', found', key' ∙ key);
  }

  tables_valid : (d' : EntityDomain) → IsTable d' r.next (table d' updated)
  unfolding updated
  tables_valid =
      set_table-all (λ d' t. IsTable d' r.next t) d _ r.tables overwritten-IsTable h.tables

  pub update-IsValid : IsValid (update d k f r).0
  update-IsValid = rw update_lem (record {
    tables = tables_valid;
    keyed = λ j ref e. index_same ref.domain j ∙ h.keyed j ref e;
    known = λ d' j b e. h.known d' j b (sym (index_same d' j) ∙ e);
    named = λ n ref e.
        let (w, found, called) = h.named n ref e in
        let (w', found', _, called') = object_stays ref.domain ref.address w found in
        (w', found', called' ∙ called);
    once = h.once;
  })

  -- The object has changed, and no other has; no pointer has.
  pub update_object : lookup a (table d (update d k f r).0.tables).objects ≡ some (f v)
  update_object =
      rw update_lem
        (unfold updated overwritten in rw (table-set_table d) (lookup-insert_self a (f v) _))

  pub update_others :
      (d' : EntityDomain) (b : ℕ)
      → (d' ≢ d) ⊎ (b ≢ a)
      → lookup b (table d' (update d k f r).0.tables).objects ≡ lookup b (table d' r.tables).objects
  update_others = rw update_lem (
      unfold updated overwritten in
      set_table-all
        (λ d' t.
          (b : ℕ) → (d' ≢ d) ⊎ (b ≢ a) → lookup b t.objects ≡ lookup b (table d' r.tables).objects)
        d _ r.tables
        (λ b apart. elim apart [
          | inl ne ↦ absurd (ne refl)
          | inr ne ↦ lookup-insert_ne a b (f v) _ (λ p. ne (sym p))
        ])
        (λ d' b apart. refl))

  pub update_pointers :
      ((update d k f r).1 ≡ true)
      × ((update d k f r).0.by_key ≡ r.by_key)
      × ((update d k f r).0.by_name ≡ r.by_name)
  update_pointers = rw update_lem (refl, refl, refl)

  -- Nor has the map of a domain, nor the allocator.
  pub update_maps :
      ((d' : EntityDomain) → (table d' (update d k f r).0.tables).index ≡ (table d' r.tables).index)
      × ((update d k f r).0.next ≡ r.next)
  update_maps = rw update_lem (
      unfold updated overwritten in
      (
        set_table-all (λ d' t. t.index ≡ (table d' r.tables).index) d _ r.tables refl (λ d'. refl),
        refl,
      ))

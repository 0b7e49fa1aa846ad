-- ===== src/Entities/Registering.antt =====
-- HandleListEntityMessage (entities.go) keeps the registry valid.
use esphome_apiclient.Common.{ℕ, suc, ◌≡◌, ◌≢◌, refl, ◌∙◌, sym, String, none, some, arith}
use esphome_apiclient.Common.{inl, inr, nat_key, string_key}
use esphome_apiclient.Common.Maps.{
  lookup, insert, lookup-insert, lookup-insert_self, lookup-insert_ne, insert-IsMap,
}
use native.Mathlib.Decide.{ℕ_discrete}
use mathlib.Core.Path.{subst}
use esphome_apiclient.Entities.Domain.{EntityDomain, EntityOf, key_of, name_of}
use esphome_apiclient.Entities.Table.{enter}
use esphome_apiclient.Entities.Registry.{EntityRegistry, Tables, Ref, table, set_table}
use esphome_apiclient.Entities.Tables.{table-set_table, set_table-all}
use esphome_apiclient.Entities.Handle.{register}
use esphome_apiclient.Entities.Validity.{
  IsTable, IsValid, enter-IsTable, later-IsTable, lookup-insert_cases,
}

-- One step of registration: the domain, key, name and new object, in a valid registry.
module _ (d : EntityDomain) (k : ℕ) (name : String) (v : EntityOf d) (r : EntityRegistry)
    (hk : key_of d v ≡ k) (hn : name_of d v ≡ name) (h : IsValid r) where
  entered : Tables
  entered = set_table d (enter k r.next v (table d r.tables)) r.tables

  new_ref : Ref
  new_ref = record { domain = d; address = r.next }

  -- Pointers under other keys stay, and so do objects at addresses in use.
  index_kept :
      (d' : EntityDomain) (j : ℕ)
      → k ≢ j
      → lookup j (table d' entered).index ≡ lookup j (table d' r.tables).index
  unfolding entered
  index_kept =
      set_table-all
        (λ d' t. (j : ℕ) → k ≢ j → lookup j t.index ≡ lookup j (table d' r.tables).index) d _
        r.tables (λ j ne. lookup-insert_ne k j r.next _ ne) (λ d' j ne. refl)

  object_kept :
      (d' : EntityDomain) (a : ℕ) (w : EntityOf d')
      → lookup a (table d' r.tables).objects ≡ some w
      → lookup a (table d' entered).objects ≡ some w
  unfolding entered
  object_kept =
      set_table-all
        (λ d' t.
          (a : ℕ) (w : EntityOf d')
          → lookup a (table d' r.tables).objects ≡ some w
          → lookup a t.objects ≡ some w)
        d _ r.tables
        (λ a w e.
          let below = (h.tables d).allocated a w e in
          lookup-insert_ne r.next a v _ (λ p. omega arith) ∙ e)
        (λ d' a w e. e)

  tables_valid : (d' : EntityDomain) → IsTable d' (suc r.next) (table d' entered)
  unfolding entered
  tables_valid =
      set_table-all (λ d' t. IsTable d' (suc r.next) t) d _ r.tables
        (enter-IsTable d k r.next v _ hk (h.tables d))
        (λ d'. later-IsTable d' r.next _ (h.tables d'))

  new_pointer : lookup k (table d entered).index ≡ some r.next
  unfolding entered
  new_pointer = rw (table-set_table d) (lookup-insert_self k r.next _)

  new_object : lookup r.next (table d entered).objects ≡ some v
  unfolding entered
  new_object = rw (table-set_table d) (lookup-insert_self r.next v _)

  known_after :
      (d' : EntityDomain) (j a : ℕ)
      → lookup j (table d' entered).index ≡ some a
      → lookup j (insert k new_ref r.by_key) ≢ none
  known_after d' j a e = elim (ℕ_discrete k j) [
    | yes same ↦ λ p. ground (arith, lookup-insert k j new_ref r.by_key)
    | no apart ↦
        rw (lookup-insert_ne k j new_ref r.by_key apart)
          (h.known d' j a (sym (index_kept d' j apart) ∙ e))
  ]

  keyed_after :
      (j : ℕ) (ref : Ref)
      → lookup j (insert k new_ref r.by_key) ≡ some ref
      → lookup j (table ref.domain entered).index ≡ some ref.address
  keyed_after j ref e = elim (lookup-insert_cases k j new_ref ref r.by_key e) [
    | inl (p, q) ↦ rw (← p, ← q) (unfold new_ref in new_pointer)
    | inr (ne, old) ↦ index_kept ref.domain j ne ∙ h.keyed j ref old
  ]

  named_after :
      (n : String) (ref : Ref)
      → lookup n (insert name new_ref r.by_name) ≡ some ref
      → (w : EntityOf ref.domain) × (lookup ref.address (table ref.domain entered).objects ≡ some w)
        × (name_of ref.domain w ≡ n)
  named_after n ref e = elim (lookup-insert_cases name n new_ref ref r.by_name e) [
    | inl (p, q) ↦
        subst
          (λ (s : Ref).
            (w : EntityOf s.domain) × (lookup s.address (table s.domain entered).objects ≡ some w)
            × (name_of s.domain w ≡ n))
          q (unfold new_ref in (v, new_object, hn ∙ p))
    | inr (ne, old) ↦
        let (w, found, called) = h.named n ref old in
        (w, object_kept ref.domain ref.address w found, called)
  ]

  pub register-IsValid : IsValid (register d k name v r)
  unfolding register entered new_ref
  register-IsValid = record {
    tables = tables_valid;
    keyed = keyed_after;
    known = known_after;
    named = named_after;
    once = insert-IsMap k new_ref r.by_key h.once;
  }

  -- ByKey and ByName then give one pointer, to the new object.
  pub register_found :
      let r' = register d k name v r in
      (lookup k r'.by_key ≡ some (record { domain = d; address = r.next }))
      × (lookup name r'.by_name ≡ some (record { domain = d; address = r.next }))
      × (lookup k (table d r'.tables).index ≡ some r.next)
      × (lookup r.next (table d r'.tables).objects ≡ some v)
      × (r'.next ≡ suc r.next)
  unfolding register entered new_ref
  register_found = (
    lookup-insert_self k new_ref r.by_key,
    lookup-insert_self name new_ref r.by_name,
    new_pointer,
    new_object,
    refl,
  )

  -- What another name finds, and every object in use, stays.
  pub register_others :
      let r' = register d k name v r in
      ((n : String) → name ≢ n → lookup n r'.by_name ≡ lookup n r.by_name)
      × ((d' : EntityDomain) (a : ℕ) (w : EntityOf d')
          → lookup a (table d' r.tables).objects ≡ some w
          → lookup a (table d' r'.tables).objects ≡ some w)
  unfolding register entered new_ref
  register_others = ((λ n ne. lookup-insert_ne name n new_ref r.by_name ne), object_kept)

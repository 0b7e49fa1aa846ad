-- ===== src/Entities/Validity.antt =====
-- The invariant of EntityRegistry (entities.go): the maps agree with one another and with the objects.
use esphome_apiclient.Common.{ℕ, suc, ◌<◌, ◌≡◌, ◌≢◌, ◌∙◌, String, none, some, arith}
use esphome_apiclient.Common.{Bool-cases, inl, inr, nat_key, string_key, Key, ◌==◌, ◌⊎◌}
use esphome_apiclient.Common.Maps.{
  Map, lookup, insert, lookup-insert, lookup-insert_self, lookup-insert_ne, IsMap,
}
use esphome_apiclient.Entities.Domain.{EntityDomain, EntityOf, key_of, name_of}
use esphome_apiclient.Entities.Table.{Table, enter}
use esphome_apiclient.Entities.Registry.{EntityRegistry, Ref, table}
use esphome_apiclient.Entities.Handle.{deref}

-- The map of a domain points to objects of its keys, all below the next free address.
pub record IsTable (d : EntityDomain) (next : ℕ) (t : Table (EntityOf d)) : Type 0 where
  pub allocated : (a : ℕ) (v : EntityOf d) → lookup a t.objects ≡ some v → a < next
  pub indexed :
      (k a : ℕ)
      → lookup k t.index ≡ some a
      → (v : EntityOf d) × (lookup a t.objects ≡ some v) × (key_of d v ≡ k)

-- ByKey gives the object that the map of its domain has under that key, and every key of a domain is
-- known to it; ByName gives an object of that name.
pub record IsValid (r : EntityRegistry) : Type 0 where
  pub tables : (d : EntityDomain) → IsTable d r.next (table d r.tables)
  pub keyed :
      (k : ℕ) (ref : Ref)
      → lookup k r.by_key ≡ some ref
      → lookup k (table ref.domain r.tables).index ≡ some ref.address
  pub known :
      (d : EntityDomain) (k a : ℕ)
      → lookup k (table d r.tables).index ≡ some a
      → lookup k r.by_key ≢ none
  pub named :
      (n : String) (ref : Ref)
      → lookup n r.by_name ≡ some ref
      → (v : EntityOf ref.domain) × (deref ref r ≡ some v) × (name_of ref.domain v ≡ n)
  pub once : IsMap r.by_key

-- A lookup after an insertion found the new value or an old one.
pub lookup-insert_cases {ℓ κ} :
    {K : Type ℓ} {V : Type κ} ⦃e : Key K⦄ (k j : K) (v w : V) (m : Map K V)
    → lookup j (insert k v m) ≡ some w
    → ((k ≡ j) × (v ≡ w)) ⊎ ((k ≢ j) × (lookup j m ≡ some w))
lookup-insert_cases ⦃e⦄ k j v w m h = elim (Bool-cases (k == j)) [
  | inl same ↦ inl ((e.same_iff k j).0 same, ground (arith, lookup-insert k j v m))
  | inr apart ↦ inr ((λ p. ground (arith, e.same_iff k j)), ground (arith, lookup-insert k j v m))
]

pub enter-IsTable :
    (d : EntityDomain) (k next : ℕ) (v : EntityOf d) (t : Table (EntityOf d))
    → key_of d v ≡ k
    → IsTable d next t
    → IsTable d (suc next) (enter k next v t)
enter-IsTable d k next v t hk h = record {
  allocated = λ a w e. elim (lookup-insert_cases next a v w t.objects e) [
    | inl (p, _) ↦ omega arith
    | inr (_, old) ↦ omega (arith, h.allocated a w old)
  ];
  indexed = λ j a e. elim (lookup-insert_cases k j next a t.index e) [
    | inl (p, q) ↦ (v, rw (← q) (lookup-insert_self next v t.objects), hk ∙ p)
    | inr (_, old) ↦
        let (w, found, key) = h.indexed j a old in
        let below = h.allocated a w found in
        (w, lookup-insert_ne next a v t.objects (λ p. omega arith) ∙ found, key)
  ];
}

pub later-IsTable :
    (d : EntityDomain) (next : ℕ) (t : Table (EntityOf d))
    → IsTable d next t
    → IsTable d (suc next) t
later-IsTable d next t h = record {
  allocated = λ a v e. omega (arith, h.allocated a v e);
  indexed = h.indexed;
}

-- ===== src/Entities/States.antt =====
-- What a listing and the states that follow it show through ByKey and ByName (entities.go).
use esphome_apiclient.Common.{
  ℕ, ◌≡◌, ◌≢◌, refl, ap, ◌∙◌, sym, String, none, some, arith, true, false,
}
use esphome_apiclient.Common.{inl, inr, nat_key, string_key, ◌⊎◌}
use esphome_apiclient.Common.Maps.{lookup}
use esphome_apiclient.Pb.Message.{Message}
use esphome_apiclient.Entities.Domain.{EntityDomain, EntityOf}
use esphome_apiclient.Entities.Registry.{EntityRegistry, table, clear}
use esphome_apiclient.Entities.Handle.{
  register, by_key, by_name, len, handle_list_entity_message, handle_state_message,
}
use esphome_apiclient.Entities.Validity.{IsValid}
use esphome_apiclient.Entities.Registering.{register-IsValid, register_found, register_others}
use esphome_apiclient.Entities.Updating.{update_object, update_others, update_pointers, update_maps}
use esphome_apiclient.Entities.History.{update_absent, forgotten_table}
use esphome_apiclient.Entities.Messages.{Lists, Updates, Lists-key, Lists-name, Updates-Keeps}
use esphome_apiclient.Entities.Handling.{Lists-handled, Updates-handled, handle_state_cases}

-- In a valid registry, a listing message makes the entity known by its key and its name; a state
-- message for that key and domain is then accepted, and both lookups give the one object that the
-- state was written to.
pub state-listed :
    {d : EntityDomain} {m s : Message} {k : ℕ} {n : String} {v : EntityOf d}
    {f : EntityOf d → EntityOf d} (r : EntityRegistry)
    → IsValid r
    → Lists d m k n v
    → Updates d s k f
    → let (r', done) = handle_state_message s (handle_list_entity_message m r).0 in
      (a : ℕ) × (done ≡ true)
      × (by_key k r' ≡ some (record { domain = d; address = a }))
      × (by_name n r' ≡ some (record { domain = d; address = a }))
      × (lookup a (table d r'.tables).objects ≡ some (f v))
unfolding by_key by_name
state-listed {d} {m} {s} {k} {n} {v} {f} r h l u =
    let valid = register-IsValid d k n v r (Lists-key l) (Lists-name l) h in
    let (found_key, found_name, pointer, object, _) =
      register_found d k n v r (Lists-key l) (Lists-name l) h in
    let (done, same_keys, same_names) =
      update_pointers d k r.next f v (register d k n v r) (Updates-Keeps u) valid pointer object in
    rw (Lists-handled r l, Updates-handled (register d k n v r) u)
      (
        r.next,
        done,
        ap (lookup k) same_keys ∙ found_key,
        ap (lookup n) same_names ∙ found_name,
        update_object d k r.next f v (register d k n v r) (Updates-Keeps u) valid pointer object,
      )

-- In a valid registry, an entity that is listed twice, the second time under another name, is two
-- objects: after a state message the new name finds the one that it was written to, and the old name
-- still finds the other, as it was first listed.
pub state-relisted :
    {d : EntityDomain} {m m' s : Message} {k : ℕ} {n n' : String} {v v' : EntityOf d}
    {f : EntityOf d → EntityOf d} (r : EntityRegistry)
    → IsValid r
    → Lists d m k n v
    → Lists d m' k n' v'
    → n ≢ n'
    → Updates d s k f
    → let r' =
        (handle_state_message s
          (handle_list_entity_message m' (handle_list_entity_message m r).0).0).0 in
      (a b : ℕ) × (a ≢ b)
      × (by_name n r' ≡ some (record { domain = d; address = a }))
      × (lookup a (table d r'.tables).objects ≡ some v)
      × (by_name n' r' ≡ some (record { domain = d; address = b }))
      × (lookup b (table d r'.tables).objects ≡ some (f v'))
unfolding by_key by_name
state-relisted {d} {m} {m'} {s} {k} {n} {n'} {v} {v'} {f} r h l l' ne u =
    let r1 : EntityRegistry = register d k n v r in
    let valid1 : IsValid r1 = register-IsValid d k n v r (Lists-key l) (Lists-name l) h in
    let found1 = register_found d k n v r (Lists-key l) (Lists-name l) h in
    let r2 : EntityRegistry = register d k n' v' r1 in
    let valid2 : IsValid r2 = register-IsValid d k n' v' r1 (Lists-key l') (Lists-name l') valid1 in
    let found2 = register_found d k n' v' r1 (Lists-key l') (Lists-name l') valid1 in
    let kept = register_others d k n' v' r1 (Lists-key l') (Lists-name l') valid1 in
    let pointers = update_pointers d k r1.next f v' r2 (Updates-Keeps u) valid2 found2.2 found2.3 in
    let fresh : r.next ≢ r1.next = λ p. omega (arith, found1.4) in
    rw (Lists-handled r l, Lists-handled r1 l', Updates-handled r2 u)
      (
        r.next,
        r1.next,
        fresh,
        ap (lookup n) pointers.2 ∙ kept.0 n (λ p. ne (sym p)) ∙ found1.1,
        update_others d k r1.next f v' r2 (Updates-Keeps u) valid2 found2.2 found2.3 d r.next
              (inr fresh)
            ∙ kept.1 d r.next v found1.3,
        ap (lookup n') pointers.2 ∙ found2.1,
        update_object d k r1.next f v' r2 (Updates-Keeps u) valid2 found2.2 found2.3,
      )

-- In a valid registry, a state message for a key that its domain has is accepted: it changes that one
-- object as the message says, and no other object; ByKey, ByName and the map of every domain keep
-- their pointers, and nothing is allocated. For any other key it is refused and nothing changes.
pub handle_state_effect :
    {d : EntityDomain} {s : Message} {k : ℕ} {f : EntityOf d → EntityOf d} (r : EntityRegistry)
    → IsValid r
    → Updates d s k f
    → let (r', done) = handle_state_message s r in
      (lookup k (table d r.tables).index ≡ none → (done ≡ false) × (r' ≡ r))
      × ((a : ℕ) (v : EntityOf d)
          → lookup k (table d r.tables).index ≡ some a
          → lookup a (table d r.tables).objects ≡ some v
          → (done ≡ true)
            × (lookup a (table d r'.tables).objects ≡ some (f v))
            × (r'.by_key ≡ r.by_key)
            × (r'.by_name ≡ r.by_name)
            × ((d' : EntityDomain) → (table d' r'.tables).index ≡ (table d' r.tables).index)
            × (r'.next ≡ r.next)
            × ((d' : EntityDomain) (b : ℕ)
                → (d' ≢ d) ⊎ (b ≢ a)
                → lookup b (table d' r'.tables).objects ≡ lookup b (table d' r.tables).objects))
handle_state_effect {d} {s} {k} {f} r h u = rw (Updates-handled r u) (
  (λ absent. rw (update_absent d k f r absent) (refl, refl)),
  (λ a v at_k at_a.
      let (done, keys, names) = update_pointers d k a f v r (Updates-Keeps u) h at_k at_a in
      let (maps, same_next) = update_maps d k a f v r (Updates-Keeps u) h at_k at_a in
      (
        done,
        update_object d k a f v r (Updates-Keeps u) h at_k at_a,
        keys,
        names,
        maps,
        same_next,
        update_others d k a f v r (Updates-Keeps u) h at_k at_a,
      )),
)

-- A cleared registry finds no entity, counts none, and refuses every state message.
pub clear_empties :
    (r : EntityRegistry)
    → ((k : ℕ) → by_key k (clear r) ≡ none)
      × ((n : String) → by_name n (clear r) ≡ none)
      × (len (clear r) ≡ 0)
      × ((s : Message) → handle_state_message s (clear r) ≡ (clear r, false))
unfolding clear by_key by_name len
clear_empties r = (
  (λ k. refl),
  (λ n. refl),
  refl,
  (λ s. elim (handle_state_cases s (clear r)) [
    | inr e ↦ e
    | inl (d, k, f, u) ↦
        Updates-handled (clear r) u
        ∙ update_absent d k f (clear r) (ap (λ t. lookup k t.index) (forgotten_table d r.tables))
  ]),
)

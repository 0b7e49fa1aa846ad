-- ===== src/Router/Registered.antt =====
-- router.go: which handler is registered under a message type and an id.
use esphome_apiclient.Common.{
  ℕ, ◌+◌, ◌^◌, ◌<◌, ◌≤◌, ◌≡◌, ◌≢◌, Option, none, some, nat_key, arith, Option-cases, inl, inr,
}
use esphome_apiclient.Common.{if◌then◌else◌, ◌==◌, ◌&&◌, nat_eq_iff}
use esphome_apiclient.Common.Maps.{
  Map, lookup, insert, erase, lookup-insert, lookup-erase, IsMap, insert-IsMap, erase-IsMap,
  lookup-insert_self, lookup-insert_ne,
}
use esphome_apiclient.Router.{Router, or_empty, new_router, on, remove}
use native.Mathlib.Decide.{ℕ_discrete}
use mathlib.Core.Path.{subst}

-- The handlers of a message type, by id.
abbrev pub of_type {ℓ} : {H : Type ℓ} → ℕ → Router H → Map ℕ H
of_type t r = or_empty (lookup t r.handlers)

abbrev pub registered {ℓ} : {H : Type ℓ} → ℕ → ℕ → Router H → Option H
registered t id r = lookup id (of_type t r)

-- The ids in use are among those given out, and none is used twice for a message type.
pub record IsValid {ℓ} {H : Type ℓ} (r : Router H) : Type ℓ where
  pub issued : (t id : ℕ) (h : H) → registered t id r ≡ some h → (0 < id) × (id ≤ r.next_id)
  pub once : (t : ℕ) → IsMap (of_type t r)

module _ {ℓ} {H : Type ℓ} where
  pub of_type-on :
      (t : ℕ) (h : H) (r : Router H) → of_type t (on t h r).0 ≡ insert (on t h r).1 h (of_type t r)
  unfolding on
  of_type-on t h r = rw (lookup-insert_self t _ r.handlers)

  pub of_type-on_ne :
      (t t' : ℕ) (h : H) (r : Router H) → t ≢ t' → of_type t' (on t h r).0 ≡ of_type t' r
  unfolding on
  of_type-on_ne t t' h r ne = rw (lookup-insert_ne t t' _ r.handlers ne)

  pub of_type-remove :
      (t id : ℕ) (r : Router H) → of_type t (remove t id r) ≡ erase id (of_type t r)
  unfolding remove
  of_type-remove t id r = elim (Option-cases (lookup t r.handlers)) [
    | inl e ↦ rw (e, remove, e)
    | inr (m, e) ↦ rw (e, remove, lookup-insert_self t (erase id m) r.handlers)
  ]

  pub of_type-remove_ne :
      (t t' id : ℕ) (r : Router H) → t ≢ t' → of_type t' (remove t id r) ≡ of_type t' r
  unfolding remove
  of_type-remove_ne t t' id r ne = elim (Option-cases (lookup t r.handlers)) [
    | inl e ↦ rw (e, remove)
    | inr (m, e) ↦ rw (e, remove, lookup-insert_ne t t' (erase id m) r.handlers ne)
  ]

  pub new_router-IsValid : IsValid (new_router {H = H})
  unfolding new_router
  new_router-IsValid = record { issued = λ t id h e. cc; once = λ t. tt }

  -- On adds one registration under the id that it returns and Remove takes one away; both leave every
  -- other registration as it is.
  pub registered-on :
      (t t' id' : ℕ) (h : H) (r : Router H)
      → registered t' id' (on t h r).0
        ≡ (if t == t' && (on t h r).1 == id' then some h else registered t' id' r)
  registered-on t t' id' h r = elim (ℕ_discrete t t') [
    | yes p ↦
        let at_t : registered t id' (on t h r).0
            ≡ (if (on t h r).1 == id' then some h else registered t id' r) =
          rw (of_type-on t h r) (lookup-insert (on t h r).1 id' h (of_type t r)) in
        subst
          (λ u.
            registered u id' (on t h r).0
            ≡ (if t == u && (on t h r).1 == id' then some h else registered u id' r))
          p (ground (arith, at_t, nat_eq_iff t t))
    | no ne ↦ rw (of_type-on_ne t t' h r ne) (ground (arith, nat_eq_iff t t'))
  ]

  pub registered-remove :
      (t t' id id' : ℕ) (r : Router H)
      → registered t' id' (remove t id r)
        ≡ (if t == t' && id == id' then none else registered t' id' r)
  registered-remove t t' id id' r = elim (ℕ_discrete t t') [
    | yes p ↦
        let at_t : registered t id' (remove t id r)
            ≡ (if id == id' then none else registered t id' r) =
          rw (of_type-remove t id r) (lookup-erase id id' (of_type t r)) in
        subst
          (λ u.
            registered u id' (remove t id r)
            ≡ (if t == u && id == id' then none else registered u id' r))
          p (ground (arith, at_t, nat_eq_iff t t))
    | no ne ↦ rw (of_type-remove_ne t t' id r ne) (ground (arith, nat_eq_iff t t'))
  ]

  -- The ids do not run out before 2 ^ 64 registrations.
  abbrev pub HasRoom : Router H → Type 0
  HasRoom r = r.next_id + 1 < 2 ^ 64

  pub on_id :
      (t : ℕ) (h : H) (r : Router H)
      → HasRoom r
      → ((on t h r).1 ≡ r.next_id + 1) × ((on t h r).0.next_id ≡ r.next_id + 1)
  unfolding on
  on_id t h r room = (omega arith, omega arith)

  -- A new id is not in use.
  pub on_fresh :
      (t t' : ℕ) (h : H) (r : Router H)
      → IsValid r
      → HasRoom r
      → registered t' (on t h r).1 r ≡ none
  on_fresh t t' h r v room = elim (Option-cases (registered t' (on t h r).1 r)) [
    | inl e ↦ e
    | inr (g, e) ↦ absurd (omega (arith, v.issued t' (on t h r).1 g e, on_id t h r room))
  ]

  pub on-IsValid : (t : ℕ) (h : H) (r : Router H) → IsValid r → HasRoom r → IsValid (on t h r).0
  on-IsValid t h r v room = record {
    issued = λ t' id' g e.
        ground (arith, registered-on t t' id' h r, on_id t h r room, v.issued t' id' g);
    once = λ t'. elim (ℕ_discrete t t') [
      | yes p ↦
          subst (λ u. IsMap (of_type u (on t h r).0)) p
            (rw (of_type-on t h r) (insert-IsMap (on t h r).1 h (of_type t r) (v.once t)))
      | no ne ↦ rw (of_type-on_ne t t' h r ne) (v.once t')
    ];
  }

  next_id-remove : (t id : ℕ) (r : Router H) → (remove t id r).next_id ≡ r.next_id
  unfolding remove
  next_id-remove t id r = elim (Option-cases (lookup t r.handlers)) [
    | inl e ↦ rw (e, remove)
    | inr (m, e) ↦ rw (e, remove)
  ]

  pub remove-IsValid : (t id : ℕ) (r : Router H) → IsValid r → IsValid (remove t id r)
  remove-IsValid t id r v = record {
    issued = λ t' id' g e.
        ground (arith, registered-remove t t' id id' r, next_id-remove t id r, v.issued t' id' g);
    once = λ t'. elim (ℕ_discrete t t') [
      | yes p ↦
          subst (λ u. IsMap (of_type u (remove t id r))) p
            (rw (of_type-remove t id r) (erase-IsMap id (of_type t r) (v.once t)))
      | no ne ↦ rw (of_type-remove_ne t t' id r ne) (v.once t')
    ];
  }

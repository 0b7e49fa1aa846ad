-- ===== src/Router/Dispatching.antt =====
-- router.go: which handlers Dispatch calls, whatever the order of the map.
use esphome_apiclient.Common.{
  ℕ, ◌≡◌, ◌≢◌, refl, none, some, [], ◌∷◌, nat_key, arith, sym, ◌∙◌, ap, nat_eq_iff,
}
use esphome_apiclient.Common.{◌==◌, Bool-cases, inl, inr}
use esphome_apiclient.Common.Maps.{Map, lookup, insert, erase, values, IsMap, lookup-erase_self}
use esphome_apiclient.Router.{Router, on, remove, dispatch}
use esphome_apiclient.Router.Registered.{
  of_type, registered, IsValid, HasRoom, on_fresh, of_type-on, of_type-on_ne, of_type-remove,
  of_type-remove_ne,
}
use mathlib.Core.List.{Perm}
use mathlib.Core.List.Perm
use mathlib.Core.Path.{subst}
use native.Mathlib.Decide.{ℕ_discrete}

module _ {ℓ} {H : Type ℓ} where
  values-insert_new :
      (k : ℕ) (v : H) (m : Map ℕ H)
      → lookup k m ≡ none
      → Perm (values (insert k v m)) (v ∷ values m)
  values-insert_new k v [] e = Perm.refl (v ∷ [])
  values-insert_new k v ((j, w) ∷ m) e = elim (Bool-cases (j == k)) [
    | inl same ↦ absurd (let clash : some w ≡ none = ground arith in cc)
    | inr apart ↦
        let absent : lookup k m ≡ none = ground arith in
        rw apart
          (Perm.trans (Perm.cons w (values-insert_new k v m absent)) (Perm.swap v w (values m)))
  ]

  pub erase_absent : (k : ℕ) (m : Map ℕ H) → lookup k m ≡ none → erase k m ≡ m
  erase_absent k [] e = refl
  erase_absent k ((j, w) ∷ m) e = ground (arith, erase_absent k m)

  values-erase :
      (k : ℕ) (v : H) (m : Map ℕ H)
      → IsMap m
      → lookup k m ≡ some v
      → Perm (values m) (v ∷ values (erase k m))
  values-erase k v [] u e = absurd (let clash : none ≡ some v = e in cc)
  values-erase k v ((j, w) ∷ m) u e = elim (Bool-cases (j == k)) [
    | inl same ↦
        let found : w ≡ v = ground arith in
        let absent : lookup k m ≡ none = ground (arith, nat_eq_iff j k) in
        rw (same, erase_absent k m absent, found) (Perm.refl (v ∷ values m))
    | inr apart ↦
        let later : lookup k m ≡ some v = ground arith in
        rw apart (
          Perm.trans (Perm.cons w (values-erase k v m u.1 later))
            (Perm.swap v w (values (erase k m))))
  ]

  pub erase-insert_new :
      (k : ℕ) (v : H) (m : Map ℕ H) → lookup k m ≡ none → erase k (insert k v m) ≡ m
  erase-insert_new k v [] e = ground (arith, nat_eq_iff k k)
  erase-insert_new k v ((j, w) ∷ m) e = ground (arith, erase-insert_new k v m)

  -- In a valid router that has given out fewer than 2 ^ 64 - 1 ids, after On, Dispatch calls the new
  -- handler for its message type besides those that it called before, in some order, and the same
  -- handlers as before for every other type.
  pub dispatch-on :
      (t : ℕ) (h : H) (r : Router H)
      → IsValid r
      → HasRoom r
      → Perm (dispatch t (on t h r).0) (h ∷ dispatch t r)
        × ((t' : ℕ) → t ≢ t' → dispatch t' (on t h r).0 ≡ dispatch t' r)
  unfolding dispatch
  dispatch-on t h r v room = (
    rw (of_type-on t h r)
        (values-insert_new (on t h r).1 h (of_type t r) (on_fresh t t h r v room)),
    λ t' ne. ap values (of_type-on_ne t t' h r ne),
  )

  -- In a valid router, after Remove of a registered handler, Dispatch calls what it called before but
  -- for one call of that handler, in some order, and the same handlers as before for every other type;
  -- a second Remove changes nothing of what Dispatch calls for the type.
  pub dispatch-remove :
      (t id : ℕ) (h : H) (r : Router H)
      → IsValid r
      → registered t id r ≡ some h
      → Perm (dispatch t r) (h ∷ dispatch t (remove t id r))
        × ((t' : ℕ) → t ≢ t' → dispatch t' (remove t id r) ≡ dispatch t' r)
        × (dispatch t (remove t id (remove t id r)) ≡ dispatch t (remove t id r))
  unfolding dispatch
  dispatch-remove t id h r v e = (
    rw (of_type-remove t id r) (values-erase id h (of_type t r) (v.once t) e),
    (λ t' ne. ap values (of_type-remove_ne t t' id r ne)),
    ap values (
        of_type-remove t id (remove t id r)
        ∙ ap (erase id) (of_type-remove t id r)
        ∙ erase_absent id (erase id (of_type t r)) (lookup-erase_self id (of_type t r))
        ∙ sym (of_type-remove t id r)),
  )

  -- In a valid router that has given out fewer than 2 ^ 64 - 1 ids, to call the function that On
  -- returned at once is to undo On: Dispatch calls what it called before.
  pub dispatch-remove-on :
      (t t' : ℕ) (h : H) (r : Router H)
      → IsValid r
      → HasRoom r
      → dispatch t' (remove t (on t h r).1 (on t h r).0) ≡ dispatch t' r
  unfolding dispatch
  dispatch-remove-on t t' h r v room = elim (ℕ_discrete t t') [
    | yes p ↦
        subst (λ u. values (of_type u (remove t (on t h r).1 (on t h r).0)) ≡ values (of_type u r))
          p
          (ap values (
            of_type-remove t (on t h r).1 (on t h r).0
            ∙ ap (erase (on t h r).1) (of_type-on t h r)
            ∙ erase-insert_new (on t h r).1 h (of_type t r) (on_fresh t t h r v room)))
    | no ne ↦
        ap values (of_type-remove_ne t t' (on t h r).1 (on t h r).0 ne ∙ of_type-on_ne t t' h r ne)
  ]

-- ===== src/Calls/Claims.antt =====
-- How On and Remove change the closures of a frame in the router.
use esphome_apiclient.Common.{
  ℕ, ◌≡◌, ◌≢◌, refl, ap, ◌∙◌, none, some, List, [], ◌∷◌, ◌++◌, nat_key, arith, Bool-cases, inl, inr,
  true, false, nat_eq_iff, if◌then◌else◌, ◌==◌,
}
use esphome_apiclient.Common.Maps.{Map, lookup, insert, erase, values, IsMap}
use esphome_apiclient.Router.{Router, on, remove, dispatch}
use esphome_apiclient.Router.Registered.{
  of_type, of_type-on, of_type-on_ne, of_type-remove, of_type-remove_ne, IsValid, HasRoom, on_fresh,
  registered,
}
use esphome_apiclient.Router.Dispatching.{erase_absent}
use native.Mathlib.Decide.{ℕ_discrete}
use mathlib.Core.Path.{subst}
use esphome_apiclient.Calls.{Closure}
use esphome_apiclient.Calls.Frames.{mine, owns}

mine-append : (a : ℕ) (hs ks : List Closure) → mine a (hs ++ ks) ≡ mine a hs ++ mine a ks
mine-append a [] ks = refl
mine-append a (h ∷ hs) ks = ground (arith, mine-append a hs ks)

values-insert_append :
    (k : ℕ) (h : Closure) (m : Map ℕ Closure)
    → lookup k m ≡ none
    → values (insert k h m) ≡ values m ++ (h ∷ [])
values-insert_append k h [] e = refl
values-insert_append k h ((j, w) ∷ m) e = ground (arith, values-insert_append k h m)

-- A registration adds its closure, for its type, to those of its frame.
pub mine-on :
    (a t : ℕ) (h : Closure) (r : Router Closure)
    → IsValid r
    → HasRoom r
    → (mine a (dispatch t (on t h r).0) ≡ mine a (dispatch t r) ++ mine a (h ∷ []))
      × ((u : ℕ) → t ≢ u → mine a (dispatch u (on t h r).0) ≡ mine a (dispatch u r))
unfolding dispatch
mine-on a t h r v room = (
  rw (of_type-on t h r, values-insert_append (on t h r).1 h (of_type t r) (on_fresh t t h r v room))
      (mine-append a (values (of_type t r)) (h ∷ [])),
  (λ u ne. ap (λ m. mine a (values m)) (of_type-on_ne t u h r ne)),
)

mine-erase_other :
    (a id : ℕ) (m : Map ℕ Closure)
    → ((h : Closure) → lookup id m ≡ some h → owns a h ≡ false)
    → IsMap m
    → mine a (values (erase id m)) ≡ mine a (values m)
mine-erase_other a id [] other u = refl
mine-erase_other a id ((j, w) ∷ m) other (absent, u) = elim (Bool-cases (j == id)) [
  | inl same ↦
      let here : j ≡ id = (nat_eq_iff j id).0 same in
      let apart : owns a w ≡ false = other w (rw same refl) in
      rw (same, apart, erase_absent id m (rw here at absent)) refl
  | inr ne ↦
      let later : mine a (values (erase id m)) ≡ mine a (values m) =
        mine-erase_other a id m (λ h e. other h (rw ne e)) u in
      rw ne (ap (λ ks. if owns a w then w ∷ ks else ks) later)
]

mine_found :
    (a id : ℕ) (h : Closure) (m : Map ℕ Closure)
    → lookup id m ≡ some h
    → owns a h ≡ true
    → mine a (values m) ≢ []
mine_found a id h [] e o q = let clash : none ≡ some h = e in cc
mine_found a id h ((j, w) ∷ m) e o q = ground (arith, mine_found a id h m)

mine-erase_ours :
    (a id : ℕ) (h h' : Closure) (m : Map ℕ Closure)
    → lookup id m ≡ some h
    → owns a h ≡ true
    → IsMap m
    → mine a (values m) ≡ h' ∷ []
    → mine a (values (erase id m)) ≡ []
mine-erase_ours a id h h' [] e o u q = refl
mine-erase_ours a id h h' ((j, w) ∷ m) e o (absent, u) q = elim (Bool-cases (j == id)) [
  | inl same ↦
      let here : j ≡ id = (nat_eq_iff j id).0 same in
      let first : some w ≡ some h = rw same at e in
      let it : w ≡ h = cc in
      let ours : owns a w ≡ true = ap (owns a) it ∙ o in
      let all : w ∷ mine a (values m) ≡ h' ∷ [] = rw ours at q in
      let left : mine a (values m) ≡ [] = cc in
      rw (same, erase_absent id m (rw here at absent)) left
  | inr ne ↦ elim (Bool-cases (owns a w)) [
    | inl ours ↦
        let all : w ∷ mine a (values m) ≡ h' ∷ [] = rw ours at q in
        let left : mine a (values m) ≡ [] = cc in absurd (mine_found a id h m (rw ne at e) o left)
    | inr apart ↦ rw (ne, apart) (mine-erase_ours a id h h' m (rw ne at e) o u (rw apart at q))
  ]
]

-- A closure of the frame that is registered is among those of its type.
pub mine-registered :
    (a t id : ℕ) (h : Closure) (r : Router Closure)
    → registered t id r ≡ some h
    → owns a h ≡ true
    → mine a (dispatch t r) ≢ []
unfolding dispatch
mine-registered a t id h r found ours = mine_found a id h (of_type t r) found ours

-- Its removal takes it away, and that of another closure takes none of the frame.
pub mine-remove :
    (a t id : ℕ) (h h' : Closure) (r : Router Closure)
    → IsValid r
    → registered t id r ≡ some h
    → owns a h ≡ true
    → mine a (dispatch t r) ≡ h' ∷ []
    → (mine a (dispatch t (remove t id r)) ≡ [])
      × ((u : ℕ) → t ≢ u → mine a (dispatch u (remove t id r)) ≡ mine a (dispatch u r))
unfolding dispatch
mine-remove a t id h h' r v found ours one = (
  rw (of_type-remove t id r) (mine-erase_ours a id h h' (of_type t r) found ours (v.once t) one),
  (λ u ne. ap (λ m. mine a (values m)) (of_type-remove_ne t u id r ne)),
)

pub mine-remove_other :
    (a t id u : ℕ) (r : Router Closure)
    → IsValid r
    → ((h : Closure) → registered t id r ≡ some h → owns a h ≡ false)
    → mine a (dispatch u (remove t id r)) ≡ mine a (dispatch u r)
unfolding dispatch
mine-remove_other a t id u r v other = elim (ℕ_discrete t u) [
  | yes p ↦
      subst (λ x. mine a (values (of_type x (remove t id r))) ≡ mine a (values (of_type x r))) p
        (rw (of_type-remove t id r) (mine-erase_other a id (of_type t r) other (v.once t)))
  | no ne ↦ ap (λ m. mine a (values m)) (of_type-remove_ne t u id r ne)
]

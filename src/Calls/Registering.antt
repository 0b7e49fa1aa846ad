-- ===== src/Calls/Registering.antt =====
-- The registrations of a call, made one after the other and removed when it ends.
use esphome_apiclient.Common.{
  ℕ, ◌+◌, ◌^◌, ◌<◌, ◌≡◌, ◌≢◌, refl, ap, ◌∙◌, sym, true, false, some, List, [], ◌∷◌, ◌++◌, nat_key,
  arith, Bool-cases, inl, inr, append-nil, nat_eq, nat_eq_iff, if◌then◌else◌, ◌⊎◌, All, length,
}
use esphome_apiclient.Router.{Router, on, remove, dispatch}
use esphome_apiclient.Router.Registered.{
  IsValid, HasRoom, on_fresh, on_id, on-IsValid, remove-IsValid, registered, registered-on,
  registered-remove,
}
use esphome_apiclient.Client.States.{Apart, member, remove_all}
use esphome_apiclient.Calls.{Closure}
use esphome_apiclient.Calls.Frames.{mine, owns}
use esphome_apiclient.Calls.Waiting.{claimed}
use esphome_apiclient.Calls.Claims.{mine-on, mine-remove, mine-registered}
use native.Mathlib.Decide.{ℕ_discrete}
use mathlib.Core.Path.{subst}

-- `c.On(t, h)` for each.
unfoldable pub register_claims : List (ℕ × Closure) → Router Closure → Router Closure × List (ℕ × ℕ)
register_claims [] r = (r, [])
register_claims ((t, h) ∷ claims) r =
    let (r1, id) = on t h r in let (r2, ids) = register_claims claims r1 in (r2, (t, id) ∷ ids)

abbrev pub types {ℓ} : {A : Type ℓ} → List (ℕ × A) → List ℕ
types [] = []
types ((t, x) ∷ xs) = t ∷ types xs

-- The ids are those of closures of the frame.
abbrev pub Issued : ℕ → List (ℕ × ℕ) → Router Closure → Type 0
Issued a ids r = All (λ p. (h : Closure) × (owns a h ≡ true) × (registered p.0 p.1 r ≡ some h)) ids

abbrev pub AllOwn : ℕ → List (ℕ × Closure) → Type 0
AllOwn a claims = All (λ p. owns a p.1 ≡ true) claims

pub claimed_absent :
    (t : ℕ) (claims : List (ℕ × Closure)) → All (λ u. u ≢ t) (types claims) → claimed t claims ≡ []
claimed_absent t [] apart = refl
claimed_absent t ((u, h) ∷ claims) (ne, apart) =
    let other : nat_eq u t ≡ false = ground (arith, nat_eq_iff u t) in
    rw (claimed, other) (claimed_absent t claims apart)

claimed_here :
    (t : ℕ) (h : Closure) (claims : List (ℕ × Closure)) → claimed t ((t, h) ∷ claims) ≡ h ∷ []
claimed_here t h claims =
    let same : nat_eq t t ≡ true = ground (arith, nat_eq_iff t t) in rw (claimed, same) refl

claimed_there :
    (t u : ℕ) (h : Closure) (claims : List (ℕ × Closure))
    → t ≢ u
    → claimed u ((t, h) ∷ claims) ≡ claimed u claims
claimed_there t u h claims ne =
    let other : nat_eq t u ≡ false = ground (arith, nat_eq_iff t u) in rw (claimed, other) refl

-- What a registration leaves of those before it.
pub registered_later :
    (t u id : ℕ) (h k : Closure) (r : Router Closure)
    → IsValid r
    → HasRoom r
    → registered u id r ≡ some k
    → registered u id (on t h r).0 ≡ some k
registered_later t u id h k r v room e =
    ground (arith, registered-on t u id h r, on_fresh t u h r v room)

registered_new :
    (t : ℕ) (h : Closure) (r : Router Closure) → registered t (on t h r).1 (on t h r).0 ≡ some h
registered_new t h r = ground (
  arith,
  registered-on t t (on t h r).1 h r,
  nat_eq_iff t t,
  nat_eq_iff (on t h r).1 (on t h r).1,
)

later_claims :
    (u id : ℕ) (k : Closure) (claims : List (ℕ × Closure)) (r : Router Closure)
    → IsValid r
    → r.next_id + length claims < 2 ^ 64
    → registered u id r ≡ some k
    → registered u id (register_claims claims r).0 ≡ some k
unfolding register_claims
later_claims u id k [] r v room e = e
later_claims u id k ((t, h) ∷ claims) r v room e =
    let one : HasRoom r = omega arith in
    later_claims u id k claims (on t h r).0 (on-IsValid t h r v one)
      (omega (arith, (on_id t h r one).1)) (registered_later t u id h k r v one e)

module _ (a : ℕ) where
  pub register_claims_held :
      (claims : List (ℕ × Closure)) (r : Router Closure)
      → IsValid r
      → r.next_id + length claims < 2 ^ 64
      → Apart (types claims)
      → AllOwn a claims
      → IsValid (register_claims claims r).0
        × (types (register_claims claims r).1 ≡ types claims)
        × Issued a (register_claims claims r).1 (register_claims claims r).0
        × ((u : ℕ)
            → mine a (dispatch u (register_claims claims r).0)
              ≡ mine a (dispatch u r) ++ claimed u claims)
  unfolding register_claims
  register_claims_held [] r v room apart own = (v, refl, tt, (λ u. sym (append-nil _)))
  register_claims_held ((t, h) ∷ claims) r v room (new, apart) (ours, own) =
      let one : HasRoom r = omega arith in
      let r1 : Router Closure = (on t h r).0 in
      let v1 : IsValid r1 = on-IsValid t h r v one in
      let room1 : r1.next_id + length claims < 2 ^ 64 = omega (arith, (on_id t h r one).1) in
      let (valid, same, issued, held) = register_claims_held claims r1 v1 room1 apart own in
      let (here, there) = mine-on a t h r v one in
      (
        valid,
        ap (λ ts. t ∷ ts) same,
        (
          (h, ours, later_claims t (on t h r).1 h claims r1 v1 room1 (registered_new t h r)),
          issued,
        ),
        (λ u. held u ∙ elim (ℕ_discrete t u) [
          | yes p ↦
              let one_more : mine a (dispatch t r1) ≡ mine a (dispatch t r) ++ (h ∷ []) =
                here ∙ ap (λ b. mine a (dispatch t r) ++ (if b then h ∷ [] else [])) ours in
              subst
                (λ x.
                  mine a (dispatch x r1) ++ claimed x claims
                  ≡ mine a (dispatch x r) ++ claimed x ((t, h) ∷ claims))
                p
                (rw (one_more, claimed_absent t claims new, claimed_here t h claims) (append-nil _))
          | no ne ↦ rw (there u ne, claimed_there t u h claims ne) refl
        ]),
      )

  -- At most one closure of the frame for each type.
  abbrev pub Single : Router Closure → Type 0
  Single r =
      (t : ℕ) → (mine a (dispatch t r) ≡ []) ⊎ ((h : Closure) × (mine a (dispatch t r) ≡ h ∷ []))

  pub Issued-remove :
      (t id : ℕ) (ids : List (ℕ × ℕ)) (r : Router Closure)
      → All (λ u. u ≢ t) (types ids)
      → Issued a ids r
      → Issued a ids (remove t id r)
  Issued-remove t id [] r apart issued = tt
  Issued-remove t id ((u, j) ∷ ids) r (ne, apart) ((h, ours, found), issued) = (
    (h, ours, ground (arith, registered-remove t u id j r, nat_eq_iff t u)),
    Issued-remove t id ids r apart issued,
  )

  -- To remove them, in any order, takes the closures of their types and no other of the frame.
  pub remove_all_held :
      (ids : List (ℕ × ℕ)) (r : Router Closure)
      → IsValid r
      → Single r
      → Apart (types ids)
      → Issued a ids r
      → (u : ℕ)
      → mine a (dispatch u (remove_all ids r))
        ≡ (if member u (types ids) then [] else mine a (dispatch u r))
  unfolding remove_all
  remove_all_held [] r v single apart issued u = refl
  remove_all_held ((t, id) ∷ ids) r v single (new, apart) ((h, ours, found), issued) u =
      elim (single t) [
        | inl nothing ↦ absurd (mine-registered a t id h r found ours nothing)
        | inr (h', one) ↦
            let (gone, kept) = mine-remove a t id h h' r v found ours one in
            let fewer : Single (remove t id r) = λ x. elim (ℕ_discrete t x) [
              | yes p ↦ inl (subst (λ y. mine a (dispatch y (remove t id r)) ≡ []) p gone)
              | no ne ↦ rw (kept x ne) (single x)
            ] in
            remove_all_held ids (remove t id r) (remove-IsValid t id r v) fewer apart
              (Issued-remove t id ids r new issued) u
            ∙ elim (ℕ_discrete t u) [
              | yes p ↦
                  let same : nat_eq t u ≡ true = (nat_eq_iff t u).1 p in
                  let emptied : mine a (dispatch u (remove t id r)) ≡ [] =
                    subst (λ y. mine a (dispatch y (remove t id r)) ≡ []) p gone in
                  rw (same, emptied)
                    (elim (Bool-cases (member u (types ids))) [
                      | inl e ↦ rw e refl
                      | inr e ↦ rw e refl
                    ])
              | no ne ↦
                  let other : nat_eq t u ≡ false = ground (arith, nat_eq_iff t u) in
                  rw (other, kept u ne) refl
            ]
      ]

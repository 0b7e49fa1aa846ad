-- ===== src/Calls/Orders.antt =====
-- The orders in which a call removes its registrations: as they were made, last first as `defer` does, and
-- the first of them last.
use esphome_apiclient.Common.{
  ℕ, ◌≡◌, ◌≢◌, refl, ap, ◌∙◌, sym, List, [], ◌∷◌, ◌++◌, nat_key, arith, All,
}
use esphome_apiclient.Client.States.{Apart, member, absent-All}
use esphome_apiclient.Calls.Registering.{types, AllOwn, claimed_absent}
use esphome_apiclient.Calls.Calling.{Call, Sound}
use mathlib.Core.List.{Permᴰ}
use mathlib.Core.Path.{subst}

abbrev pub first_last {ℓ} : {A : Type ℓ} → List A → List A
first_last [] = []
first_last (x ∷ xs) = xs ++ (x ∷ [])

abbrev pub backwards {ℓ} : {A : Type ℓ} → List A → List A
backwards [] = []
backwards (x ∷ xs) = backwards xs ++ (x ∷ [])

module _ {ℓ} {A : Type ℓ} where
  Perm-refl : (xs : List A) → Permᴰ xs xs
  Perm-refl [] = Permᴰ.nil
  Perm-refl (x ∷ xs) = Permᴰ.cons refl (Perm-refl xs)

  last_first : (x : A) (xs : List A) → Permᴰ (xs ++ (x ∷ [])) (x ∷ xs)
  last_first x [] = Perm-refl (x ∷ [])
  last_first x (y ∷ xs) = Permᴰ.trans (Permᴰ.cons refl (last_first x xs)) (Permᴰ.swap refl refl)

  pub first_last_order : (xs : List A) → Permᴰ (first_last xs) xs
  first_last_order [] = Permᴰ.nil
  first_last_order (x ∷ xs) = last_first x xs

  pub backwards_order : (xs : List A) → Permᴰ (backwards xs) xs
  backwards_order [] = Permᴰ.nil
  backwards_order (x ∷ xs) =
      Permᴰ.trans (last_first x (backwards xs)) (Permᴰ.cons refl (backwards_order xs))

  pub same_order : (xs : List A) → Permᴰ xs xs
  same_order = Perm-refl

  All-Perm {κ} : (Q : A → Type κ) {xs ys : List A} → Permᴰ xs ys → All Q ys → All Q xs
  All-Perm Q Permᴰ.nil h = h
  All-Perm Q (Permᴰ.cons p q) (h, hs) = (subst Q (sym p) h, All-Perm Q q hs)
  All-Perm Q (Permᴰ.swap p q) (h, (k, hs)) = (subst Q (sym p) k, (subst Q (sym q) h, hs))
  All-Perm Q (Permᴰ.trans p q) h = All-Perm Q p (All-Perm Q q h)

  types-Perm : {xs ys : List (ℕ × A)} → Permᴰ xs ys → Permᴰ (types xs) (types ys)
  types-Perm Permᴰ.nil = Permᴰ.nil
  types-Perm (Permᴰ.cons p q) = Permᴰ.cons (ap (λ x. x.0) p) (types-Perm q)
  types-Perm (Permᴰ.swap p q) = Permᴰ.swap (ap (λ x. x.0) p) (ap (λ x. x.0) q)
  types-Perm (Permᴰ.trans p q) = Permᴰ.trans (types-Perm p) (types-Perm q)

Apart-Perm : {ts us : List ℕ} → Permᴰ ts us → Apart us → Apart ts
Apart-Perm Permᴰ.nil h = h
Apart-Perm (Permᴰ.cons {a = x} {b = y} {l₁ = ts} {l₂ = us} p q) (new, h) =
    let back : All (λ u. u ≢ x) us = subst (λ z. All (λ u. u ≢ z) us) (sym p) new in
    (All-Perm (λ u. u ≢ x) q back, Apart-Perm q h)
Apart-Perm (Permᴰ.swap {a = x} {b = y} {a' = x'} {b' = y'} {l = l} p q) ((ne, new), (new', h)) =
    let front : All (λ u. u ≢ y) l = subst (λ z. All (λ u. u ≢ z) l) (sym q) new in
    let back : All (λ u. u ≢ x) l = subst (λ z. All (λ u. u ≢ z) l) (sym p) new' in
    (((λ e. ne (sym p ∙ sym e ∙ q)), back), (front, h))
Apart-Perm (Permᴰ.trans p q) h = Apart-Perm p (Apart-Perm q h)

member-Perm : (t : ℕ) {ts us : List ℕ} → Permᴰ ts us → member t ts ≡ member t us
member-Perm t Permᴰ.nil = refl
member-Perm t (Permᴰ.cons p q) = rw (p, member-Perm t q) refl
member-Perm t (Permᴰ.swap {a = x} {b = y} p q) = rw (p, q) (ground arith)
member-Perm t (Permᴰ.trans p q) = member-Perm t p ∙ member-Perm t q

-- A call whose registrations are all for different types, and are all removed, is sound.
pub order-Sound :
    (c : Call) (a : ℕ)
    → Apart (types (c.claims a))
    → AllOwn a (c.claims a)
    → ((ids : List (ℕ × ℕ)) → Permᴰ (c.order ids) ids)
    → Sound c a
order-Sound c a apart own order = record {
  apart = apart;
  own = own;
  order_apart = λ ids same. Apart-Perm (types-Perm (order ids)) (subst Apart (sym same) apart);
  order_issued = λ ids r same issued. All-Perm _ (order ids) issued;
  order_covers = λ ids t same absent. claimed_absent t (c.claims a) (
      absent-All t (types (c.claims a))
        (sym (member-Perm t (types-Perm (order ids)) ∙ ap (member t) same) ∙ absent));
}

-- ===== src/Stream/Cases.antt =====
-- A result is a value or an error.
use esphome_apiclient.Common.{◌≡◌, refl, ◌⊎◌, inl, inr}
use esphome_apiclient.Stream.{Result, ok, err}

pub Result-cases :
    {E A : Type 0} (r : Result E A) → ((a : A) × (r ≡ ok a)) ⊎ ((e : E) × (r ≡ err e))
Result-cases (ok a) = inl (a, refl)
Result-cases (err e) = inr (e, refl)

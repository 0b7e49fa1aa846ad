-- ===== src/Common/Keys.antt =====
-- Keys that a Go map can compare: the interface, and its instances for numbers and texts.
use Prim.Native.Nat.{ℕ}
use Prim.Native.String.{String}
use mathlib.Core.Path.{◌≡◌}
use mathlib.Core.Logic.{◌↔◌}
use mathlib.Core.Bool.{Bool, true}
use native.Mathlib.Omega.{arith}
use text.Mathlib.TextEquality.{eq_iff}
use text.Mathlib.Text.{◌==◌ as text_eq}
use esphome_apiclient.Common.Tests.{nat_eq}

pub nat_eq_iff : (a b : ℕ) → (nat_eq a b ≡ true) ↔ (a ≡ b)
nat_eq_iff a b = ground arith

-- `same_key j k` is `j == k` in Go.
pub record Key {ℓ} (K : Type ℓ) : Type ℓ where
  pub same_key : K → K → Bool
  pub same_iff : (j k : K) → (same_key j k ≡ true) ↔ (j ≡ k)

instance abbrev pub string_key : Key String
string_key = record { same_key = text_eq; same_iff = eq_iff }

instance abbrev pub nat_key : Key ℕ
nat_key = record { same_key = nat_eq; same_iff = nat_eq_iff }

infix 50 ◌==◌
abbrev pub ◌==◌ {ℓ} : {K : Type ℓ} ⦃key : Key K⦄ → K → K → Bool
◌==◌ ⦃key⦄ j k = key.same_key j k

-- ===== src/Client/Backoff.antt =====
-- client.go: how long reconnectLoop waits before each attempt. A Duration is 64 bits wide, in two's complement.
use esphome_apiclient.Common.{
  ℕ, zero, suc, ◌*◌, ◌^◌, ◌%◌, ◌<◌, ◌≡◌, refl, ap, ◌∙◌, ltb, ◌&&◌, if◌then◌else◌, arith,
}
use native.Mathlib.Nat.{mul_assoc}
use esphome_apiclient.Client.State.{second}

-- `5 * time.Minute`
abbrev pub max_backoff : ℕ
max_backoff = 300 * second

-- `backoff = backoff * 2; if backoff > maxBackoff { backoff = maxBackoff }`
unfoldable pub next_backoff : ℕ → ℕ
next_backoff b =
    let doubled : ℕ = b * 2 % 2 ^ 64 in
    if ltb doubled (2 ^ 63) && ltb max_backoff doubled then max_backoff else doubled

-- The wait before the attempt after `n` failures.
unfoldable pub backoff : ℕ → ℕ → ℕ
unfolding next_backoff
backoff interval zero = interval
backoff interval (suc n) = next_backoff (backoff interval n)

abbrev pub capped : ℕ → ℕ
capped x = if ltb max_backoff x then max_backoff else x

next_backoff-capped : (b : ℕ) → b < 2 ^ 62 → next_backoff b ≡ capped (b * 2)
unfolding next_backoff
next_backoff-capped b small = ground arith

capped_twice : (x : ℕ) → capped (capped x * 2) ≡ capped (x * 2)
capped_twice x = ground arith

capped_small : (x : ℕ) → capped x < 2 ^ 62
capped_small x = ground arith

-- For an interval of less than 2 ^ 62 nanoseconds: after some failures the loop waits for the interval doubled as
-- often, but for 5 minutes at most. The first wait, before any failure, is the interval, however long it is.
pub backoff-capped :
    (interval n : ℕ)
    → interval < 2 ^ 62
    → (backoff interval 0 ≡ interval) × (backoff interval (suc n) ≡ capped (interval * 2 ^ suc n))
unfolding backoff
backoff-capped interval n small = (refl, doubles n)
  where
    doubles : (n : ℕ) → backoff interval (suc n) ≡ capped (interval * 2 ^ suc n)
    doubles zero = next_backoff-capped interval small
    doubles (suc n) =
        let power : 2 ^ suc n * 2 ≡ 2 ^ suc (suc n) = omega arith in
        let twice : interval * 2 ^ suc n * 2 ≡ interval * 2 ^ suc (suc n) =
          mul_assoc interval (2 ^ suc n) 2 ∙ ap (λ x. interval * x) power in
        ap next_backoff (doubles n)
        ∙ next_backoff-capped (capped (interval * 2 ^ suc n)) (capped_small (interval * 2 ^ suc n))
        ∙ capped_twice (interval * 2 ^ suc n)
        ∙ ap capped twice

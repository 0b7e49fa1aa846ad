-- ===== src/Noise/Tests.antt =====
-- transport/noise.go: a cipher that puts its nonce before the text.
mod Handshake
use esphome_apiclient.Common.{
  ℕ, ◌+◌, ◌%◌, ◌^◌, ◌≡◌, refl, ap, Option, none, some, List, [], ◌∷◌, nat_eq, nat_eq_iff,
  if◌then◌else◌, arith, true,
}
use esphome_apiclient.Stream.{ok, eof, connection, Arrivals}
use esphome_apiclient.Stream.Sinks.{kept, kept_writes}
use esphome_apiclient.Stream.Chunks.{Delivers}
use esphome_apiclient.Noise.{
  Cipher, send_bytes, write_noise_frame, noise_write_frame, noise_read_frame,
}
use esphome_apiclient.Noise.Frames.{Paired, noise_read_frame-noise_write_frame}

abbrev seals : Cipher
seals = record { State = ℕ; apply = λ text n. (some (n ∷ text), n + 1) }

abbrev open_text : List ℕ → ℕ → Option (List ℕ) × ℕ
open_text [] n = (none, n)
open_text (t ∷ text) n = if nat_eq t n then (some text, n + 1) else (none, n)

abbrev opens : Cipher
opens = record { State = ℕ; apply = open_text }

seals-Paired : Paired seals opens (λ c d. c ≡ d)
seals-Paired = record {
  decrypts = λ c c1 d text ciphertext step e.
      let same : c ∷ text ≡ ciphertext = cc in
      let next : c + 1 ≡ c1 = ap (λ r. r.1) e in
      let equal : nat_eq c d ≡ true = ground (arith, nat_eq_iff c d) in
      (d + 1, (rw (← same, equal) refl), ground arith);
}

-- The ping 42 under nonce 5, in two chunks.
abbrev arrivals : Arrivals
arrivals = ((1 ∷ 0 ∷ []) ∷ (6 ∷ 5 ∷ 0 ∷ 7 ∷ 0 ∷ 1 ∷ 42 ∷ []) ∷ [], eof)

noise_read_frame-noise_write_frame_example :
    ((noise_read_frame opens connection (5, arrivals)).0 ≡ ok (7 % 2 ^ 16, 42 ∷ []))
    × Delivers (noise_read_frame opens connection (5, arrivals)).1.1 ([], eof)
    × ((noise_write_frame seals kept 7 (42 ∷ []) (5, [])).1.0
        ≡ (noise_read_frame opens connection (5, arrivals)).1.0)
unfolding noise_write_frame write_noise_frame send_bytes
noise_read_frame-noise_write_frame_example =
    noise_read_frame-noise_write_frame seals opens (λ c d. c ≡ d) seals-Paired kept kept_writes 7
      (42 ∷ []) (1 ∷ 0 ∷ 6 ∷ 5 ∷ 0 ∷ 7 ∷ 0 ∷ 1 ∷ 42 ∷ []) [] eof 5 5 [] arrivals refl refl refl
      (((λ e. cc), ((λ e. cc), tt)), refl, refl)

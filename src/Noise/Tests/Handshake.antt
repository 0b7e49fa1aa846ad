-- ===== src/Noise/Tests/Handshake.antt =====
-- transport/noise.go: a handshake with a device called "l", and with one that gives no name.
use esphome_apiclient.Common.{ℕ, ◌≡◌, ◌≢◌, ◌⊎◌, refl, none, some, List, [], ◌∷◌, if◌then◌else◌}
use esphome_apiclient.Stream.{ok, err, eof, connection, Arrivals, read_full, full_loop}
use esphome_apiclient.Stream.Sinks.{kept}
use esphome_apiclient.Noise.{Cipher, send_bytes, write_noise_frame, read_noise_frame, noise_payload}
use esphome_apiclient.Noise.Handshake.{
  HandshakeState, name_mismatch, invalid_encryption_key, handshake_error, same_bytes, mac_failure,
  send_handshake, new_noise_transport,
}
use esphome_apiclient.Noise.Greeting.{names}
use esphome_apiclient.Noise.Answered.{new_noise_transport_answered, new_noise_transport_unnamed}

abbrev plain : Cipher
plain = record { State = ℕ; apply = λ text n. (some text, n) }

abbrev agreed : HandshakeState plain plain
agreed = record {
  State = Unit {0};
  new_handshake_state = λ psk. some tt;
  write_message = λ hs. (some (9 ∷ []), hs);
  read_message = λ text hs. some (1, 2);
}

abbrev psk : List ℕ
psk =
    0 ∷ 0 ∷ 0 ∷ 0 ∷ 0 ∷ 0 ∷ 0 ∷ 0 ∷ 0 ∷ 0 ∷ 0 ∷ 0 ∷ 0 ∷ 0 ∷ 0 ∷ 0 ∷ 0 ∷ 0 ∷ 0 ∷ 0 ∷ 0 ∷ 0 ∷ 0 ∷ 0
    ∷ 0 ∷ 0 ∷ 0 ∷ 0 ∷ 0 ∷ 0 ∷ 0 ∷ 0 ∷ []

abbrev answer_left : Arrivals
answer_left = ((1 ∷ 0 ∷ 1 ∷ []) ∷ (0 ∷ []) ∷ [], eof)

abbrev named : Arrivals
named = ((1 ∷ 0 ∷ 5 ∷ []) ∷ (1 ∷ 108 ∷ 0 ∷ 77 ∷ 0 ∷ []) ∷ (1 ∷ 0 ∷ 1 ∷ []) ∷ (0 ∷ []) ∷ [], eof)

abbrev unnamed : Arrivals
unnamed = ((1 ∷ 0 ∷ 2 ∷ []) ∷ (1 ∷ 108 ∷ []) ∷ (1 ∷ 0 ∷ 1 ∷ []) ∷ (0 ∷ []) ∷ [], eof)

abbrev read_all : Arrivals
read_all = ([], eof)

abbrev hello_sent : List ℕ
hello_sent = 1 ∷ 0 ∷ 0 ∷ 1 ∷ 0 ∷ 2 ∷ 0 ∷ 9 ∷ []

-- The name of the device, which is expected too.
abbrev device : List ℕ
device = 108 ∷ []

new_noise_transport_answered_example :
    (device ≢ []
      → device ≢ device
      → new_noise_transport agreed kept connection psk device 0 none (named, [])
        ≡ (err (name_mismatch device), (answer_left, hello_sent)))
    × ((status : ℕ) (rest : List ℕ) (s2 : Arrivals)
        → (device ≡ []) ⊎ (device ≡ device)
        → read_noise_frame connection answer_left ≡ (ok (status ∷ rest), s2)
        → ((c : ℕ × ℕ)
            → status ≡ 0
            → agreed.read_message rest tt ≡ some c
            → new_noise_transport agreed kept connection psk device 0 none (named, [])
              ≡ (ok (names device (77 ∷ []), c), (s2, hello_sent)))
          × (status ≢ 0
              → new_noise_transport agreed kept connection psk device 0 none (named, []) ≡ (
                err (
                    if same_bytes rest mac_failure
                    then invalid_encryption_key
                    else handshake_error rest),
                (s2, hello_sent),
              )))
unfolding send_handshake send_bytes write_noise_frame read_noise_frame noise_payload read_full
    full_loop
new_noise_transport_answered_example =
    new_noise_transport_answered agreed kept connection psk device device (77 ∷ []) [] 0 named
      answer_left [] hello_sent tt tt refl refl refl ((λ e. cc), tt) ((λ e. cc), tt) refl

new_noise_transport_unnamed_example :
    new_noise_transport agreed kept connection psk (109 ∷ []) 0 none (unnamed, [])
    ≡ (ok (names [] [], (1, 2)), (read_all, hello_sent))
unfolding send_handshake send_bytes write_noise_frame read_noise_frame noise_payload read_full
    full_loop
new_noise_transport_unnamed_example =
    new_noise_transport_unnamed agreed kept connection psk (109 ∷ []) (108 ∷ []) [] 0 unnamed
      answer_left read_all [] hello_sent tt tt (1, 2) refl refl refl ((λ e. cc), tt) refl refl refl

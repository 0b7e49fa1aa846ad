-- ===== src/Noise/Answered.antt =====
-- transport/noise.go: the connection that the handshake gives, or why there is none.
use esphome_apiclient.Common.{
  ℕ, ◌≡◌, ◌≢◌, refl, ap, ◌∙◌, ◌⊎◌, none, some, false, List, [], ◌∷◌, length, nat_eq, nat_eq_iff,
  if◌then◌else◌, arith,
}
use esphome_apiclient.Stream.{ok, err, Source, Sink}
use esphome_apiclient.Noise.{Cipher, read_noise_frame}
use esphome_apiclient.Noise.Handshake.{
  HandshakeState, name_mismatch, invalid_encryption_key, handshake_error, same_bytes, mac_failure,
  parse_names, parse_server_hello, process_response, send_handshake, new_noise_transport,
}
use esphome_apiclient.Noise.Greeting.{
  NoNull, index_byte-NoNull, server_hello, names, refuses_other, refuses_not, parse_names-judged,
  wrap_info, begun, refused_hello, accepted_hello,
}

parse_server_hello-mismatch :
    (expected name mac extra : List ℕ)
    → NoNull name
    → NoNull mac
    → expected ≢ []
    → expected ≢ name
    → parse_server_hello expected (server_hello name mac extra) ≡ err (name_mismatch name)
unfolding parse_server_hello
parse_server_hello-mismatch expected name mac extra no_null no_null' given other =
    parse_names-judged expected name mac extra no_null no_null'
    ∙ rw (refuses_other expected name given other) refl

parse_server_hello-names :
    (expected name mac extra : List ℕ)
    → NoNull name
    → NoNull mac
    → (expected ≡ []) ⊎ (expected ≡ name)
    → parse_server_hello expected (server_hello name mac extra) ≡ ok (names name mac)
unfolding parse_server_hello
parse_server_hello-names expected name mac extra no_null no_null' welcome =
    parse_names-judged expected name mac extra no_null no_null'
    ∙ rw (refuses_not expected name welcome) refl

parse_server_hello-unnamed :
    (expected rest : List ℕ)
    → NoNull rest
    → parse_server_hello expected (1 ∷ rest) ≡ ok (names [] [])
unfolding parse_server_hello parse_names
parse_server_hello-unnamed expected rest no_null =
    rw (parse_names, index_byte-NoNull rest no_null) refl

module _ {E D : Cipher} (N : HandshakeState E D) where
  process_response-ok :
      (hs : N.State) (rest : List ℕ) (c : E.State × D.State)
      → N.read_message rest hs ≡ some c
      → process_response N hs (0 ∷ rest) ≡ ok c
  unfolding process_response
  process_response-ok hs rest c e = rw (process_response, e) refl

  process_response-status :
      (hs : N.State) (status : ℕ) (rest : List ℕ)
      → status ≢ 0
      → process_response N hs (status ∷ rest)
        ≡ err (if same_bytes rest mac_failure then invalid_encryption_key else handshake_error rest)
  unfolding process_response
  process_response-status hs status rest ne =
      let other : nat_eq status 0 ≡ false = ground (arith, nat_eq_iff status 0) in
      rw (process_response, other) refl

  module _ (K : Sink) (S : Source) where
    -- With a key of 32 bytes, when the handshake message has been sent and the server hello has a name and a MAC
    -- address, each ended by a null byte: another name than the one expected, where one is, ends the handshake after
    -- the server hello. Otherwise the response decides: status 0 and a message that the handshake state accepts give
    -- the ciphers, with the name and the MAC address; any other status is the error of its explanation, which for
    -- "Handshake MAC failure" is an invalid key.
    pub new_noise_transport_answered :
        (psk expected name mac extra : List ℕ) (timeout : ℕ) (s s1 : S.State) (k k1 : K.State)
        (hs hs1 : N.State)
        → length psk ≡ 32
        → N.new_handshake_state psk ≡ some hs
        → send_handshake N K S hs (s, k) ≡ (ok hs1, (s, k1))
        → NoNull name
        → NoNull mac
        → read_noise_frame S s ≡ (ok (server_hello name mac extra), s1)
        → (expected ≢ []
            → expected ≢ name
            → new_noise_transport N K S psk expected timeout none (s, k)
              ≡ (err (name_mismatch name), (s1, k1)))
          × ((status : ℕ) (rest : List ℕ) (s2 : S.State)
              → (expected ≡ []) ⊎ (expected ≡ name)
              → read_noise_frame S s1 ≡ (ok (status ∷ rest), s2)
              → ((c : E.State × D.State)
                  → status ≡ 0
                  → N.read_message rest hs1 ≡ some c
                  → new_noise_transport N K S psk expected timeout none (s, k)
                    ≡ (ok (names name mac, c), (s2, k1)))
                × (status ≢ 0
                    → new_noise_transport N K S psk expected timeout none (s, k) ≡ (
                      err (
                          if same_bytes rest mac_failure
                          then invalid_encryption_key
                          else handshake_error rest),
                      (s2, k1),
                    )))
    new_noise_transport_answered psk expected name mac extra timeout s s1 k k1 hs hs1 size state
          sent no_null no_null' received =
        let start = begun N K S psk expected timeout s k k1 hs hs1 size state sent in
        (
          (λ given other.
              start
              ∙ refused_hello N K S expected hs1 s s1 k1 (server_hello name mac extra)
                  (name_mismatch name) received
                  (parse_server_hello-mismatch expected name mac extra no_null no_null' given
                    other)),
          (λ status rest s2 welcome answered.
              let ends =
                start
                ∙ accepted_hello N K S expected hs1 s s1 s2 k1 (server_hello name mac extra)
                    (status ∷ rest) (names name mac) received
                    (parse_server_hello-names expected name mac extra no_null no_null' welcome)
                    answered in
              (
                (λ c zero_status accepts.
                    ends
                    ∙ ap (λ r. (wrap_info (names name mac) r, (s2, k1)))
                        (ap (λ b. process_response N hs1 (b ∷ rest)) zero_status
                          ∙ process_response-ok hs1 rest c accepts)),
                (λ ne.
                    ends
                    ∙ ap (λ r. (wrap_info (names name mac) r, (s2, k1)))
                        (process_response-status hs1 status rest ne)),
              )),
        )

    -- With a key of 32 bytes, when the handshake message has been sent, the server hello has no null byte after its
    -- protocol byte, and the response has status 0 and a message that the handshake state accepts: the handshake
    -- succeeds whatever name is expected, and the transport has no server name.
    pub new_noise_transport_unnamed :
        (psk expected text rest : List ℕ) (timeout : ℕ) (s s1 s2 : S.State) (k k1 : K.State)
        (hs hs1 : N.State) (c : E.State × D.State)
        → length psk ≡ 32
        → N.new_handshake_state psk ≡ some hs
        → send_handshake N K S hs (s, k) ≡ (ok hs1, (s, k1))
        → NoNull text
        → read_noise_frame S s ≡ (ok (1 ∷ text), s1)
        → read_noise_frame S s1 ≡ (ok (0 ∷ rest), s2)
        → N.read_message rest hs1 ≡ some c
        → new_noise_transport N K S psk expected timeout none (s, k)
          ≡ (ok (names [] [], c), (s2, k1))
    new_noise_transport_unnamed psk expected text rest timeout s s1 s2 k k1 hs hs1 c size state sent
          no_null received answered accepts =
        begun N K S psk expected timeout s k k1 hs hs1 size state sent
        ∙ accepted_hello N K S expected hs1 s s1 s2 k1 (1 ∷ text) (0 ∷ rest) (names [] []) received
            (parse_server_hello-unnamed expected text no_null) answered
        ∙ ap (λ r. (wrap_info (names [] []) r, (s2, k1))) (process_response-ok hs1 rest c accepts)

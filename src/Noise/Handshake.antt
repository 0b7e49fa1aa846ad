-- ===== src/Noise/Handshake.antt =====
-- transport/noise.go: performHandshake and NewNoiseTransport. A HandshakeState of github.com/flynn/noise is a
-- parameter, as is what SetDeadline of the connection answers. Texts are their bytes.
use esphome_apiclient.Common.{
  ℕ, suc, Option, none, some, Bool, true, false, not, ◌&&◌, List, [], ◌∷◌, length, take, drop,
  nat_eq, ltb, if◌then◌else◌,
}
use esphome_apiclient.Stream.{
  Result, ok, err, IoError, Reads, ◌>>=◌, ◌>>◌, return, fail_if, wrap, Source, Sink,
}
use esphome_apiclient.Noise.{NoiseError, Cipher, send_bytes, write_noise_frame, read_noise_frame}

-- The errors of performHandshake, each with what its text says.
pub data HandshakeFailure : Type 0 where
  psk_length : ℕ → HandshakeFailure
  deadline_failed : IoError → HandshakeFailure
  no_handshake_state no_message : HandshakeFailure
  client_hello_unsent frame_unsent server_hello_unread response_unread :
      NoiseError → HandshakeFailure
  empty_server_hello empty_response : HandshakeFailure
  unsupported_protocol : ℕ → HandshakeFailure
  name_mismatch : List ℕ → HandshakeFailure
  invalid_encryption_key unprocessed_response : HandshakeFailure
  handshake_error : List ℕ → HandshakeFailure

-- noise.NewHandshakeState for a key, WriteMessage and ReadMessage of it.
pub record HandshakeState (E D : Cipher) : Type 1 where
  pub State : Type 0
  pub new_handshake_state : List ℕ → Option State
  pub write_message : State → Option (List ℕ) × State
  pub read_message : List ℕ → State → Option (E.State × D.State)

-- What the server says of itself.
pub record ServerInfo : Type 0 where
  pub server_name : List ℕ
  pub server_mac : List ℕ

abbrev pub same_bytes : List ℕ → List ℕ → Bool
same_bytes [] [] = true
same_bytes (a ∷ us) (b ∷ vs) = nat_eq a b && same_bytes us vs
same_bytes _ _ = false

abbrev pub is_empty : List ℕ → Bool
is_empty [] = true
is_empty _ = false

-- bytes.IndexByte
abbrev pub index_byte : ℕ → List ℕ → Option ℕ
index_byte b [] = none
index_byte b (c ∷ cs) =
    let later = index_byte b cs in
    if nat_eq c b then some 0 else elim later [ none ↦ none | some i ↦ some (suc i) ]

-- "Handshake MAC failure"
abbrev pub mac_failure : List ℕ
mac_failure =
    72 ∷ 97 ∷ 110 ∷ 100 ∷ 115 ∷ 104 ∷ 97 ∷ 107 ∷ 101 ∷ 32 ∷ 77 ∷ 65 ∷ 67 ∷ 32 ∷ 102 ∷ 97 ∷ 105 ∷ 108
    ∷ 117 ∷ 114 ∷ 101 ∷ []

-- The MAC address, from the byte after the name on.
abbrev pub mac_of : List ℕ → List ℕ
mac_of rest = elim (index_byte 0 rest) [ none ↦ [] | some i ↦ take i rest ]

-- The name and the MAC address after the protocol byte.
unfoldable pub parse_names : List ℕ → List ℕ → Result HandshakeFailure ServerInfo
parse_names expected_name rest = elim (index_byte 0 rest) [
  | none ↦ ok (record { server_name = []; server_mac = [] })
  | some i ↦
      if not (is_empty expected_name) && not (same_bytes (take i rest) expected_name)
      then err (name_mismatch (take i rest))
      else ok (record { server_name = take i rest; server_mac = mac_of (drop (suc i) rest) })
]

unfoldable pub parse_server_hello : List ℕ → List ℕ → Result HandshakeFailure ServerInfo
unfolding parse_names
parse_server_hello expected_name [] = err empty_server_hello
parse_server_hello expected_name (proto ∷ rest) =
    if not (nat_eq proto 1)
    then err (unsupported_protocol proto)
    else parse_names expected_name rest

module _ {E D : Cipher} (N : HandshakeState E D) where
  unfoldable pub process_response : N.State → List ℕ → Result HandshakeFailure (E.State × D.State)
  process_response hs [] = err empty_response
  process_response hs (status ∷ rest) =
      if not (nat_eq status 0)
      then err
          (if same_bytes rest mac_failure then invalid_encryption_key else handshake_error rest)
      else elim (N.read_message rest hs) [
        | none ↦ err unprocessed_response
        | some ciphers ↦ ok ciphers
      ]

  module _ (K : Sink) (S : Source) where
    abbrev pub Connection : Type 0
    Connection = S.State × K.State

    abbrev pub writing :
        {A : Type 0}
        → (NoiseError → HandshakeFailure)
        → Reads K.State NoiseError A
        → Reads Connection HandshakeFailure A
    writing f m (s, k) = let (r, k') = m k in (wrap f r, (s, k'))

    abbrev pub reading :
        {A : Type 0}
        → (NoiseError → HandshakeFailure)
        → Reads S.State NoiseError A
        → Reads Connection HandshakeFailure A
    reading f m (s, k) = let (r, s') = m s in (wrap f r, (s', k))

    abbrev pub lift :
        {A B : Type 0} → (A → Result HandshakeFailure B) → A → Reads Connection HandshakeFailure B
    lift f a c = (f a, c)

    abbrev pub from : {A : Type 0} → HandshakeFailure → Option A → Result HandshakeFailure A
    from e none = err e
    from e (some a) = ok a

    -- Steps 3 and 4: the server hello and the response.
    unfoldable pub receive_handshake :
        List ℕ → N.State → Reads Connection HandshakeFailure (ServerInfo × (E.State × D.State))
    unfolding parse_server_hello process_response
    receive_handshake expected_name hs = do
      hello ← reading server_hello_unread (read_noise_frame S)
      info ← lift (parse_server_hello expected_name) hello
      response ← reading response_unread (read_noise_frame S)
      ciphers ← lift (process_response hs) response
      return (info, ciphers)

    -- Steps 1 and 2: the client hello and the handshake message behind the protocol indicator.
    unfoldable pub send_handshake : N.State → Reads Connection HandshakeFailure N.State
    send_handshake hs = do
      writing client_hello_unsent (send_bytes K NoiseError.header_unsent (1 ∷ 0 ∷ 0 ∷ []))
      let (message, hs1) = N.write_message hs
      text ← lift (from no_message) message
      writing frame_unsent (write_noise_frame K (0 ∷ text))
      return hs1

    unfoldable pub perform_handshake :
        List ℕ
        → List ℕ
        → ℕ
        → Option IoError
        → Reads Connection HandshakeFailure (ServerInfo × (E.State × D.State))
    unfolding receive_handshake send_handshake
    perform_handshake psk expected_name timeout deadline = do
      lift
          (λ d. elim d [
            | none ↦ ok tt
            | some e ↦ if ltb 0 timeout then err (deadline_failed e) else ok tt
          ])
          deadline
      hs ← lift (from no_handshake_state) (N.new_handshake_state psk)
      hs1 ← send_handshake hs
      receive_handshake expected_name hs1

    unfoldable pub new_noise_transport :
        List ℕ
        → List ℕ
        → ℕ
        → Option IoError
        → Reads Connection HandshakeFailure (ServerInfo × (E.State × D.State))
    unfolding perform_handshake
    new_noise_transport psk expected_name timeout deadline = do
      fail_if (not (nat_eq (length psk) 32)) (psk_length (length psk))
      perform_handshake psk expected_name timeout deadline

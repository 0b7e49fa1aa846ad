-- ===== src/Noise/Greeting.antt =====
-- transport/noise.go: how the handshake ends, by what the device answers.
use esphome_apiclient.Common.{
  ℕ, suc, ◌≡◌, ◌≢◌, refl, sym, ◌⊎◌, inl, inr, none, some, Bool, true, false, not, ◌&&◌, List, [],
  ◌∷◌, ◌++◌, length, drop, nat_eq, nat_eq_iff, if◌then◌else◌, All, take-length_append, Bool-cases,
  arith,
}
use esphome_apiclient.Stream.{Result, ok, err, resume, return, Source, Sink}
use esphome_apiclient.Noise.{Cipher, read_noise_frame}
use esphome_apiclient.Noise.Handshake.{
  HandshakeFailure, HandshakeState, ServerInfo, name_mismatch, same_bytes, is_empty, index_byte,
  mac_of, parse_names, parse_server_hello, process_response, Connection, send_handshake,
  receive_handshake, perform_handshake, new_noise_transport,
}

-- Bytes other than the one that ends a text.
abbrev pub NoNull : List ℕ → Type 0
NoNull = All (λ b. b ≢ 0)

index_byte-end : (bs rest : List ℕ) → NoNull bs → index_byte 0 (bs ++ (0 ∷ rest)) ≡ some (length bs)
index_byte-end [] rest none_null = refl
index_byte-end (b ∷ bs) rest (ne, none_null) =
    let other : nat_eq b 0 ≡ false = ground (arith, nat_eq_iff b 0) in
    rw (other, index_byte-end bs rest none_null) refl

pub index_byte-NoNull : (bs : List ℕ) → NoNull bs → index_byte 0 bs ≡ none
index_byte-NoNull [] none_null = refl
index_byte-NoNull (b ∷ bs) (ne, none_null) =
    let other : nat_eq b 0 ≡ false = ground (arith, nat_eq_iff b 0) in
    rw (other, index_byte-NoNull bs none_null) refl

same_bytes-same : (bs : List ℕ) → same_bytes bs bs ≡ true
same_bytes-same [] = refl
same_bytes-same (b ∷ bs) =
    let same : nat_eq b b ≡ true = (nat_eq_iff b b).1 refl in rw (same, same_bytes-same bs) refl

same_bytes_eq : (xs ys : List ℕ) → same_bytes xs ys ≡ true → xs ≡ ys
same_bytes_eq [] [] e = refl
same_bytes_eq [] (b ∷ bs) e = absurd (let clash : false ≡ true = e in cc)
same_bytes_eq (b ∷ bs) [] e = absurd (let clash : false ≡ true = e in cc)
same_bytes_eq (x ∷ xs) (y ∷ ys) e =
    let first : nat_eq x y ≡ true = ground arith in
    let rest : xs ≡ ys = same_bytes_eq xs ys (ground arith) in
    let same : x ≡ y = (nat_eq_iff x y).0 first in rw (same, rest) refl

same_bytes_ne : (xs ys : List ℕ) → xs ≢ ys → same_bytes xs ys ≡ false
same_bytes_ne xs ys ne = elim (Bool-cases (same_bytes xs ys)) [
  | inl e ↦ absurd (ne (same_bytes_eq xs ys e))
  | inr e ↦ e
]

-- A server hello with a name and a MAC address, and what it says.
abbrev pub server_hello : List ℕ → List ℕ → List ℕ → List ℕ
server_hello name mac extra = 1 ∷ (name ++ (0 ∷ (mac ++ (0 ∷ extra))))

abbrev pub names : List ℕ → List ℕ → ServerInfo
names name mac = record { server_name = name; server_mac = mac }

drop_after : (bs rest : List ℕ) → drop (suc (length bs)) (bs ++ (0 ∷ rest)) ≡ rest
drop_after [] rest = refl
drop_after (b ∷ bs) rest = drop_after bs rest

mac_of-end : (mac extra : List ℕ) → NoNull mac → mac_of (mac ++ (0 ∷ extra)) ≡ mac
mac_of-end mac extra none_null =
    rw (mac_of, index_byte-end mac extra none_null) (take-length_append mac (0 ∷ extra))

-- The check of the expected name.
abbrev pub refuses : List ℕ → List ℕ → Bool
refuses expected name = not (is_empty expected) && not (same_bytes name expected)

pub refuses_other :
    (expected name : List ℕ) → expected ≢ [] → expected ≢ name → refuses expected name ≡ true
refuses_other [] name given other = absurd (given refl)
refuses_other (b ∷ bs) name given other = rw (same_bytes_ne name (b ∷ bs) (λ e. other (sym e))) refl

pub refuses_not :
    (expected name : List ℕ) → (expected ≡ []) ⊎ (expected ≡ name) → refuses expected name ≡ false
refuses_not expected name (inl e) = rw e refl
refuses_not expected name (inr e) =
    rw (e, same_bytes-same name)
      (elim (Bool-cases (is_empty name)) [ inl c ↦ rw c refl | inr c ↦ rw c refl ])

pub parse_names-judged :
    (expected name mac extra : List ℕ)
    → NoNull name
    → NoNull mac
    → parse_names expected (name ++ (0 ∷ (mac ++ (0 ∷ extra))))
      ≡ (if refuses expected name then err (name_mismatch name) else ok (names name mac))
unfolding parse_names
parse_names-judged expected name mac extra no_null no_null' =
    rw
      (
        parse_names,
        index_byte-end name (mac ++ (0 ∷ extra)) no_null,
        take-length_append name (0 ∷ (mac ++ (0 ∷ extra))),
        drop_after name (mac ++ (0 ∷ extra)),
        mac_of-end mac extra no_null',
      )
      refl

abbrev pub wrap_info :
    {A : Type 0} → ServerInfo → Result HandshakeFailure A → Result HandshakeFailure (ServerInfo × A)
wrap_info info (ok a) = ok (info, a)
wrap_info info (err e) = err e

module _ {E D : Cipher} (N : HandshakeState E D) (K : Sink) (S : Source) where
  abbrev Ciphers : Type 0
  Ciphers = E.State × D.State

  pub begun :
      (psk expected : List ℕ) (timeout : ℕ) (s : S.State) (k k1 : K.State) (hs hs1 : N.State)
      → length psk ≡ 32
      → N.new_handshake_state psk ≡ some hs
      → send_handshake N K S hs (s, k) ≡ (ok hs1, (s, k1))
      → new_noise_transport N K S psk expected timeout none (s, k)
        ≡ receive_handshake N K S expected hs1 (s, k1)
  unfolding new_noise_transport perform_handshake
  begun psk expected timeout s k k1 hs hs1 size state sent =
      let fine : nat_eq (length psk) 32 ≡ true = (nat_eq_iff (length psk) 32).1 size in
      rw (new_noise_transport, fine, perform_handshake, state, sent) refl

  pub refused_hello :
      (expected : List ℕ) (hs : N.State) (s s1 : S.State) (k : K.State) (hello : List ℕ)
      (e : HandshakeFailure)
      → read_noise_frame S s ≡ (ok hello, s1)
      → parse_server_hello expected hello ≡ err e
      → receive_handshake N K S expected hs (s, k) ≡ (err e, (s1, k))
  unfolding receive_handshake
  refused_hello expected hs s s1 k hello e received refused =
      rw (receive_handshake, received, refused) refl

  finished :
      (info : ServerInfo) (r : Result HandshakeFailure Ciphers) (c : Connection N K S)
      → resume (λ ciphers. return (info, ciphers)) r c ≡ (wrap_info info r, c)
  finished info (ok ciphers) c = refl
  finished info (err e) c = refl

  pub accepted_hello :
      (expected : List ℕ) (hs : N.State) (s s1 s2 : S.State) (k : K.State) (hello response : List ℕ)
      (info : ServerInfo)
      → read_noise_frame S s ≡ (ok hello, s1)
      → parse_server_hello expected hello ≡ ok info
      → read_noise_frame S s1 ≡ (ok response, s2)
      → receive_handshake N K S expected hs (s, k)
        ≡ (wrap_info info (process_response N hs response), (s2, k))
  unfolding receive_handshake
  accepted_hello expected hs s s1 s2 k hello response info received parsed answered =
      rw (receive_handshake, received, parsed, answered)
        (finished info (process_response N hs response) (s2, k))

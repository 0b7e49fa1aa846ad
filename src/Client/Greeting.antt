-- ===== src/Client/Greeting.antt =====
-- client.go: how the handshake ends.
use esphome_apiclient.Common.{
  ℕ, ◌≡◌, ◌≢◌, refl, ap, ◌∙◌, Option, none, some, true, false, nat_eq, nat_eq_iff, arith, List,
  nat_key, Option-cases, inl, inr,
}
use esphome_apiclient.Stream.{Result, ok, err, Reads, resume}
use esphome_apiclient.Common.Maps.{lookup}
use esphome_apiclient.Pb.Registry.{message_registry}
use esphome_apiclient.Pb.Message.{Message}
use esphome_apiclient.Pb.Session.{HelloResponse}
use esphome_apiclient.Client.Framer.{Framer, FramerError}
use esphome_apiclient.Client.State.{Client}
use esphome_apiclient.Client.Exchange.{
  Protobuf, MessageError, with_framer, send_message, recv_message, decode,
}
use esphome_apiclient.Client.Handshake.{
  hello, hello_response?, accepted, accept_hello, check_hello, handshake, wrong_type, wrong_message,
  unsupported_version,
}

-- Two clients that differ in their framer at most.
abbrev pub SameBut : {S H : Type 0} → Client S H → Client S H → Type 0
SameBut c c' = c' ≡ record c { framer = c'.framer }

module _ (P : Protobuf) (F : Framer) {H : Type 0} where
  with_framer-SameBut :
      {A : Type 0} (m : Reads F.State FramerError A) (c : Client F.State H)
      → SameBut c (with_framer P F m c).1
  with_framer-SameBut m c = elim (Option-cases c.framer) [
    | inl nil ↦ rw nil refl
    | inr (s, e) ↦ rw e refl
  ]

  pub send_SameBut :
      (m : Message) (t : ℕ) (c : Client F.State H) → SameBut c (send_message P F m t c).1
  unfolding send_message
  send_SameBut m t c = elim (Option-cases (P.marshal m)) [
    | inl failed ↦ rw (send_message, failed) refl
    | inr (bs, e) ↦ rw (send_message, e) (with_framer-SameBut (F.write_frame t bs) c)
  ]

  decode_same : (f : ℕ × List ℕ) (c : Client F.State H) → (decode P F f c).1 ≡ c
  unfolding decode
  decode_same (t, bs) c = elim (Option-cases (lookup t message_registry)) [
    | inl unknown ↦ rw (decode, unknown) refl
    | inr (k, known) ↦ elim (Option-cases (P.unmarshal k bs)) [
      | inl failed ↦ rw (decode, known, failed) refl
      | inr (m, filled) ↦ rw (decode, known, filled) refl
    ]
  ]

  resume_same :
      (r : Result MessageError (ℕ × List ℕ)) (c : Client F.State H)
      → (resume (decode P F) r c).1 ≡ c
  resume_same (ok f) c = decode_same f c
  resume_same (err e) c = refl

  pub recv_SameBut : (c : Client F.State H) → SameBut c (recv_message P F c).1
  unfolding recv_message
  recv_SameBut c = rw resume_same (with_framer-SameBut F.read_frame c)

  -- Once SendMessage has sent the HelloRequest and RecvMessage has received a reply, the handshake ends by
  -- what the reply is: a HelloResponse under its id 2 and of the major version of the client is accepted,
  -- and sets the version, the server and the name; any other reply is refused with the error for its case.
  -- Beside that only the state of the framer has changed.
  pub handshake_replied :
      (c c1 c2 : Client F.State H) (msg : Option Message) (t : ℕ)
      → send_message P F (hello c) 1 c ≡ (ok tt, c1)
      → recv_message P F c1 ≡ (ok (msg, t), c2)
      → (c2 ≡ record c { framer = c2.framer })
        × (t ≢ 2 → handshake P F c ≡ (err (wrong_type t), c2))
        × (t ≡ 2 → hello_response? msg ≡ none → handshake P F c ≡ (err wrong_message, c2))
        × ((m : HelloResponse)
            → t ≡ 2
            → hello_response? msg ≡ some m
            → (m.api_version_major ≢ c.api_version_major
                → handshake P F c
                  ≡ (err (unsupported_version m.api_version_major m.api_version_minor), c2))
              × (m.api_version_major ≡ c.api_version_major
                  → handshake P F c ≡ (ok tt, accepted m c2)))
  unfolding handshake check_hello accept_hello
  handshake_replied c c1 c2 msg t sent received =
      let same1 : SameBut c c1 = rw sent at (send_SameBut (hello c) 1 c) in
      let same2 : SameBut c1 c2 = rw received at (recv_SameBut c1) in
      let same : SameBut c c2 =
        same2
        ∙ ap {B = Client F.State H} (λ (x : Client F.State H). record x { framer = c2.framer })
            same1 in
      let major : c2.api_version_major ≡ c.api_version_major = ap (λ x. x.api_version_major) same in
      (
        same,
        (λ ne.
            let other : nat_eq t 2 ≡ false = ground (arith, nat_eq_iff t 2) in
            rw (handshake, sent, received, check_hello, other) refl),
        (λ two no.
            let is_two : nat_eq t 2 ≡ true = ground (arith, nat_eq_iff t 2) in
            rw (handshake, sent, received, check_hello, is_two, no) refl),
        (λ m two it.
            let is_two : nat_eq t 2 ≡ true = ground (arith, nat_eq_iff t 2) in
            (
              (λ ne.
                  let other : nat_eq m.api_version_major c2.api_version_major ≡ false =
                    ground (arith, nat_eq_iff m.api_version_major c2.api_version_major) in
                  rw (handshake, sent, received, check_hello, is_two, it, accept_hello, other)
                    refl),
              (λ eq.
                  let equal : nat_eq m.api_version_major c2.api_version_major ≡ true =
                    ground (arith, nat_eq_iff m.api_version_major c2.api_version_major) in
                  rw (handshake, sent, received, check_hello, is_two, it, accept_hello, equal)
                    refl),
            )),
      )

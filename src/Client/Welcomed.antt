-- ===== src/Client/Welcomed.antt =====
-- client.go: how the handshake of a new connection ends, and what it has received when it succeeds.
use esphome_apiclient.Common.{
  ℕ, ◌≡◌, refl, ap, ◌∙◌, sym, Option, none, some, inl, inr, Bool-cases, nat_eq, nat_eq_iff,
}
use esphome_apiclient.Stream.{Result, ok, err}
use mathlib.Core.Path.{subst}
use esphome_apiclient.Stream.Cases.{Result-cases}
use esphome_apiclient.Pb.Message.{Message}
use esphome_apiclient.Pb.Session.{HelloResponse}
use esphome_apiclient.Client.Framer.{Framer}
use esphome_apiclient.Client.State.{Client}
use esphome_apiclient.Client.Exchange.{Protobuf, MessageError, send_message, recv_message}
use esphome_apiclient.Client.Handshake.{
  HandshakeError, hello, hello_response?, accepted, accept_hello, check_hello, handshake,
  wrong_message, hello_unsent, hello_unreceived,
}
use esphome_apiclient.Client.Greeting.{SameBut, send_SameBut, recv_SameBut}

-- Over the connection of `c`, the HelloRequest has been sent, and RecvMessage has then returned the HelloResponse
-- `m` under its id 2, which has left the client `c2`.
module _ (P : Protobuf) (F : Framer) {H : Type 0} where
  abbrev pub Receives : Client F.State H → HelloResponse → Client F.State H → Type 0
  Receives c m c2 =
      (c1 : Client F.State H) × (send_message P F (hello c) 1 c ≡ (ok tt, c1))
      × (recv_message P F c1 ≡ (ok (some (Message.hello_response m), 2), c2))

hello_response_some :
    (msg : Option Message) (m : HelloResponse)
    → hello_response? msg ≡ some m
    → msg ≡ some (Message.hello_response m)
hello_response_some (some (Message.hello_response n)) m e =
    let same : n ≡ m = cc in ap (λ x. some (Message.hello_response x)) same
hello_response_some (some _) m e = absurd (let clash : none ≡ some m = e in cc)
hello_response_some none m e = absurd (let clash : none ≡ some m = e in cc)

module _ {S H : Type 0} where
  pub SameBut-trans : (c c1 c2 : Client S H) → SameBut c c1 → SameBut c1 c2 → SameBut c c2
  SameBut-trans c c1 c2 same1 same2 =
      same2 ∙ ap {B = Client S H} (λ (x : Client S H). record x { framer = c2.framer }) same1

  -- A reply is accepted only as a HelloResponse under its id and of the version of the client; a refused one
  -- leaves the client as it was.
  abbrev Checked :
      Client S H → Option Message → ℕ → Result HandshakeError (Unit {0}) × Client S H → Type 0
  Checked c msg t (r, c1) =
      ((e : HandshakeError) → r ≡ err e → c1 ≡ c)
      × (r ≡ ok tt
          → (m : HelloResponse) × (msg ≡ some (Message.hello_response m))
            × (t ≡ 2)
            × (m.api_version_major ≡ c.api_version_major)
            × (c1 ≡ accepted m c))

  accept_hello-Checked :
      (c : Client S H) (msg : Option Message) (m : Option HelloResponse) (t : ℕ)
      → t ≡ 2
      → hello_response? msg ≡ m
      → Checked c msg t (accept_hello m c)
  unfolding accept_hello
  accept_hello-Checked c msg none t two e =
      ((λ x p. refl), (λ p. absurd (let clash : err wrong_message ≡ ok tt = p in cc)))
  accept_hello-Checked c msg (some m) t two e =
      elim (Bool-cases (nat_eq m.api_version_major c.api_version_major)) [
        | inr b ↦ rw (accept_hello, b) ((λ x p. refl), (λ p. cc))
        | inl b ↦
            let equal : m.api_version_major ≡ c.api_version_major =
              (nat_eq_iff m.api_version_major c.api_version_major).0 b in
            rw (accept_hello, b)
              ((λ x p. cc), (λ p. (m, hello_response_some msg m e, two, equal, refl)))
      ]

  check_hello-Checked :
      (c : Client S H) (msg : Option Message) (t : ℕ) → Checked c msg t (check_hello (msg, t) c)
  unfolding check_hello
  check_hello-Checked c msg t = elim (Bool-cases (nat_eq t 2)) [
    | inl b ↦
        rw (check_hello, b)
          (accept_hello-Checked c msg (hello_response? msg) t ((nat_eq_iff t 2).0 b) refl)
    | inr b ↦ rw (check_hello, b) ((λ x p. refl), (λ p. cc))
  ]

module _ (P : Protobuf) (F : Framer) {H : Type 0} where
  -- How the handshake may end: with the client as it was but for its framer, or with a HelloResponse received.
  abbrev pub Ended :
      {E : Type 0} → Client F.State H → Result E (Unit {0}) × Client F.State H → Type 0
  Ended {E = E} c (r, c1) =
      ((e : E) → r ≡ err e → SameBut c c1)
      × (r ≡ ok tt
          → (m : HelloResponse) × (c2 : Client F.State H) × Receives P F c m c2
            × (m.api_version_major ≡ c.api_version_major)
            × (c1 ≡ record (accepted m c) { framer = c2.framer }))

  received-Ended :
      (c c1 c2 : Client F.State H) (msg : Option Message) (t : ℕ)
      (end : Result HandshakeError (Unit {0}) × Client F.State H)
      → send_message P F (hello c) 1 c ≡ (ok tt, c1)
      → recv_message P F c1 ≡ (ok (msg, t), c2)
      → SameBut c c2
      → Checked c2 msg t end
      → Ended c end
  received-Ended c c1 c2 msg t end sent received same (failing, fine) = (
    (λ e p.
        failing e p
        ∙ same
        ∙ sym (ap (λ (x : Client F.State H). record c { framer = x.framer }) (failing e p))),
    (λ p.
        let (m, is_hello, two, equal, is_accepted) = fine p in
        (
          m,
          c2,
          (c1, sent, received ∙ rw (is_hello, two) refl),
          equal ∙ ap (λ x. x.api_version_major) same,
          is_accepted ∙ ap {B = Client F.State H} (λ (x : Client F.State H). accepted m x) same,
        )),
  )

  replied :
      (c c1 c2 : Client F.State H) (msg : Option Message) (t : ℕ)
      → send_message P F (hello c) 1 c ≡ (ok tt, c1)
      → recv_message P F c1 ≡ (ok (msg, t), c2)
      → handshake P F c ≡ check_hello (msg, t) c2
  unfolding handshake
  replied c c1 c2 msg t sent received = rw (handshake, sent, received) refl

  replied-Ended :
      (c c1 c2 : Client F.State H) (msg : Option Message) (t : ℕ)
      → send_message P F (hello c) 1 c ≡ (ok tt, c1)
      → recv_message P F c1 ≡ (ok (msg, t), c2)
      → SameBut c c2
      → Ended c (handshake P F c)
  replied-Ended c c1 c2 msg t sent received same =
      subst (Ended c) (sym (replied c c1 c2 msg t sent received)) (
        received-Ended c c1 c2 msg t (check_hello (msg, t) c2) sent received same
          (check_hello-Checked c2 msg t))

  unsent-Ended :
      (c c1 : Client F.State H) (e : MessageError)
      → send_message P F (hello c) 1 c ≡ (err e, c1)
      → SameBut c c1
      → Ended c (handshake P F c)
  unfolding handshake
  unsent-Ended c c1 e failed same =
      let ends : handshake P F c ≡ (err (hello_unsent e), c1) = rw (handshake, failed) refl in
      subst (Ended c) (sym ends) ((λ x p. same), (λ p. cc))

  unreceived-Ended :
      (c c1 c2 : Client F.State H) (e : MessageError)
      → send_message P F (hello c) 1 c ≡ (ok tt, c1)
      → recv_message P F c1 ≡ (err e, c2)
      → SameBut c c2
      → Ended c (handshake P F c)
  unfolding handshake
  unreceived-Ended c c1 c2 e sent failed same =
      let ends : handshake P F c ≡ (err (hello_unreceived e), c2) =
        rw (handshake, sent, failed) refl in
      subst (Ended c) (sym ends) ((λ x p. same), (λ p. cc))

  sent-Ended :
      (c c1 : Client F.State H)
      → send_message P F (hello c) 1 c ≡ (ok tt, c1)
      → SameBut c c1
      → Ended c (handshake P F c)
  sent-Ended c c1 sent same1 =
      let c2 : Client F.State H = (recv_message P F c1).1 in
      let same : SameBut c c2 = SameBut-trans c c1 c2 same1 (recv_SameBut P F c1) in
      elim (Result-cases (recv_message P F c1).0) [
        | inr (e, failed) ↦ unreceived-Ended c c1 c2 e sent (ap (λ r. (r, c2)) failed) same
        | inl ((m, t), received) ↦ replied-Ended c c1 c2 m t sent (ap (λ r. (r, c2)) received) same
      ]

  pub handshake-Ended : (c : Client F.State H) → Ended c (handshake P F c)
  handshake-Ended c =
      let c1 : Client F.State H = (send_message P F (hello c) 1 c).1 in
      let same : SameBut c c1 = send_SameBut P F (hello c) 1 c in
      elim (Result-cases (send_message P F (hello c) 1 c).0) [
        | inr (e, failed) ↦ unsent-Ended c c1 e (ap (λ r. (r, c1)) failed) same
        | inl (u, sent) ↦ sent-Ended c c1 (ap (λ r. (r, c1)) sent) same
      ]

-- ===== src/Client/Connected.antt =====
-- client.go: what connect leaves in the client, and how long reconnectLoop waits.
use esphome_apiclient.Common.{
  ℕ, zero, suc, ◌+◌, ◌*◌, ◌^◌, ◌<◌, ◌≡◌, refl, ap, ◌∙◌, sym, Bool, true, false, Option, none, some,
  List, [], ◌∷◌, inl, inr, arith,
}
use esphome_apiclient.Stream.{Result, ok, err}
use mathlib.Core.Path.{subst}
use esphome_apiclient.Stream.Cases.{Result-cases}
use esphome_apiclient.Pb.Message.{Message}
use esphome_apiclient.Pb.Session.{HelloResponse}
use esphome_apiclient.Client.Framer.{Framer}
use esphome_apiclient.Client.State.{Client}
use esphome_apiclient.Client.Exchange.{Protobuf}
use esphome_apiclient.Client.Handshake.{HandshakeError, accepted, handshake}
use esphome_apiclient.Client.Greeting.{SameBut, handshake_replied}
use esphome_apiclient.Client.Welcomed.{Receives, SameBut-trans, Ended, handshake-Ended}
use esphome_apiclient.Client.Backoff.{next_backoff, backoff, backoff-capped, capped}
use esphome_apiclient.Client.Connect.{
  Network, ConnectError, unwelcome, connect, shut, greeted, open_framer, Reconnects, refused,
  reconnected, abandoned, cancelling, registering,
}

module _ (P : Protobuf) (F : Framer) {H : Type 0} where
  shut-SameBut : (c : Client F.State H) → SameBut c (shut P F c)
  shut-SameBut c = refl

  left-Ended :
      (c c1 : Client F.State H) (e : ConnectError)
      (end : Result ConnectError (Unit {0}) × Client F.State H)
      → end ≡ (err e, shut P F c1)
      → SameBut c c1
      → Ended P F c end
  left-Ended c c1 e end left same = subst (Ended P F c) (sym left) (
    (λ x p. SameBut-trans c c1 (shut P F c1) same (shut-SameBut c1)),
    (λ p. absurd (let clash : err e ≡ ok tt = p in cc)),
  )

  entered-Ended :
      (c c1 : Client F.State H) (h : Result HandshakeError (Unit {0}) × Client F.State H)
      (end : Result ConnectError (Unit {0}) × Client F.State H)
      → end ≡ (ok tt, c1)
      → h ≡ (ok tt, c1)
      → Ended P F c h
      → Ended P F c end
  entered-Ended c c1 h end entered shaken (failing, fine) =
      let same : h.1 ≡ c1 = ap (λ y. y.1) shaken in
      let (m, c2, receives, equal, is_accepted) = fine (ap (λ y. y.0) shaken) in
      subst (Ended P F c) (sym entered) (
        (λ x p. absurd (let clash : ok tt ≡ err x = p in cc)),
        (λ p. (m, c2, receives, equal, sym same ∙ is_accepted)),
      )

  abbrev over : Client F.State H → F.State → Client F.State H
  over c s = record c { framer = some s }

  opened :
      (net : Network F.State) (c : Client F.State H) (s : F.State)
      → open_framer net c ≡ ok s
      → connect P F net c ≡ greeted P F (handshake P F (over c s)).0 (handshake P F (over c s)).1
  unfolding connect
  opened net c s e = rw (connect, e) refl

  unopened :
      (net : Network F.State) (c : Client F.State H) (e : ConnectError)
      → open_framer net c ≡ err e
      → connect P F net c ≡ (err e, c)
  unfolding connect
  unopened net c e failed = rw (connect, failed) refl

  opened-Ended :
      (net : Network F.State) (c : Client F.State H) (s : F.State)
      → open_framer net c ≡ ok s
      → Ended P F (over c s) (connect P F net c)
  opened-Ended net c s open_ok =
      let h = handshake P F (over c s) in
      let shaken : Ended P F (over c s) h = handshake-Ended P F (over c s) in
      elim (Result-cases h.0) [
        | inr (e, failed) ↦
            left-Ended (over c s) h.1 (unwelcome e) (connect P F net c)
              (opened net c s open_ok ∙ ap (λ r. greeted P F r h.1) failed) (shaken.0 e failed)
        | inl (u, fine) ↦
            entered-Ended (over c s) h.1 h (connect P F net c)
              (opened net c s open_ok ∙ ap (λ r. greeted P F r h.1) fine) (ap (λ r. (r, h.1)) fine)
              shaken
      ]

  -- A connection over which a HelloResponse of the client's version is received.
  welcomed :
      (net : Network F.State) (c : Client F.State H) (s : F.State) (m : HelloResponse)
      (c2 : Client F.State H)
      → open_framer net c ≡ ok s
      → Receives P F (over c s) m c2
      → m.api_version_major ≡ c.api_version_major
      → connect P F net c ≡ (ok tt, record (accepted m c) { framer = c2.framer })
  welcomed net c s m c2 open_ok (c1, sent, received) equal =
      let (same, _, _, fine) =
        handshake_replied P F (over c s) c1 c2 (some (Message.hello_response m)) 2 sent received in
      opened net c s open_ok
      ∙ ap (λ r. greeted P F r.0 r.1) ((fine m refl refl).1 equal)
      ∙ ap {B = Result ConnectError (Unit {0}) × Client F.State H}
          (λ (x : Client F.State H). (ok tt, accepted m x)) same

  -- When connect fails, nothing of the client but its framer has changed. When it succeeds, a framer has been opened,
  -- SendMessage has sent the HelloRequest over it, and RecvMessage has then returned a HelloResponse of the client's
  -- major version under its id 2; the client has the version, server and name of that message, and nothing else
  -- but the framer has changed. And whenever all that happens, connect succeeds.
  pub connect-Ended :
      (net : Network F.State) (c : Client F.State H)
      → let (r, c1) = connect P F net c in
        ((e : ConnectError) → r ≡ err e → c1 ≡ record c { framer = c1.framer })
        × (r ≡ ok tt
            → (s : F.State) × (m : HelloResponse) × (c2 : Client F.State H) × (open_framer net c
                ≡ ok s)
              × Receives P F (record c { framer = some s }) m c2
              × (m.api_version_major ≡ c.api_version_major)
              × (c1 ≡ record (accepted m c) { framer = c2.framer }))
        × ((s : F.State) (m : HelloResponse) (c2 : Client F.State H)
            → open_framer net c ≡ ok s
            → Receives P F (record c { framer = some s }) m c2
            → m.api_version_major ≡ c.api_version_major
            → connect P F net c ≡ (ok tt, record (accepted m c) { framer = c2.framer }))
  connect-Ended net c = elim (Result-cases (open_framer net c)) [
    | inr (e, failed) ↦
        let ends = unopened net c e failed in
        (
          (λ x p. ap (λ y. y.1) ends ∙ ap (λ y. record c { framer = y.1.framer }) (sym ends)),
          (λ p. absurd (let clash : err e ≡ ok tt = sym (ap (λ y. y.0) ends) ∙ p in cc)),
          welcomed net c,
        )
    | inl (s, open_ok) ↦
        let (failing, fine) = opened-Ended net c s open_ok in
        (
          failing,
          (λ p.
              let (m, c2, receives, equal, is_accepted) = fine p in
              (s, m, c2, open_ok, receives, equal, is_accepted)),
          welcomed net c,
        )
  ]

-- The waits of a run.
abbrev pub nth : {A : Type 0} → ℕ → List A → Option A
nth n [] = none
nth zero (x ∷ xs) = some x
nth (suc n) (x ∷ xs) = nth n xs

this_wait :
    (interval k b w : ℕ) → b ≡ backoff interval k → some b ≡ some w → w ≡ backoff interval (k + 0)
this_wait interval k b w same p =
    let wait : b ≡ w = cc in
    let now : k ≡ k + 0 = omega arith in sym wait ∙ same ∙ ap (backoff interval) now

module _ (P : Protobuf) (F : Framer) {H : Type 0} (interval : ℕ) where
  waits_backoff :
      (k b n w : ℕ) (c c' : Client F.State H) (ws : List ℕ) (r : Bool)
      → b ≡ backoff interval k
      → Reconnects P F b c ws r c'
      → nth n ws ≡ some w
      → w ≡ backoff interval (k + n)
  unfolding backoff
  waits_backoff k b n w c c' ws r same (abandoned e) p =
      absurd (let clash : none ≡ some w = p in cc)
  waits_backoff k b n w c c' ws r same (cancelling rest) p =
      waits_backoff k b n w _ c' ws r same rest p
  waits_backoff k b n w c c' ws r same (registering rest) p =
      waits_backoff k b n w _ c' ws r same rest p
  waits_backoff k b zero w c c' (_ ∷ ws) r same (refused net e rest) p =
      this_wait interval k b w same p
  waits_backoff k b (suc n) w c c' (_ ∷ ws) r same (refused net e rest) p =
      let later : suc k + n ≡ k + suc n = omega arith in
      waits_backoff (suc k) (next_backoff b) n w _ c' ws r (ap next_backoff same) rest p
      ∙ ap (backoff interval) later
  waits_backoff k b zero w c c' (_ ∷ []) r same (reconnected net e) p =
      this_wait interval k b w same p
  waits_backoff k b (suc n) w c c' (_ ∷ []) r same (reconnected net e) p =
      absurd (let clash : none ≡ some w = p in cc)

  restored_live :
      (b : ℕ) (c c' : Client F.State H) (ws : List ℕ)
      → Reconnects P F b c ws true c'
      → (c'.connected ≡ true) × (c'.closed ≡ false)
  restored_live b c c' ws (cancelling rest) = restored_live b _ c' ws rest
  restored_live b c c' ws (registering rest) = restored_live b _ c' ws rest
  restored_live b c c' (_ ∷ ws) (refused net e rest) = restored_live (next_backoff b) _ c' ws rest
  restored_live b c c' (_ ∷ []) (reconnected net e) = (refl, refl)

  -- For an interval of less than 2 ^ 62 nanoseconds: reconnectLoop waits for the interval before its first attempt,
  -- however long it is, and after each failure for twice as long as before, but for 5 minutes at most. When it ends
  -- with a new connection, the client is connected and not closed.
  pub Reconnects-backoff :
      (c c' : Client F.State H) (ws : List ℕ) (r : Bool)
      → interval < 2 ^ 62
      → Reconnects P F interval c ws r c'
      → ((w : ℕ) → nth 0 ws ≡ some w → w ≡ interval)
        × ((n w : ℕ) → nth (suc n) ws ≡ some w → w ≡ capped (interval * 2 ^ suc n))
        × (r ≡ true → (c'.connected ≡ true) × (c'.closed ≡ false))
  unfolding backoff
  Reconnects-backoff c c' ws r small run = (
    (λ w p. waits_backoff 0 interval 0 w c c' ws r refl run p),
    (λ n w p.
        let index : 0 + suc n ≡ suc n = omega arith in
        waits_backoff 0 interval (suc n) w c c' ws r refl run p
        ∙ ap (backoff interval) index
        ∙ (backoff-capped interval n small).1),
    (λ e. restored_live interval c c' ws (subst (λ x. Reconnects P F interval c ws x c') e run)),
  )

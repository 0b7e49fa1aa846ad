-- ===== src/Calls/Calling/Outcome.antt =====
-- What a call returns, and what it leaves in the router.
use esphome_apiclient.Common.{
  ℕ, suc, ◌+◌, ◌^◌, ◌<◌, ◌≡◌, refl, ap, ◌∙◌, sym, true, Option, some, List, [], ◌∷◌, ◌++◌, nat_key,
  Option-cases, Bool-cases, inl, inr, length,
}
use esphome_apiclient.Common.Maps.{lookup, insert, lookup-insert_self}
use esphome_apiclient.Stream.{Result, ok, err}
use esphome_apiclient.Stream.Cases.{Result-cases}
use esphome_apiclient.Pb.Message.{Message}
use esphome_apiclient.Router.{Router, dispatch}
use esphome_apiclient.Router.Registered.{IsValid, registered}
use esphome_apiclient.Client.Framer.{Framer}
use esphome_apiclient.Client.State.{Client}
use esphome_apiclient.Client.Exchange.{Protobuf, MessageError, send_message}
use esphome_apiclient.Client.Greeting.{send_SameBut}
use esphome_apiclient.Client.States.{member, remove_all}
use mathlib.Core.Path.{subst}
use esphome_apiclient.Calls.{Closure, Frame, World}
use esphome_apiclient.Calls.Frames.{mine, owns}
use esphome_apiclient.Calls.Waiting.{Waits, Holds, reacts, Waits-react, Waits-router, claimed}
use esphome_apiclient.Calls.Registering.{
  register_claims, types, Issued, Single, register_claims_held, remove_all_held,
}
use esphome_apiclient.Calls.Calling.{
  Failure, timed_out, client_closed, Call, IsReady, close_call, open_call, Ends, received, late,
  gone, Called, not_sent, returned, Sound,
}

-- What holds of the router while a call waits.
record Open (c : Call) (a : ℕ) (ids : List (ℕ × ℕ)) (r : Router Closure) : Type 0 where
  valid : IsValid r
  same : types ids ≡ types (c.claims a)
  issued : Issued a ids r
  holds : Holds a (c.claims a) r

claimed-Single :
    (a : ℕ) (claims : List (ℕ × Closure)) (r : Router Closure) → Holds a claims r → Single a r
claimed-Single a claims r holds t = elim (Option-cases (lookup t claims)) [
  | inl absent ↦ inl (holds t ∙ rw (claimed, absent) refl)
  | inr (h, found) ↦ inr (h, holds t ∙ rw (claimed, found) refl)
]

module _ (c : Call) (a : ℕ) (sound : Sound c a) where
  -- The deferred removals leave no closure of the frame.
  closed_none :
      (ids : List (ℕ × ℕ)) (r : Router Closure)
      → Open c a ids r
      → (t : ℕ) → mine a (dispatch t (remove_all (c.order ids) r)) ≡ []
  closed_none ids r o t =
      remove_all_held a (c.order ids) r o.valid (claimed-Single a (c.claims a) r o.holds)
        (sound.order_apart ids o.same) (sound.order_issued ids r o.same o.issued) t
      ∙ elim (Bool-cases (member t (types (c.order ids)))) [
        | inl e ↦ rw e refl
        | inr e ↦ rw e (o.holds t ∙ sound.order_covers ids t o.same e)
      ]

Issued-kept :
    (a : ℕ) (ids : List (ℕ × ℕ)) (r r' : Router Closure)
    → ((t id : ℕ) (h : Closure)
        → owns a h ≡ true
        → registered t id r ≡ some h
        → registered t id r' ≡ some h)
    → Issued a ids r
    → Issued a ids r'
Issued-kept a [] r r' kept issued = tt
Issued-kept a ((t, id) ∷ ids) r r' kept ((h, ours, found), issued) =
    ((h, ours, kept t id h ours found), Issued-kept a ids r r' kept issued)

ended :
    (P : Protobuf) (F : Framer) {A : Type 0} (ready? : Frame → Option A) (a : ℕ) (w : World F.State)
    (r : Result Failure A)
    → Ends P F ready? a w r
    → (x : A) (f : Frame) → r ≡ ok x
    → lookup a w.frames ≡ some f
    → ready? f ≡ some x
ended P F ready? a w r (received {f = g} {x = y} at_g is_ready) x f e found =
    let q : some g ≡ some f = sym at_g ∙ found in
    let same : g ≡ f = cc in
    let value : y ≡ x = cc in sym (ap ready? same) ∙ is_ready ∙ ap some value
ended P F ready? a w r late x f e found = let clash : err timed_out ≡ ok x = e in cc
ended P F ready? a w r (gone d) x f e found = let clash : err client_closed ≡ ok x = e in cc

module _ (P : Protobuf) (F : Framer) (c : Call) (w : World F.State) where
  abbrev frame : ℕ
  frame = w.next_frame

  abbrev registrations : Router Closure × List (ℕ × ℕ)
  registrations = register_claims (c.claims frame) w.client.router

  abbrev sending : Client F.State Closure
  sending = record w.client { router = registrations.0 }

  abbrev sent : Result MessageError (Unit {0}) × Client F.State Closure
  sent = send_message P F c.request c.request_type sending

  abbrev waiting_world : World F.State
  waiting_world = record w {
    client = sent.1;
    frames = insert frame c.start w.frames;
    next_frame = suc frame;
  }

  module _ (sound : Sound c frame) (ready : IsReady w)
      (room : w.client.router.next_id + length (c.claims frame) < 2 ^ 64) where
    opened : Open c frame registrations.1 sent.1.router
    opened =
        let (valid, same, issued, held) =
          register_claims_held frame (c.claims frame) w.client.router ready.router room sound.apart
            sound.own in
        let router : sent.1.router ≡ registrations.0 =
          ap (λ x. x.router) (send_SameBut P F c.request c.request_type sending) in
        record {
          valid = subst IsValid (sym router) valid;
          same = same;
          issued = subst (Issued frame registrations.1) (sym router) issued;
          holds = λ t.
              ap (λ r. mine frame (dispatch t r)) router
              ∙ held t
              ∙ ap (λ hs. hs ++ claimed t (c.claims frame)) (ready.unused t);
        }

    open_call_cases :
        ((e : MessageError) (w1 : World F.State)
          → open_call P F c w ≡ (err e, w1)
          → (t : ℕ) → mine frame (dispatch t w1.client.router) ≡ [])
        × ((ids : List (ℕ × ℕ)) (w1 : World F.State)
            → open_call P F c w ≡ (ok ids, w1)
            → Open c frame ids w1.client.router × (lookup frame w1.frames ≡ some c.start))
    unfolding open_call
    open_call_cases = elim (Result-cases sent.0) [
      | inr (e, failed) ↦ (
        (λ x w1 p t.
            let q : (err e, close_call P F (c.order registrations.1) waiting_world) ≡ (err x, w1) =
              rw (open_call, failed) at p in
            ap (λ y. mine frame (dispatch t y.1.client.router)) (sym q)
            ∙ closed_none c frame sound registrations.1 sent.1.router opened t),
        (λ ids w1 p.
            let q : (err e, close_call P F (c.order registrations.1) waiting_world) ≡ (ok ids, w1) =
              rw (open_call, failed) at p in
            absurd (let clash : err e ≡ ok ids = ap (λ y. y.0) q in cc)),
      )
      | inl (u, done) ↦ (
        (λ x w1 p.
            let q : (ok registrations.1, waiting_world) ≡ (err x, w1) = rw (open_call, done) at p in
            absurd (let clash : ok registrations.1 ≡ err x = ap (λ y. y.0) q in cc)),
        (λ ids w1 p.
            let q : ◌≡◌ {A = Result MessageError (List (ℕ × ℕ)) × World F.State}
                (ok registrations.1, waiting_world) (ok ids, w1) =
              rw (open_call, done) at p in
            let same_ok : ◌≡◌ {A = Result MessageError (List (ℕ × ℕ))} (ok registrations.1)
                (ok ids) =
              ap (λ y. y.0) q in
            let same_ids : registrations.1 ≡ ids = cc in
            let same_world : waiting_world ≡ w1 = ap (λ y. y.1) q in
            (
              subst (λ y. Open c frame ids y.client.router) same_world
                  (subst (λ y. Open c frame y sent.1.router) same_ids opened),
              subst (λ y. lookup frame y.frames ≡ some c.start) same_world
                  (lookup-insert_self frame c.start w.frames),
            )),
      )
    ]

    waited :
        (ids : List (ℕ × ℕ)) (ms : List (ℕ × Message)) (w1 w2 : World F.State)
        → open_call P F c w ≡ (ok ids, w1)
        → Waits frame ms w1 w2
        → Open c frame ids w2.client.router
          × ((f : Frame) × (reacts (c.claims frame) ms c.start ≡ ok f)
              × (lookup frame w2.frames ≡ some f))
    waited ids ms w1 w2 begun waits =
        let (o, found) = open_call_cases.1 ids w1 begun in
        let (holds, at_end) =
          Waits-react frame (c.claims frame) ms w1 w2 c.start waits o.holds found in
        let (valid, kept) = Waits-router frame (c.claims frame) ms w1 w2 waits in
        (
          record {
            valid = valid o.valid;
            same = o.same;
            issued = Issued-kept frame ids w1.client.router w2.client.router kept o.issued;
            holds = holds;
          },
          at_end,
        )

    -- While a call waits, nothing that arrives has made one of its closures fail.
    pub waited_reacts :
        (ids : List (ℕ × ℕ)) (ms : List (ℕ × Message)) (w1 w2 : World F.State)
        → open_call P F c w ≡ (ok ids, w1)
        → Waits frame ms w1 w2
        → (f : Frame) × (reacts (c.claims frame) ms c.start ≡ ok f)
    waited_reacts ids ms w1 w2 begun waits =
        let (o, (f, did, found)) = waited ids ms w1 w2 begun waits in (f, did)

    -- However a call ends, no closure of it is left in the router. A value that it returns is ready in the frame
    -- as the call by itself would have made it of the messages that arrived.
    pub Called-result :
        {A : Type 0} (ready? : Frame → Option A) (ms : List (ℕ × Message)) (r : Result Failure A)
        (w' : World F.State)
        → Called P F c ready? w ms r w'
        → ((t : ℕ) → mine frame (dispatch t w'.client.router) ≡ [])
          × ((x : A)
              → r ≡ ok x
              → (f : Frame) × (reacts (c.claims frame) ms c.start ≡ ok f) × (ready? f ≡ some x))
    Called-result ready? ms r w' (not_sent begun) = (open_call_cases.0 _ w' begun, (λ x e. cc))
    Called-result ready? ms r w' (returned {ids = ids} {w1 = w1} {w2 = w2} begun waits ends) =
        let (o, (f, did, found)) = waited ids ms w1 w2 begun waits in
        (
          closed_none c frame sound ids w2.client.router o,
          (λ x e. (f, did, ended P F ready? frame w2 r ends x f e found)),
        )

    -- A call whose frame is ready can return.
    pub Called-ready :
        {A : Type 0} (ready? : Frame → Option A) (ids : List (ℕ × ℕ)) (ms : List (ℕ × Message))
        (w1 w2 : World F.State) (f : Frame) (x : A)
        → open_call P F c w ≡ (ok ids, w1)
        → Waits frame ms w1 w2
        → reacts (c.claims frame) ms c.start ≡ ok f
        → ready? f ≡ some x
        → Called P F c ready? w ms (ok x) (close_call P F (c.order ids) w2)
    Called-ready ready? ids ms w1 w2 f x begun waits did is_ready =
        let (o, (g, did', found)) = waited ids ms w1 w2 begun waits in
        let q : ok g ≡ ok f = sym did' ∙ did in
        let same : g ≡ f = cc in returned begun waits (received found (ap ready? same ∙ is_ready))

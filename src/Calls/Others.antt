-- ===== src/Calls/Others.antt =====
-- Several calls at once: what one call registers and removes leaves the frames and closures of the others alone.
use esphome_apiclient.Common.{
  ℕ, ◌+◌, ◌^◌, ◌<◌, ◌≡◌, ◌≢◌, refl, ap, ◌∙◌, sym, true, false, some, List, [], ◌∷◌, nat_key, nat_eq,
  nat_eq_iff, arith, Bool-cases, inl, inr, length, append-nil, ◌==◌, ◌&&◌,
}
use esphome_apiclient.Common.Maps.{lookup, insert, lookup-insert_ne}
use esphome_apiclient.Stream.{Result}
use esphome_apiclient.Stream.Cases.{Result-cases}
use esphome_apiclient.Router.{Router, on, remove, dispatch}
use esphome_apiclient.Router.Registered.{
  IsValid, HasRoom, on_id, on-IsValid, remove-IsValid, registered, registered-remove,
}
use esphome_apiclient.Client.Framer.{Framer}
use esphome_apiclient.Client.State.{Client}
use esphome_apiclient.Client.Exchange.{Protobuf, MessageError, send_message}
use esphome_apiclient.Client.Greeting.{send_SameBut}
use esphome_apiclient.Client.States.{Apart, remove_all}
use esphome_apiclient.Calls.{Closure, World}
use esphome_apiclient.Calls.Frames.{mine, owns, owns_own}
use esphome_apiclient.Calls.Waiting.{Elsewhere}
use esphome_apiclient.Calls.Claims.{mine-on, mine-remove_other}
use esphome_apiclient.Calls.Registering.{
  register_claims, types, Issued, AllOwn, register_claims_held, registered_later, Issued-remove,
}
use esphome_apiclient.Calls.Calling.{Call, Sound, open_call, close_call}
use mathlib.Core.Path.{subst}

-- Two routers with the same closures of a frame, under the same ids.
pub record Spared (a : ℕ) (r r' : Router Closure) : Type 0 where
  pub closures : (t : ℕ) → mine a (dispatch t r') ≡ mine a (dispatch t r)
  pub ids :
      (t id : ℕ) (h : Closure)
      → owns a h ≡ true
      → registered t id r ≡ some h
      → registered t id r' ≡ some h

Spared-refl : (a : ℕ) (r : Router Closure) → Spared a r r
Spared-refl a r = record { closures = λ t. refl; ids = λ t id h o e. e }

Spared-trans :
    (a : ℕ) (r1 r2 r3 : Router Closure) → Spared a r1 r2 → Spared a r2 r3 → Spared a r1 r3
Spared-trans a r1 r2 r3 p q = record {
  closures = λ t. q.closures t ∙ p.closures t;
  ids = λ t id h o e. q.ids t id h o (p.ids t id h o e);
}

owns_other : (a b : ℕ) (h : Closure) → a ≢ b → owns b h ≡ true → owns a h ≡ false
owns_other a b h ne e =
    let other : nat_eq b a ≡ false = ground (arith, nat_eq_iff b a) in
    rw (owns, owns_own b h e) other

on-Spared :
    (a t : ℕ) (h : Closure) (r : Router Closure)
    → IsValid r
    → HasRoom r
    → owns a h ≡ false
    → Spared a r (on t h r).0
on-Spared a t h r v room other =
    let (here, there) = mine-on a t h r v room in
    record {
      closures = λ u. elim (Bool-cases (nat_eq t u)) [
        | inl e ↦
            let same : t ≡ u = (nat_eq_iff t u).0 e in rw (← same) (here ∙ rw other (append-nil _))
        | inr e ↦ there u (λ p. ground (arith, nat_eq_iff t u))
      ];
      ids = λ u id k o e. registered_later t u id h k r v room e;
    }

remove-Spared :
    (a t id : ℕ) (h : Closure) (r : Router Closure)
    → IsValid r
    → registered t id r ≡ some h
    → owns a h ≡ false
    → Spared a r (remove t id r)
remove-Spared a t id h r v found other = record {
  closures = λ u. mine-remove_other a t id u r v (λ k e.
      let q : some k ≡ some h = sym e ∙ found in let same : k ≡ h = cc in ap (owns a) same ∙ other);
  ids = λ u j k o e. elim (Bool-cases (t == u && id == j)) [
    | inr b ↦ registered-remove t u id j r ∙ rw b e
    | inl b ↦
        let type : t ≡ u = ground (arith, nat_eq_iff t u) in
        let same : id ≡ j = ground (arith, nat_eq_iff id j) in
        let q : some h ≡ some k =
          sym found ∙ ap (λ x. registered x id r) type ∙ ap (λ x. registered u x r) same ∙ e in
        let k_is : h ≡ k = cc in
        absurd (let clash : false ≡ true = sym other ∙ ap (owns a) k_is ∙ o in cc)
  ];
}

module _ (a b : ℕ) (apart : a ≢ b) where
  register_claims-Spared :
      (claims : List (ℕ × Closure)) (r : Router Closure)
      → IsValid r
      → r.next_id + length claims < 2 ^ 64
      → AllOwn b claims
      → Spared a r (register_claims claims r).0
  unfolding register_claims
  register_claims-Spared [] r v room own = Spared-refl a r
  register_claims-Spared ((t, h) ∷ claims) r v room (ours, own) =
      let one : HasRoom r = omega arith in
      let r1 : Router Closure = (on t h r).0 in
      Spared-trans a r r1 (register_claims claims r1).0
        (on-Spared a t h r v one (owns_other a b h apart ours))
        (register_claims-Spared claims r1 (on-IsValid t h r v one)
          (omega (arith, (on_id t h r one).1)) own)

  remove_all-Spared :
      (ids : List (ℕ × ℕ)) (r : Router Closure)
      → IsValid r
      → Apart (types ids)
      → Issued b ids r
      → Spared a r (remove_all ids r) × IsValid (remove_all ids r)
  unfolding remove_all
  remove_all-Spared [] r v different issued = (Spared-refl a r, v)
  remove_all-Spared ((t, id) ∷ ids) r v (new, different) ((h, ours, found), issued) =
      let r1 : Router Closure = remove t id r in
      let (spared, valid) =
        remove_all-Spared ids r1 (remove-IsValid t id r v) different
          (Issued-remove b t id ids r new issued) in
      (
        Spared-trans a r r1 (remove_all ids r1)
            (remove-Spared a t id h r v found (owns_other a b h apart ours)) spared,
        valid,
      )

Spared-Elsewhere :
    {S : Type 0} (a : ℕ) (w w' : World S)
    → lookup a w'.frames ≡ lookup a w.frames
    → Spared a w.client.router w'.client.router
    → IsValid w'.client.router
    → Elsewhere a w w'
Spared-Elsewhere a w w' frame spared valid = record {
  frame_kept = frame;
  closures_kept = spared.closures;
  ids_kept = spared.ids;
  router_kept = λ v. valid;
}

module _ (P : Protobuf) (F : Framer) (c : Call) (w : World F.State) (a : ℕ) where
  abbrev b : ℕ
  b = w.next_frame

  abbrev registrations : Router Closure × List (ℕ × ℕ)
  registrations = register_claims (c.claims b) w.client.router

  abbrev sending : Client F.State Closure
  sending = record w.client { router = registrations.0 }

  abbrev sent : Result MessageError (Unit {0}) × Client F.State Closure
  sent = send_message P F c.request c.request_type sending

  -- While a call waits in one frame, another call may be opened: whether its request is sent, or not and its
  -- registrations are removed again, the frame, the closures and the ids of the first are as they were. That holds
  -- where the router is valid and has ids left, and the registrations of the other call are sound.
  pub open_call-Elsewhere :
      a ≢ w.next_frame
      → IsValid w.client.router
      → w.client.router.next_id + length (c.claims w.next_frame) < 2 ^ 64
      → Sound c w.next_frame
      → Elsewhere a w (open_call P F c w).1
  unfolding open_call
  open_call-Elsewhere apart v room sound =
      let (valid, same, issued, held) =
        register_claims_held b (c.claims b) w.client.router v room sound.apart sound.own in
      let router : sent.1.router ≡ registrations.0 =
        ap (λ x. x.router) (send_SameBut P F c.request c.request_type sending) in
      let spared : Spared a w.client.router sent.1.router =
        subst (Spared a w.client.router) (sym router)
          (register_claims-Spared a b apart (c.claims b) w.client.router v room sound.own) in
      let valid1 : IsValid sent.1.router = subst IsValid (sym router) valid in
      let frame : lookup a (insert b c.start w.frames) ≡ lookup a w.frames =
        lookup-insert_ne b a c.start w.frames (λ e. apart (sym e)) in
      elim (Result-cases sent.0) [
        | inl (u, done) ↦ rw (open_call, done) (Spared-Elsewhere a w _ frame spared valid1)
        | inr (e, failed) ↦
            let issued1 : Issued b (c.order registrations.1) sent.1.router =
              sound.order_issued registrations.1 sent.1.router same
                (subst (Issued b registrations.1) (sym router) issued) in
            let (spared2, valid2) =
              remove_all-Spared a b apart (c.order registrations.1) sent.1.router valid1
                (sound.order_apart registrations.1 same) issued1 in
            rw (open_call, failed)
              (Spared-Elsewhere a w _ frame
                (Spared-trans a w.client.router sent.1.router
                  (remove_all (c.order registrations.1) sent.1.router) spared spared2)
                valid2)
      ]

  -- And it may end: its removals leave the first call alone too.
  pub close_call-Elsewhere :
      (ids : List (ℕ × ℕ)) (other : ℕ)
      → a ≢ other
      → IsValid w.client.router
      → Apart (types ids)
      → Issued other ids w.client.router
      → Elsewhere a w (close_call P F ids w)
  close_call-Elsewhere ids other apart v different issued =
      let (spared, valid) =
        remove_all-Spared a other apart ids w.client.router v different issued in
      Spared-Elsewhere a w _ refl spared valid

-- ===== src/Client/States.antt =====
-- client.go: SubscribeStates, which registers one handler for every state message and removes them all in the
-- function that it returns. A handler is of any type `H`: it stands for the closure that is registered.
use esphome_apiclient.Common.{
  ℕ, ◌+◌, ◌^◌, ◌<◌, ◌≡◌, ◌≢◌, refl, ap, ◌∙◌, sym, List, [], ◌∷◌, length, nat_key, All, arith,
  Option, none, Bool, true, false, not, ◌&&◌, ◌||◌, nat_eq, nat_eq_iff, inl, inr,
}
use esphome_apiclient.Common.Maps.{values, erase}
use esphome_apiclient.Router.{Router, on, remove, dispatch}
use esphome_apiclient.Router.Registered.{
  of_type, of_type-on, of_type-on_ne, of_type-remove, of_type-remove_ne, IsValid, on-IsValid, on_id,
  on_fresh, HasRoom,
}
use esphome_apiclient.Router.Dispatching.{erase-insert_new, dispatch-on}
use esphome_apiclient.Stream.{ok, err, Reads}
use esphome_apiclient.Pb.Message.{Message}
use esphome_apiclient.Pb.Registry.{state_response_ids}
use esphome_apiclient.Client.Framer.{Framer}
use esphome_apiclient.Client.State.{Client}
use esphome_apiclient.Client.Exchange.{Protobuf, send_message}
use esphome_apiclient.Client.Greeting.{send_SameBut}
use esphome_apiclient.Client.Requests.{RequestError, request_unsent}
use esphome_apiclient.Stream.Cases.{Result-cases}
use mathlib.Core.List.{Perm}
use native.Mathlib.Decide.{ℕ_discrete}
use mathlib.Core.Path.{subst}

-- No type twice.
abbrev pub Apart : List ℕ → Type 0
Apart [] = Unit
Apart (t ∷ ts) = All (λ u. u ≢ t) ts × Apart ts

abbrev pub member : ℕ → List ℕ → Bool
member t [] = false
member t (u ∷ us) = nat_eq u t || member t us

pub absent-All : (t : ℕ) (us : List ℕ) → member t us ≡ false → All (λ u. u ≢ t) us
absent-All t [] e = tt
absent-All t (u ∷ us) e = ((λ p. ground (arith, nat_eq_iff u t)), absent-All t us (ground arith))

abbrev pub none_twice : List ℕ → Bool
none_twice [] = true
none_twice (t ∷ ts) = not (member t ts) && none_twice ts

pub none_twice-Apart : (ts : List ℕ) → none_twice ts ≡ true → Apart ts
none_twice-Apart [] e = tt
none_twice-Apart (t ∷ ts) e = (absent-All t ts (ground arith), none_twice-Apart ts (ground arith))

module _ {H : Type 0} where
  -- `removes = append(removes, c.On(id, handler))` for every id.
  unfoldable pub register_all : List ℕ → H → Router H → Router H × List (ℕ × ℕ)
  register_all [] handler r = (r, [])
  register_all (t ∷ ts) handler r =
      let (r1, id) = on t handler r in
      let (r2, removes) = register_all ts handler r1 in (r2, (t, id) ∷ removes)

  -- `for _, rem := range removes { rem() }`
  unfoldable pub remove_all : List (ℕ × ℕ) → Router H → Router H
  remove_all [] r = r
  remove_all ((t, id) ∷ removes) r = remove_all removes (remove t id r)

  of_type-register_all :
      (t' : ℕ) (ts : List ℕ) (h : H) (r : Router H)
      → All (λ t. t ≢ t') ts
      → of_type t' (register_all ts h r).0 ≡ of_type t' r
  unfolding register_all
  of_type-register_all t' [] h r apart = refl
  of_type-register_all t' (t ∷ ts) h r (ne, apart) =
      of_type-register_all t' ts h (on t h r).0 apart ∙ of_type-on_ne t t' h r ne

  of_type-remove_all :
      (t' : ℕ) (rs : List (ℕ × ℕ)) (r s : Router H)
      → of_type t' r ≡ of_type t' s
      → of_type t' (remove_all rs r) ≡ of_type t' (remove_all rs s)
  unfolding remove_all
  of_type-remove_all t' [] r s e = e
  of_type-remove_all t' ((t, id) ∷ rs) r s e =
      of_type-remove_all t' rs (remove t id r) (remove t id s) (elim (ℕ_discrete t t') [
        | yes p ↦
            subst (λ u. of_type u (remove t id r) ≡ of_type u (remove t id s)) p
              (of_type-remove t id r
                ∙ ap (erase id) (subst (λ u. of_type u r ≡ of_type u s) (sym p) e)
                ∙ sym (of_type-remove t id s))
        | no ne ↦ of_type-remove_ne t t' id r ne ∙ e ∙ sym (of_type-remove_ne t t' id s ne)
      ])

  -- The removes of other types do not touch a type.
  of_type-remove_register :
      (t' : ℕ) (ts : List ℕ) (h : H) (r s : Router H)
      → All (λ t. t ≢ t') ts
      → of_type t' (remove_all (register_all ts h r).1 s) ≡ of_type t' s
  unfolding register_all remove_all
  of_type-remove_register t' [] h r s apart = refl
  of_type-remove_register t' (t ∷ ts) h r s (ne, apart) =
      of_type-remove_register t' ts h (on t h r).0 (remove t (on t h r).1 s) apart
      ∙ of_type-remove_ne t t' (on t h r).1 s ne

  -- To remove everything that was registered for different types leaves each type as it was.
  pub of_type-undo :
      (t' : ℕ) (ts : List ℕ) (h : H) (r : Router H)
      → IsValid r
      → r.next_id + length ts < 2 ^ 64
      → Apart ts
      → of_type t' (remove_all (register_all ts h r).1 (register_all ts h r).0) ≡ of_type t' r
  unfolding register_all remove_all
  of_type-undo t' [] h r v room apart = refl
  of_type-undo t' (t ∷ ts) h r v room (new, apart) = elim (ℕ_discrete t t') [
    | yes p ↦
        subst (λ u. of_type u (remove_all rest (remove t id r2)) ≡ of_type u r) p
          (of_type-remove_register t ts h r1 (remove t id r2) new
            ∙ of_type-remove t id r2
            ∙ ap (erase id) (of_type-register_all t ts h r1 new ∙ of_type-on t h r)
            ∙ erase-insert_new id h (of_type t r) (on_fresh t t h r v one))
    | no ne ↦
        of_type-remove_all t' rest (remove t id r2) r2 (of_type-remove_ne t t' id r2 ne)
        ∙ of_type-undo t' ts h r1 (on-IsValid t h r v one) (omega (arith, (on_id t h r one).1))
            apart
        ∙ of_type-on_ne t t' h r ne
  ]
    where
      one : HasRoom r
      one = omega arith

      r1 : Router H
      r1 = (on t h r).0

      id : ℕ
      id = (on t h r).1

      r2 : Router H
      r2 = (register_all ts h r1).0

      rest : List (ℕ × ℕ)
      rest = (register_all ts h r1).1

  pub dispatch-register_all :
      (t' : ℕ) (ts : List ℕ) (h : H) (r : Router H)
      → IsValid r
      → r.next_id + length ts < 2 ^ 64
      → Apart ts
      → member t' ts ≡ true
      → Perm (values (of_type t' (register_all ts h r).0)) (h ∷ values (of_type t' r))
  unfolding register_all dispatch
  dispatch-register_all t' [] h r v room apart e = absurd (let clash : false ≡ true = e in cc)
  dispatch-register_all t' (t ∷ ts) h r v room (new, apart) e = elim (ℕ_discrete t t') [
    | yes p ↦
        subst (λ u. Perm (values (of_type u (register_all ts h r1).0)) (h ∷ values (of_type u r))) p
          (rw (of_type-register_all t ts h r1 new) (dispatch-on t h r v one).0)
    | no ne ↦
        let later : member t' ts ≡ true = ground (arith, nat_eq_iff t t') in
        rw (← of_type-on_ne t t' h r ne) (
          dispatch-register_all t' ts h r1 (on-IsValid t h r v one)
            (omega (arith, (on_id t h r one).1)) apart later)
  ]
    where
      one : HasRoom r
      one = omega arith

      r1 : Router H
      r1 = (on t h r).0

-- `closing handler` is the closure that SubscribeStates registers for a handler.
module _ (P : Protobuf) (F : Framer) {H : Type 0} (closing : Option H → H) where
  abbrev pub states_request : Message
  states_request = Message.subscribe_states_request []

  unfoldable pub unsubscribe_states : List (ℕ × ℕ) → Client F.State H → Client F.State H
  unfolding remove_all
  unsubscribe_states removes c = record c {
    state_handler = none;
    router = remove_all removes c.router;
  }

  unfoldable pub subscribe_states : Option H → Reads (Client F.State H) RequestError (List (ℕ × ℕ))
  unfolding register_all unsubscribe_states
  subscribe_states handler c =
      let (router, removes) = register_all state_response_ids (closing handler) c.router in
      let (r, c1) =
        send_message P F states_request 20
          (record c { state_handler = handler; router = router }) in
      elim r [
        | err e ↦ (err (request_unsent e), unsubscribe_states removes c1)
        | ok u ↦ (ok removes, c1)
      ]

  -- In a client whose router is valid and has fewer than 2 ^ 64 - 15 ids given out: when SubscribeStates
  -- succeeds, its closure is called for the id of every state message besides what was called before, and to
  -- call the function that it returns at once undoes that and forgets the handler; when it fails, Dispatch
  -- calls what it called before, and no handler is kept.
  pub subscribe_states-dispatch :
      (handler : Option H) (c : Client F.State H)
      → IsValid c.router
      → c.router.next_id + 15 < 2 ^ 64
      → let (r, c1) = subscribe_states handler c in
        ((removes : List (ℕ × ℕ))
          → r ≡ ok removes
          → (c1.state_handler ≡ handler)
            × ((t : ℕ)
                → member t state_response_ids ≡ true
                → Perm (dispatch t c1.router) (closing handler ∷ dispatch t c.router))
            × ((t : ℕ) → dispatch t (unsubscribe_states removes c1).router ≡ dispatch t c.router)
            × ((unsubscribe_states removes c1).state_handler ≡ none))
        × ((e : RequestError)
            → r ≡ err e
            → (c1.state_handler ≡ none) × ((t : ℕ) → dispatch t c1.router ≡ dispatch t c.router))
  unfolding subscribe_states unsubscribe_states dispatch
  subscribe_states-dispatch handler c v room =
      elim (Result-cases (send_message P F states_request 20 c0).0) [
        | inl (u, sent) ↦
            rw (subscribe_states, sent, kept)
              (
                (λ removes e.
                    let same : all.1 ≡ removes = cc in
                    (
                      ap (λ x. x.state_handler) (send_SameBut P F states_request 20 c0),
                      (λ t m.
                          dispatch-register_all t state_response_ids (closing handler) c.router v
                            room distinct m),
                      (λ t. rw (← same) (
                          ap values (
                            of_type-undo t state_response_ids (closing handler) c.router v room
                              distinct))),
                      refl,
                    )),
                (λ x e. cc),
              )
        | inr (x, failed) ↦
            rw (subscribe_states, failed, kept)
              (
                (λ removes e. cc),
                (λ y e. (
                  refl,
                  (λ t. ap values (
                      of_type-undo t state_response_ids (closing handler) c.router v room
                        distinct)),
                )),
              )
      ]
    where
      all : Router H × List (ℕ × ℕ)
      all = register_all state_response_ids (closing handler) c.router

      c0 : Client F.State H
      c0 = record c { state_handler = handler; router = all.0 }

      kept : (send_message P F states_request 20 c0).1.router ≡ all.0
      kept = ap (λ x. x.router) (send_SameBut P F states_request 20 c0)

      distinct : Apart state_response_ids
      distinct = none_twice-Apart state_response_ids refl

-- ===== src/Calls/Listing/Collecting.antt =====
-- What ListEntities collects and returns.
use esphome_apiclient.Common.{
  ℕ, ◌+◌, ◌^◌, ◌<◌, ◌≤◌, ◌≡◌, refl, ap, ◌∙◌, sym, Bool, true, false, none, some, List, [], ◌∷◌,
  ◌++◌, nat_key, nat_eq, nat_eq_iff, arith, Bool-cases, inl, inr, if◌then◌else◌, append-nil,
  append_assoc,
}
use esphome_apiclient.Stream.{Result, ok, err}
use esphome_apiclient.Pb.Message.{Message}
use esphome_apiclient.Pb.Registry.{list_entity_response_ids}
use esphome_apiclient.Router.{dispatch}
use esphome_apiclient.Client.Framer.{Framer}
use esphome_apiclient.Client.Exchange.{Protobuf}
use esphome_apiclient.Client.States.{member, none_twice-Apart}
use esphome_apiclient.Calls.{Closure, listed, list_done, Frame, listing, World, local, panicked}
use esphome_apiclient.Calls.Frames.{mine, owns}
use esphome_apiclient.Calls.Waiting.{Waits, react, reacts, reacts_cons, claimed}
use esphome_apiclient.Calls.Registering.{AllOwn, types}
use esphome_apiclient.Calls.Calling.{Failure, Sound, IsReady, open_call, close_call}
use esphome_apiclient.Calls.Calling.Outcome.{Called-result, Called-ready, waited_reacts}
use esphome_apiclient.Calls.Orders.{order-Sound, first_last, first_last_order}
use esphome_apiclient.Calls.Listing.{
  for_types, list_call, listed_entities, is_listing, listings, ends, ListEntities,
}

claimed_types :
    (t : ℕ) (ts : List ℕ) (h : Closure)
    → claimed t (for_types ts h) ≡ (if member t ts then h ∷ [] else [])
claimed_types t [] h = refl
claimed_types t (u ∷ ts) h = elim (Bool-cases (nat_eq u t)) [
  | inl e ↦ rw (claimed, e) refl
  | inr e ↦ rw (claimed, e) (claimed_types t ts h)
]

AllOwn-types : (a : ℕ) (ts : List ℕ) (h : Closure) → owns a h ≡ true → AllOwn a (for_types ts h)
AllOwn-types a [] h e = tt
AllOwn-types a (t ∷ ts) h e = (e, AllOwn-types a ts h e)

list_call-Sound : (a : ℕ) → Sound list_call a
list_call-Sound a =
    let here : nat_eq a a ≡ true = (nat_eq_iff a a).1 refl in
    order-Sound list_call a (none_twice-Apart (types (list_call.claims a)) refl)
      (here, AllOwn-types a list_entity_response_ids (listed a) here) first_last_order

module _ (a : ℕ) where
  abbrev claims : List (ℕ × Closure)
  claims = list_call.claims a

  claimed_done :
      (t : ℕ) → nat_eq 19 t ≡ true → (claimed t claims ≡ list_done a ∷ []) × (is_listing t ≡ false)
  unfolding is_listing
  claimed_done t e = let same : 19 ≡ t = (nat_eq_iff 19 t).0 e in rw (← same) (refl, refl)

  claimed_other :
      (t : ℕ)
      → nat_eq 19 t ≡ false
      → claimed t claims ≡ (if is_listing t then listed a ∷ [] else [])
  unfolding is_listing
  claimed_other t e = rw (claimed, e) (claimed_types t list_entity_response_ids (listed a))

  react_done :
      (t : ℕ) (m : Message) (es : List Message) (d : Bool)
      → nat_eq 19 t ≡ true
      → react claims t m (listing es d) ≡ (if d then err panicked else ok (listing es true))
  unfolding local
  react_done t m es true e = rw (react, (claimed_done t e).0) refl
  react_done t m es false e = rw (react, (claimed_done t e).0) refl

  react_other :
      (t : ℕ) (m : Message) (es : List Message) (d : Bool)
      → nat_eq 19 t ≡ false
      → react claims t m (listing es d) ≡ ok (listing (es ++ listings ((t, m) ∷ [])) d)
  unfolding local
  react_other t m es d e = elim (Bool-cases (is_listing t)) [
    | inl b ↦ rw (react, claimed_other t e, b) refl
    | inr b ↦ rw (react, claimed_other t e, b, append-nil es) refl
  ]

listings_cons :
    (p : ℕ × Message) (ms : List (ℕ × Message))
    → listings (p ∷ ms) ≡ listings (p ∷ []) ++ listings ms
listings_cons (t, m) ms = elim (Bool-cases (is_listing t)) [ inl b ↦ rw b refl | inr b ↦ rw b refl ]

-- When nothing has panicked, the frame has the listings, and the list has ended at most once.
abbrev Collected : List (ℕ × Message) → List Message → Bool → Frame → Type 0
Collected ms es d f =
    (d' : Bool) × (f ≡ listing (es ++ listings ms) d')
    × ((if d' then 1 else 0) ≡ (if d then 1 else 0) + ends ms)

Collected-other :
    (t : ℕ) (m : Message) (ms : List (ℕ × Message)) (es : List Message) (d : Bool) (f : Frame)
    → nat_eq 19 t ≡ false
    → Collected ms (es ++ listings ((t, m) ∷ [])) d f
    → Collected ((t, m) ∷ ms) es d f
Collected-other t m ms es d f e (d', same, count) = (
  d',
  same
      ∙ ap (λ x. listing x d')
          (append_assoc es (listings ((t, m) ∷ [])) (listings ms)
            ∙ ap (λ x. es ++ x) (sym (listings_cons (t, m) ms))),
  rw e count,
)

Collected-done :
    (a t : ℕ) (m : Message) (ms : List (ℕ × Message)) (es : List Message) (d : Bool) (f : Frame)
    → nat_eq 19 t ≡ true
    → reacts (list_call.claims a) ((t, m) ∷ ms) (listing es d) ≡ ok f
    → ((f' : Frame)
        → reacts (list_call.claims a) ms (listing es true) ≡ ok f'
        → Collected ms es true f')
    → Collected ((t, m) ∷ ms) es d f
Collected-done a t m ms es true f b e rest =
    absurd (let clash : err panicked ≡ ok f = rw (reacts, react_done a t m es true b) at e in cc)
Collected-done a t m ms es false f b e rest =
    let (d', same, count) = rest f (rw (reacts, react_done a t m es false b) at e) in
    rw (b, (claimed_done a t b).1) (d', same, omega (arith, count))

Collected-value :
    (ms : List (ℕ × Message)) (es : List Message) (d : Bool) (f : Frame)
    → f ≡ listing (listings ms) d
    → (if d then 1 else 0) ≡ 0 + ends ms
    → listed_entities f ≡ some es
    → (es ≡ listings ms) × (ends ms ≡ 1)
Collected-value ms es true f same count is_ready =
    let q : some (listings ms) ≡ some es = sym (ap listed_entities same) ∙ is_ready in
    (cc, omega (arith, count))
Collected-value ms es false f same count is_ready =
    absurd (let clash : none ≡ some es = sym (ap listed_entities same) ∙ is_ready in cc)

ended_once : (ms : List (ℕ × Message)) (d : Bool) → (if d then 1 else 0) ≡ 0 + ends ms → ends ms ≤ 1
ended_once ms true count = omega arith
ended_once ms false count = omega arith

ready_ended :
    (ms : List (ℕ × Message)) (d : Bool) (f : Frame)
    → f ≡ listing (listings ms) d
    → (if d then 1 else 0) ≡ 0 + ends ms
    → ends ms ≡ 1
    → listed_entities f ≡ some (listings ms)
ready_ended ms true f same count one = ap listed_entities same
ready_ended ms false f same count one = absurd (omega arith)

reacts_listed :
    (a : ℕ) (ms : List (ℕ × Message)) (es : List Message) (d : Bool) (f : Frame)
    → reacts (list_call.claims a) ms (listing es d) ≡ ok f
    → Collected ms es d f
reacts_listed a [] es d f e =
    let same : listing es d ≡ f = cc in
    (d, sym same ∙ ap (λ x. listing x d) (sym (append-nil es)), omega arith)
reacts_listed a ((t, m) ∷ ms) es d f e = elim (Bool-cases (nat_eq 19 t)) [
  | inr b ↦
      let step =
        reacts_cons (list_call.claims a) t m ms (listing es d) _ (react_other a t m es d b) in
      Collected-other t m ms es d f b (reacts_listed a ms _ d f (sym step ∙ e))
  | inl b ↦ Collected-done a t m ms es d f b e (λ f' e'. reacts_listed a ms es true f' e')
]

module _ (P : Protobuf) (F : Framer) where
  -- In a client whose router is valid, has ids left, and has no closure of the frame that the call
  -- is given: however ListEntities ends, none of its handlers is in the router. When it returns
  -- entities, they are the listing messages that were dispatched while it waited, in their order,
  -- and exactly one end of the list was dispatched.
  pub ListEntities-listings :
      (w : World F.State) (ms : List (ℕ × Message)) (r : Result Failure (List Message))
      (w' : World F.State)
      → IsReady w
      → w.client.router.next_id + 18 < 2 ^ 64
      → ListEntities P F w ms r w'
      → ((t : ℕ) → mine w.next_frame (dispatch t w'.client.router) ≡ [])
        × ((es : List Message) → r ≡ ok es → (es ≡ listings ms) × (ends ms ≡ 1))
  unfolding ListEntities
  ListEntities-listings w ms r w' ready room run =
      let (closed, value) =
        Called-result P F list_call w (list_call-Sound w.next_frame) ready room listed_entities ms r
          w' run in
      (
        closed,
        (λ es e.
            let (f, did, is_ready) = value es e in
            let (d, same, count) = reacts_listed w.next_frame ms [] false f did in
            Collected-value ms es d f same count is_ready),
      )

  -- In a client whose router is valid, has ids left, and has no closure of the frame that the call
  -- is given: once SendMessage has succeeded and the end of the list has been dispatched,
  -- ListEntities can return, and the end has been dispatched once. The read loop does not get past
  -- a second end of the list while ListEntities waits.
  pub ListEntities-ended :
      (w : World F.State) (ids : List (ℕ × ℕ)) (ms : List (ℕ × Message)) (w1 w2 : World F.State)
      → IsReady w
      → w.client.router.next_id + 18 < 2 ^ 64
      → open_call P F list_call w ≡ (ok ids, w1)
      → Waits w.next_frame ms w1 w2
      → (ends ms ≤ 1)
        × (ends ms ≡ 1
            → ListEntities P F w ms (ok (listings ms)) (close_call P F (first_last ids) w2))
  unfolding ListEntities
  ListEntities-ended w ids ms w1 w2 ready room begun waits =
      let sound = list_call-Sound w.next_frame in
      let (f, did) = waited_reacts P F list_call w sound ready room ids ms w1 w2 begun waits in
      let (d, same, count) = reacts_listed w.next_frame ms [] false f did in
      (
        ended_once ms d count,
        (λ one.
            Called-ready P F list_call w sound ready room listed_entities ids ms w1 w2 f
              (listings ms) begun waits did (ready_ended ms d f same count one)),
      )

-- ===== src/Calls/Waiting.antt =====
-- A call of the client while it waits: messages arrive through the read loop, and the rest of the client goes on.
-- What the call sees of that is the messages of the types that it has claimed.
use esphome_apiclient.Common.{
  ℕ, ◌≡◌, refl, ap, ◌∙◌, sym, none, some, List, [], ◌∷◌, nat_key, Option-cases, inl, inr, true,
}
use esphome_apiclient.Common.Maps.{Map, lookup}
use esphome_apiclient.Stream.{Result, ok, err}
use esphome_apiclient.Pb.Message.{Message}
use esphome_apiclient.Router.{Router, dispatch}
use esphome_apiclient.Router.Registered.{IsValid, registered}
use esphome_apiclient.Calls.{Closure, Frame, Crash, World, run_all}
use esphome_apiclient.Calls.Frames.{mine, owns, local_all, run_all-Effect, mine_order}
use mathlib.Core.List.{Permᴰ}
use mathlib.Core.Path.{subst}

-- The closures of the frame `a` in the router are those that the call has registered, one for a type.
abbrev pub claimed : ℕ → Map ℕ Closure → List Closure
claimed t claims = elim (lookup t claims) [ none ↦ [] | some h ↦ h ∷ [] ]

abbrev pub Holds : ℕ → Map ℕ Closure → Router Closure → Type 0
Holds a claims r = (t : ℕ) → mine a (dispatch t r) ≡ claimed t claims

-- What the rest of the client does leaves the frame and its closures alone.
pub record Elsewhere {S : Type 0} (a : ℕ) (w w' : World S) : Type 0 where
  pub frame_kept : lookup a w'.frames ≡ lookup a w.frames
  pub closures_kept :
      (t : ℕ) → mine a (dispatch t w'.client.router) ≡ mine a (dispatch t w.client.router)
  pub ids_kept :
      (t id : ℕ) (h : Closure)
      → owns a h ≡ true
      → registered t id w.client.router ≡ some h
      → registered t id w'.client.router ≡ some h
  pub router_kept : IsValid w.client.router → IsValid w'.client.router

-- The messages that the read loop dispatches, in the order of arrival. The order of the closures of one message
-- is any.
pub data Waits {S : Type 0} (a : ℕ) : List (ℕ × Message) → World S → World S → Type 0 where
  still : {w : World S} → Waits a [] w w
  arrival :
      {t : ℕ} {m : Message} {ms : List (ℕ × Message)} {w w1 w2 : World S} {hs : List Closure}
      → Permᴰ hs (dispatch t w.client.router)
      → run_all hs m w ≡ ok w1
      → Waits a ms w1 w2
      → Waits a ((t, m) ∷ ms) w w2
  elsewhere :
      {ms : List (ℕ × Message)} {w w1 w2 : World S}
      → Elsewhere a w w1
      → Waits a ms w1 w2
      → Waits a ms w w2

-- The call by itself: what the messages do to its frame.
abbrev pub react : Map ℕ Closure → ℕ → Message → Frame → Result Crash Frame
react claims t m f = local_all (claimed t claims) m f

abbrev pub reacts : Map ℕ Closure → List (ℕ × Message) → Frame → Result Crash Frame
reacts claims [] f = ok f
reacts claims ((t, m) ∷ ms) f = elim (react claims t m f) [
  | ok f' ↦ reacts claims ms f'
  | err e ↦ err e
]

pub reacts_cons :
    (claims : Map ℕ Closure) (t : ℕ) (m : Message) (ms : List (ℕ × Message)) (f f' : Frame)
    → react claims t m f ≡ ok f'
    → reacts claims ((t, m) ∷ ms) f ≡ reacts claims ms f'
reacts_cons claims t m ms f f' e = rw (reacts, e) refl

claimed_order :
    (a t : ℕ) (claims : Map ℕ Closure) {hs ks : List Closure}
    → Permᴰ hs ks
    → mine a ks ≡ claimed t claims
    → mine a hs ≡ claimed t claims
claimed_order a t claims p e = elim (Option-cases (lookup t claims)) [
  | inl absent ↦ rw (claimed, absent) ((mine_order a p).0 (rw (claimed, absent) at e))
  | inr (h, found) ↦ rw (claimed, found) ((mine_order a p).1 h (rw (claimed, found) at e))
]

module _ {S : Type 0} (a : ℕ) (claims : Map ℕ Closure) where
  arrival_frame :
      (t : ℕ) (m : Message) (hs : List Closure) (w w1 : World S) (f : Frame)
      → Permᴰ hs (dispatch t w.client.router)
      → run_all hs m w ≡ ok w1
      → Holds a claims w.client.router
      → lookup a w.frames ≡ some f
      → Holds a claims w1.client.router
        × ((f' : Frame) × (react claims t m f ≡ ok f') × (lookup a w1.frames ≡ some f'))
  arrival_frame t m hs w w1 f order ran holds found =
      let (router, at) = run_all-Effect hs m w w1 ran in
      let (f', did, found') = at a f found in
      (
        (λ u. ap (λ r. mine a (dispatch u r)) router ∙ holds u),
        (f', rw (claimed_order a t claims order (holds t)) at did, found'),
      )

  -- The client as a whole does to the frame of a call what the call by itself does to it: nothing but the
  -- messages of the claimed types matters, whatever else is registered, dispatched or done in between.
  pub Waits-react :
      (ms : List (ℕ × Message)) (w w' : World S) (f : Frame)
      → Waits a ms w w'
      → Holds a claims w.client.router
      → lookup a w.frames ≡ some f
      → Holds a claims w'.client.router
        × ((f' : Frame) × (reacts claims ms f ≡ ok f') × (lookup a w'.frames ≡ some f'))
  Waits-react [] w w' f still holds found = (holds, (f, refl, found))
  Waits-react ((t, m) ∷ ms) w w' f (arrival {w1 = w1} {hs = hs} order ran rest) holds found =
      let (holds1, (f1, did, found1)) = arrival_frame t m hs w w1 f order ran holds found in
      let (holds2, (f2, later, found2)) = Waits-react ms w1 w' f1 rest holds1 found1 in
      (holds2, (f2, reacts_cons claims t m ms f f1 did ∙ later, found2))
  Waits-react ms w w' f (elsewhere {w1 = w1} other rest) holds found =
      Waits-react ms w1 w' f rest (λ t. other.closures_kept t ∙ holds t) (other.frame_kept ∙ found)

  pub Waits-router :
      (ms : List (ℕ × Message)) (w w' : World S)
      → Waits a ms w w'
      → (IsValid w.client.router → IsValid w'.client.router)
        × ((t id : ℕ) (h : Closure)
            → owns a h ≡ true
            → registered t id w.client.router ≡ some h
            → registered t id w'.client.router ≡ some h)
  Waits-router [] w w' still = ((λ v. v), (λ t id h o e. e))
  Waits-router ((t, m) ∷ ms) w w' (arrival {w1 = w1} {hs = hs} order ran rest) =
      let same = (run_all-Effect hs m w w1 ran).0 in
      let (valid, ids) = Waits-router ms w1 w' rest in
      (
        (λ v. valid (subst IsValid (sym same) v)),
        (λ u id h o e. ids u id h o (ap (λ r. registered u id r) same ∙ e)),
      )
  Waits-router ms w w' (elsewhere {w1 = w1} other rest) =
      let (valid, ids) = Waits-router ms w1 w' rest in
      ((λ v. valid (other.router_kept v)), (λ u id h o e. ids u id h o (other.ids_kept u id h o e)))

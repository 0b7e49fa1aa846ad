-- ===== src/Calls/Frames.antt =====
-- What one closure, and the closures of one message, do to the frame of a call.
use esphome_apiclient.Common.{
  ℕ, ◌≡◌, ◌≢◌, refl, ap, ◌∙◌, sym, Bool, true, false, Option, none, some, List, [], ◌∷◌, nat_eq,
  nat_key, if◌then◌else◌, ◌&&◌, arith, Option-cases, Bool-cases, inl, inr, nat_eq_iff,
}
use esphome_apiclient.Common.Maps.{lookup, lookup-insert_self, lookup-insert_ne}
use mathlib.Core.List.{Permᴰ}
use esphome_apiclient.Stream.Cases.{Result-cases}
use esphome_apiclient.Stream.{Result, ok, err}
use esphome_apiclient.Pb.Message.{Message}
use esphome_apiclient.Client.State.{Client}
use esphome_apiclient.Calls.{
  Closure, Frame, Crash, World, own, local, global, notify, put_frame, run_closure, run_all,
  define_service, log_message, connections_free, notify_data?, at_frame, user, states, logs,
  advertised, connections, notified, listed,
}

module _ {S : Type 0} where
  -- The frames and the router are not for `global` to change.
  abbrev pub SameFrames : World S → World S → Type 0
  SameFrames w w' = (w'.frames ≡ w.frames) × (w'.client.router ≡ w.client.router)

  abbrev Keeps : World S → Result Crash (World S) → Type 0
  Keeps w (ok w') = SameFrames w w'
  Keeps w (err e) = Unit

  notify-SameFrames : (o : Option ℕ) (m : Message) (w : World S) → SameFrames w (notify o m w)
  notify-SameFrames none m w = (refl, refl)
  notify-SameFrames (some n) m w = (refl, refl)

  define_service_router :
      (m : Message) (c : Client S Closure) → (define_service m c).router ≡ c.router
  define_service_router (Message.list_entities_services_response m) c = refl
  define_service_router _ c = refl

  global-Keeps : (h : Closure) (m : Message) (w : World S) → Keeps w (global h m w)
  unfolding global
  global-Keeps (user n) m w = (refl, refl)
  global-Keeps (states none) m w = (refl, refl)
  global-Keeps (states (some n)) m w = (refl, refl)
  global-Keeps (logs o) m w = elim (Bool-cases (log_message m)) [
    | inl known ↦ rw (global, known) (notify-SameFrames o m w)
    | inr other ↦ rw (global, other) (refl, refl)
  ]
  global-Keeps (advertised o) m w = notify-SameFrames o m w
  global-Keeps (connections none) m w = (refl, refl)
  global-Keeps (connections (some n)) m w = elim (Bool-cases (connections_free m)) [
    | inl known ↦ rw (global, known) (refl, refl)
    | inr other ↦ rw (global, other) tt
  ]
  global-Keeps (notified address handle n) m w = elim (Option-cases (notify_data? m)) [
    | inl other ↦ rw (global, other) tt
    | inr (r, found) ↦ elim (Bool-cases (nat_eq r.address address && nat_eq r.handle handle)) [
      | inl same ↦ rw (global, found, same) (refl, refl)
      | inr apart ↦ rw (global, found, apart) (refl, refl)
    ]
  ]
  global-Keeps (listed a) m w = (refl, define_service_router m _)
  global-Keeps _ m w = (refl, refl)

  -- A closure that returns has done its global part, and then that on its frame.
  run_closure_parts :
      (h : Closure) (m : Message) (w w' : World S)
      → run_closure h m w ≡ ok w'
      → (w1 : World S) × SameFrames w w1 × (at_frame h m (own h) w1 ≡ ok w')
  unfolding run_closure
  run_closure_parts h m w w' e = parts (global h m w) (global-Keeps h m w) e
    where
      parts :
          (r : Result Crash (World S))
          → Keeps w r
          → elim r [ ok w1 ↦ at_frame h m (own h) w1 | err x ↦ err x ] ≡ ok w'
          → (w1 : World S) × SameFrames w w1 × (at_frame h m (own h) w1 ≡ ok w')
      parts (ok w1) k e = (w1, k, e)
      parts (err x) k e = cc

  -- What is done to the frame of a closure, if it has one, and to no other.
  abbrev Effect : Closure → Message → Option ℕ → World S → World S → Type 0
  Effect h m o w w' =
      (w'.client ≡ w.client)
      × ((b : ℕ) → o ≢ some b → lookup b w'.frames ≡ lookup b w.frames)
      × ((a : ℕ) (f : Frame)
          → o ≡ some a
          → lookup a w.frames ≡ some f
          → (f' : Frame) × (local h m f ≡ ok f') × (lookup a w'.frames ≡ some f'))

  at_frame-Effect :
      (h : Closure) (m : Message) (o : Option ℕ) (w w' : World S)
      → at_frame h m o w ≡ ok w'
      → Effect h m o w w'
  at_frame-Effect h m none w w' e =
      let same : w ≡ w' = cc in rw (← same) (refl, (λ b n. refl), (λ a f p. cc))
  at_frame-Effect h m (some a) w w' e = elim (Option-cases (lookup a w.frames)) [
    | inl gone ↦
        let q : ok w ≡ ok w' = rw (at_frame, gone) at e in
        let same : w ≡ w' = cc in
        rw (← same) (
          refl,
          (λ b n. refl),
          (λ c f p q.
              let here : a ≡ c = cc in let clash : none ≡ some f = sym gone ∙ (rw here q) in cc),
        )
    | inr (f, found) ↦ elim (Result-cases (local h m f)) [
      | inr (x, failed) ↦
          absurd (let clash : err x ≡ ok w' = rw (at_frame, found, failed) at e in cc)
      | inl (f', done) ↦
          let q : ok (put_frame a f' w) ≡ ok w' = rw (at_frame, found, done) at e in
          let same : put_frame a f' w ≡ w' = cc in
          rw (← same) (
            refl,
            (λ b n. lookup-insert_ne a b f' w.frames (λ p. n (ap some p))),
            (λ c g p q.
                let here : a ≡ c = cc in
                let both : some f ≡ some g = sym found ∙ (rw here q) in
                let that : f ≡ g = cc in
                rw (← here, ← that) (f', done, lookup-insert_self a f' w.frames)),
          )
    ]
  ]

  run_closure-Effect :
      (h : Closure) (m : Message) (w w' : World S)
      → run_closure h m w ≡ ok w'
      → (w'.client.router ≡ w.client.router)
        × ((b : ℕ) → own h ≢ some b → lookup b w'.frames ≡ lookup b w.frames)
        × ((a : ℕ) (f : Frame)
            → own h ≡ some a
            → lookup a w.frames ≡ some f
            → (f' : Frame) × (local h m f ≡ ok f') × (lookup a w'.frames ≡ some f'))
  run_closure-Effect h m w w' e =
      let (w1, (frames, router), rest) = run_closure_parts h m w w' e in
      let (client, others, mine) = at_frame-Effect h m (own h) w1 w' rest in
      (
        ap (λ c. c.router) client ∙ router,
        (λ b n. others b n ∙ ap (lookup b) frames),
        (λ a f o found. mine a f o (ap (lookup a) frames ∙ found)),
      )

abbrev pub owns : ℕ → Closure → Bool
owns a h = elim (own h) [ none ↦ false | some b ↦ nat_eq b a ]

pub owns_own : (a : ℕ) (h : Closure) → owns a h ≡ true → own h ≡ some a
owns_own a h e = elim (Option-cases (own h)) [
  | inl none_own ↦ absurd (let clash : false ≡ true = rw (owns, none_own) at e in cc)
  | inr (b, o) ↦
      let q : nat_eq b a ≡ true = rw (owns, o) at e in
      let same : b ≡ a = (nat_eq_iff b a).0 q in o ∙ ap some same
]

pub own_owns : (a : ℕ) (h : Closure) → owns a h ≡ false → own h ≢ some a
own_owns a h e o =
    let clash : nat_eq a a ≡ false = rw (owns, o) at e in ground (arith, nat_eq_iff a a)

-- The closures of a frame, and what they do to it one after the other.
abbrev pub mine : ℕ → List Closure → List Closure
mine a [] = []
mine a (h ∷ hs) = if owns a h then h ∷ mine a hs else mine a hs

abbrev pub local_all : List Closure → Message → Frame → Result Crash Frame
local_all [] m f = ok f
local_all (h ∷ hs) m f = elim (local h m f) [ ok f' ↦ local_all hs m f' | err e ↦ err e ]

local_all_cons :
    (h : Closure) (hs : List Closure) (m : Message) (f f' : Frame)
    → local h m f ≡ ok f'
    → local_all (h ∷ hs) m f ≡ local_all hs m f'
local_all_cons h hs m f f' e = rw (local_all, e) refl

pub local_all_one :
    (h : Closure) (m : Message) (f g : Frame) → local_all (h ∷ []) m f ≡ ok g → local h m f ≡ ok g
local_all_one h m f g e = elim (Result-cases (local h m f)) [
  | inl (k, did) ↦ did ∙ rw (local_all, did) at e
  | inr (x, failed) ↦ absurd (let clash : err x ≡ ok g = rw (local_all, failed) at e in cc)
]

module _ {S : Type 0} where
  -- When the closures of a message have returned, those of a frame have run on it, and nothing else has
  -- touched it.
  pub run_all-Effect :
      (hs : List Closure) (m : Message) (w w' : World S)
      → run_all hs m w ≡ ok w'
      → (w'.client.router ≡ w.client.router)
        × ((a : ℕ) (f : Frame)
            → lookup a w.frames ≡ some f
            → (f' : Frame) × (local_all (mine a hs) m f ≡ ok f') × (lookup a w'.frames ≡ some f'))
  unfolding run_all
  run_all-Effect [] m w w' e =
      let same : w ≡ w' = cc in rw (← same) (refl, (λ a f found. (f, refl, found)))
  run_all-Effect (h ∷ hs) m w w' e = elim (Result-cases (run_closure h m w)) [
    | inr (x, failed) ↦ absurd (let clash : err x ≡ ok w' = rw (run_all, failed) at e in cc)
    | inl (w1, done) ↦
        let (router, others, first) = run_closure-Effect h m w w1 done in
        let (router', later) = run_all-Effect hs m w1 w' (rw (run_all, done) at e) in
        (
          router' ∙ router,
          (λ a f found. elim (Bool-cases (owns a h)) [
            | inr apart ↦ rw apart (later a f (others a (own_owns a h apart) ∙ found))
            | inl ours ↦
                let (f1, ran, found1) = first a f (owns_own a h ours) found in
                let (f2, rest, found2) = later a f1 found1 in
                rw ours (f2, local_all_cons h (mine a hs) m f f1 ran ∙ rest, found2)
          ]),
        )
  ]

-- The order in which `range` takes the closures out of the map does not matter to a frame with one of them.
pub mine_order :
    (a : ℕ) {hs ks : List Closure}
    → Permᴰ hs ks
    → (mine a ks ≡ [] → mine a hs ≡ []) × ((h : Closure) → mine a ks ≡ h ∷ [] → mine a hs ≡ h ∷ [])
mine_order a Permᴰ.nil = ((λ e. e), (λ h e. e))
mine_order a (Permᴰ.cons {a = x} {b = y} {l₁ = xs} {l₂ = ys} p q) =
    rw p (elim (Bool-cases (owns a y)) [
      | inr apart ↦ rw apart (mine_order a q)
      | inl ours ↦ rw ours (
        (λ e. cc),
        (λ h e.
            let none_left : mine a ys ≡ [] = cc in
            let here : y ≡ h = cc in rw (here, (mine_order a q).0 none_left) refl),
      )
    ])
mine_order a (Permᴰ.swap {a = x} {b = y} {a' = x'} {b' = y'} {l = l} p q) = rw (p, q) (ground arith)
mine_order a (Permᴰ.trans p q) = (
  (λ e. (mine_order a p).0 ((mine_order a q).0 e)),
  (λ h e. (mine_order a p).1 h ((mine_order a q).1 h e)),
)

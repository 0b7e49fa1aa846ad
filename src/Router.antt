-- ===== src/Router.antt =====
-- router.go: the handlers that are registered for each message type. A handler is of any type `H`; the
-- lock makes each call one step, and Dispatch calls its copy of the handlers after releasing it.
pub mod Registered
pub mod Dispatching
mod Tests
use esphome_apiclient.Common.{ℕ, ◌+◌, ◌%◌, ◌^◌, Option, none, some, List, [], nat_key}
use esphome_apiclient.Common.Maps.{Map, lookup, insert, erase, values}

module _ {ℓ} {H : Type ℓ} where
  -- `r.handlers[msgType]`, with nil for a missing map.
  abbrev pub or_empty : Option (Map ℕ H) → Map ℕ H
  or_empty none = []
  or_empty (some m) = m

pub record Router {ℓ} (H : Type ℓ) : Type ℓ where
  pub handlers : Map ℕ (Map ℕ H)
  pub next_id : ℕ  -- uint64

module _ {ℓ} {H : Type ℓ} where
  -- NewRouter
  unfoldable pub new_router : Router H
  new_router = record { handlers = []; next_id = 0 }

  -- On returns a function that removes the handler: here the id that this function holds.
  unfoldable pub on : ℕ → H → Router H → Router H × ℕ
  on msg_type handler r =
      let id = (r.next_id + 1) % 2 ^ 64 in
      let m = or_empty (lookup msg_type r.handlers) in
      (record { handlers = insert msg_type (insert id handler m) r.handlers; next_id = id }, id)

  unfoldable pub remove : ℕ → ℕ → Router H → Router H
  remove msg_type id r = elim (lookup msg_type r.handlers) [
    | none ↦ r
    | some m ↦ record r { handlers = insert msg_type (erase id m) r.handlers }
  ]

  -- The handlers that Dispatch calls, in the order of the map, which Go leaves open.
  unfoldable pub dispatch : ℕ → Router H → List H
  dispatch msg_type r = values (or_empty (lookup msg_type r.handlers))

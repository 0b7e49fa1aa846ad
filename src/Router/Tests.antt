-- ===== src/Router/Tests.antt =====
-- router.go: two handlers of one message type.
use esphome_apiclient.Common.{ℕ, ◌≡◌, ◌≢◌, refl, ◌∷◌, arith}
use esphome_apiclient.Router.{Router, new_router, on, remove, dispatch}
use esphome_apiclient.Router.Registered.{IsValid, HasRoom, new_router-IsValid, on-IsValid}
use esphome_apiclient.Router.Dispatching.{dispatch-on, dispatch-remove, dispatch-remove-on}
use mathlib.Core.List.{Perm}

abbrev one_handler : Router ℕ
one_handler = (on 25 100 new_router).0

abbrev two_handlers : Router ℕ
two_handlers = (on 25 200 one_handler).0

new-HasRoom : HasRoom (new_router {H = ℕ})
unfolding new_router
new-HasRoom = omega arith

one-IsValid : IsValid one_handler
one-IsValid = on-IsValid 25 100 new_router new_router-IsValid new-HasRoom

one-HasRoom : HasRoom one_handler
unfolding on new_router
one-HasRoom = omega arith

two-IsValid : IsValid two_handlers
two-IsValid = on-IsValid 25 200 one_handler one-IsValid one-HasRoom

dispatch-on_example :
    Perm (dispatch 25 two_handlers) (200 ∷ dispatch 25 one_handler)
    × ((t' : ℕ) → 25 ≢ t' → dispatch t' two_handlers ≡ dispatch t' one_handler)
dispatch-on_example = dispatch-on 25 200 one_handler one-IsValid one-HasRoom

dispatch-remove_example :
    Perm (dispatch 25 two_handlers) (100 ∷ dispatch 25 (remove 25 1 two_handlers))
    × ((t' : ℕ) → 25 ≢ t' → dispatch t' (remove 25 1 two_handlers) ≡ dispatch t' two_handlers)
    × (dispatch 25 (remove 25 1 (remove 25 1 two_handlers))
        ≡ dispatch 25 (remove 25 1 two_handlers))
unfolding on new_router
dispatch-remove_example = dispatch-remove 25 1 100 two_handlers two-IsValid refl

dispatch-remove-on_example :
    dispatch 25 (remove 25 (on 25 200 one_handler).1 two_handlers) ≡ dispatch 25 one_handler
dispatch-remove-on_example = dispatch-remove-on 25 25 200 one_handler one-IsValid one-HasRoom

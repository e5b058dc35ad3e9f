-- ===== src/Listener/Tests.antt =====
-- Runs of the listener of Listener.hpp, and the theorems about it at concrete inputs.
use rmw_dps.Prelude.{ℕ, ◌≡◌, refl, List, [], ◌∷◌, ◌++◌, some}
use rmw_dps.Listener.{
  new_listener, on_publication, take_next_data, attach_condition, detach_condition,
}
use rmw_dps.Listener.Fifo.{
  Call, publication, attach, detach, take, call, after, taken, taken-delivered,
}

abbrev calls : List (Call ℕ)
calls = publication 1 ∷ attach 7 ∷ publication 2 ∷ take ∷ detach ∷ publication 3 ∷ take ∷ []

calls_take : taken calls new_listener ≡ 1 ∷ 2 ∷ []
unfolding call on_publication take_next_data attach_condition detach_condition
calls_take = refl

attached_notifies :
    (on_publication {D = ℕ} 5 (record { data_ = []; condition = some 7 })).1 ≡ some 7
unfolding on_publication
attached_notifies = refl

taken-delivered_example :
    taken calls new_listener ++ (after calls new_listener).data_ ≡ 1 ∷ 2 ∷ 3 ∷ []
taken-delivered_example = taken-delivered calls new_listener

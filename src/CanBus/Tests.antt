-- ===== src/CanBus/Tests.antt =====
-- Runs of the bus.
use aeb_node.Prelude.{◌≡◌, refl, true, false, [], ◌∷◌, some}
use aeb_node.CanBus.{CanCalls, new_bus, open_bus, close_fd}
use aeb_node.CanBus.Laws.{Outcome, open_bus-Outcome}

abbrev no_bind : CanCalls
no_bind = record { socket = some 5; index_found = true; binds = false }

open_bus-Outcome_example : Outcome (3 ∷ []) (open_bus no_bind 4 new_bus (3 ∷ []))
open_bus-Outcome_example = open_bus-Outcome no_bind 4 new_bus (3 ∷ []) refl

held_after : (open_bus no_bind 4 new_bus (3 ∷ [])).2 ≡ (3 ∷ [])
unfolding open_bus close_fd
held_after = refl

-- ===== src/App/SignalWaiter/Tests.antt =====
-- SIGPIPE, an interruption, then SIGTERM.
use aeb_node.Prelude.{◌≡◌, refl, true, List, [], ◌∷◌, ◌++◌, some}
use aeb_node.App.SignalWaiter.{WaitResult, signalled, interrupted, wait_for}

abbrev dropped_client : List WaitResult
dropped_client = signalled 13 ∷ interrupted ∷ []

waited : wait_for true (dropped_client ++ (signalled 15 ∷ [])) ≡ some 15
unfolding wait_for
waited = refl

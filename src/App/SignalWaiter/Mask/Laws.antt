-- ===== src/App/SignalWaiter/Mask/Laws.antt =====
-- app/SignalWaiter.cpp: the signals that are blocked while a waiter lives, and after.
use aeb_node.Prelude.{ℕ, ◌≡◌, refl, Bool, true, false, ◌&&◌, ◌||◌, ◌==◌, arith}
use aeb_node.App.SignalWaiter.{sigpipe}
use aeb_node.App.SignalWaiter.Mask.{SignalSet, sigint, sigterm, construct, destroy}

-- While a waiter lives that could be installed, its thread blocks SIGINT, SIGTERM, SIGPIPE and what it
-- blocked before, and no other signal; one that could not be installed changes nothing. Its destructor
-- leaves the thread with the mask it had before, if the thread did not change its mask meanwhile.
pub destroy-construct :
    (succeeds : Bool) (blocked : SignalSet)
    → let (waiter, during) = construct succeeds blocked in
      (waiter.installed ≡ succeeds)
      × (destroy waiter during ≡ blocked)
      × ((n : ℕ)
          → during n ≡ (succeeds && (n == sigint || n == sigterm || n == sigpipe)) || blocked n)
unfolding construct destroy
destroy-construct true blocked = (refl, refl, λ n. ground arith)
destroy-construct false blocked = (refl, refl, λ n. refl)

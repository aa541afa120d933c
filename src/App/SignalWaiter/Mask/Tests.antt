-- ===== src/App/SignalWaiter/Mask/Tests.antt =====
-- A thread that blocks SIGUSR1 before.
use aeb_node.Prelude.{ℕ, ◌≡◌, true, ◌&&◌, ◌||◌, ◌==◌}
use aeb_node.App.SignalWaiter.{sigpipe}
use aeb_node.App.SignalWaiter.Mask.{sigint, sigterm, SignalSet, construct, destroy}
use aeb_node.App.SignalWaiter.Mask.Laws.{destroy-construct}

abbrev sigusr1 : SignalSet
sigusr1 n = n == 10

destroy-construct_example :
    ((construct true sigusr1).0.installed ≡ true)
    × (destroy ((construct true sigusr1).0) ((construct true sigusr1).1) ≡ sigusr1)
    × ((n : ℕ)
        → (construct true sigusr1).1 n
          ≡ (true && (n == sigint || n == sigterm || n == sigpipe)) || sigusr1 n)
destroy-construct_example = destroy-construct true sigusr1

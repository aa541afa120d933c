-- ===== src/App/Main/Laws.antt =====
-- app/main.cpp: the exit codes, and what a process leaves.
use aeb_node.Prelude.{ℕ, ◌≡◌, ◌⊎◌, false, List, Option, some, none}
use aeb_node.Prelude.Text.{Text, is_empty}
use aeb_node.CanBus.{CanBus}
use aeb_node.Network.WakePipe.{WakePipe}
use aeb_node.Network.TcpServer.{TcpServer}
use aeb_node.App.Options.{Options}
use aeb_node.App.CommandLine.Ranges.Results.{Asks}
use aeb_node.App.Lifecycle.{Application, RunCalls}
use aeb_node.App.Lifecycle.Shutdown.{IsClean}
use aeb_node.App.Lifecycle.Supervision.{Unstarted, Exits}
use aeb_node.App.Main.{new_application}

-- The exit codes 0 and 2 of a process that builds no application, and what `run` makes of one.
abbrev pub IsExit :
    RunCalls → List ℕ → List Text → Option Options × Text → ℕ × Option Application → Type 0
IsExit c held args (none, error) (code, app) =
    (app ≡ none) × (((code ≡ 2) × (is_empty error ≡ false)) ⊎ ((code ≡ 0) × Asks args))
IsExit c held args (some o, error) (code, app) =
    (a : Application) × (app ≡ some a)
    × IsClean held a
    × Exits c (Unstarted c (new_application held o)) code

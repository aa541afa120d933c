-- ===== src/App/Lifecycle/Shutdown/Run.antt =====
-- app/Application.cpp: run on each of its paths.
use aeb_node.Prelude.{ℕ, ◌≡◌, List, Option, some}
use aeb_node.Lidar.Acquisition.{Lidar}
use aeb_node.Lidar.Acquisition.Control.{start as lidar_start}
use aeb_node.Network.TcpServer.{TcpServer}
use aeb_node.Network.TcpServer.Control.{start as tcp_start}
use aeb_node.Network.TcpServer.Reach.{IsSound}
use aeb_node.App.Lifecycle.{Application, RunCalls}
use aeb_node.App.Lifecycle.Shutdown.{IsClean}
use aeb_node.App.Lifecycle.Supervision.{Exits}

-- How `run` ends: it returns, leaves nothing, and has one of these causes.
abbrev Ends : RunCalls → Type 0 → List ℕ → Option (ℕ × Application) → Type 0
Ends c why held m = (r : ℕ × Application) × (m ≡ some r) × IsClean held r.1 × Exits c why r.0

-- What the threads make of a sound server is sound, as `reachable-IsSound` has it.
abbrev pub KeepsSound : (TcpServer → TcpServer) → Type 0
KeepsSound works = (s : TcpServer) → IsSound s → IsSound (works s)

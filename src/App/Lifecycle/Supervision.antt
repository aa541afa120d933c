-- ===== src/App/Lifecycle/Supervision.antt =====
-- app/Application.cpp: why run ends, and what supervise makes of the ticks.
use aeb_node.Prelude.{
  ℕ, ◌<◌, ◌⊎◌, inl, inr, if-eq_of_true, if-eq_of_false, ◌≡◌, refl, ap, true, false, not, List, [],
  ◌∷◌, some, arith, if-of, ◌==◌,
}
use aeb_node.Lidar.Acquisition.{Lidar, new_lidar}
use aeb_node.Lidar.Acquisition.Control.{start as lidar_start}
use aeb_node.Network.TcpServer.{TcpServer}
use aeb_node.Network.TcpServer.Control.{start as tcp_start}
use aeb_node.App.Lifecycle.{Application, Tick, RunCalls, start_can_bus, supervise}

-- A signal comes while the acquisition runs.
abbrev pub Signalled : List Tick → Type 0
Signalled [] = ⊥
Signalled (t ∷ ticks) =
    (0 < t.signal_number) ⊎ ((t.signal_number ≡ 0) × (t.lidar_running ≡ true) × Signalled ticks)

-- The acquisition ends before a signal comes.
abbrev pub Dies : List Tick → Type 0
Dies [] = ⊥
Dies (t ∷ ticks) = (t.signal_number ≡ 0) × ((t.lidar_running ≡ false) ⊎ Dies ticks)

-- A component that does not start.
abbrev pub Unstarted : RunCalls → Application → Type 0
Unstarted c app =
    (c.signals_valid ≡ false)
    ⊎ ((start_can_bus c.can app).0 ≡ false)
    ⊎ ((s : TcpServer) × (tcp_start c.tcp app.tcp_server ≡ some (false, s)))
    ⊎ ((l : Lidar) × (lidar_start c.device true c.lidar_spawns (new_lidar app.auto_reconnect)
          ≡ some (false, l)))

-- The exit code and its cause: 0 after a signal, 1 after the end of the acquisition or, by `why`, since
-- a component did not start.
abbrev pub Exits : RunCalls → Type 0 → ℕ → Type 0
Exits c why code = ((code ≡ 0) × Signalled c.ticks) ⊎ ((code ≡ 1) × (Dies c.ticks ⊎ why))

pub supervise-Signalled : (ticks : List Tick) → Signalled ticks → supervise ticks ≡ some 0
unfolding supervise
supervise-Signalled [] h = absurd h
supervise-Signalled (t ∷ ticks) (inl h) =
    if-eq_of_true (not (t.signal_number == 0)) _ _ (ground (arith, h)) refl
supervise-Signalled (t ∷ ticks) (inr (h, r, later)) =
    if-eq_of_false (not (t.signal_number == 0)) _ _ (ground (arith, h))
      (if-eq_of_false (not t.lidar_running) _ _ (ap not r) (supervise-Signalled ticks later))

pub supervise-Dies : (ticks : List Tick) → Dies ticks → supervise ticks ≡ some 1
unfolding supervise
supervise-Dies [] h = absurd h
supervise-Dies (t ∷ ticks) (h, inl r) =
    if-eq_of_false (not (t.signal_number == 0)) _ _ (ground (arith, h))
      (if-eq_of_true (not t.lidar_running) _ _ (ap not r) refl)
supervise-Dies (t ∷ ticks) (h, inr later) =
    if-eq_of_false (not (t.signal_number == 0)) _ _ (ground (arith, h)) (
      if-of (λ r. r ≡ some 1) (not t.lidar_running) _ _ (λ e. refl)
        (λ e. supervise-Dies ticks later))

-- Some tick sees a signal, or that the lidar has stopped.
abbrev pub Notices : List Tick → Type 0
Notices ticks = Signalled ticks ⊎ Dies ticks

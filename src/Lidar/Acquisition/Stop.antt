-- ===== src/Lidar/Acquisition/Stop.antt =====
-- lidar/Lidar.cpp: what stop leaves behind.
use Prim.{tt}
use aeb_node.Prelude.{
  ℕ, ◌+◌, ◌≡◌, refl, Bool, true, false, not, ◌||◌, List, [], ◌∷◌, Option, some, none, if-of,
  Succeeds, ap, length, ◌==◌, ltb, Holds, Holds-if, holds, arith,
}
use aeb_node.Types.{ScanPoint}
use aeb_node.Lidar.Device.{closed_device, Device, LidarError, device_is_open, grab_scan}
use aeb_node.Lidar.Device.Laws.{close_device_lem}
use aeb_node.Lidar.Acquisition.{
  Lidar, set_error, opened, open_lidar, deliver_frame, Cycle, grabbed, acquire_once, Turn, goes_on,
  leaves, reconnect, recover, turn, finish, run_loop, max_consecutive_grab_failures,
}
use aeb_node.Lidar.Acquisition.Control.{join, release, stop}
use aeb_node.Lidar.Acquisition.Recovery.{Stops, run_loop_ends}

pub record IsReleased (s : Lidar) : Type 0 where
  pub device_closed : s.device ≡ closed_device
  pub not_running : s.running ≡ false
  pub no_callback : s.has_callback ≡ false
  pub not_joinable : s.joinable ≡ false
  pub requested : s.stop_requested ≡ true

-- The rounds of the thread leave the request to stop alone.
abbrev Requests : Lidar → Type 0
Requests s = s.stop_requested ≡ true

abbrev TurnRequests : Turn → Type 0
TurnRequests (goes_on n s) = Requests s
TurnRequests (leaves s) = Requests s

set_error-Requests : (e : Option LidarError) (s : Lidar) → Requests s → Requests (set_error e s)
unfolding set_error
set_error-Requests none s h = h
set_error-Requests (some e) s h = h

opened-Requests :
    (r : Bool × Option LidarError × Device) (s : Lidar) → Requests s → Requests (opened r s).1
unfolding opened
opened-Requests (true, e, d) s h = h
opened-Requests (false, e, d) s h = set_error-Requests e (record s { device = d }) h

deliver_frame-Requests :
    (now : ℕ) (throws : Bool) (s : Lidar) → Requests s → Requests (deliver_frame now throws s)
unfolding deliver_frame
deliver_frame-Requests now true s h = h
deliver_frame-Requests now false s h = h

grabbed-Requests :
    (c : Cycle) (r : Bool × Option LidarError × List ScanPoint) (s : Lidar)
    → Requests s
    → Requests (grabbed c r s).1
unfolding grabbed
grabbed-Requests c (false, e, points) s h =
    set_error-Requests e (record s { frame = record s.frame { points = points } }) h
grabbed-Requests c (true, e, points) s h =
    if-of (λ (v : Bool × Lidar). Requests v.1) (length points == 0) _ _ (λ e. h)
      (λ e.
        deliver_frame-Requests c.now c.throws
          (record s { frame = record s.frame { points = points } }) h)

acquire_once-Requests : (c : Cycle) (s : Lidar) → Requests s → Requests (acquire_once c s).1
unfolding acquire_once
acquire_once-Requests c s h =
    if-of (λ (v : Bool × Lidar). Requests v.1) (not (device_is_open s.device)) _ _ (λ e. h)
      (λ e. grabbed-Requests c (grab_scan c.nodes s.device s.frame.points) s h)

recover-Requests : (c : Cycle) (n : ℕ) (s : Lidar) → Requests s → TurnRequests (recover c n s)
unfolding recover reconnect open_lidar
recover-Requests c n s h =
    if-of TurnRequests (ltb (n + 1) max_consecutive_grab_failures) _ _ (λ e. h)
      (λ e.
        if-of TurnRequests (not s.auto_reconnect || c.stop_at_reconnect) _ _ (λ e. h)
          (λ e. opened-Requests _ _ h))

turn-Requests : (c : Cycle) (n : ℕ) (s : Lidar) → Requests s → TurnRequests (turn c n s)
unfolding turn
turn-Requests c n s h =
    if-of TurnRequests (acquire_once c s).0 _ _ (λ e. acquire_once-Requests c s h)
      (λ e. recover-Requests c n (acquire_once c s).1 (acquire_once-Requests c s h))

run_loop-Requests :
    (cs : List Cycle) (n : ℕ) (s : Lidar) → Requests s → Holds Requests (run_loop cs n s)
unfolding run_loop finish
run_loop-Requests [] n s h = tt
run_loop-Requests (c ∷ cs) n s h =
    Holds-if Requests c.stop_at_test _ _ (λ e. h)
      (λ e. turned (run_loop-Requests cs) (turn c n s) (turn-Requests c n s h))
  where
    turned :
        ((n : ℕ) (s : Lidar) → Requests s → Holds Requests (run_loop cs n s))
        → (t : Turn) → TurnRequests t
        → Holds Requests (elim t [
          | goes_on failures' s' ↦ run_loop cs failures' s'
          | leaves s' ↦ some (finish s')
        ])
    turned later (goes_on k s') h = later k s' h
    turned later (leaves s') h = h

-- The thread is joined, and the request still stands.
abbrev Joined : Lidar → Type 0
Joined s = (s.joinable ≡ false) × (s.stop_requested ≡ true)

join-Joined : (cs : List Cycle) (n : ℕ) (s : Lidar) → Requests s → Holds Joined (join cs n s)
unfolding join
join-Joined cs n s h =
    Holds-if Joined (not s.joinable) (some s) _ (λ e. (ground arith, h))
      (λ e.
        Holds-if Joined (not s.running) _ _ (λ e'. (refl, h))
          (λ e'. joined (run_loop cs n s) (run_loop-Requests cs n s h)))
  where
    joined :
        (m : Option Lidar)
        → Holds Requests m
        → Holds Joined (elim m [ none ↦ none | some s' ↦ some (record s' { joinable = false }) ])
    joined none h = tt
    joined (some s') h = (refl, h)

release-IsReleased : (s : Lidar) → Joined s → IsReleased (release s)
unfolding release
release-IsReleased s (joined, requested) = record {
  device_closed = close_device_lem s.device;
  not_running = refl;
  no_callback = refl;
  not_joinable = joined;
  requested = requested;
}

join_ends : (cs : List Cycle) (n : ℕ) (s : Lidar) → Stops cs → Succeeds (join cs n s)
unfolding join
join_ends cs n s h =
    if-of Succeeds (not s.joinable) _ _ (λ e. (_, refl))
      (λ e.
        if-of Succeeds (not s.running) _ _ (λ e'. (_, refl))
          (λ e'. joined (run_loop cs n s) (run_loop_ends cs n s h)))
  where
    joined :
        (m : Option Lidar)
        → Succeeds m
        → Succeeds {A = Lidar}
            (elim m [ none ↦ none | some s' ↦ some (record s' { joinable = false }) ])
    joined none (a, e) = cc
    joined (some s') h = (_, refl)

-- A stop of a stopped lidar finds nothing to wait for.
pub stop_again :
    (cs : List Cycle) (n : ℕ) (s : Lidar)
    → IsReleased s
    → (s' : Lidar) × (stop cs n s ≡ some s') × IsReleased s'
unfolding stop join
stop_again cs n s h = (
  release (record s { stop_requested = true }),
  ground (arith, h.not_joinable),
  release-IsReleased (record s { stop_requested = true }) (h.not_joinable, refl),
)

-- `stop` returns whether or not the thread runs, once the thread sees the request in one of its rounds,
-- and leaves the device closed, no callback, the lidar not running, its thread joined, and the request to
-- stop made.
pub stop-IsReleased :
    (cs : List Cycle) (n : ℕ) (s : Lidar)
    → Stops cs
    → (s' : Lidar) × (stop cs n s ≡ some s') × IsReleased s'
unfolding stop
stop-IsReleased cs n s h =
    let (s', e) = join_ends cs n (record s { stop_requested = true }) h in
    (
      release s',
      ap (λ m. elim m [ none ↦ none | some s' ↦ some (release s') ]) e,
      release-IsReleased s' (
          holds Joined (join cs n (record s { stop_requested = true }))
            (join-Joined cs n (record s { stop_requested = true }) refl) e),
    )

-- ===== src/Lidar/Acquisition/Numbering.antt =====
-- lidar/Lidar.cpp: the numbers and the points of the frames that the consumer is given.
use Prim.{tt, Unit}
use aeb_node.Prelude.{
  ℕ, suc, ◌+◌, ◌%◌, ◌^◌, ◌<◌, ◌≡◌, refl, Bool, true, false, not, ◌||◌, List, [], ◌∷◌, ◌++◌, Option,
  some, none, length, length-append, ◌==◌, ltb, arith, All, if-of, Holds, Holds-if,
}
use aeb_node.Types.{ScanPoint, ScanFrame}
use aeb_node.Lidar.Device.{
  LidarError, Device, device_is_open, MeasurementNode, grab_scan, to_points, closed_device,
  grab_failed, grab_failed,
}
use aeb_node.Lidar.Device.Laws.{HasReturn, to_points-HasReturn, close_device_lem}
use aeb_node.Lidar.Acquisition.{
  Lidar, set_error, opened, open_lidar, count_read_error, deliver_frame, Cycle, grabbed,
  acquire_once, Turn, goes_on, leaves, reconnect, recover, turn, finish, run_loop, inc_64,
  max_consecutive_grab_failures,
}

-- The frames carry the numbers from `n` on, wrapped at 2 ^ 32, and some points, all with a return.
abbrev pub IsNumbered : ℕ → List ScanFrame → Type 0
IsNumbered n [] = Unit {0}
IsNumbered n (f ∷ fs) =
    (f.sequence ≡ n % 2 ^ 32)
    × (0 < length f.points)
    × All HasReturn f.points
    × IsNumbered (suc n) fs

pub record IsDelivering (s : Lidar) : Type 0 where
  pub numbered : IsNumbered 0 s.delivered
  pub next : s.next_sequence ≡ length s.delivered % 2 ^ 32
  pub counted : s.stats.frames_delivered ≡ length s.delivered % 2 ^ 64

IsNumbered-snoc :
    (n : ℕ) (fs : List ScanFrame) (f : ScanFrame)
    → IsNumbered n fs
    → f.sequence ≡ (n + length fs) % 2 ^ 32
    → 0 < length f.points
    → All HasReturn f.points
    → IsNumbered n (fs ++ (f ∷ []))
IsNumbered-snoc n [] f h e l r = (omega (arith, e), l, r, tt)
IsNumbered-snoc n (g ∷ fs) f (e', l', r', h) e l r =
    (e', l', r', IsNumbered-snoc (suc n) fs f h (omega (arith, e)) l r)

-- Calls that give the consumer nothing.
same_delivery :
    {s s' : Lidar}
    → IsDelivering s
    → s'.delivered ≡ s.delivered
    → s'.next_sequence ≡ s.next_sequence
    → s'.stats.frames_delivered ≡ s.stats.frames_delivered
    → IsDelivering s'
same_delivery {s = s} {s' = s'} d same_delivered same_next same_count = ground arith

set_error-IsDelivering :
    (e : Option LidarError) (s : Lidar) → IsDelivering s → IsDelivering (set_error e s)
unfolding set_error
set_error-IsDelivering none s d = d
set_error-IsDelivering (some e) s d = same_delivery d refl refl refl

opened-IsDelivering :
    (r : Bool × Option LidarError × Device) (s : Lidar)
    → IsDelivering s
    → IsDelivering (opened r s).1
unfolding opened
opened-IsDelivering (true, e, v) s d = same_delivery d refl refl refl
opened-IsDelivering (false, e, v) s d =
    set_error-IsDelivering e (record s { device = v }) (same_delivery d refl refl refl)

deliver_frame-IsDelivering :
    (now : ℕ) (throws : Bool) (s : Lidar)
    → IsDelivering s
    → 0 < length s.frame.points
    → All HasReturn s.frame.points
    → IsDelivering (deliver_frame now throws s)
unfolding deliver_frame
deliver_frame-IsDelivering now throws s d l r =
    let f : ScanFrame = record s.frame { sequence = s.next_sequence; timestamp_us = now } in
    let grows = length-append s.delivered (f ∷ []) in
    let added = IsNumbered-snoc 0 s.delivered f d.numbered (omega (arith, d.next)) l r in
    by_throw throws added (omega (arith, d.next, grows)) (omega (arith, d.counted, grows))
  where
    by_throw :
        (b : Bool)
        → IsNumbered 0 (
            s.delivered ++ (record s.frame { sequence = s.next_sequence; timestamp_us = now } ∷ []))
        → (s.next_sequence + 1) % 2 ^ 32
          ≡ length (
              s.delivered
              ++ (record s.frame { sequence = s.next_sequence; timestamp_us = now } ∷ []))
            % 2 ^ 32
        → inc_64 s.stats.frames_delivered
          ≡ length (
              s.delivered
              ++ (record s.frame { sequence = s.next_sequence; timestamp_us = now } ∷ []))
            % 2 ^ 64
        → IsDelivering (deliver_frame now b s)
    by_throw true a n k = record { numbered = a; next = n; counted = k }
    by_throw false a n k = record { numbered = a; next = n; counted = k }

-- A grab that succeeds yields points with a return.
abbrev Grabs : Bool × Option LidarError × List ScanPoint → Type 0
Grabs r = r.0 ≡ true → All HasReturn r.2

grabbed-IsDelivering :
    (c : Cycle) (r : Bool × Option LidarError × List ScanPoint) (s : Lidar)
    → IsDelivering s
    → Grabs r
    → IsDelivering (grabbed c r s).1
unfolding grabbed
grabbed-IsDelivering c (false, e, points) s d h =
    set_error-IsDelivering e _ (same_delivery d refl refl refl)
grabbed-IsDelivering c (true, e, points) s d h =
    if-of (λ (v : Bool × Lidar). IsDelivering v.1) (length points == 0) _ _
      (λ e. same_delivery d refl refl refl)
      (λ e.
        deliver_frame-IsDelivering c.now c.throws _ (same_delivery d refl refl refl) (ground arith)
          (h refl))

grab_scan-Grabs :
    (nodes : Option (List MeasurementNode)) (v : Device) (points : List ScanPoint)
    → Grabs (grab_scan nodes v points)
unfolding grab_scan
grab_scan-Grabs nodes v points = if-of Grabs (not v.driver) _ _ (λ e h. cc) (λ e. by_nodes nodes)
  where
    by_nodes :
        (nodes : Option (List MeasurementNode))
        → Grabs (elim nodes [
          | none ↦ (false, some grab_failed, points)
          | some nodes ↦ (true, none, to_points nodes)
        ])
    by_nodes none h = cc
    by_nodes (some nodes) h = to_points-HasReturn nodes

abbrev Delivers : Bool × Lidar → Type 0
Delivers r = IsDelivering r.1

acquire_once-IsDelivering :
    (c : Cycle) (s : Lidar) → IsDelivering s → IsDelivering (acquire_once c s).1
unfolding acquire_once
acquire_once-IsDelivering c s d =
    if-of Delivers (not (device_is_open s.device)) _ _ (λ e. d)
      (λ e.
        grabbed-IsDelivering c (grab_scan c.nodes s.device s.frame.points) s d
          (grab_scan-Grabs c.nodes s.device s.frame.points))

abbrev Turned : Turn → Type 0
Turned (goes_on n s) = IsDelivering s
Turned (leaves s) = IsDelivering s

reconnect-Turned : (c : Cycle) (s : Lidar) → IsDelivering s → Turned (reconnect c s)
unfolding reconnect open_lidar
reconnect-Turned c s d =
    if-of Turned (not s.auto_reconnect || c.stop_at_reconnect) _ _
      (λ e. same_delivery d refl refl refl)
      (λ e. opened-IsDelivering _ _ (same_delivery d refl refl refl))

recover-Turned : (c : Cycle) (n : ℕ) (s : Lidar) → IsDelivering s → Turned (recover c n s)
unfolding recover
recover-Turned c n s d =
    if-of Turned (ltb (n + 1) max_consecutive_grab_failures) _ _
      (λ e. same_delivery d refl refl refl)
      (λ e. reconnect-Turned c (count_read_error s) (same_delivery d refl refl refl))

turn-Turned : (c : Cycle) (n : ℕ) (s : Lidar) → IsDelivering s → Turned (turn c n s)
unfolding turn
turn-Turned c n s d =
    if-of Turned (acquire_once c s).0 _ _ (λ e. acquire_once-IsDelivering c s d)
      (λ e. recover-Turned c n (acquire_once c s).1 (acquire_once-IsDelivering c s d))

-- What the thread leaves behind.
pub record IsFinished (s : Lidar) : Type 0 where
  pub delivering : IsDelivering s
  pub device_closed : s.device ≡ closed_device
  pub not_running : s.running ≡ false

finish-IsFinished : (s : Lidar) → IsDelivering s → IsFinished (finish s)
unfolding finish
finish-IsFinished s d = record {
  delivering = same_delivery d refl refl refl;
  device_closed = close_device_lem s.device;
  not_running = refl;
}

pub run_loop-IsFinished :
    (cs : List Cycle) (n : ℕ) (s : Lidar) → IsDelivering s → Holds IsFinished (run_loop cs n s)
unfolding run_loop
run_loop-IsFinished [] n s d = tt
run_loop-IsFinished (c ∷ cs) n s d =
    Holds-if IsFinished c.stop_at_test _ _ (λ e. finish-IsFinished s d)
      (λ e. turned (run_loop-IsFinished cs) (turn c n s) (turn-Turned c n s d))
  where
    turned :
        ((n : ℕ) (s : Lidar) → IsDelivering s → Holds IsFinished (run_loop cs n s))
        → (t : Turn) → Turned t
        → Holds IsFinished (elim t [
          | goes_on failures' s' ↦ run_loop cs failures' s'
          | leaves s' ↦ some (finish s')
        ])
    turned later (goes_on k s') h = later k s' h
    turned later (leaves s') h = finish-IsFinished s' h

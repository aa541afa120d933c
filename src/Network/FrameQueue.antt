-- ===== src/Network/FrameQueue.antt =====
-- network/FrameQueue.hpp and network/FrameQueue.cpp. Each method runs under the mutex, so a method is
-- one step on the state; threads interleave whole methods.
pub mod Invariant
pub mod Refine
pub mod Run
mod Tests
use aeb_node.Prelude.{
  ℕ, zero, suc, ◌+◌, Bool, true, false, List, [], ◌∷◌, ◌++◌, Option, none, some, length, leb, ◌==◌,
  if◌then◌else◌, ◌>>=◌,
}
use aeb_node.Types.{ScanFrame, default_frame}

-- `kPoolSlack`
abbrev pub pool_slack : ℕ
pool_slack = 2

-- The head of `queue` is the front of the deque, and the head of `pool` the back of the vector.
pub record FrameQueue : Type 0 where
  pub queue : List ScanFrame
  pub pool : List ScanFrame
  pub capacity : ℕ

-- The constructor.
pub new : ℕ → FrameQueue
new capacity = record { queue = []; pool = []; capacity = if capacity == 0 then 1 else capacity }

pub recycle_locked : FrameQueue → ScanFrame → FrameQueue
recycle_locked q frame =
    if leb (q.capacity + pool_slack) (length q.pool)
    then q
    else record q { pool = record frame { points = [] } ∷ q.pool }

pub acquire_locked : FrameQueue → ScanFrame × FrameQueue
acquire_locked q = elim q.pool [
  | [] ↦ (default_frame, q)
  | frame ∷ pool ↦ (frame, record q { pool = pool })
]

-- `recycleLocked(std::move(queue_.front())); queue_.pop_front();`, where `none` is `front()` of an
-- empty deque.
pub recycle_front : FrameQueue → Option FrameQueue
unfolding recycle_locked
recycle_front q = elim q.queue [
  | [] ↦ none
  | frame ∷ rest ↦ some (recycle_locked (record q { queue = rest }) frame)
]

-- The loop of `push`. Each round takes a frame off the queue; `none` is also the end of the fuel.
pub evict : ℕ → FrameQueue → ℕ → Option (FrameQueue × ℕ)
unfolding recycle_front
evict zero q evicted = none
evict (suc fuel) q evicted = elim (leb q.capacity (length q.queue)) [
  | true ↦ recycle_front q >>= λ q'. evict fuel q' (evicted + 1)
  | false ↦ some (q, evicted)
]

-- The part of `push` that follows the loop.
pub enqueue : FrameQueue → ScanFrame → FrameQueue
unfolding acquire_locked
enqueue q frame =
    let (slot, q') = acquire_locked q in
    let slot' = record slot {
      sequence = frame.sequence;
      timestamp_us = frame.timestamp_us;
      points = frame.points;
    } in
    record q' { queue = q'.queue ++ (slot' ∷ []) }

-- `push(frame)`: the queue and the number of frames evicted.
unfoldable pub push : FrameQueue → ScanFrame → Option (FrameQueue × ℕ)
unfolding evict enqueue
push q frame = do (q', evicted) ← evict (suc (length q.queue)) q 0; some (enqueue q' frame, evicted)

-- `pop(out)`: the result, the queue and `out`.
unfoldable pub pop : FrameQueue → ScanFrame → Bool × FrameQueue × ScanFrame
pop q out = elim q.queue [
  | [] ↦ (false, q, out)
  | frame ∷ rest ↦ (true, record (recycle_locked q out) { queue = rest }, frame)
]

-- The loop of `clear`, over the frames still queued.
unfoldable pub clear_frames : List ScanFrame → FrameQueue → FrameQueue
clear_frames [] q = record q { queue = [] }
clear_frames (frame ∷ rest) q = clear_frames rest (recycle_locked (record q { queue = rest }) frame)

unfoldable pub clear : FrameQueue → FrameQueue
unfolding clear_frames
clear q = clear_frames q.queue q

pub empty : FrameQueue → Bool
empty q = length q.queue == 0

pub size : FrameQueue → ℕ
size q = length q.queue

-- ===== src/Network/FrameQueue/Invariant.antt =====
-- network/FrameQueue.cpp: the bounds on queue and pool, and the points of pooled frames.
use aeb_node.Prelude.{ℕ, ◌+◌, ◌≤◌, ◌≡◌, refl, List, [], ◌∷◌, length, All, arith, ◌∙◌}
use aeb_node.Types.{ScanFrame}
use aeb_node.Network.FrameQueue.{
  FrameQueue, pool_slack, new, recycle_locked, acquire_locked, pop, clear_frames, clear,
}

pub record IsValid (q : FrameQueue) : Type 0 where
  pub roomy : 1 ≤ q.capacity
  pub bounded : length q.queue ≤ q.capacity
  pub pool_bounded : length q.pool ≤ q.capacity + pool_slack
  pub pool_cleared : All (λ f. f.points ≡ []) q.pool

pub new-IsValid : (capacity : ℕ) → IsValid (new capacity)
unfolding new
new-IsValid capacity = ground arith

-- `recycleLocked` leaves the queue alone, and keeps the pool small and its frames empty.
pub record Recycled (q r : FrameQueue) : Type 0 where
  pub same_queue : r.queue ≡ q.queue
  pub same_capacity : r.capacity ≡ q.capacity
  pub pool_bounded : length r.pool ≤ r.capacity + pool_slack
  pub pool_cleared : All (λ f. f.points ≡ []) r.pool

pub recycle_locked-Recycled :
    (q : FrameQueue) (f : ScanFrame)
    → length q.pool ≤ q.capacity + pool_slack
    → All (λ f. f.points ≡ []) q.pool
    → Recycled q (recycle_locked q f)
unfolding recycle_locked
recycle_locked-Recycled q f h c = ground arith

-- So does `acquireLocked` of its second result.
pub acquire_locked-Recycled :
    (q : FrameQueue)
    → length q.pool ≤ q.capacity + pool_slack
    → All (λ f. f.points ≡ []) q.pool
    → Recycled q (acquire_locked q).1
unfolding acquire_locked
acquire_locked-Recycled q h c = ground arith

pub pop-IsValid : (q : FrameQueue) (out : ScanFrame) → IsValid q → IsValid (pop q out).1
unfolding pop
pop-IsValid q out v = ground (arith, recycle_locked-Recycled q out)

clear_frames-IsValid :
    (fs : List ScanFrame) (q : FrameQueue)
    → IsValid q
    → q.queue ≡ fs
    → IsValid (clear_frames fs q)
      × ((clear_frames fs q).queue ≡ [])
      × ((clear_frames fs q).capacity ≡ q.capacity)
unfolding clear_frames
clear_frames-IsValid [] q v e = ground arith
clear_frames-IsValid (f ∷ rest) q v e =
    let q' : FrameQueue = record q { queue = rest } in
    let r = recycle_locked-Recycled q' f v.pool_bounded v.pool_cleared in
    let (valid, emptied, kept) =
      clear_frames-IsValid rest (recycle_locked q' f) (ground (arith)) r.same_queue in
    (valid, emptied, kept ∙ r.same_capacity)

-- `clear` keeps the invariant and empties the queue.
pub clear-IsValid :
    (q : FrameQueue)
    → IsValid q
    → IsValid (clear q) × ((clear q).queue ≡ []) × ((clear q).capacity ≡ q.capacity)
unfolding clear
clear-IsValid q v = clear_frames-IsValid q.queue q v refl

-- ===== src/Network/FrameQueue/Tests.antt =====
-- Runs of the queue of network/FrameQueue.cpp, and its theorems at concrete inputs.
use aeb_node.Prelude.{ℕ, ◌*◌, ◌≡◌, refl, [], ◌∷◌, List, some, none, arith}
use aeb_node.Types.{ScanFrame, default_frame}
use aeb_node.Network.FrameQueue.{FrameQueue, push, pop, clear}
use aeb_node.Network.FrameQueue.Invariant.{IsValid}
use aeb_node.Network.FrameQueue.Refine.{Pushed, push-Pushed}
use aeb_node.Network.FrameQueue.Run.{
  Op, pushes, pops, clears, evicted, popped, cleared, run, abstract_run, run_refines,
}

abbrev frame : ℕ → ScanFrame
frame n = record { sequence = n; timestamp_us = 100 * n; points = [] }

abbrev full : FrameQueue
full = record { queue = frame 1 ∷ frame 2 ∷ []; pool = []; capacity = 2 }

full-IsValid : IsValid full
full-IsValid = omega arith

abbrev script : List Op
script = pushes (frame 3) ∷ pops ∷ pops ∷ pops ∷ pushes (frame 4) ∷ clears ∷ pops ∷ []

run-full :
    run full default_frame script
    ≡ some (
        evicted 1
        ∷ popped (some (frame 2))
        ∷ popped (some (frame 3))
        ∷ popped none
        ∷ evicted 0
        ∷ cleared
        ∷ popped none
        ∷ [])
unfolding run push pop clear
run-full = refl

push-Pushed_example :
    (q : FrameQueue) × (n : ℕ) × (push full (frame 3) ≡ some (q, n)) × Pushed full (frame 3) q n
push-Pushed_example = push-Pushed full (frame 3) full-IsValid

run_refines_example :
    run full default_frame script ≡ some (abstract_run 2 (frame 1 ∷ frame 2 ∷ []) script)
run_refines_example = run_refines script full default_frame full-IsValid

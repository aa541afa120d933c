-- ===== src/Network/FrameQueue/Run.antt =====
-- network/FrameQueue.cpp: any sequence of calls, against the list of the queued frames.
use aeb_node.Prelude.{
  ℕ, ◌+◌, ◌-◌, ◌≡◌, refl, ap, ◌∙◌, sym, Bool, List, [], ◌∷◌, ◌++◌, Option, some, none, length,
  arith, if◌then◌else◌, >>=-eq_of_some, ◌>>=◌,
}
use aeb_node.Types.{ScanFrame}
use aeb_node.Network.FrameQueue.{FrameQueue, push, pop, clear}
use aeb_node.Network.FrameQueue.Invariant.{
  IsValid, recycle_locked-Recycled, pop-IsValid, clear-IsValid,
}
use aeb_node.Network.FrameQueue.Refine.{latest, push-Pushed}

-- What a client asks of the queue, and what it sees of each call.
pub data Op : Type 0 where
  pushes : ScanFrame → Op
  pops clears : Op

pub data Reply : Type 0 where
  evicted : ℕ → Reply
  popped : Option ScanFrame → Reply
  cleared : Reply

-- The abstract queue: the list of its frames, oldest first, cut to the newest `capacity`.
abbrev abstract_step : ℕ → List ScanFrame → Op → List ScanFrame × Reply
abstract_step capacity xs (pushes f) =
    (latest capacity (xs ++ (f ∷ [])), evicted (length xs + 1 - capacity))
abstract_step capacity [] pops = ([], popped none)
abstract_step capacity (x ∷ xs) pops = (xs, popped (some x))
abstract_step capacity xs clears = ([], cleared)

pub abstract_run : ℕ → List ScanFrame → List Op → List Reply
abstract_run capacity xs [] = []
abstract_run capacity xs (o ∷ ops) =
    let (xs', r) = abstract_step capacity xs o in r ∷ abstract_run capacity xs' ops

-- The code: `out` is the frame object that the caller passes to every `pop`.
abbrev step : FrameQueue → ScanFrame → Op → Option (FrameQueue × ScanFrame × Reply)
step q out (pushes f) = push q f >>= λ r. some (r.0, out, evicted r.1)
step q out pops =
    let (b, q', out') = pop q out in some (q', out', popped (if b then some out' else none))
step q out clears = some (clear q, out, cleared)

unfoldable pub run : FrameQueue → ScanFrame → List Op → Option (List Reply)
run q out [] = some []
run q out (o ∷ ops) = do (q', out', r) ← step q out o; rs ← run q' out' ops; some (r ∷ rs)

-- One call, seen from outside.
record Agrees (q : FrameQueue) (out : ScanFrame) (o : Op) : Type 0 where
  next : FrameQueue
  out_after : ScanFrame
  stepped : step q out o ≡ some (next, out_after, (abstract_step q.capacity q.queue o).1)
  valid : IsValid next
  same_capacity : next.capacity ≡ q.capacity
  contents : next.queue ≡ (abstract_step q.capacity q.queue o).0

abstract_clear :
    (n : ℕ) (xs : List ScanFrame)
    → ((abstract_step n xs clears).0 ≡ []) × ((abstract_step n xs clears).1 ≡ cleared)
abstract_clear n [] = (refl, refl)
abstract_clear n (x ∷ xs) = (refl, refl)

abbrev pop_reply : Bool × FrameQueue × ScanFrame → Reply
pop_reply r = popped (if r.0 then some r.2 else none)

pop-reply :
    (q : FrameQueue) (out : ScanFrame)
    → pop_reply (pop q out) ≡ (abstract_step q.capacity q.queue pops).1
unfolding pop
pop-reply q out = ground arith

pop-contents :
    (q : FrameQueue) (out : ScanFrame)
    → (pop q out).1.queue ≡ (abstract_step q.capacity q.queue pops).0
unfolding pop
pop-contents q out = ground arith

pop-capacity : (q : FrameQueue) (out : ScanFrame) → IsValid q → (pop q out).1.capacity ≡ q.capacity
unfolding pop
pop-capacity q out v = ground (arith, recycle_locked-Recycled q out)

step-Agrees : (q : FrameQueue) (out : ScanFrame) (o : Op) → IsValid q → Agrees q out o
step-Agrees q out (pushes f) v =
    let (q', n, e, p) = push-Pushed q f v in
    record {
      next = q';
      out_after = out;
      stepped = >>=-eq_of_some _ _ e (ap (λ k. some (q', out, evicted k)) p.evicted_count);
      valid = p.valid;
      same_capacity = p.same_capacity;
      contents = p.contents;
    }
step-Agrees q out pops v = record {
  next = (pop q out).1;
  out_after = (pop q out).2;
  stepped = ap (λ r. some ((pop q out).1, (pop q out).2, r)) (pop-reply q out);
  valid = pop-IsValid q out v;
  same_capacity = pop-capacity q out v;
  contents = pop-contents q out;
}
step-Agrees q out clears v =
    let (valid, emptied, kept) = clear-IsValid q v in
    record {
      next = clear q;
      out_after = out;
      stepped = ap (λ r. some (clear q, out, r)) (sym (abstract_clear q.capacity q.queue).1);
      valid = valid;
      same_capacity = kept;
      contents = emptied ∙ sym (abstract_clear q.capacity q.queue).0;
    }

-- No sequence of calls tells a valid queue from the list of its frames: every `pop` yields the oldest
-- frame that was not evicted, unchanged, and no call fails.
pub run_refines :
    (ops : List Op) (q : FrameQueue) (out : ScanFrame)
    → IsValid q
    → run q out ops ≡ some (abstract_run q.capacity q.queue ops)
unfolding run abstract_run
run_refines [] q out v = refl
run_refines (o ∷ ops) q out v =
    let a = step-Agrees q out o v in
    >>=-eq_of_some _ _ a.stepped (
      >>=-eq_of_some _ _
        (run_refines ops a.next a.out_after a.valid
          ∙ ap (λ n. some (abstract_run n a.next.queue ops)) a.same_capacity
          ∙ ap (λ xs. some (abstract_run q.capacity xs ops)) a.contents)
        refl)

-- ===== src/Network/FrameQueue/Refine.antt =====
-- network/FrameQueue.cpp against a list that keeps its newest frames: drop-oldest, in order.
use aeb_node.Prelude.{
  ℕ, suc, ◌+◌, ◌-◌, ◌≤◌, ◌<◌, ◌≡◌, refl, ap, ◌∙◌, sym, List, [], ◌∷◌, ◌++◌, some, length, drop, All,
  arith, length-append, >>=-eq_of_some,
}
use aeb_node.Types.{ScanFrame}
use native.Mathlib.Decide.{dec_lt}
use aeb_node.Network.FrameQueue.{
  FrameQueue, pool_slack, recycle_locked, recycle_front, evict, enqueue, push,
}
use aeb_node.Network.FrameQueue.Invariant.{
  IsValid, Recycled, recycle_locked-Recycled, acquire_locked-Recycled,
}

-- The `capacity` newest of a list that has its oldest at the head.
unfoldable pub latest {ℓ} : {A : Type ℓ} → ℕ → List A → List A
latest capacity xs = drop (length xs - capacity) xs

evict-room :
    (fuel n : ℕ) (q : FrameQueue) → length q.queue < q.capacity → evict (suc fuel) q n ≡ some (q, n)
unfolding evict
evict-room fuel n q h = ground arith

-- The queue after one frame has gone from its front.
abbrev without_front : FrameQueue → ScanFrame → List ScanFrame → FrameQueue
without_front q f rest = recycle_locked (record q { queue = rest }) f

evict-full :
    (fuel n : ℕ) (q : FrameQueue) (f : ScanFrame) (rest : List ScanFrame)
    → q.queue ≡ f ∷ rest
    → q.capacity ≤ length q.queue
    → evict (suc fuel) q n ≡ evict fuel (without_front q f rest) (n + 1)
unfolding evict recycle_front
evict-full fuel n q f rest e h = ground arith

-- What `push` promises.
pub record Pushed (q : FrameQueue) (f : ScanFrame) (q' : FrameQueue) (evicted : ℕ) : Type 0 where
  pub valid : IsValid q'
  pub same_capacity : q'.capacity ≡ q.capacity
  pub contents : q'.queue ≡ latest q.capacity (q.queue ++ (f ∷ []))
  pub evicted_count : evicted ≡ length q.queue + 1 - q.capacity

enqueue_lem :
    (q : FrameQueue) (f : ScanFrame)
    → 1 ≤ q.capacity
    → length q.queue < q.capacity
    → length q.pool ≤ q.capacity + pool_slack
    → All (λ f. f.points ≡ []) q.pool
    → IsValid (enqueue q f)
      × ((enqueue q f).queue ≡ q.queue ++ (f ∷ []))
      × ((enqueue q f).capacity ≡ q.capacity)
unfolding enqueue
enqueue_lem q f r h p c =
    ground (arith, acquire_locked-Recycled q p c, length-append q.queue (f ∷ []))

latest-all {ℓ} : {A : Type ℓ} (n : ℕ) (xs : List A) → length xs ≤ n → latest n xs ≡ xs
unfolding latest
latest-all n xs h = let e : length xs - n ≡ 0 = omega arith in ap (λ k. drop k xs) e

latest-cons {ℓ} :
    {A : Type ℓ} (n : ℕ) (x : A) (xs : List A) → length xs ≡ n → latest n (x ∷ xs) ≡ xs
unfolding latest
latest-cons n x xs h = let e : suc (length xs) - n ≡ 1 = omega arith in ap (λ k. drop k (x ∷ xs)) e

-- `push` with room to spare.
push-room :
    (q : FrameQueue) (f : ScanFrame)
    → IsValid q
    → length q.queue < q.capacity
    → (push q f ≡ some (enqueue q f, 0)) × Pushed q f (enqueue q f) 0
unfolding push
push-room q f v h =
    let (valid, joined, kept) = enqueue_lem q f v.roomy h v.pool_bounded v.pool_cleared in
    (
      >>=-eq_of_some _ _ (evict-room (length q.queue) 0 q h) refl,
      record {
        valid = valid;
        same_capacity = kept;
        contents =
            joined ∙ sym (latest-all q.capacity _ (omega (arith, length-append q.queue (f ∷ []))));
        evicted_count = omega arith;
      },
    )

-- `push` on a full queue.
push-full :
    (q : FrameQueue) (f g : ScanFrame) (rest : List ScanFrame)
    → IsValid q
    → q.queue ≡ g ∷ rest
    → length q.queue ≡ q.capacity
    → let q' = without_front q g rest in
      (push q f ≡ some (enqueue q' f, 1)) × Pushed q f (enqueue q' f) 1
unfolding push
push-full q f g rest v e h =
    let (valid, joined, kept) =
      enqueue_lem q' f (omega (arith, r.same_capacity)) left r.pool_bounded r.pool_cleared in
    (
      >>=-eq_of_some _ _ one_round refl,
      record {
        valid = valid;
        same_capacity = kept ∙ r.same_capacity;
        contents = joined ∙ ap (λ fs. fs ++ (f ∷ [])) r.same_queue ∙ sym newest;
        evicted_count = omega arith;
      },
    )
  where
    q' : FrameQueue
    q' = without_front q g rest

    r : Recycled (record q { queue = rest }) q'
    r = recycle_locked-Recycled (record q { queue = rest }) g v.pool_bounded v.pool_cleared

    were : length q.queue ≡ suc (length rest)
    were = ap length e

    left : length q'.queue < q'.capacity
    left = omega (arith, ap length r.same_queue, r.same_capacity, were)

    one_round : evict (suc (length q.queue)) q 0 ≡ some (q', 1)
    one_round =
        evict-full (length q.queue) 0 q g rest e (omega arith)
        ∙ ap (λ k. evict k q' 1) were
        ∙ evict-room (length rest) 1 q' left

    newest : latest q.capacity (q.queue ++ (f ∷ [])) ≡ rest ++ (f ∷ [])
    newest =
        ap (λ fs. latest q.capacity (fs ++ (f ∷ []))) e
        ∙ latest-cons q.capacity g (rest ++ (f ∷ []))
            (omega (arith, length-append rest (f ∷ []), were))

abbrev Outcome : FrameQueue → ScanFrame → Type 0
Outcome q f =
    (q' : FrameQueue) × (evicted : ℕ) × (push q f ≡ some (q', evicted)) × Pushed q f q' evicted

-- `push` always succeeds: it puts the frame behind the others, and exactly the oldest frames beyond the
-- capacity go, which it counts.
pub push-Pushed :
    (q : FrameQueue) (f : ScanFrame)
    → IsValid q
    → (q' : FrameQueue) × (evicted : ℕ) × (push q f ≡ some (q', evicted)) × Pushed q f q' evicted
push-Pushed q f v = elim (dec_lt (length q.queue) q.capacity) [
  | yes h ↦ let (e, p) = push-room q f v h in (enqueue q f, 0, e, p)
  | no h ↦ overflow q.queue (omega arith) refl
]
  where
    overflow : (fs : List ScanFrame) → q.capacity ≤ length q.queue → q.queue ≡ fs → Outcome q f
    overflow [] h e = absurd (omega (arith, ap length e))
    overflow (g ∷ rest) h e =
        let (r, p) = push-full q f g rest v e (omega arith) in
        (enqueue (without_front q g rest) f, 1, r, p)

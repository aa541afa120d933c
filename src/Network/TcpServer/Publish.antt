-- ===== src/Network/TcpServer/Publish.antt =====
-- network/TcpServer.cpp, publish: what it does on every branch.
use Prim.{tt}
use aeb_node.Prelude.{
  ℕ, zero, suc, ◌+◌, ◌-◌, ◌≡◌, refl, sym, subst, Bool, true, false, not, ◌&&◌, ◌||◌, List, [], ◌∷◌,
  ◌++◌, Option, some, none, length, if◌then◌else◌, ◌>>=◌, ◌==◌, arith, Holds, Holds->>=, Holds-if,
  holds, Succeeds, >>=-eq_of_some, ◌<◌,
}
use aeb_node.Types.{ScanFrame}
use aeb_node.Network.FrameQueue.{FrameQueue, push}
use aeb_node.Network.FrameQueue.Invariant.{IsValid}
use aeb_node.Network.FrameQueue.Refine.{latest, Pushed, push-Pushed}
use aeb_node.Network.ClientSession.{IoResult, count, refused, eintr, eagain, other}
use aeb_node.Network.ClientSession.Progress.{settled}
use aeb_node.Network.WakePipe.{WakePipe, signal, write_loop}
use aeb_node.Network.TcpServer.{TcpServer, publish, count_published, count_dropped, add_64}

-- Does a frame reach the queue?
abbrev pub is_watched : TcpServer → Bool
is_watched s = s.client_connected && s.running

-- How many frames a call loses: the frame itself if nobody watches, else those that the queue gives up.
abbrev pub lost : TcpServer → ℕ
lost s = if is_watched s then length s.queue.queue + 1 - s.queue.capacity else 1

abbrev pub count_lost : ℕ → ℕ → ℕ
count_lost n dropped = if n == 0 then dropped else add_64 dropped n

-- What `publish` leaves behind, on the answers `rs` to the wakeup.
pub record Published (rs : List IoResult) (f : ScanFrame) (s s' : TcpServer) : Type 0 where
  pub same_rest : s' ≡ record s {
    queue = s'.queue;
    wake = s'.wake;
    stats = record s.stats {
      frames_published = s'.stats.frames_published;
      frames_dropped = s'.stats.frames_dropped;
    };
  }
  pub woken : (if is_watched s then signal rs s.wake else some s.wake) ≡ some s'.wake
  pub idle_queue : (if is_watched s then s.queue else s'.queue) ≡ s.queue
  pub contents : s'.queue.queue ≡ (
      if is_watched s then latest s.queue.capacity (s.queue.queue ++ (f ∷ [])) else s.queue.queue)
  pub queue_valid : IsValid s'.queue
  pub same_session : s'.session ≡ s.session
  pub same_connected : s'.client_connected ≡ s.client_connected
  pub same_running : s'.running ≡ s.running
  pub same_joinable : s'.joinable ≡ s.joinable
  pub same_connects : s'.stats.client_connects ≡ s.stats.client_connects
  pub same_disconnects : s'.stats.client_disconnects ≡ s.stats.client_disconnects
  pub same_mirror : s'.stats.client_connected ≡ s.stats.client_connected
  pub published : s'.stats.frames_published ≡ add_64 s.stats.frames_published 1
  pub dropped : s'.stats.frames_dropped ≡ count_lost (lost s) s.stats.frames_dropped

-- The branch with a viewer.
after_push :
    (rs : List IoResult) (s : TcpServer) (f : ScanFrame) (q : FrameQueue) (n : ℕ)
    → Pushed s.queue f q n
    → is_watched s ≡ true
    → Holds (Published rs f s) (do
      w ← signal rs s.wake
      some (record (if n == 0 then count_published s else count_dropped n (count_published s)) {
        queue = q;
        wake = w;
      }))
after_push rs s f q n p e = signalled (signal rs s.wake) refl
  where
    signalled :
        (m : Option WakePipe)
        → signal rs s.wake ≡ m
        → Holds (Published rs f s) (
            m >>= λ w.
            some
              (record (if n == 0 then count_published s else count_dropped n (count_published s)) {
                queue = q;
                wake = w;
              }))
    signalled none h = tt
    signalled (some w) h = ground (arith, p.contents, p.evicted_count, p.valid, e, h)

pub publish-Holds :
    (rs : List IoResult) (f : ScanFrame) (s : TcpServer)
    → IsValid s.queue
    → Holds (Published rs f s) (publish rs f s)
unfolding publish
publish-Holds rs f s v =
    Holds-if (Published rs f s) (not s.client_connected || not s.running) _ _ (λ e. ground arith)
      (λ e.
        let (q, n, eq, p) = push-Pushed s.queue f v in
        Holds->>= (λ r. Pushed s.queue f r.0 r.1) (Published rs f s) (push s.queue f) _
          (subst (Holds (λ r. Pushed s.queue f r.0 r.1)) (sym eq) p)
          (λ r p. after_push rs s f r.0 r.1 p (ground arith)))

-- A wakeup returns once the system has answered without being interrupted.
write_loop_ends :
    (rs : List IoResult) (w : WakePipe)
    → 0 < settled rs
    → (w' : WakePipe) × (write_loop rs w ≡ some w')
unfolding write_loop
write_loop_ends [] w h = absurd (omega arith)
write_loop_ends (refused eintr ∷ rs) w h = write_loop_ends rs w h
write_loop_ends (refused eagain ∷ rs) w h = (_, refl)
write_loop_ends (refused (other e) ∷ rs) w h = (_, refl)
write_loop_ends (count zero ∷ rs) w h = (_, refl)
write_loop_ends (count (suc n) ∷ rs) w h = (_, refl)

pub signal_ends :
    (rs : List IoResult) (w : WakePipe) → 0 < settled rs → (w' : WakePipe) × (signal rs w ≡ some w')
unfolding signal
signal_ends rs w h = by_end w.write_end w.pending
  where
    by_end :
        (fd : Option ℕ) (pending : Bool)
        → (w' : WakePipe) × ((elim fd [
          | none ↦ some w
          | some d ↦ if pending then some w else write_loop rs (record w { pending = true })
        ])
            ≡ some w')
    by_end none b = (w, refl)
    by_end (some d) true = (w, refl)
    by_end (some d) false = write_loop_ends rs (record w { pending = true }) h

publish_ends :
    (rs : List IoResult) (f : ScanFrame) (s : TcpServer)
    → IsValid s.queue
    → 0 < settled rs
    → Succeeds (publish rs f s)
unfolding publish
publish_ends rs f s v h = by_watch (not s.client_connected || not s.running)
  where
    by_watch :
        (b : Bool)
        → Succeeds (
            if b then some (count_dropped 1 (count_published s)) else do
              (q, dropped) ← push s.queue f
              w ← signal rs s.wake
              some
                  (record (if dropped == 0
                    then count_published s
                    else count_dropped dropped (count_published s)) { queue = q; wake = w }))
    by_watch true = (_, refl)
    by_watch false =
        let (q, n, eq, p) = push-Pushed s.queue f v in
        let (w, ew) = signal_ends rs s.wake h in
        (_, >>=-eq_of_some (push s.queue f) _ eq (>>=-eq_of_some (signal rs s.wake) _ ew refl))

pub publish-Published :
    (rs : List IoResult) (f : ScanFrame) (s : TcpServer)
    → IsValid s.queue
    → 0 < settled rs
    → (s' : TcpServer) × (publish rs f s ≡ some s') × Published rs f s s'
publish-Published rs f s v h =
    let (s', e) = publish_ends rs f s v h in
    (s', e, holds (Published rs f s) (publish rs f s) (publish-Holds rs f s v) e)

-- ===== src/Network/WakePipe/Wakeup.antt =====
-- No wakeup is lost between the threads (network/WakePipe.hpp).
use aeb_node.Prelude.{
  ℕ, ◌<◌, ◌≡◌, ◌≢◌, ◌⊎◌, inl, inr, refl, sym, ap, ◌∙◌, arith, Bool, true, false, Bool-cases,
}
use mathlib.Core.Bool.{false≢true}
use aeb_node.Network.WakePipe.Threads.{
  outside, before_exchange, before_write, IoPhase, polling, reading, before_store, before_look,
  Threads, exchange, write_byte, write_fails, read_bytes, read_nothing, store_false, Step,
  lays_down, exchanges, writes, write_refused, wakes, socket_ready, reads, reads_nothing, stores,
  looks, Reach, start, further, Leads, here, after,
}

-- A thread is about to write.
abbrev Writer : Threads → Type 0
Writer s = (i : ℕ) × (s.phase i ≡ before_write)

-- A thread is inside of signal.
abbrev Signaller : Threads → Type 0
Signaller s = (i : ℕ) × (s.phase i ≢ outside)

abbrev in_drain : IoPhase → Bool
in_drain polling = false
in_drain reading = true
in_drain before_store = true
in_drain before_look = false

-- A pending wakeup is an octet in the pipe, or about to be, or one that drain has read; news that poll
-- waits on has an octet in the pipe, or a thread inside of signal.
record IsHeard (s : Threads) : Type 0 where
  flagged : s.pending ≡ true → in_drain s.io ≡ false → (0 < s.bytes) ⊎ Writer s
  heard : s.news ≡ true → s.io ≡ polling → (0 < s.bytes) ⊎ Signaller s

signaller : (s : Threads) → (0 < s.bytes) ⊎ Writer s → (0 < s.bytes) ⊎ Signaller s
signaller s (inl b) = inl b
signaller s (inr (i, w)) = inr (i, λ q. before_write-ne-outside (sym w ∙ q))
  where
    before_write-ne-outside : before_write ≢ outside
    before_write-ne-outside e = cc

-- After the exchange, the octet is in the pipe already or a thread is about to write.
exchange-heard :
    (i : ℕ) (s : Threads)
    → s.phase i ≡ before_exchange
    → IsHeard s
    → in_drain s.io ≡ false
    → (0 < s.bytes) ⊎ Writer (exchange i s)
unfolding exchange
exchange-heard i s e h d = elim (Bool-cases s.pending) [
  | inl p ↦ elim (h.flagged p d) [ inl b ↦ inl b | inr (j, w) ↦ inr (j, ground (arith, e, w)) ]
  | inr p ↦ inr (i, ground (arith, p))
]

Step-IsHeard : {s t : Threads} → Step s t → IsHeard s → IsHeard t
unfolding exchange write_byte write_fails read_bytes read_nothing store_false
Step-IsHeard (lays_down i s e) h = record {
  flagged =
      λ p d. elim (h.flagged p d) [ inl b ↦ inl b | inr (j, w) ↦ inr (j, ground (arith, e, w)) ];
  heard = λ n p. inr (i, λ q. ground (arith, q));
}
Step-IsHeard (exchanges i s e) h = record {
  flagged = λ p d. exchange-heard i s e h d;
  heard = λ n p. signaller (exchange i s) (exchange-heard i s e h (ap in_drain p));
}
Step-IsHeard (writes i s e) h = record {
  flagged = λ p d. inl (omega arith);
  heard = λ n p. inl (omega arith);
}
Step-IsHeard (write_refused i s e b) h = record { flagged = λ p d. inl b; heard = λ n p. inl b }
Step-IsHeard (wakes s e b) h = record { flagged = λ p d. cc; heard = λ n p. cc }
Step-IsHeard (socket_ready s e) h = record {
  flagged = λ p d. h.flagged p (ap in_drain e);
  heard = λ n p. cc;
}
Step-IsHeard (reads n s e a b) h = record {
  flagged = λ p d. absurd (false≢true (sym d ∙ ap in_drain e));
  heard = λ n p. cc;
}
Step-IsHeard (reads_nothing s e b) h = record { flagged = λ p d. cc; heard = λ n p. cc }
Step-IsHeard (stores s e) h = record { flagged = λ p d. cc; heard = λ n p. cc }
Step-IsHeard (looks s e) h = record {
  flagged = λ p d. h.flagged p (ap in_drain e);
  heard = λ n p. cc;
}

reachable-IsHeard : (s : Threads) → Reach s → IsHeard s
reachable-IsHeard s start = record { flagged = λ p d. cc; heard = λ n p. cc }
reachable-IsHeard s (further r t h step) = Step-IsHeard step (reachable-IsHeard r h)

-- From poll, with an octet in the pipe, the I/O thread empties the pipe and looks.
drain-Leads :
    (s : Threads)
    → s.io ≡ polling
    → 0 < s.bytes
    → (t : Threads) × Leads s t × (t.news ≡ false) × (t.bytes ≡ 0)
unfolding read_bytes read_nothing store_false
drain-Leads s p b = (
  _,
  after s _ _ (wakes s p b) (
      after _ _ _ (reads s.bytes (record s { io = reading }) refl b (omega arith)) (
        after _ _ _
          (reads_nothing (read_bytes s.bytes (record s { io = reading })) refl (omega arith))
          (after _ _ _ (stores _ refl) (after _ _ _ (looks _ refl) (here _))))),
  refl,
  omega arith,
)

-- No wakeup is lost, however the atomic operations and system calls of any number of signalling threads
-- and of the I/O thread interleave: when the I/O thread waits in poll while there is news that it has not
-- looked at, and no thread is inside of signal, the pipe holds an octet, and the I/O thread can go on to
-- empty the pipe and look.
pub no_lost_wakeup :
    (s : Threads)
    → Reach s
    → s.news ≡ true
    → s.io ≡ polling
    → ((i : ℕ) → s.phase i ≡ outside)
    → (0 < s.bytes) × ((t : Threads) × Leads s t × (t.news ≡ false) × (t.bytes ≡ 0))
no_lost_wakeup s r n p quiet = elim ((reachable-IsHeard s r).heard n p) [
  | inl b ↦ (b, drain-Leads s p b)
  | inr (i, inside) ↦ absurd (inside (quiet i))
]

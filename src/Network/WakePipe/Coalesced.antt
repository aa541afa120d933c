-- ===== src/Network/WakePipe/Coalesced.antt =====
-- How many octets signal puts into the pipe (network/WakePipe.hpp).
use mathlib.Core.Bool.{false≢true}
use aeb_node.Prelude.{
  ℕ, ◌≤◌, ◌<◌, ◌≡◌, ◌≢◌, refl, sym, ◌∙◌, arith, Bool, true, false, if◌then◌else◌, subst,
}
use aeb_node.Network.WakePipe.Threads.{
  Phase, outside, before_exchange, before_write, IoPhase, polling, reading, before_store,
  before_look, Threads, at_phase, exchange, write_byte, read_bytes, read_nothing, store_false, Step,
  lays_down, exchanges, writes, write_refused, wakes, socket_ready, reads, reads_nothing, stores,
  looks, Reach, start, further,
}

-- One thread at most is about to write, and then the pipe is empty; the flag is set while a thread is
-- about to write, while the pipe holds an octet, and until the end of drain.
record IsCoalesced (s : Threads) : Type 0 where
  one_writer : (i j : ℕ) → s.phase i ≡ before_write → s.phase j ≡ before_write → i ≡ j
  writer_flagged : (i : ℕ) → s.phase i ≡ before_write → s.pending ≡ true
  writer_alone : (i : ℕ) → s.phase i ≡ before_write → s.bytes ≡ 0
  one_byte : s.bytes ≤ 1
  byte_flagged : 0 < s.bytes → s.pending ≡ true
  reading_flagged : s.io ≡ reading → s.pending ≡ true
  reading_alone : (i : ℕ) → s.io ≡ reading → s.phase i ≢ before_write
  store_alone : (i : ℕ) → s.io ≡ before_store → s.phase i ≢ before_write
  store_flagged : s.io ≡ before_store → s.pending ≡ true
  store_empty : s.io ≡ before_store → s.bytes ≡ 0

-- Who is about to write after a thread went on to another phase.
still_writer :
    (f : ℕ → Phase) (i j : ℕ) (p : Phase)
    → p ≢ before_write
    → at_phase f i p j ≡ before_write
    → f j ≡ before_write
still_writer f i j p h e = ground (arith, h, e)

-- A thread goes on, from where it does not write to where it does not.
moved-IsCoalesced :
    (i : ℕ) (p : Phase) (s : Threads)
    → p ≢ before_write
    → IsCoalesced s
    → IsCoalesced (record s { phase = at_phase s.phase i p })
moved-IsCoalesced i p s d h = record {
  one_writer =
      λ j k e f. h.one_writer j k (still_writer s.phase i j p d e) (still_writer s.phase i k p d f);
  writer_flagged = λ j e. h.writer_flagged j (still_writer s.phase i j p d e);
  writer_alone = λ j e. h.writer_alone j (still_writer s.phase i j p d e);
  one_byte = h.one_byte;
  byte_flagged = h.byte_flagged;
  reading_flagged = h.reading_flagged;
  reading_alone = λ j r e. h.reading_alone j r (still_writer s.phase i j p d e);
  store_alone = λ j r e. h.store_alone j r (still_writer s.phase i j p d e);
  store_flagged = h.store_flagged;
  store_empty = h.store_empty;
}

-- The flag was clear: the thread becomes the only one about to write.
won-IsCoalesced :
    (i : ℕ) (s : Threads)
    → s.pending ≡ false
    → IsCoalesced s
    → IsCoalesced (record s { phase = at_phase s.phase i before_write; pending = true })
won-IsCoalesced i s e h = record {
  one_writer = λ j k p q. sym (only j p) ∙ only k q;
  writer_flagged = λ j p. refl;
  writer_alone = λ j p. ground (arith, e, h.byte_flagged);
  one_byte = h.one_byte;
  byte_flagged = λ p. refl;
  reading_flagged = λ r. refl;
  reading_alone = λ j r p. absurd (false≢true (sym e ∙ h.reading_flagged r));
  store_alone = λ j r p. absurd (false≢true (sym e ∙ h.store_flagged r));
  store_flagged = λ r. refl;
  store_empty = h.store_empty;
}
  where
    only : (j : ℕ) → at_phase s.phase i before_write j ≡ before_write → i ≡ j
    only j p = ground (arith, p, e, h.writer_flagged j)

exchange-IsCoalesced :
    (i : ℕ) (s : Threads) → s.phase i ≡ before_exchange → IsCoalesced s → IsCoalesced (exchange i s)
unfolding exchange
exchange-IsCoalesced i s e h = by_flag s.pending refl
  where
    by_flag :
        (b : Bool)
        → s.pending ≡ b
        → IsCoalesced (record s {
          phase = at_phase s.phase i (if b then outside else before_write);
          pending = true;
        })
    by_flag true p =
        subst (λ q. IsCoalesced (record s { phase = at_phase s.phase i outside; pending = q })) p
          (moved-IsCoalesced i outside s (λ d. cc) h)
    by_flag false p = won-IsCoalesced i s p h

write-IsCoalesced :
    (i : ℕ) (s : Threads) → s.phase i ≡ before_write → IsCoalesced s → IsCoalesced (write_byte i s)
unfolding write_byte
write-IsCoalesced i s e h = record {
  one_writer = λ j k p q. absurd (none_left j p);
  writer_flagged = λ j p. absurd (none_left j p);
  writer_alone = λ j p. absurd (none_left j p);
  one_byte = omega (arith, h.writer_alone i e);
  byte_flagged = λ p. h.writer_flagged i e;
  reading_flagged = h.reading_flagged;
  reading_alone = λ j r p. none_left j p;
  store_alone = λ j r p. none_left j p;
  store_flagged = h.store_flagged;
  store_empty = λ r. absurd (h.store_alone i r e);
}
  where
    none_left : (j : ℕ) → at_phase s.phase i outside j ≢ before_write
    none_left j p =
        let w = still_writer s.phase i j outside (λ d. cc) p in
        ground (arith, p, h.one_writer i j e w)

-- The I/O thread goes on, to where what drain relies on holds.
io-IsCoalesced :
    (io : IoPhase) (news : Bool) (s : Threads)
    → IsCoalesced s
    → (io ≡ reading → (s.pending ≡ true) × ((i : ℕ) → s.phase i ≢ before_write))
    → (io ≡ before_store
        → (s.pending ≡ true) × ((i : ℕ) → s.phase i ≢ before_write) × (s.bytes ≡ 0))
    → IsCoalesced (record s { io = io; news = news })
io-IsCoalesced io news s h k l = record {
  one_writer = h.one_writer;
  writer_flagged = h.writer_flagged;
  writer_alone = h.writer_alone;
  one_byte = h.one_byte;
  byte_flagged = h.byte_flagged;
  reading_flagged = λ r. (k r).0;
  reading_alone = λ i r. (k r).1 i;
  store_alone = λ i r. (l r).1 i;
  store_flagged = λ r. (l r).0;
  store_empty = λ r. (l r).2;
}

read-IsCoalesced :
    (n : ℕ) (s : Threads) → s.io ≡ reading → IsCoalesced s → IsCoalesced (read_bytes n s)
unfolding read_bytes
read-IsCoalesced n s e h = record {
  one_writer = h.one_writer;
  writer_flagged = h.writer_flagged;
  writer_alone = λ i p. absurd (h.reading_alone i e p);
  one_byte = omega (arith, h.one_byte);
  byte_flagged = λ p. h.reading_flagged e;
  reading_flagged = h.reading_flagged;
  reading_alone = h.reading_alone;
  store_alone = h.store_alone;
  store_flagged = h.store_flagged;
  store_empty = λ r. omega (arith, h.store_empty r);
}

store-IsCoalesced :
    (s : Threads) → s.io ≡ before_store → IsCoalesced s → IsCoalesced (store_false s)
unfolding store_false
store-IsCoalesced s e h = record {
  one_writer = h.one_writer;
  writer_flagged = λ i p. absurd (h.store_alone i e p);
  writer_alone = h.writer_alone;
  one_byte = h.one_byte;
  byte_flagged = λ p. absurd (omega (arith, p, h.store_empty e));
  reading_flagged = λ r. cc;
  reading_alone = λ i r. cc;
  store_alone = λ i r. cc;
  store_flagged = λ r. cc;
  store_empty = λ r. h.store_empty e;
}

Step-IsCoalesced : {s t : Threads} → Step s t → IsCoalesced s → IsCoalesced t
unfolding read_nothing
Step-IsCoalesced (lays_down i s e) h =
    let k = moved-IsCoalesced i before_exchange s (λ d. cc) h in
    io-IsCoalesced s.io true (record s { phase = at_phase s.phase i before_exchange }) k
      (λ r. (k.reading_flagged r, λ j. k.reading_alone j r))
      (λ r. (k.store_flagged r, (λ j. k.store_alone j r), k.store_empty r))
Step-IsCoalesced (exchanges i s e) h = exchange-IsCoalesced i s e h
Step-IsCoalesced (writes i s e) h = write-IsCoalesced i s e h
Step-IsCoalesced (write_refused i s e b) h = absurd (omega (arith, h.writer_alone i e))
Step-IsCoalesced (wakes s e b) h =
    io-IsCoalesced reading s.news s h
      (λ r. (h.byte_flagged b, λ i w. absurd (omega (arith, b, h.writer_alone i w)))) (λ r. cc)
Step-IsCoalesced (socket_ready s e) h = io-IsCoalesced before_look s.news s h (λ r. cc) (λ r. cc)
Step-IsCoalesced (reads n s e a b) h = read-IsCoalesced n s e h
Step-IsCoalesced (reads_nothing s e b) h =
    io-IsCoalesced before_store s.news s h (λ r. cc)
      (λ r. (h.reading_flagged e, (λ i. h.reading_alone i e), b))
Step-IsCoalesced (stores s e) h = store-IsCoalesced s e h
Step-IsCoalesced (looks s e) h = io-IsCoalesced polling false s h (λ r. cc) (λ r. cc)

reachable-IsCoalesced : (s : Threads) → Reach s → IsCoalesced s
reachable-IsCoalesced s start = record {
  one_writer = λ i j p q. cc;
  writer_flagged = λ i p. cc;
  writer_alone = λ i p. refl;
  one_byte = omega arith;
  byte_flagged = λ p. absurd (omega (arith, p));
  reading_flagged = λ r. cc;
  reading_alone = λ i r. cc;
  store_alone = λ i r. cc;
  store_flagged = λ r. cc;
  store_empty = λ r. refl;
}
reachable-IsCoalesced s (further r t h step) = Step-IsCoalesced step (reachable-IsCoalesced r h)

-- Signals coalesce, however the atomic operations and system calls of any number of signalling threads
-- and of the I/O thread interleave: the pipe never holds more than one octet, and a thread that is about
-- to write finds it empty, is the only one, and so is not refused for a full pipe.
pub at_most_one_byte :
    (s : Threads)
    → Reach s
    → (s.bytes ≤ 1)
      × ((i : ℕ) → s.phase i ≡ before_write → s.bytes ≡ 0)
      × ((i j : ℕ) → s.phase i ≡ before_write → s.phase j ≡ before_write → i ≡ j)
at_most_one_byte s r =
    let h = reachable-IsCoalesced s r in (h.one_byte, h.writer_alone, h.one_writer)

-- ===== src/Network/WakePipe/Threads.antt =====
-- network/WakePipe.hpp with signal and drain taken apart at their atomic operations and system calls,
-- between threads that signal and the I/O thread of network/TcpServer.cpp, which waits in poll.
use aeb_node.Prelude.{ℕ, ◌+◌, ◌-◌, ◌≤◌, ◌<◌, ◌≡◌, Bool, true, false, if◌then◌else◌, ◌==◌}

-- Where a signalling thread stands: outside of signal, before the exchange with its news already laid
-- down (a frame queued, a stop requested), or before the write.
pub data Phase : Type 0 where
  outside before_exchange before_write : Phase

-- Where the I/O thread stands: in poll, in the loop of drain, before the store that ends drain, or before
-- it looks for news.
pub data IoPhase : Type 0 where
  polling reading before_store before_look : IoPhase

-- `news` tells whether something was laid down since the I/O thread last looked.
pub record Threads : Type 0 where
  pub phase : ℕ → Phase
  pub io : IoPhase
  pub pending : Bool
  pub bytes : ℕ
  pub news : Bool

abbrev pub at_phase : (ℕ → Phase) → ℕ → Phase → ℕ → Phase
at_phase f i p j = if i == j then p else f j

-- `pending_.exchange(true)`
unfoldable pub exchange : ℕ → Threads → Threads
exchange i s = record s {
  phase = at_phase s.phase i (if s.pending then outside else before_write);
  pending = true;
}

-- A `write` that succeeds, and one that does not, after which the flag is cleared.
unfoldable pub write_byte : ℕ → Threads → Threads
write_byte i s = record s { phase = at_phase s.phase i outside; bytes = s.bytes + 1 }

unfoldable pub write_fails : ℕ → Threads → Threads
write_fails i s = record s { phase = at_phase s.phase i outside; pending = false }

-- A `read` of `n` octets, and the one that finds none.
unfoldable pub read_bytes : ℕ → Threads → Threads
read_bytes n s = record s { bytes = s.bytes - n }

unfoldable pub read_nothing : Threads → Threads
read_nothing s = record s { io = before_store }

-- `pending_.store(false)` at the end of drain
unfoldable pub store_false : Threads → Threads
store_false s = record s { pending = false; io = before_look }

-- The steps, in any order. A write fails only on a full pipe; poll also returns for a socket, and then
-- drain is not called.
pub data Step : Threads → Threads → Type 0 where
  lays_down :
      (i : ℕ) (s : Threads)
      → s.phase i ≡ outside
      → Step s (record s { phase = at_phase s.phase i before_exchange; news = true })
  exchanges : (i : ℕ) (s : Threads) → s.phase i ≡ before_exchange → Step s (exchange i s)
  writes : (i : ℕ) (s : Threads) → s.phase i ≡ before_write → Step s (write_byte i s)
  write_refused :
      (i : ℕ) (s : Threads) → s.phase i ≡ before_write → 0 < s.bytes → Step s (write_fails i s)
  wakes : (s : Threads) → s.io ≡ polling → 0 < s.bytes → Step s (record s { io = reading })
  socket_ready : (s : Threads) → s.io ≡ polling → Step s (record s { io = before_look })
  reads : (n : ℕ) (s : Threads) → s.io ≡ reading → 0 < n → n ≤ s.bytes → Step s (read_bytes n s)
  reads_nothing : (s : Threads) → s.io ≡ reading → s.bytes ≡ 0 → Step s (read_nothing s)
  stores : (s : Threads) → s.io ≡ before_store → Step s (store_false s)
  looks : (s : Threads) → s.io ≡ before_look → Step s (record s { io = polling; news = false })

abbrev pub at_rest : Threads
at_rest = record {
  phase = λ i. outside;
  io = before_look;
  pending = false;
  bytes = 0;
  news = false;
}

pub data Reach : Threads → Type 0 where
  start : Reach at_rest
  further : (s t : Threads) → Reach s → Step s t → Reach t

-- Steps that lead from one state to another.
pub data Leads : Threads → Threads → Type 0 where
  here : (s : Threads) → Leads s s
  after : (s t u : Threads) → Step s t → Leads t u → Leads s u

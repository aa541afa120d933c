-- ===== src/Network/ClientSession.antt =====
-- network/ClientSession.hpp and network/ClientSession.cpp: accept, pollEvents, pump, drainInput and close.
-- What the kernel answers to `send` and `recv` is the environment's: a list of answers, one for each
-- call. `sent` is what the socket has accepted so far, in order.
pub mod Stream
pub mod Progress
pub mod Kept
mod Tests
use aeb_node.Prelude.{
  ℕ, zero, suc, ◌+◌, ◌-◌, ◌%◌, ◌^◌, Bool, true, false, List, [], ◌∷◌, ◌++◌, Option, none, some,
  ◌||◌, not, length, take, drop, ltb, leb, ◌==◌, if◌then◌else◌,
}
use aeb_node.Types.{ScanFrame, default_frame}
use aeb_node.Protocol.Octets.{Bytes}
use aeb_node.Protocol.Encoder.{encode}
use aeb_node.Network.FrameQueue.{FrameQueue, pop}
use aeb_node.Network.Message.{Message, accept_failed, client_nonblocking_failed}

pub data SessionResult : Type 0 where
  progressed blocked closed failed : SessionResult

-- `errno`; EWOULDBLOCK is EAGAIN on Linux.
pub data Errno : Type 0 where
  eintr eagain : Errno
  other : ℕ → Errno

-- An answer of `send` or `recv`: a count, 0 included, or -1 with `errno`.
pub data IoResult : Type 0 where
  count : ℕ → IoResult
  refused : Errno → IoResult

pub record SessionProgress : Type 0 where
  pub bytes_sent : ℕ
  pub frames_sent : ℕ

abbrev pub no_progress : SessionProgress
no_progress = record { bytes_sent = 0; frames_sent = 0 }

-- `socket` is the descriptor, `none` for the empty session's -1.
pub record ClientSession : Type 0 where
  pub socket : Option ℕ
  pub send_buffer : Bytes
  pub send_offset : ℕ
  pub staging : ScanFrame

abbrev pub no_session : ClientSession
no_session = record { socket = none; send_buffer = []; send_offset = 0; staging = default_frame }

-- The constructor from an accepted socket.
abbrev pub adopt : ℕ → ClientSession
adopt fd = record { socket = some fd; send_buffer = []; send_offset = 0; staging = default_frame }

abbrev pub valid : ClientSession → Bool
valid s = elim s.socket [ none ↦ false | some fd ↦ true ]

-- `pollEvents`: is POLLOUT among the events? POLLIN always is.
unfoldable pub polls_output : ClientSession → Bool → Bool
polls_output s has_pending_frames = has_pending_frames || ltb s.send_offset (length s.send_buffer)

unfoldable pub close : ClientSession → ClientSession
close s = record s { socket = none; send_buffer = []; send_offset = 0 }

-- What a pump works on: the session, the queue, the counters and what the socket has accepted.
pub record Pump : Type 0 where
  pub session : ClientSession
  pub queue : FrameQueue
  pub progress : SessionProgress
  pub sent : Bytes

-- The test at the top of the loop: `none` is the return with nothing left to send.
pub refill : Pump → Option Pump
refill p =
    if leb (length s.send_buffer) s.send_offset
    then (let (got, q, staging) = pop p.queue s.staging in
        if got
        then some (record p {
          session = record s { staging = staging; send_buffer = encode staging; send_offset = 0 };
          queue = q;
        })
        else none)
    else some p
  where
    open p use {session as s}

-- `send` accepted the next `n` octets of the buffer, `n` above 0.
pub advance : Pump → ℕ → Pump
advance p n = record p {
  session = record s { send_offset = s.send_offset + n };
  progress = record {
    bytes_sent = (p.progress.bytes_sent + n) % 2 ^ 64;
    frames_sent =
        if leb (length s.send_buffer) (s.send_offset + n)
        then (p.progress.frames_sent + 1) % 2 ^ 64
        else p.progress.frames_sent;
  };
  sent = p.sent ++ take n (drop s.send_offset s.send_buffer);
}
  where
    open p use {session as s}

-- One round of the loop with the answer of its `send`: go on, or return a result.
pub data Round : Type 0 where
  again : Pump → Round
  returns : SessionResult → Pump → Round

pub answer : IoResult → Pump → Round
answer (count zero) p = returns failed p
answer (count (suc n)) p = again (advance p (suc n))
answer (refused eintr) p = again p
answer (refused eagain) p = returns blocked p
answer (refused (other e)) p = returns failed p

-- The loop of `pump`. `none`: the answers end before the call returns.
pub pump_loop : List IoResult → Pump → Option (SessionResult × Pump)
pump_loop [] p = elim (refill p) [ none ↦ some (progressed, p) | some p' ↦ none ]
pump_loop (r ∷ rs) p = elim (refill p) [
  | none ↦ some (progressed, p)
  | some p' ↦ elim (answer r p') [ again p'' ↦ pump_loop rs p'' | returns s p'' ↦ some (s, p'') ]
]

unfoldable pub pump : List IoResult → Pump → Option (SessionResult × Pump)
unfolding pump_loop
pump rs p = if not (valid p.session) then some (failed, p) else pump_loop rs p

-- `drainInput`, on the answers of `recv`; `none` as above.
unfoldable pub drain_loop : List IoResult → Option SessionResult
drain_loop [] = none
drain_loop (count zero ∷ rs) = some closed
drain_loop (count (suc n) ∷ rs) = drain_loop rs
drain_loop (refused eintr ∷ rs) = drain_loop rs
drain_loop (refused eagain ∷ rs) = some progressed
drain_loop (refused (other e) ∷ rs) = some failed

unfoldable pub drain_input : List IoResult → ClientSession → Option SessionResult
unfolding drain_loop
drain_input rs s = if not (valid s) then some failed else drain_loop rs

-- What the system says to one round of `accept`: no connection, or a socket and whether it could be
-- made non-blocking.
pub data AcceptResult : Type 0 where
  no_connection : Errno → AcceptResult
  connection : ℕ → Bool → AcceptResult

-- `accept(listen_fd, config, error)`: the session, and what failed. The options that
-- `applySocketOptions` sets change no state of the program. `none` as above.
unfoldable pub accept : List AcceptResult → Option Message → Option (ClientSession × Option Message)
accept [] error = none
accept (no_connection eintr ∷ rs) error = accept rs error
accept (no_connection eagain ∷ rs) error = some (no_session, error)
accept (no_connection (other e) ∷ rs) error = some (no_session, some accept_failed)
accept (connection fd false ∷ rs) error = accept rs (some client_nonblocking_failed)
accept (connection fd true ∷ rs) error = some (adopt fd, error)

-- ===== src/Network/WakePipe.antt =====
-- network/WakePipe.hpp, with FileDescriptor members as optional descriptors.
pub mod Threads
pub mod Wakeup
pub mod Coalesced
mod Tests
use aeb_node.Prelude.{
  ℕ, zero, suc, ◌+◌, ◌-◌, Bool, true, false, ◌&&◌, List, [], ◌∷◌, Option, some, none, if◌then◌else◌,
}
use aeb_node.Network.ClientSession.{IoResult, count, refused, eintr}

-- `in_flight` is the number of octets in the kernel's pipe.
pub record WakePipe : Type 0 where
  pub read_end : Option ℕ
  pub write_end : Option ℕ
  pub pending : Bool
  pub in_flight : ℕ

abbrev pub closed_pipe : WakePipe
closed_pipe = record { read_end = none; write_end = none; pending = false; in_flight = 0 }

-- What the system says to `open`: the two ends of the pipe, if there is one, and whether each could
-- be made non-blocking.
pub record PipeCalls : Type 0 where
  pub ends : Option (ℕ × ℕ)
  pub read_nonblocking : Bool
  pub write_nonblocking : Bool

unfoldable pub open_pipe : PipeCalls → WakePipe → Bool × WakePipe
open_pipe c w = elim c.ends [
  | none ↦ (false, w)
  | some ends ↦
      if c.read_nonblocking && c.write_nonblocking
      then (
        true,
        record {
          read_end = some (ends.0);
          write_end = some (ends.1);
          pending = w.pending;
          in_flight = 0;
        },
      )
      else (false, w)
]

unfoldable pub close_pipe : WakePipe → WakePipe
close_pipe w = record { read_end = none; write_end = none; pending = false; in_flight = 0 }

-- The `write` of `signal`, on the system's answers; `none`: they end before the call returns.
unfoldable pub write_loop : List IoResult → WakePipe → Option WakePipe
write_loop [] w = none
write_loop (refused eintr ∷ rs) w = write_loop rs w
write_loop (refused e ∷ rs) w = some (record w { pending = false })
write_loop (count zero ∷ rs) w = some (record w { pending = false })
write_loop (count (suc n) ∷ rs) w = some (record w { in_flight = w.in_flight + suc n })

unfoldable pub signal : List IoResult → WakePipe → Option WakePipe
unfolding write_loop
signal rs w = elim w.write_end [
  | none ↦ some w
  | some fd ↦ if w.pending then some w else write_loop rs (record w { pending = true })
]

-- The loop of `drain`, on the answers of `read`.
unfoldable pub drain : List IoResult → WakePipe → Option WakePipe
drain [] w = none
drain (count (suc n) ∷ rs) w = drain rs (record w { in_flight = w.in_flight - suc n })
drain (refused eintr ∷ rs) w = drain rs w
drain (count zero ∷ rs) w = some (record w { pending = false })
drain (refused e ∷ rs) w = some (record w { pending = false })

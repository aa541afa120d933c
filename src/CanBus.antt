-- ===== src/CanBus.antt =====
-- canbus/CanMessage.hpp, canbus/CanBus.hpp and canbus/CanBus.cpp. The descriptors that the process holds
-- and the frames that the kernel has taken are explicit.
pub mod Laws
mod Tests
use aeb_node.Prelude.{
  ℕ, ◌+◌, ◌-◌, Bool, true, false, not, List, [], ◌∷◌, ◌++◌, Option, some, none, leb, ◌==◌, take,
  replicate, if◌then◌else◌,
}

-- `kCanMaxDlc`
abbrev pub can_max_dlc : ℕ
can_max_dlc = 8

-- `data` holds the eight octets of the array.
pub record CanMessage : Type 0 where
  pub id : ℕ
  pub dlc : ℕ
  pub data_bytes : List ℕ

abbrev pub new_message : CanMessage
new_message = record { id = 0; dlc = 0; data_bytes = replicate can_max_dlc 0 }

pub data CanError : Type 0 where
  already_open socket_failed name_too_long no_interface bind_failed : CanError

pub record CanBus : Type 0 where
  pub fd : Option ℕ
  pub last_error : Option CanError

abbrev pub new_bus : CanBus
new_bus = record { fd = none; last_error = none }

-- `IFNAMSIZ` of Linux
abbrev pub ifnamsiz : ℕ
ifnamsiz = 16

-- What the system says to the calls of `open`.
pub record CanCalls : Type 0 where
  pub socket : Option ℕ
  pub index_found : Bool
  pub binds : Bool

-- `::close(fd)`, on the descriptors that the process holds
unfoldable pub close_fd : ℕ → List ℕ → List ℕ
close_fd fd [] = []
close_fd fd (d ∷ held) = let rest = close_fd fd held in if d == fd then held else d ∷ rest

-- `last_error_ = …; ::close(fd_); fd_ = -1; return false;`
unfoldable pub abandon : CanError → ℕ → List ℕ → CanBus → Bool × CanBus × List ℕ
abandon e fd held bus = (false, record { fd = none; last_error = some e }, close_fd fd held)

-- `open()` with an interface name of `name_length` characters
unfoldable pub open_bus : CanCalls → ℕ → CanBus → List ℕ → Bool × CanBus × List ℕ
unfolding abandon
open_bus c name_length bus held = elim bus.fd [
  | some fd ↦ (false, record bus { last_error = some already_open }, held)
  | none ↦ elim c.socket [
    | none ↦ (false, record { fd = none; last_error = some socket_failed }, held)
    | some fd ↦
        if leb ifnamsiz name_length
        then abandon name_too_long fd (fd ∷ held) bus
        else if not c.index_found
        then abandon no_interface fd (fd ∷ held) bus
        else if not c.binds
        then abandon bind_failed fd (fd ∷ held) bus
        else (true, record { fd = some fd; last_error = none }, fd ∷ held)
  ]
]

-- `close()`
unfoldable pub close_bus : CanBus → List ℕ → CanBus × List ℕ
close_bus bus held = elim bus.fd [
  | none ↦ (bus, held)
  | some fd ↦ (record bus { fd = none }, close_fd fd held)
]

-- `struct can_frame`
pub record CanFrame : Type 0 where
  pub can_id : ℕ
  pub can_dlc : ℕ
  pub frame_bytes : List ℕ

-- The frame that `send` builds: `memcpy` into a zeroed array of eight octets.
unfoldable pub to_frame : CanMessage → CanFrame
to_frame msg =
    let bytes = if leb msg.dlc can_max_dlc then msg.dlc else can_max_dlc in
    record {
      can_id = msg.id;
      can_dlc = msg.dlc;
      frame_bytes = take bytes msg.data_bytes ++ replicate (can_max_dlc - bytes) 0;
    }

-- `send(msg)`; `taken` is whether the kernel took the whole frame, `wire` the frames it has taken.
unfoldable pub send : Bool → CanMessage → CanBus → List CanFrame → Bool × List CanFrame
send taken msg bus wire = elim bus.fd [
  | none ↦ (false, wire)
  | some fd ↦ if taken then (true, wire ++ (to_frame msg ∷ [])) else (false, wire)
]

abbrev pub is_open : CanBus → Bool
is_open bus = elim bus.fd [ none ↦ false | some fd ↦ true ]

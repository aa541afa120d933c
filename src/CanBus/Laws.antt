-- ===== src/CanBus/Laws.antt =====
-- canbus/CanBus.cpp: what open and close do to the descriptors that the process holds.
use aeb_node.Prelude.{
  ℕ, ◌≡◌, refl, Bool, true, false, not, List, ◌∷◌, Option, some, none, leb, arith, if◌then◌else◌,
}
use aeb_node.CanBus.{
  CanBus, CanCalls, CanError, close_fd, abandon, open_bus, close_bus, ifnamsiz, already_open,
  socket_failed, name_too_long, no_interface, bind_failed,
}

close_fd_head : (fd : ℕ) (held : List ℕ) → close_fd fd (fd ∷ held) ≡ held
unfolding close_fd
close_fd_head fd held = ground arith

-- What `open` leaves, on a bus that was closed.
abbrev pub Outcome : List ℕ → Bool × CanBus × List ℕ → Type 0
Outcome held (true, bus, held') =
    ((fd : ℕ) × (bus.fd ≡ some fd) × (held' ≡ (fd ∷ held))) × (bus.last_error ≡ none)
Outcome held (false, bus, held') =
    (bus.fd ≡ none) × (held' ≡ held) × ((e : CanError) × (bus.last_error ≡ some e))

abandon-Outcome :
    (e : CanError) (fd : ℕ) (held : List ℕ) (bus : CanBus)
    → Outcome held (abandon e fd (fd ∷ held) bus)
unfolding abandon
abandon-Outcome e fd held bus = (refl, close_fd_head fd held, (e, refl))

-- `open` of a closed bus: on success the bus owns the one descriptor that the process has gained, and
-- no error is left; on any failure the process holds the descriptors it held, the bus owns none, and
-- the error is recorded.
pub open_bus-Outcome :
    (c : CanCalls) (n : ℕ) (bus : CanBus) (held : List ℕ)
    → bus.fd ≡ none
    → Outcome held (open_bus c n bus held)
unfolding open_bus
open_bus-Outcome c n bus held h =
    by_call bus.fd c.socket (leb ifnamsiz n) (not c.index_found) (not c.binds) h
  where
    by_call :
        (owned socket : Option ℕ) (long unknown unbound : Bool)
        → owned ≡ none
        → Outcome held (elim owned [
          | some fd ↦ (false, record bus { last_error = some already_open }, held)
          | none ↦ elim socket [
            | none ↦ (false, record { fd = none; last_error = some socket_failed }, held)
            | some fd ↦
                if long
                then abandon name_too_long fd (fd ∷ held) bus
                else if unknown
                then abandon no_interface fd (fd ∷ held) bus
                else if unbound
                then abandon bind_failed fd (fd ∷ held) bus
                else (true, record { fd = some fd; last_error = none }, fd ∷ held)
          ]
        ])
    by_call (some fd) socket a b c h = cc
    by_call none none a b c h = (refl, refl, (_, refl))
    by_call none (some fd) true b c h = abandon-Outcome name_too_long fd held bus
    by_call none (some fd) false true c h = abandon-Outcome no_interface fd held bus
    by_call none (some fd) false false true h = abandon-Outcome bind_failed fd held bus
    by_call none (some fd) false false false h = ((fd, refl, refl), refl)

close_bus_owned :
    (fd : ℕ) (bus : CanBus) (held held' : List ℕ)
    → bus.fd ≡ some fd
    → held' ≡ (fd ∷ held)
    → close_bus bus held' ≡ (record bus { fd = none }, held)
unfolding close_bus
close_bus_owned fd bus held held' e h = ground (arith, close_fd_head fd held)

pub Outcome-close :
    (held : List ℕ) (r : Bool × CanBus × List ℕ)
    → Outcome held r
    → close_bus r.1 r.2 ≡ (record r.1 { fd = none }, held)
unfolding close_bus
Outcome-close held (true, bus, held') ((fd, e, h), q) = close_bus_owned fd bus held held' e h
Outcome-close held (false, bus, held') (e, h, q) = ground arith

-- Whatever became of an `open` of a closed bus, `close` leaves the process with the descriptors that it
-- held before, and the bus with none.
pub close_bus-open_bus :
    (c : CanCalls) (n : ℕ) (bus : CanBus) (held : List ℕ)
    → bus.fd ≡ none
    → close_bus (open_bus c n bus held).1 (open_bus c n bus held).2
      ≡ (record (open_bus c n bus held).1 { fd = none }, held)
close_bus-open_bus c n bus held h =
    Outcome-close held (open_bus c n bus held) (open_bus-Outcome c n bus held h)

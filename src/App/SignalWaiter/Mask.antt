-- ===== src/App/SignalWaiter/Mask.antt =====
-- app/SignalWaiter.cpp: the constructor and the destructor, on the signal mask of the calling thread.
mod Laws
mod Tests
use aeb_node.Prelude.{ℕ, ◌≡◌, Bool, true, false, ◌||◌, ◌==◌, if◌then◌else◌}
use aeb_node.App.SignalWaiter.{sigpipe}

-- A `sigset_t`, by its signal numbers.
abbrev pub SignalSet : Type 0
SignalSet = ℕ → Bool

abbrev pub empty_set : SignalSet
empty_set n = false

abbrev pub add_signal : ℕ → SignalSet → SignalSet
add_signal signal set n = signal == n || set n

-- SIGINT and SIGTERM of Linux
abbrev pub sigint : ℕ
sigint = 2

abbrev pub sigterm : ℕ
sigterm = 15

pub record SignalWaiter : Type 0 where
  pub mask : SignalSet
  pub previous : SignalSet
  pub installed : Bool

-- `SignalWaiter()` on a thread that blocks the signals `blocked`: the object, and what is blocked then.
-- `succeeds` is the answer of pthread_sigmask, which stores what was blocked.
unfoldable pub construct : Bool → SignalSet → SignalWaiter × SignalSet
construct succeeds blocked =
    let mask = add_signal sigpipe (add_signal sigterm (add_signal sigint empty_set)) in
    if succeeds
    then (record { mask = mask; previous = blocked; installed = true }, λ n. mask n || blocked n)
    else (record { mask = mask; previous = empty_set; installed = false }, blocked)

-- `~SignalWaiter()`
unfoldable pub destroy : SignalWaiter → SignalSet → SignalSet
destroy waiter blocked = if waiter.installed then waiter.previous else blocked

-- ===== src/Network/FileDescriptor.antt =====
-- network/FileDescriptor.hpp: the class FileDescriptor on a store of objects and the process's table of
-- descriptors, and setNonBlocking.
pub mod Steps
pub mod Ownership
pub mod Safety
mod Tests
use aeb_node.Prelude.{
  ℕ, zero, suc, ◌+◌, ◌^◌, Bool, true, false, Option, some, none, ◌==◌, if◌then◌else◌, bit_or,
}
use aeb_node.Prelude.Int.{ℤ, pos, negsuc}

-- The objects by their address (`none`: none lives there) with their member fd_. In the kernel, a
-- descriptor is open or not; a close of one that is not open is counted. `foreign` tells the open
-- descriptors that belong to no object: those of other code, and the released ones.
pub record Store : Type 0 where
  pub objects : ℕ → Option ℤ
  pub is_open : ℕ → Bool
  pub foreign : ℕ → Bool
  pub bad_closes : ℕ

abbrev pub put {ℓ} : {A : Type ℓ} → (ℕ → A) → ℕ → A → ℕ → A
put f x v y = if x == y then v else f y

-- -1, the member's initialiser
abbrev pub no_fd : ℤ
no_fd = negsuc 0

-- `fd_` of an object, read and written
abbrev pub fd_in : Option ℤ → ℤ
fd_in none = no_fd
fd_in (some fd) = fd

unfoldable pub get : ℕ → Store → ℤ
get x s = fd_in (s.objects x)

unfoldable pub set_fd : ℕ → ℤ → Store → Store
set_fd x fd s = record s { objects = put s.objects x (some fd) }

-- `valid()`
abbrev pub is_valid : ℤ → Bool
is_valid (pos n) = true
is_valid (negsuc k) = false

-- `::close(n)` of the system. It is not retried after EINTR: the descriptor is released all the same.
unfoldable pub close : ℕ → Store → Store
close n s = record s {
  is_open = put s.is_open n false;
  bad_closes = if s.is_open n then s.bad_closes else s.bad_closes + 1;
}

-- `FileDescriptor(fd)`
unfoldable pub construct : ℕ → ℤ → Store → Store
unfolding set_fd
construct x fd s = set_fd x fd s

-- `reset()`
unfoldable pub reset : ℕ → Store → Store
reset x s = elim (get x s) [ pos n ↦ set_fd x no_fd (close n s) | negsuc k ↦ s ]

-- `release()`
unfoldable pub release : ℕ → Store → ℤ × Store
release x s = (get x s, set_fd x no_fd s)

-- `FileDescriptor(FileDescriptor&& other)`
unfoldable pub move_construct : ℕ → ℕ → Store → Store
move_construct x other s = set_fd other no_fd (set_fd x (get other s) s)

-- `operator=(FileDescriptor&& other)`
unfoldable pub move_assign : ℕ → ℕ → Store → Store
move_assign x other s = if x == other then s else move_construct x other (reset x s)

-- `~FileDescriptor()`, and the end of the object.
unfoldable pub destroy : ℕ → Store → Store
destroy x s = let s' = reset x s in record s' { objects = put s'.objects x none }

-- What fcntl answers: the flags of the descriptor, and whether they could be set.
pub record FcntlCalls : Type 0 where
  pub flags : Option ℕ
  pub sets : Bool

abbrev pub o_nonblock : ℕ
o_nonblock = 0x800

-- `setNonBlocking(fd)`: the result, and the flags that the descriptor has after the calls, where it had
-- `before`.
unfoldable pub set_non_blocking : FcntlCalls → ℕ → Bool × ℕ
set_non_blocking c before = elim c.flags [
  | none ↦ (false, before)
  | some flags ↦ if c.sets then (true, bit_or flags o_nonblock) else (false, before)
]

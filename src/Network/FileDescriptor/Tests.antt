-- ===== src/Network/FileDescriptor/Tests.antt =====
-- A descriptor that is opened, moved and closed, and O_NONBLOCK.
use mathlib.Core.Bool.{Bool}
use aeb_node.Prelude.{ℕ, ◌≡◌, refl, true, false, some, ltb}
use aeb_node.Prelude.Int.{pos}
use aeb_node.Network.FileDescriptor.{
  Store, no_fd, construct, move_construct, move_assign, reset, destroy, set_non_blocking, set_fd,
  close, get,
}
use aeb_node.Network.FileDescriptor.Steps.{
  opened, no_objects, Reach, start, further, open_succeeds, open_fails, move_assigns,
}
use aeb_node.Network.FileDescriptor.Ownership.{IsOwned}
use aeb_node.Network.FileDescriptor.Safety.Reachable.{reachable-IsOwned}

-- The standard streams.
abbrev streams : ℕ → Bool
streams n = ltb n 3

-- A call that fails leaves -1 in the object 10, a socket in 11 is moved into it, and then it ends.
abbrev failed_call : Store
failed_call = construct 10 no_fd (no_objects streams)

abbrev with_socket : Store
with_socket = construct 11 (pos 3) (opened 3 failed_call)

abbrev moved : Store
moved = move_assign 10 11 with_socket

moved_reached : Reach streams moved
unfolding construct opened move_assign set_fd
moved_reached =
    further _ _
      (further _ _ (further _ _ start (open_fails 10 0 (no_objects streams) refl))
        (open_succeeds 3 11 failed_call refl refl))
      (move_assigns 10 11 with_socket (no_fd, refl) (pos 3, refl))

reachable-IsOwned_example : IsOwned no_fd moved
reachable-IsOwned_example = reachable-IsOwned streams moved moved_reached

-- The last owner closes it, once.
closed_by_10 : (destroy 10 moved).is_open 3 ≡ false
unfolding construct opened move_assign move_construct destroy reset set_fd close get
closed_by_10 = refl

closed_once : (destroy 11 (destroy 10 moved)).bad_closes ≡ 0
unfolding construct opened move_assign move_construct destroy reset set_fd close get
closed_once = refl

nonblocking : set_non_blocking (record { flags = some 0x8002; sets = true }) 0x8002 ≡ (true, 0x8802)
unfolding set_non_blocking
nonblocking = refl

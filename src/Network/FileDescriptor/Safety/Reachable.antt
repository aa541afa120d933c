-- ===== src/Network/FileDescriptor/Safety/Reachable.antt =====
-- network/FileDescriptor.hpp: the reachable states.
use aeb_node.Prelude.{ℕ, ◌≡◌, ◌≢◌, refl, sym, ap, ◌∙◌, Bool, false, none}
use mathlib.Core.Option.{none-ne-some}
use mathlib.Core.Bool.{false≢true}
use aeb_node.Prelude.Int.{ℤ, pos, negsuc}
use aeb_node.Network.FileDescriptor.{Store, no_fd, construct}
use aeb_node.Network.FileDescriptor.Steps.{
  IsAlive, opened, set_foreign, Step, open_succeeds, open_fails, adopts, move_constructs,
  move_assigns, resets, releases, destroys, no_objects, Reach, start, further,
}
use aeb_node.Network.FileDescriptor.Ownership.{IsOwned, give-IsOwned}
use aeb_node.Network.FileDescriptor.Safety.{
  absent_owns_nothing, opened-IsOwned, adopted-IsOwned, reset-IsOwned, release-IsOwned,
  destroy-IsOwned, move_construct-IsOwned, move_assign-IsOwned,
}

objects-opened : (n x : ℕ) (s : Store) → (opened n s).objects x ≡ s.objects x
unfolding opened
objects-opened n x s = refl

objects-set_foreign :
    (fd : ℤ) (f : Bool) (x : ℕ) (s : Store) → (set_foreign fd f s).objects x ≡ s.objects x
unfolding set_foreign
objects-set_foreign (pos n) f x s = refl
objects-set_foreign (negsuc k) f x s = refl

-- Every negative number stands for no descriptor.
nothing_in_hand : (k : ℕ) (s : Store) → IsOwned no_fd s → IsOwned (negsuc k) s
nothing_in_hand k s h = record {
  unique = h.unique;
  owned_open = h.owned_open;
  owned_not_foreign = h.owned_not_foreign;
  foreign_open = h.foreign_open;
  no_leak = h.no_leak;
  hand_open = h.hand_open;
  hand_not_foreign = h.hand_not_foreign;
  hand_not_owned = h.hand_not_owned;
  no_bad_close = h.no_bad_close;
}

lives_nowhere : (s : Store) {x y : ℕ} → s.objects x ≡ none → IsAlive y s → x ≢ y
lives_nowhere s {x} {y} a (fd, l) d = none-ne-some fd (sym a ∙ ap s.objects d ∙ l)

Step-IsOwned : {s t : Store} → Step s t → IsOwned no_fd s → IsOwned no_fd t
unfolding construct
Step-IsOwned (open_succeeds n x s e a) h =
    give-IsOwned x (pos n) (opened n s)
      (λ m. absent_owns_nothing x m (opened n s) (objects-opened n x s ∙ a))
      (opened-IsOwned n s e h)
Step-IsOwned (open_fails x k s a) h =
    give-IsOwned x (negsuc k) s (λ n. absent_owns_nothing x n s a) (nothing_in_hand k s h)
Step-IsOwned (adopts n x s f a) h =
    give-IsOwned x (pos n) (set_foreign (pos n) false s)
      (λ m.
        absent_owns_nothing x m (set_foreign (pos n) false s)
          (objects-set_foreign (pos n) false x s ∙ a))
      (adopted-IsOwned n s f h)
Step-IsOwned (move_constructs x y s a l) h =
    move_construct-IsOwned x y s (λ d. lives_nowhere s a l d) (λ n. absent_owns_nothing x n s a) h
Step-IsOwned (move_assigns x y s k l) h = move_assign-IsOwned x y s h
Step-IsOwned (resets x s l) h = (reset-IsOwned x s h).0
Step-IsOwned (releases x s l) h = release-IsOwned x s h
Step-IsOwned (destroys x s l) h = destroy-IsOwned x s h

no_objects-IsOwned : (foreign : ℕ → Bool) → IsOwned no_fd (no_objects foreign)
no_objects-IsOwned foreign = record {
  unique = λ x y n p q. cc;
  owned_open = λ x n p. cc;
  owned_not_foreign = λ x n p. cc;
  foreign_open = λ n p. p;
  no_leak = λ n p q r. absurd (false≢true (sym q ∙ p));
  hand_open = λ n p. cc;
  hand_not_foreign = λ n p. cc;
  hand_not_owned = λ x n p. cc;
  no_bad_close = refl;
}

-- However a program constructs, moves, assigns, resets, releases and destroys FileDescriptor objects,
-- and whichever of its calls fail, a descriptor that an object holds is open, belongs to no other code
-- and is held by no other object; a descriptor that is open and belongs to no other code is held by some
-- object; and no close ever met a descriptor that was not open.
pub reachable-IsOwned : (foreign : ℕ → Bool) (s : Store) → Reach foreign s → IsOwned no_fd s
reachable-IsOwned foreign s start = no_objects-IsOwned foreign
reachable-IsOwned foreign s (further r t h step) = Step-IsOwned step (reachable-IsOwned foreign r h)

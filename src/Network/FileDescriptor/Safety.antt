-- ===== src/Network/FileDescriptor/Safety.antt =====
-- The operations of FileDescriptor (network/FileDescriptor.hpp) keep the ownership of descriptors.
pub mod Reachable
use aeb_node.Prelude.{
  ℕ, ◌≡◌, ◌≢◌, refl, sym, ap, ◌∙◌, arith, subst, Bool, true, false, Option, some, none, ◌==◌, if-of,
}
use mathlib.Core.Option.{none-ne-some}
use mathlib.Core.Bool.{false≢true}
use aeb_node.Prelude.Int.{ℤ, pos, negsuc}
use aeb_node.Network.FileDescriptor.{
  Store, put, no_fd, fd_in, get, set_fd, close, construct, reset, release, move_construct,
  move_assign, destroy,
}
use aeb_node.Network.FileDescriptor.Steps.{
  IsAlive, opened, set_foreign, Step, open_succeeds, open_fails, adopts, move_constructs,
  move_assigns, resets, releases, destroys, no_objects, Reach, start, further,
}
use aeb_node.Network.FileDescriptor.Ownership.{
  names, owns, IsOwned, owns-set_fd_self, owns-set_fd_other, take-IsOwned, give-IsOwned,
  close-IsOwned,
}

-- An object that lives nowhere, or holds -1, owns nothing.
absent_owns_nothing : (x n : ℕ) (s : Store) → s.objects x ≡ none → owns s x n ≡ false
absent_owns_nothing x n s h = ap (λ o. names (fd_in o) n) h

opened-IsOwned :
    (n : ℕ) (s : Store) → s.is_open n ≡ false → IsOwned no_fd s → IsOwned (pos n) (opened n s)
unfolding opened
opened-IsOwned n s e h = record {
  unique = h.unique;
  owned_open = λ y m p. ground (arith, p, h.owned_open y m p);
  owned_not_foreign = h.owned_not_foreign;
  foreign_open = λ m p. ground (arith, p, h.foreign_open m p);
  no_leak = λ m p q r. h.no_leak m (ground (arith, p, r)) q refl;
  hand_open = λ m p. ground (arith, p);
  hand_not_foreign = λ m p. ground (arith, p, e, h.foreign_open n, h.foreign_open m);
  hand_not_owned = λ y m p. ground (arith, p, e, h.owned_open y n, h.owned_open y m);
  no_bad_close = h.no_bad_close;
}

hand_over-IsOwned : (fd : ℤ) (s : Store) → IsOwned fd s → IsOwned no_fd (set_foreign fd true s)
unfolding set_foreign
hand_over-IsOwned (pos n) s h = record {
  unique = h.unique;
  owned_open = h.owned_open;
  owned_not_foreign = λ y m p. ground (arith, p, h.owned_not_foreign y m p, h.hand_not_owned y n);
  foreign_open = λ m p. ground (arith, p, h.foreign_open m, h.hand_open n);
  no_leak = λ m p q r. h.no_leak m p (ground (arith, q)) (ground (arith, q));
  hand_open = λ m p. cc;
  hand_not_foreign = λ m p. cc;
  hand_not_owned = λ y m p. cc;
  no_bad_close = h.no_bad_close;
}
hand_over-IsOwned (negsuc k) s h = record {
  unique = h.unique;
  owned_open = h.owned_open;
  owned_not_foreign = h.owned_not_foreign;
  foreign_open = h.foreign_open;
  no_leak = λ m p q r. h.no_leak m p q refl;
  hand_open = λ m p. cc;
  hand_not_foreign = λ m p. cc;
  hand_not_owned = λ y m p. cc;
  no_bad_close = h.no_bad_close;
}

adopted-IsOwned :
    (n : ℕ) (s : Store)
    → s.foreign n ≡ true
    → IsOwned no_fd s
    → IsOwned (pos n) (set_foreign (pos n) false s)
unfolding set_foreign
adopted-IsOwned n s e h = record {
  unique = h.unique;
  owned_open = h.owned_open;
  owned_not_foreign = λ y m p. ground (arith, h.owned_not_foreign y m p);
  foreign_open = λ m p. h.foreign_open m (ground (arith, p));
  no_leak = λ m p q r. h.no_leak m p (ground (arith, q, r)) refl;
  hand_open = λ m p. ground (arith, p, e, h.foreign_open n, h.foreign_open m);
  hand_not_foreign = λ m p. ground (arith, p);
  hand_not_owned = λ y m p. ground (arith, p, e, h.owned_not_foreign y n, h.owned_not_foreign y m);
  no_bad_close = h.no_bad_close;
}

get-objects : (x : ℕ) (s : Store) → fd_in (s.objects x) ≡ get x s
unfolding get
get-objects x s = refl

-- `reset` closes what the object holds, and leaves it empty.
reset-IsOwned :
    (x : ℕ) (s : Store)
    → IsOwned no_fd s
    → IsOwned no_fd (reset x s) × ((n : ℕ) → owns (reset x s) x n ≡ false)
unfolding reset set_fd close
reset-IsOwned x s h = by_fd (get x s) refl
  where
    by_fd :
        (fd : ℤ)
        → get x s ≡ fd
        → IsOwned no_fd (elim fd [ pos n ↦ set_fd x no_fd (close n s) | negsuc k ↦ s ])
          × ((m : ℕ)
              → owns (elim fd [ pos n ↦ set_fd x no_fd (close n s) | negsuc k ↦ s ]) x m ≡ false)
    by_fd (pos n) e = (
      close-IsOwned n (set_fd x no_fd s)
          (subst (λ f. IsOwned f (set_fd x no_fd s)) e (take-IsOwned x s h)),
      λ m. owns-set_fd_self x no_fd (close n s) m,
    )
    by_fd (negsuc k) e = (h, λ m. ap (λ f. names f m) (get-objects x s ∙ e))

release-IsOwned :
    (x : ℕ) (s : Store)
    → IsOwned no_fd s
    → IsOwned no_fd (set_foreign ((release x s).0) true ((release x s).1))
unfolding release
release-IsOwned x s h = hand_over-IsOwned (get x s) (set_fd x no_fd s) (take-IsOwned x s h)

-- Objects that hold the same descriptors own them as well.
IsOwned-same :
    (s : Store) (g : ℕ → Option ℤ)
    → IsOwned no_fd s
    → ((x n : ℕ) → names (fd_in (g x)) n ≡ owns s x n)
    → IsOwned no_fd (record s { objects = g })
IsOwned-same s g h e = record {
  unique = λ x y n p q. h.unique x y n (sym (e x n) ∙ p) (sym (e y n) ∙ q);
  owned_open = λ x n p. h.owned_open x n (sym (e x n) ∙ p);
  owned_not_foreign = λ x n p. h.owned_not_foreign x n (sym (e x n) ∙ p);
  foreign_open = h.foreign_open;
  no_leak = λ n p q r. let (x, o) = h.no_leak n p q r in (x, e x n ∙ o);
  hand_open = h.hand_open;
  hand_not_foreign = h.hand_not_foreign;
  hand_not_owned = λ x n p. e x n ∙ h.hand_not_owned x n p;
  no_bad_close = h.no_bad_close;
}

destroy-IsOwned : (x : ℕ) (s : Store) → IsOwned no_fd s → IsOwned no_fd (destroy x s)
unfolding destroy
destroy-IsOwned x s h = let (k, e) = reset-IsOwned x s h in forgotten (reset x s) k e
  where
    forgotten :
        (s : Store)
        → IsOwned no_fd s
        → ((n : ℕ) → owns s x n ≡ false)
        → IsOwned no_fd (record s { objects = put s.objects x none })
    forgotten s h e = IsOwned-same s (put s.objects x none) h (λ y n. ground (arith, e n))

set_fd_comm :
    (x y : ℕ) (v w : ℤ) (s : Store) → x ≢ y → set_fd y w (set_fd x v s) ≡ set_fd x v (set_fd y w s)
unfolding set_fd
set_fd_comm x y v w s h = ap (λ f. record s { objects = f }) (λ i z. pointwise z i)
  where
    pointwise :
        (z : ℕ)
        → put (put s.objects x (some v)) y (some w) z ≡ put (put s.objects y (some w)) x (some v) z
    pointwise z = ground (arith, h)

-- A move from another object into one that owns nothing.
move_construct-IsOwned :
    (x y : ℕ) (s : Store)
    → x ≢ y
    → ((n : ℕ) → owns s x n ≡ false)
    → IsOwned no_fd s
    → IsOwned no_fd (move_construct x y s)
unfolding move_construct
move_construct-IsOwned x y s d e h =
    subst (IsOwned no_fd) (sym (set_fd_comm x y (get y s) no_fd s d)) (
      give-IsOwned x (get y s) (set_fd y no_fd s)
        (λ n. owns-set_fd_other y no_fd s x n (λ p. d (sym p)) ∙ e n) (take-IsOwned y s h))

move_assign-IsOwned : (x y : ℕ) (s : Store) → IsOwned no_fd s → IsOwned no_fd (move_assign x y s)
unfolding move_assign
move_assign-IsOwned x y s h =
    if-of (IsOwned no_fd) (x == y) s (move_construct x y (reset x s)) (λ e. h)
      (λ e.
        let (k, empty) = reset-IsOwned x s h in
        move_construct-IsOwned x y (reset x s) (λ d. ground (arith, d, e)) empty k)

-- ===== src/Network/FileDescriptor/Ownership.antt =====
-- Who owns which descriptor (network/FileDescriptor.hpp).
use aeb_node.Prelude.{
  ℕ, ◌≡◌, ◌≢◌, refl, sym, ap, ◌∙◌, inl, inr, arith, Bool, true, false, ◌==◌, if◌then◌else◌,
  Bool-cases,
}
use mathlib.Core.Bool.{false≢true}
use aeb_node.Prelude.Int.{ℤ, pos, negsuc}
use aeb_node.Network.FileDescriptor.{Store, no_fd, fd_in, get, set_fd, close}

abbrev pub names : ℤ → ℕ → Bool
names (pos m) n = m == n
names (negsuc k) n = false

-- The object at `x` holds descriptor `n`.
abbrev pub owns : Store → ℕ → ℕ → Bool
owns s x n = names (fd_in (s.objects x)) n

-- Each descriptor that an object holds is open and held by that object alone; an open descriptor that
-- is not foreign is held by some object, or is the one named by `hand`, which no object holds; and no
-- close has met a descriptor that was not open.
pub record IsOwned (hand : ℤ) (s : Store) : Type 0 where
  pub unique : (x y n : ℕ) → owns s x n ≡ true → owns s y n ≡ true → x ≡ y
  pub owned_open : (x n : ℕ) → owns s x n ≡ true → s.is_open n ≡ true
  pub owned_not_foreign : (x n : ℕ) → owns s x n ≡ true → s.foreign n ≡ false
  pub foreign_open : (n : ℕ) → s.foreign n ≡ true → s.is_open n ≡ true
  pub no_leak :
      (n : ℕ)
      → s.is_open n ≡ true
      → s.foreign n ≡ false
      → names hand n ≡ false
      → (x : ℕ) × (owns s x n ≡ true)
  pub hand_open : (n : ℕ) → names hand n ≡ true → s.is_open n ≡ true
  pub hand_not_foreign : (n : ℕ) → names hand n ≡ true → s.foreign n ≡ false
  pub hand_not_owned : (x n : ℕ) → names hand n ≡ true → owns s x n ≡ false
  pub no_bad_close : s.bad_closes ≡ 0

names_inj : (fd : ℤ) (m n : ℕ) → names fd m ≡ true → names fd n ≡ true → m ≡ n
names_inj (pos k) m n p q = ground arith
names_inj (negsuc k) m n p q = cc

owns-set_fd :
    (x : ℕ) (fd : ℤ) (s : Store) (y n : ℕ)
    → owns (set_fd x fd s) y n ≡ (if x == y then names fd n else owns s y n)
unfolding set_fd
owns-set_fd x fd s y n = ground arith

pub owns-set_fd_self : (x : ℕ) (fd : ℤ) (s : Store) (n : ℕ) → owns (set_fd x fd s) x n ≡ names fd n
owns-set_fd_self x fd s n = ground (arith, owns-set_fd x fd s x n)

pub owns-set_fd_other :
    (x : ℕ) (fd : ℤ) (s : Store) (y n : ℕ) → x ≢ y → owns (set_fd x fd s) y n ≡ owns s y n
owns-set_fd_other x fd s y n h = ground (arith, owns-set_fd x fd s y n)

-- What an object holds after another one was emptied, it held before.
owns-emptied :
    (x : ℕ) (s : Store) (y n : ℕ) → owns (set_fd x no_fd s) y n ≡ true → owns s y n ≡ true
owns-emptied x s y n h = ground (arith, h, owns-set_fd x no_fd s y n)

owner_differs : (s : Store) (n : ℕ) {x y : ℕ} → x ≡ y → owns s x n ≡ false → owns s y n ≡ true → ⊥
owner_differs s n e p q = false≢true (sym p ∙ ap (λ x. owns s x n) e ∙ q)

-- An object gives up its descriptor.
pub take-IsOwned : (x : ℕ) (s : Store) → IsOwned no_fd s → IsOwned (get x s) (set_fd x no_fd s)
unfolding get set_fd
take-IsOwned x s h = record {
  unique = λ y z n p q. h.unique y z n (owns-emptied x s y n p) (owns-emptied x s z n q);
  owned_open = λ y n p. h.owned_open y n (owns-emptied x s y n p);
  owned_not_foreign = λ y n p. h.owned_not_foreign y n (owns-emptied x s y n p);
  foreign_open = h.foreign_open;
  no_leak = λ n p q r.
      let (y, o) = h.no_leak n p q refl in
      (y, owns-set_fd_other x no_fd s y n (λ e. owner_differs s n e r o) ∙ o);
  hand_open = λ n p. h.owned_open x n p;
  hand_not_foreign = λ n p. h.owned_not_foreign x n p;
  hand_not_owned = λ y n p. elim (Bool-cases (owns (set_fd x no_fd s) y n)) [
    | inl o ↦
        ground (arith, o, owns-set_fd x no_fd s y n, h.unique x y n p (owns-emptied x s y n o))
    | inr o ↦ o
  ];
  no_bad_close = h.no_bad_close;
}

-- An empty object takes the descriptor in hand.
pub give-IsOwned :
    (x : ℕ) (fd : ℤ) (s : Store)
    → ((n : ℕ) → owns s x n ≡ false)
    → IsOwned fd s
    → IsOwned no_fd (set_fd x fd s)
unfolding set_fd
give-IsOwned x fd s e h = record {
  unique = λ y z n p q. ground (
    arith,
    p,
    q,
    e n,
    owns-set_fd x fd s y n,
    owns-set_fd x fd s z n,
    h.unique y z n,
    h.hand_not_owned y n,
    h.hand_not_owned z n,
  );
  owned_open = λ y n p. ground (arith, p, owns-set_fd x fd s y n, h.owned_open y n, h.hand_open n);
  owned_not_foreign = λ y n p.
      ground (arith, p, owns-set_fd x fd s y n, h.owned_not_foreign y n, h.hand_not_foreign n);
  foreign_open = h.foreign_open;
  no_leak = λ n p q r. elim (Bool-cases (names fd n)) [
    | inl m ↦ (x, owns-set_fd_self x fd s n ∙ m)
    | inr m ↦
        let (y, o) = h.no_leak n p q m in
        (y, owns-set_fd_other x fd s y n (λ d. owner_differs s n d (e n) o) ∙ o)
  ];
  hand_open = λ n p. cc;
  hand_not_foreign = λ n p. cc;
  hand_not_owned = λ y n p. cc;
  no_bad_close = h.no_bad_close;
}

-- The descriptor in hand is closed.
pub close-IsOwned : (n : ℕ) (s : Store) → IsOwned (pos n) s → IsOwned no_fd (close n s)
unfolding close
close-IsOwned n s h = record {
  unique = h.unique;
  owned_open = λ y m p. ground (arith, p, h.owned_open y m p, h.hand_not_owned y n);
  owned_not_foreign = h.owned_not_foreign;
  foreign_open = λ m p. ground (arith, p, h.foreign_open m, h.hand_not_foreign n);
  no_leak = λ m p q r. h.no_leak m (ground (arith, p)) q (ground (arith, p));
  hand_open = λ n p. cc;
  hand_not_foreign = λ n p. cc;
  hand_not_owned = λ y n p. cc;
  no_bad_close = ground (arith, h.no_bad_close, h.hand_open n);
}

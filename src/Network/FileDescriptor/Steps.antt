-- ===== src/Network/FileDescriptor/Steps.antt =====
-- Programs on FileDescriptor objects, as sequences of the steps that the class allows.
use aeb_node.Prelude.{ℕ, ◌≡◌, Bool, true, false, some, none}
use aeb_node.Prelude.Int.{ℤ, pos, negsuc}
use aeb_node.Network.FileDescriptor.{
  Store, put, construct, reset, release, move_construct, move_assign, destroy,
}

-- An object lives at the address.
abbrev pub IsAlive : ℕ → Store → Type 0
IsAlive x s = (fd : ℤ) × (s.objects x ≡ some fd)

-- The kernel opens `n`.
unfoldable pub opened : ℕ → Store → Store
opened n s = record s { is_open = put s.is_open n true }

-- The program owns what `fd` names, or hands it over.
unfoldable pub set_foreign : ℤ → Bool → Store → Store
set_foreign (pos n) f s = record s { foreign = put s.foreign n f }
set_foreign (negsuc k) f s = s

-- The steps. An object is constructed where none lives, from a descriptor that a call just opened, from
-- the -1 of a call that failed or of the default constructor, from a descriptor that was released, or
-- from another object.
pub data Step : Store → Store → Type 0 where
  open_succeeds :
      (n x : ℕ) (s : Store)
      → s.is_open n ≡ false
      → s.objects x ≡ none
      → Step s (construct x (pos n) (opened n s))
  open_fails : (x k : ℕ) (s : Store) → s.objects x ≡ none → Step s (construct x (negsuc k) s)
  adopts :
      (n x : ℕ) (s : Store)
      → s.foreign n ≡ true
      → s.objects x ≡ none
      → Step s (construct x (pos n) (set_foreign (pos n) false s))
  move_constructs :
      (x y : ℕ) (s : Store) → s.objects x ≡ none → IsAlive y s → Step s (move_construct x y s)
  move_assigns : (x y : ℕ) (s : Store) → IsAlive x s → IsAlive y s → Step s (move_assign x y s)
  resets : (x : ℕ) (s : Store) → IsAlive x s → Step s (reset x s)
  releases :
      (x : ℕ) (s : Store)
      → IsAlive x s
      → Step s (set_foreign ((release x s).0) true ((release x s).1))
  destroys : (x : ℕ) (s : Store) → IsAlive x s → Step s (destroy x s)

-- A process before any object, with the descriptors in `foreign` open.
abbrev pub no_objects : (ℕ → Bool) → Store
no_objects foreign = record {
  objects = λ x. none;
  is_open = foreign;
  foreign = foreign;
  bad_closes = 0;
}

pub data Reach (foreign : ℕ → Bool) : Store → Type 0 where
  start : Reach foreign (no_objects foreign)
  further : (s t : Store) → Reach foreign s → Step s t → Reach foreign t

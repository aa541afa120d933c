-- ===== src/App/CommandLine/Ranges/Results.antt =====
-- What CommandLine::parse returns (app/CommandLine.cpp).
use aeb_node.Prelude.{
  ℕ, ◌≡◌, ◌⊎◌, inl, inr, refl, true, false, List, [], ◌∷◌, ◌++◌, Option, none, some, arith, if-of,
  Holds,
}
use aeb_node.Prelude.Text.{Text, codes, is_empty}
use aeb_node.App.Options.{Options, default_options}
use aeb_node.App.CommandLine.{
  Outcome, done, failed, apply_flag, apply_valued, parse_loop, parse, is_help,
}
use aeb_node.App.CommandLine.Ranges.{InRange, Done, apply_valued-InRange, apply_flag-InRange}

-- Some argument asks for help.
abbrev pub Asks : List Text → Type 0
Asks [] = ⊥
Asks (arg ∷ args) = (is_help arg ≡ true) ⊎ Asks args

-- Options in range without an error, or an error, or neither on a request for help.
abbrev pub IsResult : List Text → Option Options × Text → Type 0
IsResult args (some o, error) = InRange o × (error ≡ [])
IsResult args (none, error) = (is_empty error ≡ false) ⊎ ((error ≡ []) × Asks args)

IsResult-later :
    (arg : Text) (args : List Text) (r : Option Options × Text)
    → IsResult args r
    → IsResult (arg ∷ args) r
IsResult-later arg args (some o, error) h = h
IsResult-later arg args (none, error) (inl h) = inl h
IsResult-later arg args (none, error) (inr h) = inr (h.0, inr (h.1))

parse_loop-IsResult :
    (w : ℕ) (args : List Text) (o : Options) → InRange o → IsResult args (parse_loop w args o)
unfolding parse_loop
parse_loop-IsResult w [] o h = (h, refl)
parse_loop-IsResult w (arg ∷ []) o h =
    if-of (IsResult (arg ∷ [])) (is_help arg) _ _ (λ e. inr (refl, inl e))
      (λ e. flag (apply_flag arg o) (apply_flag-InRange arg o h))
  where
    flag :
        (r : Option Options)
        → Holds InRange r
        → IsResult (arg ∷ []) (elim r [
          | some o' ↦ (some o', [])
          | none ↦ (none, codes "missing value for option " ++ arg)
        ])
    flag (some o') k = (k, refl)
    flag none k = inl refl
parse_loop-IsResult w (arg ∷ t ∷ rest) o h =
    if-of (IsResult (arg ∷ t ∷ rest)) (is_help arg) _ _ (λ e. inr (refl, inl e))
      (λ e.
        flag (λ o' k. parse_loop-IsResult w (t ∷ rest) o' k)
          (λ o' k. parse_loop-IsResult w rest o' k) (apply_flag arg o) (apply_flag-InRange arg o h)
          (apply_valued w arg t o) (apply_valued-InRange w arg t o h))
  where
    flag :
        ((o' : Options) → InRange o' → IsResult (t ∷ rest) (parse_loop w (t ∷ rest) o'))
        → ((o' : Options) → InRange o' → IsResult rest (parse_loop w rest o'))
        → (r : Option Options) → Holds InRange r
        → (q : Outcome Options) → Done InRange q
        → IsResult (arg ∷ t ∷ rest) (elim r [
          | some o' ↦ parse_loop w (t ∷ rest) o'
          | none ↦ elim q [ done o' ↦ parse_loop w rest o' | failed error ↦ (none, error) ]
        ])
    flag next after (some o') k q l = IsResult-later arg (t ∷ rest) _ (next o' k)
    flag next after none k (done o') l =
        IsResult-later arg (t ∷ rest) _ (IsResult-later t rest _ (after o' l))
    flag next after none k (failed error) l = inl l

default-InRange : InRange default_options
default-InRange = (
  (omega arith, omega arith, omega arith, omega arith),
  (omega arith, omega arith, omega arith),
  (omega arith, omega arith, omega arith, omega arith, omega arith),
  omega arith,
)

-- Whatever the arguments, parse returns options whose numbers all fit their C++ types, with an empty
-- error; or no options and an error text that is not empty; or neither, and then some argument asks
-- for help.
pub parse-IsResult :
    (w : ℕ) (program : Text) (args : List Text) → IsResult args (parse w (program ∷ args))
unfolding parse
parse-IsResult w program args = parse_loop-IsResult w args default_options default-InRange

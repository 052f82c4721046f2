-- ===== src/Prelude/Sets.antt =====
-- JavaScript's `Set` of strings, and `includes` on arrays of strings: a list in insertion order.
use mathlib.Core.Path.{◌≡◌, refl}
use mathlib.Core.Logic.{inl, inr}
use mathlib.Core.Bool.{Bool, ◌&&◌, false, ◌||◌}
use mathlib.Core.List.{List, [], ◌∷◌, ◌++◌}
use native.Mathlib.Omega.{arith}
use vcs_lab.Prelude.Tests.{if◌then◌else◌, Bool-cases}
use vcs_lab.Prelude.Lists.{filter}
use vcs_lab.Prelude.Strings.{Text, ◌==◌, ==_iff}

-- `xs.includes(a)`, `set.has(a)`.
unfoldable pub contains : List Text → Text → Bool
contains [] a = false
contains (x ∷ xs) a = x == a || contains xs a

-- `set.add(a)`.
unfoldable pub add : List Text → Text → List Text
unfolding contains
add s a = if contains s a then s else s ++ a ∷ []

unfoldable pub add_all : List Text → List Text → List Text
unfolding add
add_all s [] = s
add_all s (x ∷ xs) = add_all (add s x) xs

-- `[...new Set(xs)]`.
abbrev pub to_set : List Text → List Text
to_set = add_all []

-- No string stands twice.
abbrev pub IsNodup : List Text → Type 0
IsNodup [] = Unit
IsNodup (x ∷ xs) = (contains xs x ≡ false) × IsNodup xs

pub contains-append :
    (xs ys : List Text) (a : Text) → contains (xs ++ ys) a ≡ (contains xs a || contains ys a)
unfolding contains
contains-append [] ys a = refl
contains-append (x ∷ xs) ys a = ground (arith, contains-append xs ys a)

pub contains-concat :
    (xs : List Text) (x a : Text) → contains (xs ++ x ∷ []) a ≡ (contains xs a || x == a)
unfolding contains
contains-concat [] x a = ground arith
contains-concat (y ∷ xs) x a = ground (arith, contains-concat xs x a)

pub contains-add : (s : List Text) (x a : Text) → contains (add s x) a ≡ (contains s a || x == a)
unfolding add
contains-add s x a = ground (arith, contains-concat s x a, ==_iff x a)

pub contains-add_all :
    (s xs : List Text) (a : Text) → contains (add_all s xs) a ≡ (contains s a || contains xs a)
unfolding add_all contains
contains-add_all s [] a = ground arith
contains-add_all s (x ∷ xs) a = ground (arith, contains-add_all (add s x) xs a, contains-add s x a)

pub contains-to_set : (xs : List Text) (a : Text) → contains (to_set xs) a ≡ contains xs a
unfolding contains
contains-to_set xs a = contains-add_all [] xs a

pub IsNodup-concat :
    (xs : List Text) (x : Text) → IsNodup xs → contains xs x ≡ false → IsNodup (xs ++ x ∷ [])
unfolding contains
IsNodup-concat [] x n h = (refl, tt)
IsNodup-concat (y ∷ xs) x n h = (
  ground (arith, contains-concat xs x y, ==_iff x y, ==_iff y x),
  IsNodup-concat xs x n.1 (ground arith),
)

pub IsNodup-add : (s : List Text) (x : Text) → IsNodup s → IsNodup (add s x)
unfolding add
IsNodup-add s x n = elim (Bool-cases (contains s x)) [
  | inl old ↦ rw old n
  | inr new ↦ rw new (IsNodup-concat s x n new)
]

pub IsNodup-add_all : (s xs : List Text) → IsNodup s → IsNodup (add_all s xs)
unfolding add_all
IsNodup-add_all s [] n = n
IsNodup-add_all s (x ∷ xs) n = IsNodup-add_all (add s x) xs (IsNodup-add s x n)

pub contains-filter :
    (p : Text → Bool) (xs : List Text) (a : Text)
    → contains (filter p xs) a ≡ (contains xs a && p a)
unfolding contains
contains-filter p [] a = refl
contains-filter p (x ∷ xs) a = elim (Bool-cases (x == a)) [
  | inl same ↦
      let e = (==_iff x a).0 same in rw e (ground (arith, contains-filter p xs a, ==_iff a a))
  | inr other ↦ ground (arith, contains-filter p xs a)
]

pub IsNodup-filter : (p : Text → Bool) (xs : List Text) → IsNodup xs → IsNodup (filter p xs)
IsNodup-filter p [] n = tt
IsNodup-filter p (x ∷ xs) n = elim (Bool-cases (p x)) [
  | inl kept ↦ rw kept (ground (arith, contains-filter p xs x), IsNodup-filter p xs n.1)
  | inr dropped ↦ rw dropped (IsNodup-filter p xs n.1)
]

-- ===== src/Prelude/Strings.antt =====
-- A JavaScript string is the list of its UTF-16 code units.
use Prim.Native.Nat.{ℕ, zero, suc}
use Prim.Native.Char.{code}
use Prim.Native.String.{String}
use mathlib.Core.Path.{◌≡◌, refl}
use mathlib.Core.Logic.{◌↔◌}
use mathlib.Core.Bool.{Bool, true, false, ◌&&◌}
use mathlib.Core.List.{List, [], ◌∷◌}
use native.Mathlib.Omega.{arith}
use vcs_lab.Prelude.Tests.{eqb}

abbrev pub Text : Type 0
Text = List ℕ

-- The code units of a literal: every literal of this development is ASCII.
abbrev pub codes : String → Text
codes String.[] = []
codes (String.◌∷◌ c s) = code c ∷ codes s

-- `===` on strings.
infix 50 ◌==◌
unfoldable pub ◌==◌ : Text → Text → Bool
[] == [] = true
(x ∷ xs) == (y ∷ ys) = eqb x y && xs == ys
_ == _ = false

pub ==_iff : (a b : Text) → ((a == b) ≡ true) ↔ (a ≡ b)
unfolding ◌==◌
==_iff (x ∷ a) (y ∷ b) = ground (arith, ==_iff a b)
==_iff _ _ = ground arith

pub ==_refl : (a : Text) → (a == a) ≡ true
==_refl a = (==_iff a a).1 refl

pub ==_sym : (a b : Text) → (a == b) ≡ (b == a)
==_sym a b = ground (arith, ==_iff a b, ==_iff b a)

-- `text.slice(0, n)`.
abbrev pub take : ℕ → Text → Text
take zero xs = []
take (suc n) [] = []
take (suc n) (x ∷ xs) = x ∷ take n xs

-- `text.slice(n)`.
abbrev pub drop : ℕ → Text → Text
drop zero xs = xs
drop (suc n) [] = []
drop (suc n) (x ∷ xs) = drop n xs

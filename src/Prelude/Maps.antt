-- ===== src/Prelude/Maps.antt =====
-- JavaScript's `Map` with string keys: an association list in insertion order.
use mathlib.Core.Path.{◌≡◌, refl}
use mathlib.Core.Bool.{Bool, ◌||◌}
use mathlib.Core.List.{List, [], ◌∷◌}
use mathlib.Core.Option.{Option, none, some}
use native.Mathlib.Omega.{arith}
use vcs_lab.Prelude.Tests.{if◌then◌else◌, is_some}
use vcs_lab.Prelude.Strings.{Text, ◌==◌, ==_iff}
use vcs_lab.Prelude.Sets.{contains, IsNodup}

abbrev pub Dict {ℓ} : Type ℓ → Type ℓ
Dict V = List (Text × V)

module _ {ℓ} {V : Type ℓ} where
  -- `map.get(k)`.
  unfoldable pub lookup : Dict V → Text → Option V
  lookup [] k = none
  lookup ((j, v) ∷ m) k = let rest = lookup m k in if j == k then some v else rest

  -- `map.has(k)`.
  abbrev pub has : Dict V → Text → Bool
  has m k = is_some (lookup m k)

  -- `map.set(k, v)`: a known key keeps its place, a new one goes last.
  unfoldable pub insert : Dict V → Text → V → Dict V
  insert [] k v = (k, v) ∷ []
  insert ((j, w) ∷ m) k v = let rest = (j, w) ∷ insert m k v in if j == k then (k, v) ∷ m else rest

  -- `[...map.keys()]`.
  unfoldable pub keys : Dict V → List Text
  keys [] = []
  keys ((j, w) ∷ m) = j ∷ keys m

  pub lookup-insert :
      (m : Dict V) (k j : Text) (v : V)
      → lookup (insert m k v) j ≡ (if k == j then some v else lookup m j)
  unfolding lookup insert
  lookup-insert [] k j v = refl
  lookup-insert ((i, w) ∷ m) k j v =
      ground (arith, ==_iff k j, ==_iff i k, ==_iff i j, lookup-insert m k j v)

  pub contains-keys : (m : Dict V) (k : Text) → contains (keys m) k ≡ has m k
  unfolding lookup keys contains
  contains-keys [] k = refl
  contains-keys ((j, w) ∷ m) k = ground (arith, contains-keys m k)

  pub contains-keys-insert :
      (m : Dict V) (k j : Text) (v : V)
      → contains (keys (insert m k v)) j ≡ (k == j || contains (keys m) j)
  unfolding insert keys contains
  contains-keys-insert [] k j v = refl
  contains-keys-insert ((i, w) ∷ m) k j v =
      ground (arith, ==_iff k j, ==_iff i k, ==_iff i j, contains-keys-insert m k j v)

  pub IsNodup-keys-insert :
      (m : Dict V) (k : Text) (v : V) → IsNodup (keys m) → IsNodup (keys (insert m k v))
  unfolding insert keys contains
  IsNodup-keys-insert [] k v n = (refl, tt)
  IsNodup-keys-insert ((i, w) ∷ m) k v n =
      ground
        (arith, ==_iff k i, ==_iff i k, contains-keys-insert m k i v, IsNodup-keys-insert m k v n.1)

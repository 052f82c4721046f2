-- ===== src/Prelude/Order.antt =====
-- `Array.prototype.sort`: a stable insertion sort by a test, and the order of strings by their
-- UTF-16 code units.
use mathlib.Core.Path.{◌≡◌, refl, ◌∙◌}
use mathlib.Core.Logic.{inl, inr}
use mathlib.Core.Bool.{Bool, true, false, ◌&&◌, ◌||◌, not}
use mathlib.Core.List.{List, [], ◌∷◌, map}
use native.Mathlib.Omega.{arith}
use vcs_lab.Prelude.Tests.{ltb, eqb, if◌then◌else◌, Bool-cases}
use vcs_lab.Prelude.Lists.{any, count_if, All}
use vcs_lab.Prelude.Strings.{Text, ◌==◌, ==_sym}
use vcs_lab.Prelude.Sets.{contains, IsNodup}

module _ {ℓ} {A : Type ℓ} (le : A → A → Bool) where
  unfoldable pub insert_sorted : A → List A → List A
  insert_sorted x [] = x ∷ []
  insert_sorted x (y ∷ ys) =
      let rest = y ∷ insert_sorted x ys in if le x y then x ∷ y ∷ ys else rest

  -- `xs.sort(compare)`.
  unfoldable pub sort_by : List A → List A
  unfolding insert_sorted
  sort_by [] = []
  sort_by (x ∷ xs) = insert_sorted x (sort_by xs)

  -- No item stands before a smaller one.
  abbrev pub IsSorted : List A → Type 0
  IsSorted [] = Unit
  IsSorted (x ∷ []) = Unit
  IsSorted (x ∷ y ∷ ys) = (le x y ≡ true) × IsSorted (y ∷ ys)

  pub any-insert_sorted :
      (p : A → Bool) (x : A) (xs : List A) → any p (insert_sorted x xs) ≡ (p x || any p xs)
  unfolding insert_sorted
  any-insert_sorted p x [] = refl
  any-insert_sorted p x (y ∷ ys) = ground (arith, any-insert_sorted p x ys)

  pub any-sort_by : (p : A → Bool) (xs : List A) → any p (sort_by xs) ≡ any p xs
  unfolding sort_by
  any-sort_by p [] = refl
  any-sort_by p (x ∷ xs) = ground (arith, any-sort_by p xs, any-insert_sorted p x (sort_by xs))

  pub count_if-insert_sorted :
      (p : A → Bool) (x : A) (xs : List A) → count_if p (insert_sorted x xs) ≡ count_if p (x ∷ xs)
  unfolding insert_sorted
  count_if-insert_sorted p x [] = refl
  count_if-insert_sorted p x (y ∷ ys) = ground (arith, count_if-insert_sorted p x ys)

  -- A sort keeps every item, as often as it stands there.
  pub count_if-sort_by : (p : A → Bool) (xs : List A) → count_if p (sort_by xs) ≡ count_if p xs
  unfolding sort_by
  count_if-sort_by p [] = refl
  count_if-sort_by p (x ∷ xs) =
      omega (arith, count_if-sort_by p xs, count_if-insert_sorted p x (sort_by xs))

  module _ (total : (x y : A) → le x y ≡ false → le y x ≡ true) where
    pub IsSorted-insert_sorted : (x : A) (xs : List A) → IsSorted xs → IsSorted (insert_sorted x xs)
    unfolding insert_sorted
    IsSorted-insert_sorted x [] s = tt
    IsSorted-insert_sorted x (y ∷ []) s = ground (arith, total x y)
    IsSorted-insert_sorted x (y ∷ z ∷ zs) s =
        ground (arith, total x y, IsSorted-insert_sorted x (z ∷ zs) s.1)

    pub IsSorted-sort_by : (xs : List A) → IsSorted (sort_by xs)
    unfolding sort_by
    IsSorted-sort_by [] = tt
    IsSorted-sort_by (x ∷ xs) = IsSorted-insert_sorted x (sort_by xs) (IsSorted-sort_by xs)

module _ {ℓ κ} {A : Type ℓ} (le : A → A → Bool) (P : A → Type κ) where
  pub All-insert_sorted : (x : A) (xs : List A) → P x → All P xs → All P (insert_sorted le x xs)
  unfolding insert_sorted
  All-insert_sorted x [] px h = (px, tt)
  All-insert_sorted x (y ∷ ys) px h = elim (Bool-cases (le x y)) [
    | inl small ↦ rw small (px, h)
    | inr large ↦ rw large (h.0, All-insert_sorted x ys px h.1)
  ]

  pub All-sort_by : (xs : List A) → All P xs → All P (sort_by le xs)
  unfolding sort_by
  All-sort_by [] h = tt
  All-sort_by (x ∷ xs) h = All-insert_sorted x (sort_by le xs) h.0 (All-sort_by xs h.1)

module _ {ℓ} {A : Type ℓ} (le : A → A → Bool) (key : A → Text) where
  contains-map-insert_sorted :
      (x : A) (xs : List A) (k : Text)
      → contains (map key (insert_sorted le x xs)) k ≡ (key x == k || contains (map key xs) k)
  unfolding insert_sorted contains
  contains-map-insert_sorted x [] k = refl
  contains-map-insert_sorted x (y ∷ ys) k = ground (arith, contains-map-insert_sorted x ys k)

  contains-map-sort_by :
      (xs : List A) (k : Text) → contains (map key (sort_by le xs)) k ≡ contains (map key xs) k
  unfolding sort_by contains
  contains-map-sort_by [] k = refl
  contains-map-sort_by (x ∷ xs) k =
      ground (arith, contains-map-sort_by xs k, contains-map-insert_sorted x (sort_by le xs) k)

  IsNodup-map-insert_sorted :
      (x : A) (xs : List A)
      → contains (map key xs) (key x) ≡ false
      → IsNodup (map key xs)
      → IsNodup (map key (insert_sorted le x xs))
  unfolding insert_sorted contains
  IsNodup-map-insert_sorted x [] h n = (refl, tt)
  IsNodup-map-insert_sorted x (y ∷ ys) h n = elim (Bool-cases (le x y)) [
    | inl small ↦ rw small (h, n)
    | inr large ↦ rw large (
      ground (arith, contains-map-insert_sorted x ys (key y), ==_sym (key x) (key y)),
      IsNodup-map-insert_sorted x ys (ground arith) n.1,
    )
  ]

  -- A sort keeps keys distinct.
  pub IsNodup-map-sort_by : (xs : List A) → IsNodup (map key xs) → IsNodup (map key (sort_by le xs))
  unfolding sort_by
  IsNodup-map-sort_by [] n = tt
  IsNodup-map-sort_by (x ∷ xs) n =
      IsNodup-map-insert_sorted x (sort_by le xs) (contains-map-sort_by xs (key x) ∙ n.0)
        (IsNodup-map-sort_by xs n.1)

-- `a < b` on strings.
unfoldable pub text_lt : Text → Text → Bool
text_lt [] [] = false
text_lt [] (d ∷ ds) = true
text_lt (c ∷ cs) [] = false
text_lt (c ∷ cs) (d ∷ ds) = ltb c d || eqb c d && text_lt cs ds

abbrev pub text_le : Text → Text → Bool
text_le a b = not (text_lt b a)

pub text_lt_asymm : (a b : Text) → text_lt a b ≡ true → text_lt b a ≡ false
unfolding text_lt
text_lt_asymm [] [] h = cc
text_lt_asymm [] (d ∷ ds) h = refl
text_lt_asymm (c ∷ cs) [] h = cc
text_lt_asymm (c ∷ cs) (d ∷ ds) h = ground (arith, text_lt_asymm cs ds)

pub text_lt_trans : (a b c : Text) → text_lt a b ≡ true → text_lt b c ≡ true → text_lt a c ≡ true
unfolding text_lt
text_lt_trans [] b [] h k = ground arith
text_lt_trans [] [] (e ∷ es) h k = cc
text_lt_trans [] (d ∷ ds) (e ∷ es) h k = refl
text_lt_trans (c ∷ cs) [] e h k = cc
text_lt_trans (c ∷ cs) (d ∷ ds) [] h k = cc
text_lt_trans (c ∷ cs) (d ∷ ds) (e ∷ es) h k = ground (arith, text_lt_trans cs ds es)

pub text_lt_total : (a b : Text) → text_lt a b ≡ false → text_lt b a ≡ false → a ≡ b
unfolding text_lt
text_lt_total [] [] h k = refl
text_lt_total [] (d ∷ ds) h k = cc
text_lt_total (c ∷ cs) [] h k = cc
text_lt_total (c ∷ cs) (d ∷ ds) h k = ground (arith, text_lt_total cs ds)

pub text_le_refl : (a : Text) → text_le a a ≡ true
text_le_refl a = ground (arith, text_lt_asymm a a)

pub text_le_trans : (a b c : Text) → text_le a b ≡ true → text_le b c ≡ true → text_le a c ≡ true
text_le_trans a b c h k =
    ground (arith, text_lt_trans b c a, text_lt_total b c, text_lt_trans c a b, text_lt_asymm c b)

-- `xs.sort()`.
abbrev pub sort_texts : List Text → List Text
sort_texts = sort_by text_le

pub any-contains : (xs : List Text) (a : Text) → contains xs a ≡ any (λ x. x == a) xs
unfolding contains
any-contains [] a = refl
any-contains (x ∷ xs) a = ground (arith, any-contains xs a)

pub contains-sort_texts : (xs : List Text) (a : Text) → contains (sort_texts xs) a ≡ contains xs a
contains-sort_texts xs a =
    any-contains (sort_texts xs) a ∙ any-sort_by text_le (λ x. x == a) xs ∙ (rw any-contains)

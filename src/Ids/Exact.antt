-- ===== src/Ids/Exact.antt =====
-- What `parseLogicalId` of src/ids.js accepts.
use mathlib.Core.Path.{subst}
use vcs_lab.Prelude.{
  ◌≡◌, refl, sym, ap, ◌∙◌, arith, ℕ, zero, suc, ◌-◌, ◌≤◌, Bool, true, false, ◌&&◌, Option, none,
  some, [], ◌∷◌, ◌++◌, if◌then◌else◌, all, eqb, length, Text, take, drop, contains,
}
use vcs_lab.Ids.{
  id_namespaces, is_base36, is_hex, is_namespace, Reason, unknown_namespace, Parsed, valid, invalid,
  Match, match_rest, match_pattern, from_match, parse_logical_id,
}

-- The parts of a text that the expression matches.
record Fits (value : Text) (m : Match) : Type 0 where
  pub whole : value ≡ m.namespace ++ b'_' ∷ (m.minted ++ m.random)
  pub minted_nine : length m.minted ≡ 9
  pub random_twelve : length m.random ≡ 12
  pub minted_base36 : all is_base36 m.minted ≡ true
  pub random_hex : all is_hex m.random ≡ true

take-drop : (n : ℕ) (xs : Text) → take n xs ++ drop n xs ≡ xs
take-drop zero xs = refl
take-drop (suc n) [] = refl
take-drop (suc n) (x ∷ xs) = ap (λ ys. x ∷ ys) (take-drop n xs)

length-take : (n : ℕ) (xs : Text) → n ≤ length xs → length (take n xs) ≡ n
length-take zero xs h = refl
length-take (suc n) [] h = absurd (omega (arith, h))
length-take (suc n) (x ∷ xs) h = ap suc (length-take n xs (omega (arith, h)))

length-drop : (n : ℕ) (xs : Text) → length (drop n xs) ≡ length xs - n
length-drop zero xs = omega arith
length-drop (suc n) [] = omega arith
length-drop (suc n) (x ∷ xs) = length-drop n xs ∙ omega arith

some_match : (m n : Match) → some m ≡ some n → m ≡ n
some_match m n h = cc h

some_of :
    {A : Type 0} (b : Bool) (x y : A)
    → (if b then some x else none) ≡ some y
    → (b ≡ true) × (some x ≡ some y)
some_of true x y h = (refl, h)
some_of false x y h = absurd (cc h)

-- The test of the expression, taken apart.
tests :
    (a b c d e : Bool)
    → (a && b && c && d && e) ≡ true
    → (a ≡ true) × (c ≡ true) × (d ≡ true) × (e ≡ true)
tests a b c d e h = ground arith

eqb_same : (a b : ℕ) → eqb a b ≡ true → a ≡ b
eqb_same a b h = ground arith

parts-Fits :
    (head rest : Text) (c : ℕ)
    → eqb c b'_' ≡ true
    → eqb (length rest) 21 ≡ true
    → all is_base36 (take 9 rest) ≡ true
    → all is_hex (drop 9 rest) ≡ true
    → Fits
        (head ++ c ∷ rest)
        (record { namespace = head; minted = take 9 rest; random = drop 9 rest })
parts-Fits head rest c under size minted random = record {
  whole = λ i. head ++ eqb_same c b'_' under i ∷ sym (take-drop 9 rest) i;
  minted_nine = length-take 9 rest (omega (arith, eqb_same (length rest) 21 size));
  random_twelve = length-drop 9 rest ∙ omega (arith, eqb_same (length rest) 21 size);
  minted_base36 = minted;
  random_hex = random;
}

match_rest-Fits :
    (head tail : Text) (m : Match) → match_rest head tail ≡ some m → Fits (head ++ tail) m
match_rest-Fits head [] m h = absurd (cc h)
match_rest-Fits head (c ∷ rest) m h =
    let found = some_of _ _ m h in
    let passed = tests (eqb c b'_') (is_namespace head) _ _ _ found.0 in
    subst (Fits (head ++ c ∷ rest)) (some_match _ m found.1)
      (parts-Fits head rest c passed.0 passed.1 passed.2 passed.3)

match_pattern-Fits : (value : Text) (m : Match) → match_pattern value ≡ some m → Fits value m
unfolding match_pattern
match_pattern-Fits value m h =
    subst (λ v. Fits v m) (take-drop (length value - 22) value)
      (match_rest-Fits (take (length value - 22) value) (drop (length value - 22) value) m h)

-- The end of `parseLogicalId` found a match of a known namespace.
valid_of :
    (b : Bool) (found : Match) (namespace minted random : Text)
    → (if b
        then valid found.namespace found.minted found.random
        else invalid (unknown_namespace found.namespace))
      ≡ valid namespace minted random
    → (b ≡ true) × (found ≡ record { namespace = namespace; minted = minted; random = random })
valid_of false found n m r h = absurd (cc h)
valid_of true found n m r h =
    (refl, λ i. record { namespace = first i; minted = second i; random = third i })
  where
    first : found.namespace ≡ n
    first = cc h

    second : found.minted ≡ m
    second = cc h

    third : found.random ≡ r
    third = cc h

from_match-valid :
    (o : Option Match) (namespace minted random : Text)
    → from_match o ≡ valid namespace minted random
    → (o ≡ some (record { namespace = namespace; minted = minted; random = random }))
      × (contains id_namespaces namespace ≡ true)
unfolding from_match
from_match-valid none n m r h = absurd (cc h)
from_match-valid (some found) n m r h =
    let inside = valid_of (contains id_namespaces found.namespace) found n m r h in
    (
      ap some inside.1,
      ap (λ (f : Match). contains id_namespaces f.namespace) (sym inside.1) ∙ inside.0,
    )

valid_unless :
    (b : Bool) (reason : Reason) (p : Parsed) (namespace minted random : Text)
    → (if b then invalid reason else p) ≡ valid namespace minted random
    → p ≡ valid namespace minted random
valid_unless true reason p n m r h = absurd (cc h)
valid_unless false reason p n m r h = h

-- A string that is read as a logical identifier is a known namespace, an underscore, nine digits of base 36
-- and twelve hexadecimal digits, which are the parts that are read.
pub parsed_parts_exact :
    (value namespace minted random : Text)
    → parse_logical_id value ≡ valid namespace minted random
    → (value ≡ namespace ++ b'_' ∷ (minted ++ random))
      × (contains id_namespaces namespace ≡ true)
      × (length minted ≡ 9)
      × (length random ≡ 12)
      × (all is_base36 minted ≡ true)
      × (all is_hex random ≡ true)
unfolding parse_logical_id
parsed_parts_exact [] n m r h = absurd (cc h)
parsed_parts_exact (c ∷ cs) n m r h =
    let found = from_match-valid (match_pattern (c ∷ cs)) n m r (valid_unless _ _ _ n m r h) in
    let fits =
      match_pattern-Fits (c ∷ cs) (record { namespace = n; minted = m; random = r }) found.0 in
    (fits.whole, found.1, fits.minted_nine, fits.random_twelve, fits.minted_base36, fits.random_hex)

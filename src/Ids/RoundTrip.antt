-- ===== src/Ids/RoundTrip.antt =====
-- `parseLogicalId` reads back what `newId` of src/ids.js mints.
use Prim.Native.Nat.{◌/◌, ◌%◌, ◌^◌}
use mathlib.Core.Path.{subst}
use vcs_lab.Prelude.{
  inl, inr, Bool-cases, ◌≡◌, refl, sym, ap, ◌∙◌, arith, ℕ, zero, suc, ◌+◌, ◌-◌, ◌*◌, ◌≤◌, ◌<◌, Bool,
  true, false, not, ◌&&◌, none, some, List, [], ◌∷◌, ◌++◌, if◌then◌else◌, all, All, leb, eqb,
  length, length-append, Text, codes, ◌==◌, ==_iff, take, drop, contains,
}
use vcs_lab.Ids.{
  id_namespaces, is_base36, is_hex, is_namespace, digit, digits_from, to_string36, repeat,
  pad_start, to_hex, new_id, valid, match_rest, match_pattern, from_match, parse_logical_id,
}

-- The number that a digit stands for, and the number that a numeral stands for after some digits.
abbrev pub value_of : ℕ → ℕ
value_of c = if leb c b'9' then c - b'0' else c - b'a' + 10

abbrev pub number_after : ℕ → Text → ℕ
number_after n [] = n
number_after n (c ∷ cs) = number_after (n * 36 + value_of c) cs

-- The bytes that hexadecimal digits stand for.
abbrev pub bytes_of : Text → List ℕ
bytes_of (a ∷ b ∷ rest) = (value_of a * 16 + value_of b) ∷ bytes_of rest
bytes_of _ = []

value_of-digit : (d : ℕ) → d < 36 → value_of (digit d) ≡ d
value_of-digit d h = ground arith

is_base36-digit : (d : ℕ) → d < 36 → is_base36 (digit d) ≡ true
is_base36-digit d h = ground arith

is_hex-digit : (d : ℕ) → d < 16 → is_hex (digit d) ≡ true
is_hex-digit d h = ground arith

length-digits_from :
    (fuel n k : ℕ) (out : Text) → n < 36 ^ k → length (digits_from fuel n out) ≤ k + length out
unfolding digits_from
length-digits_from zero n k out h = omega arith
length-digits_from (suc fuel) zero k out h = omega arith
length-digits_from (suc fuel) (suc m) zero out h = absurd (omega (arith, h))
length-digits_from (suc fuel) (suc m) (suc k) out h =
    omega
      (arith, length-digits_from fuel (suc m / 36) k (digit (suc m % 36) ∷ out) (omega (arith, h)))

all-digits_from :
    (fuel n : ℕ) (out : Text)
    → all is_base36 out ≡ true
    → all is_base36 (digits_from fuel n out) ≡ true
unfolding digits_from
all-digits_from zero n out h = h
all-digits_from (suc fuel) zero out h = h
all-digits_from (suc fuel) (suc m) out h =
    all-digits_from fuel (suc m / 36) (digit (suc m % 36) ∷ out)
      (ground (arith, is_base36-digit (suc m % 36) (omega arith)))

number_after-digits_from :
    (fuel n : ℕ) (out : Text)
    → n ≤ fuel
    → number_after 0 (digits_from fuel n out) ≡ number_after n out
unfolding digits_from
number_after-digits_from zero zero out h = refl
number_after-digits_from zero (suc m) out h = absurd (omega (arith, h))
number_after-digits_from (suc fuel) zero out h = refl
number_after-digits_from (suc fuel) (suc m) out h =
    number_after-digits_from fuel (suc m / 36) (digit (suc m % 36) ∷ out) (omega (arith, h))
    ∙ ap (λ n. number_after n out) (omega (arith, value_of-digit (suc m % 36) (omega arith)))

length-repeat : (n c : ℕ) → length (repeat n c) ≡ n
length-repeat zero c = refl
length-repeat (suc n) c = ap suc (length-repeat n c)

all-repeat :
    (n : ℕ) (xs : Text) → all is_base36 xs ≡ true → all is_base36 (repeat n b'0' ++ xs) ≡ true
all-repeat zero xs h = h
all-repeat (suc n) xs h = ground (arith, all-repeat n xs h)

number_after-repeat : (n : ℕ) (xs : Text) → number_after 0 (repeat n b'0' ++ xs) ≡ number_after 0 xs
number_after-repeat zero xs = refl
number_after-repeat (suc n) xs = number_after-repeat n xs

-- The clock in nine digits.
pub clock : ℕ → Text
clock now = pad_start 9 b'0' (to_string36 now)

length-clock : (now : ℕ) → now < 36 ^ 9 → length (clock now) ≡ 9
unfolding clock pad_start to_string36
length-clock zero h = refl
length-clock (suc n) h =
    length-append (repeat (9 - length (digits_from (suc n) (suc n) [])) b'0') _
    ∙ omega (
      arith,
      length-repeat (9 - length (digits_from (suc n) (suc n) [])) b'0',
      length-digits_from (suc n) (suc n) 9 [] h,
    )

all-clock : (now : ℕ) → all is_base36 (clock now) ≡ true
unfolding clock pad_start to_string36
all-clock zero = refl
all-clock (suc n) =
    all-repeat (9 - length (digits_from (suc n) (suc n) [])) _
      (all-digits_from (suc n) (suc n) [] refl)

number_after-clock : (now : ℕ) → number_after 0 (clock now) ≡ now
unfolding clock pad_start to_string36
number_after-clock zero = refl
number_after-clock (suc n) =
    number_after-repeat (9 - length (digits_from (suc n) (suc n) [])) _
    ∙ number_after-digits_from (suc n) (suc n) [] (omega arith)

all-to_hex : (bytes : List ℕ) → All (λ b. b < 256) bytes → all is_hex (to_hex bytes) ≡ true
unfolding to_hex
all-to_hex [] h = refl
all-to_hex (b ∷ bs) h = grind (
  arith,
  is_hex-digit (b / 16) (omega (arith, h.0)),
  is_hex-digit (b % 16) (omega arith),
  all-to_hex bs h.1,
)

length-to_hex : (bytes : List ℕ) → length (to_hex bytes) ≡ 2 * length bytes
unfolding to_hex
length-to_hex [] = refl
length-to_hex (b ∷ bs) = omega (arith, length-to_hex bs)

bytes_of-to_hex : (bytes : List ℕ) → All (λ b. b < 256) bytes → bytes_of (to_hex bytes) ≡ bytes
unfolding to_hex
bytes_of-to_hex [] h = refl
bytes_of-to_hex (b ∷ bs) h = λ i. byte i ∷ bytes_of-to_hex bs h.1 i
  where
    byte : value_of (digit (b / 16)) * 16 + value_of (digit (b % 16)) ≡ b
    byte = omega (
      arith,
      h.0,
      value_of-digit (b / 16) (omega (arith, h.0)),
      value_of-digit (b % 16) (omega arith),
    )

take-append : (xs ys : Text) → take (length xs) (xs ++ ys) ≡ xs
take-append [] ys = refl
take-append (x ∷ xs) ys = ap (λ zs. x ∷ zs) (take-append xs ys)

drop-append : (xs ys : Text) → drop (length xs) (xs ++ ys) ≡ ys
drop-append [] ys = refl
drop-append (x ∷ xs) ys = drop-append xs ys

-- A namespace fits its class and does not begin like the address of a commit.
abbrev is_plain : Text → Bool
is_plain [] = false
is_plain (c ∷ cs) = is_namespace (c ∷ cs) && not (eqb c b'g')

all_plain : all is_plain id_namespaces ≡ true
unfolding is_namespace
all_plain = refl

member-all :
    (p : Text → Bool) (xs : List Text) (a : Text)
    → all p xs ≡ true
    → contains xs a ≡ true
    → p a ≡ true
unfolding contains
member-all p [] a h k = absurd (cc k)
member-all p (x ∷ xs) a h k = elim (Bool-cases (x == a)) [
  | inl same ↦ subst (λ b. p b ≡ true) ((==_iff x a).0 same) (ground (arith, h))
  | inr other ↦ member-all p xs a (ground (arith, h)) (ground (arith, k, other))
]

if_true : {A : Type 0} (b : Bool) (x y : A) → b ≡ true → (if b then x else y) ≡ x
if_true true x y h = refl
if_true false x y h = absurd (cc h)

if_false : {A : Type 0} (b : Bool) (x y : A) → b ≡ false → (if b then x else y) ≡ y
if_false true x y h = absurd (cc h)
if_false false x y h = refl

match_rest-fits :
    (head minted random rest : Text)
    → is_namespace head ≡ true
    → length rest ≡ 21
    → take 9 rest ≡ minted
    → drop 9 rest ≡ random
    → all is_base36 minted ≡ true
    → all is_hex random ≡ true
    → match_rest head (b'_' ∷ rest)
      ≡ some (record { namespace = head; minted = minted; random = random })
match_rest-fits head minted random rest h size nine dropped a b =
    if_true _ _ none
      (ground (arith, h, size, ap (all is_base36) nine ∙ a, ap (all is_hex) dropped ∙ b))
    ∙ (λ i. some (record { namespace = head; minted = nine i; random = dropped i }))

match-new_id :
    (prefix minted random : Text)
    → is_namespace prefix ≡ true
    → length minted ≡ 9
    → length random ≡ 12
    → all is_base36 minted ≡ true
    → all is_hex random ≡ true
    → match_pattern (prefix ++ b'_' ∷ (minted ++ random))
      ≡ some (record { namespace = prefix; minted = minted; random = random })
unfolding match_pattern
match-new_id prefix minted random h m r a b =
    ap (λ n. match_rest (take n value) (drop n value)) width
    ∙ (λ i. match_rest (take-append prefix rest i) (drop-append prefix rest i))
    ∙ match_rest-fits prefix minted random (minted ++ random) h
        (length-append minted random ∙ omega (arith, m, r))
        (ap (λ n. take n (minted ++ random)) (sym m) ∙ take-append minted random)
        (ap (λ n. drop n (minted ++ random)) (sym m) ∙ drop-append minted random) a b
  where
    rest : Text
    rest = b'_' ∷ (minted ++ random)

    value : Text
    value = prefix ++ rest

    width : length value - 22 ≡ length prefix
    width = omega (arith, length-append prefix rest, length-append minted random, m, r)

and_not : (a b : Bool) → (a && not b) ≡ true → b ≡ false
and_not a b h = ground arith

not_git : (c : ℕ) (rest : Text) → eqb c b'g' ≡ false → (take 4 (c ∷ rest) == codes "git:") ≡ false
unfolding ◌==◌
not_git c rest h = ap (λ b. b && (take 3 rest == codes "it:")) h

-- The rest of `parseLogicalId`, for a plain namespace.
parsed_plain :
    (prefix minted random : Text)
    → is_plain prefix ≡ true
    → contains id_namespaces prefix ≡ true
    → match_pattern (prefix ++ b'_' ∷ (minted ++ random))
      ≡ some (record { namespace = prefix; minted = minted; random = random })
    → parse_logical_id (prefix ++ b'_' ∷ (minted ++ random)) ≡ valid prefix minted random
unfolding parse_logical_id from_match ◌==◌
parsed_plain [] minted random plain known fits = absurd (cc plain)
parsed_plain (c ∷ cs) minted random plain known fits =
    if_false (take 4 (c ∷ (cs ++ b'_' ∷ (minted ++ random))) == codes "git:") _ _
      (not_git c (cs ++ b'_' ∷ (minted ++ random)) (and_not _ (eqb c b'g') plain))
    ∙ ap from_match fits
    ∙ if_true _ _ _ known

plain_namespace : (prefix : Text) → is_plain prefix ≡ true → is_namespace prefix ≡ true
plain_namespace [] h = absurd (cc h)
plain_namespace (c ∷ cs) h = ground (arith, h)

-- An identifier that is minted for a known namespace, at a clock that nine digits hold and with six random
-- bytes, is read as one of that namespace; the parts that are read give back the clock and the bytes.
pub parse_logical_id-new_id :
    (prefix : Text) (now : ℕ) (bytes : List ℕ)
    → contains id_namespaces prefix ≡ true
    → now < 36 ^ 9
    → length bytes ≡ 6
    → All (λ b. b < 256) bytes
    → (parse_logical_id (new_id prefix now bytes) ≡ valid prefix (clock now) (to_hex bytes))
      × (number_after 0 (clock now) ≡ now)
      × (bytes_of (to_hex bytes) ≡ bytes)
unfolding new_id clock
parse_logical_id-new_id prefix now bytes known fits six small = (
  parsed_plain prefix (clock now) (to_hex bytes) plain known (
      match-new_id prefix (clock now) (to_hex bytes) (plain_namespace prefix plain)
        (length-clock now fits) (length-to_hex bytes ∙ omega (arith, six)) (all-clock now)
        (all-to_hex bytes small)),
  number_after-clock now,
  bytes_of-to_hex bytes small,
)
  where
    plain : is_plain prefix ≡ true
    plain = member-all is_plain id_namespaces prefix all_plain known

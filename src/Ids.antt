-- ===== src/Ids.antt =====
-- src/ids.js: `newId`, `parseLogicalId` and `isLogicalId`, with the numeral of a clock and the hexadecimal
-- digits of random bytes as JavaScript and Node.js write them. The hashes and `slug` are left out.
pub mod RoundTrip
pub mod Exact
pub mod Examples
use Prim.Native.Nat.{◌/◌, ◌%◌}
use vcs_lab.Prelude.{
  ℕ, zero, suc, ◌+◌, ◌-◌, Bool, true, false, not, ◌&&◌, ◌||◌, Option, none, some, List, [], ◌∷◌,
  ◌++◌, if◌then◌else◌, all, ltb, leb, eqb, length, Text, codes, ◌==◌, take, drop, contains,
}

-- `Object.keys(ID_NAMESPACES)`.
abbrev pub id_namespaces : List Text
id_namespaces =
    codes "ch"
    ∷ codes "land"
    ∷ codes "apply"
    ∷ codes "reconcile"
    ∷ codes "reconcile_op"
    ∷ codes "rebase"
    ∷ codes "rebase_apply"
    ∷ codes "rebase_op"
    ∷ codes "forecast"
    ∷ codes "rebase_forecast"
    ∷ codes "resolution"
    ∷ codes "ws"
    ∷ codes "prov"
    ∷ codes "artifact"
    ∷ codes "disposition"
    ∷ codes "amend"
    ∷ codes "absorb"
    ∷ []

-- The classes of the expression.
abbrev pub between : ℕ → ℕ → ℕ → Bool
between low high c = leb low c && leb c high

abbrev pub is_lower : ℕ → Bool
is_lower c = between b'a' b'z' c

abbrev pub is_base36 : ℕ → Bool
is_base36 c = between b'0' b'9' c || is_lower c

abbrev pub is_hex : ℕ → Bool
is_hex c = between b'0' b'9' c || between b'a' b'f' c

unfoldable pub is_namespace : Text → Bool
is_namespace [] = false
is_namespace (c ∷ cs) = is_lower c && all (λ d. is_lower d || eqb d b'_') cs

-- A digit of a numeral with a base of up to 36.
abbrev pub digit : ℕ → ℕ
digit d = if ltb d 10 then b'0' + d else b'a' + (d - 10)

-- `number.toString(36)`, the digits from the last one on; as many rounds as the number are enough.
unfoldable pub digits_from : ℕ → ℕ → Text → Text
digits_from zero n out = out
digits_from (suc fuel) zero out = out
digits_from (suc fuel) (suc m) out = digits_from fuel (suc m / 36) (digit (suc m % 36) ∷ out)

unfoldable pub to_string36 : ℕ → Text
unfolding digits_from
to_string36 zero = b'0' ∷ []
to_string36 (suc n) = digits_from (suc n) (suc n) []

abbrev pub repeat : ℕ → ℕ → Text
repeat zero c = []
repeat (suc n) c = c ∷ repeat n c

-- `text.padStart(width, c)`.
unfoldable pub pad_start : ℕ → ℕ → Text → Text
pad_start width c text = repeat (width - length text) c ++ text

-- `bytes.toString("hex")`.
unfoldable pub to_hex : List ℕ → Text
to_hex [] = []
to_hex (b ∷ bs) = digit (b / 16) ∷ digit (b % 16) ∷ to_hex bs

-- `newId`, at a clock and with random bytes.
unfoldable pub new_id : Text → ℕ → List ℕ → Text
unfolding to_string36 pad_start to_hex
new_id prefix now bytes = prefix ++ b'_' ∷ (pad_start 9 b'0' (to_string36 now) ++ to_hex bytes)

pub data Reason : Type 0 where
  not_a_string commit_fallback_identity malformed : Reason
  unknown_namespace : Text → Reason

pub data Parsed : Type 0 where
  valid : Text → Text → Text → Parsed
  invalid : Reason → Parsed

pub record Match : Type 0 where
  pub namespace : Text
  pub minted : Text
  pub random : Text

-- What follows the namespace, which are 22 characters.
abbrev pub match_rest : Text → Text → Option Match
match_rest head [] = none
match_rest head (c ∷ rest) =
    if eqb c b'_'
      && is_namespace head
      && eqb (length rest) 21
      && all is_base36 (take 9 rest)
      && all is_hex (drop 9 rest)
    then some (record { namespace = head; minted = take 9 rest; random = drop 9 rest })
    else none

-- `value.match(LOGICAL_ID_PATTERN)`: the two classes at the end have a fixed length, so the namespace is
-- all that precedes the last 22 characters.
unfoldable pub match_pattern : Text → Option Match
unfolding is_namespace
match_pattern value = let n = length value - 22 in match_rest (take n value) (drop n value)

unfoldable pub from_match : Option Match → Parsed
unfolding contains
from_match none = invalid malformed
from_match (some m) =
    if contains id_namespaces m.namespace
    then valid m.namespace m.minted m.random
    else invalid (unknown_namespace m.namespace)

-- `parseLogicalId`, of a string.
unfoldable pub parse_logical_id : Text → Parsed
unfolding match_pattern from_match
parse_logical_id [] = invalid not_a_string
parse_logical_id (c ∷ cs) =
    if take 4 (c ∷ cs) == codes "git:"
    then invalid commit_fallback_identity
    else from_match (match_pattern (c ∷ cs))

-- `isLogicalId`.
abbrev pub is_valid_in : Option Text → Parsed → Bool
is_valid_in none (valid namespace minted random) = true
is_valid_in (some expected) (valid namespace minted random) = namespace == expected
is_valid_in _ (invalid reason) = false

unfoldable pub is_logical_id : Text → Option Text → Bool
unfolding parse_logical_id
is_logical_id value namespace = is_valid_in namespace (parse_logical_id value)

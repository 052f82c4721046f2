-- ===== src/ActorNames.antt =====
-- `nearDuplicateActorNames` of src/identity-audit.js: which names of actors look like one.
pub mod Examples
use vcs_lab.Prelude.{
  ℕ, ◌+◌, Bool, true, false, not, ◌&&◌, ◌||◌, List, [], ◌∷◌, ◌++◌, if◌then◌else◌, leb, eqb, Text,
  codes, ◌==◌, contains, all, any, length,
}

-- `toLowerCase()` on one code unit, as far as ASCII letters come of it: besides those there are the
-- Kelvin sign and the dotted capital I.
unfoldable pub lower_case : ℕ → Text
lower_case c =
    if leb b'A' c && leb c b'Z'
    then (c + 32) ∷ []
    else if eqb c 0x212a
    then b'k' ∷ []
    else if eqb c 0x130
    then b'i' ∷ 0x307 ∷ []
    else c ∷ []

unfoldable pub lower_text : Text → Text
unfolding lower_case
lower_text [] = []
lower_text (c ∷ cs) = lower_case c ++ lower_text cs

unfoldable pub is_word_unit : ℕ → Bool
is_word_unit c = leb b'a' c && leb c b'z' || leb b'0' c && leb c b'9'

-- `match(/[a-z0-9]+/g)`, with the word that is being read.
unfoldable pub words_from : Text → Text → List Text
unfolding is_word_unit
words_from [] [] = []
words_from (w ∷ ws) [] = (w ∷ ws) ∷ []
words_from word (c ∷ cs) =
    let longer = words_from (word ++ c ∷ []) cs in
    let rest = words_from [] cs in
    if is_word_unit c then longer else if word == [] then rest else word ∷ rest

-- `actorTokens`.
unfoldable pub actor_tokens : Text → List Text
unfolding lower_text words_from
actor_tokens actor = words_from [] (lower_text actor)

-- `tokens.join(" ")`.
unfoldable pub join_words : List Text → Text
join_words [] = []
join_words (w ∷ []) = w
join_words (w ∷ v ∷ ws) = w ++ 32 ∷ join_words (v ∷ ws)

-- `/^\d+$/.test(token)`, of a token, which is not empty.
abbrev pub is_number : Text → Bool
is_number token = all (λ c. leb b'0' c && leb c b'9') token

-- Each word of the one is a word of the other, which has another word that is no number.
unfoldable pub is_extension : List Text → List Text → Bool
is_extension small large =
    all (λ token. contains large token) small
    && any (λ token. not (contains small token) && not (is_number token)) large

unfoldable pub near_duplicate_tokens : List Text → List Text → Bool
unfolding join_words is_extension
near_duplicate_tokens a b =
    if eqb (length a) 0 || eqb (length b) 0
    then false
    else if join_words a == join_words b
    then true
    else if leb (length a) (length b)
    then is_extension a b
    else is_extension b a

-- `nearDuplicateActorNames`.
unfoldable pub near_duplicate_actor_names : Text → Text → Bool
unfolding actor_tokens near_duplicate_tokens
near_duplicate_actor_names left right =
    if left == right then false else near_duplicate_tokens (actor_tokens left) (actor_tokens right)

-- ===== src/Messages.antt =====
-- src/rebase-interactive.js: the message that a `reword`, a `squash` or a `fixup` commits, and the check
-- that every rewritten message passes.
pub mod Lines
pub mod Free
pub mod Strip
pub mod Solid
pub mod Identity
pub mod Examples
use vcs_lab.Prelude.{
  ℕ, Bool, true, false, not, ◌&&◌, ◌||◌, Option, none, some, List, [], ◌∷◌, ◌++◌, map,
  if◌then◌else◌, eqb, Text, codes, ◌==◌, filter, any,
}
use vcs_lab.Errors.{Result, ok, err, usage_invalid_option_value, identity_not_preserved}
use vcs_lab.Interactive.{Action, squash}
use vcs_lab.MergePlan.{truthy}
use vcs_lab.Trailers.{is_trailer_line, line_trailer, split_lines, join_lines, trim, trim_end}

-- The trailers of a message, line by line.
unfoldable pub declared_ids : Text → List Text
unfolding line_trailer split_lines truthy
declared_ids text = truthy (map line_trailer (split_lines text))

-- The text without its `Change-Id` lines and without trailing space.
unfoldable pub strip : Text → Text
unfolding is_trailer_line split_lines join_lines trim_end
strip text = trim_end (join_lines (filter (λ line. not (is_trailer_line line)) (split_lines text)))

abbrev pub trailer_line : Text → Text
trailer_line change_id = codes "Change-Id: " ++ change_id

-- `${body}\n\nChange-Id: ${changeId}\n`.
unfoldable pub with_trailer : Text → Text → Text
with_trailer body change_id = body ++ 10 ∷ 10 ∷ (trailer_line change_id ++ 10 ∷ [])

-- `rewordedMessage`.
unfoldable pub reworded_message : Text → Text → Result Text
unfolding declared_ids strip with_trailer trim
reworded_message text change_id =
    if any (λ value. not (value == change_id)) (declared_ids text)
    then err identity_not_preserved
    else if trim (strip text) == []
    then err usage_invalid_option_value
    else ok (with_trailer (strip text) change_id)

-- A commit that is absorbed, with its message.
pub record Absorbed : Type 0 where
  pub action : Action
  pub message : Text

abbrev pub is_squash : Action → Bool
is_squash squash = true
is_squash _ = false

-- `.filter(Boolean)` on texts.
unfoldable pub nonempty : List Text → List Text
nonempty [] = []
nonempty ([] ∷ xs) = nonempty xs
nonempty ((c ∷ cs) ∷ xs) = (c ∷ cs) ∷ nonempty xs

-- `parts.join("\n\n")`.
unfoldable pub join_parts : List Text → Text
join_parts [] = []
join_parts (p ∷ []) = p
join_parts (p ∷ q ∷ ps) = p ++ 10 ∷ 10 ∷ join_parts (q ∷ ps)

unfoldable pub absorbed_prose : List Absorbed → List Text
unfolding strip
absorbed_prose items = map (λ i. strip i.message) (filter (λ i. is_squash i.action) items)

-- `absorbedMessage`.
unfoldable pub absorbed_message : Text → List Absorbed → Text → Text
unfolding absorbed_prose nonempty join_parts with_trailer
absorbed_message surviving items change_id =
    with_trailer (join_parts (nonempty (strip surviving ∷ absorbed_prose items))) change_id

-- `found.length !== 1 || found[0] !== expected`.
unfoldable pub check_found : List Text → Text → Result (Unit {0})
check_found (found ∷ []) expected = if found == expected then ok tt else err identity_not_preserved
check_found _ expected = err identity_not_preserved

-- `assertSingleIdentity`.
unfoldable pub assert_single_identity : Text → Text → Result (Unit {0})
unfolding declared_ids check_found
assert_single_identity message expected = check_found (declared_ids message) expected

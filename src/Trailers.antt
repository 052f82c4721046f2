-- ===== src/Trailers.antt =====
-- The `Change-Id` trailer of a commit message: the regular expressions that src/merge-plan.js,
-- src/rebase-plan.js, src/identity-audit.js and src/rebase-interactive.js match messages with,
-- written out as scanners over the code units. `\s`, `.`, `$` and the `i` and `m` flags have the
-- meaning of ECMAScript, backtracking included.
use vcs_lab.Prelude.{
  ℕ, ◌+◌, Bool, true, false, not, ◌&&◌, ◌||◌, Option, none, some, List, [], ◌∷◌, ◌++◌, leb, eqb,
  if◌then◌else◌, Text, codes, drop, all,
}

-- A line terminator: what `.` does not match, and what `^` and `$` look for under `m`.
unfoldable pub is_terminator : ℕ → Bool
is_terminator c = eqb c 10 || eqb c 13 || eqb c 0x2028 || eqb c 0x2029

-- `\s`, and what `trim` removes.
unfoldable pub is_space : ℕ → Bool
unfolding is_terminator
is_space c =
    is_terminator c
    || eqb c 9
    || eqb c 11
    || eqb c 12
    || eqb c 32
    || eqb c 160
    || eqb c 0x1680
    || leb 0x2000 c && leb c 0x200a
    || eqb c 0x202f
    || eqb c 0x205f
    || eqb c 0x3000
    || eqb c 0xfeff

-- `text.trimStart()`.
unfoldable pub trim_start : Text → Text
unfolding is_space
trim_start [] = []
trim_start (c ∷ cs) = let rest = trim_start cs in if is_space c then rest else c ∷ cs

-- Puts `c` before a text whose trailing space is gone.
unfoldable pub push_trimmed : ℕ → Text → Text
unfolding is_space
push_trimmed c [] = if is_space c then [] else c ∷ []
push_trimmed c (d ∷ ds) = c ∷ d ∷ ds

-- `text.trimEnd()`.
unfoldable pub trim_end : Text → Text
unfolding push_trimmed
trim_end [] = []
trim_end (c ∷ cs) = push_trimmed c (trim_end cs)

-- `text.trim()`.
unfoldable pub trim : Text → Text
unfolding trim_start trim_end
trim text = trim_end (trim_start text)

-- A code unit as the `i` flag compares it, over the letters of the pattern.
unfoldable pub lower : ℕ → ℕ
lower c = if leb b'A' c && leb c b'Z' then c + 32 else c

-- Whether `text` begins with `pattern`, whose letters are lower case, ignoring case.
unfoldable pub starts_with : Text → Text → Bool
unfolding lower
starts_with [] text = true
starts_with (p ∷ ps) [] = false
starts_with (p ∷ ps) (c ∷ cs) = eqb (lower c) p && starts_with ps cs

abbrev pub label : Text
label = codes "change-id:"

-- `/^Change-Id:\s*/i.test(line)`.
unfoldable pub is_trailer_line : Text → Bool
unfolding starts_with
is_trailer_line line = starts_with label line

-- The last code unit that is no line terminator. Of a value that is all space, `\s*` gives back
-- just this much to `(.+?)`.
unfoldable pub last_inline : Text → Option Text
unfolding is_terminator
last_inline [] = none
last_inline (c ∷ cs) = elim (last_inline cs) [
  | some v ↦ some v
  | none ↦ if is_terminator c then none else some (c ∷ [])
]

-- `text` up to its first line terminator.
take_inline : Text → Text
unfolding is_terminator
take_inline [] = []
take_inline (c ∷ cs) = let rest = c ∷ take_inline cs in if is_terminator c then [] else rest

unfoldable pub is_inline : ℕ → Bool
unfolding is_terminator
is_inline c = not (is_terminator c)

value_from : Text → Text → Option Text
unfolding last_inline take_inline trim_end
value_from rest [] = last_inline rest
value_from rest (c ∷ cs) = some (trim_end (take_inline (c ∷ cs)))

-- What `/^Change-Id:\s*(.+?)\s*$/im` captures at a line start.
trailer_at : Text → Option Text
unfolding value_from trim_start starts_with
trailer_at text =
    if starts_with label text then value_from (drop 10 text) (trim_start (drop 10 text)) else none

-- The first match of that expression; the flag says whether `^` matches here.
unfoldable pub first_trailer : Bool → Text → Option Text
unfolding trailer_at is_terminator
first_trailer start [] = none
first_trailer start (c ∷ cs) = elim (if start then trailer_at (c ∷ cs) else none) [
  | some v ↦ some v
  | none ↦ first_trailer (is_terminator c) cs
]

-- `extractChangeId` of merge-plan.js.
unfoldable pub extract_change_id : Text → Text → Text
unfolding first_trailer trim
extract_change_id commit message = elim (first_trailer true message) [
  | none ↦ codes "git:" ++ commit
  | some value ↦ trim value
]

unfoldable pub line_value_from : Text → Text → Option Text
unfolding last_inline is_inline
line_value_from rest [] = last_inline rest
line_value_from rest (c ∷ cs) = if all is_inline (c ∷ cs) then some (c ∷ cs) else none

-- What `/^Change-Id:\s*(.+?)\s*$/i` captures of one line, where `$` is the end of the line.
unfoldable pub line_trailer : Text → Option Text
unfolding line_value_from trim is_trailer_line
line_trailer line =
    if is_trailer_line line then line_value_from (drop 10 line) (trim (drop 10 line)) else none

-- Puts `c` on the first line.
unfoldable pub push_char : ℕ → List Text → List Text
push_char c [] = (c ∷ []) ∷ []
push_char c (l ∷ ls) = (c ∷ l) ∷ ls

unfoldable pub starts_lf : Text → Bool
starts_lf [] = false
starts_lf (c ∷ cs) = eqb c 10

-- `text.split(/\r?\n/)`.
unfoldable pub split_lines : Text → List Text
unfolding push_char starts_lf
split_lines [] = [] ∷ []
split_lines (c ∷ cs) =
    let rest = split_lines cs in
    if eqb c 10 then [] ∷ rest else if eqb c 13 && starts_lf cs then rest else push_char c rest

-- `lines.join("\n")`.
unfoldable pub join_lines : List Text → Text
join_lines [] = []
join_lines (l ∷ []) = l
join_lines (l ∷ m ∷ ls) = l ++ (10 ∷ join_lines (m ∷ ls))

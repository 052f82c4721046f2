-- ===== src/Messages/Lines.antt =====
-- Lines of a text that is put together from parts, and the lines that match a `Change-Id` trailer: lemmas
-- on the scanners of src/rebase-interactive.js.
use vcs_lab.Prelude.{
  ◌≡◌, refl, sym, ◌∙◌, ap, arith, inl, inr, ℕ, Bool, true, false, not, ◌&&◌, ◌||◌, List, [], ◌∷◌,
  ◌++◌, if◌then◌else◌, eqb, Text, any, all, Bool-cases,
}
use vcs_lab.Trailers.{lower, starts_with, label, is_trailer_line, push_char, starts_lf, split_lines}

-- No line of the text matches: none after a line feed, nor the first where the flag says that a line
-- starts here.
unfoldable pub free : Bool → Text → Bool
free start [] = true
free start (c ∷ cs) = not (start && is_trailer_line (c ∷ cs)) && free (eqb c 10) cs

-- Whether a pattern has no line break.
abbrev pub breakless : Text → Bool
breakless p = all (λ c. not (eqb c 10) && not (eqb c 13)) p

abbrev first_line : List Text → Text
first_line [] = []
first_line (l ∷ ls) = l

first_line-push_char : (c : ℕ) (ls : List Text) → first_line (push_char c ls) ≡ c ∷ first_line ls
unfolding push_char
first_line-push_char c [] = refl
first_line-push_char c (l ∷ ls) = refl

first_line-starts_lf : (cs : Text) → starts_lf cs ≡ true → first_line (split_lines cs) ≡ []
unfolding split_lines starts_lf
first_line-starts_lf [] h = refl
first_line-starts_lf (c ∷ cs) h = rw h refl

-- A pattern without line breaks matches the first line as it matches the text.
starts_with-split_lines :
    (p text : Text)
    → breakless p ≡ true
    → starts_with p (first_line (split_lines text)) ≡ starts_with p text
unfolding split_lines starts_with
starts_with-split_lines [] text h = refl
starts_with-split_lines (p ∷ ps) [] h = refl
starts_with-split_lines (p ∷ ps) (c ∷ cs) h = elim (Bool-cases (eqb c 10)) [
  | inl feed ↦ rw feed (unfold lower in ground arith)
  | inr other ↦ elim (Bool-cases (eqb c 13 && starts_lf cs)) [
    | inl both ↦
        rw (other, both, first_line-starts_lf cs (ground arith)) (unfold lower in ground arith)
    | inr neither ↦
        rw (other, neither, first_line-push_char c (split_lines cs), starts_with)
          (ground (arith, starts_with-split_lines ps cs (ground arith)))
  ]
]

abbrev rest_lines : List Text → List Text
rest_lines [] = []
rest_lines (l ∷ ls) = ls

rest_lines-push_char : (c : ℕ) (ls : List Text) → rest_lines (push_char c ls) ≡ rest_lines ls
unfolding push_char
rest_lines-push_char c [] = refl
rest_lines-push_char c (l ∷ ls) = refl

any-lines :
    (ls : List Text)
    → any is_trailer_line ls
      ≡ (is_trailer_line (first_line ls) || any is_trailer_line (rest_lines ls))
unfolding is_trailer_line starts_with
any-lines [] = refl
any-lines (l ∷ ls) = refl

rest_lines-cons :
    (c : ℕ) (cs : Text)
    → any is_trailer_line (rest_lines (split_lines (c ∷ cs))) ≡ (
        eqb c 10 && is_trailer_line (first_line (split_lines cs))
        || any is_trailer_line (rest_lines (split_lines cs)))
unfolding split_lines
rest_lines-cons c cs = elim (Bool-cases (eqb c 10)) [
  | inl feed ↦ rw feed (any-lines (split_lines cs))
  | inr other ↦ elim (Bool-cases (eqb c 13 && starts_lf cs)) [
    | inl both ↦ rw (other, both) refl
    | inr neither ↦ rw (other, neither, rest_lines-push_char c (split_lines cs)) refl
  ]
]

free-lines :
    (start : Bool) (text : Text)
    → free start text ≡ (
        not (start && is_trailer_line (first_line (split_lines text)))
        && not (any is_trailer_line (rest_lines (split_lines text))))
unfolding free is_trailer_line
free-lines start [] = unfold split_lines starts_with in ground arith
free-lines start (c ∷ cs) = ground (
  arith,
  starts_with-split_lines label (c ∷ cs) refl,
  rest_lines-cons c cs,
  free-lines (eqb c 10) cs,
)

-- A text is free exactly when no line of it matches.
pub free-split_lines : (text : Text) → free true text ≡ not (any is_trailer_line (split_lines text))
free-split_lines text = ground (arith, free-lines true text, any-lines (split_lines text))

-- Whether the last code unit is a carriage return.
abbrev pub ends_cr : Text → Bool
ends_cr [] = false
ends_cr (c ∷ []) = eqb c 13
ends_cr (c ∷ d ∷ ds) = ends_cr (d ∷ ds)

-- One step of the split.
abbrev line_step : ℕ → Bool → List Text → List Text
line_step c lf rest =
    if eqb c 10 then [] ∷ rest else if eqb c 13 && lf then rest else push_char c rest

split_lines-cons :
    (c : ℕ) (cs : Text) → split_lines (c ∷ cs) ≡ line_step c (starts_lf cs) (split_lines cs)
unfolding split_lines
split_lines-cons c cs = refl

line_step-append :
    (c : ℕ) (lf : Bool) (l : Text) (ls ys : List Text)
    → line_step c lf (l ∷ (ls ++ ys)) ≡ line_step c lf (l ∷ ls) ++ ys
unfolding push_char
line_step-append c lf l ls ys = elim (Bool-cases (eqb c 10)) [
  | inl feed ↦ rw feed refl
  | inr other ↦ elim (Bool-cases (eqb c 13 && lf)) [
    | inl both ↦ rw (other, both) refl
    | inr neither ↦ rw (other, neither) refl
  ]
]

line_step-nonempty :
    (c : ℕ) (lf : Bool) (l : Text) (ls : List Text)
    → (k : Text) × (ks : List Text) × (line_step c lf (l ∷ ls) ≡ k ∷ ks)
unfolding push_char
line_step-nonempty c lf l ls = elim (Bool-cases (eqb c 10)) [
  | inl feed ↦ ([], l ∷ ls, rw feed refl)
  | inr other ↦ elim (Bool-cases (eqb c 13 && lf)) [
    | inl both ↦ (l, ls, rw (other, both) refl)
    | inr neither ↦ (c ∷ l, ls, rw (other, neither) refl)
  ]
]

split_lines-nonempty : (text : Text) → (l : Text) × (ls : List Text) × (split_lines text ≡ l ∷ ls)
split_lines-nonempty [] = ([], [], unfold split_lines in refl)
split_lines-nonempty (c ∷ cs) =
    let (l, ls, e) = split_lines-nonempty cs in
    let (k, ks, f) = line_step-nonempty c (starts_lf cs) l ls in
    (k, ks, split_lines-cons c cs ∙ ap (line_step c (starts_lf cs)) e ∙ f)

-- A text that does not end in a carriage return, and another on the next line.
pub split_lines-append :
    (a b : Text) → ends_cr a ≡ false → split_lines (a ++ 10 ∷ b) ≡ split_lines a ++ split_lines b
unfolding starts_lf
split_lines-append [] b h = unfold split_lines in refl
split_lines-append (c ∷ []) b h =
    split_lines-cons c (10 ∷ b) ∙ rw h (unfold split_lines push_char in ground arith)
split_lines-append (c ∷ d ∷ ds) b h =
    let (l, ls, e) = split_lines-nonempty (d ∷ ds) in
    let lf = starts_lf (d ∷ ds) in
    split_lines-cons c (d ∷ (ds ++ 10 ∷ b))
    ∙ ap (line_step c lf) (split_lines-append (d ∷ ds) b h ∙ ap (λ x. x ++ split_lines b) e)
    ∙ line_step-append c lf l ls (split_lines b)
    ∙ ap (λ x. line_step c lf x ++ split_lines b) (sym e)
    ∙ ap (λ x. x ++ split_lines b) (sym (split_lines-cons c (d ∷ ds)))

-- ===== src/Messages/Strip.antt =====
-- What `strip` of src/rebase-interactive.js makes of a message: no line of it is a trailer, nor of the
-- stripped parts that a squash joins.
use vcs_lab.Prelude.{
  ◌≡◌, refl, ◌∙◌, arith, inl, inr, ℕ, Bool, true, false, not, ◌&&◌, List, [], ◌∷◌, ◌++◌, map, eqb,
  Text, filter, all, All, Bool-cases,
}
use vcs_lab.Trailers.{
  push_trimmed, trim_end, is_trailer_line, push_char, starts_lf, split_lines, join_lines,
}
use vcs_lab.Messages.{strip, nonempty, join_parts, Absorbed, absorbed_prose, is_squash}
use vcs_lab.Messages.Lines.{free, ends_cr}
use vcs_lab.Messages.Free.{free-append, free-trim_end, push_trimmed-nil, push_trimmed-cons}

abbrev feedless : Text → Bool
feedless line = all (λ c. not (eqb c 10)) line

feedless-push_char :
    (c : ℕ) (ls : List Text)
    → eqb c 10 ≡ false
    → all feedless ls ≡ true
    → all feedless (push_char c ls) ≡ true
unfolding push_char
feedless-push_char c [] h k = ground arith
feedless-push_char c (l ∷ ls) h k = ground arith

feedless-split_lines : (text : Text) → all feedless (split_lines text) ≡ true
unfolding split_lines
feedless-split_lines [] = refl
feedless-split_lines (c ∷ cs) = elim (Bool-cases (eqb c 10)) [
  | inl feed ↦ rw feed (feedless-split_lines cs)
  | inr other ↦ elim (Bool-cases (eqb c 13 && starts_lf cs)) [
    | inl both ↦ rw (other, both) (feedless-split_lines cs)
    | inr neither ↦
        rw (other, neither) (feedless-push_char c (split_lines cs) other (feedless-split_lines cs))
  ]
]

all-filter-and :
    (p q : Text → Bool) (xs : List Text)
    → all q xs ≡ true
    → all (λ x. p x && q x) (filter p xs) ≡ true
all-filter-and p q [] h = refl
all-filter-and p q (x ∷ xs) h = ground (arith, all-filter-and p q xs)

free-feedless : (line : Text) → feedless line ≡ true → free false line ≡ true
unfolding free
free-feedless [] h = refl
free-feedless (c ∷ cs) h = ground (arith, free-feedless cs)

free-line :
    (line : Text) → (not (is_trailer_line line) && feedless line) ≡ true → free true line ≡ true
unfolding free
free-line [] h = refl
free-line (c ∷ cs) h = ground (arith, free-feedless cs)

free-join_lines :
    (lines : List Text)
    → all (λ line. not (is_trailer_line line) && feedless line) lines ≡ true
    → free true (join_lines lines) ≡ true
unfolding join_lines
free-join_lines [] h = unfold free in refl
free-join_lines (l ∷ []) h = free-line l (ground arith)
free-join_lines (l ∷ m ∷ ls) h =
    ground (arith, free-append true l (join_lines (m ∷ ls)), free-line l, free-join_lines (m ∷ ls))

pub free-strip : (text : Text) → free true (strip text) ≡ true
unfolding strip
free-strip text =
    free-trim_end true (join_lines (filter (λ line. not (is_trailer_line line)) (split_lines text)))
      (free-join_lines (filter (λ line. not (is_trailer_line line)) (split_lines text)) (
        all-filter-and (λ line. not (is_trailer_line line)) feedless (split_lines text)
          (feedless-split_lines text)))

-- Trimmed text does not end in a carriage return.
ends_cr-push_trimmed : (c : ℕ) (t : Text) → ends_cr t ≡ false → ends_cr (push_trimmed c t) ≡ false
ends_cr-push_trimmed c [] h = elim (Bool-cases (eqb c 13)) [
  | inl same ↦ let e : c ≡ 13 = ground arith in rw e (unfold push_trimmed in refl)
  | inr other ↦ elim (push_trimmed-nil c) [ inl gone ↦ rw gone refl | inr kept ↦ rw kept other ]
]
ends_cr-push_trimmed c (d ∷ ds) h = rw (push_trimmed-cons c d ds) h

ends_cr-trim_end : (t : Text) → ends_cr (trim_end t) ≡ false
unfolding trim_end
ends_cr-trim_end [] = refl
ends_cr-trim_end (c ∷ cs) = ends_cr-push_trimmed c (trim_end cs) (ends_cr-trim_end cs)

pub ends_cr-strip : (text : Text) → ends_cr (strip text) ≡ false
unfolding strip
ends_cr-strip text =
    ends_cr-trim_end (join_lines (filter (λ line. not (is_trailer_line line)) (split_lines text)))

-- Fit to stand above a trailer.
abbrev pub IsBody : Text → Type 0
IsBody text = (free true text ≡ true) × (ends_cr text ≡ false)

pub strip-IsBody : (text : Text) → IsBody (strip text)
strip-IsBody text = (free-strip text, ends_cr-strip text)

ends_cr-append : (a b : Text) → ends_cr (a ++ 10 ∷ b) ≡ ends_cr (10 ∷ b)
ends_cr-append [] b = refl
ends_cr-append (c ∷ []) b = refl
ends_cr-append (c ∷ d ∷ ds) b = ends_cr-append (d ∷ ds) b

ends_cr-feed : (b : Text) → ends_cr b ≡ false → ends_cr (10 ∷ b) ≡ false
ends_cr-feed [] h = ground arith
ends_cr-feed (c ∷ cs) h = h

free-feed : (b : Text) → free true b ≡ true → free true (10 ∷ b) ≡ true
free-feed b h = free-append true [] b ∙ unfold free in h

pub nonempty-IsBody : (parts : List Text) → All IsBody parts → All IsBody (nonempty parts)
unfolding nonempty
nonempty-IsBody [] h = tt
nonempty-IsBody ([] ∷ ps) h = nonempty-IsBody ps h.1
nonempty-IsBody ((c ∷ cs) ∷ ps) h = (h.0, nonempty-IsBody ps h.1)

pub join_parts-IsBody : (parts : List Text) → All IsBody parts → IsBody (join_parts parts)
unfolding join_parts
join_parts-IsBody [] h = (unfold free in refl, refl)
join_parts-IsBody (p ∷ []) h = h.0
join_parts-IsBody (p ∷ q ∷ ps) h =
    let later = join_parts-IsBody (q ∷ ps) h.1 in
    (
      ground (
        arith,
        free-append true p (10 ∷ join_parts (q ∷ ps)),
        free-feed (join_parts (q ∷ ps)),
        h.0.0,
        later.0,
      ),
      ends_cr-append p (10 ∷ join_parts (q ∷ ps)) ∙ ends_cr-feed (join_parts (q ∷ ps)) later.1,
    )

stripped-IsBody : (items : List Absorbed) → All IsBody (map (λ i. strip i.message) items)
stripped-IsBody [] = tt
stripped-IsBody (i ∷ is) = (strip-IsBody i.message, stripped-IsBody is)

pub absorbed_prose-IsBody : (items : List Absorbed) → All IsBody (absorbed_prose items)
unfolding absorbed_prose
absorbed_prose-IsBody items = stripped-IsBody (filter (λ i. is_squash i.action) items)

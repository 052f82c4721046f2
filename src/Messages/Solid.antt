-- ===== src/Messages/Solid.antt =====
-- A trailer line whose identity has no white space reads back: lemmas on the expressions of
-- src/rebase-interactive.js.
use vcs_lab.Prelude.{
  ◌≡◌, refl, sym, ◌∙◌, ap, arith, inl, inr, ℕ, Bool, true, false, not, ◌&&◌, none, some, [], ◌∷◌,
  if◌then◌else◌, eqb, Text, ◌==◌, all, Bool-cases,
}
use vcs_lab.Trailers.{
  is_space, is_inline, trim_start, push_trimmed, trim_end, trim, line_trailer, line_value_from,
}
use vcs_lab.Messages.{trailer_line}
use vcs_lab.Messages.Lines.{breakless}

-- An identity that a trailer can carry: some code units, none of them white space.
abbrev pub is_identity : Text → Bool
is_identity id = not (id == []) && all (λ c. not (is_space c)) id

pub and-true : (a b : Bool) → (a && b) ≡ true → (a ≡ true) × (b ≡ true)
and-true true b h = (refl, h)
and-true false b h = absurd (cc h)

pub not-true : (b : Bool) → not b ≡ true → b ≡ false
not-true true h = sym h
not-true false h = refl

-- A code unit that is no space is none of the three that a proof meets.
no-space : (c d : ℕ) → is_space d ≡ true → is_space c ≡ false → eqb c d ≡ false
no-space c d k h = elim (Bool-cases (eqb c d)) [
  | inl same ↦ let e : c ≡ d = ground arith in absurd (cc (k, h, ap is_space e))
  | inr other ↦ other
]

inline_lem : (c : ℕ) → is_space c ≡ false → is_inline c ≡ true
inline_lem c h =
    let lf = no-space c 10 (unfold is_space in refl) h in
    let cr = no-space c 13 (unfold is_space in refl) h in
    let ls = no-space c 0x2028 (unfold is_space in refl) h in
    let ps = no-space c 0x2029 (unfold is_space in refl) h in
    unfold is_inline in rw (lf, cr, ls, ps) refl

abbrev pub solid : Text → Bool
solid t = all (λ c. not (is_space c)) t

solid-head : (c : ℕ) (cs : Text) → solid (c ∷ cs) ≡ true → (is_space c ≡ false) × (solid cs ≡ true)
solid-head c cs h =
    let both = and-true (not (is_space c)) (solid cs) h in (not-true (is_space c) both.0, both.1)

trim_start-solid : (t : Text) → solid t ≡ true → trim_start t ≡ t
unfolding trim_start
trim_start-solid [] h = refl
trim_start-solid (c ∷ cs) h = ap (λ b. if b then trim_start cs else c ∷ cs) (solid-head c cs h).0

push_trimmed-solid : (c : ℕ) (t : Text) → is_space c ≡ false → push_trimmed c t ≡ c ∷ t
unfolding push_trimmed
push_trimmed-solid c [] h = ap (λ b. if b then [] else c ∷ []) h
push_trimmed-solid c (d ∷ ds) h = refl

trim_end-solid : (t : Text) → solid t ≡ true → trim_end t ≡ t
unfolding trim_end
trim_end-solid [] h = refl
trim_end-solid (c ∷ cs) h =
    let head = solid-head c cs h in
    ap (push_trimmed c) (trim_end-solid cs head.1) ∙ push_trimmed-solid c cs head.0

inline-solid : (t : Text) → solid t ≡ true → all is_inline t ≡ true
inline-solid [] h = refl
inline-solid (c ∷ cs) h =
    let head = solid-head c cs h in rw (inline_lem c head.0, inline-solid cs head.1) refl

pub breakless-solid : (t : Text) → solid t ≡ true → breakless t ≡ true
breakless-solid [] h = refl
breakless-solid (c ∷ cs) h =
    let head = solid-head c cs h in
    rw
      (
        no-space c 10 (unfold is_space in refl) head.0,
        no-space c 13 (unfold is_space in refl) head.0,
        breakless-solid cs head.1,
      )
      refl

trim-spaced : (id : Text) → solid id ≡ true → trim (32 ∷ id) ≡ id
unfolding trim trim_start
trim-spaced id h = ap trim_end (trim_start-solid id h) ∙ trim_end-solid id h

line_value_from-solid : (rest id : Text) → is_identity id ≡ true → line_value_from rest id ≡ some id
unfolding line_value_from
line_value_from-solid rest [] h = unfold ◌==◌ in cc h
line_value_from-solid rest (c ∷ cs) h =
    ap (λ b. if b then some (c ∷ cs) else none) (inline-solid (c ∷ cs) (and-true _ _ h).1)

pub line_trailer-trailer_line :
    (id : Text) → is_identity id ≡ true → line_trailer (trailer_line id) ≡ some id
unfolding line_trailer
line_trailer-trailer_line id h =
    ap (line_value_from (32 ∷ id)) (trim-spaced id (and-true _ _ h).1)
    ∙ line_value_from-solid (32 ∷ id) id h

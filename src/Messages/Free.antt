-- ===== src/Messages/Free.antt =====
-- Texts that no line of which is a `Change-Id` trailer, as `rewordedMessage` and `absorbedMessage` of
-- src/rebase-interactive.js make them.
use vcs_lab.Prelude.{
  ◌≡◌, ◌⊎◌, refl, arith, inl, inr, ℕ, Bool, true, false, ◌&&◌, [], ◌∷◌, ◌++◌, if◌then◌else◌, eqb,
  Text, Bool-cases,
}
use vcs_lab.Trailers.{is_space, lower, push_trimmed, trim_end, starts_with, label, is_trailer_line}
use vcs_lab.Messages.Lines.{free, breakless}

-- A pattern without line breaks that matches a text matches what stands before a line feed in it.
starts_with-append :
    (p a b : Text) → breakless p ≡ true → starts_with p (a ++ 10 ∷ b) ≡ starts_with p a
unfolding starts_with
starts_with-append [] a b h = refl
starts_with-append (p ∷ ps) [] b h = unfold lower in ground arith
starts_with-append (p ∷ ps) (c ∷ cs) b h = ground (arith, starts_with-append ps cs b)

trailer-append : (a b : Text) → is_trailer_line (a ++ 10 ∷ b) ≡ is_trailer_line a
unfolding is_trailer_line
trailer-append a b = starts_with-append label a b refl

trailer-nil : is_trailer_line [] ≡ false
unfolding is_trailer_line starts_with
trailer-nil = refl

pub free-append :
    (start : Bool) (a b : Text) → free start (a ++ 10 ∷ b) ≡ (free start a && free true b)
unfolding free
free-append start [] b = ground (arith, trailer-append [] b, trailer-nil)
free-append start (c ∷ cs) b =
    ground (arith, trailer-append (c ∷ cs) b, free-append (eqb c 10) cs b)

if-nil :
    (b : Bool) (c : ℕ) → ((if b then [] else c ∷ []) ≡ []) ⊎ ((if b then [] else c ∷ []) ≡ c ∷ [])
if-nil true c = inl refl
if-nil false c = inr refl

pub push_trimmed-nil : (c : ℕ) → (push_trimmed c [] ≡ []) ⊎ (push_trimmed c [] ≡ c ∷ [])
unfolding push_trimmed
push_trimmed-nil c = if-nil (is_space c) c

pub push_trimmed-cons : (c d : ℕ) (ds : Text) → push_trimmed c (d ∷ ds) ≡ c ∷ d ∷ ds
unfolding push_trimmed
push_trimmed-cons c d ds = refl

and-false : (b : Bool) → ¬ ((b && false) ≡ true)
and-false true h = cc h
and-false false h = cc h

starts_with-cons :
    (p : Text) (c : ℕ) (t u : Text)
    → ((q : Text) → starts_with q t ≡ true → starts_with q u ≡ true)
    → starts_with p (c ∷ t) ≡ true
    → starts_with p (c ∷ u) ≡ true
unfolding starts_with
starts_with-cons [] c t u k h = refl
starts_with-cons (p ∷ ps) c t u k h = elim (Bool-cases (starts_with ps t)) [
  | inl hit ↦ rw (k ps hit) (rw hit at h)
  | inr miss ↦ absurd (and-false _ (rw miss at h))
]

starts_with-nil : (p u : Text) → starts_with p [] ≡ true → starts_with p u ≡ true
unfolding starts_with
starts_with-nil [] u h = refl
starts_with-nil (p ∷ ps) u h = cc h

starts_with-push_trimmed :
    (p : Text) (c : ℕ) (t u : Text)
    → ((q : Text) → starts_with q t ≡ true → starts_with q u ≡ true)
    → starts_with p (push_trimmed c t) ≡ true
    → starts_with p (c ∷ u) ≡ true
starts_with-push_trimmed p c [] u k h = elim (push_trimmed-nil c) [
  | inl gone ↦ starts_with-nil p (c ∷ u) (rw gone at h)
  | inr kept ↦ starts_with-cons p c [] u k (rw kept at h)
]
starts_with-push_trimmed p c (d ∷ ds) u k h =
    starts_with-cons p c (d ∷ ds) u k (rw (push_trimmed-cons c d ds) at h)

starts_with-trim_end : (p t : Text) → starts_with p (trim_end t) ≡ true → starts_with p t ≡ true
unfolding trim_end
starts_with-trim_end p [] h = h
starts_with-trim_end p (c ∷ cs) h =
    starts_with-push_trimmed p c (trim_end cs) cs (λ q. starts_with-trim_end q cs) h

-- `free` on a text one unit longer.
free-cons :
    (start : Bool) (c : ℕ) (t u : Text)
    → (is_trailer_line (c ∷ t) ≡ true → is_trailer_line (c ∷ u) ≡ true)
    → (free (eqb c 10) u ≡ true → free (eqb c 10) t ≡ true)
    → free start (c ∷ u) ≡ true
    → free start (c ∷ t) ≡ true
unfolding free
free-cons start c t u k l h = ground (arith, k, l)

free-push_trimmed :
    (start : Bool) (c : ℕ) (t u : Text)
    → (is_trailer_line (c ∷ t) ≡ true → is_trailer_line (c ∷ u) ≡ true)
    → (free (eqb c 10) u ≡ true → free (eqb c 10) t ≡ true)
    → free start (c ∷ u) ≡ true
    → free start (push_trimmed c t) ≡ true
free-push_trimmed start c [] u k l h = elim (push_trimmed-nil c) [
  | inl gone ↦ rw gone (unfold free in refl)
  | inr kept ↦ rw kept (free-cons start c [] u k l h)
]
free-push_trimmed start c (d ∷ ds) u k l h =
    rw (push_trimmed-cons c d ds) (free-cons start c (d ∷ ds) u k l h)

pub free-trim_end : (start : Bool) (t : Text) → free start t ≡ true → free start (trim_end t) ≡ true
unfolding trim_end
free-trim_end start [] h = h
free-trim_end start (c ∷ cs) h =
    free-push_trimmed start c (trim_end cs) cs
      (unfold is_trailer_line in
        starts_with-cons label c (trim_end cs) cs (λ q. starts_with-trim_end q cs))
      (free-trim_end (eqb c 10) cs) h

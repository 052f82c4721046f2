-- ===== src/Messages/Identity.antt =====
-- Every message that a declared action of src/rebase-interactive.js composes passes the check on rewritten
-- messages.
use vcs_lab.Prelude.{
  ◌≡◌, refl, sym, ◌∙◌, ap, arith, ℕ, Bool, true, false, not, ◌&&◌, Option, none, some, List, [],
  ◌∷◌, ◌++◌, map, if◌then◌else◌, eqb, Text, ◌==◌, ==_refl, any, drop,
}
use mathlib.Core.List.{append_assoc}
use vcs_lab.Errors.{ok, err, ok-injective, identity_not_preserved, usage_invalid_option_value}
use vcs_lab.MergePlan.{truthy}
use vcs_lab.Trailers.{trim, is_trailer_line, line_trailer, line_value_from, push_char, split_lines}
use vcs_lab.Messages.{
  declared_ids, strip, trailer_line, with_trailer, reworded_message, Absorbed, absorbed_prose,
  nonempty, join_parts, absorbed_message, check_found, assert_single_identity,
}
use vcs_lab.Messages.Lines.{free-split_lines, ends_cr, split_lines-append, breakless}
use vcs_lab.Messages.Strip.{
  IsBody, strip-IsBody, nonempty-IsBody, join_parts-IsBody, absorbed_prose-IsBody,
}
use vcs_lab.Messages.Solid.{
  is_identity, and-true, not-true, solid, breakless-solid, line_trailer-trailer_line,
}

abbrev ids : List Text → List Text
ids lines = truthy (map line_trailer lines)

truthy-cons :
    (o : Option Text) (xs : List (Option Text)) → truthy (o ∷ xs) ≡ truthy (o ∷ []) ++ truthy xs
unfolding truthy
truthy-cons none xs = refl
truthy-cons (some []) xs = refl
truthy-cons (some (c ∷ cs)) xs = refl

ids-append : (xs ys : List Text) → ids (xs ++ ys) ≡ ids xs ++ ids ys
ids-append [] ys = unfold truthy in refl
ids-append (x ∷ xs) ys =
    truthy-cons (line_trailer x) (map line_trailer (xs ++ ys))
    ∙ ap (λ rest. truthy (line_trailer x ∷ []) ++ rest) (ids-append xs ys)
    ∙ sym (append_assoc (truthy (line_trailer x ∷ [])) (ids xs) (ids ys))
    ∙ ap (λ front. front ++ ids ys) (sym (truthy-cons (line_trailer x) (map line_trailer xs)))

line_trailer-none : (line : Text) → is_trailer_line line ≡ false → line_trailer line ≡ none
unfolding line_trailer
line_trailer-none line h =
    ap (λ b. if b then line_value_from (drop 10 line) (trim (drop 10 line)) else none) h

-- Lines of which none matches declare nothing.
ids-none : (lines : List Text) → any is_trailer_line lines ≡ false → ids lines ≡ []
unfolding truthy
ids-none [] h = refl
ids-none (l ∷ ls) h =
    ap (λ o. truthy (o ∷ map line_trailer ls)) (line_trailer-none l (ground arith))
    ∙ ids-none ls (ground arith)

breakless-cons :
    (c : ℕ) (cs : Text)
    → breakless (c ∷ cs) ≡ true
    → ((not (eqb c 10) && not (eqb c 13)) && breakless cs) ≡ true
breakless-cons c cs h = ground arith

split_lines-breakless : (t : Text) → breakless t ≡ true → split_lines t ≡ t ∷ []
unfolding split_lines push_char
split_lines-breakless [] h = refl
split_lines-breakless (c ∷ cs) h =
    let parts =
      and-true (not (eqb c 10) && not (eqb c 13)) (breakless cs) (breakless-cons c cs h) in
    let units = and-true (not (eqb c 10)) (not (eqb c 13)) parts.0 in
    rw (not-true (eqb c 10) units.0, not-true (eqb c 13) units.1, split_lines-breakless cs parts.1)
      refl

ends_cr-breakless : (t : Text) → breakless t ≡ true → ends_cr t ≡ false
ends_cr-breakless [] h = refl
ends_cr-breakless (c ∷ []) h = ground arith
ends_cr-breakless (c ∷ d ∷ ds) h = ends_cr-breakless (d ∷ ds) (and-true _ _ h).1

-- The lines below a body: an empty one, the trailer, and an empty one.
split_lines-below :
    (line : Text)
    → breakless line ≡ true
    → split_lines (10 ∷ (line ++ 10 ∷ [])) ≡ [] ∷ line ∷ [] ∷ []
split_lines-below line h =
    split_lines-append [] (line ++ 10 ∷ []) refl
    ∙ ap (λ ls. split_lines [] ++ ls)
        (split_lines-append line [] (ends_cr-breakless line h)
          ∙ ap (λ ls. ls ++ split_lines []) (split_lines-breakless line h))
    ∙ unfold split_lines in refl

ids-below :
    (line id : Text)
    → line_trailer line ≡ some id
    → (id == []) ≡ false
    → ids ([] ∷ line ∷ [] ∷ []) ≡ id ∷ []
ids-below line [] h k = unfold ◌==◌ in cc k
ids-below line (c ∷ cs) h k =
    ap (λ o. truthy (line_trailer [] ∷ o ∷ line_trailer [] ∷ [])) h
    ∙ unfold truthy line_trailer in refl

-- Under a body that is fit for it, the trailer is the one identity of the message.
declared_ids-with_trailer :
    (body id : Text)
    → IsBody body
    → is_identity id ≡ true
    → declared_ids (with_trailer body id) ≡ id ∷ []
unfolding declared_ids with_trailer
declared_ids-with_trailer body id b h =
    let line = trailer_line id in
    let facts = and-true (not (id == [])) (solid id) h in
    let quiet =
      not-true (any is_trailer_line (split_lines body)) (sym (free-split_lines body) ∙ b.0) in
    ap ids (
      split_lines-append body (10 ∷ (line ++ 10 ∷ [])) b.1
      ∙ ap (λ ls. split_lines body ++ ls) (split_lines-below line (breakless-solid id facts.1)))
    ∙ ids-append (split_lines body) ([] ∷ line ∷ [] ∷ [])
    ∙ ap (λ xs. xs ++ ids ([] ∷ line ∷ [] ∷ [])) (ids-none (split_lines body) quiet)
    ∙ ids-below line id (line_trailer-trailer_line id h) (not-true (id == []) facts.0)

assert-with_trailer :
    (body id : Text)
    → IsBody body
    → is_identity id ≡ true
    → assert_single_identity (with_trailer body id) id ≡ ok tt
unfolding assert_single_identity
assert-with_trailer body id b h =
    ap (λ found. check_found found id) (declared_ids-with_trailer body id b h)
    ∙ unfold check_found in ap (λ t. if t then ok tt else err identity_not_preserved) (==_refl id)

passed :
    (a b : Bool) {m n : Text}
    → (if a then err identity_not_preserved else if b then err usage_invalid_option_value else ok m)
      ≡ ok n
    → m ≡ n
passed true b h = cc h
passed false true h = cc h
passed false false h = ok-injective h

-- A message that a reword composes for an identity without white space passes the check for it: it has
-- one `Change-Id` line, which carries that identity, whatever text was supplied.
pub reworded_message-assert_single_identity :
    (text id message : Text)
    → is_identity id ≡ true
    → reworded_message text id ≡ ok message
    → assert_single_identity message id ≡ ok tt
unfolding reworded_message
reworded_message-assert_single_identity text id message h e =
    let composed : with_trailer (strip text) id ≡ message =
      passed (any (λ value. not (value == id)) (declared_ids text)) (trim (strip text) == []) e in
    rw (sym composed) (assert-with_trailer (strip text) id (strip-IsBody text) h)

-- The message that a squash or a fixup composes for an identity without white space passes the same
-- check, whatever the survivor's message and the absorbed ones declare.
pub absorbed_message-assert_single_identity :
    (surviving : Text) (items : List Absorbed) (id : Text)
    → is_identity id ≡ true
    → assert_single_identity (absorbed_message surviving items id) id ≡ ok tt
unfolding absorbed_message
absorbed_message-assert_single_identity surviving items id h =
    let parts = strip surviving ∷ absorbed_prose items in
    assert-with_trailer (join_parts (nonempty parts)) id
      (join_parts-IsBody (nonempty parts)
        (nonempty-IsBody parts (strip-IsBody surviving, absorbed_prose-IsBody items)))
      h

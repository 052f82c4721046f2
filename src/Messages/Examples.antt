-- ===== src/Messages/Examples.antt =====
-- Runs of the message rules of src/rebase-interactive.js.
use vcs_lab.Trailers.{is_space}
use vcs_lab.Prelude.{◌≡◌, refl, List, [], ◌∷◌, Text, codes, true, ◌==◌}
use vcs_lab.Errors.{ok, err, identity_not_preserved, usage_invalid_option_value}
use vcs_lab.Interactive.{squash, fixup}
use vcs_lab.Messages.{
  declared_ids, Absorbed, reworded_message, absorbed_message, assert_single_identity,
}
use vcs_lab.Messages.Solid.{is_identity}
use vcs_lab.Messages.Identity.{
  reworded_message-assert_single_identity, absorbed_message-assert_single_identity,
}

abbrev text : Text
text = codes "New title\r\n\r\nchange-id: chg_a\nbody  \n\n"

abbrev message : Text
message = codes "New title\n\nbody\n\nChange-Id: chg_a\n"

abbrev absorbed : List Absorbed
absorbed =
    record { action = squash; message = codes "two\n\nChange-Id: chg_b\n" }
    ∷ record { action = fixup; message = codes "three" }
    ∷ []

reworded : reworded_message text (codes "chg_a") ≡ ok message
unfolding reworded_message ◌==◌
reworded = refl

refused :
    (reworded_message text (codes "chg_b") ≡ err identity_not_preserved)
    × (reworded_message (codes "Change-Id: chg_a") (codes "chg_a") ≡ err usage_invalid_option_value)
unfolding reworded_message ◌==◌
refused = (refl, refl)

absorbed-message :
    absorbed_message (codes "one\n\nChange-Id: chg_a\n") absorbed (codes "chg_a")
    ≡ codes "one\n\ntwo\n\nChange-Id: chg_a\n"
unfolding absorbed_message
absorbed-message = refl

unchecked :
    assert_single_identity (codes "one\n\nChange-Id: chg_a\nChange-Id: chg_b\n") (codes "chg_a")
    ≡ err identity_not_preserved
unfolding assert_single_identity
unchecked = refl

chg_a-is_identity : is_identity (codes "chg_a") ≡ true
unfolding ◌==◌ is_space
chg_a-is_identity = refl

reworded_message-assert_single_identity_example :
    assert_single_identity message (codes "chg_a") ≡ ok tt
reworded_message-assert_single_identity_example =
    reworded_message-assert_single_identity text (codes "chg_a") message chg_a-is_identity reworded

absorbed_message-assert_single_identity_example :
    assert_single_identity
      (absorbed_message (codes "one\n\nChange-Id: chg_a\n") absorbed (codes "chg_a"))
      (codes "chg_a")
    ≡ ok tt
absorbed_message-assert_single_identity_example =
    absorbed_message-assert_single_identity (codes "one\n\nChange-Id: chg_a\n") absorbed
      (codes "chg_a") chg_a-is_identity

-- Matched line by line, a trailer line without a value declares nothing.
no_trailer : declared_ids (codes "x\n\nChange-Id:\nSigned-off-by: A") ≡ []
unfolding declared_ids
no_trailer = refl

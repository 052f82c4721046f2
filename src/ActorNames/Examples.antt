-- ===== src/ActorNames/Examples.antt =====
-- Runs of `nearDuplicateActorNames` of src/identity-audit.js.
use vcs_lab.Prelude.{◌≡◌, refl, true, false, codes, ◌==◌, contains}
use vcs_lab.ActorNames.{near_duplicate_actor_names}

near-names :
    (near_duplicate_actor_names (codes "Claude-Opus-5") (codes "claude-opus-5") ≡ true)
    × (near_duplicate_actor_names (codes "codex") (codes "OpenAI Codex") ≡ true)
    × (near_duplicate_actor_names (codes "claude-opus-5") (codes "claude-opus-5-1") ≡ false)
unfolding near_duplicate_actor_names ◌==◌ contains
near-names = (refl, refl, refl)

-- With a word repeated, names with as many words depend on the order.
repeated_word :
    (near_duplicate_actor_names (codes "x y") (codes "y y") ≡ false)
    × (near_duplicate_actor_names (codes "y y") (codes "x y") ≡ true)
unfolding near_duplicate_actor_names ◌==◌ contains
repeated_word = (refl, refl)

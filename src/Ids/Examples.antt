-- ===== src/Ids/Examples.antt =====
-- Runs of src/ids.js.
use vcs_lab.Prelude.{
  ◌≡◌, refl, arith, ℕ, List, [], ◌∷◌, ◌++◌, true, false, some, length, all, codes, ◌==◌, contains,
}
use vcs_lab.Ids.{
  id_namespaces, is_base36, is_hex, to_hex, new_id, not_a_string, commit_fallback_identity,
  malformed, unknown_namespace, valid, invalid, parse_logical_id, is_logical_id,
}
use vcs_lab.Ids.RoundTrip.{number_after, bytes_of, clock, parse_logical_id-new_id}
use vcs_lab.Ids.Exact.{parsed_parts_exact}

abbrev bytes : List ℕ
bytes = 0 ∷ 15 ∷ 16 ∷ 171 ∷ 205 ∷ 255 ∷ []

minted-id : new_id (codes "ch") 1700000000000 bytes ≡ codes "ch_0loyw3v28000f10abcdff"
unfolding new_id
minted-id = refl

refused :
    (parse_logical_id [] ≡ invalid not_a_string)
    × (parse_logical_id (codes "git:ch_0loyw3v28000f10abcdff") ≡ invalid commit_fallback_identity)
    × (parse_logical_id (codes "ch_0loyw3v28000f10abcdf") ≡ invalid malformed)
    × (parse_logical_id (codes "CH_0loyw3v28000f10abcdff") ≡ invalid malformed)
    × (parse_logical_id (codes "chg_0loyw3v28000f10abcdff")
        ≡ invalid (unknown_namespace (codes "chg")))
unfolding parse_logical_id ◌==◌
refused = (refl, refl, refl, refl, refl)

of_namespace :
    (is_logical_id (codes "rebase_op_0loyw3v28000f10abcdff") (some (codes "rebase_op")) ≡ true)
    × (is_logical_id (codes "rebase_op_0loyw3v28000f10abcdff") (some (codes "rebase")) ≡ false)
unfolding is_logical_id ◌==◌
of_namespace = (refl, refl)

known : contains id_namespaces (codes "ch") ≡ true
unfolding contains ◌==◌
known = refl

parse_logical_id-new_id_example :
    (parse_logical_id (new_id (codes "ch") 1700000000000 bytes)
      ≡ valid (codes "ch") (clock 1700000000000) (to_hex bytes))
    × (number_after 0 (clock 1700000000000) ≡ 1700000000000)
    × (bytes_of (to_hex bytes) ≡ bytes)
parse_logical_id-new_id_example =
    parse_logical_id-new_id (codes "ch") 1700000000000 bytes known (omega arith) refl
      (omega arith, (omega arith, (omega arith, (omega arith, (omega arith, (omega arith, tt))))))

parsed :
    parse_logical_id (codes "ch_0loyw3v28000f10abcdff")
    ≡ valid (codes "ch") (codes "0loyw3v28") (codes "000f10abcdff")
unfolding parse_logical_id ◌==◌
parsed = refl

parsed_parts_exact_example :
    (codes "ch_0loyw3v28000f10abcdff"
      ≡ codes "ch" ++ b'_' ∷ (codes "0loyw3v28" ++ codes "000f10abcdff"))
    × (contains id_namespaces (codes "ch") ≡ true)
    × (length (codes "0loyw3v28") ≡ 9)
    × (length (codes "000f10abcdff") ≡ 12)
    × (all is_base36 (codes "0loyw3v28") ≡ true)
    × (all is_hex (codes "000f10abcdff") ≡ true)
parsed_parts_exact_example =
    parsed_parts_exact (codes "ch_0loyw3v28000f10abcdff") (codes "ch") (codes "0loyw3v28")
      (codes "000f10abcdff") parsed

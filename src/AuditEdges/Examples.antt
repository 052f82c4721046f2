-- ===== src/AuditEdges/Examples.antt =====
-- Runs of the readers of src/identity-audit.js.
use vcs_lab.Prelude.{◌≡◌, refl, none, some, [], ◌∷◌, String, codes, ◌==◌}
use vcs_lab.AuditEdges.{change_id_trailers, Application, identity_preserving_edges}

two_trailers :
    change_id_trailers (codes "x\n\nChange-Id: a\nchange-id:  b \n") ≡ codes "a" ∷ codes "b" ∷ []
unfolding change_id_trailers
two_trailers = refl

abbrev application : String → String → Application
application origin_id applied_id = record {
  type = codes "application";
  origin_commit = some (codes "c1");
  applied_commit = none;
  attached_to = some (codes "c2");
  origin_change_id = some (codes origin_id);
  applied_change_id = some (codes applied_id);
}

one_edge :
    identity_preserving_edges (application "a" "b" ∷ application "a" "a" ∷ [])
    ≡ record { origin = codes "c1"; applied = codes "c2" } ∷ []
unfolding identity_preserving_edges ◌==◌
one_edge = refl

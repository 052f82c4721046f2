-- ===== src/AuditEdges.antt =====
-- src/identity-audit.js: the trailers that the audit reads of a message, and the application records that
-- keep an identity.
pub mod Examples
use vcs_lab.Prelude.{
  Bool, true, false, not, ◌&&◌, ◌||◌, Option, none, some, List, [], ◌∷◌, ◌++◌, map, if◌then◌else◌,
  Text, codes, ◌==◌, filter,
}
use vcs_lab.MergePlan.{present}
use vcs_lab.Trailers.{line_trailer, split_lines, trim}

-- `changeIdTrailers`; an absent message is empty.
unfoldable change_id_trailers : Text → List Text
unfolding line_trailer split_lines trim present
change_id_trailers message = map trim (present (map line_trailer (split_lines message)))

-- The members of an application record that the audit reads.
pub record Application : Type 0 where
  pub type : Text
  pub origin_commit : Option Text
  pub applied_commit : Option Text
  pub attached_to : Option Text
  pub origin_change_id : Option Text
  pub applied_change_id : Option Text

pub record Edge : Type 0 where
  pub origin : Text
  pub applied : Text

-- `APPLICATION_TYPES.has(type)`.
unfoldable is_application_type : Text → Bool
is_application_type t = t == codes "application" || t == codes "rebase-application"

-- `left ?? right`.
unfoldable or_else : Option Text → Option Text → Option Text
or_else none right = right
or_else (some left) right = some left

-- `left && right && left === right`.
unfoldable is_same_identity : Option Text → Option Text → Bool
is_same_identity (some (c ∷ cs)) (some id) = (c ∷ cs) == id
is_same_identity _ _ = false

-- The edge between two commits, neither of which may be absent or empty.
unfoldable edge_between : Option Text → Option Text → List Edge
edge_between (some (c ∷ cs)) (some (d ∷ ds)) = (record { origin = c ∷ cs; applied = d ∷ ds }) ∷ []
edge_between _ _ = []

unfoldable edge_of : Application → List Edge
unfolding is_application_type is_same_identity edge_between or_else
edge_of r =
    if is_application_type r.type && is_same_identity r.origin_change_id r.applied_change_id
    then edge_between r.origin_commit (or_else r.applied_commit r.attached_to)
    else []

-- `identityPreservingEdges`.
unfoldable pub identity_preserving_edges : List Application → List Edge
unfolding edge_of
identity_preserving_edges [] = []
identity_preserving_edges (r ∷ rs) = edge_of r ++ identity_preserving_edges rs

-- ===== src/RebaseJournal/Quiet.antt =====
-- Calls that change the world and neither the operation nor the journal on disk: what publishes the records
-- and what releases the anchors.
use vcs_lab.Prelude.{◌≡◌, refl, ◌∙◌, Bool, true, false, List, [], ◌∷◌, Text, if◌then◌else◌}
use vcs_lab.Errors.{ErrorCode, Result, ok, err}
use vcs_lab.RebaseJournal.{Operation, AppliedChange, RecreatedEntry, Receipt}
use vcs_lab.RebaseJournal.Host.{GitCommand, Call, Host}
use vcs_lab.RebaseJournal.Session.{
  Session, M, pure, throw, ◌>>=◌, ◌>>◌, bind_result, gets, asks, call, perform, throw_when, when,
  each, run_git,
}
use vcs_lab.RebaseJournal.Recording.{release_anchor, release_anchors}
use vcs_lab.RebaseJournal.Finishing.{publish_application, publish_join, publish}

abbrev pub SameFiles : {World : Type 0} → Session World → Session World → Type 0
SameFiles s t = (t.operation ≡ s.operation) × (t.disk ≡ s.disk)

module _ {World : Type 0} where
  pub record Quiet {A : Type 0} (m : M World A) : Type 0 where
    pub files : (s : Session World) → SameFiles s (m s).1

  pub Quiet-pure : {A : Type 0} (x : A) → Quiet (pure {World = World} x)
  unfolding pure
  Quiet-pure x = record { files = λ s. (refl, refl) }

  pub Quiet-asks : {A : Type 0} (f : World → A) → Quiet (asks f)
  unfolding asks
  Quiet-asks f = record { files = λ s. (refl, refl) }

  pub Quiet-gets : {A : Type 0} (f : Operation → A) → Quiet (gets {World = World} f)
  unfolding gets
  Quiet-gets f = record { files = λ s. (refl, refl) }

  pub Quiet-call : {A : Type 0} (f : Call World A) → Quiet (call f)
  unfolding call
  Quiet-call f = record { files = λ s. (refl, refl) }

  pub Quiet-perform : {A : Type 0} (f : World → A × World) → Quiet (perform f)
  unfolding perform
  Quiet-perform f = record { files = λ s. (refl, refl) }

  pub Quiet-throw_when : (b : Bool) (c : ErrorCode) → Quiet (throw_when {World = World} b c)
  unfolding throw_when throw pure
  Quiet-throw_when true c = record { files = λ s. (refl, refl) }
  Quiet-throw_when false c = record { files = λ s. (refl, refl) }

  bind-files :
      {A B : Type 0} (r : Result A) (s t : Session World) (f : A → M World B)
      → SameFiles s t
      → ((x : A) → Quiet (f x))
      → SameFiles s (bind_result r t f).1
  bind-files (ok x) s t f h q = (((q x).files t).0 ∙ h.0, ((q x).files t).1 ∙ h.1)
  bind-files (err c) s t f h q = h

  pub Quiet-bind :
      {A B : Type 0} {m : M World A} {f : A → M World B}
      → Quiet m
      → ((x : A) → Quiet (f x))
      → Quiet (m >>= f)
  unfolding ◌>>=◌
  Quiet-bind {m = m} {f = f} hm hf = record {
    files = λ s. bind-files (m s).0 s (m s).1 f (hm.files s) hf;
  }

  pub Quiet-then :
      {B : Type 0} {m : M World (Unit {0})} {n : M World B} → Quiet m → Quiet n → Quiet (m >> n)
  unfolding ◌>>◌ ◌>>=◌
  Quiet-then {m = m} {n = n} hm hn = record {
    files = λ s. bind-files (m s).0 s (m s).1 (λ _. n) (hm.files s) (λ _. hn);
  }

  pub Quiet-when : (b : Bool) {m : M World (Unit {0})} → Quiet m → Quiet (when b m)
  unfolding when
  Quiet-when true h = h
  Quiet-when false h = Quiet-pure tt

  pub Quiet-if :
      {A : Type 0} (b : Bool) {m n : M World A} → Quiet m → Quiet n → Quiet (if b then m else n)
  Quiet-if true h k = h
  Quiet-if false h k = k

  pub Quiet-each :
      {A : Type 0} (f : A → M World (Unit {0})) (xs : List A)
      → ((x : A) → Quiet (f x))
      → Quiet (each f xs)
  unfolding each
  Quiet-each f [] h = Quiet-pure tt
  Quiet-each f (x ∷ xs) h = Quiet-then (h x) (Quiet-each f xs h)

pub ruleset quiets = (
  Quiet-pure, Quiet-asks, Quiet-gets, Quiet-call, Quiet-perform, Quiet-throw_when, Quiet-bind,
  Quiet-then, Quiet-when, Quiet-each,
)

module _ {World : Type 0} (host : Host World) where
  pub run_git-Quiet : (command : GitCommand) → Quiet (run_git host command)
  unfolding run_git
  run_git-Quiet command = search (quiets) depth 20

  release_anchor-Quiet : (origin : Text) → Quiet (release_anchor host origin)
  unfolding release_anchor
  release_anchor-Quiet origin = search (quiets) depth 20

  pub release_anchors-Quiet : Quiet (release_anchors host)
  unfolding release_anchors
  release_anchors-Quiet = search (quiets, release_anchor-Quiet) depth 20

  publish_application-Quiet : (a : AppliedChange) → Quiet (publish_application host a)
  unfolding publish_application
  publish_application-Quiet a = search (quiets) depth 20

  publish_join-Quiet : (m : RecreatedEntry) → Quiet (publish_join host m)
  unfolding publish_join
  publish_join-Quiet m = search (quiets) depth 20

  pub publish-Quiet : (r : Receipt) → Quiet (publish host r)
  unfolding publish
  publish-Quiet r = search (quiets, publish_application-Quiet, publish_join-Quiet) depth 20

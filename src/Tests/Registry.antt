-- ===== src/Tests/Registry.antt =====
-- Instances for the checkpoint registry, and for a step of the supervisor over a run on disk.
use auto_code.Common.{String, true, [], ◌∷◌, ok, ◌≡◌, refl, ap, ◌∙◌, ◌&&◌}
use auto_code.Contracts.Enums.{Stage, Stage-discrete}
use auto_code.Contracts.Evidence.{Checkpoint}
use auto_code.Contracts.Json.{str}
use auto_code.Registry.{
  RegistryContext, RegistryDir, recorded, record_for, identified, issue, is_for, is_reusable,
  is_checkpoint_id,
}
use auto_code.Registry.Issued.{
  Identifiers, Issues, none_yet, issued, issue_with, IssuedIn, issue-Reusable, is_reusable-Issued,
}
use auto_code.Tests.Fixtures.{checkpoint}
use auto_code.Tests.Generations.{digest_hasher}

abbrev pub registry : RegistryContext
registry = record {
  hasher = digest_hasher;
  dump = λ _. str "checkpoint";
  is_persistable = λ _. true;
}

abbrev free_id : String
free_id = "0123456789abcdef0123456789abcdef"

pub ids_shapes :
    (is_checkpoint_id free_id && (is_checkpoint_id free_id && (is_checkpoint_id free_id && true)))
    ≡ true
unfolding is_checkpoint_id
ids_shapes = refl

abbrev pub three_ids : Identifiers
three_ids = record { first = free_id; second = free_id; third = free_id; shapes = ids_shapes }

abbrev of_analyst : Checkpoint
of_analyst = identified registry (checkpoint Stage.analyst) free_id

abbrev pub one_file : RegistryDir
one_file = (free_id, recorded (record_for registry free_id of_analyst)) ∷ []

issues_one : issue_with registry three_ids (checkpoint Stage.analyst) [] ≡ (ok of_analyst, one_file)
unfolding issue
issues_one = refl

-- Later all three identifiers are taken.
collides : (issue_with registry three_ids (checkpoint Stage.analyst) one_file).1 ≡ one_file
unfolding issue
collides = refl

abbrev one_issued : Issues registry [] one_file
one_issued =
    issued three_ids (checkpoint Stage.analyst) [] one_file none_yet (ap (λ p. p.1) issues_one)

issue-Reusable_example :
    is_reusable registry one_file of_analyst Stage.analyst "contract" (("upstream", "input") ∷ [])
    ≡ ok (is_for registry of_analyst Stage.analyst "contract" (("upstream", "input") ∷ []))
issue-Reusable_example =
    issue-Reusable registry three_ids (checkpoint Stage.analyst) [] one_file Stage.analyst
      "contract" (("upstream", "input") ∷ []) issues_one
      (issued three_ids (checkpoint Stage.analyst) one_file one_file none_yet collides)

asks_for : is_for registry of_analyst Stage.analyst "contract" (("upstream", "input") ∷ []) ≡ true
unfolding is_for Stage-discrete
asks_for = refl

reuses :
    is_reusable registry one_file of_analyst Stage.analyst "contract" (("upstream", "input") ∷ [])
    ≡ ok true
reuses =
    issue-Reusable registry three_ids (checkpoint Stage.analyst) [] one_file Stage.analyst
      "contract" (("upstream", "input") ∷ []) issues_one none_yet
    ∙ ap ok asks_for

is_reusable-Issued_example :
    (is_for registry of_analyst Stage.analyst "contract" (("upstream", "input") ∷ []) ≡ true)
    × IssuedIn registry of_analyst one_file
is_reusable-Issued_example =
    is_reusable-Issued registry one_file of_analyst Stage.analyst "contract"
      (("upstream", "input") ∷ []) one_issued reuses

-- ===== src/Contracts/RunState/Checks.antt =====
-- src/auto_code/contracts.py: the single tests of `RunState.validate_state`, each over the fields that
-- it reads, and the errors that it raises.
use auto_code.Common.{
  String, Bool, true, false, ◌&&◌, Option, none, some, List, [], ◌∷◌, map, ◌==◌, text_Eq, num_Eq,
  option_Eq, is_some, all, contains, if◌then◌else◌,
}
use auto_code.Contracts.Enums.{Stage, Stage_Eq, PreparationPhase_Eq}
use auto_code.Contracts.Evidence.{Checkpoint, StageOutput}
use auto_code.Contracts.Tasks.{
  TaskDefinition, TaskDefinitionManifest, TaskStatus, TaskStatusManifest,
}
use auto_code.Contracts.Bindings.{IndexReleaseBinding, IndexReleaseReceipt, binding}
use auto_code.Contracts.Externals.{Externals}

pub data StateError : Type 0 where
  budget_not_positive invalid_task_definition invalid_task_status invalid_authorization : StateError
  binding_incomplete binding_repository binding_budget binding_input_hash : StateError
  binding_receipt_hash phase_without_binding : StateError
  repair_trust_incomplete repair_key_hash finalization_trust_incomplete : StateError
  finalization_key_hash finalization_key_shared : StateError
  release_receipt_mismatch release_incomplete : StateError
  product_manifest_unbound restart_receipt_unbound : StateError
  count_exceeds_limit open_not_counted eligible_while_open eligible_without_review : StateError
  foreign_authorization duplicate_authorization : StateError
  status_without_definition status_of_other_definition status_not_covering : StateError
  checkpoint_stage_mismatch duplicate_output outputs_not_matching output_hash_mismatch : StateError
  invalid_ledger pending_unknown_effect pending_reconciled pending_other_intention : StateError
  pending_not_reconstructible pending_other_target iteration_cannot_start : StateError

infixr 25 ◌⇒◌
abbrev pub ◌⇒◌ : Bool → Bool → Bool
true ⇒ b = b
false ⇒ b = true

-- A test on a value that may be missing; a missing one passes.
abbrev pub if_some {ℓ} : {A : Type ℓ} → Option A → (A → Bool) → Bool
if_some none test = true
if_some (some a) test = test a

-- Present together or missing together.
abbrev pub paired : {A B : Type 0} → Option A → Option B → Bool
paired none none = true
paired (some _) (some _) = true
paired _ _ = false

-- `outputs = {output.stage: output for output in stage_outputs}`, at one stage
unfoldable pub output_of : List StageOutput → Stage → Option StageOutput
output_of [] stage = none
output_of (o ∷ rest) stage = elim (output_of rest stage) [
  | some later ↦ some later
  | none ↦ if o.stage == stage then some o else none
]

-- `hashlib.sha256(bytes.fromhex(key)).hexdigest() == key_hash`, where there is a key
abbrev pub key_matches : Externals → Option String → Option String → Bool
key_matches x key key_hash = if_some key (λ k. key_hash == some (x.public_key_digest k))

unfoldable pub same_binding : Option IndexReleaseBinding → IndexReleaseReceipt → Bool
unfolding binding
same_binding none r = false
same_binding (some b) r =
    b.repository_id == (binding r).repository_id
    && b.run_id == (binding r).run_id
    && b.prior_revision == (binding r).prior_revision
    && b.prior_hash == (binding r).prior_hash

abbrev pub is_signed : IndexReleaseReceipt → Bool
is_signed r = is_some r.signature

abbrev pub task_ids : TaskDefinitionManifest → List String
task_ids d = map (λ (t : TaskDefinition). t.task_id) d.tasks

abbrev pub status_ids : TaskStatusManifest → List String
status_ids m = map (λ (t : TaskStatus). t.task_id) m.statuses

-- `status_ids == task_ids`, as sets
abbrev pub same_ids : List String → List String → Bool
same_ids xs ys = all (λ x. contains x ys) xs && all (λ y. contains y xs) ys

-- A test on the status manifest and the definition that it needs.
abbrev pub on_status :
    Option TaskStatusManifest
    → Option TaskDefinitionManifest
    → (TaskStatusManifest → TaskDefinitionManifest → Bool)
    → Bool
on_status m d test = if_some m (λ m'. if_some d (λ d'. test m' d'))

abbrev pub stage_matches : Stage → Option Checkpoint → Bool
stage_matches stage c = if_some c (λ c'. c'.stage == stage)

-- A stage has an output exactly if it has a checkpoint, with the hash that the checkpoint names.
abbrev pub same_presence : Option StageOutput → Option Checkpoint → Bool
same_presence o c = paired o c

abbrev pub same_hash : Option StageOutput → Option Checkpoint → Bool
same_hash o c = if_some c (λ c'. if_some o (λ o'. o'.content_hash == c'.output_manifest_hash))

abbrev pub output_stages : List StageOutput → List Stage
output_stages outputs = map (λ (o : StageOutput). o.stage) outputs

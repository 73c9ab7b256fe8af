-- ===== src/Router.antt =====
-- src/auto_code/router.py: the stage graph, the next stage, invalidation and the routing of
-- failures. A set of stages is its list of members; the mappings are functions of the stage.
pub mod Graph
pub mod NextStage
pub mod Invalidation
pub mod Resume
pub mod Routing
use auto_code.Common.{
  ℕ, zero, suc, String, Bool, true, false, not, ◌&&◌, ◌||◌, Option, none, some, List, [], ◌∷◌, ◌++◌,
  any, keep, contains, ◌==◌, text_Eq, Result, ok, err, ◌>>=◌, if◌then◌else◌, is_some,
}
use auto_code.Contracts.Enums.{
  Stage, Stage_Eq, Stage-discrete, every_stage, FailureClass, FailureClass_Eq,
  FailureClass-discrete, FailureSource, FailureSource_Eq, FailureSource-discrete, FindingKind,
  FindingKind_Eq, FindingKind-discrete, RunDisposition, RunDisposition_Eq, RunDisposition-discrete,
}
use auto_code.Contracts.Evidence.{Checkpoint, FailureRecord, StageOutput}
use auto_code.Contracts.Externals.{Externals}
use auto_code.Contracts.RunState.{RunState}
use auto_code.Contracts.RunState.Checks.{StateError, output_of}
use auto_code.Contracts.RunState.Validation.{model_copy}

-- `DEPENDENCIES`: the stages that a stage requires
unfoldable pub dependencies : Stage → List Stage
dependencies Stage.analyst = []
dependencies Stage.architect_outline = Stage.analyst ∷ []
dependencies Stage.architect_proposal = Stage.architect_outline ∷ []
dependencies Stage.architect_specs = Stage.architect_proposal ∷ []
dependencies Stage.architect_design = Stage.architect_proposal ∷ []
dependencies Stage.architect_tasks = Stage.architect_specs ∷ Stage.architect_design ∷ []
dependencies Stage.programmer = Stage.architect_tasks ∷ []
dependencies Stage.verification = Stage.programmer ∷ []
dependencies Stage.tester = Stage.verification ∷ []
dependencies Stage.reviewer = Stage.tester ∷ []

-- `requirements.intersection(invalid)` is not empty, and the stage is not in `invalid`.
unfoldable pub is_added : List Stage → Stage → Bool
unfolding dependencies Stage-discrete
is_added invalid stage =
    any (λ r. contains r invalid) (dependencies stage) && not (contains stage invalid)

-- The `while` loop of `_descendants`, on fuel.
unfoldable pub grow : ℕ → List Stage → List Stage
unfolding is_added
grow zero invalid = invalid
grow (suc fuel) invalid = elim (keep (is_added invalid) every_stage) [
  | [] ↦ invalid
  | a ∷ more ↦ grow fuel (invalid ++ (a ∷ more))
]

-- `_descendants`. Each round but the last adds a stage, and there are ten.
unfoldable pub descendants : Stage → List Stage
unfolding grow
descendants owner = grow 10 (owner ∷ [])

pub record CheckpointExpectation : Type 0 where
  pub contract_hash : String
  pub input_hashes : List (String × String)

-- `CheckpointRegistryCorrupt`
pub data RegistryError : Type 0 where
  registry_corrupt : RegistryError

-- What the router uses of `CheckpointAuthority`: `is_reusable`, which may raise.
pub record CheckpointAuthority : Type 0 where
  pub is_reusable : Checkpoint → Stage → String → List (String × String) → Result RegistryError Bool

abbrev pub Expectations : Type 0
Expectations = Stage → Option CheckpointExpectation

-- The body of the loop of `next_stage`: whether the stage is passed over.
unfoldable pub has_binding :
    CheckpointAuthority
    → Stage
    → Option CheckpointExpectation
    → Option Checkpoint
    → Option StageOutput
    → Result RegistryError Bool
has_binding authority stage (some e) (some c) (some o) =
    if o.content_hash == c.output_manifest_hash
    then authority.is_reusable c stage e.contract_hash e.input_hashes
    else ok false
has_binding authority stage _ _ _ = ok false

unfoldable pub binds_at :
    RunState → Expectations → CheckpointAuthority → Stage → Result RegistryError Bool
unfolding has_binding output_of
binds_at s expectations authority stage =
    has_binding authority stage (expectations stage) (s.checkpoints stage)
      (output_of s.stage_outputs stage)

-- `for stage in Stage`
unfoldable pub first_unbound :
    (Stage → Result RegistryError Bool) → List Stage → Result RegistryError (Option Stage)
first_unbound binds [] = ok none
first_unbound binds (stage ∷ rest) =
    let later = first_unbound binds rest in
    do bound ← binds stage; if bound then later else ok (some stage)

unfoldable pub next_stage :
    RunState → Expectations → CheckpointAuthority → Result RegistryError (Option Stage)
unfolding first_unbound binds_at RunDisposition-discrete
next_stage s expectations authority =
    if s.disposition == RunDisposition.active
    then first_unbound (binds_at s expectations authority) every_stage
    else ok none

-- A value that is dropped if its stage is invalid.
abbrev pub unless {ℓ} : {A : Type ℓ} → Bool → A → A → A
unless gone dropped kept = if gone then dropped else kept

-- The `updates` of `invalidate_from`.
abbrev pub invalidated : (Stage → Bool) → Stage → RunState → RunState
invalidated gone owner s = record s {
  checkpoints = λ stage. unless (gone stage) none (s.checkpoints stage);
  stage_outputs = keep (λ (o : StageOutput). not (gone o.stage)) s.stage_outputs;
  current_stage = owner;
  iteration_open = false;
  requirements_package = unless (gone Stage.analyst) none s.requirements_package;
  change_outline = unless (gone Stage.architect_outline) none s.change_outline;
  task_definition_manifest = unless (gone Stage.architect_tasks) none s.task_definition_manifest;
  task_status_manifest = unless (gone Stage.architect_tasks) none s.task_status_manifest;
  product_change_manifest = unless (gone Stage.programmer) none s.product_change_manifest;
  product_change_manifest_hash = unless (gone Stage.programmer) none s.product_change_manifest_hash;
  build_identity = unless (gone Stage.programmer) none s.build_identity;
  verification_result = unless (gone Stage.verification) none s.verification_result;
  browser_result = unless (gone Stage.tester) none s.browser_result;
  review_manifest = unless (gone Stage.reviewer) none s.review_manifest;
  review_result = unless (gone Stage.reviewer) none s.review_result;
  prefinalization_ticket_projection =
      unless (gone Stage.reviewer) none s.prefinalization_ticket_projection;
  commit_sha = unless (gone Stage.reviewer) none s.commit_sha;
  pushed_sha = unless (gone Stage.reviewer) none s.pushed_sha;
  linear_done_receipt = unless (gone Stage.reviewer) none s.linear_done_receipt;
  finalization_eligible = unless (gone Stage.reviewer) false s.finalization_eligible;
  finalization = unless (gone Stage.reviewer) none s.finalization;
  finalization_evidence = unless (gone Stage.reviewer) none s.finalization_evidence;
}

abbrev pub is_descendant : Stage → Stage → Bool
is_descendant owner stage = contains stage (descendants owner)

unfoldable pub invalidate_from : Externals → RunState → Stage → Result StateError RunState
unfolding model_copy descendants
invalidate_from x s owner = model_copy x s (invalidated (is_descendant owner) owner)

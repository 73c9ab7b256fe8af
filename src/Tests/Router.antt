-- ===== src/Tests/Router.antt =====
-- Instances for the router.
use auto_code.Common.{
  false, if◌then◌else◌, none, some, [], ◌∷◌, ◌++◌, ok, ◌≡◌, ◌↔◌, refl, true, contains, ◌==◌,
}
use auto_code.Contracts.Enums.{
  Stage, Stage_Eq, RunDisposition_Eq, Stage-discrete, FailureClass, FailureSource, FindingKind,
  RunDisposition, every_stage,
}
use auto_code.Contracts.Evidence.{FailureRecord}
use auto_code.Contracts.RunState.{RunState}
use auto_code.Contracts.RunState.Validation.{authorized_iteration_limit, any_binding, IsValid}
use auto_code.Router.{
  CheckpointAuthority, Expectations, binds_at, next_stage, invalidate_from, invalidated,
  is_descendant, descendants,
}
use auto_code.Router.Graph.{Requires, descendants-Requires}
use auto_code.Router.NextStage.{FirstUnbound, AllBound, next_stage_lem}
use auto_code.Router.Invalidation.{invalidate_from-IsValid}
use auto_code.Router.Resume.{invalidate_from-next_stage}
use auto_code.Router.Routing.{is_repair_source, route_failure, apply_route, active_retry}
use auto_code.Router.Routing.Targets.{Retryable, route_failure-Retryable, route_failure-repair}
use auto_code.Router.Routing.Application.{Routed, apply_route-Routed, apply_route-gated}
use auto_code.Tests.Fixtures.{externals, underway, underway-IsValid, failure}

abbrev pub authority : CheckpointAuthority
authority = record { is_reusable = λ _ _ _ _. ok true }

abbrev expectations : Expectations
expectations _ =
    some (record { contract_hash = "contract"; input_hashes = ("upstream", "input") ∷ [] })

tasks_descendants :
    descendants Stage.architect_tasks
    ≡ Stage.architect_tasks ∷ Stage.programmer ∷ Stage.verification ∷ Stage.tester ∷ Stage.reviewer
      ∷ []
unfolding descendants
tasks_descendants = refl

descendants-Requires_example :
    (contains Stage.tester (descendants Stage.architect_specs) ≡ true)
    ↔ Requires Stage.architect_specs Stage.tester
descendants-Requires_example = descendants-Requires Stage.architect_specs Stage.tester

next_stage_lem_example :
    ((stage : Stage)
      → (next_stage underway expectations authority ≡ ok (some stage))
        ↔ FirstUnbound (binds_at underway expectations authority) every_stage stage)
    × ((next_stage underway expectations authority ≡ ok none)
        ↔ AllBound (binds_at underway expectations authority) every_stage)
next_stage_lem_example = next_stage_lem underway expectations authority refl

underway_goes_on : next_stage underway expectations authority ≡ ok (some Stage.architect_proposal)
unfolding next_stage Stage-discrete
underway_goes_on = refl

invalidate_from-IsValid_example :
    (invalidate_from externals underway Stage.architect_outline
      ≡ ok (invalidated (is_descendant Stage.architect_outline) Stage.architect_outline underway))
    × IsValid externals
        (invalidated (is_descendant Stage.architect_outline) Stage.architect_outline underway)
invalidate_from-IsValid_example =
    invalidate_from-IsValid externals underway Stage.architect_outline underway-IsValid

invalidate_from-next_stage_example :
    (t : RunState) × (invalidate_from externals underway Stage.architect_outline ≡ ok t)
    × (next_stage t expectations authority ≡ ok (some Stage.architect_outline))
unfolding Stage-discrete binds_at
invalidate_from-next_stage_example =
    invalidate_from-next_stage underway expectations authority externals Stage.architect_outline
      underway-IsValid refl (refl, tt)

abbrev pub invalid_unit : FailureRecord
invalid_unit =
    failure FailureClass.invalid_output FailureSource.artifact FindingKind.invalid_unit_output
      (some Stage.architect_outline)

abbrev broken_tool : FailureRecord
broken_tool =
    failure FailureClass.orchestration FailureSource.transport FindingKind.invalid_unit_output none

route_failure-Retryable_example :
    ((stage : Stage)
      → Retryable underway invalid_unit stage
      → route_failure underway invalid_unit ≡ active_retry invalid_unit stage)
    × ((route_failure underway invalid_unit).disposition ≡ RunDisposition.active
        → (stage : Stage) × Retryable underway invalid_unit stage)
route_failure-Retryable_example = route_failure-Retryable underway invalid_unit refl

route_failure-repair_example :
    ((route_failure underway broken_tool).disposition ≡ RunDisposition.repair_required) ↔ (
      (broken_tool.failure_class ≡ FailureClass.orchestration)
      × (is_repair_source broken_tool.failure_source ≡ true))
route_failure-repair_example = route_failure-repair underway broken_tool refl

abbrev waiting : RunState
waiting = record underway { disposition = RunDisposition.waiting_mcp }

waiting-IsValid : IsValid externals waiting
unfolding any_binding authorized_iteration_limit
waiting-IsValid = record { fields = underway-IsValid.fields; effects = underway-IsValid.effects }

apply_route-Routed_example :
    (t : RunState) × (apply_route externals underway (route_failure underway invalid_unit) ≡ ok t)
    × Routed externals underway (route_failure underway invalid_unit) t
apply_route-Routed_example =
    apply_route-Routed externals underway (route_failure underway invalid_unit) underway-IsValid
      refl

apply_route-gated_example :
    apply_route externals waiting (route_failure waiting broken_tool)
    ≡ ok (record waiting {
      disposition =
          if waiting.disposition == RunDisposition.waiting_mcp
          then RunDisposition.human_review
          else waiting.disposition;
      iteration_open = false;
      failure_history = waiting.failure_history ++ (route_failure waiting broken_tool).failure ∷ [];
    })
apply_route-gated_example =
    apply_route-gated externals waiting (route_failure waiting broken_tool) waiting-IsValid
      (λ e. cc)

-- ===== src/Router/Routing/Targets.antt =====
-- Where `route_failure` sends a failure.
use auto_code.Common.{
  is_nonempty, true, Option, none, some, option_Eq, ◌≡◌, ◌⊎◌, ◌↔◌, sym, ap, ◌∙◌, inl, inr,
  Bool-cases, refl, arith,
}
use auto_code.Contracts.Enums.{
  Stage, Stage_Eq, FailureClass, FailureClass_Eq, FailureSource, FailureSource_Eq, FindingKind,
  FindingKind_Eq, RunDisposition, RunDisposition_Eq,
}
use auto_code.Contracts.Evidence.{FailureRecord}
use auto_code.Contracts.RunState.{RunState}
use auto_code.Router.Routing.{
  RouteDecision, is_architect_stage, is_product_execution_source, is_repair_source, product_owner,
  is_implementation_defect, is_retryable_invalid_output, artifact_owner, retry_or, unroutable,
  active_retry, gate, human_review, route_class, route_failure,
}

-- The failures that the orchestration retries by itself, with the stage that they go back to.
pub data Retryable (s : RunState) (f : FailureRecord) (stage : Stage) : Type 0 where
  -- the open unit gave an output that does not validate
  invalid_unit :
      s.iteration_open ≡ true
      → f.failure_class ≡ FailureClass.invalid_output
      → f.failure_source ≡ FailureSource.artifact
      → f.finding_kind ≡ FindingKind.invalid_unit_output
      → f.owner_stage ≡ some stage
      → stage ≡ s.current_stage
      → Retryable s f stage
  -- verification, browser or review found a defect of the implementation
  implementation :
      f.failure_class ≡ FailureClass.product
      → f.owner_stage ≡ some stage
      → stage ≡ Stage.programmer
      → is_product_execution_source f.failure_source ≡ true
      → (f.finding_kind ≡ FindingKind.implementation_mismatch)
        ⊎ (f.finding_kind ≡ FindingKind.scenario_mismatch)
      → Retryable s f stage
  -- the review found a defect of an architect's artifact, with citations and evidence
  artifact :
      f.failure_class ≡ FailureClass.product
      → f.owner_stage ≡ some stage
      → is_architect_stage stage ≡ true
      → f.failure_source ≡ FailureSource.review
      → f.finding_kind ≡ FindingKind.artifact_mismatch
      → is_nonempty f.cited_ids ≡ true
      → is_nonempty f.evidence_refs ≡ true
      → Retryable s f stage

-- An active state retries a failure that is retryable, at its stage.
Retryable-route_failure :
    (s : RunState) (f : FailureRecord) {stage : Stage}
    → s.disposition ≡ RunDisposition.active
    → Retryable s f stage
    → route_failure s f ≡ active_retry f stage
unfolding route_failure route_class is_retryable_invalid_output product_owner
Retryable-route_failure s f active (invalid_unit open_now c so k o st) = ground arith
Retryable-route_failure s f active (implementation c o st so k) = ground arith
Retryable-route_failure s f active (artifact c o st so k ci ev) = ground arith

is_implementation_defect-parts :
    (f : FailureRecord)
    → is_implementation_defect f ≡ true
    → (f.owner_stage ≡ some Stage.programmer)
      × (is_product_execution_source f.failure_source ≡ true)
      × ((f.finding_kind ≡ FindingKind.implementation_mismatch)
          ⊎ (f.finding_kind ≡ FindingKind.scenario_mismatch))
unfolding is_implementation_defect
is_implementation_defect-parts f h = (ground arith, ground arith, ground arith)

artifact-Retryable :
    (s : RunState) (f : FailureRecord) (o : Option Stage) (stage : Stage)
    → f.failure_class ≡ FailureClass.product
    → f.owner_stage ≡ o
    → artifact_owner f o ≡ some stage
    → Retryable s f stage
unfolding artifact_owner
artifact-Retryable s f none stage c e h = absurd (cc)
artifact-Retryable s f (some owner) stage c e h =
    artifact c (ground arith) (ground arith) (ground arith) (ground arith) (ground arith)
      (ground arith)

product-Retryable :
    (s : RunState) (f : FailureRecord) (stage : Stage)
    → f.failure_class ≡ FailureClass.product
    → product_owner f ≡ some stage
    → Retryable s f stage
unfolding product_owner
product-Retryable s f stage c h = elim (Bool-cases (is_implementation_defect f)) [
  | inl defect ↦
      let (o, so, k) = is_implementation_defect-parts f defect in
      let target : some Stage.programmer ≡ some stage = rw defect at h in
      implementation c (cc) (cc) so k
  | inr other ↦
      let target : artifact_owner f f.owner_stage ≡ some stage = rw other at h in
      artifact-Retryable s f f.owner_stage stage c refl target
]

retried_owner :
    (o : Option Stage) (f : FailureRecord)
    → (retry_or o f (unroutable f)).disposition ≡ RunDisposition.active
    → (stage : Stage) × (o ≡ some stage)
unfolding unroutable
retried_owner none f h = absurd (ground arith)
retried_owner (some stage) f h = (stage, refl)

class-Retryable :
    (c : FailureClass) (s : RunState) (f : FailureRecord)
    → f.failure_class ≡ c
    → (route_class c s f).disposition ≡ RunDisposition.active
    → (stage : Stage) × Retryable s f stage
unfolding route_class human_review gate unroutable is_retryable_invalid_output
class-Retryable FailureClass.ambiguity s f e h = absurd (ground arith)
class-Retryable FailureClass.budget_exhausted s f e h = absurd (ground arith)
class-Retryable FailureClass.orchestration s f e h = absurd (ground arith)
class-Retryable FailureClass.invalid_output s f e h = (
  s.current_stage,
  invalid_unit (ground arith) e (ground arith) (ground arith) (ground arith) refl,
)
class-Retryable FailureClass.product s f e h =
    let (stage, owner) = retried_owner (product_owner f) f (ground arith) in
    (stage, product-Retryable s f stage e owner)

pub route_failure-active :
    (s : RunState) (f : FailureRecord)
    → s.disposition ≡ RunDisposition.active
    → route_failure s f ≡ route_class f.failure_class s f
unfolding route_failure
route_failure-active s f active =
    rw ((RunDisposition_Eq.beq_iff s.disposition RunDisposition.active).1 active)

-- An active state ends up active exactly where the failure is retryable at some stage; the decision
-- is then to invalidate that stage and go on there.
pub route_failure-Retryable :
    (s : RunState) (f : FailureRecord)
    → s.disposition ≡ RunDisposition.active
    → ((stage : Stage) → Retryable s f stage → route_failure s f ≡ active_retry f stage)
      × ((route_failure s f).disposition ≡ RunDisposition.active
          → (stage : Stage) × Retryable s f stage)
route_failure-Retryable s f active = (
  λ stage r. Retryable-route_failure s f active r,
  λ h.
      class-Retryable f.failure_class s f refl
        (sym (ap (λ (d : RouteDecision). d.disposition) (route_failure-active s f active)) ∙ h),
)

unroutable-human_review :
    (f : FailureRecord) → (unroutable f).disposition ≡ RunDisposition.human_review
unfolding unroutable
unroutable-human_review f = ground arith

retry_or-dispositions :
    (o : Option Stage) (f : FailureRecord)
    → ((retry_or o f (unroutable f)).disposition ≡ RunDisposition.active)
      ⊎ ((retry_or o f (unroutable f)).disposition ≡ RunDisposition.human_review)
unfolding active_retry
retry_or-dispositions none f = inr (unroutable-human_review f)
retry_or-dispositions (some stage) f = inl refl

class-repair :
    (c : FailureClass) (s : RunState) (f : FailureRecord)
    → (route_class c s f).disposition ≡ RunDisposition.repair_required
    → (c ≡ FailureClass.orchestration) × (is_repair_source f.failure_source ≡ true)
unfolding route_class human_review gate
class-repair FailureClass.ambiguity s f h = absurd (ground arith)
class-repair FailureClass.budget_exhausted s f h =
    absurd (ground (arith, unroutable-human_review f))
class-repair FailureClass.orchestration s f h = (refl, ground (arith, unroutable-human_review f))
class-repair FailureClass.invalid_output s f h =
    absurd (ground (arith, unroutable-human_review f, retry_or-dispositions f.owner_stage f))
class-repair FailureClass.product s f h =
    absurd (ground (arith, retry_or-dispositions (product_owner f) f))

repair-class :
    (s : RunState) (f : FailureRecord)
    → f.failure_class ≡ FailureClass.orchestration
    → is_repair_source f.failure_source ≡ true
    → (route_class FailureClass.orchestration s f).disposition ≡ RunDisposition.repair_required
unfolding route_class gate
repair-class s f c h = rw h

-- An active state ends up waiting for a repair exactly for an orchestration failure from one of the
-- repair sources.
pub route_failure-repair :
    (s : RunState) (f : FailureRecord)
    → s.disposition ≡ RunDisposition.active
    → ((route_failure s f).disposition ≡ RunDisposition.repair_required) ↔ (
        (f.failure_class ≡ FailureClass.orchestration) × (is_repair_source f.failure_source ≡ true))
route_failure-repair s f active =
    let disposition = λ (d : RouteDecision). d.disposition in
    let e = ap disposition (route_failure-active s f active) in
    (
      λ h. class-repair f.failure_class s f (sym e ∙ h),
      λ h. e ∙ ap (λ c. (route_class c s f).disposition) h.0 ∙ repair-class s f h.0 h.1,
    )

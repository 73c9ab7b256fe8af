-- ===== src/Router/Routing.antt =====
-- src/auto_code/router.py: `route_failure` and `apply_route`.
pub mod Targets
pub mod Application
use auto_code.Common.{
  is_nonempty, Bool, true, false, not, ◌&&◌, ◌||◌, Option, none, some, List, [], ◌∷◌, ◌++◌,
  contains, ◌==◌, option_Eq, Result, ok, err, ◌>>=◌, if◌then◌else◌,
}
use auto_code.Contracts.Enums.{
  Stage, Stage_Eq, Stage-discrete, FailureClass, FailureClass_Eq, FailureClass-discrete,
  FailureSource, FailureSource_Eq, FailureSource-discrete, FindingKind, FindingKind_Eq,
  FindingKind-discrete, RunDisposition, RunDisposition_Eq, RunDisposition-discrete,
}
use auto_code.Contracts.Evidence.{FailureRecord}
use auto_code.Contracts.Externals.{Externals}
use auto_code.Contracts.RunState.{RunState}
use auto_code.Contracts.RunState.Checks.{StateError}
use auto_code.Contracts.RunState.Validation.{model_copy}
use auto_code.Router.{invalidate_from}

pub record RouteDecision : Type 0 where
  pub disposition : RunDisposition
  pub invalidation_roots : List Stage
  pub next_stage : Option Stage
  pub failure : FailureRecord
  pub original_failure : Option FailureRecord

unfoldable pub is_architect_stage : Stage → Bool
is_architect_stage Stage.architect_outline = true
is_architect_stage Stage.architect_proposal = true
is_architect_stage Stage.architect_specs = true
is_architect_stage Stage.architect_design = true
is_architect_stage Stage.architect_tasks = true
is_architect_stage _ = false

-- `_PRODUCT_EXECUTION_SOURCES`
unfoldable pub is_product_execution_source : FailureSource → Bool
is_product_execution_source FailureSource.verification = true
is_product_execution_source FailureSource.browser = true
is_product_execution_source FailureSource.review = true
is_product_execution_source _ = false

-- `_REPAIR_SOURCES`
unfoldable pub is_repair_source : FailureSource → Bool
is_repair_source FailureSource.transport = true
is_repair_source FailureSource.artifact = true
is_repair_source FailureSource.verification = true
is_repair_source FailureSource.browser = true
is_repair_source FailureSource.review = true
is_repair_source _ = false

-- `_HUMAN_REVIEW_ORCHESTRATION_SOURCES`
unfoldable pub is_human_review_source : FailureSource → Bool
is_human_review_source FailureSource.preflight = true
is_human_review_source FailureSource.finalization = true
is_human_review_source FailureSource.supervisor = true
is_human_review_source _ = false

unfoldable pub active_retry : FailureRecord → Stage → RouteDecision
active_retry failure stage = record {
  disposition = RunDisposition.active;
  invalidation_roots = stage ∷ [];
  next_stage = some stage;
  failure = failure;
  original_failure = none;
}

-- `RouteDecision(disposition=..., invalidation_roots=(), next_stage=None, failure=failure)`
unfoldable pub gate : RunDisposition → FailureRecord → RouteDecision
gate disposition failure = record {
  disposition = disposition;
  invalidation_roots = [];
  next_stage = none;
  failure = failure;
  original_failure = none;
}

unfoldable pub human_review : FailureRecord → Option FailureRecord → RouteDecision
human_review failure original = record {
  disposition = RunDisposition.human_review;
  invalidation_roots = [];
  next_stage = none;
  failure = failure;
  original_failure = original;
}

unfoldable pub is_retryable_invalid_output : RunState → FailureRecord → Bool
unfolding Stage-discrete FailureSource-discrete FindingKind-discrete
is_retryable_invalid_output s f =
    s.iteration_open
    && f.failure_source == FailureSource.artifact
    && f.finding_kind == FindingKind.invalid_unit_output
    && f.owner_stage == some s.current_stage

unfoldable pub gated_state_route : RunState → FailureRecord → RouteDecision
unfolding human_review gate RunDisposition-discrete
gated_state_route s f =
    if s.disposition == RunDisposition.waiting_mcp
    then human_review f none
    else gate s.disposition f

unfoldable pub invalid_routing_failure : FailureRecord → FailureRecord
invalid_routing_failure f = record {
  failure_class = FailureClass.orchestration;
  failure_source = FailureSource.supervisor;
  finding_kind = FindingKind.invalid_routing;
  owner_stage = none;
  cited_ids = f.cited_ids;
  evidence_refs = f.evidence_refs;
  observed_revision = f.observed_revision;
}

unfoldable pub is_terminal_invalid_routing : FailureRecord → Bool
unfolding FailureClass-discrete FailureSource-discrete FindingKind-discrete
is_terminal_invalid_routing f =
    f.failure_class == FailureClass.orchestration
    && f.failure_source == FailureSource.supervisor
    && f.finding_kind == FindingKind.invalid_routing

-- The last two returns.
unfoldable pub unroutable : FailureRecord → RouteDecision
unfolding is_terminal_invalid_routing human_review invalid_routing_failure
unroutable f =
    if is_terminal_invalid_routing f
    then human_review f none
    else human_review (invalid_routing_failure f) (some f)

-- The architect stage that a review sends an artifact mismatch back to.
unfoldable pub artifact_owner : FailureRecord → Option Stage → Option Stage
unfolding FailureSource-discrete FindingKind-discrete is_architect_stage
artifact_owner f none = none
artifact_owner f (some owner) =
    if f.failure_source == FailureSource.review
      && f.finding_kind == FindingKind.artifact_mismatch
      && is_architect_stage owner
      && is_nonempty f.cited_ids
      && is_nonempty f.evidence_refs
    then some owner
    else none

-- The condition under which a product failure goes back to the programmer.
unfoldable pub is_implementation_defect : FailureRecord → Bool
unfolding Stage-discrete FindingKind-discrete is_product_execution_source
is_implementation_defect f =
    f.owner_stage == some Stage.programmer
    && is_product_execution_source f.failure_source
    && (f.finding_kind == FindingKind.implementation_mismatch
        || f.finding_kind == FindingKind.scenario_mismatch)

-- The stage that a product failure goes back to, if the router accepts its owner.
unfoldable pub product_owner : FailureRecord → Option Stage
unfolding is_implementation_defect artifact_owner
product_owner f =
    if is_implementation_defect f then some Stage.programmer else artifact_owner f f.owner_stage

abbrev pub retry_or : Option Stage → FailureRecord → RouteDecision → RouteDecision
retry_or none f other = other
retry_or (some stage) f other = active_retry f stage

-- The branches on the failure class, for an active state. Those that return nothing fall through to
-- the end.
unfoldable pub route_class : FailureClass → RunState → FailureRecord → RouteDecision
unfolding Stage-discrete FailureSource-discrete
route_class FailureClass.ambiguity s f = human_review f none
route_class FailureClass.budget_exhausted s f =
    if f.failure_source == FailureSource.supervisor then human_review f none else unroutable f
route_class FailureClass.invalid_output s f =
    if is_retryable_invalid_output s f
    then retry_or f.owner_stage f (unroutable f)
    else unroutable f
route_class FailureClass.product s f =
    if f.owner_stage == some Stage.analyst
    then human_review f none
    else retry_or (product_owner f) f (unroutable f)
route_class FailureClass.orchestration s f =
    if is_repair_source f.failure_source
    then gate RunDisposition.repair_required f
    else if is_human_review_source f.failure_source
    then human_review f none
    else unroutable f

unfoldable pub route_failure : RunState → FailureRecord → RouteDecision
unfolding RunDisposition-discrete
route_failure s f =
    if s.disposition == RunDisposition.active
    then route_class f.failure_class s f
    else gated_state_route s f

-- `for owner in decision.invalidation_roots`
unfoldable pub invalidate_all : Externals → RunState → List Stage → Result StateError RunState
unfolding invalidate_from
invalidate_all x s [] = ok s
invalidate_all x s (owner ∷ rest) = do s' ← invalidate_from x s owner; invalidate_all x s' rest

-- The failures that a decision appends.
abbrev pub recorded : RouteDecision → List FailureRecord
recorded d = elim d.original_failure [ none ↦ d.failure ∷ [] | some o ↦ o ∷ d.failure ∷ [] ]

-- `updates["current_stage"]`, if the decision names a next stage
abbrev pub stage_after : Option Stage → Stage → Stage
stage_after none current = current
stage_after (some stage) current = stage

-- The update for a state that is not active: the gate decides.
abbrev pub gated : RouteDecision → RunState → RunState
gated g s = record s {
  disposition = g.disposition;
  iteration_open = false;
  failure_history = s.failure_history ++ g.failure ∷ [];
}

abbrev pub routed : RouteDecision → RunState → RunState
routed d s = record s {
  disposition = d.disposition;
  iteration_open = false;
  failure_history = s.failure_history ++ recorded d;
  current_stage = stage_after d.next_stage s.current_stage;
}

unfoldable pub apply_route : Externals → RunState → RouteDecision → Result StateError RunState
unfolding gated_state_route invalidate_all model_copy RunDisposition-discrete
apply_route x s d =
    if s.disposition == RunDisposition.active
    then (do s' ← invalidate_all x s d.invalidation_roots; model_copy x s' (routed d))
    else model_copy x s (gated (gated_state_route s d.failure))

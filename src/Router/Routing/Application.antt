-- ===== src/Router/Routing/Application.antt =====
-- What `apply_route` does to a state that validates.
use mathlib.Core.Path.{ap₂}
use auto_code.Contracts.Evidence.{FailureRecord}
use auto_code.Common.{
  false, List, [], ◌∷◌, ◌++◌, ◌==◌, if◌then◌else◌, ok, ◌≡◌, ◌≢◌, refl, ap, ◌∙◌, arith,
}
use auto_code.Contracts.Enums.{Stage, RunDisposition, RunDisposition_Eq}
use auto_code.Contracts.Externals.{Externals}
use auto_code.Contracts.RunState.{RunState}
use auto_code.Contracts.RunState.Validation.{
  any_binding, has_preparation_binding, authorized_iteration_limit, IsValid, IsValid-validate_state,
}
use auto_code.Router.{invalidated, is_descendant}
use auto_code.Router.Invalidation.{invalidate_from-IsValid}
use auto_code.Router.Routing.{
  RouteDecision, gated_state_route, invalidate_all, recorded, gated, routed, apply_route,
}

-- The state `s` with the fields that the router may write taken from `t`.
abbrev pub patched : RunState → RunState → RunState
patched s t = record s {
  disposition = t.disposition;
  iteration_open = t.iteration_open;
  current_stage = t.current_stage;
  requirements_package = t.requirements_package;
  change_outline = t.change_outline;
  stage_outputs = t.stage_outputs;
  task_definition_manifest = t.task_definition_manifest;
  task_status_manifest = t.task_status_manifest;
  product_change_manifest = t.product_change_manifest;
  product_change_manifest_hash = t.product_change_manifest_hash;
  build_identity = t.build_identity;
  verification_result = t.verification_result;
  browser_result = t.browser_result;
  review_manifest = t.review_manifest;
  review_result = t.review_result;
  checkpoints = t.checkpoints;
  failure_history = t.failure_history;
  prefinalization_ticket_projection = t.prefinalization_ticket_projection;
  commit_sha = t.commit_sha;
  pushed_sha = t.pushed_sha;
  linear_done_receipt = t.linear_done_receipt;
  finalization_eligible = t.finalization_eligible;
  finalization = t.finalization;
  finalization_evidence = t.finalization_evidence;
}

-- The invalidations of a decision, one after the other.
pub record Invalidated (x : Externals) (s t : RunState) : Type 0 where
  pub valid : IsValid x t
  pub untouched : t ≡ patched s t
  pub failures : t.failure_history ≡ s.failure_history
  pub disposition : t.disposition ≡ s.disposition

invalidate_all-Invalidated :
    (x : Externals) (s : RunState) (roots : List Stage)
    → IsValid x s
    → (t : RunState) × (invalidate_all x s roots ≡ ok t) × Invalidated x s t
unfolding invalidate_all
invalidate_all-Invalidated x s [] v =
    (s, refl, record { valid = v; untouched = refl; failures = refl; disposition = refl })
invalidate_all-Invalidated x s (owner ∷ rest) v =
    let (step, v') = invalidate_from-IsValid x s owner v in
    let s' = invalidated (is_descendant owner) owner s in
    let (t, go, r) = invalidate_all-Invalidated x s' rest v' in
    (
      t,
      rw step go,
      record {
        valid = r.valid;
        untouched = r.untouched;
        failures = r.failures;
        disposition = r.disposition;
      },
    )

pub routed-IsValid :
    (x : Externals) (d : RouteDecision) (s : RunState) → IsValid x s → IsValid x (routed d s)
unfolding any_binding has_preparation_binding authorized_iteration_limit
routed-IsValid x d s v = record { fields = ground (arith, v.fields); effects = v.effects }

gated-IsValid :
    (x : Externals) (d : RouteDecision) (s : RunState) → IsValid x s → IsValid x (gated d s)
unfolding any_binding has_preparation_binding authorized_iteration_limit
gated-IsValid x d s v = record { fields = ground (arith, v.fields); effects = v.effects }

-- What a routed state has: it validates, its iteration is closed, the failures are appended to the
-- history and to nothing else, and of the other fields only those that the router owns differ.
pub record Routed (x : Externals) (s : RunState) (d : RouteDecision) (t : RunState) : Type 0 where
  pub valid : IsValid x t
  pub closed : t.iteration_open ≡ false
  pub disposition : t.disposition ≡ d.disposition
  pub failures : t.failure_history ≡ s.failure_history ++ recorded d
  pub untouched : t ≡ patched s t

-- On an active state that validates, `apply_route` raises nothing, whatever the decision. The result
-- validates, with its iteration closed, the decision's disposition, and the decision's failures
-- appended to the history; of the other fields it changes only those listed in `patched`.
pub apply_route-Routed :
    (x : Externals) (s : RunState) (d : RouteDecision)
    → IsValid x s
    → s.disposition ≡ RunDisposition.active
    → (t : RunState) × (apply_route x s d ≡ ok t) × Routed x s d t
unfolding apply_route
apply_route-Routed x s d v active =
    let (t, go, r) = invalidate_all-Invalidated x s d.invalidation_roots v in
    let v' = routed-IsValid x d t r.valid in
    (
      routed d t,
      rw ((RunDisposition_Eq.beq_iff s.disposition RunDisposition.active).1 active, go)
          (IsValid-validate_state x (routed d t) v'),
      record {
        valid = v';
        closed = refl;
        disposition = refl;
        failures = ap (λ h. h ++ recorded d) r.failures;
        untouched = ap (routed d) r.untouched;
      },
    )

gated_state_route-parts :
    (s : RunState) (f : FailureRecord)
    → ((gated_state_route s f).disposition ≡ (
        if s.disposition == RunDisposition.waiting_mcp
        then RunDisposition.human_review
        else s.disposition))
      × ((gated_state_route s f).failure ≡ f)
unfolding gated_state_route
gated_state_route-parts s f = ground arith

-- On a state that validates and is not active, `apply_route` raises nothing and only closes the
-- iteration, moves a wait for an external request to human review, and appends the decision's failure.
pub apply_route-gated :
    (x : Externals) (s : RunState) (d : RouteDecision)
    → IsValid x s
    → s.disposition ≢ RunDisposition.active
    → apply_route x s d
      ≡ ok (record s {
        disposition =
            if s.disposition == RunDisposition.waiting_mcp
            then RunDisposition.human_review
            else s.disposition;
        iteration_open = false;
        failure_history = s.failure_history ++ d.failure ∷ [];
      })
unfolding apply_route
apply_route-gated x s d v idle =
    let g = gated_state_route s d.failure in
    let off : (s.disposition == RunDisposition.active) ≡ false = ground arith in
    let (disposition, failure) = gated_state_route-parts s d.failure in
    rw off (
      IsValid-validate_state x (gated g s) (gated-IsValid x g s v)
      ∙ ap₂
          (λ q f. ok (record s {
            disposition = q;
            iteration_open = false;
            failure_history = s.failure_history ++ f ∷ [];
          }))
          disposition failure)

-- ===== src/State/Transitions/Accepts.antt =====
-- src/auto_code/state.py and src/auto_code/router.py: what the store asks of a transition that the
-- router makes.
use auto_code.Common.{true, false, List, [], ◌∷◌, ok, ◌≡◌, inl, inr, refl, arith, Bool-cases}
use auto_code.Contracts.Enums.{Stage, RunDisposition, RunDisposition_Eq}
use auto_code.Contracts.Evidence.{FailureRecord}
use auto_code.Contracts.Externals.{Externals}
use auto_code.Contracts.RunState.{RunState}
use auto_code.Contracts.RunState.Validation.{IsValid, IsValid-validate_state}
use auto_code.Router.{invalidated, is_descendant}
use auto_code.Router.Invalidation.{invalidate_from-IsValid}
use auto_code.Router.Routing.{RouteDecision, route_failure, invalidate_all, apply_route, routed}
use auto_code.Router.Routing.Application.{routed-IsValid}
use auto_code.State.Transitions.{
  validate_iteration_transition, validate_task_transition, validate_disposition_transition,
}
use auto_code.State.Transitions.Routes.{
  cleared-task_transition, kept-task_transition, routed-task_transition, route_failure-lawful,
  routed-disposition_transition, ends_in, at_most_one, is_lawful,
}

iteration-closed :
    (s t : RunState)
    → t.iteration_open ≡ false
    → t.crew_iteration_count ≡ s.crew_iteration_count
    → validate_iteration_transition s t ≡ ok tt
unfolding validate_iteration_transition
iteration-closed s t closed same = ground arith

-- The three checks pass, with no authorization appended.
pub record Accepted (s t : RunState) : Type 0 where
  pub iterations : validate_iteration_transition s t ≡ ok tt
  pub tasks : validate_task_transition s t ≡ ok tt
  pub dispositions : validate_disposition_transition s t [] ≡ ok tt

invalidated-task_transition :
    (x : Externals) (s : RunState) (owner : Stage) (d : RouteDecision)
    → IsValid x s
    → validate_task_transition s (routed d (invalidated (is_descendant owner) owner s)) ≡ ok tt
invalidated-task_transition x s owner d v =
    elim (Bool-cases (is_descendant owner Stage.architect_tasks)) [
      | inl gone ↦ cleared-task_transition s owner x d v gone
      | inr kept ↦ kept-task_transition s owner d kept
    ]

-- What the invalidations of a decision with at most one root make.
record Undone (x : Externals) (s : RunState) (d : RouteDecision) (s' : RunState) : Type 0 where
  valid : IsValid x s'
  tasks : validate_task_transition s (routed d s') ≡ ok tt
  iterations : s'.crew_iteration_count ≡ s.crew_iteration_count

invalidate_all-Undone :
    (x : Externals) (s : RunState) (d : RouteDecision) (roots : List Stage)
    → IsValid x s
    → at_most_one roots ≡ true
    → (s' : RunState) × (invalidate_all x s roots ≡ ok s') × Undone x s d s'
unfolding invalidate_all
invalidate_all-Undone x s d [] v few =
    (s, refl, record { valid = v; tasks = routed-task_transition d s; iterations = refl })
invalidate_all-Undone x s d (owner ∷ []) v few =
    let (step, v') = invalidate_from-IsValid x s owner v in
    (
      invalidated (is_descendant owner) owner s,
      rw step refl,
      record { valid = v'; tasks = invalidated-task_transition x s owner d v; iterations = refl },
    )
invalidate_all-Undone x s d (_ ∷ _ ∷ _) v few = absurd (cc)

decided-Accepted :
    (x : Externals) (s : RunState) (d : RouteDecision)
    → IsValid x s
    → s.disposition ≡ RunDisposition.active
    → is_lawful d ≡ true
    → (t : RunState) × (apply_route x s d ≡ ok t) × Accepted s t
unfolding apply_route
decided-Accepted x s d v active lawful =
    let few : at_most_one d.invalidation_roots ≡ true = ground arith in
    let ends : ends_in d.disposition ≡ true = ground arith in
    let (s', go, u) = invalidate_all-Undone x s d d.invalidation_roots v few in
    (
      routed d s',
      rw ((RunDisposition_Eq.beq_iff s.disposition RunDisposition.active).1 active, go)
          (IsValid-validate_state x (routed d s') (routed-IsValid x d s' u.valid)),
      record {
        iterations = iteration-closed s (routed d s') refl u.iterations;
        tasks = u.tasks;
        dispositions = routed-disposition_transition d s (routed d s') active refl ends;
      },
    )

-- When the router routes any failure of an active state that validates, `apply_route` yields a
-- state, and the checks of the store on iterations, on tasks and on dispositions accept the step to
-- it with no authorization appended.
pub route_failure-Accepted :
    (x : Externals) (s : RunState) (f : FailureRecord)
    → IsValid x s
    → s.disposition ≡ RunDisposition.active
    → (t : RunState) × (apply_route x s (route_failure s f) ≡ ok t) × Accepted s t
route_failure-Accepted x s f v active =
    decided-Accepted x s (route_failure s f) v active (route_failure-lawful s f active)

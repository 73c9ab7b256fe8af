-- ===== src/State/Transitions/Routes.antt =====
-- src/auto_code/state.py: lemmas on the checks of a transition that the router makes.
use auto_code.Common.{
  option_eq_iff, Bool, true, false, not, ◌&&◌, Option, none, some, List, [], ◌∷◌, all, any, keep,
  is_some, ◌==◌, option_Eq, if◌then◌else◌, ok, ◌≡◌, inl, inr, refl, arith, Bool-cases,
}
use auto_code.Contracts.Enums.{
  FailureClass, Stage-discrete, Stage, Stage_Eq, every_stage, RunDisposition, RunDisposition_Eq,
}
use auto_code.Contracts.Evidence.{FailureRecord, StageOutput}
use auto_code.Contracts.Tasks.{TaskStatus, TaskStatusManifest, TaskDefinitionManifest_Eq}
use auto_code.Contracts.Externals.{Externals}
use auto_code.Contracts.RunState.{RunState}
use auto_code.Contracts.RunState.Checks.{◌⇒◌}
use auto_code.Contracts.RunState.Validation.{IsValid}
use auto_code.Router.{dependencies, invalidated, is_descendant}
use auto_code.Router.Graph.{descendants-closed}
use auto_code.Router.Routing.Targets.{route_failure-active}
use auto_code.Router.Routing.{
  unroutable, retry_or, active_retry, route_class, human_review, gate, product_owner, RouteDecision,
  route_failure, routed,
}
use auto_code.State.Transitions.{
  keeps_stages, validate_task_transition, validate_statuses, keeps_checked, is_done, status_of,
  has_dependents, depends_on_tasks, validate_disposition_transition,
}

implied_self : (b : Bool) → (b ⇒ b) ≡ true
implied_self true = refl
implied_self false = refl

all_kept :
    (statuses l : List TaskStatus)
    → all
        (λ (t : TaskStatus).
          is_done (status_of statuses t.task_id) ⇒ is_done (status_of statuses t.task_id))
        l
      ≡ true
all_kept statuses [] = refl
all_kept statuses (t ∷ rest) =
    ground (arith, implied_self (is_done (status_of statuses t.task_id)), all_kept statuses rest)

-- Statuses that stay as they are pass.
validate_statuses_self : (m : Option TaskStatusManifest) → validate_statuses m m ≡ ok tt
unfolding validate_statuses keeps_checked
validate_statuses_self none = refl
validate_statuses_self (some m) = rw (all_kept m.statuses m.statuses)

module _ (gone : Stage → Bool) where
  -- No output of an invalid stage is kept, if the invalid stages are gone.
  any-keep :
      (invalid : Stage → Bool)
      → ((stage : Stage) → invalid stage ≡ true → gone stage ≡ true)
      → (outputs : List StageOutput)
      → any
          (λ (o : StageOutput). invalid o.stage)
          (keep (λ (o : StageOutput). not (gone o.stage)) outputs)
        ≡ false
  any-keep invalid h [] = refl
  any-keep invalid h (o ∷ rest) = ground (arith, h o.stage, any-keep invalid h rest)

  any-gone :
      (invalid : Stage → Bool) {A : Type 0} (found : Stage → Option A)
      → ((stage : Stage) → invalid stage ≡ true → gone stage ≡ true)
      → (stages : List Stage)
      → any (λ stage. invalid stage && is_some (if gone stage then none else found stage)) stages
        ≡ false
  any-gone invalid found h [] = refl
  any-gone invalid found h (a ∷ rest) = ground (arith, h a, any-gone invalid found h rest)

-- If the tasks are invalidated, so is every stage that depends on them.
gone-tasks :
    (owner stage : Stage) (had : Bool)
    → is_descendant owner Stage.architect_tasks ≡ true
    → depends_on_tasks had stage ≡ true
    → is_descendant owner stage ≡ true
unfolding depends_on_tasks dependencies Stage-discrete
gone-tasks owner stage had h d = go stage d
  where
    programmer : is_descendant owner Stage.programmer ≡ true
    programmer = descendants-closed owner Stage.programmer Stage.architect_tasks refl h

    checked : is_descendant owner Stage.verification ≡ true
    checked = descendants-closed owner Stage.verification Stage.programmer refl programmer

    tested : is_descendant owner Stage.tester ≡ true
    tested = descendants-closed owner Stage.tester Stage.verification refl checked

    go : (stage : Stage) → depends_on_tasks had stage ≡ true → is_descendant owner stage ≡ true
    go Stage.architect_tasks d = h
    go Stage.programmer d = programmer
    go Stage.verification d = checked
    go Stage.tester d = tested
    go Stage.reviewer d = descendants-closed owner Stage.reviewer Stage.tester refl tested
    go Stage.analyst d = absurd (cc)
    go _ d = absurd (cc)

-- What `_validate_task_transition` asks of the update of `invalidate_from`, once it is decided
-- whether the tasks are among the invalid stages.
module _ (s : RunState) (owner : Stage) where
  abbrev gone : Stage → Bool
  gone = is_descendant owner

  cleared-has_dependents :
      (d : RouteDecision)
      → gone Stage.architect_tasks ≡ true
      → has_dependents (routed d (invalidated gone owner s)) ≡ false
  unfolding has_dependents depends_on_tasks
  cleared-has_dependents d h = ground (
    arith,
    gone-tasks owner Stage.programmer true h refl,
    gone-tasks owner Stage.verification true h refl,
    gone-tasks owner Stage.tester true h refl,
    gone-tasks owner Stage.reviewer true h refl,
  )

  cleared-keeps_stages :
      (d : RouteDecision) (had : Bool)
      → gone Stage.architect_tasks ≡ true
      → keeps_stages had (routed d (invalidated gone owner s)) ≡ false
  unfolding keeps_stages
  cleared-keeps_stages d had h =
      let follows = λ (stage : Stage). gone-tasks owner stage had h in
      rw (
        any-gone gone (depends_on_tasks had) s.checkpoints follows every_stage,
        any-keep gone (depends_on_tasks had) follows s.stage_outputs,
      )

  no_status :
      (x : Externals)
      → IsValid x s
      → s.task_definition_manifest ≡ none
      → s.task_status_manifest ≡ none
  no_status x v h = ground (arith, v.fields)

  pub cleared-task_transition :
      (x : Externals) (d : RouteDecision)
      → IsValid x s
      → gone Stage.architect_tasks ≡ true
      → validate_task_transition s (routed d (invalidated gone owner s)) ≡ ok tt
  unfolding validate_task_transition
  cleared-task_transition x d v h = elim (Bool-cases (s.task_definition_manifest == none)) [
    | inl same ↦
        rw (h, same)
          (rw (no_status x v ((option_eq_iff s.task_definition_manifest none).0 same))
            (validate_statuses_self none))
    | inr other ↦
        let had = is_some s.task_definition_manifest in
        rw (cleared-has_dependents d h, cleared-keeps_stages d had h, h, other)
  ]

  pub kept-task_transition :
      (d : RouteDecision)
      → gone Stage.architect_tasks ≡ false
      → validate_task_transition s (routed d (invalidated gone owner s)) ≡ ok tt
  unfolding validate_task_transition
  kept-task_transition d h =
      rw (h, (option_eq_iff s.task_definition_manifest s.task_definition_manifest).1 refl)
        (validate_statuses_self s.task_status_manifest)

pub routed-task_transition :
    (d : RouteDecision) (s : RunState) → validate_task_transition s (routed d s) ≡ ok tt
unfolding validate_task_transition
routed-task_transition d s =
    rw ((option_eq_iff s.task_definition_manifest s.task_definition_manifest).1 refl)
      (validate_statuses_self s.task_status_manifest)

abbrev pub ends_in : RunDisposition → Bool
ends_in RunDisposition.active = true
ends_in RunDisposition.repair_required = true
ends_in RunDisposition.human_review = true
ends_in _ = false

abbrev pub at_most_one : List Stage → Bool
at_most_one [] = true
at_most_one (_ ∷ []) = true
at_most_one _ = false

abbrev pub is_lawful : RouteDecision → Bool
is_lawful d = ends_in d.disposition && at_most_one d.invalidation_roots

unroutable-lawful : (f : FailureRecord) → is_lawful (unroutable f) ≡ true
unfolding unroutable
unroutable-lawful f = ground arith

retry_or-lawful :
    (o : Option Stage) (f : FailureRecord) → is_lawful (retry_or o f (unroutable f)) ≡ true
unfolding active_retry
retry_or-lawful none f = unroutable-lawful f
retry_or-lawful (some stage) f = refl

route_class-lawful :
    (c : FailureClass) (s : RunState) (f : FailureRecord) → is_lawful (route_class c s f) ≡ true
unfolding route_class human_review gate
route_class-lawful FailureClass.ambiguity s f = refl
route_class-lawful FailureClass.budget_exhausted s f = ground (arith, unroutable-lawful f)
route_class-lawful FailureClass.orchestration s f = ground (arith, unroutable-lawful f)
route_class-lawful FailureClass.invalid_output s f =
    ground (arith, unroutable-lawful f, retry_or-lawful f.owner_stage f)
route_class-lawful FailureClass.product s f = ground (arith, retry_or-lawful (product_owner f) f)

pub route_failure-lawful :
    (s : RunState) (f : FailureRecord)
    → s.disposition ≡ RunDisposition.active
    → is_lawful (route_failure s f) ≡ true
route_failure-lawful s f active =
    rw (route_failure-active s f active) (route_class-lawful f.failure_class s f)

pub routed-disposition_transition :
    (d : RouteDecision) (s t : RunState)
    → s.disposition ≡ RunDisposition.active
    → t.disposition ≡ d.disposition
    → ends_in d.disposition ≡ true
    → validate_disposition_transition s t [] ≡ ok tt
unfolding validate_disposition_transition
routed-disposition_transition d s t active e h = ground arith

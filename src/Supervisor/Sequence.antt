-- ===== src/Supervisor/Sequence.antt =====
-- src/auto_code/supervisor.py: which stage a step may run after another.
use mathlib.Core.Path.{ap}
use auto_code.Common.{
  String, true, false, Option, none, some, List, [], ◌∷◌, ◌++◌, last, ◌==◌, ok, err, ◌≡◌, ◌≢◌, refl,
  arith, num_eq_iff, text_Eq, option_Eq, sym, ◌∙◌,
}
use auto_code.Common.Actions.{◌>>=◌, returned}
use auto_code.Contracts.Enums.{
  Stage, Stage_Eq, FindingKind, RunDisposition, RunDisposition_Eq, StepKind,
}
use auto_code.Contracts.Evidence.{FailureRecord}
use auto_code.Contracts.Steps.{has_result_shape}
use auto_code.Contracts.Externals.{Externals}
use auto_code.Contracts.RunState.{RunState}
use auto_code.Contracts.RunState.Validation.{IsValid}
use auto_code.Router.{next_stage}
use auto_code.Router.Routing.{
  route_failure, route_class, apply_route, human_review, is_repair_source, is_human_review_source,
}
use auto_code.Router.Routing.Targets.{route_failure-active}
use auto_code.Router.Routing.Application.{apply_route-Routed}
use auto_code.State.Context.{StateGeneration}
use auto_code.Supervisor.{
  SupervisorError, Dependencies, supervisor_failure, result, result_of, failure_kind,
  failure_result, failure_result_at, registry_result,
}
use auto_code.Supervisor.Step.{route, execute_and_checkpoint, run_stage, advance, step_from, step}
use auto_code.Supervisor.Reports.{StoreLaws}

last-append {ℓ} : {A : Type ℓ} (l : List A) (a : A) → last (l ++ a ∷ []) ≡ some a
last-append [] a = refl
last-append (x ∷ []) a = refl
last-append (x ∷ y ∷ r) a = last-append (y ∷ r) a

abbrev misrouted : FailureRecord
misrouted = supervisor_failure FindingKind.invalid_routing

misrouted-human_review :
    (s : RunState)
    → s.disposition ≡ RunDisposition.active
    → route_failure s misrouted ≡ human_review misrouted none
unfolding route_class supervisor_failure human_review is_repair_source is_human_review_source
misrouted-human_review s active = route_failure-active s misrouted active

-- The state that a step at the wrong stage stores.
record Stopped (x : Externals) (s t : RunState) : Type 0 where
  routed : apply_route x s (route_failure s misrouted) ≡ ok t
  disposition : t.disposition ≡ RunDisposition.human_review
  failures : last t.failure_history ≡ some misrouted

stopped :
    (x : Externals) (s : RunState)
    → IsValid x s
    → s.disposition ≡ RunDisposition.active
    → (t : RunState) × Stopped x s t
unfolding human_review
stopped x s v active =
    let e = misrouted-human_review s active in
    let (t, go, r) = apply_route-Routed x s (human_review misrouted none) v active in
    (
      t,
      record {
        routed = rw e go;
        disposition = r.disposition;
        failures = ap last r.failures ∙ last-append s.failure_history misrouted;
      },
    )

module _ {W : Type 0} (d : Dependencies W) (laws : StoreLaws d) where
  -- The result of a run that has stopped.
  failure_result-Stopped :
      (s t : RunState) (g : StateGeneration)
      → Stopped d.externals s t
      → g.state ≡ t
      → failure_result g
        ≡ ok (result_of StepKind.human_review g none (some misrouted) misrouted.evidence_refs)
  unfolding failure_result failure_result_at result has_result_shape failure_kind
  failure_result-Stopped s t g z same = rw (
    ap (λ (u : RunState). last u.failure_history) same ∙ z.failures,
    ap (λ (u : RunState). u.disposition) same ∙ z.disposition,
  )

  route-Stopped :
      (g : StateGeneration) (t : RunState) (w : W) (g' : StateGeneration) (w' : W)
      → Stopped d.externals g.state t
      → d.compare_and_swap g.revision g.state_hash t w ≡ (ok g', w')
      → route d g misrouted w ≡ (
        ok (result_of StepKind.human_review g' none (some misrouted) misrouted.evidence_refs),
        w',
      )
  unfolding route ◌>>=◌
  route-Stopped g t w g' w' z swapped =
      rw (z.routed, swapped)
        (ap (λ q. (q, w'))
          (failure_result-Stopped g.state t g' z (laws.stored g.revision g.state_hash t w swapped)))

  route-refused :
      (g : StateGeneration) (t : RunState) (w : W) (e : SupervisorError) (w' : W)
      → Stopped d.externals g.state t
      → d.compare_and_swap g.revision g.state_hash t w ≡ (err e, w')
      → route d g misrouted w ≡ (err e, w')
  unfolding route ◌>>=◌
  route-refused g t w e w' z refused = rw (z.routed, refused)

  step_from-next_stage :
      (g : StateGeneration) (w : W)
      → g.state.disposition ≡ RunDisposition.active
      → step_from d g w
        ≡ (returned (
                registry_result (next_stage g.state (λ s. some (d.expectations s)) (d.authority w)))
              >>= advance d g)
            w
  unfolding step_from
  step_from-next_stage g w active =
      rw ((RunDisposition_Eq.beq_iff g.state.disposition RunDisposition.active).1 active)

  step_from-advance :
      (g : StateGeneration) (stage : Option Stage) (w : W)
      → g.state.disposition ≡ RunDisposition.active
      → next_stage g.state (λ s. some (d.expectations s)) (d.authority w) ≡ ok stage
      → step_from d g w ≡ advance d g stage w
  unfolding ◌>>=◌
  step_from-advance g stage w active next =
      step_from-next_stage g w active
      ∙ ap (λ n. (returned (registry_result n) >>= advance d g) w) next

  -- With the run, the revision and the hash of what is stored, `step` goes on.
  step-step_from :
      (g : StateGeneration) (state_hash : String) (w : W)
      → d.load w ≡ ok g
      → d.lower state_hash ≡ g.state_hash
      → step d d.run_id g.revision state_hash w ≡ step_from d g w
  unfolding step ◌>>=◌
  step-step_from g state_hash w found hash = rw (
    (text_Eq.beq_iff d.run_id d.run_id).1 refl,
    found,
    (num_eq_iff g.revision g.revision).1 refl,
    (text_Eq.beq_iff g.state_hash (d.lower state_hash)).1 (sym hash),
  )

  elsewhere : (a b : Stage) → a ≢ b → (a == b) ≡ false
  elsewhere a b differ = ground arith

  advance-route :
      (g : StateGeneration) (stage : Stage) (w : W)
      → g.state.iteration_open ≡ true
      → g.state.current_stage ≢ stage
      → advance d g (some stage) w ≡ route d g misrouted w
  unfolding advance run_stage execute_and_checkpoint
  advance-route g stage w going misplaced =
      rw (going, elsewhere g.state.current_stage stage misplaced)

  -- In a world where an active state that validates is stored with its iteration open: if
  -- `next_stage` answers with a stage that is not the state's current one, `apply_route` makes of
  -- it, for the supervisor's failure of invalid routing, a state in human review; and a step with the
  -- stored revision and hash swaps that state in: where the store returns, the step reports human
  -- review for invalid routing, and where the store raises, the step raises.
  pub step-misplaced :
      (g : StateGeneration) (stage : Stage) (state_hash : String) (w : W)
      → d.load w ≡ ok g
      → d.lower state_hash ≡ g.state_hash
      → IsValid d.externals g.state
      → g.state.disposition ≡ RunDisposition.active
      → g.state.iteration_open ≡ true
      → next_stage g.state (λ s. some (d.expectations s)) (d.authority w) ≡ ok (some stage)
      → g.state.current_stage ≢ stage
      → (t : RunState) × (apply_route d.externals g.state
            (route_failure g.state (supervisor_failure FindingKind.invalid_routing))
          ≡ ok t)
        × (t.disposition ≡ RunDisposition.human_review)
        × ((e : SupervisorError) (w' : W)
            → d.compare_and_swap g.revision g.state_hash t w ≡ (err e, w')
            → step d d.run_id g.revision state_hash w ≡ (err e, w'))
        × ((g' : StateGeneration) (w' : W)
            → d.compare_and_swap g.revision g.state_hash t w ≡ (ok g', w')
            → step d d.run_id g.revision state_hash w ≡ (
              ok (
                  result_of StepKind.human_review g' none
                    (some (supervisor_failure FindingKind.invalid_routing))
                    (supervisor_failure FindingKind.invalid_routing).evidence_refs),
              w',
            ))
  step-misplaced g stage state_hash w found hash v active going next misplaced =
      let (t, z) = stopped d.externals g.state v active in
      (
        t,
        z.routed,
        z.disposition,
        λ e w' refused.
            step-step_from g state_hash w found hash
            ∙ step_from-advance g (some stage) w active next
            ∙ advance-route g stage w going misplaced
            ∙ route-refused g t w e w' z refused,
        λ g' w' swapped.
            step-step_from g state_hash w found hash
            ∙ step_from-advance g (some stage) w active next
            ∙ advance-route g stage w going misplaced
            ∙ route-Stopped g t w g' w' z swapped,
      )

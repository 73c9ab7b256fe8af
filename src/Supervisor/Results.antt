-- ===== src/Supervisor/Results.antt =====
-- src/auto_code/supervisor.py: every result of `step` and `record_failure` is bound to the state
-- stored after it.
use mathlib.Core.Path.{ap}
use auto_code.Common.{
  ℕ, String, Bool, true, false, not, ◌&&◌, ◌||◌, Option, none, some, List, [], ◌==◌, ok, err,
  if◌then◌else◌, ◌≡◌, refl, inl, inr, arith, Bool-cases, num_eq, text_Eq, option_Eq, sym, ◌∙◌,
}
use auto_code.Common.Actions.{returned, bind-ok}
use auto_code.Contracts.Enums.{
  Stage, Stage_Eq, FailureClass, FindingKind, RunDisposition, RunDisposition_Eq, StepKind,
}
use auto_code.Contracts.Evidence.{EvidenceRef}
use auto_code.Contracts.Steps.{StepResult, ReviewResult}
use auto_code.Contracts.Requests.{McpActionRequest}
use auto_code.Contracts.RunState.Iterations.{can_start_iteration}
use auto_code.State.Context.{StateGeneration}
use auto_code.Supervisor.{
  StageExecution, Outcome, executed, failed, invalid_output, raised, unknown, state_mismatch,
  Dependencies, supervisor_failure, orchestration_failure, budget_failure, invalid_output_failure,
  latest_failure, action_result, pending_action,
}
use auto_code.Supervisor.Step.{
  Step, approved_by, checkpointed, checkpoint_reviewer, settle, execute_and_checkpoint,
  waiting_result, gated_result, run_stage, advance, step_from, step, record_failure,
}
use auto_code.Supervisor.Reports.{
  StoreLaws, Current, Reports, returned-Reports, result-Reports, route-Reports, attempt-Reports,
  action_result-Describes,
}

module _ {W : Type 0} (d : Dependencies W) (laws : StoreLaws d) where
  -- A test decides between two actions that report.
  choice-Reports :
      (b : Bool) (first second : Step d StepResult) (w : W)
      → (b ≡ true → Reports d laws first w)
      → (b ≡ false → Reports d laws second w)
      → Reports d laws (if b then first else second) w
  choice-Reports true first second w yes_case no_case = yes_case refl
  choice-Reports false first second w yes_case no_case = no_case refl

  review-Reports :
      (g : StateGeneration) (o : StageExecution) (review : Option ReviewResult) (w : W)
      → o.review ≡ review
      → Reports d laws (checkpoint_reviewer d g o) w
  unfolding checkpoint_reviewer
  review-Reports g o none w e r w' h =
      route-Reports d laws g (orchestration_failure Stage.reviewer) w r w' (rw e at h)
  review-Reports g o (some review) w e r w' h =
      choice-Reports (not (g.state.review_manifest == some review.review_manifest_hash)) _ _ w
        (λ _. route-Reports d laws g (supervisor_failure FindingKind.invalid_routing) w)
        (λ _.
          choice-Reports (not review.approved) _ _ w
            (λ _ r w' h.
              let (f, w1, pure, end) = bind-ok _ _ w h in route-Reports d laws g f w1 r w' end)
            (λ _.
              attempt-Reports d laws g Stage.reviewer o (approved_by o.output_manifest_hash)
                StepKind.ready_to_finalize none (orchestration_failure Stage.reviewer) w
                (λ c e. absurd (cc))))
        r w' (rw e at h)

  settle-Reports :
      (g : StateGeneration) (stage : Stage) (outcome : Outcome) (w : W)
      → Reports d laws (settle d g stage outcome) w
  unfolding settle
  settle-Reports g stage raised w = route-Reports d laws g (orchestration_failure stage) w
  settle-Reports g stage unknown w = route-Reports d laws g (orchestration_failure stage) w
  settle-Reports g stage invalid_output w =
      route-Reports d laws g (invalid_output_failure stage []) w
  settle-Reports g stage (failed f) w = route-Reports d laws g f w
  settle-Reports g stage (executed o) w =
      choice-Reports (stage == Stage.reviewer) _ _ w (λ _. review-Reports g o o.review w refl)
        (λ _.
          attempt-Reports d laws g stage o (checkpointed stage) StepKind.continue (some stage)
            (orchestration_failure stage) w (λ c e. refl))

  execute_and_checkpoint-Reports :
      (g : StateGeneration) (stage : Stage) (w : W)
      → Reports d laws (execute_and_checkpoint d g stage) w
  unfolding execute_and_checkpoint
  execute_and_checkpoint-Reports g stage w r w' h =
      elim (Bool-cases (not (g.state.current_stage == stage) || not g.state.iteration_open)) [
        | inl refused ↦
            route-Reports d laws g (supervisor_failure FindingKind.invalid_routing) w r w'
              (rw refused at h)
        | inr going ↦
            settle-Reports g stage (d.execute stage g.state w).0 (d.execute stage g.state w).1 r w'
              (rw going at h)
      ]

  waiting_result-Reports :
      (g : StateGeneration) (o : Option McpActionRequest) (w : W)
      → d.load w ≡ ok g
      → Reports d laws (waiting_result d g o) w
  unfolding waiting_result
  waiting_result-Reports g none w found =
      route-Reports d laws g (supervisor_failure FindingKind.invalid_routing) w
  waiting_result-Reports g (some action) w found =
      returned-Reports d laws g (action_result g action) w found
        (λ r. action_result-Describes g action)

  gated_result-Reports :
      (g : StateGeneration) (q : RunDisposition) (w : W)
      → d.load w ≡ ok g
      → Reports d laws (gated_result d g q) w
  unfolding gated_result
  gated_result-Reports g RunDisposition.waiting_mcp w found =
      waiting_result-Reports g (pending_action d.externals g.state) w found
  gated_result-Reports g RunDisposition.repair_required w found =
      result-Reports d laws StepKind.repair_required g none (some (latest_failure g.state)) [] w
        found (λ e. absurd (cc))
  gated_result-Reports g RunDisposition.human_review w found =
      result-Reports d laws StepKind.human_review g none (some (latest_failure g.state)) [] w found
        (λ e. absurd (cc))
  gated_result-Reports g RunDisposition.done w found =
      result-Reports d laws StepKind.done g none none [] w found (λ e. absurd (cc))
  gated_result-Reports g RunDisposition.abandoned w found =
      result-Reports d laws StepKind.done g none none [] w found (λ e. absurd (cc))
  gated_result-Reports g RunDisposition.active w found =
      result-Reports d laws StepKind.human_review g none
        (some (supervisor_failure FindingKind.invalid_routing)) [] w found (λ e. absurd (cc))

  run_stage-Reports :
      (g : StateGeneration) (stage : Stage) (w : W) → Reports d laws (run_stage d g stage) w
  unfolding run_stage
  run_stage-Reports g stage w =
      choice-Reports g.state.iteration_open _ _ w (λ _. execute_and_checkpoint-Reports g stage w)
        (λ _.
          choice-Reports (not (can_start_iteration g.state)) _ _ w
            (λ _. route-Reports d laws g budget_failure w)
            (λ _ r w' h.
              let (s, w1, begun, more) = bind-ok _ _ w h in
              let (opened, w2, swapped, end) = bind-ok _ _ w1 more in
              execute_and_checkpoint-Reports opened stage w2 r w' end))

  advance-Reports :
      (g : StateGeneration) (stage : Option Stage) (w : W)
      → d.load w ≡ ok g
      → Reports d laws (advance d g stage) w
  unfolding advance
  advance-Reports g (some stage) w found = run_stage-Reports g stage w
  advance-Reports g none w found =
      choice-Reports (not g.state.iteration_open && g.state.finalization_eligible) _ _ w
        (λ _.
          result-Reports d laws StepKind.ready_to_finalize g none none [] w found
            (λ e. absurd (cc)))
        (λ _. route-Reports d laws g (supervisor_failure FindingKind.invalid_routing) w)

  step_from-Reports :
      (g : StateGeneration) (w : W) → d.load w ≡ ok g → Reports d laws (step_from d g) w
  unfolding step_from
  step_from-Reports g w found r w' h =
      elim (Bool-cases (g.state.disposition == RunDisposition.active)) [
        | inl active ↦
            let (stage, w1, chosen, end) = bind-ok _ _ w (rw active at h) in
            advance-Reports g stage w1 (ap d.load (sym (ap (λ p. p.1) chosen)) ∙ found) r w' end
        | inr idle ↦ gated_result-Reports g g.state.disposition w found r w' (rw idle at h)
      ]

  -- After the load, `step` goes on with the generation or raises.
  expected-Reports :
      (g : StateGeneration) (b : Bool) (w : W)
      → d.load w ≡ ok g
      → Reports d laws (if b then step_from d g else returned (err state_mismatch)) w
  expected-Reports g b w found =
      choice-Reports b _ _ w (λ _. step_from-Reports g w found)
        (λ _ r w' h. absurd (refused (ap (λ p. p.0) h)))
    where
      refused : {r : StepResult} → err state_mismatch ≡ ok r → ⊥
      refused h = cc

  -- Over a store that holds what it was given, every result of `step` tells the run, the revision
  -- and the hash of the generation that is stored after the step, and has the shape of its kind; one
  -- that continues names the current stage of the stored state.
  pub step-Current :
      (run_id : String) (revision : ℕ) (state_hash : String) (w : W) {r : StepResult} {w' : W}
      → step d run_id revision state_hash w ≡ (ok r, w')
      → Current d laws r w'
  unfolding step
  step-Current run_id revision state_hash w h = elim (Bool-cases (not (run_id == d.run_id))) [
    | inl other ↦ absurd (ground arith)
    | inr same ↦
        let (g, w1, read, end) = bind-ok _ _ w (rw same at h) in
        let found = ap d.load (sym (ap (λ p. p.1) read)) ∙ ap (λ p. p.0) read in
        expected-Reports g (num_eq g.revision revision && g.state_hash == d.lower state_hash) w1
          found _ _ end
  ]

  -- Over a store that holds what it was given, every result of `record_failure` tells the run, the
  -- revision and the hash of the generation that is stored after it, and has the shape of its kind.
  pub record_failure-Current :
      (class : FailureClass) (owner : Stage) (evidence : List EvidenceRef) (w : W) {r : StepResult}
      {w' : W}
      → record_failure d class owner evidence w ≡ (ok r, w')
      → Current d laws r w'
  unfolding record_failure
  record_failure-Current class owner evidence w h =
      let (f, w1, made, more) = bind-ok _ _ w h in
      let (g, w2, read, end) = bind-ok _ _ w1 more in route-Reports d laws g f w2 _ _ end

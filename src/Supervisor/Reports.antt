-- ===== src/Supervisor/Reports.antt =====
-- The result of a step tells which generation is stored after it.
use mathlib.Core.Path.{ap}
use auto_code.Common.{
  last, ℕ, String, true, Option, none, some, List, Result, ok, err, ◌≢◌, ◌≡◌, refl, inl, inr, arith,
  Bool-cases, text_Eq, option_Eq, sym, ◌∙◌,
}
use auto_code.Common.Actions.{returned, attempt, bind-ok, attempt-ok}
use auto_code.Contracts.Enums.{Stage, Stage_Eq, RunDisposition, RunDisposition_Eq, StepKind}
use auto_code.Contracts.Evidence.{Checkpoint, EvidenceRef, FailureRecord}
use auto_code.Contracts.Steps.{StepResult, has_result_shape}
use auto_code.Contracts.Requests.{McpActionRequest}
use auto_code.Contracts.RunState.{RunState}
use auto_code.Contracts.RunState.Checks.{StateError}
use auto_code.Contracts.RunState.Validation.{model_copy, validate_state-IsValid}
use auto_code.State.Context.{StateGeneration}
use auto_code.Supervisor.{
  StageExecution, SupervisorError, Dependencies, checked_result, result_of, result,
  failure_result_at, failure_result, action_result_of, action_result, failure_kind, state_result,
}
use auto_code.Supervisor.Step.{Step, route, store_checkpoint}

-- What the supervisor relies on of `RunStateStore.compare_and_swap`: the generation that it returns
-- holds the state that it was given, and is the one loaded from then on.
pub record StoreLaws {W : Type 0} (d : Dependencies W) : Type 0 where
  pub stored :
      (revision : ℕ) (state_hash : String) (s : RunState) (w : W) {g : StateGeneration} {w' : W}
      → d.compare_and_swap revision state_hash s w ≡ (ok g, w')
      → g.state ≡ s
  pub loaded :
      (revision : ℕ) (state_hash : String) (s : RunState) (w : W) {g : StateGeneration} {w' : W}
      → d.compare_and_swap revision state_hash s w ≡ (ok g, w')
      → d.load w' ≡ ok g

-- A result names the run, the revision and the hash of a generation, and has the shape of its kind.
-- One that continues names the current stage of the generation.
pub record Describes (g : StateGeneration) (r : StepResult) : Type 0 where
  pub run_id : r.run_id ≡ g.state.run_id
  pub state_revision : r.state_revision ≡ g.revision
  pub state_hash : r.state_hash ≡ g.state_hash
  pub shape : has_result_shape r ≡ true
  pub continued : r.kind ≡ StepKind.continue → r.stage ≡ some g.state.current_stage

checked_result-ok :
    (r : StepResult) {r' : StepResult}
    → checked_result r ≡ ok r'
    → (r' ≡ r) × (has_result_shape r ≡ true)
checked_result-ok r h = elim (Bool-cases (has_result_shape r)) [
  | inl good ↦ (let e : ok r ≡ ok _ = rw good at h in cc, good)
  | inr bad ↦ absurd (ground arith)
]

result-Describes :
    (kind : StepKind) (g : StateGeneration) (stage : Option Stage) (f : Option FailureRecord)
    (evidence : List EvidenceRef) {r : StepResult}
    → (kind ≡ StepKind.continue → stage ≡ some g.state.current_stage)
    → result kind g stage f evidence ≡ ok r
    → Describes g r
unfolding result
result-Describes kind g stage f evidence continued h =
    let (same, shape) = checked_result-ok (result_of kind g stage f evidence) h in
    rw same (record {
      run_id = refl;
      state_revision = refl;
      state_hash = refl;
      shape = shape;
      continued = continued;
    })

pub action_result-Describes :
    (g : StateGeneration) (action : McpActionRequest) {r : StepResult}
    → action_result g action ≡ ok r
    → Describes g r
unfolding action_result
action_result-Describes g action h =
    let (same, shape) = checked_result-ok (action_result_of g action) h in
    rw same (record {
      run_id = refl;
      state_revision = refl;
      state_hash = refl;
      shape = shape;
      continued = λ e. absurd (cc);
    })

failure_kind-stops : (q : RunDisposition) → failure_kind q ≢ StepKind.continue
unfolding failure_kind
failure_kind-stops RunDisposition.active e = cc
failure_kind-stops RunDisposition.repair_required e = cc
failure_kind-stops RunDisposition.waiting_mcp e = cc
failure_kind-stops RunDisposition.human_review e = cc
failure_kind-stops RunDisposition.done e = cc
failure_kind-stops RunDisposition.abandoned e = cc

failure_result_at-Describes :
    (g : StateGeneration) (o : Option FailureRecord) {r : StepResult}
    → failure_result_at g o ≡ ok r
    → Describes g r
unfolding failure_result_at
failure_result_at-Describes g none h = absurd (cc)
failure_result_at-Describes g (some f) h =
    result-Describes (failure_kind g.state.disposition) g none (some f) f.evidence_refs
      (λ e. absurd (failure_kind-stops g.state.disposition e)) h

module _ {W : Type 0} (d : Dependencies W) (laws : StoreLaws d) where
  -- The generation that a result describes is the one stored.
  abbrev pub Current : StepResult → W → Type 0
  Current r w = (g : StateGeneration) × (d.load w ≡ ok g) × Describes g r

  -- An action's results describe the generation stored after it.
  abbrev pub Reports : Step d StepResult → W → Type 0
  Reports m w = (r : StepResult) (w' : W) → m w ≡ (ok r, w') → Current r w'

  pub returned-Reports :
      (g : StateGeneration) (q : Result SupervisorError StepResult) (w : W)
      → d.load w ≡ ok g
      → ((r : StepResult) → q ≡ ok r → Describes g r)
      → Reports (returned q) w
  returned-Reports g q w found describes r w' h =
      (g, ap d.load (sym (ap (λ p. p.1) h)) ∙ found, describes r (ap (λ p. p.0) h))

  pub result-Reports :
      (kind : StepKind) (g : StateGeneration) (stage : Option Stage) (f : Option FailureRecord)
      (evidence : List EvidenceRef) (w : W)
      → d.load w ≡ ok g
      → (kind ≡ StepKind.continue → stage ≡ some g.state.current_stage)
      → Reports (returned (result kind g stage f evidence)) w
  result-Reports kind g stage f evidence w found continued =
      returned-Reports g (result kind g stage f evidence) w found
        (λ r. result-Describes kind g stage f evidence continued)

  pub route-Reports : (g : StateGeneration) (f : FailureRecord) (w : W) → Reports (route d g f) w
  unfolding route failure_result
  route-Reports g f w r w' h =
      let (routed, w1, pure, more) = bind-ok _ _ w h in
      let (g', w2, swapped, end) = bind-ok _ _ w1 more in
      returned-Reports g' (failure_result g') w2
        (laws.loaded g.revision g.state_hash routed w1 swapped)
        (λ r. failure_result_at-Describes g' (last g'.state.failure_history)) r w' end

  state_result-ok :
      {A : Type 0} (m : Result StateError A) {a : A} → state_result m ≡ ok a → m ≡ ok a
  state_result-ok (ok a) h = cc
  state_result-ok (err e) h = absurd (cc)

  -- A stored checkpoint is what is loaded, with the update made.
  store_checkpoint-loaded :
      (g : StateGeneration) (stage : Stage) (o : StageExecution)
      (update : Checkpoint → RunState → RunState) (w : W) {g' : StateGeneration} {w' : W}
      → store_checkpoint d g stage o update w ≡ (ok g', w')
      → (c : Checkpoint) × (d.load w' ≡ ok g') × (g'.state ≡ update c g.state)
  unfolding store_checkpoint model_copy
  store_checkpoint-loaded g stage o update w h =
      let (c, w1, issued, more) = bind-ok _ _ w h in
      let (s, w2, made, end) = bind-ok _ _ w1 more in
      let copied =
        state_result-ok (model_copy d.externals g.state (update c)) (ap (λ p. p.0) made) in
      (
        c,
        laws.loaded g.revision g.state_hash s w2 end,
        laws.stored g.revision g.state_hash s w2 end
            ∙ (validate_state-IsValid d.externals (update c g.state) copied).1,
      )

  -- A checkpoint that is stored is reported; anything raised on the way is routed.
  pub attempt-Reports :
      (g : StateGeneration) (stage : Stage) (o : StageExecution)
      (update : Checkpoint → RunState → RunState) (kind : StepKind) (after : Option Stage)
      (f : FailureRecord) (w : W)
      → ((c : Checkpoint)
          → kind ≡ StepKind.continue
          → after ≡ some (update c g.state).current_stage)
      → Reports
          (attempt
            (store_checkpoint d g stage o update)
            (λ persisted. returned (result kind persisted after none o.evidence))
            (route d g f))
          w
  attempt-Reports g stage o update kind after f w continued r w' h = elim (attempt-ok _ _ _ w h) [
    | inl (g', w1, stored, end) ↦
        let (c, found, same) = store_checkpoint-loaded g stage o update w stored in
        result-Reports kind g' after none o.evidence w1 found
          (λ e. continued c e ∙ ap (λ (s : RunState). some s.current_stage) (sym same)) r w' end
    | inr (w1, caught) ↦ route-Reports g f w1 r w' caught
  ]

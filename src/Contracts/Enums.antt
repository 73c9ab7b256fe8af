-- ===== src/Contracts/Enums.antt =====
-- src/auto_code/contracts.py: the enumerations, with the test `is` between members.
use auto_code.Common.{Bool, true, all, ◌≡◌, arith, Eq, of_discrete, List, [], ◌∷◌}

pub data Stage : Type 0 where
  analyst architect_outline architect_proposal architect_specs architect_design architect_tasks
        programmer verification tester reviewer :
      Stage

unfoldable pub Stage-discrete : Discrete Stage
Stage-discrete = hlevel

instance abbrev pub Stage_Eq : Eq Stage
Stage_Eq = of_discrete Stage-discrete

pub data FailureClass : Type 0 where
  product invalid_output orchestration ambiguity budget_exhausted : FailureClass

unfoldable pub FailureClass-discrete : Discrete FailureClass
FailureClass-discrete = hlevel

instance abbrev pub FailureClass_Eq : Eq FailureClass
FailureClass_Eq = of_discrete FailureClass-discrete

pub data FailureSource : Type 0 where
  preflight transport artifact verification browser review finalization supervisor : FailureSource

unfoldable pub FailureSource-discrete : Discrete FailureSource
FailureSource-discrete = hlevel

instance abbrev pub FailureSource_Eq : Eq FailureSource
FailureSource_Eq = of_discrete FailureSource-discrete

pub data FindingKind : Type 0 where
  implementation_mismatch scenario_mismatch artifact_mismatch requirements_mismatch
        invalid_unit_output invalid_routing :
      FindingKind

unfoldable pub FindingKind-discrete : Discrete FindingKind
FindingKind-discrete = hlevel

instance abbrev pub FindingKind_Eq : Eq FindingKind
FindingKind_Eq = of_discrete FindingKind-discrete

pub data RunDisposition : Type 0 where
  active waiting_mcp repair_required human_review done abandoned : RunDisposition

unfoldable pub RunDisposition-discrete : Discrete RunDisposition
RunDisposition-discrete = hlevel

instance abbrev pub RunDisposition_Eq : Eq RunDisposition
RunDisposition_Eq = of_discrete RunDisposition-discrete

pub data StepKind : Type 0 where
  continue mcp_action iteration_failed repair_required ready_to_finalize human_review done :
      StepKind

unfoldable pub StepKind-discrete : Discrete StepKind
StepKind-discrete = hlevel

instance abbrev pub StepKind_Eq : Eq StepKind
StepKind_Eq = of_discrete StepKind-discrete

pub data PreparationPhase : Type 0 where
  selected in_progress_requested in_progress_confirmed branch_created ready compensation_required :
      PreparationPhase

unfoldable pub PreparationPhase-discrete : Discrete PreparationPhase
PreparationPhase-discrete = hlevel

instance abbrev pub PreparationPhase_Eq : Eq PreparationPhase
PreparationPhase_Eq = of_discrete PreparationPhase-discrete

pub data UnitStatus : Type 0 where
  unchecked checked : UnitStatus

unfoldable pub UnitStatus-discrete : Discrete UnitStatus
UnitStatus-discrete = hlevel

instance abbrev pub UnitStatus_Eq : Eq UnitStatus
UnitStatus_Eq = of_discrete UnitStatus-discrete

pub data EffectOutcome : Type 0 where
  success failure not_found conflict unknown : EffectOutcome

unfoldable pub EffectOutcome-discrete : Discrete EffectOutcome
EffectOutcome-discrete = hlevel

instance abbrev pub EffectOutcome_Eq : Eq EffectOutcome
EffectOutcome_Eq = of_discrete EffectOutcome-discrete

pub data HumanAuthorizationAction : Type 0 where
  resume abandon : HumanAuthorizationAction

unfoldable pub HumanAuthorizationAction-discrete : Discrete HumanAuthorizationAction
HumanAuthorizationAction-discrete = hlevel

instance abbrev pub HumanAuthorizationAction_Eq : Eq HumanAuthorizationAction
HumanAuthorizationAction_Eq = of_discrete HumanAuthorizationAction-discrete

-- `for stage in Stage`: the members in the order of their definition.
abbrev pub every_stage : List Stage
every_stage =
    Stage.analyst ∷ Stage.architect_outline ∷ Stage.architect_proposal ∷ Stage.architect_specs
    ∷ Stage.architect_design ∷ Stage.architect_tasks ∷ Stage.programmer ∷ Stage.verification
    ∷ Stage.tester ∷ Stage.reviewer ∷ []

-- A test that holds at every stage.
unfoldable pub for_every_stage : (Stage → Bool) → Bool
for_every_stage test = all test every_stage

pub for_every_stage-at :
    (test : Stage → Bool) → for_every_stage test ≡ true → (stage : Stage) → test stage ≡ true
unfolding for_every_stage
for_every_stage-at test h Stage.analyst = ground arith
for_every_stage-at test h Stage.architect_outline = ground arith
for_every_stage-at test h _ = ground arith

pub for_every_stage-intro :
    (test : Stage → Bool) → ((stage : Stage) → test stage ≡ true) → for_every_stage test ≡ true
unfolding for_every_stage
for_every_stage-intro test h = ground (
  arith,
  h Stage.analyst,
  h Stage.architect_outline,
  h Stage.architect_proposal,
  h Stage.architect_specs,
  h Stage.architect_design,
  h Stage.architect_tasks,
  h Stage.programmer,
  h Stage.verification,
  h Stage.tester,
  h Stage.reviewer,
)

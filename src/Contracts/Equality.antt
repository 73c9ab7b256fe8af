-- ===== src/Contracts/Equality.antt =====
-- src/auto_code/contracts.py: the equality of the models, which compares their fields.
use auto_code.Common.{
  true, ◌==◌, inr, ◌≡◌, refl, decided_iff, ◌∙◌, sym, ap, decided, inl, Bool, Bool-cases,
  String-discrete, List, Eq, of_discrete,
}
use auto_code.Contracts.Enums.{
  for_every_stage, for_every_stage-at, for_every_stage-intro, Stage, Stage-discrete,
}
use auto_code.Contracts.Evidence.{EvidenceRef, Checkpoint, FailureRecord}
use auto_code.Contracts.Effects.{EffectEvent}
use auto_code.Contracts.Json.{Fields}
use auto_code.Contracts.Requests.{PendingExternalRequest}
use auto_code.Contracts.Authorizations.{HumanAuthorization}
use auto_code.Contracts.Bindings.{
  RunnerIdentity, TrustedPreparationInputRef, PersistedBranchBinding, FinalizationEvidence,
  IndexReleaseBinding,
}
use auto_code.Contracts.RunState.{RunState}
use mathlib.Core.Bool.{false≢true}
use mathlib.Core.Path.{fun_ext}
use native.Mathlib.Decide.{ℕ_discrete}

unfoldable pub EvidenceRef-discrete : Discrete EvidenceRef
EvidenceRef-discrete = hlevel String-discrete

unfoldable pub Checkpoint-discrete : Discrete Checkpoint
Checkpoint-discrete = hlevel (String-discrete, Stage-discrete)

unfoldable pub EffectEvent-discrete : Discrete EffectEvent
EffectEvent-discrete = hlevel (String-discrete, ℕ_discrete)

unfoldable pub Fields-discrete : Discrete Fields
Fields-discrete = hlevel (String-discrete, ℕ_discrete)

unfoldable pub PendingExternalRequest-discrete : Discrete PendingExternalRequest
PendingExternalRequest-discrete = hlevel (String-discrete, ℕ_discrete, Fields-discrete)

unfoldable pub FailureRecord-discrete : Discrete FailureRecord
FailureRecord-discrete = hlevel (String-discrete, ℕ_discrete)

unfoldable pub HumanAuthorization-discrete : Discrete HumanAuthorization
HumanAuthorization-discrete = hlevel (String-discrete, ℕ_discrete)

unfoldable pub RunnerIdentity-discrete : Discrete RunnerIdentity
RunnerIdentity-discrete = hlevel (String-discrete, ℕ_discrete)

unfoldable pub TrustedPreparationInputRef-discrete : Discrete TrustedPreparationInputRef
TrustedPreparationInputRef-discrete = hlevel (String-discrete, ℕ_discrete)

unfoldable pub PersistedBranchBinding-discrete : Discrete PersistedBranchBinding
PersistedBranchBinding-discrete = hlevel (String-discrete, ℕ_discrete)

unfoldable pub FinalizationEvidence-discrete : Discrete FinalizationEvidence
FinalizationEvidence-discrete = hlevel (String-discrete, ℕ_discrete)

unfoldable pub IndexReleaseBinding-discrete : Discrete IndexReleaseBinding
IndexReleaseBinding-discrete = hlevel (String-discrete, ℕ_discrete)

instance abbrev pub EvidenceRef_Eq : Eq EvidenceRef
EvidenceRef_Eq = of_discrete EvidenceRef-discrete

instance abbrev pub EffectEvent_Eq : Eq EffectEvent
EffectEvent_Eq = of_discrete EffectEvent-discrete

instance abbrev pub FailureRecord_Eq : Eq FailureRecord
FailureRecord_Eq = of_discrete FailureRecord-discrete

instance abbrev pub HumanAuthorization_Eq : Eq HumanAuthorization
HumanAuthorization_Eq = of_discrete HumanAuthorization-discrete

instance abbrev pub RunnerIdentity_Eq : Eq RunnerIdentity
RunnerIdentity_Eq = of_discrete RunnerIdentity-discrete

instance abbrev pub TrustedPreparationInputRef_Eq : Eq TrustedPreparationInputRef
TrustedPreparationInputRef_Eq = of_discrete TrustedPreparationInputRef-discrete

instance abbrev pub PersistedBranchBinding_Eq : Eq PersistedBranchBinding
PersistedBranchBinding_Eq = of_discrete PersistedBranchBinding-discrete

instance abbrev pub FinalizationEvidence_Eq : Eq FinalizationEvidence
FinalizationEvidence_Eq = of_discrete FinalizationEvidence-discrete

instance abbrev pub IndexReleaseBinding_Eq : Eq IndexReleaseBinding
IndexReleaseBinding_Eq = of_discrete IndexReleaseBinding-discrete

instance abbrev pub PendingExternalRequest_Eq : Eq PendingExternalRequest
PendingExternalRequest_Eq = of_discrete PendingExternalRequest-discrete

module _ {A : Type 0} (d : Discrete A) where
  unfoldable pub list-discrete : Discrete (List A)
  list-discrete = hlevel d

-- Two mappings of stages are equal if they agree at every stage.
module _ {A : Type 0} (d : Discrete A) where
  abbrev pub agree : (Stage → A) → (Stage → A) → Stage → Bool
  agree f g stage = decided (d (f stage) (g stage))

  pub agree-eq : (f g : Stage → A) → for_every_stage (agree f g) ≡ true → f ≡ g
  agree-eq f g same =
      fun_ext
        (λ stage. (decided_iff d (f stage) (g stage)).0 (for_every_stage-at (agree f g) same stage))

  pub agree_refl : (f g : Stage → A) → f ≡ g → for_every_stage (agree f g) ≡ true
  agree_refl f g e =
      for_every_stage-intro (agree f g)
        (λ stage. (decided_iff d (f stage) (g stage)).1 (ap (λ (h : Stage → A). h stage) e))

  unfoldable pub by_stage-discrete : Discrete (Stage → A)
  unfolding for_every_stage
  by_stage-discrete f g = elim (Bool-cases (for_every_stage (agree f g))) [
    | inl same ↦ yes (agree-eq f g same)
    | inr other ↦ no (λ e. absurd (false≢true (sym other ∙ agree_refl f g e)))
  ]

unfoldable pub RunState-discrete : Discrete RunState
RunState-discrete =
    hlevel (String-discrete, ℕ_discrete, Fields-discrete, Checkpoint-discrete, by_stage-discrete)

instance abbrev pub RunState_Eq : Eq RunState
RunState_Eq = of_discrete RunState-discrete

pub RunState-eq_self : (s : RunState) → (s == s) ≡ true
RunState-eq_self s = (RunState_Eq.beq_iff s s).1 refl

-- ===== src/State/Transitions/Grants.antt =====
-- The iteration budget across a transition.
use auto_code.Common.{
  ◌∙◌, ◌+◌, true, List, [], ◌∷◌, ◌++◌, none, some, ok, ◌≡◌, ◌⊎◌, inl, inr, refl, arith, ap,
}
use auto_code.Contracts.Enums.{
  RunDisposition, HumanAuthorizationAction, HumanAuthorizationAction_Eq,
}
use auto_code.Contracts.Authorizations.{HumanAuthorization, consumed_resume_grant, granted}
use auto_code.Contracts.RunState.{RunState}
use auto_code.Contracts.RunState.Validation.{authorized_iteration_limit}
use auto_code.State.Transitions.{
  Verifier, is_trusted_authorization, required_action, validate_appended_authorizations,
}

granted-append : (l m : List HumanAuthorization) → granted (l ++ m) ≡ granted l + granted m
unfolding granted
granted-append [] m = omega arith
granted-append (a ∷ l) m = omega (arith, granted-append l m)

-- The one authorization that a transition may append.
record Appended (verifier : Verifier) (before after : RunDisposition) (a : HumanAuthorization)
    : Type 0 where
  from_review : before ≡ RunDisposition.human_review
  action : required_action before after ≡ some a.action
  trusted : is_trusted_authorization verifier a a.action ≡ true

Appended-cases :
    (verifier : Verifier) (before after : RunDisposition) (appended : List HumanAuthorization)
    → validate_appended_authorizations verifier before after appended ≡ ok tt
    → (appended ≡ [])
      ⊎ ((a : HumanAuthorization) × (appended ≡ a ∷ []) × Appended verifier before after a)
unfolding validate_appended_authorizations
Appended-cases verifier before after [] h = inl refl
Appended-cases verifier before after (a ∷ b ∷ more) h = absurd (ground arith)
Appended-cases verifier before after (a ∷ []) h = inr (a, refl, ground arith)

-- What one authorization that a transition may append grants.
Appended-grant :
    (verifier : Verifier) (before after : RunDisposition) (a : HumanAuthorization)
    → Appended verifier before after a
    → ((after ≡ RunDisposition.active)
        × (a.action ≡ HumanAuthorizationAction.resume)
        × (consumed_resume_grant a ≡ a.additional_iterations))
      ⊎ (consumed_resume_grant a ≡ 0)
unfolding required_action is_trusted_authorization consumed_resume_grant
Appended-grant none before after a h = absurd (ground (arith, h.trusted))
Appended-grant (some verify) before after a h = ground (arith, h.from_review, h.action, h.trusted)

-- In a transition that appends authorizations to those of the previous state, keeps the configured
-- maximum, and passes the store's check of them, the authorized limit of iterations stays, or one
-- authorization was appended, the run went from human review to active, and the limit grew by
-- exactly the iterations that this authorization, a trusted resume, states.
pub validate_appended_authorizations-limit :
    (verifier : Verifier) (previous state : RunState) (appended : List HumanAuthorization)
    → state.human_authorizations ≡ previous.human_authorizations ++ appended
    → state.max_crew_iterations ≡ previous.max_crew_iterations
    → validate_appended_authorizations verifier previous.disposition state.disposition appended
      ≡ ok tt
    → (authorized_iteration_limit state ≡ authorized_iteration_limit previous)
      ⊎ ((a : HumanAuthorization) × (appended ≡ a ∷ [])
          × (previous.disposition ≡ RunDisposition.human_review)
          × (state.disposition ≡ RunDisposition.active)
          × (a.action ≡ HumanAuthorizationAction.resume)
          × (is_trusted_authorization verifier a a.action ≡ true)
          × (authorized_iteration_limit state
              ≡ authorized_iteration_limit previous + a.additional_iterations))
unfolding authorized_iteration_limit granted
validate_appended_authorizations-limit verifier previous state appended grows budget h =
    let sum = ap granted grows ∙ granted-append previous.human_authorizations appended in
    elim (Appended-cases verifier previous.disposition state.disposition appended h) [
      | inl nothing ↦ inl (omega (arith, sum, ap granted nothing))
      | inr (a, one, ok_a) ↦
          elim (Appended-grant verifier previous.disposition state.disposition a ok_a) [
            | inr zero_grant ↦ inl (omega (arith, sum, ap granted one, zero_grant))
            | inl (resumed, action, grant) ↦ inr (
              a,
              one,
              ok_a.from_review,
              resumed,
              action,
              ok_a.trusted,
              omega (arith, sum, ap granted one, grant),
            )
          ]
    ]

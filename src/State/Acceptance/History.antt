-- ===== src/State/Acceptance/History.antt =====
-- The states of a run, one accepted after the other.
use mathlib.Core.Path.{subst}
use auto_code.Common.{String, Option, none, some, ok, ◌≡◌, refl, ◌∙◌, sym, ◌⊎◌, inl, inr}
use auto_code.Contracts.Enums.{RunDisposition}
use auto_code.Contracts.RunState.{RunState}
use auto_code.State.Acceptance.{validate_after, validate_transition}
use auto_code.State.Acceptance.Extends.{
  StartsWith-self, StartsWith-trans, Continues, validate_successor-ok,
}
use auto_code.State.Acceptance.Inversion.{validate_transition-Accepted}
use auto_code.State.Acceptance.Terminal.{validate_transition-abandoned}
use auto_code.State.Context.{StateGeneration, StoreContext}
use auto_code.State.Receipts.{GenerationLoader}

-- States that a store accepted one after the other; what surrounds the store may change in between.
pub data History (first : RunState) : RunState → Type 0 where
  start : History first first
  accept :
      (x : StoreContext) (load : GenerationLoader) (g : StateGeneration) (s t : RunState)
      → History first g.state
      → validate_transition x load (some g) s ≡ ok t
      → History first t

Continues-self : (s : RunState) → Continues s s
Continues-self s = record {
  run_id = refl;
  ticket_id = refl;
  repository_id = refl;
  max_crew_iterations = refl;
  repair_activation_public_key = refl;
  repair_activation_public_key_hash = refl;
  finalization_public_key = refl;
  finalization_public_key_hash = refl;
  branch = inr refl;
  effects = StartsWith-self s.effect_ledger;
  failures = StartsWith-self s.failure_history;
  authorizations = StartsWith-self s.human_authorizations;
}

branch_trans :
    (a b c : Option String) → (a ≡ none) ⊎ (b ≡ a) → (b ≡ none) ⊎ (c ≡ b) → (a ≡ none) ⊎ (c ≡ a)
branch_trans a b c (inl e) q = inl e
branch_trans a b c (inr e) (inl f) = inl (sym e ∙ f)
branch_trans a b c (inr e) (inr f) = inr (f ∙ e)

Continues-trans : (s t u : RunState) → Continues s t → Continues t u → Continues s u
Continues-trans s t u p q = record {
  run_id = p.run_id ∙ q.run_id;
  ticket_id = p.ticket_id ∙ q.ticket_id;
  repository_id = p.repository_id ∙ q.repository_id;
  max_crew_iterations = p.max_crew_iterations ∙ q.max_crew_iterations;
  repair_activation_public_key = p.repair_activation_public_key ∙ q.repair_activation_public_key;
  repair_activation_public_key_hash =
      p.repair_activation_public_key_hash ∙ q.repair_activation_public_key_hash;
  finalization_public_key = p.finalization_public_key ∙ q.finalization_public_key;
  finalization_public_key_hash = p.finalization_public_key_hash ∙ q.finalization_public_key_hash;
  branch = branch_trans s.branch t.branch u.branch p.branch q.branch;
  effects = StartsWith-trans s.effect_ledger t.effect_ledger u.effect_ledger p.effects q.effects;
  failures =
      StartsWith-trans s.failure_history t.failure_history u.failure_history p.failures q.failures;
  authorizations =
      StartsWith-trans s.human_authorizations t.human_authorizations u.human_authorizations
        p.authorizations q.authorizations;
}

-- A state that an accepted transition gives continues the state before it.
validate_transition-Continues :
    (x : StoreContext) (load : GenerationLoader) (g : StateGeneration) (s : RunState) {t : RunState}
    → validate_transition x load (some g) s ≡ ok t
    → Continues g.state t
unfolding validate_after
validate_transition-Continues x load g s {t} h =
    let accepted = validate_transition-Accepted x load (some g) s h in
    let (_, continues, _) = validate_successor-ok x load g t accepted.after in continues

-- Over any number of accepted transitions a run keeps its identifiers, its iteration limit, its
-- public keys and a branch once it has one, and its effect ledger, failures and authorizations only
-- grow at their end.
pub History-Continues : (first t : RunState) → History first t → Continues first t
History-Continues first t start = Continues-self first
History-Continues first t (accept x load g s _ before accepted) =
    Continues-trans first g.state t (History-Continues first g.state before)
      (validate_transition-Continues x load g s accepted)

-- A run that is abandoned stays as it is: every state that the store accepts after it, over any
-- number of transitions, is the abandoned one.
pub History-abandoned :
    (first t : RunState)
    → first.disposition ≡ RunDisposition.abandoned
    → History first t
    → t ≡ first
History-abandoned first t abandoned start = refl
History-abandoned first t abandoned (accept x load g s _ before accepted) =
    let same = History-abandoned first g.state abandoned before in
    validate_transition-abandoned x load g s
      (subst (λ (u : RunState). u.disposition ≡ RunDisposition.abandoned) (sym same) abandoned)
      accepted
    ∙ same

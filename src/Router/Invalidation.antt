-- ===== src/Router/Invalidation.antt =====
-- `invalidate_from` on a state that validates.
use auto_code.Common.{
  Bool, true, false, not, Option, none, List, [], ◌∷◌, keep, contains, distinct, ok, ◌≡◌, refl,
  arith,
}
use auto_code.Contracts.Enums.{
  Stage, Stage_Eq, for_every_stage, for_every_stage-at, for_every_stage-intro,
}
use auto_code.Contracts.Evidence.{Checkpoint, StageOutput}
use auto_code.Contracts.Externals.{Externals}
use auto_code.Contracts.RunState.{RunState}
use auto_code.Contracts.RunState.Checks.{
  output_of, output_stages, stage_matches, same_presence, same_hash,
}
use auto_code.Contracts.RunState.Validation.{
  any_binding, has_preparation_binding, authorized_iteration_limit, IsValid, IsValid-validate_state,
}
use auto_code.Router.{unless, invalidated, is_descendant, invalidate_from}

module _ (gone : Stage → Bool) where
  abbrev pub kept : List StageOutput → List StageOutput
  kept = keep (λ (o : StageOutput). not (gone o.stage))

  pub output_of-keep :
      (outputs : List StageOutput) (stage : Stage)
      → output_of (kept outputs) stage ≡ unless (gone stage) none (output_of outputs stage)
  unfolding output_of
  output_of-keep [] stage = ground arith
  output_of-keep (o ∷ rest) stage =
      ground (arith, Stage_Eq.beq_iff o.stage stage, output_of-keep rest stage)

  contains-keep :
      (outputs : List StageOutput) (stage : Stage)
      → contains stage (output_stages outputs) ≡ false
      → contains stage (output_stages (kept outputs)) ≡ false
  contains-keep [] stage h = refl
  contains-keep (o ∷ rest) stage h = ground (arith, contains-keep rest stage)

  distinct-keep :
      (outputs : List StageOutput)
      → distinct (output_stages outputs) ≡ true
      → distinct (output_stages (kept outputs)) ≡ true
  distinct-keep [] h = refl
  distinct-keep (o ∷ rest) h = ground (arith, distinct-keep rest, contains-keep rest o.stage)

  stages_match :
      (checkpoints : Stage → Option Checkpoint)
      → for_every_stage (λ stage. stage_matches stage (checkpoints stage)) ≡ true
      → for_every_stage
          (λ stage. stage_matches stage (unless (gone stage) none (checkpoints stage)))
        ≡ true
  stages_match checkpoints h =
      for_every_stage-intro _ λ stage. ground (arith, for_every_stage-at _ h stage)

  presence_kept :
      (outputs : List StageOutput) (checkpoints : Stage → Option Checkpoint)
      → for_every_stage (λ stage. same_presence (output_of outputs stage) (checkpoints stage))
        ≡ true
      → for_every_stage (λ stage.
        same_presence
          (output_of (kept outputs) stage)
          (unless (gone stage) none (checkpoints stage)))
        ≡ true
  presence_kept outputs checkpoints h =
      for_every_stage-intro _
        λ stage. ground (arith, for_every_stage-at _ h stage, output_of-keep outputs stage)

  hash_kept :
      (outputs : List StageOutput) (checkpoints : Stage → Option Checkpoint)
      → for_every_stage (λ stage. same_hash (output_of outputs stage) (checkpoints stage)) ≡ true
      → for_every_stage (λ stage.
        same_hash (output_of (kept outputs) stage) (unless (gone stage) none (checkpoints stage)))
        ≡ true
  hash_kept outputs checkpoints h =
      for_every_stage-intro _
        λ stage. ground (arith, for_every_stage-at _ h stage, output_of-keep outputs stage)

pub invalidated-IsValid :
    (x : Externals) (gone : Stage → Bool) (owner : Stage) (s : RunState)
    → IsValid x s
    → IsValid x (invalidated gone owner s)
unfolding any_binding has_preparation_binding authorized_iteration_limit
invalidated-IsValid x gone owner s v = record {
  fields = ground (
    arith,
    v.fields,
    stages_match gone s.checkpoints,
    presence_kept gone s.stage_outputs s.checkpoints,
    hash_kept gone s.stage_outputs s.checkpoints,
    distinct-keep gone s.stage_outputs,
  );
  effects = v.effects;
}

-- From a state that validates, `invalidate_from` raises nothing: it returns the state with the
-- update applied, which validates again.
pub invalidate_from-IsValid :
    (x : Externals) (s : RunState) (owner : Stage)
    → IsValid x s
    → (invalidate_from x s owner ≡ ok (invalidated (is_descendant owner) owner s))
      × IsValid x (invalidated (is_descendant owner) owner s)
unfolding invalidate_from
invalidate_from-IsValid x s owner v =
    let v' = invalidated-IsValid x (is_descendant owner) owner s v in
    (IsValid-validate_state x _ v', v')

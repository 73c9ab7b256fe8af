-- ===== src/Router/Resume.antt =====
-- Where the orchestration goes on after an invalidation.
use auto_code.Common.{
  Bool, true, false, Option, none, some, List, [], ◌∷◌, ◌++◌, ◌==◌, if◌then◌else◌, Result, ok, ◌≡◌,
  refl, arith, ◌∙◌, all, not,
}
use auto_code.Contracts.Enums.{
  Stage, Stage_Eq, Stage-discrete, every_stage, for_every_stage, for_every_stage-at, RunDisposition,
}
use auto_code.Contracts.Evidence.{StageOutput}
use auto_code.Contracts.Externals.{Externals}
use auto_code.Contracts.RunState.{RunState}
use auto_code.Contracts.RunState.Validation.{IsValid}
use auto_code.Router.{
  RegistryError, CheckpointExpectation, CheckpointAuthority, Expectations, has_binding, binds_at,
  next_stage, invalidated, is_descendant, descendants, invalidate_from,
}
use auto_code.Router.NextStage.{AllBound, next_stage_lem}
use auto_code.Router.Invalidation.{output_of-keep, invalidate_from-IsValid}

-- The stages before the owner, and those after it, in the order of a list.
abbrev pub before_stage : Stage → List Stage → List Stage
before_stage owner [] = []
before_stage owner (a ∷ rest) = if a == owner then [] else a ∷ before_stage owner rest

abbrev after_stage : Stage → List Stage → List Stage
after_stage owner [] = []
after_stage owner (a ∷ rest) = if a == owner then rest else after_stage owner rest

every_stage-splits :
    (owner : Stage)
    → every_stage ≡ before_stage owner every_stage ++ owner ∷ after_stage owner every_stage
unfolding Stage-discrete
every_stage-splits Stage.analyst = refl
every_stage-splits Stage.architect_outline = refl
every_stage-splits _ = refl

-- No stage before the owner requires it.
earlier_table :
    for_every_stage
      (λ owner. all (λ stage. not (is_descendant owner stage)) (before_stage owner every_stage))
    ≡ true
unfolding for_every_stage descendants
earlier_table = refl

own_table : for_every_stage (λ owner. is_descendant owner owner) ≡ true
unfolding for_every_stage descendants
own_table = refl

has_binding-none :
    (authority : CheckpointAuthority) (stage : Stage) (e : Option CheckpointExpectation)
    (o : Option StageOutput)
    → has_binding authority stage e none o ≡ ok false
unfolding has_binding
has_binding-none authority stage none o = refl
has_binding-none authority stage (some e) o = refl

module _ (s : RunState) (expectations : Expectations) (authority : CheckpointAuthority) where
  abbrev binds : RunState → Stage → Result RegistryError Bool
  binds t = binds_at t expectations authority

  binds-kept :
      (gone : Stage → Bool) (owner stage : Stage)
      → gone stage ≡ false
      → binds (invalidated gone owner s) stage ≡ binds s stage
  unfolding binds_at
  binds-kept gone owner stage h = rw (output_of-keep gone s.stage_outputs stage, h)

  binds-gone :
      (gone : Stage → Bool) (owner stage : Stage)
      → gone stage ≡ true
      → binds (invalidated gone owner s) stage ≡ ok false
  unfolding binds_at
  binds-gone gone owner stage h = rw h (has_binding-none authority stage (expectations stage) _)

  AllBound-kept :
      (gone : Stage → Bool) (owner : Stage) (stages : List Stage)
      → all (λ stage. not (gone stage)) stages ≡ true
      → AllBound (binds s) stages
      → AllBound (binds (invalidated gone owner s)) stages
  AllBound-kept gone owner [] h bound = tt
  AllBound-kept gone owner (a ∷ rest) h bound = (
    binds-kept gone owner a (ground arith) ∙ bound.0,
    AllBound-kept gone owner rest (ground arith) bound.1,
  )

  -- If every stage before the owner is bound in an active state that validates, then after
  -- `invalidate_from` at the owner, `next_stage` answers with the owner.
  pub invalidate_from-next_stage :
      (x : Externals) (owner : Stage)
      → IsValid x s
      → s.disposition ≡ RunDisposition.active
      → AllBound (binds s) (before_stage owner every_stage)
      → (t : RunState) × (invalidate_from x s owner ≡ ok t)
        × (next_stage t expectations authority ≡ ok (some owner))
  invalidate_from-next_stage x owner v active bound =
      let gone = is_descendant owner in
      let t = invalidated gone owner s in
      (
        t,
        (invalidate_from-IsValid x s owner v).0,
        ((next_stage_lem t expectations authority active).0 owner).1 (record {
          before = before_stage owner every_stage;
          after = after_stage owner every_stage;
          splits = every_stage-splits owner;
          bound = AllBound-kept gone owner _ (for_every_stage-at _ earlier_table owner) bound;
          unbound = binds-gone gone owner owner (for_every_stage-at _ own_table owner);
        }),
      )

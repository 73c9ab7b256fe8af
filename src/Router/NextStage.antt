-- ===== src/Router/NextStage.antt =====
-- `next_stage` is the earliest stage without a matching binding.
use mathlib.Core.Path.{subst}
use auto_code.Common.{
  Bool, true, false, none, some, List, [], ◌∷◌, ◌++◌, Result, ok, ◌≡◌, refl, arith, if◌then◌else◌,
  ◌↔◌, ap, >>=-eq-ok, sym, ◌∙◌,
}
use auto_code.Contracts.Enums.{Stage, RunDisposition, RunDisposition_Eq, every_stage}
use auto_code.Contracts.RunState.{RunState}
use auto_code.Router.{
  RegistryError, CheckpointAuthority, Expectations, binds_at, first_unbound, next_stage,
}

-- Every stage of a list is bound.
abbrev pub AllBound : (Stage → Result RegistryError Bool) → List Stage → Type 0
AllBound binds [] = Unit {0}
AllBound binds (stage ∷ rest) = (binds stage ≡ ok true) × AllBound binds rest

-- A stage of a list, with the stages before it bound and itself not.
pub record FirstUnbound (binds : Stage → Result RegistryError Bool) (stages : List Stage)
    (stage : Stage) : Type 0 where
  pub before : List Stage
  pub after : List Stage
  pub splits : stages ≡ before ++ stage ∷ after
  pub bound : AllBound binds before
  pub unbound : binds stage ≡ ok false

module _ (binds : Stage → Result RegistryError Bool) where
  FirstUnbound-head :
      (a : Stage) (rest : List Stage) (stage : Stage)
      → (first_unbound binds rest ≡ ok (some stage) → FirstUnbound binds rest stage)
      → (b : Bool) → binds a ≡ ok b
      → (if b then first_unbound binds rest else ok (some a)) ≡ ok (some stage)
      → FirstUnbound binds (a ∷ rest) stage
  FirstUnbound-head a rest stage later true eq more =
      let r = later more in
      record {
        before = a ∷ r.before;
        after = r.after;
        splits = ap (λ l. a ∷ l) r.splits;
        bound = (eq, r.bound);
        unbound = r.unbound;
      }
  FirstUnbound-head a rest stage later false eq more = record {
    before = [];
    after = rest;
    splits = ground arith;
    bound = tt;
    unbound = ground arith;
  }

  AllBound-head :
      (a : Stage) (rest : List Stage)
      → (first_unbound binds rest ≡ ok none → AllBound binds rest)
      → (b : Bool) → binds a ≡ ok b
      → (if b then first_unbound binds rest else ok (some a)) ≡ ok none
      → AllBound binds (a ∷ rest)
  AllBound-head a rest later true eq more = (eq, later more)
  AllBound-head a rest later false eq more = absurd (cc)

  first_unbound-FirstUnbound :
      (stages : List Stage) (stage : Stage)
      → first_unbound binds stages ≡ ok (some stage)
      → FirstUnbound binds stages stage
  unfolding first_unbound
  first_unbound-FirstUnbound [] stage h = absurd (cc)
  first_unbound-FirstUnbound (a ∷ rest) stage h =
      let (b, eq, more) = >>=-eq-ok (binds a) _ h in
      FirstUnbound-head a rest stage (first_unbound-FirstUnbound rest stage) b eq more

  -- A list with a first stage that is not bound is answered by that stage.
  FirstUnbound-first_unbound :
      (before after : List Stage) (stage : Stage)
      → AllBound binds before
      → binds stage ≡ ok false
      → first_unbound binds (before ++ stage ∷ after) ≡ ok (some stage)
  unfolding first_unbound
  FirstUnbound-first_unbound [] after stage bound no_binding = rw no_binding
  FirstUnbound-first_unbound (b ∷ before) after stage bound no_binding =
      rw (bound.0) (FirstUnbound-first_unbound before after stage bound.1 no_binding)

  AllBound-first_unbound :
      (stages : List Stage) → AllBound binds stages → first_unbound binds stages ≡ ok none
  unfolding first_unbound
  AllBound-first_unbound [] bound = refl
  AllBound-first_unbound (a ∷ rest) bound = rw (bound.0) (AllBound-first_unbound rest bound.1)

  first_unbound-AllBound :
      (stages : List Stage) → first_unbound binds stages ≡ ok none → AllBound binds stages
  unfolding first_unbound
  first_unbound-AllBound [] h = tt
  first_unbound-AllBound (a ∷ rest) h =
      let (b, eq, more) = >>=-eq-ok (binds a) _ h in
      AllBound-head a rest (first_unbound-AllBound rest) b eq more

module _ (s : RunState) (expectations : Expectations) (authority : CheckpointAuthority) where
  next_stage-active :
      s.disposition ≡ RunDisposition.active
      → next_stage s expectations authority
        ≡ first_unbound (binds_at s expectations authority) every_stage
  unfolding next_stage
  next_stage-active active =
      rw ((RunDisposition_Eq.beq_iff s.disposition RunDisposition.active).1 active)

  -- For an active state, `next_stage` answers with a stage exactly if that stage is the first, in
  -- the order of the stages, that is not bound, all before it being bound without an error; and it
  -- answers with none exactly if every stage is bound.
  pub next_stage_lem :
      s.disposition ≡ RunDisposition.active
      → ((stage : Stage)
          → (next_stage s expectations authority ≡ ok (some stage))
            ↔ FirstUnbound (binds_at s expectations authority) every_stage stage)
        × ((next_stage s expectations authority ≡ ok none)
            ↔ AllBound (binds_at s expectations authority) every_stage)
  next_stage_lem active =
      let binds = binds_at s expectations authority in
      let e = next_stage-active active in
      (
        λ stage. (
          λ h. first_unbound-FirstUnbound binds every_stage stage (sym e ∙ h),
          λ r.
              e
              ∙ subst (λ l. first_unbound binds l ≡ ok (some stage)) (sym r.splits)
                  (FirstUnbound-first_unbound binds r.before r.after stage r.bound r.unbound),
        ),
        (
          λ h. first_unbound-AllBound binds every_stage (sym e ∙ h),
          λ all_bound. e ∙ AllBound-first_unbound binds every_stage all_bound,
        ),
      )

-- ===== src/Contracts/RunState/Iterations.antt =====
-- src/auto_code/contracts.py: `RunState.can_start_iteration` and `RunState.begin_iteration`.
use auto_code.Common.{
  false, refl, ok, ◌≤◌, ◌+◌, Bool, true, not, ◌&&◌, ltb, ◌==◌, Result, err, ◌≡◌, arith,
  if◌then◌else◌,
}
use auto_code.Contracts.Enums.{RunDisposition, RunDisposition_Eq, RunDisposition-discrete}
use auto_code.Contracts.Externals.{Externals}
use auto_code.Contracts.RunState.{RunState}
use auto_code.Contracts.RunState.Checks.{StateError, iteration_cannot_start}
use auto_code.Contracts.RunState.Validation.{
  any_binding, has_preparation_binding, authorized_iteration_limit, IsValid, IsValid-validate_state,
  model_copy,
}

unfoldable pub can_start_iteration : RunState → Bool
unfolding authorized_iteration_limit RunDisposition-discrete
can_start_iteration s =
    s.disposition == RunDisposition.active
    && not s.iteration_open
    && not s.finalization_eligible
    && ltb s.crew_iteration_count (authorized_iteration_limit s)

-- The update of `begin_iteration`.
abbrev pub opened : RunState → RunState
opened s = record s { crew_iteration_count = s.crew_iteration_count + 1; iteration_open = true }

unfoldable pub begin_iteration : Externals → RunState → Result StateError RunState
unfolding can_start_iteration model_copy
begin_iteration x s =
    if can_start_iteration s then model_copy x s opened else err iteration_cannot_start

opened-IsValid :
    (x : Externals) (s : RunState)
    → can_start_iteration s ≡ true
    → IsValid x s
    → IsValid x (opened s)
unfolding can_start_iteration authorized_iteration_limit any_binding has_preparation_binding
opened-IsValid x s h v = record { fields = ground (arith, v.fields); effects = v.effects }

can_start_iteration-limit :
    (s : RunState)
    → can_start_iteration s ≡ true
    → s.crew_iteration_count + 1 ≤ authorized_iteration_limit s
unfolding can_start_iteration
can_start_iteration-limit s h = ground arith

begin_iteration-cases :
    (x : Externals) (s : RunState)
    → IsValid x s
    → (can : Bool) → can_start_iteration s ≡ can
    → (if can then model_copy x s opened else err iteration_cannot_start)
      ≡ (if can then ok (opened s) else err iteration_cannot_start)
unfolding model_copy
begin_iteration-cases x s v true e = IsValid-validate_state x (opened s) (opened-IsValid x s e v)
begin_iteration-cases x s v false e = refl

-- From a state that validates, `begin_iteration` raises exactly if the state cannot start an
-- iteration; otherwise it returns the state with one more iteration counted and open, which
-- validates again, so its count is within the authorized limit.
pub begin_iteration-IsValid :
    (x : Externals) (s : RunState)
    → IsValid x s
    → (begin_iteration x s
        ≡ (if can_start_iteration s then ok (opened s) else err iteration_cannot_start))
      × (can_start_iteration s ≡ true
          → IsValid x (opened s) × (s.crew_iteration_count + 1 ≤ authorized_iteration_limit s))
unfolding begin_iteration
begin_iteration-IsValid x s v = (
  begin_iteration-cases x s v (can_start_iteration s) refl,
  λ can. (opened-IsValid x s can v, can_start_iteration-limit s can),
)

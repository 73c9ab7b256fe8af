-- ===== src/State/Acceptance/Inversion.antt =====
-- What a transition that is accepted passed.
use mathlib.Core.Path.{subst}
use auto_code.Common.{
  then-ok, guard-ok, ok-injective, ◌∙◌, ◌⊎◌, Bool, true, false, Option, ◌==◌, Result, ok, err, ◌>>◌,
  guard, if◌then◌else◌, ◌≡◌, refl, sym, >>=-eq-ok, text_Eq, inl, inr,
}
use auto_code.Contracts.Equality.{RunState_Eq}
use auto_code.Contracts.RunState.{RunState}
use auto_code.Contracts.RunState.Checks.{StateError}
use auto_code.Contracts.RunState.Validation.{IsValid, validate_state, validate_state-IsValid}
use auto_code.State.Acceptance.{
  has_identifiers, is_bound_to, validate_after, validate_validated, validate_transition,
}
use auto_code.State.Context.{
  unsafe_identifier, other_run, other_repository, unsafe_value, StateGeneration, Rejection,
  StoreError, StoreContext,
}
use auto_code.State.Receipts.{GenerationLoader}
use auto_code.State.Transitions.{TransitionError}
use auto_code.State.Validation.{as_rejected, as_transition, as_contract}

pub as_rejected-ok : {A : Type 0} (m : Result Rejection A) {a : A} → as_rejected m ≡ ok a → m ≡ ok a
as_rejected-ok (ok a) h = cc
as_rejected-ok (err e) h = absurd (cc)

pub as_transition-ok :
    {A : Type 0} (m : Result TransitionError A) {a : A} → as_transition m ≡ ok a → m ≡ ok a
as_transition-ok (ok a) h = cc
as_transition-ok (err e) h = absurd (cc)

pub as_contract-ok :
    {A : Type 0} (m : Result StateError A) {a : A} → as_contract m ≡ ok a → m ≡ ok a
as_contract-ok (ok a) h = cc
as_contract-ok (err e) h = absurd (cc)

-- A guard that is lifted and passes.
pub rejected_guard-ok :
    (b : Bool) (e : Rejection) {u : Unit {0}} → as_rejected (guard b e) ≡ ok u → b ≡ true
rejected_guard-ok b e h = guard-ok b e (as_rejected-ok (guard b e) h)

pub guard_then-ok :
    {A : Type 0} (b : Bool) (e : Rejection) (k : Result StoreError A) {a : A}
    → (as_rejected (guard b e) >> k) ≡ ok a
    → (b ≡ true) × (k ≡ ok a)
guard_then-ok true e k h = (refl, h)
guard_then-ok false e k h = absurd (cc)

pub if-ok :
    {E A : Type 0} (b : Bool) (m k : Result E A) {a : A}
    → (if b then m else k) ≡ ok a
    → ((b ≡ true) × (m ≡ ok a)) ⊎ ((b ≡ false) × (k ≡ ok a))
if-ok true m k h = inl (refl, h)
if-ok false m k h = inr (refl, h)

module _ (x : StoreContext) (load : GenerationLoader) where
  -- What a state that is accepted passed.
  pub record Accepted (previous : Option StateGeneration) (s : RunState) : Type 0 where
    pub valid : IsValid x.externals s
    pub persistable : x.is_persistable (x.dump_state s) ≡ true
    pub identified : has_identifiers s ≡ true
    pub own_run : (s.run_id == x.run_id) ≡ true
    pub after : validate_after x load previous s ≡ ok tt

  accept :
      (previous : Option StateGeneration) (s : RunState)
      → IsValid x.externals s
      → x.is_persistable (x.dump_state s) ≡ true
      → validate_validated x load previous s ≡ ok tt
      → Accepted previous s
  unfolding validate_validated
  accept previous s valid persistable h =
      let (identified, h) = guard_then-ok (has_identifiers s) unsafe_identifier _ h in
      let (own, h) = guard_then-ok (s.run_id == x.run_id) other_run _ h in
      let (b, _, h) = >>=-eq-ok x.bound_repository _ h in
      let (_, after) =
        then-ok (as_rejected (guard (is_bound_to b s.repository_id) other_repository)) _ h in
      record {
        valid = valid;
        persistable = persistable;
        identified = identified;
        own_run = own;
        after = after;
      }

  pub validate_transition-Accepted :
      (previous : Option StateGeneration) (s : RunState) {t : RunState}
      → validate_transition x load previous s ≡ ok t
      → Accepted previous t
  unfolding validate_transition validate_validated
  validate_transition-Accepted previous s h =
      let (persistable, h) = guard_then-ok (x.is_persistable (x.dump_state s)) unsafe_value _ h in
      let (u, checked, h) = >>=-eq-ok (as_contract (validate_state x.externals s)) _ h in
      let (valid, same) =
        validate_state-IsValid x.externals s
          (as_contract-ok (validate_state x.externals s) checked) in
      let (accepted, done) = then-ok (validate_validated x load previous u) _ h in
      subst (Accepted previous) (sym (ok-injective done)) (
        accept previous u (subst (IsValid x.externals) (sym same) valid)
          (subst (λ r. x.is_persistable (x.dump_state r) ≡ true) (sym same) persistable) accepted)

  -- The state that is accepted is the one that was given.
  pub validate_transition-same :
      (previous : Option StateGeneration) (s : RunState) {t : RunState}
      → validate_transition x load previous s ≡ ok t
      → t ≡ s
  unfolding validate_transition
  validate_transition-same previous s h =
      let (_, h) = guard_then-ok (x.is_persistable (x.dump_state s)) unsafe_value _ h in
      let (u, checked, h) = >>=-eq-ok (as_contract (validate_state x.externals s)) _ h in
      let (_, same) =
        validate_state-IsValid x.externals s
          (as_contract-ok (validate_state x.externals s) checked) in
      let (_, done) = then-ok (validate_validated x load previous u) _ h in ok-injective done ∙ same

-- ===== src/Common/Actions.antt =====
-- Actions on the world: a value or the error that was raised, and the world that is left.
use mathlib.Core.Path.{◌≡◌, refl}
use mathlib.Core.Logic.{◌⊎◌, inl, inr}
use auto_code.Common.Results.{Result, ok, err}

abbrev pub Action : Type 0 → Type 0 → Type 0 → Type 0
Action E W A = W → Result E A × W

module _ {E W : Type 0} where
  -- The rest of an action, after a first part that returned or raised.
  unfoldable pub proceed : {A B : Type 0} → (A → Action E W B) → Result E A × W → Result E B × W
  proceed next (ok a, w) = next a w
  proceed next (err e, w) = (err e, w)

  infixl 5 ◌>>=◌
  unfoldable pub ◌>>=◌ : {A B : Type 0} → Action E W A → (A → Action E W B) → Action E W B
  unfolding proceed
  (first >>= next) w = proceed next (first w)

  abbrev pub returned : {A : Type 0} → Result E A → Action E W A
  returned r w = (r, w)

  -- The rest of an action whose first part stands in a `try` that catches everything.
  unfoldable pub resume :
      {A B : Type 0} → (A → Action E W B) → Action E W B → Result E A × W → Result E B × W
  resume next caught (ok a, w) = next a w
  resume next caught (err e, w) = caught w

  unfoldable pub attempt :
      {A B : Type 0} → Action E W A → (A → Action E W B) → Action E W B → Action E W B
  unfolding resume
  attempt first next caught w = resume next caught (first w)

  proceed-ok :
      {A B : Type 0} (next : A → Action E W B) (p : Result E A × W) {b : B} {w' : W}
      → proceed next p ≡ (ok b, w')
      → (a : A) × (v : W) × (p ≡ (ok a, v)) × (next a v ≡ (ok b, w'))
  unfolding proceed
  proceed-ok next (ok a, v) h = (a, v, refl, h)
  proceed-ok next (err e, v) h = absurd (cc)

  -- An action that returns passed its first part.
  pub bind-ok :
      {A B : Type 0} (first : Action E W A) (next : A → Action E W B) (w : W) {b : B} {w' : W}
      → (first >>= next) w ≡ (ok b, w')
      → (a : A) × (v : W) × (first w ≡ (ok a, v)) × (next a v ≡ (ok b, w'))
  unfolding ◌>>=◌
  bind-ok first next w h = proceed-ok next (first w) h

  resume-ok :
      {A B : Type 0} (next : A → Action E W B) (caught : Action E W B) (p : Result E A × W) {b : B}
      {w' : W}
      → resume next caught p ≡ (ok b, w')
      → ((a : A) × (v : W) × (p ≡ (ok a, v)) × (next a v ≡ (ok b, w')))
        ⊎ ((v : W) × (caught v ≡ (ok b, w')))
  unfolding resume
  resume-ok next caught (ok a, v) h = inl (a, v, refl, h)
  resume-ok next caught (err e, v) h = inr (v, h)

  -- A `try` that ends in a value passed its first part, or the handler gave the value.
  pub attempt-ok :
      {A B : Type 0} (first : Action E W A) (next : A → Action E W B) (caught : Action E W B)
      (w : W) {b : B} {w' : W}
      → attempt first next caught w ≡ (ok b, w')
      → ((a : A) × (v : W) × (first w ≡ (ok a, v)) × (next a v ≡ (ok b, w')))
        ⊎ ((v : W) × (caught v ≡ (ok b, w')))
  unfolding attempt
  attempt-ok first next caught w h = resume-ok next caught (first w) h

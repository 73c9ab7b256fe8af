-- ===== src/Common/Results.antt =====
-- A value, or the error that was raised instead.
use mathlib.Core.Path.{◌≡◌, refl}
use mathlib.Core.Bool.{Bool, true, false}
use mathlib.Core.List.{List, [], ◌∷◌}

pub data Result {ℓ} (E A : Type ℓ) : Type ℓ where
  ok : A → Result E A
  err : E → Result E A

module _ {ℓ} {E A B : Type ℓ} where
  infixl 5 ◌>>=◌
  abbrev pub ◌>>=◌ : Result E A → (A → Result E B) → Result E B
  err raised >>= next = err raised
  ok value >>= next = next value

  -- A chain that succeeds passed its first part.
  pub >>=-eq-ok :
      (first : Result E A) (next : A → Result E B) {result : B}
      → (first >>= next) ≡ ok result
      → (value : A) × (first ≡ ok value) × (next value ≡ ok result)
  >>=-eq-ok (err raised) next h = cc
  >>=-eq-ok (ok value) next h = (value, refl, h)

module _ {E : Type 0} where
  -- `if not test: raise e`
  abbrev pub guard : Bool → E → Result E (Unit {0})
  guard false e = err e
  guard true e = ok tt

  infixl 5 ◌>>◌
  abbrev pub ◌>>◌ : {B : Type 0} → Result E (Unit {0}) → Result E B → Result E B
  checked >> next = checked >>= λ _. next

-- A chain of checks, each with the error that it raises.
unfoldable pub first_error : {E : Type 0} → List (Bool × E) → Result E (Unit {0})
first_error [] = ok tt
first_error ((test, e) ∷ rest) = guard test e >> first_error rest

-- Every check of a chain passes.
abbrev pub AllPass : {E : Type 0} → List (Bool × E) → Type 0
AllPass [] = Unit {0}
AllPass ((test, e) ∷ rest) = (test ≡ true) × AllPass rest

pub first_error-AllPass :
    {E : Type 0} (checks : List (Bool × E)) → first_error checks ≡ ok tt → AllPass checks
unfolding first_error
first_error-AllPass [] h = tt
first_error-AllPass ((true, e) ∷ rest) h = (refl, first_error-AllPass rest h)
first_error-AllPass ((false, e) ∷ rest) h = absurd (cc)

pub AllPass-first_error :
    {E : Type 0} (checks : List (Bool × E)) → AllPass checks → first_error checks ≡ ok tt
unfolding first_error
AllPass-first_error [] h = refl
AllPass-first_error ((true, e) ∷ rest) h = AllPass-first_error rest h.1
AllPass-first_error ((false, e) ∷ rest) h = absurd (cc (h.0))

pub guard-ok : {E : Type 0} (b : Bool) (e : E) → guard b e ≡ ok tt → b ≡ true
guard-ok true e h = refl
guard-ok false e h = absurd (cc)

abbrev pub returning : {E A : Type 0} → A → Result E A
returning a = ok a

pub ok-injective : {E A : Type 0} {a b : A} → returning {E = E} a ≡ ok b → b ≡ a
ok-injective h = cc

-- A sequence that returns passed its check.
pub then-ok :
    {E A : Type 0} (m : Result E (Unit {0})) (k : Result E A) {a : A}
    → (m >> k) ≡ ok a
    → (m ≡ ok tt) × (k ≡ ok a)
then-ok (ok tt) k h = (refl, h)
then-ok (err e) k h = absurd (cc)

-- ===== src/Common/Tests.antt =====
-- Boolean tests: Python's comparisons on numbers, texts and enumeration members, the conditional, and
-- lemmas on these.
use Prim.Native.Nat.{ℕ, compare, Ordering}
use Prim.Native.String.{String}
use mathlib.Core.Path.{sym, ◌∙◌, ◌≡◌, refl}
use mathlib.Core.Logic.{◌↔◌, ◌⊎◌, inl, inr}
use mathlib.Core.Bool.{false≢true, Bool, true, false, ◌&&◌}
use mathlib.Core.Option.{Option, none, some}
use native.Mathlib.Omega.{arith}
use text.Mathlib.Text.{◌==◌ as text_eq}
use text.Mathlib.TextEquality.{eq_iff}

abbrev pub ltb : ℕ → ℕ → Bool
ltb a b = elim (compare a b) [ Ordering.lt ↦ true | _ ↦ false ]

abbrev pub leb : ℕ → ℕ → Bool
leb a b = elim (compare a b) [ Ordering.gt ↦ false | _ ↦ true ]

abbrev pub num_eq : ℕ → ℕ → Bool
num_eq a b = elim (compare a b) [ Ordering.eq ↦ true | _ ↦ false ]

infix 1 if◌then◌else◌
abbrev pub if◌then◌else◌ {ℓ} : {A : Type ℓ} → Bool → A → A → A
if true then x else y = x
if false then x else y = y

-- Equality of the values of a type, as a test that agrees with `≡`.
pub record Eq {ℓ} (A : Type ℓ) : Type ℓ where
  pub beq : A → A → Bool
  pub beq_iff : (x y : A) → (beq x y ≡ true) ↔ (x ≡ y)

module _ {ℓ} {A : Type ℓ} ⦃e : Eq A⦄ where
  infix 50 ◌==◌
  abbrev pub ◌==◌ : A → A → Bool
  ◌==◌ = e.beq

pub num_eq_iff : (a b : ℕ) → (num_eq a b ≡ true) ↔ (a ≡ b)
num_eq_iff a b = ground arith

instance abbrev pub num_Eq : Eq ℕ
num_Eq = record { beq = num_eq; beq_iff = num_eq_iff }

instance abbrev pub text_Eq : Eq String
text_Eq = record { beq = text_eq; beq_iff = eq_iff }

abbrev pub decided {ℓ} : {P : Type ℓ} → Dec P → Bool
decided (yes _) = true
decided (no _) = false

module _ {ℓ} {A : Type ℓ} where
  pub decided_iff : (d : Discrete A) (a b : A) → (decided (d a b) ≡ true) ↔ (a ≡ b)
  decided_iff d a b = elim (d a b) as (λ x. (decided x ≡ true) ↔ (a ≡ b)) [
    | yes p ↦ (λ _. p, λ _. refl)
    | no p ↦ (λ h. cc, λ h. absurd (p h))
  ]

  -- The test that a decision procedure gives.
  abbrev pub of_discrete : Discrete A → Eq A
  of_discrete d = record { beq = λ a b. decided (d a b); beq_iff = decided_iff d }

module _ {ℓ} {A : Type ℓ} ⦃e : Eq A⦄ where
  abbrev option_eq : Option A → Option A → Bool
  option_eq none none = true
  option_eq (some a) (some b) = a == b
  option_eq _ _ = false

  pub option_eq_iff : (a b : Option A) → (option_eq a b ≡ true) ↔ (a ≡ b)
  option_eq_iff none none = ground arith
  option_eq_iff none (some b) = ground arith
  option_eq_iff (some a) none = ground arith
  option_eq_iff (some a) (some b) = ground (arith, e.beq_iff a b)

  instance abbrev pub option_Eq : Eq (Option A)
  option_Eq = record { beq = option_eq; beq_iff = option_eq_iff }

pub Bool-cases : (b : Bool) → (b ≡ true) ⊎ (b ≡ false)
Bool-cases true = inl refl
Bool-cases false = inr refl

pub Option-cases {ℓ} : {A : Type ℓ} (o : Option A) → (o ≡ none) ⊎ ((a : A) × (o ≡ some a))
Option-cases none = inl refl
Option-cases (some a) = inr (a, refl)

-- `x is not None`
abbrev pub is_some {ℓ} : {A : Type ℓ} → Option A → Bool
is_some none = false
is_some (some _) = true

pub ruleset test_laws = (num_eq_iff, decided_iff)

-- Equality of texts is decidable.
unfoldable pub String-discrete : Discrete String
String-discrete s t = elim (Bool-cases (text_eq s t)) [
  | inl same ↦ yes ((eq_iff s t).0 same)
  | inr other ↦ no (λ e. absurd (false≢true (sym other ∙ (eq_iff s t).1 e)))
]

pub and-true : (a b : Bool) → (a && b) ≡ true → (a ≡ true) × (b ≡ true)
and-true true b h = (refl, h)
and-true false b h = absurd (cc)

pub and_intro : (a b : Bool) → a ≡ true → b ≡ true → (a && b) ≡ true
and_intro true b ha hb = hb
and_intro false b ha hb = absurd (cc)

pub and_three : (a b c : Bool) → (a && b && c) ≡ true → (a ≡ true) × (b ≡ true) × (c ≡ true)
and_three a b c h = let (ab, c) = and-true (a && b) c h in let (a, b) = and-true a b ab in (a, b, c)

-- ===== src/Common/Sequences.antt =====
-- Equality of lists and of pairs, as Python compares tuples.
use mathlib.Core.Bool.{Bool, true, false, ◌&&◌}
use mathlib.Core.List.{List, [], ◌∷◌}
use mathlib.Core.Path.{◌≡◌, refl, subst}
use auto_code.Common.Tests.{Eq, ◌==◌, and-true, and_intro}

module _ {ℓ} {A : Type ℓ} ⦃e : Eq A⦄ where
  abbrev pub list_eq : List A → List A → Bool
  list_eq [] [] = true
  list_eq [] (_ ∷ _) = false
  list_eq (_ ∷ _) [] = false
  list_eq (a ∷ more) (b ∷ others) = a == b && list_eq more others

  pub list_eq_same : (xs : List A) → list_eq xs xs ≡ true
  list_eq_same [] = refl
  list_eq_same (a ∷ more) =
      and_intro (a == a) (list_eq more more) ((e.beq_iff a a).1 refl) (list_eq_same more)

  pub list_eq_path : (xs ys : List A) → list_eq xs ys ≡ true → xs ≡ ys
  list_eq_path [] [] h = refl
  list_eq_path [] (b ∷ others) h = absurd (cc)
  list_eq_path (a ∷ more) [] h = absurd (cc)
  list_eq_path (a ∷ more) (b ∷ others) h =
      let (here, rest) = and-true (a == b) (list_eq more others) h in
      let first : a ≡ b = (e.beq_iff a b).0 here in
      let later : more ≡ others = list_eq_path more others rest in cc

  instance abbrev pub list_Eq : Eq (List A)
  list_Eq = record {
    beq = list_eq;
    beq_iff =
        λ xs ys. (list_eq_path xs ys, λ h. subst (λ zs. list_eq xs zs ≡ true) h (list_eq_same xs));
  }

module _ {A B : Type 0} ⦃e : Eq A⦄ ⦃f : Eq B⦄ where
  abbrev pub pair_eq : A × B → A × B → Bool
  pair_eq (a, b) (c, d) = a == c && b == d

  pub pair_eq_path : (p q : A × B) → pair_eq p q ≡ true → p ≡ q
  pair_eq_path (a, b) (c, d) h =
      let (here, rest) = and-true (a == c) (b == d) h in
      let first : a ≡ c = (e.beq_iff a c).0 here in
      let second : b ≡ d = (f.beq_iff b d).0 rest in cc

  pub pair_eq_same : (p : A × B) → pair_eq p p ≡ true
  pair_eq_same (a, b) =
      and_intro (a == a) (b == b) ((e.beq_iff a a).1 refl) ((f.beq_iff b b).1 refl)

  instance abbrev pub pair_Eq : Eq (A × B)
  pair_Eq = record {
    beq = pair_eq;
    beq_iff = λ p q. (pair_eq_path p q, λ h. subst (λ r. pair_eq p r ≡ true) h (pair_eq_same p));
  }

-- ===== src/Manifests/Denied.antt =====
-- What it means that a path overlaps no denied path, and that it lies under a root.
use mathlib.Core.List.{Memᴰ}
use mathlib.Core.Path.{subst}
use auto_code.Common.{
  ℕ, String, Bool, true, false, ◌||◌, List, [], ◌∷◌, ◌++◌, any, ◌==◌, text_Eq, num_Eq, ◌≡◌, refl,
  ◌∙◌, sym, ap, ◌⊎◌, inl, inr, and-true, and_intro,
}
use auto_code.Manifests.{under, overlaps_policy}
use auto_code.State.Identifiers.{codes}
use auto_code.State.Validation.{is_prefix}

pub or-false : (a b : Bool) → (a || b) ≡ false → (a ≡ false) × (b ≡ false)
or-false true b h = absurd (cc)
or-false false b h = (refl, h)

or-cases : (a b : Bool) → (a || b) ≡ true → (a ≡ true) ⊎ (b ≡ true)
or-cases true b h = inl refl
or-cases false b h = inr h

or_right : (a b : Bool) → b ≡ true → (a || b) ≡ true
or_right true b h = refl
or_right false b h = h

is_prefix-append : (old rest : List ℕ) → is_prefix old (old ++ rest) ≡ true
unfolding is_prefix
is_prefix-append [] rest = refl
is_prefix-append (a ∷ old) rest =
    and_intro (a == a) (is_prefix old (old ++ rest)) ((num_Eq.beq_iff a a).1 refl)
      (is_prefix-append old rest)

is_prefix-rest :
    (old new : List ℕ) → is_prefix old new ≡ true → (rest : List ℕ) × (new ≡ old ++ rest)
unfolding is_prefix
is_prefix-rest [] new h = (new, refl)
is_prefix-rest (a ∷ old) [] h = absurd (cc)
is_prefix-rest (a ∷ old) (b ∷ new) h =
    let (here, more) = and-true (b == a) (is_prefix old new) h in
    let (rest, same) = is_prefix-rest old new more in
    let first : b ≡ a = (num_Eq.beq_iff b a).0 here in (rest, cc)

-- A path is a root, or goes on from it after a slash.
abbrev pub Under : String → String → Type 0
Under path root =
    (path ≡ root) ⊎ ((rest : List ℕ) × (codes path ≡ (codes root ++ (b'/' ∷ [])) ++ rest))

pub under-Under : (path root : String) → under path root ≡ true → Under path root
unfolding under
under-Under path root h =
    elim (or-cases (path == root) (is_prefix (codes root ++ (b'/' ∷ [])) (codes path)) h) [
      | inl same ↦ inl ((text_Eq.beq_iff path root).0 same)
      | inr below ↦ inr (is_prefix-rest (codes root ++ (b'/' ∷ [])) (codes path) below)
    ]

Under-under : (path root : String) → Under path root → under path root ≡ true
unfolding under
Under-under path root (inl same) =
    ap (λ b. b || is_prefix (codes root ++ (b'/' ∷ [])) (codes path))
      ((text_Eq.beq_iff path root).1 same)
Under-under path root (inr (rest, below)) =
    or_right (path == root) (is_prefix (codes root ++ (b'/' ∷ [])) (codes path)) (
      ap (is_prefix (codes root ++ (b'/' ∷ []))) below
      ∙ is_prefix-append (codes root ++ (b'/' ∷ [])) rest)

not-Under : (path root : String) → under path root ≡ false → Under path root → ⊥
not-Under path root h below = differ (sym (Under-under path root below) ∙ h)
  where
    differ : true ≡ false → ⊥
    differ e = cc

-- Neither lies under the other.
abbrev pub Apart : String → String → Type 0
Apart path root = (Under path root → ⊥) × (Under root path → ⊥)

pub overlaps_policy-Apart :
    (path : String) (roots : List String) (root : String)
    → overlaps_policy path roots ≡ false
    → Memᴰ root roots
    → Apart path root
unfolding overlaps_policy
overlaps_policy-Apart path [] root h there = elim there [ ]
overlaps_policy-Apart path (first ∷ rest) root h (Memᴰ.head same) =
    let (here, _) = or-false (under path first || under first path) (overlaps_policy path rest) h in
    let (below, above) = or-false (under path first) (under first path) here in
    subst (Apart path) (sym same) (not-Under path first below, not-Under first path above)
overlaps_policy-Apart path (first ∷ rest) root h (Memᴰ.tail there) =
    let (_, later) =
      or-false (under path first || under first path) (overlaps_policy path rest) h in
    overlaps_policy-Apart path rest root later there

pub any-Under :
    (path : String) (roots : List String)
    → any (under path) roots ≡ true
    → (root : String) × Memᴰ root roots × Under path root
any-Under path [] h = absurd (cc)
any-Under path (first ∷ rest) h = elim (or-cases (under path first) (any (under path) rest) h) [
  | inl here ↦ (first, Memᴰ.head refl, under-Under path first here)
  | inr more ↦
      (let (root, there, below) = any-Under path rest more in (root, Memᴰ.tail there, below))
]

-- ===== src/Router/Graph.antt =====
-- `_descendants` is reachability in the stage graph.
use auto_code.Common.{
  ℕ, zero, suc, Bool, true, not, ◌&&◌, ◌||◌, List, [], ◌∷◌, ◌++◌, any, keep, contains, ◌==◌, ◌≡◌,
  refl, arith, Bool-cases, inl, inr, ◌↔◌,
}
use auto_code.Contracts.Enums.{Stage, Stage_Eq, every_stage, for_every_stage, for_every_stage-at}
use auto_code.Router.{dependencies, is_added, grow, descendants, is_descendant}

-- A stage that requires the owner, at once or through others.
pub data Requires (owner : Stage) : Stage → Type 0 where
  itself : Requires owner owner
  through :
      {stage r : Stage}
      → contains r (dependencies stage) ≡ true
      → Requires owner r
      → Requires owner stage

abbrev AllRequire : Stage → List Stage → Type 0
AllRequire owner [] = Unit {0}
AllRequire owner (stage ∷ rest) = Requires owner stage × AllRequire owner rest

AllRequire-contains :
    (owner : Stage) (l : List Stage) (stage : Stage)
    → AllRequire owner l
    → contains stage l ≡ true
    → Requires owner stage
AllRequire-contains owner [] stage h c = absurd (cc)
AllRequire-contains owner (a ∷ l) stage h c = elim (Bool-cases (stage == a)) [
  | inl same ↦ rw ((Stage_Eq.beq_iff stage a).0 same) h.0
  | inr other ↦ AllRequire-contains owner l stage h.1 (ground arith)
]

AllRequire-append :
    (owner : Stage) (l m : List Stage)
    → AllRequire owner l
    → AllRequire owner m
    → AllRequire owner (l ++ m)
AllRequire-append owner [] m h k = k
AllRequire-append owner (a ∷ l) m h k = (h.0, AllRequire-append owner l m h.1 k)

any-contains :
    (l deps : List Stage)
    → any (λ r. contains r l) deps ≡ true
    → (r : Stage) × (contains r deps ≡ true) × (contains r l ≡ true)
any-contains l [] h = absurd (cc)
any-contains l (d ∷ deps) h = elim (Bool-cases (contains d l)) [
  | inl hit ↦ (d, ground (arith, Stage_Eq.beq_iff d d), hit)
  | inr miss ↦ let (r, mem, hit) = any-contains l deps (ground arith) in (r, ground arith, hit)
]

-- What a round adds requires the owner.
AllRequire-keep :
    (owner : Stage) (l candidates : List Stage)
    → AllRequire owner l
    → AllRequire owner (keep (is_added l) candidates)
unfolding is_added
AllRequire-keep owner l [] h = tt
AllRequire-keep owner l (c ∷ rest) h = elim (Bool-cases (is_added l c)) [
  | inr out ↦ rw out (AllRequire-keep owner l rest h)
  | inl added ↦
      let (r, mem, hit) = any-contains l (dependencies c) (ground arith) in
      rw added (through mem (AllRequire-contains owner l r h hit), AllRequire-keep owner l rest h)
]

AllRequire-grow :
    (fuel : ℕ) (owner : Stage) (l : List Stage)
    → AllRequire owner l
    → AllRequire owner (grow fuel l)
unfolding grow
AllRequire-grow zero owner l h = h
AllRequire-grow (suc fuel) owner l h =
    go (λ m k. AllRequire-grow fuel owner m k) (keep (is_added l) every_stage)
      (AllRequire-keep owner l every_stage h)
  where
    go :
        ((m : List Stage) → AllRequire owner m → AllRequire owner (grow fuel m))
        → (added : List Stage) → AllRequire owner added
        → AllRequire owner (elim added [ [] ↦ l | a ∷ more ↦ grow fuel (l ++ (a ∷ more)) ])
    go again [] k = h
    go again (a ∷ more) k = again (l ++ a ∷ more) (AllRequire-append owner l (a ∷ more) h k)

-- The fuel suffices: no stage outside the result requires one inside it.
closed_table :
    for_every_stage (λ owner. for_every_stage (λ stage. for_every_stage (λ r.
      not (contains r (dependencies stage) && is_descendant owner r) || is_descendant owner stage)))
    ≡ true
unfolding for_every_stage descendants
closed_table = refl

own_table : for_every_stage (λ owner. is_descendant owner owner) ≡ true
unfolding for_every_stage descendants
own_table = refl

modus_ponens : (a b c : Bool) → (not (a && b) || c) ≡ true → a ≡ true → b ≡ true → c ≡ true
modus_ponens a b c h p q = ground arith

pub descendants-closed :
    (owner stage r : Stage)
    → contains r (dependencies stage) ≡ true
    → is_descendant owner r ≡ true
    → is_descendant owner stage ≡ true
descendants-closed owner stage r dep inside =
    let at_owner = for_every_stage-at _ closed_table owner in
    let at_stage = for_every_stage-at _ at_owner stage in
    modus_ponens _ _ _ (for_every_stage-at _ at_stage r) dep inside

Requires-descendants :
    {owner stage : Stage} → Requires owner stage → is_descendant owner stage ≡ true
Requires-descendants {owner} itself = for_every_stage-at _ own_table owner
Requires-descendants {owner} {stage} (through {r = r} dep q) =
    descendants-closed owner stage r dep (Requires-descendants q)

-- A stage is in `descendants owner` exactly if it is the owner or requires it, at once or through
-- other stages.
pub descendants-Requires :
    (owner stage : Stage) → (contains stage (descendants owner) ≡ true) ↔ Requires owner stage
unfolding descendants
descendants-Requires owner stage = (
  AllRequire-contains owner (descendants owner) stage
      (AllRequire-grow 10 owner (owner ∷ []) (itself, tt)),
  λ q. Requires-descendants q,
)

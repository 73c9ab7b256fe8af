-- ===== src/Contracts/Effects/Protocol.antt =====
-- What `validate_effect_ledger` accepts: sequences that grow, and for each effect an intention, then
-- rounds of an invocation and its observation, then at most one reconciliation.
use mathlib.Core.Path.{subst}
use auto_code.Common.{
  ℕ, ◌<◌, String, true, Option, none, some, List, [], ◌∷◌, ltb, ◌==◌, text_Eq, ap, if◌then◌else◌,
  Result, ok, >>=-eq-ok, ◌>>=◌, ◌≡◌, refl, arith, Bool-cases, inl, inr, sym, ◌∙◌,
}
use auto_code.Contracts.Effects.{
  EffectEvent, EffectPayload, intention, invocation, observation, reconciliation, Phase, ready,
  awaiting_observation, reconciled, LedgerError, Intentions, Phases, lookup, insert, lookup-insert,
  next_phase, note_intention, scan_ledger, validate_effect_ledger,
}

-- The payloads of one effect, in the ledger's order.
abbrev pub payloads : String → List EffectEvent → List EffectPayload
payloads id [] = []
payloads id (e ∷ rest) =
    let later = payloads id rest in if e.effect_id == id then e.payload ∷ later else later

-- After the intention.
pub data Rounds : List EffectPayload → Phase → Type 0 where
  open_for_calls : Rounds [] ready
  called : (w : ℕ) → Rounds (invocation w ∷ []) awaiting_observation
  round :
      {l : List EffectPayload} {q : Phase} (w : ℕ) (o : _)
      → Rounds l q
      → Rounds (invocation w ∷ observation o ∷ l) q
  closed : (r : _) → Rounds (reconciliation r ∷ []) reconciled

pub data Life : List EffectPayload → Option Phase → Type 0 where
  unknown : Life [] none
  begun :
      {l : List EffectPayload} {q : Phase} (i : _) → Rounds l q → Life (intention i ∷ l) (some q)

-- Each sequence is above the one before it.
abbrev pub Increasing : ℕ → List EffectEvent → Type 0
Increasing previous [] = Unit {0}
Increasing previous (e ∷ rest) = (previous < e.sequence) × Increasing e.sequence rest

-- The phases that one effect passes, from the phase that it is in.
follow : Option Phase → List EffectPayload → Result LedgerError (Option Phase)
follow q [] = ok q
follow q (p ∷ rest) = do q' ← next_phase p q; follow (some q') rest

follow-reconciled :
    (l : List EffectPayload) {q : Option Phase} → follow (some reconciled) l ≡ ok q → l ≡ []
unfolding follow next_phase
follow-reconciled [] h = refl
follow-reconciled (intention i ∷ l) h = cc
follow-reconciled (invocation w ∷ l) h = cc
follow-reconciled (observation o ∷ l) h = cc
follow-reconciled (reconciliation r ∷ l) h = cc

-- What follows an intention is a sequence of rounds.
follow-Rounds :
    (l : List EffectPayload) (q : Option Phase)
    → follow (some ready) l ≡ ok q
    → (q' : Phase) × (q ≡ some q') × Rounds l q'
unfolding follow next_phase
follow-Rounds [] q h = (ready, ground arith, open_for_calls)
follow-Rounds (intention i ∷ l) q h = absurd (cc)
follow-Rounds (observation o ∷ l) q h = absurd (cc)
follow-Rounds (reconciliation r ∷ []) q h = (reconciled, ground arith, closed r)
follow-Rounds (reconciliation r ∷ p ∷ l) q h = absurd (cc (follow-reconciled (p ∷ l) h))
follow-Rounds (invocation w ∷ []) q h = (awaiting_observation, ground arith, called w)
follow-Rounds (invocation w ∷ intention i ∷ l) q h = absurd (cc)
follow-Rounds (invocation w ∷ invocation v ∷ l) q h = absurd (cc)
follow-Rounds (invocation w ∷ reconciliation r ∷ l) q h = absurd (cc)
follow-Rounds (invocation w ∷ observation o ∷ l) q h =
    let (q', e, r) = follow-Rounds l q h in (q', e, round w o r)

follow-Life : (l : List EffectPayload) (q : Option Phase) → follow none l ≡ ok q → Life l q
unfolding follow next_phase
follow-Life [] none h = unknown
follow-Life [] (some q) h = absurd (cc)
follow-Life (intention i ∷ l) q h = let (q', e, r) = follow-Rounds l q h in rw e (begun i r)
follow-Life (invocation w ∷ l) q h = absurd (cc)
follow-Life (observation o ∷ l) q h = absurd (cc)
follow-Life (reconciliation r ∷ l) q h = absurd (cc)

Rounds-follow :
    {l : List EffectPayload} {q : Phase} → Rounds l q → follow (some ready) l ≡ ok (some q)
unfolding follow next_phase
Rounds-follow open_for_calls = refl
Rounds-follow (called w) = refl
Rounds-follow (round w o r) = Rounds-follow r
Rounds-follow (closed r) = refl

Life-follow : {l : List EffectPayload} {q : Option Phase} → Life l q → follow none l ≡ ok q
unfolding follow next_phase
Life-follow unknown = refl
Life-follow (begun i r) = Rounds-follow r

module _ (found : Intentions) (phases : Phases) (previous : ℕ) (e : EffectEvent) where
  -- A scan that succeeds made its first step, and went on from there.
  scan-step :
      (rest : List EffectEvent) {r : Intentions × Phases}
      → scan_ledger found phases previous (e ∷ rest) ≡ ok r
      → (q : Phase) × (previous < e.sequence)
        × (next_phase e.payload (lookup e.effect_id phases) ≡ ok q)
        × (scan_ledger
              (note_intention e e.payload found)
              (insert e.effect_id q phases)
              e.sequence
              rest
            ≡ ok r)
  unfolding scan_ledger
  scan-step rest h = elim (Bool-cases (ltb previous e.sequence)) [
    | inr late ↦ absurd (ground arith)
    | inl grows ↦
        let (q, eq, go) =
          >>=-eq-ok (next_phase e.payload (lookup e.effect_id phases)) _ (rw grows at h) in
        (q, ground arith, eq, go)
  ]

  scan-next :
      (rest : List EffectEvent) (q : Phase)
      → previous < e.sequence
      → next_phase e.payload (lookup e.effect_id phases) ≡ ok q
      → scan_ledger found phases previous (e ∷ rest)
        ≡ scan_ledger
            (note_intention e e.payload found)
            (insert e.effect_id q phases)
            e.sequence
            rest
  unfolding scan_ledger
  scan-next rest q grows eq = ground arith

-- One step of the scan is one step of its own effect, and none of any other.
follow-step :
    (phases : Phases) (e : EffectEvent) (rest : List EffectEvent) (q : Phase) (id : String)
    → next_phase e.payload (lookup e.effect_id phases) ≡ ok q
    → follow (lookup id phases) (payloads id (e ∷ rest))
      ≡ follow (lookup id (insert e.effect_id q phases)) (payloads id rest)
unfolding follow
follow-step phases e rest q id eq =
    let hit : (e.effect_id == id) ≡ true → e.effect_id ≡ id = (text_Eq.beq_iff e.effect_id id).0 in
    elim (Bool-cases (e.effect_id == id)) [
      | inl same ↦
          rw (lookup-insert e.effect_id id q phases, same)
            (ap (λ p. p >>= λ q'. follow (some q') (payloads id rest))
              (subst (λ x. next_phase e.payload (lookup x phases) ≡ ok q) (hit same) eq))
      | inr other ↦ rw (lookup-insert e.effect_id id q phases, other)
    ]

-- The scan takes each effect along its own payloads, whatever the others do.
scan-follow :
    (found : Intentions) (phases : Phases) (previous : ℕ) (ledger : List EffectEvent)
    {r : Intentions × Phases}
    → scan_ledger found phases previous ledger ≡ ok r
    → (id : String) → follow (lookup id phases) (payloads id ledger) ≡ ok (lookup id r.1)
unfolding scan_ledger follow
scan-follow found phases previous [] h id = ground arith
scan-follow found phases previous (e ∷ rest) h id =
    let (q, grows, eq, go) = scan-step found phases previous e rest h in
    follow-step phases e rest q id eq
    ∙ scan-follow (note_intention e e.payload found) (insert e.effect_id q phases) e.sequence rest
        go id

scan-Increasing :
    (found : Intentions) (phases : Phases) (previous : ℕ) (ledger : List EffectEvent)
    {r : Intentions × Phases}
    → scan_ledger found phases previous ledger ≡ ok r
    → Increasing previous ledger
scan-Increasing found phases previous [] h = tt
scan-Increasing found phases previous (e ∷ rest) h =
    let (q, grows, eq, go) = scan-step found phases previous e rest h in
    (
      grows,
      scan-Increasing (note_intention e e.payload found) (insert e.effect_id q phases) e.sequence
          rest go,
    )

follow-start :
    (p : EffectPayload) (q : Option Phase) (l : List EffectPayload) {q' : Option Phase}
    → follow q (p ∷ l) ≡ ok q'
    → (q'' : Phase) × (next_phase p q ≡ ok q'')
unfolding follow
follow-start p q l h = let (a, eq, rest) = >>=-eq-ok (next_phase p q) _ h in (a, eq)

payloads_self :
    (e : EffectEvent) (rest : List EffectEvent)
    → payloads e.effect_id (e ∷ rest) ≡ e.payload ∷ payloads e.effect_id rest
payloads_self e rest = rw ((text_Eq.beq_iff e.effect_id e.effect_id).1 refl)

abbrev Followed : Phases → List EffectEvent → Type 0
Followed phases ledger =
    (id : String) → (q : Option Phase) × (follow (lookup id phases) (payloads id ledger) ≡ ok q)

-- Conversely the scan succeeds where each effect can go along its own payloads.
follow-scan :
    (found : Intentions) (phases : Phases) (previous : ℕ) (ledger : List EffectEvent)
    → Increasing previous ledger
    → Followed phases ledger
    → (r : Intentions × Phases) × (scan_ledger found phases previous ledger ≡ ok r)
unfolding scan_ledger
follow-scan found phases previous [] grows each = ((found, phases), refl)
follow-scan found phases previous (e ∷ rest) grows each =
    let own = each e.effect_id in
    let (q, eq) =
      follow-start e.payload (lookup e.effect_id phases) (payloads e.effect_id rest) {q' = own.0}
        (rw (payloads_self e rest) at own.1) in
    let (r, go) =
      follow-scan (note_intention e e.payload found) (insert e.effect_id q phases) e.sequence rest
        grows.1 (λ id. ((each id).0, sym (follow-step phases e rest q id eq) ∙ (each id).1)) in
    (r, scan-next found phases previous e rest q grows.0 eq ∙ go)

-- A ledger that validates has growing sequences, and every effect's events, in order, are a life
-- (nothing; or an intention, then pairs of an invocation and an observation, then at most one
-- invocation or one reconciliation) that ends in the phase that the validator reports for it.
pub validate_effect_ledger-Life :
    (ledger : List EffectEvent) {r : Intentions × Phases}
    → validate_effect_ledger ledger ≡ ok r
    → Increasing 0 ledger × ((id : String) → Life (payloads id ledger) (lookup id r.1))
unfolding validate_effect_ledger lookup
validate_effect_ledger-Life ledger h = (
  scan-Increasing [] [] 0 ledger h,
  λ id. follow-Life (payloads id ledger) _ (scan-follow [] [] 0 ledger h id),
)

-- A ledger with growing sequences in which the events of every effect, in order, are a life in some
-- phase validates.
pub Life-validate_effect_ledger :
    (ledger : List EffectEvent)
    → Increasing 0 ledger
    → ((id : String) → (q : Option Phase) × Life (payloads id ledger) q)
    → (r : Intentions × Phases) × (validate_effect_ledger ledger ≡ ok r)
unfolding validate_effect_ledger lookup
Life-validate_effect_ledger ledger grows lives =
    follow-scan [] [] 0 ledger grows (λ id. ((lives id).0, Life-follow (lives id).1))

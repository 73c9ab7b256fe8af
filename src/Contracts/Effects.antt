-- ===== src/Contracts/Effects.antt =====
-- src/auto_code/contracts.py: the events of the effect ledger and `RunState.validate_effect_ledger`.
-- A timestamp is an instant, counted from any origin. `wait_seconds` is a float that is at least 0;
-- here it is a number of units of any fixed size, and the code only compares it with 0.
pub mod Protocol
use auto_code.Common.{
  ℕ, String, Option, none, some, List, [], ◌∷◌, ltb, ◌==◌, text_Eq, if◌then◌else◌, Result, ok, err,
  ◌>>=◌, ◌≡◌, refl, arith,
}
use auto_code.Contracts.Enums.{EffectOutcome}
use auto_code.Contracts.Evidence.{EvidenceRef}

pub record EffectIntentionPayload : Type 0 where
  pub operation : String
  pub target : String
  pub request_hash : String

pub record EffectObservationPayload : Type 0 where
  pub outcome : EffectOutcome
  pub external_revision : Option String
  pub evidence_refs : List EvidenceRef

pub record EffectReconciliationPayload : Type 0 where
  pub outcome : EffectOutcome
  pub evidence_refs : List EvidenceRef
  pub receipt_hash : Option String

-- The payload tells the four event classes apart.
pub data EffectPayload : Type 0 where
  intention : EffectIntentionPayload → EffectPayload
  invocation : (wait_seconds : ℕ) → EffectPayload
  observation : EffectObservationPayload → EffectPayload
  reconciliation : EffectReconciliationPayload → EffectPayload

pub record EffectEvent : Type 0 where
  pub effect_id : String
  pub sequence : ℕ
  pub timestamp : ℕ
  pub payload : EffectPayload

-- An event of the intention class, as `isinstance` gives it.
pub record EffectIntention : Type 0 where
  pub effect_id : String
  pub sequence : ℕ
  pub timestamp : ℕ
  pub payload : EffectIntentionPayload

pub data Phase : Type 0 where
  ready awaiting_observation reconciled : Phase

pub data LedgerError : Type 0 where
  sequence_not_increasing second_intention invocation_not_ready : LedgerError
  observation_without_invocation reconciliation_incomplete second_reconciliation : LedgerError

-- A Python dict with text keys, as its entries: a new key is appended, an old one is overwritten.
module _ {A : Type 0} where
  unfoldable pub lookup : String → List (String × A) → Option A
  lookup key [] = none
  lookup key ((k, value) ∷ rest) =
      let later = lookup key rest in if k == key then some value else later

  unfoldable pub insert : String → A → List (String × A) → List (String × A)
  insert key new [] = (key, new) ∷ []
  insert key new ((k, old) ∷ rest) =
      let later = insert key new rest in if k == key then (k, new) ∷ rest else (k, old) ∷ later

  -- After an insertion, the key has the new value, and the other keys have theirs.
  pub lookup-insert :
      (key other : String) (new : A) (entries : List (String × A))
      → lookup other (insert key new entries)
        ≡ (if key == other then some new else lookup other entries)
  unfolding insert lookup
  lookup-insert key other new [] = refl
  lookup-insert key other new ((k, old) ∷ rest) =
      let same = λ (a b : String). text_Eq.beq_iff a b in
      ground (arith, same key other, same k key, same k other, lookup-insert key other new rest)

abbrev pub Intentions : Type 0
Intentions = List (String × EffectIntention)

abbrev pub Phases : Type 0
Phases = List (String × Phase)

-- The `if` chain on the kind of an event: the phase that its effect enters.
unfoldable pub next_phase : EffectPayload → Option Phase → Result LedgerError Phase
next_phase (intention p) none = ok ready
next_phase (intention p) (some _) = err second_intention
next_phase (invocation w) (some ready) = ok awaiting_observation
next_phase (invocation w) _ = err invocation_not_ready
next_phase (observation p) (some awaiting_observation) = ok ready
next_phase (observation p) _ = err observation_without_invocation
next_phase (reconciliation p) (some ready) = ok reconciled
next_phase (reconciliation p) (some reconciled) = err second_reconciliation
next_phase (reconciliation p) _ = err reconciliation_incomplete

-- `intentions[event.effect_id] = event`, on an intention only.
unfoldable pub note_intention : EffectEvent → EffectPayload → Intentions → Intentions
note_intention e (intention p) found =
    insert e.effect_id
      (record {
        effect_id = e.effect_id;
        sequence = e.sequence;
        timestamp = e.timestamp;
        payload = p;
      })
      found
note_intention e _ found = found

-- The loop, from what the events so far have left.
unfoldable pub scan_ledger :
    Intentions → Phases → ℕ → List EffectEvent → Result LedgerError (Intentions × Phases)
unfolding lookup insert next_phase note_intention
scan_ledger found phases previous [] = ok (found, phases)
scan_ledger found phases previous (e ∷ rest) =
    if ltb previous e.sequence
    then (do
      phase ← next_phase e.payload (lookup e.effect_id phases)
      scan_ledger (note_intention e e.payload found) (insert e.effect_id phase phases) e.sequence
          rest)
    else err sequence_not_increasing

unfoldable pub validate_effect_ledger : List EffectEvent → Result LedgerError (Intentions × Phases)
unfolding scan_ledger
validate_effect_ledger ledger = scan_ledger [] [] 0 ledger

-- ===== src/State/Pending.antt =====
-- src/auto_code/state.py: `_require_new_pending_matches_predecessor`; src/auto_code/linear.py: the
-- state that `persist_pending` stores for a request.
use auto_code.Common.{
  ℕ, String, Bool, false, ◌&&◌, Option, none, some, List, [], ◌∷◌, ◌++◌, ◌==◌, text_Eq, num_Eq,
  option_Eq, Result, ok, ◌>>◌, guard, ◌≡◌, refl,
}
use auto_code.Contracts.Enums.{RunDisposition, RunDisposition_Eq, RunDisposition-discrete}
use auto_code.Contracts.Effects.{EffectEvent, EffectPayload, intention}
use auto_code.Contracts.Json.{Hasher}
use auto_code.Contracts.Requests.{McpActionRequest, PendingExternalRequest}
use auto_code.Contracts.Requests.Creation.{pending_of}
use auto_code.Contracts.RunState.{RunState}

-- `new[len(old):]`
unfoldable pub appended_since {ℓ} : {A : Type ℓ} → List A → List A → List A
appended_since [] new = new
appended_since (_ ∷ old) [] = []
appended_since (_ ∷ old) (_ ∷ new) = appended_since old new

pub data PendingError : Type 0 where
  pending_not_of_predecessor pending_without_intention : PendingError

-- The event is the intention of the pending request.
unfoldable pub intends : (String → String) → PendingExternalRequest → EffectEvent → Bool
intends lower p e = of_payload e.payload
  where
    of_payload : EffectPayload → Bool
    of_payload (intention i) =
        e.effect_id == p.effect_id
        && i.operation == p.operation
        && lower i.request_hash == lower p.request_hash
    of_payload _ = false

unfoldable pub is_intended : (String → String) → PendingExternalRequest → List EffectEvent → Bool
unfolding intends
is_intended lower p (e ∷ []) = intends lower p e
is_intended lower p _ = false

-- `_require_new_pending_matches_predecessor`, with the revision and the hash of the previous
-- generation, and `str.lower`.
unfoldable pub validate_new_pending :
    (String → String) → ℕ → String → RunState → RunState → Result PendingError (Unit {0})
unfolding appended_since is_intended RunDisposition-discrete
validate_new_pending lower revision state_hash previous state = check state.pending_external_request
  where
    check : Option PendingExternalRequest → Result PendingError (Unit {0})
    check none = ok tt
    check (some p) = do
      guard (p.expected_revision == some revision && p.expected_state_hash == some state_hash)
          pending_not_of_predecessor
      guard
          (state.disposition == RunDisposition.waiting_mcp
            && is_intended lower p (appended_since previous.effect_ledger state.effect_ledger))
          pending_without_intention

-- The intention that `persist_pending` appends, at a sequence number and a time.
unfoldable pub intended : ℕ → ℕ → McpActionRequest → EffectEvent
intended sequence now r = record {
  effect_id = r.effect_id;
  sequence = sequence;
  timestamp = now;
  payload =
      intention
        (record { operation = r.operation; target = r.target; request_hash = r.request_hash });
}

-- The `update` of `persist_pending`.
unfoldable pub waiting_for : Hasher → ℕ → ℕ → McpActionRequest → RunState → RunState
unfolding intended pending_of
waiting_for h sequence now r s = record s {
  disposition = RunDisposition.waiting_mcp;
  effect_ledger = s.effect_ledger ++ intended sequence now r ∷ [];
  pending_external_request = some (pending_of h r);
}

appended_since-append {ℓ} : {A : Type ℓ} (old new : List A) → appended_since old (old ++ new) ≡ new
unfolding appended_since
appended_since-append [] new = refl
appended_since-append (x ∷ old) new = appended_since-append old new

-- The state that `persist_pending` makes for a request, one bound to the revision and the hash of
-- the generation that is stored, is accepted by the store's check of a new pending request, whatever
-- the state before and the number and time of the intention.
pub waiting_for-validate_new_pending :
    (h : Hasher) (lower : String → String) (sequence now : ℕ) (r : McpActionRequest) (s : RunState)
    → validate_new_pending lower r.expected_revision r.expected_state_hash s
        (waiting_for h sequence now r s)
      ≡ ok tt
unfolding validate_new_pending waiting_for
waiting_for-validate_new_pending h lower sequence now r s = rw (
  (num_Eq.beq_iff r.expected_revision r.expected_revision).1 refl,
  (text_Eq.beq_iff r.expected_state_hash r.expected_state_hash).1 refl,
  appended_since-append s.effect_ledger (intended sequence now r ∷ []),
  (text_Eq.beq_iff r.effect_id r.effect_id).1 refl,
  (text_Eq.beq_iff r.operation r.operation).1 refl,
  (text_Eq.beq_iff (lower r.request_hash) (lower r.request_hash)).1 refl,
)

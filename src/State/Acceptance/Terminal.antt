-- ===== src/State/Acceptance/Terminal.antt =====
-- The states that end a run: what may follow one that is done or abandoned.
use mathlib.Core.Path.{subst}
use auto_code.Common.{returning, ok-injective, guard-ok, and_three, guard}
use auto_code.Common.{
  ◌+◌, String, Bool, true, false, not, Option, none, some, length, num_eq, num_eq_iff, ◌==◌, ok,
  ◌≡◌, refl, ◌∙◌, sym, ◌⊎◌, inl, inr, >>=-eq-ok,
}
use auto_code.Contracts.Bindings.{IndexReleaseBinding, IndexReleaseReceipt}
use auto_code.Contracts.Enums.{RunDisposition}
use auto_code.Contracts.Equality.{RunState_Eq}
use auto_code.Contracts.Receipts.{receipt_for, matches_release, has_release_signature}
use auto_code.Contracts.RunState.{RunState}
use auto_code.Contracts.RunState.Validation.{model_copy, validate_state, validate_state-IsValid}
use auto_code.State.Acceptance.{
  escalated, is_escalation, unchanged, is_marker, validate_unmarked, validate_done, validate_from,
  validate_after, validate_transition,
}
use auto_code.State.Acceptance.Extends.{validate_successor-ok}
use auto_code.State.Acceptance.Inversion.{
  as_contract-ok, if-ok, as_rejected-ok, validate_transition-Accepted,
}
use auto_code.State.Context.{StateGeneration, StoreContext, terminal_immutable}
use auto_code.State.Receipts.{GenerationLoader}
use auto_code.State.Validation.{
  as_contract, released, is_marker_of, is_marker_with, is_release_marker,
}

not-true : (b : Bool) → not b ≡ true → b ≡ false
not-true true h = cc
not-true false h = refl

module _ (x : StoreContext) (load : GenerationLoader) where
  -- The state `t` is the previous one with the index released under a receipt of the finalizer, for
  -- the release that the state was bound to and the hash of its generation.
  pub record Releases (previous : RunState) (state_hash : String) (t : RunState) : Type 0 where
    pub binding : IndexReleaseBinding
    pub receipt : IndexReleaseReceipt
    pub key : String
    pub key_hash : String
    pub bound : previous.finalization_index_release_binding ≡ some binding
    pub has_key : previous.finalization_public_key ≡ some key
    pub only_released : t ≡ released x receipt previous
    pub signed :
        has_release_signature x.externals.hasher x.externals.public_key_digest x.verify_ed25519
          receipt key key_hash
        ≡ true
    pub matched : matches_release receipt (receipt_for x.externals.hasher binding state_hash) ≡ true

  -- The state `t` is the previous one under human review, with one more failure.
  pub record Escalates (previous t : RunState) : Type 0 where
    pub not_released : previous.finalization_index_released ≡ false
    pub only_escalated : t ≡ escalated x load t previous
    pub one_more : length t.failure_history ≡ length previous.failure_history + 1

  unchanged-ok : (previous s : RunState) → unchanged x load previous s ≡ ok tt → s ≡ previous
  unfolding unchanged
  unchanged-ok previous s h = (RunState_Eq.beq_iff s previous).0 (
      guard-ok (s == previous) terminal_immutable
        (as_rejected-ok (guard (s == previous) terminal_immutable) h))

  validate_from-abandoned :
      (g : StateGeneration) (t : RunState)
      → validate_from x load RunDisposition.abandoned g t ≡ ok tt
      → t ≡ g.state
  unfolding validate_from
  validate_from-abandoned g t h = unchanged-ok g.state t h

  -- A state that follows an abandoned one.
  pub validate_transition-abandoned :
      (g : StateGeneration) (s : RunState) {t : RunState}
      → g.state.disposition ≡ RunDisposition.abandoned
      → validate_transition x load (some g) s ≡ ok t
      → t ≡ g.state
  unfolding validate_after
  validate_transition-abandoned g s {t} abandoned h =
      let accepted = validate_transition-Accepted x load (some g) s h in
      let (_, _, from) = validate_successor-ok x load g t accepted.after in
      validate_from-abandoned g t (subst (λ d. validate_from x load d g t ≡ ok tt) abandoned from)

  is_marker_of-Releases :
      (previous : RunState) (state_hash : String) (t : RunState) (b : IndexReleaseBinding)
      (receipt : IndexReleaseReceipt) (key key_hash : String)
      → previous.finalization_index_release_binding ≡ some b
      → previous.finalization_public_key ≡ some key
      → is_marker_of x previous state_hash t b receipt key key_hash ≡ ok true
      → Releases previous state_hash t
  unfolding is_marker_of model_copy
  is_marker_of-Releases previous state_hash t b receipt key key_hash bound has_key h =
      let (marker, made, h) =
        >>=-eq-ok (as_contract (model_copy x.externals previous (released x receipt))) _ h in
      let same =
        (validate_state-IsValid x.externals (released x receipt previous)
          (as_contract-ok (validate_state x.externals (released x receipt previous)) made)).1 in
      let (signed, is_it, matched) =
        and_three
          (has_release_signature x.externals.hasher x.externals.public_key_digest x.verify_ed25519
            receipt key key_hash)
          (t == marker) (matches_release receipt (receipt_for x.externals.hasher b state_hash))
          (sym (ok-injective h)) in
      record {
        binding = b;
        receipt = receipt;
        key = key;
        key_hash = key_hash;
        bound = bound;
        has_key = has_key;
        only_released = (RunState_Eq.beq_iff t marker).0 is_it ∙ same;
        signed = signed;
        matched = matched;
      }

  is_marker_with-Releases :
      (previous : RunState) (state_hash : String) (t : RunState) (b : Option IndexReleaseBinding)
      (receipt : Option IndexReleaseReceipt) (key key_hash : Option String)
      → previous.finalization_index_release_binding ≡ b
      → previous.finalization_public_key ≡ key
      → is_marker_with x previous state_hash t b receipt key key_hash ≡ ok true
      → Releases previous state_hash t
  unfolding is_marker_with
  is_marker_with-Releases previous state_hash t (some b) (some r) (some k) (some kh) bound key h =
      is_marker_of-Releases previous state_hash t b r k kh bound key h
  is_marker_with-Releases previous state_hash t none r k kh bound key h = absurd (cc)
  is_marker_with-Releases previous state_hash t (some b) none k kh bound key h = absurd (cc)
  is_marker_with-Releases previous state_hash t (some b) (some r) none kh bound key h = absurd (cc)
  is_marker_with-Releases previous state_hash t (some b) (some r) (some k) none bound key h =
      absurd (cc)

  is_marker-Releases :
      (g : StateGeneration) (t : RunState)
      → is_marker x load g t ≡ ok true
      → Releases g.state g.state_hash t
  unfolding is_marker is_release_marker
  is_marker-Releases g t h =
      elim (if-ok g.state.finalization_index_released (returning false)
        (is_release_marker x g.state g.state_hash t) h) [
          | inl (_, wrong) ↦ absurd (cc)
          | inr (_, found) ↦
              is_marker_with-Releases g.state g.state_hash t
                g.state.finalization_index_release_binding t.finalization_index_release_receipt
                g.state.finalization_public_key g.state.finalization_public_key_hash refl refl found
        ]

  is_escalation-Escalates :
      (previous t : RunState) → is_escalation x load previous t ≡ true → Escalates previous t
  is_escalation-Escalates previous t h =
      let (open_index, same, more) =
        and_three (not previous.finalization_index_released) (t == escalated x load t previous)
          (num_eq (length t.failure_history) (length previous.failure_history + 1)) h in
      record {
        not_released = not-true previous.finalization_index_released open_index;
        only_escalated = (RunState_Eq.beq_iff t (escalated x load t previous)).0 same;
        one_more =
            (num_eq_iff (length t.failure_history) (length previous.failure_history + 1)).0 more;
      }

  validate_unmarked-cases :
      (g : StateGeneration) (t : RunState)
      → validate_unmarked x load g t false ≡ ok tt
      → Escalates g.state t ⊎ (t ≡ g.state)
  unfolding validate_unmarked
  validate_unmarked-cases g t h =
      let (_, _, h) =
        >>=-eq-ok (as_contract (model_copy x.externals g.state (escalated x load t))) _ h in
      elim (if-ok (is_escalation x load g.state t) (ok tt) (unchanged x load g.state t) h) [
        | inl (escalation, _) ↦ inl (is_escalation-Escalates g.state t escalation)
        | inr (_, same) ↦ inr (unchanged-ok g.state t same)
      ]

  marked-cases :
      (g : StateGeneration) (t : RunState) (marker : Bool)
      → is_marker x load g t ≡ ok marker
      → validate_unmarked x load g t marker ≡ ok tt
      → Releases g.state g.state_hash t ⊎ (Escalates g.state t ⊎ (t ≡ g.state))
  marked-cases g t true found h = inl (is_marker-Releases g t found)
  marked-cases g t false found h = inr (validate_unmarked-cases g t h)

  validate_done-cases :
      (g : StateGeneration) (t : RunState)
      → validate_from x load RunDisposition.done g t ≡ ok tt
      → Releases g.state g.state_hash t ⊎ (Escalates g.state t ⊎ (t ≡ g.state))
  unfolding validate_from validate_done
  validate_done-cases g t h =
      let (marker, found, h) = >>=-eq-ok (is_marker x load g t) _ h in
      marked-cases g t marker found h

  -- A state that the store accepts after one that is done is that state; or that state with its index
  -- released, under a receipt that the finalization key signed for the bound release and the hash of
  -- the previous generation; or, while the index is not released, that state under human review with
  -- one more failure.
  pub validate_transition-done :
      (g : StateGeneration) (s : RunState) {t : RunState}
      → g.state.disposition ≡ RunDisposition.done
      → validate_transition x load (some g) s ≡ ok t
      → Releases g.state g.state_hash t ⊎ (Escalates g.state t ⊎ (t ≡ g.state))
  unfolding validate_after
  validate_transition-done g s {t} done h =
      let accepted = validate_transition-Accepted x load (some g) s h in
      let (_, _, from) = validate_successor-ok x load g t accepted.after in
      validate_done-cases g t (subst (λ d. validate_from x load d g t ≡ ok tt) done from)

-- ===== src/State/Repair.antt =====
-- src/auto_code/state.py: `_verify_repair_activation`.
use auto_code.Common.{
  ℕ, String, Bool, false, ◌&&◌, Option, none, some, last, ◌==◌, text_Eq, option_Eq, num_eq,
}
use auto_code.Contracts.Equality.{RunnerIdentity_Eq}
use auto_code.Contracts.Evidence.{FailureRecord}
use auto_code.Contracts.Bindings.{RunnerIdentity}
use auto_code.Contracts.Json.{hash_json}
use auto_code.Contracts.RunState.{RunState}
use auto_code.State.Context.{Activation, StoreContext}

-- The fields that both the receipt and the proof bind.
unfoldable pub binds_same : Activation → Activation → Bool
binds_same a b =
    a.request_hash == b.request_hash
    && a.run_id == b.run_id
    && num_eq a.expected_revision b.expected_revision
    && a.expected_state_hash == b.expected_state_hash
    && a.failure_hash == b.failure_hash
    && a.old_runner_identity == b.old_runner_identity
    && a.new_runner_identity == b.new_runner_identity

-- The values that an activation is checked against, none of them missing.
pub record RepairInputs : Type 0 where
  pub public_key : String
  pub public_key_hash : String
  pub request_hash : String
  pub receipt_hash : String
  pub receipt : String
  pub proof : String
  pub old_runner : RunnerIdentity
  pub new_runner : RunnerIdentity
  pub failure : FailureRecord

unfoldable pub repair_keys :
    Option String
    → Option String
    → Option String
    → Option String
    → Option String
    → Option String
    → Option RunnerIdentity
    → Option RunnerIdentity
    → Option FailureRecord
    → Option RepairInputs
repair_keys (some key) (some key_hash) (some request) (some receipt_hash) (some receipt)
      (some proof) (some old) (some new) (some f) =
    some (record {
      public_key = key;
      public_key_hash = key_hash;
      request_hash = request;
      receipt_hash = receipt_hash;
      receipt = receipt;
      proof = proof;
      old_runner = old;
      new_runner = new;
      failure = f;
    })
repair_keys _ _ _ _ _ _ _ _ _ = none

unfoldable pub repair_inputs : RunState → RunState → Option RepairInputs
unfolding repair_keys
repair_inputs old state =
    repair_keys old.repair_activation_public_key old.repair_activation_public_key_hash
      state.restart_receipt_request_hash state.restart_receipt_hash state.repair_activation_receipt
      state.repair_activation_selection_proof old.runner_identity state.runner_identity
      (last old.failure_history)

module _ (x : StoreContext) (revision : ℕ) (state_hash : String) (old : RunState) where
  -- The receipt is for this restart of this run.
  unfoldable pub is_activation_of : RepairInputs → Activation → Bool
  unfolding hash_json
  is_activation_of i a =
      a.content_hash == i.receipt_hash
      && a.request_hash == i.request_hash
      && a.run_id == old.run_id
      && num_eq a.expected_revision revision
      && a.expected_state_hash == state_hash
      && a.failure_hash == hash_json x.externals.hasher (x.dump_failure i.failure)
      && a.old_runner_identity == i.old_runner
      && a.new_runner_identity == i.new_runner
      && some a.project_policy_hash == old.project_policy_hash
      && a.activation_public_key_hash == i.public_key_hash

  unfoldable pub is_selected_by : RepairInputs → Option Activation → Option Activation → Bool
  unfolding is_activation_of binds_same
  is_selected_by i (some a) (some p) =
      is_activation_of i a
      && p.activation_public_key_hash == i.public_key_hash
      && p.activation_receipt_hash == a.content_hash
      && binds_same p a
  is_selected_by i _ _ = false

  unfoldable pub is_verified_by : Option RepairInputs → Bool
  unfolding is_selected_by
  is_verified_by none = false
  is_verified_by (some i) =
      x.externals.public_key_digest i.public_key == i.public_key_hash
      && is_selected_by i (x.read_receipt i.receipt i.public_key)
          (x.read_proof i.proof i.public_key)

  -- `_verify_repair_activation` raises nothing.
  unfoldable pub is_verified_repair : RunState → Bool
  unfolding is_verified_by repair_inputs
  is_verified_repair state = is_verified_by (repair_inputs old state)

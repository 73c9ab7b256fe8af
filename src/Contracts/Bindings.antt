-- ===== src/Contracts/Bindings.antt =====
-- src/auto_code/contracts.py: the identities, references and receipts that a run is bound to. The
-- patterns and normalisation of single fields are pydantic's and are not modelled; `schema_version`
-- has one value only. A datetime is an instant.
use auto_code.Common.{ℕ, String, Option, List, Bool}

pub record RunnerIdentity : Type 0 where
  pub content_hash : String
  pub source_sha : String
  pub dependency_lock_hash : String
  pub contract_bundle_hash : String
  pub runner_archive_hash : String
  pub built_at : ℕ

pub record TrustedPreparationInputRef : Type 0 where
  pub input_id : String
  pub relative_path : String
  pub repository_id : String
  pub reservation_id : String
  pub challenge_hash : String
  pub input_hash : String
  pub query_hash : String
  pub payload_hash : String
  pub result_hash : String
  pub source_page_hashes : List (String × String)
  pub pagination_complete : Bool
  pub max_crew_iterations : ℕ
  pub bridge_identity : String
  pub mcp_server_identity : String
  pub tool_call_id : String
  pub captured_at : ℕ
  pub observations : List String
  pub bridge_signature : Option String

pub record PersistedBranchBinding : Type 0 where
  pub ticket_id : String
  pub branch : String
  pub base_sha : String
  pub repository_identity : String
  pub remote_fingerprint : String
  pub default_branch : String
  pub checkpoint_lineage : String

pub record FinalizationEvidence : Type 0 where
  pub prefinalization_ticket_projection : String
  pub commit_sha : String
  pub pushed_sha : String
  pub linear_done_receipt : String

pub record IndexReleaseBinding : Type 0 where
  pub repository_id : String
  pub run_id : String
  pub prior_revision : ℕ
  pub prior_hash : String

pub record IndexReleaseReceipt : Type 0 where
  pub repository_id : String
  pub run_id : String
  pub prior_revision : ℕ
  pub prior_hash : String
  pub terminal_generation_hash : String
  pub receipt_hash : String
  pub signature : Option String

-- `IndexReleaseReceipt.binding`
unfoldable pub binding : IndexReleaseReceipt → IndexReleaseBinding
binding r = record {
  repository_id = r.repository_id;
  run_id = r.run_id;
  prior_revision = r.prior_revision;
  prior_hash = r.prior_hash;
}

-- ===== src/Contracts/Evidence.antt =====
-- src/auto_code/contracts.py: evidence references, checkpoints, stage outputs and failures. The
-- patterns of the text fields and their secret screen are pydantic's field validation and are not
-- modelled: a value here is one that passed it.
use auto_code.Common.{ℕ, String, Option, List}
use auto_code.Contracts.Enums.{Stage, FailureClass, FailureSource, FindingKind}

pub record EvidenceRef : Type 0 where
  pub relative_path : String
  pub sha256 : String
  pub media_type : String
  pub creator : String

pub record Checkpoint : Type 0 where
  pub checkpoint_id : Option String
  pub stage : Stage
  pub contract_hash : String
  pub input_hashes : List (String × String)
  pub output_manifest_hash : String
  pub validator : String
  pub validator_version : String
  pub validation_receipt_hash : String
  pub evidence : List EvidenceRef

pub record FailureRecord : Type 0 where
  pub failure_class : FailureClass
  pub failure_source : FailureSource
  pub finding_kind : FindingKind
  pub owner_stage : Option Stage
  pub cited_ids : List String
  pub evidence_refs : List EvidenceRef
  pub observed_revision : Option ℕ

pub record StageOutput : Type 0 where
  pub stage : Stage
  pub content_hash : String

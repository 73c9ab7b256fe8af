-- ===== src/Contracts/Receipts.antt =====
-- src/auto_code/contracts.py: the signed receipts, `TrustedMcpReceipt` and `IndexReleaseReceipt`.
use auto_code.Common.{
  ℕ, String, Bool, false, ◌&&◌, Option, none, some, List, ◌==◌, text_Eq, num_Eq, map,
}
use auto_code.Contracts.Enums.{EffectOutcome}
use auto_code.Contracts.Bindings.{IndexReleaseBinding, IndexReleaseReceipt}
use auto_code.Contracts.Json.{
  Json, Fields, num, str, arr, obj, field, no_more, Hasher, hash_json, text_or_null, array,
}

pub record TrustedMcpReceipt : Type 0 where
  pub receipt_id : String
  pub request_id : String
  pub effect_id : String
  pub effect_hash : String
  pub request_hash : String
  pub operation : String
  pub target : String
  pub run_id : String
  pub expected_revision : ℕ
  pub expected_state_hash : String
  pub expected_external_revision : Option String
  pub payload_hash : String
  pub result_hash : String
  pub outcome : EffectOutcome
  pub external_revision : Option String
  pub observed_state_id : Option String
  pub bridge_identity : String
  pub mcp_server_identity : String
  pub tool_call_id : String
  pub observed_at : ℕ
  pub observations : List String
  pub relative_path : String
  pub bridge_signature : Option String

unfoldable pub outcome_text : EffectOutcome → String
outcome_text EffectOutcome.success = "success"
outcome_text EffectOutcome.failure = "failure"
outcome_text EffectOutcome.not_found = "not_found"
outcome_text EffectOutcome.conflict = "conflict"
outcome_text EffectOutcome.unknown = "unknown"

-- The fields of a dumped receipt, before the last; `iso` renders a datetime.
abbrev dumped : (ℕ → String) → TrustedMcpReceipt → Fields → Json
dumped iso r last = obj (
    field "schema_version" (str "v1") (
      field "receipt_id" (str r.receipt_id) (
        field "request_id" (str r.request_id) (
          field "effect_id" (str r.effect_id) (
            field "effect_hash" (str r.effect_hash) (
              field "request_hash" (str r.request_hash) (
                field "operation" (str r.operation) (
                  field "target" (str r.target) (
                    field "run_id" (str r.run_id) (
                      field "expected_revision" (num r.expected_revision) (
                        field "expected_state_hash" (str r.expected_state_hash) (
                          field "expected_external_revision"
                            (text_or_null r.expected_external_revision)
                            (field "payload_hash" (str r.payload_hash)
                              (field "result_hash" (str r.result_hash) (rest)))))))))))))))
  where
    rest : Fields
    rest = field "outcome" (str (outcome_text r.outcome)) (
        field "external_revision" (text_or_null r.external_revision) (
          field "observed_state_id" (text_or_null r.observed_state_id) (
            field "bridge_identity" (str r.bridge_identity) (
              field "mcp_server_identity" (str r.mcp_server_identity) (
                field "tool_call_id" (str r.tool_call_id) (
                  field "observed_at" (str (iso r.observed_at)) (
                    field "observations" (arr (array (map str r.observations)))
                      (field "relative_path" (str r.relative_path) last))))))))

-- `TrustedMcpReceipt.signed_payload`
unfoldable pub signed_payload : (ℕ → String) → TrustedMcpReceipt → Json
unfolding outcome_text text_or_null array
signed_payload iso r = dumped iso r no_more

-- `TrustedMcpReceipt.content_hash`
unfoldable pub receipt_content_hash : Hasher → (ℕ → String) → TrustedMcpReceipt → String
unfolding outcome_text text_or_null array hash_json
receipt_content_hash h iso r =
    hash_json h (dumped iso r (field "bridge_signature" (text_or_null r.bridge_signature) no_more))

-- `IndexReleaseReceipt._receipt_payload`
unfoldable pub release_payload : IndexReleaseBinding → String → Json
release_payload b terminal = obj (
    field "repository_id" (str b.repository_id) (
      field "run_id" (str b.run_id) (
        field "prior_revision" (num b.prior_revision) (
          field "prior_hash" (str b.prior_hash)
            (field "terminal_generation_hash" (str terminal) no_more)))))

-- `IndexReleaseBinding.receipt_for`, and so `IndexReleaseReceipt.create`
unfoldable pub receipt_for : Hasher → IndexReleaseBinding → String → IndexReleaseReceipt
unfolding hash_json release_payload
receipt_for h b terminal = record {
  repository_id = b.repository_id;
  run_id = b.run_id;
  prior_revision = b.prior_revision;
  prior_hash = b.prior_hash;
  terminal_generation_hash = terminal;
  receipt_hash = hash_json h (release_payload b terminal);
  signature = none;
}

-- `IndexReleaseReceipt.matches`: the payloads are equal if their fields are.
unfoldable pub matches_release : IndexReleaseReceipt → IndexReleaseReceipt → Bool
matches_release r expected =
    r.repository_id == expected.repository_id
    && r.run_id == expected.run_id
    && r.prior_revision == expected.prior_revision
    && r.prior_hash == expected.prior_hash
    && r.terminal_generation_hash == expected.terminal_generation_hash
    && r.receipt_hash == expected.receipt_hash

-- `IndexReleaseReceipt.signing_payload`
unfoldable pub signing_payload : IndexReleaseReceipt → Json
signing_payload r = obj (
    field "domain" (str "auto-code-index-release/v1") (
      field "repository_id" (str r.repository_id) (
        field "run_id" (str r.run_id) (
          field "prior_revision" (num r.prior_revision) (
            field "prior_hash" (str r.prior_hash) (
              field "terminal_generation_hash" (str r.terminal_generation_hash)
                (field "receipt_hash" (str r.receipt_hash) no_more)))))))

-- Ed25519: whether a signature of a payload is that of a public key.
abbrev pub Ed25519 : Type 0
Ed25519 = String → String → String → Bool

-- `IndexReleaseReceipt.verify_signature` raises nothing.
unfoldable pub has_release_signature :
    Hasher → (String → String) → Ed25519 → IndexReleaseReceipt → String → String → Bool
unfolding signing_payload
has_release_signature h digest verify r key key_hash = signed r.signature
  where
    signed : Option String → Bool
    signed none = false
    signed (some s) =
        digest key == key_hash && verify key s (h.canonical_json_bytes (signing_payload r))

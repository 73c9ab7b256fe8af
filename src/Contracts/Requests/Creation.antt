-- ===== src/Contracts/Requests/Creation.antt =====
-- src/auto_code/contracts.py: `McpActionRequest.create`; src/auto_code/linear.py: the pending record
-- that is persisted for a request.
use auto_code.Common.{
  ℕ, String, Option, none, some, true, ◌==◌, text_Eq, option_Eq, if◌then◌else◌, ◌≡◌, refl,
}
use auto_code.Contracts.Json.{
  Json, field, no_more, str, num, text_or_null, Fields, obj, Hasher, hash_json,
}
use auto_code.Contracts.Requests.{
  McpActionRequest, PendingExternalRequest, has_ticket_target, effect_payload, request_payload,
  has_request_hashes, construct_request, reconstruct_request,
}

-- The arguments of `create`.
pub record RequestDraft : Type 0 where
  pub operation : String
  pub entity : String
  pub target : String
  pub expected_external_revision : Option String
  pub run_id : String
  pub expected_revision : ℕ
  pub expected_state_hash : String
  pub arguments : Fields
  pub effect_id : Option String

-- `effect_id or f"..."`: an empty text counts as missing.
unfoldable pub effect_id_or : String → Option String → String
effect_id_or generated none = generated
effect_id_or generated (some id) = if id == "" then generated else id

abbrev pub drafted : (String → String) → String → String → RequestDraft → McpActionRequest
drafted lower request_id generated d = record {
  request_id = request_id;
  effect_id = effect_id_or generated d.effect_id;
  effect_hash = "";
  operation = d.operation;
  entity = d.entity;
  target = d.target;
  expected_external_revision = d.expected_external_revision;
  run_id = d.run_id;
  expected_revision = d.expected_revision;
  expected_state_hash = lower d.expected_state_hash;
  arguments = d.arguments;
  request_hash = "";
}

-- The dictionary `effect_payload` that `create` makes.
unfoldable pub created_effect_payload : McpActionRequest → Json
unfolding text_or_null
created_effect_payload r = obj (
    field "effect_id" (str r.effect_id) (
      field "operation" (str r.operation) (
        field "entity" (str r.entity) (
          field "target" (str r.target) (
            field "expected_external_revision" (text_or_null r.expected_external_revision)
              (field "arguments" (obj r.arguments) no_more))))))

-- The dictionary `request_payload` that `create` makes.
unfoldable pub created_request_payload : McpActionRequest → Json
unfolding text_or_null
created_request_payload r = obj (
    field "schema_version" (str "v1") (
      field "request_id" (str r.request_id) (
        field "effect_id" (str r.effect_id) (
          field "effect_hash" (str r.effect_hash) (
            field "operation" (str r.operation) (
              field "entity" (str r.entity) (
                field "target" (str r.target) (
                  field "expected_external_revision" (text_or_null r.expected_external_revision) (
                    field "run_id" (str r.run_id) (
                      field "expected_revision" (num r.expected_revision) (
                        field "expected_state_hash" (str r.expected_state_hash)
                          (field "arguments" (obj r.arguments) no_more))))))))))))

abbrev pub with_effect_hash : Hasher → McpActionRequest → McpActionRequest
with_effect_hash h r = record r { effect_hash = hash_json h (created_effect_payload r) }

abbrev pub with_request_hash : Hasher → McpActionRequest → McpActionRequest
with_request_hash h r = record r { request_hash = hash_json h (created_request_payload r) }

-- The keyword arguments of the call: the payloads do not read the hash that is made of them.
abbrev pub sealed : Hasher → McpActionRequest → McpActionRequest
sealed h r = with_request_hash h (with_effect_hash h r)

-- `McpActionRequest.create`, with the texts that it makes of new UUIDs, and `str.lower`. The
-- arguments are those that `_action_arguments` let pass.
unfoldable pub create_request :
    Hasher
    → (McpActionRequest → Option McpActionRequest)
    → (String → String)
    → String
    → String
    → RequestDraft
    → Option McpActionRequest
unfolding construct_request effect_id_or hash_json created_effect_payload created_request_payload
create_request h request_fields lower request_id generated d =
    construct_request h request_fields (sealed h (drafted lower request_id generated d))

-- The `PendingExternalRequest` of a request.
unfoldable pub pending_of : Hasher → McpActionRequest → PendingExternalRequest
unfolding hash_json
pending_of h r = record {
  request_id = r.request_id;
  effect_id = r.effect_id;
  request_hash = r.request_hash;
  operation = r.operation;
  entity = some r.entity;
  target = some r.target;
  arguments = some r.arguments;
  effect_hash = some r.effect_hash;
  expected_revision = some r.expected_revision;
  expected_state_hash = some r.expected_state_hash;
  expected_external_revision = r.expected_external_revision;
  payload_hash = some (hash_json h (obj r.arguments));
}

sealed-hashes :
    (h : Hasher) (r : McpActionRequest)
    → has_ticket_target (sealed h r) ≡ true
    → has_request_hashes h (sealed h r) ≡ true
unfolding has_request_hashes effect_payload request_payload created_effect_payload
    created_request_payload
sealed-hashes h r ticket = rw (
  ticket,
  (text_Eq.beq_iff (sealed h r).effect_hash (sealed h r).effect_hash).1 refl,
  (text_Eq.beq_iff (sealed h r).request_hash (sealed h r).request_hash).1 refl,
)

construct_request-some :
    (h : Hasher) (request_fields : McpActionRequest → Option McpActionRequest)
    (r : McpActionRequest)
    → request_fields r ≡ some r
    → has_request_hashes h r ≡ true
    → construct_request h request_fields r ≡ some r
unfolding construct_request
construct_request-some h request_fields r kept good = rw (kept, good)

reconstruct_request-pending_of :
    (h : Hasher) (request_fields : McpActionRequest → Option McpActionRequest)
    (r : McpActionRequest)
    → construct_request h request_fields r ≡ some r
    → reconstruct_request h request_fields (pending_of h r) r.run_id ≡ some r
unfolding reconstruct_request pending_of
reconstruct_request-pending_of h request_fields r made =
    rw (
      made,
      (text_Eq.beq_iff (hash_json h (obj r.arguments)) (hash_json h (obj r.arguments))).1 refl,
    )

-- If the field validation keeps the fields of the request that `create` fills in, and a ticket
-- operation names its target, `create` returns that request, and the pending record made of it is
-- reconstructed to the same request.
pub create_request-reconstruct_request :
    (h : Hasher) (request_fields : McpActionRequest → Option McpActionRequest)
    (lower : String → String) (request_id generated : String) (d : RequestDraft)
    → request_fields (sealed h (drafted lower request_id generated d))
      ≡ some (sealed h (drafted lower request_id generated d))
    → has_ticket_target (sealed h (drafted lower request_id generated d)) ≡ true
    → (r : McpActionRequest) × (create_request h request_fields lower request_id generated d
        ≡ some r)
      × (reconstruct_request h request_fields (pending_of h r) d.run_id ≡ some r)
unfolding create_request
create_request-reconstruct_request h request_fields lower request_id generated d kept ticket =
    let r = sealed h (drafted lower request_id generated d) in
    let good = sealed-hashes h (drafted lower request_id generated d) ticket in
    let made = construct_request-some h request_fields r kept good in
    (r, made, reconstruct_request-pending_of h request_fields r made)

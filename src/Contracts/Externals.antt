-- ===== src/Contracts/Externals.antt =====
-- What the contracts take from outside the repository.
use auto_code.Common.{String, Option}
use auto_code.Contracts.Json.{Hasher}
use auto_code.Contracts.Requests.{McpActionRequest}

pub record Externals : Type 0 where
  -- json and hashlib
  pub hasher : Hasher
  -- `hashlib.sha256(bytes.fromhex(key)).hexdigest()`
  pub public_key_digest : String → String
  -- pydantic's validation of the single fields of an `McpActionRequest`: the request with its fields
  -- normalised, or `none` where a field is refused
  pub request_fields : McpActionRequest → Option McpActionRequest

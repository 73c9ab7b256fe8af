-- ===== src/Verification.antt =====
-- src/auto_code/verification.py: `run_all`; with `BuildIdentityFactory.create` of
-- src/auto_code/manifests.py, and the validation of a VerificationResult of
-- src/auto_code/contracts.py.
pub mod Builds
use auto_code.Common.Actions.{Action, ◌>>=◌, returned}
use auto_code.Common.Sequences.{list_Eq, pair_Eq}
use auto_code.Common.{
  ℕ, ◌+◌, String, Bool, true, false, not, ◌&&◌, ◌||◌, Option, none, some, List, [], ◌∷◌, all,
  length, leb, num_eq, ◌==◌, text_Eq, is_nonempty, Result, ok, err, ◌>>◌, guard, if◌then◌else◌,
}
use auto_code.Contracts.Evidence.{EvidenceRef}
use auto_code.Manifests.{ProductChangeManifest}
use auto_code.Contracts.Json.{Json, str, arr, obj, Fields, field, no_more, Hasher, hash_json, array}

-- `BuildIdentity`, with the items of its mapping in their order.
pub record BuildIdentity : Type 0 where
  pub baseline_sha : String
  pub product_manifest_hash : String
  pub project_policy_hash : String
  pub command_hashes : List (String × String)
  pub runtime_hash : String

-- The exit status of a process; one that a signal ended is negative.
pub data ReturnCode : Type 0 where
  exited : ℕ → ReturnCode
  signalled : ℕ → ReturnCode

-- `VerificationCheck`
pub record VerificationCheck : Type 0 where
  pub command_id : String
  pub command_hash : String
  pub returncode : ReturnCode
  pub failure_kind : Option String
  pub stdout_evidence : EvidenceRef
  pub stderr_evidence : EvidenceRef

-- `VerificationResult`
pub record VerificationResult : Type 0 where
  pub build_identity_hash : String
  pub checks : List VerificationCheck
  pub passed : Bool
  pub empty_authorized : Bool

-- The parts of a `ProjectConfig` that are read here.
pub record VerificationPolicy : Type 0 where
  pub allow_empty : Bool
  pub commands : List (List String)
  pub policy_hash : String

-- What a process runner returns; an output without immutable evidence is `none`.
pub record ProcessResult : Type 0 where
  pub returncode : ReturnCode
  pub failure_kind : Option String
  pub stdout_path : Option EvidenceRef
  pub stderr_path : Option EvidenceRef

-- What is raised, by its message; `process_failed` is whatever the process runner raises.
pub data VerificationError : Type 0 where
  baseline_mismatch commands_not_of_policy commands_required policy_mismatch : VerificationError
  commands_mismatch no_evidence too_many empty_not_authorized pass_state : VerificationError
  build_mismatch checks_mismatch process_failed : VerificationError

-- What a verification takes from outside: JSON and SHA-256, `str.lower`, the text of
-- `f"check-{index}"`, and the process runner with the directory, the time, the evidence and the sandbox that it gets.
pub record VerificationContext (W : Type 0) : Type 0 where
  pub hasher : Hasher
  pub lower : String → String
  pub check_name : ℕ → String
  pub run : List String → Action VerificationError W ProcessResult

unfoldable pub is_zero : ReturnCode → Bool
is_zero (exited n) = num_eq n 0
is_zero (signalled n) = false

-- `==` of truth values
abbrev pub same_state : Bool → Bool → Bool
same_state true b = b
same_state false b = not b

-- `argv` as JSON
abbrev pub texts : List String → List Json
texts [] = []
texts (s ∷ rest) = str s ∷ texts rest

abbrev pub hash_fields : List (String × String) → Fields
hash_fields [] = no_more
hash_fields ((k, v) ∷ rest) = field k (str v) (hash_fields rest)

abbrev pub dump_build : BuildIdentity → Json
dump_build b = obj (
    field "schema_version" (str "v1") (
      field "baseline_sha" (str b.baseline_sha) (
        field "product_manifest_hash" (str b.product_manifest_hash) (
          field "project_policy_hash" (str b.project_policy_hash) (
            field "command_hashes" (obj (hash_fields b.command_hashes))
              (field "runtime_hash" (str b.runtime_hash) no_more))))))

-- The identifiers and the hashes of the checks.
unfoldable pub command_pairs : List VerificationCheck → List (String × String)
command_pairs [] = []
command_pairs (c ∷ rest) = (c.command_id, c.command_hash) ∷ command_pairs rest

module _ {W : Type 0} (x : VerificationContext W) where
  -- `hash_json(argv)`
  unfoldable pub command_hash_of : List String → String
  unfolding hash_json array
  command_hash_of argv = hash_json x.hasher (arr (array (texts argv)))

  -- `f"check-{index}"`
  unfoldable pub command_name : ℕ → String
  command_name n = x.check_name n

  -- The mapping that `create` makes of the commands, from an index on. The names differ, so that it
  -- has these items.
  unfoldable pub command_mapping : ℕ → List (List String) → List (String × String)
  unfolding command_name command_hash_of
  command_mapping index [] = []
  command_mapping index (command ∷ rest) =
      (command_name index, command_hash_of command) ∷ command_mapping (index + 1) rest

  -- `expected_commands` of `run_all`, from an index on.
  unfoldable pub expected_commands : ℕ → List (List String) → List (String × String)
  unfolding command_name command_hash_of
  expected_commands index [] = []
  expected_commands index (argv ∷ rest) =
      (command_name index, command_hash_of argv) ∷ expected_commands (index + 1) rest

  unfoldable pub build_hash : BuildIdentity → String
  unfolding hash_json
  build_hash b = hash_json x.hasher (dump_build b)

  -- `BuildIdentityFactory.create`
  unfoldable pub create_build :
      String
      → ProductChangeManifest
      → VerificationPolicy
      → List (List String)
      → String
      → Result VerificationError BuildIdentity
  unfolding command_mapping
  create_build baseline manifest policy commands runtime =
      guard (x.lower baseline == x.lower manifest.baseline_sha) baseline_mismatch
      >> (guard (commands == policy.commands) commands_not_of_policy
          >> (guard (leb (length (command_mapping 1 commands)) 128) too_many
              >> ok (record {
                baseline_sha = baseline;
                product_manifest_hash = manifest.content_hash;
                project_policy_hash = policy.policy_hash;
                command_hashes = command_mapping 1 commands;
                runtime_hash = runtime;
              })))

  -- `VerificationResult.validate_checks`, in the context of a build
  unfoldable pub validate_checks :
      BuildIdentity → VerificationResult → Result VerificationError VerificationResult
  unfolding is_zero build_hash command_pairs
  validate_checks build r =
      guard (leb (length r.checks) 128) too_many
      >> (guard (is_nonempty r.checks || r.empty_authorized) empty_not_authorized
          >> (guard (same_state r.passed (all (λ c. is_zero c.returncode) r.checks)) pass_state
              >> (guard (x.lower r.build_identity_hash == x.lower (build_hash build)) build_mismatch
                  >> (guard (command_pairs r.checks == build.command_hashes) checks_mismatch
                      >> ok r))))

  -- The check of a command, from what its process returned.
  abbrev pub check_of :
      ℕ
      → List String
      → ReturnCode
      → Option String
      → Option EvidenceRef
      → Option EvidenceRef
      → Result VerificationError VerificationCheck
  check_of n argv code failure (some out) (some errors) = ok (record {
    command_id = command_name n;
    command_hash = command_hash_of argv;
    returncode = code;
    failure_kind = failure;
    stdout_evidence = out;
    stderr_evidence = errors;
  })
  check_of n argv code failure _ _ = err no_evidence

  -- The loop over the commands.
  unfoldable pub run_commands :
      ℕ → List (List String) → Action VerificationError W (List VerificationCheck)
  unfolding command_name command_hash_of ◌>>=◌
  run_commands n [] = returned (ok [])
  run_commands n (argv ∷ rest) = x.run argv >>= λ p.
      returned (check_of n argv p.returncode p.failure_kind p.stdout_path p.stderr_path) >>= λ c.
      run_commands (n + 1) rest >>= λ cs. returned (ok (c ∷ cs))

  unfoldable pub result_from :
      BuildIdentity → List VerificationCheck → Result VerificationError VerificationResult
  unfolding validate_checks build_hash is_zero
  result_from build checks = validate_checks build (record {
    build_identity_hash = build_hash build;
    checks = checks;
    passed = all (λ c. is_zero c.returncode) checks;
    empty_authorized = not (is_nonempty checks);
  })

  -- The tests before the first command.
  unfoldable pub check_build :
      VerificationPolicy → BuildIdentity → Result VerificationError (Unit {0})
  unfolding expected_commands
  check_build policy build =
      guard (is_nonempty policy.commands || policy.allow_empty) commands_required
      >> (guard (build.project_policy_hash == policy.policy_hash) policy_mismatch
          >> guard (build.command_hashes == expected_commands 1 policy.commands) commands_mismatch)

  -- `run_all`
  unfoldable pub run_all :
      VerificationPolicy → BuildIdentity → Action VerificationError W VerificationResult
  unfolding check_build run_commands result_from ◌>>=◌
  run_all policy build = returned (check_build policy build) >>= λ _.
      run_commands 1 policy.commands >>= λ checks. returned (result_from build checks)

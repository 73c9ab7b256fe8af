-- ===== src/Tests/Verification.antt =====
-- Instances for the verification of a build. The world is the list of the commands that were run.
use auto_code.Common.{
  ◌↔◌, String, true, false, none, some, List, [], ◌∷◌, num_eq, if◌then◌else◌, ok, ◌≡◌, refl,
}
use auto_code.Contracts.Evidence.{EvidenceRef}
use auto_code.Tests.Fixtures.{hasher}
use auto_code.Manifests.{ProductChangeManifest}
use auto_code.Verification.{
  BuildIdentity, exited, VerificationResult, VerificationPolicy, VerificationContext, command_pairs,
  command_mapping, expected_commands, build_hash, create_build, run_all,
}
use auto_code.Verification.Builds.{AllZero, Ran, Reliable, create_build-run_all}

abbrev reference : EvidenceRef
reference = record {
  relative_path = "out.txt";
  sha256 = "hash";
  media_type = "text/plain";
  creator = "process";
}

abbrev runner : VerificationContext (List (List String))
runner = record {
  hasher = hasher;
  lower = λ s. s;
  check_name = λ n. if num_eq n 1 then "check-1" else "check-2";
  run = λ argv ran. (
    ok (record {
      returncode = exited 0;
      failure_kind = none;
      stdout_path = some reference;
      stderr_path = some reference;
    }),
    argv ∷ ran,
  );
}

abbrev two_commands : List (List String)
two_commands = ("pytest" ∷ "-q" ∷ []) ∷ ("ruff" ∷ "check" ∷ []) ∷ []

abbrev policy : VerificationPolicy
policy = record { allow_empty = false; commands = two_commands; policy_hash = "policy" }

abbrev manifest : ProductChangeManifest
manifest = record { baseline_sha = "base"; files = []; content_hash = "content" }

abbrev build : BuildIdentity
build = record {
  baseline_sha = "base";
  product_manifest_hash = "content";
  project_policy_hash = "policy";
  command_hashes = command_mapping runner 1 two_commands;
  runtime_hash = "runtime";
}

creates : create_build runner "base" manifest policy two_commands "runtime" ≡ ok build
unfolding create_build
creates = refl

reliable : Reliable runner
reliable argv w = (_, _, reference, reference, refl, refl, refl)

create_build-run_all_example :
    (r : VerificationResult) × (v : List (List String)) × (run_all runner policy build []
      ≡ (ok r, v))
    × (command_pairs r.checks ≡ expected_commands runner 1 two_commands)
    × (r.build_identity_hash ≡ build_hash runner build)
    × Ran runner two_commands [] r.checks v
    × ((r.passed ≡ true) ↔ AllZero r.checks)
create_build-run_all_example =
    create_build-run_all runner "base" manifest policy two_commands "runtime" [] reliable refl
      creates

-- ===== src/Verification/Builds.antt =====
-- A build that is made for a policy is verified, and its result is valid.
use auto_code.Common.Actions.{Action, ◌>>=◌, returned, proceed}
use auto_code.Common.Sequences.{list_Eq, pair_Eq}
use auto_code.Common.{
  ◌↔◌, and-true, and_intro, num_eq_iff, then-ok, guard-ok, ok-injective, ℕ, ◌+◌, String, Bool, true,
  false, not, ◌||◌, some, List, [], ◌∷◌, all, length, leb, ◌==◌, text_Eq, is_nonempty, Result, ok,
  ◌>>◌, guard, ◌≡◌, refl, ◌∙◌, sym, ap, suc,
}
use auto_code.Contracts.Evidence.{EvidenceRef}
use auto_code.Manifests.{ProductChangeManifest}
use auto_code.Verification.{
  exited, signalled, ReturnCode, BuildIdentity, VerificationCheck, VerificationResult,
  VerificationPolicy, ProcessResult, baseline_mismatch, commands_not_of_policy, commands_required,
  policy_mismatch, commands_mismatch, too_many, empty_not_authorized, pass_state, build_mismatch,
  checks_mismatch, VerificationError, VerificationContext, is_zero, same_state, command_pairs,
  command_name, command_hash_of, command_mapping, expected_commands, build_hash, create_build,
  validate_checks, check_of, run_commands, result_from, check_build, run_all,
}

length-command_pairs : (cs : List VerificationCheck) → length (command_pairs cs) ≡ length cs
unfolding command_pairs
length-command_pairs [] = refl
length-command_pairs (c ∷ rest) = ap suc (length-command_pairs rest)

empty-or-not : (cs : List VerificationCheck) → (is_nonempty cs || not (is_nonempty cs)) ≡ true
empty-or-not [] = refl
empty-or-not (c ∷ rest) = refl

same_state_self : (b : Bool) → same_state b b ≡ true
same_state_self true = refl
same_state_self false = refl

pass :
    {A : Type 0} (b : Bool) (e : VerificationError) (k : Result VerificationError A)
    → b ≡ true
    → (guard b e >> k) ≡ k
pass true e k h = refl
pass false e k h = absurd (cc)

-- A check records what its process returned.
pub record Recorded (p : ProcessResult) (c : VerificationCheck) : Type 0 where
  pub returncode : c.returncode ≡ p.returncode
  pub failure_kind : c.failure_kind ≡ p.failure_kind
  pub stdout : p.stdout_path ≡ some c.stdout_evidence
  pub stderr : p.stderr_path ≡ some c.stderr_evidence

-- Every process exited with zero.
abbrev pub AllZero : List VerificationCheck → Type 0
AllZero [] = Unit {0}
AllZero (c ∷ rest) = (c.returncode ≡ exited 0) × AllZero rest

is_zero-exited : (c : ReturnCode) → is_zero c ≡ true → c ≡ exited 0
unfolding is_zero
is_zero-exited (exited n) h = ap exited ((num_eq_iff n 0).0 h)
is_zero-exited (signalled n) h = absurd (cc)

exited-is_zero : (c : ReturnCode) → c ≡ exited 0 → is_zero c ≡ true
unfolding is_zero
exited-is_zero c h = ap is_zero h

all-AllZero : (cs : List VerificationCheck) → all (λ c. is_zero c.returncode) cs ≡ true → AllZero cs
all-AllZero [] h = tt
all-AllZero (c ∷ rest) h =
    let (here, later) = and-true (is_zero c.returncode) (all (λ c. is_zero c.returncode) rest) h in
    (is_zero-exited c.returncode here, all-AllZero rest later)

AllZero-all : (cs : List VerificationCheck) → AllZero cs → all (λ c. is_zero c.returncode) cs ≡ true
AllZero-all [] h = refl
AllZero-all (c ∷ rest) (here, later) =
    and_intro (is_zero c.returncode) (all (λ c. is_zero c.returncode) rest)
      (exited-is_zero c.returncode here) (AllZero-all rest later)

module _ {W : Type 0} (x : VerificationContext W) where
  -- The commands run one after the other, each in the world that the one before it leaves, and each
  -- with a check that records what it returned.
  pub data Ran : List (List String) → W → List VerificationCheck → W → Type 0 where
    finished : {w : W} → Ran [] w [] w
    ran :
        {argv : List String} {rest : List (List String)} {w v v' : W} {c : VerificationCheck}
        {cs : List VerificationCheck} (p : ProcessResult)
        → x.run argv w ≡ (ok p, v)
        → Recorded p c
        → Ran rest v cs v'
        → Ran (argv ∷ rest) w (c ∷ cs) v'

  -- Every run of a process returns, with the evidence of its outputs.
  abbrev pub Reliable : Type 0
  Reliable =
      (argv : List String) (w : W)
      → (p : ProcessResult) × (v : W) × (out : EvidenceRef) × (errors : EvidenceRef) × (x.run argv w
          ≡ (ok p, v))
        × (p.stdout_path ≡ some out)
        × (p.stderr_path ≡ some errors)

  -- The rest of the loop, after a check.
  abbrev with_rest :
      ℕ
      → List (List String)
      → VerificationCheck
      → Action VerificationError W (List VerificationCheck)
  with_rest n rest c = run_commands x (n + 1) rest >>= λ cs. returned (ok (c ∷ cs))

  abbrev checked :
      ℕ
      → List String
      → List (List String)
      → ProcessResult
      → Action VerificationError W (List VerificationCheck)
  checked n argv rest p =
      returned (check_of x n argv p.returncode p.failure_kind p.stdout_path p.stderr_path)
      >>= with_rest n rest

  run_commands-Ran :
      Reliable
      → (n : ℕ) (commands : List (List String)) (w : W)
      → (cs : List VerificationCheck) × (v : W) × (run_commands x n commands w ≡ (ok cs, v))
        × (command_pairs cs ≡ expected_commands x n commands)
        × Ran commands w cs v
  unfolding run_commands expected_commands command_pairs ◌>>=◌ proceed
  run_commands-Ran reliable n [] w = ([], w, refl, refl, finished)
  run_commands-Ran reliable n (argv ∷ rest) w =
      let (p, v, out, errors, returns, has_out, has_errors) = reliable argv w in
      let (cs, v', done, named, others) = run_commands-Ran reliable (n + 1) rest v in
      let c : VerificationCheck = record {
        command_id = command_name x n;
        command_hash = command_hash_of x argv;
        returncode = p.returncode;
        failure_kind = p.failure_kind;
        stdout_evidence = out;
        stderr_evidence = errors;
      } in
      (
        c ∷ cs,
        v',
        ap (proceed (checked n argv rest)) returns
            ∙ ap
                (λ o.
                  proceed (with_rest n rest)
                    (check_of x n argv p.returncode p.failure_kind o p.stderr_path, v))
                has_out
            ∙ ap
                (λ o.
                  proceed (with_rest n rest)
                    (check_of x n argv p.returncode p.failure_kind (some out) o, v))
                has_errors
            ∙ ap (proceed (λ cs. returned (ok (c ∷ cs)))) done,
        ap (λ l. (c.command_id, c.command_hash) ∷ l) named,
        ran p returns
            (record {
              returncode = refl;
              failure_kind = refl;
              stdout = has_out;
              stderr = has_errors;
            })
            others,
      )

  -- A result of checks that are named as the build names them is valid.
  result_from-ok :
      (build : BuildIdentity) (cs : List VerificationCheck)
      → command_pairs cs ≡ build.command_hashes
      → leb (length build.command_hashes) 128 ≡ true
      → result_from x build cs
        ≡ ok (record {
          build_identity_hash = build_hash x build;
          checks = cs;
          passed = all (λ c. is_zero c.returncode) cs;
          empty_authorized = not (is_nonempty cs);
        })
  unfolding result_from validate_checks
  result_from-ok build cs named short =
      let hash = build_hash x build in
      let passed = all (λ c. is_zero c.returncode) cs in
      let enough : leb (length cs) 128 ≡ true =
        ap (λ n. leb n 128) (sym (length-command_pairs cs) ∙ ap length named) ∙ short in
      pass (leb (length cs) 128) too_many _ enough
      ∙ pass (is_nonempty cs || not (is_nonempty cs)) empty_not_authorized _ (empty-or-not cs)
      ∙ pass (same_state passed passed) pass_state _ (same_state_self passed)
      ∙ pass (x.lower hash == x.lower hash) build_mismatch _
          ((text_Eq.beq_iff (x.lower hash) (x.lower hash)).1 refl)
      ∙ pass (command_pairs cs == build.command_hashes) checks_mismatch _ (
          ((list_Eq {A = String × String}).beq_iff (command_pairs cs) build.command_hashes).1 named)

  -- What `create` gives.
  record Created (policy : VerificationPolicy) (build : BuildIdentity) : Type 0 where
    commands : build.command_hashes ≡ expected_commands x 1 policy.commands
    owned : build.project_policy_hash ≡ policy.policy_hash
    short : leb (length build.command_hashes) 128 ≡ true

  -- What `create` writes and what `run_all` expects are the same.
  command_mapping-expected_commands :
      (n : ℕ) (commands : List (List String))
      → command_mapping x n commands ≡ expected_commands x n commands
  unfolding command_mapping expected_commands
  command_mapping-expected_commands n [] = refl
  command_mapping-expected_commands n (argv ∷ rest) =
      ap (λ l. (command_name x n, command_hash_of x argv) ∷ l)
        (command_mapping-expected_commands (n + 1) rest)

  create_build-Created :
      (baseline : String) (manifest : ProductChangeManifest) (policy : VerificationPolicy)
      (commands : List (List String)) (runtime : String) {build : BuildIdentity}
      → create_build x baseline manifest policy commands runtime ≡ ok build
      → Created policy build
  unfolding create_build
  create_build-Created baseline manifest policy commands runtime h =
      let (_, h) =
        then-ok (guard (x.lower baseline == x.lower manifest.baseline_sha) baseline_mismatch) _ h in
      let (same, h) = then-ok (guard (commands == policy.commands) commands_not_of_policy) _ h in
      let (short, h) =
        then-ok (guard (leb (length (command_mapping x 1 commands)) 128) too_many) _ h in
      let equal : commands ≡ policy.commands =
        ((list_Eq {A = List String}).beq_iff commands policy.commands).0
          (guard-ok (commands == policy.commands) commands_not_of_policy same) in
      let made = ok-injective h in
      let named = ap (λ b. b.command_hashes) made in
      record {
        commands =
            named ∙ command_mapping-expected_commands 1 commands ∙ ap (expected_commands x 1) equal;
        owned = ap (λ b. b.project_policy_hash) made;
        short =
            ap (λ l. leb (length l) 128) named
            ∙ guard-ok (leb (length (command_mapping x 1 commands)) 128) too_many short;
      }

  check_build-Created :
      (policy : VerificationPolicy) (build : BuildIdentity)
      → Created policy build
      → (is_nonempty policy.commands || policy.allow_empty) ≡ true
      → check_build x policy build ≡ ok tt
  unfolding check_build
  check_build-Created policy build made authorized =
      pass (is_nonempty policy.commands || policy.allow_empty) commands_required _ authorized
      ∙ pass (build.project_policy_hash == policy.policy_hash) policy_mismatch _
          ((text_Eq.beq_iff build.project_policy_hash policy.policy_hash).1 made.owned)
      ∙ ap (λ b. guard b commands_mismatch)
          (((list_Eq {A = String × String}).beq_iff build.command_hashes
              (expected_commands x 1 policy.commands)).1
            made.commands)

  -- A build that is made for a policy whose commands are there, or may be absent, is verified by
  -- reliable processes: the commands of the policy run one after the other, and the result is of
  -- that build, with a check for each command in its order that has the command's name and hash and
  -- records what its process returned; it has passed exactly if each process exited with zero.
  pub create_build-run_all :
      (baseline : String) (manifest : ProductChangeManifest) (policy : VerificationPolicy)
      (commands : List (List String)) (runtime : String) (w : W) {build : BuildIdentity}
      → Reliable
      → (is_nonempty policy.commands || policy.allow_empty) ≡ true
      → create_build x baseline manifest policy commands runtime ≡ ok build
      → (r : VerificationResult) × (v : W) × (run_all x policy build w ≡ (ok r, v))
        × (command_pairs r.checks ≡ expected_commands x 1 policy.commands)
        × (r.build_identity_hash ≡ build_hash x build)
        × Ran policy.commands w r.checks v
        × ((r.passed ≡ true) ↔ AllZero r.checks)
  unfolding run_all ◌>>=◌ proceed
  create_build-run_all baseline manifest policy commands runtime w {build} reliable authorized h =
      let made = create_build-Created baseline manifest policy commands runtime h in
      let (cs, v, finishes, named, all_ran) = run_commands-Ran reliable 1 policy.commands w in
      (
        _,
        v,
        ap
              (λ m.
                proceed
                  (λ _. run_commands x 1 policy.commands >>= λ checks.
                    returned (result_from x build checks))
                  (m, w))
              (check_build-Created policy build made authorized)
            ∙ ap (proceed (λ checks. returned (result_from x build checks))) finishes
            ∙ ap (λ r. (r, v)) (result_from-ok build cs (named ∙ sym made.commands) made.short),
        named,
        refl,
        all_ran,
        (all-AllZero cs, AllZero-all cs),
      )

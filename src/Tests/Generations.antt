-- ===== src/Tests/Generations.antt =====
-- Instances for the generations on disk. Every hash is the same digest.
use auto_code.Common.{
  returning, String, Bool, true, some, [], ◌∷◌, ok, err, ◌>>=◌, ◌>>◌, guard, ◌≡◌, refl, ap, ◌≤◌,
}
use auto_code.Contracts.Authorizations.{granted}
use auto_code.Contracts.Enums.{
  RunDisposition-discrete, PreparationPhase-discrete, Stage-discrete, for_every_stage,
}
use auto_code.Contracts.Equality.{
  RunState-eq_self, EffectEvent-discrete, PersistedBranchBinding-discrete,
}
use auto_code.Contracts.Json.{Hasher}
use auto_code.Contracts.RunState.{RunState}
use auto_code.Contracts.RunState.Checks.{output_of}
use auto_code.Contracts.RunState.Validation.{
  validate_state, any_binding, authorized_iteration_limit,
}
use auto_code.State.Acceptance.{validate_transition}
use auto_code.State.Acceptance.Extends.{Continues}
use auto_code.State.Context.{
  invalid_argument, corrupt, StateGeneration, StoreContext, conflict, terminal_immutable,
}
use auto_code.State.Digests.{is_sha256}
use auto_code.State.Generations.{
  Disk, envelope_of, find_generation, points, temporary, generation, added, pointed,
  require_recoverable, create_generation, state_hash_of, has_path, load_optional, load, loader,
  publish_made, compare_and_swap, next_generation,
}
use auto_code.State.Generations.Publication.{compare_and_swap-load, compare_and_swap-conflict}
use auto_code.State.Generations.Interruption.{os_error, interrupted_swap}
use auto_code.State.Generations.Recovery.{interrupted_swap-orphan}
use auto_code.State.Generations.Runs.{Swaps, none_yet, returned, raised, swaps-Continues}
use auto_code.State.Generations.Swap.{Digests}
use auto_code.State.Validation.{as_rejected}
use auto_code.Tests.Acceptance.{given_up, store}
use auto_code.Tests.Fixtures.{externals}

abbrev pub digest : String
digest = "0000000000000000000000000000000000000000000000000000000000000000"

abbrev pub digest_hasher : Hasher
digest_hasher = record { canonical_json_bytes = λ _. "{}"; sha256_hexdigest = λ _. digest }

abbrev pub digest_store : StoreContext
digest_store = record store { externals = record externals { hasher = digest_hasher } }

pub digests : Digests digest_store
digests = record { lowercase = λ j. refl }

abbrev pub first_generation : StateGeneration
first_generation = record { revision = 1; state_hash = digest; state = given_up }

abbrev pub second_generation : StateGeneration
second_generation = record { revision = 2; state_hash = digest; state = given_up }

-- A disk with one generation, and a temporary file that a crash left.
abbrev pub one_generation : Disk
one_generation = record {
  pointer = points 1 digest;
  entries = temporary ∷ generation 1 digest (some (envelope_of digest_store first_generation)) ∷ [];
}

abbrev pub two_generations : Disk
two_generations = pointed second_generation (added digest_store second_generation one_generation)

pub loads_first : load_optional digest_store true one_generation ≡ ok (some first_generation)
unfolding load_optional validate_state any_binding PreparationPhase-discrete Stage-discrete
    authorized_iteration_limit granted for_every_stage output_of is_sha256
loads_first = refl

accepts_again :
    validate_transition digest_store
      (loader digest_store one_generation)
      (some first_generation)
      given_up
    ≡ ok given_up
unfolding validate_transition validate_state any_binding PreparationPhase-discrete Stage-discrete
    RunDisposition-discrete authorized_iteration_limit granted for_every_stage output_of
    PersistedBranchBinding-discrete EffectEvent-discrete
accepts_again =
    ap (λ (b : Bool). as_rejected (guard b terminal_immutable) >> returning given_up)
      (RunState-eq_self given_up)

makes_second : next_generation digest_store one_generation 1 digest given_up ≡ ok second_generation
unfolding next_generation validate_state any_binding PreparationPhase-discrete Stage-discrete
    authorized_iteration_limit granted for_every_stage output_of
makes_second =
    ap
      (λ m. m >>= λ t.
        require_recoverable one_generation (some first_generation)
          (create_generation digest_store 2 t)
        >> (guard (has_path 2 (state_hash_of digest_store t)) invalid_argument
            >> returning (create_generation digest_store 2 t)))
      accepts_again

swaps_again :
    compare_and_swap digest_store 1 digest given_up one_generation
    ≡ (ok second_generation, two_generations)
unfolding compare_and_swap
swaps_again = ap (λ m. publish_made digest_store m one_generation) makes_second

compare_and_swap-load_example :
    (second_generation ≡ create_generation digest_store 2 given_up)
    × (load digest_store two_generations ≡ ok second_generation)
compare_and_swap-load_example =
    compare_and_swap-load digest_store digests 1 digest given_up one_generation swaps_again

compare_and_swap-conflict_example :
    compare_and_swap digest_store 1 digest given_up two_generations
    ≡ (err conflict, two_generations)
unfolding is_sha256
compare_and_swap-conflict_example =
    compare_and_swap-conflict digest_store digests 1 digest given_up one_generation digest given_up
      swaps_again refl

-- A writer that expects a revision that is not there.
refuses_third :
    compare_and_swap digest_store 3 digest given_up one_generation ≡ (err conflict, one_generation)
unfolding compare_and_swap validate_state any_binding PreparationPhase-discrete Stage-discrete
    authorized_iteration_limit granted for_every_stage output_of
refuses_third = refl

-- The swap that is interrupted leaves the second generation without a pointer to it.
interrupted_swap-orphan_example :
    (interrupted_swap digest_store 1 digest given_up one_generation
      ≡ (os_error, added digest_store second_generation one_generation))
    × (load digest_store (added digest_store second_generation one_generation) ≡ err corrupt)
    × (load_optional digest_store true (added digest_store second_generation one_generation)
        ≡ load_optional digest_store true one_generation)
    × ((late : String) (t : RunState) (g' : StateGeneration) (d' : Disk)
        → compare_and_swap digest_store 1 late t
            (added digest_store second_generation one_generation)
          ≡ (ok g', d')
        → g'.state_hash ≡ digest)
unfolding find_generation
interrupted_swap-orphan_example =
    interrupted_swap-orphan digest_store digests 1 digest given_up one_generation makes_second refl

abbrev two_swaps : Swaps digest_store digests one_generation one_generation
two_swaps = raised 3 digest given_up conflict one_generation one_generation none_yet refuses_third

swaps-Continues_example :
    (last : StateGeneration) × (load_optional digest_store true two_generations ≡ ok (some last))
    × (1 ≤ last.revision)
    × Continues given_up last.state
swaps-Continues_example =
    swaps-Continues digest_store digests first_generation one_generation two_generations loads_first
      (returned 1 digest given_up second_generation one_generation two_generations two_swaps
        swaps_again)

-- ===== src/Tests/OnDisk.antt =====
-- A step of the supervisor over a run on disk.
use auto_code.Common.Actions.{◌>>=◌}
use auto_code.Common.{false, none, [], ok, err, ◌≡◌, refl}
use auto_code.Contracts.Authorizations.{granted}
use auto_code.Contracts.Enums.{
  RunDisposition-discrete, PreparationPhase-discrete, Stage-discrete, StepKind, for_every_stage,
}
use auto_code.Contracts.RunState.Checks.{output_of}
use auto_code.Contracts.RunState.Validation.{
  validate_state, any_binding, authorized_iteration_limit,
}
use auto_code.State.Context.{StateGeneration}
use auto_code.State.Generations.{load}
use auto_code.Supervisor.{Dependencies, unknown, store_refused, registry_refused, result_of}
use auto_code.Supervisor.OnDisk.{World, on_disk, on_disk-step}
use auto_code.Supervisor.Reports.{Describes}
use auto_code.Supervisor.Step.{step}
use auto_code.Tests.Generations.{digest, digest_store, digests, one_generation, first_generation}
use auto_code.Tests.Registry.{registry, three_ids, one_file}

abbrev here : World (Unit {0})
here = record { disk = one_generation; registry = one_file; rest = tt }

-- What the store and the registry on disk replace raises.
abbrev base : Dependencies (World (Unit {0}))
base = record {
  run_id = "run-1";
  load = λ w. err store_refused;
  compare_and_swap = λ revision hash s w. (err store_refused, w);
  authority = λ w. record { is_reusable = λ c stage contract inputs. ok false };
  issue = λ c w. (err registry_refused, w);
  expectations = λ stage. record { contract_hash = "contract"; input_hashes = [] };
  execute = λ stage s w. (unknown, w);
  lower = λ t. t;
  externals = digest_store.externals;
}

steps :
    step (on_disk digest_store registry (λ _. three_ids) base) "run-1" 1 digest here
    ≡ (ok (result_of StepKind.done first_generation none none []), here)
unfolding step on_disk validate_state any_binding PreparationPhase-discrete Stage-discrete
    authorized_iteration_limit granted for_every_stage output_of RunDisposition-discrete ◌>>=◌
steps = refl

on_disk-step_example :
    (g : StateGeneration) × (load digest_store one_generation ≡ ok g)
    × Describes g (result_of StepKind.done first_generation none none [])
on_disk-step_example =
    on_disk-step digest_store digests registry (λ _. three_ids) base "run-1" 1 digest here steps

-- ===== src/Supervisor/OnDisk.antt =====
-- src/auto_code/supervisor.py over src/auto_code/state.py and src/auto_code/checkpoint.py: a step of
-- a run whose generations and checkpoints are on disk.
use auto_code.Common.{ℕ, String, Result, ok, err, ◌≡◌, ap}
use auto_code.Contracts.Evidence.{Checkpoint}
use auto_code.Contracts.Steps.{StepResult}
use auto_code.Registry.{RegistryContext, RegistryDir, IssueError, authority_of}
use auto_code.Registry.Issued.{Identifiers, issue_with}
use auto_code.State.Context.{StateGeneration, StoreError, StoreContext}
use auto_code.State.Generations.{Disk, create_generation, compare_and_swap, load}
use auto_code.State.Generations.Publication.{compare_and_swap-load}
use auto_code.State.Generations.Swap.{Digests}
use auto_code.Supervisor.{SupervisorError, Dependencies, store_refused, registry_refused}
use auto_code.Supervisor.Reports.{StoreLaws, Describes}
use auto_code.Supervisor.Results.{step-Current}
use auto_code.Supervisor.Step.{step}

-- The directory of the run, the registry, and what else the executor touches.
pub record World (W : Type 0) : Type 0 where
  pub disk : Disk
  pub registry : RegistryDir
  pub rest : W

abbrev pub as_loaded : Result StoreError StateGeneration → Result SupervisorError StateGeneration
as_loaded (ok g) = ok g
as_loaded (err e) = err store_refused

as_loaded-ok :
    (r : Result StoreError StateGeneration) {g : StateGeneration} → as_loaded r ≡ ok g → r ≡ ok g
as_loaded-ok (ok g) h = cc
as_loaded-ok (err e) h = absurd (cc)

module _ {W : Type 0} where
  abbrev pub swapped :
      World W
      → Result StoreError StateGeneration × Disk
      → Result SupervisorError StateGeneration × World W
  swapped w (r, d) = (as_loaded r, record w { disk = d })

  abbrev pub as_issued :
      World W
      → Result IssueError Checkpoint × RegistryDir
      → Result SupervisorError Checkpoint × World W
  as_issued w (ok c, dir) = (ok c, record w { registry = dir })
  as_issued w (err e, dir) = (err registry_refused, record w { registry = dir })

  -- The dependencies whose store and checkpoint authority are those of a run on disk; `ids` gives the
  -- identifiers of the checkpoints, and `base` the rest.
  unfoldable pub on_disk :
      StoreContext
      → RegistryContext
      → (World W → Identifiers)
      → Dependencies (World W)
      → Dependencies (World W)
  unfolding load compare_and_swap
  on_disk x registry ids base = record base {
    load = λ w. as_loaded (load x w.disk);
    compare_and_swap =
        λ revision state_hash s w. swapped w (compare_and_swap x revision state_hash s w.disk);
    authority = λ w. authority_of registry w.registry;
    issue = λ c w. as_issued w (issue_with registry (ids w) c w.registry);
  }

  swapped-ok :
      (w : World W) (p : Result StoreError StateGeneration × Disk) {g : StateGeneration}
      {w' : World W}
      → swapped w p ≡ (ok g, w')
      → p ≡ (ok g, w'.disk)
  swapped-ok w (ok g, d) h = cc (ap (λ q. q.0) h, ap (λ q. q.1.disk) h)
  swapped-ok w (err e, d) h = absurd (raised (ap (λ q. q.0) h))
    where
      raised : {g : StateGeneration} → Result.err store_refused ≡ ok g → ⊥
      raised h = cc

  module _ (x : StoreContext) (digests : Digests x) (registry : RegistryContext)
      (ids : World W → Identifiers) (base : Dependencies (World W)) where
    -- The store on disk keeps what the supervisor relies on.
    pub on_disk-StoreLaws : StoreLaws (on_disk x registry ids base)
    unfolding on_disk create_generation
    on_disk-StoreLaws = record {
      stored = λ revision state_hash s w {g} {w'} h.
          ap (λ (k : StateGeneration). k.state)
            (compare_and_swap-load x digests revision state_hash s w.disk
              (swapped-ok w (compare_and_swap x revision state_hash s w.disk) h)).0;
      loaded = λ revision state_hash s w {g} {w'} h.
          ap as_loaded
            (compare_and_swap-load x digests revision state_hash s w.disk
              (swapped-ok w (compare_and_swap x revision state_hash s w.disk) h)).1;
    }

    -- A step of the supervisor over a store on disk that returns tells the run, the revision and the
    -- hash of the generation that is loaded from the disk after the step, and has the shape of its
    -- kind; one that continues names the current stage of that generation.
    pub on_disk-step :
        (run_id : String) (revision : ℕ) (state_hash : String) (w : World W) {r : StepResult}
        {w' : World W}
        → step (on_disk x registry ids base) run_id revision state_hash w ≡ (ok r, w')
        → (g : StateGeneration) × (load x w'.disk ≡ ok g) × Describes g r
    unfolding on_disk
    on_disk-step run_id revision state_hash w {r} {w'} h =
        let (g, found, describes) =
          step-Current (on_disk x registry ids base) on_disk-StoreLaws run_id revision state_hash w
            h in
        (g, as_loaded-ok (load x w'.disk) found, describes)

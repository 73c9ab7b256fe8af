-- ===== src/State/Generations/Interruption.antt =====
-- src/auto_code/state.py: a `compare_and_swap_locked` that is interrupted after the file of the
-- generation is there and before the pointer is replaced: `os.replace` raises, or the process stops.
use auto_code.Common.{ℕ, String, Bool, true, false, Option, none, some, Result, ok, err}
use auto_code.Contracts.RunState.{RunState}
use auto_code.State.Context.{StateGeneration, StoreError, StoreContext, corrupt}
use auto_code.State.Generations.{
  Disk, Envelope, find_generation, added, same_generation, load_generation, next_generation,
}

-- What is raised: an error of the store before the interruption, or the interruption.
pub data SwapFailure : Type 0 where
  store_error : StoreError → SwapFailure
  os_error : SwapFailure

abbrev interrupted_if : Bool → SwapFailure
interrupted_if true = os_error
interrupted_if false = store_error corrupt

-- The file is there already.
unfoldable pub interrupted_there : StateGeneration → Result StoreError StateGeneration → SwapFailure
unfolding same_generation
interrupted_there g (err e) = store_error e
interrupted_there g (ok existing) = interrupted_if (same_generation existing g)

module _ (x : StoreContext) where
  unfoldable pub interrupted_over :
      StateGeneration → Disk → Option (Option Envelope) → SwapFailure × Disk
  unfolding interrupted_there load_generation
  interrupted_over g d none = (os_error, added x g d)
  interrupted_over g d (some _) =
      (interrupted_there g (load_generation x d g.revision g.state_hash), d)

  unfoldable pub interrupted_made : Result StoreError StateGeneration → Disk → SwapFailure × Disk
  unfolding interrupted_over find_generation
  interrupted_made (err e) d = (store_error e, d)
  interrupted_made (ok g) d =
      interrupted_over g d (find_generation g.revision g.state_hash d.entries)

  unfoldable pub interrupted_swap : ℕ → String → RunState → Disk → SwapFailure × Disk
  unfolding interrupted_made next_generation
  interrupted_swap revision expected s d =
      interrupted_made (next_generation x d revision expected s) d

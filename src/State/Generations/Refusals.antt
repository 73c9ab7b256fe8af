-- ===== src/State/Generations/Refusals.antt =====
-- A swap that raises an error of the store.
use auto_code.Common.{
  ℕ, String, Bool, true, false, Option, none, some, Result, ok, err, ◌≡◌, sym, ap,
}
use auto_code.Contracts.RunState.{RunState}
use auto_code.State.Context.{StateGeneration, StoreError, StoreContext}
use auto_code.State.Generations.{
  Disk, Envelope, find_generation, same_generation, load_generation, next_generation, adopt_if,
  adopt, publish_over, publish, publish_made, compare_and_swap,
}

module _ (x : StoreContext) where
  adopt_if-err :
      (b : Bool) (g : StateGeneration) (d : Disk) {e : StoreError} {d' : Disk}
      → adopt_if b g d ≡ (err e, d')
      → d' ≡ d
  unfolding adopt_if
  adopt_if-err true g d h = absurd (returned (ap (λ p. p.0) h))
    where
      returned : {e : StoreError} → Result.ok g ≡ err e → ⊥
      returned h = cc
  adopt_if-err false g d h = sym (ap (λ p. p.1) h)

  adopt-err :
      (g : StateGeneration) (d : Disk) (o : Result StoreError StateGeneration) {e : StoreError}
      {d' : Disk}
      → adopt x g d o ≡ (err e, d')
      → d' ≡ d
  unfolding adopt
  adopt-err g d (err e) h = sym (ap (λ p. p.1) h)
  adopt-err g d (ok existing) h = adopt_if-err (same_generation existing g) g d h

  publish_over-err :
      (g : StateGeneration) (d : Disk) (there : Option (Option Envelope)) {e : StoreError}
      {d' : Disk}
      → publish_over x g d there ≡ (err e, d')
      → d' ≡ d
  unfolding publish_over
  publish_over-err g d none h = absurd (returned (ap (λ p. p.0) h))
    where
      returned : {e : StoreError} → Result.ok g ≡ err e → ⊥
      returned h = cc
  publish_over-err g d (some c) h = adopt-err g d (load_generation x d g.revision g.state_hash) h

  publish_made-err :
      (m : Result StoreError StateGeneration) (d : Disk) {e : StoreError} {d' : Disk}
      → publish_made x m d ≡ (err e, d')
      → d' ≡ d
  unfolding publish_made publish
  publish_made-err (err e) d h = sym (ap (λ p. p.1) h)
  publish_made-err (ok g) d h =
      publish_over-err g d (find_generation g.revision g.state_hash d.entries) h

  -- A swap whose writes succeed and that raises an error of the store leaves the disk as it was.
  pub compare_and_swap-err :
      (revision : ℕ) (expected : String) (s : RunState) (d : Disk) {e : StoreError} {d' : Disk}
      → compare_and_swap x revision expected s d ≡ (err e, d')
      → d' ≡ d
  unfolding compare_and_swap
  compare_and_swap-err revision expected s d h =
      publish_made-err (next_generation x d revision expected s) d h

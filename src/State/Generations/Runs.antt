-- ===== src/State/Generations/Runs.antt =====
-- The run of a store: swaps on its disk, one after the other, by any number of writers. The lock of
-- the run makes each of them a step of its own.
use mathlib.Core.Path.{subst}
use auto_code.Common.{
  ok-injective, true, ℕ, ◌+◌, ◌≤◌, String, some, ok, err, ◌≡◌, ◌∙◌, sym, ap, arith,
}
use auto_code.Contracts.RunState.{RunState}
use auto_code.State.Acceptance.Extends.{Continues}
use auto_code.State.Acceptance.History.{History, start, accept, History-Continues}
use auto_code.State.Acceptance.{validate_transition}
use auto_code.State.Context.{StateGeneration, StoreError, StoreContext}
use auto_code.State.Generations.{
  Disk, revision_of, create_generation, empty_state_hash, load_optional, loader, compare_and_swap,
}
use auto_code.State.Generations.Publication.{compare_and_swap-Made}
use auto_code.State.Generations.Interruption.{SwapFailure, interrupted_swap}
use auto_code.State.Generations.Recovery.{interrupted_swap-kept}
use auto_code.State.Generations.Refusals.{compare_and_swap-err}
use auto_code.State.Generations.Swap.{Digests, require_expected-revision}

module _ (x : StoreContext) (digests : Digests x) where
  -- Swaps on a disk one after the other; each returns, raises or is interrupted.
  pub data Swaps (first : Disk) : Disk → Type 0 where
    none_yet : Swaps first first
    returned :
        (revision : ℕ) (expected : String) (s : RunState) (g : StateGeneration) (d d' : Disk)
        → Swaps first d
        → compare_and_swap x revision expected s d ≡ (ok g, d')
        → Swaps first d'
    raised :
        (revision : ℕ) (expected : String) (s : RunState) (e : StoreError) (d d' : Disk)
        → Swaps first d
        → compare_and_swap x revision expected s d ≡ (err e, d')
        → Swaps first d'
    interrupted :
        (revision : ℕ) (expected : String) (s : RunState) (e : SwapFailure) (d d' : Disk)
        → Swaps first d
        → interrupted_swap x revision expected s d ≡ (e, d')
        → Swaps first d'

  -- The generation that a disk points at follows a first one.
  pub record Follows (first : StateGeneration) (d : Disk) : Type 0 where
    pub current : StateGeneration
    pub loaded : load_optional x true d ≡ ok (some current)
    pub later : first.revision ≤ current.revision
    pub history : History first.state current.state

  swap-Follows :
      (first : StateGeneration) (revision : ℕ) (expected : String) (s : RunState)
      (g : StateGeneration) (d d' : Disk)
      → Follows first d
      → compare_and_swap x revision expected s d ≡ (ok g, d')
      → Follows first d'
  unfolding create_generation revision_of
  swap-Follows first revision expected s g d d' f h =
      let (m, on_disk) = compare_and_swap-Made x digests revision expected s d h in
      let same : m.current ≡ some f.current = ok-injective (sym f.loaded ∙ m.loaded) in
      let number : f.current.revision ≡ revision =
        ap revision_of (sym same)
        ∙ require_expected-revision (empty_state_hash x) m.current revision (x.lower expected)
            m.matched in
      let made : g.revision ≡ revision + 1 = ap (λ (k : StateGeneration). k.revision) m.made in
      record {
        current = g;
        loaded = on_disk.loaded;
        later = later f.current.revision f.later number made;
        history = accept x (loader x d) f.current s g.state f.history (
            subst (λ c. validate_transition x (loader x d) c s ≡ ok g.state) same
              (m.accepted ∙ ap (λ (k : StateGeneration). ok k.state) (sym m.made)));
      }
    where
      later :
          (n : ℕ)
          → first.revision ≤ n
          → n ≡ revision
          → g.revision ≡ revision + 1
          → first.revision ≤ g.revision
      later n a b c = omega arith

  swaps-Follows :
      (first : StateGeneration) (d d' : Disk) → Follows first d → Swaps d d' → Follows first d'
  swaps-Follows first d d' f none_yet = f
  swaps-Follows first d d' f (returned revision expected s g e _ before h) =
      swap-Follows first revision expected s g e d' (swaps-Follows first d e f before) h
  swaps-Follows first d d' f (raised revision expected s r e _ before h) =
      subst (Follows first) (sym (compare_and_swap-err x revision expected s e h))
        (swaps-Follows first d e f before)
  swaps-Follows first d d' f (interrupted revision expected s r e _ before h) =
      let g = swaps-Follows first d e f before in
      record {
        current = g.current;
        loaded = interrupted_swap-kept x digests revision expected s e g.loaded h;
        later = g.later;
        history = g.history;
      }

  -- From a disk whose pointer names a generation, any number of swaps, returning, raising or
  -- interrupted before the pointer is replaced, leaves a disk whose pointer names a generation that
  -- loads, where orphans are allowed: its revision is no smaller, and its state
  -- continues the first one's, with the same run and with histories that only grew.
  pub swaps-Continues :
      (first : StateGeneration) (d d' : Disk)
      → load_optional x true d ≡ ok (some first)
      → Swaps d d'
      → (last : StateGeneration) × (load_optional x true d' ≡ ok (some last))
        × (first.revision ≤ last.revision)
        × Continues first.state last.state
  swaps-Continues first d d' loaded swaps =
      let f =
        swaps-Follows first d d'
          (record { current = first; loaded = loaded; later = omega arith; history = start })
          swaps in
      (f.current, f.loaded, f.later, History-Continues first.state f.current.state f.history)

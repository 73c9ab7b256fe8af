-- ===== src/State/Generations/Recovery.antt =====
-- What an interrupted swap leaves, and which swap can go on from there.
use mathlib.Core.Path.{subst}
use auto_code.Common.{
  ok-injective, ℕ, String, true, Option, none, some, ◌∷◌, text_Eq, option_Eq, Result, ok, err, ◌≡◌,
  refl, ◌∙◌, sym, ap,
}
use auto_code.Contracts.RunState.{RunState}
use auto_code.State.Context.{StateGeneration, StoreError, StoreContext, corrupt}
use auto_code.State.Generations.{
  Disk, Envelope, envelope_of, Records, record_of, find_generation, is_free_for, added,
  create_generation, load_optional, load, next_generation, compare_and_swap,
}
use auto_code.State.Generations.Interruption.{
  os_error, SwapFailure, interrupted_over, interrupted_made, interrupted_swap,
}
use auto_code.State.Generations.Orphans.{records-added, orphan-kept, orphan-refused}
use auto_code.State.Generations.Publication.{next-revision, compare_and_swap-Made}
use auto_code.State.Generations.Swap.{Digests, record_of-added, Made, next_generation-Made}

module _ (x : StoreContext) (digests : Digests x) where
  Made-kept :
      (revision : ℕ) (expected : String) (s : RunState) (d : Disk) (g : StateGeneration)
      (o : Option (Option Envelope)) {current : Option StateGeneration} {e : SwapFailure}
      {d' : Disk}
      → Made x d revision expected s g
      → find_generation g.revision g.state_hash d.entries ≡ o
      → load_optional x true d ≡ ok current
      → interrupted_over x g d o ≡ (e, d')
      → load_optional x true d' ≡ ok current
  unfolding interrupted_over
  Made-kept revision expected s d g none {current} m absent loaded h =
      let same : m.current ≡ current = ok-injective (sym loaded ∙ m.loaded) in
      subst (λ v. load_optional x true v ≡ ok current) (ap (λ p. p.1) h)
        (orphan-kept x d m.current g m.recoverable
            (next-revision x digests d revision expected s g m) absent m.loaded
          ∙ ap ok same)
  Made-kept revision expected s d g (some c) {current} m there loaded h =
      subst (λ v. load_optional x true v ≡ ok current) (ap (λ p. p.1) h) loaded

  interrupted_Made-kept :
      (revision : ℕ) (expected : String) (s : RunState) (d : Disk)
      (n : Result StoreError StateGeneration) {current : Option StateGeneration} {e : SwapFailure}
      {d' : Disk}
      → next_generation x d revision expected s ≡ n
      → load_optional x true d ≡ ok current
      → interrupted_made x n d ≡ (e, d')
      → load_optional x true d' ≡ ok current
  unfolding interrupted_made
  interrupted_Made-kept revision expected s d (err r) {current} made loaded h =
      subst (λ v. load_optional x true v ≡ ok current) (ap (λ p. p.1) h) loaded
  interrupted_Made-kept revision expected s d (ok g) made loaded h =
      Made-kept revision expected s d g (find_generation g.revision g.state_hash d.entries)
        (next_generation-Made x d revision expected s g made) refl loaded h

  -- Whatever an interrupted swap leaves, a load that allows orphans reads what it read before.
  pub interrupted_swap-kept :
      (revision : ℕ) (expected : String) (s : RunState) (d : Disk)
      {current : Option StateGeneration} {e : SwapFailure} {d' : Disk}
      → load_optional x true d ≡ ok current
      → interrupted_swap x revision expected s d ≡ (e, d')
      → load_optional x true d' ≡ ok current
  unfolding interrupted_swap
  interrupted_swap-kept revision expected s d loaded h =
      interrupted_Made-kept revision expected s d (next_generation x d revision expected s) refl
        loaded h

  -- The hash that is free for a revision which has a record is that of the record.
  free-same :
      (n : ℕ) (h k : String) (rs : Records)
      → is_free_for k (record_of n ((n, h) ∷ rs)) ≡ true
      → h ≡ k
  unfolding is_free_for
  free-same n h k rs free =
      (text_Eq.beq_iff h k).0 (subst (λ o. is_free_for k o ≡ true) (record_of-added n h rs) free)

  -- A swap at the same revision that returns is of the generation that the orphan holds.
  orphan-exact :
      (revision : ℕ) (expected : String) (s : RunState) (d : Disk) (g : StateGeneration)
      (m : Made x d revision expected s g) (late : String) (t : RunState) {g' : StateGeneration}
      {d' : Disk}
      → find_generation g.revision g.state_hash d.entries ≡ none
      → compare_and_swap x revision late t (added x g d) ≡ (ok g', d')
      → g'.state_hash ≡ g.state_hash
  unfolding create_generation
  orphan-exact revision expected s d g m late t {g'} absent h =
      let (m', _) = compare_and_swap-Made x digests revision late t (added x g d) h in
      let records : m'.recoverable.records ≡ (g.revision, g.state_hash) ∷ m.recoverable.records =
        ok-injective (
          sym (records-added d m.current g m.recoverable absent (some (envelope_of x g)))
          ∙ m'.recoverable.read) in
      let number : g'.revision ≡ g.revision =
        ap (λ (k : StateGeneration). k.revision) m'.made
        ∙ sym (ap (λ (k : StateGeneration). k.revision) m.made) in
      sym (
        free-same g.revision g.state_hash g'.state_hash m.recoverable.records (
          subst (λ rs. is_free_for g'.state_hash (record_of g.revision rs) ≡ true) records
            (subst (λ n. is_free_for g'.state_hash (record_of n m'.recoverable.records) ≡ true)
              number m'.recoverable.free)))

  -- A swap that makes a generation whose file is not there yet, and that is interrupted before it
  -- replaces the pointer, raises and leaves that file as an orphan: a load refuses the disk as corrupt,
  -- a load that allows orphans reads what it read before, and only a swap of the orphan's state hash
  -- can return at that revision.
  pub interrupted_swap-orphan :
      (revision : ℕ) (expected : String) (s : RunState) (d : Disk) {g : StateGeneration}
      → next_generation x d revision expected s ≡ ok g
      → find_generation g.revision g.state_hash d.entries ≡ none
      → (interrupted_swap x revision expected s d ≡ (os_error, added x g d))
        × (load x (added x g d) ≡ err corrupt)
        × (load_optional x true (added x g d) ≡ load_optional x true d)
        × ((late : String) (t : RunState) (g' : StateGeneration) (d' : Disk)
            → compare_and_swap x revision late t (added x g d) ≡ (ok g', d')
            → g'.state_hash ≡ g.state_hash)
  unfolding interrupted_swap interrupted_made interrupted_over
  interrupted_swap-orphan revision expected s d {g} made absent =
      let m = next_generation-Made x d revision expected s g made in
      let next = next-revision x digests d revision expected s g m in
      (
        ap (λ n. interrupted_made x n d) made ∙ ap (interrupted_over x g d) absent,
        orphan-refused x d m.current g m.recoverable next absent m.loaded,
        orphan-kept x d m.current g m.recoverable next absent m.loaded ∙ sym m.loaded,
        λ late t g' d' h. orphan-exact revision expected s d g m late t absent h,
      )

-- ===== src/State/Generations/Publication.antt =====
-- `compare_and_swap` as a whole: what is on the disk when it returns or raises.
use mathlib.Core.Path.{subst}
use auto_code.Common.{
  ok-injective, and_three, ℕ, ◌+◌, String, Bool, true, false, Option, none, some, num_eq,
  num_eq_iff, ◌==◌, text_Eq, Result, ok, err, ◌>>=◌, ◌>>◌, guard, ◌≡◌, refl, ◌∙◌, sym, ap, arith,
}
use auto_code.Contracts.Equality.{RunState_Eq}
use auto_code.Contracts.RunState.{RunState}
use auto_code.State.Acceptance.Inversion.{validate_transition-Accepted}
use auto_code.State.Context.{
  StateGeneration, StoreError, StoreContext, conflict, corrupt, invalid_argument,
}
use auto_code.State.Digests.{is_sha256}
use auto_code.State.Generations.{
  Disk, Envelope, envelope_of, find_generation, revision_of, require_expected, added, pointed,
  same_generation, state_hash_of, create_generation, make_generation, empty_state_hash,
  check_envelope, load_generation, check_history, load_optional, found, load, loader,
  next_generation, adopt_if, adopt, publish_over, publish, publish_made, compare_and_swap,
}
use auto_code.State.Generations.Swap.{
  Digests, check_envelope-created, load_optional-pointed, load_generation-added,
  require_complete-added, require_complete-there, require_expected-revision, Made,
  next_generation-Made,
}

-- A generation on the disk, with its whole history behind it.
pub record Published (x : StoreContext) (g : StateGeneration) (d : Disk) : Type 0 where
  pub loaded : load_optional x true d ≡ ok (some g)
  pub complete : load_optional x false d ≡ ok (some g)

-- The part of a swap after the load.
abbrev late_swap :
    StoreContext
    → ℕ
    → String
    → RunState
    → Disk
    → Option StateGeneration
    → Result StoreError StateGeneration
late_swap x revision expected s d current =
    require_expected (empty_state_hash x) current revision (x.lower expected)
    >> make_generation x d revision s current

module _ (x : StoreContext) (digests : Digests x) where
  pub next-revision :
      (d : Disk) (revision : ℕ) (expected : String) (s : RunState) (g : StateGeneration)
      (m : Made x d revision expected s g)
      → g.revision ≡ revision_of m.current + 1
  unfolding create_generation
  next-revision d revision expected s g m =
      ap (λ (k : StateGeneration). k.revision) m.made
      ∙ ap (◌+ 1) (
          sym (
            require_expected-revision (empty_state_hash x) m.current revision (x.lower expected)
              m.matched))

  low-hash :
      (d : Disk) (revision : ℕ) (expected : String) (s : RunState) (g : StateGeneration)
      → Made x d revision expected s g
      → x.lower g.state_hash ≡ g.state_hash
  unfolding create_generation state_hash_of
  low-hash d revision expected s g m =
      subst (λ (k : StateGeneration). x.lower k.state_hash ≡ k.state_hash) (sym m.made)
        (digests.lowercase (x.dump_state s))

  check_envelope-Made :
      (d : Disk) (revision : ℕ) (expected : String) (s : RunState) (g : StateGeneration)
      → Made x d revision expected s g
      → check_envelope x g.revision g.state_hash (envelope_of x g) ≡ ok g
  unfolding create_generation
  check_envelope-Made d revision expected s g m =
      let a = validate_transition-Accepted x (loader x d) m.current s m.accepted in
      subst
        (λ (k : StateGeneration). check_envelope x k.revision k.state_hash (envelope_of x k) ≡ ok k)
        (sym m.made)
        (check_envelope-created x digests (revision + 1) s a.valid a.persistable a.own_run
          a.identified)

  -- What was published is read back, with its history or without.
  added-Published :
      (d : Disk) (revision : ℕ) (expected : String) (s : RunState) (g : StateGeneration)
      → Made x d revision expected s g
      → find_generation g.revision g.state_hash d.entries ≡ none
      → Published x g (pointed g (added x g d))
  unfolding check_history
  added-Published d revision expected s g m absent =
      let low = low-hash d revision expected s g m in
      let read =
        load_generation-added x digests d g m.path
          (check_envelope-Made d revision expected s g m) in
      let complete =
        require_complete-added d m.current g (next-revision d revision expected s g m) m.recoverable
          absent (some (envelope_of x g)) in
      record {
        loaded = load_optional-pointed x digests true (added x g d) g m.path low read refl;
        complete = load_optional-pointed x digests false (added x g d) g m.path low read complete;
      }

  there-Published :
      (d : Disk) (revision : ℕ) (expected : String) (s : RunState) (g : StateGeneration)
      (c : Option Envelope)
      → Made x d revision expected s g
      → find_generation g.revision g.state_hash d.entries ≡ some c
      → load_generation x d g.revision g.state_hash ≡ ok g
      → Published x g (pointed g d)
  unfolding check_history
  there-Published d revision expected s g c m there read =
      let low = low-hash d revision expected s g m in
      let complete =
        require_complete-there d m.current g c (next-revision d revision expected s g m)
          m.recoverable there in
      record {
        loaded = load_optional-pointed x digests true d g m.path low read refl;
        complete = load_optional-pointed x digests false d g m.path low read complete;
      }

  same_generation-eq : (a b : StateGeneration) → same_generation a b ≡ true → a ≡ b
  unfolding same_generation
  same_generation-eq a b h =
      let (revision, hash, state) =
        and_three (num_eq a.revision b.revision) (a.state_hash == b.state_hash) (a.state == b.state)
          h in
      cc (
        (num_eq_iff a.revision b.revision).0 revision,
        (text_Eq.beq_iff a.state_hash b.state_hash).0 hash,
        (RunState_Eq.beq_iff a.state b.state).0 state,
      )

  adopt_if-ok :
      (b : Bool) (g : StateGeneration) (d : Disk) {g' : StateGeneration} {d' : Disk}
      → adopt_if b g d ≡ (ok g', d')
      → (b ≡ true) × (g' ≡ g) × (d' ≡ pointed g d)
  unfolding adopt_if
  adopt_if-ok true g d h = (refl, ok-injective (ap (λ p. p.0) h), sym (ap (λ p. p.1) h))
  adopt_if-ok false g d h = absurd (raised (ap (λ p. p.0) h))
    where
      raised : {a : StateGeneration} → Result.err corrupt ≡ ok a → ⊥
      raised h = cc

  adopt-ok :
      (g : StateGeneration) (d : Disk) (o : Result StoreError StateGeneration)
      {g' : StateGeneration} {d' : Disk}
      → adopt x g d o ≡ (ok g', d')
      → (o ≡ ok g) × (g' ≡ g) × (d' ≡ pointed g d)
  unfolding adopt
  adopt-ok g d (err e) h = absurd (raised (ap (λ p. p.0) h))
    where
      raised : {a : StateGeneration} → Result.err e ≡ ok a → ⊥
      raised h = cc
  adopt-ok g d (ok existing) h =
      let (same, returned, disk) = adopt_if-ok (same_generation existing g) g d h in
      (ap ok (same_generation-eq existing g same), returned, disk)

  publish_over-Published :
      (d : Disk) (revision : ℕ) (expected : String) (s : RunState) (g : StateGeneration)
      (there : Option (Option Envelope)) {g' : StateGeneration} {d' : Disk}
      → Made x d revision expected s g
      → find_generation g.revision g.state_hash d.entries ≡ there
      → publish_over x g d there ≡ (ok g', d')
      → (g' ≡ g) × Published x g d'
  unfolding publish_over
  publish_over-Published d revision expected s g none m at h = (
    ok-injective (ap (λ p. p.0) h),
    subst (Published x g) (ap (λ p. p.1) h) (added-Published d revision expected s g m at),
  )
  publish_over-Published d revision expected s g (some c) m at h =
      let (read, same, disk) = adopt-ok g d (load_generation x d g.revision g.state_hash) h in
      (same, subst (Published x g) (sym disk) (there-Published d revision expected s g c m at read))

  publish_made-Made :
      (m : Result StoreError StateGeneration) (d : Disk) {g : StateGeneration} {d' : Disk}
      → publish_made x m d ≡ (ok g, d')
      → (k : StateGeneration) × (m ≡ ok k) × (publish x k d ≡ (ok g, d'))
  unfolding publish_made
  publish_made-Made (err e) d h = absurd (raised (ap (λ p. p.0) h))
    where
      raised : {a : StateGeneration} → Result.err e ≡ ok a → ⊥
      raised h = cc
  publish_made-Made (ok k) d h = (k, refl, h)

  -- What a swap that returns has done.
  pub compare_and_swap-Made :
      (revision : ℕ) (expected : String) (s : RunState) (d : Disk) {g : StateGeneration} {d' : Disk}
      → compare_and_swap x revision expected s d ≡ (ok g, d')
      → Made x d revision expected s g × Published x g d'
  unfolding compare_and_swap publish
  compare_and_swap-Made revision expected s d {g} {d'} h =
      let (k, made, published) = publish_made-Made (next_generation x d revision expected s) d h in
      let m = next_generation-Made x d revision expected s k made in
      let (same, on_disk) =
        publish_over-Published d revision expected s k
          (find_generation k.revision k.state_hash d.entries) m refl published in
      (
        subst (Made x d revision expected s) (sym same) m,
        subst (λ (r : StateGeneration). Published x r d') (sym same) on_disk,
      )

  found-load :
      (d : Disk) (g : StateGeneration) → load_optional x false d ≡ ok (some g) → load x d ≡ ok g
  unfolding load found
  found-load d g h = ap (λ m. m >>= found x) h

  -- A swap that returns gives the generation of the next revision, with the state that it was given
  -- and that state's hash; and the disk that it leaves loads as this generation, its history complete.
  pub compare_and_swap-load :
      (revision : ℕ) (expected : String) (s : RunState) (d : Disk) {g : StateGeneration} {d' : Disk}
      → compare_and_swap x revision expected s d ≡ (ok g, d')
      → (g ≡ create_generation x (revision + 1) s) × (load x d' ≡ ok g)
  compare_and_swap-load revision expected s d {g} {d'} h =
      let (m, on_disk) = compare_and_swap-Made revision expected s d h in
      (m.made, found-load d' g on_disk.complete)

  refused-late :
      (empty : String) (g : StateGeneration) (revision : ℕ) (h : String)
      → g.revision ≡ revision + 1
      → require_expected empty (some g) revision h ≡ err conflict
  unfolding require_expected
  refused-late empty g revision h next = ground (arith, next)

  -- Of two writers that start from the same revision one wins: once a swap has returned, any other
  -- swap that expects that revision is refused with a conflict, whatever hash of the right form it
  -- expects and whatever state it brings, and leaves the disk as it is.
  pub compare_and_swap-conflict :
      (revision : ℕ) (expected : String) (s : RunState) (d : Disk) {g : StateGeneration} {d' : Disk}
      (late : String) (t : RunState)
      → compare_and_swap x revision expected s d ≡ (ok g, d')
      → is_sha256 late ≡ true
      → compare_and_swap x revision late t d' ≡ (err conflict, d')
  unfolding compare_and_swap next_generation publish_made
  compare_and_swap-conflict revision expected s d {g} {d'} late t h shape =
      let (m, on_disk) = compare_and_swap-Made revision expected s d h in
      let next : g.revision ≡ revision + 1 =
        next-revision d revision expected s g m
        ∙ ap (◌+ 1) (
            require_expected-revision (empty_state_hash x) m.current revision (x.lower expected)
              m.matched) in
      ap (λ r. publish_made x r d')
        (ap
            (λ b.
              guard b invalid_argument
              >> (load_optional x true d' >>= late_swap x revision late t d'))
            shape
          ∙ ap (λ m. m >>= late_swap x revision late t d') on_disk.loaded
          ∙ ap (λ m. m >> make_generation x d' revision t (some g))
              (refused-late (empty_state_hash x) g revision (x.lower late) next))

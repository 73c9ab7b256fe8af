-- ===== src/State/Generations/Swap.antt =====
-- What `compare_and_swap` leaves on the disk.
use mathlib.Core.Path.{subst}
use auto_code.Common.{
  then-ok, guard-ok, ok-injective, and-true, ℕ, ◌+◌, String, Bool, true, false, ◌&&◌, Option, none,
  some, ◌∷◌, num_eq, num_eq_iff, num_Eq, ◌==◌, text_Eq, option_Eq, Result, ok, ◌>>=◌, ◌>>◌, guard,
  ◌≡◌, refl, ◌∙◌, sym, ap, arith, >>=-eq-ok, Option-cases, inl, inr,
}
use auto_code.Contracts.Equality.{RunState_Eq}
use auto_code.Contracts.Json.{Json, hash_json}
use auto_code.Contracts.RunState.{RunState}
use auto_code.Contracts.RunState.Validation.{IsValid, IsValid-validate_state}
use auto_code.State.Acceptance.{has_identifiers, validate_transition}
use auto_code.State.Acceptance.Inversion.{validate_transition-same}
use auto_code.State.Context.{
  StateGeneration, StoreError, StoreContext, conflict, corrupt, invalid_argument,
}
use auto_code.State.Digests.{is_sha256}
use auto_code.State.Generations.{
  Disk, Envelope, filed, envelope_of, Records, record_of, has_record, recorded_in,
  generation_records, find_generation, covers, is_within, is_within_or, has_path, revision_of,
  records_current, is_free_for, require_recoverable, require_complete, require_expected, added,
  pointed, state_hash_of, create_generation, make_generation, empty_state_hash, check_envelope,
  read_generation, load_generation, check_history, load_pointed, load_optional, loader,
  next_generation,
}
use auto_code.State.Generations.Records.{
  is_within_or-IsWithin, covers-cons, record_of-has_record, has_record-record_of,
  recorded_in-absent, find_generation-has_record, record_of-find_generation,
}

-- What the store relies on of SHA-256 and `str.lower`: a digest is in lower case.
pub record Digests (x : StoreContext) : Type 0 where
  pub lowercase :
      (j : Json) → x.lower (hash_json x.externals.hasher j) ≡ hash_json x.externals.hasher j

guard-then :
    {A : Type 0} (b : Bool) (e : StoreError) (k : Result StoreError A)
    → b ≡ true
    → (guard b e >> k) ≡ k
guard-then b e k h = rw h

module _ (x : StoreContext) (digests : Digests x) where
  -- The checks of an envelope pass on a generation that was made of an accepted state.
  pub check_envelope-created :
      (n : ℕ) (s : RunState)
      → IsValid x.externals s
      → x.is_persistable (x.dump_state s) ≡ true
      → (s.run_id == x.run_id) ≡ true
      → has_identifiers s ≡ true
      → check_envelope x n (state_hash_of x s) (envelope_of x (create_generation x n s))
        ≡ ok (create_generation x n s)
  unfolding check_envelope create_generation state_hash_of
  check_envelope-created n s valid persistable own identified = rw (
    (num_Eq.beq_iff n n).1 refl,
    (text_Eq.beq_iff (state_hash_of x s) (state_hash_of x s)).1 refl,
    digests.lowercase (x.dump_state s),
    (text_Eq.beq_iff (state_hash_of x s) (state_hash_of x s)).1 refl,
    persistable,
    IsValid-validate_state x.externals s valid,
    own,
    identified,
  )

  -- A disk whose pointer names a generation that loads is loaded as that, if its history is not asked
  -- for or complete.
  pub load_optional-pointed :
      (allow : Bool) (d : Disk) (g : StateGeneration)
      → has_path g.revision g.state_hash ≡ true
      → x.lower g.state_hash ≡ g.state_hash
      → load_generation x d g.revision g.state_hash ≡ ok g
      → check_history x allow (pointed g d) g ≡ ok tt
      → load_optional x allow (pointed g d) ≡ ok (some g)
  unfolding load_optional load_pointed
  load_optional-pointed allow d g path low loaded complete =
      let test : (has_path g.revision g.state_hash && x.lower g.state_hash == g.state_hash) ≡ true =
        rw (path, low) ((text_Eq.beq_iff g.state_hash g.state_hash).1 refl) in
      ap
        (λ b.
          guard b corrupt
          >> (load_generation x (pointed g d) g.revision g.state_hash >>= λ g'.
              check_history x allow (pointed g d) g' >> ok (some g')))
        test
      ∙ ap (λ m. m >>= (λ g'. check_history x allow (pointed g d) g' >> ok (some g'))) loaded
      ∙ ap (λ m. m >> ok (some g)) complete

  -- The file that was added is read back.
  pub load_generation-added :
      (d : Disk) (g : StateGeneration)
      → has_path g.revision g.state_hash ≡ true
      → check_envelope x g.revision g.state_hash (envelope_of x g) ≡ ok g
      → load_generation x (added x g d) g.revision g.state_hash ≡ ok g
  unfolding load_generation find_generation read_generation
  load_generation-added d g path checked = rw (
    path,
    (num_Eq.beq_iff g.revision g.revision).1 refl,
    (text_Eq.beq_iff g.state_hash g.state_hash).1 refl,
    checked,
  )

-- What `_require_recoverable_generation` leaves of the records.
pub record Recoverable (d : Disk) (current : Option StateGeneration) (g : StateGeneration)
    : Type 0 where
  pub records : Records
  pub read : generation_records d.entries ≡ ok records
  pub within : is_within_or (revision_of current) g.revision records ≡ true
  pub covered : covers (revision_of current) records ≡ true
  pub free : is_free_for g.state_hash (record_of g.revision records) ≡ true

require_recoverable-Recoverable :
    (d : Disk) (current : Option StateGeneration) (g : StateGeneration)
    → require_recoverable d current g ≡ ok tt
    → Recoverable d current g
unfolding require_recoverable
require_recoverable-Recoverable d current g h =
    let (records, read, h) = >>=-eq-ok (generation_records d.entries) _ h in
    let (within, h) =
      then-ok (guard (is_within_or (revision_of current) g.revision records) corrupt) _ h in
    let (covered, h) = then-ok (guard (covers (revision_of current) records) corrupt) _ h in
    let (_, free) = then-ok (guard (records_current current records) corrupt) _ h in
    record {
      records = records;
      read = read;
      within = guard-ok _ corrupt within;
      covered = guard-ok _ corrupt covered;
      free = guard-ok _ corrupt free;
    }

has_record-added :
    (n m : ℕ) (h : String) (records : Records)
    → n ≡ m + 1
    → has_record (m + 1) ((n, h) ∷ records) ≡ true
unfolding has_record
has_record-added n m h records next = ground (arith, next)

pub record_of-added :
    (n : ℕ) (h : String) (records : Records) → record_of n ((n, h) ∷ records) ≡ some h
unfolding record_of
record_of-added n h records = rw (num_Eq.beq_iff n n).1 refl

-- A generation whose file is not there has no record of its revision.
pub unrecorded :
    (d : Disk) (current : Option StateGeneration) (g : StateGeneration)
    (r : Recoverable d current g)
    → find_generation g.revision g.state_hash d.entries ≡ none
    → has_record g.revision r.records ≡ false
unfolding is_free_for
unrecorded d current g r absent = elim (Option-cases (record_of g.revision r.records)) [
  | inl none_there ↦ record_of-has_record g.revision r.records none_there
  | inr (k, at) ↦
      (let same : (k == g.state_hash) ≡ true =
          subst (λ o. is_free_for g.state_hash o ≡ true) at r.free in
        absurd (
          record_of-find_generation g.revision g.state_hash d.entries r.records r.read absent
            (at ∙ ap some ((text_Eq.beq_iff k g.state_hash).0 same))))
]

is_within-added :
    (n m : ℕ) (h : String) (records : Records)
    → n ≡ m + 1
    → is_within (m + 1) records ≡ true
    → is_within n ((n, h) ∷ records) ≡ true
unfolding is_within
is_within-added n m h records next within = ground (arith, next, within)

covers-next :
    (n : ℕ) (records : Records)
    → has_record (n + 1) records ≡ true
    → covers n records ≡ true
    → covers (n + 1) records ≡ true
unfolding covers
covers-next n records has covered = ground (arith, has, covered)

-- The records that a complete history has.
complete-records :
    (d : Disk) (g : StateGeneration) (records : Records)
    → generation_records d.entries ≡ ok records
    → is_within g.revision records ≡ true
    → covers g.revision records ≡ true
    → record_of g.revision records ≡ some g.state_hash
    → require_complete d g ≡ ok tt
unfolding require_complete
complete-records d g records read within covered at =
    rw (read, within, covered, at, (text_Eq.beq_iff g.state_hash g.state_hash).1 refl) refl

-- The history is complete when the file of the next revision is added.
pub require_complete-added :
    (d : Disk) (current : Option StateGeneration) (g : StateGeneration)
    → g.revision ≡ revision_of current + 1
    → Recoverable d current g
    → find_generation g.revision g.state_hash d.entries ≡ none
    → (content : Option Envelope) → require_complete (pointed g (filed content g d)) g ≡ ok tt
unfolding generation_records is_within covers record_of
require_complete-added d current g next r absent content =
    complete-records (pointed g (filed content g d)) g ((g.revision, g.state_hash) ∷ r.records)
      (ap (λ m. m >>= recorded_in g.revision g.state_hash) r.read
        ∙ recorded_in-absent g.revision g.state_hash r.records (unrecorded d current g r absent))
      (is_within-added g.revision (revision_of current) g.state_hash r.records next (
        is_within_or-IsWithin (revision_of current) r.records
          (subst (λ n. is_within_or (revision_of current) n r.records ≡ true) next r.within)))
      (subst (λ n. covers n ((g.revision, g.state_hash) ∷ r.records) ≡ true) (sym next)
        (covers-next (revision_of current) ((g.revision, g.state_hash) ∷ r.records)
          (has_record-added g.revision (revision_of current) g.state_hash r.records next)
          (covers-cons (revision_of current) g.revision g.state_hash r.records r.covered)))
      (record_of-added g.revision g.state_hash r.records)

-- The history is complete when that file was there already.
pub require_complete-there :
    (d : Disk) (current : Option StateGeneration) (g : StateGeneration) (c : Option Envelope)
    → g.revision ≡ revision_of current + 1
    → Recoverable d current g
    → find_generation g.revision g.state_hash d.entries ≡ some c
    → require_complete (pointed g d) g ≡ ok tt
unfolding is_free_for covers
require_complete-there d current g c next r there =
    let has =
      find_generation-has_record g.revision g.state_hash d.entries r.records c r.read there in
    let (k, at) = has_record-record_of g.revision r.records has in
    let same : (k == g.state_hash) ≡ true =
      subst (λ o. is_free_for g.state_hash o ≡ true) at r.free in
    complete-records (pointed g d) g r.records r.read
      (subst (λ n. is_within n r.records ≡ true) (sym next)
        (is_within_or-IsWithin (revision_of current) r.records
          (subst (λ n. is_within_or (revision_of current) n r.records ≡ true) next r.within)))
      (subst (λ n. covers n r.records ≡ true) (sym next)
        (covers-next (revision_of current) r.records
          (subst (λ n. has_record n r.records ≡ true) next has) r.covered))
      (at ∙ ap some ((text_Eq.beq_iff k g.state_hash).0 same))

-- What a generation passed before it is published.
pub record Made (x : StoreContext) (d : Disk) (revision : ℕ) (expected : String) (s : RunState)
    (g : StateGeneration) : Type 0 where
  pub current : Option StateGeneration
  pub loaded : load_optional x true d ≡ ok current
  pub matched : require_expected (empty_state_hash x) current revision (x.lower expected) ≡ ok tt
  pub accepted : validate_transition x (loader x d) current s ≡ ok s
  pub recoverable : Recoverable d current g
  pub path : has_path g.revision g.state_hash ≡ true
  pub made : g ≡ create_generation x (revision + 1) s

pub require_expected-revision :
    (empty : String) (current : Option StateGeneration) (revision : ℕ) (h : String)
    → require_expected empty current revision h ≡ ok tt
    → revision_of current ≡ revision
unfolding require_expected revision_of
require_expected-revision empty none revision h e =
    let (start, _) = and-true (num_eq revision 0) (h == empty) (guard-ok _ conflict e) in
    sym ((num_eq_iff revision 0).0 start)
require_expected-revision empty (some g) revision h e =
    let (same, _) =
      and-true (num_eq g.revision revision) (g.state_hash == h) (guard-ok _ conflict e) in
    (num_eq_iff g.revision revision).0 same

pub next_generation-Made :
    (x : StoreContext) (d : Disk) (revision : ℕ) (expected : String) (s : RunState)
    (g : StateGeneration)
    → next_generation x d revision expected s ≡ ok g
    → Made x d revision expected s g
unfolding next_generation make_generation create_generation
next_generation-Made x d revision expected s g h =
    let (_, h) = then-ok (guard (is_sha256 expected) invalid_argument) _ h in
    let (current, loaded, h) = >>=-eq-ok (load_optional x true d) _ h in
    let (matched, h) =
      then-ok (require_expected (empty_state_hash x) current revision (x.lower expected)) _ h in
    let (t, accepted, h) = >>=-eq-ok (validate_transition x (loader x d) current s) _ h in
    let (recoverable, h) =
      then-ok (require_recoverable d current (create_generation x (revision + 1) t)) _ h in
    let (path, done) =
      then-ok (guard (has_path (revision + 1) (state_hash_of x t)) invalid_argument) _ h in
    let same = validate_transition-same x (loader x d) current s accepted in
    let created = ok-injective done in
    let renamed = created ∙ ap (create_generation x (revision + 1)) same in
    record {
      current = current;
      loaded = loaded;
      matched = matched;
      accepted = subst (λ u. validate_transition x (loader x d) current s ≡ ok u) same accepted;
      recoverable = subst (Recoverable d current) (sym created) (
          require_recoverable-Recoverable d current (create_generation x (revision + 1) t)
            recoverable);
      path =
          subst (λ (k : StateGeneration). has_path k.revision k.state_hash ≡ true) (sym created)
            (guard-ok _ invalid_argument path);
      made = renamed;
    }

-- ===== src/State/Generations.antt =====
-- src/auto_code/state.py: the generations of a run on disk, `load` and `compare_and_swap`.

pub mod Records
pub mod Swap
pub mod Publication
pub mod Interruption
pub mod Orphans
pub mod Recovery
pub mod Refusals
pub mod Runs
use auto_code.Common.{
  ℕ, ◌+◌, zero, suc, String, Bool, true, false, not, ◌&&◌, ◌||◌, Option, none, some, List, [], ◌∷◌,
  num_eq, leb, all, Eq, ◌==◌, text_Eq, option_Eq, Result, ok, err, ◌>>=◌, ◌>>◌, guard,
  if◌then◌else◌,
}
use auto_code.Contracts.Equality.{RunState_Eq}
use auto_code.Contracts.Json.{Json, null, hash_json}
use auto_code.Contracts.RunState.{RunState}
use auto_code.Contracts.RunState.Checks.{StateError}
use auto_code.Contracts.RunState.Validation.{validate_state}
use auto_code.State.Acceptance.{has_identifiers, validate_transition}
use auto_code.State.Context.{
  StateGeneration, StoreError, StoreContext, state_not_found, corrupt, conflict, invalid_argument,
}
use auto_code.State.Digests.{is_sha256}
use auto_code.State.Receipts.{GenerationLoader}

-- The content of a generation file: the JSON value of its state, and the fields that it parses to.
pub record Envelope : Type 0 where
  pub revision : ℕ
  pub state_hash : String
  pub raw_state : Json
  pub state : RunState

-- A file of the generation directory. One that is no regular file, or that has another name than a
-- generation or a temporary file, is `invalid`. A generation has its revision and hash in its name;
-- its content is `none` where it is not canonical JSON of the shape of an envelope, or the fields of
-- its state do not parse.
pub data Entry : Type 0 where
  temporary invalid : Entry
  generation : ℕ → String → Option Envelope → Entry

-- `current.json`; it is `unreadable` where it is not canonical JSON of the shape of a pointer.
pub data Pointer : Type 0 where
  missing unreadable : Pointer
  points : ℕ → String → Pointer

-- The directory of a run.
pub record Disk : Type 0 where
  pub pointer : Pointer
  pub entries : List Entry

-- The revisions in the directory, each with its hash.
abbrev pub Records : Type 0
Records = List (ℕ × String)

-- `records.get(revision)`
unfoldable pub record_of : ℕ → Records → Option String
record_of n [] = none
record_of n ((m, h) ∷ rest) = let later = record_of n rest in if num_eq m n then some h else later

unfoldable pub has_record : ℕ → Records → Bool
has_record n [] = false
has_record n ((m, h) ∷ rest) = num_eq m n || has_record n rest

-- A generation of the directory, read into the mapping.
unfoldable pub recorded_in : ℕ → String → Records → Result StoreError Records
unfolding has_record
recorded_in n h rest = guard (not (has_record n rest)) corrupt >> ok ((n, h) ∷ rest)

-- `_generation_records`
unfoldable pub generation_records : List Entry → Result StoreError Records
unfolding recorded_in
generation_records [] = ok []
generation_records (temporary ∷ rest) = generation_records rest
generation_records (invalid ∷ rest) = err corrupt
generation_records (generation n h content ∷ rest) = generation_records rest >>= recorded_in n h

-- The file of a revision and a hash.
unfoldable pub find_generation : ℕ → String → List Entry → Option (Option Envelope)
find_generation n h [] = none
find_generation n h (temporary ∷ rest) = find_generation n h rest
find_generation n h (invalid ∷ rest) = find_generation n h rest
find_generation n h (generation m k content ∷ rest) =
    let later = find_generation n h rest in if num_eq m n && k == h then some content else later

-- `expected_revisions.issubset(records)`, for the revisions from 1 to `n`
unfoldable pub covers : ℕ → Records → Bool
unfolding has_record
covers zero records = true
covers (suc n) records = has_record (suc n) records && covers n records

-- Every revision is from 1 to `n`.
unfoldable pub is_within : ℕ → Records → Bool
is_within n [] = true
is_within n ((m, h) ∷ rest) = (leb 1 m && leb m n) && is_within n rest

-- Every revision is from 1 to `n`, or the candidate's.
unfoldable pub is_within_or : ℕ → ℕ → Records → Bool
is_within_or n candidate [] = true
is_within_or n candidate ((m, h) ∷ rest) =
    ((leb 1 m && leb m n) || num_eq m candidate) && is_within_or n candidate rest

-- `generation_path` raises nothing.
unfoldable pub has_path : ℕ → String → Bool
unfolding is_sha256
has_path n h = leb 1 n && is_sha256 h

unfoldable pub revision_of : Option StateGeneration → ℕ
revision_of none = 0
revision_of (some g) = g.revision

-- `records[current.revision][0] == current.state_hash`
unfoldable pub records_current : Option StateGeneration → Records → Bool
unfolding record_of
records_current none records = true
records_current (some g) records = record_of g.revision records == some g.state_hash

-- No record of the candidate's revision, or one with its hash.
unfoldable pub is_free_for : String → Option String → Bool
is_free_for h none = true
is_free_for h (some k) = k == h

-- `_require_recoverable_generation`
unfoldable pub require_recoverable :
    Disk → Option StateGeneration → StateGeneration → Result StoreError (Unit {0})
unfolding generation_records is_within_or covers records_current is_free_for record_of revision_of
require_recoverable d current candidate = generation_records d.entries >>= λ records.
    guard (is_within_or (revision_of current) candidate.revision records) corrupt
    >> (guard (covers (revision_of current) records) corrupt
        >> (guard (records_current current records) corrupt
            >> guard (is_free_for candidate.state_hash (record_of candidate.revision records))
                corrupt))

-- `_require_complete_generation_history`
unfoldable pub require_complete : Disk → StateGeneration → Result StoreError (Unit {0})
unfolding generation_records is_within covers record_of
require_complete d g = generation_records d.entries >>= λ records.
    guard
      (is_within g.revision records
        && covers g.revision records
        && record_of g.revision records == some g.state_hash)
      corrupt

-- `_require_expected`, where `empty` is `EMPTY_STATE_HASH`
unfoldable pub require_expected :
    String → Option StateGeneration → ℕ → String → Result StoreError (Unit {0})
require_expected empty none revision h = guard (num_eq revision 0 && h == empty) conflict
require_expected empty (some g) revision h =
    guard (num_eq g.revision revision && g.state_hash == h) conflict

unfoldable pub no_records : Records → Bool
no_records [] = true
no_records (_ ∷ _) = false

abbrev pub as_corrupt : {A : Type 0} → Result StateError A → Result StoreError A
as_corrupt (ok a) = ok a
as_corrupt (err e) = err corrupt

-- The file of the generation now holds this content.
abbrev pub filed : Option Envelope → StateGeneration → Disk → Disk
filed content g d = record d { entries = generation g.revision g.state_hash content ∷ d.entries }

abbrev pub pointed : StateGeneration → Disk → Disk
pointed g d = record d { pointer = points g.revision g.state_hash }

unfoldable pub same_generation : StateGeneration → StateGeneration → Bool
same_generation a b =
    num_eq a.revision b.revision && a.state_hash == b.state_hash && a.state == b.state

-- `existing != generation`
unfoldable pub adopt_if : Bool → StateGeneration → Disk → Result StoreError StateGeneration × Disk
adopt_if true g d = (ok g, pointed g d)
adopt_if false g d = (err corrupt, d)

module _ (x : StoreContext) where
  -- `hash_json(state.model_dump(...))`
  unfoldable pub state_hash_of : RunState → String
  unfolding hash_json
  state_hash_of s = hash_json x.externals.hasher (x.dump_state s)

  -- `StateGeneration.create`
  unfoldable pub create_generation : ℕ → RunState → StateGeneration
  unfolding state_hash_of
  create_generation n s = record { revision = n; state_hash = state_hash_of s; state = s }

  -- `StateGeneration.envelope`
  abbrev pub envelope_of : StateGeneration → Envelope
  envelope_of g = record {
    revision = g.revision;
    state_hash = g.state_hash;
    raw_state = x.dump_state g.state;
    state = g.state;
  }

  -- The file now holds the generation.
  abbrev pub added : StateGeneration → Disk → Disk
  added g d = filed (some (envelope_of g)) g d

  unfoldable pub empty_state_hash : String
  unfolding hash_json
  empty_state_hash = hash_json x.externals.hasher null

  -- What `_load_generation_locked` asks of an envelope.
  unfoldable pub check_envelope : ℕ → String → Envelope → Result StoreError StateGeneration
  unfolding hash_json validate_state has_identifiers
  check_envelope n h e =
      guard (num_eq e.revision n && e.state_hash == h && x.lower e.state_hash == e.state_hash)
        corrupt
      >> (guard (hash_json x.externals.hasher e.raw_state == h) corrupt
          >> (guard (x.is_persistable e.raw_state) corrupt
              >> (as_corrupt (validate_state x.externals e.state) >>= λ s.
                  guard (s.run_id == x.run_id && has_identifiers s) corrupt
                  >> ok (record { revision = n; state_hash = h; state = s }))))

  unfoldable pub read_generation :
      ℕ → String → Option (Option Envelope) → Result StoreError StateGeneration
  unfolding check_envelope
  read_generation n h none = err corrupt
  read_generation n h (some none) = err corrupt
  read_generation n h (some (some e)) = check_envelope n h e

  -- `_load_generation_locked`
  unfoldable pub load_generation : Disk → ℕ → String → Result StoreError StateGeneration
  unfolding has_path find_generation read_generation
  load_generation d n h =
      guard (has_path n h) invalid_argument >> read_generation n h (find_generation n h d.entries)

  -- The history of a generation that was loaded, unless an orphan is allowed.
  unfoldable pub check_history : Bool → Disk → StateGeneration → Result StoreError (Unit {0})
  unfolding require_complete
  check_history true d g = ok tt
  check_history false d g = require_complete d g

  -- The branch on the pointer.
  unfoldable pub load_pointed : Bool → Disk → Pointer → Result StoreError (Option StateGeneration)
  unfolding generation_records no_records has_path load_generation check_history
  load_pointed allow d missing = generation_records d.entries >>= λ records.
      guard (no_records records || allow) corrupt >> ok none
  load_pointed allow d unreadable = err corrupt
  load_pointed allow d (points n h) =
      guard (has_path n h && x.lower h == h) corrupt
      >> (load_generation d n h >>= λ g. check_history allow d g >> ok (some g))

  -- `load_optional_locked`
  unfoldable pub load_optional : Bool → Disk → Result StoreError (Option StateGeneration)
  unfolding load_pointed
  load_optional allow d = load_pointed allow d d.pointer

  unfoldable pub found : Option StateGeneration → Result StoreError StateGeneration
  found none = err state_not_found
  found (some g) = ok g

  -- `load_locked`
  unfoldable pub load : Disk → Result StoreError StateGeneration
  unfolding load_optional found
  load d = load_optional false d >>= found

  -- The generation that a receipt names, where it can be loaded.
  unfoldable pub loader : Disk → GenerationLoader
  unfolding load_generation
  loader d n h = elim (load_generation d n h) [ ok g ↦ some g.state | err e ↦ none ]

  -- The generation of a state that follows the current one.
  unfoldable pub make_generation :
      Disk → ℕ → RunState → Option StateGeneration → Result StoreError StateGeneration
  unfolding validate_transition loader create_generation require_recoverable has_path state_hash_of
  make_generation d revision s current = validate_transition x (loader d) current s >>= λ t.
      require_recoverable d current (create_generation (revision + 1) t)
      >> (guard (has_path (revision + 1) (state_hash_of t)) invalid_argument
          >> ok (create_generation (revision + 1) t))

  -- The part of `compare_and_swap_locked` that writes nothing.
  unfoldable pub next_generation : Disk → ℕ → String → RunState → Result StoreError StateGeneration
  unfolding is_sha256 load_optional require_expected empty_state_hash make_generation
  next_generation d revision expected s =
      guard (is_sha256 expected) invalid_argument
      >> (load_optional true d >>= λ current.
          require_expected empty_state_hash current revision (x.lower expected)
          >> make_generation d revision s current)

  -- The file is there already: it must hold the generation.
  unfoldable pub adopt :
      StateGeneration
      → Disk
      → Result StoreError StateGeneration
      → Result StoreError StateGeneration × Disk
  unfolding same_generation adopt_if
  adopt g d (err e) = (err e, d)
  adopt g d (ok existing) = adopt_if (same_generation existing g) g d

  -- `_write_new_json` and what follows, on the file that the name has before
  unfoldable pub publish_over :
      StateGeneration → Disk → Option (Option Envelope) → Result StoreError StateGeneration × Disk
  unfolding adopt load_generation
  publish_over g d none = (ok g, pointed g (added g d))
  publish_over g d (some _) = adopt g d (load_generation d g.revision g.state_hash)

  unfoldable pub publish : StateGeneration → Disk → Result StoreError StateGeneration × Disk
  unfolding publish_over find_generation
  publish g d = publish_over g d (find_generation g.revision g.state_hash d.entries)

  -- A generation that was made, or the error before anything is written.
  unfoldable pub publish_made :
      Result StoreError StateGeneration → Disk → Result StoreError StateGeneration × Disk
  unfolding publish
  publish_made (err e) d = (err e, d)
  publish_made (ok g) d = publish g d

  -- `compare_and_swap_locked`
  unfoldable pub compare_and_swap :
      ℕ → String → RunState → Disk → Result StoreError StateGeneration × Disk
  unfolding publish_made next_generation
  compare_and_swap revision expected s d = publish_made (next_generation d revision expected s) d

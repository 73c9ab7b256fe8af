-- ===== src/Index.antt =====
-- src/auto_code/run_index.py: one record for each repository, of the run that is active or of the
-- reservation that prepares one.
pub mod Operations
pub mod Release
use auto_code.Common.{
  ℕ, ◌+◌, String, Bool, true, false, not, ◌&&◌, ◌||◌, Option, none, some, List, [], ◌∷◌, any, ltb,
  leb, num_eq, ◌==◌, text_Eq, num_Eq, is_some, Result, ok, err, ◌>>=◌, ◌>>◌, guard, if◌then◌else◌,
}
use auto_code.Contracts.Authorizations.{HumanAuthorization}
use auto_code.Contracts.Bindings.{IndexReleaseReceipt, IndexReleaseBinding}
use auto_code.Contracts.Effects.{lookup, insert}
use auto_code.Contracts.Enums.{HumanAuthorizationAction, RunDisposition}
use auto_code.Contracts.Json.{Json, Fields, obj, str, num, field, no_more, Hasher, hash_json}
use auto_code.Contracts.Receipts.{
  receipt_for, matches_release, signing_payload, Ed25519, has_release_signature,
}
use auto_code.Contracts.RunState.{RunState}
use auto_code.State.Context.{StateGeneration, StoreError, StoreContext}
use auto_code.State.Digests.{is_sha256}
use auto_code.State.Generations.{Disk, load}
use auto_code.State.Identifiers.{is_identifier}
use auto_code.State.Transitions.{Verifier, is_trusted_authorization}

-- What the record of a repository is for. Times are in seconds.
pub data IndexKind : Type 0 where
  reservation : ℕ → ℕ → String → ℕ → IndexKind
  no_candidate : String → String → IndexKind
  active : String → String → String → IndexKind

-- `_IndexEntry.record`. A reservation has the times of its issue and its expiry, and the host and the
-- process of its owner; an active run has the hash of its preparation input, its run and the hash of
-- its first generation.
pub record IndexRecord : Type 0 where
  pub repository_id : String
  pub reservation_id : String
  pub challenge_hash : String
  pub kind : IndexKind

pub record IndexEntry : Type 0 where
  pub revision : ℕ
  pub index_hash : String
  pub index_record : IndexRecord

-- A file of the index: not canonical JSON of the shape of an envelope with a record, or an envelope.
pub data IndexFile : Type 0 where
  unreadable : IndexFile
  envelope : IndexEntry → IndexFile

pub data IndexError : Type 0 where
  invalid_value index_corrupt index_conflict terminal_mismatch non_terminal : IndexError
  run_active reservation_exists : IndexError
  state_error : StoreError → IndexError

-- The files under the state root that the index reads and writes, by the names that they have, and
-- the directory of each run.
pub record IndexWorld : Type 0 where
  pub entries : List (String × IndexFile)
  pub releases : List (String × IndexReleaseReceipt)
  pub runs : String → Disk

-- `ReservationOwner`
pub record ReservationOwner : Type 0 where
  pub host : String
  pub pid : ℕ

-- `PreparationReservation`, with the challenge where it is known.
pub record PreparationReservation : Type 0 where
  pub repository_id : String
  pub reservation_id : String
  pub challenge_hash : String
  pub index_revision : ℕ
  pub index_hash : String
  pub issued_at : ℕ
  pub expires_at : ℕ
  pub owner_host : String
  pub owner_pid : ℕ
  pub challenge : Option String

-- `ActivationResult` of a run that is active.
pub record ActiveRun : Type 0 where
  pub repository_id : String
  pub run_id : String
  pub index_revision : ℕ
  pub index_hash : String
  pub initial_generation_hash : String

-- `IndexProbeResult`
pub data IndexProbeResult : Type 0 where
  found_active : ActiveRun → IndexProbeResult
  blocked reserved : PreparationReservation → IndexProbeResult

-- What a call draws from outside: the clock where a reservation is tested and where one is made,
-- `uuid4`, the challenge, and the process that runs it, on a host whose name is an identifier;
-- `is_gone` is whether `os.kill(pid, 0)` finds no process.
pub record Draw : Type 0 where
  pub now : ℕ
  pub issue_time : ℕ
  pub fresh_id : String
  pub challenge : String
  pub local_host : String
  pub own_pid : ℕ
  pub is_gone : ℕ → Bool

-- What the index is made with. `store` is the store of a run; `has_journal` whether the activation
-- journal of a reservation is there, and `complete_no_candidate` what completes the journal of one
-- that found no candidate, which stand for the activation of a reservation; `iso`
-- renders a time, and `lower` is `str.lower`.
pub record IndexContext : Type 0 where
  pub hasher : Hasher
  pub lower : String → String
  pub iso : ℕ → String
  pub store : String → StoreContext
  pub verifier : Verifier
  pub signing_public_key : String
  pub sign : String → String
  pub public_key_digest : String → String
  pub verify_ed25519 : Ed25519
  pub has_journal : IndexWorld → String → Result IndexError Bool
  pub complete_no_candidate : IndexEntry → IndexWorld → Result IndexError IndexWorld

-- The fields of a record after the first four.
abbrev pub dump_kind : (ℕ → String) → IndexKind → Fields
dump_kind iso (reservation issued expires host pid) = field "issued_at" (str (iso issued)) (
    field "expires_at" (str (iso expires))
      (field "owner_host" (str host) (field "owner_pid" (num pid) no_more)))
dump_kind iso (no_candidate input generation) =
    field "preparation_input_hash" (str input)
      (field "initial_generation_hash" (str generation) no_more)
dump_kind iso (active input run_id generation) =
    field "preparation_input_hash" (str input)
      (field "run_id" (str run_id) (field "initial_generation_hash" (str generation) no_more))

abbrev pub kind_text : IndexKind → String
kind_text (reservation _ _ _ _) = "reservation"
kind_text (no_candidate _ _) = "no_candidate"
kind_text (active _ _ _) = "active"

abbrev pub dump_record : (ℕ → String) → IndexRecord → Json
dump_record iso r = obj (
    field "kind" (str (kind_text r.kind)) (
      field "repository_id" (str r.repository_id) (
        field "reservation_id" (str r.reservation_id)
          (field "challenge_hash" (str r.challenge_hash) (dump_kind iso r.kind)))))

-- What `_validate_record` asks of the fields of each kind.
unfoldable pub is_valid_kind : IndexKind → Bool
unfolding is_identifier is_sha256
is_valid_kind (reservation issued expires host pid) =
    is_identifier host && ltb issued expires && leb 1 pid
is_valid_kind (no_candidate input generation) = is_sha256 input && is_sha256 generation
is_valid_kind (active input run_id generation) =
    is_identifier run_id && is_sha256 input && is_sha256 generation

-- `_validate_record` raises nothing.
unfoldable pub is_valid_record : String → IndexRecord → Bool
unfolding is_valid_kind is_identifier is_sha256
is_valid_record repository_id r =
    r.repository_id == repository_id
    && is_identifier r.repository_id
    && is_identifier r.reservation_id
    && is_sha256 r.challenge_hash
    && is_valid_kind r.kind

-- `path.unlink()`
unfoldable pub remove_key {ℓ} : {A : Type ℓ} → String → List (String × A) → List (String × A)
remove_key key [] = []
remove_key key ((k, v) ∷ rest) =
    let others = remove_key key rest in if k == key then others else (k, v) ∷ others

-- Whether a run of a disposition has ended, where to abandon it needs a consumed authorization.
abbrev pub has_ended : Bool → RunDisposition → Bool
has_ended authorized RunDisposition.done = true
has_ended authorized RunDisposition.abandoned = authorized
has_ended authorized _ = false

-- The branches of `release` on the disposition, with `_has_consumed_abandon_authorization`.
unfoldable pub is_terminal : Verifier → RunState → Bool
unfolding is_trusted_authorization
is_terminal verifier s =
    has_ended
      (any (λ a. is_trusted_authorization verifier a HumanAuthorizationAction.abandon)
        s.human_authorizations)
      s.disposition

abbrev pub as_state_error : {A : Type 0} → Result StoreError A → Result IndexError A
as_state_error (ok a) = ok a
as_state_error (err e) = err (state_error e)

-- `_reservation_from_entry`; the callers have checked the kind.
unfoldable pub reservation_from :
    IndexEntry → Option String → ℕ → ℕ → String → ℕ → PreparationReservation
reservation_from e challenge issued expires host pid = record {
  repository_id = e.index_record.repository_id;
  reservation_id = e.index_record.reservation_id;
  challenge_hash = e.index_record.challenge_hash;
  index_revision = e.revision;
  index_hash = e.index_hash;
  issued_at = issued;
  expires_at = expires;
  owner_host = host;
  owner_pid = pid;
  challenge = challenge;
}

-- `_active_result`
unfoldable pub active_result : IndexEntry → String → String → ActiveRun
active_result e run_id generation = record {
  repository_id = e.index_record.repository_id;
  run_id = run_id;
  index_revision = e.revision;
  index_hash = e.index_hash;
  initial_generation_hash = generation;
}

-- `_same_host_owner_is_dead`
unfoldable pub is_owner_dead : Draw → String → ℕ → Bool
is_owner_dead d host pid = host == d.local_host && not (num_eq pid d.own_pid) && d.is_gone pid

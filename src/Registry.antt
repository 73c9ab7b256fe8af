-- ===== src/Registry.antt =====
-- src/auto_code/checkpoint.py: the registry of the checkpoints that were issued.
pub mod Issued
use auto_code.Common.{
  ℕ, ◌≡◌, refl, String, Bool, true, false, ◌&&◌, ◌||◌, Option, none, some, List, [], ◌∷◌, leb,
  num_eq, length, all, Eq, ◌==◌, text_Eq, option_Eq, of_discrete, Result, ok, err, ◌>>=◌, ◌>>◌,
  guard, if◌then◌else◌,
}
use auto_code.Contracts.Effects.{lookup}
use auto_code.Contracts.Enums.{Stage, Stage_Eq}
use auto_code.Contracts.Equality.{Checkpoint-discrete}
use auto_code.Contracts.Evidence.{Checkpoint}
use auto_code.Contracts.Json.{Json, Hasher, hash_json}
use auto_code.Router.{RegistryError, registry_corrupt, CheckpointAuthority}
use auto_code.State.Identifiers.{codes}

instance abbrev pub Checkpoint_Eq : Eq Checkpoint
Checkpoint_Eq = of_discrete Checkpoint-discrete

-- A file that `issue` writes.
pub record CheckpointRecord : Type 0 where
  pub checkpoint_id : String
  pub payload_hash : String
  pub checkpoint : Checkpoint

-- The content of a file of the registry: not canonical JSON; JSON with other keys, or with no object
-- for the checkpoint; a checkpoint that does not validate; or a record.
pub data RegistryFile : Type 0 where
  unreadable misshapen invalid_checkpoint : RegistryFile
  recorded : CheckpointRecord → RegistryFile

-- The directory, with the identifier that each name holds.
abbrev pub RegistryDir : Type 0
RegistryDir = List (String × RegistryFile)

-- `[0-9a-f]`
unfoldable pub is_low_hex : ℕ → Bool
is_low_hex c = (leb b'0' c && leb c b'9') || (leb b'a' c && leb c b'f')

-- `_CHECKPOINT_ID`
unfoldable pub is_checkpoint_id : String → Bool
unfolding is_low_hex
is_checkpoint_id s = let cs = codes s in num_eq (length cs) 32 && all is_low_hex cs

-- `dict(a) == dict(b)`
unfoldable pub same_mapping : List (String × String) → List (String × String) → Bool
unfolding lookup
same_mapping a b =
    num_eq (length a) (length b) && all (λ (kv : String × String). lookup kv.0 b == some kv.1) a

pub data IssueError : Type 0 where
  unsafe_checkpoint id_collision : IssueError

-- What the registry works with: the hash, pydantic's `model_dump` of a checkpoint, and the screen for
-- unsafe values. Two dumps are compared as the checkpoints that they are dumped from.
pub record RegistryContext : Type 0 where
  pub hasher : Hasher
  pub dump : Checkpoint → Json
  pub is_persistable : Checkpoint → Bool

module _ (x : RegistryContext) where
  -- `hash_json(self._payload(checkpoint))`
  unfoldable pub payload_hash_of : Checkpoint → String
  unfolding hash_json
  payload_hash_of c = hash_json x.hasher (x.dump c)

  abbrev pub record_for : String → Checkpoint → CheckpointRecord
  record_for id c = record { checkpoint_id = id; payload_hash = payload_hash_of c; checkpoint = c }

  abbrev pub identified : Checkpoint → String → Checkpoint
  identified draft id = record draft { checkpoint_id = some id }

  -- One round of the loop: the checkpoint can be written or not, the file that is at its path, and
  -- the rounds that follow. A file that is there stays.
  unfoldable pub issue_if :
      Bool
      → Option RegistryFile
      → String
      → Checkpoint
      → RegistryDir
      → Result IssueError Checkpoint × RegistryDir
      → Result IssueError Checkpoint × RegistryDir
  unfolding payload_hash_of
  issue_if false there id c dir later = (err unsafe_checkpoint, dir)
  issue_if true none id c dir later = (ok c, (id, recorded (record_for id c)) ∷ dir)
  issue_if true (some _) id c dir later = later

  -- The loop of `issue`, with the identifiers that `uuid4` gives.
  unfoldable pub issue_from :
      List String → Checkpoint → RegistryDir → Result IssueError Checkpoint × RegistryDir
  unfolding lookup issue_if
  issue_from [] draft dir = (err id_collision, dir)
  issue_from (id ∷ rest) draft dir =
      issue_if (x.is_persistable (identified draft id)) (lookup id dir) id (identified draft id) dir
        (issue_from rest draft dir)

  -- `issue`; the draft is the checkpoint that the arguments make, without its identifier.
  unfoldable pub issue :
      String
      → String
      → String
      → Checkpoint
      → RegistryDir
      → Result IssueError Checkpoint × RegistryDir
  unfolding issue_from
  issue first second third = issue_from (first ∷ second ∷ third ∷ [])

  unfoldable pub holds : Checkpoint → String → CheckpointRecord → Bool
  unfolding payload_hash_of
  holds c id r = r.checkpoint_id == id && r.payload_hash == payload_hash_of c && r.checkpoint == c

  -- The end of `matches`.
  unfoldable pub is_for : Checkpoint → Stage → String → List (String × String) → Bool
  unfolding same_mapping
  is_for c stage contract inputs =
      c.stage == stage && c.contract_hash == contract && same_mapping c.input_hashes inputs

  -- What the record says of the checkpoint.
  unfoldable pub matches_record :
      Checkpoint → String → Bool → RegistryFile → Result RegistryError Bool
  unfolding holds
  matches_record c id wanted (recorded r) =
      guard (x.is_persistable c && x.is_persistable r.checkpoint) registry_corrupt
      >> ok (holds c id r && wanted)
  matches_record c id wanted unreadable = err registry_corrupt
  matches_record c id wanted misshapen = guard (x.is_persistable c) registry_corrupt >> ok false
  matches_record c id wanted invalid_checkpoint = err registry_corrupt

  unfoldable pub matches_file :
      Checkpoint → String → Bool → Option RegistryFile → Result RegistryError Bool
  unfolding matches_record
  matches_file c id wanted none = ok false
  matches_file c id wanted (some f) = matches_record c id wanted f

  unfoldable pub matches_id :
      RegistryDir → Checkpoint → Bool → Option String → Result RegistryError Bool
  unfolding is_checkpoint_id lookup matches_file
  matches_id dir c wanted none = ok false
  matches_id dir c wanted (some id) =
      if is_checkpoint_id id then matches_file c id wanted (lookup id dir) else ok false

  -- `matches`, and `is_reusable`, which calls it
  unfoldable pub is_reusable :
      RegistryDir → Checkpoint → Stage → String → List (String × String) → Result RegistryError Bool
  unfolding matches_id is_for
  is_reusable dir c stage contract inputs =
      matches_id dir c (is_for c stage contract inputs) c.checkpoint_id

  -- The registry as the router sees it.
  abbrev pub authority_of : RegistryDir → CheckpointAuthority
  authority_of dir = record { is_reusable = is_reusable dir }

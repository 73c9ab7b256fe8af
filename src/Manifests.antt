-- ===== src/Manifests.antt =====
-- src/auto_code/manifests.py: ProductChangeManifestBuilder, with ProductChangeFile and
-- ProductChangeManifest of src/auto_code/contracts.py.
pub mod Denied
pub mod Built
use auto_code.Common.Sequences.{list_Eq}
use auto_code.Common.{
  ℕ, String, Bool, true, false, not, ◌&&◌, ◌||◌, Option, none, some, List, [], ◌∷◌, ◌++◌, any, all,
  length, distinct, is_nonempty, is_some, leb, num_eq, ◌==◌, text_Eq, num_Eq, option_Eq, Result, ok,
  err, ◌>>=◌, ◌>>◌, guard, if◌then◌else◌,
}
use auto_code.Contracts.Json.{
  Json, str, bool, arr, obj, Fields, field, no_more, array, text_or_null, Hasher, hash_json,
}
use auto_code.State.Identifiers.{codes}
use auto_code.State.Validation.{is_prefix}

-- `GitManifestFile` of src/auto_code/git.py
pub record GitManifestFile : Type 0 where
  pub path : String
  pub status : String
  pub old_path : Option String
  pub old_mode : String
  pub new_mode : String
  pub old_object_id : Option String
  pub object_id : Option String
  pub binary : Bool
  pub untracked : Bool

-- `GitManifestInputs` of src/auto_code/git.py
pub record GitManifestInputs : Type 0 where
  pub baseline_sha : String
  pub files : List GitManifestFile

-- `ProductChangeFile`
pub record ProductChangeFile : Type 0 where
  pub path : String
  pub status : String
  pub old_path : Option String
  pub old_mode : String
  pub mode : String
  pub old_object_id : Option String
  pub object_id : Option String
  pub binary : Bool
  pub untracked : Bool

-- `ProductChangeManifest`
pub record ProductChangeManifest : Type 0 where
  pub baseline_sha : String
  pub files : List ProductChangeFile
  pub content_hash : String

-- The parts of a `ProjectConfig` that are read here.
pub record PathPolicy : Type 0 where
  pub writable_roots : List String
  pub protected_paths : List String
  pub commit_excluded_paths : List String

-- What is raised, by its message; `invalid_field` is what pydantic finds in a single field.
pub data ManifestError : Type 0 where
  unauthorized_untracked denied_path invalid_field sensitive_path : ManifestError
  old_entry_mismatch current_entry_mismatch old_path_missing old_path_same : ManifestError
  old_path_unexpected untracked_not_added file_count duplicate_paths hash_mismatch : ManifestError

-- What a manifest takes from outside: JSON and SHA-256, `str.lower`, and whether the single fields of a
-- file, and a baseline, have their patterns and pass the screen for unsafe values.
pub record ManifestContext : Type 0 where
  pub hasher : Hasher
  pub lower : String → String
  pub has_product_fields : ProductChangeFile → Bool
  pub is_git_sha : String → Bool

-- `_under`
unfoldable pub under : String → String → Bool
unfolding is_prefix
under path root = path == root || is_prefix (codes root ++ (b'/' ∷ [])) (codes path)

-- `_overlaps_policy`
unfoldable pub overlaps_policy : String → List String → Bool
unfolding under
overlaps_policy path roots = any (λ root. under path root || under root path) roots

-- The test of a path that may be absent.
unfoldable pub is_denied : Option String → List String → Bool
unfolding overlaps_policy
is_denied none roots = false
is_denied (some path) roots = overlaps_policy path roots

abbrev pub denied_paths : PathPolicy → List String
denied_paths policy = policy.protected_paths ++ policy.commit_excluded_paths

-- `path.split("/")`, on code points
abbrev pub add_to_first : ℕ → List (List ℕ) → List (List ℕ)
add_to_first c [] = (c ∷ []) ∷ []
add_to_first c (part ∷ parts) = (c ∷ part) ∷ parts

unfoldable pub split_path : List ℕ → List (List ℕ)
split_path [] = [] ∷ []
split_path (c ∷ rest) =
    let parts = split_path rest in if num_eq c b'/' then [] ∷ parts else add_to_first c parts

-- `part in _SENSITIVE_PATH_PARTS or part.startswith(".env")`
unfoldable pub is_sensitive_part : List ℕ → Bool
unfolding is_prefix
is_sensitive_part part =
    part == codes ".auto-code"
    || part == codes ".env"
    || part == codes ".git"
    || part == codes "secrets"
    || is_prefix (codes ".env") part

-- `_validate_product_path` raises, for its parts.
unfoldable pub is_sensitive_path : String → Bool
unfolding split_path is_sensitive_part
is_sensitive_path path = any is_sensitive_part (split_path (codes path))

abbrev pub is_sensitive_old : Option String → Bool
is_sensitive_old none = false
is_sensitive_old (some path) = is_sensitive_path path

-- `self.status[0]`; a status is not empty.
abbrev pub status_kind : List ℕ → ℕ
status_kind [] = 0
status_kind (c ∷ _) = c

-- `a != b` of truth values, negated
abbrev pub agree : Bool → Bool → Bool
agree true b = b
agree false b = not b

-- The part of the validator on old paths.
unfoldable pub check_old_path : ℕ → String → Option String → Result ManifestError (Unit {0})
check_old_path kind path old =
    if num_eq kind b'R' || num_eq kind b'C'
    then (guard (is_some old) old_path_missing >> guard (not (old == some path)) old_path_same)
    else guard (not (is_some old)) old_path_unexpected

-- `ProductChangeFile.validate_change_metadata`, of a status that starts with `kind`
unfoldable pub check_change : ℕ → ProductChangeFile → Result ManifestError (Unit {0})
unfolding check_old_path
check_change kind f =
    guard (agree (not (num_eq kind b'A')) (not (f.old_mode == "000000") && is_some f.old_object_id))
      old_entry_mismatch
    >> (guard (agree (not (num_eq kind b'D')) (not (f.mode == "000000") && is_some f.object_id))
          current_entry_mismatch
        >> (check_old_path kind f.path f.old_path
            >> guard (not (f.untracked && not (num_eq kind b'A'))) untracked_not_added))

-- The keyword arguments of `ProductChangeFile(...)` in `_product_file`
unfoldable pub file_arguments : GitManifestFile → ProductChangeFile
file_arguments entry = record {
  path = entry.path;
  status = entry.status;
  old_path = entry.old_path;
  old_mode = entry.old_mode;
  mode = entry.new_mode;
  old_object_id = entry.old_object_id;
  object_id = entry.object_id;
  binary = entry.binary;
  untracked = entry.untracked;
}

-- `entry.path for entry in self.files`
unfoldable pub file_paths : List ProductChangeFile → List String
file_paths [] = []
file_paths (f ∷ rest) = f.path ∷ file_paths rest

abbrev pub dump_file : ProductChangeFile → Json
dump_file f = obj (
    field "schema_version" (str "v1") (
      field "path" (str f.path) (
        field "status" (str f.status) (
          field "old_path" (text_or_null f.old_path) (
            field "old_mode" (str f.old_mode) (
              field "mode" (str f.mode) (
                field "old_object_id" (text_or_null f.old_object_id) (
                  field "object_id" (text_or_null f.object_id) (
                    field "binary" (bool f.binary)
                      (field "untracked" (bool f.untracked) no_more))))))))))

abbrev pub dump_files : List ProductChangeFile → List Json
dump_files [] = []
dump_files (f ∷ rest) = dump_file f ∷ dump_files rest

-- `_content_payload`
unfoldable pub content_payload : String → List ProductChangeFile → Json
unfolding array text_or_null
content_payload baseline files = obj (
    field "schema_version" (str "v1") (
      field "baseline_sha" (str baseline) (field "files" (arr (array (dump_files files))) no_more)))

module _ (x : ManifestContext) where
  -- `ProductChangeFile(...)`
  unfoldable pub product_change_file : ProductChangeFile → Result ManifestError ProductChangeFile
  unfolding is_sensitive_path check_change
  product_change_file f =
      guard (x.has_product_fields f) invalid_field
      >> (guard (not (is_sensitive_path f.path || is_sensitive_old f.old_path)) sensitive_path
          >> (check_change (status_kind (codes f.status)) f >> ok f))

  -- `_product_file`
  unfoldable pub product_file :
      PathPolicy → GitManifestFile → Result ManifestError ProductChangeFile
  unfolding under is_denied file_arguments product_change_file
  product_file policy entry =
      guard (not entry.untracked || any (under entry.path) policy.writable_roots)
        unauthorized_untracked
      >> (guard (not (is_denied (some entry.path) (denied_paths policy))) denied_path
          >> (guard (not (is_denied entry.old_path (denied_paths policy))) denied_path
              >> product_change_file (file_arguments entry)))

  -- The tuple of `build`
  unfoldable pub product_files :
      PathPolicy → List GitManifestFile → Result ManifestError (List ProductChangeFile)
  unfolding product_file
  product_files policy [] = ok []
  product_files policy (entry ∷ rest) =
      let later = product_files policy rest in
      product_file policy entry >>= λ f. later >>= λ fs. ok (f ∷ fs)

  unfoldable pub content_hash_of : String → List ProductChangeFile → String
  unfolding content_payload hash_json
  content_hash_of baseline files = hash_json x.hasher (content_payload baseline files)

  -- The fields of a `ProductChangeManifest`, and the part of its validator that every context runs
  unfoldable pub check_files : String → List ProductChangeFile → Result ManifestError (Unit {0})
  unfolding file_paths
  check_files baseline files =
      guard (x.is_git_sha baseline) invalid_field
      >> (guard (is_nonempty files && leb (length files) 512) file_count
          >> guard (distinct (file_paths files)) duplicate_paths)

  -- The validation of a `ProductChangeManifest` of files that are valid
  unfoldable pub validate_manifest :
      ProductChangeManifest → Result ManifestError ProductChangeManifest
  unfolding check_files content_hash_of
  validate_manifest m =
      check_files m.baseline_sha m.files
      >> (guard (x.lower m.content_hash == content_hash_of m.baseline_sha m.files) hash_mismatch
          >> ok m)

  -- `ProductChangeManifest.from_files`
  unfoldable pub from_files :
      String → List ProductChangeFile → Result ManifestError ProductChangeManifest
  unfolding check_files validate_manifest content_hash_of
  from_files baseline files =
      check_files baseline files
      >> validate_manifest (record {
        baseline_sha = baseline;
        files = files;
        content_hash = content_hash_of baseline files;
      })

  -- `build`
  unfoldable pub build_manifest :
      PathPolicy → GitManifestInputs → Result ManifestError ProductChangeManifest
  unfolding product_files from_files
  build_manifest policy inputs =
      product_files policy inputs.files >>= from_files inputs.baseline_sha

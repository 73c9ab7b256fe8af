-- ===== src/Tests/Manifests.antt =====
-- An instance for a product manifest, with a file that is new and one that is renamed.
use auto_code.Common.{
  String, true, false, none, some, [], ◌∷◌, distinct, text_Eq, ok, err, ◌≡◌, refl,
}
use auto_code.Manifests.{
  GitManifestFile, GitManifestInputs, ProductChangeManifest, PathPolicy, ManifestContext,
  denied_path, sensitive_path, file_paths, build_manifest, validate_manifest,
}
use auto_code.Manifests.Built.{Files, build_manifest-Files}
use auto_code.Tests.Fixtures.{hasher}

abbrev paths : PathPolicy
paths = record {
  writable_roots = "src" ∷ [];
  protected_paths = ".github" ∷ [];
  commit_excluded_paths = "build" ∷ [];
}

abbrev manifests : ManifestContext
manifests = record {
  hasher = hasher;
  lower = λ t. t;
  has_product_fields = λ _. true;
  is_git_sha = λ _. true;
}

abbrev added_entry : String → GitManifestFile
added_entry path = record {
  path = path;
  status = "A";
  old_path = none;
  old_mode = "000000";
  new_mode = "100644";
  old_object_id = none;
  object_id = some "object";
  binary = false;
  untracked = true;
}

abbrev renamed_entry : GitManifestFile
renamed_entry = record {
  path = "docs/b.md";
  status = "R90";
  old_path = some "docs/a.md";
  old_mode = "100644";
  new_mode = "100755";
  old_object_id = some "object";
  object_id = some "other";
  binary = false;
  untracked = false;
}

abbrev inputs : GitManifestInputs
inputs = record { baseline_sha = "base"; files = added_entry "src/a.py" ∷ renamed_entry ∷ [] }

abbrev built : ProductChangeManifest
built = record {
  baseline_sha = "base";
  files =
      record {
        path = "src/a.py";
        status = "A";
        old_path = none;
        old_mode = "000000";
        mode = "100644";
        old_object_id = none;
        object_id = some "object";
        binary = false;
        untracked = true;
      }
      ∷ record {
        path = "docs/b.md";
        status = "R90";
        old_path = some "docs/a.md";
        old_mode = "100644";
        mode = "100755";
        old_object_id = some "object";
        object_id = some "other";
        binary = false;
        untracked = false;
      }
      ∷ [];
  content_hash = "{}";
}

builds : build_manifest manifests paths inputs ≡ ok built
unfolding build_manifest
builds = refl

refuses_denied :
    build_manifest manifests paths
      (record inputs { files = record renamed_entry { old_path = some "build/x" } ∷ [] })
    ≡ err denied_path
unfolding build_manifest
refuses_denied = refl

refuses_secret :
    build_manifest manifests paths (record inputs { files = added_entry "src/.env.local" ∷ [] })
    ≡ err sensitive_path
unfolding build_manifest
refuses_secret = refl

build_manifest-Files_example :
    (built.baseline_sha ≡ inputs.baseline_sha)
    × Files manifests paths inputs.files built.files
    × (distinct (file_paths built.files) ≡ true)
    × (validate_manifest manifests built ≡ ok built)
build_manifest-Files_example = build_manifest-Files manifests paths inputs builds

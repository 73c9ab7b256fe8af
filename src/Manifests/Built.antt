-- ===== src/Manifests/Built.antt =====
-- A product manifest has a file for each entry, and none touches a path that the policy denies.
use mathlib.Core.List.{Memᴰ}
use mathlib.Core.Path.{subst}
use auto_code.Common.{
  String, Bool, true, false, not, ◌&&◌, ◌||◌, some, List, [], ◌∷◌, any, distinct, is_nonempty, leb,
  length, text_Eq, ◌==◌, ok, guard, ◌≡◌, refl, ◌∙◌, sym, ap, then-ok, guard-ok, ok-injective,
  >>=-eq-ok,
}
use auto_code.Manifests.{
  GitManifestFile, GitManifestInputs, ProductChangeFile, ProductChangeManifest, PathPolicy,
  ManifestContext, unauthorized_untracked, denied_path, invalid_field, sensitive_path,
  duplicate_paths, file_count, hash_mismatch, under, overlaps_policy, is_denied, denied_paths,
  is_sensitive_part, split_path, is_sensitive_path, is_sensitive_old, status_kind, check_change,
  file_arguments, file_paths, product_change_file, product_file, product_files, check_files,
  validate_manifest, from_files, build_manifest, content_hash_of,
}
use auto_code.Manifests.Denied.{or-false, Under, Apart, overlaps_policy-Apart, any-Under}
use auto_code.State.Identifiers.{codes}

not-true : (b : Bool) → not b ≡ true → b ≡ false
not-true true h = absurd (cc)
not-true false h = refl

implied : (a b : Bool) → (not a || b) ≡ true → a ≡ true → b ≡ true
implied true b h p = h
implied false b h p = absurd (cc)

-- A file says what its entry says.
pub record SameChange (entry : GitManifestFile) (f : ProductChangeFile) : Type 0 where
  pub path : f.path ≡ entry.path
  pub status : f.status ≡ entry.status
  pub old_path : f.old_path ≡ entry.old_path
  pub old_mode : f.old_mode ≡ entry.old_mode
  pub mode : f.mode ≡ entry.new_mode
  pub old_object_id : f.old_object_id ≡ entry.old_object_id
  pub object_id : f.object_id ≡ entry.object_id
  pub binary : f.binary ≡ entry.binary
  pub untracked : f.untracked ≡ entry.untracked

-- What the policy asks of an entry.
pub record Admitted (policy : PathPolicy) (entry : GitManifestFile) : Type 0 where
  pub writable :
      entry.untracked ≡ true
      → (root : String) × Memᴰ root policy.writable_roots × Under entry.path root
  pub path : (root : String) → Memᴰ root (denied_paths policy) → Apart entry.path root
  pub old_path :
      (old root : String)
      → entry.old_path ≡ some old
      → Memᴰ root (denied_paths policy)
      → Apart old root

-- A file validates, and neither of its paths has a part that names state, Git or secrets.
pub record Safe (x : ManifestContext) (f : ProductChangeFile) : Type 0 where
  pub valid : product_change_file x f ≡ ok f
  pub path : any is_sensitive_part (split_path (codes f.path)) ≡ false
  pub old_path :
      (old : String)
      → f.old_path ≡ some old
      → any is_sensitive_part (split_path (codes old)) ≡ false

-- The files are those of the entries, in their order, and every entry is admitted.
abbrev pub Files :
    ManifestContext → PathPolicy → List GitManifestFile → List ProductChangeFile → Type 0
Files x policy [] [] = Unit {0}
Files x policy (entry ∷ entries) (f ∷ fs) =
    SameChange entry f × Admitted policy entry × Safe x f × Files x policy entries fs
Files x policy [] (f ∷ fs) = ⊥
Files x policy (entry ∷ entries) [] = ⊥

module _ (x : ManifestContext) where
  product_change_file-same :
      (f : ProductChangeFile) {g : ProductChangeFile} → product_change_file x f ≡ ok g → g ≡ f
  unfolding product_change_file
  product_change_file-same f h =
      let (_, h) = then-ok (guard (x.has_product_fields f) invalid_field) _ h in
      let (_, h) =
        then-ok
          (guard (not (is_sensitive_path f.path || is_sensitive_old f.old_path)) sensitive_path) _
          h in
      let (_, h) = then-ok (check_change (status_kind (codes f.status)) f) _ h in ok-injective h

  product_change_file-Safe :
      (f : ProductChangeFile) {g : ProductChangeFile} → product_change_file x f ≡ ok g → Safe x f
  unfolding product_change_file is_sensitive_path
  product_change_file-Safe f {g} h =
      let same = product_change_file-same f h in
      let valid = h ∙ ap ok same in
      let (_, h) = then-ok (guard (x.has_product_fields f) invalid_field) _ h in
      let (screened, _) =
        then-ok
          (guard (not (is_sensitive_path f.path || is_sensitive_old f.old_path)) sensitive_path) _
          h in
      let (new, old) = or-false (is_sensitive_path f.path) (is_sensitive_old f.old_path) (
        not-true (is_sensitive_path f.path || is_sensitive_old f.old_path) (
          guard-ok (not (is_sensitive_path f.path || is_sensitive_old f.old_path)) sensitive_path
            screened)) in
      record { valid = valid; path = new; old_path = λ o is. sym (ap is_sensitive_old is) ∙ old }

  SameChange-arguments :
      (entry : GitManifestFile) (f : ProductChangeFile)
      → f ≡ file_arguments entry
      → SameChange entry f
  unfolding file_arguments
  SameChange-arguments entry f h = record {
    path = ap (λ (g : ProductChangeFile). g.path) h;
    status = ap (λ (g : ProductChangeFile). g.status) h;
    old_path = ap (λ (g : ProductChangeFile). g.old_path) h;
    old_mode = ap (λ (g : ProductChangeFile). g.old_mode) h;
    mode = ap (λ (g : ProductChangeFile). g.mode) h;
    old_object_id = ap (λ (g : ProductChangeFile). g.old_object_id) h;
    object_id = ap (λ (g : ProductChangeFile). g.object_id) h;
    binary = ap (λ (g : ProductChangeFile). g.binary) h;
    untracked = ap (λ (g : ProductChangeFile). g.untracked) h;
  }

  product_file-Admitted :
      (policy : PathPolicy) (entry : GitManifestFile) {f : ProductChangeFile}
      → product_file x policy entry ≡ ok f
      → SameChange entry f × Admitted policy entry × Safe x f
  unfolding product_file is_denied
  product_file-Admitted policy entry {f} h =
      let roots = denied_paths policy in
      let writable = not entry.untracked || any (under entry.path) policy.writable_roots in
      let (in_roots, h) = then-ok (guard writable unauthorized_untracked) _ h in
      let (allowed, h) = then-ok (guard (not (overlaps_policy entry.path roots)) denied_path) _ h in
      let (old_allowed, h) =
        then-ok (guard (not (is_denied entry.old_path roots)) denied_path) _ h in
      (
        SameChange-arguments entry f (product_change_file-same (file_arguments entry) h),
        record {
          writable = λ new. any-Under entry.path policy.writable_roots (
              implied entry.untracked (any (under entry.path) policy.writable_roots)
                (guard-ok writable unauthorized_untracked in_roots) new);
          path = λ root there.
              overlaps_policy-Apart entry.path roots root
                (not-true (overlaps_policy entry.path roots)
                  (guard-ok (not (overlaps_policy entry.path roots)) denied_path allowed))
                there;
          old_path = λ old root is there.
              overlaps_policy-Apart old roots root
                (sym (ap (λ o. is_denied o roots) is)
                  ∙ not-true (is_denied entry.old_path roots)
                      (guard-ok (not (is_denied entry.old_path roots)) denied_path old_allowed))
                there;
        },
        subst (Safe x) (sym (product_change_file-same (file_arguments entry) h))
            (product_change_file-Safe (file_arguments entry) h),
      )

  product_files-Files :
      (policy : PathPolicy) (entries : List GitManifestFile) {fs : List ProductChangeFile}
      → product_files x policy entries ≡ ok fs
      → Files x policy entries fs
  unfolding product_files
  product_files-Files policy [] h = subst (Files x policy []) (sym (ok-injective h)) tt
  product_files-Files policy (entry ∷ rest) h =
      let (f, made, h) = >>=-eq-ok (product_file x policy entry) _ h in
      let (fs, later, h) = >>=-eq-ok (product_files x policy rest) _ h in
      let (same, admitted, safe) = product_file-Admitted policy entry made in
      subst (Files x policy (entry ∷ rest)) (sym (ok-injective h))
        (same, admitted, safe, product_files-Files policy rest later)

  validate_manifest-same :
      (m : ProductChangeManifest) {n : ProductChangeManifest} → validate_manifest x m ≡ ok n → n ≡ m
  unfolding validate_manifest
  validate_manifest-same m h =
      let (_, h) = then-ok (check_files x m.baseline_sha m.files) _ h in
      let (_, h) =
        then-ok
          (guard (x.lower m.content_hash == content_hash_of x m.baseline_sha m.files) hash_mismatch)
          _ h in
      ok-injective h

  validate_manifest-distinct :
      (m : ProductChangeManifest) {n : ProductChangeManifest}
      → validate_manifest x m ≡ ok n
      → distinct (file_paths m.files) ≡ true
  unfolding validate_manifest check_files
  validate_manifest-distinct m h =
      let (checked, _) = then-ok (check_files x m.baseline_sha m.files) _ h in
      let (_, h) = then-ok (guard (x.is_git_sha m.baseline_sha) invalid_field) _ checked in
      let (_, h) =
        then-ok (guard (is_nonempty m.files && leb (length m.files) 512) file_count) _ h in
      guard-ok (distinct (file_paths m.files)) duplicate_paths h

  -- A product manifest that is built has the baseline of the inputs and a file for each entry, in
  -- their order, that says what the entry says. An entry that is untracked lies under a writable root,
  -- and no path or old path of an entry lies under or above a denied path. Every file validates, and
  -- neither of its paths has a part that names state, Git or secrets; no path is there twice, and the
  -- manifest validates.
  pub build_manifest-Files :
      (policy : PathPolicy) (inputs : GitManifestInputs) {m : ProductChangeManifest}
      → build_manifest x policy inputs ≡ ok m
      → (m.baseline_sha ≡ inputs.baseline_sha)
        × Files x policy inputs.files m.files
        × (distinct (file_paths m.files) ≡ true)
        × (validate_manifest x m ≡ ok m)
  unfolding build_manifest from_files
  build_manifest-Files policy inputs {m} h =
      let (fs, made, h) = >>=-eq-ok (product_files x policy inputs.files) _ h in
      let (_, h) = then-ok (check_files x inputs.baseline_sha fs) _ h in
      let built : ProductChangeManifest = record {
        baseline_sha = inputs.baseline_sha;
        files = fs;
        content_hash = content_hash_of x inputs.baseline_sha fs;
      } in
      let same = validate_manifest-same built h in
      let valid = subst (λ n. validate_manifest x n ≡ ok m) (sym same) h in
      (
        ap (λ (n : ProductChangeManifest). n.baseline_sha) same,
        subst (Files x policy inputs.files) (sym (ap (λ (n : ProductChangeManifest). n.files) same))
            (product_files-Files policy inputs.files made),
        validate_manifest-distinct m valid,
        valid,
      )

-- ===== src/Registry/Issued.antt =====
-- A checkpoint can be reused exactly when it was issued, for what it was issued for.
use mathlib.Core.Path.{subst}
use auto_code.State.Acceptance.Inversion.{if-ok}
use auto_code.Router.{registry_corrupt}
use auto_code.Common.{
  then-ok, ok-injective, and-true, and_three, ◌⊎◌, String, Bool, true, false, ◌&&◌, Option, none,
  some, List, [], ◌∷◌, all, ◌==◌, text_Eq, Result, ok, err, guard, if◌then◌else◌, ◌≡◌, refl, ◌∙◌,
  sym, ap, Bool-cases, inl, inr,
}
use auto_code.Contracts.Effects.{lookup}
use auto_code.Contracts.Enums.{Stage}
use auto_code.Contracts.Evidence.{Checkpoint}
use auto_code.Registry.{
  Checkpoint_Eq, RegistryFile, recorded, RegistryDir, is_checkpoint_id, IssueError, RegistryContext,
  payload_hash_of, record_for, identified, issue_if, issue_from, issue, holds, is_for,
  matches_record, matches_file, matches_id, is_reusable,
}

lookup-cons :
    (id name : String) (r : RegistryFile) (dir : RegistryDir) (f : RegistryFile)
    → lookup name ((id, r) ∷ dir) ≡ some f
    → ((id ≡ name) × (f ≡ r)) ⊎ (lookup name dir ≡ some f)
unfolding lookup
lookup-cons id name r dir f h = elim (if-some (id == name) r (lookup name dir) h) [
  | inl (same, content) ↦ inl ((text_Eq.beq_iff id name).0 same, content)
  | inr later ↦ inr later
]
  where
    if-some :
        (b : Bool) (r : RegistryFile) (later : Option RegistryFile)
        → (if b then some r else later) ≡ some f
        → ((b ≡ true) × (f ≡ r)) ⊎ (later ≡ some f)
    if-some true r later h = inl (refl, cc)
    if-some false r later h = inr h

module _ (x : RegistryContext) where
  -- What an issuance that returns has written.
  record Written (draft c : Checkpoint) (dir dir' : RegistryDir) : Type 0 where
    id : String
    shape : is_checkpoint_id id ≡ true
    issued : c ≡ identified x draft id
    persistable : x.is_persistable c ≡ true
    absent : lookup id dir ≡ none
    after : dir' ≡ (id, recorded (record_for x id c)) ∷ dir

  pair-ok :
      {c c' : Checkpoint} {dir dir' : RegistryDir}
      → ◌≡◌ {A = Result IssueError Checkpoint × RegistryDir} (ok c, dir) (ok c', dir')
      → (c' ≡ c) × (dir' ≡ dir)
  pair-ok h = (cc (ap (λ p. p.0) h), sym (ap (λ p. p.1) h))

  pair-raised :
      {c : Checkpoint} {e : IssueError} {dir dir' : RegistryDir}
      → ◌≡◌ {A = Result IssueError Checkpoint × RegistryDir} (err e, dir) (ok c, dir')
      → ⊥
  pair-raised h = cc (ap (λ p. p.0) h)

  -- A round writes the checkpoint, or leaves it to the rounds that follow.
  issue_if-cases :
      (b : Bool) (there : Option RegistryFile) (id : String) (c : Checkpoint) (dir : RegistryDir)
      (later : Result IssueError Checkpoint × RegistryDir) {k : Checkpoint} {dir' : RegistryDir}
      → issue_if x b there id c dir later ≡ (ok k, dir')
      → ((b ≡ true) × (there ≡ none) × (k ≡ c) × (dir' ≡ (id, recorded (record_for x id c)) ∷ dir))
        ⊎ (later ≡ (ok k, dir'))
  unfolding issue_if
  issue_if-cases false there id c dir later h = absurd (pair-raised h)
  issue_if-cases true none id c dir later h =
      let (same, files) = pair-ok h in inl (refl, refl, same, files)
  issue_if-cases true (some f) id c dir later h = inr h

  issue_from-Written :
      (ids : List String) (draft : Checkpoint) (dir : RegistryDir) {c : Checkpoint}
      {dir' : RegistryDir}
      → all is_checkpoint_id ids ≡ true
      → issue_from x ids draft dir ≡ (ok c, dir')
      → Written draft c dir dir'
  unfolding issue_from
  issue_from-Written [] draft dir shapes h = absurd (pair-raised h)
  issue_from-Written (id ∷ rest) draft dir shapes h =
      let (shape, shapes) = and-true (is_checkpoint_id id) (all is_checkpoint_id rest) shapes in
      elim (issue_if-cases (x.is_persistable (identified x draft id)) (lookup id dir) id
        (identified x draft id) dir (issue_from x rest draft dir) h) [
          | inl (safe, absent, same, files) ↦ record {
            id = id;
            shape = shape;
            issued = same;
            persistable = subst (λ k. x.is_persistable k ≡ true) (sym same) safe;
            absent = absent;
            after = files ∙ ap (λ k. (id, recorded (record_for x id k)) ∷ dir) (sym same);
          }
          | inr later ↦ issue_from-Written rest draft dir shapes later
        ]

  -- Files stay what they are.
  issue_if-keeps :
      (b : Bool) (there : Option RegistryFile) (id : String) (c : Checkpoint) (dir : RegistryDir)
      (later : Result IssueError Checkpoint × RegistryDir) (name : String) (f : RegistryFile)
      → lookup id dir ≡ there
      → lookup name dir ≡ some f
      → lookup name later.1 ≡ some f
      → lookup name (issue_if x b there id c dir later).1 ≡ some f
  unfolding issue_if lookup
  issue_if-keeps false there id c dir later name f at held rest = held
  issue_if-keeps true (some _) id c dir later name f at held rest = rest
  issue_if-keeps true none id c dir later name f at held rest = elim (Bool-cases (id == name)) [
    | inl same ↦ absurd (lost ((text_Eq.beq_iff id name).0 same))
    | inr other ↦ rw other held
  ]
    where
      lost : id ≡ name → ⊥
      lost e = cc

  pub issue_from-keeps :
      (ids : List String) (draft : Checkpoint) (dir : RegistryDir) (name : String)
      (f : RegistryFile)
      → lookup name dir ≡ some f
      → lookup name (issue_from x ids draft dir).1 ≡ some f
  unfolding issue_from
  issue_from-keeps [] draft dir name f held = held
  issue_from-keeps (id ∷ rest) draft dir name f held =
      issue_if-keeps (x.is_persistable (identified x draft id)) (lookup id dir) id
        (identified x draft id) dir (issue_from x rest draft dir) name f refl held
        (issue_from-keeps rest draft dir name f held)

-- Identifiers as `uuid4` makes them.
pub record Identifiers : Type 0 where
  pub first : String
  pub second : String
  pub third : String
  pub shapes : all is_checkpoint_id (first ∷ second ∷ third ∷ []) ≡ true

module _ (x : RegistryContext) where
  -- An issuance with its identifiers.
  abbrev pub issue_with :
      Identifiers → Checkpoint → RegistryDir → Result IssueError Checkpoint × RegistryDir
  issue_with ids = issue x ids.first ids.second ids.third

  -- Issuances one after the other; each returns or raises.
  pub data Issues (first : RegistryDir) : RegistryDir → Type 0 where
    none_yet : Issues first first
    issued :
        (ids : Identifiers) (draft : Checkpoint) (dir dir' : RegistryDir)
        → Issues first dir
        → (issue_with ids draft dir).1 ≡ dir'
        → Issues first dir'

  Issues-keeps :
      (first dir : RegistryDir) (name : String) (f : RegistryFile)
      → Issues first dir
      → lookup name first ≡ some f
      → lookup name dir ≡ some f
  unfolding issue
  Issues-keeps first dir name f none_yet held = held
  Issues-keeps first dir name f (issued ids draft before _ earlier e) held =
      subst (λ d. lookup name d ≡ some f) e
        (issue_from-keeps x (ids.first ∷ ids.second ∷ ids.third ∷ []) draft before name f
          (Issues-keeps first before name f earlier held))

  reusable-at :
      (dir : RegistryDir) (c : Checkpoint) (id : String) (wanted : Bool)
      → is_checkpoint_id id ≡ true
      → x.is_persistable c ≡ true
      → lookup id dir ≡ some (recorded (record_for x id c))
      → matches_id x dir c wanted (some id) ≡ ok wanted
  unfolding matches_id matches_file matches_record holds payload_hash_of
  reusable-at dir c id wanted shape persistable found = rw (
    shape,
    found,
    persistable,
    (text_Eq.beq_iff id id).1 refl,
    (text_Eq.beq_iff (payload_hash_of x c) (payload_hash_of x c)).1 refl,
    (Checkpoint_Eq.beq_iff c c).1 refl,
  )

  -- A checkpoint that was issued can be reused from then on, whatever is issued later: exactly for its
  -- stage and contract, and for inputs with the same hashes.
  pub issue-Reusable :
      (ids : Identifiers) (draft : Checkpoint) (dir : RegistryDir) {c : Checkpoint}
      {dir' : RegistryDir} (now : RegistryDir) (stage : Stage) (contract : String)
      (inputs : List (String × String))
      → issue_with ids draft dir ≡ (ok c, dir')
      → Issues dir' now
      → is_reusable x now c stage contract inputs ≡ ok (is_for x c stage contract inputs)
  unfolding issue is_reusable lookup
  issue-Reusable ids draft dir {c} {dir'} now stage contract inputs h later =
      let w =
        issue_from-Written x (ids.first ∷ ids.second ∷ ids.third ∷ []) draft dir ids.shapes h in
      let there : lookup w.id dir' ≡ some (recorded (record_for x w.id c)) =
        rw (w.after, (text_Eq.beq_iff w.id w.id).1 refl) refl in
      let named : c.checkpoint_id ≡ some w.id = ap (λ (k : Checkpoint). k.checkpoint_id) w.issued in
      ap (matches_id x now c (is_for x c stage contract inputs)) named
      ∙ reusable-at now c w.id (is_for x c stage contract inputs) w.shape w.persistable
          (Issues-keeps dir' now w.id (recorded (record_for x w.id c)) later there)

  -- The checkpoint was issued on the way to the directory, which was empty at first.
  pub record IssuedIn (c : Checkpoint) (dir : RegistryDir) : Type 0 where
    pub ids : Identifiers
    pub draft : Checkpoint
    pub before : RegistryDir
    pub after : RegistryDir
    pub earlier : Issues [] before
    pub returned : issue_with ids draft before ≡ (ok c, after)
    pub later : Issues after dir

  extend :
      (c : Checkpoint) (ids : Identifiers) (draft : Checkpoint) (dir dir' : RegistryDir)
      → (issue_with ids draft dir).1 ≡ dir'
      → IssuedIn c dir
      → IssuedIn c dir'
  extend c ids draft dir dir' e i = record {
    ids = i.ids;
    draft = i.draft;
    before = i.before;
    after = i.after;
    earlier = i.earlier;
    returned = i.returned;
    later = issued ids draft dir dir' i.later e;
  }

  issue_if-err :
      (b : Bool) (there : Option RegistryFile) (id : String) (c : Checkpoint) (dir : RegistryDir)
      (later : Result IssueError Checkpoint × RegistryDir) {e : IssueError} {dir' : RegistryDir}
      → issue_if x b there id c dir later ≡ (err e, dir')
      → (dir' ≡ dir) ⊎ (later ≡ (err e, dir'))
  unfolding issue_if
  issue_if-err false there id c dir later h = inl (sym (ap (λ p. p.1) h))
  issue_if-err true none id c dir later h = absurd (cc (ap (λ p. p.0) h))
  issue_if-err true (some f) id c dir later h = inr h

  issue_from-err :
      (ids : List String) (draft : Checkpoint) (dir : RegistryDir) {e : IssueError}
      {dir' : RegistryDir}
      → issue_from x ids draft dir ≡ (err e, dir')
      → dir' ≡ dir
  unfolding issue_from
  issue_from-err [] draft dir h = sym (ap (λ p. p.1) h)
  issue_from-err (id ∷ rest) draft dir h =
      elim (issue_if-err (x.is_persistable (identified x draft id)) (lookup id dir) id
        (identified x draft id) dir (issue_from x rest draft dir) h) [
          | inl same ↦ same
          | inr later ↦ issue_from-err rest draft dir later
        ]

  -- A file of the registry is that of a checkpoint that was issued.
  FileOf : String → RegistryFile → RegistryDir → Type 0
  FileOf name f dir = (c : Checkpoint) × (f ≡ recorded (record_for x name c)) × IssuedIn c dir

  issued-file :
      (ids : Identifiers) (draft : Checkpoint) (dir dir' : RegistryDir) (name : String)
      (f : RegistryFile) (r : Result IssueError Checkpoint)
      → Issues [] dir
      → issue_with ids draft dir ≡ (r, dir')
      → lookup name dir' ≡ some f
      → (FileOf name f dir') ⊎ (lookup name dir ≡ some f)
  unfolding issue FileOf
  issued-file ids draft dir dir' name f (err e) earlier h found = inr (
      subst (λ d. lookup name d ≡ some f)
        (issue_from-err (ids.first ∷ ids.second ∷ ids.third ∷ []) draft dir h) found)
  issued-file ids draft dir dir' name f (ok c) earlier h found =
      let w =
        issue_from-Written x (ids.first ∷ ids.second ∷ ids.third ∷ []) draft dir ids.shapes h in
      elim (lookup-cons w.id name (recorded (record_for x w.id c)) dir f
        (subst (λ d. lookup name d ≡ some f) w.after found)) [
          | inl (same, content) ↦ inl (
            c,
            content ∙ ap (λ id. recorded (record_for x id c)) same,
            record {
              ids = ids;
              draft = draft;
              before = dir;
              after = dir';
              earlier = earlier;
              returned = h;
              later = none_yet;
            },
          )
          | inr elsewhere ↦ inr elsewhere
        ]

  file-Issued :
      (dir : RegistryDir) (name : String) (f : RegistryFile)
      → Issues [] dir
      → lookup name dir ≡ some f
      → FileOf name f dir
  unfolding lookup FileOf
  file-Issued dir name f none_yet found = absurd (cc)
  file-Issued dir name f (issued ids draft before _ earlier e) found =
      elim (issued-file ids draft before dir name f (issue_with ids draft before).0 earlier
        (ap (λ d. ((issue_with ids draft before).0, d)) e) found) [
          | inl now ↦ now
          | inr held ↦
              (let (c, content, i) = file-Issued before name f earlier held in
                (c, content, extend c ids draft before dir e i))
        ]

  matches_record-holds :
      (c k : Checkpoint) (id : String) (wanted : Bool)
      → matches_record x c id wanted (recorded (record_for x id k)) ≡ ok true
      → (k ≡ c) × (wanted ≡ true)
  unfolding matches_record holds
  matches_record-holds c k id wanted h =
      let (_, done) =
        then-ok (guard (x.is_persistable c && x.is_persistable k) registry_corrupt) _ h in
      let (held, asked) =
        and-true (holds x c id (record_for x id k)) wanted (sym (ok-injective done)) in
      let (_, _, same) =
        and_three (id == id) (payload_hash_of x k == payload_hash_of x c) (k == c) held in
      ((Checkpoint_Eq.beq_iff k c).0 same, asked)

  matched-Issued :
      (dir : RegistryDir) (c : Checkpoint) (id : String) (wanted : Bool)
      (there : Option RegistryFile)
      → Issues [] dir
      → lookup id dir ≡ there
      → matches_file x c id wanted there ≡ ok true
      → (wanted ≡ true) × IssuedIn c dir
  unfolding matches_file FileOf
  matched-Issued dir c id wanted none i at h = absurd (cc)
  matched-Issued dir c id wanted (some f) i at h =
      let (k, content, by) = file-Issued dir id f i at in
      let (same, asked) =
        matches_record-holds c k id wanted
          (subst (λ o. matches_record x c id wanted o ≡ ok true) content h) in
      (asked, subst (λ o. IssuedIn o dir) same by)

  identified-Issued :
      (dir : RegistryDir) (c : Checkpoint) (wanted : Bool) (id : Option String)
      → Issues [] dir
      → matches_id x dir c wanted id ≡ ok true
      → (wanted ≡ true) × IssuedIn c dir
  unfolding matches_id
  identified-Issued dir c wanted none i h = absurd (cc)
  identified-Issued dir c wanted (some id) i h =
      elim (if-ok (is_checkpoint_id id) (matches_file x c id wanted (lookup id dir)) (ok false) h) [
        | inl (_, found) ↦ matched-Issued dir c id wanted (lookup id dir) i refl found
        | inr (_, refused) ↦ absurd (cc)
      ]

  -- A registry that was filled by issuances alone lets a checkpoint be reused only if that checkpoint,
  -- with all that it says, was issued by one of them, and only for its own stage, contract and inputs.
  pub is_reusable-Issued :
      (dir : RegistryDir) (c : Checkpoint) (stage : Stage) (contract : String)
      (inputs : List (String × String))
      → Issues [] dir
      → is_reusable x dir c stage contract inputs ≡ ok true
      → (is_for x c stage contract inputs ≡ true) × IssuedIn c dir
  unfolding is_reusable
  is_reusable-Issued dir c stage contract inputs i h =
      identified-Issued dir c (is_for x c stage contract inputs) c.checkpoint_id i h

-- ===== src/Index/Release/Tombstones.antt =====
-- A run that is released: its repository is free, and the receipt on file is verified.
use mathlib.Core.Path.{subst}
use auto_code.Common.{
  then-ok, guard-ok, and-true, and_intro, ℕ, String, true, Option, none, some, leb, ◌==◌, text_Eq,
  num_Eq, option_Eq, Result, ok, err, ◌>>=◌, ◌>>◌, guard, ◌≡◌, refl, ◌∙◌, sym, ap, >>=-eq-ok,
}
use auto_code.Contracts.Bindings.{IndexReleaseReceipt}
use auto_code.Contracts.Effects.{lookup}
use auto_code.Contracts.Receipts.{
  receipt_for, matches_release, signing_payload, has_release_signature,
}
use auto_code.Index.{
  IndexEntry, invalid_value, index_corrupt, index_conflict, terminal_mismatch, IndexWorld,
  ActiveRun, IndexContext, has_ended, is_terminal, as_state_error,
}
use auto_code.Index.Operations.{load_entry, remove_entry, active_in, lookup_run}
use auto_code.Index.Release.{
  release_entry, is_release, release, verify_key, verify_terminal, verify_stored, verify_released,
  load_verified_release,
}
use auto_code.Index.Operations.Entries.{load_entry-remove_entry}
use auto_code.Index.Release.Inversion.{
  Signed, Released, release_entry-Released, entry-active, has_ended-closed,
}
use auto_code.State.Context.{StateGeneration, StoreError}
use auto_code.State.Digests.{is_sha256}
use auto_code.State.Generations.{load}
use auto_code.State.Identifiers.{is_identifier}

module _ (x : IndexContext) where
  -- The laws of the signatures: what the signing key signs is verified with its public key.
  pub record SigningLaws : Type 0 where
    pub verifies : (m : String) → x.verify_ed25519 x.signing_public_key (x.sign m) m ≡ true

  release-Released :
      (repository_id run_id : String) (revision : ℕ) (index_hash terminal : String) (w : IndexWorld)
      {r : IndexReleaseReceipt} {w' : IndexWorld}
      → release x repository_id run_id revision index_hash terminal w ≡ ok (r, w')
      → (is_release x repository_id run_id revision index_hash terminal ≡ true)
        × Released x repository_id run_id revision (x.lower index_hash) (x.lower terminal) w w' r
  unfolding release
  release-Released repository_id run_id revision index_hash terminal w h =
      let is_well_formed = is_release x repository_id run_id revision index_hash terminal in
      let (passed, h) = then-ok (guard is_well_formed invalid_value) _ h in
      let (e, loaded, h) = >>=-eq-ok (load_entry x repository_id w) _ h in
      (
        guard-ok is_well_formed invalid_value passed,
        release_entry-Released x repository_id run_id revision (x.lower index_hash)
            (x.lower terminal) w e loaded h,
      )

  lookup_run-loaded :
      (repository_id : String) (w : IndexWorld) {e : Option IndexEntry}
      → is_identifier repository_id ≡ true
      → load_entry x repository_id w ≡ ok e
      → lookup_run x repository_id w ≡ ok (active_in x e)
  unfolding lookup_run
  lookup_run-loaded repository_id w named loaded =
      ap (λ b. guard b invalid_value >> (load_entry x repository_id w >>= λ e. ok (active_in x e)))
        named
      ∙ ap (λ m. m >>= λ e. ok (active_in x e)) loaded

  release-gone :
      (repository_id run_id : String) (revision : ℕ) (index_hash terminal : String) (w : IndexWorld)
      → is_release x repository_id run_id revision index_hash terminal ≡ true
      → load_entry x repository_id w ≡ ok none
      → release x repository_id run_id revision index_hash terminal w ≡ err index_conflict
  unfolding release release_entry
  release-gone repository_id run_id revision index_hash terminal w formed gone =
      let next =
        release_entry x repository_id run_id revision (x.lower index_hash) (x.lower terminal) w in
      ap (λ b. guard b invalid_value >> (load_entry x repository_id w >>= next)) formed
      ∙ ap (λ m. m >>= next) gone

  -- A release that returns was of the active run that a lookup finds, at the revision and with the
  -- hash, in lower case, that it was given; a lookup after it finds no run, and to release again is a conflict.
  pub release-lookup_run :
      (repository_id run_id : String) (revision : ℕ) (index_hash terminal : String) (w : IndexWorld)
      {r : IndexReleaseReceipt} {w' : IndexWorld}
      → release x repository_id run_id revision index_hash terminal w ≡ ok (r, w')
      → ((a : ActiveRun) × (lookup_run x repository_id w ≡ ok (some a))
          × (a.run_id ≡ run_id)
          × (a.index_revision ≡ revision)
          × (a.index_hash ≡ x.lower index_hash))
        × (lookup_run x repository_id w' ≡ ok none)
        × (release x repository_id run_id revision index_hash terminal w' ≡ err index_conflict)
  unfolding active_in
  release-lookup_run repository_id run_id revision index_hash terminal w h =
      let (formed, p) = release-Released repository_id run_id revision index_hash terminal w h in
      let (h, _) = and-true _ (is_sha256 terminal) formed in
      let (h, _) = and-true _ (is_sha256 index_hash) h in
      let (h, _) = and-true _ (leb 1 revision) h in
      let (named, _) = and-true (is_identifier repository_id) (is_identifier run_id) h in
      let (generation, found) =
        entry-active x run_id revision (x.lower index_hash) p.entry p.entry.index_record.kind
          p.here in
      let gone =
        ap (load_entry x repository_id) p.after
        ∙ load_entry-remove_entry x repository_id p.written in
      (
        (_, lookup_run-loaded repository_id w named p.loaded ∙ ap ok found, refl, refl, refl),
        lookup_run-loaded repository_id _ named gone,
        release-gone repository_id run_id revision index_hash terminal _ formed gone,
      )

  matches_release-same : (r : IndexReleaseReceipt) → matches_release r r ≡ true
  unfolding matches_release
  matches_release-same r =
      let same : (s : String) → (s == s) ≡ true = λ s. (text_Eq.beq_iff s s).1 refl in
      and_intro _ _
        (and_intro _ _
          (and_intro _ _
            (and_intro _ _ (and_intro _ _ (same r.repository_id) (same r.run_id))
              ((num_Eq.beq_iff r.prior_revision r.prior_revision).1 refl))
            (same r.prior_hash))
          (same r.terminal_generation_hash))
        (same r.receipt_hash)

  -- The receipt of a release, with what the loaded run says of it.
  verify_key-Signed :
      SigningLaws
      → (r0 r : IndexReleaseReceipt) (key key_hash : Option String) → Signed x r0 r key key_hash
      → key_hash ≡ some (x.public_key_digest x.signing_public_key)
      → verify_key x r key key_hash ≡ ok r
  unfolding verify_key has_release_signature
  verify_key-Signed laws r0 r key key_hash s trusted =
      let m = x.hasher.canonical_json_bytes (signing_payload r0) in
      let signed = record r0 { signature = some (x.sign m) } in
      let digest = x.public_key_digest x.signing_public_key in
      ap (λ r. verify_key x r key key_hash) s.same
      ∙ ap (λ k. verify_key x signed k key_hash) s.known
      ∙ ap (verify_key x signed (some x.signing_public_key)) trusted
      ∙ ap (λ b. guard b index_corrupt >> ok signed)
          (and_intro _ _ ((text_Eq.beq_iff digest digest).1 refl) (laws.verifies m))
      ∙ ap ok (sym s.same)

  state_error-ok :
      {A : Type 0} (m : Result StoreError A) {a : A} → as_state_error m ≡ ok a → m ≡ ok a
  state_error-ok (ok a) h = cc
  state_error-ok (err e) h = absurd (cc)

  verify_terminal-ended :
      (r : IndexReleaseReceipt) (g : StateGeneration)
      → (g.state_hash == r.terminal_generation_hash) ≡ true
      → (g.state.repository_id == r.repository_id) ≡ true
      → has_ended true g.state.disposition ≡ true
      → verify_key x r g.state.finalization_public_key g.state.finalization_public_key_hash ≡ ok r
      → verify_terminal x r r g ≡ ok r
  unfolding verify_terminal
  verify_terminal-ended r g hash owned ended verified =
      ap
        (λ b.
          guard b terminal_mismatch
          >> verify_key x r g.state.finalization_public_key g.state.finalization_public_key_hash)
        (and_intro _ _ (and_intro _ _ hash owned) ended)
      ∙ verified

  verify_stored-same :
      (r : IndexReleaseReceipt) (w : IndexWorld) (g : StateGeneration)
      → as_state_error (load (x.store r.run_id) (w.runs r.run_id)) ≡ ok g
      → verify_terminal x r r g ≡ ok r
      → verify_stored x r w (some r) ≡ ok r
  unfolding verify_stored
  verify_stored-same r w g loaded verified =
      let state = as_state_error (load (x.store r.run_id) (w.runs r.run_id)) in
      ap (λ b. guard b index_corrupt >> (state >>= verify_terminal x r r)) (matches_release-same r)
      ∙ ap (λ m. m >>= verify_terminal x r r) loaded
      ∙ verified

  verified-Released :
      (repository_id run_id : String) (revision : ℕ) (index_hash terminal : String)
      (w w' : IndexWorld) (r : IndexReleaseReceipt)
      → SigningLaws
      → (p : Released x repository_id run_id revision index_hash terminal w w' r)
      → p.g.state.finalization_public_key_hash ≡ some (x.public_key_digest x.signing_public_key)
      → load_verified_release x r w' ≡ ok r
  unfolding load_verified_release remove_entry receipt_for is_terminal
  verified-Released repository_id run_id revision index_hash terminal w w' r laws p trusted =
      let g = p.g in
      let repository : r.repository_id ≡ repository_id = ap (λ r. r.repository_id) p.signed.same in
      let run : r.run_id ≡ run_id = ap (λ r. r.run_id) p.signed.same in
      let ending : r.terminal_generation_hash ≡ terminal =
        ap (λ r. r.terminal_generation_hash) p.signed.same in
      let gone : load_entry x r.repository_id w' ≡ ok none =
        ap (λ i. load_entry x i w') repository
        ∙ ap (load_entry x repository_id) p.after
        ∙ load_entry-remove_entry x repository_id p.written in
      let filed : lookup r.receipt_hash w'.releases ≡ some r =
        ap (λ v. lookup r.receipt_hash v.releases) p.after ∙ p.filed.filed in
      let runs : w'.runs ≡ w.runs = ap (λ v. v.runs) p.after ∙ p.filed.kept in
      let loaded : as_state_error (load (x.store r.run_id) (w'.runs r.run_id)) ≡ ok g =
        ap (λ i. as_state_error (load (x.store i) (w'.runs i))) run
        ∙ ap (λ rs. as_state_error (load (x.store run_id) (rs run_id))) runs
        ∙ p.current in
      ap (λ m. m >>= verify_released x r w') gone
      ∙ ap (verify_stored x r w') filed
      ∙ verify_stored-same r w' g loaded (
          verify_terminal-ended r g (subst (λ t. (g.state_hash == t) ≡ true) (sym ending) p.hash)
            (subst (λ t. (g.state.repository_id == t) ≡ true) (sym repository) p.owned)
            (has_ended-closed x _ g.state.disposition p.ended)
            (verify_key-Signed laws _ r _ _ p.signed trusted))

  -- Where the signatures have their laws and the run's state has the hash of the signing key's public
  -- key, the receipt that a release returns is verified, in the world that the release leaves.
  pub release-load_verified_release :
      (repository_id run_id : String) (revision : ℕ) (index_hash terminal : String) (w : IndexWorld)
      {r : IndexReleaseReceipt} {w' : IndexWorld}
      → SigningLaws
      → ((g : StateGeneration)
          → load (x.store run_id) (w.runs run_id) ≡ ok g
          → g.state.finalization_public_key_hash ≡ some (x.public_key_digest x.signing_public_key))
      → release x repository_id run_id revision index_hash terminal w ≡ ok (r, w')
      → load_verified_release x r w' ≡ ok r
  release-load_verified_release repository_id run_id revision index_hash terminal w laws trusted h =
      let (_, p) = release-Released repository_id run_id revision index_hash terminal w h in
      verified-Released repository_id run_id revision (x.lower index_hash) (x.lower terminal) w _ _
        laws p (trusted p.g (state_error-ok (load (x.store run_id) (w.runs run_id)) p.current))

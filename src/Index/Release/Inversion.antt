-- ===== src/Index/Release/Inversion.antt =====
-- What a release establishes, and that the receipt it leaves is verified.
use mathlib.Core.Path.{subst}
use auto_code.Common.{
  then-ok, guard-ok, ok-injective, and-true, ℕ, String, Bool, true, ◌&&◌, Option, none, some,
  num_eq, ◌==◌, text_Eq, num_Eq, option_Eq, ok, guard, if◌then◌else◌, ◌≡◌, refl, ◌∙◌, sym, ap,
  >>=-eq-ok,
}
use auto_code.Contracts.Bindings.{IndexReleaseReceipt}
use auto_code.Contracts.Effects.{lookup, lookup-insert}
use auto_code.Contracts.Enums.{RunDisposition}
use auto_code.Contracts.Receipts.{receipt_for, matches_release, signing_payload}
use auto_code.Index.{
  reservation, no_candidate, active, IndexKind, IndexEntry, index_corrupt, index_conflict,
  terminal_mismatch, non_terminal, IndexWorld, IndexContext, has_ended, is_terminal, as_state_error,
  active_result,
}
use auto_code.Index.Operations.{load_entry, remove_entry, active_of}
use auto_code.Index.Release.{
  sign_with, write_release, release_binding, release_generation, is_entry_of, release_entry,
}
use auto_code.State.Context.{StateGeneration}
use auto_code.State.Generations.{load}

module _ (x : IndexContext) where
  -- What `sign_with` returns.
  pub record Signed (r0 r : IndexReleaseReceipt) (key key_hash : Option String) : Type 0 where
    pub known : key ≡ some x.signing_public_key
    pub digest : String
    pub hashed : key_hash ≡ some digest
    pub same : r ≡ record r0 {
      signature = some (x.sign (x.hasher.canonical_json_bytes (signing_payload r0)));
    }

  sign_with-Signed :
      (r0 : IndexReleaseReceipt) (key key_hash : Option String) {r : IndexReleaseReceipt}
      → sign_with x r0 key key_hash ≡ ok r
      → Signed r0 r key key_hash
  unfolding sign_with
  sign_with-Signed r0 none key_hash h = absurd (cc)
  sign_with-Signed r0 (some key) none h = absurd (cc)
  sign_with-Signed r0 (some key) (some digest) h =
      let (matched, h) = then-ok (guard (x.signing_public_key == key) index_corrupt) _ h in
      record {
        known = ap some (
            sym (
              (text_Eq.beq_iff x.signing_public_key key).0
                (guard-ok (x.signing_public_key == key) index_corrupt matched)));
        digest = digest;
        hashed = refl;
        same = ok-injective h;
      }

  same-receipt :
      (a b : IndexReleaseReceipt)
      → (matches_release a b && a.signature == b.signature) ≡ true
      → a ≡ b
  unfolding matches_release
  same-receipt a b h =
      let (h, sig) = and-true (matches_release a b) (a.signature == b.signature) h in
      let (h, f6) = and-true _ (a.receipt_hash == b.receipt_hash) h in
      let (h, f5) = and-true _ (a.terminal_generation_hash == b.terminal_generation_hash) h in
      let (h, f4) = and-true _ (a.prior_hash == b.prior_hash) h in
      let (h, f3) = and-true _ (a.prior_revision == b.prior_revision) h in
      let (f1, f2) = and-true (a.repository_id == b.repository_id) (a.run_id == b.run_id) h in
      let e1 : a.repository_id ≡ b.repository_id =
        (text_Eq.beq_iff a.repository_id b.repository_id).0 f1 in
      let e2 : a.run_id ≡ b.run_id = (text_Eq.beq_iff a.run_id b.run_id).0 f2 in
      let e3 : a.prior_revision ≡ b.prior_revision =
        (num_Eq.beq_iff a.prior_revision b.prior_revision).0 f3 in
      let e4 : a.prior_hash ≡ b.prior_hash = (text_Eq.beq_iff a.prior_hash b.prior_hash).0 f4 in
      let e5 : a.terminal_generation_hash ≡ b.terminal_generation_hash =
        (text_Eq.beq_iff a.terminal_generation_hash b.terminal_generation_hash).0 f5 in
      let e6 : a.receipt_hash ≡ b.receipt_hash =
        (text_Eq.beq_iff a.receipt_hash b.receipt_hash).0 f6 in
      let e7 : a.signature ≡ b.signature =
        ((option_Eq {A = String}).beq_iff a.signature b.signature).0 sig in
      cc

  -- The receipt is on file, and nothing else that is read changes.
  pub record Filed (r : IndexReleaseReceipt) (w w1 : IndexWorld) : Type 0 where
    pub filed : lookup r.receipt_hash w1.releases ≡ some r
    pub kept : w1.runs ≡ w.runs

  write_release-Filed :
      (r : IndexReleaseReceipt) (w : IndexWorld) (stored : Option IndexReleaseReceipt)
      {w1 : IndexWorld}
      → lookup r.receipt_hash w.releases ≡ stored
      → write_release x r w stored ≡ ok w1
      → Filed r w w1
  unfolding write_release
  write_release-Filed r w none absent h = subst (Filed r w) (sym (ok-injective h)) (record {
    filed =
        lookup-insert r.receipt_hash r.receipt_hash r w.releases
        ∙ ap (λ b. if b then some r else lookup r.receipt_hash w.releases)
            ((text_Eq.beq_iff r.receipt_hash r.receipt_hash).1 refl);
    kept = refl;
  })
  write_release-Filed r w (some stored) there h =
      let (matched, h) =
        then-ok (guard (matches_release stored r && stored.signature == r.signature) index_corrupt)
          _ h in
      let same = same-receipt stored r (
        guard-ok (matches_release stored r && stored.signature == r.signature) index_corrupt
          matched) in
      subst (Filed r w) (sym (ok-injective h))
        (record { filed = there ∙ ap some same; kept = refl })

  -- What a release of an entry has checked and done.
  pub record Released (repository_id run_id : String) (revision : ℕ) (index_hash terminal : String)
      (w w' : IndexWorld) (r : IndexReleaseReceipt) : Type 0 where
    pub entry : IndexEntry
    pub loaded : load_entry x repository_id w ≡ ok (some entry)
    pub here : is_entry_of x run_id revision index_hash entry entry.index_record.kind ≡ true
    pub g : StateGeneration
    pub current : as_state_error (load (x.store run_id) (w.runs run_id)) ≡ ok g
    pub hash : (g.state_hash == terminal) ≡ true
    pub owned : (g.state.repository_id == repository_id) ≡ true
    pub ended : is_terminal x.verifier g.state ≡ true
    pub signed :
        Signed
          (receipt_for x.hasher (release_binding x repository_id run_id entry) terminal)
          r
          g.state.finalization_public_key
          g.state.finalization_public_key_hash
    pub written : IndexWorld
    pub filed : Filed r w written
    pub after : w' ≡ remove_entry x repository_id written

  pub release_entry-Released :
      (repository_id run_id : String) (revision : ℕ) (index_hash terminal : String) (w : IndexWorld)
      (e : Option IndexEntry) {r : IndexReleaseReceipt} {w' : IndexWorld}
      → load_entry x repository_id w ≡ ok e
      → release_entry x repository_id run_id revision index_hash terminal w e ≡ ok (r, w')
      → Released repository_id run_id revision index_hash terminal w w' r
  unfolding release_entry release_generation
  release_entry-Released repository_id run_id revision index_hash terminal w none loaded h =
      absurd (cc)
  release_entry-Released repository_id run_id revision index_hash terminal w (some e) loaded h =
      let is_here = is_entry_of x run_id revision index_hash e e.index_record.kind in
      let r0 = receipt_for x.hasher (release_binding x repository_id run_id e) terminal in
      let (here, h) = then-ok (guard is_here index_conflict) _ h in
      let (g, current, h) =
        >>=-eq-ok (as_state_error (load (x.store run_id) (w.runs run_id))) _ h in
      let (hash, h) = then-ok (guard (g.state_hash == terminal) terminal_mismatch) _ h in
      let (owned, h) = then-ok (guard (g.state.repository_id == repository_id) index_corrupt) _ h in
      let (ended, h) = then-ok (guard (is_terminal x.verifier g.state) non_terminal) _ h in
      let (r1, signed, h) =
        >>=-eq-ok
          (sign_with x r0 g.state.finalization_public_key g.state.finalization_public_key_hash) _
          h in
      let (written, wrote, h) =
        >>=-eq-ok (write_release x r1 w (lookup r1.receipt_hash w.releases)) _ h in
      let pair = ok-injective h in
      let same : r1 ≡ _ = ap (λ p. p.0) (sym pair) in
      record {
        entry = e;
        loaded = loaded;
        here = guard-ok is_here index_conflict here;
        g = g;
        current = current;
        hash = guard-ok (g.state_hash == terminal) terminal_mismatch hash;
        owned = guard-ok (g.state.repository_id == repository_id) index_corrupt owned;
        ended = guard-ok (is_terminal x.verifier g.state) non_terminal ended;
        signed =
            subst
              (λ r.
                Signed r0 r g.state.finalization_public_key g.state.finalization_public_key_hash)
              same (sign_with-Signed r0 _ _ signed);
        written = written;
        filed = subst (λ r. Filed r w written) same (write_release-Filed r1 w _ refl wrote);
        after = ap (λ p. p.1) pair;
      }

  pub entry-active :
      (run_id : String) (revision : ℕ) (index_hash : String) (e : IndexEntry) (k : IndexKind)
      → is_entry_of x run_id revision index_hash e k ≡ true
      → (generation : String) × (active_of x e k
          ≡ some (record {
            repository_id = e.index_record.repository_id;
            run_id = run_id;
            index_revision = revision;
            index_hash = index_hash;
            initial_generation_hash = generation;
          }))
  unfolding is_entry_of active_result
  entry-active run_id revision index_hash e (reservation _ _ _ _) h = absurd (cc)
  entry-active run_id revision index_hash e (no_candidate _ _) h = absurd (cc)
  entry-active run_id revision index_hash e (active input run generation) h =
      let (h, f3) = and-true _ (e.index_hash == index_hash) h in
      let (f1, f2) = and-true (run == run_id) (num_eq e.revision revision) h in
      let e1 : run ≡ run_id = (text_Eq.beq_iff run run_id).0 f1 in
      let e2 : e.revision ≡ revision = (num_Eq.beq_iff e.revision revision).0 f2 in
      let e3 : e.index_hash ≡ index_hash = (text_Eq.beq_iff e.index_hash index_hash).0 f3 in
      (generation, cc)

  pub has_ended-closed :
      (b : Bool) (d : RunDisposition) → has_ended b d ≡ true → has_ended true d ≡ true
  has_ended-closed b RunDisposition.done h = refl
  has_ended-closed b RunDisposition.abandoned h = refl
  has_ended-closed b RunDisposition.active h = absurd (cc)
  has_ended-closed b RunDisposition.waiting_mcp h = absurd (cc)
  has_ended-closed b RunDisposition.repair_required h = absurd (cc)
  has_ended-closed b RunDisposition.human_review h = absurd (cc)

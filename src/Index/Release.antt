-- ===== src/Index/Release.antt =====
-- src/auto_code/run_index.py: `release` and `load_verified_release`, each a step under its locks.
pub mod Inversion
pub mod Tombstones
use auto_code.Common.{
  ℕ, ◌+◌, String, Bool, true, false, not, ◌&&◌, ◌||◌, Option, none, some, List, ltb, leb, num_eq,
  ◌==◌, text_Eq, num_Eq, option_Eq, Result, ok, err, ◌>>=◌, ◌>>◌, guard, if◌then◌else◌,
}
use auto_code.Contracts.Bindings.{IndexReleaseReceipt, IndexReleaseBinding}
use auto_code.Contracts.Effects.{lookup, insert}
use auto_code.Contracts.Enums.{RunDisposition}
use auto_code.Contracts.Json.{str, hash_json}
use auto_code.Contracts.Receipts.{
  receipt_for, matches_release, signing_payload, has_release_signature,
}
use auto_code.Contracts.RunState.{RunState}
use auto_code.Index.{
  reservation, no_candidate, active, IndexKind, IndexRecord, IndexEntry, unreadable, envelope,
  IndexFile, invalid_value, index_corrupt, index_conflict, terminal_mismatch, non_terminal,
  run_active, reservation_exists, IndexError, IndexWorld, ReservationOwner, PreparationReservation,
  ActiveRun, found_active, blocked, reserved, IndexProbeResult, Draw, IndexContext, dump_record,
  is_valid_record, remove_key, has_ended, is_terminal, as_state_error, reservation_from,
  active_result, is_owner_dead,
}
use auto_code.Index.Operations.{load_entry, remove_entry}
use auto_code.State.Context.{StateGeneration}
use auto_code.State.Digests.{is_sha256}
use auto_code.State.Generations.{load}
use auto_code.State.Identifiers.{is_identifier}

module _ (x : IndexContext) where
  -- `_sign_release_receipt`, with the key of the state
  unfoldable pub sign_with :
      IndexReleaseReceipt → Option String → Option String → Result IndexError IndexReleaseReceipt
  unfolding signing_payload
  sign_with r (some key) (some key_hash) =
      guard (x.signing_public_key == key) index_corrupt
      >> ok (record r {
        signature = some (x.sign (x.hasher.canonical_json_bytes (signing_payload r)));
      })
  sign_with r _ _ = err index_corrupt

  -- The file of a receipt, which an earlier call may have written.
  unfoldable pub write_release :
      IndexReleaseReceipt → IndexWorld → Option IndexReleaseReceipt → Result IndexError IndexWorld
  unfolding insert
  write_release r w none = ok (record w { releases = insert r.receipt_hash r w.releases })
  write_release r w (some stored) =
      guard (matches_release stored r && stored.signature == r.signature) index_corrupt >> ok w

  abbrev pub release_binding : String → String → IndexEntry → IndexReleaseBinding
  release_binding repository_id run_id e = record {
    repository_id = repository_id;
    run_id = run_id;
    prior_revision = e.revision;
    prior_hash = e.index_hash;
  }

  -- The release of an entry whose run has a generation.
  unfoldable pub release_generation :
      String
      → String
      → String
      → IndexEntry
      → IndexWorld
      → StateGeneration
      → Result IndexError (IndexReleaseReceipt × IndexWorld)
  unfolding is_terminal sign_with receipt_for write_release lookup remove_entry matches_release
  release_generation repository_id run_id terminal e w g =
      guard (g.state_hash == terminal) terminal_mismatch
      >> (guard (g.state.repository_id == repository_id) index_corrupt
          >> (guard (is_terminal x.verifier g.state) non_terminal
              >> (sign_with (receipt_for x.hasher (release_binding repository_id run_id e) terminal)
                    g.state.finalization_public_key g.state.finalization_public_key_hash
                  >>= λ r. write_release r w (lookup r.receipt_hash w.releases) >>= λ w'.
                      ok (r, remove_entry x repository_id w'))))

  unfoldable pub is_entry_of : String → ℕ → String → IndexEntry → IndexKind → Bool
  is_entry_of run_id revision index_hash e (active input run generation) =
      run == run_id && num_eq e.revision revision && e.index_hash == index_hash
  is_entry_of run_id revision index_hash e _ = false

  unfoldable pub release_entry :
      String
      → String
      → ℕ
      → String
      → String
      → IndexWorld
      → Option IndexEntry
      → Result IndexError (IndexReleaseReceipt × IndexWorld)
  unfolding is_entry_of load release_generation
  release_entry repository_id run_id revision index_hash terminal w none = err index_conflict
  release_entry repository_id run_id revision index_hash terminal w (some e) =
      guard (is_entry_of run_id revision index_hash e e.index_record.kind) index_conflict
      >> (as_state_error (load (x.store run_id) (w.runs run_id))
          >>= release_generation repository_id run_id terminal e w)

  -- What `release` asks of its arguments.
  abbrev pub is_release : String → String → ℕ → String → String → Bool
  is_release repository_id run_id revision index_hash terminal =
      is_identifier repository_id
      && is_identifier run_id
      && leb 1 revision
      && is_sha256 index_hash
      && is_sha256 terminal

  -- `release`
  unfoldable pub release :
      String
      → String
      → ℕ
      → String
      → String
      → IndexWorld
      → Result IndexError (IndexReleaseReceipt × IndexWorld)
  unfolding is_identifier is_sha256 load_entry release_entry
  release repository_id run_id revision index_hash terminal w =
      guard (is_release repository_id run_id revision index_hash terminal) invalid_value
      >> (load_entry x repository_id w
          >>= release_entry repository_id run_id revision (x.lower index_hash) (x.lower terminal) w)

  -- The signature of a stored receipt, with the key of the state.
  unfoldable pub verify_key :
      IndexReleaseReceipt → Option String → Option String → Result IndexError IndexReleaseReceipt
  unfolding has_release_signature
  verify_key stored (some key) (some key_hash) =
      guard
        (has_release_signature x.hasher x.public_key_digest x.verify_ed25519 stored key key_hash)
        index_corrupt
      >> ok stored
  verify_key stored _ _ = err index_corrupt

  unfoldable pub verify_terminal :
      IndexReleaseReceipt
      → IndexReleaseReceipt
      → StateGeneration
      → Result IndexError IndexReleaseReceipt
  unfolding verify_key
  verify_terminal r stored g =
      guard
        (g.state_hash == r.terminal_generation_hash
          && g.state.repository_id == r.repository_id
          && has_ended true g.state.disposition)
        terminal_mismatch
      >> verify_key stored g.state.finalization_public_key g.state.finalization_public_key_hash

  unfoldable pub verify_stored :
      IndexReleaseReceipt
      → IndexWorld
      → Option IndexReleaseReceipt
      → Result IndexError IndexReleaseReceipt
  unfolding matches_release load verify_terminal
  verify_stored r w none = err index_corrupt
  verify_stored r w (some stored) =
      guard (matches_release stored r) index_corrupt
      >> (as_state_error (load (x.store r.run_id) (w.runs r.run_id)) >>= verify_terminal r stored)

  abbrev pub verify_released :
      IndexReleaseReceipt → IndexWorld → Option IndexEntry → Result IndexError IndexReleaseReceipt
  verify_released r w none = verify_stored r w (lookup r.receipt_hash w.releases)
  verify_released r w (some e) = err index_conflict

  -- `load_verified_release`
  unfoldable pub load_verified_release :
      IndexReleaseReceipt → IndexWorld → Result IndexError IndexReleaseReceipt
  unfolding load_entry verify_stored lookup
  load_verified_release r w = load_entry x r.repository_id w >>= verify_released r w

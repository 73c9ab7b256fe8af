-- ===== src/Index/Operations.antt =====
-- src/auto_code/run_index.py: `lookup`, `reserve` and `probe_or_reserve`. A call runs under the lock of its repository, and is one step.
pub mod Entries
pub mod Reservations
use auto_code.Common.{
  ℕ, ◌+◌, String, Bool, true, false, not, ◌&&◌, ◌||◌, Option, none, some, List, ltb, leb, num_eq,
  ◌==◌, text_Eq, num_Eq, option_Eq, Result, ok, err, ◌>>=◌, ◌>>◌, guard, if◌then◌else◌,
}
use auto_code.Contracts.Bindings.{IndexReleaseReceipt, IndexReleaseBinding}
use auto_code.Contracts.Effects.{lookup, insert}
use auto_code.Contracts.Enums.{RunDisposition}
use auto_code.Contracts.Json.{str, hash_json}
use auto_code.Contracts.Receipts.{
  receipt_for, matches_release, signing_payload, has_release_signature,
}
use auto_code.Contracts.RunState.{RunState}
use auto_code.Index.{
  reservation, no_candidate, active, IndexKind, IndexRecord, IndexEntry, unreadable, envelope,
  IndexFile, invalid_value, index_corrupt, index_conflict, terminal_mismatch, non_terminal,
  run_active, reservation_exists, IndexError, IndexWorld, ReservationOwner, PreparationReservation,
  ActiveRun, found_active, blocked, reserved, IndexProbeResult, Draw, IndexContext, dump_record,
  is_valid_record, remove_key, has_ended, is_terminal, as_state_error, reservation_from,
  active_result, is_owner_dead,
}
use auto_code.State.Context.{StateGeneration}
use auto_code.State.Digests.{is_sha256}
use auto_code.State.Generations.{load}
use auto_code.State.Identifiers.{is_identifier}

module _ (x : IndexContext) where
  -- `_index_path`
  unfoldable pub index_path : String → String
  unfolding hash_json
  index_path repository_id = hash_json x.hasher (str repository_id)

  unfoldable pub record_hash : IndexRecord → String
  unfolding hash_json
  record_hash r = hash_json x.hasher (dump_record x.iso r)

  unfoldable pub is_valid_entry : String → IndexEntry → Bool
  unfolding record_hash is_valid_record is_sha256
  is_valid_entry repository_id e =
      leb 1 e.revision
      && is_sha256 e.index_hash
      && x.lower e.index_hash == e.index_hash
      && record_hash e.index_record == e.index_hash
      && is_valid_record repository_id e.index_record

  unfoldable pub read_entry : String → Option IndexFile → Result IndexError (Option IndexEntry)
  unfolding is_valid_entry
  read_entry repository_id none = ok none
  read_entry repository_id (some unreadable) = err index_corrupt
  read_entry repository_id (some (envelope e)) =
      guard (is_valid_entry repository_id e) index_corrupt >> ok (some e)

  -- `_load_entry_locked`
  unfoldable pub load_entry : String → IndexWorld → Result IndexError (Option IndexEntry)
  unfolding read_entry lookup index_path
  load_entry repository_id w =
      read_entry repository_id (lookup (index_path repository_id) w.entries)

  -- `_save_entry_locked`
  unfoldable pub save_entry : String → IndexEntry → IndexWorld → IndexWorld
  unfolding insert index_path
  save_entry repository_id e w = record w {
    entries = insert (index_path repository_id) (envelope e) w.entries;
  }

  -- `_remove_entry_locked`, of an entry that was loaded
  unfoldable pub remove_entry : String → IndexWorld → IndexWorld
  unfolding remove_key index_path
  remove_entry repository_id w = record w {
    entries = remove_key (index_path repository_id) w.entries;
  }

  -- `_new_entry`
  unfoldable pub new_entry : ℕ → IndexRecord → IndexEntry
  unfolding record_hash
  new_entry revision r = record {
    revision = revision;
    index_hash = record_hash r;
    index_record = r;
  }

  abbrev pub active_of : IndexEntry → IndexKind → Option ActiveRun
  active_of e (active input run_id generation) = some (active_result e run_id generation)
  active_of e _ = none

  unfoldable pub active_in : Option IndexEntry → Option ActiveRun
  unfolding active_result
  active_in none = none
  active_in (some e) = active_of e e.index_record.kind

  -- `lookup`
  unfoldable pub lookup_run : String → IndexWorld → Result IndexError (Option ActiveRun)
  unfolding load_entry active_in is_identifier
  lookup_run repository_id w =
      guard (is_identifier repository_id) invalid_value
      >> (load_entry repository_id w >>= λ e. ok (active_in e))

  -- The record of a reservation that a call makes, for five minutes.
  abbrev pub reservation_record : Draw → String → ReservationOwner → IndexRecord
  reservation_record d repository_id owner = record {
    repository_id = repository_id;
    reservation_id = d.fresh_id;
    challenge_hash = hash_json x.hasher (str d.challenge);
    kind = reservation d.issue_time (d.issue_time + 300) owner.host owner.pid;
  }

  abbrev pub reservation_entry : Draw → String → ReservationOwner → IndexEntry
  reservation_entry d repository_id owner = new_entry 1 (reservation_record d repository_id owner)

  -- `_create_reservation_locked`, as the outcome of a probe
  unfoldable pub create_reservation :
      Draw → String → ReservationOwner → IndexWorld → IndexProbeResult × IndexWorld
  unfolding new_entry save_entry reservation_from hash_json
  create_reservation d repository_id owner w = (
    reserved (
        reservation_from (reservation_entry d repository_id owner) (some d.challenge) d.issue_time
          (d.issue_time + 300) owner.host owner.pid),
    save_entry repository_id (reservation_entry d repository_id owner) w,
  )

  -- `_can_clear_stale_reservation_locked`
  unfoldable pub can_clear_stale :
      Draw → IndexWorld → String → ℕ → String → ℕ → Result IndexError Bool
  unfolding is_owner_dead
  can_clear_stale d w reservation_id expires host pid =
      if ltb d.now expires
      then ok false
      else (x.has_journal w reservation_id >>= λ has. ok (not has && is_owner_dead d host pid))

  -- A probe that finds a reservation.
  unfoldable pub probe_reserved :
      Draw
      → String
      → ReservationOwner
      → IndexWorld
      → PreparationReservation
      → Result IndexError (IndexProbeResult × IndexWorld)
  unfolding can_clear_stale remove_entry create_reservation
  probe_reserved d repository_id owner w r =
      can_clear_stale d w r.reservation_id r.expires_at r.owner_host r.owner_pid >>= λ stale. ok (
        if stale
        then create_reservation d repository_id owner (remove_entry repository_id w)
        else (blocked r, w))

  unfoldable pub probe_kind :
      Draw
      → String
      → ReservationOwner
      → IndexWorld
      → IndexEntry
      → IndexKind
      → Result IndexError (IndexProbeResult × IndexWorld)
  unfolding probe_reserved active_result remove_entry create_reservation reservation_from
  probe_kind d repository_id owner w e (active input run_id generation) =
      ok (found_active (active_result e run_id generation), w)
  probe_kind d repository_id owner w e (reservation issued expires host pid) =
      probe_reserved d repository_id owner w (reservation_from e none issued expires host pid)
  probe_kind d repository_id owner w e (no_candidate input generation) =
      x.complete_no_candidate e w >>= λ w'.
      ok (create_reservation d repository_id owner (remove_entry repository_id w'))

  unfoldable pub probe_entry :
      Draw
      → String
      → ReservationOwner
      → IndexWorld
      → Option IndexEntry
      → Result IndexError (IndexProbeResult × IndexWorld)
  unfolding probe_kind create_reservation
  probe_entry d repository_id owner w none = ok (create_reservation d repository_id owner w)
  probe_entry d repository_id owner w (some e) =
      probe_kind d repository_id owner w e e.index_record.kind

  -- `probe_or_reserve`
  unfoldable pub probe_or_reserve :
      Draw
      → String
      → ReservationOwner
      → IndexWorld
      → Result IndexError (IndexProbeResult × IndexWorld)
  unfolding load_entry probe_entry is_identifier
  probe_or_reserve d repository_id owner w =
      guard (is_identifier repository_id) invalid_value
      >> (load_entry repository_id w >>= probe_entry d repository_id owner w)

  unfoldable pub reservation_in :
      IndexProbeResult × IndexWorld → Result IndexError PreparationReservation × IndexWorld
  reservation_in (found_active a, w) = (err run_active, w)
  reservation_in (blocked r, w) = (err reservation_exists, w)
  reservation_in (reserved r, w) = (ok r, w)

  abbrev reserve_probed :
      Result IndexError (IndexProbeResult × IndexWorld)
      → IndexWorld
      → Result IndexError PreparationReservation × IndexWorld
  reserve_probed (err e) w = (err e, w)
  reserve_probed (ok p) w = reservation_in p

  -- `reserve`
  unfoldable pub reserve :
      Draw → String → IndexWorld → Result IndexError PreparationReservation × IndexWorld
  unfolding probe_or_reserve reservation_in
  reserve d repository_id w =
      reserve_probed
        (probe_or_reserve d repository_id (record { host = d.local_host; pid = d.own_pid }) w) w

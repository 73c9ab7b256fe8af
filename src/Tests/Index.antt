-- ===== src/Tests/Index.antt =====
-- Instances for the index of runs. Every hash is the same digest, and every signature is the key.
use auto_code.Common.{
  ok-injective, true, false, none, some, [], ◌∷◌, ok, err, ◌≡◌, refl, ◌∙◌, sym, ap,
}
use auto_code.Contracts.Authorizations.{granted}
use auto_code.Contracts.Bindings.{IndexReleaseReceipt}
use auto_code.Contracts.Enums.{
  RunDisposition, RunDisposition-discrete, PreparationPhase-discrete, Stage-discrete,
  for_every_stage,
}
use auto_code.Contracts.Json.{hash_json}
use auto_code.Contracts.RunState.Checks.{output_of}
use auto_code.Contracts.RunState.Validation.{
  validate_state, any_binding, authorized_iteration_limit,
}
use auto_code.Contracts.RunState.{RunState}
use auto_code.Index.{
  active, IndexEntry, envelope, index_conflict, IndexWorld, ReservationOwner,
  PreparationReservation, ActiveRun, blocked, Draw, IndexContext,
}
use auto_code.Index.Operations.{create_reservation, lookup_run, probe_or_reserve}
use auto_code.Index.Release.{load_verified_release, release}
use auto_code.Index.Operations.Reservations.{Drawn, probe_or_reserve-Blocks}
use auto_code.Index.Release.Tombstones.{
  SigningLaws, release-lookup_run, release-load_verified_release,
}
use auto_code.State.Context.{StateGeneration}
use auto_code.State.Digests.{is_sha256}
use auto_code.State.Generations.{Disk, envelope_of, points, generation, load}
use auto_code.State.Identifiers.{is_identifier}
use auto_code.Tests.Fixtures.{fresh}
use auto_code.Tests.Generations.{digest, digest_hasher, digest_store}

abbrev context : IndexContext
context = record {
  hasher = digest_hasher;
  lower = λ t. t;
  iso = λ _. "time";
  store = λ _. digest_store;
  verifier = none;
  signing_public_key = "key";
  sign = λ _. "signature";
  public_key_digest = λ k. k;
  verify_ed25519 = λ _ _ _. true;
  has_journal = λ _ _. ok false;
  complete_no_candidate = λ _ w. ok w;
}

abbrev owner : ReservationOwner
owner = record { host = "host-1"; pid = 7 }

abbrev draw : Draw
draw = record {
  now = 1000;
  issue_time = 1000;
  fresh_id = "reservation-1";
  challenge = "challenge";
  local_host = "host-1";
  own_pid = 7;
  is_gone = λ _. true;
}

-- Another process, a minute later.
abbrev later : Draw
later = record draw { now = 1060; issue_time = 1060; fresh_id = "reservation-2"; own_pid = 8 }

abbrev no_run : IndexWorld
no_run = record {
  entries = [];
  releases = [];
  runs = λ _. record { pointer = points 1 digest; entries = [] };
}

abbrev held : PreparationReservation
held = record {
  repository_id = "repo";
  reservation_id = "reservation-1";
  challenge_hash = digest;
  index_revision = 1;
  index_hash = digest;
  issued_at = 1000;
  expires_at = 1300;
  owner_host = "host-1";
  owner_pid = 7;
  challenge = some "challenge";
}

drawn : Drawn context draw owner
unfolding is_identifier is_sha256 hash_json
drawn = record { fresh = refl; digest = λ j. refl; lowercase = λ j. refl; host = refl; pid = refl }

reserves :
    probe_or_reserve context draw "repo" owner no_run
    ≡ ok (create_reservation context draw "repo" owner no_run)
unfolding probe_or_reserve
reserves = refl

abbrev reserved_world : IndexWorld
reserved_world = (create_reservation context draw "repo" owner no_run).1

probe_or_reserve-Blocks_example :
    probe_or_reserve context later "repo" owner reserved_world
    ≡ ok (blocked (record held { challenge = none }), reserved_world)
unfolding create_reservation
probe_or_reserve-Blocks_example =
    probe_or_reserve-Blocks context draw later "repo" owner owner no_run {r = held} drawn reserves
      refl

abbrev done : RunState
done = record fresh {
  disposition = RunDisposition.done;
  finalization_public_key = some "key";
  finalization_public_key_hash = some "key";
}

abbrev last_generation : StateGeneration
last_generation = record { revision = 1; state_hash = digest; state = done }

abbrev done_disk : Disk
done_disk = record {
  pointer = points 1 digest;
  entries = generation 1 digest (some (envelope_of digest_store last_generation)) ∷ [];
}

abbrev active_entry : IndexEntry
active_entry = record {
  revision = 2;
  index_hash = digest;
  index_record = record {
    repository_id = "repo";
    reservation_id = "reservation-1";
    challenge_hash = digest;
    kind = active digest "run-1" digest;
  };
}

abbrev one_run : IndexWorld
one_run = record {
  entries = (digest, envelope active_entry) ∷ [];
  releases = [];
  runs = λ _. done_disk;
}

abbrev receipt : IndexReleaseReceipt
receipt = record {
  repository_id = "repo";
  run_id = "run-1";
  prior_revision = 2;
  prior_hash = digest;
  terminal_generation_hash = digest;
  receipt_hash = digest;
  signature = some "signature";
}

abbrev after : IndexWorld
after = record one_run { entries = []; releases = (digest, receipt) ∷ [] }

releases : release context "repo" "run-1" 2 digest digest one_run ≡ ok (receipt, after)
unfolding release validate_state any_binding PreparationPhase-discrete Stage-discrete
    authorized_iteration_limit granted for_every_stage output_of RunDisposition-discrete
releases = refl

loads_last : load digest_store done_disk ≡ ok last_generation
unfolding load validate_state any_binding PreparationPhase-discrete Stage-discrete
    authorized_iteration_limit granted for_every_stage output_of RunDisposition-discrete
loads_last = refl

release-lookup_run_example :
    ((a : ActiveRun) × (lookup_run context "repo" one_run ≡ ok (some a))
      × (a.run_id ≡ "run-1")
      × (a.index_revision ≡ 2)
      × (a.index_hash ≡ digest))
    × (lookup_run context "repo" after ≡ ok none)
    × (release context "repo" "run-1" 2 digest digest after ≡ err index_conflict)
release-lookup_run_example =
    release-lookup_run context "repo" "run-1" 2 digest digest one_run releases

signing : SigningLaws context
signing = record { verifies = λ m. refl }

has_key :
    (g : StateGeneration)
    → load digest_store done_disk ≡ ok g
    → g.state.finalization_public_key_hash ≡ some "key"
has_key g h =
    ap (λ (g : StateGeneration). g.state.finalization_public_key_hash)
      (ok-injective (sym loads_last ∙ h))

release-load_verified_release_example : load_verified_release context receipt after ≡ ok receipt
release-load_verified_release_example =
    release-load_verified_release context "repo" "run-1" 2 digest digest one_run signing has_key
      releases

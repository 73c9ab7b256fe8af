-- ===== src/Index/Operations/Reservations.antt =====
-- A reservation keeps everyone else out until it expires.
use mathlib.Core.Path.{subst}
use auto_code.Common.{
  then-ok, guard-ok, ok-injective, and_intro, ◌+◌, String, Bool, true, false, not, ◌&&◌, Option,
  none, some, ltb, leb, text_Eq, Result, ok, ◌>>=◌, ◌>>◌, guard, if◌then◌else◌, ◌≡◌, refl, ◌∙◌, sym,
  ap, arith, >>=-eq-ok,
}
use auto_code.Contracts.Json.{Json, str, hash_json}
use auto_code.Index.{
  reservation, no_candidate, active, IndexKind, IndexEntry, invalid_value, IndexError, IndexWorld,
  ReservationOwner, PreparationReservation, found_active, blocked, reserved, IndexProbeResult, Draw,
  IndexContext, dump_record, is_valid_kind, is_valid_record, reservation_from, active_result,
  is_owner_dead,
}
use auto_code.Index.Operations.{
  record_hash, is_valid_entry, load_entry, save_entry, remove_entry, new_entry, reservation_record,
  reservation_entry, create_reservation, can_clear_stale, probe_reserved, probe_kind, probe_entry,
  probe_or_reserve,
}
use auto_code.Index.Operations.Entries.{load_entry-save_entry}
use auto_code.State.Digests.{is_sha256}
use auto_code.State.Identifiers.{is_identifier}

-- What holds of what a call draws: an identifier from `uuid4`, digests in lower case, and an owner that was checked
-- when it was made.
pub record Drawn (x : IndexContext) (d : Draw) (owner : ReservationOwner) : Type 0 where
  pub fresh : is_identifier d.fresh_id ≡ true
  pub digest : (j : Json) → is_sha256 (hash_json x.hasher j) ≡ true
  pub lowercase : (j : Json) → x.lower (hash_json x.hasher j) ≡ hash_json x.hasher j
  pub host : is_identifier owner.host ≡ true
  pub pid : leb 1 owner.pid ≡ true

module _ (x : IndexContext) where
  -- The entry of a reservation that was created.
  record Created (d : Draw) (repository_id : String) (owner : ReservationOwner)
      (r : PreparationReservation) (w' : IndexWorld) : Type 0 where
    before : IndexWorld
    created : create_reservation x d repository_id owner before ≡ (reserved r, w')

  not-reserved :
      {p : IndexProbeResult} {w w' : IndexWorld} {r : PreparationReservation}
      → ◌≡◌ {A = Result IndexError (IndexProbeResult × IndexWorld)}
          (ok (p, w))
          (ok (reserved r, w'))
      → p ≡ reserved r
  not-reserved h = cc

  stale-Created :
      (b : Bool) (d : Draw) (repository_id : String) (owner : ReservationOwner) (w : IndexWorld)
      (q : PreparationReservation) {r : PreparationReservation} {w' : IndexWorld}
      → ◌≡◌ {A = Result IndexError (IndexProbeResult × IndexWorld)}
          (ok (
            if b
            then create_reservation x d repository_id owner (remove_entry x repository_id w)
            else (blocked q, w)))
          (ok (reserved r, w'))
      → Created d repository_id owner r w'
  stale-Created true d repository_id owner w q h = record {
    before = remove_entry x repository_id w;
    created = sym (ok-injective h);
  }
  stale-Created false d repository_id owner w q h = absurd (other (not-reserved h))
    where
      other : {r : PreparationReservation} → blocked q ≡ reserved r → ⊥
      other e = cc

  probe_kind-Created :
      (d : Draw) (repository_id : String) (owner : ReservationOwner) (w : IndexWorld)
      (e : IndexEntry) (k : IndexKind) {r : PreparationReservation} {w' : IndexWorld}
      → probe_kind x d repository_id owner w e k ≡ ok (reserved r, w')
      → Created d repository_id owner r w'
  unfolding probe_kind probe_reserved
  probe_kind-Created d repository_id owner w e (active input run generation) h =
      absurd (other (not-reserved h))
    where
      other :
          {r : PreparationReservation}
          → found_active (active_result e run generation) ≡ reserved r
          → ⊥
      other e = cc
  probe_kind-Created d repository_id owner w e (reservation issued expires host pid) h =
      let q = reservation_from e none issued expires host pid in
      let (stale, _, h) =
        >>=-eq-ok (can_clear_stale x d w q.reservation_id q.expires_at q.owner_host q.owner_pid) _
          h in
      stale-Created stale d repository_id owner w q h
  probe_kind-Created d repository_id owner w e (no_candidate input generation) h =
      let (w1, _, h) = >>=-eq-ok (x.complete_no_candidate e w) _ h in
      record { before = remove_entry x repository_id w1; created = sym (ok-injective h) }

  probe_entry-Created :
      (d : Draw) (repository_id : String) (owner : ReservationOwner) (w : IndexWorld)
      (e : Option IndexEntry) {r : PreparationReservation} {w' : IndexWorld}
      → probe_entry x d repository_id owner w e ≡ ok (reserved r, w')
      → Created d repository_id owner r w'
  unfolding probe_entry
  probe_entry-Created d repository_id owner w none h = record {
    before = w;
    created = sym (ok-injective h);
  }
  probe_entry-Created d repository_id owner w (some e) h =
      probe_kind-Created d repository_id owner w e e.index_record.kind h

  is_valid_kind-reservation :
      (d : Draw) (owner : ReservationOwner)
      → Drawn x d owner
      → is_valid_kind (reservation d.issue_time (d.issue_time + 300) owner.host owner.pid) ≡ true
  unfolding is_valid_kind
  is_valid_kind-reservation d owner drawn =
      let later : ltb d.issue_time (d.issue_time + 300) ≡ true = ground arith in
      and_intro (is_identifier owner.host && ltb d.issue_time (d.issue_time + 300))
        (leb 1 owner.pid)
        (and_intro (is_identifier owner.host) (ltb d.issue_time (d.issue_time + 300)) drawn.host
          later)
        drawn.pid

  is_valid_record-reservation :
      (d : Draw) (repository_id : String) (owner : ReservationOwner)
      → is_identifier repository_id ≡ true
      → Drawn x d owner
      → is_valid_record repository_id (reservation_record x d repository_id owner) ≡ true
  unfolding is_valid_record
  is_valid_record-reservation d repository_id owner named drawn =
      and_intro _ _
        (and_intro _ _
          (and_intro _ _
            (and_intro _ _ ((text_Eq.beq_iff repository_id repository_id).1 refl) named)
            drawn.fresh)
          (drawn.digest (str d.challenge)))
        (is_valid_kind-reservation d owner drawn)

  is_valid_entry-reservation :
      (d : Draw) (repository_id : String) (owner : ReservationOwner)
      → is_identifier repository_id ≡ true
      → Drawn x d owner
      → is_valid_entry x repository_id (reservation_entry x d repository_id owner) ≡ true
  unfolding is_valid_entry new_entry record_hash
  is_valid_entry-reservation d repository_id owner named drawn =
      let r = reservation_record x d repository_id owner in
      let digest = hash_json x.hasher (dump_record x.iso r) in
      and_intro _ _
        (and_intro _ _
          (and_intro _ _ (drawn.digest (dump_record x.iso r))
            ((text_Eq.beq_iff (x.lower digest) digest).1 (drawn.lowercase (dump_record x.iso r))))
          ((text_Eq.beq_iff digest digest).1 refl))
        (is_valid_record-reservation d repository_id owner named drawn)

  blocked-created :
      (d late : Draw) (repository_id : String) (owner other : ReservationOwner) (w : IndexWorld)
      → is_identifier repository_id ≡ true
      → Drawn x d owner
      → ltb late.now (d.issue_time + 300) ≡ true
      → probe_or_reserve x late repository_id other
          (save_entry x repository_id (reservation_entry x d repository_id owner) w)
        ≡ ok (
          blocked (
              reservation_from
                (reservation_entry x d repository_id owner)
                none
                d.issue_time
                (d.issue_time + 300)
                owner.host
                owner.pid),
          save_entry x repository_id (reservation_entry x d repository_id owner) w,
        )
  unfolding probe_or_reserve probe_entry probe_kind probe_reserved can_clear_stale reservation_from
      new_entry
  blocked-created d late repository_id owner other w named drawn early =
      let w' = save_entry x repository_id (reservation_entry x d repository_id owner) w in
      let e = reservation_entry x d repository_id owner in
      let q = reservation_from e none d.issue_time (d.issue_time + 300) owner.host owner.pid in
      let next = probe_entry x late repository_id other w' in
      ap (λ b. guard b invalid_value >> (load_entry x repository_id w' >>= next)) named
      ∙ ap (λ m. m >>= next)
          (load_entry-save_entry x repository_id e w
            (is_valid_entry-reservation d repository_id owner named drawn))
      ∙ ap
          (λ b.
            (if b
              then ok false
              else (x.has_journal w' d.fresh_id >>= λ has.
                  ok (not has && is_owner_dead late owner.host owner.pid)))
            >>= λ stale. ok (
                if stale
                then create_reservation x late repository_id other (remove_entry x repository_id w')
                else (blocked q, w')))
          early

  reserved-injective :
      {q r : PreparationReservation} {w w' : IndexWorld}
      → ◌≡◌ {A = IndexProbeResult × IndexWorld} (reserved q, w) (reserved r, w')
      → q ≡ r
  reserved-injective h = cc

  then-blocked :
      (d late : Draw) (repository_id : String) (owner other : ReservationOwner)
      {r : PreparationReservation} {w' : IndexWorld}
      → is_identifier repository_id ≡ true
      → Drawn x d owner
      → ltb late.now r.expires_at ≡ true
      → Created d repository_id owner r w'
      → probe_or_reserve x late repository_id other w'
        ≡ ok (blocked (record r { challenge = none }), w')
  unfolding create_reservation reservation_from new_entry
  then-blocked d late repository_id owner other {r} {w'} named drawn early made =
      let e = reservation_entry x d repository_id owner in
      let q =
        reservation_from e (some d.challenge) d.issue_time (d.issue_time + 300) owner.host
          owner.pid in
      let same : q ≡ r = reserved-injective made.created in
      let world : save_entry x repository_id e made.before ≡ w' = ap (λ p. p.1) made.created in
      let early' : ltb late.now (d.issue_time + 300) ≡ true =
        subst (λ r. ltb late.now r.expires_at ≡ true) (sym same) early in
      subst
        (λ v.
          probe_or_reserve x late repository_id other v
          ≡ ok (blocked (record r { challenge = none }), v))
        world
        (blocked-created d late repository_id owner other made.before named drawn early'
          ∙ ap
              (λ r.
                ok (
                  blocked (record r { challenge = none }),
                  save_entry x repository_id e made.before,
                ))
              same)

  -- After a probe that reserves the repository, and draws an identifier and digests that are well
  -- formed for an owner that is, each later probe before the reservation expires, by whoever and with
  -- whatever it draws, is blocked by that reservation, without its challenge, and changes nothing.
  pub probe_or_reserve-Blocks :
      (d late : Draw) (repository_id : String) (owner other : ReservationOwner) (w : IndexWorld)
      {r : PreparationReservation} {w' : IndexWorld}
      → Drawn x d owner
      → probe_or_reserve x d repository_id owner w ≡ ok (reserved r, w')
      → ltb late.now r.expires_at ≡ true
      → probe_or_reserve x late repository_id other w'
        ≡ ok (blocked (record r { challenge = none }), w')
  unfolding probe_or_reserve
  probe_or_reserve-Blocks d late repository_id owner other w drawn h early =
      let (passed, h) = then-ok (guard (is_identifier repository_id) invalid_value) _ h in
      let (e, _, h) = >>=-eq-ok (load_entry x repository_id w) _ h in
      then-blocked d late repository_id owner other
        (guard-ok (is_identifier repository_id) invalid_value passed) drawn early
        (probe_entry-Created d repository_id owner w e h)

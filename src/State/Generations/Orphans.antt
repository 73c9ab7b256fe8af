-- ===== src/State/Generations/Orphans.antt =====
-- The generation that an interrupted swap leaves behind, which no pointer names.
use auto_code.Common.{
  then-ok, guard-ok, ok-injective, ℕ, ◌+◌, String, Bool, true, false, ◌&&◌, ◌||◌, Option, none,
  some, ◌∷◌, num_eq, leb, ◌==◌, text_Eq, option_Eq, ok, err, ◌>>=◌, ◌>>◌, guard, ◌≡◌, refl, ◌∙◌,
  sym, ap, arith, >>=-eq-ok,
}
use auto_code.Contracts.Json.{hash_json}
use auto_code.Contracts.RunState.Validation.{validate_state}
use auto_code.State.Acceptance.{has_identifiers}
use auto_code.State.Context.{StateGeneration, StoreContext, corrupt, invalid_argument}
use auto_code.State.Generations.{
  Disk, Envelope, filed, envelope_of, Pointer, missing, unreadable, points, Records, record_of,
  recorded_in, generation_records, find_generation, covers, is_within, has_path, revision_of,
  require_complete, no_records, added, check_envelope, read_generation, load_generation,
  check_history, load_pointed, load_optional, found, load, as_corrupt,
}
use auto_code.State.Generations.Records.{recorded_in-absent}
use auto_code.State.Generations.Swap.{Recoverable, unrecorded}

or_true : (b : Bool) → (b || true) ≡ true
or_true true = refl
or_true false = refl

-- The records of a disk with the orphan.
pub records-added :
    (d : Disk) (current : Option StateGeneration) (g : StateGeneration)
    (r : Recoverable d current g)
    → find_generation g.revision g.state_hash d.entries ≡ none
    → (content : Option Envelope)
    → generation_records (filed content g d).entries ≡ ok ((g.revision, g.state_hash) ∷ r.records)
unfolding generation_records
records-added d current g r absent content =
    ap (λ m. m >>= recorded_in g.revision g.state_hash) r.read
    ∙ recorded_in-absent g.revision g.state_hash r.records (unrecorded d current g r absent)

not-within :
    (n m : ℕ) (h : String) (rs : Records) → leb m n ≡ false → is_within n ((m, h) ∷ rs) ≡ false
unfolding is_within
not-within n m h rs above = ground (arith, above)

-- An orphan of a later revision makes a history incomplete.
require_complete-orphan :
    (d : Disk) (current : Option StateGeneration) (g c : StateGeneration)
    (r : Recoverable d current g)
    → g.revision ≡ c.revision + 1
    → find_generation g.revision g.state_hash d.entries ≡ none
    → (content : Option Envelope) → require_complete (filed content g d) c ≡ err corrupt
unfolding require_complete
require_complete-orphan d current g c r next absent content =
    let above : leb g.revision c.revision ≡ false = ground (arith, next) in
    ap
      (λ m. m >>= λ rs.
        guard
          (is_within c.revision rs
            && covers c.revision rs
            && record_of c.revision rs == some c.state_hash)
          corrupt)
      (records-added d current g r absent content)
    ∙ ap
        (λ b.
          guard
            (b
              && covers c.revision ((g.revision, g.state_hash) ∷ r.records)
              && record_of c.revision ((g.revision, g.state_hash) ∷ r.records) == some c.state_hash)
            corrupt)
        (not-within c.revision g.revision g.state_hash r.records above)

module _ (x : StoreContext) where
  check_envelope-revision :
      (n : ℕ) (h : String) (e : Envelope) {g : StateGeneration}
      → check_envelope x n h e ≡ ok g
      → g.revision ≡ n
  unfolding check_envelope
  check_envelope-revision n h e k =
      let (_, k) =
        then-ok
          (guard (num_eq e.revision n && e.state_hash == h && x.lower e.state_hash == e.state_hash)
            corrupt)
          _ k in
      let (_, k) = then-ok (guard (hash_json x.externals.hasher e.raw_state == h) corrupt) _ k in
      let (_, k) = then-ok (guard (x.is_persistable e.raw_state) corrupt) _ k in
      let (s, _, k) = >>=-eq-ok (as_corrupt (validate_state x.externals e.state)) _ k in
      let (_, k) = then-ok (guard (s.run_id == x.run_id && has_identifiers s) corrupt) _ k in
      ap (λ (g : StateGeneration). g.revision) (ok-injective k)

  read_generation-revision :
      (n : ℕ) (h : String) (o : Option (Option Envelope)) {g : StateGeneration}
      → read_generation x n h o ≡ ok g
      → g.revision ≡ n
  unfolding read_generation
  read_generation-revision n h none k = absurd (cc)
  read_generation-revision n h (some none) k = absurd (cc)
  read_generation-revision n h (some (some e)) k = check_envelope-revision n h e k

  load_generation-revision :
      (d : Disk) (n : ℕ) (h : String) {g : StateGeneration}
      → load_generation x d n h ≡ ok g
      → g.revision ≡ n
  unfolding load_generation
  load_generation-revision d n h k =
      let (_, k) = then-ok (guard (has_path n h) invalid_argument) _ k in
      read_generation-revision n h (find_generation n h d.entries) k

  -- The orphan is not looked at when another revision is loaded.
  load_generation-other :
      (d : Disk) (g : StateGeneration) (n : ℕ) (h : String)
      → num_eq g.revision n ≡ false
      → load_generation x (added x g d) n h ≡ load_generation x d n h
  unfolding load_generation find_generation
  load_generation-other d g n h other = rw other

  -- Where the pointer names a generation that loads, what is read of the pointer.
  record Pointed (d : Disk) (n : ℕ) (h : String) (current : Option StateGeneration) : Type 0 where
    test : (has_path n h && x.lower h == h) ≡ true
    generation : StateGeneration
    loaded : load_generation x d n h ≡ ok generation
    same : current ≡ some generation
    number : generation.revision ≡ n

  load_pointed-Pointed :
      (d : Disk) (n : ℕ) (h : String) (current : Option StateGeneration)
      → load_pointed x true d (points n h) ≡ ok current
      → Pointed d n h current
  unfolding load_pointed check_history
  load_pointed-Pointed d n h current k =
      let (test, k) = then-ok (guard (has_path n h && x.lower h == h) corrupt) _ k in
      let (c, loaded, k) = >>=-eq-ok (load_generation x d n h) _ k in
      record {
        test = guard-ok (has_path n h && x.lower h == h) corrupt test;
        generation = c;
        loaded = loaded;
        same = ok-injective k;
        number = load_generation-revision d n h loaded;
      }

  -- What is pointed at is loaded from the disk with the orphan.
  loaded-added :
      (d : Disk) (n : ℕ) (h : String) (current : Option StateGeneration) (g : StateGeneration)
      (p : Pointed d n h current)
      → g.revision ≡ revision_of current + 1
      → load_generation x (added x g d) n h ≡ ok p.generation
  unfolding revision_of
  loaded-added d n h current g p next =
      let above : g.revision ≡ p.generation.revision + 1 =
        next ∙ ap (λ c. revision_of c + 1) p.same in
      let other : num_eq g.revision n ≡ false =
        apart g.revision p.generation.revision n above p.number in
      load_generation-other d g n h other ∙ p.loaded
    where
      apart : (a b n : ℕ) → a ≡ b + 1 → b ≡ n → num_eq a n ≡ false
      apart a b n e f = ground (arith, e, f)

  pointed-kept :
      (d : Disk) (p : Pointer) (current : Option StateGeneration) (g : StateGeneration)
      (r : Recoverable d current g)
      → g.revision ≡ revision_of current + 1
      → find_generation g.revision g.state_hash d.entries ≡ none
      → load_pointed x true d p ≡ ok current
      → load_pointed x true (added x g d) p ≡ ok current
  unfolding load_pointed check_history no_records
  pointed-kept d unreadable current g r next absent h = absurd (cc)
  pointed-kept d missing current g r next absent h =
      let (records, _, k) = >>=-eq-ok (generation_records d.entries) _ h in
      let (_, k) = then-ok (guard (no_records records || true) corrupt) _ k in
      ap (λ m. m >>= λ rs. guard (no_records rs || true) corrupt >> ok none)
        (records-added d current g r absent (some (envelope_of x g)))
      ∙ ap ok (sym (ok-injective k))
  pointed-kept d (points n h') current g r next absent h =
      let p = load_pointed-Pointed d n h' current h in
      ap
        (λ b.
          guard b corrupt
          >> (load_generation x (added x g d) n h' >>= λ c.
              check_history x true (added x g d) c >> ok (some c)))
        p.test
      ∙ ap (λ m. m >>= λ c. check_history x true (added x g d) c >> ok (some c))
          (loaded-added d n h' current g p next)
      ∙ ap ok (sym p.same)

  pointed-refused :
      (d : Disk) (p : Pointer) (current : Option StateGeneration) (g : StateGeneration)
      (r : Recoverable d current g)
      → g.revision ≡ revision_of current + 1
      → find_generation g.revision g.state_hash d.entries ≡ none
      → load_pointed x true d p ≡ ok current
      → load_pointed x false (added x g d) p ≡ err corrupt
  unfolding load_pointed check_history no_records revision_of
  pointed-refused d unreadable current g r next absent h = refl
  pointed-refused d missing current g r next absent h =
      ap (λ m. m >>= λ rs. guard (no_records rs || false) corrupt >> ok none)
        (records-added d current g r absent (some (envelope_of x g)))
  pointed-refused d (points n h') current g r next absent h =
      let p = load_pointed-Pointed d n h' current h in
      let above = next ∙ ap (λ c. revision_of c + 1) p.same in
      ap
        (λ b.
          guard b corrupt
          >> (load_generation x (added x g d) n h' >>= λ c.
              check_history x false (added x g d) c >> ok (some c)))
        p.test
      ∙ ap (λ m. m >>= λ c. check_history x false (added x g d) c >> ok (some c))
          (loaded-added d n h' current g p next)
      ∙ ap (λ m. m >> ok (some p.generation))
          (require_complete-orphan d current g p.generation r above absent (some (envelope_of x g)))

  pub orphan-kept :
      (d : Disk) (current : Option StateGeneration) (g : StateGeneration)
      (r : Recoverable d current g)
      → g.revision ≡ revision_of current + 1
      → find_generation g.revision g.state_hash d.entries ≡ none
      → load_optional x true d ≡ ok current
      → load_optional x true (added x g d) ≡ ok current
  unfolding load_optional
  orphan-kept d current g r next absent h = pointed-kept d d.pointer current g r next absent h

  pub orphan-refused :
      (d : Disk) (current : Option StateGeneration) (g : StateGeneration)
      (r : Recoverable d current g)
      → g.revision ≡ revision_of current + 1
      → find_generation g.revision g.state_hash d.entries ≡ none
      → load_optional x true d ≡ ok current
      → load x (added x g d) ≡ err corrupt
  unfolding load load_optional
  orphan-refused d current g r next absent h =
      ap (λ m. m >>= found x) (pointed-refused d d.pointer current g r next absent h)

-- ===== src/State/Generations/Records.antt =====
-- Lemmas on the records of a generation directory.
use auto_code.Common.{
  ℕ, ◌+◌, zero, suc, String, true, false, ◌&&◌, Option, none, some, List, [], ◌∷◌, num_eq, ◌==◌,
  text_Eq, ok, ◌≡◌, refl, arith, >>=-eq-ok, Bool-cases, inl, inr,
}
use auto_code.State.Generations.{
  Envelope, Entry, temporary, invalid, generation, Records, record_of, has_record, recorded_in,
  generation_records, find_generation, covers, is_within, is_within_or,
}

pub is_within_or-IsWithin :
    (n : ℕ) (rs : Records) → is_within_or n (n + 1) rs ≡ true → is_within (n + 1) rs ≡ true
unfolding is_within_or is_within
is_within_or-IsWithin n [] h = refl
is_within_or-IsWithin n ((m, k) ∷ rest) h = ground (arith, is_within_or-IsWithin n rest)

pub covers-cons :
    (n m : ℕ) (k : String) (rs : Records) → covers n rs ≡ true → covers n ((m, k) ∷ rs) ≡ true
unfolding covers has_record
covers-cons zero m k rs h = refl
covers-cons (suc n) m k rs h = ground (arith, covers-cons n m k rs)

pub record_of-has_record : (n : ℕ) (rs : Records) → record_of n rs ≡ none → has_record n rs ≡ false
unfolding record_of has_record
record_of-has_record n [] h = refl
record_of-has_record n ((m, k) ∷ rest) h = ground (arith, record_of-has_record n rest)

pub has_record-record_of :
    (n : ℕ) (rs : Records) → has_record n rs ≡ true → (k : String) × (record_of n rs ≡ some k)
unfolding record_of has_record
has_record-record_of n [] h = absurd (cc)
has_record-record_of n ((m, k) ∷ rest) h = elim (Bool-cases (num_eq m n)) [
  | inl same ↦ (k, ground arith)
  | inr other ↦
      (let more : has_record n rest ≡ true = ground arith in
        let (k', found) = has_record-record_of n rest more in (k', ground (arith, found)))
]

recorded_in-ok :
    (n : ℕ) (h : String) (rest : Records) {rs : Records}
    → recorded_in n h rest ≡ ok rs
    → (has_record n rest ≡ false) × (rs ≡ (n, h) ∷ rest)
unfolding recorded_in
recorded_in-ok n h rest e = elim (Bool-cases (has_record n rest)) [
  | inl there ↦ absurd (ground (arith, there, e))
  | inr absent ↦ (absent, ground (arith, absent, e))
]

pub recorded_in-absent :
    (n : ℕ) (h : String) (rest : Records)
    → has_record n rest ≡ false
    → recorded_in n h rest ≡ ok ((n, h) ∷ rest)
unfolding recorded_in
recorded_in-absent n h rest absent = rw absent

-- A file of the directory is recorded.
pub find_generation-has_record :
    (n : ℕ) (h : String) (es : List Entry) (rs : Records) (c : Option Envelope)
    → generation_records es ≡ ok rs
    → find_generation n h es ≡ some c
    → has_record n rs ≡ true
unfolding generation_records find_generation has_record
find_generation-has_record n h [] rs c read found = absurd (cc)
find_generation-has_record n h (temporary ∷ es) rs c read found =
    find_generation-has_record n h es rs c read found
find_generation-has_record n h (invalid ∷ es) rs c read found = absurd (cc)
find_generation-has_record n h (generation m k b ∷ es) rs c read found =
    let (rest, before, now) = >>=-eq-ok (generation_records es) (recorded_in m k) read in
    let (_, same) = recorded_in-ok m k rest now in
    elim (Bool-cases (num_eq m n && k == h)) [
      | inl here ↦ ground (arith, here, same)
      | inr other ↦
          (let later =
              find_generation-has_record n h es rest c before (ground (arith, other, found)) in
            ground (arith, later, same))
    ]

-- A record is of a file.
pub record_of-find_generation :
    (n : ℕ) (h : String) (es : List Entry) (rs : Records)
    → generation_records es ≡ ok rs
    → find_generation n h es ≡ none
    → record_of n rs ≡ some h
    → ⊥
unfolding generation_records find_generation record_of
record_of-find_generation n h [] rs read absent there = ground (arith, read, there)
record_of-find_generation n h (temporary ∷ es) rs read absent there =
    record_of-find_generation n h es rs read absent there
record_of-find_generation n h (invalid ∷ es) rs read absent there = cc
record_of-find_generation n h (generation m k c ∷ es) rs read absent there =
    let (rest, before, now) = >>=-eq-ok (generation_records es) (recorded_in m k) read in
    let (_, same) = recorded_in-ok m k rest now in
    elim (Bool-cases (num_eq m n)) [
      | inl here ↦ ground (arith, here, same, absent, there, (text_Eq.beq_iff k h))
      | inr other ↦
          record_of-find_generation n h es rest before (ground (arith, other, absent))
            (ground (arith, other, same, there))
    ]

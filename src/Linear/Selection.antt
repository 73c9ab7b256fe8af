-- ===== src/Linear/Selection.antt =====
-- The ticket that is selected is eligible, and none that is eligible comes before it.
use mathlib.Core.List.{Memᴰ}
use mathlib.Core.Path.{subst}
use auto_code.Common.{
  then-ok, guard-ok, ok-injective, ℕ, String, Bool, true, false, ◌&&◌, Option, none, some, List, [],
  ◌∷◌, distinct, text_Eq, ok, ◌>>=◌, guard, if◌then◌else◌, ◌≡◌, refl, ◌∙◌, sym, ap, arith,
  >>=-eq-ok, Bool-cases, inl, inr,
}
use auto_code.Contracts.Json.{Json, Items}
use auto_code.Linear.{
  invalid_identities, duplicate_ids, CandidateTicket, NormalizedTicket, LinearContext, ticket_items,
  lt_codes, candidate_order, precedes, least_from, least, is_eligible, eligible_with, candidates,
  identifiers, is_linear_identifier, normalize_all, select_normalized, select_ticket,
}

lt_codes_irrefl : (a : List ℕ) → lt_codes a a ≡ false
unfolding lt_codes
lt_codes_irrefl [] = refl
lt_codes_irrefl (a ∷ more) = ground (arith, lt_codes_irrefl more)

lt_codes_trans : (a b c : List ℕ) → lt_codes a b ≡ true → lt_codes b c ≡ true → lt_codes a c ≡ true
unfolding lt_codes
lt_codes_trans [] [] c h k = absurd (cc)
lt_codes_trans [] (b ∷ bs) [] h k = absurd (cc)
lt_codes_trans [] (b ∷ bs) (c ∷ cs) h k = refl
lt_codes_trans (a ∷ more) [] c h k = absurd (cc)
lt_codes_trans (a ∷ more) (b ∷ bs) [] h k = absurd (cc)
lt_codes_trans (a ∷ more) (b ∷ bs) (c ∷ cs) h k = ground (arith, lt_codes_trans more bs cs)

not-before :
    (u t best : CandidateTicket)
    → precedes t best ≡ true
    → precedes u best ≡ false
    → precedes u t ≡ false
unfolding precedes
not-before u t best h k = elim (Bool-cases (precedes u t)) [
  | inl before ↦
      (let early : precedes u best ≡ true =
          lt_codes_trans (candidate_order u) (candidate_order t) (candidate_order best) before h in
        absurd (cc))
  | inr late ↦ late
]

-- What does not come before the first does not come before the result.
least_from-keeps :
    (ts : List CandidateTicket) (best u : CandidateTicket)
    → precedes u best ≡ false
    → precedes u (least_from best ts) ≡ false
unfolding least_from
least_from-keeps [] best u h = h
least_from-keeps (t ∷ rest) best u h = elim (Bool-cases (precedes t best)) [
  | inl changed ↦
      ap (λ b. precedes u (if b then least_from t rest else least_from best rest)) changed
      ∙ least_from-keeps rest t u (not-before u t best changed h)
  | inr kept ↦
      ap (λ b. precedes u (if b then least_from t rest else least_from best rest)) kept
      ∙ least_from-keeps rest best u h
]

least_from-Least :
    (ts : List CandidateTicket) (best u : CandidateTicket)
    → Memᴰ u ts
    → precedes u (least_from best ts) ≡ false
unfolding least_from precedes
least_from-Least [] best u there = elim there [ ]
least_from-Least (t ∷ rest) best u (Memᴰ.head same) = elim (Bool-cases (precedes t best)) [
  | inl changed ↦
      ap (λ b. precedes u (if b then least_from t rest else least_from best rest)) changed
      ∙ least_from-keeps rest t u
          (ap (λ v. precedes v t) same ∙ lt_codes_irrefl (candidate_order t))
  | inr kept ↦
      ap (λ b. precedes u (if b then least_from t rest else least_from best rest)) kept
      ∙ least_from-keeps rest best u (ap (λ v. precedes v best) same ∙ kept)
]
least_from-Least (t ∷ rest) best u (Memᴰ.tail there) = elim (Bool-cases (precedes t best)) [
  | inl changed ↦
      ap (λ b. precedes u (if b then least_from t rest else least_from best rest)) changed
      ∙ least_from-Least rest t u there
  | inr kept ↦
      ap (λ b. precedes u (if b then least_from t rest else least_from best rest)) kept
      ∙ least_from-Least rest best u there
]

least_from-Memᴰ :
    (ts : List CandidateTicket) (best : CandidateTicket) → Memᴰ (least_from best ts) (best ∷ ts)
unfolding least_from
least_from-Memᴰ [] best = Memᴰ.head refl
least_from-Memᴰ (t ∷ rest) best = elim (Bool-cases (precedes t best)) [
  | inl changed ↦
      subst (λ b. Memᴰ (if b then least_from t rest else least_from best rest) (best ∷ t ∷ rest))
        (sym changed) (Memᴰ.tail (least_from-Memᴰ rest t))
  | inr kept ↦
      subst (λ b. Memᴰ (if b then least_from t rest else least_from best rest) (best ∷ t ∷ rest))
        (sym kept) (later (least_from-Memᴰ rest best))
]
  where
    later : {u : CandidateTicket} → Memᴰ u (best ∷ rest) → Memᴰ u (best ∷ t ∷ rest)
    later (Memᴰ.head same) = Memᴰ.head same
    later (Memᴰ.tail there) = Memᴰ.tail (Memᴰ.tail there)

-- A ticket of a list that is unstarted, of the assignee and the milestone, and without a blocker that
-- is active.
abbrev pub Eligible : String → String → List NormalizedTicket → CandidateTicket → Type 0
Eligible assignee milestone ns t =
    (n : NormalizedTicket) × Memᴰ n ns
    × (n.ticket ≡ some t)
    × (is_eligible assignee milestone n t ≡ true)

Eligible-cons :
    (assignee milestone : String) (n : NormalizedTicket) (ns : List NormalizedTicket)
    (t : CandidateTicket)
    → Eligible assignee milestone ns t
    → Eligible assignee milestone (n ∷ ns) t
Eligible-cons assignee milestone n ns t (m, member, ticket, passes) =
    (m, Memᴰ.tail member, ticket, passes)

-- What the first ticket adds to the candidates is eligible.
added-Eligible :
    (assignee milestone : String) (n : NormalizedTicket) (ns : List NormalizedTicket)
    (t u : CandidateTicket) (b : Bool) (others : List CandidateTicket)
    → (Memᴰ t others → Eligible assignee milestone ns t)
    → n.ticket ≡ some u
    → is_eligible assignee milestone n u ≡ b
    → Memᴰ t (if b then u ∷ others else others)
    → Eligible assignee milestone (n ∷ ns) t
added-Eligible assignee milestone n ns t u true others ih ticket passes (Memᴰ.head same) = (
  n,
  Memᴰ.head refl,
  ticket ∙ ap some (sym same),
  ap (is_eligible assignee milestone n) same ∙ passes,
)
added-Eligible assignee milestone n ns t u true others ih ticket passes (Memᴰ.tail there) =
    Eligible-cons assignee milestone n ns t (ih there)
added-Eligible assignee milestone n ns t u false others ih ticket fails there =
    Eligible-cons assignee milestone n ns t (ih there)

first-Eligible :
    (assignee milestone : String) (n : NormalizedTicket) (ns : List NormalizedTicket)
    (t : CandidateTicket) (o : Option CandidateTicket) (others : List CandidateTicket)
    → (Memᴰ t others → Eligible assignee milestone ns t)
    → n.ticket ≡ o
    → Memᴰ t (eligible_with assignee milestone n o others)
    → Eligible assignee milestone (n ∷ ns) t
first-Eligible assignee milestone n ns t none others ih ticket there =
    Eligible-cons assignee milestone n ns t (ih there)
first-Eligible assignee milestone n ns t (some u) others ih ticket there =
    added-Eligible assignee milestone n ns t u (is_eligible assignee milestone n u) others ih ticket
      refl there

candidates-Eligible :
    (assignee milestone : String) (ns : List NormalizedTicket) (t : CandidateTicket)
    → Memᴰ t (candidates assignee milestone ns)
    → Eligible assignee milestone ns t
unfolding candidates
candidates-Eligible assignee milestone [] t there = elim there [ ]
candidates-Eligible assignee milestone (n ∷ rest) t there =
    first-Eligible assignee milestone n rest t n.ticket (candidates assignee milestone rest)
      (candidates-Eligible assignee milestone rest t) refl there

eligible_with-tail :
    (assignee milestone : String) (m : NormalizedTicket) (o : Option CandidateTicket)
    (t : CandidateTicket) (others : List CandidateTicket)
    → Memᴰ t others
    → Memᴰ t (eligible_with assignee milestone m o others)
eligible_with-tail assignee milestone m none t others there = there
eligible_with-tail assignee milestone m (some u) t others there =
    after (is_eligible assignee milestone m u)
  where
    after : (b : Bool) → Memᴰ t (if b then u ∷ others else others)
    after true = Memᴰ.tail there
    after false = there

eligible-candidates :
    (assignee milestone : String) (ns : List NormalizedTicket) (n : NormalizedTicket)
    (t : CandidateTicket)
    → Memᴰ n ns
    → n.ticket ≡ some t
    → is_eligible assignee milestone n t ≡ true
    → Memᴰ t (candidates assignee milestone ns)
unfolding candidates
eligible-candidates assignee milestone [] n t there ticket passes = elim there [ ]
eligible-candidates assignee milestone (m ∷ rest) n t (Memᴰ.head same) ticket passes =
    let others = candidates assignee milestone rest in
    subst (λ o. Memᴰ t (eligible_with assignee milestone m o others))
      (sym (ap (λ n. n.ticket) (sym same) ∙ ticket))
      (subst (λ b. Memᴰ t (if b then t ∷ others else others))
        (sym (ap (λ n. is_eligible assignee milestone n t) (sym same) ∙ passes)) (Memᴰ.head refl))
eligible-candidates assignee milestone (m ∷ rest) n t (Memᴰ.tail there) ticket passes =
    eligible_with-tail assignee milestone m m.ticket t (candidates assignee milestone rest)
      (eligible-candidates assignee milestone rest n t there ticket passes)

-- The tickets of a response that was read, whose identifiers are distinct.
pub record Read (x : LinearContext) (raw : Json) (ns : List NormalizedTicket) : Type 0 where
  pub items : Items
  pub listed : ticket_items raw ≡ ok items
  pub normalized : normalize_all x items ≡ ok ns
  pub unique : distinct (identifiers ns) ≡ true

module _ (x : LinearContext) where
  select_ticket-Read :
      (raw : Json) (assignee milestone : String) {r : Option CandidateTicket}
      → select_ticket x raw assignee milestone ≡ ok r
      → (ns : List NormalizedTicket) × Read x raw ns
        × (r ≡ least (candidates assignee milestone ns))
  unfolding select_ticket select_normalized
  select_ticket-Read raw assignee milestone h =
      let (_, h) =
        then-ok
          (guard (is_linear_identifier x assignee && is_linear_identifier x milestone)
            invalid_identities)
          _ h in
      let (ns, h', h) = >>=-eq-ok (ticket_items raw >>= normalize_all x) _ h in
      let (items, listed, normalized) = >>=-eq-ok (ticket_items raw) (normalize_all x) h' in
      let (passed, h) = then-ok (guard (distinct (identifiers ns)) duplicate_ids) _ h in
      (
        ns,
        record {
          items = items;
          listed = listed;
          normalized = normalized;
          unique = guard-ok (distinct (identifiers ns)) duplicate_ids passed;
        },
        ok-injective h,
      )

  least-Least :
      (ts : List CandidateTicket) (t u : CandidateTicket)
      → some t ≡ least ts
      → Memᴰ u ts
      → precedes u t ≡ false
  unfolding least precedes
  least-Least [] t u h there = elim there [ ]
  least-Least (first ∷ rest) t u h (Memᴰ.head same) =
      let here : t ≡ least_from first rest = cc in
      ap (precedes u) here
      ∙ least_from-keeps rest first u
          (ap (λ v. precedes v first) same ∙ lt_codes_irrefl (candidate_order first))
  least-Least (first ∷ rest) t u h (Memᴰ.tail there) =
      let here : t ≡ least_from first rest = cc in
      ap (precedes u) here ∙ least_from-Least rest first u there

  least-Memᴰ : (ts : List CandidateTicket) (t : CandidateTicket) → some t ≡ least ts → Memᴰ t ts
  unfolding least
  least-Memᴰ [] t h = absurd (cc)
  least-Memᴰ (first ∷ rest) t h =
      let here : t ≡ least_from first rest = cc in
      subst (λ v. Memᴰ v (first ∷ rest)) (sym here) (least_from-Memᴰ rest first)

  least-none : (ts : List CandidateTicket) (t : CandidateTicket) → none ≡ least ts → Memᴰ t ts → ⊥
  unfolding least
  least-none [] t h there = elim there [ ]
  least-none (first ∷ rest) t h there = cc

  -- A ticket that is selected is an eligible one of the response, and no eligible ticket comes before
  -- it in the order of priority, age and identifier.
  pub select_ticket-Eligible :
      (raw : Json) (assignee milestone : String) {t : CandidateTicket}
      → select_ticket x raw assignee milestone ≡ ok (some t)
      → (ns : List NormalizedTicket) × Read x raw ns
        × Eligible assignee milestone ns t
        × ((u : CandidateTicket) → Eligible assignee milestone ns u → precedes u t ≡ false)
  select_ticket-Eligible raw assignee milestone {t} h =
      let (ns, read, chosen) = select_ticket-Read raw assignee milestone h in
      let found = candidates assignee milestone ns in
      (
        ns,
        read,
        candidates-Eligible assignee milestone ns t (least-Memᴰ found t chosen),
        λ u (n, member, ticket, passes).
            least-Least found t u chosen
              (eligible-candidates assignee milestone ns n u member ticket passes),
      )

  -- Where no ticket is selected and nothing is raised, no ticket of the response is eligible.
  pub select_ticket-none :
      (raw : Json) (assignee milestone : String)
      → select_ticket x raw assignee milestone ≡ ok none
      → (ns : List NormalizedTicket) × Read x raw ns
        × ((u : CandidateTicket) → Eligible assignee milestone ns u → ⊥)
  select_ticket-none raw assignee milestone h =
      let (ns, read, chosen) = select_ticket-Read raw assignee milestone h in
      (
        ns,
        read,
        λ u (n, member, ticket, passes).
            least-none (candidates assignee milestone ns) u chosen
              (eligible-candidates assignee milestone ns n u member ticket passes),
      )

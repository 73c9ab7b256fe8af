-- ===== src/Linear.antt =====
-- src/auto_code/linear.py: `select_ticket`, with what it reads of the projection of the tickets.
pub mod Selection
use auto_code.Common.{
  ℕ, String, Bool, true, false, not, ◌&&◌, ◌||◌, Option, none, some, List, [], ◌∷◌, all, any, keep,
  distinct, length, leb, ltb, num_eq, ◌==◌, text_Eq, Result, ok, err, ◌>>=◌, ◌>>◌, guard,
  if◌then◌else◌,
}
use auto_code.Contracts.Json.{
  Json, null, bool, num, other_num, str, arr, obj, Items, end, item, Fields, get,
}
use auto_code.State.Identifiers.{codes}

-- `LinearDataError`, by its messages.
pub data LinearError : Type 0 where
  invalid_identities malformed duplicate_ids : LinearError

-- `CandidateTicket`; its state type is always "unstarted". Times are numbers, in UTC.
pub record CandidateTicket : Type 0 where
  pub id : String
  pub assignee_id : String
  pub milestone_id : String
  pub priority : Option ℕ
  pub created_at : ℕ
  pub title : String

-- A ticket as `_normalize_ticket` returns it.
pub record NormalizedTicket : Type 0 where
  pub identifier : String
  pub ticket : Option CandidateTicket
  pub active_blocker : Bool

-- What the selection takes from the standard library and from pydantic: `strip().upper()` and
-- `strip().lower()`, `isspace` of a code point, `isinstance(value, int)` of a number that is not
-- natural, `datetime.fromisoformat` with the change of the zone, where the text has one, and the
-- validation of the fields of a ticket, which may change its texts.
pub record LinearContext : Type 0 where
  pub strip_upper : String → String
  pub strip_lower : String → String
  pub is_space : ℕ → Bool
  pub is_integer : String → Bool
  pub timestamp : String → Option ℕ
  pub candidate_fields : CandidateTicket → Option CandidateTicket

abbrev pub malformed_if_none : {A : Type 0} → Option A → Result LinearError A
malformed_if_none none = err malformed
malformed_if_none (some a) = ok a

-- `[A-Z0-9]`
unfoldable pub is_id_first : ℕ → Bool
is_id_first c = (leb b'A' c && leb c b'Z') || (leb b'0' c && leb c b'9')

-- `[A-Z0-9._-]`
unfoldable pub is_id_rest : ℕ → Bool
unfolding is_id_first
is_id_rest c = is_id_first c || num_eq c b'.' || num_eq c b'_' || num_eq c b'-'

-- `_CANONICAL_TICKET_ID`
unfoldable pub is_ticket_id_code : List ℕ → Bool
unfolding is_id_first is_id_rest
is_ticket_id_code [] = false
is_ticket_id_code (c ∷ rest) = is_id_first c && all is_id_rest rest && leb (length rest) 255

-- `_ticket_items`, of the value at "tickets" or of the whole response
unfoldable pub items_of : Option Json → Result LinearError Items
items_of (some (arr items)) = ok items
items_of _ = err malformed

unfoldable pub ticket_items : Json → Result LinearError Items
unfolding items_of get
ticket_items (obj fields) = items_of (get fields "tickets")
ticket_items raw = items_of (some raw)

-- `raw.get("title", "")`
unfoldable pub title_of : Option Json → Result LinearError String
title_of none = ok ""
title_of (some (str s)) = ok s
title_of (some _) = err malformed

unfoldable pub lt_codes : List ℕ → List ℕ → Bool
lt_codes [] [] = false
lt_codes [] (_ ∷ _) = true
lt_codes (_ ∷ _) [] = false
lt_codes (a ∷ more) (b ∷ others) =
    let rest = lt_codes more others in ltb a b || (num_eq a b && rest)

-- `_candidate_order`. A tuple of numbers and a last text is ordered as the list of the numbers and
-- of the code points of the text.
unfoldable pub candidate_order : CandidateTicket → List ℕ
candidate_order t = rank t.priority
  where
    rank : Option ℕ → List ℕ
    rank none = 1 ∷ 0 ∷ t.created_at ∷ codes t.id
    rank (some p) = 0 ∷ p ∷ t.created_at ∷ codes t.id

unfoldable pub precedes : CandidateTicket → CandidateTicket → Bool
unfolding candidate_order lt_codes
precedes a b = lt_codes (candidate_order a) (candidate_order b)

-- `min`, which keeps the first of several that are least
unfoldable pub least_from : CandidateTicket → List CandidateTicket → CandidateTicket
unfolding precedes
least_from best [] = best
least_from best (t ∷ rest) =
    let changed = least_from t rest in
    let kept = least_from best rest in if precedes t best then changed else kept

unfoldable pub least : List CandidateTicket → Option CandidateTicket
unfolding least_from
least [] = none
least (t ∷ rest) = some (least_from t rest)

-- The tests of the comprehension.
unfoldable pub is_eligible : String → String → NormalizedTicket → CandidateTicket → Bool
is_eligible assignee milestone n t =
    t.assignee_id == assignee && t.milestone_id == milestone && not n.active_blocker

abbrev pub eligible_with :
    String
    → String
    → NormalizedTicket
    → Option CandidateTicket
    → List CandidateTicket
    → List CandidateTicket
eligible_with assignee milestone n none rest = rest
eligible_with assignee milestone n (some t) rest =
    if is_eligible assignee milestone n t then t ∷ rest else rest

unfoldable pub candidates : String → String → List NormalizedTicket → List CandidateTicket
unfolding is_eligible
candidates assignee milestone [] = []
candidates assignee milestone (n ∷ rest) =
    eligible_with assignee milestone n n.ticket (candidates assignee milestone rest)

unfoldable pub identifiers : List NormalizedTicket → List String
identifiers [] = []
identifiers (n ∷ rest) = n.identifier ∷ identifiers rest

module _ (x : LinearContext) where
  -- `_is_identifier`
  unfoldable pub is_linear_identifier : String → Bool
  is_linear_identifier s =
      not (num_eq (length (codes s)) 0)
      && leb (length (codes s)) 256
      && not (any x.is_space (codes s))

  -- `_required_identifier`
  unfoldable pub required_identifier : Option Json → Result LinearError String
  unfolding is_linear_identifier
  required_identifier (some (str s)) = guard (is_linear_identifier s) malformed >> ok s
  required_identifier _ = err malformed

  -- `_canonical_ticket_id`
  unfoldable pub canonical_ticket_id : Option Json → Result LinearError String
  unfolding is_ticket_id_code
  canonical_ticket_id (some (str s)) =
      guard (is_ticket_id_code (codes (x.strip_upper s))) malformed >> ok (x.strip_upper s)
  canonical_ticket_id _ = err malformed

  -- `_state_type`
  unfoldable pub state_type : Option Json → Result LinearError String
  state_type (some (str s)) =
      guard (not (num_eq (length (codes s)) 0) && leb (length (codes s)) 64) malformed
      >> ok (x.strip_lower s)
  state_type _ = err malformed

  -- `_priority`; a number that is not natural and is an integer is negative.
  unfoldable pub priority_of : Option Json → Result LinearError (Option ℕ)
  priority_of none = ok none
  priority_of (some null) = ok none
  priority_of (some (num n)) = ok (if num_eq n 0 then none else some n)
  priority_of (some (other_num text)) = guard (x.is_integer text) malformed >> ok none
  priority_of (some _) = err malformed

  -- `_timestamp`
  unfoldable pub timestamp_of : Option Json → Result LinearError ℕ
  timestamp_of (some (str s)) =
      guard (not (num_eq (length (codes s)) 0)) malformed >> malformed_if_none (x.timestamp s)
  timestamp_of _ = err malformed

  -- `_blocker_is_active`
  unfoldable pub blocker_is_active : Json → Result LinearError Bool
  unfolding state_type get
  blocker_is_active (obj fields) =
      state_type (get fields "state_type") >>= λ s. ok (not (s == "completed" || s == "canceled"))
  blocker_is_active _ = err malformed

  -- `any(...)`, which stops at the first that is active
  unfoldable pub any_active : Items → Result LinearError Bool
  unfolding blocker_is_active
  any_active end = ok false
  any_active (item j rest) =
      let later = any_active rest in
      blocker_is_active j >>= λ active. if active then ok true else later

  -- `raw.get("blockers", ())`
  unfoldable pub blockers_of : Option Json → Result LinearError Bool
  unfolding any_active
  blockers_of none = ok false
  blockers_of (some (arr items)) = any_active items
  blockers_of (some _) = err malformed

  unfoldable pub normalize_fields : Fields → Result LinearError NormalizedTicket
  unfolding canonical_ticket_id state_type required_identifier priority_of timestamp_of blockers_of
      title_of get
  normalize_fields f = canonical_ticket_id (get f "id") >>= λ identifier.
      state_type (get f "state_type") >>= λ state.
      required_identifier (get f "assignee_id") >>= λ assignee.
      required_identifier (get f "milestone_id") >>= λ milestone.
      priority_of (get f "priority") >>= λ priority.
      timestamp_of (get f "created_at") >>= λ created. blockers_of (get f "blockers") >>= λ active.
      title_of (get f "title") >>= λ title.
      ticket_if (state == "unstarted") (record {
        id = identifier;
        assignee_id = assignee;
        milestone_id = milestone;
        priority = priority;
        created_at = created;
        title = title;
      })
      >>= λ ticket.
          ok (record { identifier = identifier; ticket = ticket; active_blocker = active })
    where
      ticket_if : Bool → CandidateTicket → Result LinearError (Option CandidateTicket)
      ticket_if false t = ok none
      ticket_if true t = malformed_if_none (x.candidate_fields t) >>= λ t. ok (some t)

  -- `_normalize_ticket`
  unfoldable pub normalize_ticket : Json → Result LinearError NormalizedTicket
  unfolding normalize_fields
  normalize_ticket (obj fields) = normalize_fields fields
  normalize_ticket _ = err malformed

  unfoldable pub normalize_all : Items → Result LinearError (List NormalizedTicket)
  unfolding normalize_ticket
  normalize_all end = ok []
  normalize_all (item j rest) =
      let later = normalize_all rest in normalize_ticket j >>= λ n. later >>= λ ns. ok (n ∷ ns)

  -- The tickets of a response that was read.
  unfoldable pub select_normalized :
      String → String → List NormalizedTicket → Result LinearError (Option CandidateTicket)
  unfolding identifiers candidates least
  select_normalized assignee milestone ns =
      guard (distinct (identifiers ns)) duplicate_ids
      >> ok (least (candidates assignee milestone ns))

  -- `select_ticket`
  unfoldable pub select_ticket :
      Json → String → String → Result LinearError (Option CandidateTicket)
  unfolding is_linear_identifier ticket_items normalize_all select_normalized
  select_ticket raw assignee milestone =
      guard (is_linear_identifier assignee && is_linear_identifier milestone) invalid_identities
      >> (ticket_items raw >>= normalize_all >>= select_normalized assignee milestone)

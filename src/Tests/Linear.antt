-- ===== src/Tests/Linear.antt =====
-- Instances for the selection of a ticket, from a response with three tickets.
use auto_code.Common.{String, false, none, some, List, num_eq, ok, ◌≡◌, refl}
use auto_code.Contracts.Json.{Json, null, num, str, arr, obj, end, item, Fields, field, no_more}
use auto_code.Linear.{CandidateTicket, NormalizedTicket, LinearContext, precedes, select_ticket}
use auto_code.Linear.Selection.{Read, Eligible, select_ticket-Eligible, select_ticket-none}

abbrev linear_texts : LinearContext
linear_texts = record {
  strip_upper = λ s. s;
  strip_lower = λ s. s;
  is_space = λ c. num_eq c 32;
  is_integer = λ _. false;
  timestamp = λ _. some 5;
  candidate_fields = λ t. some t;
}

abbrev ticket : String → String → Json → Fields → Json
ticket id state priority more = obj (
    field "id" (str id) (
      field "state_type" (str state) (
        field "assignee_id" (str "me") (
          field "milestone_id" (str "m1")
            (field "priority" priority (field "created_at" (str "now") more))))))

abbrev blocked_by : String → Fields
blocked_by state =
    field "blockers" (arr (item (obj (field "state_type" (str state) no_more)) end)) no_more

-- AC-3 is blocked, AC-2 has no priority, and AC-1 has one.
abbrev response : Json
response = obj (
    field "tickets"
      (arr (
        item (ticket "AC-3" "unstarted" (num 1) (blocked_by "started")) (
          item (ticket "AC-2" "unstarted" null no_more)
            (item (ticket "AC-1" "unstarted" (num 3) (blocked_by "completed")) end))))
      no_more)

abbrev chosen : CandidateTicket
chosen = record {
  id = "AC-1";
  assignee_id = "me";
  milestone_id = "m1";
  priority = some 3;
  created_at = 5;
  title = "";
}

selects : select_ticket linear_texts response "me" "m1" ≡ ok (some chosen)
unfolding select_ticket
selects = refl

selects_none : select_ticket linear_texts response "me" "m2" ≡ ok none
unfolding select_ticket
selects_none = refl

select_ticket-Eligible_example :
    (ns : List NormalizedTicket) × Read linear_texts response ns
    × Eligible "me" "m1" ns chosen
    × ((u : CandidateTicket) → Eligible "me" "m1" ns u → precedes u chosen ≡ false)
select_ticket-Eligible_example = select_ticket-Eligible linear_texts response "me" "m1" selects

select_ticket-none_example :
    (ns : List NormalizedTicket) × Read linear_texts response ns
    × ((u : CandidateTicket) → Eligible "me" "m2" ns u → ⊥)
select_ticket-none_example = select_ticket-none linear_texts response "me" "m2" selects_none

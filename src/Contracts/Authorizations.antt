-- ===== src/Contracts/Authorizations.antt =====
-- src/auto_code/contracts.py: human authorizations and the iterations that they grant.
use auto_code.Common.{
  ℕ, ◌+◌, String, Option, none, some, List, [], ◌∷◌, Bool, false, ◌&&◌, leb, num_eq, not, ◌==◌,
  if◌then◌else◌,
}
use auto_code.Contracts.Enums.{
  HumanAuthorizationAction, HumanAuthorizationAction_Eq, HumanAuthorizationAction-discrete,
}

pub record HumanAuthorization : Type 0 where
  pub authorization_id : String
  pub action : HumanAuthorizationAction
  pub run_id : String
  pub challenge : String
  pub actor : String
  pub reason : String
  pub issued_at : ℕ
  pub expires_at : ℕ
  pub key_id : String
  pub signature : String
  pub additional_iterations : ℕ
  pub consumed_at : Option ℕ

-- `validate_budget`
unfoldable pub has_valid_budget : HumanAuthorization → Bool
unfolding HumanAuthorizationAction-discrete
has_valid_budget a =
    not (a.action == HumanAuthorizationAction.resume && num_eq a.additional_iterations 0)
    && not (a.action == HumanAuthorizationAction.abandon && not (num_eq a.additional_iterations 0))

-- `issued_at <= consumed_at <= expires_at`, and consumed at all
unfoldable pub is_consumed_in_time : HumanAuthorization → Bool
is_consumed_in_time a = within a.consumed_at
  where
    within : Option ℕ → Bool
    within none = false
    within (some t) = leb a.issued_at t && leb t a.expires_at

unfoldable pub consumed_resume_grant : HumanAuthorization → ℕ
unfolding HumanAuthorizationAction-discrete is_consumed_in_time
consumed_resume_grant a =
    if a.action == HumanAuthorizationAction.resume && is_consumed_in_time a
    then a.additional_iterations
    else 0

unfoldable pub granted : List HumanAuthorization → ℕ
unfolding consumed_resume_grant
granted [] = 0
granted (a ∷ rest) = consumed_resume_grant a + granted rest

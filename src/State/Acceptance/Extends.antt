-- ===== src/State/Acceptance/Extends.antt =====
-- What every accepted transition keeps, and what it only adds to.
use auto_code.Common.{
  then-ok, guard-ok, and-true, and_three, String, Bool, true, ◌&&◌, Option, none, some, List, [],
  ◌∷◌, ◌++◌, Eq, ◌==◌, num_eq, num_eq_iff, text_Eq, option_Eq, is_some, ok, guard, ◌≡◌, refl, ◌∙◌,
  sym, ap, ◌⊎◌, inl, inr,
}
use auto_code.Contracts.Equality.{
  EffectEvent_Eq, FailureRecord_Eq, HumanAuthorization_Eq, PersistedBranchBinding_Eq,
}
use auto_code.Contracts.RunState.{RunState}
use auto_code.Contracts.RunState.Checks.{◌⇒◌}
use auto_code.Contracts.RunState.Validation.{has_preparation_binding}
use auto_code.State.Acceptance.{validate_from, validate_successor}
use auto_code.State.Acceptance.Inversion.{as_rejected-ok}
use auto_code.State.Context.{
  StateGeneration, StoreContext, immutable_field, preparation_binding, immutable_binding,
  branch_changed, manifest_substituted, prefix_lost,
}
use auto_code.State.Receipts.{GenerationLoader}
use auto_code.State.Reconciliation.{validate_pending_lifecycle}
use auto_code.State.Validation.{
  is_prefix, keeps_identity, keeps_preparation_binding, keeps_branch, keeps_manifest,
  keeps_histories, validate_kept_fields, as_rejected,
}

and_eight :
    (a b c d e f g h : Bool)
    → (a && b && c && d && e && f && g && h) ≡ true
    → (a ≡ true)
      × (b ≡ true)
      × (c ≡ true)
      × (d ≡ true)
      × (e ≡ true)
      × (f ≡ true)
      × (g ≡ true)
      × (h ≡ true)
and_eight a b c d e f g h all =
    let (more, h) = and-true (a && b && c && d && e && f && g) h all in
    let (more, g) = and-true (a && b && c && d && e && f) g more in
    let (more, f) = and-true (a && b && c && d && e) f more in
    let (abc, d, e) = and_three (a && b && c) d e more in
    let (a, b, c) = and_three a b c abc in (a, b, c, d, e, f, g, h)

-- A list that another one starts with.
pub record StartsWith {ℓ} {A : Type ℓ} (new old : List A) : Type ℓ where
  pub added : List A
  pub split : new ≡ old ++ added

module _ {ℓ} {A : Type ℓ} where
  cons-StartsWith :
      (a b : A) (old new : List A) → b ≡ a → StartsWith new old → StartsWith (b ∷ new) (a ∷ old)
  cons-StartsWith a b old new same p = record { added = p.added; split = cc (same, p.split) }

  append_assoc : (a b c : List A) → (a ++ b) ++ c ≡ a ++ (b ++ c)
  append_assoc [] b c = refl
  append_assoc (x ∷ a) b c = ap (x ∷◌) (append_assoc a b c)

  append_nil : (a : List A) → a ++ [] ≡ a
  append_nil [] = refl
  append_nil (x ∷ a) = ap (x ∷◌) (append_nil a)

  pub StartsWith-self : (a : List A) → StartsWith a a
  StartsWith-self a = record { added = []; split = sym (append_nil a) }

  pub StartsWith-trans : (a b c : List A) → StartsWith b a → StartsWith c b → StartsWith c a
  StartsWith-trans a b c p q = record {
    added = p.added ++ q.added;
    split = q.split ∙ ap (◌++ q.added) p.split ∙ append_assoc a p.added q.added;
  }

is_prefix-StartsWith {ℓ} :
    {A : Type ℓ} ⦃e : Eq A⦄ (old new : List A) → is_prefix old new ≡ true → StartsWith new old
unfolding is_prefix
is_prefix-StartsWith [] new h = record { added = new; split = refl }
is_prefix-StartsWith (a ∷ old) [] h = absurd (cc)
is_prefix-StartsWith ⦃e⦄ (a ∷ old) (b ∷ new) h =
    let (same, more) = and-true (e.beq b a) (is_prefix old new) h in
    cons-StartsWith a b old new ((e.beq_iff b a).0 same) (is_prefix-StartsWith old new more)

-- The state `t` belongs to the run of `s`, and its histories are those of `s` with more at the end.
pub record Continues (s t : RunState) : Type 0 where
  pub run_id : s.run_id ≡ t.run_id
  pub ticket_id : s.ticket_id ≡ t.ticket_id
  pub repository_id : s.repository_id ≡ t.repository_id
  pub max_crew_iterations : s.max_crew_iterations ≡ t.max_crew_iterations
  pub repair_activation_public_key : s.repair_activation_public_key ≡ t.repair_activation_public_key
  pub repair_activation_public_key_hash :
      s.repair_activation_public_key_hash ≡ t.repair_activation_public_key_hash
  pub finalization_public_key : s.finalization_public_key ≡ t.finalization_public_key
  pub finalization_public_key_hash : s.finalization_public_key_hash ≡ t.finalization_public_key_hash
  pub branch : (s.branch ≡ none) ⊎ (t.branch ≡ s.branch)
  pub effects : StartsWith t.effect_ledger s.effect_ledger
  pub failures : StartsWith t.failure_history s.failure_history
  pub authorizations : StartsWith t.human_authorizations s.human_authorizations

keeps_branch-same :
    (s t : RunState) → keeps_branch s t ≡ true → (s.branch ≡ none) ⊎ (t.branch ≡ s.branch)
unfolding keeps_branch
keeps_branch-same s t h =
    same s.branch
      (and-true (is_some s.branch ⇒ (t.branch == s.branch))
        (is_some s.branch_binding ⇒ (t.branch_binding == s.branch_binding)) h).0
  where
    same : (b : Option String) → (is_some b ⇒ (t.branch == b)) ≡ true → (b ≡ none) ⊎ (t.branch ≡ b)
    same none h = inl refl
    same (some b) h = inr ((option_Eq.beq_iff t.branch (some b)).0 h)

option_eq-same : {a b : Option String} → (a == b) ≡ true → a ≡ b
option_eq-same {a} {b} h = (option_Eq.beq_iff a b).0 h

kept-Continues :
    (s t : RunState)
    → keeps_identity s t ≡ true
    → keeps_branch s t ≡ true
    → keeps_histories s t ≡ true
    → Continues s t
unfolding keeps_identity keeps_histories
kept-Continues s t identity branch histories =
    let (run, ticket, repository, most, a, b, c, d) =
      and_eight (s.run_id == t.run_id) (s.ticket_id == t.ticket_id)
        (s.repository_id == t.repository_id) (num_eq s.max_crew_iterations t.max_crew_iterations)
        (s.repair_activation_public_key == t.repair_activation_public_key)
        (s.repair_activation_public_key_hash == t.repair_activation_public_key_hash)
        (s.finalization_public_key == t.finalization_public_key)
        (s.finalization_public_key_hash == t.finalization_public_key_hash) identity in
    let (effects, failures, authorizations) =
      and_three (is_prefix s.effect_ledger t.effect_ledger)
        (is_prefix s.failure_history t.failure_history)
        (is_prefix s.human_authorizations t.human_authorizations) histories in
    record {
      run_id = (text_Eq.beq_iff s.run_id t.run_id).0 run;
      ticket_id = (text_Eq.beq_iff s.ticket_id t.ticket_id).0 ticket;
      repository_id = (text_Eq.beq_iff s.repository_id t.repository_id).0 repository;
      max_crew_iterations = (num_eq_iff s.max_crew_iterations t.max_crew_iterations).0 most;
      repair_activation_public_key = option_eq-same a;
      repair_activation_public_key_hash = option_eq-same b;
      finalization_public_key = option_eq-same c;
      finalization_public_key_hash = option_eq-same d;
      branch = keeps_branch-same s t branch;
      effects = is_prefix-StartsWith s.effect_ledger t.effect_ledger effects;
      failures = is_prefix-StartsWith s.failure_history t.failure_history failures;
      authorizations =
          is_prefix-StartsWith s.human_authorizations t.human_authorizations authorizations;
    }

validate_kept_fields-Continues : (s t : RunState) → validate_kept_fields s t ≡ ok tt → Continues s t
unfolding validate_kept_fields
validate_kept_fields-Continues s t h =
    let (identity, h) = then-ok (guard (keeps_identity s t) immutable_field) _ h in
    let (_, h) =
      then-ok
        (guard
          ((has_preparation_binding s ⇒ has_preparation_binding t)
            && (has_preparation_binding t ⇒ has_preparation_binding s))
          preparation_binding)
        _ h in
    let (_, h) =
      then-ok (guard (has_preparation_binding s ⇒ keeps_preparation_binding s t) immutable_binding)
        _ h in
    let (branch, h) = then-ok (guard (keeps_branch s t) branch_changed) _ h in
    let (_, histories) = then-ok (guard (keeps_manifest s t) manifest_substituted) _ h in
    kept-Continues s t (guard-ok _ immutable_field identity) (guard-ok _ branch_changed branch)
      (guard-ok _ prefix_lost histories)

module _ (x : StoreContext) (load : GenerationLoader) where
  -- What a successor passed.
  pub validate_successor-ok :
      (g : StateGeneration) (t : RunState)
      → validate_successor x load g t ≡ ok tt
      → (validate_pending_lifecycle x g.state t g.revision g.state_hash ≡ ok tt)
        × Continues g.state t
        × (validate_from x load g.state.disposition g t ≡ ok tt)
  unfolding validate_successor
  validate_successor-ok g t h =
      let (pending, h) =
        then-ok (as_rejected (validate_pending_lifecycle x g.state t g.revision g.state_hash)) _
          h in
      let (kept, from) = then-ok (as_rejected (validate_kept_fields g.state t)) _ h in
      (
        as_rejected-ok (validate_pending_lifecycle x g.state t g.revision g.state_hash) pending,
        validate_kept_fields-Continues g.state t
            (as_rejected-ok (validate_kept_fields g.state t) kept),
        from,
      )

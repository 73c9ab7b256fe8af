-- ===== src/State/Acceptance/Clearing.antt =====
-- A pending request is cleared only by a receipt that the bridge signed for it.
use mathlib.Core.Path.{subst}
use auto_code.Common.{
  guard-ok, Bool, true, false, not, ◌&&◌, Option, none, some, ◌==◌, any, is_some, ok, err, ◌≡◌,
  refl, ◌∙◌, ap, ◌⊎◌, inl, inr, if◌then◌else◌, text_Eq, option_Eq,
}
use auto_code.Contracts.Equality.{PendingExternalRequest_Eq}
use auto_code.Contracts.Effects.{EffectEvent}
use auto_code.Contracts.Requests.{PendingExternalRequest}
use auto_code.Contracts.Evidence.{EvidenceRef}
use auto_code.Contracts.Receipts.{TrustedMcpReceipt}
use auto_code.Contracts.RunState.{RunState}
use auto_code.State.Acceptance.{validate_after, validate_transition}
use auto_code.State.Acceptance.Extends.{validate_successor-ok}
use auto_code.State.Acceptance.Inversion.{if-ok, validate_transition-Accepted}
use auto_code.State.Context.{
  StateGeneration, StoreContext, ReceiptAuthority, signature_matches, content_hash_of,
  is_receipt_of, verified, load_verified_receipt, pending_not_authenticated,
  pending_appends_own_event, pending_replaced,
}
use auto_code.State.Pending.{appended_since}
use auto_code.State.Receipts.{GenerationLoader}
use auto_code.State.Reconciliation.{
  Reconciled, reconciled_events, last_sequence, agrees, bridge_evidence, tells_events, answers,
  intended_by, intention_of, confirms, confirmed, confirmed_by, reconciliation_by, authenticated_by,
  authenticated_reconciliation, validate_kept_pending, lifecycle_of, validate_pending_lifecycle,
}

same_option : {A : Type 0} {a b : A} → some a ≡ some b → a ≡ b
same_option h = cc

if-some :
    {A : Type 0} (b : Bool) (o : Option A) {a : A}
    → (if b then o else none) ≡ some a
    → (b ≡ true) × (o ≡ some a)
if-some true o h = (refl, h)
if-some false o h = absurd (cc)

and_five :
    (a b c d e : Bool)
    → (a && b && c && d && e) ≡ true
    → (a ≡ true) × (b ≡ true) × (c ≡ true) × (d ≡ true) × (e ≡ true)
and_five true true true true true h = (refl, refl, refl, refl, refl)
and_five true true true true false h = absurd (cc)
and_five true true true false e h = absurd (cc)
and_five true true false d e h = absurd (cc)
and_five true false c d e h = absurd (cc)
and_five false b c d e h = absurd (cc)

and_four :
    (a b c d : Bool) → (a && b && c && d) ≡ true → (a ≡ true) × (b ≡ true) × (c ≡ true) × (d ≡ true)
and_four a b c d h = let (_, a, b, c, d) = and_five true a b c d h in (a, b, c, d)

-- The events that were added end with the evidence of a receipt: the store's authority reads, at the
-- path of the evidence, a receipt that has this path and whose content has the hash of the evidence,
-- which is signed and which answers the request.
pub record Answered (x : StoreContext) (s t : RunState) (p : PendingExternalRequest) : Type 0 where
  pub receipt : TrustedMcpReceipt
  pub authority : ReceiptAuthority
  pub events : Reconciled
  pub evidence : EvidenceRef
  pub own : x.receipt_authority ≡ some authority
  pub added : reconciled_events (appended_since s.effect_ledger t.effect_ledger) ≡ some events
  pub named : bridge_evidence events ≡ some evidence
  pub read : authority.read evidence.relative_path ≡ some receipt
  pub path : (receipt.relative_path == evidence.relative_path) ≡ true
  pub content : (content_hash_of authority receipt == evidence.sha256) ≡ true
  pub signed : signature_matches authority receipt ≡ true
  pub answer : answers x.lower t.run_id p receipt ≡ true

module _ (x : StoreContext) (s t : RunState) (authority : ReceiptAuthority) where
  -- What `load_verified_receipt` has checked of the receipt that it returns.
  verified-checked :
      (e : EvidenceRef) (o : Option TrustedMcpReceipt) {r : TrustedMcpReceipt}
      → verified authority e o ≡ some r
      → (o ≡ some r) × (is_receipt_of authority e r ≡ true)
  unfolding verified
  verified-checked e none h = absurd (cc)
  verified-checked e (some q) {r} h =
      let (passed, same) = if-some (is_receipt_of authority e q) (some q) h in
      (same, subst (λ q. is_receipt_of authority e q ≡ true) (same_option same) passed)

  receipt_of-parts :
      (e : EvidenceRef) (r : TrustedMcpReceipt)
      → is_receipt_of authority e r ≡ true
      → ((r.relative_path == e.relative_path) ≡ true)
        × (authority.names_receipt r.relative_path r.receipt_id ≡ true)
        × ((content_hash_of authority r == e.sha256) ≡ true)
        × (signature_matches authority r ≡ true)
  unfolding is_receipt_of
  receipt_of-parts e r h =
      and_four (r.relative_path == e.relative_path)
        (authority.names_receipt r.relative_path r.receipt_id)
        (content_hash_of authority r == e.sha256) (signature_matches authority r) h

  confirmed-answers :
      (p : PendingExternalRequest) (q : Reconciled) (e : EvidenceRef) (o : Option TrustedMcpReceipt)
      {r : TrustedMcpReceipt}
      → confirmed x s t authority p q e o ≡ some r
      → (o ≡ some r) × (answers x.lower t.run_id p r ≡ true)
  unfolding confirmed confirms
  confirmed-answers p q e none h = absurd (cc)
  confirmed-answers p q e (some m) {r} h =
      let (passed, same) = if-some (confirms x s t authority p q e m) (some m) h in
      let (_, _, _, answer, _) =
        and_five (intended_by x.lower p m (intention_of s p.effect_id))
          (content_hash_of authority m == e.sha256) (m.relative_path == e.relative_path)
          (answers x.lower t.run_id p m) (tells_events q m) passed in
      (
        same,
        subst (λ (o : TrustedMcpReceipt). answers x.lower t.run_id p o ≡ true) (same_option same)
            answer,
      )

  load_verified_receipt-checked :
      (e : EvidenceRef) {r : TrustedMcpReceipt}
      → load_verified_receipt authority e ≡ some r
      → (authority.read e.relative_path ≡ some r) × (is_receipt_of authority e r ≡ true)
  unfolding load_verified_receipt
  load_verified_receipt-checked e h =
      let (_, found) =
        if-some (e.creator == "trusted-mcp-bridge" && e.media_type == "application/json")
          (verified authority e (authority.read e.relative_path)) h in
      verified-checked e (authority.read e.relative_path) found

  confirmed_by-Answered :
      (p : PendingExternalRequest) (q : Reconciled) (e : Option EvidenceRef) {r : TrustedMcpReceipt}
      → x.receipt_authority ≡ some authority
      → reconciled_events (appended_since s.effect_ledger t.effect_ledger) ≡ some q
      → bridge_evidence q ≡ e
      → confirmed_by x s t authority p q e ≡ some r
      → Answered x s t p
  unfolding confirmed_by
  confirmed_by-Answered p q none own added named h = absurd (cc)
  confirmed_by-Answered p q (some e) {r} own added named h =
      let (loaded, answer) = confirmed-answers p q e (load_verified_receipt authority e) h in
      let (read, checked) = load_verified_receipt-checked e loaded in
      let (path, _, content, signed) = receipt_of-parts e r checked in
      record {
        receipt = r;
        authority = authority;
        events = q;
        evidence = e;
        own = own;
        added = added;
        named = named;
        read = read;
        path = path;
        content = content;
        signed = signed;
        answer = answer;
      }

  reconciliation_by-Answered :
      (p : PendingExternalRequest) (q : Option Reconciled) {r : TrustedMcpReceipt}
      → x.receipt_authority ≡ some authority
      → reconciled_events (appended_since s.effect_ledger t.effect_ledger) ≡ q
      → reconciliation_by x s t authority p q ≡ some r
      → Answered x s t p
  unfolding reconciliation_by
  reconciliation_by-Answered p none own added h = absurd (cc)
  reconciliation_by-Answered p (some q) own added h =
      let (_, found) =
        if-some (agrees p.effect_id (last_sequence s.effect_ledger) q)
          (confirmed_by x s t authority p q (bridge_evidence q)) h in
      confirmed_by-Answered p q (bridge_evidence q) own added refl found

is_some-some : {A : Type 0} (o : Option A) → is_some o ≡ true → (a : A) × (o ≡ some a)
is_some-some (some a) h = (a, refl)
is_some-some none h = absurd (cc)

module _ (x : StoreContext) (s t : RunState) where
  authenticated_by-Answered :
      (p : PendingExternalRequest) (now : Option PendingExternalRequest)
      (authority : Option ReceiptAuthority) {r : TrustedMcpReceipt}
      → x.receipt_authority ≡ authority
      → authenticated_by x s t (some p) now authority ≡ some r
      → Answered x s t p
  unfolding authenticated_by
  authenticated_by-Answered p (some q) authority own h = absurd (cc)
  authenticated_by-Answered p none none own h = absurd (cc)
  authenticated_by-Answered p none (some authority) own h =
      reconciliation_by-Answered x s t authority p
        (reconciled_events (appended_since s.effect_ledger t.effect_ledger)) own refl h

  -- The request still waits, and no event of its effect was added.
  pub record Waits (p : PendingExternalRequest) : Type 0 where
    pub kept : t.pending_external_request ≡ some p
    pub untouched :
        any
          (λ (e : EffectEvent). e.effect_id == p.effect_id)
          (appended_since s.effect_ledger t.effect_ledger)
        ≡ false

  not-true : (b : Bool) → not b ≡ true → b ≡ false
  not-true true h = cc
  not-true false h = refl

  kept-cases :
      (p : PendingExternalRequest) (now : Option PendingExternalRequest)
      → s.pending_external_request ≡ some p
      → t.pending_external_request ≡ now
      → validate_kept_pending x s t p now ≡ ok tt
      → Waits p ⊎ Answered x s t p
  unfolding validate_kept_pending authenticated_reconciliation
  kept-cases p none before now h =
      let (r, found) =
        is_some-some (authenticated_reconciliation x s t)
          (guard-ok _ pending_not_authenticated h) in
      inr (
        authenticated_by-Answered p t.pending_external_request x.receipt_authority refl (
          subst
            (λ o. authenticated_by x s t o t.pending_external_request x.receipt_authority ≡ some r)
            before found))
  kept-cases p (some q) before now h = elim (if-ok (q == p) _ (err pending_replaced) h) [
    | inl (same, untouched) ↦ inl (record {
      kept = now ∙ ap some ((PendingExternalRequest_Eq.beq_iff q p).0 same);
      untouched = not-true _ (guard-ok _ pending_appends_own_event untouched);
    })
    | inr (_, wrong) ↦ absurd (cc)
  ]

module _ (x : StoreContext) (load : GenerationLoader) where
  -- While a request of an external effect is pending, a state that the store accepts either keeps it
  -- as it is and adds no event of its effect, or the events that it adds are a reconciliation with
  -- the evidence of a receipt: what the store's authority reads at the path of that evidence is a
  -- receipt with its hash, signed by the bridge, that answers that request, for the same run, effect,
  -- operation, payload and state.
  pub validate_transition-pending :
      (g : StateGeneration) (s : RunState) (p : PendingExternalRequest) {t : RunState}
      → g.state.pending_external_request ≡ some p
      → validate_transition x load (some g) s ≡ ok t
      → Waits x g.state t p ⊎ Answered x g.state t p
  unfolding validate_after validate_pending_lifecycle lifecycle_of
  validate_transition-pending g s p {t} before h =
      let accepted = validate_transition-Accepted x load (some g) s h in
      let (pending, _, _) = validate_successor-ok x load g t accepted.after in
      kept-cases x g.state t p t.pending_external_request before refl
        (subst (λ o. lifecycle_of x g.state t o g.revision g.state_hash ≡ ok tt) before pending)

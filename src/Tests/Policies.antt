-- ===== src/Tests/Policies.antt =====
-- A producer, a disclosure and an action, each against its policy.
use k2s.Prelude.{◌≡◌, ◌≢◌, ◌↔◌, ◌⊎◌, none, some, [], ◌∷◌, true, false}
use k2s.Errors.{ok}
use k2s.Value.{get}
use k2s.Types.{internal, ConsentGrant, ProjectionRequest, ActionEnvelope, AuthorityGrant, Window}
use k2s.Ownership.{authorize, holds_role, sole_event_owner, scope_conflict, optional_str}
use k2s.Ownership.Laws.{authorize_iff}
use k2s.Policy.{evaluate_projection, evaluate_action}
use k2s.Policy.Projection.{Permits, evaluate_projection_cases}
use k2s.Policy.Action.{Authorizes, evaluate_action_iff}
use k2s.Tests.Data.{test_host, ingest_actor, evidence_event}

authorize_iff_example : (authorize ⦃host = test_host⦄ evidence_event ingest_actor ≡ ok tt) ↔ (
    (evidence_event.producer ≡ ingest_actor.identity_id)
    × (holds_role evidence_event.producer_role ingest_actor.roles ≡ true)
    × (sole_event_owner evidence_event.event_type ≡ ok evidence_event.producer_role)
    × (scope_conflict ingest_actor.subject_id
          (optional_str ⦃host = test_host⦄ (get "subject_id" evidence_event.payload))
        ≡ false))
authorize_iff_example = authorize_iff ⦃host = test_host⦄ evidence_event ingest_actor

abbrev window : Window
window = record { valid_from = 0; valid_until = 100; revoked_at = none }

abbrev request : ProjectionRequest
request = record {
  request_id = "r1";
  twin_id = "t1";
  subject_id = "s1";
  recipient_id = "agent-1";
  purpose = "scheduling";
  requested_fields = "claims" ∷ [];
  maximum_sensitivity = internal;
  as_of_valid_time = 10;
  as_of_recorded_time = 10;
}

abbrev consent : ConsentGrant
consent = record {
  consent_id = "c1";
  subject_id = "s1";
  recipient_id = "agent-1";
  purposes = "scheduling" ∷ [];
  allowed_fields = "claims" ∷ "degraded" ∷ [];
  max_sensitivity = internal;
  window = window;
  policy_version = "v1";
}

evaluate_projection_cases_example :
    let (allowed, reasons, fields) =
      evaluate_projection request (some consent) ("claims" ∷ []) 10 in
    ((allowed ≡ true)
      × Permits request consent ("claims" ∷ []) 10
      × (fields ≡ request.requested_fields))
    ⊎ ((allowed ≡ false)
        × (¬ Permits request consent ("claims" ∷ []) 10)
        × (fields ≡ [])
        × (reasons ≢ []))
evaluate_projection_cases_example = evaluate_projection_cases request consent ("claims" ∷ []) 10

abbrev action : ActionEnvelope
action = record {
  action_id = "a1";
  principal_id = "s1";
  actor_identity_id = "agent-1";
  purpose = "scheduling";
  target = "calendar";
  requested_capabilities = "write" ∷ [];
  impact = "low";
  reversible = true;
  evidence_ids = "e1" ∷ [];
  constraint_version = "v1";
  idempotency_key = "k1";
  issued_at = 5;
  expires_at = 50;
}

abbrev grant : AuthorityGrant
grant = record {
  grant_id = "g1";
  principal_id = "s1";
  actor_identity_id = "agent-1";
  purposes = "scheduling" ∷ [];
  capabilities = "write" ∷ [];
  maximum_impact = "moderate";
  require_reversible = true;
  window = window;
}

evaluate_action_iff_example :
    let (allowed, reasons) = evaluate_action action (some grant) 10 in
    ((allowed ≡ true) ↔ ((g : AuthorityGrant) × (some grant ≡ some g) × Authorizes action g 10))
    × (reasons ≢ [])
evaluate_action_iff_example = evaluate_action_iff action (some grant) 10

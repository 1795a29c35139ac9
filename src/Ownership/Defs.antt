-- ===== src/Ownership/Defs.antt =====
-- argo_dt/ownership.py
use k2s.Prelude.{String, Bool, false, not, Option, none, some, List, [], ◌∷◌, ◌==◌, any}
use k2s.Value.{Value, null, get}
use k2s.Errors.{
  Result, ok, err, ensure, reject_if, or_raise, invariant_violation, authorization_denied, ◌>>=◌,
  ◌>>◌,
}
use k2s.Host.{Host, to_str}
use k2s.Types.{
  ProducerRole, ingest_service, identity_worker, adjudication_worker, human_review, compiler,
  projection_service, simulation_service, downstream_agent, operations_service, EventType,
  evidence_ingested, evidence_deleted, acquisition_completed, entity_linked, entity_unlinked,
  claim_proposed, contradiction_detected, contradiction_adjudicated, referral_created,
  claim_accepted, claim_contested, claim_retired, claim_superseded, correction_recorded,
  kernel_compiled, evaluation_completed, readiness_changed, projection_issued, projection_revoked,
  scenario_state_predicted, agent_decision_observed, outcome_submitted, degradation_declared,
  degradation_cleared, other, same_role, EventEnvelope, ActorContext,
}

-- EVENT_OWNERS.get(event_type)
unfoldable pub event_owners : EventType → Option (List ProducerRole)
event_owners evidence_ingested = some (ingest_service ∷ [])
event_owners evidence_deleted = some (ingest_service ∷ [])
event_owners acquisition_completed = some (ingest_service ∷ [])
event_owners entity_linked = some (identity_worker ∷ [])
event_owners entity_unlinked = some (identity_worker ∷ [])
event_owners claim_proposed = some (adjudication_worker ∷ [])
event_owners contradiction_detected = some (adjudication_worker ∷ [])
event_owners contradiction_adjudicated = some (human_review ∷ [])
event_owners referral_created = some (adjudication_worker ∷ [])
event_owners claim_accepted = some (human_review ∷ [])
event_owners claim_contested = some (human_review ∷ [])
event_owners claim_retired = some (human_review ∷ [])
event_owners claim_superseded = some (human_review ∷ [])
event_owners correction_recorded = some (human_review ∷ [])
event_owners kernel_compiled = some (compiler ∷ [])
event_owners evaluation_completed = some (compiler ∷ [])
event_owners readiness_changed = some (compiler ∷ [])
event_owners projection_issued = some (projection_service ∷ [])
event_owners projection_revoked = some (projection_service ∷ [])
event_owners scenario_state_predicted = some (simulation_service ∷ [])
event_owners agent_decision_observed = some (downstream_agent ∷ [])
event_owners outcome_submitted = some (downstream_agent ∷ [])
event_owners degradation_declared = some (operations_service ∷ [])
event_owners degradation_cleared = some (operations_service ∷ [])
event_owners (other name) = none

sole : Option (List ProducerRole) → Result ProducerRole
sole (some (r ∷ [])) = ok r
sole _ = err invariant_violation

unfoldable pub sole_event_owner : EventType → Result ProducerRole
unfolding sole event_owners
sole_event_owner t = sole (event_owners t)

abbrev pub holds_role : ProducerRole → List ProducerRole → Bool
holds_role r = any (same_role r)

unfoldable pub authorize_intent : EventType → ProducerRole → ActorContext → Result (Unit {0})
unfolding event_owners
authorize_intent event_type role actor = do
  ensure (holds_role role actor.roles) authorization_denied
  allowed ← or_raise (event_owners event_type) authorization_denied
  ensure (holds_role role allowed) authorization_denied

-- Both scopes are given and differ.
unfoldable pub scope_conflict : Option String → Option String → Bool
scope_conflict (some a) (some b) = not (a == b)
scope_conflict _ _ = false

unfoldable pub authorize_subject : ActorContext → Option String → Result (Unit {0})
unfolding scope_conflict
authorize_subject actor subject_id =
    reject_if (scope_conflict actor.subject_id subject_id) authorization_denied

module _ ⦃host : Host⦄ where
  -- str(value) if value is not None else None
  unfoldable pub optional_str : Value → Option String
  optional_str null = none
  optional_str v = some (to_str v)

  unfoldable pub authorize : EventEnvelope → ActorContext → Result (Unit {0})
  authorize event actor = do
    ensure (event.producer == actor.identity_id) authorization_denied
    authorize_intent event.event_type event.producer_role actor
    authorize_subject actor (optional_str (get "subject_id" event.payload))

-- ===== src/Aggregate/Apply.antt =====
-- `TwinAggregate.apply` and the replay loop of `TwinAggregate.rebuild`. Both callers of `apply`
-- drop the state it was given when it raises (a local of `rebuild`, a deep copy in the service),
-- so a raise returns no state.
use k2s.Prelude.{ℕ, ◌+◌, String, Bool, true, false, Option, none, some, List, [], ◌∷◌, ltb, eqb}
use k2s.Errors.{Result, ok, ensure, reject_if, invariant_violation, integrity_error, ◌>>=◌, ◌>>◌}
use k2s.Host.{Host}
use k2s.Types.{
  simulation, same_plane, EventType, evidence_ingested, evidence_deleted, entity_linked,
  entity_unlinked, claim_proposed, contradiction_detected, contradiction_adjudicated,
  claim_accepted, claim_contested, claim_retired, claim_superseded, correction_recorded,
  projection_issued, projection_revoked, degradation_declared, degradation_cleared, EventEnvelope,
  verify,
}
use k2s.Aggregate.State.{TwinState}
use k2s.Aggregate.Validate.{validate_event}
use k2s.Aggregate.Handlers.{
  ingest_evidence, link_entity, unlink_entity, delete_evidence, propose_claim,
}
use k2s.Aggregate.Reviews.{
  accept_claim, contest_claim, retire_claim, supersede_claim, detect_contradiction, adjudicate,
  record_correction, revoke_projection, issue_projection, declare_degradation, clear_degradation,
}

-- `as_of_recorded_time is not None and event.recorded_at > as_of_recorded_time`
abbrev pub is_after : Option ℕ → ℕ → Bool
is_after none recorded_at = false
is_after (some limit) recorded_at = ltb limit recorded_at

module _ ⦃host : Host⦄ where
  -- The branch for an event type; the types that no branch names change nothing here.
  unfoldable pub transition : EventType → TwinState → EventEnvelope → Result TwinState
  transition evidence_ingested = ingest_evidence
  transition entity_linked = link_entity
  transition entity_unlinked = unlink_entity
  transition evidence_deleted = delete_evidence
  transition claim_proposed = propose_claim
  transition claim_accepted = accept_claim
  transition claim_contested = contest_claim
  transition claim_retired = retire_claim
  transition claim_superseded = supersede_claim
  transition contradiction_detected = detect_contradiction
  transition contradiction_adjudicated = adjudicate
  transition correction_recorded = record_correction
  transition projection_revoked = revoke_projection
  transition projection_issued = issue_projection
  transition degradation_declared = declare_degradation
  transition degradation_cleared = clear_degradation
  transition _ = λ state e. ok state

  unfoldable pub apply : TwinState → EventEnvelope → Result TwinState
  apply state e = do
    validate_event e
    reject_if (same_plane e.plane simulation) invariant_violation
    next ← transition e.event_type state e
    ok (record next { sequence = e.sequence; last_event_hash = e.event_hash })

  -- The loop of `rebuild`, from a state whose last event has the hash `previous_hash`.
  unfoldable pub replay : Option ℕ → TwinState → String → List EventEnvelope → Result TwinState
  replay limit state previous_hash [] = ok state
  replay limit state previous_hash (e ∷ es) = elim (is_after limit e.recorded_at) [
    | true ↦ ok state
    | false ↦
        ensure (eqb e.sequence (state.sequence + 1)) integrity_error
        >> (verify e previous_hash >> (apply state e >>= λ next. replay limit next e.event_hash es))
  ]

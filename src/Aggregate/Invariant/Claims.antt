-- ===== src/Aggregate/Invariant/Claims.antt =====
-- Every branch of `apply` keeps `ClaimsOk`.
use k2s.Prelude.{String, ◌≡◌, inl, inr, arith, contains-add, contains-discard, has-put, eq_iff}
use k2s.Errors.{ok}
use k2s.Host.{Host}
use k2s.Types.{
  EventType, evidence_ingested, evidence_deleted, entity_linked, entity_unlinked, claim_proposed,
  contradiction_detected, contradiction_adjudicated, claim_accepted, claim_contested, claim_retired,
  claim_superseded, correction_recorded, projection_issued, projection_revoked,
  degradation_declared, degradation_cleared, EventEnvelope,
}
use k2s.Aggregate.State.{TwinState}
use k2s.Aggregate.Handlers.{
  bind_subject, ingest_evidence, link_entity, unlink_entity, delete_evidence, propose_claim,
}
use k2s.Aggregate.Reviews.{
  accept_claim, contest_claim, retire_claim, supersede_claim, detect_contradiction, adjudicate,
  record_correction, correct_evidence, correct_claim, revoke_projection, issue_projection,
  declare_degradation, clear_degradation,
}
use k2s.Aggregate.Apply.{transition}
use k2s.Aggregate.Frames.{record_correction-eq, bind_optional-eq, adjudicate-eq}
use k2s.Aggregate.Marks.{mark-known}
use k2s.Aggregate.Invariant.{ClaimsOk}

module _ ⦃host : Host⦄ (state next : TwinState) (e : EventEnvelope) (w : ClaimsOk state) where
  accept-ClaimsOk : accept_claim state e ≡ ok next → ClaimsOk next
  unfolding accept_claim
  accept-ClaimsOk h = grind (arith, contains-add, contains-discard, eq_iff)

  contest-ClaimsOk : contest_claim state e ≡ ok next → ClaimsOk next
  unfolding contest_claim
  contest-ClaimsOk h = grind (arith, contains-add, contains-discard, eq_iff)

  retire-ClaimsOk : retire_claim state e ≡ ok next → ClaimsOk next
  unfolding retire_claim
  retire-ClaimsOk h = grind (arith, contains-add, contains-discard, eq_iff)

  supersede-ClaimsOk : supersede_claim state e ≡ ok next → ClaimsOk next
  unfolding supersede_claim
  supersede-ClaimsOk h = grind (arith, contains-add, contains-discard, eq_iff)

  propose-ClaimsOk : propose_claim state e ≡ ok next → ClaimsOk next
  unfolding propose_claim bind_subject
  propose-ClaimsOk h = grind (arith, has-put)

  ingest-ClaimsOk : ingest_evidence state e ≡ ok next → ClaimsOk next
  unfolding ingest_evidence bind_subject
  ingest-ClaimsOk h = grind arith

  link-ClaimsOk : link_entity state e ≡ ok next → ClaimsOk next
  unfolding link_entity bind_subject
  link-ClaimsOk h = grind arith

  delete-ClaimsOk : delete_evidence state e ≡ ok next → ClaimsOk next
  unfolding delete_evidence
  delete-ClaimsOk h = grind (arith, mark-known)

  detect-ClaimsOk : detect_contradiction state e ≡ ok next → ClaimsOk next
  unfolding detect_contradiction
  detect-ClaimsOk h = grind (arith, bind_optional-eq)

  adjudicate-ClaimsOk : adjudicate state e ≡ ok next → ClaimsOk next
  adjudicate-ClaimsOk h = grind (arith, adjudicate-eq state next e h)

  correct_evidence-ClaimsOk :
      (c t r : String) → correct_evidence c t r state e ≡ ok next → ClaimsOk next
  unfolding correct_evidence
  correct_evidence-ClaimsOk c t r h = grind (arith, mark-known)

  correct_claim-ClaimsOk : (c t r : String) → correct_claim c t r state e ≡ ok next → ClaimsOk next
  unfolding correct_claim
  correct_claim-ClaimsOk c t r h = grind (arith, contains-add, contains-discard, eq_iff)

  unlink-ClaimsOk : unlink_entity state e ≡ ok next → ClaimsOk next
  unfolding unlink_entity
  unlink-ClaimsOk h = grind arith

  revoke-ClaimsOk : revoke_projection state e ≡ ok next → ClaimsOk next
  unfolding revoke_projection
  revoke-ClaimsOk h = grind arith

  issue-ClaimsOk : issue_projection state e ≡ ok next → ClaimsOk next
  unfolding issue_projection
  issue-ClaimsOk h = grind arith

  declare-ClaimsOk : declare_degradation state e ≡ ok next → ClaimsOk next
  unfolding declare_degradation
  declare-ClaimsOk h = grind arith

  clear-ClaimsOk : clear_degradation state e ≡ ok next → ClaimsOk next
  unfolding clear_degradation
  clear-ClaimsOk h = grind arith

module _ ⦃host : Host⦄ (state next : TwinState) (e : EventEnvelope) (w : ClaimsOk state) where
  correction-ClaimsOk : record_correction state e ≡ ok next → ClaimsOk next
  correction-ClaimsOk h =
      let (bound, s, c, t, r, _, eq, _, corrected) = record_correction-eq state next e h in
      let kept : ClaimsOk bound = grind arith in
      elim corrected [
        | inl h' ↦ correct_evidence-ClaimsOk bound next e kept c t r h'
        | inr h' ↦ correct_claim-ClaimsOk bound next e kept c t r h'
      ]

  -- One step of `apply`, whatever the event type.
  pub transition-ClaimsOk : (t : EventType) → transition t state e ≡ ok next → ClaimsOk next
  unfolding transition
  transition-ClaimsOk evidence_ingested h = ingest-ClaimsOk state next e w h
  transition-ClaimsOk entity_linked h = link-ClaimsOk state next e w h
  transition-ClaimsOk entity_unlinked h = unlink-ClaimsOk state next e w h
  transition-ClaimsOk evidence_deleted h = delete-ClaimsOk state next e w h
  transition-ClaimsOk claim_proposed h = propose-ClaimsOk state next e w h
  transition-ClaimsOk claim_accepted h = accept-ClaimsOk state next e w h
  transition-ClaimsOk claim_contested h = contest-ClaimsOk state next e w h
  transition-ClaimsOk claim_retired h = retire-ClaimsOk state next e w h
  transition-ClaimsOk claim_superseded h = supersede-ClaimsOk state next e w h
  transition-ClaimsOk contradiction_detected h = detect-ClaimsOk state next e w h
  transition-ClaimsOk contradiction_adjudicated h = adjudicate-ClaimsOk state next e w h
  transition-ClaimsOk correction_recorded h = correction-ClaimsOk h
  transition-ClaimsOk projection_revoked h = revoke-ClaimsOk state next e w h
  transition-ClaimsOk projection_issued h = issue-ClaimsOk state next e w h
  transition-ClaimsOk degradation_declared h = declare-ClaimsOk state next e w h
  transition-ClaimsOk degradation_cleared h = clear-ClaimsOk state next e w h
  transition-ClaimsOk _ h = grind arith

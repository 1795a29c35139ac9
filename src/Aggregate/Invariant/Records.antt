-- ===== src/Aggregate/Invariant/Records.antt =====
-- Every branch of `apply` keeps `RecordsOk`.
use k2s.Prelude.{String, ◌≡◌, inl, inr, arith, contains-add, has-put, has_of_lookup, eq_iff}
use k2s.Errors.{ok}
use k2s.Host.{Host}
use k2s.Types.{
  EventType, evidence_ingested, evidence_deleted, entity_linked, entity_unlinked, claim_proposed,
  contradiction_detected, contradiction_adjudicated, claim_accepted, claim_contested, claim_retired,
  claim_superseded, correction_recorded, projection_issued, projection_revoked,
  degradation_declared, degradation_cleared, EventEnvelope,
}
use k2s.Aggregate.State.{TwinState}
use k2s.Aggregate.Handlers.{
  bind_subject, ingest_evidence, link_entity, unlink_entity, delete_evidence, propose_claim,
}
use k2s.Aggregate.Reviews.{
  accept_claim, contest_claim, retire_claim, supersede_claim, detect_contradiction, adjudicate,
  record_correction, correct_evidence, correct_claim, revoke_projection, issue_projection,
  declare_degradation, clear_degradation,
}
use k2s.Aggregate.Apply.{transition}
use k2s.Aggregate.Frames.{record_correction-eq, bind_optional-eq, adjudicate-eq}
use k2s.Aggregate.Marks.{mark-known}
use k2s.Aggregate.Invariant.{RecordsOk}

module _ ⦃host : Host⦄ (state next : TwinState) (e : EventEnvelope) (w : RecordsOk state) where
  accept-RecordsOk : accept_claim state e ≡ ok next → RecordsOk next
  unfolding accept_claim
  accept-RecordsOk h = grind (arith, mark-known)

  contest-RecordsOk : contest_claim state e ≡ ok next → RecordsOk next
  unfolding contest_claim
  contest-RecordsOk h = grind (arith, mark-known)

  retire-RecordsOk : retire_claim state e ≡ ok next → RecordsOk next
  unfolding retire_claim
  retire-RecordsOk h = grind (arith, mark-known)

  supersede-RecordsOk : supersede_claim state e ≡ ok next → RecordsOk next
  unfolding supersede_claim
  supersede-RecordsOk h = grind (arith, mark-known)

  propose-RecordsOk : propose_claim state e ≡ ok next → RecordsOk next
  unfolding propose_claim bind_subject
  propose-RecordsOk h = grind arith

  ingest-RecordsOk : ingest_evidence state e ≡ ok next → RecordsOk next
  unfolding ingest_evidence bind_subject
  ingest-RecordsOk h = grind (arith, contains-add, has-put, eq_iff)

  link-RecordsOk : link_entity state e ≡ ok next → RecordsOk next
  unfolding link_entity bind_subject
  link-RecordsOk h = grind (arith, contains-add, has-put, eq_iff)

  delete-RecordsOk : delete_evidence state e ≡ ok next → RecordsOk next
  unfolding delete_evidence
  delete-RecordsOk h = grind (arith, mark-known)

  detect-RecordsOk : detect_contradiction state e ≡ ok next → RecordsOk next
  unfolding detect_contradiction
  detect-RecordsOk h = grind (arith, bind_optional-eq, has-put)

  adjudicate-RecordsOk : adjudicate state e ≡ ok next → RecordsOk next
  adjudicate-RecordsOk h =
      grind (arith, adjudicate-eq state next e h, contains-add, has-put, eq_iff, has_of_lookup)

  correct_evidence-RecordsOk :
      (c t r : String) → correct_evidence c t r state e ≡ ok next → RecordsOk next
  unfolding correct_evidence
  correct_evidence-RecordsOk c t r h = grind (arith, mark-known)

  correct_claim-RecordsOk :
      (c t r : String) → correct_claim c t r state e ≡ ok next → RecordsOk next
  unfolding correct_claim
  correct_claim-RecordsOk c t r h = grind (arith, mark-known)

  unlink-RecordsOk : unlink_entity state e ≡ ok next → RecordsOk next
  unfolding unlink_entity
  unlink-RecordsOk h = grind (arith, contains-add, has-put, eq_iff)

  revoke-RecordsOk : revoke_projection state e ≡ ok next → RecordsOk next
  unfolding revoke_projection
  revoke-RecordsOk h = grind (arith, contains-add, has-put, eq_iff)

  issue-RecordsOk : issue_projection state e ≡ ok next → RecordsOk next
  unfolding issue_projection
  issue-RecordsOk h = grind (arith, contains-add, has-put, eq_iff)

  declare-RecordsOk : declare_degradation state e ≡ ok next → RecordsOk next
  unfolding declare_degradation
  declare-RecordsOk h = grind (arith, contains-add, has-put, eq_iff)

  clear-RecordsOk : clear_degradation state e ≡ ok next → RecordsOk next
  unfolding clear_degradation
  clear-RecordsOk h = grind (arith, contains-add, has-put, eq_iff)

module _ ⦃host : Host⦄ (state next : TwinState) (e : EventEnvelope) (w : RecordsOk state) where
  correction-RecordsOk : record_correction state e ≡ ok next → RecordsOk next
  correction-RecordsOk h =
      let (bound, s, c, t, r, _, eq, _, corrected) = record_correction-eq state next e h in
      let kept : RecordsOk bound = grind arith in
      elim corrected [
        | inl h' ↦ correct_evidence-RecordsOk bound next e kept c t r h'
        | inr h' ↦ correct_claim-RecordsOk bound next e kept c t r h'
      ]

  -- One step of `apply`, whatever the event type.
  pub transition-RecordsOk : (t : EventType) → transition t state e ≡ ok next → RecordsOk next
  unfolding transition
  transition-RecordsOk evidence_ingested h = ingest-RecordsOk state next e w h
  transition-RecordsOk entity_linked h = link-RecordsOk state next e w h
  transition-RecordsOk entity_unlinked h = unlink-RecordsOk state next e w h
  transition-RecordsOk evidence_deleted h = delete-RecordsOk state next e w h
  transition-RecordsOk claim_proposed h = propose-RecordsOk state next e w h
  transition-RecordsOk claim_accepted h = accept-RecordsOk state next e w h
  transition-RecordsOk claim_contested h = contest-RecordsOk state next e w h
  transition-RecordsOk claim_retired h = retire-RecordsOk state next e w h
  transition-RecordsOk claim_superseded h = supersede-RecordsOk state next e w h
  transition-RecordsOk contradiction_detected h = detect-RecordsOk state next e w h
  transition-RecordsOk contradiction_adjudicated h = adjudicate-RecordsOk state next e w h
  transition-RecordsOk correction_recorded h = correction-RecordsOk h
  transition-RecordsOk projection_revoked h = revoke-RecordsOk state next e w h
  transition-RecordsOk projection_issued h = issue-RecordsOk state next e w h
  transition-RecordsOk degradation_declared h = declare-RecordsOk state next e w h
  transition-RecordsOk degradation_cleared h = clear-RecordsOk state next e w h
  transition-RecordsOk _ h = grind (arith, contains-add, has-put, eq_iff)

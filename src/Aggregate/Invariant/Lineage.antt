-- ===== src/Aggregate/Invariant/Lineage.antt =====
-- Evidence lineage: a claim or a link that cites evidence which is gone is marked stale.
use k2s.Prelude.{
  String, ◌≡◌, inl, inr, refl, true, false, some, List, [], ◌∷◌, contains, has, lookup, arith,
  has-put, has-remove, lookup-put, eq_iff, Dict,
}
use k2s.Errors.{ok, >>=-eq-ok, any_of, for_each}
use k2s.Host.{Host, to_str}
use k2s.Value.{Value, str, obj, Fields, as_dict, find_field, get, get_default, require, iterate}
use k2s.Value.Laws.{same_text, find_of_get, find_field-put_field}
use k2s.Types.{
  EventType, evidence_ingested, evidence_deleted, entity_linked, entity_unlinked, claim_proposed,
  contradiction_detected, contradiction_adjudicated, claim_accepted, claim_contested, claim_retired,
  claim_superseded, correction_recorded, projection_issued, projection_revoked,
  degradation_declared, degradation_cleared, EventEnvelope,
}
use k2s.Aggregate.Frames.{bind_subject-eq, bind_optional-eq, adjudicate-eq, record_correction-eq}
use k2s.Aggregate.Apply.{transition}
use k2s.Aggregate.Reviews.{
  accept_claim, contest_claim, retire_claim, supersede_claim, detect_contradiction, adjudicate,
  record_correction, correct_evidence, correct_claim, revoke_projection, issue_projection,
  declare_degradation, clear_degradation,
}
use k2s.Aggregate.Marks.{mark-keeps, mark_complete}
use k2s.Aggregate.State.{TwinState, empty_state}
use k2s.Aggregate.Handlers.{
  cites, refers_to, check_source, check_sources, text_at, stamped, ingest_evidence, link_entity,
  unlink_entity, delete_evidence, propose_claim,
}

pub record LineageOk (s : TwinState) : Type 0 where
  pub claims_traced :
      (k id : String) (c : Fields)
      → lookup k s.claims ≡ some c
      → cites id c ≡ ok true
      → has id s.evidence ≡ false
      → contains k s.stale_claim_ids ≡ true
  pub links_traced :
      (k id : String) (c : Fields)
      → lookup k s.entity_links ≡ some c
      → cites id c ≡ ok true
      → has id s.evidence ≡ false
      → contains k s.stale_entity_link_ids ≡ true

module _ ⦃host : Host⦄ where
  to_str_text : (s : String) → to_str (str s) ≡ s
  unfolding to_str
  to_str_text s = refl

  -- A reference that was checked against the evidence names evidence that is there.
  source-has :
      (evidence : Dict Fields) (id : String) (v : Value)
      → check_source evidence v ≡ ok tt
      → refers_to id v ≡ ok true
      → has id evidence ≡ true
  unfolding check_source refers_to text_at require as_dict has
  source-has evidence id (obj fs) h k =
      let named : find_field "evidence_id" fs ≡ some (str id) =
        find_of_get "evidence_id" id fs (same_text (get "evidence_id" fs) id (ground arith)) in
      ground (arith, named, to_str_text id)
  source-has evidence id _ h k = ground arith

  sources-has :
      (evidence : Dict Fields) (id : String) (vs : List Value)
      → for_each (check_source evidence) vs ≡ ok tt
      → any_of (refers_to id) vs ≡ ok true
      → has id evidence ≡ true
  unfolding for_each any_of
  sources-has evidence id [] h k = ground arith
  sources-has evidence id (v ∷ vs) h k =
      ground (arith, source-has evidence id v, sources-has evidence id vs)

  -- What was checked against the evidence cites only evidence that is there.
  cites-has :
      (evidence : Dict Fields) (id : String) (e : EventEnvelope)
      → check_sources evidence e.payload ≡ ok tt
      → cites id (stamped e) ≡ ok true
      → has id evidence ≡ true
  unfolding check_sources cites require get_default
  cites-has evidence id e h k =
      let (v, _, h1) = >>=-eq-ok (require "provenance" e.payload) _ h in
      let (vs, _, _) = >>=-eq-ok (iterate v) _ h1 in
      ground (
        arith,
        find_field-put_field "recorded_at" "provenance" (str (host.isoformat e.recorded_at))
            e.payload,
        sources-has evidence id vs,
      )

module _ ⦃host : Host⦄ (state next : TwinState) (e : EventEnvelope) (w : LineageOk state) where
  ingest-LineageOk : ingest_evidence state e ≡ ok next → LineageOk next
  unfolding ingest_evidence
  ingest-LineageOk h = grind (arith, bind_subject-eq, has-put)

  propose-LineageOk : propose_claim state e ≡ ok next → LineageOk next
  unfolding propose_claim
  propose-LineageOk h = grind (arith, bind_subject-eq, lookup-put, cites-has)

  link-LineageOk : link_entity state e ≡ ok next → LineageOk next
  unfolding link_entity
  link-LineageOk h = grind (arith, bind_subject-eq, lookup-put, cites-has)

  delete-LineageOk : delete_evidence state e ≡ ok next → LineageOk next
  unfolding delete_evidence
  delete-LineageOk h = grind (arith, has-remove, eq_iff, mark-keeps, mark_complete)

  accept-LineageOk : accept_claim state e ≡ ok next → LineageOk next
  unfolding accept_claim
  accept-LineageOk h = grind arith

  contest-LineageOk : contest_claim state e ≡ ok next → LineageOk next
  unfolding contest_claim
  contest-LineageOk h = grind arith

  retire-LineageOk : retire_claim state e ≡ ok next → LineageOk next
  unfolding retire_claim
  retire-LineageOk h = grind arith

  supersede-LineageOk : supersede_claim state e ≡ ok next → LineageOk next
  unfolding supersede_claim
  supersede-LineageOk h = grind arith

  unlink-LineageOk : unlink_entity state e ≡ ok next → LineageOk next
  unfolding unlink_entity
  unlink-LineageOk h = grind arith

  revoke-LineageOk : revoke_projection state e ≡ ok next → LineageOk next
  unfolding revoke_projection
  revoke-LineageOk h = grind arith

  issue-LineageOk : issue_projection state e ≡ ok next → LineageOk next
  unfolding issue_projection
  issue-LineageOk h = grind arith

  declare-LineageOk : declare_degradation state e ≡ ok next → LineageOk next
  unfolding declare_degradation
  declare-LineageOk h = grind arith

  clear-LineageOk : clear_degradation state e ≡ ok next → LineageOk next
  unfolding clear_degradation
  clear-LineageOk h = grind arith

  detect-LineageOk : detect_contradiction state e ≡ ok next → LineageOk next
  unfolding detect_contradiction
  detect-LineageOk h = grind (arith, bind_optional-eq)

  adjudicate-LineageOk : adjudicate state e ≡ ok next → LineageOk next
  adjudicate-LineageOk h = grind (arith, adjudicate-eq state next e h)

  correct_evidence-LineageOk :
      (c t r : String) → correct_evidence c t r state e ≡ ok next → LineageOk next
  unfolding correct_evidence
  correct_evidence-LineageOk c t r h = grind (arith, mark-keeps)

  correct_claim-LineageOk :
      (c t r : String) → correct_claim c t r state e ≡ ok next → LineageOk next
  unfolding correct_claim
  correct_claim-LineageOk c t r h = grind arith

module _ ⦃host : Host⦄ (state next : TwinState) (e : EventEnvelope) (w : LineageOk state) where
  correction-LineageOk : record_correction state e ≡ ok next → LineageOk next
  correction-LineageOk h =
      let (bound, s, c, t, r, _, eq, _, corrected) = record_correction-eq state next e h in
      let kept : LineageOk bound = grind arith in
      elim corrected [
        | inl h' ↦ correct_evidence-LineageOk bound next e kept c t r h'
        | inr h' ↦ correct_claim-LineageOk bound next e kept c t r h'
      ]

  -- One step of `apply`, whatever the event type.
  pub transition-LineageOk : (t : EventType) → transition t state e ≡ ok next → LineageOk next
  unfolding transition
  transition-LineageOk evidence_ingested h = ingest-LineageOk state next e w h
  transition-LineageOk entity_linked h = link-LineageOk state next e w h
  transition-LineageOk entity_unlinked h = unlink-LineageOk state next e w h
  transition-LineageOk evidence_deleted h = delete-LineageOk state next e w h
  transition-LineageOk claim_proposed h = propose-LineageOk state next e w h
  transition-LineageOk claim_accepted h = accept-LineageOk state next e w h
  transition-LineageOk claim_contested h = contest-LineageOk state next e w h
  transition-LineageOk claim_retired h = retire-LineageOk state next e w h
  transition-LineageOk claim_superseded h = supersede-LineageOk state next e w h
  transition-LineageOk contradiction_detected h = detect-LineageOk state next e w h
  transition-LineageOk contradiction_adjudicated h = adjudicate-LineageOk state next e w h
  transition-LineageOk correction_recorded h = correction-LineageOk h
  transition-LineageOk projection_revoked h = revoke-LineageOk state next e w h
  transition-LineageOk projection_issued h = issue-LineageOk state next e w h
  transition-LineageOk degradation_declared h = declare-LineageOk state next e w h
  transition-LineageOk degradation_cleared h = clear-LineageOk state next e w h
  transition-LineageOk _ h = grind arith

pub empty-LineageOk : (twin_id : String) → LineageOk (empty_state twin_id)
unfolding contains has lookup
empty-LineageOk twin_id = grind arith

-- ===== src/Aggregate/Extends.antt =====
-- What no event takes back: records are append-only, and closing marks stay.
use k2s.Prelude.{
  ℕ, String, ◌≡◌, [], ◌∷◌, inl, inr, true, false, Option, some, List, contains, has, lookup, arith,
  contains-add, lookup-put, has_of_lookup, eq_iff,
}
use k2s.Errors.{ok}
use k2s.Host.{Host}
use k2s.Value.{Fields}
use k2s.Types.{
  EventType, evidence_ingested, evidence_deleted, entity_linked, entity_unlinked, claim_proposed,
  contradiction_detected, contradiction_adjudicated, claim_accepted, claim_contested, claim_retired,
  claim_superseded, correction_recorded, projection_issued, projection_revoked,
  degradation_declared, degradation_cleared, EventEnvelope,
}
use k2s.Aggregate.State.{TwinState}
use k2s.Aggregate.Handlers.{
  ingest_evidence, link_entity, unlink_entity, delete_evidence, propose_claim,
}
use k2s.Aggregate.Reviews.{
  accept_claim, contest_claim, retire_claim, supersede_claim, detect_contradiction, adjudicate,
  record_correction, correct_evidence, correct_claim, revoke_projection, issue_projection,
  declare_degradation, clear_degradation,
}
use k2s.Aggregate.Apply.{transition, apply, replay}
use k2s.Aggregate.Replay.{apply-eq, replay-step}
use k2s.Aggregate.Marks.{mark-keeps}
use k2s.Aggregate.Frames.{
  bind_subject-eq, bind_subject-subject, bind_optional-eq, bind_optional-subject, adjudicate-eq,
  adjudicate-subject, record_correction-eq,
}

pub record Extends (s n : TwinState) : Type 0 where
  pub subject : (x : String) → s.subject_id ≡ some x → n.subject_id ≡ some x
  pub claims : (k : String) (r : Fields) → lookup k s.claims ≡ some r → lookup k n.claims ≡ some r
  pub entity_links :
      (k : String) (r : Fields)
      → lookup k s.entity_links ≡ some r
      → lookup k n.entity_links ≡ some r
  pub contradictions :
      (k : String) (r : Fields)
      → lookup k s.contradictions ≡ some r
      → lookup k n.contradictions ≡ some r
  pub corrections :
      (k : String) (r : Fields) → lookup k s.corrections ≡ some r → lookup k n.corrections ≡ some r
  pub projections :
      (k : String) (r : Fields)
      → lookup k s.issued_projections ≡ some r
      → lookup k n.issued_projections ≡ some r
  pub retired_claim :
      (k : String) → contains k s.retired_claim_ids ≡ true → contains k n.retired_claim_ids ≡ true
  pub superseded_claim :
      (k : String)
      → contains k s.superseded_claim_ids ≡ true
      → contains k n.superseded_claim_ids ≡ true
  pub superseded_evidence :
      (k : String)
      → contains k s.superseded_evidence_ids ≡ true
      → contains k n.superseded_evidence_ids ≡ true
  pub stale_claim :
      (k : String) → contains k s.stale_claim_ids ≡ true → contains k n.stale_claim_ids ≡ true
  pub stale_entity_link :
      (k : String)
      → contains k s.stale_entity_link_ids ≡ true
      → contains k n.stale_entity_link_ids ≡ true
  pub stale_projection :
      (k : String)
      → contains k s.stale_projection_ids ≡ true
      → contains k n.stale_projection_ids ≡ true
  pub revoked_projection :
      (k : String)
      → contains k s.revoked_projection_ids ≡ true
      → contains k n.revoked_projection_ids ≡ true
  pub resolved_contradiction :
      (k : String)
      → contains k s.resolved_contradiction_ids ≡ true
      → contains k n.resolved_contradiction_ids ≡ true
  pub unlinked_entity :
      (k : String)
      → contains k s.unlinked_entity_ids ≡ true
      → contains k n.unlinked_entity_ids ≡ true

pub Extends-refl : (s : TwinState) → Extends s s
Extends-refl s = ground arith

pub Extends-trans : (a b c : TwinState) → Extends a b → Extends b c → Extends a c
Extends-trans a b c f g = grind arith

module _ ⦃host : Host⦄ (state next : TwinState) (e : EventEnvelope) where
  ingest-Extends : ingest_evidence state e ≡ ok next → Extends state next
  unfolding ingest_evidence
  ingest-Extends h = grind (arith, bind_subject-eq, bind_subject-subject)

  link-Extends : link_entity state e ≡ ok next → Extends state next
  unfolding link_entity
  link-Extends h =
      grind (arith, bind_subject-eq, bind_subject-subject, eq_iff, lookup-put, has_of_lookup)

  propose-Extends : propose_claim state e ≡ ok next → Extends state next
  unfolding propose_claim
  propose-Extends h =
      grind (arith, bind_subject-eq, bind_subject-subject, eq_iff, lookup-put, has_of_lookup)

  delete-Extends : delete_evidence state e ≡ ok next → Extends state next
  unfolding delete_evidence
  delete-Extends h = grind (arith, mark-keeps)

  accept-Extends : accept_claim state e ≡ ok next → Extends state next
  unfolding accept_claim
  accept-Extends h = grind (arith)

  contest-Extends : contest_claim state e ≡ ok next → Extends state next
  unfolding contest_claim
  contest-Extends h = grind (arith)

  retire-Extends : retire_claim state e ≡ ok next → Extends state next
  unfolding retire_claim
  retire-Extends h = grind (arith, contains-add)

  supersede-Extends : supersede_claim state e ≡ ok next → Extends state next
  unfolding supersede_claim
  supersede-Extends h = grind (arith, contains-add, mark-keeps)

  unlink-Extends : unlink_entity state e ≡ ok next → Extends state next
  unfolding unlink_entity
  unlink-Extends h = grind (arith, contains-add)

  revoke-Extends : revoke_projection state e ≡ ok next → Extends state next
  unfolding revoke_projection
  revoke-Extends h = grind (arith, contains-add)

  issue-Extends : issue_projection state e ≡ ok next → Extends state next
  unfolding issue_projection
  issue-Extends h = grind (arith, lookup-put, eq_iff, has_of_lookup)

  declare-Extends : declare_degradation state e ≡ ok next → Extends state next
  unfolding declare_degradation
  declare-Extends h = grind (arith)

  clear-Extends : clear_degradation state e ≡ ok next → Extends state next
  unfolding clear_degradation
  clear-Extends h = grind (arith)

  detect-Extends : detect_contradiction state e ≡ ok next → Extends state next
  unfolding detect_contradiction
  detect-Extends h =
      grind (arith, bind_optional-eq, bind_optional-subject, eq_iff, lookup-put, has_of_lookup)

  adjudicate-Extends : adjudicate state e ≡ ok next → Extends state next
  adjudicate-Extends h =
      grind (arith, adjudicate-eq state next e h, adjudicate-subject, contains-add)

  correct_evidence-Extends :
      (c t r : String)
      → has c state.corrections ≡ false
      → correct_evidence c t r state e ≡ ok next
      → Extends state next
  unfolding correct_evidence
  correct_evidence-Extends c t r fresh h =
      grind (arith, mark-keeps, contains-add, lookup-put, has_of_lookup, eq_iff)

  correct_claim-Extends :
      (c t r : String)
      → has c state.corrections ≡ false
      → correct_claim c t r state e ≡ ok next
      → Extends state next
  unfolding correct_claim
  correct_claim-Extends c t r fresh h =
      grind (arith, mark-keeps, contains-add, lookup-put, has_of_lookup, eq_iff)

module _ ⦃host : Host⦄ (state next : TwinState) (e : EventEnvelope) where
  correction-Extends : record_correction state e ≡ ok next → Extends state next
  correction-Extends h =
      let (bound, s, c, t, r, binds, eq, fresh, corrected) = record_correction-eq state next e h in
      let kept : Extends state bound = grind (arith, bind_subject-subject state bound s binds) in
      elim corrected [
        | inl h' ↦
            Extends-trans state bound next kept
              (correct_evidence-Extends bound next e c t r fresh h')
        | inr h' ↦
            Extends-trans state bound next kept (correct_claim-Extends bound next e c t r fresh h')
      ]

  -- One step of `apply`, whatever the event type.
  pub transition-Extends : (t : EventType) → transition t state e ≡ ok next → Extends state next
  unfolding transition
  transition-Extends evidence_ingested h = ingest-Extends state next e h
  transition-Extends entity_linked h = link-Extends state next e h
  transition-Extends entity_unlinked h = unlink-Extends state next e h
  transition-Extends evidence_deleted h = delete-Extends state next e h
  transition-Extends claim_proposed h = propose-Extends state next e h
  transition-Extends claim_accepted h = accept-Extends state next e h
  transition-Extends claim_contested h = contest-Extends state next e h
  transition-Extends claim_retired h = retire-Extends state next e h
  transition-Extends claim_superseded h = supersede-Extends state next e h
  transition-Extends contradiction_detected h = detect-Extends state next e h
  transition-Extends contradiction_adjudicated h = adjudicate-Extends state next e h
  transition-Extends correction_recorded h = correction-Extends h
  transition-Extends projection_revoked h = revoke-Extends state next e h
  transition-Extends projection_issued h = issue-Extends state next e h
  transition-Extends degradation_declared h = declare-Extends state next e h
  transition-Extends degradation_cleared h = clear-Extends state next e h
  transition-Extends _ h = grind arith

module _ ⦃host : Host⦄ where
  pub apply-Extends :
      (state next : TwinState) (e : EventEnvelope) → apply state e ≡ ok next → Extends state next
  apply-Extends state next e h =
      let (mid, _, _, moved, eq) = apply-eq state next e h in
      Extends-trans state mid next (transition-Extends state mid e e.event_type moved)
        (ground arith)

  -- Whatever events are replayed, and up to whatever time: the subject, once bound, stays; no claim,
  -- link, contradiction, correction or projection is dropped or rewritten; and no closing mark is
  -- taken back.
  pub replay-Extends :
      (limit : Option ℕ) (state : TwinState) (h : String) (es : List EventEnvelope)
      (out : TwinState)
      → replay limit state h es ≡ ok out
      → Extends state out
  unfolding replay
  replay-Extends limit state h [] out eq = ground arith
  replay-Extends limit state h (e ∷ es) out eq = elim (replay-step limit state h e es out eq) [
    | inl (_, same_state) ↦ ground arith
    | inr (next, _, _, _, applied, rest) ↦
        Extends-trans state next out (apply-Extends state next e applied)
          (replay-Extends limit next e.event_hash es out rest)
  ]

-- ===== src/Aggregate/Reviews.antt =====
-- The branches of `TwinAggregate.apply` by which claims are reviewed, contradicted and corrected.
use k2s.Prelude.{
  String, Bool, true, false, not, ◌&&◌, ◌||◌, List, [], ◌∷◌, ◌++◌, ◌==◌, any, all, contains, add,
  discard, is_subset, lookup, has, put, is_some, if◌then◌else◌,
}
use k2s.Value.{Value, null, str, Fields, get, get_default, require, iterate, hashable, member}
use k2s.Errors.{
  Result, ok, ensure, reject_if, or_raise, invariant_violation, type_error, ◌>>=◌, ◌>>◌,
}
use k2s.Host.{Host, to_str}
use k2s.Types.{EventEnvelope}
use k2s.Aggregate.State.{TwinState}
use k2s.Aggregate.Handlers.{bind_subject, cites, mark, sources_meet, text_at, texts_at, stamped}

abbrev pub is_closed : String → TwinState → Bool
is_closed claim_id state =
    contains claim_id state.retired_claim_ids || contains claim_id state.superseded_claim_ids

abbrev has_texts : List String → Bool
has_texts [] = false
has_texts (x ∷ xs) = true

module _ ⦃host : Host⦄ where
  unfoldable pub accept_claim : TwinState → EventEnvelope → Result TwinState
  accept_claim state e = do
    claim_id ← text_at "claim_id" e.payload
    ensure (has claim_id state.claims) invariant_violation
    reject_if (is_closed claim_id state) invariant_violation
    ok (record state {
      accepted_claim_ids = add claim_id state.accepted_claim_ids;
      contested_claim_ids = discard claim_id state.contested_claim_ids;
    })

  unfoldable pub contest_claim : TwinState → EventEnvelope → Result TwinState
  contest_claim state e = do
    claim_id ← text_at "claim_id" e.payload
    ensure (has claim_id state.claims) invariant_violation
    reject_if (is_closed claim_id state) invariant_violation
    ok (record state {
      contested_claim_ids = add claim_id state.contested_claim_ids;
      accepted_claim_ids = discard claim_id state.accepted_claim_ids;
    })

  unfoldable pub retire_claim : TwinState → EventEnvelope → Result TwinState
  retire_claim state e = do
    claim_id ← text_at "claim_id" e.payload
    ensure (has claim_id state.claims) invariant_violation
    ok (record state {
      accepted_claim_ids = discard claim_id state.accepted_claim_ids;
      contested_claim_ids = discard claim_id state.contested_claim_ids;
      retired_claim_ids = add claim_id state.retired_claim_ids;
    })

  -- claim_id in set(projection.get("source_claim_ids", []))
  compiled_from : String → Fields → Result Bool
  compiled_from claim_id projection = sources_meet (claim_id ∷ []) projection

  unfoldable pub supersede_claim : TwinState → EventEnvelope → Result TwinState
  unfolding compiled_from
  supersede_claim state e = do
    claim_id ← text_at "claim_id" e.payload
    let successor_id = to_str (get_default "successor_claim_id" (str "") e.payload)
    reject_if (successor_id == "") invariant_violation
    ensure (has claim_id state.claims && has successor_id state.claims) invariant_violation
    reject_if (contains claim_id state.superseded_claim_ids) invariant_violation
    projections ← mark (compiled_from claim_id) state.issued_projections state.stale_projection_ids
    ok (record state {
      accepted_claim_ids = discard claim_id state.accepted_claim_ids;
      contested_claim_ids = discard claim_id state.contested_claim_ids;
      superseded_claim_ids = add claim_id state.superseded_claim_ids;
      stale_projection_ids = projections;
    })

  -- A record written before `subject_id` was required binds nothing.
  unfoldable pub bind_optional : TwinState → Value → Result TwinState
  bind_optional state null = ok state
  bind_optional state v = bind_subject state (to_str v)

  unfoldable pub detect_contradiction : TwinState → EventEnvelope → Result TwinState
  detect_contradiction state e = do
    contradiction_id ← text_at "contradiction_id" e.payload
    reject_if (has contradiction_id state.contradictions) invariant_violation
    bound ← bind_optional state (get "subject_id" e.payload)
    raw ← require "claim_ids" e.payload
    claim_ids ← iterate raw
    ensure (all (λ v. has (to_str v) bound.claims) claim_ids) invariant_violation
    ok (record bound { contradictions = put contradiction_id (stamped e) bound.contradictions })

  unfoldable pub adjudicate : TwinState → EventEnvelope → Result TwinState
  adjudicate state e = do
    contradiction_id ← text_at "contradiction_id" e.payload
    contradiction ← or_raise (lookup contradiction_id state.contradictions) invariant_violation
    reject_if (contains contradiction_id state.resolved_contradiction_ids) invariant_violation
    claim_ids ← texts_at "claim_ids" contradiction
    required ← require "preferred_claim_ids" e.payload
    preferred ← texts_at "preferred_claim_ids" e.payload
    ensure (is_subset preferred claim_ids) invariant_violation
    resolution ← require "resolution" e.payload
    ensure (hashable resolution) type_error
    reject_if (member resolution ("uphold" ∷ "corrected" ∷ []) && not (has_texts preferred))
        invariant_violation
    subject_id ← text_at "subject_id" e.payload
    bound ← bind_subject state subject_id
    ok (record bound {
      adjudications = put contradiction_id (stamped e) bound.adjudications;
      resolved_contradiction_ids = add contradiction_id bound.resolved_contradiction_ids;
    })

  -- The target of a correction: a record of evidence, or else a claim.
  unfoldable pub correct_evidence :
      String → String → String → TwinState → EventEnvelope → Result TwinState
  correct_evidence correction_id target_id replacement_id state e = do
    ensure (has target_id state.evidence && has replacement_id state.evidence) invariant_violation
    reject_if (contains target_id state.superseded_evidence_ids) invariant_violation
    reject_if (contains replacement_id state.superseded_evidence_ids) invariant_violation
    links ← mark (cites target_id) state.entity_links state.stale_entity_link_ids
    claims ← mark (cites target_id) state.claims state.stale_claim_ids
    projections ←
        mark
          (λ r.
            texts_at "source_claim_ids" r >>= λ sources. ok (any (λ s. contains s claims) sources))
          state.issued_projections state.stale_projection_ids
    ok (record state {
      superseded_evidence_ids = add target_id state.superseded_evidence_ids;
      corrections = put correction_id (stamped e) state.corrections;
      stale_entity_link_ids = links;
      stale_claim_ids = claims;
      stale_projection_ids = projections;
    })

  unfoldable pub correct_claim :
      String → String → String → TwinState → EventEnvelope → Result TwinState
  correct_claim correction_id target_id replacement_id state e = do
    ensure (has target_id state.claims && has replacement_id state.claims) invariant_violation
    reject_if (contains target_id state.superseded_claim_ids) invariant_violation
    reject_if (contains replacement_id state.superseded_claim_ids) invariant_violation
    projections ←
        mark (λ r. texts_at "source_claim_ids" r >>= λ sources. ok (contains target_id sources))
          state.issued_projections state.stale_projection_ids
    ok (record state {
      superseded_claim_ids = add target_id state.superseded_claim_ids;
      corrections = put correction_id (stamped e) state.corrections;
      accepted_claim_ids = discard target_id state.accepted_claim_ids;
      contested_claim_ids = discard target_id state.contested_claim_ids;
      stale_projection_ids = projections;
    })

  unfoldable pub record_correction : TwinState → EventEnvelope → Result TwinState
  record_correction state e = do
    subject_id ← text_at "subject_id" e.payload
    bound ← bind_subject state subject_id
    correction_id ← text_at "correction_id" e.payload
    reject_if (has correction_id bound.corrections) invariant_violation
    target_kind ← text_at "target_kind" e.payload
    target_id ← text_at "target_id" e.payload
    replacement_id ← text_at "replacement_id" e.payload
    if target_kind == "evidence"
        then correct_evidence correction_id target_id replacement_id bound e
        else correct_claim correction_id target_id replacement_id bound e

  unfoldable pub revoke_projection : TwinState → EventEnvelope → Result TwinState
  revoke_projection state e = do
    projection_id ← text_at "projection_id" e.payload
    ensure (has projection_id state.issued_projections) invariant_violation
    ok (record state { revoked_projection_ids = add projection_id state.revoked_projection_ids })

  unfoldable pub issue_projection : TwinState → EventEnvelope → Result TwinState
  issue_projection state e = do
    ensure (is_some state.subject_id) invariant_violation
    projection_id ← text_at "projection_id" e.payload
    reject_if (has projection_id state.issued_projections) invariant_violation
    ok (record state { issued_projections = put projection_id e.payload state.issued_projections })

  unfoldable pub declare_degradation : TwinState → EventEnvelope → Result TwinState
  declare_degradation state e = do
    reason ← text_at "reason" e.payload
    ok (record state { degraded_reasons = state.degraded_reasons ++ reason ∷ [] })

  unfoldable pub clear_degradation : TwinState → EventEnvelope → Result TwinState
  clear_degradation state e = do
    reason ← text_at "reason" e.payload
    ok (record state { degraded_reasons = discard reason state.degraded_reasons })

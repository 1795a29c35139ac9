-- ===== src/Aggregate/Validate.antt =====
-- `TwinAggregate.validate_event` and its helpers: what an event must look like, whatever the state.
use k2s.Prelude.{
  ℕ, String, Bool, true, false, not, ◌&&◌, ◌||◌, List, [], ◌∷◌, map, ◌==◌, eqb, ltb, length, any,
  all, is_subset, is_some,
}
use k2s.Value.{
  Value, str, arr, obj, cons, Fields, to_list, truthy, get, has_field, field_names, is_dict,
  is_blank, hashable, distinct, in_unit, same, member, as_dict,
}
use k2s.Errors.{
  Result, ok, err, ensure, reject_if, traverse, for_each, invariant_violation, type_error, ◌>>=◌,
  ◌>>◌,
}
use k2s.Host.{Host, DateTime, aware, naive, to_str}
use k2s.Types.{
  projection, same_plane, EventType, evidence_ingested, evidence_deleted, entity_linked,
  entity_unlinked, claim_proposed, contradiction_detected, contradiction_adjudicated,
  claim_accepted, claim_contested, claim_retired, claim_superseded, correction_recorded,
  projection_issued, projection_revoked, sensitivity_of, EventEnvelope, event_v1, event_v2,
}

-- isinstance(value, list) and value
non_empty_list : Value → Result (List Value)
non_empty_list (arr (cons v vs)) = ok (to_list (cons v vs))
non_empty_list _ = err invariant_violation

-- The loop over a reference's relation and independence group.
check_reference : Fields → Result (Unit {0})
check_reference r =
    reject_if (not (truthy (get "relation" r)) || not (truthy (get "independence_group" r)))
      invariant_violation

unfoldable pub validate_provenance : Value → Result (List Fields)
unfolding non_empty_list check_reference
validate_provenance value = do
  items ← non_empty_list value
  references ← traverse (as_dict invariant_violation) items
  let evidence_ids = map (get "evidence_id") references
  reject_if (any (λ v. not (truthy v)) evidence_ids) invariant_violation
  ensure (all hashable evidence_ids) type_error
  ensure (distinct evidence_ids) invariant_violation
  for_each check_reference references
  ok references

abbrev pub epistemic_dimensions : List String
epistemic_dimensions =
    "evidence_quality" ∷ "confidence" ∷ "salience" ∷ "stability" ∷ "freshness" ∷ "scope_confidence"
    ∷ "contradiction_load" ∷ []

-- set(value) == EPISTEMIC_DIMENSIONS, then `EpistemicVector(**value)` in the order of its fields.
unfoldable pub validate_epistemic : Value → Result (Unit {0})
validate_epistemic (obj fs) = do
  ensure (is_subset (field_names fs) epistemic_dimensions) invariant_violation
  ensure (is_subset epistemic_dimensions (field_names fs)) invariant_violation
  ensure (all (λ d. in_unit (get d fs)) epistemic_dimensions) invariant_violation
validate_epistemic _ = err invariant_violation

is_projection_event : EventType → Bool
is_projection_event projection_issued = true
is_projection_event projection_revoked = true
is_projection_event _ = false

unfoldable pub is_aware : DateTime → Bool
is_aware (aware t) = true
is_aware (naive t) = false

-- The checks of `validate_event` above those of the single event types.
unfoldable pub validate_envelope : EventEnvelope → Result (Unit {0})
unfolding is_projection_event is_aware
validate_envelope e = do
  reject_if (e.twin_id == "" || e.producer == "" || e.idempotency_key == "") invariant_violation
  ensure (e.schema_version == event_v1 || e.schema_version == event_v2) invariant_violation
  reject_if (e.schema_version == event_v1 && eqb e.sequence 0) invariant_violation
  ensure (is_aware e.occurred_at) invariant_violation
  reject_if (same_plane e.plane projection && not (is_projection_event e.event_type))
      invariant_violation
  reject_if (is_projection_event e.event_type && not (same_plane e.plane projection))
      invariant_violation

-- any(not payload.get(field) for field in required)
lacks : List String → Fields → Bool
lacks required p = any (λ f. not (truthy (get f p))) required

-- required.difference(payload)
misses : List String → Fields → Bool
misses required p = any (λ f. not (has_field f p)) required

-- isinstance(value, list)
as_list : Value → Result (List Value)
as_list (arr xs) = ok (to_list xs)
as_list _ = err invariant_violation

-- len(set(items)) == len(items) and all(items)
check_distinct : List Value → Result (Unit {0})
check_distinct items = do
  ensure (all hashable items) type_error
  ensure (distinct items) invariant_violation
  reject_if (any (λ v. not (truthy v)) items) invariant_violation

-- value in {…}, which raises on a value with no hash.
one_of : List String → Value → Result (Unit {0})
one_of names v = do ensure (hashable v) type_error; ensure (member v names) invariant_violation

-- isinstance(basis, str) and basis.strip()
has_basis : Value → Bool
has_basis (str s) = not (is_blank s)
has_basis _ = false

module _ ⦃host : Host⦄ where
  validate_evidence : Fields → Result (Unit {0})
  unfolding misses lacks
  validate_evidence p = do
    reject_if
        (misses
          ("evidence_id" ∷ "subject_id" ∷ "content_hash" ∷ "source" ∷ "rights" ∷ "sensitivity"
            ∷ "independence_group" ∷ [])
          p)
        invariant_violation
    reject_if
        (lacks
          ("evidence_id" ∷ "subject_id" ∷ "content_hash" ∷ "source" ∷ "sensitivity"
            ∷ "independence_group" ∷ [])
          p)
        invariant_violation
    ensure (is_dict (get "rights" p)) invariant_violation
    ensure (is_some (sensitivity_of (to_str (get "sensitivity" p)))) invariant_violation

  validate_claim : Fields → Result (Unit {0})
  unfolding lacks validate_provenance validate_epistemic
  validate_claim p = do
    references ← validate_provenance (get "provenance" p)
    reject_if (lacks ("claim_id" ∷ "subject_id" ∷ "statement" ∷ []) p) invariant_violation
    validate_epistemic (get "epistemic" p)

  validate_link : Fields → Result (Unit {0})
  unfolding lacks validate_provenance
  validate_link p = do
    reject_if (lacks ("entity_link_id" ∷ "subject_id" ∷ "namespace" ∷ "entity_id" ∷ []) p)
        invariant_violation
    references ← validate_provenance (get "provenance" p)
    ensure (in_unit (get "confidence" p)) invariant_violation

  -- `sequence` 0 marks an event that is not in the store yet.
  validate_contradiction : ℕ → Fields → Result (Unit {0})
  unfolding as_list check_distinct has_basis
  validate_contradiction sequence p = do
    ensure (truthy (get "contradiction_id" p)) invariant_violation
    claim_ids ← as_list (get "claim_ids" p)
    reject_if (ltb (length claim_ids) 2) invariant_violation
    check_distinct claim_ids
    reject_if
        (eqb sequence 0 && (not (truthy (get "subject_id" p)) || not (has_basis (get "basis" p))))
        invariant_violation

  validate_adjudication : Fields → Result (Unit {0})
  unfolding lacks one_of as_list check_distinct
  validate_adjudication p = do
    reject_if (lacks ("contradiction_id" ∷ "subject_id" ∷ "reviewer_identity_id" ∷ []) p)
        invariant_violation
    one_of ("uphold" ∷ "retain_competing" ∷ "insufficient_evidence" ∷ "corrected" ∷ [])
        (get "resolution" p)
    ensure (truthy (get "rationale" p)) invariant_violation
    preferred ← as_list (get "preferred_claim_ids" p)
    check_distinct preferred

  validate_correction : Fields → Result (Unit {0})
  unfolding lacks one_of
  validate_correction p = do
    reject_if
        (lacks
          ("correction_id" ∷ "subject_id" ∷ "target_kind" ∷ "target_id" ∷ "replacement_id"
            ∷ "reviewer_identity_id" ∷ "rationale" ∷ [])
          p)
        invariant_violation
    one_of ("evidence" ∷ "claim" ∷ []) (get "target_kind" p)
    reject_if (same (get "target_id" p) (get "replacement_id" p)) invariant_violation

  -- The checks of `validate_event` for each event type.
  unfoldable pub validate_payload : EventType → ℕ → Fields → Result (Unit {0})
  unfolding validate_evidence validate_claim validate_link validate_contradiction
      validate_adjudication validate_correction lacks misses
  validate_payload evidence_ingested sequence p = validate_evidence p
  validate_payload claim_proposed sequence p = validate_claim p
  validate_payload entity_linked sequence p = validate_link p
  validate_payload entity_unlinked sequence p =
      reject_if (lacks ("entity_link_id" ∷ "reason" ∷ []) p) invariant_violation
  validate_payload contradiction_detected sequence p = validate_contradiction sequence p
  validate_payload contradiction_adjudicated sequence p = validate_adjudication p
  validate_payload correction_recorded sequence p = validate_correction p
  validate_payload evidence_deleted sequence p =
      ensure (truthy (get "evidence_id" p)) invariant_violation
  validate_payload claim_accepted sequence p =
      ensure (truthy (get "claim_id" p)) invariant_violation
  validate_payload claim_contested sequence p =
      ensure (truthy (get "claim_id" p)) invariant_violation
  validate_payload claim_retired sequence p = ensure (truthy (get "claim_id" p)) invariant_violation
  validate_payload claim_superseded sequence p =
      ensure (truthy (get "claim_id" p)) invariant_violation
  validate_payload projection_issued sequence p =
      reject_if (misses ("projection_id" ∷ "purpose" ∷ "recipient_id" ∷ "receipt_hash" ∷ []) p)
        invariant_violation
  validate_payload projection_revoked sequence p =
      ensure (truthy (get "projection_id" p)) invariant_violation
  validate_payload _ sequence p = ok tt

  unfoldable pub validate_event : EventEnvelope → Result (Unit {0})
  validate_event e = do validate_envelope e; validate_payload e.event_type e.sequence e.payload

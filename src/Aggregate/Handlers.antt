-- ===== src/Aggregate/Handlers.antt =====
-- The branches of `TwinAggregate.apply`, one function for each event type.
use k2s.Prelude.{
  String, Bool, false, not, Option, none, some, List, [], ◌∷◌, map, ◌==◌, any, all, contains, add,
  Dict, lookup, has, put, remove, if◌then◌else◌,
}
use k2s.Value.{
  Value, str, arr, nil, Fields, get, get_default, require, put_field, iterate, as_dict, hashable,
  same, member,
}
use k2s.Errors.{
  Result, ok, ensure, reject_if, or_raise, any_of, for_each, invariant_violation, type_error,
  attribute_error, ◌>>=◌, ◌>>◌,
}
use k2s.Host.{Host, to_str}
use k2s.Types.{EventEnvelope}
use k2s.Aggregate.State.{TwinState}

-- The subject of a twin once an event names `subject_id`.
subject_conflict : Option String → String → Bool
subject_conflict none s = false
subject_conflict (some t) s = not (t == s)

unfoldable pub bind_subject : TwinState → String → Result TwinState
unfolding subject_conflict
bind_subject state subject_id = do
  reject_if (subject_id == "") invariant_violation
  reject_if (subject_conflict state.subject_id subject_id) invariant_violation
  ok (record state { subject_id = some subject_id })

-- ref.get("evidence_id") == evidence_id
unfoldable pub refers_to : String → Value → Result Bool
refers_to evidence_id v = do
  reference ← as_dict attribute_error v
  ok (same (get "evidence_id" reference) (str evidence_id))

-- any(… for ref in record.get("provenance", []))
unfoldable pub cites : String → Fields → Result Bool
cites evidence_id r = do
  references ← iterate (get_default "provenance" (arr nil) r)
  any_of (refers_to evidence_id) references

-- for key, record in records.items(): if test(record): ids.add(key)
unfoldable pub mark : (Fields → Result Bool) → Dict Fields → List String → Result (List String)
mark test [] ids = ok ids
mark test ((key, r) ∷ rest) ids = do hit ← test r; mark test rest (if hit then add key ids else ids)

-- set(projection.get("source_claim_ids", [])).intersection(stale)
unfoldable pub sources_meet : List String → Fields → Result Bool
sources_meet stale projection = do
  sources ← iterate (get_default "source_claim_ids" (arr nil) projection)
  ensure (all hashable sources) type_error
  ok (any (λ v. member v stale) sources)

module _ ⦃host : Host⦄ where
  -- str(payload[key])
  unfoldable pub text_at : String → Fields → Result String
  text_at key p = do v ← require key p; ok (to_str v)

  -- set(str(item) for item in record.get(key, []))
  unfoldable pub texts_at : String → Fields → Result (List String)
  texts_at key r = do items ← iterate (get_default key (arr nil) r); ok (map to_str items)

  -- One provenance reference of a claim or of an entity link.
  unfoldable pub check_source : Dict Fields → Value → Result (Unit {0})
  unfolding text_at
  check_source evidence v = do
    reference ← as_dict type_error v
    evidence_id ← text_at "evidence_id" reference
    source ← or_raise (lookup evidence_id evidence) invariant_violation
    ensure (same (get "independence_group" reference) (get "independence_group" source))
        invariant_violation

  unfoldable pub check_sources : Dict Fields → Fields → Result (Unit {0})
  unfolding check_source
  check_sources evidence p = do
    provenance ← require "provenance" p
    references ← iterate provenance
    for_each (check_source evidence) references

  -- dict(payload) with `recorded_at`
  abbrev pub stamped : EventEnvelope → Fields
  stamped e = put_field "recorded_at" (str (host.isoformat e.recorded_at)) e.payload

  unfoldable pub ingest_evidence : TwinState → EventEnvelope → Result TwinState
  ingest_evidence state e = do
    subject_id ← text_at "subject_id" e.payload
    bound ← bind_subject state subject_id
    evidence_id ← text_at "evidence_id" e.payload
    reject_if (has evidence_id bound.evidence) invariant_violation
    ok (record bound { evidence = put evidence_id e.payload bound.evidence })

  unfoldable pub link_entity : TwinState → EventEnvelope → Result TwinState
  link_entity state e = do
    subject_id ← text_at "subject_id" e.payload
    bound ← bind_subject state subject_id
    check_sources bound.evidence e.payload
    link_id ← text_at "entity_link_id" e.payload
    reject_if (has link_id bound.entity_links) invariant_violation
    ok (record bound { entity_links = put link_id (stamped e) bound.entity_links })

  unfoldable pub unlink_entity : TwinState → EventEnvelope → Result TwinState
  unlink_entity state e = do
    link_id ← text_at "entity_link_id" e.payload
    ensure (has link_id state.entity_links) invariant_violation
    reject_if (contains link_id state.unlinked_entity_ids) invariant_violation
    ok (record state { unlinked_entity_ids = add link_id state.unlinked_entity_ids })

  unfoldable pub delete_evidence : TwinState → EventEnvelope → Result TwinState
  unfolding sources_meet
  delete_evidence state e = do
    evidence_id ← text_at "evidence_id" e.payload
    ensure (has evidence_id state.evidence) invariant_violation
    links ← mark (cites evidence_id) state.entity_links state.stale_entity_link_ids
    claims ← mark (cites evidence_id) state.claims state.stale_claim_ids
    projections ← mark (sources_meet claims) state.issued_projections state.stale_projection_ids
    ok (record state {
      evidence = remove evidence_id state.evidence;
      stale_entity_link_ids = links;
      stale_claim_ids = claims;
      stale_projection_ids = projections;
    })

  unfoldable pub propose_claim : TwinState → EventEnvelope → Result TwinState
  propose_claim state e = do
    subject_id ← text_at "subject_id" e.payload
    bound ← bind_subject state subject_id
    check_sources bound.evidence e.payload
    claim_id ← text_at "claim_id" e.payload
    reject_if (has claim_id bound.claims) invariant_violation
    ok (record bound { claims = put claim_id (stamped e) bound.claims })

-- ===== src/Tests/Data.antt =====
-- A host, an actor and two events to try the theorems on.
use Prim.Native.String.{◌++◌}
use k2s.Prelude.{String, none, some, pos, [], ◌∷◌}
use k2s.Value.{int, float, str, arr, obj, nil, cons, Fields, end, field}
use k2s.Errors.{Result, ok, err}
use k2s.Host.{Host, aware}
use k2s.Types.{
  EventEnvelope, EventType, authoritative, ingest_service, ActorContext, evidence_ingested,
  evidence_deleted, claim_proposed, claim_accepted, event_v2,
}

-- A JSON text that stands for any value, and a digest that is seen to be one.
abbrev pub test_host : Host
test_host = record {
  repr = λ v. "value";
  json_dumps = λ v. "{}";
  sha256_hex = λ s. "sha256:" ++ s;
  isoformat = λ n. "2026-01-01T00:00:00+00:00";
  isoformat_z = λ n. "2026-01-01T00:00:00Z";
  local_time = λ n. n;
  fromisoformat = λ s. some (aware 5);
  json_loads = λ bytes. none;
  hmac_sha256 = λ key message. 7 ∷ [];
}

abbrev pub ingest_actor : ActorContext
ingest_actor = record { identity_id = "ingest-1"; roles = ingest_service ∷ []; subject_id = none }

abbrev pub evidence_payload : Fields
evidence_payload = field "evidence_id" (str "e1") (
    field "subject_id" (str "s1") (
      field "content_hash" (str "h1") (
        field "source" (str "mail") (
          field "rights" (obj end)
            (field "sensitivity" (str "internal") (field "independence_group" (str "g1") end))))))

abbrev pub envelope : EventType → Fields → String → String → EventEnvelope
envelope event_type payload event_id idempotency_key = record {
  event_id = event_id;
  twin_id = "t1";
  event_type = event_type;
  plane = authoritative;
  payload = payload;
  occurred_at = aware 5;
  recorded_at = 0;
  producer = "ingest-1";
  producer_role = ingest_service;
  idempotency_key = idempotency_key;
  schema_version = event_v2;
  sequence = 0;
  causation_id = none;
  correlation_id = none;
  previous_hash = "";
  event_hash = "";
}

abbrev pub evidence_event : EventEnvelope
evidence_event = envelope evidence_ingested evidence_payload "id1" "k1"

abbrev pub deletion_event : EventEnvelope
deletion_event =
    envelope evidence_deleted (field "evidence_id" (str "e1") (field "subject_id" (str "s1") end))
      "id2" "k2"

abbrev pub unit_vector : Fields
unit_vector = field "evidence_quality" (float (pos 1) 1) (
    field "confidence" (float (pos 1) 1) (
      field "salience" (float (pos 1) 1) (
        field "stability" (float (pos 1) 1) (
          field "freshness" (float (pos 1) 1) (
            field "scope_confidence" (float (pos 1) 1)
              (field "contradiction_load" (int (pos 0)) end))))))

abbrev pub reference : Fields
reference =
    field "evidence_id" (str "e1")
      (field "relation" (str "supports") (field "independence_group" (str "g1") end))

abbrev pub claim_event : EventEnvelope
claim_event =
    envelope claim_proposed
      (field "claim_id" (str "c1") (
        field "subject_id" (str "s1") (
          field "statement" (str "likes tea") (
            field "provenance" (arr (cons (obj reference) nil))
              (field "epistemic" (obj unit_vector) end)))))
      "id3" "k3"

abbrev pub acceptance_event : EventEnvelope
acceptance_event = envelope claim_accepted (field "claim_id" (str "c1") end) "id4" "k4"

-- What a call that succeeds returns.
abbrev pub returned {ℓ} : {A : Type ℓ} → A → Result A → A
returned other (ok a) = a
returned other (err e) = other

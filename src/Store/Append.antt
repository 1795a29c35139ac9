-- ===== src/Store/Append.antt =====
-- `append` and the outbox row that it writes. A raise rolls the transaction back, so it returns no
-- database; `utc_now()` is the argument `now`.
use k2s.Prelude.{
  ℕ, ◌+◌, String, Bool, false, ◌&&◌, Option, none, some, List, [], ◌∷◌, ◌++◌, ◌==◌, eqb, any, keep,
  find_first, same_option,
}
use k2s.Value.{obj}
use k2s.Errors.{
  Result, ok, ensure, reject_if, invariant_violation, concurrency_conflict, sqlite_integrity_error,
  ◌>>=◌, ◌>>◌,
}
use k2s.Host.{Host, DateTime, aware, naive, canonical_json}
use k2s.Types.{EventEnvelope, simulation, same_plane, same_role, type_name, event_v2, seal}
use k2s.Store.Defs.{Ledger, OutboxRow, row_to_event, newest}
use k2s.Store.Index.{index_dependencies}

-- WHERE twin_id = ?
unfoldable pub twin_events : String → List EventEnvelope → List EventEnvelope
twin_events twin_id events = keep (λ e. e.twin_id == twin_id) events

abbrev pub position : Option EventEnvelope → ℕ × String
position none = (0, "")
position (some e) = (e.sequence, e.event_hash)

unfoldable pub head : Ledger → String → ℕ × String
head db twin_id = position (newest (twin_events twin_id db.events))

unfoldable pub same_time : DateTime → DateTime → Bool
same_time (aware a) (aware b) = eqb a b
same_time (naive a) (naive b) = eqb a b
same_time _ _ = false

-- The row that has the idempotency key of an event.
unfoldable pub find_duplicate : EventEnvelope → List EventEnvelope → Option EventEnvelope
find_duplicate e events =
    find_first (λ r. r.twin_id == e.twin_id && r.idempotency_key == e.idempotency_key) events

abbrev pub outbox_row : EventEnvelope → OutboxRow
outbox_row e = record {
  twin_id = e.twin_id;
  sequence = e.sequence;
  topic = "dt.events";
  message_key = e.twin_id;
  created_at = e.recorded_at;
  published_at = none;
  attempts = 0;
  last_error = none;
  lease_owner = none;
  lease_until = none;
}

module _ ⦃host : Host⦄ where
  -- A retry of the same request.
  unfoldable pub same_request : EventEnvelope → EventEnvelope → Bool
  unfolding same_time
  same_request existing event =
      type_name existing.event_type == type_name event.event_type
      && same_plane existing.plane event.plane
      && canonical_json (obj existing.payload) == canonical_json (obj event.payload)
      && existing.producer == event.producer
      && same_role existing.producer_role event.producer_role
      && existing.schema_version == event.schema_version
      && same_time existing.occurred_at event.occurred_at
      && same_option existing.causation_id event.causation_id
      && same_option existing.correlation_id event.correlation_id

  -- The insert of a sealed event, with its edges and its outbox row.
  unfoldable pub insert_event : EventEnvelope → Ledger → Result Ledger
  insert_event sealed db = do
    reject_if (any (λ r. r.event_id == sealed.event_id) db.events) sqlite_integrity_error
    indexed ← index_dependencies sealed (record db { events = db.events ++ sealed ∷ [] })
    ok (record indexed { outbox = indexed.outbox ++ outbox_row sealed ∷ [] })

  -- The event with the idempotency key is there already.
  unfoldable pub resolve_duplicate :
      EventEnvelope → EventEnvelope → Ledger → Result (EventEnvelope × Ledger)
  resolve_duplicate duplicate event db = do
    existing ← row_to_event duplicate
    ensure (same_request existing event) invariant_violation
    ok (existing, db)

  unfoldable pub append_new : EventEnvelope → ℕ → ℕ → Ledger → Result (EventEnvelope × Ledger)
  append_new event expected_sequence now db =
      let (actual_sequence, previous_hash) = head db event.twin_id in
      let sealed = seal event (actual_sequence + 1) previous_hash now in
      ensure (eqb actual_sequence expected_sequence) concurrency_conflict
      >> (insert_event sealed db >>= λ next. ok (sealed, next))

  unfoldable pub append : EventEnvelope → ℕ → ℕ → Ledger → Result (EventEnvelope × Ledger)
  append event expected_sequence now db = do
    ensure (event.schema_version == event_v2) invariant_violation
    reject_if (same_plane event.plane simulation) invariant_violation
    elim (find_duplicate event db.events) [
      | some duplicate ↦ resolve_duplicate duplicate event db
      | none ↦ append_new event expected_sequence now db
    ]

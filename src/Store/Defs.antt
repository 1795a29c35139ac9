-- ===== src/Store/Defs.antt =====
-- The tables of argo_dt/event_store.py, and how rows are read. The text form of a row (canonical
-- JSON, ISO times) is taken to read back as it was written.
use k2s.Prelude.{ℕ, String, Option, none, some, List, [], ◌∷◌, ltb, if◌then◌else◌}
use k2s.Errors.{Result, ok, err, invariant_violation}
use k2s.Host.{DateTime, aware, naive}
use k2s.Types.{EventEnvelope, SnapshotRecord}

-- dt_dependencies
pub record Edge : Type 0 where
  pub twin_id : String
  pub source_kind : String
  pub source_id : String
  pub dependent_kind : String
  pub dependent_id : String
  pub created_sequence : ℕ
  pub relation : String

-- dt_outbox
pub record OutboxRow : Type 0 where
  pub twin_id : String
  pub sequence : ℕ
  pub topic : String
  pub message_key : String
  pub created_at : ℕ
  pub published_at : Option ℕ
  pub attempts : ℕ
  pub last_error : Option String
  pub lease_owner : Option String
  pub lease_until : Option ℕ

-- dt_invalidation_queue
pub record InvalidationRow : Type 0 where
  pub twin_id : String
  pub deletion_sequence : ℕ
  pub source_evidence_id : String
  pub dependent_kind : String
  pub dependent_id : String
  pub created_at : ℕ
  pub processed_at : Option ℕ

-- The database of one `SQLiteEventStore`, each table in the order of its inserts.
pub record Ledger : Type 0 where
  pub events : List EventEnvelope
  pub snapshots : List SnapshotRecord
  pub outbox : List OutboxRow
  pub dependencies : List Edge
  pub invalidations : List InvalidationRow

abbrev pub empty_ledger : Ledger
empty_ledger = record {
  events = [];
  snapshots = [];
  outbox = [];
  dependencies = [];
  invalidations = [];
}

-- `_row_to_event` parses `occurred_at`, which must have an offset.
unfoldable pub parsed : DateTime → EventEnvelope → Result EventEnvelope
parsed (aware t) row = ok row
parsed (naive t) row = err invariant_violation

unfoldable pub row_to_event : EventEnvelope → Result EventEnvelope
unfolding parsed
row_to_event row = parsed row.occurred_at row

-- ORDER BY sequence
unfoldable pub insert_by_sequence : EventEnvelope → List EventEnvelope → List EventEnvelope
insert_by_sequence e [] = e ∷ []
insert_by_sequence e (f ∷ fs) =
    let rest = insert_by_sequence e fs in if ltb f.sequence e.sequence then f ∷ rest else e ∷ f ∷ fs

unfoldable pub order_by_sequence : List EventEnvelope → List EventEnvelope
unfolding insert_by_sequence
order_by_sequence [] = []
order_by_sequence (e ∷ es) = insert_by_sequence e (order_by_sequence es)

-- ORDER BY sequence DESC LIMIT 1
unfoldable pub later : EventEnvelope → Option EventEnvelope → EventEnvelope
later e none = e
later e (some f) = if ltb e.sequence f.sequence then f else e

unfoldable pub newest : List EventEnvelope → Option EventEnvelope
unfolding later
newest [] = none
newest (e ∷ es) = some (later e (newest es))

-- ===== src/Tests/Relays.antt =====
-- A drain of two rows, of which one cannot be published.
use k2s.Prelude.{ℕ, String, ◌≡◌, refl, Option, none, some, true, false, eqb, if◌then◌else◌}
use k2s.Errors.{Result, ok, err}
use k2s.Types.{EventEnvelope, evidence_deleted, type_name}
use k2s.Store.{Ledger, OutboxRecord, outbox_backlog}
use k2s.Store as Store
use k2s.Service as Service
use k2s.Sync.Relay.{RelayBatch, Publisher, drain}
use k2s.Sync.Relay.Backlog.{Balances, drain-Balances}
use k2s.Tests.Data.{test_host}
use k2s.Tests.Outbox.{db}

-- The outbox is left alone, and the second event is refused.
abbrev publisher : Publisher
publisher e stored = (if eqb e.sequence 2 then some "TimeoutError" else none, stored)

abbrev at_noon : OutboxRecord → ℕ
at_noon r = 101

abbrev batch : RelayBatch
batch = record { claimed = 2; published = 1; failed = 1 }

drained : (drain ⦃host = test_host⦄ publisher at_noon "relay-1" 10 30 100 db).0 ≡ ok batch
unfolding drain k2s.Sync.Relay.relay_claim k2s.Sync.Relay.relay_records k2s.Sync.Relay.relay_record
    k2s.Sync.Relay.settle k2s.Sync.Relay.finish Store.mark_outbox_published Store.release_outbox
    Store.holds Service.append Service.preview Service.rebuild Store.append Store.append_new
    Store.resolve_duplicate Store.find_duplicate k2s.Prelude.find_first Store.head Store.newest
    Store.later Store.twin_events k2s.Prelude.keep Store.insert_event k2s.Prelude.any
    Store.index_dependencies Store.edges_of k2s.Types.seal k2s.Aggregate.validate_event
    k2s.Aggregate.validate_envelope k2s.Aggregate.validate_payload k2s.Ownership.authorize
    k2s.Ownership.authorize_intent k2s.Ownership.authorize_subject Store.load Store.matches
    Store.order_by_sequence k2s.Errors.traverse Store.row_to_event k2s.Aggregate.replay
    k2s.Aggregate.apply k2s.Aggregate.transition k2s.Aggregate.ingest_evidence k2s.Aggregate.text_at
    k2s.Aggregate.bind_subject k2s.Prelude.has k2s.Prelude.lookup k2s.Prelude.put
    k2s.Types.same_role k2s.Value.truthy k2s.Value.get k2s.Value.has_field k2s.Value.is_dict
    k2s.Types.sensitivity_of k2s.Host.to_str k2s.Value.require Store.invalidate k2s.Types.verify
    k2s.Host.content_hash k2s.Aggregate.delete_evidence k2s.Aggregate.mark Store.claim_outbox
    Store.claim_rows Store.claim_row Store.outbox_record Store.update Store.order_rows
    Store.insert_row Store.row_le Store.event_at Store.snapshot_at k2s.Types.verify_snapshot
    Store.save_snapshot Store.load_snapshot k2s.Types.new_snapshot Store.keep_or_insert
    Store.row_to_snapshot Store.joined Store.descending Store.insert_descending Store.first
    Store.linked_to
drained = refl

drain-Balances_example :
    Balances (outbox_backlog db) (drain ⦃host = test_host⦄ publisher at_noon "relay-1" 10 30 100 db)
drain-Balances_example =
    drain-Balances ⦃host = test_host⦄ publisher at_noon (λ e stored. refl) "relay-1" 10 30 100 db

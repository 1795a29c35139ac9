-- ===== src/Tests/Outbox.antt =====
-- Claims of the outbox by two relays, and a snapshot.
use k2s.Prelude.{
  ℕ, String, ◌≡◌, refl, Option, none, some, List, [], ◌∷◌, true, false, All, Memᴰ, arith, ◌+◌, ◌*◌,
  ◌||◌, length, keep,
}
use k2s.Errors.{Result, ok, err}
use k2s.Value.{Fields, str, field, end}
use k2s.Types.{EventEnvelope, SnapshotRecord, new_snapshot, verify_snapshot}
use k2s.Store.{
  Ledger, OutboxRecord, OutboxRow, second, claim_outbox, mark_outbox_published, save_snapshot,
  load_snapshot, up_to, release_outbox, outbox_backlog, is_due, holds,
}
use k2s.Store as Store
use k2s.Service as Service
use k2s.Store.Leases.{HasKeys, row_of}
use k2s.Store.Claims.{IsClaimed, claim_outbox-IsClaimed, claim_outbox-HasKeys}
use k2s.Store.Fencing.{
  same_row, claim_outbox-excludes, mark_outbox_published-fenced, mark_outbox_published-claimed,
}
use k2s.Store.Releases.{release_outbox-ends}
use k2s.Store.Saved.{IsLinked, save_snapshot-IsLinked, load_snapshot-IsLinked}
use k2s.Tests.Data.{test_host, evidence_event, returned}
use k2s.Tests.Ledgers as Ledgers

abbrev pub db : Ledger
db = Ledgers.second.1

db-HasKeys : HasKeys db.outbox
unfolding Service.append Service.preview Service.rebuild Store.append Store.append_new
    Store.resolve_duplicate Store.find_duplicate k2s.Prelude.find_first Store.head Store.newest
    Store.later Store.twin_events k2s.Prelude.keep Store.insert_event k2s.Prelude.any
    Store.index_dependencies Store.edges_of k2s.Types.seal k2s.Aggregate.validate_event
    k2s.Aggregate.validate_envelope k2s.Aggregate.validate_payload k2s.Ownership.authorize
    k2s.Ownership.authorize_intent k2s.Ownership.authorize_subject Store.load Store.matches
    Store.order_by_sequence k2s.Errors.traverse Store.row_to_event k2s.Aggregate.replay
    k2s.Aggregate.apply k2s.Aggregate.transition k2s.Aggregate.ingest_evidence k2s.Aggregate.text_at
    k2s.Aggregate.bind_subject k2s.Prelude.has k2s.Prelude.lookup k2s.Prelude.put
    k2s.Types.same_role k2s.Value.truthy k2s.Value.get k2s.Value.has_field k2s.Value.is_dict
    k2s.Types.sensitivity_of k2s.Host.to_str k2s.Value.require Store.invalidate k2s.Types.verify
    k2s.Host.content_hash k2s.Aggregate.delete_evidence k2s.Aggregate.mark
db-HasKeys = ((refl, tt), (tt, tt))

-- One row for the first relay.
abbrev one : List OutboxRecord × Ledger
one = returned ([], db) (claim_outbox ⦃host = test_host⦄ "relay-1" 1 30 100 db)

one-claimed : claim_outbox ⦃host = test_host⦄ "relay-1" 1 30 100 db ≡ ok one
unfolding Service.append Service.preview Service.rebuild Store.append Store.append_new
    Store.resolve_duplicate Store.find_duplicate k2s.Prelude.find_first Store.head Store.newest
    Store.later Store.twin_events k2s.Prelude.keep Store.insert_event k2s.Prelude.any
    Store.index_dependencies Store.edges_of k2s.Types.seal k2s.Aggregate.validate_event
    k2s.Aggregate.validate_envelope k2s.Aggregate.validate_payload k2s.Ownership.authorize
    k2s.Ownership.authorize_intent k2s.Ownership.authorize_subject Store.load Store.matches
    Store.order_by_sequence k2s.Errors.traverse Store.row_to_event k2s.Aggregate.replay
    k2s.Aggregate.apply k2s.Aggregate.transition k2s.Aggregate.ingest_evidence k2s.Aggregate.text_at
    k2s.Aggregate.bind_subject k2s.Prelude.has k2s.Prelude.lookup k2s.Prelude.put
    k2s.Types.same_role k2s.Value.truthy k2s.Value.get k2s.Value.has_field k2s.Value.is_dict
    k2s.Types.sensitivity_of k2s.Host.to_str k2s.Value.require Store.invalidate k2s.Types.verify
    k2s.Host.content_hash k2s.Aggregate.delete_evidence k2s.Aggregate.mark claim_outbox
    Store.claim_rows Store.claim_row Store.outbox_record Store.update Store.order_rows
    Store.insert_row Store.row_le Store.event_at Store.snapshot_at k2s.Types.verify_snapshot
    save_snapshot load_snapshot new_snapshot Store.keep_or_insert Store.row_to_snapshot Store.joined
    Store.descending Store.insert_descending Store.first Store.linked_to
one-claimed = refl

-- What is left for the second relay while the lease lasts.
abbrev others : List OutboxRecord × Ledger
others = returned ([], db) (claim_outbox ⦃host = test_host⦄ "relay-2" 10 30 200 one.1)

others-claimed : claim_outbox ⦃host = test_host⦄ "relay-2" 10 30 200 one.1 ≡ ok others
unfolding Service.append Service.preview Service.rebuild Store.append Store.append_new
    Store.resolve_duplicate Store.find_duplicate k2s.Prelude.find_first Store.head Store.newest
    Store.later Store.twin_events k2s.Prelude.keep Store.insert_event k2s.Prelude.any
    Store.index_dependencies Store.edges_of k2s.Types.seal k2s.Aggregate.validate_event
    k2s.Aggregate.validate_envelope k2s.Aggregate.validate_payload k2s.Ownership.authorize
    k2s.Ownership.authorize_intent k2s.Ownership.authorize_subject Store.load Store.matches
    Store.order_by_sequence k2s.Errors.traverse Store.row_to_event k2s.Aggregate.replay
    k2s.Aggregate.apply k2s.Aggregate.transition k2s.Aggregate.ingest_evidence k2s.Aggregate.text_at
    k2s.Aggregate.bind_subject k2s.Prelude.has k2s.Prelude.lookup k2s.Prelude.put
    k2s.Types.same_role k2s.Value.truthy k2s.Value.get k2s.Value.has_field k2s.Value.is_dict
    k2s.Types.sensitivity_of k2s.Host.to_str k2s.Value.require Store.invalidate k2s.Types.verify
    k2s.Host.content_hash k2s.Aggregate.delete_evidence k2s.Aggregate.mark claim_outbox
    Store.claim_rows Store.claim_row Store.outbox_record Store.update Store.order_rows
    Store.insert_row Store.row_le Store.event_at Store.snapshot_at k2s.Types.verify_snapshot
    save_snapshot load_snapshot new_snapshot Store.keep_or_insert Store.row_to_snapshot Store.joined
    Store.descending Store.insert_descending Store.first Store.linked_to
others-claimed = refl

-- The row of the first relay once its lease has run out.
abbrev again : List OutboxRecord × Ledger
again = returned ([], db) (claim_outbox ⦃host = test_host⦄ "relay-2" 1 30 40000000 one.1)

again-claimed : claim_outbox ⦃host = test_host⦄ "relay-2" 1 30 40000000 one.1 ≡ ok again
unfolding Service.append Service.preview Service.rebuild Store.append Store.append_new
    Store.resolve_duplicate Store.find_duplicate k2s.Prelude.find_first Store.head Store.newest
    Store.later Store.twin_events k2s.Prelude.keep Store.insert_event k2s.Prelude.any
    Store.index_dependencies Store.edges_of k2s.Types.seal k2s.Aggregate.validate_event
    k2s.Aggregate.validate_envelope k2s.Aggregate.validate_payload k2s.Ownership.authorize
    k2s.Ownership.authorize_intent k2s.Ownership.authorize_subject Store.load Store.matches
    Store.order_by_sequence k2s.Errors.traverse Store.row_to_event k2s.Aggregate.replay
    k2s.Aggregate.apply k2s.Aggregate.transition k2s.Aggregate.ingest_evidence k2s.Aggregate.text_at
    k2s.Aggregate.bind_subject k2s.Prelude.has k2s.Prelude.lookup k2s.Prelude.put
    k2s.Types.same_role k2s.Value.truthy k2s.Value.get k2s.Value.has_field k2s.Value.is_dict
    k2s.Types.sensitivity_of k2s.Host.to_str k2s.Value.require Store.invalidate k2s.Types.verify
    k2s.Host.content_hash k2s.Aggregate.delete_evidence k2s.Aggregate.mark claim_outbox
    Store.claim_rows Store.claim_row Store.outbox_record Store.update Store.order_rows
    Store.insert_row Store.row_le Store.event_at Store.snapshot_at k2s.Types.verify_snapshot
    save_snapshot load_snapshot new_snapshot Store.keep_or_insert Store.row_to_snapshot Store.joined
    Store.descending Store.insert_descending Store.first Store.linked_to
again-claimed = refl

abbrev head_of : List OutboxRecord × Ledger → OutboxRecord
head_of (r ∷ rs, d) = r
head_of ([], d) = record {
  topic = "";
  key = "";
  event = evidence_event;
  created_at = 0;
  attempts = 0;
  lease_owner = "";
}

claim_outbox-IsClaimed_example : All (IsClaimed 100 "relay-1" (100 + 30 * second) db one.1) one.0
claim_outbox-IsClaimed_example =
    claim_outbox-IsClaimed ⦃host = test_host⦄ "relay-1" 1 30 100 db one.1 one.0 db-HasKeys
      one-claimed

claim_outbox-excludes_example : same_row (head_of one) (head_of others) ≡ false
unfolding Service.append Service.preview Service.rebuild Store.append Store.append_new
    Store.resolve_duplicate Store.find_duplicate k2s.Prelude.find_first Store.head Store.newest
    Store.later Store.twin_events k2s.Prelude.keep Store.insert_event k2s.Prelude.any
    Store.index_dependencies Store.edges_of k2s.Types.seal k2s.Aggregate.validate_event
    k2s.Aggregate.validate_envelope k2s.Aggregate.validate_payload k2s.Ownership.authorize
    k2s.Ownership.authorize_intent k2s.Ownership.authorize_subject Store.load Store.matches
    Store.order_by_sequence k2s.Errors.traverse Store.row_to_event k2s.Aggregate.replay
    k2s.Aggregate.apply k2s.Aggregate.transition k2s.Aggregate.ingest_evidence k2s.Aggregate.text_at
    k2s.Aggregate.bind_subject k2s.Prelude.has k2s.Prelude.lookup k2s.Prelude.put
    k2s.Types.same_role k2s.Value.truthy k2s.Value.get k2s.Value.has_field k2s.Value.is_dict
    k2s.Types.sensitivity_of k2s.Host.to_str k2s.Value.require Store.invalidate k2s.Types.verify
    k2s.Host.content_hash k2s.Aggregate.delete_evidence k2s.Aggregate.mark claim_outbox
    Store.claim_rows Store.claim_row Store.outbox_record Store.update Store.order_rows
    Store.insert_row Store.row_le Store.event_at Store.snapshot_at k2s.Types.verify_snapshot
    save_snapshot load_snapshot new_snapshot Store.keep_or_insert Store.row_to_snapshot Store.joined
    Store.descending Store.insert_descending Store.first Store.linked_to
claim_outbox-excludes_example =
    claim_outbox-excludes ⦃host = test_host⦄ "relay-1" "relay-2" 1 10 30 30 100 200 db one.1
      others.1 one.0 others.0 (head_of one) (head_of others) db-HasKeys one-claimed (omega arith)
      others-claimed (Memᴰ.head refl) (Memᴰ.head refl)

mark_outbox_published-fenced_example :
    mark_outbox_published (head_of one) 50000000 again.1 ≡ (false, again.1)
unfolding Service.append Service.preview Service.rebuild Store.append Store.append_new
    Store.resolve_duplicate Store.find_duplicate k2s.Prelude.find_first Store.head Store.newest
    Store.later Store.twin_events k2s.Prelude.keep Store.insert_event k2s.Prelude.any
    Store.index_dependencies Store.edges_of k2s.Types.seal k2s.Aggregate.validate_event
    k2s.Aggregate.validate_envelope k2s.Aggregate.validate_payload k2s.Ownership.authorize
    k2s.Ownership.authorize_intent k2s.Ownership.authorize_subject Store.load Store.matches
    Store.order_by_sequence k2s.Errors.traverse Store.row_to_event k2s.Aggregate.replay
    k2s.Aggregate.apply k2s.Aggregate.transition k2s.Aggregate.ingest_evidence k2s.Aggregate.text_at
    k2s.Aggregate.bind_subject k2s.Prelude.has k2s.Prelude.lookup k2s.Prelude.put
    k2s.Types.same_role k2s.Value.truthy k2s.Value.get k2s.Value.has_field k2s.Value.is_dict
    k2s.Types.sensitivity_of k2s.Host.to_str k2s.Value.require Store.invalidate k2s.Types.verify
    k2s.Host.content_hash k2s.Aggregate.delete_evidence k2s.Aggregate.mark claim_outbox
    Store.claim_rows Store.claim_row Store.outbox_record Store.update Store.order_rows
    Store.insert_row Store.row_le Store.event_at Store.snapshot_at k2s.Types.verify_snapshot
    save_snapshot load_snapshot new_snapshot Store.keep_or_insert Store.row_to_snapshot Store.joined
    Store.descending Store.insert_descending Store.first Store.linked_to
mark_outbox_published-fenced_example =
    mark_outbox_published-fenced ⦃host = test_host⦄ "relay-1" "relay-2" 1 1 30 30 100 40000000
      50000000 db one.1 again.1 one.0 again.0 (head_of one) (head_of again) db-HasKeys one-claimed
      again-claimed (Memᴰ.head refl) (Memᴰ.head refl) refl

others-HasKeys : HasKeys others.1.outbox
others-HasKeys =
    claim_outbox-HasKeys ⦃host = test_host⦄ "relay-2" 10 30 200 one.1 others.1 others.0
      others-claimed
      (claim_outbox-HasKeys ⦃host = test_host⦄ "relay-1" 1 30 100 db one.1 one.0 one-claimed
        db-HasKeys)

-- The other relay has claimed another row meanwhile.
untouched :
    row_of
      (head_of one).event.twin_id
      (head_of one).event.sequence
      (head_of one).topic
      others.1.outbox
    ≡ row_of
        (head_of one).event.twin_id
        (head_of one).event.sequence
        (head_of one).topic
        one.1.outbox
unfolding Service.append Service.preview Service.rebuild Store.append Store.append_new
    Store.resolve_duplicate Store.find_duplicate k2s.Prelude.find_first Store.head Store.newest
    Store.later Store.twin_events k2s.Prelude.keep Store.insert_event k2s.Prelude.any
    Store.index_dependencies Store.edges_of k2s.Types.seal k2s.Aggregate.validate_event
    k2s.Aggregate.validate_envelope k2s.Aggregate.validate_payload k2s.Ownership.authorize
    k2s.Ownership.authorize_intent k2s.Ownership.authorize_subject Store.load Store.matches
    Store.order_by_sequence k2s.Errors.traverse Store.row_to_event k2s.Aggregate.replay
    k2s.Aggregate.apply k2s.Aggregate.transition k2s.Aggregate.ingest_evidence k2s.Aggregate.text_at
    k2s.Aggregate.bind_subject k2s.Prelude.has k2s.Prelude.lookup k2s.Prelude.put
    k2s.Types.same_role k2s.Value.truthy k2s.Value.get k2s.Value.has_field k2s.Value.is_dict
    k2s.Types.sensitivity_of k2s.Host.to_str k2s.Value.require Store.invalidate k2s.Types.verify
    k2s.Host.content_hash k2s.Aggregate.delete_evidence k2s.Aggregate.mark claim_outbox
    Store.claim_rows Store.claim_row Store.outbox_record Store.update Store.order_rows
    Store.insert_row Store.row_le Store.event_at Store.snapshot_at k2s.Types.verify_snapshot
    save_snapshot load_snapshot new_snapshot Store.keep_or_insert Store.row_to_snapshot Store.joined
    Store.descending Store.insert_descending Store.first Store.linked_to
untouched = refl

mark_outbox_published-claimed_example :
    ((mark_outbox_published (head_of one) 300 others.1).0 ≡ true)
    × ((row : OutboxRow) × (row_of
            (head_of one).event.twin_id
            (head_of one).event.sequence
            (head_of one).topic
            (mark_outbox_published (head_of one) 300 others.1).1.outbox
          ≡ some row)
        × (row.published_at ≡ some 300))
unfolding Service.append Service.preview Service.rebuild Store.append Store.append_new
    Store.resolve_duplicate Store.find_duplicate k2s.Prelude.find_first Store.head Store.newest
    Store.later Store.twin_events k2s.Prelude.keep Store.insert_event k2s.Prelude.any
    Store.index_dependencies Store.edges_of k2s.Types.seal k2s.Aggregate.validate_event
    k2s.Aggregate.validate_envelope k2s.Aggregate.validate_payload k2s.Ownership.authorize
    k2s.Ownership.authorize_intent k2s.Ownership.authorize_subject Store.load Store.matches
    Store.order_by_sequence k2s.Errors.traverse Store.row_to_event k2s.Aggregate.replay
    k2s.Aggregate.apply k2s.Aggregate.transition k2s.Aggregate.ingest_evidence k2s.Aggregate.text_at
    k2s.Aggregate.bind_subject k2s.Prelude.has k2s.Prelude.lookup k2s.Prelude.put
    k2s.Types.same_role k2s.Value.truthy k2s.Value.get k2s.Value.has_field k2s.Value.is_dict
    k2s.Types.sensitivity_of k2s.Host.to_str k2s.Value.require Store.invalidate k2s.Types.verify
    k2s.Host.content_hash k2s.Aggregate.delete_evidence k2s.Aggregate.mark claim_outbox
    Store.claim_rows Store.claim_row Store.outbox_record Store.update Store.order_rows
    Store.insert_row Store.row_le Store.event_at Store.snapshot_at k2s.Types.verify_snapshot
    save_snapshot load_snapshot new_snapshot Store.keep_or_insert Store.row_to_snapshot Store.joined
    Store.descending Store.insert_descending Store.first Store.linked_to
mark_outbox_published-claimed_example =
    mark_outbox_published-claimed ⦃host = test_host⦄ "relay-1" 1 30 100 300 db one.1 others.1 one.0
      (head_of one) db-HasKeys one-claimed (Memᴰ.head refl) others-HasKeys untouched

-- The first relay gives its row back.
abbrev released : Ledger
released = (release_outbox (head_of one) "broker away" one.1).1

release_outbox-ends_example :
    (mark_outbox_published (head_of one) 300 released ≡ (false, released))
    × ((release_outbox (head_of one) "again" released).0 ≡ false)
    × (outbox_backlog released ≡ outbox_backlog one.1)
    × (length (keep (is_due 300) released.outbox)
        ≡ length (keep (λ q. is_due 300 q || holds (head_of one) q) one.1.outbox))
release_outbox-ends_example = release_outbox-ends (head_of one) "broker away" "again" 300 one.1

abbrev snapshot : SnapshotRecord
snapshot =
    new_snapshot ⦃host = test_host⦄ "t1" 2 Ledgers.second.0.event_hash
      (field "twin_id" (str "t1") end) 500

abbrev saved : SnapshotRecord × Ledger
saved = returned (snapshot, db) (save_snapshot ⦃host = test_host⦄ snapshot db)

saved-ok : save_snapshot ⦃host = test_host⦄ snapshot db ≡ ok saved
unfolding Service.append Service.preview Service.rebuild Store.append Store.append_new
    Store.resolve_duplicate Store.find_duplicate k2s.Prelude.find_first Store.head Store.newest
    Store.later Store.twin_events k2s.Prelude.keep Store.insert_event k2s.Prelude.any
    Store.index_dependencies Store.edges_of k2s.Types.seal k2s.Aggregate.validate_event
    k2s.Aggregate.validate_envelope k2s.Aggregate.validate_payload k2s.Ownership.authorize
    k2s.Ownership.authorize_intent k2s.Ownership.authorize_subject Store.load Store.matches
    Store.order_by_sequence k2s.Errors.traverse Store.row_to_event k2s.Aggregate.replay
    k2s.Aggregate.apply k2s.Aggregate.transition k2s.Aggregate.ingest_evidence k2s.Aggregate.text_at
    k2s.Aggregate.bind_subject k2s.Prelude.has k2s.Prelude.lookup k2s.Prelude.put
    k2s.Types.same_role k2s.Value.truthy k2s.Value.get k2s.Value.has_field k2s.Value.is_dict
    k2s.Types.sensitivity_of k2s.Host.to_str k2s.Value.require Store.invalidate k2s.Types.verify
    k2s.Host.content_hash k2s.Aggregate.delete_evidence k2s.Aggregate.mark claim_outbox
    Store.claim_rows Store.claim_row Store.outbox_record Store.update Store.order_rows
    Store.insert_row Store.row_le Store.event_at Store.snapshot_at k2s.Types.verify_snapshot
    save_snapshot load_snapshot new_snapshot Store.keep_or_insert Store.row_to_snapshot Store.joined
    Store.descending Store.insert_descending Store.first Store.linked_to
saved-ok = refl

loaded : load_snapshot ⦃host = test_host⦄ "t1" none saved.1 ≡ ok (some saved.0)
unfolding Service.append Service.preview Service.rebuild Store.append Store.append_new
    Store.resolve_duplicate Store.find_duplicate k2s.Prelude.find_first Store.head Store.newest
    Store.later Store.twin_events k2s.Prelude.keep Store.insert_event k2s.Prelude.any
    Store.index_dependencies Store.edges_of k2s.Types.seal k2s.Aggregate.validate_event
    k2s.Aggregate.validate_envelope k2s.Aggregate.validate_payload k2s.Ownership.authorize
    k2s.Ownership.authorize_intent k2s.Ownership.authorize_subject Store.load Store.matches
    Store.order_by_sequence k2s.Errors.traverse Store.row_to_event k2s.Aggregate.replay
    k2s.Aggregate.apply k2s.Aggregate.transition k2s.Aggregate.ingest_evidence k2s.Aggregate.text_at
    k2s.Aggregate.bind_subject k2s.Prelude.has k2s.Prelude.lookup k2s.Prelude.put
    k2s.Types.same_role k2s.Value.truthy k2s.Value.get k2s.Value.has_field k2s.Value.is_dict
    k2s.Types.sensitivity_of k2s.Host.to_str k2s.Value.require Store.invalidate k2s.Types.verify
    k2s.Host.content_hash k2s.Aggregate.delete_evidence k2s.Aggregate.mark claim_outbox
    Store.claim_rows Store.claim_row Store.outbox_record Store.update Store.order_rows
    Store.insert_row Store.row_le Store.event_at Store.snapshot_at k2s.Types.verify_snapshot
    save_snapshot load_snapshot new_snapshot Store.keep_or_insert Store.row_to_snapshot Store.joined
    Store.descending Store.insert_descending Store.first Store.linked_to
loaded = refl

save_snapshot-IsLinked_example :
    IsLinked ⦃host = test_host⦄ snapshot db.events
    × (verify_snapshot ⦃host = test_host⦄ saved.0 ≡ ok tt)
    × (saved.0.state_hash ≡ snapshot.state_hash)
    × (saved.1.events ≡ db.events)
save_snapshot-IsLinked_example =
    save_snapshot-IsLinked ⦃host = test_host⦄ snapshot saved.0 db saved.1 saved-ok

load_snapshot-IsLinked_example :
    IsLinked ⦃host = test_host⦄ saved.0 saved.1.events
    × (saved.0.twin_id ≡ "t1")
    × (up_to none saved.0.sequence ≡ true)
load_snapshot-IsLinked_example =
    load_snapshot-IsLinked ⦃host = test_host⦄ "t1" none saved.1 saved.0 loaded

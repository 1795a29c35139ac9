-- ===== src/Tests/Ledgers.antt =====
-- Two appends to an empty ledger, a retry, and a stale writer.
use k2s.Prelude.{
  ℕ, String, ◌≡◌, ◌≢◌, refl, Option, none, some, List, [], ◌∷◌, ◌++◌, true, false, All, arith, ◌↔◌,
}
use k2s.Errors.{Result, ok, err, concurrency_conflict}
use k2s.Host.{aware}
use k2s.Types.{EventEnvelope}
use k2s.Aggregate.{TwinState, empty_state, replay}
use k2s.Store.{
  Ledger, empty_ledger, whole_stream, load, verify_chain, twin_events, find_duplicate, head,
}
use k2s.Store as Store
use k2s.Store.Chain.{IsChained, Chained}
use k2s.Store.Stream.{IsAware, load-IsChained, verify_chain_iff, limited, in_range}
use k2s.Store.Appends.{append-IsChained, append-retry}
use k2s.Store.Races.{append-append_race}
use k2s.Service as Service
use k2s.Service.Replayable.{IsReplayable, rebuild-IsReplayable}
use k2s.Service.Kept.{append-IsReplayable}
use k2s.Tests.Data.{test_host, ingest_actor, evidence_event, deletion_event, returned}

empty-IsReplayable : IsReplayable ⦃host = test_host⦄ empty_ledger
unfolding twin_events k2s.Prelude.keep replay
empty-IsReplayable = record {
  chained = record { chained = λ t. tt };
  readable = λ t. tt;
  replayed = λ t. (empty_state t, refl);
}

abbrev pub first : EventEnvelope × Ledger
first =
    returned (evidence_event, empty_ledger)
      (Service.append ⦃host = test_host⦄ evidence_event ingest_actor 0 6 7 empty_ledger)

first-appended :
    Service.append ⦃host = test_host⦄ evidence_event ingest_actor 0 6 7 empty_ledger ≡ ok first
unfolding Service.append Service.preview Service.rebuild Store.append Store.append_new
    Store.resolve_duplicate Store.find_duplicate k2s.Prelude.find_first Store.head Store.newest
    Store.later Store.twin_events k2s.Prelude.keep Store.insert_event k2s.Prelude.any
    Store.index_dependencies Store.edges_of k2s.Types.seal k2s.Aggregate.validate_event
    k2s.Aggregate.validate_envelope k2s.Aggregate.validate_payload k2s.Ownership.authorize
    k2s.Ownership.authorize_intent k2s.Ownership.authorize_subject Store.load Store.matches
    Store.order_by_sequence k2s.Errors.traverse Store.row_to_event k2s.Aggregate.replay
    k2s.Aggregate.apply k2s.Aggregate.transition k2s.Aggregate.ingest_evidence k2s.Aggregate.text_at
    k2s.Aggregate.bind_subject k2s.Prelude.has k2s.Prelude.lookup k2s.Prelude.put
    k2s.Types.same_role k2s.Value.has_field k2s.Value.truthy k2s.Value.get k2s.Value.is_dict
    k2s.Types.sensitivity_of k2s.Host.to_str k2s.Value.require
first-appended = refl

pub first-IsReplayable : IsReplayable ⦃host = test_host⦄ first.1
first-IsReplayable =
    append-IsReplayable ⦃host = test_host⦄ evidence_event ingest_actor 0 6 7 empty_ledger
      empty-IsReplayable first-appended

abbrev pub second : EventEnvelope × Ledger
second =
    returned (deletion_event, first.1)
      (Service.append ⦃host = test_host⦄ deletion_event ingest_actor 1 8 9 first.1)

second-appended :
    Service.append ⦃host = test_host⦄ deletion_event ingest_actor 1 8 9 first.1 ≡ ok second
unfolding Service.append Service.preview Service.rebuild Store.append Store.append_new
    Store.resolve_duplicate Store.find_duplicate k2s.Prelude.find_first Store.head Store.newest
    Store.later Store.twin_events k2s.Prelude.keep Store.insert_event k2s.Prelude.any
    Store.index_dependencies Store.edges_of k2s.Types.seal k2s.Aggregate.validate_event
    k2s.Aggregate.validate_envelope k2s.Aggregate.validate_payload k2s.Ownership.authorize
    k2s.Ownership.authorize_intent k2s.Ownership.authorize_subject Store.load Store.matches
    Store.order_by_sequence k2s.Errors.traverse Store.row_to_event k2s.Aggregate.replay
    k2s.Aggregate.apply k2s.Aggregate.transition k2s.Aggregate.ingest_evidence k2s.Aggregate.text_at
    k2s.Aggregate.bind_subject k2s.Prelude.has k2s.Prelude.lookup k2s.Prelude.put
    k2s.Types.same_role k2s.Value.truthy k2s.Value.get k2s.Value.has_field k2s.Value.is_dict
    k2s.Types.sensitivity_of k2s.Host.to_str k2s.Value.require Store.invalidate k2s.Types.verify
    k2s.Host.content_hash k2s.Aggregate.delete_evidence k2s.Aggregate.mark
second-appended = refl

pub second-IsReplayable : IsReplayable ⦃host = test_host⦄ second.1
second-IsReplayable =
    append-IsReplayable ⦃host = test_host⦄ deletion_event ingest_actor 1 8 9 first.1
      first-IsReplayable second-appended

append-IsReplayable_example : IsReplayable ⦃host = test_host⦄ second.1
append-IsReplayable_example =
    append-IsReplayable ⦃host = test_host⦄ deletion_event ingest_actor 1 8 9 first.1
      first-IsReplayable second-appended

second-stored : Store.append ⦃host = test_host⦄ deletion_event 1 9 first.1 ≡ ok second
unfolding Service.append Service.preview Service.rebuild Store.append Store.append_new
    Store.resolve_duplicate Store.find_duplicate k2s.Prelude.find_first Store.head Store.newest
    Store.later Store.twin_events k2s.Prelude.keep Store.insert_event k2s.Prelude.any
    Store.index_dependencies Store.edges_of k2s.Types.seal k2s.Aggregate.validate_event
    k2s.Aggregate.validate_envelope k2s.Aggregate.validate_payload k2s.Ownership.authorize
    k2s.Ownership.authorize_intent k2s.Ownership.authorize_subject Store.load Store.matches
    Store.order_by_sequence k2s.Errors.traverse Store.row_to_event k2s.Aggregate.replay
    k2s.Aggregate.apply k2s.Aggregate.transition k2s.Aggregate.ingest_evidence k2s.Aggregate.text_at
    k2s.Aggregate.bind_subject k2s.Prelude.has k2s.Prelude.lookup k2s.Prelude.put
    k2s.Types.same_role k2s.Value.truthy k2s.Value.get k2s.Value.has_field k2s.Value.is_dict
    k2s.Types.sensitivity_of k2s.Host.to_str k2s.Value.require Store.invalidate k2s.Types.verify
    k2s.Host.content_hash k2s.Aggregate.delete_evidence k2s.Aggregate.mark
second-stored = refl

append-IsChained_example : IsChained ⦃host = test_host⦄ second.1
append-IsChained_example =
    append-IsChained ⦃host = test_host⦄ deletion_event 1 9 first.1 first-IsReplayable.chained
      second-stored

first-stored : Store.append ⦃host = test_host⦄ evidence_event 0 7 empty_ledger ≡ ok first
unfolding Service.append Service.preview Service.rebuild Store.append Store.append_new
    Store.resolve_duplicate Store.find_duplicate k2s.Prelude.find_first Store.head Store.newest
    Store.later Store.twin_events k2s.Prelude.keep Store.insert_event k2s.Prelude.any
    Store.index_dependencies Store.edges_of k2s.Types.seal k2s.Aggregate.validate_event
    k2s.Aggregate.validate_envelope k2s.Aggregate.validate_payload k2s.Ownership.authorize
    k2s.Ownership.authorize_intent k2s.Ownership.authorize_subject Store.load Store.matches
    Store.order_by_sequence k2s.Errors.traverse Store.row_to_event k2s.Aggregate.replay
    k2s.Aggregate.apply k2s.Aggregate.transition k2s.Aggregate.ingest_evidence k2s.Aggregate.text_at
    k2s.Aggregate.bind_subject k2s.Prelude.has k2s.Prelude.lookup k2s.Prelude.put
    k2s.Types.same_role k2s.Value.truthy k2s.Value.get k2s.Value.has_field k2s.Value.is_dict
    k2s.Types.sensitivity_of k2s.Host.to_str k2s.Value.require Store.invalidate k2s.Types.verify
    k2s.Host.content_hash k2s.Aggregate.delete_evidence k2s.Aggregate.mark
first-stored = refl

second-grew : second.1.events ≡ first.1.events ++ second.0 ∷ []
unfolding Service.append Service.preview Service.rebuild Store.append Store.append_new
    Store.resolve_duplicate Store.find_duplicate k2s.Prelude.find_first Store.head Store.newest
    Store.later Store.twin_events k2s.Prelude.keep Store.insert_event k2s.Prelude.any
    Store.index_dependencies Store.edges_of k2s.Types.seal k2s.Aggregate.validate_event
    k2s.Aggregate.validate_envelope k2s.Aggregate.validate_payload k2s.Ownership.authorize
    k2s.Ownership.authorize_intent k2s.Ownership.authorize_subject Store.load Store.matches
    Store.order_by_sequence k2s.Errors.traverse Store.row_to_event k2s.Aggregate.replay
    k2s.Aggregate.apply k2s.Aggregate.transition k2s.Aggregate.ingest_evidence k2s.Aggregate.text_at
    k2s.Aggregate.bind_subject k2s.Prelude.has k2s.Prelude.lookup k2s.Prelude.put
    k2s.Types.same_role k2s.Value.truthy k2s.Value.get k2s.Value.has_field k2s.Value.is_dict
    k2s.Types.sensitivity_of k2s.Host.to_str k2s.Value.require Store.invalidate k2s.Types.verify
    k2s.Host.content_hash k2s.Aggregate.delete_evidence k2s.Aggregate.mark
second-grew = refl

-- The first writer tries again after the second event.
append-retry_example :
    Store.append ⦃host = test_host⦄ evidence_event 5 20 second.1 ≡ ok (first.0, second.1)
append-retry_example =
    append-retry ⦃host = test_host⦄ evidence_event 0 7 5 20 5 empty_ledger second.1 (second.0 ∷ [])
      refl first-stored second-grew

abbrev rival : EventEnvelope
rival = record evidence_event { idempotency_key = "k9" }

rival-new : find_duplicate rival second.1.events ≡ none
unfolding Service.append Service.preview Service.rebuild Store.append Store.append_new
    Store.resolve_duplicate Store.find_duplicate k2s.Prelude.find_first Store.head Store.newest
    Store.later Store.twin_events k2s.Prelude.keep Store.insert_event k2s.Prelude.any
    Store.index_dependencies Store.edges_of k2s.Types.seal k2s.Aggregate.validate_event
    k2s.Aggregate.validate_envelope k2s.Aggregate.validate_payload k2s.Ownership.authorize
    k2s.Ownership.authorize_intent k2s.Ownership.authorize_subject Store.load Store.matches
    Store.order_by_sequence k2s.Errors.traverse Store.row_to_event k2s.Aggregate.replay
    k2s.Aggregate.apply k2s.Aggregate.transition k2s.Aggregate.ingest_evidence k2s.Aggregate.text_at
    k2s.Aggregate.bind_subject k2s.Prelude.has k2s.Prelude.lookup k2s.Prelude.put
    k2s.Types.same_role k2s.Value.truthy k2s.Value.get k2s.Value.has_field k2s.Value.is_dict
    k2s.Types.sensitivity_of k2s.Host.to_str k2s.Value.require Store.invalidate k2s.Types.verify
    k2s.Host.content_hash k2s.Aggregate.delete_evidence k2s.Aggregate.mark
rival-new = refl

first-new : find_duplicate evidence_event empty_ledger.events ≡ none
unfolding find_duplicate k2s.Prelude.find_first
first-new = refl

-- A third writer still expects the sequence that the first has used.
append-append_race_example :
    Store.append ⦃host = test_host⦄ rival 0 20 second.1 ≡ err concurrency_conflict
append-append_race_example =
    append-append_race ⦃host = test_host⦄ evidence_event rival 0 0 7 20 empty_ledger second.1
      (second.0 ∷ []) first-new first-stored second-grew refl (omega arith) refl refl rival-new

pub second-IsAware : All IsAware (twin_events "t1" second.1.events)
unfolding Service.append Service.preview Service.rebuild Store.append Store.append_new
    Store.resolve_duplicate Store.find_duplicate k2s.Prelude.find_first Store.head Store.newest
    Store.later Store.twin_events k2s.Prelude.keep Store.insert_event k2s.Prelude.any
    Store.index_dependencies Store.edges_of k2s.Types.seal k2s.Aggregate.validate_event
    k2s.Aggregate.validate_envelope k2s.Aggregate.validate_payload k2s.Ownership.authorize
    k2s.Ownership.authorize_intent k2s.Ownership.authorize_subject Store.load Store.matches
    Store.order_by_sequence k2s.Errors.traverse Store.row_to_event k2s.Aggregate.replay
    k2s.Aggregate.apply k2s.Aggregate.transition k2s.Aggregate.ingest_evidence k2s.Aggregate.text_at
    k2s.Aggregate.bind_subject k2s.Prelude.has k2s.Prelude.lookup k2s.Prelude.put
    k2s.Types.same_role k2s.Value.truthy k2s.Value.get k2s.Value.has_field k2s.Value.is_dict
    k2s.Types.sensitivity_of k2s.Host.to_str k2s.Value.require Store.invalidate k2s.Types.verify
    k2s.Host.content_hash k2s.Aggregate.delete_evidence k2s.Aggregate.mark
second-IsAware = ((5, refl), ((5, refl), tt))

load-IsChained_example :
    load "t1" whole_stream second.1
    ≡ ok
        (limited none (k2s.Prelude.keep (in_range whole_stream) (twin_events "t1" second.1.events)))
load-IsChained_example =
    load-IsChained ⦃host = test_host⦄ second.1 "t1" whole_stream second-IsReplayable.chained
      second-IsAware

verify_chain_iff_example : (verify_chain ⦃host = test_host⦄ "t1" second.1 ≡ ok true) ↔ (
    (es : List EventEnvelope) × (load "t1" whole_stream second.1 ≡ ok es)
    × Chained ⦃host = test_host⦄ 0 "" es)
verify_chain_iff_example = verify_chain_iff ⦃host = test_host⦄ second.1 "t1"

rebuild-IsReplayable_example :
    (s : TwinState) × (Service.rebuild ⦃host = test_host⦄ "t1" none none second.1 ≡ ok s)
    × (replay ⦃host = test_host⦄ none (empty_state "t1") "" (twin_events "t1" second.1.events)
        ≡ ok s)
    × ((s.sequence, s.last_event_hash) ≡ head second.1 "t1")
rebuild-IsReplayable_example =
    rebuild-IsReplayable ⦃host = test_host⦄ second.1 "t1" second-IsReplayable

-- ===== src/Tests/Streams.antt =====
-- A subscription that replays two events of a ledger, and acknowledges one.
use k2s.Prelude.{ℕ, String, ◌≡◌, refl, Option, none, some, List, [], ◌∷◌, true, false, All, arith}
use k2s.Errors.{Result, ok, err}
use k2s.Host.{Host}
use k2s.Value.{obj, str}
use k2s.Sync.Cursor.{sorted_material}
use k2s.Types.{EventEnvelope, authoritative}
use k2s.Store.{Ledger, empty_ledger}
use k2s.Store as Store
use k2s.Sync.Position.{StreamPosition}
use k2s.Sync.Limits.{default_limits}
use k2s.Sync.Broker.{new_subscription}
use k2s.Sync.Durable.{Durable, no_metrics, anext, open_at, acknowledge}
use k2s.Sync.Durable.Chain.{answer, ReadsOn, anext-ReadsOn}
use k2s.Sync.Durable.Settled.{Settles, anext-Settles}
use k2s.Sync.Durable.Window.{Acknowledges, acknowledge-Acknowledges}
use k2s.Tests.Data.{test_host, evidence_event, deletion_event, returned}

abbrev pub second_place : StreamPosition
second_place = record {
  twin_id = "t1";
  sequence = 2;
  event_hash = "sha256:0123456789abcdef0123456789abcdef0123456789abcdef0123456789abcdef";
}

-- Every digest is the same one, of 64 hexadecimal digits; a MAC is the key; and every text of JSON
-- is that of a cursor of the second event.
abbrev pub stream_host : Host
stream_host = record test_host {
  sha256_hex = λ s. "0123456789abcdef0123456789abcdef0123456789abcdef0123456789abcdef";
  hmac_sha256 = λ key message. key;
  json_loads =
      λ bytes. some (obj (sorted_material second_place "BwgJ" (str "2026-01-01T00:00:00Z")));
}

abbrev pub first : EventEnvelope × Ledger
first =
    returned (evidence_event, empty_ledger)
      (Store.append ⦃host = stream_host⦄ evidence_event 0 9 empty_ledger)

abbrev pub second : EventEnvelope × Ledger
second =
    returned (deletion_event, first.1)
      (Store.append ⦃host = stream_host⦄ deletion_event 1 10 first.1)

abbrev origin : StreamPosition
origin = record { twin_id = "t1"; sequence = 0; event_hash = "" }

abbrev pub start : Durable
start = record {
  live = new_subscription "t1" 0 10;
  position = origin;
  acknowledged = origin;
  replay_head = 2;
  limits = default_limits;
  event_types = "EvidenceDeleted" ∷ [];
  planes = [];
  metrics = no_metrics;
  replay_buffer = [];
  outstanding = [];
  deferred_live = none;
  closed = false;
}

start-opened : open_at second.1 10 origin default_limits ("EvidenceDeleted" ∷ []) [] ≡ ok start
unfolding open_at Store.head Store.newest Store.twin_events k2s.Prelude.keep Store.append
    Store.find_duplicate k2s.Prelude.find_first Store.append_new Store.insert_event k2s.Prelude.any
    Store.index_dependencies Store.edges_of k2s.Types.seal Store.invalidate k2s.Host.to_str
    k2s.Value.get_default k2s.Sync.Durable.check_stored
start-opened = refl

-- The first event is passed over, and the second one handed over.
start-answered : answer (anext ⦃host = stream_host⦄ second.1 start).0 ≡ second.0 ∷ []
unfolding anext k2s.Sync.Durable.deliver k2s.Sync.Durable.after_candidate
    k2s.Sync.Durable.next_candidate new_subscription k2s.Sync.Durable.use_buffer
    k2s.Sync.Durable.use_behind k2s.Sync.Durable.use_page Store.load k2s.Errors.traverse
    Store.order_by_sequence k2s.Prelude.keep Store.append Store.find_duplicate
    k2s.Prelude.find_first Store.append_new Store.head Store.newest Store.twin_events
    Store.insert_event k2s.Prelude.any Store.index_dependencies Store.edges_of k2s.Types.seal
    Store.invalidate k2s.Host.to_str k2s.Value.get_default Store.matches Store.row_to_event
    k2s.Sync.Durable.advanced k2s.Sync.Durable.advance_verified k2s.Sync.Durable.is_next
    k2s.Sync.Durable.advance_checked k2s.Types.verify k2s.Host.content_hash k2s.Sync.Durable.move_to
    k2s.Sync.Position.new_position k2s.Sync.Text.is_hash k2s.Sync.Text.after_prefix
    k2s.Sync.Text.all_codes k2s.Sync.Text.size k2s.Sync.Durable.use_candidate
    k2s.Sync.Durable.admitted k2s.Sync.Durable.has_type k2s.Prelude.contains k2s.Types.type_name
    k2s.Sync.Durable.advance_ack k2s.Sync.Durable.advance_ack_if k2s.Sync.Durable.has_plane
    k2s.Sync.Durable.hand_over
start-answered = refl

anext-ReadsOn_example :
    ReadsOn ⦃host = stream_host⦄ start (anext ⦃host = stream_host⦄ second.1 start)
anext-ReadsOn_example = anext-ReadsOn ⦃host = stream_host⦄ second.1 start

anext-Settles_example : Settles (anext ⦃host = stream_host⦄ second.1 start)
anext-Settles_example = anext-Settles ⦃host = stream_host⦄ second.1 start tt

abbrev place : ℕ → String → StreamPosition
place sequence event_hash = record { twin_id = "t1"; sequence = sequence; event_hash = event_hash }

abbrev window : List StreamPosition → StreamPosition → Durable
window outstanding acknowledged = record start {
  position = place 7 "h7";
  acknowledged = acknowledged;
  outstanding = outstanding;
}

abbrev delivered_three : Durable
delivered_three = window (place 4 "h4" ∷ place 5 "h5" ∷ place 7 "h7" ∷ []) (place 2 "h2")

abbrev acknowledged_two : Durable
acknowledged_two = window (place 7 "h7" ∷ []) (place 5 "h5")

acknowledged : acknowledge (place 5 "h5") delivered_three ≡ ok (place 5 "h5", acknowledged_two)
unfolding acknowledge k2s.Sync.Durable.acknowledge_new k2s.Prelude.find_first
    k2s.Sync.Durable.drop_until
acknowledged = refl

acknowledge-Acknowledges_example :
    Acknowledges (place 5 "h5") (place 5 "h5") delivered_three acknowledged_two
acknowledge-Acknowledges_example =
    acknowledge-Acknowledges (place 5 "h5") (place 5 "h5") delivered_three acknowledged_two
      (record {
        ascending = (omega arith, (omega arith, (omega arith, omega arith)));
        bounded = omega arith;
      })
      acknowledged

-- ===== src/Tests/Sessions.antt =====
-- A session whose client acknowledges a frame, and a stream that resumes from its token.
use k2s.Prelude.{ℕ, String, ◌≡◌, refl, Option, none, some, List, [], ◌∷◌, true, false, pos, arith}
use k2s.Errors.{Result, ok, err}
use k2s.Types.{ActorContext, operations_service}
use k2s.Store.{Ledger}
use k2s.Store as Store
use k2s.Sync.Position.{StreamPosition}
use k2s.Sync.Cursor.{CursorSigner, DecodedCursor, issue}
use k2s.Sync.KeyRing.{KeyRing}
use k2s.Sync.Limits.{default_limits}
use k2s.Sync.Frames.{StateChangeFrame}
use k2s.Sync.Durable.{Durable, anext}
use k2s.Sync.Durable.Window.{IsWindowed}
use k2s.Sync.Session.{
  CursorCodec, ring_codec, next_frame, sent, acknowledge_token, count_acknowledgement, Sent,
}
use k2s.Sync.Session.Echo.{Echoes, settled, next_frame-acknowledge_token}
use k2s.Service.Streams.{StreamConfig, check_reader, open_state_stream}
use k2s.Service.Streams.Resumed.{Resumes, open_state_stream-Resumes}
use k2s.Tests.Data.{returned}
use k2s.Tests.Streams.{stream_host, second, second_place, start}

abbrev ring : KeyRing
ring =
    let signer : CursorSigner = record {
      key = 7 ∷ 8 ∷ 9 ∷ [];
      key_id = "k7";
      max_age = some 100;
      allowed_clock_skew = 2;
    } in
    record { active = signer; verification_order = signer ∷ [] }

abbrev codec : CursorCodec
codec = ring_codec ⦃host = stream_host⦄ ring

abbrev answered : Sent × Durable
answered = next_frame ⦃host = stream_host⦄ codec 5 second.1 start

abbrev frame_of : Sent → Option StateChangeFrame
frame_of (sent f) = some f
frame_of _ = none

abbrev frame : StateChangeFrame
frame = record {
  twin_id = "t1";
  sequence = 2;
  event_type = "EvidenceDeleted";
  plane = "authoritative";
  occurred_at = "2026-01-01T00:00:00Z";
  recorded_at = "2026-01-01T00:00:00Z";
  resume_token = codec.issue second_place 5;
}

frame-sent : next_frame ⦃host = stream_host⦄ codec 5 second.1 start ≡ (sent frame, answered.1)
unfolding next_frame k2s.Sync.Session.after_event k2s.Sync.Session.framed k2s.Sync.Durable.anext
    k2s.Sync.Durable.deliver k2s.Sync.Durable.after_candidate k2s.Sync.Durable.next_candidate
    k2s.Sync.Broker.new_subscription k2s.Sync.Durable.use_buffer k2s.Sync.Durable.use_behind
    k2s.Sync.Durable.use_page Store.load k2s.Errors.traverse Store.order_by_sequence
    k2s.Prelude.keep Store.append Store.find_duplicate k2s.Prelude.find_first Store.append_new
    Store.head Store.newest Store.twin_events Store.insert_event k2s.Prelude.any
    Store.index_dependencies Store.edges_of k2s.Types.seal Store.invalidate k2s.Host.to_str
    k2s.Value.get_default Store.matches Store.row_to_event k2s.Sync.Durable.advanced
    k2s.Sync.Durable.advance_verified k2s.Sync.Durable.is_next k2s.Sync.Durable.advance_checked
    k2s.Types.verify k2s.Host.content_hash k2s.Sync.Durable.move_to k2s.Sync.Position.new_position
    k2s.Sync.Text.is_hash k2s.Sync.Text.after_prefix k2s.Sync.Text.all_codes k2s.Sync.Text.size
    k2s.Sync.Durable.use_candidate k2s.Sync.Durable.admitted k2s.Sync.Durable.has_type
    k2s.Prelude.contains k2s.Types.type_name k2s.Sync.Durable.advance_ack
    k2s.Sync.Durable.advance_ack_if k2s.Sync.Durable.has_plane k2s.Sync.Durable.hand_over
    k2s.Sync.Frames.from_event k2s.Sync.Frames.instant_text
frame-sent = refl

abbrev cursor : DecodedCursor
cursor = record {
  twin_id = "t1";
  sequence = pos 2;
  chain_tag = "BwgJ";
  issued_at = 5;
  signing_key_id = "k7";
}

echo : Echoes codec answered.1.position 5 6
unfolding next_frame k2s.Sync.Session.after_event k2s.Sync.Session.framed k2s.Sync.Durable.anext
    k2s.Sync.Durable.deliver k2s.Sync.Durable.after_candidate k2s.Sync.Durable.next_candidate
    k2s.Sync.Broker.new_subscription k2s.Sync.Durable.use_buffer k2s.Sync.Durable.use_behind
    k2s.Sync.Durable.use_page Store.load k2s.Errors.traverse Store.order_by_sequence
    k2s.Prelude.keep Store.append Store.find_duplicate k2s.Prelude.find_first Store.append_new
    Store.head Store.newest Store.twin_events Store.insert_event k2s.Prelude.any
    Store.index_dependencies Store.edges_of k2s.Types.seal Store.invalidate k2s.Host.to_str
    k2s.Value.get_default Store.matches Store.row_to_event k2s.Sync.Durable.advanced
    k2s.Sync.Durable.advance_verified k2s.Sync.Durable.is_next k2s.Sync.Durable.advance_checked
    k2s.Types.verify k2s.Host.content_hash k2s.Sync.Durable.move_to k2s.Sync.Position.new_position
    k2s.Sync.Text.is_hash k2s.Sync.Text.after_prefix k2s.Sync.Text.all_codes k2s.Sync.Text.size
    k2s.Sync.Durable.use_candidate k2s.Sync.Durable.admitted k2s.Sync.Durable.has_type
    k2s.Prelude.contains k2s.Types.type_name k2s.Sync.Durable.advance_ack
    k2s.Sync.Durable.advance_ack_if k2s.Sync.Durable.has_plane k2s.Sync.Durable.hand_over
    k2s.Sync.Cursor.matches_signature k2s.Sync.Cursor.signed_by k2s.Sync.Cursor.token_bytes
    k2s.Sync.Cursor.two_parts k2s.Sync.Text.split_dots issue k2s.Sync.Base64.b64url_encode
    k2s.Sync.Base64.rstrip_equals k2s.Sync.Base64.urlsafe_b64encode k2s.Sync.Cursor.cursor_payload
    k2s.Sync.Utf8.utf8 k2s.Host.canonical_json k2s.Sync.Base64.digit k2s.Sync.Base64.b64url_decode
    k2s.Sync.Base64.b64decode k2s.Sync.Base64.padding k2s.Sync.Base64.digit_value
    k2s.Sync.Base64.equals_signs k2s.Sync.Base64.one_byte k2s.Sync.Base64.three_bytes
    k2s.Sync.Base64.two_bytes k2s.Sync.Cursor.chain_material k2s.Sync.Cursor.chain_tag
    k2s.Sync.Cursor.cursor_material k2s.Sync.Cursor.same_bytes k2s.Sync.Utf8.utf8_bytes
    k2s.Sync.KeyRing.verify_ring k2s.Sync.KeyRing.verify_by k2s.Sync.Cursor.verify_cursor
    k2s.Sync.Cursor.as_object k2s.Sync.Cursor.check_header k2s.Sync.Cursor.has_expected_keys
    k2s.Prelude.is_subset k2s.Prelude.all k2s.Value.field_names k2s.Sync.Cursor.sorted_material
    k2s.Value.require k2s.Value.same k2s.Sync.Cursor.read_material k2s.Sync.Cursor.as_int
    k2s.Sync.Cursor.as_text k2s.Host.parse_time k2s.Sync.Cursor.check_window
    k2s.Sync.KeyRing.bind_ring k2s.Sync.KeyRing.bind_by k2s.Sync.Cursor.verify_chain_binding
    k2s.Sync.Cursor.compare_digest
echo = record { cursor = cursor; verified = refl; sequence = refl; bound = refl }

start-IsWindowed : IsWindowed start
start-IsWindowed = record { ascending = omega arith; bounded = omega arith }

next_frame-acknowledge_token_example :
    (frame.twin_id ≡ answered.1.position.twin_id)
    × (frame.sequence ≡ answered.1.position.sequence)
    × (acknowledge_token ⦃host = stream_host⦄ codec frame.resume_token 6 answered.1
        ≡ ok (answered.1.position, count_acknowledgement (settled answered.1)))
next_frame-acknowledge_token_example =
    next_frame-acknowledge_token ⦃host = stream_host⦄ codec 5 second.1 start answered.1 frame 6
      start-IsWindowed frame-sent echo

abbrev service : StreamConfig
service = record { sync_limits = default_limits; queue_capacity = 10; cursor_signer = some codec }

abbrev reader : ActorContext
reader = record { identity_id = "ops-1"; roles = operations_service ∷ []; subject_id = none }

abbrev resumed : Durable
resumed = returned start (
    open_state_stream ⦃host = stream_host⦄ service "t1" reader (some frame.resume_token) [] false
      none 6 second.1)

resumed-opened :
    open_state_stream ⦃host = stream_host⦄ service "t1" reader
      (some frame.resume_token)
      []
      false
      none
      6
      second.1
    ≡ ok resumed
unfolding open_state_stream next_frame k2s.Sync.Session.after_event k2s.Sync.Session.framed
    k2s.Sync.Durable.anext k2s.Sync.Durable.deliver k2s.Sync.Durable.after_candidate
    k2s.Sync.Durable.next_candidate k2s.Sync.Broker.new_subscription k2s.Sync.Durable.use_buffer
    k2s.Sync.Durable.use_behind k2s.Sync.Durable.use_page Store.load k2s.Errors.traverse
    Store.order_by_sequence k2s.Prelude.keep Store.append Store.find_duplicate
    k2s.Prelude.find_first Store.append_new Store.head Store.newest Store.twin_events
    Store.insert_event k2s.Prelude.any Store.index_dependencies Store.edges_of k2s.Types.seal
    Store.invalidate k2s.Host.to_str k2s.Value.get_default Store.matches Store.row_to_event
    k2s.Sync.Durable.advanced k2s.Sync.Durable.advance_verified k2s.Sync.Durable.is_next
    k2s.Sync.Durable.advance_checked k2s.Types.verify k2s.Host.content_hash k2s.Sync.Durable.move_to
    k2s.Sync.Position.new_position k2s.Sync.Text.is_hash k2s.Sync.Text.after_prefix
    k2s.Sync.Text.all_codes k2s.Sync.Text.size k2s.Sync.Durable.use_candidate
    k2s.Sync.Durable.admitted k2s.Sync.Durable.has_type k2s.Prelude.contains k2s.Types.type_name
    k2s.Sync.Durable.advance_ack k2s.Sync.Durable.advance_ack_if k2s.Sync.Durable.has_plane
    k2s.Sync.Durable.hand_over k2s.Sync.Cursor.matches_signature k2s.Sync.Cursor.signed_by
    k2s.Sync.Cursor.token_bytes k2s.Sync.Cursor.two_parts k2s.Sync.Text.split_dots issue
    k2s.Sync.Base64.b64url_encode k2s.Sync.Base64.rstrip_equals k2s.Sync.Base64.urlsafe_b64encode
    k2s.Sync.Cursor.cursor_payload k2s.Sync.Utf8.utf8 k2s.Host.canonical_json k2s.Sync.Base64.digit
    k2s.Sync.Base64.b64url_decode k2s.Sync.Base64.b64decode k2s.Sync.Base64.padding
    k2s.Sync.Base64.digit_value k2s.Sync.Base64.equals_signs k2s.Sync.Base64.one_byte
    k2s.Sync.Base64.three_bytes k2s.Sync.Base64.two_bytes k2s.Sync.Cursor.chain_material
    k2s.Sync.Cursor.chain_tag k2s.Sync.Cursor.cursor_material k2s.Sync.Cursor.same_bytes
    k2s.Sync.Utf8.utf8_bytes k2s.Sync.KeyRing.verify_ring k2s.Sync.KeyRing.verify_by
    k2s.Sync.Cursor.verify_cursor k2s.Sync.Cursor.as_object k2s.Sync.Cursor.check_header
    k2s.Sync.Cursor.has_expected_keys k2s.Prelude.is_subset k2s.Prelude.all k2s.Value.field_names
    k2s.Sync.Cursor.sorted_material k2s.Value.require k2s.Value.same k2s.Sync.Cursor.read_material
    k2s.Sync.Cursor.as_int k2s.Sync.Cursor.as_text k2s.Host.parse_time k2s.Sync.Cursor.check_window
    k2s.Sync.KeyRing.bind_ring k2s.Sync.KeyRing.bind_by k2s.Sync.Cursor.verify_chain_binding
    k2s.Sync.Cursor.compare_digest check_reader k2s.Types.same_role k2s.Service.Streams.resume_at
    k2s.Service.Streams.stream_position k2s.Service.Streams.stored_position
    k2s.Service.Streams.position_at k2s.Sync.Limits.negotiate k2s.Sync.Durable.open_at
    k2s.Sync.Durable.check_stored k2s.Sync.Durable.check_start
resumed-opened = refl

open_state_stream-Resumes_example :
    (check_reader ⦃host = stream_host⦄ reader.subject_id "t1" reader second.1 ≡ ok tt)
    × Resumes ⦃host = stream_host⦄ ring second.1 "t1" frame.resume_token 6 resumed
open_state_stream-Resumes_example =
    open_state_stream-Resumes ⦃host = stream_host⦄ service ring "t1" reader frame.resume_token []
      false none 6 second.1 resumed refl resumed-opened

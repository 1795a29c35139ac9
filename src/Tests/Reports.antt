-- ===== src/Tests/Reports.antt =====
-- Frames, acknowledgements and counters as a session reports them.
use k2s.Prelude.{String, ◌≡◌, refl, Option, none, some, true, false, List, [], ◌∷◌, ℤ, pos}
use k2s.Errors.{ok, err, protocol_violation}
use k2s.Value.{int, str, end, field}
use k2s.Sync.Frames.{
  HeartbeatFrame, CloseFrame, StateChangeFrame, frame_dict, heartbeat_dict, close_dict,
}
use k2s.Sync.Session.{CursorCodec, heartbeat, close_session, count_heartbeat}
use k2s.Sync.Telemetry.{
  TelemetryRecordAck, TelemetryRecordStatus, committed, rejected, new_record_ack, new_stream_ack,
  metrics_snapshot,
}
use k2s.Tests.Streams.{stream_host, start}

abbrev accepted : TelemetryRecordAck
accepted = record {
  record_index = pos 0;
  source_record_id = "r1";
  status = committed;
  event_id = some "id1";
  sequence = some (pos 1);
  error_code = none;
  retryable = false;
}

accepted_ack : new_record_ack accepted ≡ ok accepted
unfolding new_record_ack k2s.Sync.Telemetry.check_status
accepted_ack = refl

-- A record that was rejected needs an error code.
silent_ack : new_record_ack (record accepted { status = rejected }) ≡ err protocol_violation
unfolding new_record_ack k2s.Sync.Telemetry.check_status
silent_ack = refl

-- Two acknowledgements of one record are refused.
repeated_ack :
    new_stream_ack (record {
      twin_id = "t1";
      idempotency_key = "k1";
      committed_sequence = pos 1;
      records = accepted ∷ accepted ∷ [];
      resume_token = "token";
    })
    ≡ err protocol_violation
unfolding new_stream_ack k2s.Sync.Telemetry.distinct_indices k2s.Prelude.any
repeated_ack = refl

abbrev codec : CursorCodec
codec = record {
  issue = λ position now. "token";
  verify = λ token twin_id now. err protocol_violation;
  verify_chain_binding = λ cursor position. ok position;
}

beat :
    heartbeat_dict (heartbeat ⦃host = stream_host⦄ codec 5 6 start).0
    ≡ field "twin_id" (str "t1") (
        field "acknowledged_sequence" (int (pos 0)) (
          field "resume_token" (str "token") (
            field "sent_at" (str "2026-01-01T00:00:00Z") (
              field "type"
                (str "heartbeat")
                (field "schema_version" (str "argo.dt.state-stream/v1") end)))))
unfolding heartbeat heartbeat_dict
beat = refl

-- A code that is not one of a stream is refused, and the session stays open.
bad_code :
    close_session ⦃host = stream_host⦄ codec (pos 999) "normal" 5 start ≡ err protocol_violation
unfolding close_session k2s.Sync.Frames.new_close_frame
bad_code = refl

counters :
    metrics_snapshot (count_heartbeat start).metrics
    ≡ field "replayed_events" (int (pos 0)) (
        field "live_events" (int (pos 0)) (
          field "duplicate_events" (int (pos 0)) (
            field "emitted_frames" (int (pos 0)) (
              field "acknowledgements" (int (pos 0)) (
                field "heartbeats" (int (pos 1)) (
                  field "closed_streams" (int (pos 0)) (
                    field "integrity_failures"
                      (int (pos 0))
                      (field "backpressure_closes" (int (pos 0)) end))))))))
unfolding metrics_snapshot
counters = refl

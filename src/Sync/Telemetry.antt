-- ===== src/Sync/Telemetry.antt =====
-- The acknowledgements of telemetry of argo_dt/sync.py, and the counters as they are reported. A
-- status is one of the three that the enumeration has.
use k2s.Prelude.{
  String, Bool, true, not, ◌&&◌, ◌||◌, List, [], ◌∷◌, Option, none, some, ◌==◌, ℤ, pos, eqb_ℤ,
  ltb_ℤ, any, is_some,
}
use k2s.Errors.{Result, ok, reject_if, protocol_violation, ◌>>◌}
use k2s.Value.{int, Fields, end, field}
use k2s.Sync.Durable.{SyncMetrics}

pub data TelemetryRecordStatus : Type 0 where
  committed duplicate rejected : TelemetryRecordStatus

pub record TelemetryRecordAck : Type 0 where
  pub record_index : ℤ
  pub source_record_id : String
  pub status : TelemetryRecordStatus
  pub event_id : Option String
  pub sequence : Option ℤ
  pub error_code : Option String
  pub retryable : Bool

-- not value
abbrev lacks_text : Option String → Bool
lacks_text none = true
lacks_text (some s) = s == ""

abbrev lacks_position : Option ℤ → Bool
lacks_position none = true
lacks_position (some n) = ltb_ℤ n (pos 1)

check_committed : TelemetryRecordAck → Result TelemetryRecordAck
check_committed a = do
  reject_if (lacks_text a.event_id || lacks_position a.sequence) protocol_violation
  reject_if (is_some a.error_code) protocol_violation
  ok a

unfoldable pub check_status : TelemetryRecordStatus → TelemetryRecordAck → Result TelemetryRecordAck
unfolding check_committed
check_status committed a = check_committed a
check_status duplicate a = check_committed a
check_status rejected a = do reject_if (lacks_text a.error_code) protocol_violation; ok a

-- The constructor, whose `__post_init__` refuses.
unfoldable pub new_record_ack : TelemetryRecordAck → Result TelemetryRecordAck
new_record_ack a = do
  reject_if (ltb_ℤ a.record_index (pos 0) || a.source_record_id == "") protocol_violation
  check_status a.status a

pub record TelemetryStreamAck : Type 0 where
  pub twin_id : String
  pub idempotency_key : String
  pub committed_sequence : ℤ
  pub records : List TelemetryRecordAck
  pub resume_token : String

-- len(indices) == len(set(indices))
unfoldable pub distinct_indices : List TelemetryRecordAck → Bool
distinct_indices [] = true
distinct_indices (a ∷ rest) =
    not (any (λ b. eqb_ℤ a.record_index b.record_index) rest) && distinct_indices rest

unfoldable pub new_stream_ack : TelemetryStreamAck → Result TelemetryStreamAck
new_stream_ack a = do
  reject_if (a.twin_id == "" || a.idempotency_key == "" || a.resume_token == "") protocol_violation
  reject_if (ltb_ℤ a.committed_sequence (pos 0)) protocol_violation
  reject_if (not (distinct_indices a.records)) protocol_violation
  ok a

-- SyncMetrics.snapshot
unfoldable pub metrics_snapshot : SyncMetrics → Fields
metrics_snapshot m = field "replayed_events" (int (pos m.replayed_events)) (
    field "live_events" (int (pos m.live_events)) (
      field "duplicate_events" (int (pos m.duplicate_events)) (
        field "emitted_frames" (int (pos m.emitted_frames)) (
          field "acknowledgements" (int (pos m.acknowledgements)) (
            field "heartbeats" (int (pos m.heartbeats)) (
              field "closed_streams" (int (pos m.closed_streams)) (
                field "integrity_failures" (int (pos m.integrity_failures))
                  (field "backpressure_closes" (int (pos m.backpressure_closes)) end))))))))

-- ===== src/Sync/Frames.antt =====
-- The frames of a state stream of argo_dt/sync.py. `type` and `schema_version` are fixed.
use k2s.Prelude.{ℕ, String, ◌||◌, ◌==◌, ℤ, pos, ltb_ℤ, ltb}
use k2s.Errors.{Result, ok, reject_if, protocol_violation, ◌>>◌}
use k2s.Value.{int, str, Fields, end, field}
use k2s.Host.{Host, DateTime, aware, naive}
use k2s.Types.{EventEnvelope, plane_value, type_name}
use k2s.Sync.Text.{size}

abbrev pub stream_schema : String
stream_schema = "argo.dt.state-stream/v1"

pub record StateChangeFrame : Type 0 where
  pub twin_id : String
  pub sequence : ℕ
  pub event_type : String
  pub plane : String
  pub occurred_at : String
  pub recorded_at : String
  pub resume_token : String

pub record HeartbeatFrame : Type 0 where
  pub twin_id : String
  pub acknowledged_sequence : ℕ
  pub resume_token : String
  pub sent_at : String

pub record CloseFrame : Type 0 where
  pub twin_id : String
  pub close_code : ℤ
  pub reason : String
  pub acknowledged_sequence : ℕ
  pub resume_token : String

-- The constructor, whose `__post_init__` refuses.
unfoldable pub new_close_frame : CloseFrame → Result CloseFrame
new_close_frame f = do
  reject_if (ltb_ℤ f.close_code (pos 1000) || ltb_ℤ (pos 4999) f.close_code) protocol_violation
  reject_if (f.twin_id == "" || f.resume_token == "") protocol_violation
  reject_if (ltb 256 (size f.reason)) protocol_violation
  ok f

unfoldable pub frame_dict : StateChangeFrame → Fields
frame_dict f = field "twin_id" (str f.twin_id) (
    field "sequence" (int (pos f.sequence)) (
      field "event_type" (str f.event_type) (
        field "plane" (str f.plane) (
          field "occurred_at" (str f.occurred_at) (
            field "recorded_at" (str f.recorded_at) (
              field "resume_token" (str f.resume_token)
                (field "type" (str "event") (field "schema_version" (str stream_schema) end))))))))

unfoldable pub heartbeat_dict : HeartbeatFrame → Fields
heartbeat_dict f = field "twin_id" (str f.twin_id) (
    field "acknowledged_sequence" (int (pos f.acknowledged_sequence)) (
      field "resume_token" (str f.resume_token) (
        field "sent_at" (str f.sent_at)
          (field "type" (str "heartbeat") (field "schema_version" (str stream_schema) end)))))

unfoldable pub close_dict : CloseFrame → Fields
close_dict f = field "twin_id" (str f.twin_id) (
    field "code" (int f.close_code) (
      field "reason" (str f.reason) (
        field "acknowledged_sequence" (int (pos f.acknowledged_sequence)) (
          field "resume_token" (str f.resume_token)
            (field "type" (str "close") (field "schema_version" (str stream_schema) end))))))

module _ ⦃host : Host⦄ where
  -- str(to_primitive(value))
  unfoldable pub instant_text : DateTime → String
  instant_text (aware t) = host.isoformat_z t
  instant_text (naive t) = host.isoformat_z (host.local_time t)

  -- Of an event a frame tells its kind and its times, and nothing of its payload.
  unfoldable pub from_event : EventEnvelope → String → StateChangeFrame
  from_event e resume_token = record {
    twin_id = e.twin_id;
    sequence = e.sequence;
    event_type = type_name e.event_type;
    plane = plane_value e.plane;
    occurred_at = instant_text e.occurred_at;
    recorded_at = host.isoformat_z e.recorded_at;
    resume_token = resume_token;
  }

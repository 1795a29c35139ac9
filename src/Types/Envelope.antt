-- ===== src/Types/Envelope.antt =====
-- `EventEnvelope` of argo_dt/types.py: sealing and verification of one link of the hash chain.
use k2s.Prelude.{eqb, ◌||◌, ℕ, String, Option, none, some, ◌==◌, if◌then◌else◌, pos}
use k2s.Value.{Value, null, int, str, obj, Fields, end, field}
use k2s.Errors.{Result, ensure, reject_if, integrity_error, ◌>>◌}
use k2s.Host.{Host, DateTime, aware, naive, content_hash}
use k2s.Types.Enums.{EventPlane, ProducerRole, EventType, type_name, plane_value, role_value}

pub record EventEnvelope : Type 0 where
  pub event_id : String
  pub twin_id : String
  pub event_type : EventType
  pub plane : EventPlane
  pub payload : Fields
  pub occurred_at : DateTime
  pub recorded_at : ℕ
  pub producer : String
  pub producer_role : ProducerRole
  pub idempotency_key : String
  pub schema_version : String
  pub sequence : ℕ
  pub causation_id : Option String
  pub correlation_id : Option String
  pub previous_hash : String
  pub event_hash : String

abbrev pub event_v1 : String
event_v1 = "argo.dt.event/v1"

abbrev pub event_v2 : String
event_v2 = "argo.dt.event/v2"

optional : Option String → Value
optional none = null
optional (some s) = str s

module _ ⦃host : Host⦄ where
  -- to_primitive of a `datetime`
  time_text : DateTime → Value
  time_text (aware t) = str (host.isoformat_z t)
  time_text (naive t) = str (host.isoformat_z (host.local_time t))

  -- `event_hash` is left out, and `producer_role` for version 1.
  unfoldable pub hash_material : EventEnvelope → Value
  unfolding optional time_text
  hash_material e =
      let tail = field "idempotency_key" (str e.idempotency_key) (
        field "schema_version" (str e.schema_version) (
          field "sequence" (int (pos e.sequence)) (
            field "causation_id" (optional e.causation_id) (
              field "correlation_id" (optional e.correlation_id)
                (field "previous_hash" (str e.previous_hash) end))))) in
      let role =
        if e.schema_version == event_v1
        then tail
        else field "producer_role" (str (role_value e.producer_role)) tail in
      obj (
        field "event_id" (str e.event_id) (
          field "twin_id" (str e.twin_id) (
            field "event_type" (str (type_name e.event_type)) (
              field "plane" (str (plane_value e.plane)) (
                field "payload" (obj e.payload) (
                  field "occurred_at" (time_text e.occurred_at) (
                    field "recorded_at" (time_text (aware e.recorded_at))
                      (field "producer" (str e.producer) role))))))))

  unfoldable pub seal : EventEnvelope → ℕ → String → ℕ → EventEnvelope
  seal e sequence previous_hash recorded_at =
      let candidate = record e {
        sequence = sequence;
        previous_hash = previous_hash;
        recorded_at = recorded_at;
        event_hash = "";
      } in
      record candidate { event_hash = content_hash (hash_material candidate) }

  unfoldable pub verify : EventEnvelope → String → Result (Unit {0})
  verify e expected_previous_hash = do
    ensure (e.previous_hash == expected_previous_hash) integrity_error
    ensure (e.event_hash == content_hash (hash_material e)) integrity_error

-- `SnapshotRecord`, whose state is a JSON object.
pub record SnapshotRecord : Type 0 where
  pub twin_id : String
  pub sequence : ℕ
  pub last_event_hash : String
  pub state : Fields
  pub state_hash : String
  pub created_at : ℕ
  pub schema_version : String

abbrev pub snapshot_v1 : String
snapshot_v1 = "argo.dt.snapshot/v1"

module _ ⦃host : Host⦄ where
  unfoldable pub snapshot_material : String → String → ℕ → String → Fields → Value
  snapshot_material schema_version twin_id sequence last_event_hash state = obj (
      field "schema_version" (str schema_version) (
        field "twin_id" (str twin_id) (
          field "sequence" (int (pos sequence))
            (field "last_event_hash" (str last_event_hash) (field "state" (obj state) end)))))

  -- SnapshotRecord.new
  unfoldable pub new_snapshot : String → ℕ → String → Fields → ℕ → SnapshotRecord
  unfolding snapshot_material
  new_snapshot twin_id sequence last_event_hash state created_at = record {
    twin_id = twin_id;
    sequence = sequence;
    last_event_hash = last_event_hash;
    state = state;
    state_hash =
        content_hash (snapshot_material snapshot_v1 twin_id sequence last_event_hash state);
    created_at = created_at;
    schema_version = snapshot_v1;
  }

  -- SnapshotRecord.verify
  unfoldable pub verify_snapshot : SnapshotRecord → Result (Unit {0})
  unfolding snapshot_material
  verify_snapshot s = do
    ensure (s.schema_version == snapshot_v1) integrity_error
    reject_if (eqb s.sequence 0 || s.twin_id == "" || s.last_event_hash == "") integrity_error
    ensure
        (s.state_hash
          == content_hash
              (snapshot_material s.schema_version s.twin_id s.sequence s.last_event_hash s.state))
        integrity_error

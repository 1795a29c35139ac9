-- ===== src/Service/Streams.antt =====
-- `subscribe`, `open_state_stream` and `_stream_position` of argo_dt/service.py, of a service with no
-- state cache. The metrics of a subscription start from nothing.
pub mod Resumed
use k2s.Prelude.{
  ℕ, ◌-◌, String, Bool, true, false, not, ◌||◌, List, [], ◌∷◌, Option, none, some, ℤ, pos, pos_part,
  eqb, ltb_ℤ, any,
}
use k2s.Errors.{
  Result, ok, err, ensure, reject_if, or_raise, authorization_denied, invariant_violation, ◌>>=◌,
  ◌>>◌,
}
use k2s.Host.{Host}
use k2s.Value.{Value}
use k2s.Types.{
  EventEnvelope, EventPlane, ActorContext, ProducerRole, operations_service, projection_service,
  same_role, authoritative, projection,
}
use k2s.Ownership.{authorize_subject}
use k2s.Store.{Ledger, Query, load}
use k2s.Sync.Position.{StreamPosition, new_position}
use k2s.Sync.Limits.{SyncLimits, negotiate}
use k2s.Sync.Session.{CursorCodec}
use k2s.Sync.Durable.{Durable, open_at}
use k2s.Service.Defs.{rebuild}

-- What the service is configured with.
pub record StreamConfig : Type 0 where
  pub sync_limits : SyncLimits
  pub queue_capacity : ℕ
  pub cursor_signer : Option CursorCodec

abbrev pub query_at : ℕ → Query
query_at sequence = record {
  after_sequence = sequence - 1;
  up_to_sequence = some sequence;
  planes = [];
  limit = some 1;
}

abbrev pub is_trusted_role : ProducerRole → Bool
is_trusted_role r = same_role r operations_service || same_role r projection_service

abbrev pub stream_planes : Bool → List EventPlane
stream_planes true = authoritative ∷ projection ∷ []
stream_planes false = authoritative ∷ []

module _ ⦃host : Host⦄ where
  unfoldable pub position_at : String → ℕ → List EventEnvelope → Result StreamPosition
  position_at twin_id sequence [] = err invariant_violation
  position_at twin_id sequence (e ∷ es) =
      reject_if (not (eqb e.sequence sequence)) invariant_violation
      >> new_position twin_id (pos sequence) e.event_hash

  unfoldable pub stored_position : String → ℕ → Ledger → Result StreamPosition
  stored_position twin_id sequence db = elim (eqb sequence 0) [
    | true ↦ new_position twin_id (pos 0) ""
    | false ↦ (load twin_id (query_at sequence) db >>= position_at twin_id sequence)
  ]

  -- _stream_position
  unfoldable pub stream_position : String → ℤ → Ledger → Result StreamPosition
  stream_position twin_id sequence db =
      reject_if (ltb_ℤ sequence (pos 0)) invariant_violation
      >> stored_position twin_id (pos_part sequence) db

  -- An actor of one subject may read the twin of that subject.
  unfoldable pub check_subject : String → ActorContext → Ledger → Result (Unit {0})
  check_subject twin_id actor db = do
    state ← rebuild twin_id none none db
    authorize_subject actor state.subject_id

  unfoldable pub check_scope : Option String → String → ActorContext → Ledger → Result (Unit {0})
  check_scope none twin_id actor db = ok tt
  check_scope (some s) twin_id actor db = check_subject twin_id actor db

  -- subscribe
  unfoldable pub subscribe_raw : StreamConfig → String → ActorContext → ℤ → Ledger → Result Durable
  subscribe_raw service twin_id actor after_sequence db = do
    ensure (any (same_role operations_service) actor.roles) authorization_denied
    check_scope actor.subject_id twin_id actor db
    start ← stream_position twin_id after_sequence db
    open_at db service.queue_capacity start service.sync_limits [] []

  unfoldable pub check_reader : Option String → String → ActorContext → Ledger → Result (Unit {0})
  check_reader none twin_id actor db = ensure (any is_trusted_role actor.roles) authorization_denied
  check_reader (some s) twin_id actor db = check_subject twin_id actor db

  -- Without a token the stream starts at its origin.
  unfoldable pub resume_at :
      CursorCodec → Option String → String → ℕ → Ledger → Result StreamPosition
  resume_at codec none twin_id now db = new_position twin_id (pos 0) ""
  resume_at codec (some token) twin_id now db = do
    decoded ← codec.verify token twin_id now
    position ← stream_position twin_id decoded.sequence db
    codec.verify_chain_binding decoded position

  unfoldable pub open_state_stream :
      StreamConfig
      → String
      → ActorContext
      → Option String
      → List String
      → Bool
      → Option Value
      → ℕ
      → Ledger
      → Result Durable
  open_state_stream service twin_id actor resume_token event_types include_projection_events
        max_in_flight now db =
      do
        check_reader actor.subject_id twin_id actor db
        codec ← or_raise service.cursor_signer invariant_violation
        start ← resume_at codec resume_token twin_id now db
        limits ← negotiate service.sync_limits max_in_flight
        open_at db service.queue_capacity start limits event_types
            (stream_planes include_projection_events)

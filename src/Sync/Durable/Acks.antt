-- ===== src/Sync/Durable/Acks.antt =====
-- `open`, `acknowledge` and `acknowledgement_candidate` of `DurableSubscription` of argo_dt/sync.py.
use k2s.Prelude.{
  ℕ, ◌-◌, String, true, false, List, [], ◌∷◌, Option, none, some, ◌==◌, eqb, leb, ltb, find_first,
  if◌then◌else◌,
}
use k2s.Errors.{
  Result, ok, err, ensure, reject_if, or_raise, resume_cursor_rejected, protocol_violation, ◌>>=◌,
  ◌>>◌,
}
use k2s.Types.{EventEnvelope, EventPlane}
use k2s.Store.{Ledger, Query, load, head}
use k2s.Sync.Position.{StreamPosition}
use k2s.Sync.Limits.{SyncLimits}
use k2s.Sync.Durable.State.{Durable, no_metrics}
use k2s.Sync.Broker.{new_subscription}

-- The live subscription comes first. On an exception it is closed, and only the exception is left.
unfoldable pub check_start : StreamPosition → List EventEnvelope → Result (Unit {0})
check_start start [] = err resume_cursor_rejected
check_start start (e ∷ es) = ensure (e.event_hash == start.event_hash) resume_cursor_rejected

abbrev pub event_query : StreamPosition → Query
event_query start = record {
  after_sequence = start.sequence - 1;
  up_to_sequence = some start.sequence;
  planes = [];
  limit = some 1;
}

-- Only the origin of a stream has no event.
unfoldable pub check_stored : Ledger → StreamPosition → Result (Unit {0})
check_stored db start = elim (ltb 0 start.sequence) [
  | true ↦ (load start.twin_id (event_query start) db >>= check_start start)
  | false ↦ ok tt
]

unfoldable pub open_at :
    Ledger → ℕ → StreamPosition → SyncLimits → List String → List EventPlane → Result Durable
open_at db capacity start limits event_types planes = do
  let replay_head = (head db start.twin_id).0
  reject_if (ltb replay_head start.sequence) resume_cursor_rejected
  check_stored db start
  ok (record {
    live = new_subscription start.twin_id start.sequence capacity;
    position = start;
    acknowledged = start;
    replay_head = replay_head;
    limits = limits;
    event_types = event_types;
    planes = planes;
    metrics = no_metrics;
    replay_buffer = [];
    outstanding = [];
    deferred_live = none;
    closed = false;
  })

abbrev pub at_sequence : ℕ → List StreamPosition → Option StreamPosition
at_sequence n outstanding = find_first (λ p. eqb p.sequence n) outstanding

-- while outstanding and outstanding[0].sequence <= sequence: popleft
unfoldable pub drop_until : ℕ → List StreamPosition → List StreamPosition
drop_until n [] = []
drop_until n (p ∷ ps) = let rest = drop_until n ps in if leb p.sequence n then rest else p ∷ ps

unfoldable pub acknowledge_again : StreamPosition → Durable → Result (StreamPosition × Durable)
acknowledge_again p d = do
  ensure (p.event_hash == d.acknowledged.event_hash) protocol_violation
  ok (d.acknowledged, d)

unfoldable pub acknowledge_new : StreamPosition → Durable → Result (StreamPosition × Durable)
acknowledge_new p d = do
  matched ← or_raise (at_sequence p.sequence d.outstanding) protocol_violation
  ensure (matched.event_hash == p.event_hash) protocol_violation
  ok (p, record d { outstanding = drop_until p.sequence d.outstanding; acknowledged = p })

unfoldable pub acknowledge : StreamPosition → Durable → Result (StreamPosition × Durable)
acknowledge p d = do
  ensure (p.twin_id == d.position.twin_id) protocol_violation
  reject_if (ltb p.sequence d.acknowledged.sequence) protocol_violation
  if eqb p.sequence d.acknowledged.sequence then acknowledge_again p d else acknowledge_new p d

unfoldable pub acknowledgement_candidate : ℕ → Durable → Result StreamPosition
acknowledgement_candidate sequence d =
    if eqb sequence d.acknowledged.sequence
    then ok d.acknowledged
    else or_raise (at_sequence sequence d.outstanding) protocol_violation

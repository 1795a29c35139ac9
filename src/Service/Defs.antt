-- ===== src/Service/Defs.antt =====
-- `TwinAggregate.rebuild` without a snapshot store, and the part of `append` of argo_dt/service.py
-- that decides: a service with no state cache (`state_cache_entries=0`), no snapshots
-- (`snapshot_interval=0`) and no Bronze vault, up to the relay of the outbox.
use k2s.Prelude.{ℕ, ◌+◌, String, true, false, ◌||◌, not, ◌==◌, Option, none, [], ◌∷◌, eqb}
use k2s.Errors.{Result, ok, reject_if, invariant_violation, concurrency_conflict, ◌>>=◌, ◌>>◌}
use k2s.Host.{Host}
use k2s.Types.{EventEnvelope, ActorContext, authoritative, projection, simulation, same_plane, seal}
use k2s.Ownership.{authorize}
use k2s.Aggregate.{TwinState, empty_state, validate_event, apply, replay}
use k2s.Store.{Ledger, Query, load, head}
use k2s.Store as Store

abbrev pub replayed_planes : Option ℕ → Query
replayed_planes up_to_sequence = record {
  after_sequence = 0;
  up_to_sequence = up_to_sequence;
  planes = authoritative ∷ projection ∷ [];
  limit = none;
}

module _ ⦃host : Host⦄ where
  unfoldable pub rebuild : String → Option ℕ → Option ℕ → Ledger → Result TwinState
  rebuild twin_id up_to_sequence as_of_recorded_time db = do
    events ← load twin_id (replayed_planes up_to_sequence) db
    replay as_of_recorded_time (empty_state twin_id) "" events

  -- The transition is tried on the current state before the event is stored: `previewed_at` and
  -- `now` are the two readings of `utc_now()`.
  unfoldable pub preview : EventEnvelope → ℕ → ℕ → Ledger → Result (Unit {0})
  preview event expected_sequence previewed_at db = do
    current_state ← rebuild event.twin_id none none db
    reject_if
        (not (eqb current_state.sequence (head db event.twin_id).0)
          || not (current_state.last_event_hash == (head db event.twin_id).1))
        concurrency_conflict
    applied ←
        apply current_state
          (seal event (expected_sequence + 1) (head db event.twin_id).1 previewed_at)
    ok tt

  -- Only at the head: what a stale writer sends is left to the store.
  abbrev pub preview_at_head : EventEnvelope → ℕ → ℕ → Ledger → Result (Unit {0})
  preview_at_head event expected_sequence previewed_at db =
      elim (eqb (head db event.twin_id).0 expected_sequence) [
        | true ↦ preview event expected_sequence previewed_at db
        | false ↦ ok tt
      ]

  unfoldable pub append :
      EventEnvelope → ActorContext → ℕ → ℕ → ℕ → Ledger → Result (EventEnvelope × Ledger)
  append event actor expected_sequence previewed_at now db = do
    authorize event actor
    validate_event event
    reject_if (same_plane event.plane simulation) invariant_violation
    preview_at_head event expected_sequence previewed_at db
    Store.append event expected_sequence now db

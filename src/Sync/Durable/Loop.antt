-- ===== src/Sync/Durable/Loop.antt =====
-- `_next_candidate` and `__anext__` of `DurableSubscription` of argo_dt/sync.py. An `await` that has
-- nothing to read comes to `waits`: to call again once there is something is what the suspended loop
-- does.
use k2s.Prelude.{
  ℕ, zero, suc, ◌+◌, ◌-◌, Bool, true, false, List, [], ◌∷◌, ◌++◌, Option, none, some, pos, leb, ltb,
  length, if◌then◌else◌,
}
use k2s.Errors.{Error, Result, ok, err, integrity_error, backpressure_exceeded}
use k2s.Host.{Host}
use k2s.Types.{EventEnvelope, verify}
use k2s.Store.{Ledger, load, head}
use k2s.Sync.Position.{StreamPosition, new_position}
use k2s.Sync.Broker.{Subscription, Taken, got, ended, overrun, waiting, take_live}
use k2s.Sync.Durable.State.{
  Durable, Outcome, delivered, raised, stopped, waits, spent, Source, replay, live, count_failure,
  count_backpressure, count_duplicate, count_source, aclose, passes_filters, advance_ack,
  page_after, is_next,
}

abbrev pub larger : ℕ → ℕ → ℕ
larger a b = if ltb a b then b else a

abbrev pub count_some {ℓ} : {A : Type ℓ} → Option A → ℕ
count_some none = 0
count_some (some a) = 1

-- Rounds for one candidate: what is queued or deferred, and a page to load and to read.
abbrev pub rounds : Durable → ℕ
rounds d = length d.live.queue + count_some d.deferred_live + 3

-- Candidates for one call: what is left up to a head, and what is queued or deferred.
abbrev pub budget : Ledger → Durable → ℕ
budget db d =
    (larger d.replay_head (head db d.position.twin_id).0 - d.position.sequence)
    + length d.live.queue
    + count_some d.deferred_live

module _ ⦃host : Host⦄ where
  -- The last line of `_advance_verified`.
  unfoldable pub move_to : Result StreamPosition → Durable → Option Error × Durable
  move_to (ok p) d = (none, record d { position = p })
  move_to (err e) d = (some e, d)

  unfoldable pub advance_checked :
      Result (Unit {0}) → EventEnvelope → Durable → Option Error × Durable
  advance_checked (err error) e d = (some error, count_failure d)
  advance_checked (ok u) e d = move_to (new_position e.twin_id (pos e.sequence) e.event_hash) d

  -- _advance_verified
  unfoldable pub advance_verified : EventEnvelope → Durable → Option Error × Durable
  advance_verified e d =
      if is_next d.position e
      then advance_checked (verify e d.position.event_hash) e d
      else (some integrity_error, count_failure d)

  -- self._advance_verified(event); return event, source
  unfoldable pub advanced : EventEnvelope → Source → Option Error × Durable → Outcome × Durable
  advanced e source (none, d) = (delivered e source, d)
  advanced e source (some error, d) = (raised error, d)

  -- A batch that was loaded for the replay. `again` is the next round of the loop.
  unfoldable pub use_page :
      (Durable → Outcome × Durable) → Result (List EventEnvelope) → Durable → Outcome × Durable
  use_page again (err error) d = (raised error, d)
  use_page again (ok []) d = (raised integrity_error, count_failure d)
  use_page again (ok (e ∷ es)) d = again (record d { replay_buffer = e ∷ es })

  -- A gap: the event waits until what was stored before it has been replayed.
  unfoldable pub use_beyond :
      (Durable → Outcome × Durable) → Bool → EventEnvelope → Durable → Outcome × Durable
  use_beyond again true e d = (raised integrity_error, count_failure d)
  use_beyond again false e d = again (record d { deferred_live = some e; replay_head = e.sequence })

  unfoldable pub use_new :
      (Durable → Outcome × Durable) → Ledger → Bool → EventEnvelope → Durable → Outcome × Durable
  use_new again db true e d = use_beyond again (ltb (head db d.position.twin_id).0 e.sequence) e d
  use_new again db false e d = advanced e live (advance_verified e d)

  unfoldable pub use_seen :
      (Durable → Outcome × Durable) → Ledger → Bool → EventEnvelope → Durable → Outcome × Durable
  use_seen again db true e d = again (count_duplicate d)
  use_seen again db false e d = use_new again db (ltb (d.position.sequence + 1) e.sequence) e d

  -- An event that was published: seen before, beyond a gap, or the next one.
  unfoldable pub use_event :
      (Durable → Outcome × Durable) → Ledger → EventEnvelope → Durable → Outcome × Durable
  use_event again db e d = use_seen again db (leb e.sequence d.position.sequence) e d

  unfoldable pub use_taken :
      (Durable → Outcome × Durable) → Ledger → Taken × Subscription → Durable → Outcome × Durable
  use_taken again db (got e, s) d = use_event again db e (record d { live = s })
  use_taken again db (ended, s) d = (stopped, record d { live = s })
  use_taken again db (overrun, s) d =
      (raised backpressure_exceeded, record (count_backpressure d) { live = s; closed = true })
  use_taken again db (waiting, s) d = (waits, record d { live = s })

  unfoldable pub use_live :
      (Durable → Outcome × Durable) → Ledger → Option EventEnvelope → Durable → Outcome × Durable
  use_live again db (some e) d = use_event again db e (record d { deferred_live = none })
  use_live again db none d = use_taken again db (take_live d.live) d

  unfoldable pub use_behind :
      (Durable → Outcome × Durable) → Ledger → Bool → Durable → Outcome × Durable
  use_behind again db true d = use_page again (load d.position.twin_id (page_after d) db) d
  use_behind again db false d = use_live again db d.deferred_live d

  unfoldable pub use_buffer :
      (Durable → Outcome × Durable) → Ledger → List EventEnvelope → Durable → Outcome × Durable
  use_buffer again db (e ∷ es) d =
      advanced e replay (advance_verified e (record d { replay_buffer = es }))
  use_buffer again db [] d = use_behind again db (ltb d.position.sequence d.replay_head) d

  -- _next_candidate
  unfoldable pub next_candidate : ℕ → Ledger → Durable → Outcome × Durable
  next_candidate zero db d = (spent, d)
  next_candidate (suc fuel) db d = use_buffer (next_candidate fuel db) db d.replay_buffer d

  -- The position is kept as outstanding, and the event handed over.
  unfoldable pub hand_over :
      EventEnvelope → Source → Result StreamPosition → Durable → Outcome × Durable
  hand_over e source (err error) d = (raised error, d)
  hand_over e source (ok p) d = (
    delivered e source,
    record d { outstanding = d.outstanding ++ p ∷ []; metrics = count_source source d.metrics },
  )

  -- except IntegrityError: aclose
  unfoldable pub close_on : Error → Durable → Durable
  close_on integrity_error d = aclose d
  close_on _ d = d

  unfoldable pub use_candidate :
      (Durable → Outcome × Durable) → Bool → EventEnvelope → Source → Durable → Outcome × Durable
  use_candidate again true e source d =
      hand_over e source (new_position e.twin_id (pos e.sequence) e.event_hash) d
  use_candidate again false e source d = again (advance_ack d)

  unfoldable pub after_candidate :
      (Durable → Outcome × Durable) → Outcome × Durable → Outcome × Durable
  after_candidate again (delivered e source, d) =
      use_candidate again (passes_filters d e) e source d
  after_candidate again (raised error, d) = (raised error, close_on error d)
  after_candidate again (stopped, d) = (stopped, d)
  after_candidate again (waits, d) = (waits, d)
  after_candidate again (spent, d) = (spent, d)

  -- The loop of `__anext__`.
  unfoldable pub deliver : ℕ → Ledger → Durable → Outcome × Durable
  deliver zero db d = (spent, d)
  deliver (suc fuel) db d = after_candidate (deliver fuel db) (next_candidate (rounds d) db d)

  -- __anext__
  unfoldable pub anext : Ledger → Durable → Outcome × Durable
  anext db d =
      if d.closed
      then (stopped, d)
      else if leb d.limits.max_in_flight (length d.outstanding)
      then (raised backpressure_exceeded, aclose (count_backpressure d))
      else deliver (suc (budget db d)) db d

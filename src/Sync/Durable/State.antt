-- ===== src/Sync/Durable/State.antt =====
-- The state of a `DurableSubscription` of argo_dt/sync.py. Its live subscription is the broker's
-- entry of it, on which `publish` acts by `offer`.
use k2s.Prelude.{
  ℕ, ◌+◌, String, Bool, true, ◌&&◌, List, [], ◌∷◌, Option, none, some, ◌==◌, eqb, any, contains,
  if◌then◌else◌,
}
use k2s.Errors.{Error}
use k2s.Types.{EventEnvelope, EventPlane, same_plane, type_name}
use k2s.Store.{Query}
use k2s.Sync.Position.{StreamPosition}
use k2s.Sync.Limits.{SyncLimits}
use k2s.Sync.Broker.{Subscription, leave}

pub record SyncMetrics : Type 0 where
  pub replayed_events : ℕ
  pub live_events : ℕ
  pub duplicate_events : ℕ
  pub emitted_frames : ℕ
  pub acknowledgements : ℕ
  pub heartbeats : ℕ
  pub closed_streams : ℕ
  pub integrity_failures : ℕ
  pub backpressure_closes : ℕ

abbrev pub no_metrics : SyncMetrics
no_metrics = record {
  replayed_events = 0;
  live_events = 0;
  duplicate_events = 0;
  emitted_frames = 0;
  acknowledgements = 0;
  heartbeats = 0;
  closed_streams = 0;
  integrity_failures = 0;
  backpressure_closes = 0;
}

-- An empty collection of types or planes is no filter.
pub record Durable : Type 0 where
  pub live : Subscription
  pub position : StreamPosition
  pub acknowledged : StreamPosition
  pub replay_head : ℕ
  pub limits : SyncLimits
  pub event_types : List String
  pub planes : List EventPlane
  pub metrics : SyncMetrics
  pub replay_buffer : List EventEnvelope
  pub outstanding : List StreamPosition
  pub deferred_live : Option EventEnvelope
  pub closed : Bool

pub data Source : Type 0 where
  replay live : Source

-- What `_next_candidate` or `__anext__` comes to; `spent` is fuel run out.
pub data Outcome : Type 0 where
  delivered : EventEnvelope → Source → Outcome
  raised : Error → Outcome
  stopped waits spent : Outcome

abbrev pub count_failure : Durable → Durable
count_failure d = record d {
  metrics = record d.metrics { integrity_failures = d.metrics.integrity_failures + 1 };
}

abbrev pub count_backpressure : Durable → Durable
count_backpressure d = record d {
  metrics = record d.metrics { backpressure_closes = d.metrics.backpressure_closes + 1 };
}

abbrev pub count_duplicate : Durable → Durable
count_duplicate d = record d {
  metrics = record d.metrics { duplicate_events = d.metrics.duplicate_events + 1 };
}

abbrev pub count_source : Source → SyncMetrics → SyncMetrics
count_source replay m = record m { replayed_events = m.replayed_events + 1 }
count_source live m = record m { live_events = m.live_events + 1 }

-- The broker drops the subscription.
abbrev pub closing : Durable → Durable
closing d = record d {
  closed = true;
  live = leave none d.live;
  metrics = record d.metrics { closed_streams = d.metrics.closed_streams + 1 };
}

unfoldable pub aclose : Durable → Durable
aclose d = if d.closed then d else closing d

-- No filter, or membership.
unfoldable pub has_type : List String → EventEnvelope → Bool
has_type [] e = true
has_type (t ∷ ts) e = contains (type_name e.event_type) (t ∷ ts)

unfoldable pub has_plane : List EventPlane → EventEnvelope → Bool
has_plane [] e = true
has_plane (p ∷ ps) e = any (same_plane e.plane) (p ∷ ps)

unfoldable pub admitted : List String → List EventPlane → EventEnvelope → Bool
admitted event_types planes e = has_type event_types e && has_plane planes e

abbrev pub passes_filters : Durable → EventEnvelope → Bool
passes_filters d e = admitted d.event_types d.planes e

-- _advance_ack_over_filtered_event
unfoldable pub advance_ack_if : List StreamPosition → Durable → Durable
advance_ack_if [] d = record d { acknowledged = d.position }
advance_ack_if (p ∷ ps) d = d

unfoldable pub advance_ack : Durable → Durable
advance_ack d = advance_ack_if d.outstanding d

abbrev pub page_after : Durable → Query
page_after d = record {
  after_sequence = d.position.sequence;
  up_to_sequence = some d.replay_head;
  planes = [];
  limit = some d.limits.replay_page_size;
}

-- Neither the first event of a twin nor a later one may be missing.
unfoldable pub is_next : StreamPosition → EventEnvelope → Bool
is_next p e = e.twin_id == p.twin_id && eqb e.sequence (p.sequence + 1)

-- ===== src/Sync/Broker.antt =====
-- `Subscription` and `BoundedEventBroker` of argo_dt/sync.py. The lock of the broker makes each
-- operation one step. Python's set of subscriptions is a list of the objects, each with the mark
-- whether it is a member; a subscription is named by its place in the list.
pub mod Flow
pub mod Fate
pub mod Delivery
use k2s.Prelude.{
  ℕ, zero, suc, ◌+◌, String, Bool, true, false, not, ◌&&◌, List, [], ◌∷◌, ◌++◌, Option, none, some,
  ◌==◌, leb, ltb, map, keep, length, if◌then◌else◌,
}
use k2s.Errors.{Result, ok, reject_if, value_error, ◌>>◌}
use k2s.Types.{EventEnvelope}

-- What a queue holds: an event, or the mark `_CLOSED`.
pub data Item : Type 0 where
  published : EventEnvelope → Item
  closed_mark : Item

pub record Subscription : Type 0 where
  pub twin_id : String
  pub after_sequence : ℕ
  pub maxsize : ℕ
  pub queue : List Item
  pub closed : Bool
  pub close_reason : Option String
  pub member : Bool

-- queue.full()
abbrev pub is_full : Subscription → Bool
is_full s = leb s.maxsize (length s.queue)

-- queue.get_nowait()
unfoldable pub drop_first {ℓ} : {A : Type ℓ} → List A → List A
drop_first [] = []
drop_first (x ∷ xs) = xs

-- Subscription.close
unfoldable pub close : Option String → Subscription → Subscription
close reason s = if s.closed then s else record s {
  closed = true;
  close_reason = reason;
  queue = (if is_full s then drop_first s.queue else s.queue) ++ closed_mark ∷ [];
}

-- What `Subscription.__anext__` comes to: an event, the end, BackpressureExceeded, or a wait.
pub data Taken : Type 0 where
  got : EventEnvelope → Taken
  ended overrun waiting : Taken

-- if self._close_reason: raise …; raise StopAsyncIteration
unfoldable pub how_closed : Option String → Taken
how_closed none = ended
how_closed (some reason) = if reason == "" then ended else overrun

unfoldable pub take_item : List Item → Subscription → Taken × Subscription
take_item [] s = (waiting, s)
take_item (closed_mark ∷ items) s =
    (how_closed s.close_reason, record s { queue = items; closed = true })
take_item (published e ∷ items) s = (got e, record s { queue = items; after_sequence = e.sequence })

unfoldable pub take_live : Subscription → Taken × Subscription
take_live s = if s.closed then (how_closed s.close_reason, s) else take_item s.queue s

pub record BrokerStats : Type 0 where
  pub published_count : ℕ
  pub delivered_count : ℕ
  pub disconnected_slow_consumers : ℕ

pub record Broker : Type 0 where
  pub capacity : ℕ
  pub subscriptions : List Subscription
  pub stats : BrokerStats

unfoldable pub new_broker : ℕ → Result Broker
new_broker queue_capacity = do
  reject_if (ltb queue_capacity 1) value_error
  ok (record {
    capacity = queue_capacity;
    subscriptions = [];
    stats = record { published_count = 0; delivered_count = 0; disconnected_slow_consumers = 0 };
  })

unfoldable pub new_subscription : String → ℕ → ℕ → Subscription
new_subscription twin_id after_sequence maxsize = record {
  twin_id = twin_id;
  after_sequence = after_sequence;
  maxsize = maxsize;
  queue = [];
  closed = false;
  close_reason = none;
  member = true;
}

unfoldable pub subscribe : String → ℕ → Broker → ℕ × Broker
subscribe twin_id after_sequence b = (
  length b.subscriptions,
  record b {
    subscriptions = b.subscriptions ++ new_subscription twin_id after_sequence b.capacity ∷ [];
  },
)

-- The set discards the subscription, which is then closed.
abbrev pub leave : Option String → Subscription → Subscription
leave reason s = record (close reason s) { member = false }

unfoldable pub update_at {ℓ} : {A : Type ℓ} → ℕ → (A → A) → List A → List A
update_at n f [] = []
update_at zero f (x ∷ xs) = f x ∷ xs
update_at (suc n) f (x ∷ xs) = x ∷ update_at n f xs

unfoldable pub unsubscribe : ℕ → Broker → Broker
unsubscribe place b = record b { subscriptions = update_at place (leave none) b.subscriptions }

abbrev pub slow_reason : String
slow_reason = "subscriber exceeded bounded queue; reconnect with last cursor"

-- Whether the loop of `publish` passes an event to a subscription.
unfoldable pub concerns : EventEnvelope → Subscription → Bool
concerns e s = s.member && s.twin_id == e.twin_id && not (leb e.sequence s.after_sequence)

-- put_nowait, or QueueFull: the subscription is discarded and closed once the loop has ended.
unfoldable pub offer : EventEnvelope → Subscription → Subscription
offer e s =
    if concerns e s
    then (if is_full s
        then leave (some slow_reason) s
        else record s { queue = s.queue ++ published e ∷ [] })
    else s

unfoldable pub publish : EventEnvelope → Broker → Broker
publish e b =
    let reached = keep (concerns e) b.subscriptions in
    record b {
      subscriptions = map (offer e) b.subscriptions;
      stats = record {
        published_count = b.stats.published_count + 1;
        delivered_count = b.stats.delivered_count + length (keep (λ s. not (is_full s)) reached);
        disconnected_slow_consumers =
            b.stats.disconnected_slow_consumers + length (keep is_full reached);
      };
    }

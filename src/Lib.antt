-- ===== src/Lib.antt =====
-- A model of the digital twin core, src/argo_dt, in which its promises are proved.
--
-- The program keeps, for each digital twin, an append-only stream of events in a SQLite ledger. A
-- caller hands an event to the service (src/argo_dt/service.py). The ownership policy checks who
-- may send it, the aggregate checks its form and tries it on the twin's current state, and the
-- event store seals it into the twin's hash chain, indexes what it depends on, and queues it in an
-- outbox, in one transaction. The state of a twin is the fold of its events; relays claim outbox
-- rows under a lease and publish them; policies decide what a projection of the state discloses.
--
-- Files, and the code that they model:
--   Errors             src/argo_dt/errors.py; `Result` is what a call returns or raises
--   Value              the JSON values of payloads and states, and Python's reads of them
--   Host               what the code takes from Python: `json.dumps` and `json.loads`, SHA-256 and
--                      HMAC, `str` of a number or a container, the text of an instant. A parameter
--                      of all that uses it
--   Types              src/argo_dt/types.py: `EventEnvelope.seal` and `verify`, `SnapshotRecord`,
--                      grants, requests and the actor context
--   Ownership          src/argo_dt/ownership.py: `EventOwnershipPolicy`
--   Policy             src/argo_dt/policy.py: `DefaultDenyPolicy`
--   Aggregate          src/argo_dt/aggregate.py: `TwinState` and `TwinAggregate`. Validate has
--                      `validate_event`, Handlers and Reviews one function for each branch of
--                      `apply`, Apply the dispatch and the replay loop of `rebuild`, View the
--                      queries `select_valid_at` and `accepted_claims`
--   Aggregate.Invariant, Replay, Extends, Citations, Deletion, Passing, Accepted, Validity,
--   Selected           the invariant of a state, and what applying, replaying and querying promise
--   Store              src/argo_dt/event_store.py: `SQLiteEventStore`. Defs has the tables, Index
--                      `_index_dependencies`, Append `append` and `head`, Load `load` and
--                      `verify_chain`, Snapshots and Outbox the operations on those tables, Lineage
--                      `dependents` and `ancestors`, Invalidations the queue that deletions fill
--   Store.Chain, Appends, Races, Stream, Saved, Leases, Claims, Fencing, Releases, Unseen, Reach,
--   Closure, Converse, Queue, Processed
--                      what the chain, the loads, the snapshots, the leases and the lineage promise
--   Service            src/argo_dt/service.py: `append`, and `TwinAggregate.rebuild` over a store;
--                      Streams has `subscribe` and `open_state_stream`, Service.Streams.Resumed
--                      where a resumed stream starts
--   Sync               src/argo_dt/sync.py. Position has `StreamPosition`, Base64 and Cursor the
--                      tokens of `CursorSigner`, KeyRing `RotatingCursorSigner`, Limits `SyncLimits`,
--                      Subjects `NatsSubjectTopology`, Broker the live queues of
--                      `BoundedEventBroker`, Relay `OutboxRelay`, Frames and Session
--                      `StateStreamSession` over the interface `CursorCodec`, Telemetry the
--                      acknowledgements of telemetry, Text and Utf8 the texts that they share
--   Sync.Durable       `DurableSubscription`: State its fields, Loop `_next_candidate` and
--                      `__anext__`, Acks `open` and the acknowledgements
--   Sync.Text.Dots, Sync.Base64.RoundTrip, Sync.KeyRing.Genuine, Sync.KeyRing.RoundTrip,
--   Sync.KeyRing.Bound, Sync.Limits.Batch, Sync.Subjects.Routing, Sync.Session.Echo,
--   Sync.Relay.Backlog, Sync.Broker.Flow, Fate, Delivery
--                      what tokens, rings, batches, subjects, sessions, relays and queues promise
--   Sync.Durable.Moves, Chain, Pages, Ends, Rounds, Settled, Window, Kept, Opened
--                      what a subscription reads, that its loops end, and its window
--   Tests              the theorems at concrete data
--   Prelude            shared names, tests, lists, dictionaries and integers
--
-- State is passed explicitly: a handler of `apply` takes a state and returns the next one or the
-- exception, an operation of the store takes a ledger and returns its answer with the next ledger.
-- An exception rolls a transaction back, so it carries no ledger. A clock reading is an argument.
-- Times are microseconds, integers of the tables are natural numbers, a set or a dict is a list in
-- insertion order, and an event type that the code does not name is `other`.
--
-- A subscription is a value, whose live queue the broker's `publish` fills by `offer`; an `await`
-- with nothing to read is the outcome `waits`, after which the call is made again.
--
-- Bounds: the recursive query of `_index_dependencies` runs on fuel, one unit for each pending row
-- and each edge of the table; a round drops a pending row, and a row is pending once for each edge
-- at most. The loops of a subscription run on fuel too. `rounds` is one for each entry of the live
-- queue and three more: a round takes an entry, or loads a page that the next round reads. `budget`
-- is one for each event up to the head, and each entry of the queue: a candidate that the filters
-- exclude uses one up.
--
-- Not modelled: locks and the file of SQLite (each operation is one step), error messages, pruning of
-- the outbox and the migrations of the tables, the service's state cache and its periodic snapshots,
-- the typed intents of the service, `to_dict` and `from_dict`, the compiler, the elicitor, the
-- adapters and the public facade.
pub mod Prelude
pub mod Errors
pub mod Value
pub mod Host
pub mod Types
pub mod Ownership
pub mod Policy
pub mod Aggregate
pub mod Store
pub mod Service
pub mod Sync
pub mod Tests

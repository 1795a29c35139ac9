-- ===== src/Tests.antt =====
-- The theorems at concrete data.
mod Data
mod Ledgers
mod States
mod Policies
mod Outbox
mod Lineage
mod Cursors
mod Streams
mod Sessions
mod Relays
mod Flows
mod Reports

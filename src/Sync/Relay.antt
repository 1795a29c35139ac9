-- ===== src/Sync/Relay.antt =====
-- `OutboxRelay` of argo_dt/sync.py. The publisher is a parameter: it answers with the name of the
-- exception that it raises, if any, and with the ledger as it stands after the `await`, in which
-- others may have run. Each call of the store is a transaction of its own, so an exception that stops
-- the loop leaves what came before it. `clock` is the time at which a record is marked.
pub mod Backlog
use k2s.Prelude.{ℕ, ◌+◌, String, Bool, true, false, List, [], ◌∷◌, Option, none, some, length}
use k2s.Errors.{Result, ok, err, integrity_error}
use k2s.Host.{Host}
use k2s.Types.{EventEnvelope}
use k2s.Store.{Ledger, OutboxRecord, claim_outbox, mark_outbox_published, release_outbox}

pub record RelayBatch : Type 0 where
  pub claimed : ℕ
  pub published : ℕ
  pub failed : ℕ

abbrev pub Publisher : Type 0
Publisher = EventEnvelope → Ledger → Option String × Ledger

-- How far the loop has come.
pub record Progress : Type 0 where
  pub published : ℕ
  pub failed : ℕ
  pub ledger : Ledger

abbrev count_published : Progress → Ledger → Progress
count_published p db = record p { published = p.published + 1; ledger = db }

abbrev count_failed : Progress → Ledger → Progress
count_failed p db = record p { failed = p.failed + 1; ledger = db }

unfoldable pub finish : ℕ → Bool × Progress → Result RelayBatch × Ledger
finish claimed (true, p) =
    (ok (record { claimed = claimed; published = p.published; failed = p.failed }), p.ledger)
finish claimed (false, p) = (err integrity_error, p.ledger)

module _ (publisher : Publisher) (clock : OutboxRecord → ℕ) where
  -- The lease is lost if the store did not change exactly one row.
  unfoldable pub settle : Option String → OutboxRecord → Progress → Ledger → Bool × Progress
  settle none r p db =
      let marked = mark_outbox_published r (clock r) db in (marked.0, count_published p marked.1)
  settle (some error) r p db =
      let released = release_outbox r error db in (released.0, count_failed p released.1)

  unfoldable pub relay_record : OutboxRecord → Progress → Bool × Progress
  relay_record r p = let answer = publisher r.event p.ledger in settle answer.0 r p answer.1

  unfoldable pub relay_records : List OutboxRecord → Progress → Bool × Progress
  relay_records [] p = (true, p)
  relay_records (r ∷ rs) p =
      let step = relay_record r p in elim step.0 [ true ↦ relay_records rs step.1 | false ↦ step ]

  unfoldable pub relay_claim :
      Result (List OutboxRecord × Ledger) → Ledger → Result RelayBatch × Ledger
  relay_claim (err x) db = (err x, db)
  relay_claim (ok (records, claimed)) db =
      finish (length records)
        (relay_records records (record { published = 0; failed = 0; ledger = claimed }))

module _ ⦃host : Host⦄ (publisher : Publisher) (clock : OutboxRecord → ℕ) where
  unfoldable pub drain : String → ℕ → ℕ → ℕ → Ledger → Result RelayBatch × Ledger
  drain lease_owner limit lease_seconds now db =
      relay_claim publisher clock (claim_outbox lease_owner limit lease_seconds now db) db

-- ===== src/Store/Snapshots.antt =====
-- `save_snapshot`, `load_snapshot` and `prune_snapshots` of argo_dt/event_store.py. A snapshot's
-- state is taken to read back as it was written.
use k2s.Prelude.{
  ℕ, zero, suc, String, Bool, not, ◌&&◌, Option, none, some, List, [], ◌∷◌, ◌++◌, ◌==◌, eqb, ltb,
  any, keep, find_first, length, if◌then◌else◌, is_some,
}
use k2s.Errors.{Result, ok, ensure, or_raise, reject_if, integrity_error, value_error, ◌>>=◌, ◌>>◌}
use k2s.Host.{Host}
use k2s.Types.{EventEnvelope, SnapshotRecord, verify_snapshot}
use k2s.Store.Defs.{Ledger}
use k2s.Store.Load.{up_to}

-- The event row with a primary key.
unfoldable pub event_at : String → ℕ → List EventEnvelope → Option EventEnvelope
event_at twin_id sequence events =
    find_first (λ e. e.twin_id == twin_id && eqb e.sequence sequence) events

unfoldable pub snapshot_at : String → ℕ → List SnapshotRecord → Option SnapshotRecord
snapshot_at twin_id sequence rows =
    find_first (λ s. s.twin_id == twin_id && eqb s.sequence sequence) rows

-- ORDER BY sequence DESC
unfoldable pub insert_descending : SnapshotRecord → List SnapshotRecord → List SnapshotRecord
insert_descending s [] = s ∷ []
insert_descending s (r ∷ rs) =
    let rest = insert_descending s rs in if ltb s.sequence r.sequence then r ∷ rest else s ∷ r ∷ rs

unfoldable pub descending : List SnapshotRecord → List SnapshotRecord
descending [] = []
descending (s ∷ ss) = insert_descending s (descending ss)

unfoldable pub first {ℓ} : {A : Type ℓ} → List A → Option A
first [] = none
first (x ∷ xs) = some x

-- LIMIT -1 OFFSET n
unfoldable pub offset {ℓ} : {A : Type ℓ} → ℕ → List A → List A
offset zero xs = xs
offset (suc n) [] = []
offset (suc n) (x ∷ xs) = offset n xs

-- The snapshot rows of a twin that join an event row, the latest first.
unfoldable pub joined : String → Option ℕ → Ledger → List SnapshotRecord
joined twin_id up_to_sequence db = descending (
    keep
      (λ s.
        s.twin_id == twin_id
        && up_to up_to_sequence s.sequence
        && is_some (event_at s.twin_id s.sequence db.events))
      db.snapshots)

-- `keep` counts from 1.
unfoldable pub prune_snapshots : String → ℕ → Ledger → Result (ℕ × Ledger)
prune_snapshots twin_id kept db =
    let stale = offset kept (descending (keep (λ s. s.twin_id == twin_id) db.snapshots)) in
    let goes : SnapshotRecord → Bool =
      λ s. s.twin_id == twin_id && any (λ r. eqb r.sequence s.sequence) stale in
    reject_if (ltb kept 1) value_error
    >> ok (
      length (keep goes db.snapshots),
      record db { snapshots = keep (λ s. not (goes s)) db.snapshots },
    )

module _ ⦃host : Host⦄ where
  -- _row_to_snapshot
  unfoldable pub row_to_snapshot : SnapshotRecord → Result SnapshotRecord
  row_to_snapshot row = do verify_snapshot row; ok row

  -- What is there already under the snapshot's key, or the insert.
  unfoldable pub keep_or_insert :
      Option SnapshotRecord → SnapshotRecord → Ledger → Result (SnapshotRecord × Ledger)
  keep_or_insert none snapshot db =
      ok (snapshot, record db { snapshots = db.snapshots ++ snapshot ∷ [] })
  keep_or_insert (some existing) snapshot db = do
    stored ← row_to_snapshot existing
    ensure (stored.state_hash == snapshot.state_hash) integrity_error
    ok (stored, db)

  unfoldable pub save_snapshot : SnapshotRecord → Ledger → Result (SnapshotRecord × Ledger)
  save_snapshot snapshot db = do
    verify_snapshot snapshot
    event ← or_raise (event_at snapshot.twin_id snapshot.sequence db.events) integrity_error
    ensure (event.event_hash == snapshot.last_event_hash) integrity_error
    keep_or_insert (snapshot_at snapshot.twin_id snapshot.sequence db.snapshots) snapshot db

  unfoldable pub linked_to : Option EventEnvelope → SnapshotRecord → Result (Option SnapshotRecord)
  linked_to none row = ok none
  linked_to (some event) row = do
    snapshot ← row_to_snapshot row
    ensure (event.event_hash == snapshot.last_event_hash) integrity_error
    ok (some snapshot)

  unfoldable pub load_snapshot : String → Option ℕ → Ledger → Result (Option SnapshotRecord)
  load_snapshot twin_id up_to_sequence db = elim (first (joined twin_id up_to_sequence db)) [
    | none ↦ ok none
    | some row ↦ linked_to (event_at row.twin_id row.sequence db.events) row
  ]

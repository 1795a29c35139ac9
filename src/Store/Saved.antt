-- ===== src/Store/Saved.antt =====
-- What the snapshots of argo_dt/event_store.py promise.
use k2s.Prelude.{
  ℕ, String, ◌≡◌, refl, sym, ap, ◌∙◌, ◌⊎◌, inl, inr, Bool, true, false, ◌&&◌, Option, none, some,
  List, [], ◌∷◌, ◌==◌, eq_iff, ltb, keep, arith, All, Bool-cases, is_some, if◌then◌else◌,
}
use mathlib.Core.Path.{subst}
use k2s.Errors.{ok, or_raise, or_raise-eq-ok, ensure-eq-ok, >>=-eq-ok, skip-eq-ok, integrity_error}
use k2s.Host.{Host}
use k2s.Types.{EventEnvelope, SnapshotRecord, verify_snapshot}
use k2s.Store.Defs.{Ledger}
use k2s.Store.Load.{up_to}
use k2s.Store.Snapshots.{
  event_at, snapshot_at, joined, row_to_snapshot, keep_or_insert, save_snapshot, linked_to,
  load_snapshot, first, descending, insert_descending,
}

-- Sorting and filtering keep what holds of every row.
module _ (P : SnapshotRecord → Type 0) where
  insert-All :
      (s : SnapshotRecord) (ss : List SnapshotRecord)
      → P s
      → All P ss
      → All P (insert_descending s ss)
  unfolding insert_descending
  insert-All s [] p a = (p, tt)
  insert-All s (r ∷ rs) p a = pick (ltb s.sequence r.sequence) (insert-All s rs p a.1)
    where
      pick :
          (b : Bool)
          → All P (insert_descending s rs)
          → All P (if b then r ∷ insert_descending s rs else s ∷ r ∷ rs)
      pick true rest = (a.0, rest)
      pick false rest = (p, a)

  descending-All : (ss : List SnapshotRecord) → All P ss → All P (descending ss)
  unfolding descending
  descending-All [] a = tt
  descending-All (s ∷ ss) a = insert-All s (descending ss) a.0 (descending-All ss a.1)

  first-All : (ss : List SnapshotRecord) (s : SnapshotRecord) → All P ss → first ss ≡ some s → P s
  unfolding first
  first-All [] s a h = cc
  first-All (r ∷ rs) s a h = subst P (cc) a.0

keep-All-true :
    (p : SnapshotRecord → Bool) (ss : List SnapshotRecord) → All (λ s. p s ≡ true) (keep p ss)
unfolding keep
keep-All-true p [] = tt
keep-All-true p (s ∷ ss) = pick (Bool-cases (p s)) (keep-All-true p ss)
  where
    pick :
        ((p s ≡ true) ⊎ (p s ≡ false))
        → All (λ r. p r ≡ true) (keep p ss)
        → All (λ r. p r ≡ true) (if p s then s ∷ keep p ss else keep p ss)
    pick (inl y) rest =
        subst (λ b. All (λ r. p r ≡ true) (if b then s ∷ keep p ss else keep p ss)) (sym y)
          (y, rest)
    pick (inr n) rest =
        subst (λ b. All (λ r. p r ≡ true) (if b then s ∷ keep p ss else keep p ss)) (sym n) rest

-- The row that `load_snapshot` takes satisfies its WHERE clause.
joined-first :
    (t : String) (u : Option ℕ) (db : Ledger) (s : SnapshotRecord)
    → first (joined t u db) ≡ some s
    → (s.twin_id ≡ t) × (up_to u s.sequence ≡ true)
unfolding joined
joined-first t u db s h =
    let where_clause : SnapshotRecord → Bool = λ s.
      s.twin_id == t && up_to u s.sequence && is_some (event_at s.twin_id s.sequence db.events) in
    let admitted : where_clause s ≡ true =
      first-All (λ r. where_clause r ≡ true) (joined t u db) s
        (descending-All (λ r. where_clause r ≡ true) _ (keep-All-true where_clause db.snapshots))
        h in
    ground (arith, eq_iff s.twin_id t)

module _ ⦃host : Host⦄ where
  -- A snapshot that verifies and stands at an event of the ledger.
  pub record IsLinked (s : SnapshotRecord) (events : List EventEnvelope) : Type 0 where
    pub verified : verify_snapshot s ≡ ok tt
    pub event : EventEnvelope
    pub stands : event_at s.twin_id s.sequence events ≡ some event
    pub linked : event.event_hash ≡ s.last_event_hash

  keep_or_insert-ok :
      (existing : Option SnapshotRecord) (s stored : SnapshotRecord) (db next : Ledger)
      → verify_snapshot s ≡ ok tt
      → keep_or_insert existing s db ≡ ok (stored, next)
      → (verify_snapshot stored ≡ ok tt)
        × (stored.state_hash ≡ s.state_hash)
        × (next.events ≡ db.events)
  unfolding keep_or_insert row_to_snapshot
  keep_or_insert-ok none s stored db next v h = ground arith
  keep_or_insert-ok (some e) s stored db next v h = ground (arith, eq_iff e.state_hash s.state_hash)

  -- `save_snapshot` accepts only a snapshot that verifies and stands at an event of the ledger with
  -- that hash; what it stores, or finds under the key, verifies and has the same state hash; and
  -- the events stay as they are.
  pub save_snapshot-IsLinked :
      (s stored : SnapshotRecord) (db next : Ledger)
      → save_snapshot s db ≡ ok (stored, next)
      → IsLinked s db.events
        × (verify_snapshot stored ≡ ok tt)
        × (stored.state_hash ≡ s.state_hash)
        × (next.events ≡ db.events)
  unfolding save_snapshot
  save_snapshot-IsLinked s stored db next h =
      let (v, g) = skip-eq-ok (verify_snapshot s) _ h in
      let (e, at, k) =
        >>=-eq-ok (or_raise (event_at s.twin_id s.sequence db.events) integrity_error) _ g in
      let (l, m) = ensure-eq-ok (e.event_hash == s.last_event_hash) integrity_error _ k in
      let linked : IsLinked s db.events = record {
        verified = v;
        event = e;
        stands = or_raise-eq-ok _ integrity_error at;
        linked = (eq_iff _ _).0 l;
      } in
      let (a, b, c) =
        keep_or_insert-ok (snapshot_at s.twin_id s.sequence db.snapshots) s stored db next v m in
      (linked, a, b, c)

  linked_to-ok :
      (o : Option EventEnvelope) (row s : SnapshotRecord)
      → linked_to o row ≡ ok (some s)
      → (s ≡ row)
        × (verify_snapshot s ≡ ok tt)
        × ((e : EventEnvelope) × (o ≡ some e) × (e.event_hash ≡ s.last_event_hash))
  unfolding linked_to row_to_snapshot
  linked_to-ok none row s h = cc
  linked_to-ok (some e) row s h =
      let (r, v, k) = >>=-eq-ok (row_to_snapshot row) _ h in
      let facts : (r ≡ row) × (verify_snapshot row ≡ ok tt) = ground arith in
      let (l, m) = ensure-eq-ok (e.event_hash == r.last_event_hash) integrity_error _ k in
      let same : r ≡ s = cc in
      (sym same ∙ facts.0, cc, (e, refl, (eq_iff _ _).0 l ∙ ap (λ q. q.last_event_hash) same))

  -- Whatever `load_snapshot` returns verifies, is the twin's, is not past the bound, and stands at
  -- an event of the ledger that has its hash.
  pub load_snapshot-IsLinked :
      (t : String) (u : Option ℕ) (db : Ledger) (s : SnapshotRecord)
      → load_snapshot t u db ≡ ok (some s)
      → IsLinked s db.events × (s.twin_id ≡ t) × (up_to u s.sequence ≡ true)
  unfolding load_snapshot
  load_snapshot-IsLinked t u db s h = by_row (first (joined t u db)) refl h
    where
      by_row :
          (o : Option SnapshotRecord)
          → first (joined t u db) ≡ o
          → (elim o [
            | none ↦ ok none
            | some row ↦ linked_to (event_at row.twin_id row.sequence db.events) row
          ])
            ≡ ok (some s)
          → IsLinked s db.events × (s.twin_id ≡ t) × (up_to u s.sequence ≡ true)
      by_row none f k = cc
      by_row (some row) f k =
          let (same, v, (e, at, l)) =
            linked_to-ok (event_at row.twin_id row.sequence db.events) row s k in
          let (twin, bound) = joined-first t u db s (f ∙ ap some (sym same)) in
          (
            record {
              verified = v;
              event = e;
              stands = ap (λ r. event_at r.twin_id r.sequence db.events) same ∙ at;
              linked = l;
            },
            twin,
            bound,
          )

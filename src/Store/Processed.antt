-- ===== src/Store/Processed.antt =====
-- What is left of the invalidation queue of argo_dt/event_store.py when an entry is marked.
use k2s.Prelude.{
  ℕ, ◌≡◌, refl, ap, Bool, false, not, ◌&&◌, List, [], ◌∷◌, keep, map, take, arith, eqb, length,
}
use k2s.Store.Defs.{InvalidationRow, Ledger}
use k2s.Store.Invalidations.{
  InvalidationRecord, is_pending, has_key_of, order_invalidations, invalidation_of,
  pending_invalidations, process, mark_invalidation_processed,
}

-- A row that is left for the next worker when a record is marked.
unfoldable pub is_left : InvalidationRecord → InvalidationRow → Bool
is_left q r = is_pending r && not (has_key_of q r)

keep-process :
    (q : InvalidationRecord) (now : ℕ) (rs : List InvalidationRow)
    → keep is_pending (process q now rs) ≡ keep (is_left q) rs
unfolding keep process is_left
keep-process q now [] = refl
keep-process q now (r ∷ rs) = ground (arith, keep-process q now rs)

none_left :
    (q : InvalidationRecord) (now : ℕ) (rs : List InvalidationRow)
    → keep (λ r. has_key_of q r && is_pending r) (process q now rs) ≡ []
unfolding keep process has_key_of
none_left q now [] = refl
none_left q now (r ∷ rs) = ground (arith, none_left q now rs)

-- After `mark_invalidation_processed` the pending records, up to any limit and in their order, are
-- those of the rows that were pending before and do not have the key of the record; and marking the
-- same record again finds no row and answers false.
pub mark_invalidation_processed-pending :
    (q : InvalidationRecord) (now again limit : ℕ) (db : Ledger)
    → (pending_invalidations limit (mark_invalidation_processed q now db).1
        ≡ map invalidation_of
            (take limit (order_invalidations (keep (is_left q) db.invalidations))))
      × ((mark_invalidation_processed q again (mark_invalidation_processed q now db).1).0 ≡ false)
unfolding pending_invalidations mark_invalidation_processed
mark_invalidation_processed-pending q now again limit db = (
  ap (λ rows. map invalidation_of (take limit (order_invalidations rows)))
      (keep-process q now db.invalidations),
  ap (λ rows. eqb (length rows) 1) (none_left q now db.invalidations),
)

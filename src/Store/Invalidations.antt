-- ===== src/Store/Invalidations.antt =====
-- `pending_invalidations` and `mark_invalidation_processed` of argo_dt/event_store.py. A limit that
-- is negative is treated as 0 is, and `utc_now()` is the argument `now`.
use Prim.Native.String.{compare}
use text.Mathlib.Text.{is_le}
use k2s.Prelude.{
  ℕ, String, Bool, not, ◌&&◌, some, List, [], ◌∷◌, ◌==◌, eqb, ltb, map, keep, length, if◌then◌else◌,
  is_some, take,
}
use k2s.Store.Defs.{InvalidationRow, Ledger}

pub record InvalidationRecord : Type 0 where
  pub twin_id : String
  pub deletion_sequence : ℕ
  pub source_evidence_id : String
  pub dependent_kind : String
  pub dependent_id : String
  pub created_at : ℕ

-- processed_at IS NULL
abbrev pub is_pending : InvalidationRow → Bool
is_pending r = not (is_some r.processed_at)

-- The columns twin_id, deletion_sequence, dependent_kind and dependent_id.
unfoldable pub has_key_of : InvalidationRecord → InvalidationRow → Bool
has_key_of q r =
    r.twin_id == q.twin_id
    && eqb r.deletion_sequence q.deletion_sequence
    && r.dependent_kind == q.dependent_kind
    && r.dependent_id == q.dependent_id

-- ORDER BY created_at, twin_id, deletion_sequence, dependent_kind, dependent_id
invalidation_le : InvalidationRow → InvalidationRow → Bool
invalidation_le a b =
    if eqb a.created_at b.created_at
    then (if a.twin_id == b.twin_id
        then (if eqb a.deletion_sequence b.deletion_sequence
            then (if a.dependent_kind == b.dependent_kind
                then is_le (compare a.dependent_id b.dependent_id)
                else is_le (compare a.dependent_kind b.dependent_kind))
            else ltb a.deletion_sequence b.deletion_sequence)
        else is_le (compare a.twin_id b.twin_id))
    else ltb a.created_at b.created_at

insert_invalidation : InvalidationRow → List InvalidationRow → List InvalidationRow
unfolding invalidation_le
insert_invalidation r [] = r ∷ []
insert_invalidation r (q ∷ qs) =
    let rest = insert_invalidation r qs in if invalidation_le r q then r ∷ q ∷ qs else q ∷ rest

unfoldable pub order_invalidations : List InvalidationRow → List InvalidationRow
unfolding insert_invalidation
order_invalidations [] = []
order_invalidations (r ∷ rs) = insert_invalidation r (order_invalidations rs)

abbrev pub invalidation_of : InvalidationRow → InvalidationRecord
invalidation_of r = record {
  twin_id = r.twin_id;
  deletion_sequence = r.deletion_sequence;
  source_evidence_id = r.source_evidence_id;
  dependent_kind = r.dependent_kind;
  dependent_id = r.dependent_id;
  created_at = r.created_at;
}

unfoldable pub pending_invalidations : ℕ → Ledger → List InvalidationRecord
pending_invalidations limit db =
    map invalidation_of (take limit (order_invalidations (keep is_pending db.invalidations)))

-- UPDATE dt_invalidation_queue SET processed_at = ? WHERE ...
unfoldable pub process : InvalidationRecord → ℕ → List InvalidationRow → List InvalidationRow
process q now [] = []
process q now (r ∷ rs) =
    (if has_key_of q r && is_pending r then record r { processed_at = some now } else r)
    ∷ process q now rs

unfoldable pub mark_invalidation_processed : InvalidationRecord → ℕ → Ledger → Bool × Ledger
mark_invalidation_processed q now db = (
  eqb (length (keep (λ r. has_key_of q r && is_pending r) db.invalidations)) 1,
  record db { invalidations = process q now db.invalidations },
)

-- ===== src/Store/Releases.antt =====
-- What `release_outbox` of argo_dt/event_store.py gives back.
use k2s.Prelude.{
  ℕ, String, ◌≡◌, refl, ap, false, ◌||◌, List, [], ◌∷◌, eqb, keep, arith, length, not,
}
use k2s.Store.Defs.{Ledger, OutboxRow}
use k2s.Store.Outbox.{
  OutboxRecord, is_due, is_published, update, holds, publish_row, release_row, outbox_backlog,
  mark_outbox_published, release_outbox,
}

module _ (r : OutboxRecord) (error : String) where
  -- A released row is held no more.
  holds-release :
      (rows : List OutboxRow) → keep (holds r) (update (holds r) (release_row error) rows) ≡ []
  unfolding keep update holds
  holds-release [] = refl
  holds-release (q ∷ qs) = ground (arith, holds-release qs)

  update-release :
      (now : ℕ) (rows : List OutboxRow)
      → update (holds r) (publish_row now) (update (holds r) (release_row error) rows)
        ≡ update (holds r) (release_row error) rows
  unfolding update holds
  update-release now [] = refl
  update-release now (q ∷ qs) = ground (arith, update-release now qs)

  unpublished-release :
      (rows : List OutboxRow)
      → length (keep (λ q. not (is_published q)) (update (holds r) (release_row error) rows))
        ≡ length (keep (λ q. not (is_published q)) rows)
  unfolding keep update
  unpublished-release [] = refl
  unpublished-release (q ∷ qs) = ground (arith, unpublished-release qs)

  due-release :
      (now : ℕ) (rows : List OutboxRow)
      → length (keep (is_due now) (update (holds r) (release_row error) rows))
        ≡ length (keep (λ q. is_due now q || holds r q) rows)
  unfolding keep update holds
  due-release now [] = refl
  due-release now (q ∷ qs) = ground (arith, due-release now qs)

-- After `release_outbox` the record can publish nothing and release nothing; as many rows are
-- unpublished as before; and at every time as many rows are due as were due or held by the record.
pub release_outbox-ends :
    (r : OutboxRecord) (error again : String) (now : ℕ) (db : Ledger)
    → (mark_outbox_published r now (release_outbox r error db).1
        ≡ (false, (release_outbox r error db).1))
      × ((release_outbox r again (release_outbox r error db).1).0 ≡ false)
      × (outbox_backlog (release_outbox r error db).1 ≡ outbox_backlog db)
      × (length (keep (is_due now) (release_outbox r error db).1.outbox)
          ≡ length (keep (λ q. is_due now q || holds r q) db.outbox))
unfolding mark_outbox_published release_outbox outbox_backlog
release_outbox-ends r error again now db =
    let idle = holds-release r error db.outbox in
    let counted = ap (λ rows. eqb (length rows) 1) idle in
    (
      λ i. (counted i, record db { outbox = update-release r error now db.outbox i }),
      counted,
      unpublished-release r error db.outbox,
      due-release r error now db.outbox,
    )

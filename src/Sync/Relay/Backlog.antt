-- ===== src/Sync/Relay/Backlog.antt =====
-- What a drain of `OutboxRelay` of argo_dt/sync.py takes from the backlog of the outbox.
use k2s.Prelude.{
  ℕ, suc, ◌+◌, ◌*◌, ◌≤◌, String, ◌≡◌, refl, sym, ap, ◌∙◌, Bool, true, false, not, List, [], ◌∷◌,
  Option, none, some, eqb, keep, length, take, arith, Bool-cases, inl, inr, ◌==◌, ltb,
  if◌then◌else◌,
}
use mathlib.Core.Path.{subst}
use k2s.Errors.{Result, ok, err, >>=-eq-ok, skip-eq-ok, reject_if, value_error, ◌>>◌}
use k2s.Host.{Host}
use k2s.Types.{EventEnvelope}
use k2s.Store.{
  Ledger, OutboxRow, OutboxRecord, claim_outbox, claim_rows, claim_row, mark_outbox_published,
  outbox_backlog, is_published, holds, publish_row, leased, update, takes, order_rows, is_due,
  second,
}
use k2s.Store.Releases.{release_outbox-ends}
use k2s.Sync.Relay.{
  RelayBatch, Publisher, Progress, settle, relay_record, relay_records, finish, relay_claim, drain,
}

unpublished-publish :
    (r : OutboxRecord) (now : ℕ) (rows : List OutboxRow)
    → length (keep (λ q. not (is_published q)) (update (holds r) (publish_row now) rows))
        + length (keep (holds r) rows)
      ≡ length (keep (λ q. not (is_published q)) rows)
unfolding keep update holds
unpublished-publish r now [] = refl
unpublished-publish r now (q ∷ qs) = ground (arith, unpublished-publish r now qs)

unpublished-lease :
    (p : OutboxRow → Bool) (owner : String) (until : ℕ) (rows : List OutboxRow)
    → length (keep (λ q. not (is_published q)) (update p (leased owner until) rows))
      ≡ length (keep (λ q. not (is_published q)) rows)
unfolding keep update
unpublished-lease p owner until [] = refl
unpublished-lease p owner until (q ∷ qs) = ground (arith, unpublished-lease p owner until qs)

-- How a step of the loop moves the counts and the backlog.
record Moved (b : Bool) (steps : ℕ) (p q : Progress) : Type 0 where
  monotone : outbox_backlog q.ledger ≤ outbox_backlog p.ledger
  counted : b ≡ true → q.published + q.failed ≡ steps + (p.published + p.failed)
  taken : b ≡ true → outbox_backlog q.ledger + q.published ≡ outbox_backlog p.ledger + p.published

module _ (publisher : Publisher) (clock : OutboxRecord → ℕ)
    (quiet : (e : EventEnvelope) (db : Ledger)
      → outbox_backlog (publisher e db).1 ≡ outbox_backlog db) where
  settle-Moved :
      (o : Option String) (r : OutboxRecord) (p : Progress) (db : Ledger)
      → outbox_backlog db ≡ outbox_backlog p.ledger
      → Moved (settle publisher clock o r p db).0 1 p (settle publisher clock o r p db).1
  unfolding settle mark_outbox_published outbox_backlog
  settle-Moved none r p db h =
      let less = unpublished-publish r (clock r) db.outbox in
      record {
        monotone = omega (arith, less, h);
        counted = λ one. omega arith;
        taken = λ one. ground (arith, less, h, one);
      }
  settle-Moved (some error) r p db h =
      let same = (release_outbox-ends r error error 0 db).2 in
      record {
        monotone = omega (arith, same, h);
        counted = λ one. omega arith;
        taken = λ one. omega (arith, same, h);
      }

  relay_record-Moved :
      (r : OutboxRecord) (p : Progress)
      → Moved (relay_record publisher clock r p).0 1 p (relay_record publisher clock r p).1
  unfolding relay_record
  relay_record-Moved r p =
      settle-Moved (publisher r.event p.ledger).0 r p (publisher r.event p.ledger).1
        (quiet r.event p.ledger)

  -- The loop goes on after a record that was settled, and stops at one that was not.
  relay-on :
      (r : OutboxRecord) (rs : List OutboxRecord) (p : Progress)
      → (relay_record publisher clock r p).0 ≡ true
      → relay_records publisher clock (r ∷ rs) p
        ≡ relay_records publisher clock rs (relay_record publisher clock r p).1
  unfolding relay_records
  relay-on r rs p h = rw (relay_records, h)

  relay-off :
      (r : OutboxRecord) (rs : List OutboxRecord) (p : Progress)
      → (relay_record publisher clock r p).0 ≡ false
      → relay_records publisher clock (r ∷ rs) p ≡ relay_record publisher clock r p
  unfolding relay_records relay_record settle
  relay-off r rs p h = rw (relay_records, h)

  relay_records-Moved :
      (rs : List OutboxRecord) (p : Progress)
      → Moved
          (relay_records publisher clock rs p).0
          (length rs)
          p
          (relay_records publisher clock rs p).1
  unfolding relay_records
  relay_records-Moved [] p = record {
    monotone = omega arith;
    counted = λ one. omega arith;
    taken = λ one. refl;
  }
  relay_records-Moved (r ∷ rs) p =
      let first = relay_record-Moved r p in
      let next = relay_record publisher clock r p in
      let rest = relay_records-Moved rs next.1 in
      elim (Bool-cases next.0) [
        | inl on ↦
            subst (λ x. Moved x.0 (suc (length rs)) p x.1) (sym (relay-on r rs p on))
              (record {
                monotone = omega (arith, first.monotone, rest.monotone);
                counted = λ one. omega (arith, first.counted on, rest.counted one);
                taken = λ one. omega (arith, first.taken on, rest.taken one);
              })
        | inr off ↦
            subst (λ x. Moved x.0 (suc (length rs)) p x.1) (sym (relay-off r rs p off))
              (record {
                monotone = first.monotone;
                counted = λ one. cc (one, off);
                taken = λ one. cc (one, off);
              })
      ]

-- What a drain answers, and what it leaves of a backlog.
abbrev pub Balances : ℕ → Result RelayBatch × Ledger → Type 0
Balances before (ok b, db) =
    (b.published + b.failed ≡ b.claimed) × (outbox_backlog db + b.published ≡ before)
Balances before (err x, db) = outbox_backlog db ≤ before

module _ ⦃host : Host⦄ where
  claim_row-backlog :
      (owner : String) (now until : ℕ) (s : OutboxRow) (db : Ledger) (o : Option OutboxRecord)
      (next : Ledger)
      → claim_row owner now until s db ≡ ok (o, next)
      → outbox_backlog next ≡ outbox_backlog db
  unfolding claim_row outbox_backlog
  claim_row-backlog owner now until s db o next h =
      let kept = unpublished-lease (takes now s) owner until db.outbox in ground (arith, kept)

  claim_rows-backlog :
      (owner : String) (now until : ℕ) (ss : List OutboxRow) (db next : Ledger)
      (records : List OutboxRecord)
      → claim_rows owner now until ss db ≡ ok (records, next)
      → outbox_backlog next ≡ outbox_backlog db
  unfolding claim_rows
  claim_rows-backlog owner now until [] db next records h = ap outbox_backlog (cc)
  claim_rows-backlog owner now until (s ∷ ss) db next records h =
      let ((found, claimed), one, h1) = >>=-eq-ok (claim_row owner now until s db) _ h in
      let ((others, last), more, h2) = >>=-eq-ok (claim_rows owner now until ss claimed) _ h1 in
      let same : last ≡ next = cc in
      ap outbox_backlog (sym same)
      ∙ claim_rows-backlog owner now until ss claimed last others more
      ∙ claim_row-backlog owner now until s db found claimed one

  claim_outbox-backlog :
      (owner : String) (limit lease_seconds now : ℕ) (db next : Ledger)
      (records : List OutboxRecord)
      → claim_outbox owner limit lease_seconds now db ≡ ok (records, next)
      → outbox_backlog next ≡ outbox_backlog db
  unfolding claim_outbox
  claim_outbox-backlog owner limit lease_seconds now db next records h =
      let (named, h1) = skip-eq-ok (reject_if (owner == "") value_error) _ h in
      by_limit (eqb limit 0) h1
    where
      by_limit :
          (b : Bool)
          → (if b
              then ok ([], db)
              else (reject_if (ltb lease_seconds 1) value_error
                  >> claim_rows owner now
                      (now + lease_seconds * second)
                      (take limit (order_rows (keep (is_due now) db.outbox)))
                      db))
            ≡ ok (records, next)
          → outbox_backlog next ≡ outbox_backlog db
      by_limit true k = ap outbox_backlog (cc)
      by_limit false k =
          let (leases, k1) = skip-eq-ok (reject_if (ltb lease_seconds 1) value_error) _ k in
          claim_rows-backlog owner now _ _ db next records k1

  module _ (publisher : Publisher) (clock : OutboxRecord → ℕ)
      (quiet : (e : EventEnvelope) (db : Ledger)
        → outbox_backlog (publisher e db).1 ≡ outbox_backlog db) where
    finish-Balances :
        (records : List OutboxRecord) (db : Ledger) (r : Bool × Progress)
        → Moved r.0 (length records) (record { published = 0; failed = 0; ledger = db }) r.1
        → Balances (outbox_backlog db) (finish (length records) r)
    unfolding finish
    finish-Balances records db (true, p) m =
        (omega (arith, m.counted refl), omega (arith, m.taken refl))
    finish-Balances records db (false, p) m = m.monotone

    relay_claim-Balances :
        (m : Result (List OutboxRecord × Ledger)) (db : Ledger)
        → ((records : List OutboxRecord) (next : Ledger)
            → m ≡ ok (records, next)
            → outbox_backlog next ≡ outbox_backlog db)
        → Balances (outbox_backlog db) (relay_claim publisher clock m db)
    unfolding relay_claim
    relay_claim-Balances (err x) db kept = omega arith
    relay_claim-Balances (ok (records, claimed)) db kept =
        subst (λ n. Balances n (relay_claim publisher clock (ok (records, claimed)) db))
          (kept records claimed refl)
          (finish-Balances records claimed _ (
            relay_records-Moved publisher clock quiet records
              (record { published = 0; failed = 0; ledger = claimed })))

    -- If nobody adds to the backlog, or takes from it, while an event is being published, a drain
    -- that answers has published or failed each record that it claimed, and has taken as many rows
    -- from the backlog as it has published; a drain that raises has not added to the backlog.
    pub drain-Balances :
        (lease_owner : String) (limit lease_seconds now : ℕ) (db : Ledger)
        → Balances
            (outbox_backlog db)
            (drain publisher clock lease_owner limit lease_seconds now db)
    unfolding drain
    drain-Balances lease_owner limit lease_seconds now db =
        relay_claim-Balances (claim_outbox lease_owner limit lease_seconds now db) db
          (λ records next h.
            claim_outbox-backlog lease_owner limit lease_seconds now db next records h)

-- ===== src/Store/Leases.antt =====
-- The leases of the outbox of argo_dt/event_store.py: who may publish a row, and when.
use k2s.Prelude.{
  ℕ, String, ◌≡◌, refl, ap, ◌∙◌, ◌⊎◌, inl, inr, Bool, true, false, Option, none, some, List, [],
  ◌∷◌, eq_iff, eqb, eqb_iff, keep, arith, All, Bool-cases, find_first, length, if◌then◌else◌,
}
use k2s.Errors.{Result, ok, or_raise, or_raise-eq-ok, >>=-eq-ok, skip-eq-ok, integrity_error, ◌>>=◌}
use k2s.Host.{Host}
use k2s.Types.{EventEnvelope, verify}
use k2s.Store.Defs.{Ledger, OutboxRow, row_to_event, parsed}
use k2s.Store.Snapshots.{event_at}
use k2s.Store.Outbox.{
  record_of, OutboxRecord, has_key, is_due, update, leased, takes, outbox_record, claim_row,
}

-- The row with a primary key.
abbrev pub row_of : String → ℕ → String → List OutboxRow → Option OutboxRow
row_of t n p rows = find_first (has_key t n p) rows

-- PRIMARY KEY (twin_id, sequence, topic)
abbrev pub HasKeys : List OutboxRow → Type 0
HasKeys [] = Unit
HasKeys (r ∷ rs) = All (λ q. has_key r.twin_id r.sequence r.topic q ≡ false) rs × HasKeys rs

-- What an UPDATE of the lease columns does to one row.
abbrev pub changed : (OutboxRow → Bool) → String → ℕ → OutboxRow → OutboxRow
changed hit o u r = if hit r then leased o u r else r

changed-has_key :
    (hit : OutboxRow → Bool) (o : String) (u : ℕ) (t : String) (n : ℕ) (p : String) (r : OutboxRow)
    → has_key t n p (changed hit o u r) ≡ has_key t n p r
changed-has_key hit o u t n p r = ground arith

pub update-row_of :
    (hit : OutboxRow → Bool) (o : String) (u : ℕ) (t : String) (n : ℕ) (p : String)
    (rows : List OutboxRow)
    → ((row_of t n p rows ≡ none) × (row_of t n p (update hit (leased o u) rows) ≡ none))
      ⊎ ((row : OutboxRow) × (row_of t n p rows ≡ some row)
          × (row_of t n p (update hit (leased o u) rows) ≡ some (changed hit o u row)))
unfolding update find_first
update-row_of hit o u t n p [] = inl (refl, refl)
update-row_of hit o u t n p (r ∷ rs) =
    let same : has_key t n p (changed hit o u r) ≡ has_key t n p r =
      changed-has_key hit o u t n p r in
    elim (Bool-cases (has_key t n p r)) [
      | inl y ↦ inr (r, rw y, rw (same, y))
      | inr miss ↦ elim (update-row_of hit o u t n p rs) [
        | inl (a, b) ↦ inl (rw (miss, a), rw (same, miss, b))
        | inr (row, a, b) ↦ inr (row, rw (miss, a), rw (same, miss, b))
      ]
    ]

update-All :
    (hit : OutboxRow → Bool) (o : String) (u : ℕ) (t : String) (n : ℕ) (p : String)
    (rows : List OutboxRow)
    → All (λ q. has_key t n p q ≡ false) rows
    → All (λ q. has_key t n p q ≡ false) (update hit (leased o u) rows)
unfolding update
update-All hit o u t n p [] a = tt
update-All hit o u t n p (r ∷ rs) a =
    (changed-has_key hit o u t n p r ∙ a.0, update-All hit o u t n p rs a.1)

pub update-HasKeys :
    (hit : OutboxRow → Bool) (o : String) (u : ℕ) (rows : List OutboxRow)
    → HasKeys rows
    → HasKeys (update hit (leased o u) rows)
unfolding update
update-HasKeys hit o u [] k = tt
update-HasKeys hit o u (r ∷ rs) k = (here, update-HasKeys hit o u rs k.1)
  where
    here :
        All
          (λ q.
            has_key
              (changed hit o u r).twin_id
              (changed hit o u r).sequence
              (changed hit o u r).topic
              q
            ≡ false)
          (update hit (leased o u) rs)
    here = pick (hit r)
      where
        pick :
            (b : Bool)
            → let c : OutboxRow = if b then leased o u r else r in
              All (λ q. has_key c.twin_id c.sequence c.topic q ≡ false) (update hit (leased o u) rs)
        pick true = update-All hit o u r.twin_id r.sequence r.topic rs k.0
        pick false = update-All hit o u r.twin_id r.sequence r.topic rs k.0

other-key :
    (t : String) (n : ℕ) (p : String) (r : OutboxRow) (rs : List OutboxRow)
    → has_key t n p r ≡ true
    → All (λ q. has_key r.twin_id r.sequence r.topic q ≡ false) rs
    → row_of t n p rs ≡ none
unfolding find_first
other-key t n p r [] h a = refl
other-key t n p r (q ∷ qs) h a =
    grind (arith, eq_iff r.twin_id t, eq_iff r.topic p, a.0, other-key t n p r qs h a.1)

-- An UPDATE of a key that reaches a row reaches the row of the key.
pub takes-row_of :
    (now : ℕ) (s : OutboxRow) (rows : List OutboxRow)
    → HasKeys rows
    → length (keep (takes now s) rows) ≡ 1
    → (row : OutboxRow) × (row_of s.twin_id s.sequence s.topic rows ≡ some row)
      × (is_due now row ≡ true)
unfolding keep find_first
takes-row_of now s [] k l = ground (arith, l)
takes-row_of now s (r ∷ rs) k l = elim (Bool-cases (takes now s r)) [
  | inl y ↦
      let keyed : has_key s.twin_id s.sequence s.topic r ≡ true = ground arith in
      (r, rw keyed, ground arith)
  | inr miss ↦
      let fewer : length (keep (takes now s) rs) ≡ 1 = ground arith in
      let (row, found, due) = takes-row_of now s rs k.1 fewer in
      elim (Bool-cases (has_key s.twin_id s.sequence s.topic r)) [
        | inl y ↦ ground (arith, other-key s.twin_id s.sequence s.topic r rs y k.0, found)
        | inr miss ↦ (row, rw (miss, found), due)
      ]
]

pub row_of-has_key :
    (t : String) (n : ℕ) (p : String) (rows : List OutboxRow) (row : OutboxRow)
    → row_of t n p rows ≡ some row
    → (row.twin_id ≡ t) × (row.sequence ≡ n) × (row.topic ≡ p)
unfolding find_first
row_of-has_key t n p [] row h = cc
row_of-has_key t n p (r ∷ rs) row h =
    grind (arith, eq_iff r.twin_id t, eq_iff r.topic p, row_of-has_key t n p rs row)

event_at-key :
    (t : String) (n : ℕ) (es : List EventEnvelope) (e : EventEnvelope)
    → event_at t n es ≡ some e
    → (e.twin_id ≡ t) × (e.sequence ≡ n)
unfolding event_at find_first
event_at-key t n [] e h = cc
event_at-key t n (d ∷ es) e h = grind (arith, eq_iff d.twin_id t, event_at-key t n es e)

row_to_event-ok : (d e : EventEnvelope) → row_to_event d ≡ ok e → e ≡ d
unfolding row_to_event parsed
row_to_event-ok d e h = ground arith

module _ ⦃host : Host⦄ where
  record_of-fields :
      (row : OutboxRow) (event : EventEnvelope) (o : String) (r : OutboxRecord)
      → ok (record_of row event o) ≡ ok r
      → (r.event ≡ event)
        × (r.topic ≡ row.topic)
        × (r.attempts ≡ row.attempts)
        × (r.lease_owner ≡ o)
  record_of-fields row event o r h = ground arith

  -- A record reads the row of its key.
  pub outbox_record-ok :
      (o : String) (s : OutboxRow) (db : Ledger) (r : OutboxRecord)
      → outbox_record o s db ≡ ok r
      → (row : OutboxRow) × (row_of s.twin_id s.sequence s.topic db.outbox ≡ some row)
        × (r.event.twin_id ≡ s.twin_id)
        × (r.event.sequence ≡ s.sequence)
        × (r.topic ≡ s.topic)
        × (r.attempts ≡ row.attempts)
        × (r.lease_owner ≡ o)
  unfolding outbox_record
  outbox_record-ok o s db r h =
      let (row, f, h1) =
        >>=-eq-ok (or_raise (row_of s.twin_id s.sequence s.topic db.outbox) integrity_error) _ h in
      let found = or_raise-eq-ok _ integrity_error f in
      let (stored, at, h2) =
        >>=-eq-ok (or_raise (event_at row.twin_id row.sequence db.events) integrity_error) _ h1 in
      let keyed =
        event_at-key row.twin_id row.sequence db.events stored
          (or_raise-eq-ok _ integrity_error at) in
      let (event, read, h3) = >>=-eq-ok (row_to_event stored) _ h2 in
      let same = row_to_event-ok stored event read in
      let (_, h4) = skip-eq-ok (verify event event.previous_hash) _ h3 in
      let mine = row_of-has_key s.twin_id s.sequence s.topic db.outbox row found in
      let (seen, topic, attempts, owner) = record_of-fields row event o r h4 in
      let read_event : r.event ≡ stored = seen ∙ same in
      (
        row,
        found,
        ap (λ e. e.twin_id) read_event ∙ keyed.0 ∙ mine.0,
        ap (λ e. e.sequence) read_event ∙ keyed.1 ∙ mine.1,
        topic ∙ mine.2,
        attempts,
        owner,
      )

  answer :
      (r : OutboxRecord) (claimed : Ledger) (f : Option OutboxRecord) (mid : Ledger)
      → ◌≡◌ {A = Result (Option OutboxRecord × Ledger)} (ok (some r, claimed)) (ok (f, mid))
      → (mid ≡ claimed) × (f ≡ some r)
  answer r claimed f mid k = ground arith

  pub claim_row-ok :
      (o : String) (now u : ℕ) (s : OutboxRow) (db mid : Ledger) (f : Option OutboxRecord)
      → claim_row o now u s db ≡ ok (f, mid)
      → (mid ≡ record db { outbox = update (takes now s) (leased o u) db.outbox })
        × ((f ≡ none)
            ⊎ ((r : OutboxRecord) × (f ≡ some r)
                × (length (keep (takes now s) db.outbox) ≡ 1)
                × (outbox_record o s mid ≡ ok r)))
  unfolding claim_row
  claim_row-ok o now u s db mid f h =
      elim (Bool-cases (eqb (length (keep (takes now s) db.outbox)) 1)) [
        | inr miss ↦ ground arith
        | inl y ↦
            let claimed : Ledger = record db {
              outbox = update (takes now s) (leased o u) db.outbox;
            } in
            let go : (outbox_record o s claimed >>= λ r. ok (some r, claimed)) ≡ ok (f, mid) =
              ground arith in
            let (r, got, k) = >>=-eq-ok (outbox_record o s claimed) _ go in
            let counted : length (keep (takes now s) db.outbox) ≡ 1 = (eqb_iff _ _).0 y in
            let both : (mid ≡ claimed) × (f ≡ some r) = answer r claimed f mid k in
            (both.0, inr (r, both.1, counted, ap (outbox_record o s) both.0 ∙ got))
      ]

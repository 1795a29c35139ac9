-- ===== src/Store/Outbox.antt =====
-- The transactional outbox of argo_dt/event_store.py: claims under a lease, and what ends them.
-- `utc_now()` is the argument `now`, in microseconds. A limit or a number of seconds that is
-- negative is treated as 0 is.
use Prim.Native.String.{compare}
use text.Mathlib.Text.{is_le}
use k2s.Prelude.{
  ℕ, zero, suc, ◌+◌, ◌*◌, String, Bool, true, not, ◌&&◌, Option, none, some, List, [], ◌∷◌, ◌==◌,
  eqb, ltb, leb, keep, find_first, length, if◌then◌else◌, is_some, same_option, take,
}
use k2s.Errors.{Result, ok, or_raise, reject_if, integrity_error, value_error, ◌>>=◌, ◌>>◌}
use k2s.Host.{Host}
use k2s.Types.{EventEnvelope, verify}
use k2s.Store.Defs.{Ledger, OutboxRow, row_to_event}
use k2s.Store.Snapshots.{event_at}

pub record OutboxRecord : Type 0 where
  pub topic : String
  pub key : String
  pub event : EventEnvelope
  pub created_at : ℕ
  pub attempts : ℕ
  pub lease_owner : String

abbrev pub second : ℕ
second = 1000000

-- The primary key of an outbox row.
abbrev pub has_key : String → ℕ → String → OutboxRow → Bool
has_key twin_id sequence topic r =
    r.twin_id == twin_id && eqb r.sequence sequence && r.topic == topic

abbrev pub is_published : OutboxRow → Bool
is_published r = is_some r.published_at

-- lease_until IS NULL OR lease_until <= now
abbrev pub lease_ended : ℕ → Option ℕ → Bool
lease_ended now none = true
lease_ended now (some lease_until) = leb lease_until now

abbrev pub is_due : ℕ → OutboxRow → Bool
is_due now r = not (is_published r) && lease_ended now r.lease_until

-- UPDATE dt_outbox SET ... WHERE ...
unfoldable pub update :
    (OutboxRow → Bool) → (OutboxRow → OutboxRow) → List OutboxRow → List OutboxRow
update hit change [] = []
update hit change (r ∷ rs) = (if hit r then change r else r) ∷ update hit change rs

-- error[:n]
unfoldable pub slice : ℕ → String → String
slice zero s = ""
slice (suc n) String.[] = ""
slice (suc n) (String.◌∷◌ c s) = String.◌∷◌ c (slice n s)

-- ORDER BY created_at, twin_id, sequence, topic
unfoldable pub row_le : OutboxRow → OutboxRow → Bool
row_le a b =
    if eqb a.created_at b.created_at
    then (if a.twin_id == b.twin_id
        then (if eqb a.sequence b.sequence
            then is_le (compare a.topic b.topic)
            else ltb a.sequence b.sequence)
        else is_le (compare a.twin_id b.twin_id))
    else ltb a.created_at b.created_at

unfoldable pub insert_row : OutboxRow → List OutboxRow → List OutboxRow
insert_row r [] = r ∷ []
insert_row r (q ∷ qs) = let rest = insert_row r qs in if row_le r q then r ∷ q ∷ qs else q ∷ rest

unfoldable pub order_rows : List OutboxRow → List OutboxRow
order_rows [] = []
order_rows (r ∷ rs) = insert_row r (order_rows rs)

abbrev pub leased : String → ℕ → OutboxRow → OutboxRow
leased lease_owner lease_until r = record r {
  lease_owner = some lease_owner;
  lease_until = some lease_until;
  attempts = r.attempts + 1;
}

-- The rows that the UPDATE of one selected row reaches.
abbrev pub takes : ℕ → OutboxRow → OutboxRow → Bool
takes now selected r = has_key selected.twin_id selected.sequence selected.topic r && is_due now r

abbrev pub found_first : Option OutboxRecord → List OutboxRecord → List OutboxRecord
found_first none records = records
found_first (some r) records = r ∷ records

abbrev pub record_of : OutboxRow → EventEnvelope → String → OutboxRecord
record_of row event lease_owner = record {
  topic = row.topic;
  key = row.message_key;
  event = event;
  created_at = row.created_at;
  attempts = row.attempts;
  lease_owner = lease_owner;
}

module _ ⦃host : Host⦄ where
  -- The row as it stands after its UPDATE, with its event.
  unfoldable pub outbox_record : String → OutboxRow → Ledger → Result OutboxRecord
  outbox_record lease_owner selected db = do
    row ←
        or_raise (find_first (has_key selected.twin_id selected.sequence selected.topic) db.outbox)
          integrity_error
    stored ← or_raise (event_at row.twin_id row.sequence db.events) integrity_error
    event ← row_to_event stored
    verify event event.previous_hash
    ok (record_of row event lease_owner)

  -- One turn of the loop of `claim_outbox`: an UPDATE that misses the row is passed over.
  unfoldable pub claim_row :
      String → ℕ → ℕ → OutboxRow → Ledger → Result (Option OutboxRecord × Ledger)
  claim_row lease_owner now lease_until s db =
      let claimed = record db {
        outbox = update (takes now s) (leased lease_owner lease_until) db.outbox;
      } in
      if eqb (length (keep (takes now s) db.outbox)) 1
      then (outbox_record lease_owner s claimed >>= λ r. ok (some r, claimed))
      else ok (none, claimed)

  unfoldable pub claim_rows :
      String → ℕ → ℕ → List OutboxRow → Ledger → Result (List OutboxRecord × Ledger)
  claim_rows lease_owner now lease_until [] db = ok ([], db)
  claim_rows lease_owner now lease_until (s ∷ ss) db =
      claim_row lease_owner now lease_until s db >>= λ (found, claimed).
      claim_rows lease_owner now lease_until ss claimed >>= λ (records, next).
      ok (found_first found records, next)

  unfoldable pub claim_outbox : String → ℕ → ℕ → ℕ → Ledger → Result (List OutboxRecord × Ledger)
  claim_outbox lease_owner limit lease_seconds now db =
      let selected = take limit (order_rows (keep (is_due now) db.outbox)) in
      let claim =
        reject_if (ltb lease_seconds 1) value_error
        >> claim_rows lease_owner now (now + lease_seconds * second) selected db in
      reject_if (lease_owner == "") value_error >> (if eqb limit 0 then ok ([], db) else claim)

-- What a record may still change: its own lease on an unpublished row.
unfoldable pub holds : OutboxRecord → OutboxRow → Bool
holds r row =
    has_key r.event.twin_id r.event.sequence r.topic row
    && not (is_published row)
    && same_option row.lease_owner (some r.lease_owner)
    && eqb row.attempts r.attempts

abbrev pub publish_row : ℕ → OutboxRow → OutboxRow
publish_row now row = record row {
  published_at = some now;
  lease_owner = none;
  lease_until = none;
  last_error = none;
}

unfoldable pub mark_outbox_published : OutboxRecord → ℕ → Ledger → Bool × Ledger
mark_outbox_published r now db = (
  eqb (length (keep (holds r) db.outbox)) 1,
  record db { outbox = update (holds r) (publish_row now) db.outbox },
)

abbrev pub release_row : String → OutboxRow → OutboxRow
release_row error row = record row {
  lease_owner = none;
  lease_until = none;
  last_error = some (slice 2048 error);
}

unfoldable pub release_outbox : OutboxRecord → String → Ledger → Bool × Ledger
release_outbox r error db = (
  eqb (length (keep (holds r) db.outbox)) 1,
  record db { outbox = update (holds r) (release_row error) db.outbox },
)

unfoldable pub outbox_backlog : Ledger → ℕ
outbox_backlog db = length (keep (λ r. not (is_published r)) db.outbox)

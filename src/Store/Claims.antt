-- ===== src/Store/Claims.antt =====
-- Claims of the outbox of argo_dt/event_store.py: a lease excludes other claims, and a later claim
-- fences off the record of an earlier one.
use k2s.Prelude.{
  ℕ, ◌+◌, ◌*◌, ◌<◌, String, ◌≡◌, sym, ap, ◌∙◌, ◌⊎◌, inl, inr, true, false, Option, none, some, List,
  [], ◌∷◌, ◌==◌, eq_iff, eqb, ltb, keep, arith, All, Bool-cases, take, if◌then◌else◌,
}
use mathlib.Core.Path.{subst}
use k2s.Errors.{ok, reject_if, reject_if-eq-ok, >>=-eq-ok, value_error, ◌>>◌}
use k2s.Host.{Host}
use k2s.Store.Defs.{Ledger, OutboxRow}
use k2s.Store.Outbox.{
  OutboxRecord, order_rows, second, is_due, update, leased, takes, claim_row, claim_rows,
  found_first, claim_outbox,
}
use k2s.Store.Leases.{
  row_of, HasKeys, changed, update-row_of, update-HasKeys, takes-row_of, row_of-has_key,
  outbox_record-ok, claim_row-ok,
}

-- How one UPDATE, or the whole loop, may change the row of a key.
abbrev pub Moves : ℕ → String → ℕ → String → ℕ → String → Ledger → Ledger → Type 0
Moves now o u t n p db next =
    (row_of t n p next.outbox ≡ row_of t n p db.outbox)
    ⊎ ((row : OutboxRow) × (row_of t n p db.outbox ≡ some row)
        × (is_due now row ≡ true)
        × (row_of t n p next.outbox ≡ some (leased o u row)))

-- What a claim tells of the row of a record that it returns.
pub record IsClaimed (now : ℕ) (o : String) (u : ℕ) (db next : Ledger) (r : OutboxRecord)
    : Type 0 where
  pub row : OutboxRow
  pub before : row_of r.event.twin_id r.event.sequence r.topic db.outbox ≡ some row
  pub due : is_due now row ≡ true
  pub after : row_of r.event.twin_id r.event.sequence r.topic next.outbox ≡ some (leased o u row)
  pub attempt : r.attempts ≡ row.attempts + 1
  pub owner : r.lease_owner ≡ o

-- A row that is leased beyond `now` is not due at `now`.
leased-is_due :
    (now u : ℕ) (o : String) (row : OutboxRow) → now < u → is_due now (leased o u row) ≡ false
leased-is_due now u o row l = ground arith

module _ (now : ℕ) (o : String) (u : ℕ) (lasts : now < u) where
  Moves-trans :
      (t : String) (n : ℕ) (p : String) (db mid next : Ledger)
      → Moves now o u t n p db mid
      → Moves now o u t n p mid next
      → Moves now o u t n p db next
  Moves-trans t n p db mid next (inl a) (inl b) = inl (b ∙ a)
  Moves-trans t n p db mid next (inl a) (inr (row, f, due, g)) = inr (row, sym a ∙ f, due, g)
  Moves-trans t n p db mid next (inr (row, f, due, g)) (inl b) = inr (row, f, due, b ∙ g)
  Moves-trans t n p db mid next (inr (row, f, due, g)) (inr (row2, f2, due2, g2)) =
      ground (arith, leased-is_due now u o row lasts)

  IsClaimed-after :
      (db mid next : Ledger) (r : OutboxRecord)
      → IsClaimed now o u db mid r
      → Moves now o u r.event.twin_id r.event.sequence r.topic mid next
      → IsClaimed now o u db next r
  IsClaimed-after db mid next r c (inl a) = record {
    row = c.row;
    before = c.before;
    due = c.due;
    after = a ∙ c.after;
    attempt = c.attempt;
    owner = c.owner;
  }
  IsClaimed-after db mid next r c (inr (row, f, due, g)) =
      ground (arith, leased-is_due now u o c.row lasts, c.after)

  IsClaimed-before :
      (db mid next : Ledger) (r : OutboxRecord)
      → Moves now o u r.event.twin_id r.event.sequence r.topic db mid
      → IsClaimed now o u mid next r
      → IsClaimed now o u db next r
  IsClaimed-before db mid next r (inl a) c = record {
    row = c.row;
    before = sym a ∙ c.before;
    due = c.due;
    after = c.after;
    attempt = c.attempt;
    owner = c.owner;
  }
  IsClaimed-before db mid next r (inr (row, f, due, g)) c =
      ground (arith, leased-is_due now u o row lasts, c.before, c.due)

  IsClaimed-All :
      (db mid next : Ledger) (rs : List OutboxRecord)
      → ((t : String) (n : ℕ) (p : String) → Moves now o u t n p db mid)
      → All (IsClaimed now o u mid next) rs
      → All (IsClaimed now o u db next) rs
  IsClaimed-All db mid next [] moved a = tt
  IsClaimed-All db mid next (r ∷ rs) moved a = (
    IsClaimed-before db mid next r (moved r.event.twin_id r.event.sequence r.topic) a.0,
    IsClaimed-All db mid next rs moved a.1,
  )

module _ ⦃host : Host⦄ where
  claim_row-Moves :
      (o : String) (now u : ℕ) (s : OutboxRow) (db mid : Ledger) (f : Option OutboxRecord)
      → claim_row o now u s db ≡ ok (f, mid)
      → (t : String) (n : ℕ) (p : String) → Moves now o u t n p db mid
  claim_row-Moves o now u s db mid f h t n p =
      let out : mid.outbox ≡ update (takes now s) (leased o u) db.outbox =
        ap (λ d. d.outbox) (claim_row-ok o now u s db mid f h).0 in
      let there = ap (row_of t n p) out in
      elim (update-row_of (takes now s) o u t n p db.outbox) [
        | inl (a, b) ↦ inl (there ∙ b ∙ sym a)
        | inr (row, a, b) ↦ elim (Bool-cases (takes now s row)) [
          | inl y ↦ inr (row, a, ground arith, ground (arith, there))
          | inr miss ↦ inl (ground (arith, there))
        ]
      ]

  claim_row-HasKeys :
      (o : String) (now u : ℕ) (s : OutboxRow) (db mid : Ledger) (f : Option OutboxRecord)
      → claim_row o now u s db ≡ ok (f, mid)
      → HasKeys db.outbox
      → HasKeys mid.outbox
  claim_row-HasKeys o now u s db mid f h k =
      subst HasKeys (sym (ap (λ d. d.outbox) (claim_row-ok o now u s db mid f h).0))
        (update-HasKeys (takes now s) o u db.outbox k)

  leased-row_of :
      (now : ℕ) (s : OutboxRow) (o : String) (u : ℕ) (rows : List OutboxRow) (row : OutboxRow)
      → row_of s.twin_id s.sequence s.topic rows ≡ some row
      → is_due now row ≡ true
      → row_of s.twin_id s.sequence s.topic (update (takes now s) (leased o u) rows)
        ≡ some (leased o u row)
  leased-row_of now s o u rows row f due =
      let (twin, number, topic) = row_of-has_key s.twin_id s.sequence s.topic rows row f in
      let hit : takes now s row ≡ true =
        grind (arith, eq_iff row.twin_id s.twin_id, eq_iff row.topic s.topic) in
      elim (update-row_of (takes now s) o u s.twin_id s.sequence s.topic rows) [
        | inl (a, b) ↦ cc
        | inr (row2, a, b) ↦
            let same : row2 ≡ row = ground (arith, a, f) in
            b
            ∙ ap some (
                ap (changed (takes now s) o u) same
                ∙ ap (λ x. if x then leased o u row else row) hit)
      ]

  claim_row-IsClaimed :
      (o : String) (now u : ℕ) (s : OutboxRow) (db mid : Ledger) (r : OutboxRecord)
      → claim_row o now u s db ≡ ok (some r, mid)
      → HasKeys db.outbox
      → IsClaimed now o u db mid r
  claim_row-IsClaimed o now u s db mid r h k =
      let (out, found) = claim_row-ok o now u s db mid (some r) h in
      elim found [
        | inl absent ↦ cc
        | inr (q, same, counted, got) ↦
            let (row, f, due) = takes-row_of now s db.outbox k counted in
            let (row2, f2, twin, number, topic, attempts, owner) = outbox_record-ok o s mid q got in
            let leased_row : row_of s.twin_id s.sequence s.topic mid.outbox
                ≡ some (leased o u row) =
              ap (λ d. row_of s.twin_id s.sequence s.topic d.outbox) out
              ∙ leased-row_of now s o u db.outbox row f due in
            let is_row : row2 ≡ leased o u row = ground (arith, f2, leased_row) in
            let is_r : r ≡ q = ground (arith, same) in
            subst (λ x. IsClaimed now o u db mid x) (sym is_r)
              (record {
                row = row;
                before = rw (twin, number, topic, f);
                due = due;
                after = rw (twin, number, topic, leased_row);
                attempt = attempts ∙ ap (λ x. x.attempts) is_row;
                owner = owner;
              })
      ]

  claim_rows-Moves :
      (o : String) (now u : ℕ)
      → now < u
      → (ss : List OutboxRow) (db next : Ledger) (rs : List OutboxRecord)
      → claim_rows o now u ss db ≡ ok (rs, next)
      → (t : String) (n : ℕ) (p : String) → Moves now o u t n p db next
  unfolding claim_rows
  claim_rows-Moves o now u l [] db next rs h t n p = inl (ground arith)
  claim_rows-Moves o now u l (s ∷ ss) db next rs h t n p =
      let ((f, mid), here, g) = >>=-eq-ok (claim_row o now u s db) _ h in
      let ((found, end), rest, k) = >>=-eq-ok (claim_rows o now u ss mid) _ g in
      let same : end ≡ next = ground arith in
      Moves-trans now o u l t n p db mid next (claim_row-Moves o now u s db mid f here t n p)
        (claim_rows-Moves o now u l ss mid next found (rest ∙ ap (λ d. ok (found, d)) same) t n p)

  with_first :
      (o : String) (now u : ℕ)
      → now < u
      → (s : OutboxRow) (ss : List OutboxRow) (db mid next : Ledger) (f : Option OutboxRecord)
        (found : List OutboxRecord)
      → claim_row o now u s db ≡ ok (f, mid)
      → claim_rows o now u ss mid ≡ ok (found, next)
      → HasKeys db.outbox
      → All (IsClaimed now o u db next) found
      → All (IsClaimed now o u db next) (found_first f found)
  with_first o now u l s ss db mid next none found here there k a = a
  with_first o now u l s ss db mid next (some r) found here there k a = (
    IsClaimed-after now o u l db mid next r (claim_row-IsClaimed o now u s db mid r here k) (
        claim_rows-Moves o now u l ss mid next found there r.event.twin_id r.event.sequence
          r.topic),
    a,
  )

  claim_rows-IsClaimed :
      (o : String) (now u : ℕ)
      → now < u
      → (ss : List OutboxRow) (db next : Ledger) (rs : List OutboxRecord) → HasKeys db.outbox
      → claim_rows o now u ss db ≡ ok (rs, next)
      → All (IsClaimed now o u db next) rs
  unfolding claim_rows
  claim_rows-IsClaimed o now u l [] db next rs k h =
      let none_found : [] ≡ rs = ground arith in
      subst (All (IsClaimed now o u db next)) none_found tt
  claim_rows-IsClaimed o now u l (s ∷ ss) db next rs k h =
      let ((f, mid), here, g) = >>=-eq-ok (claim_row o now u s db) _ h in
      let ((found, end), rest, e) = >>=-eq-ok (claim_rows o now u ss mid) _ g in
      let same : end ≡ next = ground arith in
      let listed : found_first f found ≡ rs = ground arith in
      let moved = claim_row-Moves o now u s db mid f here in
      let there : claim_rows o now u ss mid ≡ ok (found, next) =
        rest ∙ ap (λ d. ok (found, d)) same in
      let later = IsClaimed-All now o u l db mid next found moved (
        claim_rows-IsClaimed o now u l ss mid next found
          (claim_row-HasKeys o now u s db mid f here k) there) in
      subst (All (IsClaimed now o u db next)) listed
        (with_first o now u l s ss db mid next f found here there k later)

  -- A claim that succeeds has a lease of at least a second, and is the loop or nothing.
  claim_outbox-ok :
      (o : String) (limit secs now : ℕ) (db next : Ledger) (rs : List OutboxRecord)
      → claim_outbox o limit secs now db ≡ ok (rs, next)
      → ((rs ≡ []) × (next ≡ db))
        ⊎ ((ss : List OutboxRow) × (now < now + secs * second)
            × (claim_rows o now (now + secs * second) ss db ≡ ok (rs, next)))
  unfolding claim_outbox
  claim_outbox-ok o limit secs now db next rs h =
      let (_, g) = reject_if-eq-ok (o == "") value_error _ h in
      elim (Bool-cases (eqb limit 0)) [
        | inl none_asked ↦ inl (ground arith)
        | inr some_asked ↦
            let selected = take limit (order_rows (keep (is_due now) db.outbox)) in
            let run : (reject_if (ltb secs 1) value_error
                  >> claim_rows o now (now + secs * second) selected db)
                ≡ ok (rs, next) =
              ground arith in
            let (enough, k) = reject_if-eq-ok (ltb secs 1) value_error _ run in
            let lasts : now < now + secs * second = ground arith in inr (selected, lasts, k)
      ]

  -- Where the outbox keeps its primary key, every record that a claim returns is of a row that was
  -- unpublished and not under a lease; it is now leased to the claimer until `lease_seconds` from
  -- now, and the record has the number of that attempt.
  pub claim_outbox-IsClaimed :
      (o : String) (limit secs now : ℕ) (db next : Ledger) (rs : List OutboxRecord)
      → HasKeys db.outbox
      → claim_outbox o limit secs now db ≡ ok (rs, next)
      → All (IsClaimed now o (now + secs * second) db next) rs
  claim_outbox-IsClaimed o limit secs now db next rs k h =
      elim (claim_outbox-ok o limit secs now db next rs h) [
        | inl (a, _) ↦ subst (All (IsClaimed now o (now + secs * second) db next)) (sym a) tt
        | inr (ss, l, g) ↦ claim_rows-IsClaimed o now (now + secs * second) l ss db next rs k g
      ]

  claim_rows-HasKeys :
      (o : String) (now u : ℕ) (ss : List OutboxRow) (db next : Ledger) (rs : List OutboxRecord)
      → claim_rows o now u ss db ≡ ok (rs, next)
      → HasKeys db.outbox
      → HasKeys next.outbox
  unfolding claim_rows
  claim_rows-HasKeys o now u [] db next rs h k =
      let same : db ≡ next = ground arith in subst {A = Ledger} (λ d. HasKeys d.outbox) same k
  claim_rows-HasKeys o now u (s ∷ ss) db next rs h k =
      let ((f, mid), here, g) = >>=-eq-ok (claim_row o now u s db) _ h in
      let ((found, end), rest, e) = >>=-eq-ok (claim_rows o now u ss mid) _ g in
      let same : end ≡ next = ground arith in
      subst (λ d. HasKeys d.outbox) same
        (claim_rows-HasKeys o now u ss mid end found rest
          (claim_row-HasKeys o now u s db mid f here k))

  pub claim_outbox-HasKeys :
      (o : String) (limit secs now : ℕ) (db next : Ledger) (rs : List OutboxRecord)
      → claim_outbox o limit secs now db ≡ ok (rs, next)
      → HasKeys db.outbox
      → HasKeys next.outbox
  claim_outbox-HasKeys o limit secs now db next rs h k =
      elim (claim_outbox-ok o limit secs now db next rs h) [
        | inl (_, a) ↦ subst (λ d. HasKeys d.outbox) (sym a) k
        | inr (ss, l, g) ↦ claim_rows-HasKeys o now (now + secs * second) ss db next rs g k
      ]

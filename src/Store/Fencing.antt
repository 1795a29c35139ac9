-- ===== src/Store/Fencing.antt =====
-- What a lease of the outbox of argo_dt/event_store.py is worth: no second claim while it lasts, and
-- no effect of an old record after it.
use k2s.Prelude.{
  ℕ, ◌+◌, ◌*◌, ◌<◌, String, ◌≡◌, ◌≢◌, refl, sym, ap, ◌∙◌, inl, inr, Bool, true, false, ◌&&◌, some,
  List, Memᴰ, All-Memᴰ, [], ◌∷◌, ◌==◌, eq_iff, eqb, keep, arith, All, Bool-cases, find_first,
  length,
}
use k2s.Errors.{ok}
use k2s.Host.{Host}
use k2s.Store.Defs.{Ledger, OutboxRow}
use k2s.Store.Outbox.{
  OutboxRecord, publish_row, second, has_key, update, leased, claim_outbox, holds,
  mark_outbox_published,
}
use k2s.Store.Leases.{row_of, HasKeys, row_of-has_key}
use k2s.Store.Claims.{IsClaimed, claim_outbox-IsClaimed, claim_outbox-HasKeys}

-- Whether two records are of one row.
abbrev pub same_row : OutboxRecord → OutboxRecord → Bool
same_row r q =
    r.event.twin_id == q.event.twin_id
    && eqb r.event.sequence q.event.sequence
    && r.topic == q.topic

-- Where the row of its key is not held, a record holds nothing.
holds-none :
    (r : OutboxRecord) (now : ℕ) (rows : List OutboxRow)
    → All (λ q. has_key r.event.twin_id r.event.sequence r.topic q ≡ false) rows
    → (keep (holds r) rows ≡ []) × (update (holds r) (publish_row now) rows ≡ rows)
unfolding keep holds update
holds-none r now [] a = (refl, refl)
holds-none r now (q ∷ qs) a = ground (arith, holds-none r now qs a.1, a.0)

other-All :
    (t : String) (n : ℕ) (p : String) (r : OutboxRow) (rs : List OutboxRow)
    → has_key t n p r ≡ true
    → All (λ q. has_key r.twin_id r.sequence r.topic q ≡ false) rs
    → All (λ q. has_key t n p q ≡ false) rs
other-All t n p r [] h a = tt
other-All t n p r (q ∷ qs) h a =
    (grind (arith, eq_iff r.twin_id t, eq_iff r.topic p, a.0), other-All t n p r qs h a.1)

holds-row_of :
    (r : OutboxRecord) (now : ℕ) (rows : List OutboxRow) (row : OutboxRow)
    → HasKeys rows
    → row_of r.event.twin_id r.event.sequence r.topic rows ≡ some row
    → holds r row ≡ false
    → (keep (holds r) rows ≡ []) × (update (holds r) (publish_row now) rows ≡ rows)
unfolding keep update find_first holds
holds-row_of r now [] row k f h = (refl, refl)
holds-row_of r now (q ∷ qs) row k f h =
    elim (Bool-cases (has_key r.event.twin_id r.event.sequence r.topic q)) [
      | inl y ↦
          let mine : q ≡ row = ground arith in
          let idle : holds r q ≡ false = ap (holds r) mine ∙ h in
          ground (
            arith,
            idle,
            holds-none r now qs (other-All r.event.twin_id r.event.sequence r.topic q qs y k.0),
          )
      | inr miss ↦ ground (arith, holds-row_of r now qs row k.1)
    ]

holds-once :
    (r : OutboxRecord) (rows : List OutboxRow) (row : OutboxRow)
    → HasKeys rows
    → row_of r.event.twin_id r.event.sequence r.topic rows ≡ some row
    → holds r row ≡ true
    → length (keep (holds r) rows) ≡ 1
unfolding keep find_first holds
holds-once r [] row k f h = cc
holds-once r (q ∷ qs) row k f h =
    elim (Bool-cases (has_key r.event.twin_id r.event.sequence r.topic q)) [
      | inl y ↦
          let mine : q ≡ row = ground arith in
          let busy : holds r q ≡ true = ap (holds r) mine ∙ h in
          let idle =
            holds-none r 0 qs (other-All r.event.twin_id r.event.sequence r.topic q qs y k.0) in
          ground (arith, busy, idle)
      | inr miss ↦ ground (arith, holds-once r qs row k.1)
    ]

publish-row_of :
    (r : OutboxRecord) (now : ℕ) (rows : List OutboxRow) (row : OutboxRow)
    → row_of r.event.twin_id r.event.sequence r.topic rows ≡ some row
    → holds r row ≡ true
    → row_of r.event.twin_id r.event.sequence r.topic (update (holds r) (publish_row now) rows)
      ≡ some (publish_row now row)
unfolding update find_first
publish-row_of r now [] row f h = cc
publish-row_of r now (q ∷ qs) row f h =
    elim (Bool-cases (has_key r.event.twin_id r.event.sequence r.topic q)) [
      | inl y ↦
          let mine : q ≡ row = ground arith in
          let busy : holds r q ≡ true = ap (holds r) mine ∙ h in ground (arith, busy)
      | inr miss ↦
          let idle : holds r q ≡ false = unfold holds in ground arith in
          ground (arith, idle, publish-row_of r now qs row)
    ]

holds-attempts :
    (r : OutboxRecord) (row : OutboxRow) → row.attempts ≢ r.attempts → holds r row ≡ false
unfolding holds
holds-attempts r row d = ground arith

-- The record of a claim holds the row of its key for as long as the row is as the claim left it.
IsClaimed-holds :
    (now : ℕ) (o : String) (u : ℕ) (db next : Ledger) (r : OutboxRecord)
    → (c : IsClaimed now o u db next r) → holds r (leased o u c.row) ≡ true
unfolding holds
IsClaimed-holds now o u db next r c =
    let (twin, number, topic) =
      row_of-has_key r.event.twin_id r.event.sequence r.topic db.outbox c.row c.before in
    grind (
      arith,
      c.due,
      c.attempt,
      c.owner,
      eq_iff c.row.twin_id r.event.twin_id,
      eq_iff c.row.topic r.topic,
      eq_iff o r.lease_owner,
    )

module _ ⦃host : Host⦄ where
  -- Where the outbox keeps its primary key: while the lease of a claim lasts, no claim, by whomever,
  -- returns a record of a row that the first claim returned.
  pub claim_outbox-excludes :
      (o o2 : String) (limit limit2 secs secs2 now now2 : ℕ) (db mid next : Ledger)
      (rs qs : List OutboxRecord) (r q : OutboxRecord)
      → HasKeys db.outbox
      → claim_outbox o limit secs now db ≡ ok (rs, mid)
      → now2 < now + secs * second
      → claim_outbox o2 limit2 secs2 now2 mid ≡ ok (qs, next)
      → Memᴰ r rs
      → Memᴰ q qs
      → same_row r q ≡ false
  claim_outbox-excludes o o2 limit limit2 secs secs2 now now2 db mid next rs qs r q k c l d m n =
      let a = All-Memᴰ _ rs r (claim_outbox-IsClaimed o limit secs now db mid rs k c) m in
      let b =
        All-Memᴰ _ qs q
          (claim_outbox-IsClaimed o2 limit2 secs2 now2 mid next qs
            (claim_outbox-HasKeys o limit secs now db mid rs c k) d)
          n in
      elim (Bool-cases (same_row r q)) [
        | inr other ↦ other
        | inl y ↦
            let keys : (r.event.twin_id ≡ q.event.twin_id)
                × (r.event.sequence ≡ q.event.sequence)
                × (r.topic ≡ q.topic) =
              grind (arith, eq_iff r.event.twin_id q.event.twin_id, eq_iff r.topic q.topic) in
            let found : some (leased o (now + secs * second) a.row) ≡ some b.row =
              sym a.after ∙ rw (keys.0, keys.1, keys.2, b.before) in
            ground (arith, found, b.due, l)
      ]

  -- Where the outbox keeps its primary key: once a later claim has returned a record of the row, the
  -- record of the earlier claim publishes nothing and changes nothing.
  pub mark_outbox_published-fenced :
      (o o2 : String) (limit limit2 secs secs2 now now2 later : ℕ) (db mid next : Ledger)
      (rs qs : List OutboxRecord) (r q : OutboxRecord)
      → HasKeys db.outbox
      → claim_outbox o limit secs now db ≡ ok (rs, mid)
      → claim_outbox o2 limit2 secs2 now2 mid ≡ ok (qs, next)
      → Memᴰ r rs
      → Memᴰ q qs
      → same_row r q ≡ true
      → mark_outbox_published r later next ≡ (false, next)
  unfolding mark_outbox_published
  mark_outbox_published-fenced o o2 limit limit2 secs secs2 now now2 later db mid next rs qs r q k c
        d m n y =
      let k1 = claim_outbox-HasKeys o limit secs now db mid rs c k in
      let a = All-Memᴰ _ rs r (claim_outbox-IsClaimed o limit secs now db mid rs k c) m in
      let b = All-Memᴰ _ qs q (claim_outbox-IsClaimed o2 limit2 secs2 now2 mid next qs k1 d) n in
      let keys : (r.event.twin_id ≡ q.event.twin_id)
          × (r.event.sequence ≡ q.event.sequence)
          × (r.topic ≡ q.topic) =
        grind (arith, eq_iff r.event.twin_id q.event.twin_id, eq_iff r.topic q.topic) in
      let found : some (leased o (now + secs * second) a.row) ≡ some b.row =
        sym a.after ∙ rw (keys.0, keys.1, keys.2, b.before) in
      let row = leased o2 (now2 + secs2 * second) b.row in
      let there : row_of r.event.twin_id r.event.sequence r.topic next.outbox ≡ some row =
        rw (keys.0, keys.1, keys.2, b.after) in
      let more : b.row.attempts ≡ a.row.attempts + 1 = ground (arith, found) in
      let older : holds r row ≡ false = holds-attempts r row (omega (arith, a.attempt, more)) in
      let (none_held, unchanged) =
        holds-row_of r later next.outbox row
          (claim_outbox-HasKeys o2 limit2 secs2 now2 mid next qs d k1) there older in
      ground (arith, none_held, unchanged)

  -- Where the outbox keeps its primary key: while the row of a record that a claim has returned stands
  -- as the claim left it, whatever else the ledger has become, the record publishes the row.
  pub mark_outbox_published-claimed :
      (o : String) (limit secs now later : ℕ) (db mid far : Ledger) (rs : List OutboxRecord)
      (r : OutboxRecord)
      → HasKeys db.outbox
      → claim_outbox o limit secs now db ≡ ok (rs, mid)
      → Memᴰ r rs
      → HasKeys far.outbox
      → row_of r.event.twin_id r.event.sequence r.topic far.outbox
        ≡ row_of r.event.twin_id r.event.sequence r.topic mid.outbox
      → ((mark_outbox_published r later far).0 ≡ true)
        × ((row : OutboxRow) × (row_of r.event.twin_id r.event.sequence r.topic
                (mark_outbox_published r later far).1.outbox
              ≡ some row)
            × (row.published_at ≡ some later))
  unfolding mark_outbox_published
  mark_outbox_published-claimed o limit secs now later db mid far rs r k c m keys untouched =
      let a = All-Memᴰ _ rs r (claim_outbox-IsClaimed o limit secs now db mid rs k c) m in
      let row = leased o (now + secs * second) a.row in
      let held : holds r row ≡ true = IsClaimed-holds now o (now + secs * second) db mid r a in
      let there = untouched ∙ a.after in
      let one : length (keep (holds r) far.outbox) ≡ 1 =
        holds-once r far.outbox row keys there held in
      (
        ground (arith, one),
        (publish_row later row, publish-row_of r later far.outbox row there held, refl),
      )

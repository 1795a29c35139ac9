-- ===== src/Store/Chain.antt =====
-- The hash chain: what `verify_chain` accepts, and that `append` extends it.
use k2s.Prelude.{
  ℕ, ◌+◌, ◌≤◌, String, ◌≡◌, refl, ◌⊎◌, List, [], ◌∷◌, ◌++◌, ◌==◌, eq_iff, eq_refl, any, keep, arith,
}
use k2s.Errors.{ok, reject_if-eq-ok, >>=-eq-ok, sqlite_integrity_error}
use k2s.Host.{Host}
use k2s.Types.{EventEnvelope, hash_material, seal, verify}
use k2s.Store.Defs.{Ledger, newest}
use k2s.Store.Index.{index_dependencies, invalidate}
use k2s.Store.Append.{twin_events, head, position, insert_event, outbox_row}

-- The end of a chain that begins after `(n, h)`.
abbrev pub chain_end : ℕ → String → List EventEnvelope → ℕ × String
chain_end n h [] = (n, h)
chain_end n h (e ∷ es) = chain_end e.sequence e.event_hash es

module _ ⦃host : Host⦄ where
  -- Consecutive sequences, each event verified against the hash before it.
  abbrev pub Chained : ℕ → String → List EventEnvelope → Type 0
  Chained n h [] = Unit
  Chained n h (e ∷ es) =
      (e.sequence ≡ n + 1) × (verify e h ≡ ok tt) × Chained e.sequence e.event_hash es

  -- Every twin's rows are a chain from the origin.
  pub record IsChained (db : Ledger) : Type 0 where
    pub chained : (t : String) → Chained 0 "" (twin_events t db.events)

  pub Chained-append :
      (n : ℕ) (h : String) (es : List EventEnvelope) (e : EventEnvelope)
      → Chained n h es
      → e.sequence ≡ (chain_end n h es).0 + 1
      → verify e (chain_end n h es).1 ≡ ok tt
      → Chained n h (es ++ e ∷ [])
  Chained-append n h [] e c s v = (s, v, tt)
  Chained-append n h (d ∷ es) e c s v =
      (c.0, c.1, Chained-append d.sequence d.event_hash es e c.2 s v)

  chain_end-le :
      (n : ℕ) (h : String) (es : List EventEnvelope) → Chained n h es → n ≤ (chain_end n h es).0
  chain_end-le n h [] c = omega arith
  chain_end-le n h (e ∷ es) c = omega (arith, chain_end-le e.sequence e.event_hash es c.2)

  -- The head is the end of the chain.
  newest-Chained :
      (n : ℕ) (h : String) (e : EventEnvelope) (es : List EventEnvelope)
      → Chained n h (e ∷ es)
      → position (newest (e ∷ es)) ≡ chain_end n h (e ∷ es)
  unfolding newest
  newest-Chained n h e [] c = refl
  newest-Chained n h e (d ∷ es) c = ground (
    arith,
    newest-Chained e.sequence e.event_hash d es c.2,
    chain_end-le d.sequence d.event_hash es c.2.2,
  )

  -- A sealed event verifies against the hash that it was sealed to.
  pub verify-seal : (e : EventEnvelope) (n now : ℕ) (h : String) → verify (seal e n h now) h ≡ ok tt
  unfolding verify seal hash_material
  verify-seal e n now h = simp (eq_refl)

  -- The head of a chained ledger.
  pub head-IsChained :
      (db : Ledger) (t : String)
      → IsChained db
      → head db t ≡ chain_end 0 "" (twin_events t db.events)
  unfolding head newest
  head-IsChained db t c = origin (twin_events t db.events) (c.chained t)
    where
      origin :
          (es : List EventEnvelope) → Chained 0 "" es → position (newest es) ≡ chain_end 0 "" es
      origin [] c = refl
      origin (e ∷ es) c = newest-Chained 0 "" e es c

  -- The rows of a twin after an insert.
  pub twin_events-insert :
      (t : String) (es : List EventEnvelope) (s : EventEnvelope)
      → ((s.twin_id ≡ t) × (twin_events t (es ++ s ∷ []) ≡ twin_events t es ++ s ∷ []))
        ⊎ (twin_events t (es ++ s ∷ []) ≡ twin_events t es)
  unfolding twin_events keep
  twin_events-insert t [] s = ground (arith, eq_iff s.twin_id t)
  twin_events-insert t (e ∷ es) s = ground (arith, twin_events-insert t es s)

  -- The index leaves the events alone.
  index_dependencies-events :
      (s : EventEnvelope) (db : Ledger) {next : Ledger}
      → index_dependencies s db ≡ ok next
      → (next.events ≡ db.events) × (next.snapshots ≡ db.snapshots) × (next.outbox ≡ db.outbox)
  unfolding index_dependencies invalidate
  index_dependencies-events s db h = ground arith

  pub insert_event-events :
      (s : EventEnvelope) (db : Ledger) {next : Ledger}
      → insert_event s db ≡ ok next
      → (next.events ≡ db.events ++ s ∷ [])
        × (next.snapshots ≡ db.snapshots)
        × (next.outbox ≡ db.outbox ++ outbox_row s ∷ [])
  unfolding insert_event
  insert_event-events s db h =
      let (_, g) =
        reject_if-eq-ok (any (λ r. r.event_id == s.event_id) db.events) sqlite_integrity_error _
          h in
      let (indexed, i, k) = >>=-eq-ok (index_dependencies s _) _ g in
      grind (arith, index_dependencies-events s _ i)

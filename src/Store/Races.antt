-- ===== src/Store/Races.antt =====
-- Writers of one twin that expect the same head: `append` of argo_dt/event_store.py.
use k2s.Prelude.{
  ℕ, ◌+◌, ◌≤◌, String, ◌≡◌, ◌≢◌, sym, ap, ◌∙◌, true, false, Option, none, some, List, [], ◌∷◌, ◌++◌,
  ◌==◌, eq_iff, arith, append_assoc, keep, Bool-cases, inl, inr,
}
use mathlib.Core.Path.{subst}
use k2s.Errors.{ok, err, concurrency_conflict}
use k2s.Host.{Host}
use k2s.Types.{EventEnvelope, simulation, same_plane, event_v2, seal}
use k2s.Store.Defs.{Ledger, newest, later}
use k2s.Store.Append.{twin_events, head, position, append, append_new, find_duplicate}
use k2s.Store.Appends.{append-ok, retried, stored}

later-own : (s : EventEnvelope) (o : Option EventEnvelope) → s.sequence ≤ (later s o).sequence
unfolding later
later-own s none = omega arith
later-own s (some f) = ground arith

later-other :
    (n : ℕ) (e : EventEnvelope) (o : Option EventEnvelope)
    → n ≤ (position o).0
    → n ≤ (later e o).sequence
unfolding later
later-other n e none h = omega arith
later-other n e (some f) h = ground arith

-- No event of a twin is later than the newest one.
newest-le :
    (twin_id : String) (es more : List EventEnvelope) (s : EventEnvelope)
    → (s.twin_id == twin_id) ≡ true
    → s.sequence ≤ (position (newest (twin_events twin_id (es ++ s ∷ more)))).0
unfolding newest twin_events keep
newest-le twin_id [] more s own = rw own (later-own s (newest (twin_events twin_id more)))
newest-le twin_id (e ∷ es) more s own = elim (Bool-cases (e.twin_id == twin_id)) [
  | inl mine ↦ rw mine (
      later-other s.sequence e (newest (twin_events twin_id (es ++ s ∷ more)))
        (newest-le twin_id es more s own))
  | inr other ↦ rw other (newest-le twin_id es more s own)
]

module _ ⦃host : Host⦄ where
  -- A writer that expects another sequence than the head's is refused.
  append-conflict :
      (e : EventEnvelope) (n now : ℕ) (db : Ledger)
      → e.schema_version ≡ event_v2
      → same_plane e.plane simulation ≡ false
      → find_duplicate e db.events ≡ none
      → (head db e.twin_id).0 ≢ n
      → append e n now db ≡ err concurrency_conflict
  unfolding append append_new
  append-conflict e n now db v p f d = ground (arith, eq_iff e.schema_version event_v2)

  -- Of writers of one twin that expect the same head, one stores its event: once an append has stored
  -- an event at a sequence, an append of another request to that twin that expects the same sequence
  -- or an earlier one is refused with ConcurrencyConflict, on the ledger that the first has left and
  -- on any to which events have been added since. The request is of version 2, not of the simulation
  -- plane, and has an idempotency key that the twin does not have yet.
  pub append-append_race :
      (e r : EventEnvelope) (n m now late : ℕ) (db far : Ledger) (more : List EventEnvelope)
      {s : EventEnvelope} {next : Ledger}
      → find_duplicate e db.events ≡ none
      → append e n now db ≡ ok (s, next)
      → far.events ≡ next.events ++ more
      → r.twin_id ≡ e.twin_id
      → m ≤ n
      → r.schema_version ≡ event_v2
      → same_plane r.plane simulation ≡ false
      → find_duplicate r far.events ≡ none
      → append r m late far ≡ err concurrency_conflict
  unfolding seal head
  append-append_race e r n m now late db far more {s = s} {next = next} fresh h grew twin order v p
        f =
      elim (append-ok e n now db h) [
        | retried known same ↦ cc (fresh, known)
        | stored _ at sealed grown _ _ ↦
            let own : (s.twin_id == r.twin_id) ≡ true =
              (eq_iff s.twin_id r.twin_id).1 (ap (λ q. q.twin_id) sealed ∙ sym twin) in
            let events : far.events ≡ db.events ++ s ∷ more =
              grew ∙ ap (λ es. es ++ more) grown ∙ append_assoc db.events s more in
            let reached : s.sequence ≤ (head far r.twin_id).0 =
              subst (λ es. s.sequence ≤ (position (newest (twin_events r.twin_id es))).0)
                (sym events) (newest-le r.twin_id db.events more s own) in
            let number : s.sequence ≡ n + 1 = ap (λ q. q.sequence) sealed in
            append-conflict r m late far v p f (λ e. omega (arith, e, reached, number, order))
      ]

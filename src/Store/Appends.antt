-- ===== src/Store/Appends.antt =====
-- What `append` of argo_dt/event_store.py does to the chain, to a retry and to a stale writer.
use k2s.Prelude.{
  ℕ, ◌+◌, String, ◌≡◌, refl, sym, ap, ◌∙◌, inl, inr, true, false, Option, none, some, List, [], ◌∷◌,
  ◌++◌, ◌==◌, eq_iff, eqb, eq_refl, arith, find_first, same_option,
}
use mathlib.Core.Path.{subst}
use k2s.Errors.{
  ok, ensure-eq-ok, reject_if-eq-ok, >>=-eq-ok, invariant_violation, concurrency_conflict,
}
use k2s.Host.{Host, DateTime, aware, naive}
use k2s.Types.{
  EventEnvelope, EventPlane, simulation, same_plane, same_role_refl, event_v2, seal, verify,
}
use k2s.Store.Defs.{Ledger, later, row_to_event, parsed}
use k2s.Store.Append.{
  same_time, twin_events, head, insert_event, append_new, append, resolve_duplicate, find_duplicate,
  same_request, outbox_row,
}
use k2s.Store.Chain.{
  Chained, IsChained, chain_end, Chained-append, head-IsChained, twin_events-insert,
  insert_event-events, verify-seal,
}

module _ ⦃host : Host⦄ where
  -- What a successful append returns.
  pub data Appended (e : EventEnvelope) (n now : ℕ) (db : Ledger) (s : EventEnvelope)
      (next : Ledger) : Type 0 where
    retried : find_duplicate e db.events ≡ some s → next ≡ db → Appended e n now db s next
    stored :
        find_duplicate e db.events ≡ none
        → (head db e.twin_id).0 ≡ n
        → s ≡ seal e (n + 1) (head db e.twin_id).1 now
        → next.events ≡ db.events ++ s ∷ []
        → next.snapshots ≡ db.snapshots
        → next.outbox ≡ db.outbox ++ outbox_row s ∷ []
        → Appended e n now db s next

  resolve_duplicate-ok :
      (d e : EventEnvelope) (db : Ledger) {s : EventEnvelope} {next : Ledger}
      → resolve_duplicate d e db ≡ ok (s, next)
      → (s ≡ d) × (next ≡ db)
  unfolding resolve_duplicate row_to_event
  resolve_duplicate-ok d e db h = ground arith

  append_new-ok :
      (e : EventEnvelope) (n now : ℕ) (db : Ledger) {s : EventEnvelope} {next : Ledger}
      → find_duplicate e db.events ≡ none
      → append_new e n now db ≡ ok (s, next)
      → Appended e n now db s next
  unfolding append_new
  append_new-ok e n now db {s = s} {next = next} f h =
      let p = head db e.twin_id in
      let sealed = seal e (p.0 + 1) p.1 now in
      let (q, g) = ensure-eq-ok (eqb p.0 n) concurrency_conflict _ h in
      let (out, i, k) = >>=-eq-ok (insert_event sealed db) _ g in
      let same : p.0 ≡ n = ground arith in
      let (events, snapshots, rows) = insert_event-events sealed db i in
      let here : s ≡ sealed = cc in let after : next ≡ out = cc in stored f same (cc) (cc) (cc) (cc)

  pub append-ok :
      (e : EventEnvelope) (n now : ℕ) (db : Ledger) {s : EventEnvelope} {next : Ledger}
      → append e n now db ≡ ok (s, next)
      → Appended e n now db s next
  unfolding append
  append-ok e n now db {s = s} {next = next} h =
      let (_, g) = ensure-eq-ok (e.schema_version == event_v2) invariant_violation _ h in
      let (_, k) = reject_if-eq-ok (same_plane e.plane simulation) invariant_violation _ g in
      by_duplicate (find_duplicate e db.events) refl k
    where
      by_duplicate :
          (d : Option EventEnvelope)
          → find_duplicate e db.events ≡ d
          → (elim d [
            | some duplicate ↦ resolve_duplicate duplicate e db
            | none ↦ append_new e n now db
          ])
            ≡ ok (s, next)
          → Appended e n now db s next
      by_duplicate none f k = append_new-ok e n now db f k
      by_duplicate (some d) f k = let (a, b) = resolve_duplicate-ok d e db k in retried (cc) b

  -- A sealed event goes to the end of its twin's chain.
  insert-IsChained :
      (e : EventEnvelope) (n now : ℕ) (db : Ledger) (s : EventEnvelope) (next : Ledger)
      → IsChained db
      → (head db e.twin_id).0 ≡ n
      → s ≡ seal e (n + 1) (head db e.twin_id).1 now
      → next.events ≡ db.events ++ s ∷ []
      → (t : String) → Chained 0 "" (twin_events t next.events)
  unfolding seal
  insert-IsChained e n now db s next c at sealed grown t = elim (twin_events-insert t db.events s) [
    | inr same ↦ subst (Chained 0 "") (sym (ap (twin_events t) grown ∙ same)) (c.chained t)
    | inl (twin, more) ↦
        let es = twin_events t db.events in
        let same : e.twin_id ≡ t = sym (ap (λ r. r.twin_id) sealed) ∙ twin in
        let end_of : head db e.twin_id ≡ chain_end 0 "" es =
          ap (head db) same ∙ head-IsChained db t c in
        let next_sequence : s.sequence ≡ (chain_end 0 "" es).0 + 1 =
          ap (λ r. r.sequence) sealed ∙ ap (λ m. m + 1) (sym at ∙ ap (λ p. p.0) end_of) in
        let linked : verify s (chain_end 0 "" es).1 ≡ ok tt =
          subst (λ h. verify s h ≡ ok tt) (ap (λ p. p.1) end_of)
            (subst (λ r. verify r (head db e.twin_id).1 ≡ ok tt) (sym sealed)
              (verify-seal e (n + 1) now (head db e.twin_id).1)) in
        subst (Chained 0 "") (sym (ap (twin_events t) grown ∙ more))
          (Chained-append 0 "" es s (c.chained t) next_sequence linked)
  ]

  -- `append` keeps every twin's chain, whether it stores the event or finds it stored.
  pub append-IsChained :
      (e : EventEnvelope) (n now : ℕ) (db : Ledger) {s : EventEnvelope} {next : Ledger}
      → IsChained db
      → append e n now db ≡ ok (s, next)
      → IsChained next
  append-IsChained e n now db {s = s} {next = next} c h = elim (append-ok e n now db h) [
    | retried f same ↦ subst IsChained (sym same) c
    | stored f at sealed grown _ _ ↦ record {
      chained = insert-IsChained e n now db s next c at sealed grown;
    }
  ]

  same_option_refl : (o : Option String) → same_option o o ≡ true
  same_option_refl none = refl
  same_option_refl (some a) = eq_refl a

  same_time_refl : (d : DateTime) → same_time d d ≡ true
  unfolding same_time
  same_time_refl (aware a) = ground arith
  same_time_refl (naive a) = ground arith

  same_plane_refl : (p : EventPlane) → same_plane p p ≡ true
  same_plane_refl p = ground arith

  same_request-seal :
      (e : EventEnvelope) (n now : ℕ) (h : String) → same_request (seal e n h now) e ≡ true
  unfolding same_request seal
  same_request-seal e n now h =
      simp (eq_refl, same_option_refl, same_time_refl, same_plane_refl, same_role_refl)

  find_duplicate-append :
      (e s : EventEnvelope) (es : List EventEnvelope)
      → find_duplicate e es ≡ none
      → s.twin_id ≡ e.twin_id
      → s.idempotency_key ≡ e.idempotency_key
      → find_duplicate e (es ++ s ∷ []) ≡ some s
  unfolding find_duplicate find_first
  find_duplicate-append e s [] f a b =
      ground (arith, eq_iff s.twin_id e.twin_id, eq_iff s.idempotency_key e.idempotency_key)
  find_duplicate-append e s (d ∷ es) f a b = ground (arith, find_duplicate-append e s es)

  -- Events that come later do not hide a duplicate.
  find_duplicate-more :
      (e d : EventEnvelope) (es more : List EventEnvelope)
      → find_duplicate e es ≡ some d
      → find_duplicate e (es ++ more) ≡ some d
  unfolding find_duplicate find_first
  find_duplicate-more e d [] more f = cc
  find_duplicate-more e d (r ∷ es) more f = ground (arith, find_duplicate-more e d es more)

  append-resolves :
      (e : EventEnvelope) (m later : ℕ) (db : Ledger) (d : EventEnvelope)
      → e.schema_version ≡ event_v2
      → same_plane e.plane simulation ≡ false
      → find_duplicate e db.events ≡ some d
      → append e m later db ≡ resolve_duplicate d e db
  unfolding append
  append-resolves e m later db d v p f = ground (arith, eq_iff e.schema_version event_v2)

  resolve_duplicate-elsewhere :
      (d e : EventEnvelope) (db far next : Ledger) (s : EventEnvelope)
      → resolve_duplicate d e db ≡ ok (s, next)
      → resolve_duplicate d e far ≡ ok (s, far)
  unfolding resolve_duplicate row_to_event
  resolve_duplicate-elsewhere d e db far next s h = ground arith

  resolve_duplicate-same :
      (d e : EventEnvelope) (t : ℕ) (far : Ledger)
      → d.occurred_at ≡ aware t
      → same_request d e ≡ true
      → resolve_duplicate d e far ≡ ok (d, far)
  unfolding resolve_duplicate row_to_event parsed
  resolve_duplicate-same d e t far o r = ground arith

  append-guards :
      (e : EventEnvelope) (n now : ℕ) (db : Ledger) {r : EventEnvelope × Ledger}
      → append e n now db ≡ ok r
      → (e.schema_version ≡ event_v2) × (same_plane e.plane simulation ≡ false)
  unfolding append
  append-guards e n now db h =
      let (v, g) = ensure-eq-ok (e.schema_version == event_v2) invariant_violation _ h in
      let (p, k) = reject_if-eq-ok (same_plane e.plane simulation) invariant_violation _ g in
      (grind (arith, eq_iff e.schema_version event_v2), p)

  -- A retry of an append with an aware `occurred_at`, on the ledger that the append left or on one to
  -- which any events have been added since, returns the stored event and changes nothing, whatever
  -- sequence it expects.
  pub append-retry :
      (e : EventEnvelope) (n now m later t : ℕ) (db far : Ledger) (more : List EventEnvelope)
      {s : EventEnvelope} {next : Ledger}
      → e.occurred_at ≡ aware t
      → append e n now db ≡ ok (s, next)
      → far.events ≡ next.events ++ more
      → append e m later far ≡ ok (s, far)
  unfolding seal
  append-retry e n now m later t db far more {s = s} {next = next} o h grew =
      let (v, p) = append-guards e n now db h in
      elim (append-ok e n now db h) [
        | retried f same ↦
            let found : find_duplicate e far.events ≡ some s =
              ap (find_duplicate e) grew
              ∙ find_duplicate-more e s next.events more
                  (ap (λ d. find_duplicate e d.events) same ∙ f) in
            append-resolves e m later far s v p found
            ∙ resolve_duplicate-elsewhere s e db far next s
                (sym (append-resolves e n now db s v p f) ∙ h)
        | stored f at sealed grown _ _ ↦
            let found : find_duplicate e far.events ≡ some s =
              ap (find_duplicate e) grew
              ∙ find_duplicate-more e s next.events more (
                  ap (find_duplicate e) grown
                  ∙ find_duplicate-append e s db.events f (ap (λ r. r.twin_id) sealed)
                      (ap (λ r. r.idempotency_key) sealed)) in
            append-resolves e m later far s v p found
            ∙ resolve_duplicate-same s e t far (ap (λ r. r.occurred_at) sealed ∙ o) (
                ap (λ r. same_request r e) sealed
                ∙ same_request-seal e (n + 1) now (head db e.twin_id).1)
      ]

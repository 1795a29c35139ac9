-- ===== src/Service/Kept.antt =====
-- `append` of argo_dt/service.py keeps every twin replayable.
use k2s.Prelude.{
  ℕ, ◌+◌, String, ◌≡◌, ◌≢◌, refl, sym, ap, ◌∙◌, ◌⊎◌, inl, inr, true, false, none, List, [], ◌∷◌,
  ◌++◌, eqb, arith, All, All-append, Bool-cases,
}
use mathlib.Core.Path.{subst}
use k2s.Errors.{ok, reject_if-eq-ok, skip-eq-ok, invariant_violation, ◌>>=◌}
use k2s.Host.{Host, DateTime, aware, naive}
use k2s.Types.{EventEnvelope, simulation, same_plane, seal, verify, ActorContext}
use k2s.Ownership.{authorize}
use k2s.Aggregate.{
  TwinState, empty_state, validate_event, validate_envelope, is_aware, apply, replay,
}
use k2s.Aggregate.Replay.{replay-append}
use k2s.Store.{Ledger, head, twin_events}
use k2s.Store as Store
use k2s.Store.Chain.{twin_events-insert, verify-seal}
use k2s.Store.Stream.{IsAware}
use k2s.Store.Appends.{retried, stored, append-ok, append-IsChained}
use k2s.Service.Restamp.{succeeds}
use k2s.Service.Defs.{preview, preview_at_head, append}
use k2s.Service.Replayable.{
  IsReplayed, IsReplayable, rebuild-IsReplayable, preview-ok, seal-restamp, succeeds-true,
}

module _ ⦃host : Host⦄ where
  validate_event-IsAware : (e : EventEnvelope) → validate_event e ≡ ok tt → IsAware e
  unfolding validate_event validate_envelope is_aware
  validate_event-IsAware e h = by_time e.occurred_at refl
    where
      by_time : (d : DateTime) → e.occurred_at ≡ d → IsAware e
      by_time (aware t) o = (t, o)
      by_time (naive t) o = ground arith

  -- One sealed event more, that the current state accepts, goes on with the replay.
  replay-sealed :
      (s : TwinState) (e : EventEnvelope) (es : List EventEnvelope) (t : String) (now : ℕ)
      (h : String)
      → replay none (empty_state t) "" es ≡ ok s
      → s.last_event_hash ≡ h
      → succeeds (apply s (seal e (s.sequence + 1) h now)) ≡ true
      → (out : TwinState) × (replay none
            (empty_state t)
            ""
            (es ++ seal e (s.sequence + 1) h now ∷ [])
          ≡ ok out)
  unfolding replay seal
  replay-sealed s e es t now h done at good =
      let d = seal e (s.sequence + 1) h now in
      let (out, applied) = succeeds-true (apply s d) good in
      let linked : verify d s.last_event_hash ≡ ok tt =
        ap (verify d) at ∙ verify-seal e (s.sequence + 1) now h in
      let last : replay none s s.last_event_hash (d ∷ []) ≡ ok out =
        ground (arith, linked, applied) in
      (
        out,
        replay-append (empty_state t) es (d ∷ [])
            ∙ ap (λ m. m >>= λ mid. replay none mid mid.last_event_hash (d ∷ [])) done
            ∙ last,
      )

  grown-replayed :
      (cur : TwinState) (e : EventEnvelope) (db : Ledger) (s : EventEnvelope) (t : String)
      (n now : ℕ) (h : String)
      → replay none (empty_state e.twin_id) "" (twin_events e.twin_id db.events) ≡ ok cur
      → cur.sequence ≡ n
      → cur.last_event_hash ≡ h
      → succeeds (apply cur (seal e (n + 1) h now)) ≡ true
      → s ≡ seal e (n + 1) h now
      → e.twin_id ≡ t
      → (out : TwinState) × (replay none (empty_state t) "" (twin_events t db.events ++ s ∷ [])
          ≡ ok out)
  grown-replayed cur e db s t n now h folded number hash good sealed twin =
      subst
        (λ u.
          (out : TwinState) × (replay none (empty_state u) "" (twin_events u db.events ++ s ∷ [])
            ≡ ok out))
        twin
        (subst
          (λ d.
            (out : TwinState) × (replay none (empty_state e.twin_id) ""
                (twin_events e.twin_id db.events ++ d ∷ [])
              ≡ ok out))
          (ap (λ m. seal e (m + 1) h now) number ∙ sym sealed)
          (replay-sealed cur e (twin_events e.twin_id db.events) e.twin_id now h folded hash
            (ap (λ m. succeeds (apply cur (seal e (m + 1) h now))) number ∙ good)))

  grown-readable :
      (s : EventEnvelope) (db next : Ledger)
      → ((t : String) → All IsReplayed (twin_events t db.events))
      → next.events ≡ db.events ++ s ∷ []
      → IsReplayed s
      → (t : String) → All IsReplayed (twin_events t next.events)
  grown-readable s db next r grown good t = elim (twin_events-insert t db.events s) [
    | inr same ↦ subst (All IsReplayed) (sym (ap (twin_events t) grown ∙ same)) (r t)
    | inl (_, more) ↦
        subst (All IsReplayed) (sym (ap (twin_events t) grown ∙ more))
          (All-append IsReplayed (twin_events t db.events) (s ∷ []) (r t) (good, tt))
  ]

  append-ok-store :
      (e : EventEnvelope) (actor : ActorContext) (n p now : ℕ) (db : Ledger)
      {r : EventEnvelope × Ledger}
      → append e actor n p now db ≡ ok r
      → (validate_event e ≡ ok tt)
        × (same_plane e.plane simulation ≡ false)
        × (((head db e.twin_id).0 ≢ n) ⊎ (preview e n p db ≡ ok tt))
        × (Store.append e n now db ≡ ok r)
  unfolding append
  append-ok-store e actor n p now db h =
      let (_, g) = skip-eq-ok (authorize e actor) _ h in
      let (valid, g2) = skip-eq-ok (validate_event e) _ g in
      let (off, g3) = reject_if-eq-ok (same_plane e.plane simulation) invariant_violation _ g2 in
      let (tried, done) = skip-eq-ok (preview_at_head e n p db) _ g3 in
      (valid, off, by_head tried, done)
    where
      by_head :
          preview_at_head e n p db ≡ ok tt
          → ((head db e.twin_id).0 ≢ n) ⊎ (preview e n p db ≡ ok tt)
      by_head tried = elim (Bool-cases (eqb (head db e.twin_id).0 n)) [
        | inl y ↦ inr (ground arith)
        | inr miss ↦ inl (ground arith)
      ]

  -- `append` keeps every twin's stream replayable: if each one is a chain that a rebuild accepts,
  -- so is each one after the append, the new event included. What the current state refuses is
  -- never stored.
  pub append-IsReplayable :
      (e : EventEnvelope) (actor : ActorContext) (n p now : ℕ) (db : Ledger) {s : EventEnvelope}
      {next : Ledger}
      → IsReplayable db
      → append e actor n p now db ≡ ok (s, next)
      → IsReplayable next
  unfolding seal
  append-IsReplayable e actor n p now db {s = s} {next = next} r h =
      let (valid, off, tried, done) = append-ok-store e actor n p now db h in
      elim (append-ok e n now db done) [
        | retried f same ↦ subst IsReplayable (sym same) r
        | stored f at sealed grown _ _ ↦
            let (cur, rebuilt, folded, stands) = rebuild-IsReplayable db e.twin_id r in
            let good : succeeds (apply cur (seal e (n + 1) (head db e.twin_id).1 now)) ≡ true =
              sym (seal-restamp e (n + 1) p now (head db e.twin_id).1 cur)
              ∙ preview-ok e n p db cur rebuilt (previewed at tried) in
            let number : cur.sequence ≡ n = ap (λ q. q.0) stands ∙ at in
            let aware_event = validate_event-IsAware e valid in
            record {
              chained = append-IsChained e n now db r.chained done;
              readable = grown-readable s db next r.readable grown (
                ap (λ d. same_plane d.plane simulation) sealed ∙ off,
                (aware_event.0, ap (λ d. d.occurred_at) sealed ∙ aware_event.1),
              );
              replayed = λ t. elim (twin_events-insert t db.events s) [
                | inr same ↦
                    let (x, d) = r.replayed t in
                    (x, ap (replay none (empty_state t) "") (ap (twin_events t) grown ∙ same) ∙ d)
                | inl (twin, more) ↦
                    let (x, d) =
                      grown-replayed cur e db s t n now (head db e.twin_id).1 folded number
                        (ap (λ q. q.1) stands) good sealed
                        (sym (ap (λ d. d.twin_id) sealed) ∙ twin) in
                    (x, ap (replay none (empty_state t) "") (ap (twin_events t) grown ∙ more) ∙ d)
              ];
            }
      ]
    where
      previewed :
          (head db e.twin_id).0 ≡ n
          → ((head db e.twin_id).0 ≢ n) ⊎ (preview e n p db ≡ ok tt)
          → preview e n p db ≡ ok tt
      previewed at (inl other) = elim (other at) [ ]
      previewed at (inr tried) = tried

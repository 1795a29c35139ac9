-- ===== src/Service/Replayable.antt =====
-- The service's promise: `append` of argo_dt/service.py stores only what a replay accepts.
use k2s.Prelude.{
  ℕ, ◌+◌, String, ◌≡◌, refl, sym, ap, ◌∙◌, inl, inr, true, false, not, ◌||◌, none, List, [], ◌∷◌,
  ◌==◌, eqb, keep, arith, All, any,
}
use k2s.Errors.{Result, ok, err, reject_if-eq-ok, >>=-eq-ok, concurrency_conflict, ◌>>=◌}
use k2s.Host.{Host}
use k2s.Types.{EventEnvelope, simulation, same_plane, seal}
use k2s.Aggregate.{TwinState, empty_state, apply, replay}
use k2s.Aggregate.Replay.{apply-eq, replay-step, apply-last_event_hash}
use k2s.Store.{Ledger, head, load, twin_events}
use k2s.Store.Chain.{IsChained, Chained, chain_end, head-IsChained}
use k2s.Store.Stream.{IsAware, load-IsChained, in_range, limited}
use k2s.Service.Restamp.{succeeds, apply-restamp}
use k2s.Service.Defs.{replayed_planes, rebuild, preview}

-- What a stored event of the twins' streams is.
abbrev pub IsReplayed : EventEnvelope → Type 0
IsReplayed e = (same_plane e.plane simulation ≡ false) × IsAware e

module _ ⦃host : Host⦄ where
  -- A ledger of which every twin can be rebuilt.
  pub record IsReplayable (db : Ledger) : Type 0 where
    pub chained : IsChained db
    pub readable : (t : String) → All IsReplayed (twin_events t db.events)
    pub replayed :
        (t : String)
        → (s : TwinState) × (replay none (empty_state t) "" (twin_events t db.events) ≡ ok s)

  -- Replay ends at the end of the chain.
  replay-chain_end :
      (s : TwinState) (es : List EventEnvelope) (out : TwinState)
      → replay none s s.last_event_hash es ≡ ok out
      → (out.sequence, out.last_event_hash) ≡ chain_end s.sequence s.last_event_hash es
  unfolding replay
  replay-chain_end s [] out h = ground arith
  replay-chain_end s (e ∷ es) out h = elim (replay-step none s s.last_event_hash e es out h) [
    | inl (after, _) ↦ cc
    | inr (next, _, at, _, applied, rest) ↦
        let (mid, _, _, _, same) = apply-eq s next e applied in
        let number : next.sequence ≡ e.sequence = ap (λ x. x.sequence) same in
        let hash = apply-last_event_hash s next e applied in
        let later = replay-chain_end next es out (ap (λ x. replay none next x es) hash ∙ rest) in
        later ∙ rw (number, hash)
  ]

  in_range-IsReplayed :
      (es : List EventEnvelope)
      → (n : ℕ) (h : String) → Chained n h es
      → All IsReplayed es
      → keep (in_range (replayed_planes none)) es ≡ es
  unfolding keep any
  in_range-IsReplayed [] n h c a = refl
  in_range-IsReplayed (e ∷ es) n h c a =
      ground (arith, c.0, a.0.0, in_range-IsReplayed es e.sequence e.event_hash c.2 a.1)

  readable-IsAware : (es : List EventEnvelope) → All IsReplayed es → All IsAware es
  readable-IsAware [] a = tt
  readable-IsAware (e ∷ es) a = (a.0.1, readable-IsAware es a.1)

  -- A replayable ledger rebuilds every twin, to the fold of its events, a state that stands at the
  -- head of its stream.
  pub rebuild-IsReplayable :
      (db : Ledger) (t : String)
      → IsReplayable db
      → (s : TwinState) × (rebuild t none none db ≡ ok s)
        × (replay none (empty_state t) "" (twin_events t db.events) ≡ ok s)
        × ((s.sequence, s.last_event_hash) ≡ head db t)
  unfolding rebuild limited
  rebuild-IsReplayable db t r =
      let (s, done) = r.replayed t in
      let es = twin_events t db.events in
      let loaded : load t (replayed_planes none) db ≡ ok es =
        load-IsChained db t (replayed_planes none) r.chained (readable-IsAware es (r.readable t))
        ∙ ap ok (in_range-IsReplayed es 0 "" (r.chained.chained t) (r.readable t)) in
      (
        s,
        ap (λ m. m >>= replay none (empty_state t) "") loaded ∙ done,
        done,
        replay-chain_end (empty_state t) es s done ∙ sym (head-IsChained db t r.chained),
      )

  -- An append that previewed its event stores one that the replay accepts.
  pub preview-ok :
      (e : EventEnvelope) (n p : ℕ) (db : Ledger) (s : TwinState)
      → rebuild e.twin_id none none db ≡ ok s
      → preview e n p db ≡ ok tt
      → succeeds (apply s (seal e (n + 1) (head db e.twin_id).1 p)) ≡ true
  unfolding preview
  preview-ok e n p db s r h =
      let (s2, r2, g) = >>=-eq-ok (rebuild e.twin_id none none db) _ h in
      let (_, k) =
        reject_if-eq-ok
          (not (eqb s2.sequence (head db e.twin_id).0)
            || not (s2.last_event_hash == (head db e.twin_id).1))
          concurrency_conflict _ g in
      let (out, applied, _) = >>=-eq-ok (apply s2 (seal e (n + 1) (head db e.twin_id).1 p)) _ k in
      let same : s ≡ s2 = ground (arith, r, r2) in
      ap (λ x. succeeds (apply x (seal e (n + 1) (head db e.twin_id).1 p))) same
      ∙ ap succeeds applied

  pub seal-restamp :
      (e : EventEnvelope) (n p now : ℕ) (h : String) (s : TwinState)
      → succeeds (apply s (seal e n h p)) ≡ succeeds (apply s (seal e n h now))
  unfolding seal
  seal-restamp e n p now h s = apply-restamp (seal e n h now) p (seal e n h p).event_hash s

  pub succeeds-true : (m : Result TwinState) → succeeds m ≡ true → (s : TwinState) × (m ≡ ok s)
  succeeds-true (ok s) h = (s, refl)
  succeeds-true (err x) h = cc

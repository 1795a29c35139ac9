-- ===== src/Sync/Durable/Chain.antt =====
-- What one call of `__anext__` of argo_dt/sync.py takes from the stream.
use k2s.Prelude.{
  ℕ, zero, suc, String, ◌≡◌, refl, sym, ap, ◌∙◌, Bool, true, false, List, [], ◌∷◌, ◌++◌, leb,
  length, arith, All, if◌then◌else◌,
}
use mathlib.Core.Path.{subst}
use k2s.Errors.{Error, ok, integrity_error, backpressure_exceeded}
use k2s.Host.{Host}
use k2s.Types.{EventEnvelope, EventPlane}
use k2s.Store.{Ledger}
use k2s.Sync.Position.{StreamPosition}
use k2s.Sync.Durable.State.{
  Durable, Outcome, delivered, raised, stopped, waits, spent, Source, count_backpressure, aclose,
  passes_filters, advance_ack, advance_ack_if, admitted,
}
use k2s.Sync.Durable.Loop.{
  hand_over, close_on, use_candidate, after_candidate, next_candidate, rounds, deliver, budget,
  anext,
}
use k2s.Sync.Durable.Moves.{position_of, Follows, Moves, next_candidate-Moves}

abbrev pub answer : Outcome → List EventEnvelope
answer (delivered e source) = e ∷ []
answer (raised x) = []
answer stopped = []
answer waits = []
answer spent = []

abbrev pub SameFilters : Durable → Durable → Type 0
SameFilters d c = (c.event_types ≡ d.event_types) × (c.planes ≡ d.planes)

All-admitted :
    (ts us : List String) (ps qs : List EventPlane) (b : Bool) (es : List EventEnvelope)
    → us ≡ ts
    → qs ≡ ps
    → All (λ e. admitted us qs e ≡ b) es
    → All (λ e. admitted ts ps e ≡ b) es
All-admitted ts us ps qs b [] h k a = tt
All-admitted ts us ps qs b (e ∷ es) h k a = (cc, All-admitted ts us ps qs b es h k a.1)

module _ ⦃host : Host⦄ where
  -- Events one after another, by number and by hash, from one position to another.
  abbrev pub Advances : StreamPosition → List EventEnvelope → StreamPosition → Type 0
  Advances p [] q = q ≡ p
  Advances p (e ∷ es) q = Follows p e × Advances (position_of e) es q

  -- A call passes over events that the filters exclude, and answers with one that they admit.
  pub record ReadsOn (d : Durable) (r : Outcome × Durable) : Type 0 where
    pub skipped : List EventEnvelope
    pub excluded : All (λ e. passes_filters d e ≡ false) skipped
    pub admits : All (λ e. passes_filters d e ≡ true) (answer r.0)
    pub chain : Advances d.position (skipped ++ answer r.0) r.1.position
    pub same_filters : SameFilters d r.1

  aclose-same : (d : Durable) → ((aclose d).position ≡ d.position) × SameFilters d (aclose d)
  unfolding aclose
  aclose-same d = ground arith

  advance_ack-same :
      (d : Durable) → ((advance_ack d).position ≡ d.position) × SameFilters d (advance_ack d)
  unfolding advance_ack advance_ack_if
  advance_ack-same d = by_outstanding d.outstanding
    where
      by_outstanding :
          (ps : List StreamPosition)
          → ((advance_ack_if ps d).position ≡ d.position) × SameFilters d (advance_ack_if ps d)
      by_outstanding [] = (refl, (refl, refl))
      by_outstanding (p ∷ ps) = (refl, (refl, refl))

  ReadsOn-cons :
      (d c : Durable) (e : EventEnvelope) (r : Outcome × Durable)
      → Follows d.position e
      → c.position ≡ position_of e
      → SameFilters d c
      → passes_filters d e ≡ false
      → ReadsOn c r
      → ReadsOn d r
  ReadsOn-cons d c e r follows moved (ts, ps) out reads = record {
    skipped = e ∷ reads.skipped;
    excluded = (
      out,
      All-admitted d.event_types c.event_types d.planes c.planes false reads.skipped ts ps
          reads.excluded,
    );
    admits =
        All-admitted d.event_types c.event_types d.planes c.planes true (answer r.0) ts ps
          reads.admits;
    chain = (
      follows,
      subst (λ p. Advances p (reads.skipped ++ answer r.0) r.1.position) moved reads.chain,
    );
    same_filters = (reads.same_filters.0 ∙ ts, reads.same_filters.1 ∙ ps);
  }

  -- A call that answers with no event, and has not moved.
  ReadsOn-stay :
      (d c : Durable) (o : Outcome)
      → answer o ≡ []
      → c.position ≡ d.position
      → SameFilters d c
      → ReadsOn d (o, c)
  ReadsOn-stay d c o h p v = record {
    skipped = [];
    excluded = tt;
    admits = subst (All (λ e. passes_filters d e ≡ true)) (sym h) tt;
    chain = subst (λ es. Advances d.position es c.position) (sym h) p;
    same_filters = v;
  }

  hand_over-ReadsOn :
      (e : EventEnvelope) (source : Source) (d c : Durable)
      → Moves d (delivered e source, c)
      → passes_filters c e ≡ true
      → ReadsOn d (hand_over e source (ok (position_of e)) c)
  unfolding hand_over
  hand_over-ReadsOn e source d c (follows, moved, (o, a, l, ts, ps)) in_ = record {
    skipped = [];
    excluded = tt;
    admits = (
      ap (λ us. admitted us d.planes e) (sym ts)
          ∙ ap (λ qs. admitted c.event_types qs e) (sym ps)
          ∙ in_,
      tt,
    );
    chain = (follows, moved);
    same_filters = (ts, ps);
  }

  close_on-same :
      (x : Error) (d : Durable)
      → ((close_on x d).position ≡ d.position) × SameFilters d (close_on x d)
  unfolding close_on
  close_on-same integrity_error d = aclose-same d
  close_on-same _ d = (refl, (refl, refl))

  module _ (again : Durable → Outcome × Durable) (ih : (c : Durable) → ReadsOn c (again c)) where
    use_candidate-ReadsOn :
        (b : Bool) (e : EventEnvelope) (source : Source) (d c : Durable)
        → Moves d (delivered e source, c)
        → passes_filters c e ≡ b
        → ReadsOn d (use_candidate again b e source c)
    unfolding use_candidate
    use_candidate-ReadsOn true e source d c m h =
        subst (λ r. ReadsOn d (hand_over e source r c)) (sym m.0.2)
          (hand_over-ReadsOn e source d c m h)
    use_candidate-ReadsOn false e source d c (follows, moved, (o, a, l, ts, ps)) h =
        let (stays, (us, qs)) = advance_ack-same c in
        ReadsOn-cons d (advance_ack c) e (again (advance_ack c)) follows (stays ∙ moved)
          (us ∙ ts, qs ∙ ps)
          (ap (λ vs. admitted vs d.planes e) (sym ts)
            ∙ ap (λ vs. admitted c.event_types vs e) (sym ps)
            ∙ h)
          (ih (advance_ack c))

    after_candidate-ReadsOn :
        (d : Durable) (r : Outcome × Durable) → Moves d r → ReadsOn d (after_candidate again r)
    unfolding after_candidate
    after_candidate-ReadsOn d (delivered e source, c) m =
        use_candidate-ReadsOn (passes_filters c e) e source d c m refl
    after_candidate-ReadsOn d (raised x, c) (p, (o, a, l, ts, ps)) =
        let (q, (us, qs)) = close_on-same x c in
        ReadsOn-stay d (close_on x c) (raised x) refl (q ∙ p) (us ∙ ts, qs ∙ ps)
    after_candidate-ReadsOn d (stopped, c) (p, (o, a, l, ts, ps)) =
        ReadsOn-stay d c stopped refl p (ts, ps)
    after_candidate-ReadsOn d (waits, c) (p, (o, a, l, ts, ps)) =
        ReadsOn-stay d c waits refl p (ts, ps)
    after_candidate-ReadsOn d (spent, c) (p, (o, a, l, ts, ps)) =
        ReadsOn-stay d c spent refl p (ts, ps)

  deliver-ReadsOn : (fuel : ℕ) (db : Ledger) (d : Durable) → ReadsOn d (deliver fuel db d)
  unfolding deliver
  deliver-ReadsOn zero db d = ReadsOn-stay d d spent refl refl (refl, refl)
  deliver-ReadsOn (suc fuel) db d =
      after_candidate-ReadsOn (deliver fuel db) (deliver-ReadsOn fuel db) d
        (next_candidate (rounds d) db d) (next_candidate-Moves (rounds d) db d)

  either-ReadsOn :
      (d : Durable) (b : Bool) (r q : Outcome × Durable)
      → ReadsOn d r
      → ReadsOn d q
      → ReadsOn d (if b then r else q)
  either-ReadsOn d true r q h k = h
  either-ReadsOn d false r q h k = k

  -- Whatever the store and the queue hold, a call of `__anext__` moves the stream along a chain of
  -- events in which each is the next one by number and verifies against the hash before it: first
  -- the events that the filters exclude, then the one that it answers with, which they admit, if it
  -- answers with one.
  pub anext-ReadsOn : (db : Ledger) (d : Durable) → ReadsOn d (anext db d)
  unfolding anext
  anext-ReadsOn db d =
      either-ReadsOn d d.closed _ _ (ReadsOn-stay d d stopped refl refl (refl, refl)) (
        either-ReadsOn d (leb d.limits.max_in_flight (length d.outstanding)) _ _
          (ReadsOn-stay d (aclose (count_backpressure d)) (raised backpressure_exceeded) refl
            (aclose-same (count_backpressure d)).0 (aclose-same (count_backpressure d)).1)
          (deliver-ReadsOn (suc (budget db d)) db d))

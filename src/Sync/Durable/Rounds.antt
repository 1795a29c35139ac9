-- ===== src/Sync/Durable/Rounds.antt =====
-- The loop of `_next_candidate` of argo_dt/sync.py ends: its fuel is never used up.
use k2s.Prelude.{
  ℕ, zero, suc, ◌+◌, ◌≤◌, ◌<◌, ◌≡◌, refl, sym, ap, Bool, true, false, List, [], ◌∷◌, Option, none,
  some, ltb, leb, length, arith, All,
}
use mathlib.Core.Path.{subst}
use k2s.Errors.{Result, ok, err}
use k2s.Host.{Host}
use k2s.Types.{EventEnvelope}
use k2s.Store.{Ledger, head, load, matches}
use k2s.Sync.Broker.{Subscription, Taken, got, ended, overrun, waiting, take_live}
use k2s.Sync.Durable.State.{Durable, Outcome, replay, live, count_duplicate, page_after}
use k2s.Sync.Durable.Loop.{
  count_some, use_page, use_beyond, use_new, use_seen, use_event, use_taken, use_live, use_behind,
  use_buffer, next_candidate, budget,
}
use k2s.Sync.Durable.Pages.{load-All}
use k2s.Sync.Durable.Ends.{
  needs_pos, take_live-Shorter, EndsWithin-le, advance-EndsWithin, Shorter, IsBuffered, needs, need,
  EndsWithin,
}

module _ ⦃host : Host⦄ where
  module _ (db : Ledger) (fuel : ℕ) (again : Durable → Outcome × Durable)
      (ih : (c : Durable)
        → IsBuffered c
        → need c ≤ fuel
        → EndsWithin (budget db c) db (again c)) where
    use_page-Ends :
        (d : Durable) (r : Result (List EventEnvelope))
        → load d.position.twin_id (page_after d) db ≡ r
        → IsBuffered d
        → 1 ≤ fuel
        → EndsWithin (budget db d) db (use_page again r d)
    unfolding use_page matches
    use_page-Ends d (err x) h b k = b
    use_page-Ends d (ok []) h b k = b
    use_page-Ends d (ok (e ∷ es)) h b k =
        ih (record d { replay_buffer = e ∷ es })
          (in_page (e ∷ es) (load-All d.position.twin_id (page_after d) db (e ∷ es) h)) k
      where
        in_page :
            (es : List EventEnvelope)
            → All (λ e. matches d.position.twin_id (page_after d) e ≡ true) es
            → All (λ e. e.sequence ≤ d.replay_head) es
        in_page [] a = tt
        in_page (e ∷ es) a = (ground (arith, a.0), in_page es a.1)

    -- An event in hand, with nothing buffered and nothing to replay. It stood in the queue or was
    -- deferred, so it counted in the budget `n`.
    use_event-Ends :
        (n : ℕ) (e : EventEnvelope) (d : Durable)
        → d.replay_buffer ≡ []
        → ltb d.position.sequence d.replay_head ≡ false
        → d.deferred_live ≡ none
        → length d.live.queue + 3 ≤ fuel
        → budget db d < n
        → EndsWithin n db (use_event again db e d)
    unfolding use_event use_seen use_new use_beyond
    use_event-Ends n e d nil level idle k less = by_number (leb e.sequence d.position.sequence) refl
      where
        buffered : IsBuffered d
        buffered = subst (All (λ e. e.sequence ≤ d.replay_head)) (sym nil) tt

        by_gap :
            (beyond : Bool)
            → ltb (head db d.position.twin_id).0 e.sequence ≡ beyond
            → ltb (d.position.sequence + 1) e.sequence ≡ true
            → EndsWithin n db (use_beyond again beyond e d)
        by_gap true h gap = buffered
        by_gap false h gap =
            let c : Durable = record d { deferred_live = some e; replay_head = e.sequence } in
            EndsWithin-le (budget db c) n db (again c) (ground (arith, idle, less, h, gap)) (
              ih c (subst (All (λ f. f.sequence ≤ e.sequence)) (sym nil) tt)
                (ground (arith, nil, gap, k)))

        at_next :
            leb e.sequence d.position.sequence ≡ false
            → (gap : Bool) → ltb (d.position.sequence + 1) e.sequence ≡ gap
            → EndsWithin n db (use_new again db gap e d)
        at_next new true h = by_gap (ltb (head db d.position.twin_id).0 e.sequence) refl h
        at_next new false h =
            advance-EndsWithin db n e live d buffered
              (λ twin next. ground (arith, ap (λ t. (head db t).0) twin, less))

        by_number :
            (old : Bool)
            → leb e.sequence d.position.sequence ≡ old
            → EndsWithin n db (use_seen again db old e d)
        by_number true h =
            EndsWithin-le (budget db d) n db (again (count_duplicate d)) (omega arith)
              (ih (count_duplicate d) buffered (ground (arith, nil, level, idle, k)))
        by_number false h = at_next h (ltb (d.position.sequence + 1) e.sequence) refl

    use_taken-Ends :
        (r : Taken × Subscription) (d : Durable)
        → Shorter (length d.live.queue) r
        → d.replay_buffer ≡ []
        → ltb d.position.sequence d.replay_head ≡ false
        → d.deferred_live ≡ none
        → length d.live.queue + 3 ≤ suc fuel
        → EndsWithin (budget db d) db (use_taken again db r d)
    unfolding use_taken
    use_taken-Ends (got e, s) d short nil level idle k =
        use_event-Ends (budget db d) e (record d { live = s }) nil level idle (omega arith)
          (omega arith)
    use_taken-Ends (ended, s) d short nil level idle k =
        subst (All (λ e. e.sequence ≤ d.replay_head)) (sym nil) tt
    use_taken-Ends (overrun, s) d short nil level idle k =
        subst (All (λ e. e.sequence ≤ d.replay_head)) (sym nil) tt
    use_taken-Ends (waiting, s) d short nil level idle k =
        subst (All (λ e. e.sequence ≤ d.replay_head)) (sym nil) tt

    use_live-Ends :
        (o : Option EventEnvelope) (d : Durable)
        → d.deferred_live ≡ o
        → d.replay_buffer ≡ []
        → ltb d.position.sequence d.replay_head ≡ false
        → length d.live.queue + count_some o + 3 ≤ suc fuel
        → EndsWithin (budget db d) db (use_live again db o d)
    unfolding use_live
    use_live-Ends (some e) d h nil level k =
        use_event-Ends (budget db d) e (record d { deferred_live = none }) nil level refl
          (omega arith) (ground (arith, h))
    use_live-Ends none d h nil level k =
        use_taken-Ends (take_live d.live) d (take_live-Shorter d.live) nil level h (omega arith)

    use_behind-Ends :
        (b : Bool) (d : Durable)
        → ltb d.position.sequence d.replay_head ≡ b
        → d.replay_buffer ≡ []
        → needs [] b d ≤ suc fuel
        → EndsWithin (budget db d) db (use_behind again db b d)
    unfolding use_behind
    use_behind-Ends true d h nil k =
        use_page-Ends d (load d.position.twin_id (page_after d) db) refl
          (subst (All (λ e. e.sequence ≤ d.replay_head)) (sym nil) tt) (omega arith)
    use_behind-Ends false d h nil k = use_live-Ends d.deferred_live d refl nil h k

    use_buffer-Ends :
        (es : List EventEnvelope) (d : Durable)
        → d.replay_buffer ≡ es
        → IsBuffered d
        → needs es (ltb d.position.sequence d.replay_head) d ≤ suc fuel
        → EndsWithin (budget db d) db (use_buffer again db es d)
    unfolding use_buffer
    use_buffer-Ends (e ∷ es) d h b k =
        let c : Durable = record d { replay_buffer = es } in
        let bounds = subst (All (λ f. f.sequence ≤ d.replay_head)) h b in
        advance-EndsWithin db (budget db d) e replay c bounds.1
          (λ twin next. ground (arith, ap (λ t. (head db t).0) twin, bounds.0))
    use_buffer-Ends [] d h b k = use_behind-Ends _ d refl h k

  pub next_candidate-Ends :
      (fuel : ℕ) (db : Ledger) (d : Durable)
      → IsBuffered d
      → need d ≤ fuel
      → EndsWithin (budget db d) db (next_candidate fuel db d)
  unfolding next_candidate
  next_candidate-Ends zero db d b k =
      absurd (omega (arith, needs_pos d.replay_buffer (ltb d.position.sequence d.replay_head) d, k))
  next_candidate-Ends (suc fuel) db d b k =
      use_buffer-Ends db fuel (next_candidate fuel db) (next_candidate-Ends fuel db) d.replay_buffer
        d refl b k

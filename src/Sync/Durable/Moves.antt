-- ===== src/Sync/Durable/Moves.antt =====
-- What one candidate of `_next_candidate` of argo_dt/sync.py does to the stream.
use k2s.Prelude.{
  ℕ, zero, suc, String, ◌≡◌, refl, ap, ◌∙◌, Bool, true, false, List, [], ◌∷◌, Option, none, some,
  pos, arith, Bool-cases, inl, inr,
}
use k2s.Errors.{Result, ok, err}
use k2s.Host.{Host}
use k2s.Types.{EventEnvelope, verify}
use k2s.Store.{Ledger}
use k2s.Sync.Position.{StreamPosition, new_position}
use k2s.Sync.Broker.{Subscription, Taken, got, ended, overrun, waiting, take_live}
use k2s.Sync.Durable.State.{
  Durable, Outcome, delivered, raised, stopped, waits, spent, Source, replay, live, count_duplicate,
  is_next,
}
use k2s.Sync.Durable.Loop.{
  move_to, advance_checked, advance_verified, advanced, use_page, use_beyond, use_new, use_seen,
  use_event, use_taken, use_live, use_behind, use_buffer, next_candidate,
}

abbrev pub position_of : EventEnvelope → StreamPosition
position_of e = record { twin_id = e.twin_id; sequence = e.sequence; event_hash = e.event_hash }

-- What a subscriber sees of a subscription, but for the position.
abbrev pub SameView : Durable → Durable → Type 0
SameView d c =
    (c.outstanding ≡ d.outstanding)
    × (c.acknowledged ≡ d.acknowledged)
    × (c.limits ≡ d.limits)
    × (c.event_types ≡ d.event_types)
    × (c.planes ≡ d.planes)

module _ ⦃host : Host⦄ where
  -- An event that comes next after a position, by number and by hash.
  abbrev pub Follows : StreamPosition → EventEnvelope → Type 0
  Follows p e =
      (is_next p e ≡ true)
      × (verify e p.event_hash ≡ ok tt)
      × (new_position e.twin_id (pos e.sequence) e.event_hash ≡ ok (position_of e))

  -- A candidate moves the position by one event; any other outcome leaves it.
  abbrev pub Moves : Durable → Outcome × Durable → Type 0
  Moves d (delivered e source, c) =
      Follows d.position e × (c.position ≡ position_of e) × SameView d c
  Moves d (raised error, c) = (c.position ≡ d.position) × SameView d c
  Moves d (stopped, c) = (c.position ≡ d.position) × SameView d c
  Moves d (waits, c) = (c.position ≡ d.position) × SameView d c
  Moves d (spent, c) = (c.position ≡ d.position) × SameView d c

  pub new_position-ok :
      (t h : String) (n : ℕ) (p : StreamPosition)
      → new_position t (pos n) h ≡ ok p
      → p ≡ record { twin_id = t; sequence = n; event_hash = h }
  unfolding new_position
  new_position-ok t h n p k = ground arith

  move_to-Moves :
      (e : EventEnvelope) (source : Source) (r : Result StreamPosition) (d : Durable)
      → new_position e.twin_id (pos e.sequence) e.event_hash ≡ r
      → is_next d.position e ≡ true
      → verify e d.position.event_hash ≡ ok tt
      → Moves d (advanced e source (move_to r d))
  unfolding move_to advanced
  move_to-Moves e source (err x) d h next good = (refl, (refl, refl, refl, refl, refl))
  move_to-Moves e source (ok p) d h next good =
      let eq = new_position-ok e.twin_id e.event_hash e.sequence p h in
      ((next, good, h ∙ ap ok eq), eq, (refl, refl, refl, refl, refl))

  advance_checked-Moves :
      (e : EventEnvelope) (source : Source) (r : Result (Unit {0})) (d : Durable)
      → verify e d.position.event_hash ≡ r
      → is_next d.position e ≡ true
      → Moves d (advanced e source (advance_checked r e d))
  unfolding advance_checked advanced
  advance_checked-Moves e source (err x) d h next = (refl, (refl, refl, refl, refl, refl))
  advance_checked-Moves e source (ok tt) d h next = move_to-Moves e source _ d refl next h

  advance-Moves :
      (e : EventEnvelope) (source : Source) (d : Durable)
      → Moves d (advanced e source (advance_verified e d))
  unfolding advance_verified advanced
  advance-Moves e source d = elim (Bool-cases (is_next d.position e)) [
    | inl next ↦
        rw next (advance_checked-Moves e source (verify e d.position.event_hash) d refl next)
    | inr other ↦ rw other (refl, (refl, refl, refl, refl, refl))
  ]

  -- What holds of a state holds of one that a subscriber cannot tell from it.
  Moves-SameView :
      (d c : Durable) (r : Outcome × Durable)
      → c.position ≡ d.position
      → SameView d c
      → Moves c r
      → Moves d r
  Moves-SameView d c (delivered e source, b) p v m = ground arith
  Moves-SameView d c (raised x, b) p v m = ground arith
  Moves-SameView d c (stopped, b) p v m = ground arith
  Moves-SameView d c (waits, b) p v m = ground arith
  Moves-SameView d c (spent, b) p v m = ground arith

  module _ (again : Durable → Outcome × Durable) (ih : (c : Durable) → Moves c (again c)) where
    again-Moves : (d c : Durable) → c.position ≡ d.position → SameView d c → Moves d (again c)
    again-Moves d c p v = Moves-SameView d c (again c) p v (ih c)

    use_page-Moves : (r : Result (List EventEnvelope)) (d : Durable) → Moves d (use_page again r d)
    unfolding use_page
    use_page-Moves (err x) d = (refl, (refl, refl, refl, refl, refl))
    use_page-Moves (ok []) d = (refl, (refl, refl, refl, refl, refl))
    use_page-Moves (ok (e ∷ es)) d =
        again-Moves d (record d { replay_buffer = e ∷ es }) refl (refl, refl, refl, refl, refl)

    use_beyond-Moves :
        (b : Bool) (e : EventEnvelope) (d : Durable) → Moves d (use_beyond again b e d)
    unfolding use_beyond
    use_beyond-Moves true e d = (refl, (refl, refl, refl, refl, refl))
    use_beyond-Moves false e d =
        again-Moves d (record d { deferred_live = some e; replay_head = e.sequence }) refl
          (refl, refl, refl, refl, refl)

    use_new-Moves :
        (db : Ledger) (b : Bool) (e : EventEnvelope) (d : Durable)
        → Moves d (use_new again db b e d)
    unfolding use_new
    use_new-Moves db true e d = use_beyond-Moves _ e d
    use_new-Moves db false e d = advance-Moves e live d

    use_seen-Moves :
        (db : Ledger) (b : Bool) (e : EventEnvelope) (d : Durable)
        → Moves d (use_seen again db b e d)
    unfolding use_seen
    use_seen-Moves db true e d =
        again-Moves d (count_duplicate d) refl (refl, refl, refl, refl, refl)
    use_seen-Moves db false e d = use_new-Moves db _ e d

    use_event-Moves :
        (db : Ledger) (e : EventEnvelope) (d c : Durable)
        → c.position ≡ d.position
        → SameView d c
        → Moves d (use_event again db e c)
    unfolding use_event
    use_event-Moves db e d c p v = Moves-SameView d c _ p v (use_seen-Moves db _ e c)

    use_taken-Moves :
        (db : Ledger) (r : Taken × Subscription) (d : Durable) → Moves d (use_taken again db r d)
    unfolding use_taken
    use_taken-Moves db (got e, s) d =
        use_event-Moves db e d (record d { live = s }) refl (refl, refl, refl, refl, refl)
    use_taken-Moves db (ended, s) d = (refl, (refl, refl, refl, refl, refl))
    use_taken-Moves db (overrun, s) d = (refl, (refl, refl, refl, refl, refl))
    use_taken-Moves db (waiting, s) d = (refl, (refl, refl, refl, refl, refl))

    use_live-Moves :
        (db : Ledger) (o : Option EventEnvelope) (d : Durable) → Moves d (use_live again db o d)
    unfolding use_live
    use_live-Moves db (some e) d =
        use_event-Moves db e d (record d { deferred_live = none }) refl
          (refl, refl, refl, refl, refl)
    use_live-Moves db none d = use_taken-Moves db (take_live d.live) d

    use_behind-Moves : (db : Ledger) (b : Bool) (d : Durable) → Moves d (use_behind again db b d)
    unfolding use_behind
    use_behind-Moves db true d = use_page-Moves _ d
    use_behind-Moves db false d = use_live-Moves db d.deferred_live d

    use_buffer-Moves :
        (db : Ledger) (es : List EventEnvelope) (d : Durable) → Moves d (use_buffer again db es d)
    unfolding use_buffer
    use_buffer-Moves db (e ∷ es) d =
        Moves-SameView d (record d { replay_buffer = es }) _ refl (refl, refl, refl, refl, refl)
          (advance-Moves e replay (record d { replay_buffer = es }))
    use_buffer-Moves db [] d = use_behind-Moves db _ d

  pub next_candidate-Moves :
      (fuel : ℕ) (db : Ledger) (d : Durable) → Moves d (next_candidate fuel db d)
  unfolding next_candidate
  next_candidate-Moves zero db d = (refl, (refl, refl, refl, refl, refl))
  next_candidate-Moves (suc fuel) db d =
      use_buffer-Moves (next_candidate fuel db) (next_candidate-Moves fuel db) db d.replay_buffer d

-- ===== src/Sync/Durable/Settled.antt =====
-- A call of `__anext__` of argo_dt/sync.py comes to an end.
use k2s.Prelude.{
  ℕ, zero, suc, ◌≤◌, ◌<◌, ◌≡◌, refl, Bool, true, false, List, [], ◌∷◌, leb, length, arith,
  if◌then◌else◌,
}
use k2s.Errors.{Error, Result, ok, err, integrity_error}
use k2s.Host.{Host}
use k2s.Types.{EventEnvelope}
use k2s.Store.{Ledger}
use k2s.Sync.Position.{StreamPosition}
use k2s.Sync.Durable.State.{
  Durable, Outcome, delivered, raised, stopped, waits, spent, Source, count_backpressure, aclose,
  closing, advance_ack, advance_ack_if, passes_filters,
}
use k2s.Sync.Durable.Loop.{
  next_candidate, hand_over, close_on, use_candidate, after_candidate, rounds, deliver, budget,
  anext,
}
use k2s.Sync.Durable.Ends.{IsBuffered, EndsWithin, need-le-rounds}
use k2s.Sync.Durable.Rounds.{next_candidate-Ends}

abbrev pub Settles : Outcome × Durable → Type 0
Settles (delivered e source, c) = IsBuffered c
Settles (raised error, c) = IsBuffered c
Settles (stopped, c) = IsBuffered c
Settles (waits, c) = IsBuffered c
Settles (spent, c) = ⊥

aclose-IsBuffered : (d : Durable) → IsBuffered d → IsBuffered (aclose d)
unfolding aclose
aclose-IsBuffered d b = by_closed d.closed
  where
    by_closed : (t : Bool) → IsBuffered (if t then d else closing d)
    by_closed true = b
    by_closed false = b

-- An acknowledgement touches neither the buffer nor the budget.
advance_ack-fits :
    (db : Ledger) (d : Durable)
    → IsBuffered d
    → IsBuffered (advance_ack d) × (budget db (advance_ack d) ≡ budget db d)
unfolding advance_ack advance_ack_if
advance_ack-fits db d b = by_outstanding d.outstanding
  where
    by_outstanding :
        (ps : List StreamPosition)
        → IsBuffered (advance_ack_if ps d) × (budget db (advance_ack_if ps d) ≡ budget db d)
    by_outstanding [] = (b, refl)
    by_outstanding (p ∷ ps) = (b, refl)

module _ ⦃host : Host⦄ where
  close_on-IsBuffered : (x : Error) (d : Durable) → IsBuffered d → IsBuffered (close_on x d)
  unfolding close_on
  close_on-IsBuffered integrity_error d b = aclose-IsBuffered d b
  close_on-IsBuffered _ d b = b

  hand_over-Settles :
      (e : EventEnvelope) (source : Source) (r : Result StreamPosition) (d : Durable)
      → IsBuffered d
      → Settles (hand_over e source r d)
  unfolding hand_over
  hand_over-Settles e source (err x) d b = b
  hand_over-Settles e source (ok p) d b = b

  module _ (db : Ledger) (fuel : ℕ) (again : Durable → Outcome × Durable)
      (ih : (c : Durable) → IsBuffered c → budget db c < fuel → Settles (again c)) where
    use_candidate-Settles :
        (t : Bool) (e : EventEnvelope) (source : Source) (d : Durable)
        → IsBuffered d
        → budget db d < fuel
        → Settles (use_candidate again t e source d)
    unfolding use_candidate
    use_candidate-Settles true e source d b k = hand_over-Settles e source _ d b
    use_candidate-Settles false e source d b k =
        let (b', same) = advance_ack-fits db d b in ih (advance_ack d) b' (omega arith)

    after_candidate-Settles :
        (n : ℕ) (r : Outcome × Durable)
        → n ≤ fuel
        → EndsWithin n db r
        → Settles (after_candidate again r)
    unfolding after_candidate
    after_candidate-Settles n (delivered e source, c) k w =
        use_candidate-Settles (passes_filters c e) e source c w.1 (omega (arith, w.0))
    after_candidate-Settles n (raised x, c) k w = close_on-IsBuffered x c w
    after_candidate-Settles n (stopped, c) k w = w
    after_candidate-Settles n (waits, c) k w = w
    after_candidate-Settles n (spent, c) k w = w

  deliver-Settles :
      (fuel : ℕ) (db : Ledger) (d : Durable)
      → IsBuffered d
      → budget db d < fuel
      → Settles (deliver fuel db d)
  unfolding deliver
  deliver-Settles zero db d b k = absurd (omega arith)
  deliver-Settles (suc fuel) db d b k =
      after_candidate-Settles db fuel (deliver fuel db) (deliver-Settles fuel db) (budget db d)
        (next_candidate (rounds d) db d) (omega arith)
        (next_candidate-Ends (rounds d) db d b (need-le-rounds d))

  either-Settles :
      (t : Bool) (r q : Outcome × Durable) → Settles r → Settles q → Settles (if t then r else q)
  either-Settles true r q h k = h
  either-Settles false r q h k = k

  -- If what waits in the replay buffer lies up to the head of the replay, as it does when a
  -- subscription is opened, then a call of `__anext__` never runs out of fuel, and leaves it so.
  pub anext-Settles : (db : Ledger) (d : Durable) → IsBuffered d → Settles (anext db d)
  unfolding anext
  anext-Settles db d b = either-Settles d.closed _ _ b (
      either-Settles (leb d.limits.max_in_flight (length d.outstanding)) _ _
        (aclose-IsBuffered (count_backpressure d) b)
        (deliver-Settles (suc (budget db d)) db d b (omega arith)))

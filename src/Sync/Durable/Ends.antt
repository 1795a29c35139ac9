-- ===== src/Sync/Durable/Ends.antt =====
-- What the loops of `DurableSubscription` of argo_dt/sync.py use up.
use k2s.Prelude.{
  ℕ, suc, ◌+◌, ◌≤◌, ◌<◌, String, ◌≡◌, refl, sym, Bool, true, false, List, [], ◌∷◌, Option, none,
  some, ◌==◌, eq_iff, pos, ltb, length, arith, All, if◌then◌else◌,
}
use mathlib.Core.Path.{subst}
use k2s.Errors.{Result, ok, err, integrity_error}
use k2s.Host.{Host}
use k2s.Types.{EventEnvelope, verify}
use k2s.Store.{Ledger}
use k2s.Sync.Position.{StreamPosition, new_position}
use k2s.Sync.Broker.{
  Item, published, closed_mark, Subscription, Taken, got, ended, overrun, waiting, take_live,
  take_item, how_closed,
}
use k2s.Sync.Durable.State.{
  Durable, Outcome, delivered, raised, stopped, waits, spent, Source, count_failure, is_next,
}
use k2s.Sync.Durable.Loop.{
  count_some, move_to, advance_checked, advance_verified, advanced, rounds, budget,
}
use k2s.Sync.Durable.Moves.{new_position-ok}

-- What waits in the replay buffer lies up to the head of the replay.
abbrev pub IsBuffered : Durable → Type 0
IsBuffered d = All (λ e. e.sequence ≤ d.replay_head) d.replay_buffer

-- The rounds that the next candidate may take.
abbrev pub needs : List EventEnvelope → Bool → Durable → ℕ
needs (e ∷ es) b d = 1
needs [] true d = 2
needs [] false d = length d.live.queue + count_some d.deferred_live + 3

abbrev pub need : Durable → ℕ
need d = needs d.replay_buffer (ltb d.position.sequence d.replay_head) d

pub needs_pos : (es : List EventEnvelope) (b : Bool) (d : Durable) → 1 ≤ needs es b d
needs_pos (e ∷ es) b d = omega arith
needs_pos [] true d = omega arith
needs_pos [] false d = omega arith

needs-le-rounds : (es : List EventEnvelope) (b : Bool) (d : Durable) → needs es b d ≤ rounds d
needs-le-rounds (e ∷ es) b d = omega arith
needs-le-rounds [] true d = omega arith
needs-le-rounds [] false d = omega arith

pub need-le-rounds : (d : Durable) → need d ≤ rounds d
need-le-rounds d = needs-le-rounds d.replay_buffer (ltb d.position.sequence d.replay_head) d

-- What was taken from the queue is no longer there.
abbrev pub Shorter : ℕ → Taken × Subscription → Type 0
Shorter n (got e, s) = suc (length s.queue) ≡ n
Shorter n (ended, s) = Unit
Shorter n (overrun, s) = Unit
Shorter n (waiting, s) = Unit

how_closed-Shorter :
    (n : ℕ) (reason : Option String) (s : Subscription) → Shorter n (how_closed reason, s)
unfolding how_closed
how_closed-Shorter n none s = tt
how_closed-Shorter n (some reason) s = by_test (reason == "")
  where
    by_test : (b : Bool) → Shorter n ((if b then ended else overrun), s)
    by_test true = tt
    by_test false = tt

pub take_live-Shorter : (s : Subscription) → Shorter (length s.queue) (take_live s)
unfolding take_live take_item
take_live-Shorter s = by_closed s.closed
  where
    by_item : (items : List Item) → Shorter (length items) (take_item items s)
    by_item [] = tt
    by_item (published e ∷ items) = refl
    by_item (closed_mark ∷ items) = how_closed-Shorter _ s.close_reason _

    by_closed :
        (b : Bool)
        → Shorter
            (length s.queue)
            (if b then (how_closed s.close_reason, s) else take_item s.queue s)
    by_closed true = how_closed-Shorter _ s.close_reason s
    by_closed false = by_item s.queue

module _ ⦃host : Host⦄ where
  -- A candidate uses up some of the budget, and every other outcome is no lack of fuel.
  abbrev pub EndsWithin : ℕ → Ledger → Outcome × Durable → Type 0
  EndsWithin n db (delivered e source, c) = (budget db c < n) × IsBuffered c
  EndsWithin n db (raised error, c) = IsBuffered c
  EndsWithin n db (stopped, c) = IsBuffered c
  EndsWithin n db (waits, c) = IsBuffered c
  EndsWithin n db (spent, c) = ⊥

  pub EndsWithin-le :
      (m n : ℕ) (db : Ledger) (r : Outcome × Durable)
      → m ≤ n
      → EndsWithin m db r
      → EndsWithin n db r
  EndsWithin-le m n db (delivered e source, c) h w = (omega arith, w.1)
  EndsWithin-le m n db (raised x, c) h w = w
  EndsWithin-le m n db (stopped, c) h w = w
  EndsWithin-le m n db (waits, c) h w = w
  EndsWithin-le m n db (spent, c) h w = w

  -- What is left up to a head, after one more event.
  pub advance-EndsWithin :
      (db : Ledger) (n : ℕ) (e : EventEnvelope) (source : Source) (d : Durable)
      → IsBuffered d
      → (e.twin_id ≡ d.position.twin_id
          → e.sequence ≡ d.position.sequence + 1
          → budget db (record d {
            position = record {
              twin_id = e.twin_id;
              sequence = e.sequence;
              event_hash = e.event_hash;
            };
          })
            < n)
      → EndsWithin n db (advanced e source (advance_verified e d))
  unfolding advance_verified advanced move_to advance_checked is_next
  advance-EndsWithin db n e source d b smaller = by_next (is_next d.position e) refl
    where
      moved :
          (r : Result StreamPosition)
          → new_position e.twin_id (pos e.sequence) e.event_hash ≡ r
          → is_next d.position e ≡ true
          → EndsWithin n db (advanced e source (move_to r d))
      moved (err x) h next = b
      moved (ok p) h next =
          subst (λ q. (budget db (record d { position = q }) < n) × IsBuffered d)
            (sym (new_position-ok e.twin_id e.event_hash e.sequence p h))
            (smaller (ground (arith, eq_iff e.twin_id d.position.twin_id)) (ground arith), b)

      checked :
          (r : Result (Unit {0}))
          → is_next d.position e ≡ true
          → EndsWithin n db (advanced e source (advance_checked r e d))
      checked (err x) next = b
      checked (ok u) next = moved _ refl next

      by_next :
          (t : Bool)
          → is_next d.position e ≡ t
          → EndsWithin n db (
              advanced e source (
                if t
                then advance_checked (verify e d.position.event_hash) e d
                else (some integrity_error, count_failure d)))
      by_next true next = checked _ next
      by_next false next = b

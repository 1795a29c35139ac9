-- ===== src/Sync/Durable/Kept.antt =====
-- What a call of `__anext__` of argo_dt/sync.py leaves in the window of a subscription.
use k2s.Prelude.{
  ℕ, suc, zero, ◌+◌, ◌<◌, ◌≡◌, refl, sym, ap, Bool, true, false, List, [], ◌∷◌, ◌++◌, leb, length,
  arith, if◌then◌else◌,
}
use mathlib.Core.Path.{subst}
use k2s.Errors.{Error, ok, integrity_error}
use k2s.Host.{Host}
use k2s.Types.{EventEnvelope}
use k2s.Store.{Ledger}
use k2s.Sync.Position.{StreamPosition}
use k2s.Sync.Durable.State.{
  Durable, Outcome, delivered, raised, stopped, waits, spent, Source, count_backpressure, aclose,
  passes_filters, advance_ack, advance_ack_if, closing, is_next,
}
use k2s.Sync.Durable.Loop.{
  hand_over, close_on, use_candidate, after_candidate, next_candidate, rounds, deliver, budget,
  anext,
}
use k2s.Sync.Durable.Moves.{position_of, SameView, Follows, Moves, next_candidate-Moves}
use k2s.Sync.Durable.Window.{IsWindowed, Ascending, Ascending-le, Ascending-append}

-- The window, with room for one more.
record HasRoom (d : Durable) : Type 0 where
  windowed : IsWindowed d
  room : length d.outstanding < d.limits.max_in_flight

length-append :
    (ps : List StreamPosition) (q : StreamPosition) → length (ps ++ q ∷ []) ≡ suc (length ps)
length-append [] q = refl
length-append (p ∷ ps) q = ap suc (length-append ps q)

either_IsWindowed :
    (b : Bool) (d c : Durable) → IsWindowed d → IsWindowed c → IsWindowed (if b then d else c)
either_IsWindowed true d c w v = w
either_IsWindowed false d c w v = v

aclose-IsWindowed : (d : Durable) → IsWindowed d → IsWindowed (aclose d)
unfolding aclose
aclose-IsWindowed d w =
    either_IsWindowed d.closed d (closing d) w
      (record { ascending = w.ascending; bounded = w.bounded })

advance_ack-HasRoom :
    (d : Durable)
    → Ascending d.acknowledged.sequence d.outstanding d.position.sequence
    → length d.outstanding < d.limits.max_in_flight
    → HasRoom (advance_ack d)
unfolding advance_ack advance_ack_if
advance_ack-HasRoom d a r = by_outstanding d.outstanding refl
  where
    by_outstanding : (ps : List StreamPosition) → d.outstanding ≡ ps → HasRoom (advance_ack_if ps d)
    by_outstanding [] h = record {
      windowed = record {
        ascending =
            subst (λ ps. Ascending d.position.sequence ps d.position.sequence) (sym h)
              (omega arith);
        bounded = omega (arith, r);
      };
      room = r;
    }
    by_outstanding (p ∷ ps) h = record {
      windowed = record { ascending = a; bounded = omega (arith, r) };
      room = r;
    }

module _ ⦃host : Host⦄ where
  -- A window is kept, and an event that is handed over is its last position.
  abbrev pub HandsOver : Outcome × Durable → Type 0
  HandsOver (delivered e source, c) =
      IsWindowed c
      × (c.position ≡ position_of e)
      × ((ps : List StreamPosition) × (c.outstanding ≡ ps ++ position_of e ∷ []))
  HandsOver (raised x, c) = IsWindowed c
  HandsOver (stopped, c) = IsWindowed c
  HandsOver (waits, c) = IsWindowed c
  HandsOver (spent, c) = IsWindowed c

  SameView-IsWindowed :
      (d c : Durable) → c.position ≡ d.position → SameView d c → IsWindowed d → IsWindowed c
  SameView-IsWindowed d c p (o, a, l, ts, ps) w = record {
    ascending = rw (o, a, p) w.ascending;
    bounded = rw (o, l) w.bounded;
  }

  Follows-next :
      (p : StreamPosition) (e : EventEnvelope) → Follows p e → e.sequence ≡ p.sequence + 1
  unfolding is_next
  Follows-next p e f = ground (arith, f.0)

  -- A candidate lies beyond the window.
  moved-Ascending :
      (d c : Durable) (e : EventEnvelope)
      → HasRoom d
      → Moves d (delivered e Source.replay, c)
      → Ascending c.acknowledged.sequence c.outstanding d.position.sequence
        × (d.position.sequence < e.sequence)
        × (length c.outstanding < c.limits.max_in_flight)
  moved-Ascending d c e h (follows, moved, (o, a, l, ts, ps)) = (
    rw (o, a) h.windowed.ascending,
    omega (arith, Follows-next d.position e follows),
    rw (o, l) h.room,
  )

  hand_over-HandsOver :
      (e : EventEnvelope) (source : Source) (d c : Durable)
      → HasRoom d
      → Moves d (delivered e Source.replay, c)
      → HandsOver (hand_over e source (ok (position_of e)) c)
  unfolding hand_over
  hand_over-HandsOver e source d c h m =
      let (up, beyond, room) = moved-Ascending d c e h m in
      (
        record {
          ascending =
              subst
                (λ p.
                  Ascending c.acknowledged.sequence (c.outstanding ++ position_of e ∷ [])
                    p.sequence)
                (sym m.1)
                (Ascending-append c.acknowledged.sequence c.outstanding d.position.sequence
                  (position_of e) beyond up);
          bounded = omega (arith, room, length-append c.outstanding (position_of e));
        },
        m.1,
        (c.outstanding, refl),
      )

  pass_over-HasRoom :
      (d c : Durable) (e : EventEnvelope)
      → HasRoom d
      → Moves d (delivered e Source.replay, c)
      → HasRoom (advance_ack c)
  pass_over-HasRoom d c e h m =
      let (up, beyond, room) = moved-Ascending d c e h m in
      advance_ack-HasRoom c
        (Ascending-le c.acknowledged.sequence c.outstanding d.position.sequence c.position.sequence
          (rw m.1 (omega (arith, beyond))) up)
        room

  close_on-IsWindowed : (x : Error) (d : Durable) → IsWindowed d → IsWindowed (close_on x d)
  unfolding close_on
  close_on-IsWindowed integrity_error d w = aclose-IsWindowed d w
  close_on-IsWindowed _ d w = w

  module _ (again : Durable → Outcome × Durable)
      (ih : (c : Durable) → HasRoom c → HandsOver (again c)) where
    use_candidate-HandsOver :
        (b : Bool) (e : EventEnvelope) (source : Source) (d c : Durable)
        → HasRoom d
        → Moves d (delivered e source, c)
        → HandsOver (use_candidate again b e source c)
    unfolding use_candidate
    use_candidate-HandsOver true e source d c h m =
        subst (λ r. HandsOver (hand_over e source r c)) (sym m.0.2)
          (hand_over-HandsOver e source d c h m)
    use_candidate-HandsOver false e source d c h m =
        ih (advance_ack c) (pass_over-HasRoom d c e h m)

    after_candidate-HandsOver :
        (d : Durable) (r : Outcome × Durable)
        → HasRoom d
        → Moves d r
        → HandsOver (after_candidate again r)
    unfolding after_candidate
    after_candidate-HandsOver d (delivered e source, c) h m =
        use_candidate-HandsOver (passes_filters c e) e source d c h m
    after_candidate-HandsOver d (raised x, c) h (p, v) =
        close_on-IsWindowed x c (SameView-IsWindowed d c p v h.windowed)
    after_candidate-HandsOver d (stopped, c) h (p, v) = SameView-IsWindowed d c p v h.windowed
    after_candidate-HandsOver d (waits, c) h (p, v) = SameView-IsWindowed d c p v h.windowed
    after_candidate-HandsOver d (spent, c) h (p, v) = SameView-IsWindowed d c p v h.windowed

  deliver-HandsOver :
      (fuel : ℕ) (db : Ledger) (d : Durable) → HasRoom d → HandsOver (deliver fuel db d)
  unfolding deliver
  deliver-HandsOver zero db d h = h.windowed
  deliver-HandsOver (suc fuel) db d h =
      after_candidate-HandsOver (deliver fuel db) (deliver-HandsOver fuel db) d
        (next_candidate (rounds d) db d) h (next_candidate-Moves (rounds d) db d)

  either_HandsOver :
      (b : Bool) (r q : Outcome × Durable)
      → (b ≡ true → HandsOver r)
      → (b ≡ false → HandsOver q)
      → HandsOver (if b then r else q)
  either_HandsOver true r q h k = h refl
  either_HandsOver false r q h k = k refl

  -- A call of `__anext__` keeps the window ascending and bounded; an event that it hands over is
  -- where the subscription stands, and the last position of the window.
  pub anext-HandsOver : (db : Ledger) (d : Durable) → IsWindowed d → HandsOver (anext db d)
  unfolding anext
  anext-HandsOver db d w =
      either_HandsOver d.closed _ _ (λ shut. w)
        (λ open_.
          either_HandsOver (leb d.limits.max_in_flight (length d.outstanding)) _ _
            (λ full.
              aclose-IsWindowed (count_backpressure d)
                (record { ascending = w.ascending; bounded = w.bounded }))
            (λ free.
              deliver-HandsOver (suc (budget db d)) db d
                (record { windowed = w; room = ground (arith, free) })))
